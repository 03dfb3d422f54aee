-- ===== src/Checksum/Frame.antt =====
-- `checksum` on whole frames: what a well-formed IPv4 or IPv6 frame is, and the path through the
-- code that it takes.
pub mod Ip4
pub mod Ip6
pub mod Short
pub mod Accepted
use xdpacket.Base.{
  ℕ, zero, suc, ◌+◌, ◌-◌, ◌*◌, ◌/◌, ◌%◌, ◌^◌, ◌≤◌, ◌<◌, ◌≡◌, ◌≢◌, refl, ap, arith, Bool, true, ◌||◌,
  some, ◌>>=◌, ◌==◌, if◌then◌else◌, get_or, drop, length, IsBytes, length-drop, get_or-drop,
  get_elem?-eq-get_or,
}
use xdpacket.Checksum.{
  Mem, Rule, plain, never_zero, Outcome, finish, ◌>=>◌, fill_check, be16, fill_l4, by_version,
  checksum, ones_sum, pseudo_ip4, pseudo_ip6,
}
use xdpacket.Checksum.Sum.{block_sum, block_sum-le, block_sum_ext, ones_sum-eq}

pub be16-eq :
    (mem : Mem) (i : ℕ)
    → i + 2 ≤ length mem
    → be16 mem i ≡ some (get_or mem i 0 * 256 + get_or mem (suc i) 0)
unfolding be16
be16-eq mem i h = ground (arith, get_elem?-eq-get_or mem i 0, get_elem?-eq-get_or mem (i + 1) 0)

-- Of each l4 protocol: the place of its checksum, how it is written, and whether the
-- pseudo-header counts.
abbrev pub check_at : ℕ → ℕ
check_at protocol = if protocol == 6 then 16 else if protocol == 17 then 6 else 2

abbrev pub check_rule : ℕ → Rule
check_rule protocol = if protocol == 17 then never_zero else plain

abbrev pub check_seed : ℕ → ℕ → ℕ
check_seed protocol pseudo = if protocol == 1 then 0 else pseudo

abbrev pub is_known : ℕ → Bool
is_known protocol = protocol == 6 || protocol == 17 || protocol == 1 || protocol == 58

pub check_at-even : (protocol : ℕ) → check_at protocol % 2 ≡ 0
check_at-even protocol = ground arith

pub check_seed-le :
    (protocol pseudo bound : ℕ) → pseudo ≤ bound → check_seed protocol pseudo ≤ bound
check_seed-le protocol pseudo bound h = ground arith

pub fill_l4-eq :
    (mem : Mem) (l4 l4_len pseudo protocol : ℕ)
    → is_known protocol ≡ true
    → fill_l4 mem l4 l4_len pseudo protocol
      ≡ finish (
          fill_check
            (check_rule protocol)
            mem
            l4
            (check_at protocol)
            l4_len
            (check_seed protocol pseudo))
unfolding fill_l4
fill_l4-eq mem l4 l4_len pseudo protocol known = ground arith

-- The pseudo-headers summed with no wrap.
unfoldable pub pseudo4 : Mem → ℕ → ℕ → ℕ
pseudo4 mem protocol l4_len =
    block_sum (drop 26 mem) 4
    + block_sum (drop 30 mem) 4
    + protocol * 256
    + (l4_len % 256 * 256 + l4_len / 256)

unfoldable pub pseudo6 : Mem → ℕ → ℕ
pseudo6 mem nexthdr =
    block_sum (drop 22 mem) 16
    + block_sum (drop 38 mem) 16
    + block_sum (drop 18 mem) 2
    + nexthdr * 256

pub drop-IsBytes : (n : ℕ) (mem : Mem) → IsBytes mem → IsBytes (drop n mem)
drop-IsBytes n mem h i = omega (arith, get_or-drop n i mem 0, h (n + i))

module _ (mem : Mem) (all_bytes : IsBytes mem) where
  pub pseudo_ip4-eq :
      (protocol l4_len : ℕ)
      → 34 ≤ length mem
      → protocol < 256
      → l4_len < 2 ^ 16
      → pseudo_ip4 mem protocol l4_len ≡ some (pseudo4 mem protocol l4_len)
  unfolding pseudo_ip4 pseudo4
  pseudo_ip4-eq protocol l4_len fits p l = ground (
    arith,
    ones_sum-eq (drop 26 mem) 4 0,
    ones_sum-eq (drop 30 mem) 4 (block_sum (drop 26 mem) 4),
    block_sum-le (drop 26 mem) 4 (drop-IsBytes 26 mem all_bytes),
    block_sum-le (drop 30 mem) 4 (drop-IsBytes 30 mem all_bytes),
    length-drop 26 mem,
    length-drop 30 mem,
  )

  pub pseudo4-le :
      (protocol l4_len : ℕ)
      → protocol < 256
      → l4_len < 2 ^ 16
      → pseudo4 mem protocol l4_len ≤ 2 ^ 24
  unfolding pseudo4
  pseudo4-le protocol l4_len p l = omega (
    arith,
    block_sum-le (drop 26 mem) 4 (drop-IsBytes 26 mem all_bytes),
    block_sum-le (drop 30 mem) 4 (drop-IsBytes 30 mem all_bytes),
  )

  pub pseudo_ip6-eq :
      (nexthdr : ℕ)
      → 54 ≤ length mem
      → nexthdr < 256
      → pseudo_ip6 mem nexthdr ≡ some (pseudo6 mem nexthdr)
  unfolding pseudo_ip6 pseudo6
  pseudo_ip6-eq nexthdr fits p =
      let a = block_sum-le (drop 22 mem) 16 (drop-IsBytes 22 mem all_bytes) in
      let b = block_sum-le (drop 38 mem) 16 (drop-IsBytes 38 mem all_bytes) in
      let c = block_sum-le (drop 18 mem) 2 (drop-IsBytes 18 mem all_bytes) in
      rw
        (
          ones_sum-eq (drop 22 mem) 16 0 (omega (arith, length-drop 22 mem)) (omega arith),
          ones_sum-eq (drop 38 mem) 16 (0 + block_sum (drop 22 mem) 16)
              (omega (arith, length-drop 38 mem)) (omega arith),
          ones_sum-eq (drop 18 mem) 2 (0 + block_sum (drop 22 mem) 16 + block_sum (drop 38 mem) 16)
              (omega (arith, length-drop 18 mem)) (omega arith),
        )
        (ap some (omega arith))

  pub pseudo6-le : (nexthdr : ℕ) → nexthdr < 256 → pseudo6 mem nexthdr ≤ 2 ^ 24
  unfolding pseudo6
  pseudo6-le nexthdr p = omega (
    arith,
    block_sum-le (drop 22 mem) 16 (drop-IsBytes 22 mem all_bytes),
    block_sum-le (drop 38 mem) 16 (drop-IsBytes 38 mem all_bytes),
    block_sum-le (drop 18 mem) 2 (drop-IsBytes 18 mem all_bytes),
  )

-- A block that two memories share sums to the same.
pub drop_sum_ext :
    (start count : ℕ) (mem mem' : Mem)
    → start + count ≤ length mem
    → length mem' ≡ length mem
    → ((i : ℕ) → start ≤ i → i < start + count → get_or mem' i 0 ≡ get_or mem i 0)
    → block_sum (drop start mem') count ≡ block_sum (drop start mem) count
drop_sum_ext start count mem mem' fits same h =
    block_sum_ext count (drop start mem') (drop start mem) (omega (arith, length-drop start mem'))
      (omega (arith, length-drop start mem))
      λ i lt. omega (
        arith,
        get_or-drop start i mem 0,
        get_or-drop start i mem' 0,
        h (start + i) (omega arith) (omega arith),
      )

-- An ethernet frame of `len` bytes that carries IP: the part that both versions share.
pub record IsIpFrame (mem : Mem) (len : ℕ) : Type 0 where
  pub bytes : IsBytes mem
  pub long : 34 < len
  pub short : len ≤ 65535
  pub held : len ≤ length mem
  pub proto_hi : get_or mem 12 0 ≡ 8
  pub proto_lo : get_or mem 13 0 ≡ 0

pub checksum-by_version :
    (mem : Mem) (len : ℕ)
    → IsIpFrame mem len
    → checksum (some mem) len ≡ by_version mem len (get_or mem 14 0)
unfolding checksum
checksum-by_version mem len f = ground (arith, be16-eq mem 12, get_elem?-eq-get_or mem 14 0)
