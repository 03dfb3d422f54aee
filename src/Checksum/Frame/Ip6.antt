-- ===== src/Checksum/Frame/Ip6.antt =====
-- The IPv6 path of `checksum`: a fixed header with no checksum of its own.
use xdpacket.Base.{
  ℕ, ◌+◌, ◌-◌, ◌*◌, ◌/◌, ◌^◌, ◌≤◌, ◌≡◌, ◌≢◌, ap, ◌∙◌, arith, true, false, some, get_or, drop,
  length, get_elem?-eq-get_or, u64, ltb,
}
use xdpacket.Checksum.{
  Mem, done, chk_ok, finish, fill_check, fill_l4, pseudo_ip6, by_version, checksum_ip6, checksum,
  ones_final,
}
use xdpacket.Checksum.Sum.{block_sum}
use xdpacket.Checksum.Fill.{IsFilled, fill_check_total}
use xdpacket.Checksum.Frame.{
  IsIpFrame, be16-eq, check_at, check_rule, check_seed, check_at-even, check_seed-le, drop_sum_ext,
  is_known, fill_l4-eq, pseudo6, pseudo_ip6-eq, pseudo6-le, checksum-by_version,
}

-- A frame with an IPv6 header and `l4_len` bytes of a known protocol behind it, all inside `len`. Its
-- ethertype is that of IPv4, since the code takes no other.
pub record IsIp6 (mem : Mem) (len l4_len : ℕ) : Type 0 where
  pub frame : IsIpFrame mem len
  pub version : get_or mem 14 0 / 16 ≡ 6
  pub payload_len : get_or mem 18 0 * 256 + get_or mem 19 0 ≡ l4_len
  pub inside : 54 + l4_len ≤ len
  pub known : is_known (get_or mem 20 0) ≡ true
  pub room : check_at (get_or mem 20 0) + 2 ≤ 2 * (l4_len / 2)

-- What a receiver computes over `mem`.
abbrev pub Verifies6 : Mem → ℕ → ℕ → Type 0
Verifies6 mem l4_len nexthdr =
    ones_final (check_seed nexthdr (pseudo6 mem nexthdr) + block_sum (drop 54 mem) l4_len) ≡ 0

-- Only the checksum field of the l4 header differs.
pub record OnlyCheck (mem mem' : Mem) (l4_check : ℕ) : Type 0 where
  pub same_length : length mem' ≡ length mem
  pub outside : (j : ℕ) → j ≢ l4_check → j ≢ l4_check + 1 → get_or mem' j 0 ≡ get_or mem j 0

module _ (mem : Mem) (len l4_len : ℕ) (ip : IsIp6 mem len l4_len) where
  abbrev nexthdr : ℕ
  nexthdr = get_or mem 20 0

  pseudo_eq : pseudo_ip6 mem nexthdr ≡ some (pseudo6 mem nexthdr)
  pseudo_eq =
      pseudo_ip6-eq mem ip.frame.bytes nexthdr (omega (arith, ip.frame.held)) (ip.frame.bytes 20)

  length_ok : ltb (u64 (len + 2 ^ 64 - 14 - 40)) l4_len ≡ false
  length_ok = ground arith

  to_ip6 : checksum (some mem) len ≡ checksum_ip6 mem len
  unfolding by_version
  to_ip6 = checksum-by_version mem len ip.frame ∙ ground arith

  to_fill_l4 : checksum (some mem) len ≡ fill_l4 mem 54 l4_len (pseudo6 mem nexthdr) nexthdr
  unfolding checksum_ip6
  to_fill_l4 =
      to_ip6 ∙ ground (arith, be16-eq mem 18, length_ok, get_elem?-eq-get_or mem 20 0, pseudo_eq)

  l4-IsFilled :
      (mem' : Mem) × (fill_check
          (check_rule nexthdr)
          mem
          54
          (check_at nexthdr)
          l4_len
          (check_seed nexthdr (pseudo6 mem nexthdr))
        ≡ some mem')
      × IsFilled mem 54 (check_at nexthdr) l4_len (check_seed nexthdr (pseudo6 mem nexthdr)) mem'
  l4-IsFilled =
      fill_check_total (check_rule nexthdr) mem 54 (check_at nexthdr) l4_len
        (check_seed nexthdr (pseudo6 mem nexthdr)) (check_at-even nexthdr) ip.room (omega arith)
        (omega arith)
        (check_seed-le nexthdr (pseudo6 mem nexthdr) (2 ^ 24)
          (pseudo6-le mem ip.frame.bytes nexthdr (ip.frame.bytes 20)))
        ip.frame.bytes

  abbrev out : Mem
  out = l4-IsFilled.0

  out-IsFilled :
      IsFilled mem 54 (check_at nexthdr) l4_len (check_seed nexthdr (pseudo6 mem nexthdr)) out
  out-IsFilled = l4-IsFilled.2

  same_sum :
      (start count : ℕ)
      → start + count ≤ 54
      → block_sum (drop start out) count ≡ block_sum (drop start mem) count
  same_sum start count h =
      drop_sum_ext start count mem out (omega (arith, ip.frame.held, ip.inside))
        out-IsFilled.same_length (λ i p q. out-IsFilled.outside i (omega arith) (omega arith))

  same_pseudo : pseudo6 out nexthdr ≡ pseudo6 mem nexthdr
  unfolding pseudo6
  same_pseudo = omega (
    arith,
    same_sum 22 16 (omega arith),
    same_sum 38 16 (omega arith),
    same_sum 18 2 (omega arith),
  )

  -- A frame of the ethertype 0x0800 of IPv4 that carries an IPv6 header and a payload of a known
  -- protocol, with room for its l4 header: `checksum` succeeds without leaving the frame, a receiver's sum over the pseudo-header and the payload
  -- verifies, and no byte but the checksum field is changed.
  pub checksum-Verifies6 :
      (mem' : Mem) × (checksum (some mem) len ≡ done chk_ok mem')
      × Verifies6 mem' l4_len nexthdr
      × OnlyCheck mem mem' (54 + check_at nexthdr)
  checksum-Verifies6 = (
    out,
    to_fill_l4
        ∙ fill_l4-eq mem 54 l4_len (pseudo6 mem nexthdr) nexthdr ip.known
        ∙ ap finish l4-IsFilled.1,
    rw same_pseudo out-IsFilled.verifies,
    record { same_length = out-IsFilled.same_length; outside = out-IsFilled.outside },
  )
