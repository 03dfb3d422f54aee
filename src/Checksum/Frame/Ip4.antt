-- ===== src/Checksum/Frame/Ip4.antt =====
-- The IPv4 path of `checksum`.
use xdpacket.Base.{
  ℕ, ◌+◌, ◌-◌, ◌*◌, ◌/◌, ◌^◌, ◌≤◌, ◌<◌, ◌≡◌, ◌≢◌, refl, ap, ◌∙◌, arith, true, some, get_or, drop,
  length, get_elem?-eq-get_or, get_elem?, u64, ltb, false,
}
use xdpacket.Checksum.{
  Mem, plain, done, chk_ok, finish, fill_check, fill_l4, pseudo_ip4, by_version, checksum_ip4,
  checksum, ones_final,
}
use xdpacket.Checksum.Sum.{block_sum}
use xdpacket.Checksum.Fill.{IsFilled, fill_check_total}
use xdpacket.Checksum.Frame.{
  IsIpFrame, be16-eq, check_at, check_rule, check_seed, check_at-even, check_seed-le, drop_sum_ext,
  is_known, fill_l4-eq, pseudo4, pseudo_ip4-eq, pseudo4-le, checksum-by_version,
}

-- A frame with an IPv4 header of `ihl` 32-bit words and `l4_len` bytes behind it, all inside `len`.
pub record IsIp4 (mem : Mem) (len ihl l4_len : ℕ) : Type 0 where
  pub frame : IsIpFrame mem len
  pub version : get_or mem 14 0 ≡ 64 + ihl
  pub ihl_min : 5 ≤ ihl
  pub ihl_max : ihl < 16
  pub total : get_or mem 16 0 * 256 + get_or mem 17 0 ≡ ihl * 4 + l4_len
  pub inside : 14 + ihl * 4 + l4_len ≤ len

-- What a receiver computes over `mem`: the IP header verifies, and so does the l4 block with its
-- pseudo-header.
pub record Verifies4 (mem : Mem) (ihl l4_len protocol : ℕ) : Type 0 where
  pub header : ones_final (block_sum (drop 14 mem) (ihl * 4)) ≡ 0
  pub payload :
      ones_final (
        check_seed protocol (pseudo4 mem protocol l4_len)
        + block_sum (drop (14 + ihl * 4) mem) l4_len)
      ≡ 0

-- Only the two checksum fields of `mem` differ in `mem'`.
pub record OnlyChecks (mem mem' : Mem) (l4_check : ℕ) : Type 0 where
  pub same_length : length mem' ≡ length mem
  pub outside :
      (j : ℕ) → j ≢ 24 → j ≢ 25 → j ≢ l4_check → j ≢ l4_check + 1 → get_or mem' j 0 ≡ get_or mem j 0

module _ (mem : Mem) (len ihl l4_len : ℕ) (ip : IsIp4 mem len ihl l4_len) where
  abbrev protocol : ℕ
  protocol = get_or mem 23 0

  header-IsFilled :
      (mem' : Mem) × (fill_check plain mem 14 10 (ihl * 4) 0 ≡ some mem')
      × IsFilled mem 14 10 (ihl * 4) 0 mem'
  header-IsFilled =
      fill_check_total plain mem 14 10 (ihl * 4) 0 refl (omega arith) (omega arith) (omega arith)
        (omega arith) ip.frame.bytes

  abbrev mid : Mem
  mid = header-IsFilled.0

  mid-IsFilled : IsFilled mem 14 10 (ihl * 4) 0 mid
  mid-IsFilled = header-IsFilled.2

  mid-protocol : get_elem? mid 23 ≡ some protocol
  mid-protocol =
      get_elem?-eq-get_or mid 23 0 (omega (arith, mid-IsFilled.same_length))
      ∙ ap some (mid-IsFilled.outside 23 (omega arith) (omega arith))

  mid-pseudo : pseudo_ip4 mid protocol l4_len ≡ some (pseudo4 mid protocol l4_len)
  mid-pseudo =
      pseudo_ip4-eq mid mid-IsFilled.bytes protocol l4_len (omega (arith, mid-IsFilled.same_length))
        (ip.frame.bytes 23) (omega arith)

  mid-pseudo-le : pseudo4 mid protocol l4_len ≤ 2 ^ 24
  mid-pseudo-le =
      pseudo4-le mid mid-IsFilled.bytes protocol l4_len (ip.frame.bytes 23) (omega arith)

  to_ip4 : checksum (some mem) len ≡ checksum_ip4 mem len ihl
  unfolding by_version
  to_ip4 = checksum-by_version mem len ip.frame ∙ ground arith

  length_ok : ltb (u64 (len + 2 ^ 64 - 14 - ihl * 4)) l4_len ≡ false
  length_ok = ground arith

  -- The sanity checks pass, the header is filled, and the l4 part runs on the result.
  to_fill_l4 :
      checksum (some mem) len
      ≡ fill_l4 mid (14 + ihl * 4) l4_len (pseudo4 mid protocol l4_len) protocol
  unfolding checksum_ip4
  to_fill_l4 = to_ip4 ∙ ground (arith, be16-eq mem 16, header-IsFilled.1, mid-protocol, mid-pseudo)

  module _ (known : is_known protocol ≡ true)
      (room : check_at protocol + 2 ≤ 2 * (l4_len / 2)) where
    l4-IsFilled :
        (mem' : Mem) × (fill_check
            (check_rule protocol)
            mid
            (14 + ihl * 4)
            (check_at protocol)
            l4_len
            (check_seed protocol (pseudo4 mid protocol l4_len))
          ≡ some mem')
        × IsFilled mid
            (14 + ihl * 4)
            (check_at protocol)
            l4_len
            (check_seed protocol (pseudo4 mid protocol l4_len))
            mem'
    l4-IsFilled =
        fill_check_total (check_rule protocol) mid (14 + ihl * 4) (check_at protocol) l4_len
          (check_seed protocol (pseudo4 mid protocol l4_len)) (check_at-even protocol) room
          (omega (arith, mid-IsFilled.same_length)) (omega arith)
          (check_seed-le protocol (pseudo4 mid protocol l4_len) (2 ^ 24) mid-pseudo-le)
          mid-IsFilled.bytes

    abbrev out : Mem
    out = l4-IsFilled.0

    out-IsFilled :
        IsFilled mid
          (14 + ihl * 4)
          (check_at protocol)
          l4_len
          (check_seed protocol (pseudo4 mid protocol l4_len))
          out
    out-IsFilled = l4-IsFilled.2

    -- The l4 part writes behind the IP header.
    below : (i : ℕ) → i < 14 + ihl * 4 → get_or out i 0 ≡ get_or mid i 0
    below i lt = out-IsFilled.outside i (omega arith) (omega arith)

    same_sum :
        (start count : ℕ)
        → start + count ≤ 14 + ihl * 4
        → block_sum (drop start out) count ≡ block_sum (drop start mid) count
    same_sum start count h =
        drop_sum_ext start count mid out (omega (arith, mid-IsFilled.same_length))
          out-IsFilled.same_length (λ i p q. below i (omega arith))

    same_pseudo : pseudo4 out protocol l4_len ≡ pseudo4 mid protocol l4_len
    unfolding pseudo4
    same_pseudo = omega (arith, same_sum 26 4 (omega arith), same_sum 30 4 (omega arith))

    out-Verifies4 : Verifies4 out ihl l4_len protocol
    out-Verifies4 = record {
      header =
          ap ones_final (omega (arith, same_sum 14 (ihl * 4) (omega arith)))
          ∙ mid-IsFilled.verifies;
      payload = rw same_pseudo out-IsFilled.verifies;
    }

    out-OnlyChecks : OnlyChecks mem out (14 + ihl * 4 + check_at protocol)
    out-OnlyChecks = record {
      same_length = out-IsFilled.same_length ∙ mid-IsFilled.same_length;
      outside = λ j a b c d. out-IsFilled.outside j c d ∙ mid-IsFilled.outside j a b;
    }

    -- A well-formed IPv4 frame of a known protocol, with room for its l4 header: `checksum`
    -- succeeds without leaving the frame, a receiver's two sums verify, and no byte but the two
    -- checksum fields is changed.
    pub checksum-Verifies4 :
        (mem' : Mem) × (checksum (some mem) len ≡ done chk_ok mem')
        × Verifies4 mem' ihl l4_len protocol
        × OnlyChecks mem mem' (14 + ihl * 4 + check_at protocol)
    checksum-Verifies4 = (
      out,
      to_fill_l4
          ∙ fill_l4-eq mid (14 + ihl * 4) l4_len (pseudo4 mid protocol l4_len) protocol known
          ∙ ap finish l4-IsFilled.1,
      out-Verifies4,
      out-OnlyChecks,
    )
