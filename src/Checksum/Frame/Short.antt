-- ===== src/Checksum/Frame/Short.antt =====
-- A frame shorter than the IPv4 header that it announces.
use xdpacket.Base.{
  ℕ, zero, suc, ◌+◌, ◌-◌, ◌*◌, ◌/◌, ◌%◌, ◌^◌, ◌≤◌, ◌<◌, ◌≡◌, refl, ◌∙◌, arith, false, none, some,
  [], ◌∷◌, get_or, drop, length, length-drop, u64, ltb,
}
use xdpacket.Checksum.{
  Mem, plain, fault, sum_words, ones_sum, fill_check, by_version, checksum_ip4, checksum,
}
use xdpacket.Checksum.Fill.{write16, write16-length, store16-eq}
use xdpacket.Checksum.Frame.{IsIpFrame, be16-eq, checksum-by_version}

sum_words-none : (n : ℕ) (bs : Mem) (s : ℕ) → length bs < 2 * n → sum_words n bs s ≡ none
unfolding sum_words
sum_words-none zero bs s h = absurd (omega arith)
sum_words-none (suc n) [] s h = refl
sum_words-none (suc n) (lo ∷ []) s h = refl
sum_words-none (suc n) (lo ∷ hi ∷ bs) s h = sum_words-none n bs _ (omega arith)

-- An IPv4 frame that ends inside its own header, in memory that ends with it.
pub record IsCut (mem : Mem) (len ihl : ℕ) : Type 0 where
  pub frame : IsIpFrame mem len
  pub version : get_or mem 14 0 ≡ 64 + ihl
  pub ihl_min : 5 ≤ ihl
  pub ihl_max : ihl < 16
  pub cut : len < 14 + ihl * 4
  pub exact : length mem ≡ len

module _ (mem : Mem) (len ihl : ℕ) (ip : IsCut mem len ihl) where
  to_ip4 : checksum (some mem) len ≡ checksum_ip4 mem len ihl
  unfolding by_version
  to_ip4 = checksum-by_version mem len ip.frame ∙ ground arith

  -- `len - sizeof(*l2) - head_len` wraps, so the length check refuses nothing.
  no_refusal :
      (l4_len : ℕ) → l4_len < 2 ^ 16 → ltb (u64 (len + 2 ^ 64 - 14 - ihl * 4)) l4_len ≡ false
  no_refusal l4_len h = ground arith

  header-fault : fill_check plain mem 14 10 (ihl * 4) 0 ≡ none
  unfolding fill_check ones_sum
  header-fault = ground (
    arith,
    store16-eq mem 24 0,
    sum_words-none (ihl * 4 / 2) (drop 14 (write16 mem 24 0)) 0,
    length-drop 14 (write16 mem 24 0),
    write16-length mem 24 0,
  )

  -- On an IPv4 frame of more than 34 bytes that ends inside its own header, which is then longer than
  -- 20 bytes, `checksum` reads behind the end of the
  -- frame, whatever total length the header gives: the check of lengths wraps around.
  pub checksum-fault : checksum (some mem) len ≡ fault
  unfolding checksum_ip4
  checksum-fault =
      to_ip4
      ∙ ground (
        arith,
        be16-eq mem 16,
        no_refusal ((get_or mem 16 0 * 256 + get_or mem 17 0 + 2 ^ 16 - ihl * 4) % 2 ^ 16),
        header-fault,
      )
