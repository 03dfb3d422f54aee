-- ===== src/Operations/RoundTrip.antt =====
-- What was written is matched.
use xdpacket.Base.{
  ℕ, suc, ◌+◌, ◌-◌, ◌<◌, ◌≡◌, ap, ap₂, sym, ◌∙◌, arith, true, Option, some, bit_and, bit_or,
}
use xdpacket.Base.Bits.{merge, merge_and, and_twice}
use xdpacket.Memory.{Place, Memory, Ptr, byte, apart}
use xdpacket.Memory.Laws.{same_place_iff}
use xdpacket.Operations.{OpSet, last_byte, op_write, op_match}
use xdpacket.Operations.Resolve.{IsSound}
use xdpacket.Operations.Match.{LenMatch, AreasMatch, op_match_decides}
use xdpacket.Operations.Write.{IsWritten, HasAreas, op_write-IsWritten}

-- With one mask for both fields the last byte keeps the old bits outside it and takes the new ones
-- inside it.
last_byte-merge :
    (op : OpSet) (old new mask : ℕ)
    → op.set_to.mask ≡ mask
    → op.set_from.mask ≡ mask
    → mask < 256
    → last_byte op old new ≡ merge 255 old new mask
unfolding last_byte
last_byte-merge op old new mask a b lt =
    rw (a, b) (ap (bit_or (bit_and old (255 - mask))) (and_twice new mask lt))

LenMatch-areas :
    (op : OpSet) (m : Memory) (n k : ℕ) (to from : Ptr) (a b : Option Ptr)
    → k ≡ suc n
    → a ≡ some to
    → b ≡ some from
    → AreasMatch op m n to from
    → LenMatch op m k a b
LenMatch-areas op m n k to from a b e p q h = rw (e, p, q) h

module _ (op : OpSet) (m : Memory) (plen n mask : ℕ) (to from : Ptr) (sound : IsSound op m plen)
    (areas : HasAreas op plen n to from) (free : apart to from (suc n) ≡ true)
    (to_mask : op.set_to.mask ≡ mask) (from_mask : op.set_from.mask ≡ mask)
    (mask_fits : mask < 256) where
  module _ (out : Memory) (w : IsWritten op m n to from out) where
    out-IsSound : IsSound op out plen
    out-IsSound = record {
      held = omega (arith, sound.held, w.same_length Place.packet);
      same_len = sound.same_len;
      to_ref = λ r e. omega (arith, sound.to_ref r e, w.same_length (Place.memref r));
      from_ref = λ r e. omega (arith, sound.from_ref r e, w.same_length (Place.memref r));
    }

    source_kept :
        (j : ℕ) → j < suc n → byte out from.place (from.off + j) ≡ byte m from.place (from.off + j)
    source_kept j lt =
        w.outside from.place (from.off + j) (ground (arith, same_place_iff to.place from.place))

    abbrev old : ℕ
    old = byte m to.place (to.off + n)

    abbrev new : ℕ
    new = byte m from.place (from.off + n)

    last_agrees :
        bit_and (byte out to.place (to.off + n)) op.set_to.mask
        ≡ bit_and (byte out from.place (from.off + n)) op.set_from.mask
    last_agrees =
        ap (λ t. bit_and t op.set_to.mask)
          (w.last ∙ last_byte-merge op old new mask to_mask from_mask mask_fits)
        ∙ ap (bit_and (merge 255 old new mask)) to_mask
        ∙ merge_and old new mask mask_fits
        ∙ sym (ap₂ bit_and (source_kept n (omega arith)) from_mask)

    out-AreasMatch : AreasMatch op out n to from
    out-AreasMatch = ((λ j _ lt. w.before j lt ∙ sym (source_kept j (omega arith))), last_agrees)

    matches : op_match op out plen ≡ some true
    matches =
        let (b, run, iff) = op_match_decides op out plen out-IsSound in
        run
        ∙ ap some (
            iff.1 (
              LenMatch-areas op out n op.set_to.len to from _ _ areas.len areas.at_to areas.at_from
                out-AreasMatch))

  -- Where both fields have one length and one mask and the areas do not overlap, an operation that
  -- was written matches afterwards: `op_match` accepts the memory that `op_write` leaves.
  pub op_match-op_write :
      (out : Memory) × (op_write op m plen ≡ some (true, out)) × (op_match op out plen ≡ some true)
  op_match-op_write =
      let (out, run, w) = op_write-IsWritten op m plen n to from sound areas free in
      (out, run, matches out w)
