-- ===== src/Operations/Write.antt =====
-- `op_write`: what it does to every byte, that a write is then matched, and what it does when the
-- source is longer than the destination.
use mathlib.Core.Path.{subst}
use xdpacket.Base.{
  ℕ, suc, ◌+◌, ◌-◌, ◌<◌, ◌≡◌, refl, ap, sym, ◌∙◌, arith, true, false, some, length, bit_and, bit_or,
}
use xdpacket.Base.Bits.{merge, merge_and, merge_rest, merge-lt, and_swap}
use xdpacket.Memory.{Place, Memory, Ptr, region, byte, poked, apart}
use xdpacket.Memory.Laws.{Holds, same_place_iff, peek-eq, poke-eq, length-poked, byte-poked}
use xdpacket.Memory.Copy.{covers, IsCopied, memcpy_total}
use xdpacket.Operations.{
  OpSet, bad, nop, span, resolve, op_common, common_of, span_of, last_byte, write_span, op_write,
}
use xdpacket.Operations.Resolve.{IsSound, op_common-at, resolve-Holds}

-- `out` is `m` after the area of `n + 1` bytes at `to` was written from the one at `from`.
pub record IsWritten (op : OpSet) (m : Memory) (n : ℕ) (to from : Ptr) (out : Memory) : Type 0 where
  pub same_length : (q : Place) → length (region out q) ≡ length (region m q)
  pub before : (j : ℕ) → j < n → byte out to.place (to.off + j) ≡ byte m from.place (from.off + j)
  pub last :
      byte out to.place (to.off + n)
      ≡ last_byte op (byte m to.place (to.off + n)) (byte m from.place (from.off + n))
  pub outside : (q : Place) (j : ℕ) → covers to 0 (suc n) q j ≡ false → byte out q j ≡ byte m q j

-- The last byte keeps its bits outside the mask of the destination, and inside it has those of the
-- source under the mask of the source.
pub record IsMerged (op : OpSet) (old new last : ℕ) : Type 0 where
  pub kept : bit_and last (255 - op.set_to.mask) ≡ bit_and old (255 - op.set_to.mask)
  pub taken : bit_and last op.set_to.mask ≡ bit_and (bit_and new op.set_from.mask) op.set_to.mask
  pub fits : last < 256

last_byte-IsMerged :
    (op : OpSet) (old new : ℕ) → op.set_to.mask < 256 → IsMerged op old new (last_byte op old new)
unfolding last_byte
last_byte-IsMerged op old new lt =
    let same : last_byte op old new ≡ merge 255 old (bit_and new op.set_from.mask) op.set_to.mask =
      ap (bit_or (bit_and old (255 - op.set_to.mask)))
        (and_swap new op.set_to.mask op.set_from.mask) in
    record {
      kept =
          ap (λ t. bit_and t (255 - op.set_to.mask)) same
          ∙ merge_rest old (bit_and new op.set_from.mask) op.set_to.mask lt;
      taken =
          ap (λ t. bit_and t op.set_to.mask) same
          ∙ merge_and old (bit_and new op.set_from.mask) op.set_to.mask lt;
      fits = omega (arith, same, merge-lt old (bit_and new op.set_from.mask) op.set_to.mask lt);
    }

module _ (op : OpSet) (m : Memory) (n : ℕ) (to from : Ptr) (to_holds : Holds m to (suc n))
    (from_holds : Holds m from (suc n)) (free : apart to from (suc n) ≡ true) where
  module _ (mid : Memory) (c : IsCopied m to from 0 n mid) where
    old_byte : byte mid to.place (to.off + n) ≡ byte m to.place (to.off + n)
    old_byte = c.outside to.place (to.off + n) (ground arith)

    new_byte : byte mid from.place (from.off + n) ≡ byte m from.place (from.off + n)
    new_byte =
        c.outside from.place (from.off + n) (ground (arith, same_place_iff to.place from.place))

    mid-Holds : Holds mid to (suc n)
    mid-Holds = omega (arith, c.same_length to.place)

    mid-Holds_from : Holds mid from (suc n)
    mid-Holds_from = omega (arith, c.same_length from.place)

    abbrev stored : ℕ
    stored = last_byte op (byte m to.place (to.off + n)) (byte m from.place (from.off + n))

    IsWritten-poked : IsWritten op m n to from (poked mid to n stored)
    IsWritten-poked = record {
      same_length = λ q. length-poked mid to n stored q ∙ c.same_length q;
      before = λ j lt. ground (
        arith,
        byte-poked mid to n stored to.place (to.off + j),
        same_place_iff to.place to.place,
        c.inside j,
        mid-Holds,
      );
      last = ground (
        arith,
        byte-poked mid to n stored to.place (to.off + n),
        same_place_iff to.place to.place,
        mid-Holds,
      );
      outside = λ q j e. ground (arith, byte-poked mid to n stored q j, c.outside q j, mid-Holds);
    }

  write_span_total :
      (out : Memory) × (write_span op m (span n to from) ≡ some (true, out))
      × IsWritten op m n to from out
  unfolding write_span
  write_span_total =
      let (mid, run, c) =
        memcpy_total to from n (ground (arith, same_place_iff to.place from.place)) m (omega arith)
          (omega arith) in
      (
        poked mid to n (stored mid c),
        rw (
          run,
          peek-eq mid to n (mid-Holds mid c),
          peek-eq mid from n (mid-Holds_from mid c),
          old_byte mid c,
          new_byte mid c,
          poke-eq mid to n (stored mid c) (mid-Holds mid c),
        ),
        IsWritten-poked mid c,
      )

-- Where a field is outside the packet, nothing is written; a zero-length operation writes nothing.
pub op_write-bad :
    (op : OpSet) (m : Memory) (plen : ℕ)
    → op_common op plen ≡ bad
    → op_write op m plen ≡ some (false, m)
unfolding op_write write_span
op_write-bad op m plen e = rw e refl

pub op_write-nop :
    (op : OpSet) (m : Memory) (plen : ℕ)
    → op_common op plen ≡ nop
    → op_write op m plen ≡ some (true, m)
unfolding op_write write_span
op_write-nop op m plen e = rw e refl

-- The two areas of an operation: both fields have `n + 1` bytes and are found at `to` and `from`.
pub record HasAreas (op : OpSet) (plen n : ℕ) (to from : Ptr) : Type 0 where
  pub len : op.set_to.len ≡ suc n
  pub at_to : resolve plen op.to op.set_to ≡ some to
  pub at_from : resolve plen op.from op.set_from ≡ some from

module _ (op : OpSet) (m : Memory) (plen n : ℕ) (to from : Ptr) (sound : IsSound op m plen)
    (areas : HasAreas op plen n to from) where
  to-Holds : Holds m to (suc n)
  to-Holds = omega (
    arith,
    areas.len,
    resolve-Holds m plen op.to op.set_to to sound.held sound.to_ref areas.at_to,
  )

  from-Holds : Holds m from (suc n)
  from-Holds = omega (
    arith,
    areas.len,
    sound.same_len,
    resolve-Holds m plen op.from op.set_from from sound.held sound.from_ref areas.at_from,
  )

  pub op_common-span : op_common op plen ≡ span n to from
  unfolding common_of span_of
  op_common-span = op_common-at op m plen sound (suc n) areas.len ∙ rw (areas.at_to, areas.at_from)

  pub op_write-IsWritten :
      apart to from (suc n) ≡ true
      → (out : Memory) × (op_write op m plen ≡ some (true, out)) × IsWritten op m n to from out
  unfolding op_write
  op_write-IsWritten free =
      let (out, run, w) = write_span_total op m n to from to-Holds from-Holds free in
      (out, ap (write_span op m) op_common-span ∙ run, w)

  -- Between areas of one length that do not overlap, and with a mask that is a byte, `op_write`
  -- succeeds without leaving its arrays: it copies every byte but the last and changes no other. The
  -- last one keeps its bits outside the mask of the destination, and inside it has those of the
  -- source's last byte under the mask of the source.
  pub op_write_total :
      op.set_to.mask < 256
      → apart to from (suc n) ≡ true
      → (out : Memory) × (op_write op m plen ≡ some (true, out))
        × IsWritten op m n to from out
        × IsMerged op
            (byte m to.place (to.off + n))
            (byte m from.place (from.off + n))
            (byte out to.place (to.off + n))
  op_write_total byte_mask free =
      let (out, run, w) = op_write-IsWritten free in
      (
        out,
        run,
        w,
        subst (IsMerged op (byte m to.place (to.off + n)) (byte m from.place (from.off + n)))
            (sym w.last) (last_byte-IsMerged op _ _ byte_mask),
      )
