-- ===== src/Operations/Match.antt =====
-- `op_match` decides whether two areas are equal under their masks.
use xdpacket.Base.{
  ℕ, zero, suc, ◌+◌, ◌≡◌, ◌↔◌, refl, arith, Bool, true, false, Option, none, some, ◌==◌, ==_iff,
  bit_and,
}
use xdpacket.Memory.{Memory, Ptr, byte, compare_bytes}
use xdpacket.Memory.Laws.{Holds, peek-eq}
use xdpacket.Memory.Copy.{SameBytes, compare_bytes_total}
use xdpacket.Operations.{OpSet, span, resolve, match_span, op_match, common_of, span_of}
use xdpacket.Operations.Resolve.{IsSound, op_common-at, resolve-Holds}

-- The areas at `to` and `from` agree on `n` bytes, and on the next one under the masks.
abbrev pub AreasMatch : OpSet → Memory → ℕ → Ptr → Ptr → Type 0
AreasMatch op m n to from =
    SameBytes m to from 0 n
    × (bit_and (byte m to.place (to.off + n)) op.set_to.mask
        ≡ bit_and (byte m from.place (from.off + n)) op.set_from.mask)

abbrev pub LenMatch : OpSet → Memory → ℕ → Option Ptr → Option Ptr → Type 0
LenMatch op m zero to from = Unit {0}
LenMatch op m (suc n) none from = ⊥
LenMatch op m (suc n) (some to) none = ⊥
LenMatch op m (suc n) (some to) (some from) = AreasMatch op m n to from

-- A zero length always matches; else both areas must be there and agree.
abbrev pub IsMatch : OpSet → Memory → ℕ → Type 0
IsMatch op m plen =
    LenMatch op m op.set_to.len (resolve plen op.to op.set_to) (resolve plen op.from op.set_from)

abbrev last_matches : OpSet → Memory → ℕ → Ptr → Ptr → Bool
last_matches op m n to from =
    bit_and (byte m to.place (to.off + n)) op.set_to.mask
    == bit_and (byte m from.place (from.off + n)) op.set_from.mask

module _ (op : OpSet) (m : Memory) (n : ℕ) (to from : Ptr) (to_holds : Holds m to (suc n))
    (from_holds : Holds m from (suc n)) where
  match_span-same :
      (same : Bool)
      → compare_bytes m to from 0 n ≡ some same
      → ((same ≡ true) ↔ SameBytes m to from 0 n)
      → (b : Bool) × (match_span op m (span n to from) ≡ some b)
        × ((b ≡ true) ↔ AreasMatch op m n to from)
  unfolding match_span
  match_span-same false run iff = (false, rw run refl, ((λ e. cc), λ a. iff.1 a.0))
  match_span-same true run iff = (
    last_matches op m n to from,
    rw (run, peek-eq m to n to_holds, peek-eq m from n from_holds) refl,
    ((λ e. (iff.0 refl, (==_iff _ _).0 e)), λ a. (==_iff _ _).1 a.1),
  )

  match_span-areas :
      (b : Bool) × (match_span op m (span n to from) ≡ some b)
      × ((b ≡ true) ↔ AreasMatch op m n to from)
  match_span-areas =
      let (same, run, iff) =
        compare_bytes_total n 0 n m to from (omega arith) (omega arith) (omega arith) in
      match_span-same same run iff

module _ (op : OpSet) (m : Memory) (plen : ℕ) (sound : IsSound op m plen) where
  decides :
      (k : ℕ) (to from : Option Ptr)
      → op.set_to.len ≡ k
      → resolve plen op.to op.set_to ≡ to
      → resolve plen op.from op.set_from ≡ from
      → (b : Bool) × (op_match op m plen ≡ some b) × ((b ≡ true) ↔ LenMatch op m k to from)
  unfolding op_match common_of span_of match_span
  decides zero to from e a b =
      (true, rw (op_common-at op m plen sound 0 e) refl, ((λ _. tt), λ _. refl))
  decides (suc n) none from e a b =
      (false, rw (op_common-at op m plen sound (suc n) e, a) refl, ((λ h. cc), λ h. absurd h))
  decides (suc n) (some to) none e a b =
      (false, rw (op_common-at op m plen sound (suc n) e, a, b) refl, ((λ h. cc), λ h. absurd h))
  decides (suc n) (some to) (some from) e a b =
      let (r, run, iff) =
        match_span-areas op m n to from
          (omega (arith, resolve-Holds m plen op.to op.set_to to sound.held sound.to_ref a))
          (omega (
            arith,
            sound.same_len,
            resolve-Holds m plen op.from op.set_from from sound.held sound.from_ref b,
          )) in
      (r, rw (op_common-at op m plen sound (suc n) e, a, b) run, iff)

  -- On fields of one length `op_match` reads nothing outside its arrays, and it matches exactly when
  -- the length is zero or both areas exist and are equal, in the last byte under the masks. A length
  -- of zero matches every packet, whatever the offset is and however short the packet.
  pub op_match_decides :
      (b : Bool) × (op_match op m plen ≡ some b) × ((b ≡ true) ↔ IsMatch op m plen)
  op_match_decides = decides op.set_to.len _ _ refl refl refl
