-- ===== src/Operations/Resolve.antt =====
-- `op_common` on an operation whose two fields have one length: the two areas lie inside their
-- arrays.
use mathlib.Core.Path.{subst}
use mathlib.Core.Option.{some-injective}
use xdpacket.Base.{
  ℕ, zero, suc, ◌≤◌, ◌<◌, ◌≡◌, ◌⊎◌, inl, inr, refl, ap, sym, ◌∙◌, arith, Option, none, some, length,
  ◌>>=◌, Option-cases,
}
use xdpacket.Memory.{packet, Memory, Ptr}
use xdpacket.Memory.Laws.{Holds}
use xdpacket.FieldSet.{FieldSet, op_pkt_offset}
use xdpacket.FieldSet.Laws.{op_pkt_offset_iff}
use xdpacket.Operations.{OpSet, bad, nop, span, out_len, resolve, span_of, common_of, op_common}

-- The memory behind an address has the length of its field.
abbrev pub RefHolds : Memory → Option ℕ → FieldSet → Type 0
RefHolds m o set = (r : ℕ) → o ≡ some r → set.len ≤ length (m.refs r)

-- The packet buffer holds `plen` bytes, both fields have one length, and each memref has it too.
pub record IsSound (op : OpSet) (m : Memory) (plen : ℕ) : Type 0 where
  pub held : plen ≤ length m.pkt
  pub same_len : op.set_to.len ≡ op.set_from.len
  pub to_ref : RefHolds m op.to op.set_to
  pub from_ref : RefHolds m op.from op.set_from

pub resolve-Holds :
    (m : Memory) (plen : ℕ) (o : Option ℕ) (set : FieldSet) (p : Ptr)
    → plen ≤ length m.pkt
    → RefHolds m o set
    → resolve plen o set ≡ some p
    → Holds m p set.len
unfolding resolve
resolve-Holds m plen (some r) set p held ref e =
    subst (λ t. Holds m t set.len) (some-injective _ _ e) (omega (arith, ref r refl))
resolve-Holds m plen none set p held ref e = elim (Option-cases (op_pkt_offset plen set)) [
  | inl out ↦ absurd (ground arith)
  | inr (start, at) ↦
      subst (λ t. Holds m t set.len)
        (some-injective _ _
          (sym (ap (λ o. o >>= λ s. some (record { place = packet; off = s })) at) ∙ e))
        (omega (arith, ((op_pkt_offset_iff plen set start).0 at).1))
]

-- What `op_common` can find: a field outside the packet, a zero length, or two areas of the length
-- of the fields.
pub data Found (op : OpSet) (m : Memory) (plen : ℕ) : Type 0 where
  outside :
      op_common op plen ≡ bad
      → 0 < op.set_to.len
      → (resolve plen op.to op.set_to ≡ none) ⊎ (resolve plen op.from op.set_from ≡ none)
      → Found op m plen
  empty : op_common op plen ≡ nop → op.set_to.len ≡ 0 → Found op m plen
  areas :
      (n : ℕ) (to from : Ptr)
      → op_common op plen ≡ span n to from
      → op.set_to.len ≡ suc n
      → resolve plen op.to op.set_to ≡ some to
      → resolve plen op.from op.set_from ≡ some from
      → Holds m to (suc n)
      → Holds m from (suc n)
      → Found op m plen

module _ (op : OpSet) (m : Memory) (plen : ℕ) (sound : IsSound op m plen) where
  out_len-eq : out_len op ≡ op.set_to.len
  unfolding out_len
  out_len-eq = ground arith

  pub op_common-at : (k : ℕ) → op.set_to.len ≡ k → op_common op plen ≡ common_of op plen k
  unfolding op_common
  op_common-at k e = ap (common_of op plen) (out_len-eq ∙ e)

  Found-suc :
      (n : ℕ) (to from : Option Ptr)
      → op.set_to.len ≡ suc n
      → resolve plen op.to op.set_to ≡ to
      → resolve plen op.from op.set_from ≡ from
      → Found op m plen
  Found-suc n none from e a b =
      outside (op_common-at (suc n) e ∙ (unfold common_of span_of in rw a)) (omega arith) (inl a)
  Found-suc n (some to) none e a b =
      outside (op_common-at (suc n) e ∙ (unfold common_of span_of in rw (a, b))) (omega arith)
        (inr b)
  Found-suc n (some to) (some from) e a b =
      areas n to from (op_common-at (suc n) e ∙ (unfold common_of span_of in rw (a, b))) e a b
        (omega (arith, resolve-Holds m plen op.to op.set_to to sound.held sound.to_ref a))
        (omega (
          arith,
          sound.same_len,
          resolve-Holds m plen op.from op.set_from from sound.held sound.from_ref b,
        ))

  Found-len : (k : ℕ) → op.set_to.len ≡ k → Found op m plen
  Found-len zero e = empty (op_common-at 0 e ∙ (unfold common_of in refl)) e
  Found-len (suc n) e = Found-suc n _ _ e refl refl

  pub op_common-Found : Found op m plen
  op_common-Found = Found-len op.set_to.len refl
