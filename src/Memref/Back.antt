-- ===== src/Memref/Back.antt =====
-- `memref_release` changes no more than a count, or it frees the memref.
use Prim.Native.String.{String}
use mathlib.Core.Option.{some-injective}
use xdpacket.Base.{
  ℕ, ◌-◌, none, some, ◌≡◌, inl, inr, refl, ap, ◌∙◌, arith, ◌==◌, Bool-cases, Option-cases,
}
use xdpacket.Judy.{JudySl}
use xdpacket.Registry.{Registry, set_cell, drop_ref, unpublish}
use xdpacket.Memref.{Memref, memref_is_value, discard, dropped, released, memref_release}

-- Every memref of `s` was in `r`, with another count at most.
abbrev pub Back : {J : JudySl} → Registry J Memref → Registry J Memref → Type 0
Back r s =
    (q : ℕ) (b : Memref)
    → s.cell q ≡ some b
    → (m : Memref) × (n : ℕ) × (r.cell q ≡ some m) × (b ≡ record m { refcnt = n })

module _ {J : JudySl} where
  Back-refl : (r : Registry J Memref) → Back r r
  Back-refl r q b at = (b, b.refcnt, at, refl)

  pub Back-trans : (r s t : Registry J Memref) → Back r s → Back s t → Back r t
  Back-trans r s t f g q b at =
      let (m, n, there, same) = g q b at in
      let (m', n', there', same') = f q m there in
      (m', n, there', same ∙ ap (λ (x : Memref). record x { refcnt = n }) same')

  Back-eq : (r s t : Registry J Memref) → some s ≡ some t → Back r s → Back r t
  Back-eq r s t e back q b at = back q b (ap (λ x. x.cell q) (some-injective _ _ e) ∙ at)

  Back-unpublish : (r : Registry J Memref) (p : ℕ) (k : String) → Back r (unpublish r p k)
  unfolding unpublish
  Back-unpublish r p k q b at = (b, b.refcnt, ground arith, refl)

  Back-none : (r : Registry J Memref) (p : ℕ) → Back r (set_cell r p none)
  Back-none r p q b at = (b, b.refcnt, ground arith, refl)

  Back-set :
      (r : Registry J Memref) (p n : ℕ) (m : Memref)
      → r.cell p ≡ some m
      → Back r (set_cell r p (some (record m { refcnt = n })))
  Back-set r p n m there q b at = elim (Bool-cases (p == q)) [
    | inl hit ↦ (m, n, ground arith, ground arith)
    | inr miss ↦ (b, b.refcnt, ground arith, refl)
  ]

  discard-Back : (r s : Registry J Memref) (p : ℕ) (m : Memref) → discard r p m ≡ some s → Back r s
  unfolding discard
  discard-Back r s p m run = elim (Option-cases m.name) [
    | inl nameless ↦ absurd (ground arith)
    | inr (k, bears) ↦ Back-eq r (unpublish r p k) s (ground arith) (Back-unpublish r p k)
  ]

  pub memref_release-Back :
      (r s : Registry J Memref) (p : ℕ) → memref_release r p ≡ some s → Back r s
  unfolding memref_release released dropped drop_ref
  memref_release-Back r s p run = elim (Bool-cases (p == 0)) [
    | inl null ↦ Back-eq r r s (ground arith) (Back-refl r)
    | inr at_p ↦ elim (Option-cases (r.cell p)) [
      | inl lost ↦ absurd (ground arith)
      | inr (m, there) ↦ elim (Bool-cases (memref_is_value m)) [
        | inl value ↦ Back-eq r (set_cell r p none) s (ground arith) (Back-none r p)
        | inr state ↦ elim (Bool-cases (m.refcnt == 0)) [
          | inl unused ↦ discard-Back r s p m (ground arith)
          | inr used ↦
              let less = record m { refcnt = m.refcnt - 1 } in
              let r' = set_cell r p (some less) in
              elim (Bool-cases (m.refcnt - 1 == 0)) [
                | inl last ↦
                    Back-trans r r' s (Back-set r p (m.refcnt - 1) m there)
                      (discard-Back r' s p less (ground arith))
                | inr more ↦ Back-eq r r' s (ground arith) (Back-set r p (m.refcnt - 1) m there)
              ]
        ]
      ]
    ]
  ]
