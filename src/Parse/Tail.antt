-- ===== src/Parse/Tail.antt =====
-- `parse_cmptail` looks at the end of what is in the buffer, and at nothing else.
use xdpacket.Base.{
  ℕ, zero, suc, ◌+◌, ◌-◌, ◌≤◌, ◌<◌, Bool, true, false, some, List, [], ◌∷◌, ◌≡◌, ◌↔◌, ◌⊎◌, inl, inr,
  refl, arith, ◌==◌, ltb, length, drop, length-drop, Bool-cases, ==_iff, get_or, get_or-drop, sym,
  ◌∙◌,
}
use xdpacket.Parse.{strncmp, parse_cmptail, ends_in}

-- The bytes of `a` stand at the start of `b`.
abbrev pub Starts : List ℕ → List ℕ → Type 0
Starts a b = (i : ℕ) → i < length a → get_or b i 0 ≡ get_or a i 0

Starts-cons : (x y : ℕ) (a b : List ℕ) → x ≡ y → Starts a b → Starts (x ∷ a) (y ∷ b)
Starts-cons x y a b e s zero lt = ground arith
Starts-cons x y a b e s (suc i) lt = s i (omega arith)

strncmp_decides :
    (a b : List ℕ)
    → length a ≤ length b
    → (r : Bool) × (strncmp a b ≡ some r) × ((r ≡ true) ↔ Starts a b)
unfolding strncmp
strncmp_decides [] b fits = (true, refl, ((λ e i lt. absurd (omega arith)), λ s. refl))
strncmp_decides (x ∷ a) [] fits = absurd (omega arith)
strncmp_decides (x ∷ a) (y ∷ b) fits =
    let (r, run, iff) = strncmp_decides a b (omega arith) in
    elim (Bool-cases (x == y)) [
      | inl same ↦ (
        r,
        rw same run,
        (
          (λ e. Starts-cons x y a b ((==_iff _ _).0 same) (iff.0 e)),
          λ s. iff.1 (λ i lt. s (suc i) (omega arith)),
        ),
      )
      | inr other ↦ (false, rw other refl, ((λ e. cc), λ s. ground (arith, s 0 (omega arith))))
    ]

-- The last bytes of the first `buf_pos` bytes of `buf` are those of `check`.
abbrev pub EndsIn : List ℕ → List ℕ → ℕ → Type 0
EndsIn check buf buf_pos =
    (length check ≤ buf_pos)
    × ((i : ℕ) → i < length check → get_or buf (buf_pos - length check + i) 0 ≡ get_or check i 0)

abbrev pub AnyEnd : List (List ℕ) → List ℕ → ℕ → Type 0
AnyEnd [] buf buf_pos = ⊥
AnyEnd (check ∷ checks) buf buf_pos = EndsIn check buf buf_pos ⊎ AnyEnd checks buf buf_pos

module _ (buf : List ℕ) (buf_pos : ℕ) (held : buf_pos ≤ length buf) where
  cmptail_decides :
      (check : List ℕ)
      → (r : Bool) × (parse_cmptail check buf buf_pos ≡ some r)
        × ((r ≡ true) ↔ EndsIn check buf buf_pos)
  unfolding parse_cmptail
  cmptail_decides check = elim (Bool-cases (ltb buf_pos (length check))) [
    | inl short ↦ (false, rw short refl, ((λ e. cc), λ s. ground (arith, s.0)))
    | inr long ↦
        let at = buf_pos - length check in
        let fits : length check ≤ length (drop at buf) =
          ground (arith, length-drop (buf_pos - length check) buf) in
        let (r, run, iff) = strncmp_decides check (drop at buf) fits in
        (
          r,
          rw long run,
          (
            (λ e. (
              ground arith,
              λ i lt. sym (get_or-drop (buf_pos - length check) i buf 0) ∙ iff.0 e i lt,
            )),
            λ s. iff.1 (λ i lt. get_or-drop (buf_pos - length check) i buf 0 ∙ s.1 i lt),
          ),
        )
  ]

  -- The tests for the end of a document read only the bytes that came, and one of them is met
  -- exactly when those bytes end in one of the given strings.
  pub ends_in_decides :
      (checks : List (List ℕ))
      → (r : Bool) × (ends_in checks buf buf_pos ≡ some r)
        × ((r ≡ true) ↔ AnyEnd checks buf buf_pos)
  unfolding ends_in
  ends_in_decides [] = (false, refl, ((λ e. cc), λ s. absurd s))
  ends_in_decides (check ∷ checks) =
      let (r, run, iff) = cmptail_decides check in
      let (rest, run', iff') = ends_in_decides checks in
      elim (Bool-cases r) [
        | inl met ↦ (true, rw (run, met) refl, ((λ e. inl (iff.0 met)), λ s. refl))
        | inr not_met ↦ (
          rest,
          rw (run, not_met) run',
          (
            (λ e. inr (iff'.0 e)),
            λ s. elim s [ inl here ↦ ground (arith, iff.1 here) | inr there ↦ iff'.1 there ],
          ),
        )
      ]
