-- ===== src/Rule/Total.antt =====
-- Sums over the objects on a heap.
use xdpacket.Base.{
  ℕ, zero, suc, ◌+◌, ◌≤◌, ◌<◌, ◌≡◌, ◌≢◌, inl, inr, refl, ap₂, arith, ◌==◌, Bool-cases,
}

-- The sum at the addresses from 1 to `k`.
unfoldable pub total : (ℕ → ℕ) → ℕ → ℕ
total f zero = 0
total f (suc k) = total f k + f (suc k)

pub total-ext : (f g : ℕ → ℕ) (k : ℕ) → ((i : ℕ) → i ≤ k → g i ≡ f i) → total g k ≡ total f k
unfolding total
total-ext f g zero same = refl
total-ext f g (suc k) same =
    ap₂ (λ a b. a + b) (total-ext f g k (λ i le. same i (omega arith))) (same (suc k) (omega arith))

-- Changing one summand.
pub total-update :
    (f g : ℕ → ℕ) (p k : ℕ)
    → 0 < p
    → p ≤ k
    → ((i : ℕ) → p ≢ i → g i ≡ f i)
    → total g k + f p ≡ total f k + g p
unfolding total
total-update f g p zero pos le same = absurd (omega arith)
total-update f g p (suc k) pos le same = elim (Bool-cases (p == suc k)) [
  | inl last ↦
      let rest = total-ext f g k (λ i below. same i (ground arith)) in
      let here : p ≡ suc k = ground arith in rw here (omega (arith, rest))
  | inr more ↦
      omega (arith, total-update f g p k pos (ground arith) same, same (suc k) (ground arith))
]

-- A summand that is none of them.
pub total-zero : (f : ℕ → ℕ) (k : ℕ) → ((i : ℕ) → f i ≡ 0) → total f k ≡ 0
unfolding total
total-zero f zero none_there = refl
total-zero f (suc k) none_there = omega (arith, total-zero f k none_there, none_there (suc k))

-- Each summand is at most the sum.
pub total_member : (f : ℕ → ℕ) (p k : ℕ) → 0 < p → p ≤ k → f p ≤ total f k
unfolding total
total_member f p zero pos le = absurd (omega arith)
total_member f p (suc k) pos le = elim (Bool-cases (p == suc k)) [
  | inl last ↦ let here : p ≡ suc k = ground arith in rw here (omega arith)
  | inr more ↦ omega (arith, total_member f p k pos (ground arith))
]
