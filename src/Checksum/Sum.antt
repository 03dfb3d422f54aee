-- ===== src/Checksum/Sum.antt =====
-- `ones_sum` and `ones_final`: the 32-bit accumulator never wraps on a frame, and the folded
-- complement is the value at which the sum verifies.
use xdpacket.Base.{
  ℕ, zero, suc, ◌+◌, ◌-◌, ◌*◌, ◌/◌, ◌%◌, ◌^◌, ◌≤◌, ◌<◌, ◌≡◌, refl, arith, some, [], ◌∷◌, ◌==◌,
  if◌then◌else◌, get_or, set, length, u32, IsBytes, get_elem?-eq-get_or, get_or-set_ne,
}
use xdpacket.Checksum.{Mem, sum_words, sum_trailing, ones_sum, ones_final}

-- The sum with no wrap.
unfoldable pub word_sum : ℕ → Mem → ℕ
word_sum zero bs = 0
word_sum (suc n) [] = 0
word_sum (suc n) (lo ∷ []) = 0
word_sum (suc n) (lo ∷ hi ∷ bs) = lo + 256 * hi + word_sum n bs

unfoldable pub trailing : Mem → ℕ → ℕ
trailing bs count = if count % 2 == 1 then get_or bs (count - 1) 0 else 0

unfoldable pub block_sum : Mem → ℕ → ℕ
unfolding word_sum trailing
block_sum bs count = word_sum (count / 2) bs + trailing bs count

word_sum-le : (n : ℕ) (bs : Mem) → IsBytes bs → word_sum n bs ≤ 65535 * n
unfolding word_sum
word_sum-le zero bs h = omega arith
word_sum-le (suc n) [] h = omega arith
word_sum-le (suc n) (lo ∷ []) h = omega arith
word_sum-le (suc n) (lo ∷ hi ∷ bs) h =
    omega (arith, h 0, h 1, word_sum-le n bs (λ i. h (suc (suc i))))

pub block_sum-le :
    (bs : Mem) (count : ℕ) → IsBytes bs → block_sum bs count ≤ 65535 * (count / 2) + 255
unfolding trailing block_sum
block_sum-le bs count h = ground (arith, word_sum-le (count / 2) bs h, h (count - 1))

sum_words-eq :
    (n : ℕ) (bs : Mem) (s : ℕ)
    → 2 * n ≤ length bs
    → s + word_sum n bs < 2 ^ 32
    → sum_words n bs s ≡ some (s + word_sum n bs)
unfolding sum_words word_sum
sum_words-eq zero bs s fits small = ground arith
sum_words-eq (suc n) [] s fits small = absurd (omega arith)
sum_words-eq (suc n) (lo ∷ []) s fits small = absurd (omega arith)
sum_words-eq (suc n) (lo ∷ hi ∷ bs) s fits small =
    ground (arith, sum_words-eq n bs (u32 (s + (lo + 256 * hi))))

sum_trailing-eq :
    (bs : Mem) (count s : ℕ)
    → count ≤ length bs
    → s + trailing bs count < 2 ^ 32
    → sum_trailing bs count s ≡ some (s + trailing bs count)
unfolding sum_trailing trailing
sum_trailing-eq bs count s fits small = ground (arith, get_elem?-eq-get_or bs (count - 1) 0)

-- Inside its block and below 2 ^ 32 the loop reads no byte out of range and returns the plain sum.
pub ones_sum-eq :
    (bs : Mem) (count s : ℕ)
    → count ≤ length bs
    → s + block_sum bs count < 2 ^ 32
    → ones_sum bs count s ≡ some (s + block_sum bs count)
unfolding ones_sum block_sum
ones_sum-eq bs count s fits small =
    ground
      (arith, sum_words-eq (count / 2) bs s, sum_trailing-eq bs count (s + word_sum (count / 2) bs))

word_sum-set :
    (n at : ℕ) (bs : Mem) (a b : ℕ)
    → at % 2 ≡ 0
    → at + 2 ≤ 2 * n
    → 2 * n ≤ length bs
    → word_sum n (set (set bs at a) (suc at) b) + get_or bs at 0 + 256 * get_or bs (suc at) 0
      ≡ word_sum n bs + a + 256 * b
unfolding word_sum
word_sum-set zero at bs a b even inside fits = absurd (omega arith)
word_sum-set (suc n) at [] a b even inside fits = absurd (omega arith)
word_sum-set (suc n) at (lo ∷ []) a b even inside fits = absurd (omega arith)
word_sum-set (suc n) zero (lo ∷ hi ∷ bs) a b even inside fits = omega arith
word_sum-set (suc n) (suc zero) (lo ∷ hi ∷ bs) a b even inside fits = absurd (omega arith)
word_sum-set (suc n) (suc (suc at)) (lo ∷ hi ∷ bs) a b even inside fits =
    omega (arith, word_sum-set n at bs a b (omega arith) (omega arith) (omega arith))

-- Storing a word at an even place inside the block changes the sum by just that word.
pub block_sum-set :
    (count at : ℕ) (bs : Mem) (a b : ℕ)
    → at % 2 ≡ 0
    → at + 2 ≤ 2 * (count / 2)
    → count ≤ length bs
    → block_sum (set (set bs at a) (suc at) b) count + get_or bs at 0 + 256 * get_or bs (suc at) 0
      ≡ block_sum bs count + a + 256 * b
unfolding block_sum trailing
block_sum-set count at bs a b even inside fits = ground (
  arith,
  word_sum-set (count / 2) at bs a b even inside,
  get_or-set_ne (set bs at a) (suc at) (count - 1) b 0,
  get_or-set_ne bs at (count - 1) a 0,
)

-- Blocks that agree byte by byte have one sum.
word_sum_ext :
    (n : ℕ) (bs cs : Mem)
    → 2 * n ≤ length bs
    → 2 * n ≤ length cs
    → ((i : ℕ) → i < 2 * n → get_or bs i 0 ≡ get_or cs i 0)
    → word_sum n bs ≡ word_sum n cs
unfolding word_sum
word_sum_ext zero bs cs p q h = refl
word_sum_ext (suc n) [] cs p q h = absurd (omega arith)
word_sum_ext (suc n) (b ∷ []) cs p q h = absurd (omega arith)
word_sum_ext (suc n) (b ∷ b' ∷ bs) [] p q h = absurd (omega arith)
word_sum_ext (suc n) (b ∷ b' ∷ bs) (c ∷ []) p q h = absurd (omega arith)
word_sum_ext (suc n) (b ∷ b' ∷ bs) (c ∷ c' ∷ cs) p q h = omega (
  arith,
  h 0 (omega arith),
  h 1 (omega arith),
  word_sum_ext n bs cs (omega arith) (omega arith) (λ i lt. h (suc (suc i)) (omega arith)),
)

pub block_sum_ext :
    (count : ℕ) (bs cs : Mem)
    → count ≤ length bs
    → count ≤ length cs
    → ((i : ℕ) → i < count → get_or bs i 0 ≡ get_or cs i 0)
    → block_sum bs count ≡ block_sum cs count
unfolding block_sum trailing
block_sum_ext count bs cs p q h = ground (
  arith,
  word_sum_ext (count / 2) bs cs (omega arith) (omega arith) (λ i lt. h i (omega arith)),
  h (count - 1),
)

pub ones_final-lt : (s : ℕ) → ones_final s < 2 ^ 16
unfolding ones_final
ones_final-lt s = omega arith

-- Adding the complement to a 32-bit sum verifies, RFC 1071: the new sum folds to all ones.
pub ones_final_verifies : (s : ℕ) → s + ones_final s < 2 ^ 32 → ones_final (s + ones_final s) ≡ 0
unfolding ones_final
ones_final_verifies s h = omega arith

-- A zero complement may be sent as all ones instead.
pub ones_final_verifies_ones :
    (s : ℕ) → s + 0xffff < 2 ^ 32 → ones_final s ≡ 0 → ones_final (s + 0xffff) ≡ 0
unfolding ones_final
ones_final_verifies_ones s h e = omega arith
