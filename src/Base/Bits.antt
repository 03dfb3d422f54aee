-- ===== src/Base/Bits.antt =====
-- `&` and `|` with a mask, which the natives compute at numerals only. Each law is for every
-- width, by the lowest digit first.
use Prim.Native.Nat.{
  ℕ, zero, suc, ◌+◌, ◌-◌, ◌*◌, ◌/◌, ◌%◌, ◌^◌, ◌≤◌, ◌<◌, min, max, bit_and, bit_or, digits, bitwise,
  bit_and-bitwise, bit_or-bitwise,
}
use mathlib.Core.Path.{◌≡◌, refl, ap, ap₂, sym, ◌∙◌}
use native.Mathlib.Nat.{pow-suc}
use native.Mathlib.Omega.{arith}

-- Any fuel from the first operand on gives the same digits.
module _ (rest : ℕ → ℕ) (digit : ℕ → ℕ → ℕ) where
  same_digits :
      (x y : ℕ) (m n : ℕ) → x ≤ m → x ≤ n → digits rest digit m x y ≡ digits rest digit n x y
  same_digits zero y zero zero p q = refl
  same_digits zero y zero (suc n) p q = refl
  same_digits zero y (suc m) zero p q = refl
  same_digits zero y (suc m) (suc n) p q = refl
  same_digits (suc x) y zero n p q = absurd (omega arith)
  same_digits (suc x) y (suc m) zero p q = absurd (omega arith)
  same_digits (suc x) y (suc m) (suc n) p q =
      ap (λ h. h * 2 + digit (suc x % 2) (y % 2))
        (same_digits (suc x / 2) (y / 2) m n (omega arith) (omega arith))

  lowest :
      (x y : ℕ)
      → bitwise rest digit (suc x) y
        ≡ bitwise rest digit (suc x / 2) (y / 2) * 2 + digit (suc x % 2) (y % 2)
  lowest x y =
      ap (λ h. h * 2 + digit (suc x % 2) (y % 2))
        (same_digits (suc x / 2) (y / 2) x (suc x / 2) (omega arith) (omega arith))

and_lowest : (x y : ℕ) → bit_and x y ≡ bit_and (x / 2) (y / 2) * 2 + min (x % 2) (y % 2)
and_lowest zero y = simp bit_and-bitwise (omega arith)
and_lowest (suc x) y = simp bit_and-bitwise (lowest (λ _. 0) min x y)

or_lowest : (x y : ℕ) → bit_or x y ≡ bit_or (x / 2) (y / 2) * 2 + max (x % 2) (y % 2)
or_lowest zero y = simp bit_or-bitwise (omega arith)
or_lowest (suc x) y = simp bit_or-bitwise (lowest (λ b. b) max x y)

and_zero_upto : (n x : ℕ) → x ≤ n → bit_and x 0 ≡ 0
and_zero_upto n zero h = refl
and_zero_upto zero (suc x) h = absurd (omega arith)
and_zero_upto (suc n) (suc x) h =
    omega (arith, and_lowest (suc x) 0, and_zero_upto n (suc x / 2) (omega arith))

pub and_zero : (x : ℕ) → bit_and x 0 ≡ 0
and_zero x = and_zero_upto x x (omega arith)

halved : (a p : ℕ) → p < 2 → (a * 2 + p) / 2 ≡ a
halved a p h = omega arith

last_digit : (a p : ℕ) → p < 2 → (a * 2 + p) % 2 ≡ p
last_digit a p h = omega arith

split : (x : ℕ) → x ≡ x / 2 * 2 + x % 2
split x = omega arith

zero_or : (x : ℕ) → bit_or 0 x ≡ x
zero_or x = bit_or-bitwise 0 x

-- A mask that ends in a one keeps the last digit.
and_odd : (x k : ℕ) → bit_and x (k * 2 + 1) ≡ bit_and (x / 2) k * 2 + x % 2
and_odd x k =
    and_lowest x (k * 2 + 1)
    ∙ ap₂ (λ s t. bit_and (x / 2) s * 2 + t) (halved k 1 (omega arith)) (omega arith)

-- Over a byte the full mask keeps everything.
pub and_byte : (x : ℕ) → x < 256 → bit_and x 255 ≡ x
and_byte x h = omega (
  arith,
  and_odd x 127,
  and_odd (x / 2) 63,
  and_odd (x / 2 / 2) 31,
  and_odd (x / 2 / 2 / 2) 15,
  and_odd (x / 2 / 2 / 2 / 2) 7,
  and_odd (x / 2 / 2 / 2 / 2 / 2) 3,
  and_odd (x / 2 / 2 / 2 / 2 / 2 / 2) 1,
  and_odd (x / 2 / 2 / 2 / 2 / 2 / 2 / 2) 0,
  and_zero (x / 2 / 2 / 2 / 2 / 2 / 2 / 2 / 2),
)

and_digits :
    (a b p q : ℕ) → p < 2 → q < 2 → bit_and (a * 2 + p) (b * 2 + q) ≡ bit_and a b * 2 + min p q
and_digits a b p q hp hq =
    and_lowest (a * 2 + p) (b * 2 + q)
    ∙ ap₂ (λ s t. bit_and s t * 2 + min ((a * 2 + p) % 2) ((b * 2 + q) % 2)) (halved a p hp)
        (halved b q hq)
    ∙ ap₂ (λ s t. bit_and a b * 2 + min s t) (last_digit a p hp) (last_digit b q hq)

or_digits :
    (a b p q : ℕ) → p < 2 → q < 2 → bit_or (a * 2 + p) (b * 2 + q) ≡ bit_or a b * 2 + max p q
or_digits a b p q hp hq =
    or_lowest (a * 2 + p) (b * 2 + q)
    ∙ ap₂ (λ s t. bit_or s t * 2 + max ((a * 2 + p) % 2) ((b * 2 + q) % 2)) (halved a p hp)
        (halved b q hq)
    ∙ ap₂ (λ s t. bit_or a b * 2 + max s t) (last_digit a p hp) (last_digit b q hq)

-- The bits of `old` outside the mask `m`, and those of `new` inside it.
abbrev pub merge : ℕ → ℕ → ℕ → ℕ → ℕ
merge top old new m = bit_or (bit_and old (top - m)) (bit_and new m)

-- The lowest digit of a merge.
merge_lowest :
    (w old new m : ℕ)
    → m < 2 ^ suc w
    → merge (2 ^ suc w - 1) old new m
      ≡ merge (2 ^ w - 1) (old / 2) (new / 2) (m / 2) * 2
        + max (min (old % 2) (1 - m % 2)) (min (new % 2) (m % 2))
merge_lowest w old new m h =
    ap₂ bit_or
      (and_lowest old (2 ^ suc w - 1 - m)
        ∙ ap₂ (λ s t. bit_and (old / 2) s * 2 + min (old % 2) t) (omega (arith, pow-suc 2 w))
            (omega (arith, pow-suc 2 w)))
      (and_lowest new m)
    ∙ or_digits _ _ (min (old % 2) (1 - m % 2)) (min (new % 2) (m % 2)) (omega arith) (omega arith)

-- What was merged under a mask is read back under it.
merge_and_width :
    (w old new m : ℕ) → m < 2 ^ w → bit_and (merge (2 ^ w - 1) old new m) m ≡ bit_and new m
merge_and_width zero old new m h = rw (m_zero, and_zero, and_zero)
  where
    m_zero : m ≡ 0
    m_zero = omega arith
merge_and_width (suc w) old new m h =
    ap₂ bit_and (merge_lowest w old new m h) (split m)
    ∙ and_digits _ _ _ (m % 2) (omega arith) (omega arith)
    ∙ ap (λ t. t * 2 + min (max (min (old % 2) (1 - m % 2)) (min (new % 2) (m % 2))) (m % 2))
        (merge_and_width w (old / 2) (new / 2) (m / 2) (omega (arith, pow-suc 2 w)))
    ∙ omega (arith, and_lowest new m)

pub merge_and : (old new m : ℕ) → m < 256 → bit_and (merge 255 old new m) m ≡ bit_and new m
merge_and old new m h = merge_and_width 8 old new m h

-- The bits outside the mask stay.
merge_rest_width :
    (w old new m : ℕ)
    → m < 2 ^ w
    → bit_and (merge (2 ^ w - 1) old new m) (2 ^ w - 1 - m) ≡ bit_and old (2 ^ w - 1 - m)
merge_rest_width zero old new m h = rw (m_zero, and_zero, and_zero)
  where
    m_zero : 2 ^ 0 - 1 - m ≡ 0
    m_zero = omega arith
merge_rest_width (suc w) old new m h =
    ap₂ bit_and (merge_lowest w old new m h) (rest)
    ∙ and_digits _ _ _ (1 - m % 2) (omega arith) (omega arith)
    ∙ ap (λ t. t * 2 + min (max (min (old % 2) (1 - m % 2)) (min (new % 2) (m % 2))) (1 - m % 2))
        (merge_rest_width w (old / 2) (new / 2) (m / 2) (omega (arith, pow-suc 2 w)))
    ∙ back
  where
    rest : 2 ^ suc w - 1 - m ≡ (2 ^ w - 1 - m / 2) * 2 + (1 - m % 2)
    rest = omega (arith, pow-suc 2 w)

    back :
        bit_and (old / 2) (2 ^ w - 1 - m / 2) * 2
          + min (max (min (old % 2) (1 - m % 2)) (min (new % 2) (m % 2))) (1 - m % 2)
        ≡ bit_and old (2 ^ suc w - 1 - m)
    back =
        omega arith
        ∙ sym (
            and_digits (old / 2) (2 ^ w - 1 - m / 2) (old % 2) (1 - m % 2) (omega arith)
              (omega arith))
        ∙ ap₂ bit_and (sym (split old)) (sym rest)

pub merge_rest :
    (old new m : ℕ) → m < 256 → bit_and (merge 255 old new m) (255 - m) ≡ bit_and old (255 - m)
merge_rest old new m h = merge_rest_width 8 old new m h

-- The full mask replaces a byte.
pub merge_all : (old new : ℕ) → new < 256 → merge 255 old new 255 ≡ new
merge_all old new h =
    ap (λ t. bit_or t (bit_and new 255)) (and_zero old) ∙ zero_or _ ∙ and_byte new h

-- Masking twice is masking once.
and_twice_width : (w x m : ℕ) → m < 2 ^ w → bit_and (bit_and x m) m ≡ bit_and x m
and_twice_width zero x m h = rw (m_zero, and_zero, and_zero)
  where
    m_zero : m ≡ 0
    m_zero = omega arith
and_twice_width (suc w) x m h =
    ap₂ bit_and (and_lowest x m) (split m)
    ∙ and_digits _ _ _ (m % 2) (omega arith) (omega arith)
    ∙ ap (λ t. t * 2 + min (min (x % 2) (m % 2)) (m % 2))
        (and_twice_width w (x / 2) (m / 2) (omega (arith, pow-suc 2 w)))
    ∙ omega (arith, and_lowest x m)

pub and_twice : (x m : ℕ) → m < 256 → bit_and (bit_and x m) m ≡ bit_and x m
and_twice x m h = and_twice_width 8 x m h

-- The order of two masks does not matter.
and_and_lowest :
    (x a b : ℕ)
    → bit_and (bit_and x a) b
      ≡ bit_and (bit_and (x / 2) (a / 2)) (b / 2) * 2 + min (min (x % 2) (a % 2)) (b % 2)
and_and_lowest x a b =
    ap₂ bit_and (and_lowest x a) (split b)
    ∙ and_digits _ _ (min (x % 2) (a % 2)) (b % 2) (omega arith) (omega arith)

zero_and_twice : (a b : ℕ) → bit_and (bit_and 0 a) b ≡ 0
zero_and_twice a b = ap (λ t. bit_and t b) (bit_and-bitwise 0 a) ∙ bit_and-bitwise 0 b

and_swap_upto : (n x a b : ℕ) → x ≤ n → bit_and (bit_and x a) b ≡ bit_and (bit_and x b) a
and_swap_upto n zero a b h = zero_and_twice a b ∙ sym (zero_and_twice b a)
and_swap_upto zero (suc x) a b h = absurd (omega arith)
and_swap_upto (suc n) (suc x) a b h = omega (
  arith,
  and_and_lowest (suc x) a b,
  and_and_lowest (suc x) b a,
  and_swap_upto n (suc x / 2) (a / 2) (b / 2) (omega arith),
)

pub and_swap : (x a b : ℕ) → bit_and (bit_and x a) b ≡ bit_and (bit_and x b) a
and_swap x a b = and_swap_upto x x a b (omega arith)

-- The result of a merge is a byte again.
merge-lt_width : (w old new m : ℕ) → m < 2 ^ w → merge (2 ^ w - 1) old new m < 2 ^ w
merge-lt_width zero old new m h = rw (m_zero, and_zero, and_zero) (omega arith)
  where
    m_zero : m ≡ 0
    m_zero = omega arith
merge-lt_width (suc w) old new m h = omega (
  arith,
  pow-suc 2 w,
  merge_lowest w old new m h,
  merge-lt_width w (old / 2) (new / 2) (m / 2) (omega (arith, pow-suc 2 w)),
)

pub merge-lt : (old new m : ℕ) → m < 256 → merge 255 old new m < 256
merge-lt old new m h = merge-lt_width 8 old new m h

-- The lowest bit that a mask has cleared stays clear.
pub and_cleared : (x : ℕ) → bit_and (bit_and x 254) 1 ≡ 0
and_cleared x =
    and_odd (bit_and x 254) 0 ∙ omega (arith, and_zero (bit_and x 254 / 2), and_lowest x 254)

-- A bit that was set is set.
pub and_set : (x : ℕ) → bit_and (bit_or x 1) 1 ≡ 1
and_set x = and_odd (bit_or x 1) 0 ∙ omega (arith, and_zero (bit_or x 1 / 2), or_lowest x 1)
