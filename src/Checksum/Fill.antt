-- ===== src/Checksum/Fill.antt =====
-- Filling one checksum field: no fault, nothing else changed, and the block verifies afterwards.
use xdpacket.Base.{
  ℕ, suc, ◌+◌, ◌*◌, ◌/◌, ◌%◌, ◌^◌, ◌≤◌, ◌<◌, ◌≡◌, ◌≢◌, arith, some, get_or, set, drop, length,
  IsBytes, IsBytes-set, length-set, length-drop, get_or-drop, get_or-set_self, get_or-set_ne,
  get_elem?-eq-get_or, drop-set, ◌∙◌, sym, ap,
}
use xdpacket.Checksum.{Mem, Rule, plain, never_zero, field_value, store16, fill_check, ones_final}
use xdpacket.Checksum.Sum.{
  block_sum, block_sum-le, block_sum-set, ones_sum-eq, ones_final-lt, ones_final_verifies,
  ones_final_verifies_ones,
}

abbrev pub write16 : Mem → ℕ → ℕ → Mem
write16 mem i v = set (set mem i (v % 256)) (suc i) (v / 256)

pub store16-eq :
    (mem : Mem) (i v : ℕ) → i + 2 ≤ length mem → store16 mem i v ≡ some (write16 mem i v)
unfolding store16
store16-eq mem i v h =
    ground (arith, get_elem?-eq-get_or mem i 0, get_elem?-eq-get_or mem (i + 1) 0)

write16-drop :
    (mem : Mem) (base at v : ℕ)
    → drop base (write16 mem (base + at) v) ≡ write16 (drop base mem) at v
write16-drop mem base at v = ground (
  arith,
  drop-set base (suc at) (set mem (base + at) (v % 256)) (v / 256),
  drop-set base at mem (v % 256),
)

pub write16-length : (mem : Mem) (i v : ℕ) → length (write16 mem i v) ≡ length mem
write16-length mem i v = length-set _ _ _ ∙ length-set _ _ _

write16-IsBytes : (mem : Mem) (i v : ℕ) → IsBytes mem → v < 2 ^ 16 → IsBytes (write16 mem i v)
write16-IsBytes mem i v h lt = IsBytes-set _ _ _ (IsBytes-set _ _ _ h (omega arith)) (omega arith)

write16_outside :
    (mem : Mem) (i j v : ℕ) → j ≢ i → j ≢ i + 1 → get_or (write16 mem i v) j 0 ≡ get_or mem j 0
write16_outside mem i j v p q = ground (
  arith,
  get_or-set_ne (set mem i (v % 256)) (suc i) j (v / 256) 0,
  get_or-set_ne mem i j (v % 256) 0,
)

write16-sum :
    (bs : Mem) (count at v : ℕ)
    → at % 2 ≡ 0
    → at + 2 ≤ 2 * (count / 2)
    → count ≤ length bs
    → block_sum (write16 (write16 bs at 0) at v) count ≡ block_sum (write16 bs at 0) count + v
write16-sum bs count at v even inside fits = ground (
  arith,
  block_sum-set count at (write16 bs at 0) (v % 256) (v / 256) even inside,
  write16-length bs at 0,
  get_or-set_self (set bs at 0) (suc at) 0 0,
  get_or-set_ne (set bs at 0) (suc at) at 0 0,
  get_or-set_self bs at 0 0,
  length-set bs at 0,
)

-- `mem'` is `mem` with the field `at` of the block at `base` filled: the block then sums, from
-- `seed`, to a value that verifies.
pub record IsFilled (mem : Mem) (base at len seed : ℕ) (mem' : Mem) : Type 0 where
  pub same_length : length mem' ≡ length mem
  pub bytes : IsBytes mem'
  pub outside : (j : ℕ) → j ≢ base + at → j ≢ base + at + 1 → get_or mem' j 0 ≡ get_or mem j 0
  pub verifies : ones_final (seed + block_sum (drop base mem') len) ≡ 0

field_value-verifies :
    (rule : Rule) (s : ℕ)
    → s + 0xffff < 2 ^ 32
    → ones_final (s + field_value rule (ones_final s)) ≡ 0
unfolding field_value
field_value-verifies plain s h = ones_final_verifies s (omega (arith, ones_final-lt s))
field_value-verifies never_zero s h =
    ground (arith, ones_final-lt s, ones_final_verifies s, ones_final_verifies_ones s)

field_value-lt : (rule : Rule) (v : ℕ) → v < 2 ^ 16 → field_value rule v < 2 ^ 16
unfolding field_value
field_value-lt plain v h = h
field_value-lt never_zero v h = ground arith

add_regroup : (a b c : ℕ) → a + (b + c) ≡ a + b + c
add_regroup a b c = omega arith

module _ (rule : Rule) (mem : Mem) (base at len seed : ℕ) (even : at % 2 ≡ 0)
    (inside : at + 2 ≤ 2 * (len / 2)) (fits : base + len ≤ length mem) (short : len ≤ 65535)
    (seed_small : seed ≤ 2 ^ 24) (all_bytes : IsBytes mem) where
  abbrev cleared : Mem
  cleared = write16 mem (base + at) 0

  abbrev partial_sum : ℕ
  partial_sum = seed + block_sum (drop base cleared) len

  abbrev stored : ℕ
  stored = field_value rule (ones_final partial_sum)

  abbrev filled : Mem
  filled = write16 cleared (base + at) stored

  cleared-IsBytes : IsBytes (drop base cleared)
  cleared-IsBytes i = omega (
    arith,
    get_or-drop base i cleared 0,
    write16-IsBytes mem (base + at) 0 all_bytes (omega arith) (base + i),
  )

  partial_sum-lt : partial_sum + 0xffff < 2 ^ 32
  partial_sum-lt = omega (arith, block_sum-le (drop base cleared) len cleared-IsBytes)

  fill_check-eq : fill_check rule mem base at len seed ≡ some filled
  unfolding fill_check
  fill_check-eq = ground (
    arith,
    store16-eq mem (base + at) 0,
    ones_sum-eq (drop base cleared) len seed,
    length-drop base cleared,
    write16-length mem (base + at) 0,
    partial_sum-lt,
    store16-eq cleared (base + at) (field_value rule (ones_final partial_sum)),
  )

  filled-sum : block_sum (drop base filled) len ≡ block_sum (drop base cleared) len + stored
  filled-sum =
      ap (λ bs. block_sum bs len) (write16-drop cleared base at stored)
      ∙ ap (λ bs. block_sum (write16 bs at stored) len) (write16-drop mem base at 0)
      ∙ write16-sum (drop base mem) len at stored even inside (omega (arith, length-drop base mem))
      ∙ ap (λ bs. block_sum bs len + stored) (sym (write16-drop mem base at 0))

  fill_check-IsFilled : IsFilled mem base at len seed filled
  fill_check-IsFilled = record {
    same_length = write16-length cleared (base + at) stored ∙ write16-length mem (base + at) 0;
    bytes =
        write16-IsBytes cleared (base + at) stored
          (write16-IsBytes mem (base + at) 0 all_bytes (omega arith))
          (field_value-lt rule (ones_final partial_sum) (ones_final-lt partial_sum));
    outside = λ j p q.
        write16_outside cleared (base + at) j stored p q ∙ write16_outside mem (base + at) j 0 p q;
    verifies =
        ap (λ t. ones_final (seed + t)) filled-sum
        ∙ ap ones_final (add_regroup seed (block_sum (drop base cleared) len) stored)
        ∙ field_value-verifies rule partial_sum partial_sum-lt;
  }

  -- Inside its memory a field is filled with no fault.
  pub fill_check_total :
      (mem' : Mem) × (fill_check rule mem base at len seed ≡ some mem')
      × IsFilled mem base at len seed mem'
  fill_check_total = (filled, fill_check-eq, fill_check-IsFilled)
