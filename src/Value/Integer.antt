-- ===== src/Value/Integer.antt =====
-- Which integers fit a field, and what their bytes mean.
use xdpacket.Base.{
  ℕ, zero, suc, ◌+◌, ◌-◌, ◌*◌, ◌^◌, ◌≤◌, ◌<◌, some, List, [], ◌∷◌, ◌≡◌, inl, inr, refl, ap, sym,
  arith, ◌==◌, ltb, length, ℤ, pos, negsuc, Bool-cases, ==_iff,
}
use xdpacket.Value.{be_bytes, unsigned_bytes, signed_bytes, integer_bytes}

-- The number that bytes stand for, the highest first.
abbrev pub be_value : List ℕ → ℕ
be_value [] = 0
be_value (b ∷ bytes) = b * 256 ^ length bytes + be_value bytes

pub length-be_bytes : (n v : ℕ) → length (be_bytes n v) ≡ n
unfolding be_bytes
length-be_bytes zero v = refl
length-be_bytes (suc n) v = ap suc (length-be_bytes n v)

value_one : (v : ℕ) → v < 2 ^ 8 → be_value (be_bytes 1 v) ≡ v
unfolding be_bytes
value_one v lt = omega arith

value_two : (v : ℕ) → v < 2 ^ 16 → be_value (be_bytes 2 v) ≡ v
unfolding be_bytes
value_two v lt = omega arith

value_four : (v : ℕ) → v < 2 ^ 32 → be_value (be_bytes 4 v) ≡ v
unfolding be_bytes
value_four v lt = omega arith

value_eight : (v : ℕ) → v < 2 ^ 64 → be_value (be_bytes 8 v) ≡ v
unfolding be_bytes
value_eight v lt = omega arith

-- `v` is the two's complement of an integer in `len` bytes.
abbrev pub Stands : ℕ → ℤ → ℕ → Type 0
Stands len (pos n) v = v ≡ n
Stands len (negsuc n) v = v + n + 1 ≡ 256 ^ len

unsigned-Stands :
    (len bound n : ℕ) (bytes : List ℕ)
    → (n < bound → be_value (be_bytes len n) ≡ n)
    → unsigned_bytes len bound n ≡ some bytes
    → (length bytes ≡ len) × (be_value bytes ≡ n)
unfolding unsigned_bytes
unsigned-Stands len bound n bytes value e = elim (Bool-cases (ltb n bound)) [
  | inr above ↦ absurd (ground arith)
  | inl below ↦
      let same : be_bytes len n ≡ bytes = ground arith in
      rw (sym same) (length-be_bytes len n, value (ground arith))
]

signed-Stands :
    (len bound n : ℕ) (bytes : List ℕ)
    → bound ≤ 256 ^ len
    → (be_value (be_bytes len (256 ^ len - 1 - n)) ≡ 256 ^ len - 1 - n)
    → signed_bytes len bound n ≡ some bytes
    → (length bytes ≡ len) × (be_value bytes + n + 1 ≡ 256 ^ len)
unfolding signed_bytes
signed-Stands len bound n bytes fits value e = elim (Bool-cases (ltb n bound)) [
  | inr above ↦ absurd (ground arith)
  | inl below ↦
      let same : be_bytes len (256 ^ len - 1 - n) ≡ bytes = ground arith in
      rw (sym same) (length-be_bytes len (256 ^ len - 1 - n), ground (arith, value))
]

-- The bytes that an integer is given are as many as the field has, and as a big-endian number they
-- are the integer, a negative one in two's complement.
pub integer_bytes-Stands :
    (len : ℕ) (z : ℤ) (bytes : List ℕ)
    → integer_bytes len z ≡ some bytes
    → (length bytes ≡ len) × Stands len z (be_value bytes)
unfolding integer_bytes
integer_bytes-Stands len (pos n) bytes e = elim (Bool-cases (len == 1)) [
  | inl e1 ↦
      rw ((==_iff len 1).0 e1) (unsigned-Stands 1 (2 ^ 8) n bytes (value_one n) (ground arith))
  | inr n1 ↦ elim (Bool-cases (len == 2)) [
    | inl e2 ↦
        rw ((==_iff len 2).0 e2) (unsigned-Stands 2 (2 ^ 16) n bytes (value_two n) (ground arith))
    | inr n2 ↦ elim (Bool-cases (len == 4)) [
      | inl e4 ↦
          rw ((==_iff len 4).0 e4)
            (unsigned-Stands 4 (2 ^ 32) n bytes (value_four n) (ground arith))
      | inr n4 ↦ elim (Bool-cases (len == 8)) [
        | inl e8 ↦
            rw ((==_iff len 8).0 e8) (
              unsigned-Stands 8 (2 ^ 63) n bytes (λ lt. value_eight n (omega arith)) (ground arith))
        | inr n8 ↦ absurd (ground arith)
      ]
    ]
  ]
]
integer_bytes-Stands len (negsuc n) bytes e = elim (Bool-cases (len == 1)) [
  | inl e1 ↦ rw ((==_iff len 1).0 e1) (
      signed-Stands 1 (2 ^ 7) n bytes (omega arith) (value_one (256 ^ 1 - 1 - n) (omega arith))
        (ground arith))
  | inr n1 ↦ elim (Bool-cases (len == 2)) [
    | inl e2 ↦ rw ((==_iff len 2).0 e2) (
        signed-Stands 2 (2 ^ 15) n bytes (omega arith) (value_two (256 ^ 2 - 1 - n) (omega arith))
          (ground arith))
    | inr n2 ↦ elim (Bool-cases (len == 4)) [
      | inl e4 ↦ rw ((==_iff len 4).0 e4) (
          signed-Stands 4 (2 ^ 31) n bytes (omega arith)
            (value_four (256 ^ 4 - 1 - n) (omega arith)) (ground arith))
      | inr n4 ↦ absurd (ground arith)
    ]
  ]
]
