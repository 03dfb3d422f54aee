-- ===== src/Value/Length.antt =====
-- However a value is written, it has the length of its field.
use Prim.Native.String.{String}
use mathlib.Core.Option.{some-injective}
use xdpacket.Base.{
  ℕ, zero, suc, ◌≤◌, ◌&&◌, Bool, true, false, Option, none, some, List, [], ◌∷◌, ◌≡◌, inl, inr,
  refl, ap, sym, ◌∙◌, arith, ◌==◌, ltb, leb, if◌then◌else◌, length, length-zeros, take, ℤ,
  Bool-cases, ◌>>=◌,
}
use xdpacket.Value.{Readers, integer_bytes, literal, value_bytes, or_zeros, value_parse}
use xdpacket.Value.Integer.{integer_bytes-Stands}

length-take : (n : ℕ) (xs : List ℕ) → n ≤ length xs → length (take n xs) ≡ n
length-take zero xs fits = refl
length-take (suc n) [] fits = absurd (omega arith)
length-take (suc n) (x ∷ xs) fits = ap suc (length-take n xs (omega arith))

-- What the parsers store: four bytes, six, sixteen, and as many as they are asked for.
pub record IsReaders (R : Readers) : Type 0 where
  pub ip4 : (s : String) (bs : List ℕ) → R.inet_pton4 s ≡ some bs → length bs ≡ 4
  pub mac : (s : String) (bs : List ℕ) → R.sscanf_mac s ≡ some bs → length bs ≡ 6
  pub ip6 : (s : String) (bs : List ℕ) → R.inet_pton6 s ≡ some bs → length bs ≡ 16
  pub hex : (s : String) (n : ℕ) (bs : List ℕ) → R.hx2b_be s n ≡ some bs → length bs ≡ n

-- Bytes of a given length, if there are any.
abbrev HasLength : ℕ → Option (List ℕ) → Type 0
HasLength len o = (bytes : List ℕ) → o ≡ some bytes → length bytes ≡ len

cut :
    (len k : ℕ) (o : Option (List ℕ))
    → HasLength k o
    → len ≤ k
    → HasLength len (o >>= λ bs. some (take len bs))
cut len k none h fits bytes e = absurd (ground arith)
cut len k (some bs) h fits bytes e =
    ap length (sym (some-injective _ _ e)) ∙ length-take len bs (omega (arith, h bs refl))

either :
    (len : ℕ) (b : Bool) (x y : Option (List ℕ))
    → (b ≡ true → HasLength len x)
    → HasLength len y
    → HasLength len (if b then x else y)
either len true x y h k = h refl
either len false x y h k = k

module _ (R : Readers) (documented : IsReaders R) (value : String) (len : ℕ) where
  integer-length : (o : Option ℤ) → HasLength len (o >>= integer_bytes len)
  integer-length none bytes e = absurd (ground arith)
  integer-length (some z) bytes e = (integer_bytes-Stands len z bytes e).0

  literal-HasLength : HasLength len (literal R value len)
  unfolding literal
  literal-HasLength bytes e = elim (Bool-cases (ltb (length (R.chars value)) len)) [
    | inl short ↦ absurd (ground arith)
    | inr long ↦
        let same : take len (R.chars value) ≡ bytes = ground arith in
        ap length (sym same) ∙ length-take len (R.chars value) (ground arith)
  ]

  hex-HasLength :
      HasLength len (if R.re_hex value then R.hx2b_be value len else literal R value len)
  hex-HasLength = either len (R.re_hex value) _ _ (λ m. documented.hex value len) literal-HasLength

  rest-HasLength :
      (o : Option (List ℕ))
      → ((i6 : List ℕ) → o ≡ some i6 → (len ≤ 16) × (length i6 ≡ 16))
      → HasLength len (elim o [
        | some i6 ↦ some (take len i6)
        | none ↦ if R.re_hex value then R.hx2b_be value len else literal R value len
      ])
  rest-HasLength none h bytes e = hex-HasLength bytes e
  rest-HasLength (some i6) h bytes e =
      let (fits, whole) = h i6 refl in
      ap length (sym (some-injective _ _ e)) ∙ length-take len i6 (omega (arith, whole))

  ip6_found :
      (i6 : List ℕ)
      → (if leb len 16 && R.re_ipv6 value then R.inet_pton6 value else none) ≡ some i6
      → (len ≤ 16) × (length i6 ≡ 16)
  ip6_found i6 e = elim (Bool-cases (leb len 16 && R.re_ipv6 value)) [
    | inl hit ↦ (ground arith, documented.ip6 value i6 (ground arith))
    | inr miss ↦ absurd (ground arith)
  ]

  bytes-HasLength : HasLength len (value_bytes R value len)
  unfolding value_bytes
  bytes-HasLength =
      either len (len == 0) _ _
        (λ none_asked bytes e. ap length (sym (some-injective _ _ e)) ∙ ground arith)
        (either len (leb len 4 && R.re_ipv4 value) _ _
          (λ m. cut len 4 (R.inet_pton4 value) (documented.ip4 value) (ground arith))
          (either len (leb len 6 && R.re_mac value) _ _
            (λ m. cut len 6 (R.sscanf_mac value) (documented.mac value) (ground arith))
            (either len (leb len 8 && R.re_int value) _ _ (λ m. integer-length (R.strtoll value))
              (rest-HasLength _ ip6_found))))

  or_zeros-HasLength : (o : Option (List ℕ)) → HasLength len o → length (or_zeros len o).1 ≡ len
  or_zeros-HasLength none h = length-zeros len
  or_zeros-HasLength (some bytes) h = h bytes refl

  -- Where the library's parsers store as many bytes as they should, `value_parse` stores exactly as
  -- many bytes as the field has, in whichever way the value is written and also on an error.
  pub length-value_parse : length (value_parse R value len).1 ≡ len
  unfolding value_parse
  length-value_parse = or_zeros-HasLength (value_bytes R value len) bytes-HasLength
