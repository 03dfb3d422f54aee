-- ===== src/Value.antt =====
-- `value_parse` of src/value.c: a value as the user writes it, as the bytes that stand for it. The
-- regular expressions and the library's parsers are an interface here, `Readers`.
pub mod Integer
pub mod Length
pub mod Example
mod Tests
use Prim.Native.String.{String}
use xdpacket.Base.{
  ℕ, zero, suc, ◌-◌, ◌/◌, ◌%◌, ◌^◌, Bool, true, false, ◌&&◌, Option, none, some, List, [], ◌∷◌, ℤ,
  pos, negsuc, ◌==◌, ltb, leb, if◌then◌else◌, length, take, zeros, ◌+◌, ◌*◌, ◌>>=◌,
}

-- What the source calls: which of its five expressions match a string, what the parsers make of
-- one, and the bytes of a string. `none` is a failure.
pub record Readers : Type 0 where
  pub re_ipv4 : String → Bool
  pub re_mac : String → Bool
  pub re_int : String → Bool
  pub re_ipv6 : String → Bool
  pub re_hex : String → Bool
  pub inet_pton4 : String → Option (List ℕ)
  pub sscanf_mac : String → Option (List ℕ)
  pub strtoll : String → Option ℤ
  pub inet_pton6 : String → Option (List ℕ)
  pub hx2b_be : String → ℕ → Option (List ℕ)
  pub chars : String → List ℕ

-- The `n` bytes of a number, the highest first.
pub be_bytes : ℕ → ℕ → List ℕ
be_bytes zero v = []
be_bytes (suc n) v = v / 256 ^ n % 256 ∷ be_bytes n v

-- A number that is stored if it is below `bound`, which the builtin checks.
pub unsigned_bytes : ℕ → ℕ → ℕ → Option (List ℕ)
unsigned_bytes len bound n = if ltb n bound then some (be_bytes len n) else none

-- The same for -(n + 1) in two's complement.
pub signed_bytes : ℕ → ℕ → ℕ → Option (List ℕ)
signed_bytes len bound n = if ltb n bound then some (be_bytes len (256 ^ len - 1 - n)) else none

-- The branches on the length and on the sign. With eight bytes the source checks a positive number
-- as an int64_t and a negative one as a uint64_t, which holds none.
pub integer_bytes : ℕ → ℤ → Option (List ℕ)
integer_bytes len (pos n) =
    if len == 1
    then unsigned_bytes 1 (2 ^ 8) n
    else if len == 2
    then unsigned_bytes 2 (2 ^ 16) n
    else if len == 4
    then unsigned_bytes 4 (2 ^ 32) n
    else if len == 8
    then unsigned_bytes 8 (2 ^ 63) n
    else none
integer_bytes len (negsuc n) =
    if len == 1
    then signed_bytes 1 (2 ^ 7) n
    else if len == 2
    then signed_bytes 2 (2 ^ 15) n
    else if len == 4
    then signed_bytes 4 (2 ^ 31) n
    else none

abbrev pub or_zeros : ℕ → Option (List ℕ) → Bool × List ℕ
or_zeros len none = (false, zeros len)
or_zeros len (some bytes) = (true, bytes)

module _ (R : Readers) where
  -- A string is cut to the length of the field; a shorter one is an error.
  pub literal : String → ℕ → Option (List ℕ)
  literal value len =
      if ltb (length (R.chars value)) len then none else some (take len (R.chars value))

  -- The kinds of value in turn; the bytes, or none for an error.
  pub value_bytes : String → ℕ → Option (List ℕ)
  value_bytes value len =
      if len == 0
      then some []
      else if leb len 4 && R.re_ipv4 value
      then (R.inet_pton4 value >>= λ i4. some (take len i4))
      else if leb len 6 && R.re_mac value
      then (R.sscanf_mac value >>= λ by. some (take len by))
      else if leb len 8 && R.re_int value
      then (R.strtoll value >>= integer_bytes len)
      else elim (if leb len 16 && R.re_ipv6 value then R.inet_pton6 value else none) [
        | some i6 ↦ some (take len i6)
        | none ↦ if R.re_hex value then R.hx2b_be value len else literal value len
      ]

  -- Whether it could be parsed, and the bytes stored: zeros on a failure.
  pub value_parse : String → ℕ → Bool × List ℕ
  value_parse value len = or_zeros len (value_bytes value len)

-- The text of `value_render`: "0x" and the digits that `b2hx_be` makes, with the zero byte at their
-- end; `malloc` says whether there is memory for so many bytes.
pub value_render : (ℕ → Bool) → (List ℕ → List ℕ) → List ℕ → Option (List ℕ)
value_render malloc b2hx_be parsed =
    if malloc (length parsed * 2 + 3)
    then some (if length parsed == 0 then 0 ∷ [] else 48 ∷ 120 ∷ b2hx_be parsed)
    else none
