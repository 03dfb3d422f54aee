-- ===== src/Field/Command.antt =====
-- `field_parse` of src/field.c: one command on fields, read from a YAML mapping. A mapping is the
-- list of its pairs. `strtol` is a library function, and `emits` says whether `field_emit` could
-- write its reply.
pub mod Laws
mod Tests
use text.Mathlib.Text.{◌==◌ as str_eq}
use Prim.Native.String.{String}
use xdpacket.Base.{
  ℕ, ◌+◌, Bool, true, false, not, ◌||◌, Option, none, some, List, [], ◌∷◌, ℤ, pos, ◌==◌,
  if◌then◌else◌, ◌>>=◌,
}
use xdpacket.Judy.{JudySl}
use xdpacket.Registry.{Registry, find}
use xdpacket.Field.{Field, Nstr, field_new, field_free}

-- The value of a pair; these commands do not look into a mapping or a sequence.
pub data Node : Type 0 where
  scalar : String → Node
  collection unknown : Node

-- enum parse_mode
pub data Mode : Type 0 where
  parse_invalid parse_add parse_del parse_prn : Mode

-- The local variables; a null `txt` can be stored as the name.
pub record Params : Type 0 where
  pub name : Option String
  pub offt : ℤ
  pub len : ℤ
  pub mask : ℤ
  pub err_cnt : ℕ

abbrev pub start : Params
start = record { name = some ""; offt = pos 0; len = pos 0; mask = pos 0; err_cnt = 0 }

abbrev pub failed : Params → Params
failed p = record p { err_cnt = p.err_cnt + 1 }

abbrev pub is_key : String → String → String → Bool
is_key long short key = str_eq long key || str_eq short key

module _ (strtol : String → Option ℤ) where
  -- A number for a variable. Whether to go on, and the variables; `none` reads a null string.
  pub number : Option String → Params → (ℤ → Params) → Option (Bool × Params)
  number none p store = none
  number (some txt) p store = elim (strtol txt) [
    | none ↦ some (false, failed p)
    | some n ↦ some (true, store n)
  ]

  pub keyed : String → Option String → Params → Option (Bool × Params)
  keyed key txt p =
      if is_key "field" "f" key
      then some (true, record p { name = txt })
      else if is_key "offt" "o" key
      then number txt p (λ n. record p { offt = n })
      else if is_key "len" "l" key
      then number txt p (λ n. record p { len = n })
      else if is_key "mask" "m" key
      then number txt p (λ n. record p { mask = n })
      else some (true, failed p)

  pub pair_step : String → Node → Params → Option (Bool × Params)
  pair_step key (scalar txt) p = keyed key (some txt) p
  pair_step key collection p = keyed key none p
  pair_step key unknown p = some (true, failed p)

  -- Y_FOR_MAP
  pub walk : List (String × Node) → Params → Option (Bool × Params)
  walk [] p = some (true, p)
  walk ((key, node) ∷ pairs) p =
      pair_step key node p >>= λ r. if r.0 then walk pairs r.1 else some r

module _ {J : JudySl} where
  -- The count of errors after a reply.
  pub replied : Bool → ℕ → Registry J Field → ℕ × Registry J Field
  replied true err_cnt r = (err_cnt, r)
  replied false err_cnt r = (err_cnt + 1, r)

module _ {J : JudySl} (nstralloc : ℕ → String → ℕ → Nstr) (emits : Field → Bool)
    (emits_all : Registry J Field → Bool) where
  pub removed : Registry J Field → Params → ℕ → Field → Option (ℕ × Registry J Field)
  removed r p at f =
      if not (f.refcnt == 0) || not (emits f)
      then some (p.err_cnt + 1, r)
      else (field_free r at >>= λ r'. some (p.err_cnt, r'))

  -- The switch on the mode: the number of errors, and the fields.
  pub field_mode : Mode → Registry J Field → Params → Option (ℕ × Registry J Field)
  field_mode parse_invalid r p = some (p.err_cnt + 1, r)
  field_mode parse_add r p = field_new nstralloc r p.name p.offt p.len p.mask >>= λ q.
      if q.0 == 0
      then some (p.err_cnt + 1, q.1)
      else (q.1.cell q.0 >>= λ f. some (replied (emits f) p.err_cnt q.1))
  field_mode parse_del r p = p.name >>= λ k.
      if find r k == 0
      then some (p.err_cnt + 1, r)
      else (r.cell (find r k) >>= removed r p (find r k))
  field_mode parse_prn r p = p.name >>= λ k.
      if str_eq "" k
      then some (replied (emits_all r) p.err_cnt r)
      else if find r k == 0
      then some (p.err_cnt, r)
      else (r.cell (find r k) >>= λ f. some (replied (emits f) p.err_cnt r))

  module _ (strtol : String → Option ℤ) where
    pub field_parse : Mode → Registry J Field → List (String × Node) → Option (ℕ × Registry J Field)
    field_parse mode r pairs = walk strtol pairs start >>= λ w.
        if w.0 then field_mode mode r w.1 else some (w.1.err_cnt, r)
