-- ===== src/Op/Parse.antt =====
-- `op_parse_new` of src/operations.c: an operation read from a YAML mapping. Its count of errors is a
-- variable of its own that nothing reads.
pub mod Read
use Prim.Native.String.{String}
use xdpacket.Base.{Bool, Option, none, some, ◌≡◌, ◌⊎◌, inl, inr, refl, if◌then◌else◌, ◌>>=◌}
use text.Mathlib.Text.{◌==◌ as str_eq}
use xdpacket.Judy.{JudySl}
use xdpacket.Yaml.{Node, scalar, sequence, mapping, unknown, Pairs, no_pair, pair}
use xdpacket.Field.Command.{is_key}
use xdpacket.Op.{Op, Heap, Request, Calls, op_new}
use xdpacket.Op.Books.{
  Holding, with_op?, Books, HasRoom, IsCalls, Agrees, Stays-refl, Shrinks-refl, Stays-Agrees,
}
use xdpacket.Op.New.Made.{IsCompiled, op_new-Returns}

abbrev pub nothing_asked : Request
nothing_asked = record {
  dst_field_name = none;
  dst_state_name = none;
  src_field_name = none;
  src_state_name = none;
  src_value = none;
}

-- A pair of the mapping `dst`; `none` is `die`.
pub dst_pair : String → Option String → Request → Option Request
dst_pair key text q =
    if is_key "field" "f" key
    then some (record q { dst_field_name = text })
    else if is_key "state" "s" key
    then some (record q { dst_state_name = text })
    else if str_eq "bytes" key
    then some q
    else none

pub src_pair : String → Option String → Request → Option Request
src_pair key text q =
    if is_key "field" "f" key
    then some (record q { src_field_name = text })
    else if is_key "state" "s" key
    then some (record q { src_state_name = text })
    else if is_key "value" "v" key
    then some (record q { src_value = text })
    else if str_eq "bytes" key
    then some q
    else none

-- Y_FOR_MAP, which goes on after a node of no known type.
pub side_pairs :
    (String → Option String → Request → Option Request) → Pairs → Request → Option Request
side_pairs step no_pair q = some q
side_pairs step (pair key unknown ps) q = side_pairs step ps q
side_pairs step (pair key (scalar s) ps) q = step key (some s) q >>= λ q'. side_pairs step ps q'
side_pairs step (pair key (sequence xs) ps) q = step key none q >>= λ q'. side_pairs step ps q'
side_pairs step (pair key (mapping m) ps) q = step key none q >>= λ q'. side_pairs step ps q'

-- A side that is not a mapping is passed over.
pub side : (String → Option String → Request → Option Request) → Node → Request → Option Request
side step (mapping m) q = side_pairs step m q
side step (scalar s) q = some q
side step (sequence xs) q = some q
side step unknown q = some q

pub op_key : String → Node → Request → Option Request
op_key key node q =
    if is_key "dst" "d" key
    then side dst_pair node q
    else if is_key "src" "s" key
    then side src_pair node q
    else none

pub op_pairs : Pairs → Request → Option Request
op_pairs no_pair q = some q
op_pairs (pair key unknown ps) q = op_pairs ps q
op_pairs (pair key (scalar s) ps) q = op_key key (scalar s) q >>= λ q'. op_pairs ps q'
op_pairs (pair key (sequence xs) ps) q = op_key key (sequence xs) q >>= λ q'. op_pairs ps q'
op_pairs (pair key (mapping m) ps) q = op_key key (mapping m) q >>= λ q'. op_pairs ps q'

module _ {J : JudySl} (c : Calls) where
  pub asked : Heap J → Bool → Option Request → Option (Option Op × Heap J)
  asked h memory none = some (none, h)
  asked h memory (some q) = op_new c h memory q

  pub op_parse_new : Heap J → Bool → Pairs → Option (Option Op × Heap J)
  op_parse_new h memory ps = asked h memory (op_pairs ps nothing_asked)

-- What may come back: null, or a compiled operation that holds what it points to.
abbrev pub Makes : {J : JudySl} → Holding → Heap J → Option (Option Op × Heap J) → Type 0
Makes {J} n start result =
    (made : Option Op) × (h : Heap J) × (result ≡ some (made, h))
    × Books h (with_op? n made)
    × Agrees start h
    × ((made ≡ none) ⊎ (o : Op) × (made ≡ some o) × IsCompiled h o)

module _ {J : JudySl} (c : Calls) (documented : IsCalls c) (n : Holding) (room : HasRoom n)
    (h : Heap J) (v : Books h n) where
  asked-Makes : (memory : Bool) (q : Option Request) → Makes n h (asked c h memory q)
  unfolding asked
  asked-Makes memory none =
      (none, h, refl, v, Stays-Agrees h h h (Stays-refl h) (Shrinks-refl h), inl refl)
  asked-Makes memory (some q) =
      let (made, h', run, books, agree, facts) = op_new-Returns n c q h memory documented room v in
      (
        made,
        h',
        run,
        books,
        agree,
        elim facts [ inl null ↦ inl null | inr (o, e, asked_for, compiled) ↦ inr (o, e, compiled) ],
      )

  -- Under the conditions of `op_new`, `op_parse_new` on any mapping returns null or a compiled
  -- operation, every count is right again with the references of that operation if there is one, and
  -- what there was is the same but for its counts.
  pub op_parse_new-Makes : (memory : Bool) (ps : Pairs) → Makes n h (op_parse_new c h memory ps)
  unfolding op_parse_new
  op_parse_new-Makes memory ps = asked-Makes memory _
