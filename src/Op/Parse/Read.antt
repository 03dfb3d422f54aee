-- ===== src/Op/Parse/Read.antt =====
-- An operation as it stands in a command: `op_parse_new` reads the request that was written.
use Prim.Native.String.{String}
use xdpacket.Base.{Bool, true, false, Option, none, some, ◌≡◌, refl, sym, ap, ◌∙◌}
use mathlib.Core.Path.{subst}
use xdpacket.Judy.{JudySl}
use xdpacket.Yaml.{scalar, mapping, Pairs, no_pair, pair}
use xdpacket.Op.{Heap, Request, Calls, op_new}
use xdpacket.Op.Books.{Holding, Books, HasRoom, IsCalls}
use xdpacket.Op.New.Made.{Returns, op_new-Returns}
use xdpacket.Op.Parse.{
  nothing_asked, dst_pair, src_pair, side_pairs, side, op_key, op_pairs, asked, op_parse_new,
}

-- A key, or its first letter.
abbrev spelled : Bool → String → String → String
spelled true long short = short
spelled false long short = long

abbrev pair_if : String → Option String → Pairs → Pairs
pair_if key none ps = ps
pair_if key (some text) ps = pair key (scalar text) ps

-- The mapping of an operation, with the bytes of its memrefs, in the order in which they are output.
abbrev pub as_mapping : Bool → Request → Option String → Option String → Pairs
as_mapping short q dst_bytes src_bytes =
    pair (spelled short "dst" "d")
      (mapping (
        pair_if (spelled short "field" "f") q.dst_field_name (
          pair_if (spelled short "state" "s") q.dst_state_name
            (pair_if "bytes" dst_bytes no_pair))))
      (pair (spelled short "src" "s")
        (mapping (
          pair_if (spelled short "field" "f") q.src_field_name (
            pair_if (spelled short "state" "s") q.src_state_name (
              pair_if (spelled short "value" "v") q.src_value
                (pair_if "bytes" src_bytes no_pair)))))
        no_pair)

-- What was read so far.
abbrev read_so_far : Option String → Option String → Option String → Option String → Request
read_so_far a b c d = record {
  dst_field_name = a;
  dst_state_name = b;
  src_field_name = c;
  src_state_name = d;
  src_value = none;
}

dst_field_read :
    (short : Bool) (a : Option String) (ps : Pairs)
    → side_pairs dst_pair (pair_if (spelled short "field" "f") a ps) nothing_asked
      ≡ side_pairs dst_pair ps (read_so_far a none none none)
unfolding side_pairs dst_pair
dst_field_read short none ps = refl
dst_field_read true (some k) ps = refl
dst_field_read false (some k) ps = refl

dst_state_read :
    (short : Bool) (a b : Option String) (ps : Pairs)
    → side_pairs dst_pair (pair_if (spelled short "state" "s") b ps) (read_so_far a none none none)
      ≡ side_pairs dst_pair ps (read_so_far a b none none)
unfolding side_pairs dst_pair
dst_state_read short a none ps = refl
dst_state_read true a (some k) ps = refl
dst_state_read false a (some k) ps = refl

dst_bytes_read :
    (bytes : Option String) (q : Request)
    → side_pairs dst_pair (pair_if "bytes" bytes no_pair) q ≡ some q
unfolding side_pairs dst_pair
dst_bytes_read none q = refl
dst_bytes_read (some k) q = refl

src_field_read :
    (short : Bool) (a b c : Option String) (ps : Pairs)
    → side_pairs src_pair (pair_if (spelled short "field" "f") c ps) (read_so_far a b none none)
      ≡ side_pairs src_pair ps (read_so_far a b c none)
unfolding side_pairs src_pair
src_field_read short a b none ps = refl
src_field_read true a b (some k) ps = refl
src_field_read false a b (some k) ps = refl

src_state_read :
    (short : Bool) (a b c d : Option String) (ps : Pairs)
    → side_pairs src_pair (pair_if (spelled short "state" "s") d ps) (read_so_far a b c none)
      ≡ side_pairs src_pair ps (read_so_far a b c d)
unfolding side_pairs src_pair
src_state_read short a b c none ps = refl
src_state_read true a b c (some k) ps = refl
src_state_read false a b c (some k) ps = refl

src_value_read :
    (short : Bool) (a b c d e : Option String) (ps : Pairs)
    → side_pairs src_pair (pair_if (spelled short "value" "v") e ps) (read_so_far a b c d)
      ≡ side_pairs src_pair ps (record (read_so_far a b c d) { src_value = e })
unfolding side_pairs src_pair
src_value_read short a b c d none ps = refl
src_value_read true a b c d (some k) ps = refl
src_value_read false a b c d (some k) ps = refl

src_bytes_read :
    (bytes : Option String) (q : Request)
    → side_pairs src_pair (pair_if "bytes" bytes no_pair) q ≡ some q
unfolding side_pairs src_pair
src_bytes_read none q = refl
src_bytes_read (some k) q = refl

-- The two keys of the operation.
sides_read :
    (short : Bool) (dst src : Pairs) (q q' : Request)
    → side_pairs dst_pair dst nothing_asked ≡ some q
    → side_pairs src_pair src q ≡ some q'
    → op_pairs
        (pair
          (spelled short "dst" "d")
          (mapping dst)
          (pair (spelled short "src" "s") (mapping src) no_pair))
        nothing_asked
      ≡ some q'
unfolding op_pairs op_key side
sides_read true dst src q q' e e' = rw (e, e') refl
sides_read false dst src q q' e e' = rw (e, e') refl

op_pairs-as_mapping :
    (short : Bool) (q : Request) (dst_bytes src_bytes : Option String)
    → op_pairs (as_mapping short q dst_bytes src_bytes) nothing_asked ≡ some q
op_pairs-as_mapping short q dst_bytes src_bytes =
    let a = q.dst_field_name in
    let b = q.dst_state_name in
    let c = q.src_field_name in
    let d = q.src_state_name in
    sides_read short _ _ _ q
      (dst_field_read short a _ ∙ dst_state_read short a b _ ∙ dst_bytes_read dst_bytes _)
      (src_field_read short a b c _
        ∙ src_state_read short a b c d _
        ∙ src_value_read short a b c d q.src_value _
        ∙ src_bytes_read src_bytes _)

module _ {J : JudySl} (c : Calls) (documented : IsCalls c) (n : Holding) (room : HasRoom n)
    (h : Heap J) (v : Books h n) where
  -- An operation that is written as a mapping, with long keys or with short ones, is read as it was
  -- written: under the conditions of `op_new`, `op_parse_new` returns null, or a compiled operation
  -- with the fields, states and value that stand on the two sides. The bytes of the memrefs are
  -- passed over. Every count is right again, with the references of that operation if there is one.
  pub op_parse_new-Returns :
      (memory short : Bool) (q : Request) (dst_bytes src_bytes : Option String)
      → Returns n h q (op_parse_new c h memory (as_mapping short q dst_bytes src_bytes))
        × (op_parse_new c h memory (as_mapping short q dst_bytes src_bytes) ≡ op_new c h memory q)
  unfolding op_parse_new asked
  op_parse_new-Returns memory short q dst_bytes src_bytes =
      let read = op_pairs-as_mapping short q dst_bytes src_bytes in
      let same = ap (asked c h memory) read in
      (subst (Returns n h q) (sym same) (op_new-Returns n c q h memory documented room v), same)
