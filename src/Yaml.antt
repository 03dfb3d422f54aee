-- ===== src/Yaml.antt =====
-- The documents that the parsers of src/ read: the nodes of libyaml as a tree. A key is a scalar.
use Prim.Native.String.{String}
use xdpacket.Base.{ℕ, suc, ◌+◌, Option, none, some}

-- `yaml_node_t` by its type, and the lists of items and of pairs. A node of no known type is
-- `unknown`.
mutual
  pub data Node : Type 0 where
    scalar : String → Node
    sequence : Items → Node
    mapping : Pairs → Node
    unknown : Node

  pub data Items : Type 0 where
    no_item : Items
    item : Node → Items → Items

  pub data Pairs : Type 0 where
    no_pair : Pairs
    pair : String → Node → Pairs → Pairs

-- The variable `txt` of a loop.
abbrev pub txt : Node → Option String
txt (scalar s) = some s
txt (sequence xs) = none
txt (mapping ps) = none
txt unknown = none

-- How many items stand in the sequences of a mapping.
abbrev pub count_items : Items → ℕ
count_items no_item = 0
count_items (item x xs) = suc (count_items xs)

abbrev pub count_pairs : Pairs → ℕ
count_pairs no_pair = 0
count_pairs (pair key (scalar s) ps) = count_pairs ps
count_pairs (pair key (sequence xs) ps) = count_items xs + count_pairs ps
count_pairs (pair key (mapping m) ps) = count_pairs ps
count_pairs (pair key unknown ps) = count_pairs ps
