-- ===== src/Rule/Command.antt =====
-- `rule_parse` of src/rule.c: one command on rules. Whether `calloc` gives memory for the operation
-- after `k` others is an argument, and so are whether its queue gets memory for the entry, and whether
-- the output could be written.
pub mod Loop
pub mod Walk
mod Laws
mod Tests
use Prim.Native.String.{String}
use text.Mathlib.Text.{◌==◌ as str_eq}
use xdpacket.Base.{
  ℕ, ◌+◌, Bool, true, false, not, ◌||◌, Option, none, some, List, [], ◌∷◌, ◌++◌, ◌==◌,
  if◌then◌else◌, ◌>>=◌,
}
use xdpacket.Judy.{JudySl}
use xdpacket.Yaml.{
  Node, scalar, sequence, mapping, unknown, Items, no_item, item, Pairs, no_pair, pair,
}
use xdpacket.Registry.{find}
use xdpacket.Field.Command.{Mode, parse_invalid, parse_add, parse_del, parse_prn, is_key}
use xdpacket.Op.{Op, Heap, Calls}
use xdpacket.Op.Parse.{op_parse_new}
use xdpacket.Rule.{Rule, Rules, rule_new, rule_free}

-- What the loops change; `made` counts the operations that were asked for.
pub record Work (J : JudySl) : Type 0 where
  pub heap : Heap J
  pub made : ℕ
  pub err_cnt : ℕ

pub record Draft (J : JudySl) : Type 0 where
  pub work : Work J
  pub name : String
  pub match_jq : List Op
  pub write_jq : List Op

-- NB_err
abbrev pub failed : {J : JudySl} → Work J → Work J
failed w = record w { err_cnt = w.err_cnt + 1 }

abbrev pub failed_draft : {J : JudySl} → Draft J → Draft J
failed_draft d = record d { work = failed d.work }

-- The count of errors after a reply.
pub error_count : Bool → ℕ → ℕ
error_count true err_cnt = err_cnt
error_count false err_cnt = err_cnt + 1

module _ {J : JudySl} where
  -- `jl_enqueue`, which refuses a null pointer, and fails without memory for the entry.
  pub enqueued : Bool → List Op → Work J → Option Op → List Op × Work J
  enqueued entry jq w none = (jq, failed w)
  enqueued true jq w (some o) = (jq ++ (o ∷ []), w)
  enqueued false jq w (some o) = (jq, failed w)

  module _ (c : Calls) (memory entries : ℕ → Bool) where
    -- An item of a queue.
    pub queue_item : Node → List Op → Work J → Option (List Op × Work J)
    queue_item (scalar s) jq w = some (jq, failed w)
    queue_item (sequence xs) jq w = some (jq, failed w)
    queue_item unknown jq w = some (jq, failed w)
    queue_item (mapping m) jq w = op_parse_new c w.heap (memory w.made) m >>= λ r.
        some (enqueued (entries w.made) jq (record w { heap = r.1; made = w.made + 1 }) r.0)

    -- Y_FOR_SEQ
    pub queue_items : Items → List Op → Work J → Option (List Op × Work J)
    queue_items no_item jq w = some (jq, w)
    queue_items (item x xs) jq w = queue_item x jq w >>= λ r. queue_items xs r.0 r.1

    pub queues : Mode → String → Items → Draft J → Option (Draft J)
    queues parse_invalid key xs d = some (failed_draft d)
    queues parse_del key xs d = some (failed_draft d)
    queues parse_prn key xs d = some (failed_draft d)
    queues parse_add key xs d =
        if is_key "match" "m" key
        then (queue_items xs d.match_jq d.work >>= λ r.
            some (record d { match_jq = r.0; work = r.1 }))
        else if is_key "write" "w" key
        then (queue_items xs d.write_jq d.work >>= λ r.
            some (record d { write_jq = r.0; work = r.1 }))
        else some (failed_draft d)

    -- Whether to go on, and the local variables.
    pub rule_pair : Mode → String → Node → Draft J → Option (Bool × Draft J)
    rule_pair mode key (scalar s) d =
        if is_key "rule" "r" key
        then some (true, record d { name = s })
        else some (true, failed_draft d)
    rule_pair mode key (sequence xs) d = queues mode key xs d >>= λ d'. some (true, d')
    rule_pair mode key (mapping m) d = some (false, failed_draft d)
    rule_pair mode key unknown d = some (true, failed_draft d)

    -- Y_FOR_MAP
    pub rule_pairs : Mode → Pairs → Draft J → Option (Bool × Draft J)
    rule_pairs mode no_pair d = some (true, d)
    rule_pairs mode (pair key node ps) d =
        rule_pair mode key node d >>= λ r. if r.0 then rule_pairs mode ps r.1 else some r

  module _ (c : Calls) (emits : Rule → Bool) (emits_all : Rules J → Bool) where
    removed : Rules J → ℕ → ℕ → Rule → Option (ℕ × Rules J)
    removed w err_cnt p a =
        if not (a.refcnt == 0) || not (emits a)
        then some (err_cnt + 1, w)
        else (rule_free w p >>= λ w'. some (err_cnt, w'))

    -- The switch on the mode: the number of errors, and the rules.
    pub rule_mode : Mode → Rules J → Draft J → Option (ℕ × Rules J)
    rule_mode parse_invalid w d = some (d.work.err_cnt + 1, w)
    rule_mode parse_add w d = rule_new c.nstralloc w (some d.name) d.match_jq d.write_jq >>= λ r.
        if r.0 == 0
        then some (d.work.err_cnt + 1, r.1)
        else (r.1.rules.cell r.0 >>= λ a. some (error_count (emits a) d.work.err_cnt, r.1))
    rule_mode parse_del w d =
        if find w.rules d.name == 0
        then some (d.work.err_cnt + 1, w)
        else (w.rules.cell (find w.rules d.name) >>= removed w d.work.err_cnt (find w.rules d.name))
    rule_mode parse_prn w d =
        if str_eq "" d.name
        then some (error_count (emits_all w) d.work.err_cnt, w)
        else if find w.rules d.name == 0
        then some (d.work.err_cnt, w)
        else (w.rules.cell (find w.rules d.name) >>= λ a.
            some (error_count (emits a) d.work.err_cnt, w))

    module _ (memory entries : ℕ → Bool) where
      abbrev pub begin : Rules J → Draft J
      begin w = record {
        work = record { heap = w.heap; made = 0; err_cnt = 0 };
        name = "";
        match_jq = [];
        write_jq = [];
      }

      -- The number of errors, and the rules. A pair that ends the loop leaves the queues behind.
      pub rule_parse : Mode → Rules J → Pairs → Option (ℕ × Rules J)
      rule_parse mode w ps = rule_pairs c memory entries mode ps (begin w) >>= λ r.
          let w' = record w { heap = r.1.work.heap } in
          if r.0 then rule_mode mode w' r.1 else some (r.1.work.err_cnt, w')
