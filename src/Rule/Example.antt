-- ===== src/Rule/Example.antt =====
-- A rule with one operation.
use mathlib.Core.List.Permᴰ
use xdpacket.Base.{◌≡◌, refl, arith, true, none, some, [], ◌∷◌, ◌==◌, if◌then◌else◌}
use xdpacket.Judy.{js_insert, insert_common}
use xdpacket.Judy.Model.{words}
use xdpacket.Registry.{Registry, initial, alloc, publish}
use xdpacket.Op.Books.{HasRoom}
use xdpacket.Op.Example.{heap, heap-Books, heap_used, request, same_port, calls, op_new_run}
use xdpacket.Rule.{Rule, drafted, published, named, allocated, rule_new}
use xdpacket.Rule.Total.{total}
use xdpacket.Rule.Books.{ops_fields, ops_states, with_ops, of_rules}
use xdpacket.Rule.New.{made}
use xdpacket.Rule.Reach.{State, make_op, make_rule, Reachable, start, then_step}

abbrev pub no_rules : Registry words Rule
no_rules = initial (λ i. true)

-- Before the operation is made, with it, and with a rule that owns it.
abbrev pub begun : State words
begun = record { world = record { heap = heap 0; rules = no_rules }; drafts = []; held = λ q. 0 }

abbrev pub with_draft : State words
with_draft = record {
  world = record { heap = heap_used; rules = no_rules };
  drafts = same_port ∷ [];
  held = λ q. 0;
}

abbrev pub port_rule : Rule
port_rule = made "ports" (same_port ∷ []) []

abbrev pub with_rule : State words
with_rule = record {
  world = record {
    heap = heap_used;
    rules = record {
      next = 1;
      grants = λ i. true;
      cell = λ p.
          if 1 == p
          then some port_rule
          else if 1 == p
          then some (drafted (same_port ∷ []) [])
          else none;
      js = ("ports", 1) ∷ ("ports", 0) ∷ [];
    };
  };
  drafts = [];
  held = λ q. 0;
}

pub begun-HasRoom : HasRoom (with_ops (of_rules no_rules) [])
unfolding total ops_fields ops_states
begun-HasRoom = record { fields = λ q. omega arith; states = λ q. omega arith }

pub begun-Reachable : Reachable calls begun
begun-Reachable = start (heap 0) (λ i. true) heap-Books

pub with_draft-Reachable : Reachable calls with_draft
with_draft-Reachable =
    then_step begun with_draft begun-Reachable
      (make_op true request same_port heap_used begun-HasRoom op_new_run)

pub rule_new_run :
    rule_new calls.nstralloc with_draft.world (some "ports") (same_port ∷ []) []
    ≡ some (1, with_rule.world)
unfolding rule_new allocated named published alloc publish js_insert insert_common
rule_new_run = refl

pub with_rule-Reachable : Reachable calls with_rule
with_rule-Reachable =
    then_step with_draft with_rule with_draft-Reachable
      (make_rule "ports" (same_port ∷ []) [] [] 1 with_rule.world (Permᴰ.refl _) rule_new_run)
