-- ===== src/Rule/Tests.antt =====
-- A rule made and freed, a packet matched, and everything given back.
use mathlib.Core.List.Permᴰ
use mathlib.Core.List.{Memᴰ}
use xdpacket.Base.{
  ℕ, ◌≡◌, ◌≢◌, zeros, length-zeros, ◌↔◌, inl, inr, refl, arith, Bool, true, none, some, List, [],
  ◌∷◌,
}
use xdpacket.Judy.Model.{words}
use xdpacket.Field.{Field}
use xdpacket.Operations.{op_match}
use xdpacket.Operations.Match.{IsMatch}
use xdpacket.Op.{Heap, op_free}
use xdpacket.Op.Books.{nothing, with_op, Books, Shrinks, Books-ext}
use xdpacket.Op.Free.{op_free-Books}
use xdpacket.Op.New.Made.{memory_of}
use xdpacket.Op.Example.{heap_used, same_port, calls, calls-IsCalls}
use xdpacket.Rule.{Rules, rule_new, rule_free}
use xdpacket.Rule.Total.{total}
use xdpacket.Rule.Books.{RuleBooks, ops_fields, ops_states}
use xdpacket.Rule.Free.{rule_free-RuleBooks}
use xdpacket.Rule.New.{Creates, rule_new-RuleBooks}
use xdpacket.Rule.Safe.{Safe}
use xdpacket.Rule.Reach.{State, free_op, Reachable, then_step}
use xdpacket.Rule.Packets.{Reachable-Safe, op_match-reached, nothing_left}
use xdpacket.Rule.Example.{
  with_draft, with_rule, port_rule, with_draft-Reachable, with_rule-Reachable,
}

draft_books : RuleBooks with_draft.world (same_port ∷ []) (λ q. 0)
draft_books = Safe.books (Reachable-Safe calls calls-IsCalls with_draft with_draft-Reachable)

rule_books : RuleBooks with_rule.world [] (λ q. 0)
rule_books = Safe.books (Reachable-Safe calls calls-IsCalls with_rule with_rule-Reachable)

one_op : Books heap_used (with_op nothing same_port)
unfolding total ops_fields ops_states
one_op = Books-ext heap_used _ _ draft_books.books (λ q. omega arith) (λ q. omega arith)

op_free-Books_example :
    (h' : Heap words) × (op_free heap_used same_port ≡ some h')
    × Books h' nothing
    × Shrinks heap_used h'
op_free-Books_example = op_free-Books heap_used nothing same_port one_op

rule_free-RuleBooks_example :
    (w' : Rules words) × (rule_free with_rule.world 1 ≡ some w')
    × RuleBooks w' [] (λ q. 0)
    × (w'.rules.cell 1 ≡ none)
    × ((q : ℕ) → 1 ≢ q → w'.rules.cell q ≡ with_rule.world.rules.cell q)
    × Shrinks heap_used w'.heap
rule_free-RuleBooks_example =
    rule_free-RuleBooks with_rule.world [] (λ q. 0) 1 port_rule rule_books refl refl

rule_new-RuleBooks_example :
    Creates with_draft.world "ports"
      (same_port ∷ [])
      []
      []
      (λ q. 0)
      (rule_new calls.nstralloc with_draft.world (some "ports") (same_port ∷ []) [])
rule_new-RuleBooks_example =
    rule_new-RuleBooks with_draft.world "ports" (same_port ∷ []) [] [] (λ q. 0) draft_books
      calls.nstralloc (calls-IsCalls.memory 0 "ports" 48) (calls-IsCalls.copy 0 "ports" 48)

Reachable-Safe_example : Safe with_rule.world [] (λ q. 0)
Reachable-Safe_example = Reachable-Safe calls calls-IsCalls with_rule with_rule-Reachable

abbrev packet : List ℕ
packet = zeros 64

op_match-reached_example :
    (b : Bool) × (op_match same_port.set (memory_of heap_used packet) 64 ≡ some b)
    × ((b ≡ true) ↔ IsMatch same_port.set (memory_of heap_used packet) 64)
op_match-reached_example =
    op_match-reached calls calls-IsCalls with_rule same_port packet 64 with_rule-Reachable
      (inr (1, port_rule, refl, inl (Memᴰ.head refl))) refl (omega (arith, length-zeros 64))

-- The operation on its own is freed again.
freed :
    (h : Heap words) × (op_free heap_used same_port ≡ some h)
    × Books h nothing
    × Shrinks heap_used h
freed = op_free-Books heap_used nothing same_port one_op

abbrev all_freed : State words
all_freed = record with_draft { world = record with_draft.world { heap = freed.0 }; drafts = [] }

all_freed-Reachable : Reachable calls all_freed
all_freed-Reachable =
    then_step with_draft all_freed with_draft-Reachable
      (free_op same_port [] freed.0 (Permᴰ.refl _) freed.1)

nothing_left_example :
    ((p : ℕ) → all_freed.world.heap.states.cell p ≡ none)
    × ((p : ℕ) (f : Field) → all_freed.world.heap.fields.cell p ≡ some f → f.refcnt ≡ 0)
nothing_left_example =
    nothing_left calls calls-IsCalls all_freed all_freed-Reachable refl (λ p. refl)
