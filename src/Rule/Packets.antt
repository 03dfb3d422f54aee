-- ===== src/Rule/Packets.antt =====
-- From every state that can be reached packets are matched inside their memory.
use mathlib.Core.Path.{subst}
use mathlib.Core.List.{Memᴰ}
use xdpacket.Base.{
  ℕ, ◌+◌, ◌≤◌, Bool, true, none, some, List, [], ◌∷◌, ◌++◌, ◌≡◌, ◌↔◌, inl, inr, refl, ap, arith,
  length, Option-cases, same_result,
}
use xdpacket.Judy.{JudySl}
use xdpacket.Operations.{op_match}
use xdpacket.Operations.Resolve.{IsSound}
use xdpacket.Operations.Match.{IsMatch, op_match_decides}
use xdpacket.Registry.{find}
use xdpacket.Registry.Accounts.{one_at}
use xdpacket.Field.{Field}
use xdpacket.Op.{Op, Heap, Calls, op_free}
use xdpacket.Op.Books.{with_op, IsCalls, Books-ext, Shrinks-Agrees}
use xdpacket.Op.Free.{op_free-Books}
use xdpacket.Op.New.Made.{memory_of, IsCompiled, op_new-Returns}
use xdpacket.Rule.{Rules}
use xdpacket.Rule.Total.{total-zero}
use xdpacket.Rule.Books.{
  ops_fields, ops_states, with_ops, rule_fields, rule_states, of_rules, RuleBooks,
}
use xdpacket.Memref.Ledger.{shared, owned}
use xdpacket.Rule.Get.{rule_get-RuleBooks, rule_release-RuleBooks}
use xdpacket.Rule.Safe.{Owned, Safe, Safe-step}
use xdpacket.Rule.Bag.{Safe-Perm}
use xdpacket.Rule.Reach.{
  State, Step, make_op, make_no_op, free_op, make_rule, free_rule, get_rule, release_rule,
  Reachable, start, then_step,
}
use xdpacket.Rule.Invariant.{
  start-Safe, with_heap, made-Safe, unmade-Safe, rule-Safe, freed_rule-Safe, recounted-Safe,
}

abbrev IsSafe : {J : JudySl} → State J → Type 0
IsSafe s = Safe s.world s.drafts s.held

module _ {J : JudySl} (c : Calls) (documented : IsCalls c) where
  freed_op-Safe :
      (s : State J) (o : Op) (rest : List Op) (h : Heap J)
      → IsSafe s
      → s.drafts ≡ o ∷ rest
      → op_free s.world.heap o ≡ some h
      → Safe (record s.world { heap = h }) rest s.held
  unfolding ops_fields ops_states
  freed_op-Safe s o rest h v e run =
      let n = with_ops (of_rules s.world.rules) rest in
      let before = subst (λ l. RuleBooks s.world l s.held) e v.books in
      let (h', run', books, less) = op_free-Books s.world.heap n o (
        Books-ext s.world.heap _ (with_op n o) before.books (λ q. omega arith)
          (λ q. omega arith)) in
      let safe : Safe (record s.world { heap = h' }) rest s.held =
        Safe-step s.world (record s.world { heap = h' }) s.drafts rest s.held s.held v
          (with_heap s.world s.drafts rest s.held h' v.books books)
          (Shrinks-Agrees s.world.heap h' less)
          (λ x mine. elim mine [ inl m ↦ inl (rw e (Memᴰ.tail m)) | inr old ↦ inr old ]) in
      same_result (λ (x : Heap J). Safe (record s.world { heap = x }) rest s.held) _ h' h run' run
        safe

  Step-Safe : (s s' : State J) → IsSafe s → Step c s s' → IsSafe s'
  Step-Safe s s' v (make_op memory q o h room run) =
      made-Safe s.world s.drafts s.held v q o h _
        (op_new-Returns _ c q s.world.heap memory documented room v.books.books) run
  Step-Safe s s' v (make_no_op memory q h room run) =
      unmade-Safe s.world s.drafts s.held v q h _
        (op_new-Returns _ c q s.world.heap memory documented room v.books.books) run
  Step-Safe s s' v (free_op o rest h p run) =
      freed_op-Safe (record s { drafts = o ∷ rest }) o rest h
        (Safe-Perm s.world s.drafts (o ∷ rest) s.held p v) refl run
  Step-Safe s s' v (make_rule k matches writes rest p w e run) =
      let drafts = matches ++ (writes ++ rest) in
      rule-Safe s.world drafts s.held (Safe-Perm s.world s.drafts drafts s.held e v) c k matches
        writes rest p w documented refl run
  Step-Safe s s' v (free_rule p a w at run) = freed_rule-Safe s.world s.drafts s.held v p a w at run
  Step-Safe s s' v (get_rule k p w room run) =
      let held : ℕ → ℕ = λ q. s.held q + one_at (find s.world.rules k) q in
      let (r, run', books, same) =
        rule_get-RuleBooks s.world s.drafts s.held held v.books k room (λ q. refl) in
      same_result (λ (x : ℕ × Rules J). Safe x.1 s.drafts (λ q. s.held q + one_at x.0 q)) _
        (find s.world.rules k, record s.world { rules = r }) (p, w) run' run
        (recounted-Safe s.world s.drafts s.held v held r books same)
  Step-Safe s s' v (release_rule p held w less run) =
      let (r, run', books, same) =
        rule_release-RuleBooks s.world s.drafts s.held held v.books p less in
      same_result (λ (x : Rules J). Safe x s.drafts held) _ (record s.world { rules = r }) w run'
        run (recounted-Safe s.world s.drafts s.held v held r books same)

  -- In every state that is reached from fields without references by making and freeing operations
  -- and rules, and by taking and releasing rules, where calls fail or not, every count is the number
  -- of references that are held, and each operation, in a rule or not, is compiled from fields that
  -- are there over memory as long as they say. Operations are freed and put into rules in any order.
  -- An operation is made, and a rule taken, only while the counts have room for what it takes. It is a
  -- condition that the library's readers work as documented and that `nstralloc` has memory and copies
  -- names.
  pub Reachable-Safe : (s : State J) → Reachable c s → Safe s.world s.drafts s.held
  Reachable-Safe s (start h grants v) = start-Safe h grants v
  Reachable-Safe s (then_step t s' reached step) = Step-Safe t s (Reachable-Safe t reached) step

  -- An operation of two fields of one length.
  compiled-IsSound :
      (h : Heap J) (o : Op) (pkt : List ℕ) (plen : ℕ)
      → IsCompiled h o
      → o.set.set_to.len ≡ o.set.set_from.len
      → plen ≤ length pkt
      → IsSound o.set (memory_of h pkt) plen
  compiled-IsSound h o pkt plen v same fits = record {
    held = fits;
    same_len = same;
    to_ref = v.to_ref pkt;
    from_ref = v.from_ref pkt;
  }

  -- In a state that such calls reach, under the same conditions, every operation of two fields of one
  -- length matches a packet buffer of at least `plen` bytes without an access outside its memory, and
  -- decides whether the two areas are equal under the masks; two areas of no bytes are equal in every
  -- packet, whatever their offsets are.
  pub op_match-reached :
      (s : State J) (o : Op) (pkt : List ℕ) (plen : ℕ)
      → Reachable c s
      → Owned s.world s.drafts o
      → o.set.set_to.len ≡ o.set.set_from.len
      → plen ≤ length pkt
      → (b : Bool) × (op_match o.set (memory_of s.world.heap pkt) plen ≡ some b)
        × ((b ≡ true) ↔ IsMatch o.set (memory_of s.world.heap pkt) plen)
  op_match-reached s o pkt plen reached mine same fits =
      op_match_decides o.set (memory_of s.world.heap pkt) plen (
        compiled-IsSound s.world.heap o pkt plen ((Reachable-Safe s reached).compiled o mine) same
          fits)

  -- In a state that such calls reach, under the same conditions, where there are no rules and no
  -- operation on its own, no state and no value is left on the heap, and no field has a reference.
  pub nothing_left :
      (s : State J)
      → Reachable c s
      → s.drafts ≡ []
      → ((p : ℕ) → s.world.rules.cell p ≡ none)
      → ((p : ℕ) → s.world.heap.states.cell p ≡ none)
        × ((p : ℕ) (f : Field) → s.world.heap.fields.cell p ≡ some f → f.refcnt ≡ 0)
  unfolding ops_fields ops_states rule_fields rule_states
  nothing_left s reached no_drafts no_rules =
      let books =
        subst (λ l. RuleBooks s.world l s.held) no_drafts (Reachable-Safe s reached).books in
      let fields = λ (q : ℕ).
        total-zero (λ p. rule_fields (s.world.rules.cell p) q) s.world.rules.next
          (λ p. ap (λ a. rule_fields a q) (no_rules p)) in
      let states = λ (q : ℕ).
        total-zero (λ p. rule_states (s.world.rules.cell p) q) s.world.rules.next
          (λ p. ap (λ a. rule_states a q) (no_rules p)) in
      (
        (λ p. elim (Option-cases (s.world.heap.states.cell p)) [
          | inl none_there ↦ none_there
          | inr (m, at) ↦ elim (books.books.states.entries p m at) [
            | shared v ↦ absurd (omega (arith, v.used, states p))
            | owned v ↦ absurd (omega (arith, v.single, states p))
          ]
        ]),
        λ p f at. omega (arith, books.books.fields.counts p f at, fields p),
      )
