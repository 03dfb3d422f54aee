-- ===== src/Rule/Free.antt =====
-- Freeing a rule gives back what its operations hold.
use Prim.Native.String.{String}
use xdpacket.Base.{
  ℕ, ◌+◌, Option, none, some, List, [], ◌∷◌, ◌≡◌, ◌≢◌, inl, inr, refl, ap, ◌∙◌, arith, Option-cases,
}
use xdpacket.Judy.{JudySl}
use xdpacket.Registry.{Registry, unpublish}
use xdpacket.Registry.Laws.{IsValid, cell-unpublish}
use xdpacket.Registry.Accounts.{unpublish-Accounts}
use xdpacket.Op.{Op, Heap}
use xdpacket.Op.Books.{Holding, with_op, Books, Books-ext, Shrinks, Shrinks-refl, Shrinks-trans}
use xdpacket.Op.Free.{op_free-Books}
use xdpacket.Rule as Rule
use xdpacket.Rule.{Rule, Rules, ops_free, rule_release_refs, erased, rule_free}
use xdpacket.Rule.Books.{
  ops_fields, ops_states, with_ops, rule_fields, rule_states, sum_of, of_rules, RuleBooks,
}
use xdpacket.Rule.Sum.{sum_of-update}

module _ {J : JudySl} where
  ops_free-Books :
      (h : Heap J) (n : Holding) (os : List Op)
      → Books h (with_ops n os)
      → (h' : Heap J) × (ops_free h os ≡ some h') × Books h' n × Shrinks h h'
  unfolding ops_free ops_fields ops_states
  ops_free-Books h n [] v =
      (h, refl, Books-ext h _ n v (λ q. omega arith) (λ q. omega arith), Shrinks-refl h)
  ops_free-Books h n (o ∷ os) v =
      let (h', run, books, less) =
        op_free-Books h (with_ops n os) o
          (Books-ext h _ (with_op (with_ops n os) o) v (λ q. omega arith) (λ q. omega arith)) in
      let (h'', run', books', less') = ops_free-Books h' n os books in
      (h'', rw run run', books', Shrinks-trans h h' h'' less less')

  -- All operations of two queues are freed.
  pub release_refs-Books :
      (h : Heap J) (m n : Holding) (matches writes : List Op)
      → Books h m
      → ((q : ℕ) → m.fields q ≡ n.fields q + (ops_fields matches q + ops_fields writes q))
      → ((q : ℕ) → m.states q ≡ n.states q + (ops_states matches q + ops_states writes q))
      → (h' : Heap J) × (rule_release_refs h matches writes ≡ some h') × Books h' n × Shrinks h h'
  unfolding rule_release_refs
  release_refs-Books h m n matches writes v fields states =
      let (h', run, books, less) = ops_free-Books h (with_ops n writes) matches (
        Books-ext h m (with_ops (with_ops n writes) matches) v (λ q. omega (arith, fields q))
          (λ q. omega (arith, states q))) in
      let (h'', run', books', less') = ops_free-Books h' n writes books in
      (h'', rw run run', books', Shrinks-trans h h' h'' less less')

  unpublish-next : (r : Registry J Rule) (p : ℕ) (k : String) → (unpublish r p k).next ≡ r.next
  unfolding unpublish
  unpublish-next r p k = ground arith

  -- The sum over the rules without one of them.
  less_one :
      (r : Registry J Rule) (p : ℕ) (k : String) (a : Rule) (weight : Option Rule → ℕ)
      → IsValid Rule.counted r
      → r.cell p ≡ some a
      → a.name ≡ some k
      → weight none ≡ 0
      → sum_of weight r ≡ sum_of weight (unpublish r p k) + weight (some a)
  less_one r p k a weight v at bears empty =
      let cells = cell-unpublish Rule.counted r p k a v at bears in
      let s = unpublish r p k in
      let gone : weight (s.cell p) ≡ 0 = ap weight (ground (arith, cells p)) ∙ empty in
      omega (
        arith,
        gone,
        sum_of-update weight r s v p a at (unpublish-next r p k)
            (λ q other. ground (arith, cells q)),
      )

  -- Where every count is the number of references that are held, `rule_free` on a rule that is there
  -- and to which none are held returns: the rule is gone, its operations have given back their
  -- references, every count is right for the other rules, and these are unchanged.
  pub rule_free-RuleBooks :
      (w : Rules J) (drafts : List Op) (held : ℕ → ℕ) (p : ℕ) (a : Rule)
      → RuleBooks w drafts held
      → w.rules.cell p ≡ some a
      → held p ≡ 0
      → (w' : Rules J) × (rule_free w p ≡ some w')
        × RuleBooks w' drafts held
        × (w'.rules.cell p ≡ none)
        × ((q : ℕ) → p ≢ q → w'.rules.cell q ≡ w.rules.cell q)
        × Shrinks w.heap w'.heap
  unfolding rule_free erased rule_fields rule_states
  rule_free-RuleBooks w drafts held p a v at unheld = elim (Option-cases a.name) [
    | inl nameless ↦ absurd (v.names p a at nameless)
    | inr (k, bears) ↦
        let r = unpublish w.rules p k in
        let cells = cell-unpublish Rule.counted w.rules p k a v.rules.valid at bears in
        let gone : r.cell p ≡ none = ground (arith, cells p) in
        let (h, run, books, less) =
          release_refs-Books w.heap _ (with_ops (of_rules r) drafts) a.match_jq a.write_jq v.books
            (λ q.
              omega
                (arith, less_one w.rules p k a (λ b. rule_fields b q) v.rules.valid at bears refl))
            (λ q.
              omega (
                arith,
                less_one w.rules p k a (λ b. rule_states b q) v.rules.valid at bears refl,
              )) in
        (
          record { heap = h; rules = r },
          ground (arith, v.rules.valid.null, v.rules.counts p a),
          record {
            rules = unpublish-Accounts Rule.counted w.rules p k a held v.rules at bears unheld;
            names = λ q b e. v.names q b (ground (arith, cells q));
            books = books;
          },
          gone,
          λ q other. ground (arith, cells q),
          less,
        )
  ]

  -- A rule to which references are held is left alone.
  pub rule_free-in_use :
      (w : Rules J) (p : ℕ) (a : Rule)
      → w.rules.cell p ≡ some a
      → a.refcnt ≢ 0
      → rule_free w p ≡ some w
  unfolding rule_free
  rule_free-in_use w p a at used = ground arith
