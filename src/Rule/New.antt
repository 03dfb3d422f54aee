-- ===== src/Rule/New.antt =====
-- A new rule takes charge of its operations, whether it comes into being or not.
use mathlib.Core.Option.{some-injective}
use text.Mathlib.TextPositions.{eq_refl}
use Prim.Native.String.{String}
use xdpacket.Base.{
  ℕ, suc, ◌+◌, false, Option, none, some, List, [], ◌∷◌, ◌++◌, ◌≡◌, ◌≢◌, ◌⊎◌, inl, inr, refl, sym,
  ap, ◌∙◌, arith, ◌==◌, if◌then◌else◌,
}
use xdpacket.Judy.{JudySl}
use xdpacket.Registry.{Registry, find, free, unpublish, publish}
use xdpacket.Registry.Laws.{IsValid, Same}
use xdpacket.Registry.New.{
  IsGrown, IsAdded, alloc_cases, set_cell-IsGrown, Same-IsValid, IsGrown-free, IsGrown-publish,
  suc-ne,
}
use xdpacket.Registry.Accounts.{Accounts-Same}
use xdpacket.Field.{Nstr, no_string, truncated, whole, max_line_len}
use xdpacket.Op.{Op, Heap}
use xdpacket.Op.Books.{Books-ext, Shrinks, Shrinks-refl}
use xdpacket.Rule as Rule
use xdpacket.Rule.{
  Rule, Rules, drafted, rule_release_refs, erased, rule_free, die, published, named, allocated,
  rule_new,
}
use xdpacket.Rule.Books.{
  ops_fields, ops_states, with_ops, rule_fields, rule_states, of_rules, RuleBooks,
}
use xdpacket.Rule.Sum.{sum_of-Same, sum_of-IsGrown}
use xdpacket.Rule.Free.{release_refs-Books}

pub ops_fields-append :
    (xs ys : List Op) (q : ℕ) → ops_fields (xs ++ ys) q ≡ ops_fields xs q + ops_fields ys q
unfolding ops_fields
ops_fields-append [] ys q = omega arith
ops_fields-append (x ∷ xs) ys q = omega (arith, ops_fields-append xs ys q)

pub ops_states-append :
    (xs ys : List Op) (q : ℕ) → ops_states (xs ++ ys) q ≡ ops_states xs q + ops_states ys q
unfolding ops_states
ops_states-append [] ys q = omega arith
ops_states-append (x ∷ xs) ys q = omega (arith, ops_states-append xs ys q)

abbrev pub made : String → List Op → List Op → Rule
made k matches writes = record { name = some k; match_jq = matches; write_jq = writes; refcnt = 0 }

-- The rule is there under its name; or the pointer is null and the rules are as before.
abbrev pub Gives : {J : JudySl} → Rules J → Rules J → String → List Op → List Op → ℕ → Type 0
Gives w w' k matches writes p =
    (p ≡ 0) × ((q : ℕ) → w'.rules.cell q ≡ w.rules.cell q)
    ⊎ (w.rules.cell p ≡ none)
      × ((q : ℕ)
          → w'.rules.cell q ≡ (if p == q then some (made k matches writes) else w.rules.cell q))
      × (find w'.rules k ≡ p)

-- The operations are owned by the new rule, or freed.
abbrev pub Creates :
    {J : JudySl}
    → Rules J
    → String
    → List Op
    → List Op
    → List Op
    → (ℕ → ℕ)
    → Option (ℕ × Rules J)
    → Type 0
Creates {J} w k matches writes drafts held result =
    (p : ℕ) × (w' : Rules J) × (result ≡ some (p, w'))
    × RuleBooks w' drafts held
    × Gives w w' k matches writes p
    × Shrinks w.heap w'.heap

module _ {J : JudySl} (w : Rules J) (k : String) (matches writes drafts : List Op) (held : ℕ → ℕ)
    (v : RuleBooks w (matches ++ (writes ++ drafts)) held) where
  -- Without a new rule the operations are freed.
  freed :
      (t : Registry J Rule)
      → Same w.rules t
      → IsValid Rule.counted t
      → t.next ≡ suc w.rules.next
      → (h : Heap J) × (rule_release_refs w.heap matches writes ≡ some h)
        × RuleBooks (record { heap = h; rules = t }) drafts held
        × Shrinks w.heap h
  unfolding rule_fields rule_states
  freed t same valid next =
      let (h, run, books, less) =
        release_refs-Books w.heap _ (with_ops (of_rules t) drafts) matches writes v.books
          (λ q. omega (
            arith,
            sum_of-Same (λ a. rule_fields a q) w.rules t v.rules.valid refl same next,
            ops_fields-append matches (writes ++ drafts) q,
            ops_fields-append writes drafts q,
          ))
          (λ q. omega (
            arith,
            sum_of-Same (λ a. rule_states a q) w.rules t v.rules.valid refl same next,
            ops_states-append matches (writes ++ drafts) q,
            ops_states-append writes drafts q,
          )) in
      (
        h,
        run,
        record {
          rules = Accounts-Same Rule.counted w.rules t held same valid v.rules;
          names = λ p a at. v.names p a (sym (same.cells p) ∙ at);
          books = books;
        },
        less,
      )

  unpublish-next : (r : Registry J Rule) (p : ℕ) (j : String) → (unpublish r p j).next ≡ r.next
  unfolding unpublish
  unpublish-next r p j = ground arith

  -- A rule that was not published is freed with its operations.
  die-Creates :
      (s : Registry J Rule) (p : ℕ) (j : String)
      → IsGrown w.rules p (made j matches writes) s
      → Creates w k matches writes drafts held (die (record { heap = w.heap; rules = s }) p)
  unfolding die rule_free erased free
  die-Creates s p j g =
      let (t, run, valid, same) =
        IsGrown-free Rule.counted w.rules v.rules.valid s p (made j matches writes) g j refl refl in
      let at : s.cell p ≡ some (made j matches writes) = ground (arith, g.cells p) in
      let miss : (p == 0) ≡ false = ground (arith, g.address) in
      let to_t : some (unpublish s p j) ≡ some t = ground (arith, run) in
      let next : t.next ≡ suc w.rules.next =
        ap (λ x. x.next) (sym (some-injective _ _ to_t)) ∙ unpublish-next s p j ∙ g.next in
      let (h, freed_run, books, less) = freed t same valid next in
      (
        0,
        record { heap = h; rules = t },
        rw (miss, at, freed_run)
            (ap (λ x. some (0, record { heap = h; rules = x })) (some-injective _ _ to_t)),
        books,
        inl (refl, same.cells),
        less,
      )

  publish-next : (s : Registry J Rule) (p : ℕ) → (publish s k p false).1.next ≡ s.next
  unfolding publish
  publish-next s p = refl

  -- A rule that was published is there with its operations.
  added-Creates :
      (s t : Registry J Rule) (p : ℕ)
      → IsGrown w.rules p (made k matches writes) s
      → IsAdded Rule.counted w.rules k p (made k matches writes) t
      → t.next ≡ s.next
      → RuleBooks (record { heap = w.heap; rules = t }) drafts held
        × Gives w (record { heap = w.heap; rules = t }) k matches writes p
  unfolding rule_fields rule_states
  added-Creates s t p g a next =
      let one_more = λ (weight : Option Rule → ℕ) (empty : weight none ≡ 0).
        sum_of-IsGrown weight w.rules t v.rules.valid empty (made k matches writes) (next ∙ g.next)
          (λ q. ground (arith, a.cells q, g.address)) in
      (
        record {
          rules = record {
            valid = a.valid;
            counts =
                λ q b at. ground (arith, a.cells q, v.rules.counts q b, v.rules.gone p, a.unused);
            gone = λ q at. ground (arith, a.cells q, v.rules.gone q);
          };
          names = λ q b at. ground (arith, a.cells q, v.names q b);
          books =
              Books-ext w.heap _ _ v.books
                (λ q. omega (
                  arith,
                  one_more (λ b. rule_fields b q) refl,
                  ops_fields-append matches (writes ++ drafts) q,
                  ops_fields-append writes drafts q,
                ))
                (λ q. omega (
                  arith,
                  one_more (λ b. rule_states b q) refl,
                  ops_states-append matches (writes ++ drafts) q,
                  ops_states-append writes drafts q,
                ));
        },
        inr (a.unused, a.cells, ground (arith, a.names k, eq_refl k)),
      )

  published-Creates :
      (s : Registry J Rule) (p : ℕ)
      → IsGrown w.rules p (made k matches writes) s
      → Creates w k matches writes drafts held (published w.heap p (publish s k p false))
  unfolding published
  published-Creates s p g =
      let (t, result) =
        IsGrown-publish Rule.counted w.rules v.rules.valid s p (made k matches writes) g k false
          refl in
      elim result [
        | inl (run, added) ↦
            let next : t.next ≡ s.next = sym (ap (λ x. x.1.next) run) ∙ publish-next s p in
            let (books, gives) = added-Creates s t p g added next in
            (p, record { heap = w.heap; rules = t }, rw run refl, books, gives, Shrinks-refl w.heap)
        | inr (run, grown) ↦ rw run (die-Creates t p k grown)
      ]

  named-Creates :
      (s : Registry J Rule) (p : ℕ) (str : Nstr)
      → IsGrown w.rules p (drafted matches writes) s
      → str ≢ no_string
      → ((j : String) → str ≡ whole j → j ≡ k)
      → Creates w k matches writes drafts held
          (named (record { heap = w.heap; rules = s }) p (drafted matches writes) str)
  unfolding named
  named-Creates s p no_string g memory copy = absurd (memory refl)
  named-Creates s p (truncated j) g memory copy =
      die-Creates _ p j (set_cell-IsGrown w.rules s p _ (made j matches writes) g)
  named-Creates s p (whole j) g memory copy =
      rw (copy j refl)
        (published-Creates _ p (set_cell-IsGrown w.rules s p _ (made k matches writes) g))

  -- Where the operations of two queues are among those that no rule owns, every count is the number
  -- of references that are held, and `nstralloc` has memory and copies the name, `rule_new` on them
  -- returns. It returns a new rule, published under the name, that owns the two queues; or null, and
  -- then all rules are as before and the operations are freed. Either way the operations are no
  -- longer on their own and every count is right.
  pub rule_new-RuleBooks :
      (nstralloc : ℕ → String → ℕ → Nstr)
      → nstralloc w.rules.next k max_line_len ≢ no_string
      → ((j : String) → nstralloc w.rules.next k max_line_len ≡ whole j → j ≡ k)
      → Creates w k matches writes drafts held (rule_new nstralloc w (some k) matches writes)
  unfolding rule_new allocated
  rule_new-RuleBooks nstralloc memory copy =
      let (s, result) = alloc_cases w.rules (drafted matches writes) in
      elim result [
        | inl (run, same, next) ↦
            let (h, freed_run, books, less) =
              freed s same (Same-IsValid Rule.counted w.rules v.rules.valid s same next) next in
            (
              0,
              record { heap = h; rules = s },
              rw (run, freed_run) refl,
              books,
              inl (refl, same.cells),
              less,
            )
        | inr (run, grown) ↦
            rw (run, suc-ne w.rules.next) (named-Creates s (suc w.rules.next) _ grown memory copy)
      ]
