-- ===== src/Rule/Invariant.antt =====
-- What holds in every state that can be reached.
use mathlib.Core.Path.{subst}
use mathlib.Core.Option.{some-injective}
use mathlib.Core.List.{Memᴰ}
use mathlib.Core.List.Memᴰ
use Prim.Native.String.{String}
use xdpacket.Base.{
  ℕ, Bool, Option, none, some, List, [], ◌∷◌, ◌++◌, ◌≡◌, ◌⊎◌, inl, inr, refl, sym, ◌∙◌, arith, ◌==◌,
  if◌then◌else◌, Bool-cases, Option-cases, same_result,
}
use xdpacket.Judy.{JudySl}
use xdpacket.Registry.{Registry, initial}
use xdpacket.Registry.New.{initial-IsValid}
use xdpacket.Registry.Accounts.{Recount}
use xdpacket.Op.{Op, Heap, Request, Calls}
use xdpacket.Op.Books.{
  nothing, with_op?, Books, IsCalls, Books-ext, Agrees, Shrinks-refl, Shrinks-Agrees,
}
use xdpacket.Op.New.Steps.{Facts}
use xdpacket.Op.New.Made.{IsCompiled, Returns}
use xdpacket.Rule as Rule
use xdpacket.Rule.{Rule, Rules, rule_new, rule_free, rule_get, rule_release}
use xdpacket.Rule.Total.{total}
use xdpacket.Rule.Books.{ops_fields, ops_states, with_ops, of_rules, RuleBooks}
use xdpacket.Rule.Free.{rule_free-RuleBooks, rule_free-in_use}
use xdpacket.Rule.New.{made, rule_new-RuleBooks}
use xdpacket.Rule.Safe.{Owned, Safe, still_compiled, Safe-step}

module _ {J : JudySl} where
  pub start-Safe :
      (h : Heap J) (grants : ℕ → Bool)
      → Books h nothing
      → Safe (record { heap = h; rules = initial grants }) [] (λ q. 0)
  unfolding total ops_fields ops_states
  start-Safe h grants v = record {
    books = record {
      rules = record {
        valid = initial-IsValid Rule.counted grants;
        counts = λ p a at. absurd (ground arith);
        gone = λ p at. refl;
      };
      names = λ p a at. absurd (ground arith);
      books = Books-ext h nothing _ v (λ q. omega arith) (λ q. omega arith);
    };
    compiled = λ o mine. elim mine [
      | inl m ↦ absurd (Memᴰ.not-nil m)
      | inr (p, a, at, m) ↦ absurd (ground arith)
    ];
  }

  -- The books of the rules over another heap.
  pub with_heap :
      (w : Rules J) (drafts drafts' : List Op) (held : ℕ → ℕ) (h : Heap J)
      → RuleBooks w drafts held
      → Books h (with_ops (of_rules w.rules) drafts')
      → RuleBooks (record w { heap = h }) drafts' held
  with_heap w drafts drafts' held h v books = record {
    rules = v.rules;
    names = v.names;
    books = books;
  }

  only_compiled :
      (q : Request) (found : Option Op) (h : Heap J)
      → (found ≡ none) ⊎ (o : Op) × (found ≡ some o) × Facts q o h × IsCompiled h o
      → (found ≡ none) ⊎ (o : Op) × (found ≡ some o) × IsCompiled h o
  only_compiled q found h (inl e) = inl e
  only_compiled q found h (inr (o, e, facts, good)) = inr (o, e, good)

  module _ (w : Rules J) (drafts : List Op) (held : ℕ → ℕ) (v : Safe w drafts held) where
    pub made-Safe :
        (q : Request) (o : Op) (h : Heap J) (result : Option (Option Op × Heap J))
        → Returns (with_ops (of_rules w.rules) drafts) w.heap q result
        → result ≡ some (some o, h)
        → Safe (record w { heap = h }) (o ∷ drafts) held
    unfolding ops_fields ops_states
    made-Safe q o h result (found, h', run, books', agree', facts') e =
        let (books, agree, facts) =
          same_result
            (λ (r : Option Op × Heap J).
              Books r.1 (with_op? (with_ops (of_rules w.rules) drafts) r.0)
              × Agrees w.heap r.1
              × ((r.0 ≡ none) ⊎ (x : Op) × (r.0 ≡ some x) × IsCompiled r.1 x))
            result (found, h') (some o, h) run e
            (books', agree', only_compiled q found h' facts') in
        let all =
          with_heap w drafts (o ∷ drafts) held h v.books
            (Books-ext h _ _ books (λ p. omega arith) (λ p. omega arith)) in
        let still =
          still_compiled w (record w { heap = h }) drafts (o ∷ drafts) held held v all agree in
        record {
          books = all;
          compiled = λ x mine. elim mine [
            | inl m ↦ elim (Memᴰ.cases_cons m) [
              | inl new ↦ elim facts [
                | inl none_made ↦ absurd (ground arith)
                | inr (y, same, good) ↦
                    subst (λ z. IsCompiled h z) (sym (new ∙ some-injective _ _ same)) good
              ]
              | inr old ↦ still x (inl old) (inl m)
            ]
            | inr old ↦ still x (inr old) (inr old)
          ];
        }

    pub unmade-Safe :
        (q : Request) (h : Heap J) (result : Option (Option Op × Heap J))
        → Returns (with_ops (of_rules w.rules) drafts) w.heap q result
        → result ≡ some (none, h)
        → Safe (record w { heap = h }) drafts held
    unmade-Safe q h result (found, h', run, books', agree', facts') e =
        let (books, agree) =
          same_result
            (λ (r : Option Op × Heap J).
              Books r.1 (with_op? (with_ops (of_rules w.rules) drafts) r.0) × Agrees w.heap r.1)
            result (found, h') (none, h) run e (books', agree') in
        Safe-step w (record w { heap = h }) drafts drafts held held v
          (with_heap w drafts drafts held h v.books books) agree (λ o mine. mine)

    -- The operations of a rule that was just made were on their own before.
    made-Owned :
        (k : String) (matches writes rest : List Op) (p : ℕ) (w' : Rules J) (o : Op)
        → drafts ≡ matches ++ (writes ++ rest)
        → ((q : ℕ)
            → w'.rules.cell q ≡ (if p == q then some (made k matches writes) else w.rules.cell q))
        → Owned w' rest o
        → Owned w drafts o
    made-Owned k matches writes rest p w' o e cells (inl m) =
        inl (rw e (Memᴰ.append_right matches (Memᴰ.append_right writes m)))
    made-Owned k matches writes rest p w' o e cells (inr (q, a, at, m)) =
        elim (Bool-cases (p == q)) [
          | inr miss ↦ inr (q, a, ground (arith, cells q), m)
          | inl hit ↦
              let new : a ≡ made k matches writes = ground (arith, cells q) in
              elim (subst (λ (b : Rule). Memᴰ o b.match_jq ⊎ Memᴰ o b.write_jq) new m) [
                | inl first ↦ inl (rw e (Memᴰ.append_left (writes ++ rest) first))
                | inr second ↦ inl (rw e (Memᴰ.append_right matches (Memᴰ.append_left rest second)))
              ]
        ]

    pub rule-Safe :
        (c : Calls) (k : String) (matches writes rest : List Op) (p : ℕ) (w' : Rules J)
        → IsCalls c
        → drafts ≡ matches ++ (writes ++ rest)
        → rule_new c.nstralloc w (some k) matches writes ≡ some (p, w')
        → Safe w' rest held
    rule-Safe c k matches writes rest p w' documented e run =
        let (p', w'', run', books, gives, less) =
          rule_new-RuleBooks w k matches writes rest held
            (subst (λ l. RuleBooks w l held) e v.books) c.nstralloc (documented.memory _ k _)
            (λ j. documented.copy _ k _ j) in
        let safe : Safe w'' rest held =
          Safe-step w w'' drafts rest held held v books (Shrinks-Agrees w.heap w''.heap less)
            (λ o mine. elim gives [
              | inr (unused, cells, named) ↦ made-Owned k matches writes rest p' w'' o e cells mine
              | inl (null, same) ↦ elim mine [
                | inl m ↦ inl (rw e (Memᴰ.append_right matches (Memᴰ.append_right writes m)))
                | inr (q, a, at, m) ↦ inr (q, a, sym (same q) ∙ at, m)
              ]
            ]) in
        same_result (λ (r : ℕ × Rules J). Safe r.1 rest held) _ (p', w'') (p, w') run' run safe

    -- A rule that is in use is not freed.
    pub freed_rule-Safe :
        (p : ℕ) (a : Rule) (w' : Rules J)
        → w.rules.cell p ≡ some a
        → rule_free w p ≡ some w'
        → Safe w' drafts held
    freed_rule-Safe p a w' at run = elim (Bool-cases (held p == 0)) [
      | inl unheld ↦
          let (w'', run', books, gone, cells, less) =
            rule_free-RuleBooks w drafts held p a v.books at (ground arith) in
          let safe : Safe w'' drafts held =
            Safe-step w w'' drafts drafts held held v books (Shrinks-Agrees w.heap w''.heap less)
              (λ o mine. elim mine [
                | inl m ↦ inl m
                | inr (q, b, there, m) ↦ inr (q, b, ground (arith, cells q), m)
              ]) in
          same_result (λ x. Safe x drafts held) _ w'' w' run' run safe
      | inr in_use ↦
          same_result (λ x. Safe x drafts held) (rule_free w p) w w'
            (rule_free-in_use w p a at (ground (arith, v.books.rules.counts p a))) run v
    ]

    pub recounted-Safe :
        (held' : ℕ → ℕ) (r : Registry J Rule)
        → RuleBooks (record w { rules = r }) drafts held'
        → Recount Rule.counted w.rules r
        → Safe (record w { rules = r }) drafts held'
    recounted-Safe held' r books same =
        Safe-step w (record w { rules = r }) drafts drafts held held' v books
          (Shrinks-Agrees w.heap w.heap (Shrinks-refl w.heap))
          (λ o mine. elim mine [
            | inl m ↦ inl m
            | inr (q, b, there, m) ↦ elim (Option-cases (w.rules.cell q)) [
              | inl lost ↦ absurd (ground (arith, same.absent q lost))
              | inr (a, at) ↦
                  let (n, at') = same.objects q a at in
                  let new : b ≡ record a { refcnt = n } = some-injective _ _ (sym there ∙ at') in
                  inr (q, a, at, subst (λ (x : Rule). Memᴰ o x.match_jq ⊎ Memᴰ o x.write_jq) new m)
            ]
          ])
