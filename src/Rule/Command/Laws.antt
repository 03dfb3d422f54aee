-- ===== src/Rule/Command/Laws.antt =====
-- `rule_parse` as a whole.
use mathlib.Core.Path.{subst}
use mathlib.Core.List.{append_assoc}
use text.Mathlib.Text.{◌==◌ as str_eq}
use xdpacket.Base.{
  ℕ, ap, ◌∙◌, Bool, true, false, not, ◌||◌, Option, some, List, [], ◌++◌, ◌≡◌, ◌⊎◌, inl, inr, refl,
  sym, ap₂, arith, ◌==◌, Bool-cases,
}
use xdpacket.Judy.{JudySl}
use xdpacket.Yaml.{Pairs, count_pairs}
use xdpacket.Registry.{find}
use xdpacket.Field.Command.{Mode, parse_invalid, parse_add, parse_del, parse_prn}
use xdpacket.Op.{Op, Calls}
use xdpacket.Op.Books.{Books, IsCalls, Books-ext}
use xdpacket.Rule.{Rule, Rules}
use xdpacket.Rule.Books.{ops_fields, ops_states, with_ops, of_rules, RuleBooks}
use xdpacket.Rule.Free.{rule_free-RuleBooks}
use xdpacket.Rule.New.{made, ops_fields-append, ops_states-append, rule_new-RuleBooks}
use xdpacket.Rule.Command.{Draft, removed, rule_mode, begin, rule_parse}
use xdpacket.Rule.Command.Loop.{HasRoomFor, Loses}
use xdpacket.Rule.Command.Walk.{has_mapping, drafts_of, rule_pairs-Walks}

-- A command returns with books that are right, and `leaked` are the operations that it made and
-- nothing owns.
abbrev pub Ends : {J : JudySl} → List Op → List Op → (ℕ → ℕ) → Option (ℕ × Rules J) → Type 0
Ends {J} leaked drafts held result =
    (err_cnt : ℕ) × (w : Rules J) × (result ≡ some (err_cnt, w))
    × RuleBooks w (leaked ++ drafts) held

only_lost :
    (entries : ℕ → Bool) (ps : Pairs) (lost : List Op)
    → Loses entries [] lost
    → (lost ≡ []) ⊎ ((j : ℕ) × (entries j ≡ false)) ⊎ (has_mapping ps ≡ true)
only_lost entries ps lost (inl e) = inl e
only_lost entries ps lost (inr failure) = inr (inl failure)

three_parts : (a b d rest : List Op) → a ++ (b ++ (d ++ rest)) ≡ (a ++ (b ++ d)) ++ rest
three_parts a b d rest =
    ap (λ l. a ++ l) (sym (append_assoc b d rest)) ∙ sym (append_assoc a (b ++ d) rest)

-- There are such operations only if an entry of a queue got no memory, or if an item of the command
-- is a mapping.
abbrev pub Parses :
    {J : JudySl} → List Op → (ℕ → ℕ) → (ℕ → Bool) → Pairs → Option (ℕ × Rules J) → Type 0
Parses {J} drafts held entries ps result =
    (leaked : List Op) × Ends leaked drafts held result
    × ((leaked ≡ []) ⊎ ((j : ℕ) × (entries j ≡ false)) ⊎ (has_mapping ps ≡ true))

module _ {J : JudySl} (c : Calls) (documented : IsCalls c) (emits : Rule → Bool)
    (emits_all : Rules J → Bool) (drafts : List Op) (held : ℕ → ℕ) where
  unchanged :
      (w : Rules J) (err_cnt : ℕ)
      → RuleBooks w drafts held
      → Ends [] drafts held (some (err_cnt, w))
  unchanged w err_cnt v = (err_cnt, w, refl, v)

  add-Ends :
      (w : Rules J) (d : Draft J)
      → RuleBooks w (d.match_jq ++ (d.write_jq ++ drafts)) held
      → Ends [] drafts held (rule_mode c emits emits_all parse_add w d)
  unfolding rule_mode
  add-Ends w d v =
      let (p, w', run, books, gives, less) =
        rule_new-RuleBooks w d.name d.match_jq d.write_jq drafts held v c.nstralloc
          (documented.memory _ d.name _) (λ j. documented.copy _ d.name _ j) in
      elim (Bool-cases (p == 0)) [
        | inl null ↦ rw run (rw null (unchanged w' _ books))
        | inr there ↦ elim gives [
          | inl (null, same) ↦ absurd (ground arith)
          | inr (unused, cells, named) ↦
              let at : w'.rules.cell p ≡ some (made d.name d.match_jq d.write_jq) =
                ground (arith, cells p) in
              rw run (rw (there, at) (unchanged w' _ books))
        ]
      ]

  del-Ends :
      (w : Rules J) (d : Draft J)
      → RuleBooks w drafts held
      → Ends [] drafts held (rule_mode c emits emits_all parse_del w d)
  unfolding rule_mode removed
  del-Ends w d v = elim (v.rules.valid.live d.name) [
    | inl missing ↦ rw missing (unchanged w _ v)
    | inr (a, at, bears) ↦
        let there : (find w.rules d.name == 0) ≡ false = ground (arith, v.rules.valid.null) in
        elim (Bool-cases (not (a.refcnt == 0) || not (emits a))) [
          | inl refused ↦ rw (there, at, refused) (unchanged w _ v)
          | inr fine ↦
              let (w', run, books, gone, others, less) =
                rule_free-RuleBooks w drafts held (find w.rules d.name) a v at
                  (ground (arith, v.rules.counts (find w.rules d.name) a)) in
              rw (there, at, fine, run) (unchanged w' _ books)
        ]
  ]

  prn-Ends :
      (w : Rules J) (d : Draft J)
      → RuleBooks w drafts held
      → Ends [] drafts held (rule_mode c emits emits_all parse_prn w d)
  unfolding rule_mode
  prn-Ends w d v = elim (Bool-cases (str_eq "" d.name)) [
    | inl all ↦ rw all (unchanged w _ v)
    | inr one ↦ elim (v.rules.valid.live d.name) [
      | inl missing ↦ rw (one, missing) (unchanged w _ v)
      | inr (a, at, bears) ↦
          let there : (find w.rules d.name == 0) ≡ false = ground (arith, v.rules.valid.null) in
          rw (one, there, at) (unchanged w _ v)
    ]
  ]

  -- Empty queues add nothing.
  emptied :
      (w : Rules J) (d : Draft J)
      → RuleBooks w (d.match_jq ++ (d.write_jq ++ drafts)) held
      → (d.match_jq ≡ []) × (d.write_jq ≡ [])
      → RuleBooks w drafts held
  emptied w d v (no_match, no_write) =
      subst (λ l. RuleBooks w l held)
        (ap₂ (λ (a b : List Op). a ++ (b ++ drafts)) no_match no_write) v

  -- The switch, when the loop has ended.
  mode-Ends :
      (mode : Mode) (w : Rules J) (d : Draft J)
      → RuleBooks w (d.match_jq ++ (d.write_jq ++ drafts)) held
      → (mode ≡ parse_add) ⊎ (d.match_jq ≡ []) × (d.write_jq ≡ [])
      → Ends [] drafts held (rule_mode c emits emits_all mode w d)
  unfolding rule_mode
  mode-Ends parse_add w d v same = add-Ends w d v
  mode-Ends parse_invalid w d v (inl e) = absurd (ground arith)
  mode-Ends parse_invalid w d v (inr same) = unchanged w _ (emptied w d v same)
  mode-Ends parse_del w d v (inl e) = absurd (ground arith)
  mode-Ends parse_del w d v (inr same) = del-Ends w d (emptied w d v same)
  mode-Ends parse_prn w d v (inl e) = absurd (ground arith)
  mode-Ends parse_prn w d v (inr same) = prn-Ends w d (emptied w d v same)

module _ {J : JudySl} (c : Calls) (documented : IsCalls c) (emits : Rule → Bool)
    (emits_all : Rules J → Bool) (drafts : List Op) (held : ℕ → ℕ) where
  -- The queues of a command with those that nothing owned before.
  over_heap :
      (w : Rules J) (lost : List Op) (d : Draft J)
      → RuleBooks w drafts held
      → Books d.work.heap (
          drafts_of c documented
            (λ k. true)
            (λ k. true)
            (with_ops (of_rules w.rules) drafts)
            lost
            d)
      → RuleBooks
          (record w { heap = d.work.heap })
          (d.match_jq ++ (d.write_jq ++ (lost ++ drafts)))
          held
  over_heap w lost d v books = record {
    rules = v.rules;
    names = v.names;
    books =
        Books-ext d.work.heap _ _ books
          (λ q. omega (
            arith,
            ops_fields-append d.match_jq (d.write_jq ++ (lost ++ drafts)) q,
            ops_fields-append d.write_jq (lost ++ drafts) q,
            ops_fields-append lost drafts q,
          ))
          (λ q. omega (
            arith,
            ops_states-append d.match_jq (d.write_jq ++ (lost ++ drafts)) q,
            ops_states-append d.write_jq (lost ++ drafts) q,
            ops_states-append lost drafts q,
          ));
  }

  -- Where every count is the number of references that are held and has room for two more for each
  -- item of the command's sequences, the library's readers work as documented, and `nstralloc` has
  -- memory and copies names, `rule_parse` returns in every mode, whether there is memory for an
  -- operation, for its entry in a queue and for the rule or not, and whether output succeeds or not.
  -- Every count is right again. Operations that were made are owned by the new rule or freed, except
  -- that some may be left with no owner if a queue got no memory for an entry, or if an item of the
  -- command is a mapping, which ends the loop.
  pub rule_parse-Parses :
      (memory entries : ℕ → Bool) (mode : Mode) (w : Rules J) (ps : Pairs)
      → RuleBooks w drafts held
      → HasRoomFor (with_ops (of_rules w.rules) drafts) (count_pairs ps)
      → Parses drafts held entries ps (rule_parse c emits emits_all memory entries mode w ps)
  unfolding rule_parse ops_fields ops_states
  rule_parse-Parses memory entries mode w ps v room =
      let n = with_ops (of_rules w.rules) drafts in
      let (go, d, lost, run, books, room', loses, fine, same) =
        rule_pairs-Walks c documented memory entries n mode ps []
          (begin c emits emits_all memory entries w)
          (Books-ext w.heap n _ v.books (λ q. omega arith) (λ q. omega arith))
          record {
            fields = λ q. omega (arith, room.fields q);
            states = λ q. omega (arith, room.states q);
          } in
      let v' = over_heap w lost d v books in
      elim (Bool-cases go) [
        | inl on ↦
            let (err_cnt, w', run', books') =
              mode-Ends c documented emits emits_all (lost ++ drafts) held mode
                (record w { heap = d.work.heap }) d v' same in
            (lost, (err_cnt, w', rw run (rw on run'), books'), only_lost entries ps lost loses)
        | inr stopped ↦ (
          d.match_jq ++ (d.write_jq ++ lost),
          (
            d.work.err_cnt,
            record w { heap = d.work.heap },
            rw run (rw stopped refl),
            subst (λ l. RuleBooks (record w { heap = d.work.heap }) l held)
                (three_parts d.match_jq d.write_jq lost drafts) v',
          ),
          inr (
              inr (elim fine [
                | inl went ↦ absurd (ground (arith, went, stopped))
                | inr found ↦ found
              ])),
        )
      ]
