-- ===== src/Rule/Command/Walk.antt =====
-- The loop over the pairs of `rule_parse`: what the two queues hold, and how it ends.
use Prim.Native.String.{String}
use xdpacket.Base.{
  ℕ, ◌+◌, Bool, true, false, Option, some, List, ◌≡◌, ◌⊎◌, inl, inr, refl, ◌∙◌, arith, ◌>>=◌,
  Bool-cases,
}
use xdpacket.Judy.{JudySl}
use xdpacket.Yaml.{
  Node, scalar, sequence, mapping, unknown, Items, Pairs, no_pair, pair, count_items, count_pairs,
}
use xdpacket.Field.Command.{Mode, parse_invalid, parse_add, parse_del, parse_prn, is_key}
use xdpacket.Op.{Op, Calls}
use xdpacket.Op.Books.{Holding, Books, IsCalls, Books-ext}
use xdpacket.Rule.Books.{with_ops}
use xdpacket.Rule.Command.{Work, Draft, failed_draft, queue_items, queues, rule_pair, rule_pairs}
use xdpacket.Rule.Command.Loop.{HasRoomFor, Loses, Loses-trans, queue_items-Runs}

-- Whether an item of a mapping is itself a mapping.
abbrev pub has_mapping : Pairs → Bool
has_mapping no_pair = false
has_mapping (pair key (mapping m) ps) = true
has_mapping (pair key (scalar s) ps) = has_mapping ps
has_mapping (pair key (sequence xs) ps) = has_mapping ps
has_mapping (pair key unknown ps) = has_mapping ps

has_mapping_below :
    (key : String) (node : Node) (ps : Pairs)
    → has_mapping ps ≡ true
    → has_mapping (pair key node ps) ≡ true
has_mapping_below key (scalar s) ps e = e
has_mapping_below key (sequence xs) ps e = e
has_mapping_below key (mapping m) ps e = refl
has_mapping_below key unknown ps e = e

module _ {J : JudySl} (c : Calls) (documented : IsCalls c) (memory entries : ℕ → Bool) where
  -- Both queues of a command and the operations that were lost, over what is held besides.
  abbrev pub drafts_of : Holding → List Op → Draft J → Holding
  drafts_of n lost d = with_ops (with_ops (with_ops n lost) d.write_jq) d.match_jq

  -- The loop over the pairs returns with queues that hold, with the operations that were lost, what
  -- the heap counts. It stops early only at a mapping, and the queues stay as they are unless rules
  -- are added.
  abbrev pub Walks :
      Mode → Holding → List Op → Pairs → ℕ → Draft J → Option (Bool × Draft J) → Type 0
  Walks mode n lost ps k start result =
      (go : Bool) × (d : Draft J) × (lost' : List Op) × (result ≡ some (go, d))
      × Books d.work.heap (drafts_of n lost' d)
      × HasRoomFor (drafts_of n lost' d) k
      × Loses entries lost lost'
      × ((go ≡ true) ⊎ (has_mapping ps ≡ true))
      × ((mode ≡ parse_add) ⊎ (d.match_jq ≡ start.match_jq) × (d.write_jq ≡ start.write_jq))

  module _ (n : Holding) where
    passed :
        (lost : List Op) (k j : ℕ) (d : Draft J)
        → HasRoomFor (drafts_of n lost d) (j + k)
        → HasRoomFor (drafts_of n lost d) k
    passed lost k j d room = record {
      fields = λ q. omega (arith, room.fields q);
      states = λ q. omega (arith, room.states q);
    }

    -- One queue grows over the other one.
    queue_Runs :
        (other jq : List Op) (xs : Items) (lost : List Op) (k : ℕ) (w : Work J)
        → Books w.heap (with_ops (with_ops (with_ops n lost) other) jq)
        → HasRoomFor (with_ops (with_ops (with_ops n lost) other) jq) (count_items xs + k)
        → (jq' : List Op) × (w' : Work J) × (lost' : List Op) × (queue_items c memory entries xs jq
              w
            ≡ some (jq', w'))
          × Books w'.heap (with_ops (with_ops (with_ops n lost') other) jq')
          × HasRoomFor (with_ops (with_ops (with_ops n lost') other) jq') k
          × Loses entries lost lost'
    queue_Runs other jq xs lost k w v room =
        let (jq', w', lost', run, books, room', loses) =
          queue_items-Runs c documented memory entries (with_ops n other) xs lost k jq w
            (Books-ext w.heap _ _ v (λ q. omega arith) (λ q. omega arith))
            record {
              fields = λ q. omega (arith, room.fields q);
              states = λ q. omega (arith, room.states q);
            } in
        (
          jq',
          w',
          lost',
          run,
          Books-ext w'.heap _ _ books (λ q. omega arith) (λ q. omega arith),
          record {
            fields = λ q. omega (arith, room'.fields q);
            states = λ q. omega (arith, room'.states q);
          },
          loses,
        )

    -- What neither runs nor stops the loop.
    skipped-Walks :
        (mode : Mode) (ps : Pairs) (lost : List Op) (k : ℕ) (start d : Draft J)
        → d.match_jq ≡ start.match_jq
        → d.write_jq ≡ start.write_jq
        → Books d.work.heap (drafts_of n lost d)
        → HasRoomFor (drafts_of n lost d) k
        → Walks mode n lost ps k start (some (true, d))
    skipped-Walks mode ps lost k start d same same' v room =
        (true, d, lost, refl, v, room, inl refl, inl refl, inr (same, same'))

    queues-Walks :
        (mode : Mode) (key : String) (xs : Items) (ps : Pairs) (lost : List Op) (k : ℕ)
        (d : Draft J)
        → Books d.work.heap (drafts_of n lost d)
        → HasRoomFor (drafts_of n lost d) (count_items xs + k)
        → Walks mode n lost ps k d (queues c memory entries mode key xs d >>= λ d'. some (true, d'))
    unfolding queues
    queues-Walks parse_invalid key xs ps lost k d v room =
        skipped-Walks parse_invalid ps lost k d (failed_draft d) refl refl v
          (passed lost k _ d room)
    queues-Walks parse_del key xs ps lost k d v room =
        skipped-Walks parse_del ps lost k d (failed_draft d) refl refl v (passed lost k _ d room)
    queues-Walks parse_prn key xs ps lost k d v room =
        skipped-Walks parse_prn ps lost k d (failed_draft d) refl refl v (passed lost k _ d room)
    queues-Walks parse_add key xs ps lost k d v room = elim (Bool-cases (is_key "match" "m" key)) [
      | inl matches ↦
          let (jq, w, lost', run, books, room', loses) =
            queue_Runs d.write_jq d.match_jq xs lost k d.work v room in
          (
            true,
            record d { match_jq = jq; work = w },
            lost',
            rw (matches, run) refl,
            books,
            room',
            loses,
            inl refl,
            inl refl,
          )
      | inr other ↦ elim (Bool-cases (is_key "write" "w" key)) [
        | inr neither ↦
            rw (other, neither)
              (skipped-Walks parse_add ps lost k d (failed_draft d) refl refl v
                (passed lost k _ d room))
        | inl writes ↦
            let swapped = with_ops (with_ops (with_ops n lost) d.match_jq) d.write_jq in
            let (jq, w, lost', run, books, room', loses) =
              queue_Runs d.match_jq d.write_jq xs lost k d.work
                (Books-ext d.work.heap (drafts_of n lost d) swapped v (λ q. omega arith)
                  (λ q. omega arith))
                record {
                  fields = λ q. omega (arith, room.fields q);
                  states = λ q. omega (arith, room.states q);
                } in
            let d' : Draft J = record d { write_jq = jq; work = w } in
            (
              true,
              d',
              lost',
              rw (other, writes, run) refl,
              Books-ext w.heap _ (drafts_of n lost' d') books (λ q. omega arith) (λ q. omega arith),
              record {
                fields = λ q. omega (arith, room'.fields q);
                states = λ q. omega (arith, room'.states q);
              },
              loses,
              inl refl,
              inl refl,
            )
      ]
    ]

    rule_pair-Walks :
        (mode : Mode) (key : String) (node : Node) (ps : Pairs) (lost : List Op) (d : Draft J)
        → Books d.work.heap (drafts_of n lost d)
        → HasRoomFor (drafts_of n lost d) (count_pairs (pair key node ps))
        → Walks mode n lost
            (pair key node ps)
            (count_pairs ps)
            d
            (rule_pair c memory entries mode key node d)
    unfolding rule_pair
    rule_pair-Walks mode key (scalar s) ps lost d v room =
        elim (Bool-cases (is_key "rule" "r" key)) [
          | inl named ↦ rw named (
              skipped-Walks mode (pair key (scalar s) ps) lost (count_pairs ps) d
                (record d { name = s }) refl refl v room)
          | inr other ↦ rw other (
              skipped-Walks mode (pair key (scalar s) ps) lost (count_pairs ps) d (failed_draft d)
                refl refl v room)
        ]
    rule_pair-Walks mode key (sequence xs) ps lost d v room =
        queues-Walks mode key xs (pair key (sequence xs) ps) lost (count_pairs ps) d v room
    rule_pair-Walks mode key (mapping m) ps lost d v room =
        (false, failed_draft d, lost, refl, v, room, inl refl, inr refl, inr (refl, refl))
    rule_pair-Walks mode key unknown ps lost d v room =
        skipped-Walks mode (pair key unknown ps) lost (count_pairs ps) d (failed_draft d) refl refl
          v room

    pub rule_pairs-Walks :
        (mode : Mode) (ps : Pairs) (lost : List Op) (d : Draft J)
        → Books d.work.heap (drafts_of n lost d)
        → HasRoomFor (drafts_of n lost d) (count_pairs ps)
        → Walks mode n lost ps 0 d (rule_pairs c memory entries mode ps d)
    unfolding rule_pairs
    rule_pairs-Walks mode no_pair lost d v room =
        skipped-Walks mode no_pair lost 0 d d refl refl v room
    rule_pairs-Walks mode (pair key node ps) lost d v room =
        let (go, d', lost', run, books, room', loses, fine, same) =
          rule_pair-Walks mode key node ps lost d v room in
        elim (Bool-cases go) [
          | inr stopped ↦ (
            go,
            d',
            lost',
            rw run (rw stopped refl),
            books,
            passed lost' 0 (count_pairs ps) d' record {
              fields = λ q. omega (arith, room'.fields q);
              states = λ q. omega (arith, room'.states q);
            },
            loses,
            fine,
            same,
          )
          | inl on ↦
              let (go', d'', lost'', run', books', room'', loses', fine', same') =
                rule_pairs-Walks mode ps lost' d' books room' in
              (
                go',
                d'',
                lost'',
                rw run (rw on run'),
                books',
                room'',
                Loses-trans entries lost lost' lost'' loses loses',
                elim fine' [
                  | inl went ↦ inl went
                  | inr found ↦ inr (has_mapping_below key node ps found)
                ],
                elim same [
                  | inl adding ↦ inl adding
                  | inr (m, w) ↦ elim same' [
                    | inl adding ↦ inl adding
                    | inr (m', w') ↦ inr (m' ∙ m, w' ∙ w)
                  ]
                ],
              )
        ]
