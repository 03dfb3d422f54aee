-- ===== src/Rule/Command/Loop.antt =====
-- The loop over a queue of `rule_parse`: what it holds while it grows.
use xdpacket.Base.{
  ℕ, suc, true, false, ◌⊎◌, inl, inr, ◌∙◌, Bool-cases, ◌+◌, ◌*◌, ◌≤◌, ◌<◌, ◌^◌, Bool, Option, none,
  some, List, [], ◌∷◌, ◌++◌, ◌≡◌, refl, arith,
}
use xdpacket.Judy.{JudySl}
use xdpacket.Yaml.{Node, scalar, sequence, mapping, unknown, Items, no_item, item, count_items}
use xdpacket.Registry.Accounts.{one_at}
use xdpacket.Op.{Op, Calls}
use xdpacket.Op.Books.{Holding, with_op, with_op?, Books, IsCalls, Books-ext}
use xdpacket.Op.Parse.{op_parse_new-Makes}
use xdpacket.Rule.Books.{ops_fields, ops_states, with_ops}
use xdpacket.Rule.New.{ops_fields-append, ops_states-append}
use xdpacket.Rule.Command.{Work, failed, enqueued, queue_item, queue_items}

-- Each count has room for two references of each of `k` operations more.
pub record HasRoomFor (n : Holding) (k : ℕ) : Type 0 where
  pub fields : (q : ℕ) → n.fields q + 2 * k < 2 ^ 32
  pub states : (q : ℕ) → n.states q + 2 * k < 2 ^ 32

append-one-fields :
    (jq : List Op) (o : Op) (q : ℕ)
    → ops_fields (jq ++ (o ∷ [])) q
      ≡ ops_fields jq q + (one_at o.dst_field q + one_at o.src_field q)
unfolding ops_fields
append-one-fields jq o q = omega (arith, ops_fields-append jq (o ∷ []) q)

append-one-states :
    (jq : List Op) (o : Op) (q : ℕ)
    → ops_states (jq ++ (o ∷ [])) q ≡ ops_states jq q + (one_at o.dst q + one_at o.src q)
unfolding ops_states
append-one-states jq o q = omega (arith, ops_states-append jq (o ∷ []) q)

one_at-le : (p q : ℕ) → one_at p q ≤ 1
one_at-le p q = ground arith

-- The operations that nothing owns are those of before, unless an entry got no memory.
abbrev pub Loses : (ℕ → Bool) → List Op → List Op → Type 0
Loses entries lost lost' = (lost' ≡ lost) ⊎ (j : ℕ) × (entries j ≡ false)

module _ (entries : ℕ → Bool) where
  pub Loses-trans : (a b d : List Op) → Loses entries a b → Loses entries b d → Loses entries a d
  Loses-trans a b d (inr failure) after = inr failure
  Loses-trans a b d (inl e) (inr failure) = inr failure
  Loses-trans a b d (inl e) (inl e') = inl (e' ∙ e)

  entry_cases : (j : ℕ) → (entries j ≡ true) ⊎ (i : ℕ) × (entries i ≡ false)
  entry_cases j = elim (Bool-cases (entries j)) [
    | inl got ↦ inl got
    | inr failure ↦ inr (j, failure)
  ]

module _ {J : JudySl} (c : Calls) (documented : IsCalls c) (memory entries : ℕ → Bool) where
  -- The loop returns with a queue that holds, with the operations that were lost, what the heap
  -- counts, and with room for `k` more.
  abbrev pub Runs : Holding → List Op → ℕ → Option (List Op × Work J) → Type 0
  Runs n lost k result =
      (jq : List Op) × (w : Work J) × (lost' : List Op) × (result ≡ some (jq, w))
      × Books w.heap (with_ops (with_ops n lost') jq)
      × HasRoomFor (with_ops (with_ops n lost') jq) k
      × Loses entries lost lost'

  module _ (n : Holding) where
    skipped :
        (lost : List Op) (k : ℕ) (jq : List Op) (w : Work J)
        → Books w.heap (with_ops (with_ops n lost) jq)
        → HasRoomFor (with_ops (with_ops n lost) jq) (suc k)
        → Runs n lost k (some (jq, failed w))
    skipped lost k jq w v room = (
      jq,
      failed w,
      lost,
      refl,
      v,
      record {
        fields = λ q. omega (arith, room.fields q);
        states = λ q. omega (arith, room.states q);
      },
      inl refl,
    )

    -- Without memory for the entry the operation has no owner.
    lost-Runs :
        (lost : List Op) (k : ℕ) (jq : List Op) (w : Work J) (o : Op) (j : ℕ)
        → entries j ≡ false
        → Books w.heap (with_op (with_ops (with_ops n lost) jq) o)
        → HasRoomFor (with_ops (with_ops n lost) jq) (suc k)
        → Runs n lost k (some (jq, failed w))
    unfolding ops_fields ops_states
    lost-Runs lost k jq w o j failure v room = (
      jq,
      failed w,
      o ∷ lost,
      refl,
      Books-ext w.heap _ _ v (λ q. omega arith) (λ q. omega arith),
      record {
        fields =
            λ q. omega (arith, room.fields q, one_at-le o.dst_field q, one_at-le o.src_field q);
        states = λ q. omega (arith, room.states q, one_at-le o.dst q, one_at-le o.src q);
      },
      inr (j, failure),
    )

    enqueued-Runs :
        (entry : Bool) (lost : List Op) (k : ℕ) (jq : List Op) (w : Work J) (found : Option Op)
        → (entry ≡ true) ⊎ (j : ℕ) × (entries j ≡ false)
        → Books w.heap (with_op? (with_ops (with_ops n lost) jq) found)
        → HasRoomFor (with_ops (with_ops n lost) jq) (suc k)
        → Runs n lost k (some (enqueued entry jq w found))
    unfolding enqueued
    enqueued-Runs entry lost k jq w none known v room = skipped lost k jq w v room
    enqueued-Runs false lost k jq w (some o) (inl e) v room = absurd (ground arith)
    enqueued-Runs false lost k jq w (some o) (inr (j, failure)) v room =
        lost-Runs lost k jq w o j failure v room
    enqueued-Runs true lost k jq w (some o) known v room = (
      jq ++ (o ∷ []),
      w,
      lost,
      refl,
      Books-ext w.heap _ _ v (λ q. omega (arith, append-one-fields jq o q))
          (λ q. omega (arith, append-one-states jq o q)),
      record {
        fields = λ q. omega (
          arith,
          room.fields q,
          append-one-fields jq o q,
          one_at-le o.dst_field q,
          one_at-le o.src_field q,
        );
        states = λ q.
            omega (
              arith,
              room.states q,
              append-one-states jq o q,
              one_at-le o.dst q,
              one_at-le o.src q,
            );
      },
      inl refl,
    )

    queue_item-Runs :
        (lost : List Op) (k : ℕ) (x : Node) (jq : List Op) (w : Work J)
        → Books w.heap (with_ops (with_ops n lost) jq)
        → HasRoomFor (with_ops (with_ops n lost) jq) (suc k)
        → Runs n lost k (queue_item c memory entries x jq w)
    unfolding queue_item
    queue_item-Runs lost k (scalar s) jq w v room = skipped lost k jq w v room
    queue_item-Runs lost k (sequence xs) jq w v room = skipped lost k jq w v room
    queue_item-Runs lost k unknown jq w v room = skipped lost k jq w v room
    queue_item-Runs lost k (mapping m) jq w v room =
        let (found, h, run, books, agree, compiled) =
          op_parse_new-Makes c documented (with_ops (with_ops n lost) jq)
            record {
              fields = λ q. omega (arith, room.fields q);
              states = λ q. omega (arith, room.states q);
            }
            w.heap v (memory w.made) m in
        rw run (
          enqueued-Runs (entries w.made) lost k jq (record w { heap = h; made = w.made + 1 }) found
            (entry_cases entries w.made) books room)

    pub queue_items-Runs :
        (xs : Items) (lost : List Op) (k : ℕ) (jq : List Op) (w : Work J)
        → Books w.heap (with_ops (with_ops n lost) jq)
        → HasRoomFor (with_ops (with_ops n lost) jq) (count_items xs + k)
        → Runs n lost k (queue_items c memory entries xs jq w)
    unfolding queue_items
    queue_items-Runs no_item lost k jq w v room = (
      jq,
      w,
      lost,
      refl,
      v,
      record {
        fields = λ q. omega (arith, room.fields q);
        states = λ q. omega (arith, room.states q);
      },
      inl refl,
    )
    queue_items-Runs (item x xs) lost k jq w v room =
        let (jq', w', lost', run, books, room', loses) =
          queue_item-Runs lost (count_items xs + k) x jq w v record {
            fields = λ q. omega (arith, room.fields q);
            states = λ q. omega (arith, room.states q);
          } in
        let (jq'', w'', lost'', run', books', room'', loses') =
          queue_items-Runs xs lost' k jq' w' books room' in
        (
          jq'',
          w'',
          lost'',
          rw run run',
          books',
          room'',
          Loses-trans entries lost lost' lost'' loses loses',
        )
