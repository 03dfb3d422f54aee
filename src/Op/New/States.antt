-- ===== src/Op/New/States.antt =====
-- The two statements of `op_new` that take a state or make a value.
use Prim.Native.String.{String}
use xdpacket.Base.{
  ℕ, ◌+◌, true, false, ◌||◌, Option, none, some, ◌≡◌, ◌≢◌, ◌⊎◌, inl, inr, refl, sym, ◌∙◌, arith,
  ◌==◌, ◌>>=◌, Option-cases,
}
use xdpacket.Judy.{JudySl}
use xdpacket.FieldSet.{FieldSet}
use xdpacket.Registry.{Registry}
use xdpacket.Registry.New.{Same-refl}
use xdpacket.Registry.Accounts.{one_at}
use xdpacket.Field.{Field}
use xdpacket.Memref.{Memref, memref_is_value, memref_value_new}
use xdpacket.Memref.Ledger.{Ledger, Ledger-Same}
use xdpacket.Memref.Take.{Took, Takes, Keeps, IsStateOf, memref_state_get-Takes}
use xdpacket.Memref.Literal.{memref_value_new-Takes}
use xdpacket.Op.{
  Op, Heap, Request, given, is_request, Calls, Stage, set_at, dst_type, src_type, dst_got, src_got,
  with_dst, with_src,
}
use xdpacket.Op.Books.{Holding, with_op, Books, HasRoom, IsCalls, Stays, Stays-refl}
use xdpacket.Op.New.Asked.{IsState, HasValue, IsState-Stays}
use xdpacket.Op.New.Steps.{to_type, from_type, Fits, Facts, Reaches, asked_fields}

module _ {J : JudySl} (n : Holding) (o : Op) (h : Heap J) (v : Books h (with_op n o)) where
  -- A field that the operation holds is there.
  pub field-live :
      (t : ℕ)
      → t ≢ 0
      → ((t ≡ o.dst_field) ⊎ (t ≡ o.src_field))
      → (f : Field) × (h.fields.cell t ≡ some f)
  field-live t ne mine = elim (Option-cases (h.fields.cell t)) [
    | inl lost ↦ absurd (ground (arith, v.fields.gone t))
    | inr there ↦ there
  ]

  -- Reading a field that the operation holds.
  set_at-Reaches :
      (r : Request) (t : ℕ) (step : Option FieldSet → Option (Stage J))
      → t ≢ 0
      → ((t ≡ o.dst_field) ⊎ (t ≡ o.src_field))
      → ((f : Field) → h.fields.cell t ≡ some f → Reaches n h r (step (some f.set)))
      → Reaches n h r (set_at h t >>= step)
  unfolding set_at
  set_at-Reaches r t step ne mine next =
      let (f, live) = field-live t ne mine in
      let miss : (t == 0) ≡ false = ground arith in rw (miss, live) (next f live)

  -- The memref that a step has taken is the destination or the source.
  with_dst-Books :
      (p : ℕ) (s : Registry J Memref)
      → o.dst ≡ 0
      → Ledger s (λ q. n.states q + (one_at o.dst q + one_at o.src q) + one_at p q)
      → Books (record h { states = s }) (with_op n (record o { dst = p }))
  with_dst-Books p s free ledger = record {
    fields = v.fields;
    states =
        Ledger-Same s s _ (with_op n (record o { dst = p })).states (Same-refl s) ledger.valid
          (λ q. ground arith) ledger;
  }

  with_src-Books :
      (p : ℕ) (s : Registry J Memref)
      → o.src ≡ 0
      → Ledger s (λ q. n.states q + (one_at o.dst q + one_at o.src q) + one_at p q)
      → Books (record h { states = s }) (with_op n (record o { src = p }))
  with_src-Books p s free ledger = record {
    fields = v.fields;
    states =
        Ledger-Same s s _ (with_op n (record o { src = p })).states (Same-refl s) ledger.valid
          (λ q. ground arith) ledger;
  }

  -- A memref that fits still does when others are taken.
  Fits-Keeps :
      (s : Registry J Memref) (p t : ℕ)
      → Keeps h.states s
      → Fits h p t
      → Fits (record h { states = s }) p t
  Fits-Keeps s p t keeps (inl null) = inl null
  Fits-Keeps s p t keeps (inr (m, f, at, live, same)) =
      let (k, there) = keeps p m at in inr (record m { refcnt = k }, f, there, live, same)

  Took-Fits :
      {want : Memref → Type 0} (s : Registry J Memref) (p t : ℕ) (f : Field) (held : ℕ → ℕ)
      → h.fields.cell t ≡ some f
      → Took h.states s f.set held want p
      → Fits (record h { states = s }) p t
  Took-Fits s p t f held live took = elim took.gives [
    | inl null ↦ inl null
    | inr (m, at, same, wanted) ↦ inr (m, f, at, live, same)
  ]

  -- Other memrefs change.
  with_states-Stays : (s : Registry J Memref) → Keeps h.states s → Stays h (record h { states = s })
  with_states-Stays s keeps = record { fields = λ p f at. (f.refcnt, at); states = keeps }

  wanted_at :
      {want : Memref → Type 0} (s : Registry J Memref) (p : ℕ) (set : FieldSet) (held : ℕ → ℕ)
      → Took h.states s set held want p
      → p ≢ 0
      → (m : Memref) × (s.cell p ≡ some m) × want m
  wanted_at s p set held took ne = elim took.gives [
    | inl null ↦ absurd (ne null)
    | inr (m, at, same, wanted) ↦ (m, at, wanted)
  ]

  module _ (c : Calls) (documented : IsCalls c) (room : HasRoom n) (q : Request) where
    not_given :
        (s : Registry J Memref) (p : ℕ) (a : Option String)
        → given a ≡ false
        → HasValue (record h { states = s }) a p
    not_given s p none e = tt
    not_given s p (some k) e = absurd (ground arith)

    -- The statement for the destination, after the read of the field.
    dst-Reaches :
        (r : Request) (t : ℕ) (f : Field) (k : String) (result : Option (ℕ × Registry J Memref))
        → Facts r o h
        → o.dst ≡ 0
        → h.fields.cell t ≡ some f
        → t ≡ to_type o
        → given r.src_state_name ≡ false
        → given r.src_value ≡ false
        → Takes h.states f.set (with_op n o).states (IsStateOf k) result
        → Reaches n h
            (record r { dst_state_name = some k })
            (result >>= λ got. some (with_dst o h got))
    dst-Reaches r t f k result facts free live same no_state no_value (p, s, run, took) = (
      with_dst o h (p, s),
      rw run refl,
      record {
        books = with_dst-Books p s free took.ledger;
        stays = record { fields = λ p f at. (f.refcnt, at); states = took.keeps };
        facts = λ ok. record {
          dst_field = facts.dst_field;
          src_field = facts.src_field;
          dst = sym ok;
          src = facts.src;
          dst_fits = rw (sym same) (Took-Fits s p t f _ live took);
          src_fits = Fits-Keeps s o.src (from_type o) took.keeps facts.src_fits;
          dst_field_is = facts.dst_field_is;
          src_field_is = facts.src_field_is;
          dst_is = wanted_at s p f.set _ took (ground arith);
          src_is =
              IsState-Stays h (record h { states = s }) (with_states-Stays s took.keeps)
                r.src_state_name o.src facts.src_is;
          value_is = not_given s o.src r.src_value no_value;
        };
      },
    )

    pub dst_got-Reaches :
        (a : Option String)
        → is_request q ≡ true
        → Facts (asked_fields q.dst_field_name q.src_field_name) o h
        → Reaches n h
            (record (asked_fields q.dst_field_name q.src_field_name) { dst_state_name = a })
            (dst_got c q a o h)
    unfolding dst_got is_request
    dst_got-Reaches none fine facts = (
      record { ok = true; op = o; heap = h },
      refl,
      record { books = v; stays = Stays-refl h; facts = λ fine. facts },
    )
    dst_got-Reaches (some k) fine facts =
        set_at-Reaches _ (dst_type q o) _ (ground (arith, facts.dst_field, facts.src_field))
          (ground (arith, facts.dst_field, facts.src_field))
          (λ f live.
            dst-Reaches _ (dst_type q o) f k _ facts (ground (arith, facts.dst)) live
              (ground (arith, facts.dst_field)) refl refl
              (memref_state_get-Takes h.states f.set (with_op n o).states v.states c.nstralloc k
                (λ q. ground (arith, room.states q, facts.dst, facts.src)) (documented.memory _ k _)
                (λ j e. documented.copy _ k _ j e)))

    value_taken :
        (k : String) (f : Field)
        → Takes h.states f.set
            (with_op n o).states
            (λ m. memref_is_value m ≡ true)
            (memref_value_new c.literals h.states (some f.set) (some k))
    value_taken k f =
        let (p, s, run, took, owned) =
          memref_value_new-Takes h.states f.set (with_op n o).states v.states c.literals
            documented.readers k (documented.value_memory _ k _) in
        (p, s, run, took)

    -- The source's half, for a state and for a value.
    src-Reaches :
        {want : Memref → Type 0} (r : Request) (t : ℕ) (f : Field)
        (result : Option (ℕ × Registry J Memref))
        → Facts r o h
        → o.src ≡ 0
        → h.fields.cell t ≡ some f
        → t ≡ from_type o
        → (given q.src_state_name || given q.src_value) ≡ true
        → ((s : Registry J Memref) (p : ℕ) (m : Memref)
            → s.cell p ≡ some m
            → want m
            → IsState (record h { states = s }) q.src_state_name p
              × HasValue (record h { states = s }) q.src_value p)
        → Takes h.states f.set (with_op n o).states want result
        → Reaches n h
            (record r { src_state_name = q.src_state_name; src_value = q.src_value })
            (result >>= λ got. some (with_src o h got))
    src-Reaches r t f result facts free live same asked means (p, s, run, took) = (
      with_src o h (p, s),
      rw run refl,
      record {
        books = with_src-Books p s free took.ledger;
        stays = record { fields = λ p f at. (f.refcnt, at); states = took.keeps };
        facts = λ ok. record {
          dst_field = facts.dst_field;
          src_field = facts.src_field;
          dst = facts.dst;
          src = asked ∙ sym ok;
          dst_fits = Fits-Keeps s o.dst (to_type o) took.keeps facts.dst_fits;
          src_fits = rw (sym same) (Took-Fits s p t f _ live took);
          dst_field_is = facts.dst_field_is;
          src_field_is = facts.src_field_is;
          dst_is =
              IsState-Stays h (record h { states = s }) (with_states-Stays s took.keeps)
                r.dst_state_name o.dst facts.dst_is;
          src_is =
              let (m, at, wanted) = wanted_at s p f.set _ took (ground arith) in
              (means s p m at wanted).0;
          value_is =
              let (m, at, wanted) = wanted_at s p f.set _ took (ground arith) in
              (means s p m at wanted).1;
        };
      },
    )

    pub src_got-Reaches :
        (a b : Option String)
        → q.src_state_name ≡ a
        → q.src_value ≡ b
        → is_request q ≡ true
        → Facts
            (record (asked_fields q.dst_field_name q.src_field_name) {
              dst_state_name = q.dst_state_name;
            })
            o
            h
        → Reaches n h q (src_got c q a b o h)
    unfolding src_got is_request
    src_got-Reaches none none is_a is_b fine facts = (
      record { ok = true; op = o; heap = h },
      refl,
      record {
        books = v;
        stays = Stays-refl h;
        facts = λ fine. record {
          dst_field = facts.dst_field;
          src_field = facts.src_field;
          dst = facts.dst;
          src = rw (is_a, is_b) facts.src;
          dst_fits = facts.dst_fits;
          src_fits = facts.src_fits;
          dst_field_is = facts.dst_field_is;
          src_field_is = facts.src_field_is;
          dst_is = facts.dst_is;
          src_is = rw is_a tt;
          value_is = rw is_b tt;
        };
      },
    )
    src_got-Reaches none (some b) is_a is_b fine facts =
        set_at-Reaches _ (src_type q o) _ (ground (arith, facts.dst_field, facts.src_field))
          (ground (arith, facts.dst_field, facts.src_field))
          (λ f live.
            src-Reaches _ (src_type q o) f _ facts (ground (arith, facts.src)) live
              (ground (arith, facts.src_field)) (ground (arith, is_a, is_b))
              (λ s p m at wanted. (rw is_a tt, rw is_b (m, at, wanted))) (value_taken b f))
    src_got-Reaches (some a) b is_a is_b fine facts =
        set_at-Reaches _ (src_type q o) _ (ground (arith, facts.dst_field, facts.src_field))
          (ground (arith, facts.dst_field, facts.src_field))
          (λ f live.
            src-Reaches _ (src_type q o) f _ facts (ground (arith, facts.src)) live
              (ground (arith, facts.src_field)) (ground (arith, is_a, is_b))
              (λ s p m at wanted.
                (rw is_a (m, at, wanted), not_given s p q.src_value (ground (arith, is_a))))
              (memref_state_get-Takes h.states f.set (with_op n o).states v.states c.nstralloc a
                (λ q. ground (arith, room.states q, facts.src)) (documented.memory _ a _)
                (λ j e. documented.copy _ a _ j e)))
