-- ===== src/Op/New/Made.antt =====
-- `op_new` as a whole: the compiled operation, or everything given back.
use xdpacket.Base.{
  ℕ, Bool, true, ◌&&◌, Option, none, some, List, [], ◌≡◌, ◌⊎◌, inl, inr, refl, arith, ◌>>=◌,
  Bool-cases,
}
use xdpacket.Judy.{JudySl}
use xdpacket.Memory.{Memory}
use xdpacket.Operations.{OpSet}
use xdpacket.Operations.Resolve.{RefHolds}
use xdpacket.Field.{Field}
use xdpacket.Memref.{Memref}
use xdpacket.Op.{
  Op, Heap, Request, is_request, Calls, Stage, src_field_got, dst_got, src_got, gathered, address,
  compiled, finished, op_new,
}
use xdpacket.Op.Books.{
  Holding, with_op, with_op?, Books, HasRoom, IsCalls, Stays, Stays-refl, Agrees, Stays-Agrees,
  Shrinks-refl,
}
use xdpacket.Op.Free.{op_free-Books}
use xdpacket.Op.New.Steps.{
  to_type, from_type, Fits, Facts, Midway, Reaches, asked_fields, go_on-Reaches,
  dst_field_got-Reaches, src_field_got-Reaches,
}
use xdpacket.Op.New.States.{field-live, dst_got-Reaches, src_got-Reaches}

abbrev bytes_of : Option Memref → List ℕ
bytes_of none = []
bytes_of (some m) = m.bytes

-- What the packet path reads and writes, over the memrefs of the heap.
abbrev pub memory_of : {J : JudySl} → Heap J → List ℕ → Memory
memory_of h pkt = record { pkt = pkt; refs = λ p. bytes_of (h.states.cell p) }

-- The compiled form: the sets of the fields, and memory as long as they say.
pub record IsCompiled {J : JudySl} (h : Heap J) (o : Op) : Type 0 where
  pub to_field : Field
  pub from_field : Field
  pub to_live : h.fields.cell (to_type o) ≡ some to_field
  pub from_live : h.fields.cell (from_type o) ≡ some from_field
  pub to : o.set.to ≡ address o.dst
  pub from : o.set.from ≡ address o.src
  pub set_to : o.set.set_to ≡ to_field.set
  pub set_from : o.set.set_from ≡ from_field.set
  pub to_ref : (pkt : List ℕ) → RefHolds (memory_of h pkt) o.set.to o.set.set_to
  pub from_ref : (pkt : List ℕ) → RefHolds (memory_of h pkt) o.set.from o.set.set_from

-- What `op_new` may return, with the heap behind it.
abbrev pub Returns :
    {J : JudySl} → Holding → Heap J → Request → Option (Option Op × Heap J) → Type 0
Returns {J} n start q result =
    (made : Option Op) × (h : Heap J) × (result ≡ some (made, h))
    × Books h (with_op? n made)
    × Agrees start h
    × ((made ≡ none) ⊎ (o : Op) × (made ≡ some o) × Facts q o h × IsCompiled h o)

module _ {J : JudySl} (n : Holding) where
  Fits-RefHolds :
      (h : Heap J) (m : Holding) (p t : ℕ) (f : Field) (pkt : List ℕ)
      → Books h m
      → h.fields.cell t ≡ some f
      → Fits h p t
      → RefHolds (memory_of h pkt) (address p) f.set
  Fits-RefHolds h m p t f pkt v live (inl null) = λ r e. absurd (ground arith)
  Fits-RefHolds h m p t f pkt v live (inr (b, g, at, live_g, same)) =
      λ r e. ground (arith, v.states.bytes p b)

  compiled-Returns :
      (q : Request) (start : Heap J) (o : Op) (h : Heap J) (to from : Field)
      → Books h (with_op n o)
      → Facts q o h
      → h.fields.cell (to_type o) ≡ some to
      → h.fields.cell (from_type o) ≡ some from
      → Stays start h
      → Returns n start q (compiled o h >>= λ o'. some (some o', h))
  unfolding compiled
  compiled-Returns q start o h to from books facts to_live from_live stays =
      let op_set : OpSet = record {
        set_to = to.set;
        to = address o.dst;
        set_from = from.set;
        from = address o.src;
      } in
      (
        some (record o { set = op_set }),
        h,
        rw (to_live, from_live) refl,
        books,
        Stays-Agrees start h h stays (Shrinks-refl h),
        inr (
          record o { set = op_set },
          refl,
          record {
            dst_field = facts.dst_field;
            src_field = facts.src_field;
            dst = facts.dst;
            src = facts.src;
            dst_fits = facts.dst_fits;
            src_fits = facts.src_fits;
            dst_field_is = facts.dst_field_is;
            src_field_is = facts.src_field_is;
            dst_is = facts.dst_is;
            src_is = facts.src_is;
            value_is = facts.value_is;
          },
          record {
            to_field = to;
            from_field = from;
            to_live = to_live;
            from_live = from_live;
            to = refl;
            from = refl;
            set_to = refl;
            set_from = refl;
            to_ref = λ pkt. Fits-RefHolds h _ o.dst _ to pkt books to_live facts.dst_fits;
            from_ref = λ pkt. Fits-RefHolds h _ o.src _ from pkt books from_live facts.src_fits;
          },
        ),
      )

  finished-Returns :
      (q : Request) (start : Heap J) (st : Stage J)
      → is_request q ≡ true
      → Midway n start q st
      → Returns n start q (finished st)
  unfolding finished is_request
  finished-Returns q start st fine m = elim (Bool-cases st.ok) [
    | inl ok ↦
        let facts = m.facts ok in
        let (to, to_live) =
          field-live n st.op st.heap m.books (to_type st.op)
            (ground (arith, facts.dst_field, facts.src_field)) (ground arith) in
        let (from, from_live) =
          field-live n st.op st.heap m.books (from_type st.op)
            (ground (arith, facts.dst_field, facts.src_field)) (ground arith) in
        rw ok
          (compiled-Returns q start st.op st.heap to from m.books facts to_live from_live m.stays)
    | inr failed ↦
        let (h, run, books, shrinks) = op_free-Books st.heap n st.op m.books in
        (
          none,
          h,
          rw (failed, run) refl,
          books,
          Stays-Agrees start st.heap h m.stays shrinks,
          inl refl,
        )
  ]

  gathered-Reaches :
      (c : Calls) (q : Request) (h : Heap J)
      → IsCalls c
      → HasRoom n
      → Books h n
      → is_request q ≡ true
      → Reaches n h q (gathered c q h)
  unfolding gathered
  gathered-Reaches c q h documented room v fine =
      let (st, run, m) = dst_field_got-Reaches n room q.dst_field_name h v in
      let (st', run', m') =
        go_on-Reaches n room h _ (asked_fields q.dst_field_name q.src_field_name) st
          (src_field_got q.src_field_name) m
          (λ books facts.
            src_field_got-Reaches n room q.dst_field_name q.src_field_name _ _ books facts) in
      let (st'', run'', m'') =
        go_on-Reaches n room h _ _ st' (dst_got c q q.dst_state_name) m' (λ books facts.
          dst_got-Reaches n _ _ books c documented room q q.dst_state_name fine facts) in
      let (last, run_last, m_last) =
        go_on-Reaches n room h _ q st'' (src_got c q q.src_state_name q.src_value) m''
          (λ books facts.
            src_got-Reaches n _ _ books c documented room q q.src_state_name q.src_value refl refl
              fine facts) in
      (last, rw (run, run', run'') run_last, m_last)

  -- Where every count of the heap is the number of references that are held, with room for two more,
  -- the library's readers work as documented, and `nstralloc` has memory and copies names, `op_new`
  -- returns, whether `calloc` succeeds or not. It returns null, or an operation with exactly the
  -- pointers that were asked for: to fields and states of the names given, and to a value where a
  -- text was given. It is compiled from fields that are there and over memory as long as they say.
  -- The counts are right again, with those of the operation if there is one: after an error whatever
  -- was taken has been given back. Whatever was there before and still is, is the same but for its
  -- count.
  pub op_new-Returns :
      (c : Calls) (q : Request) (h : Heap J) (memory : Bool)
      → IsCalls c
      → HasRoom n
      → Books h n
      → Returns n h q (op_new c h memory q)
  unfolding op_new
  op_new-Returns c q h memory documented room v = elim (Bool-cases (is_request q && memory)) [
    | inl fine ↦
        let (st, run, m) = gathered-Reaches c q h documented room v (ground (arith, fine)) in
        rw (fine, run) (finished-Returns q h st (ground (arith, fine)) m)
    | inr refused ↦
        (none, h, rw refused refl, v, Stays-Agrees h h h (Stays-refl h) (Shrinks-refl h), inl refl)
  ]
