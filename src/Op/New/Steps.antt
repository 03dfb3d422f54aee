-- ===== src/Op/New/Steps.antt =====
-- The four statements of `op_new` that take references.
use Prim.Native.String.{String}
use xdpacket.Base.{
  ℕ, true, not, ◌≢◌, ◌||◌, Option, none, some, ◌≡◌, ◌⊎◌, inl, inr, refl, sym, arith, ◌==◌,
  if◌then◌else◌, Bool-cases,
}
use xdpacket.Judy.{JudySl}
use xdpacket.Registry.{find}
use xdpacket.Registry.Laws.{IsValid}
use xdpacket.Field as Field
use xdpacket.Field.{Field}
use xdpacket.Memref.{Memref}
use xdpacket.Op.New.Asked.{IsField, IsState, HasValue, IsField-Stays}
use xdpacket.Op.{Op, blank, Heap, Request, given, Stage, go_on, dst_field_got, src_field_got}
use xdpacket.Op.Books.{
  Holding, with_op, Books, HasRoom, Books-ext, get-Books, Stays, Stays-refl, Stays-trans,
}

-- The fields whose sets are compiled.
abbrev pub to_type : Op → ℕ
to_type o = if o.dst_field == 0 then o.src_field else o.dst_field

abbrev pub from_type : Op → ℕ
from_type o = if o.src_field == 0 then o.dst_field else o.src_field

-- A memref as long as the field at `t`, or null.
abbrev pub Fits : {J : JudySl} → Heap J → ℕ → ℕ → Type 0
Fits h p t =
    (p ≡ 0)
    ⊎ ((m : Memref) × (f : Field) × (h.states.cell p ≡ some m)
        × (h.fields.cell t ≡ some f)
        × (m.set.len ≡ f.set.len))

-- An operation has what was asked for so far.
pub record Facts {J : JudySl} (q : Request) (o : Op) (h : Heap J) : Type 0 where
  pub dst_field : given q.dst_field_name ≡ not (o.dst_field == 0)
  pub src_field : given q.src_field_name ≡ not (o.src_field == 0)
  pub dst : given q.dst_state_name ≡ not (o.dst == 0)
  pub src : (given q.src_state_name || given q.src_value) ≡ not (o.src == 0)
  pub dst_fits : Fits h o.dst (to_type o)
  pub src_fits : Fits h o.src (from_type o)
  pub dst_field_is : IsField h q.dst_field_name o.dst_field
  pub src_field_is : IsField h q.src_field_name o.src_field
  pub dst_is : IsState h q.dst_state_name o.dst
  pub src_is : IsState h q.src_state_name o.src
  pub value_is : HasValue h q.src_value o.src

-- The books are right whether there was an error or not, nothing of `h` is gone, and without an
-- error the facts hold.
pub record Midway {J : JudySl} (n : Holding) (h : Heap J) (q : Request) (st : Stage J)
    : Type 0 where
  pub books : Books st.heap (with_op n st.op)
  pub stays : Stays h st.heap
  pub facts : st.ok ≡ true → Facts q st.op st.heap

abbrev pub Reaches : {J : JudySl} → Holding → Heap J → Request → Option (Stage J) → Type 0
Reaches {J} n h q result = (st : Stage J) × (result ≡ some st) × Midway n h q st

abbrev pub asked_fields : Option String → Option String → Request
asked_fields a b = record {
  dst_field_name = a;
  dst_state_name = none;
  src_field_name = b;
  src_state_name = none;
  src_value = none;
}

blank-Facts : {J : JudySl} (h : Heap J) → Facts (asked_fields none none) blank h
blank-Facts h = record {
  dst_field = refl;
  src_field = refl;
  dst = refl;
  src = refl;
  dst_fits = inl refl;
  src_fits = inl refl;
  dst_field_is = tt;
  src_field_is = tt;
  dst_is = tt;
  src_is = tt;
  value_is = tt;
}

find-IsField :
    {J : JudySl} (k : String) (h h' : Heap J)
    → IsValid Field.counted h.fields
    → Stays h h'
    → find h.fields k ≢ 0
    → IsField h' (some k) (find h.fields k)
find-IsField k h h' valid stays ne = elim (valid.live k) [
  | inl missing ↦ absurd (ne missing)
  | inr (f, at, bears) ↦
      let (n, there) = stays.fields (find h.fields k) f at in
      (record f { refcnt = n }, there, bears)
]

module _ {J : JudySl} (n : Holding) (room : HasRoom n) where
  -- A step that is skipped after an error.
  pub go_on-Reaches :
      (h : Heap J) (q q' : Request) (st : Stage J) (step : Op → Heap J → Option (Stage J))
      → Midway n h q st
      → (Books st.heap (with_op n st.op)
          → Facts q st.op st.heap
          → Reaches n st.heap q' (step st.op st.heap))
      → Reaches n h q' (go_on st step)
  unfolding go_on
  go_on-Reaches h q q' st step m next = elim (Bool-cases st.ok) [
    | inl fine ↦
        let (st', run, m') = next m.books (m.facts fine) in
        (
          st',
          rw fine run,
          record {
            books = m'.books;
            stays = Stays-trans h st.heap st'.heap m.stays m'.stays;
            facts = m'.facts;
          },
        )
    | inr failed ↦ (
      st,
      rw failed refl,
      record {
        books = m.books;
        stays = m.stays;
        facts = λ fine. absurd (ground (arith, fine, failed));
      },
    )
  ]

  pub dst_field_got-Reaches :
      (a : Option String) (h : Heap J)
      → Books h n
      → Reaches n h (asked_fields a none) (dst_field_got a blank h)
  unfolding dst_field_got
  dst_field_got-Reaches none h v = (
    _,
    refl,
    record {
      books = Books-ext h n (with_op n blank) v (λ q. omega arith) (λ q. omega arith);
      stays = Stays-refl h;
      facts = λ fine. blank-Facts h;
    },
  )
  dst_field_got-Reaches (some k) h v =
      let o = record blank { dst_field = find h.fields k } in
      let (f, run, books, stays) =
        get-Books h n (with_op n o) v k (λ q. omega (arith, room.fields q)) (λ q. omega arith)
          (λ q. omega arith) in
      (
        record { ok = not (find h.fields k == 0); op = o; heap = record h { fields = f } },
        rw run refl,
        record {
          books = books;
          stays = stays;
          facts = λ fine. record {
            dst_field = sym fine;
            src_field = refl;
            dst = refl;
            src = refl;
            dst_fits = inl refl;
            src_fits = inl refl;
            dst_field_is =
                find-IsField k h (record h { fields = f }) v.fields.valid stays (ground arith);
            src_field_is = tt;
            dst_is = tt;
            src_is = tt;
            value_is = tt;
          };
        },
      )

  pub src_field_got-Reaches :
      (a b : Option String) (o : Op) (h : Heap J)
      → Books h (with_op n o)
      → Facts (asked_fields a none) o h
      → Reaches n h (asked_fields a b) (src_field_got b o h)
  unfolding src_field_got
  src_field_got-Reaches a none o h v facts =
      (_, refl, record { books = v; stays = Stays-refl h; facts = λ fine. facts })
  src_field_got-Reaches a (some k) o h v facts =
      let o' = record o { src_field = find h.fields k } in
      let none_yet : o.src_field ≡ 0 = ground (arith, facts.src_field) in
      let (f, run, books, stays) =
        get-Books h (with_op n o) (with_op n o') v k (λ q. ground (arith, room.fields q))
          (λ q. ground arith) (λ q. refl) in
      (
        record { ok = not (find h.fields k == 0); op = o'; heap = record h { fields = f } },
        rw run refl,
        record {
          books = books;
          stays = stays;
          facts = λ fine. record {
            dst_field = facts.dst_field;
            src_field = sym fine;
            dst = facts.dst;
            src = facts.src;
            dst_fits = inl (ground (arith, facts.dst));
            src_fits = inl (ground (arith, facts.src));
            dst_field_is =
                IsField-Stays h (record h { fields = f }) stays a o.dst_field facts.dst_field_is;
            src_field_is =
                find-IsField k h (record h { fields = f }) v.fields.valid stays (ground arith);
            dst_is = tt;
            src_is = tt;
            value_is = tt;
          };
        },
      )
