-- ===== src/Op/Books.antt =====
-- What an operation holds: references to fields, to states, and its value.
use Prim.Native.String.{String}
use mathlib.Core.Option.{some-injective}
use xdpacket.Base.{ℕ, ◌+◌, ◌<◌, ◌^◌, Option, none, some, ◌≡◌, ◌≢◌, refl, sym, ap, ◌∙◌}
use xdpacket.Judy.{JudySl}
use xdpacket.Registry.{Registry, find}
use xdpacket.Registry.New.{Same-refl}
use xdpacket.Registry.Accounts.{one_at, Accounts, Accounts-ext, get-Accounts}
use xdpacket.Field as Field
use xdpacket.Field.{Nstr, no_string, whole, field_get}
use xdpacket.Value.Length.{IsReaders}
use xdpacket.Memref.{Memref, missing}
use xdpacket.Memref.Ledger.{Ledger, Ledger-Same}
use xdpacket.Memref.Take.{Keeps}
use xdpacket.Memref.Back.{Back, Back-trans}
use xdpacket.Op.{Op, Heap, Calls}

-- How many references are held to each field and to each memref.
pub record Holding : Type 0 where
  pub fields : ℕ → ℕ
  pub states : ℕ → ℕ

abbrev pub nothing : Holding
nothing = record { fields = λ q. 0; states = λ q. 0 }

-- And those of one operation more.
abbrev pub with_op : Holding → Op → Holding
with_op n o = record {
  fields = λ q. n.fields q + (one_at o.dst_field q + one_at o.src_field q);
  states = λ q. n.states q + (one_at o.dst q + one_at o.src q);
}

abbrev pub with_op? : Holding → Option Op → Holding
with_op? n none = n
with_op? n (some o) = with_op n o

-- Every count in the heap is the number of references that are held.
pub record Books {J : JudySl} (h : Heap J) (n : Holding) : Type 0 where
  pub fields : Accounts Field.counted h.fields n.fields
  pub states : Ledger h.states n.states

-- The counts have room for one operation more.
pub record HasRoom (n : Holding) : Type 0 where
  pub fields : (q : ℕ) → n.fields q + 2 < 2 ^ 32
  pub states : (q : ℕ) → n.states q + 2 < 2 ^ 32

-- The readers work as documented, and `nstralloc` has memory and copies its argument.
pub record IsCalls (c : Calls) : Type 0 where
  pub readers : IsReaders c.literals.readers
  pub memory : (n : ℕ) (k : _) (max : ℕ) → c.nstralloc n k max ≢ no_string
  pub copy : (n : ℕ) (k : _) (max : ℕ) (j : _) → c.nstralloc n k max ≡ whole j → j ≡ k
  pub value_memory : (n : ℕ) (k : _) (max : ℕ) → c.literals.nstralloc n k max ≢ missing

-- The fields keep everything but their counts.
abbrev pub SameFields : {J : JudySl} → Heap J → Heap J → Type 0
SameFields h h' =
    (p : ℕ) (f : Field.Field)
    → h.fields.cell p ≡ some f
    → (n : ℕ) × (h'.fields.cell p ≡ some (record f { refcnt = n }))

-- All that there is stays, with other counts at most.
pub record Stays {J : JudySl} (h h' : Heap J) : Type 0 where
  pub fields : SameFields h h'
  pub states : Keeps h.states h'.states

-- Memrefs may be freed.
pub record Shrinks {J : JudySl} (h h' : Heap J) : Type 0 where
  pub fields : SameFields h h'
  pub states : Back h.states h'.states

-- Objects may be freed, and what is left of what was there is the same but for the counts.
pub record Agrees {J : JudySl} (h h' : Heap J) : Type 0 where
  pub fields :
      (q : ℕ) (f g : Field.Field)
      → h.fields.cell q ≡ some f
      → h'.fields.cell q ≡ some g
      → (n : ℕ) × (g ≡ record f { refcnt = n })
  pub states :
      (q : ℕ) (m b : Memref)
      → h.states.cell q ≡ some m
      → h'.states.cell q ≡ some b
      → (n : ℕ) × (b ≡ record m { refcnt = n })

module _ {J : JudySl} where
  SameFields-trans : (h h' h'' : Heap J) → SameFields h h' → SameFields h' h'' → SameFields h h''
  SameFields-trans h h' h'' f g p a at =
      let (n, there) = f p a at in g p (record a { refcnt = n }) there

  pub Stays-refl : (h : Heap J) → Stays h h
  Stays-refl h = record { fields = λ p f at. (f.refcnt, at); states = λ p m at. (m.refcnt, at) }

  pub Stays-trans : (h h' h'' : Heap J) → Stays h h' → Stays h' h'' → Stays h h''
  Stays-trans h h' h'' f g = record {
    fields = SameFields-trans h h' h'' f.fields g.fields;
    states =
        λ p m at. let (n, there) = f.states p m at in g.states p (record m { refcnt = n }) there;
  }

  pub Shrinks-refl : (h : Heap J) → Shrinks h h
  Shrinks-refl h = record {
    fields = λ p f at. (f.refcnt, at);
    states = λ p b at. (b, b.refcnt, at, refl);
  }

  pub Shrinks-trans : (h h' h'' : Heap J) → Shrinks h h' → Shrinks h' h'' → Shrinks h h''
  Shrinks-trans h h' h'' f g = record {
    fields = SameFields-trans h h' h'' f.fields g.fields;
    states = Back-trans h.states h'.states h''.states f.states g.states;
  }

  -- What is taken stays, and then something may be freed.
  pub Stays-Agrees : (h h' h'' : Heap J) → Stays h h' → Shrinks h' h'' → Agrees h h''
  Stays-Agrees h h' h'' stays shrinks = record {
    fields = λ q f g at there.
        let (n, at') = SameFields-trans h h' h'' stays.fields shrinks.fields q f at in
        (n, some-injective _ _ (sym there ∙ at'));
    states = λ q m b at there.
        let (n, at') = stays.states q m at in
        let (m', k, there', e) = shrinks.states q b there in
        (
          k,
          e ∙ ap (λ (x : Memref). record x { refcnt = k }) (some-injective _ _ (sym there' ∙ at')),
        );
  }

module _ {J : JudySl} (h : Heap J) (m m' : Holding) (v : Books h m) where
  pub Books-ext :
      ((q : ℕ) → m'.fields q ≡ m.fields q) → ((q : ℕ) → m'.states q ≡ m.states q) → Books h m'
  Books-ext same_fields same_states = record {
    fields = Accounts-ext Field.counted h.fields m.fields m'.fields same_fields v.fields;
    states =
        Ledger-Same h.states h.states m.states m'.states (Same-refl h.states) v.states.valid
          same_states v.states;
  }

  -- `field_get` in the heap.
  pub get-Books :
      (k : String)
      → ((q : ℕ) → m.fields q + 1 < 2 ^ 32)
      → ((q : ℕ) → m'.fields q ≡ m.fields q + one_at (find h.fields k) q)
      → ((q : ℕ) → m'.states q ≡ m.states q)
      → (f : Registry J Field.Field) × (field_get h.fields k ≡ some (find h.fields k, f))
        × Books (record h { fields = f }) m'
        × Stays h (record h { fields = f })
  unfolding field_get
  get-Books k room more same =
      let (f, run, ok, same_objects) =
        get-Accounts Field.counted h.fields k m.fields m'.fields v.fields room more in
      (
        f,
        run,
        record {
          fields = ok;
          states =
              Ledger-Same h.states h.states m.states m'.states (Same-refl h.states) v.states.valid
                same v.states;
        },
        record { fields = same_objects.objects; states = λ p b at. (b.refcnt, at) },
      )

module _ {J : JudySl} where
  pub Shrinks-Agrees : (h h' : Heap J) → Shrinks h h' → Agrees h h'
  Shrinks-Agrees h h' less = Stays-Agrees h h h' (Stays-refl h) less
