-- ===== src/Field/New.antt =====
-- `field_new` adds one field, or leaves the fields as they were.
use Prim.Native.String.{String}
use xdpacket.Base.{
  ℕ, suc, ◌<◌, ◌^◌, true, Option, none, some, ℤ, pos, negsuc, ◌≡◌, ◌≢◌, ◌⊎◌, inl, inr, refl, sym,
  arith, ◌==◌, Bool-cases, Option-cases, same_result,
}
use xdpacket.Judy.{JudySl}
use xdpacket.FieldSet.{FieldSet}
use xdpacket.Registry.{Registry, grown, set_cell, alloc, find}
use xdpacket.Registry.Laws.{IsValid, Same}
use xdpacket.Registry.New.{
  suc-ne, IsGrown, IsAdded, publish_succeeds, alloc_granted, Same-refl, alloc_cases,
  set_cell-IsGrown, Same-IsValid, IsGrown-free, IsGrown-publish,
}
use xdpacket.Field.{
  Field, counted, Nstr, no_string, truncated, whole, max_line_len, to_int32, to_unsigned,
  default_mask, set_of, blank, field_free, die, published, filled, named, allocated, field_new,
}

-- `set` has what the caller asked for, each number in the range of its C type.
pub record IsAsked (offt len mask : ℤ) (set : FieldSet) : Type 0 where
  pub offt_kept : set.offt ≡ offt
  pub len_kept : pos set.len ≡ len
  pub len_fits : set.len < 2 ^ 16
  pub mask_kept : (mask ≡ pos 0) × (set.mask ≡ 0xff) ⊎ (mask ≢ pos 0) × (pos set.mask ≡ mask)
  pub mask_fits : set.mask < 2 ^ 8
  pub flags_clear : set.flags ≡ 0

to_int32-kept : (x y : ℤ) → to_int32 x ≡ some y → y ≡ x
unfolding to_int32
to_int32-kept (pos n) y e = ground arith
to_int32-kept (negsuc n) y e = ground arith

to_unsigned-kept : (b : ℕ) (x : ℤ) (n : ℕ) → to_unsigned b x ≡ some n → (pos n ≡ x) × (n < b)
unfolding to_unsigned
to_unsigned-kept b (pos m) n e = (ground arith, ground arith)
to_unsigned-kept b (negsuc m) n e = absurd (ground arith)

default_mask-kept :
    (x : ℤ) (n : ℕ) → pos n ≡ default_mask x → (x ≡ pos 0) × (n ≡ 0xff) ⊎ (x ≢ pos 0) × (pos n ≡ x)
unfolding default_mask
default_mask-kept (pos m) n e = elim (Bool-cases (m == 0)) [
  | inl z ↦ inl (ground arith, ground arith)
  | inr nz ↦ inr (ground arith, ground arith)
]
default_mask-kept (negsuc m) n e = inr (ground arith, e)

set_of-IsAsked :
    (offt len mask : ℤ) (set : FieldSet)
    → set_of offt len (default_mask mask) ≡ some set
    → IsAsked offt len mask set
unfolding set_of
set_of-IsAsked offt len mask set e = elim (Option-cases (to_int32 offt)) [
  | inl a ↦ absurd (ground arith)
  | inr (o, a) ↦ elim (Option-cases (to_unsigned (2 ^ 16) len)) [
    | inl b ↦ absurd (ground arith)
    | inr (l, b) ↦ elim (Option-cases (to_unsigned (2 ^ 8) (default_mask mask))) [
      | inl c ↦ absurd (ground arith)
      | inr (m, c) ↦
          let same : record { offt = o; len = l; mask = m; flags = 0 } ≡ set = ground arith in
          let of_len = to_unsigned-kept (2 ^ 16) len l b in
          let of_mask = to_unsigned-kept (2 ^ 8) (default_mask mask) m c in
          rw (sym same) record {
            offt_kept = to_int32-kept offt o a;
            len_kept = of_len.0;
            len_fits = of_len.1;
            mask_kept = default_mask-kept mask m of_mask.0;
            mask_fits = of_mask.1;
            flags_clear = refl;
          }
    ]
  ]
]

abbrev pub field_at : String → FieldSet → Field
field_at k set = record { name = some k; set = set; refcnt = 0 }

-- `t` is `r` with the field that was asked for at `p`: its name was free before.
pub record IsCreated {J : JudySl} (r : Registry J Field) (name : Option String) (offt len mask : ℤ)
    (p : ℕ) (t : Registry J Field) : Type 0 where
  pub key : String
  pub named_so : name ≡ some key
  pub unused : find r key ≡ 0
  pub set : FieldSet
  pub asked : IsAsked offt len mask set
  pub added : IsAdded counted r key p (field_at key set) t

-- A result that is null with the fields as before, or a pointer to what `made` describes.
abbrev pub Outcome :
    {J : JudySl}
    → Registry J Field
    → (ℕ → Registry J Field → Type 0)
    → Option (ℕ × Registry J Field)
    → Type 0
Outcome {J} r made result =
    (p : ℕ) × (t : Registry J Field) × (result ≡ some (p, t))
    × ((p ≡ 0) × IsValid counted t × Same r t ⊎ made p t)

module _ {J : JudySl} (r : Registry J Field) (v : IsValid counted r)
    (made : ℕ → Registry J Field → Type 0) where
  die_outcome :
      (s : Registry J Field) (p : ℕ) (k : String) (b : Field)
      → IsGrown r p b s
      → b.name ≡ some k
      → b.refcnt ≡ 0
      → Outcome r made (die s p)
  unfolding die field_free
  die_outcome s p k b g bears unused =
      let (t, run, valid, same) = IsGrown-free counted r v s p b g k bears unused in
      (0, t, rw run refl, inl (refl, valid, same))

  filled_outcome :
      (s : Registry J Field) (p : ℕ) (k : String) (set : Option FieldSet)
      → IsGrown r p (record blank { name = some k }) s
      → ((f : FieldSet) (t : Registry J Field)
          → set ≡ some f
          → IsAdded counted r k p (field_at k f) t
          → made p t)
      → Outcome r made (filled s p k set)
  unfolding filled published
  filled_outcome s p k none g built = die_outcome s p k _ g refl refl
  filled_outcome s p k (some f) g built =
      let grown = set_cell-IsGrown r s p _ (field_at k f) g in
      let (t, result) = IsGrown-publish counted r v _ p (field_at k f) grown k true refl in
      elim result [
        | inl (run, added) ↦ (p, t, rw run refl, inr (built f t refl added))
        | inr (run, still) ↦ rw run (die_outcome t p k (field_at k f) still refl refl)
      ]

  named_outcome :
      (s : Registry J Field) (p : ℕ) (k : String) (str : Nstr) (set : Option FieldSet)
      → IsGrown r p blank s
      → str ≢ no_string
      → ((j : String) → str ≡ whole j → j ≡ k)
      → ((f : FieldSet) (t : Registry J Field)
          → set ≡ some f
          → IsAdded counted r k p (field_at k f) t
          → made p t)
      → Outcome r made (named s p str set)
  unfolding named
  named_outcome s p k no_string set g memory copy built = absurd (memory refl)
  named_outcome s p k (truncated j) set g memory copy built =
      die_outcome _ p j (record blank { name = some j }) (set_cell-IsGrown r s p blank _ g) refl
        refl
  named_outcome s p k (whole j) set g memory copy built =
      rw (copy j refl) (filled_outcome _ p k set (set_cell-IsGrown r s p blank _ g) built)

  allocated_outcome :
      (k : String) (str : Nstr) (set : Option FieldSet)
      → str ≢ no_string
      → ((j : String) → str ≡ whole j → j ≡ k)
      → ((p : ℕ) (f : FieldSet) (t : Registry J Field)
          → set ≡ some f
          → IsAdded counted r k p (field_at k f) t
          → made p t)
      → Outcome r made (allocated (alloc r blank) str set)
  unfolding allocated
  allocated_outcome k str set memory copy built =
      let (s, result) = alloc_cases r blank in
      elim result [
        | inl (run, same, next) ↦
            rw run (0, s, refl, inl (refl, Same-IsValid counted r v s same next, same))
        | inr (run, grown) ↦
            rw (run, suc-ne r.next)
              (named_outcome s (suc r.next) k str set grown memory copy (built (suc r.next)))
      ]

module _ {J : JudySl} (nstralloc : ℕ → String → ℕ → Nstr) (r : Registry J Field) where
  -- On a registry without dangling names, and with memory for the copy of the name, `field_new`
  -- returns. It returns null, and then every name and every object is as before. Or it returns an
  -- object that it added under a name that was free, with the offset, length and mask that were
  -- asked for (a mask of 0 is 0xff), each in the range of its C type, and with no references; every
  -- other name and object is as before, and no name dangles.
  pub field_new_cases :
      (name : Option String) (offt len mask : ℤ)
      → IsValid counted r
      → ((k : String) → nstralloc r.next k max_line_len ≢ no_string)
      → ((k j : String) → nstralloc r.next k max_line_len ≡ whole j → j ≡ k)
      → Outcome r (IsCreated r name offt len mask) (field_new nstralloc r name offt len mask)
  unfolding field_new
  field_new_cases none offt len mask v memory copy = (0, r, refl, inl (refl, v, Same-refl r))
  field_new_cases (some k) offt len mask v memory copy = elim (Bool-cases (find r k == 0)) [
    | inr used ↦ (0, r, ground arith, inl (refl, v, Same-refl r))
    | inl unused ↦ rw unused (
        allocated_outcome r v _ k (nstralloc r.next k max_line_len)
          (set_of offt len (default_mask mask)) (memory k) (copy k)
          (λ p f t e added. record {
            key = k;
            named_so = refl;
            unused = ground arith;
            set = f;
            asked = set_of-IsAsked offt len mask f e;
            added = added;
          }))
  ]

  granted_run :
      (k : String) (offt len mask : ℤ) (set : FieldSet)
      → find r k ≡ 0
      → r.grants r.next ≡ true
      → nstralloc r.next k max_line_len ≡ whole k
      → ((a : JudySl.Array J) → JudySl.jsli J a k ≢ none)
      → set_of offt len (default_mask mask) ≡ some set
      → (t : Registry J Field) × (field_new nstralloc r (some k) offt len mask
          ≡ some (suc r.next, t))
  unfolding field_new allocated named filled published
  granted_run k offt len mask set unused granted copied room ranges =
      let p = suc r.next in
      let s = set_cell (grown r blank) p (some (record blank { name = some k })) in
      let (t, done) =
        publish_succeeds (set_cell s p (some (field_at k set))) k p (ground arith) room in
      (t, rw (unused, alloc_granted r blank granted, copied, ranges, suc-ne r.next, done) refl)

  -- With memory for the object, for its name and for the entry in the array, and no dangling names, a
  -- field whose name is free and not cut off and whose numbers are in range is created: `field_new` returns a new
  -- object, which it added under that name with the offset, length and mask that were asked for; every
  -- other name and object is as before.
  pub field_new_succeeds :
      (k : String) (offt len mask : ℤ) (set : FieldSet)
      → IsValid counted r
      → ((j : String) → nstralloc r.next j max_line_len ≢ no_string)
      → ((j i : String) → nstralloc r.next j max_line_len ≡ whole i → i ≡ j)
      → nstralloc r.next k max_line_len ≡ whole k
      → find r k ≡ 0
      → r.grants r.next ≡ true
      → ((a : JudySl.Array J) → JudySl.jsli J a k ≢ none)
      → set_of offt len (default_mask mask) ≡ some set
      → (t : Registry J Field) × (field_new nstralloc r (some k) offt len mask
          ≡ some (suc r.next, t))
        × IsCreated r (some k) offt len mask (suc r.next) t
  field_new_succeeds k offt len mask set v memory copy copied unused granted room ranges =
      let (t, run) = granted_run k offt len mask set unused granted copied room ranges in
      let (p, t', run', outcome) = field_new_cases (some k) offt len mask v memory copy in
      let outcome' =
        same_result
          (λ (x : ℕ × Registry J Field).
            (x.0 ≡ 0) × IsValid counted x.1 × Same r x.1
            ⊎ IsCreated r (some k) offt len mask x.0 x.1)
          _ (p, t') (suc r.next, t) run' run outcome in
      elim outcome' [ inl (null, valid, same) ↦ absurd (ground arith) | inr made ↦ (t, run, made) ]
