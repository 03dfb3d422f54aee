-- ===== src/Field/Command/Laws.antt =====
-- What the commands on fields do to the fields.
use text.Mathlib.Text.{◌==◌ as str_eq}
use Prim.Native.String.{String}
use xdpacket.Base.{
  ℕ, ◌+◌, Bool, true, false, Option, none, some, List, ℤ, ◌≡◌, ◌≢◌, ◌⊎◌, inl, inr, refl, arith,
  ◌==◌, ◌>>=◌, Bool-cases, Option-cases,
}
use text.Mathlib.TextEquality.{eq_iff}
use text.Mathlib.TextPositions.{eq_refl}
use xdpacket.Judy.{JudySl}
use xdpacket.FieldSet.{FieldSet}
use xdpacket.Registry.{Registry, find}
use xdpacket.Registry.Laws.{IsValid, Same, free-unused}
use xdpacket.Registry.New.{IsAdded}
use xdpacket.Field.{Field, counted, Nstr, no_string, whole, max_line_len, field_free}
use xdpacket.Field.New.{field_at, IsCreated, field_new_cases}
use xdpacket.Field.Command.{
  Node, start, walk, field_parse, Params, Mode, parse_add, parse_del, parse_prn, replied, removed,
  field_mode,
}

ne-test : (q : ℕ) → q ≢ 0 → (q == 0) ≡ false
ne-test q ne = ground arith

-- A field that was added is deleted again by its name, and nothing is left of it.
module _ {J : JudySl} (r t : Registry J Field) (v : IsValid counted r) (k : String) (q : ℕ)
    (set : FieldSet) (a : IsAdded counted r k q (field_at k set) t) (none_yet : find r k ≡ 0) where
  at_q : t.cell q ≡ some (field_at k set)
  at_q = ground (arith, a.cells q)

  pub added-ne : q ≢ 0
  added-ne e = ground (arith, at_q, IsValid.null a.valid)

  other_name : (j : String) → find r j ≢ q
  other_name j hit = elim (v.live j) [
    | inl missing ↦ ground (arith, added-ne)
    | inr (m, at, bears) ↦ ground (arith, a.unused)
  ]

  pub free-added : (u : Registry J Field) × (field_free t q ≡ some u) × IsValid counted u × Same r u
  unfolding field_free
  free-added =
      let (u, run, valid, names, cells) =
        free-unused counted t q k (field_at k set) a.valid at_q refl refl in
      (
        u,
        run,
        valid,
        record {
          cells = λ x. ground (arith, cells x, a.cells x, a.unused);
          names = λ j. ground (arith, names j, a.names j, other_name j, eq_iff k j);
        },
      )

  find-added : find t k ≡ q
  find-added = ground (arith, a.names k, eq_refl k)

module _ {J : JudySl} (nstralloc : ℕ → String → ℕ → Nstr) (emits : Field → Bool)
    (emits_all : Registry J Field → Bool) (replies : (f : Field) → emits f ≡ true) where
  abbrev run_mode : Mode → Registry J Field → Params → Option (ℕ × Registry J Field)
  run_mode = field_mode nstralloc emits emits_all

  -- The deletion of a field that was just added.
  del_added :
      (r t : Registry J Field) (p : Params) (q : ℕ)
      → IsValid counted r
      → IsCreated r p.name p.offt p.len p.mask q t
      → (u : Registry J Field) × (run_mode parse_del t p ≡ some (p.err_cnt, u))
        × IsValid counted u
        × Same r u
  unfolding field_mode removed
  del_added r t p q v c =
      let (u, run, valid, same) = free-added r t v c.key q c.set c.added c.unused in
      (
        u,
        rw
            (
              c.named_so,
              find-added r t v c.key q c.set c.added c.unused,
              at_q r t v c.key q c.set c.added c.unused,
              replies (field_at c.key c.set),
              ne-test q (added-ne r t v c.key q c.set c.added c.unused),
              run,
            )
            refl,
        valid,
        same,
      )

  -- Where no name dangles, replies can be written and there is memory for the copy of the name, an
  -- `add` of a field
  -- returns. Either it counts one more error and changes no field; or it counts none and adds the
  -- field that was asked for, and a `del` of the same command then counts no error and makes every
  -- field and every name as they were before.
  pub field_mode-del_add :
      (r : Registry J Field) (p : Params)
      → IsValid counted r
      → ((k : String) → nstralloc r.next k max_line_len ≢ no_string)
      → ((k j : String) → nstralloc r.next k max_line_len ≡ whole j → j ≡ k)
      → (n : ℕ) × (s : Registry J Field) × (field_mode nstralloc emits emits_all parse_add r p
          ≡ some (n, s))
        × ((n ≡ p.err_cnt + 1) × IsValid counted s × Same r s
            ⊎ (n ≡ p.err_cnt)
              × ((q : ℕ) × IsCreated r p.name p.offt p.len p.mask q s)
              × (t : Registry J Field) × (field_mode nstralloc emits emits_all parse_del s p
                  ≡ some (p.err_cnt, t))
              × IsValid counted t
              × Same r t)
  unfolding field_mode replied
  field_mode-del_add r p v memory copy =
      let (q, t, run, result) =
        field_new_cases nstralloc r p.name p.offt p.len p.mask v memory copy in
      elim result [
        | inl (null, valid, same) ↦ (p.err_cnt + 1, t, rw (run, null) refl, inl (refl, valid, same))
        | inr c ↦
            let (u, deleted, valid, same) = del_added r t p q v c in
            (
              p.err_cnt,
              t,
              rw
                  (
                    run,
                    ne-test q (added-ne r t v c.key q c.set c.added c.unused),
                    at_q r t v c.key q c.set c.added c.unused,
                    replies (field_at c.key c.set),
                  )
                  refl,
              inr (refl, (q, c), u, deleted, valid, same),
            )
      ]

module _ {J : JudySl} (r s : Registry J Field) where
  replied-same : (b : Bool) (n m : ℕ) → some (replied b n r) ≡ some (m, s) → s ≡ r
  unfolding replied
  replied-same true n m e = ground arith
  replied-same false n m e = ground arith

  module _ (nstralloc : ℕ → String → ℕ → Nstr) (emits : Field → Bool)
      (emits_all : Registry J Field → Bool) where
    found-same :
        (n m : ℕ) (o : Option Field)
        → (o >>= λ f. some (replied (emits f) n r)) ≡ some (m, s)
        → s ≡ r
    found-same n m none e = absurd (ground arith)
    found-same n m (some f) e = replied-same (emits f) n m e

    mode-same :
        (p : Params) (m : ℕ) (k : Option String)
        → p.name ≡ k
        → field_mode nstralloc emits emits_all parse_prn r p ≡ some (m, s)
        → s ≡ r
    unfolding field_mode
    mode-same p m none named e = absurd (ground arith)
    mode-same p m (some k) named e = elim (Bool-cases (str_eq "" k)) [
      | inl all ↦ replied-same (emits_all r) p.err_cnt m (ground arith)
      | inr one ↦ elim (Bool-cases (find r k == 0)) [
        | inl missing ↦ ground arith
        | inr there ↦ found-same p.err_cnt m (r.cell (find r k)) (ground arith)
      ]
    ]

    -- A `print` command changes no field, whatever its mapping says.
    pub field_parse-prn :
        (strtol : String → Option ℤ) (pairs : List (String × Node)) (m : ℕ)
        → field_parse nstralloc emits emits_all strtol parse_prn r pairs ≡ some (m, s)
        → s ≡ r
    unfolding field_parse
    field_parse-prn strtol pairs m e = elim (Option-cases (walk strtol pairs start)) [
      | inl crash ↦ absurd (ground arith)
      | inr ((true, p), ends) ↦ mode-same p m p.name refl (ground arith)
      | inr ((false, p), ends) ↦ ground arith
    ]
