-- ===== src/Memref/Take.antt =====
-- `memref_state_get` and `memref_value_new` take one reference, or none.
use Prim.Native.String.{String}
use xdpacket.Base.{
  ℕ, suc, ◌+◌, ◌^◌, ◌<◌, false, Option, some, ◌≡◌, ◌≢◌, ◌⊎◌, inl, inr, refl, sym, ◌∙◌, arith, ◌==◌,
  u32, Bool-cases, length-zeros,
}
use xdpacket.Judy.{JudySl}
use xdpacket.FieldSet.{FieldSet}
use xdpacket.Registry.{Registry, set_cell, alloc, find, take_ref, publish}
use xdpacket.Registry.Laws.{IsValid, Same, update-IsValid}
use xdpacket.Registry.New.{
  IsGrown, IsAdded, Same-refl, alloc_cases, set_cell-IsGrown, Same-IsValid, IsGrown-free,
  IsGrown-publish, suc-ne,
}
use xdpacket.Registry.Accounts.{one_at}
use xdpacket.Field.{Nstr, no_string, truncated, whole, max_line_len}
use xdpacket.Memref.{
  Memref, counted, memref_is_value, memref_state_eq, blank, taken, die, published, named, allocated,
  memref_state_get,
}
use xdpacket.Memref.Fresh.{state_at, state_at-global, release-unused}
use xdpacket.Memref.Ledger.{shared, owned, Ledger, Ledger-Same, Ledger-set, Entry-move}

-- Every memref is still there, with another count at most.
abbrev pub Keeps : {J : JudySl} → Registry J Memref → Registry J Memref → Type 0
Keeps r s =
    (q : ℕ) (m : Memref) → r.cell q ≡ some m → (n : ℕ) × (s.cell q ≡ some (record m { refcnt = n }))

-- One reference more is held, to a memref as long as the field that is what was wanted; or the
-- pointer is null.
pub record Took {J : JudySl} (r s : Registry J Memref) (set : FieldSet) (held : ℕ → ℕ)
    (want : Memref → Type 0) (p : ℕ) : Type 0 where
  pub ledger : Ledger s (λ q. held q + one_at p q)
  pub gives : (p ≡ 0) ⊎ ((m : Memref) × (s.cell p ≡ some m) × (m.set.len ≡ set.len) × want m)
  pub keeps : Keeps r s

abbrev pub Takes :
    {J : JudySl}
    → Registry J Memref
    → FieldSet
    → (ℕ → ℕ)
    → (Memref → Type 0)
    → Option (ℕ × Registry J Memref)
    → Type 0
Takes {J} r set held want result =
    (p : ℕ) × (s : Registry J Memref) × (result ≡ some (p, s)) × Took r s set held want p

-- A state of this name.
abbrev pub IsStateOf : String → Memref → Type 0
IsStateOf k m = (m.name ≡ some k) × (memref_is_value m ≡ false)

module _ {J : JudySl} (r : Registry J Memref) (set : FieldSet) (held : ℕ → ℕ)
    (v : Ledger r held) where
  -- On an error nothing is held.
  pub null-Took :
      {want : Memref → Type 0} (s : Registry J Memref)
      → Same r s
      → IsValid counted s
      → Took r s set held want 0
  null-Took s same valid = record {
    ledger = Ledger-Same r s held (λ q. held q + one_at 0 q) same valid (λ q. omega arith) v;
    gives = inl refl;
    keeps = λ q m at. (m.refcnt, same.cells q ∙ at);
  }

  die-Takes :
      {want : Memref → Type 0} (s : Registry J Memref) (p : ℕ) (j : String)
      → IsGrown r p (state_at j set) s
      → Takes r set held want (die s p)
  unfolding die
  die-Takes s p j g =
      let (t, run, valid, same) =
        IsGrown-free counted r v.valid s p (state_at j set) g j refl refl in
      (
        0,
        t,
        rw
            (
              release-unused s p (state_at j set) (ground (arith, g.cells p))
                  (state_at-global j set) refl,
              run,
            )
            refl,
        null-Took t same valid,
      )

  -- A state that is there already.
  existing-Took :
      (p : ℕ) (m : Memref) (k : String)
      → r.cell p ≡ some m
      → find r k ≡ p
      → m.name ≡ some k
      → p ≢ 0
      → held p + 1 < 2 ^ 32
      → m.set.len ≡ set.len
      → Took r (set_cell r p (some (take_ref counted m))) set held (IsStateOf k) p
  unfolding take_ref memref_is_value
  existing-Took p m k at listed bears ne room same = elim (v.entries p m at) [
    | owned o ↦ absurd (o.unlisted k listed)
    | shared o ↦ record {
      ledger =
          Ledger-set r p (u32 (m.refcnt + 1)) m held (λ q. held q + one_at p q) v at
            record {
              global = o.global;
              counts = ground (arith, o.counts);
              used = ground arith;
              key = o.key;
              named = o.named;
            }
            (λ q other. ground arith);
      gives = inr (record m { refcnt = u32 (m.refcnt + 1) }, ground arith, same, (bears, o.global));
      keeps = λ q b there. elim (Bool-cases (p == q)) [
        | inl hit ↦ (u32 (m.refcnt + 1), ground arith)
        | inr miss ↦ (b.refcnt, ground arith)
      ];
    }
  ]

  -- A state that is new, with its first reference.
  added-Took :
      (k : String) (s : Registry J Memref) (p : ℕ)
      → IsAdded counted r k p (state_at k set) s
      → p ≢ 0
      → Took r (set_cell s p (some (take_ref counted (state_at k set)))) set held (IsStateOf k) p
  unfolding take_ref find memref_is_value
  added-Took k s p a ne = record {
    ledger = record {
      valid =
          update-IsValid counted s p (state_at k set) (take_ref counted (state_at k set)) a.valid
            (ground (arith, a.cells p)) refl;
      entries = λ q b e. elim (Bool-cases (p == q)) [
        | inl hit ↦
            let same : record (state_at k set) { refcnt = 1 } ≡ b = ground arith in
            let same_p : p ≡ q = ground arith in
            rw (sym same, sym same_p)
              (shared record {
                global = state_at-global k set;
                counts = ground (arith, v.gone p a.unused);
                used = ground arith;
                key = k;
                named = refl;
              })
        | inr miss ↦
            Entry-move r _ q b (held q) _ (ground arith) (λ j hit. (j, ground (arith, a.names j)))
              (v.entries q b (ground (arith, a.cells q)))
      ];
      bytes = λ q b e. ground (arith, a.cells q, v.bytes q b, length-zeros set.len);
      gone = λ q e. ground (arith, a.cells q, v.gone q);
    };
    gives =
        inr (
          record (state_at k set) { refcnt = 1 },
          ground arith,
          refl,
          (refl, state_at-global k set),
        );
    keeps = λ q m at. (m.refcnt, ground (arith, a.cells q, a.unused));
  }

  published-Takes :
      (k : String) (s : Registry J Memref) (p : ℕ)
      → IsGrown r p (state_at k set) s
      → Takes r set held (IsStateOf k) (published p (publish s k p false))
  unfolding published taken
  published-Takes k s p g =
      let (t, result) = IsGrown-publish counted r v.valid s p (state_at k set) g k false refl in
      elim result [
        | inl (run, added) ↦ (
          p,
          set_cell t p (some (take_ref counted (state_at k set))),
          rw (run, added.cells p) (ground arith),
          added-Took k t p added (ground (arith, g.address)),
        )
        | inr (run, still) ↦ rw run (die-Takes t p k still)
      ]

  named-Takes :
      (k : String) (s : Registry J Memref) (p : ℕ) (str : Nstr)
      → IsGrown r p (blank set) s
      → str ≢ no_string
      → ((j : String) → str ≡ whole j → j ≡ k)
      → Takes r set held (IsStateOf k) (named s p set str)
  unfolding named
  named-Takes k s p no_string g memory copy = absurd (memory refl)
  named-Takes k s p (truncated j) g memory copy =
      die-Takes _ p j (set_cell-IsGrown r s p (blank set) (state_at j set) g)
  named-Takes k s p (whole j) g memory copy =
      rw (copy j refl)
        (published-Takes k _ p (set_cell-IsGrown r s p (blank set) (state_at k set) g))

  allocated-Takes :
      (k : String) (str : Nstr)
      → str ≢ no_string
      → ((j : String) → str ≡ whole j → j ≡ k)
      → Takes r set held (IsStateOf k) (allocated set str (alloc r (blank set)))
  unfolding allocated
  allocated-Takes k str memory copy =
      let (s, result) = alloc_cases r (blank set) in
      elim result [
        | inl (run, same, next) ↦
            rw run (0, s, refl, null-Took s same (Same-IsValid counted r v.valid s same next))
        | inr (run, grown) ↦
            rw (run, suc-ne r.next) (named-Takes k s (suc r.next) str grown memory copy)
      ]

  -- `memref_state_get` on a field takes a reference to a state of its length, or gives null and
  -- changes nothing.
  pub memref_state_get-Takes :
      (nstralloc : ℕ → String → ℕ → Nstr) (k : String)
      → ((q : ℕ) → held q + 1 < 2 ^ 32)
      → nstralloc r.next k max_line_len ≢ no_string
      → ((j : String) → nstralloc r.next k max_line_len ≡ whole j → j ≡ k)
      → Takes r set held (IsStateOf k) (memref_state_get nstralloc r (some set) (some k))
  unfolding memref_state_get memref_state_eq taken
  memref_state_get-Takes nstralloc k room memory copy = elim (Bool-cases (find r k == 0)) [
    | inl none_yet ↦ rw none_yet (allocated-Takes k (nstralloc r.next k max_line_len) memory copy)
    | inr there ↦ elim (v.valid.live k) [
      | inl missing ↦ absurd (ground arith)
      | inr (m, at, bears) ↦ elim (Bool-cases (memref_state_eq m.set set)) [
        | inl same ↦ (
          find r k,
          set_cell r (find r k) (some (take_ref counted m)),
          rw (there, at, same) refl,
          existing-Took (find r k) m k at refl bears (ground arith) (room (find r k))
              (ground arith),
        )
        | inr other ↦ (0, r, rw (there, at, other) refl, null-Took r (Same-refl r) v.valid)
      ]
    ]
  ]
