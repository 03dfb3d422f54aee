-- ===== src/Registry/Laws.antt =====
-- The registry never holds a dangling name, and what each operation does to lookups and objects.
use text.Mathlib.TextEquality.{eq_iff}
use text.Mathlib.TextPositions.{eq_refl}
use mathlib.Core.Path.{subst}
use Prim.Native.String.{String}
use xdpacket.Base.{
  ℕ, ◌+◌, ◌-◌, ◌^◌, ◌<◌, Option, none, some, ◌≡◌, ◌≢◌, ◌⊎◌, inl, inr, refl, ◌∙◌, arith, ◌==◌,
  if◌then◌else◌, u32, Bool-cases, ==_iff,
}
use xdpacket.Judy.{JudySl, js_get}
use xdpacket.Judy.Laws.{js_get-js_delete}
use xdpacket.Registry.{
  Counted, Registry, set_cell, find, take_ref, drop_ref, get, release, unpublish, free,
}

-- A name stands for nothing, or for a live object that bears it.
abbrev pub Named : {A : Type 0} → Counted A → (ℕ → Option A) → ℕ → String → Type 0
Named {A} c cell p k = (p ≡ 0) ⊎ ((a : A) × (cell p ≡ some a) × (c.name a ≡ some k))

-- Every name stands for nothing or for a live object that bears it; nothing lives at null or at an
-- address that was not handed out yet.
pub record IsValid {J : JudySl} {A : Type 0} (c : Counted A) (r : Registry J A) : Type 0 where
  pub live : (k : String) → Named c r.cell (find r k) k
  pub null : r.cell 0 ≡ none
  pub fresh : (p : ℕ) → r.next < p → r.cell p ≡ none

-- The same objects, under the same names.
pub record Same {J : JudySl} {A : Type 0} (r s : Registry J A) : Type 0 where
  pub cells : (p : ℕ) → s.cell p ≡ r.cell p
  pub names : (k : String) → find s k ≡ find r k

module _ {A : Type 0} (c : Counted A) (cell : ℕ → Option A) where
  -- A new value of an object keeps the names if it keeps its own.
  pub Named-update :
      (p q : ℕ) (k : String) (a b : A)
      → cell p ≡ some a
      → c.name b ≡ c.name a
      → Named c cell q k
      → Named c (λ i. if p == i then some b else cell i) q k
  Named-update p q k a b at same (inl e) = inl e
  Named-update p q k a b at same (inr (d, there, bears)) = elim (Bool-cases (p == q)) [
    | inl hit ↦ inr (b, rw hit, ground arith)
    | inr miss ↦ inr (d, rw miss there, bears)
  ]

  -- Taking an object off the heap keeps the names of the others.
  pub Named-remove :
      (p q : ℕ) (k : String)
      → p ≢ q
      → Named c cell q k
      → Named c (λ i. if p == i then none else cell i) q k
  Named-remove p q k ne (inl e) = inl e
  Named-remove p q k ne (inr (d, there, bears)) = inr (d, ground arith, bears)

  -- An object under two names bears both.
  name_unique :
      (p : ℕ) (k j : String) (a : A)
      → cell p ≡ some a
      → c.name a ≡ some k
      → p ≢ 0
      → Named c cell p j
      → k ≡ j
  name_unique p k j a at bears ne (inl e) = absurd (ne e)
  name_unique p k j a at bears ne (inr (d, there, other)) = ground arith

module _ {A : Type 0} (c : Counted A) where
  take_ref-name : (a : A) → c.name (take_ref c a) ≡ c.name a
  unfolding take_ref
  take_ref-name a = c.name-with_refcnt a _

  drop_ref-name : (a : A) → c.name (drop_ref c a) ≡ c.name a
  unfolding drop_ref
  drop_ref-name a = ground (arith, c.name-with_refcnt a (c.refcnt a - 1))

  pub drop-take : (a : A) → c.refcnt a + 1 < 2 ^ 32 → drop_ref c (take_ref c a) ≡ a
  unfolding drop_ref take_ref
  drop-take a small = ground (
    arith,
    c.refcnt-with_refcnt a (u32 (c.refcnt a + 1)),
    c.with_refcnt_twice a (u32 (c.refcnt a + 1)) (u32 (c.refcnt a + 1) - 1),
    c.with_refcnt_self a,
  )

module _ {J : JudySl} {A : Type 0} (c : Counted A) where
  -- A change of the counter alone keeps the registry valid.
  pub update-IsValid :
      (r : Registry J A) (p : ℕ) (a b : A)
      → IsValid c r
      → r.cell p ≡ some a
      → c.name b ≡ c.name a
      → IsValid c (set_cell r p (some b))
  unfolding find
  update-IsValid r p a b v at same = record {
    live = λ k. Named-update c r.cell p (find r k) k a b at same (v.live k);
    null = ground (arith, v.null);
    fresh = λ q lt. ground (arith, v.fresh q lt);
  }

  -- `X_get` finds the object under the name and counts one more reference, or finds none and
  -- changes nothing; the registry stays valid, and no live name is a fault.
  pub get_cases :
      (r : Registry J A) (k : String)
      → IsValid c r
      → (find r k ≡ 0) × (get c r k ≡ some (0, r))
        ⊎ (a : A) × (r.cell (find r k) ≡ some a)
          × (find r k ≢ 0)
          × (c.name a ≡ some k)
          × (get c r k ≡ some (find r k, set_cell r (find r k) (some (take_ref c a))))
          × IsValid c (set_cell r (find r k) (some (take_ref c a)))
  unfolding get
  get_cases r k v = elim (Bool-cases (find r k == 0)) [
    | inl missing ↦ inl (ground arith, rw missing)
    | inr there ↦ elim (v.live k) [
      | inl e ↦ absurd (ground arith)
      | inr (a, at, bears) ↦ inr (
        a,
        at,
        ground arith,
        bears,
        rw (there, at),
        update-IsValid r (find r k) a (take_ref c a) v at (take_ref-name c a),
      )
    ]
  ]

  -- `X_release` drops a reference of a live object.
  pub release_live :
      (r : Registry J A) (p : ℕ) (a : A)
      → IsValid c r
      → r.cell p ≡ some a
      → (release c r p ≡ some (set_cell r p (some (drop_ref c a))))
        × IsValid c (set_cell r p (some (drop_ref c a)))
  unfolding release
  release_live r p a v at =
      (ground (arith, v.null), update-IsValid r p a (drop_ref c a) v at (drop_ref-name c a))

  -- On a registry without dangling names: what was taken by `X_get` is given back by `X_release`: the same objects with the same counts,
  -- as long as the 32-bit count does not wrap around.
  pub release-get :
      (r : Registry J A) (k : String) (a : A)
      → IsValid c r
      → find r k ≢ 0
      → r.cell (find r k) ≡ some a
      → c.refcnt a + 1 < 2 ^ 32
      → (s : Registry J A) × (get c r k ≡ some (find r k, s))
        × (t : Registry J A) × (release c s (find r k) ≡ some t)
        × Same r t
  unfolding get release
  release-get r k a v there at small = (
    set_cell r (find r k) (some (take_ref c a)),
    ground arith,
    set_cell (set_cell r (find r k) (some (take_ref c a))) (find r k)
        (some (drop_ref c (take_ref c a))),
    ground arith,
    record { cells = λ p. ground (arith, drop-take c a small); names = λ j. unfold find in refl },
  )

  -- An object in use is not freed.
  pub free-in_use :
      (r : Registry J A) (p : ℕ) (a : A) → r.cell p ≡ some a → c.refcnt a ≢ 0 → free c r p ≡ some r
  unfolding free
  free-in_use r p a at used = ground arith

  module _ (r : Registry J A) (p : ℕ) (k : String) (a : A) (v : IsValid c r)
      (at : r.cell p ≡ some a) (bears : c.name a ≡ some k) where
    not_null : p ≢ 0
    not_null = ground (arith, v.null)

    -- The object leaves every name that stood for it, and no other name changes.
    pub find-unpublish :
        (j : String) → find (unpublish r p k) j ≡ (if find r j == p then 0 else find r j)
    unfolding find unpublish
    find-unpublish j = elim (Bool-cases (js_get J r.js j == p)) [
      | inl hit ↦
          let same : k ≡ j =
            name_unique c r.cell p k j a at bears not_null
              (subst (λ q. Named c r.cell q j) ((==_iff _ _).0 hit) (unfold find in v.live j)) in
          ground (arith, js_get-js_delete J r.js k j, same, eq_refl j)
      | inr miss ↦ ground (arith, js_get-js_delete J r.js k j, eq_iff k j)
    ]

    pub cell-unpublish : (q : ℕ) → (unpublish r p k).cell q ≡ (if p == q then none else r.cell q)
    unfolding unpublish
    cell-unpublish q = ground arith

    next-unpublish : (unpublish r p k).next ≡ r.next
    unfolding unpublish
    next-unpublish = ground arith

    live-unpublish : (j : String) → Named c (unpublish r p k).cell (find (unpublish r p k) j) j
    live-unpublish j = elim (Bool-cases (find r j == p)) [
      | inl hit ↦ inl (find-unpublish j ∙ rw hit)
      | inr miss ↦ elim (v.live j) [
        | inl e ↦ inl (ground (arith, find-unpublish j))
        | inr (d, there, other) ↦
            inr (
              d,
              cell-unpublish (find (unpublish r p k) j) ∙ ground (arith, find-unpublish j),
              other,
            )
      ]
    ]

    pub unpublish-IsValid : IsValid c (unpublish r p k)
    unpublish-IsValid = record {
      live = live-unpublish;
      null = ground (arith, cell-unpublish 0, v.null);
      fresh = λ q lt. ground (arith, cell-unpublish q, v.fresh q, next-unpublish);
    }

    frees : c.refcnt a ≡ 0 → free c r p ≡ some (unpublish r p k)
    unfolding free
    frees unused = ground (arith, not_null)

    -- On a registry without dangling names, a live object with a name that is not in use is freed: it and every name of it are gone, all else stays, and
    -- the registry stays valid.
    pub free-unused :
        c.refcnt a ≡ 0
        → (s : Registry J A) × (free c r p ≡ some s)
          × IsValid c s
          × ((j : String) → find s j ≡ (if find r j == p then 0 else find r j))
          × ((q : ℕ) → s.cell q ≡ (if p == q then none else r.cell q))
    free-unused unused =
        (unpublish r p k, frees unused, unpublish-IsValid, find-unpublish, cell-unpublish)
