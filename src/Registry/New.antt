-- ===== src/Registry/New.antt =====
-- A new object: allocated, given a value, published under its name, or discarded on an error.
use text.Mathlib.Text.{◌==◌ as str_eq}
use Prim.Native.String.{String}
use xdpacket.Base.{
  ℕ, suc, Bool, true, false, none, some, ◌≡◌, ◌≢◌, ◌⊎◌, inl, inr, refl, ap, ◌∙◌, arith, ◌==◌,
  if◌then◌else◌, Bool-cases,
}
use text.Mathlib.TextEquality.{eq_iff}
use xdpacket.Judy.{JudySl, js_insert}
use xdpacket.Judy.Laws.{js_get-empty, js_insert_succeeds, js_get-js_insert, js_get-js_insert_fail}
use xdpacket.Registry.{Counted, Registry, initial, grown, set_cell, alloc, find, free, publish}
use xdpacket.Registry.Laws.{IsValid, Same, free-unused}

-- A fresh address is not null.
pub suc-ne : (n : ℕ) → (suc n == 0) ≡ false
suc-ne n = ground arith

-- `s` is `r` with one more object `b` at the fresh address `p`, under no name yet.
pub record IsGrown {J : JudySl} {A : Type 0} (r : Registry J A) (p : ℕ) (b : A) (s : Registry J A)
    : Type 0 where
  pub address : p ≡ suc r.next
  pub next : s.next ≡ suc r.next
  pub cells : (q : ℕ) → s.cell q ≡ (if p == q then some b else r.cell q)
  pub names : (j : String) → find s j ≡ find r j

-- `s` is `r` with the object `b` added at a fresh address `p` under the name `k`.
pub record IsAdded {J : JudySl} {A : Type 0} (c : Counted A) (r : Registry J A) (k : String) (p : ℕ)
    (b : A) (s : Registry J A) : Type 0 where
  pub valid : IsValid c s
  pub unused : r.cell p ≡ none
  pub names : (j : String) → find s j ≡ (if str_eq k j then p else find r j)
  pub cells : (q : ℕ) → s.cell q ≡ (if p == q then some b else r.cell q)

pub initial-IsValid :
    {J : JudySl} {A : Type 0} (c : Counted A) (grants : ℕ → Bool)
    → IsValid c (initial {J = J} grants)
unfolding find
initial-IsValid {J} c grants = record {
  live = λ k. inl (js_get-empty J k);
  null = refl;
  fresh = λ p lt. refl;
}

module _ {J : JudySl} {A : Type 0} where
  -- An insertion into an array with room for it succeeds.
  pub publish_succeeds :
      (r : Registry J A) (k : String) (p : ℕ)
      → p ≢ 0
      → ((a : JudySl.Array J) → JudySl.jsli J a k ≢ none)
      → (t : Registry J A) × (publish r k p true ≡ (true, t))
  unfolding publish
  publish_succeeds r k p ne room =
      let (a, e) = js_insert_succeeds J r.js k p ne (room r.js) in (record r { js = a }, rw e refl)

  pub Same-refl : (r : Registry J A) → Same r r
  Same-refl r = record { cells = λ p. refl; names = λ k. refl }

  pub alloc_granted :
      (r : Registry J A) (a : A) → r.grants r.next ≡ true → alloc r a ≡ (suc r.next, grown r a)
  unfolding alloc
  alloc_granted r a granted = rw granted refl

  pub alloc_cases :
      (r : Registry J A) (a : A)
      → (s : Registry J A) × ((alloc r a ≡ (0, s)) × Same r s × (s.next ≡ suc r.next)
          ⊎ (alloc r a ≡ (suc r.next, s)) × IsGrown r (suc r.next) a s)
  unfolding alloc find
  alloc_cases r a = elim (Bool-cases (r.grants r.next)) [
    | inl granted ↦ (
      grown r a,
      inr (
        rw granted,
        record { address = refl; next = refl; cells = λ q. refl; names = λ j. refl },
      ),
    )
    | inr refused ↦ (
      record r { next = suc r.next },
      inl (rw refused, record { cells = λ p. refl; names = λ k. refl }, refl),
    )
  ]

  pub set_cell-IsGrown :
      (r s : Registry J A) (p : ℕ) (a b : A)
      → IsGrown r p a s
      → IsGrown r p b (set_cell s p (some b))
  unfolding find
  set_cell-IsGrown r s p a b g = record {
    address = g.address;
    next = g.next;
    cells = λ q. ground (arith, g.cells q);
    names = λ j. g.names j;
  }

module _ {J : JudySl} {A : Type 0} (c : Counted A) (r : Registry J A) (v : IsValid c r) where
  pub Same-IsValid : (s : Registry J A) → Same r s → s.next ≡ suc r.next → IsValid c s
  Same-IsValid s same e = record {
    live = λ k. elim (v.live k) [
      | inl missing ↦ inl (same.names k ∙ missing)
      | inr (a, at, bears) ↦ inr (a, ap s.cell (same.names k) ∙ same.cells (find r k) ∙ at, bears)
    ];
    null = same.cells 0 ∙ v.null;
    fresh = λ q lt. same.cells q ∙ v.fresh q (omega arith);
  }

  module _ (s : Registry J A) (p : ℕ) (b : A) (g : IsGrown r p b s) where
    -- No name stands for the fresh address.
    pub find-ne : (j : String) → find r j ≢ p
    find-ne j hit = elim (v.live j) [
      | inl missing ↦ absurd (omega (arith, g.address))
      | inr (a, at, bears) ↦ ground (arith, v.fresh p, g.address)
    ]

    pub IsGrown-IsValid : IsValid c s
    IsGrown-IsValid = record {
      live = λ k. elim (v.live k) [
        | inl missing ↦ inl (g.names k ∙ missing)
        | inr (a, at, bears) ↦
            inr (a, ground (arith, g.names k, g.cells (find s k), find-ne k), bears)
      ];
      null = ground (arith, g.cells 0, g.address, v.null);
      fresh = λ q lt. ground (arith, g.cells q, g.address, g.next, v.fresh q);
    }

    -- On an error the new object is freed, and the registry is as before.
    pub IsGrown-free :
        (k : String)
        → c.name b ≡ some k
        → c.refcnt b ≡ 0
        → (t : Registry J A) × (free c s p ≡ some t) × IsValid c t × Same r t
    IsGrown-free k bears unused =
        let (t, run, valid, names, cells) =
          free-unused c s p k b IsGrown-IsValid (ground (arith, g.cells p)) bears unused in
        (
          t,
          run,
          valid,
          record {
            cells = λ q. ground (arith, cells q, g.cells q, g.address, v.fresh q);
            names = λ j. ground (arith, names j, g.names j, find-ne j);
          },
        )

    IsAdded-names :
        (t : Registry J A) (k : String)
        → c.name b ≡ some k
        → ((q : ℕ) → t.cell q ≡ s.cell q)
        → t.next ≡ s.next
        → ((j : String) → find t j ≡ (if str_eq k j then p else find s j))
        → IsAdded c r k p b t
    IsAdded-names t k bears cells next names = record {
      valid = record {
        live = λ j. elim (Bool-cases (str_eq k j)) [
          | inl hit ↦ inr (
            b,
            ground (arith, names j, cells (find t j), g.cells (find t j)),
            ground (arith, eq_iff k j),
          )
          | inr miss ↦ elim (IsValid.live IsGrown-IsValid j) [
            | inl missing ↦ inl (ground (arith, names j))
            | inr (a, at, other) ↦ inr (a, ground (arith, names j, cells (find t j)), other)
          ]
        ];
        null = cells 0 ∙ IsValid.null IsGrown-IsValid;
        fresh = λ q lt. cells q ∙ IsValid.fresh IsGrown-IsValid q (omega (arith, next));
      };
      unused = v.fresh p (omega (arith, g.address));
      names = λ j. ground (arith, names j, g.names j);
      cells = λ q. cells q ∙ g.cells q;
    }

    publish_result :
        (k : String) (clobber : Bool) (result : Bool × JudySl.Array J)
        → c.name b ≡ some k
        → js_insert J s.js k p clobber ≡ result
        → (t : Registry J A) × ((publish s k p clobber ≡ (true, t)) × IsAdded c r k p b t
            ⊎ (publish s k p clobber ≡ (false, t)) × IsGrown r p b t)
    unfolding publish find
    publish_result k clobber (true, a) bears e = (
      record s { js = a },
      inl (
        rw e,
        IsAdded-names (record s { js = a }) k bears (λ q. refl) refl
            (λ j. js_get-js_insert J s.js a k j p clobber e),
      ),
    )
    publish_result k clobber (false, a) bears e = (
      record s { js = a },
      inr (
        rw e,
        record {
          address = g.address;
          next = g.next;
          cells = g.cells;
          names = λ j. js_get-js_insert_fail J s.js a k j p clobber e ∙ g.names j;
        },
      ),
    )

    -- Publishing it succeeds, or fails and changes no name.
    pub IsGrown-publish :
        (k : String) (clobber : Bool)
        → c.name b ≡ some k
        → (t : Registry J A) × ((publish s k p clobber ≡ (true, t)) × IsAdded c r k p b t
            ⊎ (publish s k p clobber ≡ (false, t)) × IsGrown r p b t)
    IsGrown-publish k clobber bears =
        publish_result k clobber (js_insert J s.js k p clobber) bears refl
