-- ===== src/Registry/Accounts.antt =====
-- The books of a registry: who holds how many references to each object.
use Prim.Native.String.{String}
use xdpacket.Base.{
  ℕ, zero, suc, ◌+◌, ◌-◌, ◌^◌, ◌<◌, none, some, ◌≡◌, ◌≢◌, inl, inr, refl, ap, sym, ◌∙◌, arith, ◌==◌,
  if◌then◌else◌, u32, Bool-cases, Option-cases,
}
use xdpacket.Judy.{JudySl}
use xdpacket.Registry.{
  Counted, Registry, set_cell, find, take_ref, drop_ref, get, release, unpublish,
}
use xdpacket.Registry.Laws.{
  IsValid, Same, get_cases, update-IsValid, cell-unpublish, unpublish-IsValid,
}

-- One reference to `p`, and none if `p` is null.
abbrev pub one_at : ℕ → ℕ → ℕ
one_at p q = if p == 0 then 0 else if p == q then 1 else 0

-- Each object counts the references that are held, and nothing is held of an object that is gone.
pub record Accounts {J : JudySl} {A : Type 0} (c : Counted A) (r : Registry J A) (held : ℕ → ℕ)
    : Type 0 where
  pub valid : IsValid c r
  pub counts : (p : ℕ) (a : A) → r.cell p ≡ some a → c.refcnt a ≡ held p
  pub gone : (p : ℕ) → r.cell p ≡ none → held p ≡ 0

-- The same objects under the same names, with other counts at most.
pub record Recount {J : JudySl} {A : Type 0} (c : Counted A) (r s : Registry J A) : Type 0 where
  pub next : s.next ≡ r.next
  pub names : (k : String) → find s k ≡ find r k
  pub absent : (p : ℕ) → r.cell p ≡ none → s.cell p ≡ none
  pub objects :
      (p : ℕ) (a : A) → r.cell p ≡ some a → (n : ℕ) × (s.cell p ≡ some (c.with_refcnt a n))

module _ {J : JudySl} {A : Type 0} (c : Counted A) where
  pub Recount-refl : (r : Registry J A) → Recount c r r
  Recount-refl r = record {
    next = refl;
    names = λ k. refl;
    absent = λ p at. at;
    objects = λ p a at. (c.refcnt a, at ∙ ap some (sym (c.with_refcnt_self a)));
  }

  pub Recount-trans : (r s t : Registry J A) → Recount c r s → Recount c s t → Recount c r t
  Recount-trans r s t f g = record {
    next = g.next ∙ f.next;
    names = λ k. g.names k ∙ f.names k;
    absent = λ p at. g.absent p (f.absent p at);
    objects = λ p a at.
        let (n, at_s) = f.objects p a at in
        let (m, at_t) = g.objects p (c.with_refcnt a n) at_s in
        (m, at_t ∙ ap some (c.with_refcnt_twice a n m));
  }

  -- A new count for one object.
  Recount-set :
      (r : Registry J A) (p n : ℕ) (a : A)
      → r.cell p ≡ some a
      → Recount c r (set_cell r p (some (c.with_refcnt a n)))
  unfolding find
  Recount-set r p n a at = record {
    next = refl;
    names = λ k. refl;
    absent = λ q there. ground arith;
    objects = λ q b there. elim (Bool-cases (p == q)) [
      | inl hit ↦ (n, ground arith)
      | inr miss ↦ (c.refcnt b, ground (arith, c.with_refcnt_self b))
    ];
  }

  pub Accounts-ext :
      (r : Registry J A) (held held' : ℕ → ℕ)
      → ((q : ℕ) → held' q ≡ held q)
      → Accounts c r held
      → Accounts c r held'
  Accounts-ext r held held' same v = record {
    valid = v.valid;
    counts = λ p a at. v.counts p a at ∙ sym (same p);
    gone = λ p at. same p ∙ v.gone p at;
  }

  pub Accounts-Same :
      (r s : Registry J A) (held : ℕ → ℕ)
      → Same r s
      → IsValid c s
      → Accounts c r held
      → Accounts c s held
  Accounts-Same r s held same valid v = record {
    valid = valid;
    counts = λ p a at. v.counts p a (sym (same.cells p) ∙ at);
    gone = λ p at. v.gone p (sym (same.cells p) ∙ at);
  }

  Accounts-set :
      (r : Registry J A) (p n : ℕ) (a : A) (held held' : ℕ → ℕ)
      → Accounts c r held
      → r.cell p ≡ some a
      → held' p ≡ n
      → ((q : ℕ) → p ≢ q → held' q ≡ held q)
      → Accounts c (set_cell r p (some (c.with_refcnt a n))) held'
  Accounts-set r p n a held held' v at here there = record {
    valid = update-IsValid c r p a (c.with_refcnt a n) v.valid at (c.name-with_refcnt a n);
    counts = λ q b e. elim (Bool-cases (p == q)) [
      | inl hit ↦ ground (arith, c.refcnt-with_refcnt a n)
      | inr miss ↦ ground (arith, v.counts q b, there q)
    ];
    gone = λ q e. elim (Bool-cases (p == q)) [
      | inl hit ↦ absurd (ground arith)
      | inr miss ↦ ground (arith, v.gone q, there q)
    ];
  }

  -- An object that nothing holds leaves the heap.
  pub unpublish-Accounts :
      (r : Registry J A) (p : ℕ) (k : String) (a : A) (held : ℕ → ℕ)
      → Accounts c r held
      → r.cell p ≡ some a
      → c.name a ≡ some k
      → held p ≡ 0
      → Accounts c (unpublish r p k) held
  unpublish-Accounts r p k a held v at bears unheld =
      let cells = cell-unpublish c r p k a v.valid at bears in
      record {
        valid = unpublish-IsValid c r p k a v.valid at bears;
        counts = λ q b e. ground (arith, cells q, v.counts q b);
        gone = λ q e. ground (arith, cells q, v.gone q);
      }

  -- `X_get` finds nothing and changes nothing, or it takes one reference.
  pub get-Accounts :
      (r : Registry J A) (k : String) (held held' : ℕ → ℕ)
      → Accounts c r held
      → ((q : ℕ) → held q + 1 < 2 ^ 32)
      → ((q : ℕ) → held' q ≡ held q + one_at (find r k) q)
      → (s : Registry J A) × (get c r k ≡ some (find r k, s)) × Accounts c s held' × Recount c r s
  get-Accounts r k held held' v room more = elim (get_cases c r k v.valid) [
    | inl (missing, run) ↦ (
      r,
      run ∙ ap (λ q. some (q, r)) (sym missing),
      Accounts-ext r held held' (λ q. more q ∙ ground arith) v,
      Recount-refl r,
    )
    | inr (a, at, there, bears, run, valid) ↦
        let n = u32 (c.refcnt a + 1) in
        (
          set_cell r (find r k) (some (c.with_refcnt a n)),
          run ∙ (unfold take_ref in refl),
          Accounts-set r (find r k) n a held held' v at
              (ground (arith, more (find r k), v.counts (find r k) a, room (find r k)))
              (λ q other. ground (arith, more q)),
          Recount-set r (find r k) n a at,
        )
  ]

  -- `X_release` gives one back.
  pub release-Accounts :
      (r : Registry J A) (p : ℕ) (held held' : ℕ → ℕ)
      → Accounts c r held
      → ((q : ℕ) → held q ≡ held' q + one_at p q)
      → (s : Registry J A) × (release c r p ≡ some s) × Accounts c s held' × Recount c r s
  unfolding release drop_ref
  release-Accounts r zero held held' v less =
      (r, refl, Accounts-ext r held held' (λ q. ground (arith, less q)) v, Recount-refl r)
  release-Accounts r (suc p) held held' v less = elim (Option-cases (r.cell (suc p))) [
    | inl lost ↦ absurd (ground (arith, v.gone (suc p), less (suc p)))
    | inr (a, at) ↦ (
      set_cell r (suc p) (some (c.with_refcnt a (c.refcnt a - 1))),
      ground (arith, v.counts (suc p) a, less (suc p)),
      Accounts-set r (suc p) (c.refcnt a - 1) a held held' v at
          (ground (arith, less (suc p), v.counts (suc p) a)) (λ q other. ground (arith, less q)),
      Recount-set r (suc p) (c.refcnt a - 1) a at,
    )
  ]
