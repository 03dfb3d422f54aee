-- ===== src/Registry.antt =====
-- What field.c, rule.c, iface.c and process.c share: objects on the heap, a Judy array from names
-- to them, and the reference counts of include/refcnt.h. A use of an object that was freed is a
-- fault, `none`.
pub mod Laws
pub mod New
pub mod Accounts
use Prim.Native.String.{String}
use xdpacket.Base.{
  ℕ, zero, suc, ◌+◌, ◌-◌, ◌%◌, ◌^◌, ◌<◌, Bool, true, false, not, Option, none, some, ◌≡◌, ◌⊎◌, ◌==◌,
  if◌then◌else◌, ◌>>=◌, u32,
}
use xdpacket.Judy.{JudySl, js_get, js_insert, js_delete}

-- An object with a name, which may not be set yet, and a reference count.
pub record Counted (A : Type 0) : Type 0 where
  pub name : A → Option String
  pub refcnt : A → ℕ
  pub with_refcnt : A → ℕ → A
  pub refcnt-with_refcnt : (a : A) (n : ℕ) → refcnt (with_refcnt a n) ≡ n
  pub name-with_refcnt : (a : A) (n : ℕ) → name (with_refcnt a n) ≡ name a
  pub with_refcnt_twice : (a : A) (n m : ℕ) → with_refcnt (with_refcnt a n) m ≡ with_refcnt a m
  pub with_refcnt_self : (a : A) → with_refcnt a (refcnt a) ≡ a

-- `next` counts the allocations so far, `grants n` says whether the allocation after `n` others
-- succeeds, and `js` is the array of names.
pub record Registry (J : JudySl) (A : Type 0) : Type 0 where
  pub next : ℕ
  pub grants : ℕ → Bool
  pub cell : ℕ → Option A
  pub js : J.Array

-- The state at the start: a null array and no objects.
abbrev pub initial : {J : JudySl} {A : Type 0} → (ℕ → Bool) → Registry J A
initial {J} grants = record { next = 0; grants = grants; cell = λ p. none; js = J.empty }

module _ {J : JudySl} {A : Type 0} where
  abbrev pub set_cell : Registry J A → ℕ → Option A → Registry J A
  set_cell r p o = record r { cell = λ q. if p == q then o else r.cell q }

  abbrev pub grown : Registry J A → A → Registry J A
  grown r a = record r {
    next = suc r.next;
    cell = λ q. if suc r.next == q then some a else r.cell q;
  }

  -- `calloc` and the stores behind it: the pointer, or null.
  unfoldable pub alloc : Registry J A → A → ℕ × Registry J A
  alloc r a =
      if r.grants r.next then (suc r.next, grown r a) else (0, record r { next = suc r.next })

  unfoldable pub find : Registry J A → String → ℕ
  find r k = js_get J r.js k

  -- The end of `X_free`: out of the array, if it is this object that stands there, and off the heap.
  unfoldable pub unpublish : Registry J A → ℕ → String → Registry J A
  unpublish r p k =
      if js_get J r.js k == p
      then record r { js = js_delete J r.js k; cell = λ q. if p == q then none else r.cell q }
      else set_cell r p none

  -- `js_insert(&X_JS, x->name, x, clobber)`
  unfoldable pub publish : Registry J A → String → ℕ → Bool → Bool × Registry J A
  publish r k p clobber =
      let (done, js') = js_insert J r.js k p clobber in (done, record r { js = js' })

module _ {A : Type 0} (c : Counted A) where
  -- refcnt_take
  unfoldable pub take_ref : A → A
  take_ref a = c.with_refcnt a (u32 (c.refcnt a + 1))

  -- refcnt_release
  unfoldable pub drop_ref : A → A
  drop_ref a = if c.refcnt a == 0 then a else c.with_refcnt a (c.refcnt a - 1)

module _ {J : JudySl} {A : Type 0} (c : Counted A) where
  -- `X_get`: the pointer, or null.
  unfoldable pub get : Registry J A → String → Option (ℕ × Registry J A)
  unfolding find
  get r k =
      if find r k == 0
      then some (0, r)
      else (r.cell (find r k) >>= λ a. some (find r k, set_cell r (find r k) (some (take_ref c a))))

  -- `X_release`
  unfoldable pub release : Registry J A → ℕ → Option (Registry J A)
  release r p =
      if p == 0 then some r else (r.cell p >>= λ a. some (set_cell r p (some (drop_ref c a))))

  -- `X_free`
  unfoldable pub free : Registry J A → ℕ → Option (Registry J A)
  unfolding unpublish
  free r p =
      if p == 0
      then some r
      else (r.cell p >>= λ a.
          if c.refcnt a == 0 then (c.name a >>= λ k. some (unpublish r p k)) else some r)
