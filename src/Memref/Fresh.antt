-- ===== src/Memref/Fresh.antt =====
-- A new state, and its release.
use text.Mathlib.TextEquality.{eq_iff}
use text.Mathlib.TextPositions.{eq_refl}
use Prim.Native.String.{String}
use xdpacket.Base.{
  ℕ, ◌+◌, ◌<◌, ◌^◌, true, false, Option, some, ◌≡◌, ◌≢◌, ◌⊎◌, inl, inr, refl, ◌∙◌, arith,
}
use xdpacket.Base.Bits.{and_cleared}
use xdpacket.Judy.{JudySl}
use xdpacket.FieldSet.{FieldSet}
use xdpacket.Registry.{Registry, set_cell, find, free, take_ref, drop_ref, unpublish}
use xdpacket.Registry.Laws.{
  IsValid, Same, update-IsValid, find-unpublish, cell-unpublish, unpublish-IsValid,
}
use xdpacket.Registry.New.{IsGrown, IsAdded, IsGrown-free}
use xdpacket.Memref.{
  Memref, counted, memref_is_value, memref_state_eq, blank, discard, dropped, released,
  memref_release, die, taken,
}

-- A state with references, and room in the counter for one more.
pub record IsHeld (m : Memref) : Type 0 where
  pub global : memref_is_value m ≡ false
  pub used : m.refcnt ≢ 0
  pub room : m.refcnt + 1 < 2 ^ 32

abbrev pub state_at : String → FieldSet → Memref
state_at k set = record (blank set) { name = some k }

pub state_at-global : (k : String) (set : FieldSet) → memref_is_value (state_at k set) ≡ false
unfolding memref_is_value
state_at-global k set = ground (arith, and_cleared set.flags)

-- Its flag does not change with its counter.
pub global-take :
    (m : Memref) → memref_is_value m ≡ false → memref_is_value (take_ref counted m) ≡ false
unfolding memref_is_value take_ref
global-take m e = e

pub same_state : (a b : FieldSet) → a.len ≡ b.len → a.mask ≡ b.mask → memref_state_eq a b ≡ true
unfolding memref_state_eq
same_state a b len mask = ground arith

module _ {J : JudySl} where
  -- A state without references is freed as in `Registry`.
  pub release-unused :
      (r : Registry J Memref) (p : ℕ) (m : Memref)
      → r.cell p ≡ some m
      → memref_is_value m ≡ false
      → m.refcnt ≡ 0
      → memref_release r p ≡ free counted r p
  unfolding memref_release released discard free
  release-unused r p m at global unused = ground arith

  -- With references one is dropped first.
  pub release-used :
      (r : Registry J Memref) (p : ℕ) (m : Memref)
      → p ≢ 0
      → r.cell p ≡ some m
      → memref_is_value m ≡ false
      → m.refcnt ≢ 0
      → memref_release r p ≡ dropped r p (drop_ref counted m)
  unfolding memref_release released
  release-used r p m ne at global used = ground arith

module _ {J : JudySl} (r : Registry J Memref) (v : IsValid counted r) where
  abbrev pub Undone : ℕ → Registry J Memref → Type 0
  Undone p s =
      (t : Registry J Memref) × (memref_release s p ≡ some t) × IsValid counted t × Same r t

  -- Null and nothing changed, or a state of the same length and mask under the name; and then its
  -- release makes all as before.
  abbrev pub Got : FieldSet → String → Option (ℕ × Registry J Memref) → Type 0
  Got set k result =
      (p : ℕ) × (s : Registry J Memref) × (result ≡ some (p, s))
      × ((p ≡ 0) × IsValid counted s × Same r s
          ⊎ (p ≢ 0)
            × (find s k ≡ p)
            × ((m : Memref) × (s.cell p ≡ some m) × (memref_state_eq m.set set ≡ true))
            × Undone p s)

  pub die-Got :
      (set : FieldSet) (k j : String) (s : Registry J Memref) (p : ℕ)
      → IsGrown r p (state_at j set) s
      → Got set k (die s p)
  unfolding die
  die-Got set k j s p g =
      let (t, run, valid, same) = IsGrown-free counted r v s p (state_at j set) g j refl refl in
      (
        0,
        t,
        rw
            (
              release-unused s p (state_at j set) (ground (arith, g.cells p))
                  (state_at-global j set) refl,
              run,
            )
            refl,
        inl (refl, valid, same),
      )

  module _ (set : FieldSet) (k : String) (s : Registry J Memref) (p : ℕ)
      (a : IsAdded counted r k p (state_at k set) s) (ne : p ≢ 0) (none_yet : find r k ≡ 0) where
    abbrev fresh_state : Memref
    fresh_state = state_at k set

    abbrev shared : Registry J Memref
    shared = set_cell s p (some (take_ref counted fresh_state))

    abbrev unshared : Registry J Memref
    unshared = set_cell shared p (some fresh_state)

    at_p : s.cell p ≡ some fresh_state
    at_p = ground (arith, a.cells p)

    unshared-IsValid : IsValid counted unshared
    unfolding take_ref
    unshared-IsValid =
        update-IsValid counted shared p (take_ref counted fresh_state) fresh_state
          (update-IsValid counted s p fresh_state (take_ref counted fresh_state) a.valid at_p refl)
          (ground arith) refl

    names_same : (j : String) → find unshared j ≡ find s j
    unfolding find
    names_same j = refl

    shared_same : (j : String) → find shared j ≡ find s j
    unfolding find
    shared_same j = refl

    -- No other name stood for the address.
    other_name : (j : String) → find r j ≢ p
    other_name j hit = elim (v.live j) [
      | inl missing ↦ ground arith
      | inr (m, at, bears) ↦ ground (arith, a.unused)
    ]

    forgets : Same r (unpublish unshared p k)
    forgets = record {
      cells = λ q. ground (
        arith,
        cell-unpublish counted unshared p k fresh_state unshared-IsValid (ground arith) refl q,
        a.cells q,
        a.unused,
      );
      names = λ j. ground (
        arith,
        find-unpublish counted unshared p k fresh_state unshared-IsValid (ground arith) refl j,
        names_same j,
        a.names j,
        other_name j,
        eq_iff k j,
      );
    }

    drops : memref_release shared p ≡ some (unpublish unshared p k)
    unfolding dropped discard take_ref drop_ref
    drops =
        release-used shared p (take_ref counted fresh_state) ne (ground arith)
          (global-take fresh_state (state_at-global k set)) (ground arith)
        ∙ refl

    pub added-Got : Got set k (taken s p)
    unfolding taken take_ref
    added-Got = (
      p,
      shared,
      rw at_p refl,
      inr (
        ne,
        ground (arith, shared_same k, a.names k, eq_refl k),
        (take_ref counted fresh_state, ground arith, same_state _ set refl refl),
        (
          unpublish unshared p k,
          drops,
          unpublish-IsValid counted unshared p k fresh_state unshared-IsValid (ground arith) refl,
          forgets,
        ),
      ),
    )
