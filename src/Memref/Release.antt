-- ===== src/Memref/Release.antt =====
-- `memref_release` gives back one reference.
use Prim.Native.String.{String}
use xdpacket.Base.{
  ℕ, zero, suc, ◌+◌, ◌-◌, none, some, ◌≡◌, ◌≢◌, inl, inr, refl, ◌∙◌, arith, ◌==◌, Bool-cases,
  Option-cases,
}
use xdpacket.Judy.{JudySl}
use xdpacket.Registry.{Registry, set_cell, find, drop_ref, unpublish}
use xdpacket.Registry.Laws.{
  IsValid, Same, update-IsValid, find-unpublish, cell-unpublish, unpublish-IsValid,
}
use xdpacket.Registry.Accounts.{one_at}
use xdpacket.Memref.{Memref, counted, memref_is_value, discard, dropped, released, memref_release}
use xdpacket.Memref.Fresh.{release-used}
use xdpacket.Memref.Ledger.{
  IsShared, IsOwned, Entry, shared, owned, Ledger, Ledger-Same, Ledger-set, Ledger-unpublish,
  Ledger-free,
}

module _ {J : JudySl} (r : Registry J Memref) (held held' : ℕ → ℕ) (v : Ledger r held) where
  module _ (p : ℕ) (ne : p ≢ 0) (less : (q : ℕ) → held q ≡ held' q + one_at p q) (m : Memref)
      (at : r.cell p ≡ some m) where
    others : (q : ℕ) → p ≢ q → held' q ≡ held q
    others q other = ground (arith, less q)

    release-owned :
        IsOwned r p m (held p)
        → (s : Registry J Memref) × (memref_release r p ≡ some s) × Ledger s held'
    unfolding memref_release released
    release-owned o = (
      set_cell r p none,
      ground (arith, o.static),
      Ledger-free r p m held held' v at o.unlisted (ground (arith, less p, o.single)) others,
    )

    abbrev fewer : Memref
    fewer = record m { refcnt = m.refcnt - 1 }

    abbrev lowered : Registry J Memref
    lowered = set_cell r p (some fewer)

    lowered-IsValid : IsValid counted lowered
    lowered-IsValid = update-IsValid counted r p m fewer v.valid at refl

    lowered_name : (k : String) → find lowered k ≡ find r k
    unfolding find
    lowered_name k = refl

    -- The last count makes no difference to what is left.
    unpublish-Same : (k : String) → m.name ≡ some k → Same (unpublish r p k) (unpublish lowered p k)
    unpublish-Same k bears = record {
      cells = λ q. ground (
        arith,
        cell-unpublish counted lowered p k fewer lowered-IsValid (ground arith) bears q,
        cell-unpublish counted r p k m v.valid at bears q,
      );
      names = λ j. ground (
        arith,
        find-unpublish counted lowered p k fewer lowered-IsValid (ground arith) bears j,
        find-unpublish counted r p k m v.valid at bears j,
        lowered_name j,
      );
    }

    drops : IsShared m (held p) → memref_release r p ≡ dropped r p fewer
    unfolding drop_ref
    drops o =
        release-used r p m ne at o.global (ground (arith, o.counts, o.used))
        ∙ ground (arith, o.counts, o.used)

    release-shared :
        IsShared m (held p)
        → (s : Registry J Memref) × (memref_release r p ≡ some s) × Ledger s held'
    unfolding dropped discard
    release-shared o = elim (Bool-cases (held' p == 0)) [
      | inl last ↦ (
        unpublish lowered p o.key,
        drops o ∙ ground (arith, o.counts, o.named, less p),
        Ledger-Same (unpublish r p o.key) _ held' held' (unpublish-Same o.key o.named)
            (unpublish-IsValid counted lowered p o.key fewer lowered-IsValid (ground arith) o.named)
            (λ q. refl)
            (Ledger-unpublish r p o.key m held held' v at o.named (ground arith) others),
      )
      | inr more ↦ (
        lowered,
        drops o ∙ ground (arith, o.counts, less p),
        Ledger-set r p (m.refcnt - 1) m held held' v at
            record {
              global = unfold memref_is_value in o.global;
              counts = ground (arith, o.counts, less p);
              used = ground arith;
              key = o.key;
              named = o.named;
            }
            others,
      )
    ]

    release_entry :
        Entry r p m (held p)
        → (s : Registry J Memref) × (memref_release r p ≡ some s) × Ledger s held'
    release_entry (shared o) = release-shared o
    release_entry (owned o) = release-owned o

  -- A reference that is held can be given back, and nothing else changes hands.
  pub release-Ledger :
      (p : ℕ)
      → ((q : ℕ) → held q ≡ held' q + one_at p q)
      → (s : Registry J Memref) × (memref_release r p ≡ some s) × Ledger s held'
  release-Ledger zero less = (
    r,
    unfold memref_release in refl,
    Ledger-Same r r held held' record { cells = λ q. refl; names = λ k. refl } v.valid
        (λ q. ground (arith, less q)) v,
  )
  release-Ledger (suc p) less = elim (Option-cases (r.cell (suc p))) [
    | inl lost ↦ absurd (ground (arith, v.gone (suc p), less (suc p)))
    | inr (m, at) ↦ release_entry (suc p) (ground arith) less m at (v.entries (suc p) m at)
  ]
