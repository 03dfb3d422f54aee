-- ===== src/Process/Life/Queue.antt =====
-- The array of the sets of the routs, which `process_new` fills.
use mathlib.Core.List.{append_assoc, append-nil}
use xdpacket.Base.{
  ℕ, ◌+◌, Bool, true, false, Option, none, some, List, [], ◌∷◌, ◌++◌, ◌≡◌, ◌⊎◌, inl, inr, refl, sym,
  ◌∙◌, arith, Bool-cases,
}
use xdpacket.Rout.{RoutSet}
use xdpacket.Rout.Life.{Rout}
use xdpacket.Process.Life.{set_queued, sets_queued}

-- The sets of routs, in their order; a rout without one is passed over.
with_set : Option RoutSet → List RoutSet → List RoutSet
with_set none sets = sets
with_set (some set) sets = set ∷ sets

pub sets_of : List Rout → List RoutSet
sets_of [] = []
sets_of (rt ∷ rts) = with_set rt.set (sets_of rts)

-- Every set is in the array, unless an entry got no memory.
abbrev pub IsQueued : (ℕ → Bool) → List Rout → List RoutSet → Type 0
IsQueued entries rts sets = (sets ≡ sets_of rts) ⊎ (k : ℕ) × (entries k ≡ false)

set_queued-eq :
    (entry : Bool) (jq sets : List RoutSet) (a : Option RoutSet)
    → entry ≡ true
    → set_queued entry jq a ++ sets ≡ jq ++ with_set a sets
unfolding set_queued with_set
set_queued-eq entry jq sets none got = refl
set_queued-eq true jq sets (some set) got = append_assoc jq (set ∷ []) sets
set_queued-eq false jq sets (some set) got = absurd (ground arith)

queued_after :
    (entries : ℕ → Bool) (k : ℕ) (jq : List RoutSet) (rts : List Rout)
    → (sets_queued entries k jq rts ≡ jq ++ sets_of rts) ⊎ (j : ℕ) × (entries j ≡ false)
unfolding sets_queued sets_of
queued_after entries k jq [] = inl (sym (append-nil jq))
queued_after entries k jq (rt ∷ rts) =
    let rest = queued_after entries (k + 1) (set_queued (entries k) jq rt.set) rts in
    elim (Bool-cases (entries k)) [
      | inr failure ↦ inr (k, failure)
      | inl got ↦ elim rest [
        | inr failure ↦ inr failure
        | inl all ↦ inl (all ∙ set_queued-eq (entries k) jq (sets_of rts) rt.set got)
      ]
    ]

pub sets_queued-IsQueued :
    (entries : ℕ → Bool) (rts : List Rout) → IsQueued entries rts (sets_queued entries 0 [] rts)
sets_queued-IsQueued entries rts = queued_after entries 0 [] rts
