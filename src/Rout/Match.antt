-- ===== src/Rout/Match.antt =====
-- A rule matches when all its operations match.
use xdpacket.Base.{
  ℕ, Bool, true, false, some, List, [], ◌∷◌, ◌≡◌, ◌↔◌, refl, arith, ◌⊎◌, inl, inr, Bool-cases,
}
use xdpacket.Memory.{Memory}
use xdpacket.Operations.{OpSet, op_match}
use xdpacket.Operations.Resolve.{IsSound}
use xdpacket.Operations.Match.{IsMatch, op_match_decides}
use xdpacket.Rout.{RoutSet, match_loop, counted, rout_set_match}

abbrev pub AllSound : List OpSet → Memory → ℕ → Type 0
AllSound [] m plen = Unit {0}
AllSound (op ∷ ops) m plen = IsSound op m plen × AllSound ops m plen

abbrev pub AllMatch : List OpSet → Memory → ℕ → Type 0
AllMatch [] m plen = Unit {0}
AllMatch (op ∷ ops) m plen = IsMatch op m plen × AllMatch ops m plen

module _ (m : Memory) (plen : ℕ) where
  match_loop_cons :
      (op : OpSet) (ops : List OpSet) (hit rest : Bool)
      → op_match op m plen ≡ some hit
      → ((hit ≡ true) ↔ IsMatch op m plen)
      → match_loop ops m plen ≡ some rest
      → ((rest ≡ true) ↔ AllMatch ops m plen)
      → (b : Bool) × (match_loop (op ∷ ops) m plen ≡ some b)
        × ((b ≡ true) ↔ AllMatch (op ∷ ops) m plen)
  unfolding match_loop
  match_loop_cons op ops true rest run iff run' iff' =
      (rest, rw run run', ((λ e. (iff.0 refl, iff'.0 e)), λ a. iff'.1 a.1))
  match_loop_cons op ops false rest run iff run' iff' =
      (false, rw run refl, ((λ e. cc), λ a. iff.1 a.0))

  pub match_loop_decides :
      (ops : List OpSet)
      → AllSound ops m plen
      → (b : Bool) × (match_loop ops m plen ≡ some b) × ((b ≡ true) ↔ AllMatch ops m plen)
  unfolding match_loop
  match_loop_decides [] sound = (true, refl, ((λ _. tt), λ _. refl))
  match_loop_decides (op ∷ ops) sound =
      let (hit, run, iff) = op_match_decides op m plen sound.0 in
      let (rest, run', iff') = match_loop_decides ops sound.1 in
      match_loop_cons op ops hit rest run iff run' iff'

-- `rout_set_match` returns whether all operations match, and counts a match modulo 2 ^ 32.
pub rout_set_match_decides :
    (set : RoutSet) (m : Memory) (plen : ℕ)
    → AllSound set.match_jq m plen
    → (AllMatch set.match_jq m plen × (rout_set_match set m plen ≡ some (true, counted set)))
      ⊎ (¬ AllMatch set.match_jq m plen × (rout_set_match set m plen ≡ some (false, set)))
unfolding rout_set_match
rout_set_match_decides set m plen sound =
    let (b, run, iff) = match_loop_decides m plen set.match_jq sound in
    elim (Bool-cases b) [
      | inl hit ↦ inl (iff.0 hit, rw (run, hit) refl)
      | inr miss ↦ inr ((λ a. ground (arith, iff.1 a)), rw (run, miss) refl)
    ]
