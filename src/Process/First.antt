-- ===== src/Process/First.antt =====
-- The first rule that matches a packet gets it, and no other.
use xdpacket.Base.{
  ℕ, Bool, true, false, Option, some, List, [], ◌∷◌, ◌++◌, ℤ, ◌≡◌, inl, inr, refl, ap, ◌>>=◌,
  chain_assoc,
}
use xdpacket.Memory.{Memory}
use xdpacket.Iface.{World, iface_output}
use xdpacket.Rout.{RoutSet, counted, rout_set_exec}
use xdpacket.Rout.Match.{AllSound, AllMatch, rout_set_match_decides}
use xdpacket.Rout.Exec.{AllWritable, Writes, rout_set_exec_total}
use xdpacket.Process.{deliver, matched, process_exec}

-- The operations of all rules stay inside their arrays.
abbrev pub AllRunnable : List RoutSet → Memory → ℕ → Type 0
AllRunnable [] m plen = Unit {0}
AllRunnable (set ∷ sets) m plen =
    (AllSound set.match_jq m plen × AllWritable set.write_jq m plen) × AllRunnable sets m plen

abbrev pub NoneMatch : List RoutSet → Memory → ℕ → Type 0
NoneMatch [] m plen = Unit {0}
NoneMatch (set ∷ sets) m plen = ¬ AllMatch set.match_jq m plen × NoneMatch sets m plen

-- What became of a packet: it matched no rule; or some rule is the first that it matches, and it is
-- counted there. Then the writes of the rule were done, up to the first that has no room. If one
-- has none the packet is dropped; else it is output, mangled, on the interface of the rule.
pub data Handled (send : ℕ → ℕ → List ℕ → ℤ) (sets : List RoutSet) (w : World) (plen : ℕ)
    (result : Option (List RoutSet × World)) : Type 0 where
  unmatched : NoneMatch sets w.mem plen → result ≡ some (sets, w) → Handled send sets w plen result
  dropped :
      (above below : List RoutSet) (set : RoutSet) (out : Memory)
      → sets ≡ above ++ set ∷ below
      → NoneMatch above w.mem plen
      → AllMatch set.match_jq w.mem plen
      → Writes plen set.write_jq w.mem false out
      → result ≡ some (above ++ counted set ∷ below, record w { mem = out })
      → Handled send sets w plen result
  output :
      (above below : List RoutSet) (set : RoutSet) (out : Memory)
      → sets ≡ above ++ set ∷ below
      → NoneMatch above w.mem plen
      → AllMatch set.match_jq w.mem plen
      → Writes plen set.write_jq w.mem true out
      → result ≡ (
          iface_output send (record w { mem = out }) set.if_out plen >>= λ r.
          some (above ++ counted set ∷ below, r.1))
      → Handled send sets w plen result

module _ (send : ℕ → ℕ → List ℕ → ℤ) (w : World) (plen : ℕ) where
  abbrev keep : RoutSet → List RoutSet × World → Option (List RoutSet × World)
  keep set rest = some (set ∷ rest.0, rest.1)

  -- A rule that does not match leaves the packet to the rules below it.
  pass_on :
      (set : RoutSet) (sets : List RoutSet) (result : Option (List RoutSet × World))
      → ¬ AllMatch set.match_jq w.mem plen
      → Handled send sets w plen result
      → Handled send (set ∷ sets) w plen (result >>= keep set)
  pass_on set sets result miss (unmatched none_hit run) = unmatched (miss, none_hit) (rw run refl)
  pass_on set sets result miss (dropped above below hit out split none_hit match writes run) =
      dropped (set ∷ above) below hit out (ap (λ s. set ∷ s) split) (miss, none_hit) match writes
        (rw run refl)
  pass_on set sets result miss (output above below hit out split none_hit match writes run) =
      output (set ∷ above) below hit out (ap (λ s. set ∷ s) split) (miss, none_hit) match writes
        (rw run (
          chain_assoc (iface_output send (record w { mem = out }) hit.if_out plen)
            (λ r. some (above ++ counted hit ∷ below, r.1)) (keep set)))

  matched-Handled :
      (set : RoutSet) (sets : List RoutSet) (ok : Bool) (out : Memory)
      → AllMatch set.match_jq w.mem plen
      → rout_set_exec (counted set) w.mem plen ≡ some (ok, out)
      → Writes plen set.write_jq w.mem ok out
      → Handled send
          (set ∷ sets)
          w
          plen
          (matched send (counted set) w plen >>= λ w'. some (counted set ∷ sets, w'))
  unfolding matched deliver
  matched-Handled set sets true out hit run writes = output [] sets set out refl tt hit writes (
      rw run (
        chain_assoc (iface_output send (record w { mem = out }) set.if_out plen) (λ r. some r.1)
          (λ w'. some (counted set ∷ sets, w'))))
  matched-Handled set sets false out hit run writes =
      dropped [] sets set out refl tt hit writes (rw run refl)

  -- Where the operations of all rules stay inside their arrays and no write overlaps its source,
  -- `process_exec` gives a packet to the first rule that matches it, if there is one; an operation of no
  -- bytes matches every packet. Only that rule counts it and writes to it, in the order of its writes.
  -- If a write had no room `process_exec` returns and the packet is dropped; if every write had room the
  -- result is that of `iface_output` on the interface of that rule, which may fail. No rule below sees
  -- the packet. On a packet that matches no rule `process_exec` returns and changes nothing.
  pub process_exec-Handled :
      (sets : List RoutSet)
      → AllRunnable sets w.mem plen
      → Handled send sets w plen (process_exec send sets w plen)
  unfolding process_exec
  process_exec-Handled [] runs = unmatched tt refl
  process_exec-Handled (set ∷ sets) runs = elim (rout_set_match_decides set w.mem plen runs.0.0) [
    | inl (hit, run) ↦
        let (ok, out, run', writes) = rout_set_exec_total (counted set) w.mem plen runs.0.1 in
        rw run (matched-Handled set sets ok out hit run' writes)
    | inr (miss, run) ↦ rw run (pass_on set sets _ miss (process_exec-Handled sets runs.1))
  ]
