-- ===== src/Rout/Exec.antt =====
-- What the writes of a rule do to a packet, one after the other.
use xdpacket.Base.{
  ℕ, suc, ◌<◌, Bool, true, false, none, some, List, [], ◌∷◌, ◌≡◌, ◌⊎◌, refl, arith, length,
}
use xdpacket.Memory.{Place, Memory, Ptr, region, apart}
use xdpacket.Operations.{OpSet, resolve}
use xdpacket.Operations.Resolve.{IsSound, outside, empty, areas, op_common-Found}
use xdpacket.Operations.Write.{IsWritten, HasAreas, op_write-IsWritten, op_write-bad, op_write-nop}
use xdpacket.Rout.{RoutSet, write_loop, rout_set_exec}

-- An operation that may be written: its areas are inside their arrays and do not overlap.
pub record IsWritable (op : OpSet) (m : Memory) (plen : ℕ) : Type 0 where
  pub sound : IsSound op m plen
  pub free : (n : ℕ) (to from : Ptr) → HasAreas op plen n to from → apart to from (suc n) ≡ true

abbrev pub AllWritable : List OpSet → Memory → ℕ → Type 0
AllWritable [] m plen = Unit {0}
AllWritable (op ∷ ops) m plen = IsWritable op m plen × AllWritable ops m plen

-- The writes of a list in turn, up to the first one that has no room in the packet. The flag says
-- whether all were done.
pub data Writes (plen : ℕ) : List OpSet → Memory → Bool → Memory → Type 0 where
  all_done : (m : Memory) → Writes plen [] m true m
  nothing :
      (op : OpSet) (ops : List OpSet) (m out : Memory) (ok : Bool)
      → op.set_to.len ≡ 0
      → Writes plen ops m ok out
      → Writes plen (op ∷ ops) m ok out
  write :
      (op : OpSet) (ops : List OpSet) (m mid out : Memory) (ok : Bool) (n : ℕ) (to from : Ptr)
      → HasAreas op plen n to from
      → IsWritten op m n to from mid
      → Writes plen ops mid ok out
      → Writes plen (op ∷ ops) m ok out
  no_room :
      (op : OpSet) (ops : List OpSet) (m : Memory)
      → 0 < op.set_to.len
      → (resolve plen op.to op.set_to ≡ none) ⊎ (resolve plen op.from op.set_from ≡ none)
      → Writes plen (op ∷ ops) m false m

module _ (plen : ℕ) (m mid : Memory)
    (same : (q : Place) → length (region mid q) ≡ length (region m q)) where
  IsWritable-same : (op : OpSet) → IsWritable op m plen → IsWritable op mid plen
  IsWritable-same op w = record {
    sound = record {
      held = omega (arith, w.sound.held, same Place.packet);
      same_len = w.sound.same_len;
      to_ref = λ r e. omega (arith, w.sound.to_ref r e, same (Place.memref r));
      from_ref = λ r e. omega (arith, w.sound.from_ref r e, same (Place.memref r));
    };
    free = w.free;
  }

  AllWritable-same : (ops : List OpSet) → AllWritable ops m plen → AllWritable ops mid plen
  AllWritable-same [] w = tt
  AllWritable-same (op ∷ ops) w = (IsWritable-same op w.0, AllWritable-same ops w.1)

abbrev Result : ℕ → List OpSet → Memory → Type 0
Result plen ops m =
    (ok : Bool) × (out : Memory) × (write_loop ops m plen ≡ some (ok, out))
    × Writes plen ops m ok out

-- The loop returns, without leaving an array, and does the writes in turn.
pub write_loop_total :
    (plen : ℕ) (ops : List OpSet) (m : Memory) → AllWritable ops m plen → Result plen ops m
unfolding write_loop
write_loop_total plen [] m all = (true, m, refl, all_done m)
write_loop_total plen (op ∷ ops) m all = elim (op_common-Found op m plen all.0.sound) [
  | outside run long missing ↦
      (false, m, rw (op_write-bad op m plen run) refl, no_room op ops m long missing)
  | empty run none_long ↦
      let (ok, out, rest, writes) = write_loop_total plen ops m all.1 in
      (ok, out, rw (op_write-nop op m plen run) rest, nothing op ops m out ok none_long writes)
  | areas n to from run len at_to at_from holds_to holds_from ↦
      let here : HasAreas op plen n to from = record {
        len = len;
        at_to = at_to;
        at_from = at_from;
      } in
      let (mid, run', w) =
        op_write-IsWritten op m plen n to from all.0.sound here (all.0.free n to from here) in
      let (ok, out, rest, writes) =
        write_loop_total plen ops mid (AllWritable-same plen m mid w.same_length ops all.1) in
      (ok, out, rw run' rest, write op ops m mid out ok n to from here w writes)
]

module _ (set : RoutSet) (m : Memory) (plen : ℕ) where
  -- `rout_set_exec` returns: it does the writes in turn, and stops at the first that has no room.
  pub rout_set_exec_total :
      AllWritable set.write_jq m plen
      → (ok : Bool) × (out : Memory) × (rout_set_exec set m plen ≡ some (ok, out))
        × Writes plen set.write_jq m ok out
  unfolding rout_set_exec
  rout_set_exec_total all = write_loop_total plen set.write_jq m all
