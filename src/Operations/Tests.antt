-- ===== src/Operations/Tests.antt =====
-- The operations of test/op_test.c on its packets, the theorems there, and an overrun.
use xdpacket.Base.{ℕ, ◌≡◌, ◌↔◌, refl, arith, Bool, true, none, some, List, [], ◌∷◌, pos}
use xdpacket.Memory.{byte, packet, Memory, Ptr, peek, poke, copy, memcpy}
use xdpacket.FieldSet.{FieldSet, op_pkt_offset}
use xdpacket.Operations.{
  OpSet, out_len, resolve, span_of, common_of, op_common, match_span, op_match, last_byte,
  write_span, op_write,
}
use xdpacket.Operations.Resolve.{IsSound}
use xdpacket.Operations.Match.{IsMatch, op_match_decides}
use xdpacket.Operations.Write.{IsWritten, IsMerged, HasAreas, op_write_total}
use xdpacket.Operations.RoundTrip.{op_match-op_write}

abbrev field : ℕ → ℕ → ℕ → FieldSet
field offt len mask = record { offt = pos offt; len = len; mask = mask; flags = 0 }

abbrev memory : List ℕ → List ℕ → Memory
memory pkt bytes = record { pkt = pkt; refs = λ _. bytes }

-- `dst: {field: "dst mac multi"}, src: {value: "0xff"}`
abbrev set_multi : OpSet
set_multi = record { set_to = field 0 1 0x10; to = none; set_from = field 0 1 0x10; from = some 0 }

set_multi_run :
    op_write set_multi (memory (0x0a ∷ []) (0xff ∷ [])) 1
    ≡ some (true, memory (0x1a ∷ []) (0xff ∷ []))
unfolding op_write op_common out_len resolve common_of span_of write_span memcpy copy peek poke
    last_byte op_pkt_offset
set_multi_run = refl

-- `dst: {field: "mac src"}, src: {field: "mac dst"}`
abbrev reflect : OpSet
reflect = record { set_to = field 6 6 0xff; to = none; set_from = field 0 6 0xff; from = none }

abbrev frame : List ℕ
frame = 10 ∷ 0 ∷ 39 ∷ 0 ∷ 1 ∷ 2 ∷ 7 ∷ 7 ∷ 7 ∷ 7 ∷ 7 ∷ 7 ∷ []

reflect_run :
    op_write reflect (memory frame []) 12
    ≡ some (true, memory (10 ∷ 0 ∷ 39 ∷ 0 ∷ 1 ∷ 2 ∷ 10 ∷ 0 ∷ 39 ∷ 0 ∷ 1 ∷ 2 ∷ []) [])
unfolding op_write op_common out_len resolve common_of span_of write_span memcpy copy peek poke
    last_byte op_pkt_offset
reflect_run = refl

-- A zero-length operation touches no memory.
nop_run :
    op_match
      (record reflect { set_to = field 0 0 0xff; set_from = field 0 0 0xff })
      (memory [] [])
      0
    ≡ some true
unfolding op_match op_common out_len common_of match_span
nop_run = refl

reflect-IsSound : IsSound reflect (memory frame []) 12
reflect-IsSound = record {
  held = omega arith;
  same_len = refl;
  to_ref = λ r e. absurd (ground arith);
  from_ref = λ r e. absurd (ground arith);
}

abbrev at : ℕ → Ptr
at i = record { place = packet; off = i }

reflect-HasAreas : HasAreas reflect 12 5 (at 6) (at 0)
unfolding resolve op_pkt_offset
reflect-HasAreas = record { len = refl; at_to = refl; at_from = refl }

op_match_decides_example :
    (b : Bool) × (op_match reflect (memory frame []) 12 ≡ some b)
    × ((b ≡ true) ↔ IsMatch reflect (memory frame []) 12)
op_match_decides_example = op_match_decides reflect (memory frame []) 12 reflect-IsSound

op_write_total_example :
    (out : Memory) × (op_write reflect (memory frame []) 12 ≡ some (true, out))
    × IsWritten reflect (memory frame []) 5 (at 6) (at 0) out
    × IsMerged reflect 7 2 (byte out packet 11)
op_write_total_example =
    op_write_total reflect (memory frame []) 12 5 (at 6) (at 0) reflect-IsSound reflect-HasAreas
      (omega arith) refl

op_match-op_write_example :
    (out : Memory) × (op_write reflect (memory frame []) 12 ≡ some (true, out))
    × (op_match reflect out 12 ≡ some true)
op_match-op_write_example =
    op_match-op_write reflect (memory frame []) 12 5 0xff (at 6) (at 0) reflect-IsSound
      reflect-HasAreas refl refl refl (omega arith)

-- `dst` is the last byte of the packet, `src` its first six.
abbrev overrun : OpSet
overrun = record { set_to = field 11 1 0xff; to = none; set_from = field 0 6 0xff; from = none }
