-- ===== src/Process/Tests.antt =====
-- A process with two rules and a packet that only the second one matches.
use xdpacket.Base.{ℕ, some, none, List, [], ◌∷◌, ℤ, pos, ◌≡◌, refl, arith}
use xdpacket.FieldSet.{FieldSet, op_pkt_offset}
use xdpacket.Operations.{OpSet, resolve}
use xdpacket.Operations.Resolve.{IsSound}
use xdpacket.Checksum.Frame.Accepted.{checksum-short}
use xdpacket.Iface.{Iface, World}
use xdpacket.Rout.{RoutSet}
use xdpacket.Rout.Exec.{IsWritable}
use xdpacket.Process.{process_exec}
use xdpacket.Process.First.{AllRunnable, Handled, process_exec-Handled}
use xdpacket.Process.Receive.{AtMostOne, process_exec-sends_one}

abbrev byte_at : ℕ → FieldSet
byte_at offt = record { offt = pos offt; len = 1; mask = 0xff; flags = 0 }

-- Is the first byte that of the memref?
abbrev test : ℕ → OpSet
test r = record { set_to = byte_at 0; to = none; set_from = byte_at 0; from = some r }

-- Copy the memref's byte over the second byte.
abbrev mark : ℕ → OpSet
mark r = record { set_to = byte_at 1; to = none; set_from = byte_at 1; from = some r }

abbrev rule : ℕ → RoutSet
rule r = record { if_out = r; match_jq = test r ∷ []; write_jq = mark r ∷ []; count_match = 0 }

abbrev rules : List RoutSet
rules = rule 1 ∷ rule 2 ∷ []

abbrev wire : Iface
wire = record {
  fd = 3;
  handler = 0;
  context = 0;
  count_in = 0;
  count_out = 0;
  count_checkfail = 0;
  count_sockdrop = 0;
}

-- Memref 1 holds a 1, memref 2 a 2, and so on.
abbrev start : World
start = record {
  mem = record { pkt = 2 ∷ 0 ∷ []; refs = λ r. r ∷ [] };
  iface = λ p. some wire;
  sent = [];
}

abbrev takes_all : ℕ → ℕ → List ℕ → ℤ
takes_all n fd frame = pos 2

test-IsSound : (r : ℕ) → IsSound (test r) start.mem 2
test-IsSound r = record {
  held = omega arith;
  same_len = refl;
  to_ref = λ q e. absurd (ground arith);
  from_ref = λ q e. omega arith;
}

mark-IsWritable : (r : ℕ) → IsWritable (mark r) start.mem 2
unfolding resolve op_pkt_offset
mark-IsWritable r = record {
  sound = record {
    held = omega arith;
    same_len = refl;
    to_ref = λ q e. absurd (ground arith);
    from_ref = λ q e. omega arith;
  };
  free = λ n to from a. ground (arith, a.at_to, a.at_from);
}

rules-AllRunnable : AllRunnable rules start.mem 2
rules-AllRunnable = (
  ((test-IsSound 1, tt), (mark-IsWritable 1, tt)),
  (((test-IsSound 2, tt), (mark-IsWritable 2, tt)), tt),
)

process_exec-Handled_example :
    Handled takes_all rules start 2 (process_exec takes_all rules start 2)
process_exec-Handled_example = process_exec-Handled takes_all start 2 rules rules-AllRunnable

process_exec-sends_one_example :
    (after : List RoutSet) × (w' : World) × (process_exec takes_all rules start 2
      ≡ some (after, w'))
    × AtMostOne rules start 2 w'
process_exec-sends_one_example =
    process_exec-sends_one takes_all start 2 rules (λ above below set e. (wire, refl))
      (λ above below set out e writes. checksum-short out.pkt 2 (omega arith)) rules-AllRunnable
