-- ===== src/Iface/Tests.antt =====
-- Handlers and an output that is refused.
use xdpacket.Base.{ℕ, Bool, true, false, some, List, [], ◌∷◌, ℤ, pos, ◌≡◌, ◌≢◌, ◌⊎◌, refl, arith}
use xdpacket.Checksum.Frame.Accepted.{checksum-short}
use xdpacket.Iface.{Iface, World, iface_output, iface_handler_register, iface_handler_clear}
use xdpacket.Iface.Laws.{Output, iface_output-Output}
use xdpacket.Iface.Handler.{iface_handler_exclusive}

abbrev wire : Iface
wire = record {
  fd = 3;
  handler = 0;
  context = 0;
  count_in = 0;
  count_out = 0;
  count_checkfail = 0;
  count_sockdrop = 0;
}

abbrev runt : World
runt = record {
  mem = record { pkt = 1 ∷ 2 ∷ 3 ∷ []; refs = λ r. [] };
  iface = λ p. some wire;
  sent = [];
}

abbrev takes_all : ℕ → ℕ → List ℕ → ℤ
takes_all n fd frame = pos 3

-- Too short a frame for `checksum`.
iface_output-Output_example :
    (ok : Bool) × (w' : World) × (iface_output takes_all runt 1 3 ≡ some (ok, w'))
    × Output takes_all runt 1 wire 3 ok w'
iface_output-Output_example =
    iface_output-Output takes_all runt 1 wire 3 refl
      (checksum-short (1 ∷ 2 ∷ 3 ∷ []) 3 (omega arith))

abbrev handler : ℕ
handler = 7

abbrev ours : ℕ
ours = 9

abbrev theirs : ℕ
theirs = 8

iface_handler_exclusive_example :
    (j : Iface) × (iface_handler_register wire handler ours ≡ (true, j))
    × ((handler ≡ handler)
          × (theirs ≡ ours)
          × (iface_handler_register j handler theirs ≡ (true, j))
          × (iface_handler_clear (some j) handler theirs
              ≡ (true, some (record wire { handler = 0; context = 0 })))
        ⊎ ((handler ≢ handler) ⊎ (theirs ≢ ours))
          × (iface_handler_register j handler theirs ≡ (false, j))
          × (iface_handler_clear (some j) handler theirs ≡ (false, some j)))
iface_handler_exclusive_example =
    iface_handler_exclusive wire handler ours handler theirs refl (ground arith)
