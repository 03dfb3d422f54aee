-- ===== src/Process/Receive.antt =====
-- What a received packet does to the interface that it came from, and how many frames leave for it.
use xdpacket.Base.{ℕ, true, Option, some, List, ◌∷◌, ◌++◌, ℤ, ◌≡◌, ◌≢◌, refl, ◌∙◌, take}
use xdpacket.Memory.{Memory}
use xdpacket.Checksum.{done, fault, chk_ok, checksum}
use xdpacket.Iface.{Iface, World}
use xdpacket.Iface.Laws.{refused, sent_whole, cut_short, iface_output-Output}
use xdpacket.Rout.{RoutSet, counted}
use xdpacket.Rout.Match.{AllMatch}
use xdpacket.Rout.Exec.{Writes}
use xdpacket.Process.{process_exec}
use xdpacket.Process.First.{
  AllRunnable, NoneMatch, Handled, unmatched, dropped, output, process_exec-Handled,
}

-- Nothing left, or one frame that `checksum` accepted, on the output of a rule that matches.
pub data AtMostOne (sets : List RoutSet) (w : World) (plen : ℕ) (w' : World) : Type 0 where
  no_frame : w'.sent ≡ w.sent → AtMostOne sets w plen w'
  one_frame :
      (above below : List RoutSet) (set : RoutSet) (i : Iface) (out : Memory) (pkt : List ℕ)
      → sets ≡ above ++ set ∷ below
      → NoneMatch above w.mem plen
      → AllMatch set.match_jq w.mem plen
      → Writes plen set.write_jq w.mem true out
      → w.iface set.if_out ≡ some i
      → checksum (some out.pkt) plen ≡ done chk_ok pkt
      → w'.sent ≡ (i.fd, take plen pkt) ∷ w.sent
      → AtMostOne sets w plen w'

module _ (send : ℕ → ℕ → List ℕ → ℤ) (w : World) (plen : ℕ) (sets : List RoutSet)
    (alive : (above below : List RoutSet) (set : RoutSet)
      → sets ≡ above ++ set ∷ below
      → (i : Iface) × (w.iface set.if_out ≡ some i))
    (inside : (above below : List RoutSet) (set : RoutSet) (out : Memory)
      → sets ≡ above ++ set ∷ below
      → Writes plen set.write_jq w.mem true out
      → checksum (some out.pkt) plen ≢ fault) where
  abbrev Sends : Option (List RoutSet × World) → Type 0
  Sends result =
      (after : List RoutSet) × (w' : World) × (result ≡ some (after, w')) × AtMostOne sets w plen w'

  Handled-Sends :
      (result : Option (List RoutSet × World)) → Handled send sets w plen result → Sends result
  Handled-Sends result (unmatched none_hit run) = (sets, w, run, no_frame refl)
  Handled-Sends result (dropped above below set out split none_hit match writes run) =
      (above ++ counted set ∷ below, record w { mem = out }, run, no_frame refl)
  Handled-Sends result (output above below set out split none_hit match writes run) =
      let (i, at) = alive above below set split in
      let (ok, w', sent, how) =
        iface_output-Output send (record w { mem = out }) set.if_out i plen at
          (inside above below set out split writes) in
      (
        above ++ counted set ∷ below,
        w',
        run ∙ rw sent refl,
        elim how [
          | refused err pkt e bad failed same count other ↦ no_frame same
          | sent_whole pkt e took went more count other ↦
              one_frame above below set i out pkt split none_hit match writes at e more
          | cut_short pkt e took went more count other ↦
              one_frame above below set i out pkt split none_hit match writes at e more
        ],
      )

  -- Where the operations stay inside their arrays, no write overlaps its source, the outputs of the
  -- rules exist, and the checksums stay inside the packet, `process_exec` returns, and
  -- hands at most one frame to a socket: the packet as the first rule that matches left it, if all
  -- writes of that rule were done and `checksum` accepts the result, with the checksums filled in.
  pub process_exec-sends_one :
      AllRunnable sets w.mem plen
      → (after : List RoutSet) × (w' : World) × (process_exec send sets w plen ≡ some (after, w'))
        × AtMostOne sets w plen w'
  process_exec-sends_one runs =
      Handled-Sends (process_exec send sets w plen) (process_exec-Handled send w plen sets runs)
