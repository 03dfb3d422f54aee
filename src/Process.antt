-- ===== src/Process.antt =====
-- The hot path of src/process.c and the receiver of src/iface.c: a packet goes to the first rule
-- that matches it.
pub mod First
pub mod Receive
pub mod Life
mod Tests
use xdpacket.Base.{
  ℕ, ◌+◌, ◌<◌, Bool, true, false, Option, none, some, List, [], ◌∷◌, ℤ, ◌==◌, if◌then◌else◌, ◌>>=◌,
  u64,
}
use xdpacket.Memory.{Memory}
use xdpacket.Iface.{Iface, World, set_iface, set_pkt, iface_output}
use xdpacket.Rout.{RoutSet, rout_set_match, rout_set_exec}

module _ (send : ℕ → ℕ → List ℕ → ℤ) where
  -- Output of a packet whose writes were done; the result of `iface_output` is not looked at.
  pub deliver : World → ℕ → ℕ → Option World
  deliver w p plen = iface_output send w p plen >>= λ r. some r.1

  pub matched : RoutSet → World → ℕ → Option World
  matched set w plen = rout_set_exec set w.mem plen >>= λ r.
      if r.0
      then deliver (record w { mem = r.1 }) set.if_out plen
      else some (record w { mem = r.1 })

  -- The rules with their counts, and the world after the packet.
  pub process_exec : List RoutSet → World → ℕ → Option (List RoutSet × World)
  process_exec [] w plen = some ([], w)
  process_exec (set ∷ sets) w plen = rout_set_match set w.mem plen >>= λ r.
      if r.0
      then (matched r.1 w plen >>= λ w'. some (r.1 ∷ sets, w'))
      else (process_exec sets w plen >>= λ rest. some (set ∷ rest.0, rest.1))

  -- What `recvfrom` gives: an error or no bytes, or the buffer, the number of bytes in it, and
  -- whether the packet was one of this host on its way out.
  pub data Received : Type 0 where
    nothing : Received
    received : (outgoing : Bool) (buf : List ℕ) (res : ℕ) → Received

  -- The world with the rules of each registered context. The one handler is `process_exec`.
  pub record Engine : Type 0 where
    pub world : World
    pub routs : ℕ → List RoutSet

  abbrev pub set_routs : Engine → ℕ → List RoutSet × World → Engine
  set_routs e c r = record { world = r.1; routs = λ d. if c == d then r.0 else e.routs d }

  pub handled : Engine → Iface → World → ℕ → Option Engine
  handled e i w res =
      if i.handler == 0
      then some (record e { world = w })
      else (process_exec (e.routs i.context) w res >>= λ r. some (set_routs e i.context r))

  -- Whether there was a packet, and the engine after it; `p` is the interface.
  pub iface_callback : Engine → ℕ → Received → Option (Bool × Engine)
  iface_callback e p nothing = some (false, e)
  iface_callback e p (received true buf res) = e.world.iface p >>= λ i. some (
    true,
    record e { world = set_iface e.world p (record i { count_out = u64 (i.count_out + 1) }) },
  )
  iface_callback e p (received false buf res) = e.world.iface p >>= λ i.
      handled e i (set_pkt (set_iface e.world p (record i { count_in = u64 (i.count_in + 1) })) buf)
        res
      >>= λ e'. some (true, e')
