-- ===== src/Iface.antt =====
-- src/iface.c, the packet path: output through a socket, and the handler of an interface. `send` is
-- the system call, a parameter here.
pub mod Laws
pub mod Handler
mod Tests
use xdpacket.Base.{
  ℕ, suc, ◌+◌, ◌^◌, Bool, true, false, ◌&&◌, ◌||◌, not, Option, none, some, List, ◌∷◌, ℤ, pos,
  negsuc, ◌==◌, if◌then◌else◌, take, length, ◌>>=◌, u64,
}
use xdpacket.Memory.{Memory}
use xdpacket.Checksum.{
  Outcome, done, fault, chk_ok, chk_inval, chk_unsupported, chk_malformed, checksum,
}

-- The fields of `struct iface` that packets and handlers touch. A null handler is 0.
pub record Iface : Type 0 where
  pub fd : ℕ
  pub handler : ℕ
  pub context : ℕ
  pub count_in : ℕ
  pub count_out : ℕ
  pub count_checkfail : ℕ
  pub count_sockdrop : ℕ

-- The memory, the interfaces by address, and the frames handed to `send`, the last one first.
pub record World : Type 0 where
  pub mem : Memory
  pub iface : ℕ → Option Iface
  pub sent : List (ℕ × List ℕ)

abbrev pub set_iface : World → ℕ → Iface → World
set_iface w p i = record w { iface = λ q. if p == q then some i else w.iface q }

abbrev pub set_pkt : World → List ℕ → World
set_pkt w bytes = record w { mem = record w.mem { pkt = bytes } }

-- The `ssize_t` of `send`, compared with an unsigned length.
pub sent_all : ℤ → ℕ → Bool
sent_all (pos n) plen = n == plen
sent_all (negsuc n) plen = false

-- Whether the frame went out, and the world after it.
pub rejected : World → ℕ → Iface → Bool × World
rejected w p i = (false, set_iface w p (record i { count_checkfail = u64 (i.count_checkfail + 1) }))

-- `send_result` is what `send` returned for this frame.
pub transmitted : World → ℕ → Iface → ℕ → ℤ → Bool × World
transmitted w p i plen send_result =
    let w' = record w { sent = (i.fd, take plen w.mem.pkt) ∷ w.sent } in
    if sent_all send_result plen
    then (true, w')
    else (false, set_iface w' p (record i { count_sockdrop = u64 (i.count_sockdrop + 1) }))

-- `send k fd frame` is what the call returns after `k` earlier calls.
module _ (send : ℕ → ℕ → List ℕ → ℤ) where
  pub checked : World → ℕ → Iface → ℕ → Outcome → Option (Bool × World)
  checked w p i plen fault = none
  checked w p i plen (done chk_ok pkt) =
      some (transmitted (set_pkt w pkt) p i plen (send (length w.sent) i.fd (take plen pkt)))
  checked w p i plen (done chk_inval pkt) = some (rejected (set_pkt w pkt) p i)
  checked w p i plen (done chk_unsupported pkt) = some (rejected (set_pkt w pkt) p i)
  checked w p i plen (done chk_malformed pkt) = some (rejected (set_pkt w pkt) p i)

  -- `none` is a pointer to no interface, or an access outside the packet buffer.
  pub iface_output : World → ℕ → ℕ → Option (Bool × World)
  iface_output w p plen = w.iface p >>= λ i. checked w p i plen (checksum (some w.mem.pkt) plen)

-- Whether the handler was set, which the source returns as 0.
unfoldable pub iface_handler_register : Iface → ℕ → ℕ → Bool × Iface
iface_handler_register i handler context =
    if not (i.handler == 0) && (not (i.handler == handler) || not (i.context == context))
    then (false, i)
    else (true, record i { handler = handler; context = context })

unfoldable pub iface_handler_clear : Option Iface → ℕ → ℕ → Bool × Option Iface
iface_handler_clear none handler context = (false, none)
iface_handler_clear (some i) handler context =
    if i.handler == 0 || (not (i.handler == handler) || not (i.context == context))
    then (false, some i)
    else (true, some (record i { handler = 0; context = 0 }))
