-- ===== src/Process/Life/Clear.antt =====
-- The interface of a process that is gone sends it no packets: the handler is cleared.
use xdpacket.Base.{◌&&◌, ◌||◌, not, Bool, false, ◌⊎◌, some, ◌≡◌, inl, inr, arith, ◌==◌, Bool-cases}
use xdpacket.Judy.{JudySl}
use xdpacket.Registry.Accounts.{Recount}
use xdpacket.Iface.{Iface, iface_handler_clear}
use xdpacket.Rout.Life.{Net}
use xdpacket.Process.Life as Life
use xdpacket.Process.Life.{Device, Process, process_exec_at, cleared}

-- Whether packets of an interface go to this process.
abbrev handles : Iface → Process → Bool
handles i pc = (i.handler == process_exec_at) && (i.context == pc.rout_set_jq)

-- The interface of the process is there, and packets no longer go to the process; or it had none.
abbrev pub IsFree : {J : JudySl} → Process → Net J Device → Type 0
IsFree pc n =
    (pc.in_iface ≡ 0)
    ⊎ (d : Device) × (n.ifaces.cell pc.in_iface ≡ some d) × (handles d.iface pc ≡ false)

pub handles-cleared :
    (i : Iface) (pc : Process)
    → handles (cleared (iface_handler_clear (some i) process_exec_at pc.rout_set_jq).1 i) pc ≡ false
unfolding iface_handler_clear
handles-cleared i pc =
    elim (Bool-cases (
      i.handler == 0
      || (not (i.handler == process_exec_at) || not (i.context == pc.rout_set_jq)))) [
        | inl other ↦ rw other (ground arith)
        | inr mine ↦ rw mine (ground arith)
      ]

pub IsFree-Recount :
    {J : JudySl} (pc : Process) (n n' : Net J Device)
    → Recount Life.counted n.ifaces n'.ifaces
    → IsFree pc n
    → IsFree pc n'
IsFree-Recount pc n n' same (inl none_held) = inl none_held
IsFree-Recount pc n n' same (inr (d, at, free)) =
    let (k, there) = same.objects pc.in_iface d at in inr (record d { refcnt = k }, there, free)
