-- ===== src/Process/Life.antt =====
-- src/process.c, the life cycle: a process holds its routs and a reference to the interface whose
-- handler it is. Judy's entry for it always has memory.
mod Clear
mod Laws
mod Queue
mod New
mod Tests
use Prim.Native.String.{String}
use xdpacket.Base.{
  ℕ, ◌+◌, Bool, true, false, not, Option, none, some, List, [], ◌∷◌, ◌++◌, refl, ◌==◌,
  if◌then◌else◌, ◌>>=◌,
}
use xdpacket.Judy.{JudySl}
use xdpacket.Registry.{Counted, Registry, set_cell, alloc, find, get, release, unpublish, publish}
use xdpacket.Iface.{Iface, iface_handler_register, iface_handler_clear}
use xdpacket.Rout.{RoutSet}
use xdpacket.Rout.Life.{Rout, Net, rout_free, iface_get, iface_release}

-- An interface with its name and count; `Iface` has its handler.
pub record Device : Type 0 where
  pub name : Option String
  pub refcnt : ℕ
  pub iface : Iface

abbrev pub counted : Counted Device
counted = record {
  name = λ a. a.name;
  refcnt = λ a. a.refcnt;
  with_refcnt = λ a n. record a { refcnt = n };
  refcnt-with_refcnt = λ a n. refl;
  name-with_refcnt = λ a n. refl;
  with_refcnt_twice = λ a n m. refl;
  with_refcnt_self = λ a. refl;
}

-- `struct process`. The array of sets stands at `rout_set_jq`, which the handler is given, and has
-- the entries `sets`.
pub record Process : Type 0 where
  pub in_iface : ℕ
  pub rout_jq : List Rout
  pub rout_set_jq : ℕ
  pub sets : List RoutSet

pub record Processes (J : JudySl) : Type 0 where
  pub net : Net J Device
  pub processes : Registry J Process

-- The address of `process_exec`.
abbrev pub process_exec_at : ℕ
process_exec_at = 1

-- A handler that is not this process's stays.
abbrev pub cleared : Option Iface → Iface → Iface
cleared none i = i
cleared (some i') i = i'

-- `jl_enqueue`, which refuses a null set, and fails without memory for the entry.
pub set_queued : Bool → List RoutSet → Option RoutSet → List RoutSet
set_queued entry jq none = jq
set_queued true jq (some set) = jq ++ (set ∷ [])
set_queued false jq (some set) = jq

-- JL_LOOP over the routs, the first of them at `k`. The result of `jl_enqueue` is not looked at.
pub sets_queued : (ℕ → Bool) → ℕ → List RoutSet → List Rout → List RoutSet
sets_queued entries k jq [] = jq
sets_queued entries k jq (rt ∷ rts) =
    sets_queued entries (k + 1) (set_queued (entries k) jq rt.set) rts

-- `entries` is which entries get memory.
abbrev pub unattached : (ℕ → Bool) → List Rout → ℕ → Process
unattached entries rts at = record {
  in_iface = 0;
  rout_jq = rts;
  rout_set_jq = at;
  sets = sets_queued entries 0 [] rts;
}

module _ {J : JudySl} where
  -- JL_LOOP with `rout_free`.
  pub process_release_refs : Net J Device → List Rout → Option (Net J Device)
  process_release_refs n [] = some n
  process_release_refs n (rt ∷ rts) = rout_free counted n rt >>= λ n'. process_release_refs n' rts

  abbrev pub with_iface : Net J Device → ℕ → Device → Iface → Net J Device
  with_iface n p d i = record n { ifaces = set_cell n.ifaces p (some (record d { iface = i })) }

  pub handler_cleared : Net J Device → Process → Device → Net J Device
  handler_cleared n pc d =
      with_iface n pc.in_iface d
        (cleared (iface_handler_clear (some d.iface) process_exec_at pc.rout_set_jq).1 d.iface)

  -- What `process_free` does with the interface, if there is one.
  pub detached : Processes J → ℕ → Process → Option (Processes J)
  detached e p pc =
      if pc.in_iface == 0
      then some (record e { processes = set_cell e.processes p none })
      else (e.net.ifaces.cell pc.in_iface >>= λ d.
          iface_release counted (Net.ifaces (handler_cleared e.net pc d)) pc.in_iface >>= λ i.
          d.name >>= λ k.
          some record { net = record e.net { ifaces = i }; processes = unpublish e.processes p k })

  pub process_free : Processes J → ℕ → Option (Processes J)
  process_free e p =
      if p == 0
      then some e
      else (e.processes.cell p >>= λ pc. detached e p pc >>= λ e'.
          process_release_refs e'.net pc.rout_jq >>= λ n. some (record e' { net = n }))

  die : Processes J → ℕ → Option (ℕ × Processes J)
  die e p = process_free e p >>= λ e'. some (0, e')

  -- From `iface_handler_register` on; the result of `js_insert` is not looked at.
  registered : Processes J → ℕ → Process → Device → Bool × Iface → Option (ℕ × Processes J)
  registered e p pc d (false, i) = die e p
  registered e p pc d (true, i) = d.name >>= λ k. some (
    p,
    record { net = with_iface e.net pc.in_iface d i; processes = (publish e.processes k p true).1 },
  )

  -- From `iface_get` on.
  attached : Processes J → ℕ → Process → String → Option (ℕ × Processes J)
  attached e p pc k = iface_get counted e.net.ifaces k >>= λ r.
      let pc' : Process = record pc { in_iface = r.0 } in
      let e' : Processes J = record {
        net = record e.net { ifaces = r.1 };
        processes = set_cell e.processes p (some pc');
      } in
      if r.0 == 0
      then die e' p
      else (e'.net.ifaces.cell r.0 >>= λ d.
          registered e' p pc' d (iface_handler_register d.iface process_exec_at pc'.rout_set_jq))

  named : Processes J → ℕ → Process → Option String → Option (ℕ × Processes J)
  named e p pc none = die e p
  named e p pc (some k) = if not (find e.processes k == 0) then die e p else attached e p pc k

  allocated :
      Net J Device → Process → Option String → ℕ × Registry J Process → Option (ℕ × Processes J)
  allocated n pc name (p, r) =
      if p == 0
      then (process_release_refs n pc.rout_jq >>= λ n'.
          some (0, record { net = n'; processes = r }))
      else named (record { net = n; processes = r }) p pc name

  -- The new process, or null; it takes charge of the routs. The array of their sets stands at `at`,
  -- and `entries` is which of its entries get memory.
  pub process_new :
      Processes J → Option String → List Rout → ℕ → (ℕ → Bool) → Option (ℕ × Processes J)
  process_new e name rts at entries =
      allocated e.net (unattached entries rts at) name
        (alloc e.processes (unattached entries rts at))
