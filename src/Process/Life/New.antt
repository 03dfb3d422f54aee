-- ===== src/Process/Life/New.antt =====
-- `process_new` takes charge of the routs, whether a process comes into being or not.
use Prim.Native.String.{String}
use xdpacket.Base.{
  Bool, ℕ, suc, ◌+◌, ◌<◌, ◌^◌, true, false, not, ◌&&◌, ◌||◌, Option, none, some, List, ◌≡◌, ◌≢◌,
  ◌⊎◌, inl, inr, refl, ap, ◌∙◌, arith, ◌==◌, ◌>>=◌, Bool-cases, Option-cases,
}
use xdpacket.Judy.{JudySl}
use xdpacket.Registry.{Registry, set_cell, alloc, grown, find, publish}
use xdpacket.Registry.New.{suc-ne}
use xdpacket.Registry.Accounts.{one_at, get-Accounts}
use xdpacket.Op.{Op}
use xdpacket.Iface.{Iface, iface_handler_register}
use xdpacket.Rout.Life.{Rout}
use xdpacket.Process.Life.Queue.{IsQueued, sets_queued-IsQueued}
use xdpacket.Process.Life as Life
use xdpacket.Process.Life.{
  Device, Process, Processes, set_queued, sets_queued, process_exec_at, process_release_refs,
  with_iface, process_free, die, registered, attached, named, unattached, allocated, process_new,
}
use xdpacket.Process.Life.Laws.{
  routs_rules, routs_outputs, Held, Held-ext, names_Recount, release_refs-Held, with_iface-Held,
  iface_live, process_free-Held,
}

register_cases :
    (i : Iface) (handler context : ℕ)
    → (iface_handler_register i handler context ≡ (false, i))
      ⊎ (iface_handler_register i handler context
          ≡ (true, record i { handler = handler; context = context }))
unfolding iface_handler_register
register_cases i handler context =
    elim (Bool-cases
      (not (i.handler == 0) && (not (i.handler == handler) || not (i.context == context)))) [
        | inl refused ↦ inl (rw refused refl)
        | inr fine ↦ inr (rw fine refl)
      ]

-- A process at `p` that holds its routs and the interface of this name among `start`, whose handler
-- it is with the sets of its routs.
pub record IsAttached {J : JudySl} (drafts : List Op) (rules ifaces : ℕ → ℕ) (rts : List Rout)
    (sets : ℕ) (entries : ℕ → Bool) (start : Registry J Device) (name : Option String) (p : ℕ)
    (e : Processes J) : Type 0 where
  pub process : Process
  pub device : Device
  pub there : e.processes.cell p ≡ some process
  pub routs : process.rout_jq ≡ rts
  pub queue : IsQueued entries rts process.sets
  pub queue_at : process.rout_set_jq ≡ sets
  pub key : String
  pub named : name ≡ some key
  pub in_iface : process.in_iface ≡ find start key
  pub on : e.net.ifaces.cell process.in_iface ≡ some device
  pub handler : device.iface.handler ≡ process_exec_at
  pub context : device.iface.context ≡ sets
  pub books :
      Held e.net drafts
        (λ q. rules q + routs_rules rts q)
        (λ q. ifaces q + routs_outputs rts q + one_at process.in_iface q)

abbrev pub Creates :
    {J : JudySl}
    → List Op
    → (ℕ → ℕ)
    → (ℕ → ℕ)
    → List Rout
    → ℕ
    → (ℕ → Bool)
    → Registry J Device
    → Option String
    → Option (ℕ × Processes J)
    → Type 0
Creates {J} drafts rules ifaces rts sets entries start name result =
    (p : ℕ) × (e : Processes J) × (result ≡ some (p, e))
    × ((p ≡ 0) × Held e.net drafts rules ifaces
        ⊎ IsAttached drafts rules ifaces rts sets entries start name p e)

module _ {J : JudySl} (drafts : List Op) (rules ifaces : ℕ → ℕ) (rts : List Rout) (sets : ℕ)
    (entries : ℕ → Bool) (start : Registry J Device) (name : Option String) where
  die-Creates :
      (e : Processes J) (p : ℕ) (pc : Process)
      → e.processes.cell p ≡ some pc
      → p ≢ 0
      → Held e.net drafts
          (λ q. rules q + routs_rules pc.rout_jq q)
          (λ q. ifaces q + routs_outputs pc.rout_jq q + one_at pc.in_iface q)
      → Creates drafts rules ifaces rts sets entries start name (die e p)
  unfolding die
  die-Creates e p pc at ne v =
      let (e', run, held, free) = process_free-Held drafts rules ifaces e p pc at ne v in
      (0, e', rw run refl, inl (refl, held))

  publish-cell :
      (r : Registry J Process) (k : String) (p q : ℕ) → (publish r k p true).1.cell q ≡ r.cell q
  unfolding publish
  publish-cell r k p q = refl

  registered-Creates :
      (e : Processes J) (p : ℕ) (pc : Process) (d : Device) (key : String)
      → e.processes.cell p ≡ some pc
      → p ≢ 0
      → pc.rout_jq ≡ rts
      → IsQueued entries rts pc.sets
      → pc.rout_set_jq ≡ sets
      → name ≡ some key
      → pc.in_iface ≡ find start key
      → e.net.ifaces.cell pc.in_iface ≡ some d
      → Held e.net drafts
          (λ q. rules q + routs_rules rts q)
          (λ q. ifaces q + routs_outputs rts q + one_at pc.in_iface q)
      → Creates drafts rules ifaces rts sets entries start name
          (registered e p pc d (iface_handler_register d.iface process_exec_at pc.rout_set_jq))
  unfolding registered
  registered-Creates e p pc d key there ne routs queue context given found at v =
      elim (register_cases d.iface process_exec_at pc.rout_set_jq) [
        | inl refused ↦ rw refused (die-Creates e p pc there ne (rw routs v))
        | inr fine ↦ elim (Option-cases d.name) [
          | inl nameless ↦ absurd (v.names pc.in_iface d at nameless)
          | inr (k, bears) ↦
              let i : Iface = record d.iface {
                handler = process_exec_at;
                context = pc.rout_set_jq;
              } in
              let n = with_iface e.net pc.in_iface d i in
              rw fine (
                p,
                record { net = n; processes = (publish e.processes k p true).1 },
                ap
                    (λ (o : Option String). o >>= λ j.
                      some (p, record { net = n; processes = (publish e.processes j p true).1 }))
                    bears,
                inr record {
                  process = pc;
                  device = record d { iface = i };
                  there = publish-cell e.processes k p p ∙ there;
                  routs = routs;
                  queue = queue;
                  queue_at = context;
                  key = key;
                  named = given;
                  in_iface = found;
                  on = ground arith;
                  handler = refl;
                  context = context;
                  books = with_iface-Held drafts _ _ e.net pc.in_iface d i v at;
                },
              )
        ]
      ]

  module _ (room : (q : ℕ) → ifaces q + routs_outputs rts q + 1 < 2 ^ 32) where
    attached-Creates :
        (e : Processes J) (p : ℕ) (k : String)
        → e.net.ifaces ≡ start
        → name ≡ some k
        → p ≢ 0
        → Held e.net drafts (λ q. rules q + routs_rules rts q) (λ q. ifaces q + routs_outputs rts q)
        → Creates drafts rules ifaces rts sets entries start name
            (attached e p (unattached entries rts sets) k)
    unfolding attached
    attached-Creates e p k same_start given ne v =
        let o = find e.net.ifaces k in
        let (i, run, accounts, same) =
          get-Accounts Life.counted e.net.ifaces k _
            (λ q. ifaces q + routs_outputs rts q + one_at o q) v.routed.accounts room (λ q. refl) in
        let pc : Process = record (unattached entries rts sets) { in_iface = o } in
        let e' : Processes J = record {
          net = record e.net { ifaces = i };
          processes = set_cell e.processes p (some pc);
        } in
        let there : e'.processes.cell p ≡ some pc = ground arith in
        let held : Held e'.net drafts (λ q. rules q + routs_rules rts q)
            (λ q. ifaces q + routs_outputs rts q + one_at o q) =
          record {
            routed = record { rule_books = v.routed.rule_books; accounts = accounts };
            names = names_Recount e.net.ifaces i same v.names;
          } in
        elim (Bool-cases (o == 0)) [
          | inl null ↦ rw run (rw null (die-Creates e' p pc there ne held))
          | inr some_iface ↦
              let (d, at) =
                iface_live drafts (λ q. rules q + routs_rules rts q)
                  (λ q. ifaces q + routs_outputs rts q) e'.net o held (ground arith) in
              rw run (
                rw (some_iface, at)
                  (registered-Creates e' p pc d k there ne refl (sets_queued-IsQueued entries rts)
                    refl given (ap (λ r. find r k) same_start) at held))
        ]

    named-Creates :
        (e : Processes J) (p : ℕ) (a : Option String)
        → e.net.ifaces ≡ start
        → name ≡ a
        → e.processes.cell p ≡ some (unattached entries rts sets)
        → p ≢ 0
        → Held e.net drafts (λ q. rules q + routs_rules rts q) (λ q. ifaces q + routs_outputs rts q)
        → Creates drafts rules ifaces rts sets entries start name
            (named e p (unattached entries rts sets) a)
    unfolding named
    named-Creates e p none same_start given at ne v =
        die-Creates e p (unattached entries rts sets) at ne
          (Held-ext drafts e.net _ _ _ _ (λ q. refl) (λ q. omega arith) v)
    named-Creates e p (some k) same_start given at ne v =
        elim (Bool-cases (not (find e.processes k == 0))) [
          | inl taken ↦ rw taken (
              die-Creates e p (unattached entries rts sets) at ne
                (Held-ext drafts e.net _ _ _ _ (λ q. refl) (λ q. omega arith) v))
          | inr free ↦ rw free (attached-Creates e p k same_start given ne v)
        ]

module _ {J : JudySl} (drafts : List Op) (rules ifaces : ℕ → ℕ) (rts : List Rout) (sets : ℕ)
    (entries : ℕ → Bool) (room : (q : ℕ) → ifaces q + routs_outputs rts q + 1 < 2 ^ 32) where
  -- Where every count is the number of references that are held, those of the routs among them,
  -- with room for one more, and every interface has a name, `process_new` returns, whether there is
  -- memory for the process or not and whatever the name is. It returns a process that owns the routs,
  -- has the array of their sets in their order (unless an entry of it got no memory), holds the
  -- interface of the given name, is counted by it and is its handler with that array; or null, and
  -- then the routs are freed. Every count is right either way.
  pub process_new-Creates :
      (e : Processes J) (name : Option String)
      → Held e.net drafts (λ q. rules q + routs_rules rts q) (λ q. ifaces q + routs_outputs rts q)
      → Creates drafts rules ifaces rts sets entries e.net.ifaces name
          (process_new e name rts sets entries)
  unfolding process_new allocated alloc
  process_new-Creates e name v = elim (Bool-cases (e.processes.grants e.processes.next)) [
    | inl granted ↦
        rw (granted, suc-ne e.processes.next)
          (named-Creates drafts rules ifaces rts sets entries e.net.ifaces name room
            record { net = e.net; processes = grown e.processes (unattached entries rts sets) }
            (suc e.processes.next) name refl refl (ground arith) (ground arith) v)
    | inr refused ↦
        let (n, run, held, same) = release_refs-Held drafts rules ifaces e.net rts v in
        rw (refused, run)
          (
            0,
            record { net = n; processes = record e.processes { next = suc e.processes.next } },
            refl,
            inl (refl, held),
          )
  ]
