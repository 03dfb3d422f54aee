-- ===== src/Process/Life/Laws.antt =====
-- A process holds its routs and its interface, and gives them back.
use xdpacket.Base.{
  ℕ, ◌+◌, false, none, some, List, [], ◌∷◌, ◌≡◌, ◌≢◌, inl, inr, refl, arith, ◌==◌, Bool-cases,
  Option-cases,
}
use xdpacket.Judy.{JudySl}
use xdpacket.Registry.{Registry, set_cell, unpublish}
use xdpacket.Registry.Laws.{update-IsValid}
use xdpacket.Registry.Accounts.{
  Recount-refl, Recount-trans, one_at, Recount, Accounts-ext, release-Accounts,
}
use xdpacket.Op.{Op}
use xdpacket.Iface.{Iface, iface_handler_clear}
use xdpacket.Rout.Life.{Rout, Net, rout_free}
use xdpacket.Rout.Life.Laws.{Routed, rout_free-Routed}
use xdpacket.Process.Life.Clear.{IsFree, handles-cleared, IsFree-Recount}
use xdpacket.Process.Life as Life
use xdpacket.Process.Life.{
  Device, Process, Processes, process_exec_at, process_release_refs, with_iface, cleared,
  handler_cleared, detached, process_free, die, registered, attached, named, unattached, allocated,
  process_new,
}

-- The references that a list of routs holds.
unfoldable pub routs_rules : List Rout → ℕ → ℕ
routs_rules [] q = 0
routs_rules (rt ∷ rts) q = one_at rt.rule q + routs_rules rts q

unfoldable pub routs_outputs : List Rout → ℕ → ℕ
routs_outputs [] q = 0
routs_outputs (rt ∷ rts) q = one_at rt.output q + routs_outputs rts q

-- Every count is the number of references that are held, and every interface has a name.
pub record Held {J : JudySl} (n : Net J Device) (drafts : List Op) (rules ifaces : ℕ → ℕ)
    : Type 0 where
  pub routed : Routed Life.counted n drafts rules ifaces
  pub names : (p : ℕ) (d : Device) → n.ifaces.cell p ≡ some d → d.name ≢ none

pub names_Recount :
    {J : JudySl} (r s : Registry J Device)
    → Recount Life.counted r s
    → ((p : ℕ) (d : Device) → r.cell p ≡ some d → d.name ≢ none)
    → (p : ℕ) (d : Device) → s.cell p ≡ some d
    → d.name ≢ none
names_Recount r s same names p d at = elim (Option-cases (r.cell p)) [
  | inl lost ↦ absurd (ground (arith, same.absent p lost))
  | inr (b, there) ↦ let (n, at') = same.objects p b there in ground (arith, names p b there)
]

module _ {J : JudySl} (drafts : List Op) where
  pub Held-ext :
      (n : Net J Device) (rules rules' ifaces ifaces' : ℕ → ℕ)
      → ((q : ℕ) → rules' q ≡ rules q)
      → ((q : ℕ) → ifaces' q ≡ ifaces q)
      → Held n drafts rules ifaces
      → Held n drafts rules' ifaces'
  Held-ext n rules rules' ifaces ifaces' same_rules same_ifaces v = record {
    routed = record {
      rule_books = record {
        rules = Accounts-ext _ _ rules rules' same_rules v.routed.rule_books.rules;
        names = v.routed.rule_books.names;
        books = v.routed.rule_books.books;
      };
      accounts = Accounts-ext Life.counted n.ifaces ifaces ifaces' same_ifaces v.routed.accounts;
    };
    names = v.names;
  }

  module _ (rules ifaces : ℕ → ℕ) where
    freed-Held :
        (n : Net J Device) (rt : Rout)
        → Held n drafts (λ q. rules q + one_at rt.rule q) (λ q. ifaces q + one_at rt.output q)
        → (n' : Net J Device) × (rout_free Life.counted n rt ≡ some n')
          × Held n' drafts rules ifaces
          × Recount Life.counted n.ifaces n'.ifaces
    freed-Held n rt v =
        let (n', run, routed, same) =
          rout_free-Routed Life.counted drafts rules ifaces n rt v.routed in
        (
          n',
          run,
          record { routed = routed; names = names_Recount n.ifaces n'.ifaces same v.names },
          same,
        )

  -- All routs of a process are freed.
  pub release_refs-Held :
      (rules ifaces : ℕ → ℕ) (n : Net J Device) (rts : List Rout)
      → Held n drafts (λ q. rules q + routs_rules rts q) (λ q. ifaces q + routs_outputs rts q)
      → (n' : Net J Device) × (process_release_refs n rts ≡ some n')
        × Held n' drafts rules ifaces
        × Recount Life.counted n.ifaces n'.ifaces
  unfolding process_release_refs routs_rules routs_outputs
  release_refs-Held rules ifaces n [] v = (
    n,
    refl,
    Held-ext n _ rules _ ifaces (λ q. omega arith) (λ q. omega arith) v,
    Recount-refl Life.counted n.ifaces,
  )
  release_refs-Held rules ifaces n (rt ∷ rts) v =
      let (n', run, held, same) =
        freed-Held (λ q. rules q + routs_rules rts q) (λ q. ifaces q + routs_outputs rts q) n rt
          (Held-ext n _ _ _ _ (λ q. omega arith) (λ q. omega arith) v) in
      let (n'', run', held', same') = release_refs-Held rules ifaces n' rts held in
      (n'', rw run run', held', Recount-trans Life.counted n.ifaces n'.ifaces n''.ifaces same same')

  -- An interface gets another handler.
  pub with_iface-Held :
      (rules ifaces : ℕ → ℕ) (n : Net J Device) (p : ℕ) (d : Device) (i : Iface)
      → Held n drafts rules ifaces
      → n.ifaces.cell p ≡ some d
      → Held (with_iface n p d i) drafts rules ifaces
  with_iface-Held rules ifaces n p d i v at = record {
    routed = record {
      rule_books = v.routed.rule_books;
      accounts = record {
        valid =
            update-IsValid Life.counted n.ifaces p d (record d { iface = i })
              v.routed.accounts.valid at refl;
        counts =
            λ q b e. ground (arith, v.routed.accounts.counts q b, v.routed.accounts.counts p d);
        gone = λ q e. ground (arith, v.routed.accounts.gone q);
      };
    };
    names = λ q b e. ground (arith, v.names q b, v.names p d);
  }

  pub iface_live :
      (rules ifaces : ℕ → ℕ) (n : Net J Device) (p : ℕ)
      → Held n drafts rules (λ q. ifaces q + one_at p q)
      → p ≢ 0
      → (d : Device) × (n.ifaces.cell p ≡ some d)
  iface_live rules ifaces n p v ne = elim (Option-cases (n.ifaces.cell p)) [
    | inl lost ↦ absurd (ground (arith, v.routed.accounts.gone p))
    | inr there ↦ there
  ]

  -- The reference to the interface is given back.
  detached-Held :
      (rules ifaces : ℕ → ℕ) (e : Processes J) (p : ℕ) (pc : Process)
      → Held e.net drafts rules (λ q. ifaces q + one_at pc.in_iface q)
      → (e' : Processes J) × (detached e p pc ≡ some e')
        × Held e'.net drafts rules ifaces
        × IsFree pc e'.net
  unfolding detached handler_cleared
  detached-Held rules ifaces e p pc v = elim (Bool-cases (pc.in_iface == 0)) [
    | inl null ↦ (
      record e { processes = set_cell e.processes p none },
      rw null refl,
      Held-ext e.net rules rules _ ifaces (λ q. refl) (λ q. ground arith) v,
      inl (ground arith),
    )
    | inr there ↦
        let (d, at) = iface_live rules ifaces e.net pc.in_iface v (ground arith) in
        elim (Option-cases d.name) [
          | inl nameless ↦ absurd (v.names pc.in_iface d at nameless)
          | inr (k, bears) ↦
              let n = handler_cleared e.net pc d in
              let a = record d {
                iface =
                    cleared (iface_handler_clear (some d.iface) process_exec_at pc.rout_set_jq).1
                      d.iface;
              } in
              let w =
                with_iface-Held rules (λ q. ifaces q + one_at pc.in_iface q) e.net pc.in_iface d
                  a.iface v at in
              let (i, run, accounts, same) =
                release-Accounts Life.counted n.ifaces pc.in_iface _ ifaces w.routed.accounts
                  (λ q. refl) in
              (
                record { net = record e.net { ifaces = i }; processes = unpublish e.processes p k },
                rw (there, at, run, bears) refl,
                record {
                  routed = record { rule_books = v.routed.rule_books; accounts = accounts };
                  names = names_Recount n.ifaces i same w.names;
                },
                IsFree-Recount pc n (record e.net { ifaces = i }) same
                    (inr (a, ground arith, handles-cleared d.iface pc)),
              )
        ]
  ]

  -- Where every count is the number of references that are held, those of a process that is there
  -- among them, and every interface has a name, `process_free` on it returns and gives back the
  -- reference to its interface and those of its routs; an interface that it has is there, and its packets
  -- no longer go to the process.
  pub process_free-Held :
      (rules ifaces : ℕ → ℕ) (e : Processes J) (p : ℕ) (pc : Process)
      → e.processes.cell p ≡ some pc
      → p ≢ 0
      → Held e.net drafts
          (λ q. rules q + routs_rules pc.rout_jq q)
          (λ q. ifaces q + routs_outputs pc.rout_jq q + one_at pc.in_iface q)
      → (e' : Processes J) × (process_free e p ≡ some e')
        × Held e'.net drafts rules ifaces
        × IsFree pc e'.net
  unfolding process_free
  process_free-Held rules ifaces e p pc at ne v =
      let miss : (p == 0) ≡ false = ground arith in
      let (e', run, held, free) =
        detached-Held (λ q. rules q + routs_rules pc.rout_jq q)
          (λ q. ifaces q + routs_outputs pc.rout_jq q) e p pc v in
      let (n, run', held', same) = release_refs-Held rules ifaces e'.net pc.rout_jq held in
      (
        record e' { net = n },
        rw (miss, at, run, run') refl,
        held',
        IsFree-Recount pc e'.net n same free,
      )
