-- ===== src/Rout/Life/Laws.antt =====
-- A rout holds what it points to, and gives it back.
use Prim.Native.String.{String}
use xdpacket.Base.{
  ℕ, ◌+◌, ◌<◌, ◌^◌, Bool, true, false, Option, none, some, List, ◌≡◌, ◌≢◌, ◌⊎◌, inl, inr, refl, ap,
  arith, ◌==◌, Bool-cases, Option-cases,
}
use xdpacket.Judy.{JudySl}
use xdpacket.Registry.{Counted, find}
use xdpacket.Registry.Accounts.{
  one_at, Accounts, Recount, Accounts-ext, get-Accounts, release-Accounts,
}
use xdpacket.Op.{Op}
use xdpacket.Rule.{Rule}
use xdpacket.Rule.Books.{RuleBooks}
use xdpacket.Rule.Get.{rule_get-RuleBooks, rule_release-RuleBooks}
use xdpacket.Rout.Life.{
  Rout, Net, empty, set_from, rout_set_new, rout_free, die, set_made, output_got, rule_got,
  rout_new,
}

-- The rules and the interfaces count the references that are held to them.
pub record Routed {J : JudySl} {A : Type 0} (c : Counted A) (n : Net J A) (drafts : List Op)
    (rules ifaces : ℕ → ℕ) : Type 0 where
  pub rule_books : RuleBooks n.rules drafts rules
  pub accounts : Accounts c n.ifaces ifaces

abbrev pub with_rule : (ℕ → ℕ) → Option Rout → ℕ → ℕ
with_rule held none q = held q
with_rule held (some rt) q = held q + one_at rt.rule q

abbrev pub with_output : (ℕ → ℕ) → Option Rout → ℕ → ℕ
with_output held none q = held q
with_output held (some rt) q = held q + one_at rt.output q

-- Null, or a rout on the rule and the interface of the two names, with the queues of the rule.
abbrev pub Made :
    {J : JudySl} {A : Type 0} → Net J A → Net J A → String → String → Option Rout → Type 0
Made {J} {A} n n' k out made =
    (made ≡ none)
    ⊎ (rt : Rout) × (a : Rule) × (b : A) × (made ≡ some rt)
      × (rt.rule ≡ find n.rules.rules k)
      × (rt.output ≡ find n.ifaces out)
      × (n'.rules.rules.cell rt.rule ≡ some a)
      × (n'.ifaces.cell rt.output ≡ some b)
      × (rt.rule ≢ 0)
      × (rt.output ≢ 0)
      × (rt.set ≡ some (set_from a rt.output))

module _ {J : JudySl} {A : Type 0} (c : Counted A) (drafts : List Op) (rules ifaces : ℕ → ℕ) where
  -- Where every count is the number of references that are held, those of a rout among them,
  -- `rout_free` on it returns and gives back its reference to the rule and that to the interface;
  -- the interfaces are the same but for their counts.
  pub rout_free-Routed :
      (n : Net J A) (rt : Rout)
      → Routed c n drafts (λ q. rules q + one_at rt.rule q) (λ q. ifaces q + one_at rt.output q)
      → (n' : Net J A) × (rout_free c n rt ≡ some n')
        × Routed c n' drafts rules ifaces
        × Recount c n.ifaces n'.ifaces
  unfolding rout_free
  rout_free-Routed n rt v =
      let (r, run, books, same) =
        rule_release-RuleBooks n.rules drafts _ rules v.rule_books rt.rule (λ q. refl) in
      let (i, run', accounts, same') =
        release-Accounts c n.ifaces rt.output _ ifaces v.accounts (λ q. refl) in
      (
        record { rules = record n.rules { rules = r }; ifaces = i },
        rw (run, run') refl,
        record { rule_books = books; accounts = accounts },
        same',
      )

  abbrev pub Creates : Net J A → String → String → Option (Option Rout × Net J A) → Type 0
  Creates start k out result =
      (made : Option Rout) × (n : Net J A) × (result ≡ some (made, n))
      × Routed c n drafts (with_rule rules made) (with_output ifaces made)
      × Made start n k out made

  die-Creates :
      (start n : Net J A) (rt : Rout) (k out : String)
      → Routed c n drafts (λ q. rules q + one_at rt.rule q) (λ q. ifaces q + one_at rt.output q)
      → Creates start k out (die c n rt)
  unfolding die
  die-Creates start n rt k out v =
      let (n', run, books, same) = rout_free-Routed n rt v in
      (none, n', rw run refl, books, inl refl)

  set_made-Creates :
      (start n : Net J A) (rt : Rout) (a : Rule) (b : A) (k out : String) (memory : Bool)
      → Routed c n drafts (λ q. rules q + one_at rt.rule q) (λ q. ifaces q + one_at rt.output q)
      → rt.rule ≡ find start.rules.rules k
      → rt.output ≡ find start.ifaces out
      → n.rules.rules.cell rt.rule ≡ some a
      → n.ifaces.cell rt.output ≡ some b
      → rt.rule ≢ 0
      → rt.output ≢ 0
      → Creates start k out (set_made c n rt (rout_set_new memory a rt.output))
  unfolding set_made rout_set_new
  set_made-Creates start n rt a b k out false v same_rule same_output at at' ne ne' =
      die-Creates start n rt k out v
  set_made-Creates start n rt a b k out true v same_rule same_output at at' ne ne' =
      let rt' : Rout = record rt { set = some (set_from a rt.output) } in
      (
        some rt',
        n,
        refl,
        record { rule_books = v.rule_books; accounts = v.accounts },
        inr (rt', a, b, refl, same_rule, same_output, at, at', ne, ne', refl),
      )

  -- A rule that is held is there.
  rule_live :
      (n : Net J A) (p : ℕ)
      → RuleBooks n.rules drafts (λ q. rules q + one_at p q)
      → p ≢ 0
      → (a : Rule) × (n.rules.rules.cell p ≡ some a)
  rule_live n p v ne = elim (Option-cases (n.rules.rules.cell p)) [
    | inl lost ↦ absurd (ground (arith, v.rules.gone p))
    | inr there ↦ there
  ]

  output_live :
      (n : Net J A) (p : ℕ)
      → Accounts c n.ifaces (λ q. ifaces q + one_at p q)
      → p ≢ 0
      → (b : A) × (n.ifaces.cell p ≡ some b)
  output_live n p v ne = elim (Option-cases (n.ifaces.cell p)) [
    | inl lost ↦ absurd (ground (arith, v.gone p))
    | inr there ↦ there
  ]

  module _ (room : (q : ℕ) → ifaces q + 1 < 2 ^ 32) where
    output_got-Creates :
        (start n : Net J A) (p : ℕ) (k out : String) (memory : Bool)
        → RuleBooks n.rules drafts (λ q. rules q + one_at p q)
        → Accounts c n.ifaces ifaces
        → p ≢ 0
        → p ≡ find start.rules.rules k
        → n.ifaces ≡ start.ifaces
        → Creates start k out (output_got c n (record empty { rule = p }) out memory)
    unfolding output_got
    output_got-Creates start n p k out memory books accounts ne same_rule same_ifaces =
        let o = find n.ifaces out in
        let (i, run, accounts', same) =
          get-Accounts c n.ifaces out ifaces (λ q. ifaces q + one_at o q) accounts room
            (λ q. refl) in
        let rt : Rout = record empty { rule = p; output = o } in
        let n' : Net J A = record n { ifaces = i } in
        let v : Routed c n' drafts (λ q. rules q + one_at p q) (λ q. ifaces q + one_at o q) =
          record { rule_books = books; accounts = accounts' } in
        let (a, at) = rule_live n p books ne in
        elim (Bool-cases (o == 0)) [
          | inl null ↦ rw run (rw null (die-Creates start n' rt k out v))
          | inr there ↦
              let (b, at') = output_live n' o accounts' (ground arith) in
              rw run (
                rw (there, at)
                  (set_made-Creates start n' rt a b k out memory v same_rule
                    (ap (λ x. find x out) same_ifaces) at at' ne (ground arith)))
        ]

    rule_got-Creates :
        (n : Net J A) (k out : String) (memory : Bool)
        → ((q : ℕ) → rules q + 1 < 2 ^ 32)
        → Routed c n drafts rules ifaces
        → Creates n k out (rule_got c n k out memory)
    unfolding rule_got
    rule_got-Creates n k out memory rule_room v =
        let p = find n.rules.rules k in
        let (r, run, books, same) =
          rule_get-RuleBooks n.rules drafts rules (λ q. rules q + one_at p q) v.rule_books k
            rule_room (λ q. refl) in
        let n' : Net J A = record n { rules = record n.rules { rules = r } } in
        elim (Bool-cases (p == 0)) [
          | inl null ↦ rw run (
              rw null (
                die-Creates n n' (record empty { rule = p }) k out
                  record {
                    rule_books = books;
                    accounts = Accounts-ext c n.ifaces ifaces _ (λ q. omega arith) v.accounts;
                  }))
          | inr there ↦ rw run (
              rw there
                (output_got-Creates n n' p k out memory books v.accounts (ground arith) refl refl))
        ]

    -- Where every count is the number of references that are held, with room for one more,
    -- `rout_new` on two names returns, whether memory is there or not. It returns a rout on the rule
    -- and the interface of these names, which are there and counted once more, with the queues of the
    -- rule; or null, and then every count is as before.
    pub rout_new-Creates :
        (n : Net J A) (memory set_memory : Bool) (k out : String)
        → ((q : ℕ) → rules q + 1 < 2 ^ 32)
        → Routed c n drafts rules ifaces
        → Creates n k out (rout_new c n memory set_memory (some k) (some out))
    unfolding rout_new
    rout_new-Creates n false set_memory k out rule_room v =
        (none, n, refl, record { rule_books = v.rule_books; accounts = v.accounts }, inl refl)
    rout_new-Creates n true set_memory k out rule_room v =
        rule_got-Creates n k out set_memory rule_room v
