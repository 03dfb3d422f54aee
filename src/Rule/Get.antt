-- ===== src/Rule/Get.antt =====
-- References to rules, taken and given back: the operations are not touched.
use Prim.Native.String.{String}
use xdpacket.Base.{ℕ, ◌+◌, ◌<◌, ◌^◌, some, List, ◌≡◌, inl, inr, refl, arith, Option-cases}
use xdpacket.Judy.{JudySl}
use xdpacket.Registry.{Registry, find}
use xdpacket.Registry.Accounts.{one_at, Accounts, Recount, get-Accounts, release-Accounts}
use xdpacket.Op.{Op}
use xdpacket.Op.Books.{Books-ext}
use xdpacket.Rule as Rule
use xdpacket.Rule.{Rule, Rules, rule_get, rule_release}
use xdpacket.Rule.Books.{rule_fields, rule_states, RuleBooks}
use xdpacket.Rule.Sum.{sum_of-Recount}

module _ {J : JudySl} (w : Rules J) (drafts : List Op) (held held' : ℕ → ℕ)
    (v : RuleBooks w drafts held) where
  recounted :
      (r : Registry J Rule)
      → Accounts Rule.counted r held'
      → Recount Rule.counted w.rules r
      → RuleBooks (record w { rules = r }) drafts held'
  unfolding rule_fields rule_states
  recounted r accounts same = record {
    rules = accounts;
    names = λ p a at. elim (Option-cases (w.rules.cell p)) [
      | inl lost ↦ absurd (ground (arith, same.absent p lost))
      | inr (b, there) ↦ let (n, at') = same.objects p b there in ground (arith, v.names p b there)
    ];
    books =
        Books-ext w.heap _ _ v.books
          (λ q. omega (
            arith,
            sum_of-Recount (λ a. rule_fields a q) w.rules r v.rules.valid same (λ a n. refl),
          ))
          (λ q. omega (
            arith,
            sum_of-Recount (λ a. rule_states a q) w.rules r v.rules.valid same (λ a n. refl),
          ));
  }

  -- `rule_get` takes one reference, or none if there is no such rule.
  pub rule_get-RuleBooks :
      (k : String)
      → ((q : ℕ) → held q + 1 < 2 ^ 32)
      → ((q : ℕ) → held' q ≡ held q + one_at (find w.rules k) q)
      → (r : Registry J Rule) × (rule_get w k ≡ some (find w.rules k, record w { rules = r }))
        × RuleBooks (record w { rules = r }) drafts held'
        × Recount Rule.counted w.rules r
  unfolding rule_get
  rule_get-RuleBooks k room more =
      let (r, run, accounts, same) =
        get-Accounts Rule.counted w.rules k held held' v.rules room more in
      (r, rw run refl, recounted r accounts same, same)

  -- `rule_release` gives one back.
  pub rule_release-RuleBooks :
      (p : ℕ)
      → ((q : ℕ) → held q ≡ held' q + one_at p q)
      → (r : Registry J Rule) × (rule_release w p ≡ some (record w { rules = r }))
        × RuleBooks (record w { rules = r }) drafts held'
        × Recount Rule.counted w.rules r
  unfolding rule_release
  rule_release-RuleBooks p less =
      let (r, run, accounts, same) =
        release-Accounts Rule.counted w.rules p held held' v.rules less in
      (r, rw run refl, recounted r accounts same, same)
