-- ===== src/Rout/Life/Tests.antt =====
-- A rout between a rule and an interface, made and freed.
use text.Mathlib.Text.{◌==◌ as str_eq}
use text.Mathlib.TextEquality.{eq_iff}
use Prim.Native.String.{String}
use xdpacket.Base.{
  ℕ, ◌+◌, ◌≡◌, inl, inr, refl, arith, true, Bool-cases, Option, none, some, [], ◌∷◌, ◌==◌,
  if◌then◌else◌,
}
use xdpacket.Judy.{js_get}
use xdpacket.Judy.Model.{words}
use xdpacket.Registry.{Counted, Registry, find, get}
use xdpacket.Registry.Accounts.{one_at, Accounts, Recount, get-Accounts}
use xdpacket.Op.Example.{calls, calls-IsCalls}
use xdpacket.Rule as Rule
use xdpacket.Rule.{Rule, Rules, rule_get}
use xdpacket.Rule.Books.{RuleBooks}
use xdpacket.Rule.Get.{rule_get-RuleBooks}
use xdpacket.Rule.Safe.{Safe}
use xdpacket.Rule.Packets.{Reachable-Safe}
use xdpacket.Rule.Example.{with_rule, with_rule-Reachable}
use xdpacket.Rout.Life.{Rout, Net, rout_free, rout_new}
use xdpacket.Rout.Life.Laws.{Routed, Creates, rout_free-Routed, rout_new-Creates}

record Port : Type 0 where
  name : Option String
  refcnt : ℕ

abbrev port_counted : Counted Port
port_counted = record {
  name = λ a. a.name;
  refcnt = λ a. a.refcnt;
  with_refcnt = λ a n. record a { refcnt = n };
  refcnt-with_refcnt = λ a n. refl;
  name-with_refcnt = λ a n. refl;
  with_refcnt_twice = λ a n m. refl;
  with_refcnt_self = λ a. refl;
}

abbrev eth0 : Port
eth0 = record { name = some "eth0"; refcnt = 0 }

abbrev ports : Registry words Port
ports = record {
  next = 1;
  grants = λ i. true;
  cell = λ p. if 1 == p then some eth0 else none;
  js = ("eth0", 1) ∷ [];
}

find-ports : (k : String) → find ports k ≡ (if str_eq "eth0" k then 1 else 0)
unfolding find js_get
find-ports k = ground arith

ports-Accounts : Accounts port_counted ports (λ q. 0)
ports-Accounts = record {
  valid = record {
    live = λ k. elim (Bool-cases (str_eq "eth0" k)) [
      | inl hit ↦ inr (eth0, ground (arith, find-ports k), ground (arith, eq_iff "eth0" k))
      | inr miss ↦ inl (ground (arith, find-ports k))
    ];
    null = refl;
    fresh = λ p lt. ground arith;
  };
  counts = λ p a at. ground arith;
  gone = λ p at. refl;
}

abbrev net : Net words Port
net = record { rules = with_rule.world; ifaces = ports }

net-Routed : Routed port_counted net [] (λ q. 0) (λ q. 0)
net-Routed = record {
  rule_books = Safe.books (Reachable-Safe calls calls-IsCalls with_rule with_rule-Reachable);
  accounts = ports-Accounts;
}

rout_new-Creates_example :
    Creates port_counted []
      (λ q. 0)
      (λ q. 0)
      net
      "ports"
      "eth0"
      (rout_new port_counted net true true (some "ports") (some "eth0"))
rout_new-Creates_example =
    rout_new-Creates port_counted [] (λ q. 0) (λ q. 0) (λ q. omega arith) net true true "ports"
      "eth0" (λ q. omega arith) net-Routed

-- The references of a rout, taken one after the other.
abbrev rule_at : ℕ
rule_at = find with_rule.world.rules "ports"

abbrev output_at : ℕ
output_at = find ports "eth0"

taken_rule :
    (r : Registry words Rule) × (rule_get with_rule.world "ports"
      ≡ some (rule_at, record with_rule.world { rules = r }))
    × RuleBooks (record with_rule.world { rules = r }) [] (λ q. 0 + one_at rule_at q)
    × Recount Rule.counted with_rule.world.rules r
taken_rule =
    rule_get-RuleBooks with_rule.world [] (λ q. 0) (λ q. 0 + one_at rule_at q) net-Routed.rule_books
      "ports" (λ q. omega arith) (λ q. refl)

taken_output :
    (r : Registry words Port) × (get port_counted ports "eth0" ≡ some (output_at, r))
    × Accounts port_counted r (λ q. 0 + one_at output_at q)
    × Recount port_counted ports r
taken_output =
    get-Accounts port_counted ports "eth0" (λ q. 0) (λ q. 0 + one_at output_at q) ports-Accounts
      (λ q. omega arith) (λ q. refl)

abbrev used : Net words Port
used = record { rules = record with_rule.world { rules = taken_rule.0 }; ifaces = taken_output.0 }

abbrev between : Rout
between = record { rule = rule_at; output = output_at; set = none }

used-Routed : Routed port_counted used [] (λ q. 0 + one_at rule_at q) (λ q. 0 + one_at output_at q)
used-Routed = record { rule_books = taken_rule.2; accounts = taken_output.2 }

rout_free-Routed_example :
    (n' : Net words Port) × (rout_free port_counted used between ≡ some n')
    × Routed port_counted n' [] (λ q. 0) (λ q. 0)
    × Recount port_counted (Net.ifaces used) n'.ifaces
rout_free-Routed_example =
    rout_free-Routed port_counted [] (λ q. 0) (λ q. 0) used between used-Routed
