-- ===== src/Process/Life/Tests.antt =====
-- A process on one interface, made and freed.
use text.Mathlib.Text.{◌==◌ as str_eq}
use text.Mathlib.TextEquality.{eq_iff}
use Prim.Native.String.{String}
use xdpacket.Base.{
  ℕ, ◌+◌, ◌<◌, ◌^◌, ◌≡◌, ◌≢◌, inl, inr, refl, arith, true, Bool-cases, none, some, [], ◌∷◌, ◌==◌,
  if◌then◌else◌,
}
use xdpacket.Judy.{js_get}
use xdpacket.Judy.Model.{words}
use xdpacket.Registry.{Registry, initial, find, get}
use xdpacket.Registry.Accounts.{one_at, Accounts, Recount, get-Accounts}
use xdpacket.Op.Example.{calls, calls-IsCalls}
use xdpacket.Rule as Rule
use xdpacket.Rule.{Rule, Rules, rule_get}
use xdpacket.Rule.Books.{RuleBooks}
use xdpacket.Rule.Get.{rule_get-RuleBooks}
use xdpacket.Rule.Safe.{Safe}
use xdpacket.Rule.Packets.{Reachable-Safe}
use xdpacket.Rule.Example.{with_rule, with_rule-Reachable}
use xdpacket.Rout.Life.{Rout, Net}
use xdpacket.Process.Life as Life
use xdpacket.Process.Life.{Device, Process, Processes, process_free, process_new}
use xdpacket.Process.Life.Clear.{IsFree}
use xdpacket.Process.Life.Laws.{
  routs_rules, routs_outputs, Held, Held-ext, names_Recount, process_free-Held,
}
use xdpacket.Process.Life.New.{Creates, process_new-Creates}

abbrev eth0 : Device
eth0 = record {
  name = some "eth0";
  refcnt = 0;
  iface = record {
    fd = 3;
    handler = 0;
    context = 0;
    count_in = 0;
    count_out = 0;
    count_checkfail = 0;
    count_sockdrop = 0;
  };
}

abbrev devices : Registry words Device
devices = record {
  next = 1;
  grants = λ i. true;
  cell = λ p. if 1 == p then some eth0 else none;
  js = ("eth0", 1) ∷ [];
}

find-devices : (k : String) → find devices k ≡ (if str_eq "eth0" k then 1 else 0)
unfolding find js_get
find-devices k = ground arith

devices-Accounts : Accounts Life.counted devices (λ q. 0)
devices-Accounts = record {
  valid = record {
    live = λ k. elim (Bool-cases (str_eq "eth0" k)) [
      | inl hit ↦ inr (eth0, ground (arith, find-devices k), ground (arith, eq_iff "eth0" k))
      | inr miss ↦ inl (ground (arith, find-devices k))
    ];
    null = refl;
    fresh = λ p lt. ground arith;
  };
  counts = λ p a at. ground arith;
  gone = λ p at. refl;
}

devices-names : (p : ℕ) (d : Device) → devices.cell p ≡ some d → d.name ≢ none
devices-names p d at = ground arith

abbrev rule_at : ℕ
rule_at = find with_rule.world.rules "ports"

abbrev output_at : ℕ
output_at = find devices "eth0"

taken_rule :
    (r : Registry words Rule) × (rule_get with_rule.world "ports"
      ≡ some (rule_at, record with_rule.world { rules = r }))
    × RuleBooks (record with_rule.world { rules = r }) [] (λ q. 0 + one_at rule_at q)
    × Recount Rule.counted with_rule.world.rules r
taken_rule =
    rule_get-RuleBooks with_rule.world [] (λ q. 0) (λ q. 0 + one_at rule_at q)
      (Safe.books (Reachable-Safe calls calls-IsCalls with_rule with_rule-Reachable)) "ports"
      (λ q. omega arith) (λ q. refl)

-- A reference to the interface, and another one.
taken_output :
    (r : Registry words Device) × (get Life.counted devices "eth0" ≡ some (output_at, r))
    × Accounts Life.counted r (λ q. 0 + one_at output_at q)
    × Recount Life.counted devices r
taken_output =
    get-Accounts Life.counted devices "eth0" (λ q. 0) (λ q. 0 + one_at output_at q) devices-Accounts
      (λ q. omega arith) (λ q. refl)

abbrev in_at : ℕ
in_at = find taken_output.0 "eth0"

taken_again :
    (r : Registry words Device) × (get Life.counted taken_output.0 "eth0" ≡ some (in_at, r))
    × Accounts Life.counted r (λ q. 0 + one_at output_at q + one_at in_at q)
    × Recount Life.counted taken_output.0 r
taken_again =
    get-Accounts Life.counted taken_output.0 "eth0" (λ q. 0 + one_at output_at q)
      (λ q. 0 + one_at output_at q + one_at in_at q) taken_output.2 (λ q. ground arith) (λ q. refl)

abbrev between : Rout
between = record { rule = rule_at; output = output_at; set = none }

abbrev net : Net words Device
net = record { rules = record with_rule.world { rules = taken_rule.0 }; ifaces = taken_output.0 }

net-Held :
    Held net [] (λ q. 0 + routs_rules (between ∷ []) q) (λ q. 0 + routs_outputs (between ∷ []) q)
unfolding routs_rules routs_outputs
net-Held =
    Held-ext [] net (λ q. 0 + one_at rule_at q) _ (λ q. 0 + one_at output_at q) _ (λ q. omega arith)
      (λ q. omega arith)
      record {
        routed = record { rule_books = taken_rule.2; accounts = taken_output.2 };
        names = names_Recount devices taken_output.0 taken_output.3 devices-names;
      }

one_rout-room : (q : ℕ) → 0 + routs_outputs (between ∷ []) q + 1 < 2 ^ 32
unfolding routs_outputs
one_rout-room q = ground arith

process_new-Creates_example :
    Creates []
      (λ q. 0)
      (λ q. 0)
      (between ∷ [])
      7
      (λ k. true)
      (Net.ifaces net)
      (some "eth0")
      (process_new
        (record { net = net; processes = initial (λ i. true) })
        (some "eth0")
        (between ∷ [])
        7
        (λ k. true))
process_new-Creates_example =
    process_new-Creates [] (λ q. 0) (λ q. 0) (between ∷ []) 7 (λ k. true) one_rout-room
      (record { net = net; processes = initial (λ i. true) }) (some "eth0") net-Held

abbrev on_eth0 : Process
on_eth0 = record { in_iface = in_at; rout_jq = between ∷ []; rout_set_jq = 7; sets = [] }

abbrev running : Processes words
running = record {
  net = record net { ifaces = taken_again.0 };
  processes = record {
    next = 1;
    grants = λ i. true;
    cell = λ p. if 1 == p then some on_eth0 else none;
    js = ("eth0", 1) ∷ [];
  };
}

running-Held :
    Held running.net []
      (λ q. 0 + routs_rules (between ∷ []) q)
      (λ q. 0 + routs_outputs (between ∷ []) q + one_at in_at q)
unfolding routs_rules routs_outputs
running-Held =
    Held-ext [] running.net (λ q. 0 + one_at rule_at q) _
      (λ q. 0 + one_at output_at q + one_at in_at q) _ (λ q. omega arith) (λ q. omega arith)
      record {
        routed = record { rule_books = taken_rule.2; accounts = taken_again.2 };
        names = names_Recount taken_output.0 taken_again.0 taken_again.3 net-Held.names;
      }

process_free-Held_example :
    (e : Processes words) × (process_free running 1 ≡ some e)
    × Held e.net [] (λ q. 0) (λ q. 0)
    × IsFree on_eth0 e.net
process_free-Held_example =
    process_free-Held [] (λ q. 0) (λ q. 0) running 1 on_eth0 refl (λ e. ground arith) running-Held
