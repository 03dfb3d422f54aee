-- ===== src/Rule/Books.antt =====
-- The books of the rules: the fields and memrefs count what the operations of the rules hold.
use xdpacket.Base.{ℕ, ◌+◌, Option, none, some, List, [], ◌∷◌, ◌≡◌, ◌≢◌}
use xdpacket.Judy.{JudySl}
use xdpacket.Registry.{Registry}
use xdpacket.Registry.Accounts.{one_at, Accounts}
use xdpacket.Op.{Op}
use xdpacket.Op.Books.{Holding, Books}
use xdpacket.Rule as Rule
use xdpacket.Rule.{Rule, Rules}
use xdpacket.Rule.Total.{total}

-- The references that a queue of operations holds.
unfoldable pub ops_fields : List Op → ℕ → ℕ
ops_fields [] q = 0
ops_fields (o ∷ os) q = one_at o.dst_field q + one_at o.src_field q + ops_fields os q

unfoldable pub ops_states : List Op → ℕ → ℕ
ops_states [] q = 0
ops_states (o ∷ os) q = one_at o.dst q + one_at o.src q + ops_states os q

abbrev pub with_ops : Holding → List Op → Holding
with_ops n os = record {
  fields = λ q. n.fields q + ops_fields os q;
  states = λ q. n.states q + ops_states os q;
}

-- And those of a rule, if there is one.
unfoldable pub rule_fields : Option Rule → ℕ → ℕ
rule_fields none q = 0
rule_fields (some a) q = ops_fields a.match_jq q + ops_fields a.write_jq q

unfoldable pub rule_states : Option Rule → ℕ → ℕ
rule_states none q = 0
rule_states (some a) q = ops_states a.match_jq q + ops_states a.write_jq q

-- The sum over all rules.
abbrev pub sum_of : {J : JudySl} → (Option Rule → ℕ) → Registry J Rule → ℕ
sum_of weight r = total (λ p. weight (r.cell p)) r.next

abbrev pub of_rules : {J : JudySl} → Registry J Rule → Holding
of_rules r = record {
  fields = λ q. sum_of (λ a. rule_fields a q) r;
  states = λ q. sum_of (λ a. rule_states a q) r;
}

-- The rules count the references to them, and their operations with those of `drafts` hold all
-- references to fields, states and values.
pub record RuleBooks {J : JudySl} (w : Rules J) (drafts : List Op) (held : ℕ → ℕ) : Type 0 where
  pub rules : Accounts Rule.counted w.rules held
  pub names : (p : ℕ) (a : Rule) → w.rules.cell p ≡ some a → a.name ≢ none
  pub books : Books w.heap (with_ops (of_rules w.rules) drafts)
