-- ===== src/Rout/Life.antt =====
-- src/rout.c, the life cycle: a rout holds a reference to its rule and one to its interface. What an
-- interface is besides its name and its count is a parameter.
pub mod Laws
mod Tests
use Prim.Native.String.{String}
use xdpacket.Base.{ℕ, Bool, true, false, Option, none, some, List, map, ◌==◌, if◌then◌else◌, ◌>>=◌}
use xdpacket.Judy.{JudySl}
use xdpacket.Registry.{Counted, Registry, get, release}
use xdpacket.Op.{Op}
use xdpacket.Rule.{Rule, Rules, rule_get, rule_release}
use xdpacket.Rout.{RoutSet}

-- `struct rout`: two addresses, and the set, which may be null.
pub record Rout : Type 0 where
  pub rule : ℕ
  pub output : ℕ
  pub set : Option RoutSet

-- The rules and the interfaces.
pub record Net (J : JudySl) (A : Type 0) : Type 0 where
  pub rules : Rules J
  pub ifaces : Registry J A

-- The memory that `calloc` gives.
abbrev pub empty : Rout
empty = record { rule = 0; output = 0; set = none }

-- The set shares the queues of the rule.
pub set_from : Rule → ℕ → RoutSet
set_from a output = record {
  if_out = output;
  match_jq = map (λ (o : Op). o.set) a.match_jq;
  write_jq = map (λ (o : Op). o.set) a.write_jq;
  count_match = 0;
}

-- `memory` is whether `calloc` succeeds.
pub rout_set_new : Bool → Rule → ℕ → Option RoutSet
rout_set_new memory a output = if memory then some (set_from a output) else none

module _ {J : JudySl} {A : Type 0} (c : Counted A) where
  abbrev pub iface_get : Registry J A → String → Option (ℕ × Registry J A)
  iface_get = get c

  abbrev pub iface_release : Registry J A → ℕ → Option (Registry J A)
  iface_release = release c

  pub rout_free : Net J A → Rout → Option (Net J A)
  rout_free n rt = rule_release n.rules rt.rule >>= λ w.
      iface_release n.ifaces rt.output >>= λ i. some (record { rules = w; ifaces = i })

  die : Net J A → Rout → Option (Option Rout × Net J A)
  die n rt = rout_free n rt >>= λ n'. some (none, n')

  set_made : Net J A → Rout → Option RoutSet → Option (Option Rout × Net J A)
  set_made n rt none = die n rt
  set_made n rt (some set) = some (some (record rt { set = some set }), n)

  -- From `iface_get` on.
  output_got : Net J A → Rout → String → Bool → Option (Option Rout × Net J A)
  output_got n rt out memory = iface_get n.ifaces out >>= λ r.
      let rt' : Rout = record rt { output = r.0 } in
      let n' : Net J A = record n { ifaces = r.1 } in
      if r.0 == 0
      then die n' rt'
      else (n'.rules.rules.cell rt'.rule >>= λ a.
          set_made n' rt' (rout_set_new memory a rt'.output))

  -- From `rule_get` on.
  rule_got : Net J A → String → String → Bool → Option (Option Rout × Net J A)
  rule_got n k out memory = rule_get n.rules k >>= λ r.
      let rt : Rout = record empty { rule = r.0 } in
      let n' : Net J A = record n { rules = r.1 } in
      if r.0 == 0 then die n' rt else output_got n' rt out memory

  -- `memory` and `set_memory` are whether the two calls of `calloc` succeed.
  pub rout_new :
      Net J A → Bool → Bool → Option String → Option String → Option (Option Rout × Net J A)
  rout_new n memory set_memory none out = some (none, n)
  rout_new n memory set_memory (some k) none = some (none, n)
  rout_new n memory set_memory (some k) (some out) =
      if memory then rule_got n k out set_memory else some (none, n)
