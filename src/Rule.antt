-- ===== src/Rule.antt =====
-- src/rule.c: the named rules, each with the operations it owns. A queue is the list of operations
-- that JL_LOOP visits. A fault, `none`, is a use of a pointer that is null or freed.
pub mod Total
pub mod Books
mod Sum
pub mod Get
pub mod Safe
pub mod Bag
pub mod Reach
pub mod Invariant
pub mod Packets
pub mod Command
pub mod Example
mod Tests
pub mod Free
pub mod New
use Prim.Native.String.{String}
use xdpacket.Base.{
  ℕ, Bool, true, false, Option, none, some, List, [], ◌∷◌, refl, ◌==◌, if◌then◌else◌, ◌>>=◌,
}
use xdpacket.Judy.{JudySl}
use xdpacket.Registry.{Counted, Registry, set_cell, alloc, get, release, unpublish, publish}
use xdpacket.Field.{Nstr, no_string, truncated, whole, max_line_len}
use xdpacket.Op.{Op, Heap, op_free}

-- `struct rule`
pub record Rule : Type 0 where
  pub name : Option String
  pub match_jq : List Op
  pub write_jq : List Op
  pub refcnt : ℕ

abbrev pub counted : Counted Rule
counted = record {
  name = λ a. a.name;
  refcnt = λ a. a.refcnt;
  with_refcnt = λ a n. record a { refcnt = n };
  refcnt-with_refcnt = λ a n. refl;
  name-with_refcnt = λ a n. refl;
  with_refcnt_twice = λ a n k. refl;
  with_refcnt_self = λ a. refl;
}

-- The fields and memrefs, and the rules over them.
pub record Rules (J : JudySl) : Type 0 where
  pub heap : Heap J
  pub rules : Registry J Rule

abbrev pub drafted : List Op → List Op → Rule
drafted matches writes = record { name = none; match_jq = matches; write_jq = writes; refcnt = 0 }

-- A null name is `none`.
abbrev pub copied : (ℕ → String → ℕ → Nstr) → ℕ → Option String → Option Nstr
copied nstralloc n none = none
copied nstralloc n (some k) = some (nstralloc n k max_line_len)

module _ {J : JudySl} where
  -- JL_LOOP with `op_free`.
  pub ops_free : Heap J → List Op → Option (Heap J)
  ops_free h [] = some h
  ops_free h (o ∷ os) = op_free h o >>= λ h'. ops_free h' os

  pub rule_release_refs : Heap J → List Op → List Op → Option (Heap J)
  rule_release_refs h matches writes = ops_free h matches >>= λ h'. ops_free h' writes

  -- Past the check of the count: out of the array, the operations freed, off the heap.
  erased : Rules J → ℕ → Rule → Option (Rules J)
  erased w p a = a.name >>= λ k. rule_release_refs w.heap a.match_jq a.write_jq >>= λ h.
      some record { heap = h; rules = unpublish w.rules p k }

  pub rule_free : Rules J → ℕ → Option (Rules J)
  rule_free w p =
      if p == 0
      then some w
      else (w.rules.cell p >>= λ a. if a.refcnt == 0 then erased w p a else some w)

  pub rule_get : Rules J → String → Option (ℕ × Rules J)
  rule_get w k = get counted w.rules k >>= λ r. some (r.0, record w { rules = r.1 })

  pub rule_release : Rules J → ℕ → Option (Rules J)
  rule_release w p = release counted w.rules p >>= λ r. some (record w { rules = r })

  die : Rules J → ℕ → Option (ℕ × Rules J)
  die w p = rule_free w p >>= λ w'. some (0, w')

  published : Heap J → ℕ → Bool × Registry J Rule → Option (ℕ × Rules J)
  published h p (true, r) = some (p, record { heap = h; rules = r })
  published h p (false, r) = die (record { heap = h; rules = r }) p

  -- From `nstralloc` on.
  named : Rules J → ℕ → Rule → Nstr → Option (ℕ × Rules J)
  named w p a no_string = die w p
  named w p a (truncated k) =
      die (record w { rules = set_cell w.rules p (some (record a { name = some k })) }) p
  named w p a (whole k) =
      published w.heap p
        (publish (set_cell w.rules p (some (record a { name = some k }))) k p false)

  -- The object is made first, and on an error it frees the operations; without memory for it they
  -- are freed here.
  allocated : Heap J → Rule → Option Nstr → ℕ × Registry J Rule → Option (ℕ × Rules J)
  allocated h a str (p, r) =
      if p == 0
      then (rule_release_refs h a.match_jq a.write_jq >>= λ h'.
          some (0, record { heap = h'; rules = r }))
      else elim str [
        | none ↦ die (record { heap = h; rules = r }) p
        | some text ↦ named (record { heap = h; rules = r }) p a text
      ]

  module _ (nstralloc : ℕ → String → ℕ → Nstr) where
    -- The new rule, or null; it takes charge of the operations.
    pub rule_new : Rules J → Option String → List Op → List Op → Option (ℕ × Rules J)
    rule_new w name matches writes =
        allocated w.heap (drafted matches writes) (copied nstralloc w.rules.next name)
          (alloc w.rules (drafted matches writes))
