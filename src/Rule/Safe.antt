-- ===== src/Rule/Safe.antt =====
-- Every operation of a rule, and every one on its own, is compiled for the heap as it is.
use mathlib.Core.List.{Memᴰ}
use mathlib.Core.List.Memᴰ
use xdpacket.Base.{ℕ, ◌+◌, ◌≤◌, Option, some, List, [], ◌∷◌, ◌≡◌, ◌⊎◌, inl, inr, ap, arith}
use xdpacket.Judy.{JudySl}
use xdpacket.Registry.Accounts.{one_at}
use xdpacket.Op.{Op}
use xdpacket.Op.Books.{Agrees}
use xdpacket.Op.New.Made.{IsCompiled}
use xdpacket.Op.Persist.{IsCompiled-Agrees}
use xdpacket.Rule.{Rule, Rules}
use xdpacket.Rule.Total.{total_member}
use xdpacket.Rule.Books.{
  ops_fields, ops_states, with_ops, rule_fields, rule_states, sum_of, of_rules, RuleBooks,
}

-- An operation that is in a queue of a rule, or in a list of its own.
abbrev pub Owned : {J : JudySl} → Rules J → List Op → Op → Type 0
Owned w drafts o =
    Memᴰ o drafts
    ⊎ (p : ℕ) × (a : Rule) × (w.rules.cell p ≡ some a) × (Memᴰ o a.match_jq ⊎ Memᴰ o a.write_jq)

pub record Safe {J : JudySl} (w : Rules J) (drafts : List Op) (held : ℕ → ℕ) : Type 0 where
  pub books : RuleBooks w drafts held
  pub compiled : (o : Op) → Owned w drafts o → IsCompiled w.heap o

Mem-fields :
    (o : Op) (os : List Op) (q : ℕ)
    → Memᴰ o os
    → one_at o.dst_field q + one_at o.src_field q ≤ ops_fields os q
unfolding ops_fields
Mem-fields o [] q m = absurd (Memᴰ.not-nil m)
Mem-fields o (x ∷ os) q (Memᴰ.head e) = rw e (omega arith)
Mem-fields o (x ∷ os) q (Memᴰ.tail m) = omega (arith, Mem-fields o os q m)

Mem-states :
    (o : Op) (os : List Op) (q : ℕ) → Memᴰ o os → one_at o.dst q + one_at o.src q ≤ ops_states os q
unfolding ops_states
Mem-states o [] q m = absurd (Memᴰ.not-nil m)
Mem-states o (x ∷ os) q (Memᴰ.head e) = rw e (omega arith)
Mem-states o (x ∷ os) q (Memᴰ.tail m) = omega (arith, Mem-states o os q m)

module _ {J : JudySl} (w : Rules J) (drafts : List Op) (held : ℕ → ℕ)
    (v : RuleBooks w drafts held) where
  -- A rule that is there has its part in the sum over all rules.
  rule_part :
      (weight : Option Rule → ℕ) (p : ℕ) (a : Rule)
      → w.rules.cell p ≡ some a
      → weight (some a) ≤ sum_of weight w.rules
  rule_part weight p a at = omega (
    arith,
    ap weight at,
    total_member (λ i. weight (w.rules.cell i)) p w.rules.next (ground (arith, v.rules.valid.null))
        (ground (arith, v.rules.valid.fresh p)),
  )

  held_fields :
      (o : Op) (q : ℕ)
      → Owned w drafts o
      → one_at o.dst_field q + one_at o.src_field q ≤ (with_ops (of_rules w.rules) drafts).fields q
  unfolding rule_fields
  held_fields o q (inl m) = omega (arith, Mem-fields o drafts q m)
  held_fields o q (inr (p, a, at, inl m)) =
      omega (arith, Mem-fields o a.match_jq q m, rule_part (λ b. rule_fields b q) p a at)
  held_fields o q (inr (p, a, at, inr m)) =
      omega (arith, Mem-fields o a.write_jq q m, rule_part (λ b. rule_fields b q) p a at)

  held_states :
      (o : Op) (q : ℕ)
      → Owned w drafts o
      → one_at o.dst q + one_at o.src q ≤ (with_ops (of_rules w.rules) drafts).states q
  unfolding rule_states
  held_states o q (inl m) = omega (arith, Mem-states o drafts q m)
  held_states o q (inr (p, a, at, inl m)) =
      omega (arith, Mem-states o a.match_jq q m, rule_part (λ b. rule_states b q) p a at)
  held_states o q (inr (p, a, at, inr m)) =
      omega (arith, Mem-states o a.write_jq q m, rule_part (λ b. rule_states b q) p a at)

module _ {J : JudySl} (w w' : Rules J) (drafts drafts' : List Op) (held held' : ℕ → ℕ) where
  -- An operation that stays owned stays compiled.
  pub still_compiled :
      Safe w drafts held
      → RuleBooks w' drafts' held'
      → Agrees w.heap w'.heap
      → (o : Op) → Owned w drafts o
      → Owned w' drafts' o
      → IsCompiled w'.heap o
  still_compiled v books agree o mine mine' =
      let c = v.compiled o mine in
      IsCompiled-Agrees w.heap w'.heap (with_ops (of_rules w'.rules) drafts') books.books agree o
        (λ q. held_fields w' drafts' held' books o q mine')
        (λ q. held_states w' drafts' held' books o q mine')
        (ground (arith, v.books.books.fields.valid.null, c.to_live))
        (ground (arith, v.books.books.fields.valid.null, c.from_live)) c

  -- A step that makes no new operations.
  pub Safe-step :
      Safe w drafts held
      → RuleBooks w' drafts' held'
      → Agrees w.heap w'.heap
      → ((o : Op) → Owned w' drafts' o → Owned w drafts o)
      → Safe w' drafts' held'
  Safe-step v books agree back = record {
    books = books;
    compiled = λ o mine'. still_compiled v books agree o (back o mine') mine';
  }
