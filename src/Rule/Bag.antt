-- ===== src/Rule/Bag.antt =====
-- The operations that no rule owns, in another order.
use mathlib.Core.List.{Memᴰ}
use mathlib.Core.List.{Permᴰ}
use xdpacket.Base.{ℕ, List, ◌≡◌, inl, inr, refl, sym, ◌∙◌, arith}
use xdpacket.Judy.{JudySl}
use xdpacket.Op.{Op}
use xdpacket.Op.Books.{Books-ext, Shrinks-refl, Shrinks-Agrees}
use xdpacket.Rule.{Rules}
use xdpacket.Rule.Books.{ops_fields, ops_states}
use xdpacket.Rule.Safe.{Safe, Safe-step}

Perm-fields : {xs ys : List Op} (q : ℕ) → Permᴰ xs ys → ops_fields xs q ≡ ops_fields ys q
unfolding ops_fields
Perm-fields q Permᴰ.nil = refl
Perm-fields q (Permᴰ.cons e p) = rw (e, Perm-fields q p) refl
Perm-fields q (Permᴰ.swap e e') = rw (e, e') (omega arith)
Perm-fields q (Permᴰ.trans p p') = Perm-fields q p ∙ Perm-fields q p'

Perm-states : {xs ys : List Op} (q : ℕ) → Permᴰ xs ys → ops_states xs q ≡ ops_states ys q
unfolding ops_states
Perm-states q Permᴰ.nil = refl
Perm-states q (Permᴰ.cons e p) = rw (e, Perm-states q p) refl
Perm-states q (Permᴰ.swap e e') = rw (e, e') (omega arith)
Perm-states q (Permᴰ.trans p p') = Perm-states q p ∙ Perm-states q p'

Perm-Mem : {xs ys : List Op} (o : Op) → Permᴰ xs ys → Memᴰ o ys → Memᴰ o xs
Perm-Mem o Permᴰ.nil m = m
Perm-Mem o (Permᴰ.cons e p) (Memᴰ.head e') = Memᴰ.head (e' ∙ sym e)
Perm-Mem o (Permᴰ.cons e p) (Memᴰ.tail m) = Memᴰ.tail (Perm-Mem o p m)
Perm-Mem o (Permᴰ.swap e e') (Memᴰ.head h) = Memᴰ.tail (Memᴰ.head (h ∙ sym e'))
Perm-Mem o (Permᴰ.swap e e') (Memᴰ.tail (Memᴰ.head h)) = Memᴰ.head (h ∙ sym e)
Perm-Mem o (Permᴰ.swap e e') (Memᴰ.tail (Memᴰ.tail m)) = Memᴰ.tail (Memᴰ.tail m)
Perm-Mem o (Permᴰ.trans p p') m = Perm-Mem o p (Perm-Mem o p' m)

pub Safe-Perm :
    {J : JudySl} (w : Rules J) (drafts drafts' : List Op) (held : ℕ → ℕ)
    → Permᴰ drafts drafts'
    → Safe w drafts held
    → Safe w drafts' held
Safe-Perm w drafts drafts' held p v =
    Safe-step w w drafts drafts' held held v
      record {
        rules = v.books.rules;
        names = v.books.names;
        books =
            Books-ext w.heap _ _ v.books.books (λ q. omega (arith, Perm-fields q p))
              (λ q. omega (arith, Perm-states q p));
      }
      (Shrinks-Agrees w.heap w.heap (Shrinks-refl w.heap))
      (λ o mine. elim mine [ inl m ↦ inl (Perm-Mem o p m) | inr old ↦ inr old ])
