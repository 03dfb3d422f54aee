-- ===== src/Rule/Reach.antt =====
-- The states that commands on operations and rules can reach.

use mathlib.Core.List.{Permᴰ}
use Prim.Native.String.{String}
use xdpacket.Base.{ℕ, ◌+◌, ◌<◌, ◌^◌, Bool, none, some, List, [], ◌∷◌, ◌++◌, ◌≡◌}
use xdpacket.Judy.{JudySl}
use xdpacket.Registry.{initial}
use xdpacket.Registry.Accounts.{one_at}
use xdpacket.Op.{Op, Heap, Request, Calls, op_new, op_free}
use xdpacket.Op.Books.{nothing, Books, HasRoom}
use xdpacket.Rule.{Rule, Rules, rule_new, rule_free, rule_get, rule_release}
use xdpacket.Rule.Books.{with_ops, of_rules}

-- The heap with the rules, the operations that no rule owns yet, and how many references are held
-- to each rule.
pub record State (J : JudySl) : Type 0 where
  pub world : Rules J
  pub drafts : List Op
  pub held : ℕ → ℕ

module _ {J : JudySl} (c : Calls) where
  -- Every call that makes, frees, takes or gives back, with what it returned. A call frees any
  -- operation that no rule owns, and a rule takes any of them, in any order. A call that takes
  -- references is made where the counts of what it takes from have room.
  pub data Step (s : State J) : State J → Type 0 where
    make_op :
        (memory : Bool) (q : Request) (o : Op) (h : Heap J)
        → HasRoom (with_ops (of_rules s.world.rules) s.drafts)
        → op_new c s.world.heap memory q ≡ some (some o, h)
        → Step s (record s { world = record s.world { heap = h }; drafts = o ∷ s.drafts })
    make_no_op :
        (memory : Bool) (q : Request) (h : Heap J)
        → HasRoom (with_ops (of_rules s.world.rules) s.drafts)
        → op_new c s.world.heap memory q ≡ some (none, h)
        → Step s (record s { world = record s.world { heap = h } })
    free_op :
        (o : Op) (rest : List Op) (h : Heap J)
        → Permᴰ s.drafts (o ∷ rest)
        → op_free s.world.heap o ≡ some h
        → Step s (record s { world = record s.world { heap = h }; drafts = rest })
    make_rule :
        (k : String) (matches writes rest : List Op) (p : ℕ) (w : Rules J)
        → Permᴰ s.drafts (matches ++ (writes ++ rest))
        → rule_new c.nstralloc s.world (some k) matches writes ≡ some (p, w)
        → Step s (record s { world = w; drafts = rest })
    free_rule :
        (p : ℕ) (a : Rule) (w : Rules J)
        → s.world.rules.cell p ≡ some a
        → rule_free s.world p ≡ some w
        → Step s (record s { world = w })
    get_rule :
        (k : String) (p : ℕ) (w : Rules J)
        → ((q : ℕ) → s.held q + 1 < 2 ^ 32)
        → rule_get s.world k ≡ some (p, w)
        → Step s (record s { world = w; held = λ q. s.held q + one_at p q })
    release_rule :
        (p : ℕ) (held : ℕ → ℕ) (w : Rules J)
        → ((q : ℕ) → s.held q ≡ held q + one_at p q)
        → rule_release s.world p ≡ some w
        → Step s (record s { world = w; held = held })

  -- From fields to which nothing refers yet, and no rules.
  pub data Reachable : State J → Type 0 where
    start :
        (h : Heap J) (grants : ℕ → Bool)
        → Books h nothing
        → Reachable record {
          world = record { heap = h; rules = initial grants };
          drafts = [];
          held = λ q. 0;
        }
    then_step : (s s' : State J) → Reachable s → Step s s' → Reachable s'
