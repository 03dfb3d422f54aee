-- ===== src/Memref/Ledger.antt =====
-- The books of the memory references: who holds how many references to each state and value.
use Prim.Native.String.{String}
use xdpacket.Base.{
  ℕ, ◌<◌, true, false, none, some, ◌≡◌, ◌≢◌, inl, inr, refl, sym, ◌∙◌, arith, ◌==◌, Bool-cases,
  length,
}
use xdpacket.Judy.{JudySl}
use xdpacket.Registry.{Registry, set_cell, find, unpublish}
use xdpacket.Registry.Laws.{
  IsValid, Same, Named-remove, update-IsValid, find-unpublish, cell-unpublish, unpublish-IsValid,
}
use xdpacket.Memref.{Memref, counted, memref_is_value}

-- A state counts the references to it, and has some.
pub record IsShared (m : Memref) (n : ℕ) : Type 0 where
  pub global : memref_is_value m ≡ false
  pub counts : m.refcnt ≡ n
  pub used : 0 < n
  pub key : String
  pub named : m.name ≡ some key

-- A value has one owner and no entry among the names.
pub record IsOwned {J : JudySl} (r : Registry J Memref) (p : ℕ) (m : Memref) (n : ℕ) : Type 0 where
  pub static : memref_is_value m ≡ true
  pub single : n ≡ 1
  pub unlisted : (k : String) → find r k ≢ p

pub data Entry {J : JudySl} (r : Registry J Memref) (p : ℕ) (m : Memref) (n : ℕ) : Type 0 where
  shared : IsShared m n → Entry r p m n
  owned : IsOwned r p m n → Entry r p m n

-- Each state counts its references, each value has one, all have the bytes of their field, and
-- nothing is held of a memref that is gone.
pub record Ledger {J : JudySl} (r : Registry J Memref) (held : ℕ → ℕ) : Type 0 where
  pub valid : IsValid counted r
  pub entries : (p : ℕ) (m : Memref) → r.cell p ≡ some m → Entry r p m (held p)
  pub bytes : (p : ℕ) (m : Memref) → r.cell p ≡ some m → length m.bytes ≡ m.set.len
  pub gone : (p : ℕ) → r.cell p ≡ none → held p ≡ 0

module _ {J : JudySl} where
  -- An entry moves to another registry if the names for it there are some of those here.
  pub Entry-move :
      (r s : Registry J Memref) (p : ℕ) (m : Memref) (n n' : ℕ)
      → n' ≡ n
      → ((k : String) → find s k ≡ p → (j : String) × (find r j ≡ p))
      → Entry r p m n
      → Entry s p m n'
  Entry-move r s p m n n' same back (shared v) = shared record {
    global = v.global;
    counts = v.counts ∙ sym same;
    used = omega (arith, v.used, same);
    key = v.key;
    named = v.named;
  }
  Entry-move r s p m n n' same back (owned v) = owned record {
    static = v.static;
    single = same ∙ v.single;
    unlisted = λ k hit. let (j, there) = back k hit in v.unlisted j there;
  }

  pub Ledger-Same :
      (r s : Registry J Memref) (held held' : ℕ → ℕ)
      → Same r s
      → IsValid counted s
      → ((q : ℕ) → held' q ≡ held q)
      → Ledger r held
      → Ledger s held'
  Ledger-Same r s held held' same valid eq v = record {
    valid = valid;
    entries = λ p m at.
        Entry-move r s p m (held p) (held' p) (eq p) (λ k hit. (k, sym (same.names k) ∙ hit))
          (v.entries p m (sym (same.cells p) ∙ at));
    bytes = λ p m at. v.bytes p m (sym (same.cells p) ∙ at);
    gone = λ p at. eq p ∙ v.gone p (sym (same.cells p) ∙ at);
  }

  -- A state gets another count.
  pub Ledger-set :
      (r : Registry J Memref) (p n : ℕ) (m : Memref) (held held' : ℕ → ℕ)
      → Ledger r held
      → r.cell p ≡ some m
      → IsShared (record m { refcnt = n }) (held' p)
      → ((q : ℕ) → p ≢ q → held' q ≡ held q)
      → Ledger (set_cell r p (some (record m { refcnt = n }))) held'
  unfolding find
  Ledger-set r p n m held held' v at here there = record {
    valid = update-IsValid counted r p m (record m { refcnt = n }) v.valid at refl;
    entries = λ q b e. elim (Bool-cases (p == q)) [
      | inl hit ↦
          let same : record m { refcnt = n } ≡ b = ground arith in
          let same_p : p ≡ q = ground arith in rw (sym same, sym same_p) (shared here)
      | inr miss ↦
          Entry-move r _ q b (held q) (held' q) (ground (arith, there q)) (λ k hit. (k, hit))
            (v.entries q b (ground arith))
    ];
    bytes = λ q b e. ground (arith, v.bytes q b, v.bytes p m);
    gone = λ q e. ground (arith, v.gone q, there q);
  }

  -- An object leaves the heap with its last reference, and its name goes with it.
  pub Ledger-unpublish :
      (r : Registry J Memref) (p : ℕ) (k : String) (m : Memref) (held held' : ℕ → ℕ)
      → Ledger r held
      → r.cell p ≡ some m
      → m.name ≡ some k
      → held' p ≡ 0
      → ((q : ℕ) → p ≢ q → held' q ≡ held q)
      → Ledger (unpublish r p k) held'
  Ledger-unpublish r p k m held held' v at bears here there =
      let names = find-unpublish counted r p k m v.valid at bears in
      let cells = cell-unpublish counted r p k m v.valid at bears in
      record {
        valid = unpublish-IsValid counted r p k m v.valid at bears;
        entries = λ q b e. elim (Bool-cases (p == q)) [
          | inl hit ↦ absurd (ground (arith, cells q))
          | inr miss ↦
              let at_q : r.cell q ≡ some b = ground (arith, cells q) in
              Entry-move r _ q b (held q) (held' q) (ground (arith, there q))
                (λ j hit. (j, ground (arith, names j, v.valid.null))) (v.entries q b at_q)
        ];
        bytes = λ q b e. ground (arith, cells q, v.bytes q b);
        gone = λ q e. ground (arith, cells q, v.gone q, there q);
      }

  -- A value leaves the heap.
  pub Ledger-free :
      (r : Registry J Memref) (p : ℕ) (m : Memref) (held held' : ℕ → ℕ)
      → Ledger r held
      → r.cell p ≡ some m
      → ((k : String) → find r k ≢ p)
      → held' p ≡ 0
      → ((q : ℕ) → p ≢ q → held' q ≡ held q)
      → Ledger (set_cell r p none) held'
  unfolding find
  Ledger-free r p m held held' v at unlisted here there = record {
    valid = record {
      live = λ k.
          Named-remove counted r.cell p (find r k) k (λ e. unlisted k (sym e)) (v.valid.live k);
      null = ground (arith, v.valid.null);
      fresh = λ q lt. ground (arith, v.valid.fresh q);
    };
    entries = λ q b e. elim (Bool-cases (p == q)) [
      | inl hit ↦ absurd (ground arith)
      | inr miss ↦
          Entry-move r _ q b (held q) (held' q) (ground (arith, there q)) (λ k hit. (k, hit))
            (v.entries q b (ground arith))
    ];
    bytes = λ q b e. ground (arith, v.bytes q b);
    gone = λ q e. ground (arith, v.gone q, there q);
  }
