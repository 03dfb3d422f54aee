-- ===== src/Memory/Laws.antt =====
-- Reads after writes, copies and comparisons, byte by byte.
use xdpacket.Base.{
  ℕ, suc, ◌+◌, ◌≤◌, ◌≡◌, ◌↔◌, refl, arith, true, ◌&&◌, none, some, List, ◌==◌, if◌then◌else◌, set,
  length, get_elem?-eq-get_or, get_elem?-eq-none, length-set, get_or-set_self, get_or-set_ne,
}
use xdpacket.Memory.{
  Place, packet, memref, same_place, Memory, Ptr, region, set_region, byte, peek, poked, poke,
}

-- `n` bytes from `p` on lie inside their array.
abbrev pub Holds : Memory → Ptr → ℕ → Type 0
Holds m p n = p.off + n ≤ length (region m p.place)

region-set_region :
    (m : Memory) (p q : Place) (bs : List ℕ)
    → region (set_region m p bs) q ≡ (if same_place p q then bs else region m q)
region-set_region m packet packet bs = refl
region-set_region m packet (memref r) bs = refl
region-set_region m (memref r) packet bs = refl
region-set_region m (memref r) (memref r') bs = refl

pub same_place_iff : (p q : Place) → (same_place p q ≡ true) ↔ (p ≡ q)
same_place_iff packet packet = ground arith
same_place_iff packet (memref r) = ground arith
same_place_iff (memref r) packet = ground arith
same_place_iff (memref r) (memref r') = ground arith

pub peek-eq :
    (m : Memory) (p : Ptr) (i : ℕ)
    → Holds m p (suc i)
    → peek m p i ≡ some (byte m p.place (p.off + i))
unfolding peek
peek-eq m p i h = get_elem?-eq-get_or (region m p.place) (p.off + i) 0 (omega arith)

pub poke-eq :
    (m : Memory) (p : Ptr) (i v : ℕ) → Holds m p (suc i) → poke m p i v ≡ some (poked m p i v)
unfolding poke
poke-eq m p i v h = ground arith

pub poke-none :
    (m : Memory) (p : Ptr) (i v : ℕ) → length (region m p.place) ≤ p.off + i → poke m p i v ≡ none
unfolding poke
poke-none m p i v h = ground arith

pub length-poked :
    (m : Memory) (p : Ptr) (i v : ℕ) (q : Place)
    → length (region (poked m p i v) q) ≡ length (region m q)
length-poked m p i v q = ground (
  arith,
  region-set_region m p.place q (set (region m p.place) (p.off + i) v),
  same_place_iff p.place q,
  length-set (region m p.place) (p.off + i) v,
)

pub byte-poked :
    (m : Memory) (p : Ptr) (i v : ℕ) (q : Place) (j : ℕ)
    → Holds m p (suc i)
    → byte (poked m p i v) q j
      ≡ (if same_place p.place q && (p.off + i) == j then v else byte m q j)
byte-poked m p i v q j h = ground (
  arith,
  region-set_region m p.place q (set (region m p.place) (p.off + i) v),
  same_place_iff p.place q,
  get_or-set_self (region m p.place) (p.off + i) v 0,
  get_or-set_ne (region m p.place) (p.off + i) j v 0,
)

pub peek-none :
    (m : Memory) (p : Ptr) (i : ℕ) → length (region m p.place) ≤ p.off + i → peek m p i ≡ none
unfolding peek
peek-none m p i h = get_elem?-eq-none (region m p.place) (p.off + i) h
