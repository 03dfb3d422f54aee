-- ===== src/Memory.antt =====
-- The memory that the packet path reads and writes: the packet buffer, and the byte arrays at the
-- end of the `struct memref` objects. A `memref` that does not exist has no bytes.
pub mod Laws
pub mod Copy
use mathlib.Core.Bool.{Bool, true, false, ◌&&◌}
use xdpacket.Base.{
  ℕ, zero, suc, ◌+◌, ◌≤◌, ◌<◌, Option, none, some, List, [], ◌==◌, ltb, if◌then◌else◌, get_elem?,
  get_or, set, length, ◌>>=◌,
}

pub data Place : Type 0 where
  packet : Place
  memref : ℕ → Place

abbrev pub same_place : Place → Place → Bool
same_place packet packet = true
same_place packet (memref r) = false
same_place (memref r) packet = false
same_place (memref r) (memref r') = r == r'

pub record Memory : Type 0 where
  pub pkt : List ℕ
  pub refs : ℕ → List ℕ

-- A pointer into one of the byte arrays.
pub record Ptr : Type 0 where
  pub place : Place
  pub off : ℕ

abbrev pub region : Memory → Place → List ℕ
region m packet = m.pkt
region m (memref r) = m.refs r

abbrev pub set_region : Memory → Place → List ℕ → Memory
set_region m packet bs = record m { pkt = bs }
set_region m (memref r) bs = record m { refs = λ r'. if r == r' then bs else m.refs r' }

abbrev pub byte : Memory → Place → ℕ → ℕ
byte m p i = get_or (region m p) i 0

-- `ptr[i]`, and `ptr[i] = v`: `none` is an access outside the array.
unfoldable pub peek : Memory → Ptr → ℕ → Option ℕ
peek m p i = get_elem? (region m p.place) (p.off + i)

abbrev pub poked : Memory → Ptr → ℕ → ℕ → Memory
poked m p i v = set_region m p.place (set (region m p.place) (p.off + i) v)

unfoldable pub poke : Memory → Ptr → ℕ → ℕ → Option Memory
poke m p i v = if ltb (p.off + i) (length (region m p.place)) then some (poked m p i v) else none

-- `n` bytes at `p` and at `q` have no byte in common.
abbrev pub apart : Ptr → Ptr → ℕ → Bool
apart p q n =
    if same_place p.place q.place
    then (if ltb q.off (p.off + n) then (if ltb p.off (q.off + n) then n == 0 else true) else true)
    else true

-- `memcpy`: the bytes `i` to `i + k` in turn.
unfoldable pub copy : Memory → Ptr → Ptr → ℕ → ℕ → Option Memory
copy m to from i zero = some m
copy m to from i (suc k) = peek m from i >>= λ v. poke m to i v >>= λ m'. copy m' to from (i + 1) k

-- C leaves a copy between arrays that overlap undefined.
unfoldable pub memcpy : Memory → Ptr → Ptr → ℕ → Option Memory
memcpy m to from n = if apart to from n then copy m to from 0 n else none

-- `memcmp(p, q, n) == 0`
unfoldable pub compare_bytes : Memory → Ptr → Ptr → ℕ → ℕ → Option Bool
compare_bytes m p q i zero = some true
compare_bytes m p q i (suc k) = peek m p i >>= λ a.
    peek m q i >>= λ b. compare_bytes m p q (i + 1) k >>= λ rest. some ((a == b) && rest)
