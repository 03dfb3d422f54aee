-- ===== src/Op/New/Asked.antt =====
-- What was asked for by name, where it is found on the heap.
use Prim.Native.String.{String}
use xdpacket.Base.{ℕ, true, Option, none, some, ◌≡◌}
use xdpacket.Judy.{JudySl}
use xdpacket.Field.{Field}
use xdpacket.Memref.{Memref, memref_is_value}
use xdpacket.Memref.Take.{IsStateOf}
use xdpacket.Op.{Heap}
use xdpacket.Op.Books.{Stays}

-- The field of the name that was asked for, if one was.
abbrev pub IsField : {J : JudySl} → Heap J → Option String → ℕ → Type 0
IsField h none p = Unit {0}
IsField h (some k) p = (f : Field) × (h.fields.cell p ≡ some f) × (f.name ≡ some k)

-- And the state.
abbrev pub IsState : {J : JudySl} → Heap J → Option String → ℕ → Type 0
IsState h none p = Unit {0}
IsState h (some k) p = (m : Memref) × (h.states.cell p ≡ some m) × IsStateOf k m

-- A value, if a text was given.
abbrev pub HasValue : {J : JudySl} → Heap J → Option String → ℕ → Type 0
HasValue h none p = Unit {0}
HasValue h (some text) p = (m : Memref) × (h.states.cell p ≡ some m) × (memref_is_value m ≡ true)

module _ {J : JudySl} (h h' : Heap J) (stays : Stays h h') where
  pub IsField-Stays : (a : Option String) (p : ℕ) → IsField h a p → IsField h' a p
  IsField-Stays none p is = tt
  IsField-Stays (some k) p (f, at, bears) =
      let (n, there) = stays.fields p f at in (record f { refcnt = n }, there, bears)

  pub IsState-Stays : (a : Option String) (p : ℕ) → IsState h a p → IsState h' a p
  unfolding memref_is_value
  IsState-Stays none p is = tt
  IsState-Stays (some k) p (m, at, is) =
      let (n, there) = stays.states p m at in (record m { refcnt = n }, there, is)
