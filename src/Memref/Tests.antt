-- ===== src/Memref/Tests.antt =====
-- A new state, a shared one, and a state that does not match.
use text.Mathlib.Text.{◌==◌ as str_eq}
use Prim.Native.String.{String}
use xdpacket.Base.{ℕ, true, none, some, [], ◌∷◌, pos, ◌==◌, if◌then◌else◌}
use xdpacket.Judy.Model.{words}
use xdpacket.FieldSet.{FieldSet}
use xdpacket.Registry.{Registry}
use xdpacket.Field.{Nstr, whole}
use xdpacket.Memref.{Memref}

abbrev port : FieldSet
port = record { offt = pos 36; len = 2; mask = 0xff; flags = 0 }

abbrev saved : Memref
saved = record {
  name = some "saved port";
  refcnt = 1;
  rendered = none;
  set = port;
  bytes = 0 ∷ 0 ∷ [];
}

-- One state, with one reference.
abbrev one : Registry words Memref
one = record {
  next = 1;
  grants = λ n. true;
  cell = λ p. if 1 == p then some saved else none;
  js = ("saved port", 1) ∷ [];
}

abbrev copy_of : ℕ → String → ℕ → Nstr
copy_of n k max = whole k
