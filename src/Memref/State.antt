-- ===== src/Memref/State.antt =====
-- A state is shared by its name, and goes when the last reference does.
use Prim.Native.String.{String}
use xdpacket.Base.{some, ◌≡◌}
use xdpacket.Judy.{JudySl}
use xdpacket.FieldSet.{FieldSet}
use xdpacket.Registry.{Registry, set_cell, find, take_ref}
use xdpacket.Registry.Laws.{IsValid}
use xdpacket.Memref.{Memref, counted}

module _ {J : JudySl} (r : Registry J Memref) (v : IsValid counted r) where
  module _ (k : String) (m : Memref) (at : r.cell (find r k) ≡ some m) where
    abbrev one_more : Registry J Memref
    one_more = set_cell r (find r k) (some (take_ref counted m))

    abbrev back : Registry J Memref
    back = set_cell one_more (find r k) (some m)
