-- ===== src/Operations/Overrun.antt =====
-- A source field longer than the destination: the length of the longer one is used for both.
use xdpacket.Base.{ℕ, ◌+◌, ◌<◌, ◌≡◌, none, some, length}
use xdpacket.Memory.{packet, Memory, Ptr}
use xdpacket.FieldSet.{op_pkt_offset}
use xdpacket.Operations.{OpSet, resolve}

-- The destination field lies in the packet, and the source field, which is longer, does not fit
-- into the packet buffer from there.
pub record IsOverrun (op : OpSet) (m : Memory) (plen start : ℕ) (from : Ptr) : Type 0 where
  pub in_packet : op.to ≡ none
  pub found : op_pkt_offset plen op.set_to ≡ some start
  pub source : resolve plen op.from op.set_from ≡ some from
  pub longer : op.set_to.len < op.set_from.len
  pub too_long : length m.pkt < start + op.set_from.len

module _ (op : OpSet) (m : Memory) (plen start : ℕ) (from : Ptr)
    (over : IsOverrun op m plen start from) where
  abbrev to : Ptr
  to = record { place = packet; off = start }
