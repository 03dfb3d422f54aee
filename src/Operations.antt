-- ===== src/Operations.antt =====
-- src/operations.c, the packet path: `op_common`, `op_match` and `op_write` on a compiled
-- `struct op_set`. The packet is never null here (`process_exec` hands on a local buffer).
pub mod Resolve
pub mod Match
pub mod Write
pub mod RoundTrip
pub mod Overrun
mod Tests
use xdpacket.Base.{
  ℕ, zero, suc, ◌+◌, ◌-◌, Bool, true, false, ◌&&◌, Option, none, some, ◌==◌, ltb, if◌then◌else◌,
  bit_and, bit_or, ◌>>=◌,
}
use xdpacket.Memory.{Place, packet, memref, Memory, Ptr, peek, poke, memcpy, compare_bytes}
use xdpacket.FieldSet.{FieldSet, op_pkt_offset}

-- `to` and `from` are the `memref` whose bytes are meant, or none for the packet.
pub record OpSet : Type 0 where
  pub set_to : FieldSet
  pub to : Option ℕ
  pub set_from : FieldSet
  pub from : Option ℕ

-- What `op_common` leaves: an error, a zero-length operation, or the length less the last byte and
-- the two pointers.
pub data Common : Type 0 where
  bad nop : Common
  span : ℕ → Ptr → Ptr → Common

unfoldable pub out_len : OpSet → ℕ
out_len op = if ltb op.set_from.len op.set_to.len then op.set_to.len else op.set_from.len

-- A given address, or the place of the field in the packet.
unfoldable pub resolve : ℕ → Option ℕ → FieldSet → Option Ptr
resolve plen (some r) set = some (record { place = memref r; off = 0 })
resolve plen none set =
    op_pkt_offset plen set >>= λ start. some (record { place = packet; off = start })

pub span_of : ℕ → Option Ptr → Option Ptr → Common
span_of n none from = bad
span_of n (some to) none = bad
span_of n (some to) (some from) = span n to from

pub common_of : OpSet → ℕ → ℕ → Common
common_of op plen zero = nop
common_of op plen (suc n) =
    span_of n (resolve plen op.to op.set_to) (resolve plen op.from op.set_from)

pub op_common : OpSet → ℕ → Common
op_common op plen = common_of op plen (out_len op)

-- Whether the operation matches, which the source returns as 0; `none` is an access outside an
-- array.
pub match_span : OpSet → Memory → Common → Option Bool
match_span op m bad = some false
match_span op m nop = some true
match_span op m (span n to from) = compare_bytes m to from 0 n >>= λ same.
    if same
    then (peek m to n >>= λ a.
        peek m from n >>= λ b. some (bit_and a op.set_to.mask == bit_and b op.set_from.mask))
    else some false

pub op_match : OpSet → Memory → ℕ → Option Bool
op_match op m plen = match_span op m (op_common op plen)

-- The last byte of a write: `~mask` is `255 - mask` on a byte.
pub last_byte : OpSet → ℕ → ℕ → ℕ
last_byte op old new =
    bit_or (bit_and old (255 - op.set_to.mask))
      (bit_and (bit_and new op.set_to.mask) op.set_from.mask)

-- Whether the write was done, and the memory after it.
pub write_span : OpSet → Memory → Common → Option (Bool × Memory)
write_span op m bad = some (false, m)
write_span op m nop = some (true, m)
write_span op m (span n to from) = memcpy m to from n >>= λ m'. peek m' to n >>= λ old.
    peek m' from n >>= λ new. poke m' to n (last_byte op old new) >>= λ m''. some (true, m'')

pub op_write : OpSet → Memory → ℕ → Option (Bool × Memory)
op_write op m plen = write_span op m (op_common op plen)
