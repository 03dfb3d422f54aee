-- ===== src/FieldSet.antt =====
-- include/field.h and the hash of src/field.c: `struct field_set`, where it lies in a packet, and
-- `field_hash`. `fnv_hash64` is code of another library and a parameter here.
pub mod Laws
mod Tests
use xdpacket.Base.{
  ℕ, zero, suc, ◌+◌, ◌-◌, ◌*◌, ◌/◌, ◌%◌, ◌^◌, Bool, true, false, Option, none, some, List, [], ◌∷◌,
  ℤ, pos, negsuc, ◌==◌, ltb, if◌then◌else◌, get_elem?, drop, take, length, bit_and, ◌>>=◌,
}

pub record FieldSet : Type 0 where
  pub offt : ℤ
  pub len : ℕ
  pub mask : ℕ
  pub flags : ℕ

-- `pkt + offt`, with `plen` added for a negative `offt`, as an offset into the packet: `none` is a
-- place before the packet.
pub start_of : ℤ → ℕ → Option ℕ
start_of (pos n) plen = some n
start_of (negsuc n) plen = if ltb n plen then some (plen - suc n) else none

-- Offset and size checks of `op_pkt_offset` and of FIELD_PACKET_INDEXING.
pub fit : ℕ → ℕ → ℕ → Option ℕ
fit plen flen start = if ltb plen (start + flen) then none else some start

-- src/operations.c: where the data of `set` starts in a packet of `plen` bytes.
unfoldable pub op_pkt_offset : ℕ → FieldSet → Option ℕ
unfolding start_of fit
op_pkt_offset plen set = start_of set.offt plen >>= fit plen set.len

-- The indexing macro also refuses a null or empty packet.
pub packet_indexing : Option (List ℕ) → ℕ → FieldSet → Option ℕ
packet_indexing none plen set = none
packet_indexing (some pkt) plen set =
    if plen == 0 then none else (start_of set.offt plen >>= fit plen set.len)

-- The eight bytes of a set as `fnv_hash64` sees them: little-endian, two's complement.
pub offt_bits : ℤ → ℕ
offt_bits (pos n) = n % 2 ^ 32
offt_bits (negsuc n) = 2 ^ 32 - 1 - n % 2 ^ 32

pub set_bytes : FieldSet → List ℕ
unfolding offt_bits
set_bytes set =
    let o = offt_bits set.offt in
    o % 256
    ∷ o / 2 ^ 8 % 256
    ∷ o / 2 ^ 16 % 256
    ∷ o / 2 ^ 24
    ∷ set.len % 256
    ∷ set.len / 256
    ∷ set.mask
    ∷ set.flags
    ∷ []

-- `fnv hash bytes` is `fnv_hash64(&hash, bytes, n)`.
module _ (fnv : ℕ → List ℕ → ℕ) where
  -- The last byte goes through the mask. `none` is a read behind the buffer.
  pub packet_hashing : List ℕ → FieldSet → ℕ → ℕ → ℕ → Option ℕ
  packet_hashing pkt set start zero hash = some (fnv hash (set_bytes (record set { flags = 0 })))
  packet_hashing pkt set start (suc n) hash = get_elem? pkt (start + n) >>= λ last. some (
      fnv (fnv (fnv hash (set_bytes (record set { flags = 0 }))) (take n (drop start pkt)))
        (bit_and last set.mask ∷ []))

  pub hash_at : FieldSet → List ℕ → ℕ → Option ℕ → Option (Bool × ℕ)
  hash_at set pkt hash none = some (false, hash)
  hash_at set pkt hash (some start) =
      packet_hashing pkt set start set.len hash >>= λ hash'. some (true, hash')

  -- Whether it could hash, and the new `*outhash`.
  pub field_hash : FieldSet → Option (List ℕ) → ℕ → ℕ → Option (Bool × ℕ)
  field_hash set none plen hash = some (false, hash)
  field_hash set (some pkt) plen hash = hash_at set pkt hash (packet_indexing (some pkt) plen set)
