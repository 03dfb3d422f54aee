-- ===== src/Checksum.antt =====
-- src/checksums.c: the IP, TCP, UDP and ICMP checksums of an outgoing frame, computed in place.
-- Memory is the list of bytes that starts at `frame`; a read or a write past its end is a fault.
-- 16-bit loads and stores are those of a little-endian host, which the source's
-- `stack = protocol << 8` relies on.
pub mod Sum
pub mod Fill
pub mod Frame
mod Tests
use xdpacket.Base.{
  ℕ, zero, suc, ◌+◌, ◌-◌, ◌*◌, ◌/◌, ◌%◌, ◌^◌, Bool, ◌||◌, Option, none, some, List, [], ◌∷◌, ◌>>=◌,
  ltb, ◌==◌, if◌then◌else◌, get_elem?, set, drop, u16, u32, u64,
}

pub data ChecksumErr : Type 0 where
  chk_ok chk_inval chk_unsupported chk_malformed : ChecksumErr

abbrev pub Mem : Type 0
Mem = List ℕ

-- Adds `n` host words to the 32-bit accumulator.
pub sum_words : ℕ → Mem → ℕ → Option ℕ
sum_words zero bs sum = some sum
sum_words (suc n) [] sum = none
sum_words (suc n) (lo ∷ []) sum = none
sum_words (suc n) (lo ∷ hi ∷ bs) sum = sum_words n bs (u32 (sum + (lo + 256 * hi)))

-- Adds the trailing byte of an odd block, padded with a zero.
pub sum_trailing : Mem → ℕ → ℕ → Option ℕ
sum_trailing blocks byte_count sum =
    if byte_count % 2 == 1
    then (get_elem? blocks (byte_count - 1) >>= λ b. some (u32 (sum + b)))
    else some sum

pub ones_sum : Mem → ℕ → ℕ → Option ℕ
ones_sum blocks byte_count sum =
    sum_words (byte_count / 2) blocks sum >>= sum_trailing blocks byte_count

-- Carries twice, then the one's complement in 16 bits.
pub ones_carry : ℕ → ℕ
ones_carry sum = u32 (sum / 2 ^ 16 + sum % 2 ^ 16)

pub ones_final : ℕ → ℕ
unfolding ones_carry
ones_final sum = 2 ^ 16 - 1 - u16 (ones_carry (ones_carry sum))

-- A network-order word.
pub be16 : Mem → ℕ → Option ℕ
be16 mem i = get_elem? mem i >>= λ hi. get_elem? mem (i + 1) >>= λ lo. some (hi * 256 + lo)

-- Stores a host word.
pub store16 : Mem → ℕ → ℕ → Option Mem
store16 mem i v = get_elem? mem i >>= λ _.
    get_elem? mem (i + 1) >>= λ _. some (set (set mem i (v % 256)) (i + 1) (v / 256))

-- What a checksum field is given: UDP may not carry 0.
pub data Rule : Type 0 where
  plain never_zero : Rule

pub field_value : Rule → ℕ → ℕ
field_value plain v = v
field_value never_zero v = if v == 0 then 0xffff else v

-- `h->check = 0; h->check = ones_final(ones_sum(h, len, seed))`, with the field `at` bytes into
-- the header at `base`.
pub fill_check : Rule → Mem → ℕ → ℕ → ℕ → ℕ → Option Mem
fill_check rule mem base at len seed = store16 mem (base + at) 0 >>= λ cleared.
    ones_sum (drop base cleared) len seed >>= λ sum.
    store16 cleared (base + at) (field_value rule (ones_final sum))

-- `fault` is an access outside the memory at `frame`.
pub data Outcome : Type 0 where
  done : ChecksumErr → Mem → Outcome
  fault : Outcome

abbrev pub finish : Option Mem → Outcome
finish none = fault
finish (some mem) = done chk_ok mem

-- The words of one pseudo-header: addresses, then a padded protocol and a length.
pub pseudo_ip4 : Mem → ℕ → ℕ → Option ℕ
pseudo_ip4 mem protocol l4_len = ones_sum (drop 26 mem) 4 0 >>= λ s.
    ones_sum (drop 30 mem) 4 s >>= λ s.
    some (u32 (u32 (s + protocol * 256) + (l4_len % 256 * 256 + l4_len / 256)))

pub pseudo_ip6 : Mem → ℕ → Option ℕ
pseudo_ip6 mem nexthdr = ones_sum (drop 22 mem) 16 0 >>= λ s. ones_sum (drop 38 mem) 16 s >>= λ s.
    ones_sum (drop 18 mem) 2 s >>= λ s. some (u32 (s + nexthdr * 256))

-- The last part: by protocol, at the l4 header.
pub fill_l4 : Mem → ℕ → ℕ → ℕ → ℕ → Outcome
fill_l4 mem l4 l4_len l4_sum protocol =
    if protocol == 6
    then finish (fill_check plain mem l4 16 l4_len l4_sum)
    else if protocol == 17
    then finish (fill_check never_zero mem l4 6 l4_len l4_sum)
    else if protocol == 1
    then finish (fill_check plain mem l4 2 l4_len 0)
    else if protocol == 58
    then finish (fill_check plain mem l4 2 l4_len l4_sum)
    else done chk_unsupported mem

infixl 5 ◌>=>◌
abbrev pub ◌>=>◌ {ℓ} : {A : Type ℓ} → Option A → (A → Outcome) → Outcome
none >=> k = fault
some a >=> k = k a

pub checksum_ip4 : Mem → ℕ → ℕ → Outcome
checksum_ip4 mem len ihl =
    let head_len = ihl * 4 in
    if ltb head_len 20 || ltb 60 head_len
    then done chk_malformed mem
    else (be16 mem 16 >=> λ tot_len.
        let l4_len = u16 (tot_len + 2 ^ 16 - head_len) in
        if ltb (u64 (len + 2 ^ 64 - 14 - head_len)) l4_len
        then done chk_malformed mem
        else (fill_check plain mem 14 10 head_len 0 >=> λ mem'. get_elem? mem' 23 >=> λ protocol.
            pseudo_ip4 mem' protocol l4_len >=> λ l4_sum.
            fill_l4 mem' (14 + head_len) l4_len l4_sum protocol))

pub checksum_ip6 : Mem → ℕ → Outcome
checksum_ip6 mem len = be16 mem 18 >=> λ l4_len.
    if ltb (u64 (len + 2 ^ 64 - 14 - 40)) l4_len
    then done chk_unsupported mem
    else (get_elem? mem 20 >=> λ nexthdr.
        pseudo_ip6 mem nexthdr >=> λ l4_sum. fill_l4 mem 54 l4_len l4_sum nexthdr)

pub by_version : Mem → ℕ → ℕ → Outcome
by_version mem len b =
    if b / 16 == 4
    then checksum_ip4 mem len (b % 16)
    else if b / 16 == 6
    then checksum_ip6 mem len
    else done chk_malformed mem

-- A null `frame` is refused before it is read.
pub checksum : Option Mem → ℕ → Outcome
checksum none len = done chk_inval []
checksum (some mem) len =
    if ltb 34 len
    then (if ltb 65535 len
        then done chk_inval mem
        else (be16 mem 12 >=> λ h_proto.
            if h_proto == 0x0800
            then (get_elem? mem 14 >=> by_version mem len)
            else done chk_unsupported mem))
    else done chk_inval mem
