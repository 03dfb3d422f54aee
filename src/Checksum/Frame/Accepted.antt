-- ===== src/Checksum/Frame/Accepted.antt =====
-- Which frames `checksum` can accept at all.
use xdpacket.Base.{ℕ, ◌≤◌, ◌<◌, ◌≡◌, ◌≢◌, arith, some, inl, inr, Option-cases}
use xdpacket.Checksum.{Mem, fault, done, chk_ok, be16, checksum}

-- A frame that `checksum` accepts has a length in range and the ethertype 0x0800 of IPv4, whatever
-- its IP version is.
pub checksum-ok_only :
    (mem : Mem) (len : ℕ) (mem' : Mem)
    → checksum (some mem) len ≡ done chk_ok mem'
    → (34 < len) × (len ≤ 65535) × (be16 mem 12 ≡ some 0x0800)
unfolding checksum
checksum-ok_only mem len mem' h = elim (Option-cases (be16 mem 12)) [
  | inl cut ↦ ground arith
  | inr (proto, read) ↦ ground arith
]

-- A frame that is too short is refused before it is read.
pub checksum-short : (mem : Mem) (len : ℕ) → len ≤ 34 → checksum (some mem) len ≢ fault
unfolding checksum
checksum-short mem len short = ground arith
