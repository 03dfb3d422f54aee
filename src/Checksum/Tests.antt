-- ===== src/Checksum/Tests.antt =====
-- A UDP datagram of one byte payload from 10.0.0.1 to 10.0.0.2, and frames near it: runs of
-- `checksum`, and its theorems at these frames.
use xdpacket.Base.{◌≤◌, ◌<◌, ◌≡◌, refl, arith, none, some, [], ◌∷◌, set, all_bytes-IsBytes}
use xdpacket.Checksum.{
  Mem, checksum, done, fault, chk_ok, chk_inval, by_version, checksum_ip4, fill_l4, pseudo_ip4,
  fill_check, field_value, store16, be16, ones_final, ones_sum, sum_trailing, sum_words,
}
use xdpacket.Checksum.Frame.{IsIpFrame}
use xdpacket.Checksum.Frame.Ip4.{IsIp4, Verifies4, OnlyChecks, checksum-Verifies4}
use xdpacket.Checksum.Frame.Ip6.{IsIp6, Verifies6, OnlyCheck, checksum-Verifies6}
use xdpacket.Checksum.Frame.Short.{IsCut, checksum-fault}
use xdpacket.Checksum.Frame.Accepted.{checksum-ok_only}

abbrev macs : Mem → Mem
macs rest = 1 ∷ 2 ∷ 3 ∷ 4 ∷ 5 ∷ 6 ∷ 7 ∷ 8 ∷ 9 ∷ 10 ∷ 11 ∷ 12 ∷ rest

abbrev udp_frame : Mem
udp_frame = macs (
    8 ∷ 0 ∷ 0x45 ∷ 0 ∷ 0 ∷ 29 ∷ 0 ∷ 1 ∷ 0 ∷ 0 ∷ 64 ∷ 17 ∷ 0xaa ∷ 0xbb ∷ 10 ∷ 0 ∷ 0 ∷ 1 ∷ 10 ∷ 0 ∷ 0
    ∷ 2 ∷ 0 ∷ 53 ∷ 0 ∷ 54 ∷ 0 ∷ 9 ∷ 0xcc ∷ 0xdd ∷ 0x61 ∷ [])

abbrev summed : Mem
summed = set (set (set (set udp_frame 24 0x66) 25 0xcd) 40 0x8a) 41 0x6e

udp_run : checksum (some udp_frame) 43 ≡ done chk_ok summed
unfolding checksum by_version checksum_ip4 fill_l4 pseudo_ip4 fill_check field_value store16 be16
    ones_final ones_sum sum_trailing sum_words
udp_run = refl

udp_frame-IsIpFrame : IsIpFrame udp_frame 43
udp_frame-IsIpFrame = record {
  bytes = all_bytes-IsBytes udp_frame refl;
  long = omega arith;
  short = omega arith;
  held = omega arith;
  proto_hi = refl;
  proto_lo = refl;
}

udp_frame-IsIp4 : IsIp4 udp_frame 43 5 9
udp_frame-IsIp4 = record {
  frame = udp_frame-IsIpFrame;
  version = refl;
  ihl_min = omega arith;
  ihl_max = omega arith;
  total = refl;
  inside = omega arith;
}

checksum-Verifies4_example :
    (mem' : Mem) × (checksum (some udp_frame) 43 ≡ done chk_ok mem')
    × Verifies4 mem' 5 9 17
    × OnlyChecks udp_frame mem' 40
checksum-Verifies4_example = checksum-Verifies4 udp_frame 43 5 9 udp_frame-IsIp4 refl (omega arith)

checksum-ok_only_example : (34 < 43) × (43 ≤ 65535) × (be16 udp_frame 12 ≡ some 0x0800)
checksum-ok_only_example = checksum-ok_only udp_frame 43 summed udp_run

-- An IPv6 header and an ICMPv6 message of four bytes, under the ethertype of IPv4 and under its own.
abbrev icmp6_packet : Mem
icmp6_packet =
    0x60 ∷ 0 ∷ 0 ∷ 0 ∷ 0 ∷ 4 ∷ 58 ∷ 64 ∷ 0xfe ∷ 0x80 ∷ 0 ∷ 0 ∷ 0 ∷ 0 ∷ 0 ∷ 0 ∷ 0 ∷ 0 ∷ 0 ∷ 0 ∷ 0 ∷ 0
    ∷ 0 ∷ 1 ∷ 0xfe ∷ 0x80 ∷ 0 ∷ 0 ∷ 0 ∷ 0 ∷ 0 ∷ 0 ∷ 0 ∷ 0 ∷ 0 ∷ 0 ∷ 0 ∷ 0 ∷ 0 ∷ 2 ∷ 128 ∷ 0 ∷ 0 ∷ 0
    ∷ []

abbrev icmp6_frame : Mem
icmp6_frame = macs (8 ∷ 0 ∷ icmp6_packet)

icmp6_frame-IsIp6 : IsIp6 icmp6_frame 58 4
icmp6_frame-IsIp6 = record {
  frame = record {
    bytes = all_bytes-IsBytes icmp6_frame refl;
    long = omega arith;
    short = omega arith;
    held = omega arith;
    proto_hi = refl;
    proto_lo = refl;
  };
  version = refl;
  payload_len = refl;
  inside = omega arith;
  known = refl;
  room = omega arith;
}

checksum-Verifies6_example :
    (mem' : Mem) × (checksum (some icmp6_frame) 58 ≡ done chk_ok mem')
    × Verifies6 mem' 4 58
    × OnlyCheck icmp6_frame mem' 56
checksum-Verifies6_example = checksum-Verifies6 icmp6_frame 58 4 icmp6_frame-IsIp6

-- 36 bytes that announce a header of 60.
abbrev cut_frame : Mem
cut_frame = macs (
    8 ∷ 0 ∷ 0x4f ∷ 0 ∷ 0 ∷ 100 ∷ 0 ∷ 1 ∷ 0 ∷ 0 ∷ 64 ∷ 17 ∷ 0 ∷ 0 ∷ 10 ∷ 0 ∷ 0 ∷ 1 ∷ 10 ∷ 0 ∷ 0 ∷ 2
    ∷ 0 ∷ 0 ∷ [])

cut_frame-IsCut : IsCut cut_frame 36 15
cut_frame-IsCut = record {
  frame = record {
    bytes = all_bytes-IsBytes cut_frame refl;
    long = omega arith;
    short = omega arith;
    held = omega arith;
    proto_hi = refl;
    proto_lo = refl;
  };
  version = refl;
  ihl_min = omega arith;
  ihl_max = omega arith;
  cut = omega arith;
  exact = refl;
}

checksum-fault_example : checksum (some cut_frame) 36 ≡ fault
checksum-fault_example = checksum-fault cut_frame 36 15 cut_frame-IsCut

checksum_null : checksum none 100 ≡ done chk_inval []
unfolding checksum
checksum_null = refl
