-- ===== src/FieldSet/Tests.antt =====
-- The fields of test/field_test.c in a small packet.
use xdpacket.Base.{
  ℕ, zero, suc, ◌+◌, ◌*◌, ◌≤◌, ◌<◌, ◌≡◌, ◌↔◌, refl, arith, none, some, List, [], ◌∷◌, pos, negsuc,
  get_or,
}
use xdpacket.FieldSet.{FieldSet, op_pkt_offset, field_hash, set_bytes}
use xdpacket.FieldSet.Laws.{op_pkt_offset_iff, field_hash_ext}

-- `{ field: end match, offt: -4, len: 4, mask: 0xf0 }`
abbrev end_match : FieldSet
end_match = record { offt = negsuc 3; len = 4; mask = 0xf0; flags = 0 }

end_match_at : op_pkt_offset 10 end_match ≡ some 6
unfolding op_pkt_offset
end_match_at = refl

end_match_short : op_pkt_offset 3 end_match ≡ none
unfolding op_pkt_offset
end_match_short = refl

-- `{ field: length check, offt: 32 }`
length_check : op_pkt_offset 31 (record { offt = pos 32; len = 0; mask = 0xff; flags = 0 }) ≡ none
unfolding op_pkt_offset
length_check = refl

end_match_bytes : set_bytes end_match ≡ 0xfc ∷ 0xff ∷ 0xff ∷ 0xff ∷ 4 ∷ 0 ∷ 0xf0 ∷ 0 ∷ []
unfolding set_bytes
end_match_bytes = refl

op_pkt_offset_iff_example : (op_pkt_offset 10 end_match ≡ some 6) ↔ (6 + 4 ≡ 10) × (6 + 4 ≤ 10)
op_pkt_offset_iff_example = op_pkt_offset_iff 10 end_match 6

-- A stand-in for the hash.
abbrev mix : ℕ → List ℕ → ℕ
mix hash [] = hash
mix hash (b ∷ bs) = mix (hash * 31 + b) bs

abbrev packet_a : List ℕ
packet_a = 1 ∷ 2 ∷ 3 ∷ 4 ∷ 5 ∷ 6 ∷ 7 ∷ []

abbrev packet_b : List ℕ
packet_b = 9 ∷ 9 ∷ 9 ∷ 4 ∷ 5 ∷ 6 ∷ 8 ∷ []

field_hash_ext_example :
    field_hash mix end_match (some packet_a) 7 0 ≡ field_hash mix end_match (some packet_b) 7 0
unfolding op_pkt_offset
field_hash_ext_example =
    field_hash_ext mix end_match packet_a packet_b 7 3 3 0 (omega arith) (omega arith) refl refl
      (record { before = before; last = refl })
  where
    before : (j : ℕ) → j < 3 → get_or packet_a (3 + j) 0 ≡ get_or packet_b (3 + j) 0
    before zero lt = refl
    before (suc zero) lt = refl
    before (suc (suc zero)) lt = refl
    before (suc (suc (suc j))) lt = absurd (omega arith)
