-- ===== src/FieldSet/Laws.antt =====
-- Where a field lies, and what its hash depends on.
use xdpacket.Base.{
  ℕ, zero, suc, ◌+◌, ◌≤◌, ◌<◌, ◌≡◌, ◌≢◌, ◌↔◌, refl, ap, ap₂, sym, ◌∙◌, arith, true, none, some,
  List, [], ◌∷◌, ℤ, pos, negsuc, ◌==◌, if◌then◌else◌, get_or, drop, take, length, bit_and, ◌>>=◌,
  get_elem?-eq-get_or, length-drop, get_or-drop,
}
use xdpacket.FieldSet.{
  FieldSet, start_of, fit, op_pkt_offset, packet_indexing, packet_hashing, hash_at, field_hash,
}

-- `start` is the place `offt` bytes behind the start of a packet, or in front of its end.
abbrev pub LiesAt : ℤ → ℕ → ℕ → Type 0
LiesAt (pos n) plen start = start ≡ n
LiesAt (negsuc n) plen start = start + suc n ≡ plen

offset_iff :
    (offt : ℤ) (plen len start : ℕ)
    → ((start_of offt plen >>= fit plen len) ≡ some start)
      ↔ (LiesAt offt plen start × (start + len ≤ plen))
unfolding start_of fit
offset_iff (pos n) plen len start = ground arith
offset_iff (negsuc n) plen len start = ground arith

-- A field is found at `start` exactly when that is the place its offset names, from the end of the
-- packet if the offset is negative, and the whole field lies in the packet.
pub op_pkt_offset_iff :
    (plen : ℕ) (set : FieldSet) (start : ℕ)
    → (op_pkt_offset plen set ≡ some start)
      ↔ (LiesAt set.offt plen start × (start + set.len ≤ plen))
unfolding op_pkt_offset
op_pkt_offset_iff plen set start = offset_iff set.offt plen set.len start

-- The macro of `field_hash` and the function of `op_match` find the same place in any packet that
-- is not empty.
packet_indexing-eq :
    (pkt : List ℕ) (plen : ℕ) (set : FieldSet)
    → packet_indexing (some pkt) plen set ≡ (if plen == 0 then none else op_pkt_offset plen set)
unfolding packet_indexing op_pkt_offset
packet_indexing-eq pkt plen set = refl

packet_indexing-eq_some :
    (pkt : List ℕ) (plen : ℕ) (set : FieldSet) (start : ℕ)
    → plen ≢ 0
    → op_pkt_offset plen set ≡ some start
    → packet_indexing (some pkt) plen set ≡ some start
packet_indexing-eq_some pkt plen set start busy at = packet_indexing-eq pkt plen set ∙ ground arith

take_ext :
    (n : ℕ) (xs ys : List ℕ)
    → n ≤ length xs
    → n ≤ length ys
    → ((j : ℕ) → j < n → get_or xs j 0 ≡ get_or ys j 0)
    → take n xs ≡ take n ys
take_ext zero xs ys p q h = refl
take_ext (suc n) [] ys p q h = absurd (omega arith)
take_ext (suc n) (x ∷ xs) [] p q h = absurd (omega arith)
take_ext (suc n) (x ∷ xs) (y ∷ ys) p q h =
    ap₂ ◌∷◌ (h 0 (omega arith))
      (take_ext n xs ys (omega arith) (omega arith) (λ j lt. h (suc j) (omega arith)))

-- Two buffers agree on the field of `n + 1` bytes at `start`, in the last byte under the mask.
pub record SameField (start n mask : ℕ) (xs ys : List ℕ) : Type 0 where
  pub before : (j : ℕ) → j < n → get_or xs (start + j) 0 ≡ get_or ys (start + j) 0
  pub last : bit_and (get_or xs (start + n) 0) mask ≡ bit_and (get_or ys (start + n) 0) mask

module _ (fnv : ℕ → List ℕ → ℕ) where
  packet_hashing_ext :
      (xs ys : List ℕ) (set : FieldSet) (start n hash : ℕ)
      → start + suc n ≤ length xs
      → start + suc n ≤ length ys
      → SameField start n set.mask xs ys
      → packet_hashing fnv xs set start (suc n) hash ≡ packet_hashing fnv ys set start (suc n) hash
  unfolding packet_hashing
  packet_hashing_ext xs ys set start n hash p q same = rw (
    get_elem?-eq-get_or xs (start + n) 0 (omega arith),
    get_elem?-eq-get_or ys (start + n) 0 (omega arith),
    same.last,
    take_ext n (drop start xs) (drop start ys) (omega (arith, length-drop start xs))
        (omega (arith, length-drop start ys))
        (λ j lt. get_or-drop start j xs 0 ∙ same.before j lt ∙ sym (get_or-drop start j ys 0)),
  )

  packet_hashing_len :
      (xs ys : List ℕ) (set : FieldSet) (start n hash k : ℕ)
      → k ≡ suc n
      → start + suc n ≤ length xs
      → start + suc n ≤ length ys
      → SameField start n set.mask xs ys
      → packet_hashing fnv xs set start k hash ≡ packet_hashing fnv ys set start k hash
  packet_hashing_len xs ys set start n hash k e p q same =
      rw e (packet_hashing_ext xs ys set start n hash p q same)

  -- The hash of a field depends on nothing in the packet but the bytes of the field, the last one
  -- under its mask.
  pub field_hash_ext :
      (set : FieldSet) (xs ys : List ℕ) (plen start n hash : ℕ)
      → plen ≤ length xs
      → plen ≤ length ys
      → op_pkt_offset plen set ≡ some start
      → set.len ≡ suc n
      → SameField start n set.mask xs ys
      → field_hash fnv set (some xs) plen hash ≡ field_hash fnv set (some ys) plen hash
  unfolding field_hash hash_at
  field_hash_ext set xs ys plen start n hash p q at len same =
      let inside : start + set.len ≤ plen = ((op_pkt_offset_iff plen set start).0 at).1 in
      let busy : plen ≢ 0 = omega arith in
      rw
        (
          packet_indexing-eq_some xs plen set start busy at,
          packet_indexing-eq_some ys plen set start busy at,
        )
        (ap (λ r. r >>= λ hash'. some (true, hash'))
          (packet_hashing_len xs ys set start n hash set.len len (omega arith) (omega arith) same))
