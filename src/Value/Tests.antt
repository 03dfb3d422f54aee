-- ===== src/Value/Tests.antt =====
-- Readers that read every string as the address 127.0.0.1 or the number 80, and some integers.
use xdpacket.Base.{ℕ, none, some, List, [], ◌∷◌, ◌≡◌, refl, length, negsuc}
use xdpacket.Value.{be_bytes, signed_bytes, integer_bytes, value_parse}
use xdpacket.Value.Integer.{be_value, Stands, integer_bytes-Stands}
use xdpacket.Value.Example.{readers, readers-IsReaders}
use xdpacket.Value.Length.{length-value_parse}

abbrev localhost : List ℕ
localhost = 127 ∷ 0 ∷ 0 ∷ 1 ∷ []

length-value_parse_example : length (value_parse readers "80" 2).1 ≡ 2
length-value_parse_example = length-value_parse readers readers-IsReaders "80" 2

-- -2 in two bytes.
minus_two : integer_bytes 2 (negsuc 1) ≡ some (255 ∷ 254 ∷ [])
unfolding integer_bytes signed_bytes be_bytes
minus_two = refl

-- In eight bytes it is refused.
minus_two_long : integer_bytes 8 (negsuc 1) ≡ none
unfolding integer_bytes
minus_two_long = refl

integer_bytes-Stands_example :
    (length {A = ℕ} (255 ∷ 254 ∷ []) ≡ 2) × Stands 2 (negsuc 1) (be_value (255 ∷ 254 ∷ []))
integer_bytes-Stands_example = integer_bytes-Stands 2 (negsuc 1) (255 ∷ 254 ∷ []) minus_two
