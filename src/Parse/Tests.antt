-- ===== src/Parse/Tests.antt =====
-- A first read of two newlines, and runs of the tests for the end of a document.
use xdpacket.Base.{
  ℕ, zero, suc, true, false, Option, none, some, List, [], ◌∷◌, ◌≡◌, refl, ap, arith, length,
}
use xdpacket.Parse.{Parse, Called, strncmp, parse_cmptail, ends, ends_in, parse_callback}
use xdpacket.Parse.Input.{IsParse, state_of, parse_callback_total}

-- "a: b\n\n"
abbrev document : List ℕ
document = 97 ∷ 58 ∷ 32 ∷ 98 ∷ 10 ∷ 10 ∷ []

complete_document : ends_in ends document 6 ≡ some true
unfolding ends_in parse_cmptail strncmp
complete_document = refl

unfinished_document : ends_in ends document 5 ≡ some false
unfolding ends_in parse_cmptail strncmp
unfinished_document = refl

abbrev fresh : Parse
fresh = record { buf = none; buf_len = 0; buf_pos = 0 }

fresh-IsParse : IsParse fresh
fresh-IsParse = record {
  blocks = 0;
  whole = refl;
  most = omega arith;
  inside = omega arith;
  held = refl;
}

-- The old bytes as far as they go, then zeros.
abbrev resized : List ℕ → ℕ → List ℕ
resized buf zero = []
resized [] (suc n) = 0 ∷ resized [] n
resized (b ∷ buf) (suc n) = b ∷ resized buf n

length-resized : (buf : List ℕ) (n : ℕ) → length (resized buf n) ≡ n
length-resized buf zero = refl
length-resized [] (suc n) = ap suc (length-resized [] n)
length-resized (b ∷ buf) (suc n) = ap suc (length-resized buf n)

abbrev grown_to : List ℕ → ℕ → Option (List ℕ)
grown_to buf n = some (resized buf n)

abbrev typed : ℕ → Option (List ℕ)
typed k = some document

parse_callback_total_example :
    (c : Called) × (parse_callback grown_to typed fresh ≡ some c) × IsParse (state_of c)
parse_callback_total_example =
    parse_callback_total grown_to typed (λ buf n. (resized buf n, refl, length-resized buf n))
      (λ k bytes e. ground arith) fresh fresh-IsParse
