-- ===== src/Field/Command/Tests.antt =====
-- An `add` that is taken back by a `del`, and a `print`.
use Prim.Native.String.{String}
use xdpacket.Base.{◌⊎◌, ℕ, ◌≡◌, refl, arith, true, none, some, List, Option, ℤ, [], ◌∷◌, pos}
use xdpacket.Judy.Model.{words}
use xdpacket.Registry.{Registry, initial, find}
use xdpacket.Judy.{js_get}
use xdpacket.Registry.Laws.{IsValid, Same}
use xdpacket.Registry.New.{initial-IsValid}
use xdpacket.Field.{Field, counted, Nstr, whole}
use xdpacket.Field.Command.{
  Node, scalar, keyed, pair_step, walk, field_parse, parse_prn, Params, start, parse_add, parse_del,
  field_mode,
}
use xdpacket.Field.Command.Laws.{field_mode-del_add, field_parse-prn}
use xdpacket.Field.New.{IsCreated}

abbrev empty : Registry words Field
empty = initial (λ n. true)

abbrev copy_of : ℕ → String → ℕ → Nstr
copy_of n k max = whole k

abbrev asked : Params
asked = record start { name = some "mac dst"; len = pos 6 }

field_mode-del_add_example :
    (n : ℕ) × (s : Registry words Field) × (field_mode copy_of
        (λ f. true)
        (λ r. true)
        parse_add
        empty
        asked
      ≡ some (n, s))
    × ((n ≡ 1) × IsValid counted s × Same empty s
        ⊎ (n ≡ 0)
          × ((q : ℕ) × IsCreated empty (some "mac dst") (pos 0) (pos 6) (pos 0) q s)
          × (t : Registry words Field) × (field_mode copy_of
                (λ f. true)
                (λ r. true)
                parse_del
                s
                asked
              ≡ some (0, t))
          × IsValid counted t
          × Same empty t)
field_mode-del_add_example =
    field_mode-del_add copy_of (λ f. true) (λ r. true) (λ f. refl) empty asked
      (initial-IsValid counted (λ n. true)) (λ k e. ground arith) (λ k j e. ground arith)

abbrev print_one : List (String × Node)
print_one = ("field", scalar "mac dst") ∷ []

abbrev no_number : String → Option ℤ
no_number txt = none

print_run :
    field_parse copy_of (λ f. true) (λ r. true) no_number parse_prn empty print_one
    ≡ some (0, empty)
unfolding field_parse walk pair_step keyed field_mode find js_get
print_run = refl

field_parse-prn_example : empty ≡ empty
field_parse-prn_example =
    field_parse-prn empty empty copy_of (λ f. true) (λ r. true) no_number print_one 0 print_run
