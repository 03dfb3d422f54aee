-- ===== src/Field/Tests.antt =====
-- Runs of the field operations on a heap where every allocation succeeds.
use Prim.Native.String.{String}
use xdpacket.Base.{
  ℕ, ◌≡◌, refl, arith, true, none, some, [], ◌∷◌, pos, inl, inr, Bool-cases, ◌==◌, if◌then◌else◌,
}
use xdpacket.Judy.Model.{words}
use xdpacket.FieldSet.{FieldSet}
use xdpacket.Registry.{Registry, initial, find, free, get, release}
use xdpacket.Judy.{js_get}
use xdpacket.Judy.Laws.{js_get-empty}
use text.Mathlib.Text.{◌==◌ as str_eq}
use text.Mathlib.TextEquality.{eq_iff}
use text.Mathlib.TextPositions.{eq_refl}
use xdpacket.Registry.Laws.{IsValid, Same, release-get, free-unused}
use xdpacket.Registry.New.{initial-IsValid}
use xdpacket.Field.{
  Field, counted, Nstr, whole, to_int32, to_unsigned, default_mask, set_of, field_new,
}
use xdpacket.Field.New.{field_at, field_new_succeeds, IsCreated, Outcome, field_new_cases}

abbrev empty : Registry words Field
empty = initial (λ n. true)

abbrev copy_of : ℕ → String → ℕ → Nstr
copy_of n k max = whole k

field_new_cases_example :
    Outcome empty
      (IsCreated empty (some "mac dst") (pos 0) (pos 6) (pos 0))
      (field_new copy_of empty (some "mac dst") (pos 0) (pos 6) (pos 0))
field_new_cases_example =
    field_new_cases copy_of empty (some "mac dst") (pos 0) (pos 6) (pos 0)
      (initial-IsValid counted (λ n. true)) (λ k e. ground arith) (λ k j e. ground arith)

abbrev mac : FieldSet
mac = record { offt = pos 0; len = 6; mask = 0xff; flags = 0 }

field_new_succeeds_example :
    (t : Registry words Field) × (field_new copy_of empty (some "mac dst") (pos 0) (pos 6) (pos 0)
      ≡ some (1, t))
    × IsCreated empty (some "mac dst") (pos 0) (pos 6) (pos 0) 1 t
unfolding set_of to_int32 to_unsigned default_mask find js_get
field_new_succeeds_example =
    field_new_succeeds copy_of empty "mac dst" (pos 0) (pos 6) (pos 0) mac
      (initial-IsValid counted (λ n. true)) (λ k e. ground arith) (λ k j e. ground arith) refl
      (js_get-empty words "mac dst") refl (λ a e. ground arith) refl

-- One field, not in use.
abbrev one : Registry words Field
one = record {
  next = 1;
  grants = λ n. true;
  cell = λ p. if 1 == p then some (field_at "mac dst" mac) else none;
  js = ("mac dst", 1) ∷ [];
}

find-one : (k : String) → find one k ≡ (if str_eq "mac dst" k then 1 else 0)
unfolding find js_get
find-one k = ground arith

one-IsValid : IsValid counted one
one-IsValid = record {
  live = λ k. elim (Bool-cases (str_eq "mac dst" k)) [
    | inl hit ↦
        inr (field_at "mac dst" mac, ground (arith, find-one k), ground (arith, eq_iff "mac dst" k))
    | inr miss ↦ inl (ground (arith, find-one k))
  ];
  null = refl;
  fresh = λ p lt. ground arith;
}

release-get_example :
    (s : Registry words Field) × (get counted one "mac dst" ≡ some (find one "mac dst", s))
    × (t : Registry words Field) × (release counted s (find one "mac dst") ≡ some t)
    × Same one t
release-get_example =
    release-get counted one "mac dst" (field_at "mac dst" mac) one-IsValid
      (ground (arith, find-one "mac dst", eq_refl "mac dst"))
      (ground (arith, find-one "mac dst", eq_refl "mac dst")) (omega arith)

free-unused_example :
    (s : Registry words Field) × (free counted one 1 ≡ some s)
    × IsValid counted s
    × ((j : String) → find s j ≡ (if find one j == 1 then 0 else find one j))
    × ((q : ℕ) → s.cell q ≡ (if 1 == q then none else one.cell q))
free-unused_example =
    free-unused counted one 1 "mac dst" (field_at "mac dst" mac) one-IsValid refl refl refl
