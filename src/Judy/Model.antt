-- ===== src/Judy/Model.antt =====
-- An association list meets the interface of the Judy array, for runs and witnesses.
use text.Mathlib.Text.{◌==◌ as str_eq}
use text.Mathlib.TextEquality.{eq_iff}
use Prim.Native.String.{String}
use xdpacket.Base.{
  ℕ, Option, none, some, List, [], ◌∷◌, ◌≡◌, refl, ap, sym, ◌∙◌, arith, if◌then◌else◌, some,
}
use xdpacket.Judy.{JudySl}

abbrev pub Words : Type 0
Words = List (String × ℕ)

abbrev pub lookup : Words → String → Option ℕ
lookup [] j = none
lookup ((k, w) ∷ a) j = if str_eq k j then some w else lookup a j

abbrev pub remove : Words → String → Words
remove [] j = []
remove ((k, w) ∷ a) j = if str_eq k j then remove a j else (k, w) ∷ remove a j

abbrev pub ensure : Words → String → Option ℕ → Words
ensure a k none = (k, 0) ∷ a
ensure a k (some w) = a

lookup-ensure :
    (a : Words) (k j : String) (o : Option ℕ)
    → lookup a k ≡ o
    → lookup (ensure a k o) j
      ≡ (if str_eq k j then elim o [ none ↦ some 0 | some w ↦ some w ] else lookup a j)
lookup-ensure a k j none e = refl
lookup-ensure a k j (some w) e = ground (arith, eq_iff k j)

pub lookup-remove :
    (a : Words) (k j : String) → lookup (remove a k) j ≡ (if str_eq k j then none else lookup a j)
lookup-remove [] k j = ground arith
lookup-remove ((i, w) ∷ a) k j =
    ground (arith, eq_iff k j, eq_iff i k, eq_iff i j, lookup-remove a k j)

pub jsli_law :
    (a b : Words) (k j : String)
    → some (ensure a k (lookup a k)) ≡ some b
    → lookup b j
      ≡ (if str_eq k j then elim (lookup a k) [ none ↦ some 0 | some w ↦ some w ] else lookup a j)
jsli_law a b k j e =
    ap (λ o. elim o [ none ↦ lookup a j | some t ↦ lookup t j ]) (sym e)
    ∙ lookup-ensure a k j (lookup a k) refl

abbrev pub words : JudySl
words = record {
  Array = Words;
  empty = [];
  jslg = lookup;
  jsli = λ a k. some (ensure a k (lookup a k));
  put = λ a k v. (k, v) ∷ a;
  jsld = remove;
  jslg-empty = λ k. refl;
  jslg-jsli = jsli_law;
  jslg-put = λ a k j v w e. refl;
  jslg-jsld = lookup-remove;
}
