-- ===== src/Judy/Laws.antt =====
-- Lookups after insertions and deletions.
use text.Mathlib.Text.{◌==◌ as str_eq}
use text.Mathlib.TextEquality.{eq_iff}
use text.Mathlib.TextPositions.{eq_refl}
use Prim.Native.String.{String}
use xdpacket.Base.{
  ℕ, Bool, true, false, none, some, ◌≡◌, ◌≢◌, inl, inr, arith, if◌then◌else◌, Option-cases,
}
use xdpacket.Judy.{JudySl, js_get, insert_common, js_insert, js_delete}

module _ (J : JudySl) where
  open J use {Array, jslg, jsli, put, jsld, jslg-jsli, jslg-put, jslg-jsld, jslg-empty, empty}

  pub js_get-empty : (k : String) → js_get J empty k ≡ 0
  unfolding js_get
  js_get-empty k = rw jslg-empty

  pub js_get-js_delete :
      (a : Array) (k j : String)
      → js_get J (js_delete J a k) j ≡ (if str_eq k j then 0 else js_get J a j)
  unfolding js_get js_delete
  js_get-js_delete a k j = ground (arith, jslg-jsld a k j)

  -- JSLI alone changes no lookup: the word that it makes is null.
  get-jsli : (a b : Array) (k j : String) → jsli a k ≡ some b → js_get J b j ≡ js_get J a j
  unfolding js_get
  get-jsli a b k j e = ground (arith, jslg-jsli a b k j e, eq_iff k j)

  has-jsli : (a b : Array) (k : String) → jsli a k ≡ some b → (w : ℕ) × (jslg b k ≡ some w)
  has-jsli a b k e = elim (Option-cases (jslg a k)) [
    | inl new ↦ (0, ground (arith, jslg-jsli a b k k e, eq_refl k))
    | inr (w, old) ↦ (w, ground (arith, jslg-jsli a b k k e, eq_refl k))
  ]

  get-put :
      (a b : Array) (k j : String) (v : ℕ)
      → jsli a k ≡ some b
      → js_get J (put b k v) j ≡ (if str_eq k j then v else js_get J a j)
  unfolding js_get
  get-put a b k j v e =
      let (w, there) = has-jsli a b k e in
      ground (arith, jslg-put b k j v w there, get-jsli a b k j e)

  -- An insertion that succeeds is found, and no other index changes.
  pub js_get-js_insert :
      (a b : Array) (k j : String) (v : ℕ) (clobber : Bool)
      → js_insert J a k v clobber ≡ (true, b)
      → js_get J b j ≡ (if str_eq k j then v else js_get J a j)
  unfolding js_insert insert_common
  js_get-js_insert a b k j v clobber e = elim (Option-cases (jsli a k)) [
    | inl full ↦ ground arith
    | inr (c, made) ↦ ground (arith, get-put a c k j v made)
  ]

  -- One that fails changes no lookup.
  pub js_get-js_insert_fail :
      (a b : Array) (k j : String) (v : ℕ) (clobber : Bool)
      → js_insert J a k v clobber ≡ (false, b)
      → js_get J b j ≡ js_get J a j
  unfolding js_insert insert_common
  js_get-js_insert_fail a b k j v clobber e = elim (Option-cases (jsli a k)) [
    | inl full ↦ ground arith
    | inr (c, made) ↦ ground (arith, get-jsli a c k j made)
  ]

  -- Overwriting always succeeds where JSLI does.
  pub js_insert_succeeds :
      (a : Array) (k : String) (v : ℕ)
      → v ≢ 0
      → jsli a k ≢ none
      → (b : Array) × (js_insert J a k v true ≡ (true, b))
  unfolding js_insert insert_common
  js_insert_succeeds a k v ne room = elim (Option-cases (jsli a k)) [
    | inl full ↦ absurd (room full)
    | inr (c, made) ↦ (put c k v, ground arith)
  ]
