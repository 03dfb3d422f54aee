-- ===== src/Judy.antt =====
-- include/judyutils.h over the Judy library, which is an interface here: `JudySl` has the calls of
-- an array indexed by strings (JSLG, JSLI, JSLD) that the header makes, with their documented laws.
-- A word is a pointer, and 0 is the null pointer.
pub mod Laws
pub mod Model
use text.Mathlib.Text.{◌==◌ as str_eq}
use Prim.Native.String.{String}
use xdpacket.Base.{ℕ, Bool, true, false, Option, none, some, ◌≡◌, ◌==◌, ◌&&◌, not, if◌then◌else◌}

pub record JudySl : Type 1 where
  pub Array : Type 0
  pub empty : Array
  -- the word at an index, if there is one
  pub jslg : Array → String → Option ℕ
  -- makes an entry, of 0 if there was none; `none` is an allocation that failed
  pub jsli : Array → String → Option Array
  -- a store through the pointer that JSLI returned
  pub put : Array → String → ℕ → Array
  pub jsld : Array → String → Array
  pub jslg-empty : (k : String) → jslg empty k ≡ none
  pub jslg-jsli :
      (a b : Array) (k j : String)
      → jsli a k ≡ some b
      → jslg b j
        ≡ (if str_eq k j then elim (jslg a k) [ none ↦ some 0 | some w ↦ some w ] else jslg a j)
  pub jslg-put :
      (a : Array) (k j : String) (v w : ℕ)
      → jslg a k ≡ some w
      → jslg (put a k v) j ≡ (if str_eq k j then some v else jslg a j)
  pub jslg-jsld :
      (a : Array) (k j : String) → jslg (jsld a k) j ≡ (if str_eq k j then none else jslg a j)

abbrev pub word_or_null : Option ℕ → ℕ
word_or_null none = 0
word_or_null (some w) = w

module _ (J : JudySl) where
  open J use {Array, jslg, jsli, put, jsld}

  -- `js_get`: the word, or null.
  unfoldable pub js_get : Array → String → ℕ
  js_get a k = word_or_null (jslg a k)

  -- JXX_INSERT_COMMON on the array that JSLI left.
  unfoldable pub insert_common : Option Array → Array → String → ℕ → Bool → Bool × Array
  unfolding js_get
  insert_common none a k datum clobber = (false, a)
  insert_common (some b) a k datum clobber =
      if not clobber && not (js_get b k == 0) then (false, b) else (true, put b k datum)

  -- Whether it inserted, which the source returns as 0, and the array after it.
  unfoldable pub js_insert : Array → String → ℕ → Bool → Bool × Array
  js_insert a k datum clobber =
      if datum == 0 then (false, a) else insert_common (jsli a k) a k datum clobber

  pub js_delete : Array → String → Array
  js_delete a k = jsld a k
