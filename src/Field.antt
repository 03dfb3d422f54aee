-- ===== src/Field.antt =====
-- src/field.c: the named fields, their creation and removal. `nstralloc` is code of another
-- library and a parameter here: what it gives depends on the moment, the string and the limit.
pub mod New
pub mod Command
mod Tests
use Prim.Native.String.{String}
use xdpacket.Base.{
  ℕ, Bool, true, false, Option, none, some, ℤ, pos, negsuc, refl, ◌==◌, ltb, leb, not,
  if◌then◌else◌, ◌>>=◌, ◌^◌,
}
use xdpacket.Judy.{JudySl}
use xdpacket.FieldSet.{FieldSet}
use xdpacket.Registry.{Counted, Registry, set_cell, alloc, find, get, release, free, publish}

-- `struct field`; the name is null until the string is allocated.
pub record Field : Type 0 where
  pub name : Option String
  pub set : FieldSet
  pub refcnt : ℕ

abbrev pub counted : Counted Field
counted = record {
  name = λ f. f.name;
  refcnt = λ f. f.refcnt;
  with_refcnt = λ f n. record f { refcnt = n };
  refcnt-with_refcnt = λ f n. refl;
  name-with_refcnt = λ f n. refl;
  with_refcnt_twice = λ f n m. refl;
  with_refcnt_self = λ f. refl;
}

-- What `nstralloc` gives: null, a cut string with `errno` E2BIG, or a copy.
pub data Nstr : Type 0 where
  no_string : Nstr
  truncated whole : String → Nstr

abbrev pub max_line_len : ℕ
max_line_len = 48

-- `__builtin_add_overflow(x, 0, &out)` for an `int32_t` and for an unsigned type below `bound`:
-- `none` is an overflow.
pub to_int32 : ℤ → Option ℤ
to_int32 (pos n) = if ltb n (2 ^ 31) then some (pos n) else none
to_int32 (negsuc n) = if ltb n (2 ^ 31) then some (negsuc n) else none

pub to_unsigned : ℕ → ℤ → Option ℕ
to_unsigned bound (pos n) = if ltb n bound then some n else none
to_unsigned bound (negsuc n) = none

-- No mask means all of the last byte.
pub default_mask : ℤ → ℤ
default_mask (pos n) = if n == 0 then pos 0xff else pos n
default_mask (negsuc n) = negsuc n

-- The three stores with their overflow checks.
pub set_of : ℤ → ℤ → ℤ → Option FieldSet
set_of offt len mask = to_int32 offt >>= λ o. to_unsigned (2 ^ 16) len >>= λ l.
    to_unsigned (2 ^ 8) mask >>= λ m. some (record { offt = o; len = l; mask = m; flags = 0 })

-- The memory that `calloc` gives.
abbrev pub blank : Field
blank = record {
  name = none;
  set = record { offt = pos 0; len = 0; mask = 0; flags = 0 };
  refcnt = 0;
}

module _ {J : JudySl} where
  unfoldable pub field_get : Registry J Field → String → Option (ℕ × Registry J Field)
  field_get = get counted

  unfoldable pub field_release : Registry J Field → ℕ → Option (Registry J Field)
  field_release = release counted

  unfoldable pub field_free : Registry J Field → ℕ → Option (Registry J Field)
  field_free = free counted

  -- `die:` frees the object and returns null. `none` is a use of a null or freed pointer.
  die : Registry J Field → ℕ → Option (ℕ × Registry J Field)
  die r p = field_free r p >>= λ r'. some (0, r')

  published : ℕ → Bool × Registry J Field → Option (ℕ × Registry J Field)
  published p (true, r) = some (p, r)
  published p (false, r) = die r p

  -- From the overflow checks on: the object at `p` has its name.
  filled : Registry J Field → ℕ → String → Option FieldSet → Option (ℕ × Registry J Field)
  filled r p k none = die r p
  filled r p k (some set) =
      published p
        (publish (set_cell r p (some (record { name = some k; set = set; refcnt = 0 }))) k p true)

  -- From `nstralloc` on.
  named : Registry J Field → ℕ → Nstr → Option FieldSet → Option (ℕ × Registry J Field)
  named r p no_string set = die r p
  named r p (truncated k) set = die (set_cell r p (some (record blank { name = some k }))) p
  named r p (whole k) set = filled (set_cell r p (some (record blank { name = some k }))) p k set

  -- From `calloc` on.
  allocated : ℕ × Registry J Field → Nstr → Option FieldSet → Option (ℕ × Registry J Field)
  allocated (p, r) str set = if p == 0 then some (0, r) else named r p str set

  module _ (nstralloc : ℕ → String → ℕ → Nstr) where
    -- The new field, or null.
    pub field_new : Registry J Field → Option String → ℤ → ℤ → ℤ → Option (ℕ × Registry J Field)
    field_new r none offt len mask = some (0, r)
    field_new r (some k) offt len mask =
        if not (find r k == 0)
        then some (0, r)
        else allocated (alloc r blank) (nstralloc r.next k max_line_len)
            (set_of offt len (default_mask mask))
