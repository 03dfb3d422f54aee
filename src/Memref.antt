-- ===== src/Memref.antt =====
-- src/memref.c: the global states, which operations share by name, and the release of a memory
-- reference. `nstralloc` is code of another library, as in Field.
pub mod Fresh
pub mod State
pub mod Ledger
pub mod Release
pub mod Back
pub mod Take
pub mod Literal
mod Tests
use Prim.Native.String.{String}
use xdpacket.Base.{
  ℕ, zero, suc, ◌-◌, ◌/◌, ◌*◌, Bool, true, false, not, ◌&&◌, Option, none, some, List, [], ◌∷◌,
  refl, ◌==◌, if◌then◌else◌, zeros, ◌>>=◌, bit_and, bit_or,
}
use xdpacket.Judy.{JudySl}
use xdpacket.FieldSet.{FieldSet}
use xdpacket.Registry.{
  Counted, Registry, set_cell, alloc, find, take_ref, drop_ref, unpublish, publish,
}
use xdpacket.Value.{Readers, value_parse, value_render}
use xdpacket.Field.{Nstr, no_string, truncated, whole, max_line_len}

-- `struct memref`. In a value, `name` is the input that the user gave, and the text in `rendered`
-- stands in place of the count.
pub record Memref : Type 0 where
  pub name : Option String
  pub refcnt : ℕ
  pub rendered : Option (List ℕ)
  pub set : FieldSet
  pub bytes : List ℕ

abbrev pub counted : Counted Memref
counted = record {
  name = λ m. m.name;
  refcnt = λ m. m.refcnt;
  with_refcnt = λ m n. record m { refcnt = n };
  refcnt-with_refcnt = λ m n. refl;
  name-with_refcnt = λ m n. refl;
  with_refcnt_twice = λ m n k. refl;
  with_refcnt_self = λ m. refl;
}

-- The flag MEMREF_FLAG_STATIC.
unfoldable pub memref_is_value : Memref → Bool
memref_is_value m = not (bit_and m.set.flags 1 == 0)

pub memref_state_eq : FieldSet → FieldSet → Bool
memref_state_eq a b = (a.len == b.len) && (a.mask == b.mask)

-- MEMREF_ALLOC_COMMON, and the flag of a state: off.
abbrev pub blank : FieldSet → Memref
blank set = record {
  name = none;
  refcnt = 0;
  rendered = none;
  set = record set { flags = bit_and set.flags 0xfe };
  bytes = zeros set.len;
}

module _ {J : JudySl} where
  -- The end of a state: out of the array and off the heap.
  discard : Registry J Memref → ℕ → Memref → Option (Registry J Memref)
  discard r p m = m.name >>= λ k. some (unpublish r p k)

  pub dropped : Registry J Memref → ℕ → Memref → Option (Registry J Memref)
  dropped r p m =
      if m.refcnt == 0 then discard (set_cell r p (some m)) p m else some (set_cell r p (some m))

  released : Registry J Memref → ℕ → Memref → Option (Registry J Memref)
  released r p m =
      if memref_is_value m
      then some (set_cell r p none)
      else if m.refcnt == 0
      then discard r p m
      else dropped r p (drop_ref counted m)

  pub memref_release : Registry J Memref → ℕ → Option (Registry J Memref)
  memref_release r p = if p == 0 then some r else (r.cell p >>= released r p)

  pub die : Registry J Memref → ℕ → Option (ℕ × Registry J Memref)
  die r p = memref_release r p >>= λ r'. some (0, r')

  -- A reference is always taken before the state is returned.
  pub taken : Registry J Memref → ℕ → Option (ℕ × Registry J Memref)
  taken r p = r.cell p >>= λ m. some (p, set_cell r p (some (take_ref counted m)))

  published : ℕ → Bool × Registry J Memref → Option (ℕ × Registry J Memref)
  published p (true, r) = taken r p
  published p (false, r) = die r p

  named : Registry J Memref → ℕ → FieldSet → Nstr → Option (ℕ × Registry J Memref)
  named r p set no_string = die r p
  named r p set (truncated k) = die (set_cell r p (some (record (blank set) { name = some k }))) p
  named r p set (whole k) =
      published p (publish (set_cell r p (some (record (blank set) { name = some k }))) k p false)

  allocated : FieldSet → Nstr → ℕ × Registry J Memref → Option (ℕ × Registry J Memref)
  allocated set str (p, r) = if p == 0 then some (0, r) else named r p set str

  module _ (nstralloc : ℕ → String → ℕ → Nstr) where
    -- The state under a name, made if there is none, or null.
    pub memref_state_get :
        Registry J Memref → Option FieldSet → Option String → Option (ℕ × Registry J Memref)
    memref_state_get r none name = some (0, r)
    memref_state_get r (some set) none = some (0, r)
    memref_state_get r (some set) (some k) =
        if find r k == 0
        then allocated set (nstralloc r.next k max_line_len) (alloc r (blank set))
        else (r.cell (find r k) >>= λ m.
            if memref_state_eq m.set set then taken r (find r k) else some (0, r))

-- `nstralloc` on the text of a value: `errno` EINVAL, null without it, a cut text, or a copy.
pub data ValueStr : Type 0 where
  invalid missing : ValueStr
  cut copied : String → ValueStr

-- MEMREF_ALLOC_COMMON, and the flag of a value: on.
abbrev pub blank_value : FieldSet → Memref
blank_value set = record {
  name = none;
  refcnt = 0;
  rendered = none;
  set = record set { flags = bit_or set.flags 1 };
  bytes = zeros set.len;
}

abbrev pub max_value_len : ℕ
max_value_len = 65535

-- What `memref_value_new` calls: `nstralloc`, the readers of `value_parse`, and the allocation and
-- the digits of `value_render`.
pub record Literals : Type 0 where
  pub nstralloc : ℕ → String → ℕ → ValueStr
  pub readers : Readers
  pub malloc : ℕ → Bool
  pub b2hx_be : List ℕ → List ℕ

module _ {J : JudySl} (L : Literals) where
  value_rendered : Registry J Memref → ℕ → Memref → Option (List ℕ) → Option (ℕ × Registry J Memref)
  value_rendered r p m none = die (set_cell r p (some m)) p
  value_rendered r p m (some text) =
      some (p, set_cell r p (some (record m { rendered = some text })))

  -- After `value_parse`: whether it succeeded, and the bytes that it stored.
  value_parsed : Registry J Memref → ℕ → Memref → Bool × List ℕ → Option (ℕ × Registry J Memref)
  value_parsed r p m (false, bytes) = die (set_cell r p (some (record m { bytes = bytes }))) p
  value_parsed r p m (true, bytes) =
      value_rendered r p (record m { bytes = bytes }) (value_render L.malloc L.b2hx_be bytes)

  -- A null text is read unless there is nothing to parse.
  value_named : Registry J Memref → ℕ → FieldSet → ValueStr → Option (ℕ × Registry J Memref)
  value_named r p set invalid = die r p
  value_named r p set missing =
      if set.len == 0 then value_parsed r p (blank_value set) (true, []) else none
  value_named r p set (cut k) =
      die (set_cell r p (some (record (blank_value set) { name = some k }))) p
  value_named r p set (copied k) =
      value_parsed r p (record (blank_value set) { name = some k })
        (value_parse L.readers k set.len)

  value_allocated : FieldSet → ValueStr → ℕ × Registry J Memref → Option (ℕ × Registry J Memref)
  value_allocated set str (p, r) = if p == 0 then some (0, r) else value_named r p set str

  -- A value for a field, from its text, or null.
  pub memref_value_new :
      Registry J Memref → Option FieldSet → Option String → Option (ℕ × Registry J Memref)
  memref_value_new r none value = some (0, r)
  memref_value_new r (some set) none = some (0, r)
  memref_value_new r (some set) (some k) =
      value_allocated set (L.nstralloc r.next k max_value_len) (alloc r (blank_value set))
