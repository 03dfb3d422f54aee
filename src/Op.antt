-- ===== src/Op.antt =====
-- src/operations.c: `struct op`, made from names and values by `op_new` and freed by `op_free`. An
-- operation has one owner and does not change, so it stands for its address; a null pointer to one
-- is `none`. A fault, `none` of the outer Option, is the use of a pointer that is null or freed.
pub mod Books
pub mod Free
pub mod New
pub mod Persist
pub mod Parse
pub mod Example
mod Tests
use Prim.Native.String.{String}
use xdpacket.Base.{
  ℕ, Bool, true, false, not, ◌&&◌, ◌||◌, Option, none, some, ◌==◌, if◌then◌else◌, ◌>>=◌, pos,
}
use xdpacket.Judy.{JudySl}
use xdpacket.FieldSet.{FieldSet}
use xdpacket.Registry.{Registry}
use xdpacket.Field.{Field, Nstr, field_get, field_release}
use xdpacket.Memref.{Memref, Literals, memref_state_get, memref_value_new, memref_release}
use xdpacket.Operations.{OpSet}

-- The pointers are addresses in the two registries.
pub record Op : Type 0 where
  pub dst_field : ℕ
  pub dst : ℕ
  pub src_field : ℕ
  pub src : ℕ
  pub set : OpSet

abbrev no_field : FieldSet
no_field = record { offt = pos 0; len = 0; mask = 0; flags = 0 }

-- The memory that `calloc` gives.
abbrev pub blank : Op
blank = record {
  dst_field = 0;
  dst = 0;
  src_field = 0;
  src = 0;
  set = record { set_to = no_field; to = none; set_from = no_field; from = none };
}

-- The static arrays of field.c and memref.c and what they lead to.
pub record Heap (J : JudySl) : Type 0 where
  pub fields : Registry J Field
  pub states : Registry J Memref

-- The five strings, each null or given.
pub record Request : Type 0 where
  pub dst_field_name : Option String
  pub dst_state_name : Option String
  pub src_field_name : Option String
  pub src_state_name : Option String
  pub src_value : Option String

abbrev pub given : Option String → Bool
given none = false
given (some k) = true

-- Whether the arguments pass the four checks.
pub is_request : Request → Bool
is_request q =
    (given q.dst_field_name || given q.src_field_name)
    && (given q.dst_field_name || given q.dst_state_name)
    && (given q.src_field_name || given q.src_state_name || given q.src_value)
    && not (given q.src_state_name && given q.src_value)

-- The code of another library that is called: `nstralloc` for a state, and what a value needs.
pub record Calls : Type 0 where
  pub nstralloc : ℕ → String → ℕ → Nstr
  pub literals : Literals

-- Between two statements: `ok` is false on the way to `die`.
pub record Stage (J : JudySl) : Type 0 where
  pub ok : Bool
  pub op : Op
  pub heap : Heap J

-- The field whose length the destination has, and that of the source.
abbrev pub dst_type : Request → Op → ℕ
dst_type q o = if given q.dst_field_name then o.dst_field else o.src_field

abbrev pub src_type : Request → Op → ℕ
src_type q o = if given q.src_field_name then o.src_field else o.dst_field

-- The pointers of the compiled form.
abbrev pub address : ℕ → Option ℕ
address p = if p == 0 then none else some p

module _ {J : JudySl} where
  -- `field_release` and `memref_release` take null.
  pub op_free : Heap J → Op → Option (Heap J)
  op_free h o = field_release h.fields o.dst_field >>= λ f. field_release f o.src_field >>= λ f'.
      memref_release h.states o.dst >>= λ s.
      memref_release s o.src >>= λ s'. some (record { fields = f'; states = s' })

  pub go_on : Stage J → (Op → Heap J → Option (Stage J)) → Option (Stage J)
  go_on st step = if st.ok then step st.op st.heap else some st

  pub dst_field_got : Option String → Op → Heap J → Option (Stage J)
  dst_field_got none o h = some (record { ok = true; op = o; heap = h })
  dst_field_got (some k) o h = field_get h.fields k >>= λ got. some record {
    ok = not (got.0 == 0);
    op = record o { dst_field = got.0 };
    heap = record h { fields = got.1 };
  }

  pub src_field_got : Option String → Op → Heap J → Option (Stage J)
  src_field_got none o h = some (record { ok = true; op = o; heap = h })
  src_field_got (some k) o h = field_get h.fields k >>= λ got. some record {
    ok = not (got.0 == 0);
    op = record o { src_field = got.0 };
    heap = record h { fields = got.1 };
  }

  -- What a callee reads behind a `struct field *`, which may be null.
  pub set_at : Heap J → ℕ → Option (Option FieldSet)
  set_at h p = if p == 0 then some none else (h.fields.cell p >>= λ f. some (some f.set))

  abbrev pub with_dst : Op → Heap J → ℕ × Registry J Memref → Stage J
  with_dst o h (p, s) = record {
    ok = not (p == 0);
    op = record o { dst = p };
    heap = record h { states = s };
  }

  abbrev pub with_src : Op → Heap J → ℕ × Registry J Memref → Stage J
  with_src o h (p, s) = record {
    ok = not (p == 0);
    op = record o { src = p };
    heap = record h { states = s };
  }

  pub compiled : Op → Heap J → Option Op
  compiled o h = h.fields.cell (if o.dst_field == 0 then o.src_field else o.dst_field) >>= λ to.
      h.fields.cell (if o.src_field == 0 then o.dst_field else o.src_field) >>= λ from.
      some record o {
        set = record {
          set_to = to.set;
          to = address o.dst;
          set_from = from.set;
          from = address o.src;
        };
      }

  -- The end: the operation, or `die`.
  pub finished : Stage J → Option (Option Op × Heap J)
  finished st =
      if st.ok
      then (compiled st.op st.heap >>= λ o. some (some o, st.heap))
      else (op_free st.heap st.op >>= λ h. some (none, h))

  module _ (c : Calls) where
    pub dst_got : Request → Option String → Op → Heap J → Option (Stage J)
    dst_got q none o h = some (record { ok = true; op = o; heap = h })
    dst_got q (some k) o h = set_at h (dst_type q o) >>= λ set.
        memref_state_get c.nstralloc h.states set (some k) >>= λ got. some (with_dst o h got)

    pub src_got : Request → Option String → Option String → Op → Heap J → Option (Stage J)
    src_got q none none o h = some (record { ok = true; op = o; heap = h })
    src_got q none (some v) o h = set_at h (src_type q o) >>= λ set.
        memref_value_new c.literals h.states set (some v) >>= λ got. some (with_src o h got)
    src_got q (some k) v o h = set_at h (src_type q o) >>= λ set.
        memref_state_get c.nstralloc h.states set (some k) >>= λ got. some (with_src o h got)

    pub gathered : Request → Heap J → Option (Stage J)
    gathered q h = dst_field_got q.dst_field_name blank h >>= λ st.
        go_on st (src_field_got q.src_field_name) >>= λ st'.
        go_on st' (dst_got q q.dst_state_name) >>= λ st''.
        go_on st'' (src_got q q.src_state_name q.src_value)

    -- `memory` is whether `calloc` succeeds.
    pub op_new : Heap J → Bool → Request → Option (Option Op × Heap J)
    op_new h memory q =
        if is_request q && memory then (gathered q h >>= λ st. finished st) else some (none, h)
