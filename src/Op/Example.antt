-- ===== src/Op/Example.antt =====
-- One field, and an operation that compares it with itself.
use text.Mathlib.Text.{◌==◌ as str_eq}
use text.Mathlib.TextEquality.{eq_iff}
use Prim.Native.String.{String}
use xdpacket.Base.{
  ℕ, ◌≡◌, inl, inr, refl, arith, true, Bool-cases, none, some, [], ◌∷◌, pos, ◌==◌, if◌then◌else◌,
}
use xdpacket.Judy.{js_get}
use xdpacket.Judy.Model.{words}
use xdpacket.FieldSet.{FieldSet}
use xdpacket.Registry.{initial, set_cell, find, get, take_ref}
use xdpacket.Registry.New.{initial-IsValid}
use xdpacket.Field.{Field, whole, field_get}
use xdpacket.Memref as Memref
use xdpacket.Memref.{copied}
use xdpacket.Value.Example.{readers, readers-IsReaders}
use xdpacket.Op.{
  Op, Heap, Request, Calls, is_request, gathered, dst_field_got, go_on, src_field_got, dst_got,
  src_got, finished, compiled, op_new,
}
use xdpacket.Op.Books.{nothing, Books, IsCalls}

abbrev pub port : FieldSet
port = record { offt = pos 36; len = 2; mask = 0xff; flags = 0 }

abbrev pub port_field : ℕ → Field
port_field n = record { name = some "port"; set = port; refcnt = n }

abbrev pub heap : ℕ → Heap words
heap n = record {
  fields = record {
    next = 1;
    grants = λ i. true;
    cell = λ p. if 1 == p then some (port_field n) else none;
    js = ("port", 1) ∷ [];
  };
  states = initial (λ i. true);
}

find-port : (k : String) → find (Heap.fields (heap 0)) k ≡ (if str_eq "port" k then 1 else 0)
unfolding find js_get
find-port k = ground arith

pub heap-Books : Books (heap 0) nothing
heap-Books = record {
  fields = record {
    valid = record {
      live = λ k. elim (Bool-cases (str_eq "port" k)) [
        | inl hit ↦ inr (port_field 0, ground (arith, find-port k), ground (arith, eq_iff "port" k))
        | inr miss ↦ inl (ground (arith, find-port k))
      ];
      null = refl;
      fresh = λ p lt. ground arith;
    };
    counts = λ p a at. ground arith;
    gone = λ p at. refl;
  };
  states = record {
    valid = initial-IsValid Memref.counted (λ i. true);
    entries = λ p m at. absurd (ground arith);
    bytes = λ p m at. absurd (ground arith);
    gone = λ p at. refl;
  };
}

abbrev pub request : Request
request = record {
  dst_field_name = some "port";
  dst_state_name = none;
  src_field_name = some "port";
  src_state_name = none;
  src_value = none;
}

abbrev pub same_port : Op
same_port = record {
  dst_field = 1;
  dst = 0;
  src_field = 1;
  src = 0;
  set = record { set_to = port; to = none; set_from = port; from = none };
}

-- A library that copies strings and reads every number as 80.
abbrev pub calls : Calls
calls = record {
  nstralloc = λ n k max. whole k;
  literals = record {
    nstralloc = λ n k max. copied k;
    readers = readers;
    malloc = λ n. true;
    b2hx_be = λ bytes. bytes;
  };
}

pub calls-IsCalls : IsCalls calls
calls-IsCalls = record {
  readers = readers-IsReaders;
  memory = λ n k max e. ground arith;
  copy = λ n k max j e. ground arith;
  value_memory = λ n k max e. ground arith;
}

-- The field is taken twice.
abbrev pub heap_used : Heap words
heap_used = record (heap 0) {
  fields =
      set_cell (set_cell (Heap.fields (heap 0)) 1 (some (port_field 1))) 1 (some (port_field 2));
}

pub op_new_run : op_new calls (heap 0) true request ≡ some (some same_port, heap_used)
unfolding op_new is_request gathered dst_field_got go_on src_field_got dst_got src_got finished
    compiled field_get get find take_ref js_get
op_new_run = refl
