-- ===== src/Parse.antt =====
-- src/parse2.c, the input of commands: `parse_callback` gathers bytes until a document is complete.
-- `read` and `realloc` are code outside and arguments here; what `parse` does with a document is not
-- part of this model.
pub mod Tail
pub mod Input
mod Tests
use xdpacket.Base.{
  ℕ, zero, suc, ◌+◌, ◌-◌, ◌*◌, Bool, true, false, ◌&&◌, ◌||◌, not, Option, none, some, List, [],
  ◌∷◌, ◌==◌, ltb, leb, if◌then◌else◌, length, take, drop, set, ◌>>=◌,
}

abbrev pub pipe_buf : ℕ
pipe_buf = 4096

abbrev pub parse_buf_max : ℕ
parse_buf_max = 1024 * 512

-- `struct parse` without its descriptors; the buffer may be null.
pub record Parse : Type 0 where
  pub buf : Option (List ℕ)
  pub buf_len : ℕ
  pub buf_pos : ℕ

-- `strncmp(a, b, strlen(a)) == 0`, for an `a` without a zero byte; `none` reads behind `b`.
pub strncmp : List ℕ → List ℕ → Option Bool
strncmp [] b = some true
strncmp (x ∷ a) [] = none
strncmp (x ∷ a) (y ∷ b) = let rest = strncmp a b in if x == y then rest else some false

-- Whether the `buf_pos` bytes in the buffer end in `check`, which the source returns as 0.
pub parse_cmptail : List ℕ → List ℕ → ℕ → Option Bool
parse_cmptail check buf buf_pos =
    if ltb buf_pos (length check)
    then some false
    else strncmp check (drop (buf_pos - length check) buf)

-- The four ends of a document: "\n\n", "\r\n\r\n", "...\n" and "...\r\n".
abbrev pub ends : List (List ℕ)
ends =
    (10 ∷ 10 ∷ [])
    ∷ (13 ∷ 10 ∷ 13 ∷ 10 ∷ [])
    ∷ (46 ∷ 46 ∷ 46 ∷ 10 ∷ [])
    ∷ (46 ∷ 46 ∷ 46 ∷ 13 ∷ 10 ∷ [])
    ∷ []

-- The chain of tests, which stops at the first that is met.
pub ends_in : List (List ℕ) → List ℕ → ℕ → Option Bool
ends_in [] buf buf_pos = some false
ends_in (check ∷ checks) buf buf_pos =
    let rest = ends_in checks buf buf_pos in
    parse_cmptail check buf buf_pos >>= λ met. if met then some true else rest

-- Bytes stored one after the other; `none` is a store behind the buffer.
pub store : List ℕ → ℕ → List ℕ → Option (List ℕ)
store buf at [] = some buf
store buf at (b ∷ bytes) = if ltb at (length buf) then store (set buf at b) (at + 1) bytes else none

-- How `parse_callback` ends: the buffer is full or there is no memory, or a last read came with
-- `res` bytes, none for an error.
pub data Filled : Type 0 where
  gave_up : Parse → Filled
  came : Parse → Option ℕ → Filled

pub data Called : Type 0 where
  reset closed waiting : Parse → Called
  parsed : List ℕ → Parse → Called

-- A null buffer has no bytes.
abbrev pub bytes_of : Option (List ℕ) → List ℕ
bytes_of none = []
bytes_of (some buf) = buf

abbrev pub count_of : Option ℕ → ℕ
count_of none = 0
count_of (some n) = n

abbrev pub full : Option ℕ → Bool
full none = false
full (some n) = n == pipe_buf

module _ (realloc : List ℕ → ℕ → Option (List ℕ)) where
  -- Whether there is room for one more read, and the state with it.
  pub extend : Parse → Bool × Parse
  extend p =
      if ltb p.buf_len (p.buf_pos + pipe_buf)
      then (if leb parse_buf_max p.buf_len
          then (false, p)
          else elim (realloc (bytes_of p.buf) (p.buf_len + pipe_buf)) [
            | none ↦ (false, record p { buf = none; buf_len = p.buf_len + pipe_buf })
            | some buf ↦ (true, record p { buf = some buf; buf_len = p.buf_len + pipe_buf })
          ])
      else (true, p)

-- One read. Into a null pointer it is an error, and stores nothing.
pub read_into : Option (List ℕ) → ℕ → Option (List ℕ) → Option (Option (List ℕ) × Option ℕ)
read_into buf at none = some (buf, none)
read_into none at (some bytes) = some (none, none)
read_into (some buf) at (some bytes) =
    store buf at bytes >>= λ buf'. some (some buf', some (length bytes))

-- The document is complete: the zero byte, `parse`, and an empty buffer.
pub complete : Parse → List ℕ → Option Called
complete p buf = store buf p.buf_pos (0 ∷ []) >>= λ buf'.
    some (parsed (take p.buf_pos buf') (record p { buf = some buf'; buf_pos = 0 }))

pub filled : Filled → Option Called
filled (gave_up p) = some (reset (record p { buf_pos = 0 }))
filled (came p (some zero)) = some (closed p)
filled (came p res) = ends_in ends (bytes_of p.buf) p.buf_pos >>= λ done.
    if done then complete p (bytes_of p.buf) else some (waiting p)

-- More rounds than there are blocks in a full buffer.
abbrev pub rounds : ℕ
rounds = 130

module _ (realloc : List ℕ → ℕ → Option (List ℕ)) (read : ℕ → Option (List ℕ)) where
  -- The loop, on fuel: `k` reads were done before.
  pub fill : ℕ → ℕ → Parse → Option Filled
  fill zero k p = none
  fill (suc fuel) k p =
      if (extend realloc p).0
      then (read_into (extend realloc p).1.buf p.buf_pos (read k) >>= λ r.
          let p' = record (extend realloc p).1 { buf = r.0; buf_pos = p.buf_pos + count_of r.1 } in
          let rest = fill fuel (suc k) p' in if full r.1 then rest else some (came p' r.1))
      else some (gave_up (extend realloc p).1)

  -- A document that is complete is handed to `parse`, which is not part of this model.
  pub parse_callback : Parse → Option Called
  parse_callback p = fill rounds 0 p >>= filled
