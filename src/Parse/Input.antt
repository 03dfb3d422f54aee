-- ===== src/Parse/Input.antt =====
-- `parse_callback` never leaves its buffer, and never runs out of rounds.
use xdpacket.Base.{
  ℕ, zero, suc, ◌+◌, ◌*◌, ◌≤◌, ◌<◌, true, false, Option, none, some, List, [], ◌∷◌, ◌≡◌, ◌⊎◌, inl,
  inr, refl, ◌∙◌, arith, ltb, leb, if◌then◌else◌, length, take, set, length-set, Bool-cases, ◌>>=◌,
}
use xdpacket.Parse.{
  Parse, ends, ends_in, store, Filled, gave_up, came, Called, reset, closed, waiting, parsed,
  bytes_of, count_of, full, extend, read_into, fill, complete, filled, parse_callback,
}
use xdpacket.Parse.Tail.{ends_in_decides}

-- The buffer has the length on record, in whole blocks, up to the limit; the position is inside.
pub record IsParse (p : Parse) : Type 0 where
  pub blocks : ℕ
  pub whole : p.buf_len ≡ blocks * 4096
  pub most : p.buf_len ≤ 524288
  pub inside : p.buf_pos ≤ p.buf_len
  pub held : length (bytes_of p.buf) ≡ p.buf_len

abbrev pub state_of : Called → Parse
state_of (reset p) = p
state_of (closed p) = p
state_of (waiting p) = p
state_of (parsed doc p) = p

store_total :
    (bytes buf : List ℕ) (at : ℕ)
    → at + length bytes ≤ length buf
    → (buf' : List ℕ) × (store buf at bytes ≡ some buf') × (length buf' ≡ length buf)
unfolding store
store_total [] buf at fits = (buf, refl, refl)
store_total (b ∷ bytes) buf at fits =
    let (buf', run, same) =
      store_total bytes (set buf at b) (at + 1) (omega (arith, length-set buf at b)) in
    (buf', ground arith, omega (arith, length-set buf at b))

-- After the loop: the state is sound, and if the last read was not full, there is room left.
abbrev Sound : Filled → Type 0
Sound (gave_up p) = IsParse p
Sound (came p res) = IsParse p × (p.buf_pos < p.buf_len)

read_into_total :
    (buf : Option (List ℕ)) (at : ℕ) (got : Option (List ℕ))
    → at + 4096 ≤ length (bytes_of buf)
    → ((bytes : List ℕ) → got ≡ some bytes → length bytes ≤ 4096)
    → (buf' : Option (List ℕ)) × (res : Option ℕ) × (read_into buf at got ≡ some (buf', res))
      × (length (bytes_of buf') ≡ length (bytes_of buf))
      × (count_of res ≤ 4096)
unfolding read_into
read_into_total buf at none fits most = (buf, none, refl, refl, omega arith)
read_into_total none at (some bytes) fits most = absurd (omega arith)
read_into_total (some buf) at (some bytes) fits most =
    let (buf', run, same) = store_total bytes buf at (omega (arith, most bytes refl)) in
    (some buf', some (length bytes), rw run refl, same, most bytes refl)

-- The last read of the loop was not full, so there is room for the zero byte behind it.
complete_total :
    (p : Parse)
    → IsParse p
    → p.buf_pos < p.buf_len
    → (c : Called) × (complete p (bytes_of p.buf) ≡ some c) × IsParse (state_of c)
unfolding complete
complete_total p v room =
    let (buf, run, same) =
      store_total (0 ∷ []) (bytes_of p.buf) p.buf_pos (omega (arith, v.held)) in
    (
      parsed (take p.buf_pos buf) (record p { buf = some buf; buf_pos = 0 }),
      rw run refl,
      record {
        blocks = v.blocks;
        whole = v.whole;
        most = v.most;
        inside = omega arith;
        held = same ∙ v.held;
      },
    )

tested_total :
    (p : Parse)
    → IsParse p
    → p.buf_pos < p.buf_len
    → (c : Called) × ((ends_in ends (bytes_of p.buf) p.buf_pos >>= λ done.
          if done then complete p (bytes_of p.buf) else some (waiting p))
        ≡ some c)
      × IsParse (state_of c)
tested_total p v room =
    let (r, run, iff) = ends_in_decides (bytes_of p.buf) p.buf_pos (omega (arith, v.held)) ends in
    elim (Bool-cases r) [
      | inl met ↦ let (c, done, sound) = complete_total p v room in (c, rw (run, met) done, sound)
      | inr unmet ↦ (waiting p, rw (run, unmet) refl, v)
    ]

filled_total : (f : Filled) → Sound f → (c : Called) × (filled f ≡ some c) × IsParse (state_of c)
unfolding filled
filled_total (gave_up p) v = (
  reset (record p { buf_pos = 0 }),
  refl,
  record { blocks = v.blocks; whole = v.whole; most = v.most; inside = omega arith; held = v.held },
)
filled_total (came p (some zero)) (v, room) = (closed p, refl, v)
filled_total (came p (some (suc n))) (v, room) = tested_total p v room
filled_total (came p none) (v, room) = tested_total p v room

module _ (realloc : List ℕ → ℕ → Option (List ℕ)) (read : ℕ → Option (List ℕ))
    (grows : (buf : List ℕ) (n : ℕ)
      → (buf' : List ℕ) × (realloc buf n ≡ some buf') × (length buf' ≡ n))
    (bounded : (k : ℕ) (bytes : List ℕ) → read k ≡ some bytes → length bytes ≤ 4096) where
  -- `extend` makes room for a read, or the buffer has its full length.
  extend_cases :
      (p : Parse)
      → IsParse p
      → (q : Parse) × IsParse q
        × (q.buf_pos ≡ p.buf_pos)
        × ((extend realloc p ≡ (true, q)) × (p.buf_pos + 4096 ≤ q.buf_len)
            ⊎ (extend realloc p ≡ (false, q)))
  unfolding extend
  extend_cases p v = elim (Bool-cases (ltb p.buf_len (p.buf_pos + 4096))) [
    | inr room ↦ (p, v, refl, inl (rw room refl, ground arith))
    | inl short ↦ elim (Bool-cases (leb 524288 p.buf_len)) [
      | inl at_limit ↦ (p, v, refl, inr (rw (short, at_limit) refl))
      | inr below ↦
          let (buf, run, len) = grows (bytes_of p.buf) (p.buf_len + 4096) in
          let less : p.buf_len < 524288 = ground arith in
          (
            record p { buf = some buf; buf_len = p.buf_len + 4096 },
            record {
              blocks = suc v.blocks;
              whole = omega (arith, v.whole);
              most = omega (arith, v.whole);
              inside = omega (arith, v.inside);
              held = len;
            },
            refl,
            inl (rw (short, below, run) refl, omega (arith, v.inside)),
          )
    ]
  ]

  read_step :
      (q : Parse) (at k : ℕ)
      → IsParse q
      → at + 4096 ≤ q.buf_len
      → (buf : Option (List ℕ)) × (res : Option ℕ) × (read_into q.buf at (read k) ≡ some (buf, res))
        × IsParse (record q { buf = buf; buf_pos = at + count_of res })
        × (count_of res ≤ 4096)
  read_step q at k v room =
      let (buf, res, run, same, most) =
        read_into_total q.buf at (read k) (omega (arith, v.held)) (bounded k) in
      (
        buf,
        res,
        run,
        record {
          blocks = v.blocks;
          whole = v.whole;
          most = v.most;
          inside = omega (arith, room, most);
          held = same ∙ v.held;
        },
        most,
      )

  count-full : (res : Option ℕ) → full res ≡ true → count_of res ≡ 4096
  count-full none e = absurd (ground arith)
  count-full (some n) e = ground arith

  count-not_full : (res : Option ℕ) → count_of res ≤ 4096 → full res ≡ false → count_of res < 4096
  count-not_full none most e = omega arith
  count-not_full (some n) most e = ground arith

  fill_total :
      (fuel k : ℕ) (p : Parse)
      → IsParse p
      → 524288 < p.buf_pos + fuel * 4096
      → (f : Filled) × (fill realloc read fuel k p ≡ some f) × Sound f
  unfolding fill
  fill_total zero k p v enough = absurd (omega (arith, v.inside, v.most))
  fill_total (suc fuel) k p v enough =
      let (q, sound, same, how) = extend_cases p v in
      elim how [
        | inr full_up ↦ (gave_up q, rw full_up refl, sound)
        | inl (ready, room) ↦
            let (buf, res, run, after, most) = read_step q p.buf_pos k sound room in
            let p' = record q { buf = buf; buf_pos = p.buf_pos + count_of res } in
            elim (Bool-cases (full res)) [
              | inl all ↦
                  let (f, rest, good) =
                    fill_total fuel (suc k) p' after (omega (arith, count-full res all)) in
                  (f, rw (ready, run, all) rest, good)
              | inr some_left ↦ (
                came p' res,
                rw (ready, run, some_left) refl,
                (after, omega (arith, count-not_full res most some_left, room)),
              )
            ]
      ]

  -- Where `realloc` succeeds and a read stores at most what it was asked for, `parse_callback`
  -- returns: it stores nothing outside its buffer, the zero byte behind a document included, and
  -- 130 rounds of its loop are enough. The buffer keeps the length on record, a whole number of
  -- blocks and at most 512 KiB, with the position inside.
  pub parse_callback_total :
      (p : Parse)
      → IsParse p
      → (c : Called) × (parse_callback realloc read p ≡ some c) × IsParse (state_of c)
  unfolding parse_callback
  parse_callback_total p v =
      let (f, run, sound) = fill_total 130 0 p v (omega arith) in
      let (c, done, good) = filled_total f sound in (c, rw run done, good)
