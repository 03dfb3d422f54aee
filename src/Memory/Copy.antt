-- ===== src/Memory/Copy.antt =====
-- `memcpy` and `memcmp`: inside their arrays they do not fault, and what they do to each byte.
use mathlib.Core.Path.{subst}
use mathlib.Core.Option.{some-injective}
use xdpacket.Base.{
  inl, inr, Bool-cases, Option-cases, sym, ap, ℕ, zero, suc, ◌+◌, ◌≤◌, ◌<◌, ◌≡◌, ◌↔◌, refl, ◌∙◌,
  arith, Bool, true, false, ◌&&◌, some, ◌==◌, ltb, leb, length,
}
use xdpacket.Memory.{
  peek, poke, Place, same_place, Memory, Ptr, region, byte, poked, apart, copy, memcpy,
  compare_bytes,
}
use xdpacket.Memory.Laws.{Holds, same_place_iff, peek-eq, poke-eq, length-poked, byte-poked}

-- The byte `j` of `q` is one of the bytes `lo` to `hi` at `p`.
abbrev pub covers : Ptr → ℕ → ℕ → Place → ℕ → Bool
covers p lo hi q j = same_place p.place q && (leb (p.off + lo) j && ltb j (p.off + hi))

-- `out` is `m` with the bytes `lo` to `hi` at `to` replaced by those at `from`.
pub record IsCopied (m : Memory) (to from : Ptr) (lo hi : ℕ) (out : Memory) : Type 0 where
  pub same_length : (q : Place) → length (region out q) ≡ length (region m q)
  pub inside :
      (j : ℕ) → lo ≤ j → j < hi → byte out to.place (to.off + j) ≡ byte m from.place (from.off + j)
  pub outside : (q : Place) (j : ℕ) → covers to lo hi q j ≡ false → byte out q j ≡ byte m q j

module _ (to from : Ptr) (hi : ℕ) (free : apart to from hi ≡ true) where
  module _ (m : Memory) (lo : ℕ) (below : lo < hi) (to_holds : Holds m to hi)
      (from_holds : Holds m from hi) where
    abbrev value : ℕ
    value = byte m from.place (from.off + lo)

    abbrev next : Memory
    next = poked m to lo value

    other_byte :
        (j : ℕ) → j < hi → byte next from.place (from.off + j) ≡ byte m from.place (from.off + j)
    other_byte j h = ground (
      arith,
      byte-poked m to lo value from.place (from.off + j),
      same_place_iff to.place from.place,
    )

    own_byte : byte next to.place (to.off + lo) ≡ value
    own_byte =
        ground
          (arith, byte-poked m to lo value to.place (to.off + lo), same_place_iff to.place to.place)

    IsCopied-next :
        (out : Memory) → IsCopied next to from (lo + 1) hi out → IsCopied m to from lo hi out
    IsCopied-next out c = record {
      same_length = λ q. c.same_length q ∙ length-poked m to lo value q;
      inside = λ j p q. ground (
        arith,
        c.inside j,
        c.outside to.place (to.off + lo),
        own_byte,
        other_byte j,
        same_place_iff to.place to.place,
      );
      outside = λ q j e. ground (arith, c.outside q j, byte-poked m to lo value q j);
    }

  copy_total :
      (k lo : ℕ) (m : Memory)
      → lo + k ≡ hi
      → Holds m to hi
      → Holds m from hi
      → (out : Memory) × (copy m to from lo k ≡ some out) × IsCopied m to from lo hi out
  unfolding copy
  copy_total zero lo m e th fh = (
    m,
    refl,
    record {
      same_length = λ q. refl;
      inside = λ j p q. absurd (omega arith);
      outside = λ q j h. refl;
    },
  )
  copy_total (suc k) lo m e th fh =
      let (out, run, c) =
        copy_total k (lo + 1) (next m lo (omega arith) th fh) (omega arith)
          (omega (arith, length-poked m to lo (byte m from.place (from.off + lo)) to.place))
          (omega (arith, length-poked m to lo (byte m from.place (from.off + lo)) from.place)) in
      (
        out,
        ground (arith, run, peek-eq m from lo, poke-eq m to lo (byte m from.place (from.off + lo))),
        IsCopied-next m lo (omega arith) th fh out c,
      )

  -- Between arrays that hold `hi` bytes and do not overlap there, `memcpy` copies just these.
  pub memcpy_total :
      (m : Memory)
      → Holds m to hi
      → Holds m from hi
      → (out : Memory) × (memcpy m to from hi ≡ some out) × IsCopied m to from 0 hi out
  unfolding memcpy
  memcpy_total m th fh =
      let (out, run, c) = copy_total hi 0 m (omega arith) th fh in (out, rw free run, c)

-- The bytes `lo` to `hi` at `p` and at `q` are equal.
abbrev pub SameBytes : Memory → Ptr → Ptr → ℕ → ℕ → Type 0
SameBytes m p q lo hi =
    (j : ℕ) → lo ≤ j → j < hi → byte m p.place (p.off + j) ≡ byte m q.place (q.off + j)

-- Inside its arrays `memcmp` answers, and says whether all the bytes are equal.
pub compare_bytes_total :
    (k lo hi : ℕ) (m : Memory) (p q : Ptr)
    → lo + k ≡ hi
    → Holds m p hi
    → Holds m q hi
    → (b : Bool) × (compare_bytes m p q lo k ≡ some b) × ((b ≡ true) ↔ SameBytes m p q lo hi)
unfolding compare_bytes
compare_bytes_total zero lo hi m p q e ph qh =
    (true, refl, ((λ _ j a b. absurd (omega arith)), λ _. refl))
compare_bytes_total (suc k) lo hi m p q e ph qh =
    let (b, run, iff) = compare_bytes_total k (lo + 1) hi m p q (omega arith) ph qh in
    (
      (byte m p.place (p.off + lo) == byte m q.place (q.off + lo)) && b,
      ground (arith, run, peek-eq m p lo, peek-eq m q lo),
      (
        (λ h.
            let first : byte m p.place (p.off + lo) ≡ byte m q.place (q.off + lo) = ground arith in
            let later : SameBytes m p q (lo + 1) hi = iff.0 (ground arith) in
            λ j a c. ground (arith, first, later j)),
        λ same. ground (arith, same lo, iff.1 (λ j a c. same j (omega arith) c)),
      ),
    )

-- A copy keeps the size of every array.
length-poke :
    (m out : Memory) (p : Ptr) (i v : ℕ) (q : Place)
    → poke m p i v ≡ some out
    → length (region out q) ≡ length (region m q)
unfolding poke
length-poke m out p i v q e = elim (Bool-cases (ltb (p.off + i) (length (region m p.place)))) [
  | inl inside ↦
      subst (λ t. length (region t q) ≡ length (region m q)) (some-injective _ _ (rw inside at e))
        (length-poked m p i v q)
  | inr outside ↦ absurd (ground arith)
]

length-copy :
    (to from : Ptr) (k i : ℕ) (m out : Memory) (q : Place)
    → copy m to from i k ≡ some out
    → length (region out q) ≡ length (region m q)
unfolding copy
length-copy to from zero i m out q e = ap (λ t. length (region t q)) (sym (some-injective _ _ e))
length-copy to from (suc k) i m out q e = elim (Option-cases (peek m from i)) [
  | inl cut ↦ absurd (ground arith)
  | inr (v, read) ↦ elim (Option-cases (poke m to i v)) [
    | inl cut ↦ absurd (ground arith)
    | inr (m', stored) ↦
        length-copy to from k (i + 1) m' out q (ground arith) ∙ length-poke m m' to i v q stored
  ]
]

pub length-memcpy :
    (m out : Memory) (to from : Ptr) (n : ℕ) (q : Place)
    → memcpy m to from n ≡ some out
    → length (region out q) ≡ length (region m q)
unfolding memcpy
length-memcpy m out to from n q e = elim (Bool-cases (apart to from n)) [
  | inl free ↦ length-copy to from n 0 m out q (rw free at e)
  | inr overlap ↦ absurd (ground arith)
]
