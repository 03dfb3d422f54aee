-- ===== src/Memref/Literal.antt =====
-- `memref_value_new` makes a value with one owner, or nothing.
use Prim.Native.String.{String}
use xdpacket.Base.{
  ℕ, suc, Bool, true, false, Option, none, some, List, ◌≡◌, ◌≢◌, ◌⊎◌, inl, inr, refl, sym, ◌∙◌,
  arith, ◌==◌, Bool-cases, length, bit_or,
}
use xdpacket.Base.Bits.{and_set}
use xdpacket.Judy.{JudySl}
use xdpacket.FieldSet.{FieldSet}
use xdpacket.Registry.{Registry, set_cell, find}
use xdpacket.Registry.Laws.{Same}
use xdpacket.Registry.New.{
  IsGrown, alloc_cases, set_cell-IsGrown, Same-IsValid, IsGrown-IsValid, find-ne, suc-ne,
}
use xdpacket.Value.Length.{IsReaders, length-value_parse}
use xdpacket.Memref.{
  Memref, counted, memref_is_value, die, memref_release, released, ValueStr, invalid, missing, cut,
  copied, blank_value, max_value_len, Literals, value_rendered, value_parsed, value_named,
  value_allocated, memref_value_new,
}
use xdpacket.Memref.Ledger.{owned, Ledger, Entry-move}
use xdpacket.Memref.Take.{Took, null-Took}

blank_value-static :
    (set : FieldSet) (m : Memref)
    → m.set ≡ record set { flags = bit_or set.flags 1 }
    → memref_is_value m ≡ true
unfolding memref_is_value
blank_value-static set m e = rw e (ground (arith, and_set set.flags))

-- Null, or a value of the length of the field that was not there before and has one owner; no name
-- leads to it.
abbrev pub IsNewValue :
    {J : JudySl} → Registry J Memref → Registry J Memref → FieldSet → (ℕ → ℕ) → ℕ → Type 0
IsNewValue r s set held p =
    (p ≡ 0)
    ⊎ (m : Memref) × (s.cell p ≡ some m)
      × (memref_is_value m ≡ true)
      × (length m.bytes ≡ set.len)
      × (r.cell p ≡ none)
      × (held p ≡ 0)
      × ((k : String) → find s k ≢ p)

abbrev pub MakesValue :
    {J : JudySl} → Registry J Memref → FieldSet → (ℕ → ℕ) → Option (ℕ × Registry J Memref) → Type 0
MakesValue {J} r set held result =
    (p : ℕ) × (s : Registry J Memref) × (result ≡ some (p, s))
    × Took r s set held (λ m. memref_is_value m ≡ true) p
    × IsNewValue r s set held p

module _ {J : JudySl} (r : Registry J Memref) (set : FieldSet) (held : ℕ → ℕ)
    (v : Ledger r held) where
  -- A value that is being made.
  record IsDraft (s : Registry J Memref) (p : ℕ) (m : Memref) : Type 0 where
    grown : IsGrown r p m s
    fresh_set : m.set ≡ record set { flags = bit_or set.flags 1 }

  module _ (s : Registry J Memref) (p : ℕ) (m : Memref) (d : IsDraft s p m) where
    static : memref_is_value m ≡ true
    static = blank_value-static set m d.fresh_set

    discarded-Same : Same r (set_cell s p none)
    unfolding find
    discarded-Same = record {
      cells = λ q. ground (arith, d.grown.cells q, v.valid.fresh q, d.grown.address);
      names = d.grown.names;
    }

    abandon-Takes : MakesValue r set held (die s p)
    unfolding die memref_release released
    abandon-Takes = (
      0,
      set_cell s p none,
      ground (arith, d.grown.cells p, d.grown.address, static),
      null-Took r set held v (set_cell s p none) discarded-Same
          (Same-IsValid counted r v.valid (set_cell s p none) discarded-Same d.grown.next),
      inl refl,
    )

    value-IsNewValue : length m.bytes ≡ set.len → IsNewValue r s set held p
    value-IsNewValue long = inr (
      m,
      ground (arith, d.grown.cells p),
      static,
      long,
      v.valid.fresh p (ground (arith, d.grown.address)),
      v.gone p (v.valid.fresh p (ground (arith, d.grown.address))),
      λ k hit. find-ne counted r v.valid s p m d.grown k (sym (d.grown.names k) ∙ hit),
    )

    value-Took : length m.bytes ≡ set.len → Took r s set held (λ b. memref_is_value b ≡ true) p
    value-Took long = record {
      ledger = record {
        valid = IsGrown-IsValid counted r v.valid s p m d.grown;
        entries = λ q b e. elim (Bool-cases (p == q)) [
          | inl hit ↦
              let same : m ≡ b = ground (arith, d.grown.cells q) in
              let same_p : p ≡ q = ground arith in
              rw (sym same, sym same_p)
                (owned record {
                  static = static;
                  single =
                      ground
                        (arith, v.gone p (v.valid.fresh p _), v.valid.fresh p, d.grown.address);
                  unlisted = λ k hit.
                      find-ne counted r v.valid s p m d.grown k (sym (d.grown.names k) ∙ hit);
                })
          | inr miss ↦
              Entry-move r _ q b (held q) _ (ground arith)
                (λ k hit. (k, sym (d.grown.names k) ∙ hit))
                (v.entries q b (ground (arith, d.grown.cells q)))
        ];
        bytes = λ q b e. ground (arith, d.grown.cells q, v.bytes q b, d.fresh_set);
        gone = λ q e. ground (arith, d.grown.cells q, v.gone q);
      };
      gives = inr (m, ground (arith, d.grown.cells p), ground (arith, d.fresh_set), static);
      keeps =
          λ q b at. (b.refcnt, ground (arith, d.grown.cells q, v.valid.fresh q, d.grown.address));
    }

    redrafted : (m' : Memref) → m'.set ≡ m.set → IsDraft (set_cell s p (some m')) p m'
    redrafted m' same = record {
      grown = set_cell-IsGrown r s p m m' d.grown;
      fresh_set = same ∙ d.fresh_set;
    }

  module _ (L : Literals) (documented : IsReaders L.readers) where
    rendered-Takes :
        (s : Registry J Memref) (p : ℕ) (m m' : Memref) (text : Option (List ℕ))
        → IsDraft s p m
        → m'.set ≡ m.set
        → length m'.bytes ≡ set.len
        → MakesValue r set held (value_rendered L s p m' text)
    unfolding value_rendered
    rendered-Takes s p m m' none d same long =
        abandon-Takes (set_cell s p (some m')) p m' (redrafted s p m d m' same)
    rendered-Takes s p m m' (some text) d same long =
        let m'' = record m' { rendered = some text } in
        (
          p,
          set_cell s p (some m''),
          refl,
          value-Took (set_cell s p (some m'')) p m'' (redrafted s p m d m'' same) long,
          value-IsNewValue (set_cell s p (some m'')) p m'' (redrafted s p m d m'' same) long,
        )

    parsed-Takes :
        (s : Registry J Memref) (p : ℕ) (m m' : Memref) (result : Bool × List ℕ)
        → IsDraft s p m
        → m'.set ≡ m.set
        → length result.1 ≡ set.len
        → MakesValue r set held (value_parsed L s p m' result)
    unfolding value_parsed
    parsed-Takes s p m m' (false, bytes) d same long =
        abandon-Takes _ p (record m' { bytes = bytes })
          (redrafted s p m d (record m' { bytes = bytes }) same)
    parsed-Takes s p m m' (true, bytes) d same long =
        rendered-Takes s p m (record m' { bytes = bytes }) _ d same long

    value_named-Takes :
        (s : Registry J Memref) (p : ℕ) (str : ValueStr)
        → IsDraft s p (blank_value set)
        → str ≢ missing
        → MakesValue r set held (value_named L s p set str)
    unfolding value_named
    value_named-Takes s p invalid d memory = abandon-Takes s p (blank_value set) d
    value_named-Takes s p missing d memory = absurd (memory refl)
    value_named-Takes s p (cut k) d memory =
        abandon-Takes _ p (record (blank_value set) { name = some k })
          (redrafted s p (blank_value set) d (record (blank_value set) { name = some k }) refl)
    value_named-Takes s p (copied k) d memory =
        parsed-Takes s p (blank_value set) (record (blank_value set) { name = some k }) _ d refl
          (length-value_parse L.readers documented k set.len)

    -- Where every memref has as many references as are held and the bytes of its field, the readers
    -- store as many bytes as documented, and `nstralloc` does not return null without an error,
    -- `memref_value_new` on a field and a text returns. It returns a new value of the length of the
    -- field, which no name leads to and which has one owner, or null; the books are right again, and every memref that there was is still
    -- there with the same bytes.
    pub memref_value_new-Takes :
        (k : String)
        → L.nstralloc r.next k max_value_len ≢ missing
        → MakesValue r set held (memref_value_new L r (some set) (some k))
    unfolding memref_value_new value_allocated
    memref_value_new-Takes k memory =
        let (s, result) = alloc_cases r (blank_value set) in
        elim result [
          | inl (run, same, next) ↦ rw run (
            0,
            s,
            refl,
            null-Took r set held v s same (Same-IsValid counted r v.valid s same next),
            inl refl,
          )
          | inr (run, grown) ↦
              rw (run, suc-ne r.next)
                (value_named-Takes s (suc r.next) _ record { grown = grown; fresh_set = refl }
                  memory)
        ]
