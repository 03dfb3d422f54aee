-- ===== src/Op/Persist.antt =====
-- A compiled operation stays good while its references are held.
use xdpacket.Base.{
  ℕ, ◌+◌, ◌≤◌, ◌<◌, some, List, ◌≡◌, ◌≢◌, inl, inr, sym, ap, ◌∙◌, arith, Option-cases,
}
use xdpacket.Judy.{JudySl}
use xdpacket.Operations.Resolve.{RefHolds}
use xdpacket.FieldSet.{FieldSet}
use xdpacket.Registry.Accounts.{one_at}
use xdpacket.Field.{Field}
use xdpacket.Op.{Op, Heap, address}
use xdpacket.Op.Books.{Holding, Books, Agrees}
use xdpacket.Op.New.Steps.{to_type, from_type}
use xdpacket.Op.New.Made.{memory_of, IsCompiled}

module _ {J : JudySl} (h h' : Heap J) (n' : Holding) (v : Books h' n') (agree : Agrees h h') where
  -- A field that is held is there, with the set that it had.
  field-stays :
      (t : ℕ) (f : Field)
      → 0 < n'.fields t
      → h.fields.cell t ≡ some f
      → (n : ℕ) × (h'.fields.cell t ≡ some (record f { refcnt = n }))
  field-stays t f used at = elim (Option-cases (h'.fields.cell t)) [
    | inl lost ↦ absurd (ground (arith, v.fields.gone t))
    | inr (g, there) ↦ let (n, same) = agree.fields t f g at there in (n, there ∙ ap some same)
  ]

  -- The memory of a memref that is held keeps its length.
  ref-stays :
      (p : ℕ) (set : FieldSet) (pkt : List ℕ)
      → (p ≢ 0 → 0 < n'.states p)
      → RefHolds (memory_of h pkt) (address p) set
      → RefHolds (memory_of h' pkt) (address p) set
  ref-stays p set pkt used before r e = elim (Option-cases (h'.states.cell p)) [
    | inl lost ↦ absurd (ground (arith, v.states.gone p, used))
    | inr (b, there) ↦ elim (Option-cases (h.states.cell p)) [
      | inl never ↦ ground (arith, before r e)
      | inr (m, at) ↦
          let (n, same) = agree.states p m b at there in
          let bytes : b.bytes ≡ m.bytes = ap (λ x. x.bytes) same in ground (arith, before r e)
    ]
  ]

  -- An operation whose references are held is as good as when it was compiled.
  pub IsCompiled-Agrees :
      (o : Op)
      → ((q : ℕ) → one_at o.dst_field q + one_at o.src_field q ≤ n'.fields q)
      → ((q : ℕ) → one_at o.dst q + one_at o.src q ≤ n'.states q)
      → to_type o ≢ 0
      → from_type o ≢ 0
      → IsCompiled h o
      → IsCompiled h' o
  IsCompiled-Agrees o held_fields held_states to_ne from_ne c =
      let (n, to_there) =
        field-stays (to_type o) c.to_field (ground (arith, held_fields (to_type o))) c.to_live in
      let (m, from_there) =
        field-stays (from_type o) c.from_field (ground (arith, held_fields (from_type o)))
          c.from_live in
      record {
        to_field = record c.to_field { refcnt = n };
        from_field = record c.from_field { refcnt = m };
        to_live = to_there;
        from_live = from_there;
        to = c.to;
        from = c.from;
        set_to = c.set_to;
        set_from = c.set_from;
        to_ref = λ pkt. rw (c.to) (
            ref-stays o.dst o.set.set_to pkt (λ ne. ground (arith, held_states o.dst))
              (rw (sym c.to) (c.to_ref pkt)));
        from_ref = λ pkt. rw (c.from) (
            ref-stays o.src o.set.set_from pkt (λ ne. ground (arith, held_states o.src))
              (rw (sym c.from) (c.from_ref pkt)));
      }
