-- ===== src/Rule/Sum.antt =====
-- How the sum over all rules changes.
use xdpacket.Base.{
  ℕ, suc, ◌+◌, Option, none, some, ◌≡◌, ◌≢◌, inl, inr, sym, ap, ◌∙◌, arith, ◌==◌, if◌then◌else◌,
  Option-cases,
}
use xdpacket.Judy.{JudySl}
use xdpacket.Registry.{Registry}
use xdpacket.Registry.Laws.{IsValid, Same}
use xdpacket.Registry.Accounts.{Recount}
use xdpacket.Rule as Rule
use xdpacket.Rule.{Rule}
use xdpacket.Rule.Total.{total, total-ext, total-update}
use xdpacket.Rule.Books.{sum_of}

module _ {J : JudySl} (weight : Option Rule → ℕ) (r s : Registry J Rule)
    (v : IsValid Rule.counted r) where
  -- One rule is changed, or gone.
  pub sum_of-update :
      (p : ℕ) (a : Rule)
      → r.cell p ≡ some a
      → s.next ≡ r.next
      → ((q : ℕ) → p ≢ q → s.cell q ≡ r.cell q)
      → sum_of weight s + weight (some a) ≡ sum_of weight r + weight (s.cell p)
  sum_of-update p a at next others =
      let step =
        total-update (λ q. weight (r.cell q)) (λ q. weight (s.cell q)) p r.next
          (ground (arith, v.null)) (ground (arith, v.fresh p))
          (λ q other. ap weight (others q other)) in
      rw (next, sym at) step

  module _ (nothing : weight none ≡ 0) where
    -- An allocation that is in vain.
    pub sum_of-Same : Same r s → s.next ≡ suc r.next → sum_of weight s ≡ sum_of weight r
    unfolding total
    sum_of-Same same next =
        let here : weight (s.cell (suc r.next)) ≡ 0 =
          ap weight (same.cells (suc r.next) ∙ v.fresh (suc r.next) (omega arith)) ∙ nothing in
        rw next (
          omega (
            arith,
            here,
            total-ext (λ q. weight (r.cell q)) (λ q. weight (s.cell q)) r.next
                (λ q le. ap weight (same.cells q)),
          ))

    -- One more rule.
    pub sum_of-IsGrown :
        (b : Rule)
        → s.next ≡ suc r.next
        → ((q : ℕ) → s.cell q ≡ (if suc r.next == q then some b else r.cell q))
        → sum_of weight s ≡ sum_of weight r + weight (some b)
    unfolding total
    sum_of-IsGrown b next cells =
        let here : s.cell (suc r.next) ≡ some b = ground (arith, cells (suc r.next)) in
        rw (next, here)
          (ap (λ t. t + weight (some b))
            (total-ext (λ q. weight (r.cell q)) (λ q. weight (s.cell q)) r.next
              (λ q le. ap weight (ground (arith, cells q)))))

  -- Other counts of references.
  pub sum_of-Recount :
      Recount Rule.counted r s
      → ((a : Rule) (n : ℕ) → weight (some (record a { refcnt = n })) ≡ weight (some a))
      → sum_of weight s ≡ sum_of weight r
  sum_of-Recount same blind = rw (same.next) (
      total-ext (λ q. weight (r.cell q)) (λ q. weight (s.cell q)) r.next
        (λ q le. elim (Option-cases (r.cell q)) [
          | inl lost ↦ ap weight (same.absent q lost ∙ sym lost)
          | inr (a, at) ↦
              let (n, there) = same.objects q a at in
              ap weight there ∙ blind a n ∙ ap weight (sym at)
        ]))
