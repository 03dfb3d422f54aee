-- ===== src/Iface/Laws.antt =====
-- Which frames leave, what is counted, and who handles the packets of an interface.
use xdpacket.Base.{
  ℕ, ◌+◌, Bool, true, false, some, List, ◌∷◌, ℤ, pos, ◌≡◌, ◌≢◌, inl, inr, refl, arith, take, length,
  u64, Bool-cases,
}
use xdpacket.Checksum.{
  ChecksumErr, Outcome, done, fault, chk_ok, chk_inval, chk_unsupported, chk_malformed, checksum,
}
use xdpacket.Iface.{
  Iface, World, set_iface, set_pkt, sent_all, rejected, transmitted, checked, iface_output,
}

-- The other interfaces, and the memory beside the packet, are as before.
pub record Elsewhere (w : World) (p : ℕ) (w' : World) : Type 0 where
  pub refs : (r : ℕ) → w'.mem.refs r ≡ w.mem.refs r
  pub others : (q : ℕ) → p ≢ q → w'.iface q ≡ w.iface q

-- A frame that was output, or not.
pub data Output (send : ℕ → ℕ → List ℕ → ℤ) (w : World) (p : ℕ) (i : Iface) (plen : ℕ) (ok : Bool)
    (w' : World) : Type 0 where
  refused :
      (err : ChecksumErr) (pkt : List ℕ)
      → checksum (some w.mem.pkt) plen ≡ done err pkt
      → err ≢ chk_ok
      → ok ≡ false
      → w'.sent ≡ w.sent
      → w'.iface p ≡ some (record i { count_checkfail = u64 (i.count_checkfail + 1) })
      → Elsewhere w p w'
      → Output send w p i plen ok w'
  sent_whole :
      (pkt : List ℕ)
      → checksum (some w.mem.pkt) plen ≡ done chk_ok pkt
      → send (length w.sent) i.fd (take plen pkt) ≡ pos plen
      → ok ≡ true
      → w'.sent ≡ (i.fd, take plen pkt) ∷ w.sent
      → w'.iface p ≡ some i
      → Elsewhere w p w'
      → Output send w p i plen ok w'
  cut_short :
      (pkt : List ℕ)
      → checksum (some w.mem.pkt) plen ≡ done chk_ok pkt
      → send (length w.sent) i.fd (take plen pkt) ≢ pos plen
      → ok ≡ false
      → w'.sent ≡ (i.fd, take plen pkt) ∷ w.sent
      → w'.iface p ≡ some (record i { count_sockdrop = u64 (i.count_sockdrop + 1) })
      → Elsewhere w p w'
      → Output send w p i plen ok w'

sent_all-pos : (r : ℤ) (plen : ℕ) → sent_all r plen ≡ true → r ≡ pos plen
unfolding sent_all
sent_all-pos (pos n) plen e = ground arith
sent_all-pos (ℤ.negsuc n) plen e = absurd (ground arith)

sent_all-ne : (r : ℤ) (plen : ℕ) → sent_all r plen ≡ false → r ≢ pos plen
unfolding sent_all
sent_all-ne (pos n) plen e same = ground arith
sent_all-ne (ℤ.negsuc n) plen e same = ground arith

module _ (send : ℕ → ℕ → List ℕ → ℤ) (w : World) (p : ℕ) (i : Iface) (plen : ℕ)
    (at : w.iface p ≡ some i) where
  abbrev Result : Outcome → Type 0
  Result outcome =
      (ok : Bool) × (w' : World) × (checked send w p i plen outcome ≡ some (ok, w'))
      × Output send w p i plen ok w'

  refused-Result :
      (err : ChecksumErr) (pkt : List ℕ)
      → checksum (some w.mem.pkt) plen ≡ done err pkt
      → err ≢ chk_ok
      → checked send w p i plen (done err pkt) ≡ some (rejected (set_pkt w pkt) p i)
      → Result (done err pkt)
  unfolding rejected
  refused-Result err pkt e bad run = (
    false,
    (rejected (set_pkt w pkt) p i).1,
    run,
    refused err pkt e bad refl refl (ground arith)
        record { refs = λ r. refl; others = λ q ne. ground arith },
  )

  accepted-Result :
      (pkt : List ℕ) → checksum (some w.mem.pkt) plen ≡ done chk_ok pkt → Result (done chk_ok pkt)
  unfolding checked transmitted
  accepted-Result pkt e =
      elim (Bool-cases (sent_all (send (length w.sent) i.fd (take plen pkt)) plen)) [
        | inl whole ↦ (
          true,
          record (set_pkt w pkt) { sent = (i.fd, take plen pkt) ∷ w.sent },
          rw whole refl,
          sent_whole pkt e (sent_all-pos _ plen whole) refl refl at
              record { refs = λ r. refl; others = λ q ne. refl },
        )
        | inr cut ↦ (
          false,
          set_iface (record (set_pkt w pkt) { sent = (i.fd, take plen pkt) ∷ w.sent }) p
              (record i { count_sockdrop = u64 (i.count_sockdrop + 1) }),
          rw cut refl,
          cut_short pkt e (sent_all-ne _ plen cut) refl refl (ground arith)
              record { refs = λ r. refl; others = λ q ne. ground arith },
        )
      ]

  checked-Result :
      (outcome : Outcome)
      → checksum (some w.mem.pkt) plen ≡ outcome
      → outcome ≢ fault
      → Result outcome
  unfolding checked
  checked-Result fault e sound = absurd (sound refl)
  checked-Result (done chk_ok pkt) e sound = accepted-Result pkt e
  checked-Result (done chk_inval pkt) e sound = refused-Result chk_inval pkt e (λ h. cc) refl
  checked-Result (done chk_unsupported pkt) e sound =
      refused-Result chk_unsupported pkt e (λ h. cc) refl
  checked-Result (done chk_malformed pkt) e sound =
      refused-Result chk_malformed pkt e (λ h. cc) refl

  -- On an interface that exists, where `checksum` stays inside the packet, `iface_output` returns. A frame that `checksum`
  -- refuses is not sent and is counted as a checksum failure. Any other is handed to the socket of
  -- the interface, as `checksum` left it, and is counted as dropped unless all of it was taken.
  -- Other interfaces and the memory beside the packet do not change.
  pub iface_output-Output :
      checksum (some w.mem.pkt) plen ≢ fault
      → (ok : Bool) × (w' : World) × (iface_output send w p plen ≡ some (ok, w'))
        × Output send w p i plen ok w'
  unfolding iface_output
  iface_output-Output sound = rw at (checked-Result (checksum (some w.mem.pkt) plen) refl sound)
