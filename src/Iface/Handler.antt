-- ===== src/Iface/Handler.antt =====
-- One handler at a time on an interface.
use xdpacket.Base.{ℕ, true, false, some, ◌≡◌, ◌≢◌, ◌⊎◌, inl, inr, arith, ◌==◌, Bool-cases}
use xdpacket.Iface.{Iface, iface_handler_register, iface_handler_clear}

-- On an interface without a handler a handler can be registered. From then on the same handler with
-- the same context may be registered again, which changes nothing, and may be cleared, which leaves
-- the interface without a handler. Any other handler or context can neither replace nor clear it.
pub iface_handler_exclusive :
    (i : Iface) (handler context handler' context' : ℕ)
    → i.handler ≡ 0
    → handler ≢ 0
    → (j : Iface) × (iface_handler_register i handler context ≡ (true, j))
      × ((handler' ≡ handler)
            × (context' ≡ context)
            × (iface_handler_register j handler' context' ≡ (true, j))
            × (iface_handler_clear (some j) handler' context'
                ≡ (true, some (record i { handler = 0; context = 0 })))
          ⊎ ((handler' ≢ handler) ⊎ (context' ≢ context))
            × (iface_handler_register j handler' context' ≡ (false, j))
            × (iface_handler_clear (some j) handler' context' ≡ (false, some j)))
unfolding iface_handler_register iface_handler_clear
iface_handler_exclusive i handler context handler' context' none_yet real = (
  record i { handler = handler; context = context },
  ground arith,
  elim (Bool-cases (handler == handler')) [
    | inr other ↦ inr (inl (ground arith), ground arith, ground arith)
    | inl same ↦ elim (Bool-cases (context == context')) [
      | inr other ↦ inr (inr (ground arith), ground arith, ground arith)
      | inl same_context ↦ inl (ground arith, ground arith, ground arith, ground arith)
    ]
  ],
)
