-- ===== src/Kernel/Chances/Failures.antt =====
-- Failed sends of src/elke27_lib/kernel_loop.py make no sends beyond those still to come.
use elke.Base.{
  ℕ, suc, ◌+◌, ◌≤◌, ◌≡◌, ◌⊎◌, refl, ◌∙◌, Bool, true, false, not, Option, none, some, if◌then◌else◌,
  Bool-cases, inl, inr, arith,
}
use native.Mathlib.Nat.{le_trans}
use elke.Base.Dict.{nat_key, erase}
use elke.Kernel.{QueuedRequest, Kernel, is_disarm, transport_retry_allowed, is_active}
use elke.Session.State.{Session}
use elke.Kernel.Scheduler.{
  Raised, put_first, mark_send_failed, drop_request, cancel_transport_retry_timer,
  disconnect_session, disconnect_session_on_io_error, same_seq,
}
use elke.Kernel.Scheduler.Failures.{
  complete_active, schedule_transport_requeue, handle_transport_failure, handle_send_failure,
}
use elke.Kernel.Scheduler.Fuel.{share_active, shares_waiting}
use elke.Kernel.Chances.{IsTidy, one_if, queued_sends-put_first, share-retry, shares_waiting-erase}
use elke.Kernel.Chances.Within.{
  IsWithin, complete_active-IsWithin, schedule_transport_requeue-IsWithin, settled, total,
}

module _ (p q : ℕ → Bool) (below : (seq : ℕ) → one_if (q seq) ≤ one_if (p seq)) (r now : ℕ) where
  module _ (kick : Kernel → Kernel)
      (shrinks : (k : Kernel)
        → IsTidy r k
        → IsWithin p q below r now (total p q below r now k) (kick k)) where
    pub handle_transport_failure-IsWithin :
        (item : QueuedRequest) (exc : Raised) (sent : Bool) (k : Kernel)
        → IsTidy r k
        → k.active_released ≡ false
        → IsWithin p q below r now
            (settled p q below r now k + share_active p r sent (some item))
            (handle_transport_failure now kick item exc sent k)
    unfolding handle_transport_failure mark_send_failed drop_request cancel_transport_retry_timer
        put_first
    handle_transport_failure-IsWithin item exc sent k t h =
        elim (Bool-cases (transport_retry_allowed now sent item k)) [
          | inl allowed ↦ rw allowed (retry allowed (Bool-cases (is_disarm retry_item)))
          | inr refused ↦ rw refused (
              let w =
                complete_active-IsWithin p q below r now kick shrinks
                  (mark_send_failed item.seq exc k) (record { limit = t.limit; held = t.held }) h in
              record { tidy = w.tidy; bound = le_trans w.bound (omega arith) })
        ]
      where
        retry_item : QueuedRequest
        retry_item = record item { attempt = suc item.attempt }

        fewer :
            shares_waiting p r (erase item.seq k.transport_retry)
            ≤ shares_waiting p r k.transport_retry
        fewer = shares_waiting-erase p r item.seq k.transport_retry

        retry :
            transport_retry_allowed now sent item k ≡ true
            → (is_disarm retry_item ≡ true) ⊎ (is_disarm retry_item ≡ false)
            → IsWithin p q below r now
                (settled p q below r now k + share_active p r sent (some item))
                (if is_disarm retry_item
                  then complete_active kick (
                      put_first retry_item
                        (cancel_transport_retry_timer item.seq (drop_request item.seq k)))
                  else schedule_transport_requeue now kick retry_item
                      (complete_active kick (drop_request item.seq k)))
        retry allowed (inl disarm) =
            let used = share-retry p r now sent item k t.limit allowed in
            let put =
              queued_sends-put_first p r retry_item
                (cancel_transport_retry_timer item.seq (drop_request item.seq k)) in
            rw disarm (
              let w =
                complete_active-IsWithin p q below r now kick shrinks
                  (put_first retry_item
                    (cancel_transport_retry_timer item.seq (drop_request item.seq k)))
                  (record { limit = t.limit; held = t.held }) h in
              record { tidy = w.tidy; bound = le_trans w.bound (omega (arith, used, put, fewer)) })
        retry allowed (inr other) =
            let used = share-retry p r now sent item k t.limit allowed in
            rw other (
              let w =
                complete_active-IsWithin p q below r now kick shrinks (drop_request item.seq k)
                  (record { limit = t.limit; held = t.held }) h in
              let v =
                schedule_transport_requeue-IsWithin p q below r now kick shrinks retry_item
                  (complete_active kick (drop_request item.seq k)) w.tidy in
              record { tidy = v.tidy; bound = le_trans v.bound (omega (arith, used, w.bound)) })

    -- A disconnect leaves the requests alone.
    disconnect_session_lem :
        (o : Option Session) (k : Kernel)
        → IsTidy r k
        → IsTidy r (disconnect_session o k)
          × (total p q below r now (disconnect_session o k) ≡ total p q below r now k)
          × (settled p q below r now (disconnect_session o k) ≡ settled p q below r now k)
          × ((disconnect_session o k).active_released ≡ k.active_released)
    disconnect_session_lem none k t = (t, refl, refl, refl)
    disconnect_session_lem (some s) k t =
        (record { limit = t.limit; held = t.held }, refl, refl, refl)

    pub disconnect_lem :
        (exc : Raised) (k : Kernel)
        → IsTidy r k
        → IsTidy r (disconnect_session_on_io_error exc k)
          × (total p q below r now (disconnect_session_on_io_error exc k) ≡ total p q below r now k)
          × (settled p q below r now (disconnect_session_on_io_error exc k)
              ≡ settled p q below r now k)
          × ((disconnect_session_on_io_error exc k).active_released ≡ k.active_released)
    unfolding disconnect_session_on_io_error
    disconnect_lem exc k t = cases exc.is_session_io_error (is_active k.session)
      where
        cases :
            (io up : Bool)
            → (λ (k' : Kernel).
                  IsTidy r k'
                  × (total p q below r now k' ≡ total p q below r now k)
                  × (settled p q below r now k' ≡ settled p q below r now k)
                  × (k'.active_released ≡ k.active_released))
                (if not io then k else if not up then k else disconnect_session k.session k)
        cases false up = (t, refl, refl, refl)
        cases true false = (t, refl, refl, refl)
        cases true true = disconnect_session_lem k.session k t

    pub handle_send_failure-IsWithin :
        (seq : ℕ) (exc : Raised) (k : Kernel)
        → IsTidy r k
        → k.active_released ≡ false
        → same_seq k.active_seq seq ≡ true
        → IsWithin p q below r now
            (settled p q below r now k + share_active p r false k.active_request)
            (handle_send_failure now kick seq exc k)
    unfolding handle_send_failure mark_send_failed
    handle_send_failure-IsWithin seq exc k t h same =
        rw same (cases exc.is_session_io_error k.active_request)
      where
        gone : Kernel
        gone = disconnect_session_on_io_error exc (mark_send_failed seq exc k)

        completed :
            (n : ℕ)
            → IsWithin p q below r now (settled p q below r now k + n) (complete_active kick gone)
        completed n =
            let (t', _, same', released) =
              disconnect_lem exc (mark_send_failed seq exc k)
                (record { limit = t.limit; held = t.held }) in
            let w = complete_active-IsWithin p q below r now kick shrinks gone t' (released ∙ h) in
            record { tidy = w.tidy; bound = le_trans w.bound (omega (arith, same')) }

        cases :
            (io : Bool) (o : Option QueuedRequest)
            → IsWithin p q below r now (settled p q below r now k + share_active p r false o) (
                if io then complete_active kick gone else elim o [
                  | none ↦ complete_active kick gone
                  | some item ↦ handle_transport_failure now kick item exc false k
                ])
        cases true o = completed _
        cases false none = completed _
        cases false (some item) = handle_transport_failure-IsWithin item exc false k t h

    pub handle_send_failure-IsWithin_other :
        (seq : ℕ) (exc : Raised) (k : Kernel)
        → IsTidy r k
        → same_seq k.active_seq seq ≡ false
        → IsWithin p q below r now
            (total p q below r now k)
            (handle_send_failure now kick seq exc k)
    unfolding handle_send_failure mark_send_failed
    handle_send_failure-IsWithin_other seq exc k t other =
        let (t', same, _, _) =
          disconnect_lem exc (mark_send_failed seq exc k)
            (record { limit = t.limit; held = t.held }) in
        rw other (record { tidy = t'; bound = omega (arith, same) })
