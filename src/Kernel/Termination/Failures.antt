-- ===== src/Kernel/Termination/Failures.antt =====
-- A failed send of src/elke27_lib/kernel_loop.py calls the kick with less to send than before.
use elke.Base.{
  ℕ, suc, ◌+◌, ◌≤◌, ◌<◌, ◌≡◌, refl, ap, ◌∙◌, Bool, true, false, not, Option, none, some,
  if◌then◌else◌, Bool-cases, inl, inr, arith,
}
use elke.Base.Dict.{nat_key, erase}
use elke.Kernel.{QueuedRequest, Kernel, is_disarm, transport_retry_allowed}
use elke.Kernel.Scheduler.{
  Raised, put_first, mark_send_failed, drop_request, cancel_transport_retry_timer,
  disconnect_session_on_io_error, same_seq,
}
use elke.Kernel.Scheduler.Failures.{
  complete_active, schedule_transport_requeue, handle_transport_failure, handle_send_failure,
}
use elke.Kernel.Scheduler.Fuel.{share_active, shares_waiting}
use elke.Kernel.Chances.{IsTidy, share-retry, shares_waiting-erase, queued_sends-put_first}
use elke.Kernel.Chances.Within.{IsWithin, total, complete_active-IsWithin}
use elke.Kernel.Chances.Failures.{disconnect_lem}
use elke.Kernel.Termination.{
  complete_active_agree, every, never, never-le, schedule_transport_requeue_agree, settle_sum,
}

module _ (r now w : ℕ) (kick kick' : Kernel → Kernel)
    (shrinks : (k : Kernel)
      → IsTidy r k
      → IsWithin every never never-le r now (total every never never-le r now k) (kick k))
    (agree : (k : Kernel)
      → IsTidy r k
      → total every never never-le r now k < w
      → kick k ≡ kick' k) where
  handle_transport_failure_agree :
      (item : QueuedRequest) (exc : Raised) (sent : Bool) (k : Kernel)
      → IsTidy r k
      → k.active_released ≡ false
      → settle_sum r now w kick kick' shrinks agree k + share_active every r sent (some item) < w
      → handle_transport_failure now kick item exc sent k
        ≡ handle_transport_failure now kick' item exc sent k
  unfolding handle_transport_failure mark_send_failed drop_request cancel_transport_retry_timer
      put_first
  handle_transport_failure_agree item exc sent k t h less =
      elim (Bool-cases (transport_retry_allowed now sent item k)) [
        | inl allowed ↦ rw allowed (retry (is_disarm retry_item) allowed)
        | inr refused ↦ rw refused (
            complete_active_agree r now w kick kick' shrinks agree (mark_send_failed item.seq exc k)
              (record { limit = t.limit; held = t.held }) (omega arith))
      ]
    where
      retry_item : QueuedRequest
      retry_item = record item { attempt = suc item.attempt }

      dropped : Kernel
      dropped = drop_request item.seq k

      urgent : Kernel
      urgent = put_first retry_item (cancel_transport_retry_timer item.seq dropped)

      fewer :
          shares_waiting every r (erase item.seq k.transport_retry)
          ≤ shares_waiting every r k.transport_retry
      fewer = shares_waiting-erase every r item.seq k.transport_retry

      retry :
          (disarm : Bool)
          → transport_retry_allowed now sent item k ≡ true
          → (if disarm
              then complete_active kick urgent
              else schedule_transport_requeue now kick retry_item (complete_active kick dropped))
            ≡ (if disarm
                then complete_active kick' urgent
                else schedule_transport_requeue now kick' retry_item
                    (complete_active kick' dropped))
      retry true allowed =
          let used = share-retry every r now sent item k t.limit allowed in
          let put =
            queued_sends-put_first every r retry_item
              (cancel_transport_retry_timer item.seq dropped) in
          complete_active_agree r now w kick kick' shrinks agree urgent
            (record { limit = t.limit; held = t.held }) (omega (arith, used, put, fewer))
      retry false allowed =
          let used = share-retry every r now sent item k t.limit allowed in
          let tidy : IsTidy r dropped = record { limit = t.limit; held = t.held } in
          let v = complete_active-IsWithin every never never-le r now kick shrinks dropped tidy h in
          schedule_transport_requeue_agree r now w kick kick' shrinks agree retry_item
            (complete_active kick dropped) v.tidy (omega (arith, used, v.bound))
          ∙ ap (schedule_transport_requeue now kick' retry_item)
              (complete_active_agree r now w kick kick' shrinks agree dropped tidy (omega arith))

  pub handle_send_failure_agree :
      (seq : ℕ) (exc : Raised) (k : Kernel)
      → IsTidy r k
      → k.active_released ≡ false
      → settle_sum r now w kick kick' shrinks agree k + share_active every r false k.active_request
        < w
      → handle_send_failure now kick seq exc k ≡ handle_send_failure now kick' seq exc k
  unfolding handle_send_failure mark_send_failed
  handle_send_failure_agree seq exc k t h less =
      cases (same_seq k.active_seq seq) exc.is_session_io_error k.active_request less
    where
      gone : Kernel
      gone = disconnect_session_on_io_error exc (mark_send_failed seq exc k)

      completed :
          settle_sum r now w kick kick' shrinks agree k < w
          → complete_active kick gone ≡ complete_active kick' gone
      completed less =
          let (t', _, same, _) =
            disconnect_lem every never never-le r now kick shrinks exc (mark_send_failed seq exc k)
              (record { limit = t.limit; held = t.held }) in
          complete_active_agree r now w kick kick' shrinks agree gone t' (omega (arith, same))

      cases :
          (ours io : Bool) (o : Option QueuedRequest)
          → settle_sum r now w kick kick' shrinks agree k + share_active every r false o < w
          → (if not ours then gone else if io then complete_active kick gone else elim o [
            | none ↦ complete_active kick gone
            | some item ↦ handle_transport_failure now kick item exc false k
          ])
            ≡ (if not ours then gone else if io then complete_active kick' gone else elim o [
              | none ↦ complete_active kick' gone
              | some item ↦ handle_transport_failure now kick' item exc false k
            ])
      cases false io o less = refl
      cases true true o less = completed (omega arith)
      cases true false none less = completed (omega arith)
      cases true false (some item) less = handle_transport_failure_agree item exc false k t h less
