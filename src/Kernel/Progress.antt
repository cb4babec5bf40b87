-- ===== src/Kernel/Progress.antt =====
-- `_try_send_next` of src/elke27_lib/kernel_loop.py leaves no request behind that it could send.
pub mod Failures
pub mod Sending
use elke.Base.{
  ℕ, zero, suc, ◌+◌, ◌≤◌, ◌<◌, ◌≡◌, refl, ap, ◌∙◌, Bool, true, false, not, ◌&&◌, Option, none, some,
  List, [], ◌∷◌, if◌then◌else◌, ◌==◌, ==_refl, Bool-cases, inl, inr, arith,
}
use elke.Base.Dict.{nat_key, insert, erase}
use elke.Outbound.{OutboundPriority, high, normal}
use elke.Kernel.{
  QueuedRequest, Kernel, is_disarm, is_past_deadline, transport_retry_allowed, transport_backoff,
  is_active,
}
use elke.Kernel.Scheduler.{
  Raised, deadline_expired, put_request, put_first, fail_queued_command, mark_send_failed,
  drop_request, cancel_transport_retry_timer, disconnect_session_on_io_error, is_idle, same_seq,
  prepare, activate, hand_over, next_request,
}
use elke.Kernel.Scheduler.Failures.{
  complete_active, enqueue_request, schedule_transport_requeue, handle_transport_failure,
  handle_send_failure,
}
use elke.Kernel.Scheduler.Fuel.{
  share, share_active, shares, shares_waiting, future_sends, kick_scheduler,
}
use elke.Kernel.Scheduler.Sending.{
  send_or_fail, send_request, send_next, try_send_next_by, try_send_next_within,
}
use elke.Kernel.Chances.{
  IsTidy, share-retry, shares-append, shares_waiting-erase, queued_sends-put_first,
}
use elke.Kernel.Chances.Within.{
  IsWithin, settled, total, complete_active-IsWithin, fail_queued_command-IsWithin,
}
use elke.Kernel.Chances.Failures.{disconnect_lem}
use elke.Kernel.Sending.{Prepared, prepare_lem, share_active-le, prepared_settled, prepared_share}
use elke.Kernel.Sending.Kick.{try_send_next_within-IsWithin}
use elke.Kernel.Termination.{every, never, never-le}
use elke.Kernel.Termination.Within.{sends_made-never}

abbrev pub is_empty : List QueuedRequest → Bool
is_empty [] = true
is_empty (_ ∷ _) = false

-- The scheduler is idle, the session is active, and yet a request is queued.
abbrev pub is_stuck : Kernel → Bool
is_stuck k =
    is_idle k.request_state
    && (is_active k.session
        && not (is_empty k.request_queue_high && is_empty k.request_queue_normal))

-- A kick that leaves no state stuck that has less to send.
module _ (r now w : ℕ) (kick : Kernel → Kernel)
    (shrinks : (k : Kernel)
      → IsTidy r k
      → IsWithin every never never-le r now (total every never never-le r now k) (kick k))
    (rests : (k : Kernel)
      → IsTidy r k
      → total every never never-le r now k < w
      → is_stuck (kick k) ≡ false) where
  abbrev pub settle_sum : Kernel → ℕ
  settle_sum = settled every never never-le r now

  abbrev pub sum : Kernel → ℕ
  sum = total every never never-le r now

  pub complete_active_rests :
      (k : Kernel)
      → IsTidy r k
      → k.active_released ≡ false
      → settle_sum k < w
      → is_stuck (complete_active kick k) ≡ false
  unfolding complete_active
  complete_active_rests k t h less =
      rw h (rests _ (record { limit = t.limit; held = refl }) (omega arith))

  pub enqueue_request_rests :
      (item : QueuedRequest) (k : Kernel)
      → IsTidy r k
      → sum k + share every r item < w
      → is_stuck (enqueue_request kick item k) ≡ false
  unfolding enqueue_request
  enqueue_request_rests item k t h = put item.priority
    where
      put : (priority : OutboundPriority) → is_stuck (kick (put_request priority item k)) ≡ false
      put high =
          let more = shares-append every r k.request_queue_high item in
          rests (put_request high item k) (record { limit = t.limit; held = t.held }) (omega arith)
      put normal =
          let more = shares-append every r k.request_queue_normal item in
          rests (put_request normal item k) (record { limit = t.limit; held = t.held })
            (omega arith)

  schedule_transport_requeue_rests :
      (item : QueuedRequest) (k : Kernel)
      → IsTidy r k
      → is_stuck k ≡ false
      → sum k + share every r item < w
      → is_stuck (schedule_transport_requeue now kick item k) ≡ false
  unfolding schedule_transport_requeue put_first cancel_transport_retry_timer fail_queued_command
  schedule_transport_requeue_rests item k t rested h =
      cases (is_past_deadline now item) (is_disarm item)
        (transport_backoff item.attempt k.request_max_backoff == 0)
    where
      cleared : Kernel
      cleared = record k { transport_retry = erase item.seq k.transport_retry }

      fewer :
          shares_waiting every r (erase item.seq k.transport_retry)
          ≤ shares_waiting every r k.transport_retry
      fewer = shares_waiting-erase every r item.seq k.transport_retry

      cases :
          (past disarm at_once : Bool)
          → is_stuck (
              if past
              then fail_queued_command deadline_expired item k
              else if disarm
              then kick (put_first item cleared)
              else if at_once
              then enqueue_request kick item cleared
              else record cleared {
                transport_retry = insert item.seq item cleared.transport_retry;
              })
            ≡ false
      cases true disarm at_once = rested
      cases false true at_once =
          rests (put_first item cleared) (record { limit = t.limit; held = t.held })
            (omega (arith, fewer, queued_sends-put_first every r item cleared))
      cases false false true =
          enqueue_request_rests item cleared (record { limit = t.limit; held = t.held })
            (omega (arith, fewer))
      cases false false false = rested

  pub handle_transport_failure_rests :
      (item : QueuedRequest) (exc : Raised) (sent : Bool) (k : Kernel)
      → IsTidy r k
      → k.active_released ≡ false
      → settle_sum k + share_active every r sent (some item) < w
      → is_stuck (handle_transport_failure now kick item exc sent k) ≡ false
  unfolding handle_transport_failure mark_send_failed drop_request cancel_transport_retry_timer
      put_first
  handle_transport_failure_rests item exc sent k t h less =
      elim (Bool-cases (transport_retry_allowed now sent item k)) [
        | inl allowed ↦ rw allowed (retry (is_disarm retry_item) allowed)
        | inr refused ↦ rw refused (
            complete_active_rests (mark_send_failed item.seq exc k)
              (record { limit = t.limit; held = t.held }) h (omega arith))
      ]
    where
      retry_item : QueuedRequest
      retry_item = record item { attempt = suc item.attempt }

      dropped : Kernel
      dropped = drop_request item.seq k

      urgent : Kernel
      urgent = put_first retry_item (cancel_transport_retry_timer item.seq dropped)

      fewer :
          shares_waiting every r (erase item.seq k.transport_retry)
          ≤ shares_waiting every r k.transport_retry
      fewer = shares_waiting-erase every r item.seq k.transport_retry

      retry :
          (disarm : Bool)
          → transport_retry_allowed now sent item k ≡ true
          → is_stuck (
              if disarm
              then complete_active kick urgent
              else schedule_transport_requeue now kick retry_item (complete_active kick dropped))
            ≡ false
      retry true allowed =
          let used = share-retry every r now sent item k t.limit allowed in
          let put =
            queued_sends-put_first every r retry_item
              (cancel_transport_retry_timer item.seq dropped) in
          complete_active_rests urgent (record { limit = t.limit; held = t.held }) h
            (omega (arith, used, put, fewer))
      retry false allowed =
          let used = share-retry every r now sent item k t.limit allowed in
          let tidy : IsTidy r dropped = record { limit = t.limit; held = t.held } in
          let v = complete_active-IsWithin every never never-le r now kick shrinks dropped tidy h in
          schedule_transport_requeue_rests retry_item (complete_active kick dropped) v.tidy
            (complete_active_rests dropped tidy h (omega arith)) (omega (arith, used, v.bound))
