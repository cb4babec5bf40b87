-- ===== src/Kernel/Termination.antt =====
-- The calls that `_try_send_next` of src/elke27_lib/kernel_loop.py makes of itself come to an end.
pub mod Failures
pub mod Sending
pub mod Within
use elke.Base.{
  ℕ, zero, suc, ◌+◌, ◌≤◌, ◌<◌, ◌≡◌, refl, sym, ap, ◌∙◌, Bool, true, false, not, ◌&&◌, Option, none,
  some, List, [], ◌∷◌, if◌then◌else◌, ◌==◌, Bool-cases, inl, inr, arith,
}
use elke.Base.Dict.{nat_key, insert, erase}
use elke.Outbound.{OutboundPriority, high, normal}
use elke.Kernel.{
  idle, QueuedRequest, SessionCall, sends, cancels, Kernel, is_disarm, is_past_deadline,
  transport_retry_allowed, transport_backoff, is_active,
}
use elke.Kernel.Scheduler.{
  Raised, deadline_expired, put_request, put_first, fail_queued_command, mark_send_failed,
  drop_request, cancel_transport_retry_timer, disconnect_session_on_io_error, is_idle, same_seq,
  prepare, activate, next_request,
}
use elke.Kernel.Scheduler.Failures.{
  complete_active, enqueue_request, schedule_transport_requeue, handle_transport_failure,
  handle_send_failure,
}
use elke.Kernel.Scheduler.Fuel.{
  share, share_active, shares, shares_waiting, future_sends, kick_scheduler,
}
use elke.Kernel.Scheduler.Sending.{
  send_or_fail, send_request, send_next, try_send_next_by, try_send_next_within,
}
use elke.Kernel.Chances.{
  one_if, is_some, sends_made, IsTidy, share-retry, shares-append, shares_waiting-erase,
  queued_sends-put_first,
}
use elke.Kernel.Chances.Within.{
  IsWithin, settled, total, complete_active-IsWithin, fail_queued_command-IsWithin,
}
use elke.Kernel.Chances.Failures.{disconnect_lem}
use elke.Kernel.Sending.{Prepared, prepare_lem, share_active-le, prepared_settled, prepared_share}
use elke.Kernel.Sending.Kick.{try_send_next_within-IsWithin}

-- Every sequence number counts, and no send that has been made.
abbrev pub every : ℕ → Bool
every seq = true

abbrev pub never : ℕ → Bool
never seq = false

pub never-le : (seq : ℕ) → one_if (never seq) ≤ one_if (every seq)
never-le seq = omega arith

-- Two kicks that agree on the states with less to send.
module _ (r now w : ℕ) (kick kick' : Kernel → Kernel)
    (shrinks : (k : Kernel)
      → IsTidy r k
      → IsWithin every never never-le r now (total every never never-le r now k) (kick k))
    (agree : (k : Kernel)
      → IsTidy r k
      → total every never never-le r now k < w
      → kick k ≡ kick' k) where
  abbrev pub settle_sum : Kernel → ℕ
  settle_sum = settled every never never-le r now

  abbrev pub sum : Kernel → ℕ
  sum = total every never never-le r now

  pub complete_active_agree :
      (k : Kernel)
      → IsTidy r k
      → settle_sum k < w
      → complete_active kick k ≡ complete_active kick' k
  unfolding complete_active
  complete_active_agree k t h = cases k.active_released
    where
      freed : Kernel
      freed = record k {
        active_released = true;
        active_timeout = none;
        active_seq = none;
        active_sent_at = none;
        active_request = none;
        request_state = idle;
      }

      cases : (b : Bool) → (if b then k else kick freed) ≡ (if b then k else kick' freed)
      cases true = refl
      cases false = agree freed (record { limit = t.limit; held = refl }) (omega arith)

  enqueue_request_agree :
      (item : QueuedRequest) (k : Kernel)
      → IsTidy r k
      → sum k + share every r item < w
      → enqueue_request kick item k ≡ enqueue_request kick' item k
  unfolding enqueue_request
  enqueue_request_agree item k t h = put item.priority
    where
      put :
          (priority : OutboundPriority)
          → kick (put_request priority item k) ≡ kick' (put_request priority item k)
      put high =
          let more = shares-append every r k.request_queue_high item in
          agree (put_request high item k) (record { limit = t.limit; held = t.held }) (omega arith)
      put normal =
          let more = shares-append every r k.request_queue_normal item in
          agree (put_request normal item k) (record { limit = t.limit; held = t.held })
            (omega arith)

  pub schedule_transport_requeue_agree :
      (item : QueuedRequest) (k : Kernel)
      → IsTidy r k
      → sum k + share every r item < w
      → schedule_transport_requeue now kick item k ≡ schedule_transport_requeue now kick' item k
  unfolding schedule_transport_requeue put_first cancel_transport_retry_timer
  schedule_transport_requeue_agree item k t h =
      cases (is_past_deadline now item) (is_disarm item)
        (transport_backoff item.attempt k.request_max_backoff == 0)
    where
      cleared : Kernel
      cleared = record k { transport_retry = erase item.seq k.transport_retry }

      fewer :
          shares_waiting every r (erase item.seq k.transport_retry)
          ≤ shares_waiting every r k.transport_retry
      fewer = shares_waiting-erase every r item.seq k.transport_retry

      tidy : IsTidy r cleared
      tidy = record { limit = t.limit; held = t.held }

      first : kick (put_first item cleared) ≡ kick' (put_first item cleared)
      first =
          agree (put_first item cleared) (record { limit = t.limit; held = t.held })
            (omega (arith, fewer, queued_sends-put_first every r item cleared))

      last : enqueue_request kick item cleared ≡ enqueue_request kick' item cleared
      last = enqueue_request_agree item cleared tidy (omega (arith, fewer))

      cases :
          (past disarm at_once : Bool)
          → (if past
              then fail_queued_command deadline_expired item k
              else if disarm
              then kick (put_first item cleared)
              else if at_once
              then enqueue_request kick item cleared
              else record cleared {
                transport_retry = insert item.seq item cleared.transport_retry;
              })
            ≡ (if past
                then fail_queued_command deadline_expired item k
                else if disarm
                then kick' (put_first item cleared)
                else if at_once
                then enqueue_request kick' item cleared
                else record cleared {
                  transport_retry = insert item.seq item cleared.transport_retry;
                })
      cases true disarm at_once = refl
      cases false true at_once = first
      cases false false true = last
      cases false false false = refl
