-- ===== src/Kernel/Delivery.antt =====
-- What the scheduler of src/elke27_lib/kernel_loop.py does to the replies that are awaited: it fails
-- some, and nothing else.
pub mod Sending
pub mod Replies
use elke.Kernel.Scheduler.Fuel.{kick_scheduler, future_sends}
use elke.Kernel.Scheduler.Sending.{
  send_request, send_next, send_or_fail, try_send_next_by, try_send_next_within,
}
use elke.Kernel.Scheduler.{
  same_seq, put_request, put_first, cancel_transport_retry_timer, fail_queued_command,
  mark_send_failed, signal_sent_event, deadline_expired, Raised, drop_request,
  disconnect_session_on_io_error, disconnect_session, prepare, started_transfer, register_pending,
  with_transfer, activate, hand_over, next_request, is_idle,
}
use elke.Kernel.Scheduler.Failures.{
  complete_active, enqueue_request, schedule_transport_requeue, handle_transport_failure,
  handle_send_failure,
}
use elke.Base.{
  ℕ, zero, suc, ◌≡◌, Bool, true, false, not, Option, none, some, List, [], ◌∷◌, String,
  if◌then◌else◌, ◌==◌, Bool-cases, inl, inr,
}
use elke.Base.Dict.{nat_key, erase, insert}
use elke.Outbound.{OutboundPriority, high, normal}
use elke.Dispatch.State.{PagedTransferKey}
use elke.Pending.{PendingResponseManager, fail}
use elke.Session.State.{Session}
use elke.Kernel.{
  QueuedRequest, Kernel, is_disarm, is_past_deadline, is_active, transport_backoff,
  transport_retry_allowed,
}

module _ (P : PendingResponseManager → Type 0)
    (keeps : (seq : ℕ) (exc : String) (m : PendingResponseManager)
      → P m
      → P (fail true true seq exc m).0) where
  abbrev pub Holding : Kernel → Type 0
  Holding k = P k.pending_responses

  module _ (now : ℕ) (kick : Kernel → Kernel)
      (kicks : (k : Kernel) → Holding k → Holding (kick k)) where
    pub complete_active_keeps : (k : Kernel) → Holding k → Holding (complete_active kick k)
    unfolding complete_active
    complete_active_keeps k h = elim (Bool-cases k.active_released) [
      | inl released ↦ rw released h
      | inr held ↦ rw held (kicks _ h)
    ]

    enqueue_request_keeps :
        (item : QueuedRequest) (k : Kernel) → Holding k → Holding (enqueue_request kick item k)
    unfolding enqueue_request
    enqueue_request_keeps item k h = put item.priority
      where
        put : (priority : OutboundPriority) → Holding (kick (put_request priority item k))
        put high = kicks _ h
        put normal = kicks _ h

    schedule_transport_requeue_keeps :
        (item : QueuedRequest) (k : Kernel)
        → Holding k
        → Holding (schedule_transport_requeue now kick item k)
    unfolding schedule_transport_requeue put_first cancel_transport_retry_timer fail_queued_command
        mark_send_failed signal_sent_event
    schedule_transport_requeue_keeps item k h =
        cases (is_past_deadline now item) (is_disarm item)
          (transport_backoff item.attempt k.request_max_backoff == 0)
      where
        cleared : Kernel
        cleared = record k { transport_retry = erase item.seq k.transport_retry }

        cases :
            (past disarm due : Bool)
            → Holding (
                if past
                then fail_queued_command deadline_expired item k
                else if disarm
                then kick (put_first item cleared)
                else if due
                then enqueue_request kick item cleared
                else record cleared {
                  transport_retry = insert item.seq item cleared.transport_retry;
                })
        cases true disarm due = keeps item.seq deadline_expired.text k.pending_responses h
        cases false true due = kicks _ h
        cases false false true = enqueue_request_keeps item cleared h
        cases false false false = h

    handle_transport_failure_keeps :
        (item : QueuedRequest) (exc : Raised) (sent : Bool) (k : Kernel)
        → Holding k
        → Holding (handle_transport_failure now kick item exc sent k)
    unfolding handle_transport_failure put_first drop_request mark_send_failed signal_sent_event
        cancel_transport_retry_timer
    handle_transport_failure_keeps item exc sent k h =
        cases (transport_retry_allowed now sent item k) (is_disarm retry_item)
      where
        retry_item : QueuedRequest
        retry_item = record item { attempt = suc item.attempt }

        cases :
            (allowed disarm : Bool)
            → Holding (
                if not allowed
                then complete_active kick (mark_send_failed item.seq exc k)
                else if disarm
                then complete_active kick (
                    put_first retry_item
                      (cancel_transport_retry_timer item.seq (drop_request item.seq k)))
                else schedule_transport_requeue now kick retry_item
                    (complete_active kick (drop_request item.seq k)))
        cases false disarm =
            complete_active_keeps (mark_send_failed item.seq exc k)
              (keeps item.seq exc.text k.pending_responses h)
        cases true true = complete_active_keeps _ h
        cases true false =
            schedule_transport_requeue_keeps retry_item
              (complete_active kick (drop_request item.seq k))
              (complete_active_keeps (drop_request item.seq k) h)

    disconnect_keeps :
        (exc : Raised) (k : Kernel) → Holding k → Holding (disconnect_session_on_io_error exc k)
    unfolding disconnect_session_on_io_error
    disconnect_keeps exc k h = cases exc.is_session_io_error (is_active k.session) k.session
      where
        cases :
            (io up : Bool) (o : Option Session)
            → Holding (if not io then k else if not up then k else disconnect_session o k)
        cases false up o = h
        cases true false o = h
        cases true true none = h
        cases true true (some s) = h

    pub handle_send_failure_keeps :
        (seq : ℕ) (exc : Raised) (k : Kernel)
        → Holding k
        → Holding (handle_send_failure now kick seq exc k)
    unfolding handle_send_failure mark_send_failed signal_sent_event
    handle_send_failure_keeps seq exc k h =
        cases (same_seq k.active_seq seq) exc.is_session_io_error k.active_request
      where
        gone : Kernel
        gone = disconnect_session_on_io_error exc (mark_send_failed seq exc k)

        left : Holding gone
        left =
            disconnect_keeps exc (mark_send_failed seq exc k)
              (keeps seq exc.text k.pending_responses h)

        cases :
            (ours io : Bool) (o : Option QueuedRequest)
            → Holding (
                if not ours then gone else if io then complete_active kick gone else elim o [
                  | none ↦ complete_active kick gone
                  | some item ↦ handle_transport_failure now kick item exc false k
                ])
        cases false io o = left
        cases true true o = complete_active_keeps gone left
        cases true false none = complete_active_keeps gone left
        cases true false (some item) = handle_transport_failure_keeps item exc false k h
