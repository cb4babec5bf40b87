-- ===== src/Kernel/Scheduler/Failures.antt =====
-- src/elke27_lib/kernel_loop.py: the end of the active request, retries and failed sends.
use elke.Base.{ℕ, suc, Bool, true, false, not, none, some, ◌==◌, if◌then◌else◌}
use elke.Base.Dict.{pair_key, nat_key, insert}
use elke.Kernel.{
  idle, QueuedRequest, Kernel, is_disarm, is_past_deadline, transport_retry_allowed,
  transport_backoff,
}
use elke.Kernel.Scheduler.{
  Raised, cancel_transport_retry_timer, deadline_expired, disconnect_session_on_io_error,
  drop_request, fail_queued_command, mark_send_failed, put_first, put_request, same_seq,
}

-- With the kick as an argument.
module _ (kick : Kernel → Kernel) where
  unfoldable pub complete_active : Kernel → Kernel
  complete_active k =
      if k.active_released
      then k
      else kick (record k {
        active_released = true;
        active_timeout = none;
        active_seq = none;
        active_sent_at = none;
        active_request = none;
        request_state = idle;
      })

  unfoldable pub enqueue_request : QueuedRequest → Kernel → Kernel
  enqueue_request item k = kick (put_request item.priority item k)

-- `now` is the time of the call.
module _ (now : ℕ) (kick : Kernel → Kernel) where
  unfoldable pub schedule_transport_requeue : QueuedRequest → Kernel → Kernel
  schedule_transport_requeue item k =
      let k' = cancel_transport_retry_timer item.seq k in
      if is_past_deadline now item
      then fail_queued_command deadline_expired item k
      else if is_disarm item
      then kick (put_first item k')
      else if transport_backoff item.attempt k.request_max_backoff == 0
      then enqueue_request kick item k'
      else record k' { transport_retry = insert item.seq item k'.transport_retry }

  unfoldable pub handle_transport_failure : QueuedRequest → Raised → Bool → Kernel → Kernel
  handle_transport_failure item exc sent k =
      let retry_item = record item { attempt = suc item.attempt } in
      let k' = drop_request item.seq k in
      if not (transport_retry_allowed now sent item k)
      then complete_active kick (mark_send_failed item.seq exc k)
      else if is_disarm retry_item
      then complete_active kick (put_first retry_item (cancel_transport_retry_timer item.seq k'))
      else schedule_transport_requeue retry_item (complete_active kick k')

  unfoldable pub handle_send_failure : ℕ → Raised → Kernel → Kernel
  handle_send_failure seq exc k =
      let gone = disconnect_session_on_io_error exc (mark_send_failed seq exc k) in
      if not (same_seq k.active_seq seq)
      then gone
      else if exc.is_session_io_error
      then complete_active kick gone
      else elim k.active_request [
        | none ↦ complete_active kick gone
        | some item ↦ handle_transport_failure item exc false k
      ]
