-- ===== src/Kernel/Calls/Active.antt =====
-- The calls of src/elke27_lib/kernel_loop.py that may start a send: requests, timeouts,
-- cancellation and messages.
use text.Mathlib.Text.{◌==◌ as str_eq}
use elke.Base.{
  ℕ, ◌+◌, Bool, true, false, not, ◌&&◌, ◌||◌, Option, none, some, [], ◌∷◌, ◌++◌, if◌then◌else◌,
}
use elke.Base.Dict.{pair_key, nat_key, lookup}
use elke.Base.Result.{Result, ok, err}
use elke.Outbound.{high}
use elke.Dispatch.Json.{Json, Members, get, as_int}
use elke.Dispatch.State.{Dispatcher, add_pending}
use elke.Pending.{fail, resolve}
use elke.Kernel.{
  QueuedRequest, sends, cancels, Kernel, is_disarm, is_past_deadline, transport_wait_budget,
  is_active,
}
use elke.Kernel.RawSeqs.{add, discard}
use elke.Kernel.Scheduler.{
  Raised, deadline_expired, signal_sent_event, drop_request, cancel_transport_retry_timer,
  fail_queued_command, build_request_message, is_idle, is_sent, same_seq,
}
use elke.Kernel.Scheduler.Failures.{
  complete_active, enqueue_request, handle_transport_failure, handle_send_failure,
}
use elke.Kernel.Scheduler.Fuel.{kick_scheduler}
use elke.Kernel.Calls.{
  KernelError, clear_pending_transport_retry, fail_or_drop, has_session, is_probe_route, is_raw_seq,
  is_silent, no_active_session, positive, request_link_check, route_of, send_failed,
  session_not_active, with_auth_seq,
}

-- `now` is the time of the call, `raises` what `send_json` raises.
module _ (now : ℕ) (raises : QueuedRequest → Option Raised) where
  abbrev pub kick : Kernel → Kernel
  kick = kick_scheduler now raises

  abbrev pub timed_out : Raised
  timed_out = record { is_session_io_error = false; text = "Response timed out" }

  abbrev pub after_timeout : Option QueuedRequest → ℕ → Kernel → Kernel
  after_timeout (some item) seq k =
      handle_transport_failure now kick item timed_out (is_sent k.active_sent_at) k
  after_timeout none seq k =
      complete_active kick
        (record k { pending_responses = (fail true true seq timed_out.text k.pending_responses).0 })

  -- A link check follows where nothing came back since the request was sent.
  unfoldable pub on_reply_timeout : ℕ → Kernel → Kernel
  on_reply_timeout seq k =
      let k' = after_timeout k.active_request seq k in
      if is_idle k.request_state
      then k
      else if k.active_released || not (same_seq k.active_seq seq)
      then k
      else if is_silent k.active_sent_at k.last_rx_at
          && not (is_probe_route (route_of k.active_request))
      then request_link_check k'
      else k'

  -- `_release`, the callback of a retry's timer
  abbrev pub release_item : Option QueuedRequest → Kernel → Kernel
  release_item none k = k
  release_item (some item) k =
      if is_past_deadline now item
      then fail_queued_command deadline_expired item k
      else enqueue_request kick item k

  unfoldable pub release : ℕ → Kernel → Kernel
  release seq k = release_item (lookup seq k.transport_retry) (cancel_transport_retry_timer seq k)

  unfoldable pub cancel_command_transport : ℕ → Raised → Kernel → Kernel
  cancel_command_transport seq exc k =
      let cleared = clear_pending_transport_retry seq k in
      let dropped = drop_request seq (record cleared {
        session_calls =
            if has_session k.session
            then k.session_calls ++ (cancels seq ∷ [])
            else k.session_calls;
      }) in
      let failed =
        signal_sent_event seq
          (record dropped { pending_responses = fail_or_drop seq exc dropped.pending_responses }) in
      if not (is_idle k.request_state) && same_seq k.active_seq seq && not k.active_released
      then complete_active kick failed
      else failed

  -- `_send_request_with_seq` of a request that waits for its reply: it is queued. Its timeout is the
  -- caller's, or the default where the caller names none.
  unfoldable pub queued_request : QueuedRequest → Kernel → QueuedRequest
  queued_request item k = record item {
    priority = if is_disarm item then high else item.priority;
    attempt = 0;
    deadline_at =
        if str_eq item.domain "system" && str_eq item.name "r_u_alive"
        then now + item.timeout
        else now + transport_wait_budget item.timeout k.request_max_retries k.request_max_backoff;
  }

  -- One that does not: it is sent at once, and at most noted for the dispatcher.
  abbrev pub send_unanswered :
      Option Raised → QueuedRequest → Kernel → Kernel × Result KernelError ℕ
  send_unanswered none item k = (
    record k {
      session_calls =
          k.session_calls
          ++ (sends item.seq
                (build_request_message k.session_id item.seq item.domain item.name item.payload)
                item.priority
              ∷ []);
    },
    ok item.seq,
  )
  send_unanswered (some exc) item k =
      let dropped : Kernel = record (drop_request item.seq k) {
        fire_and_forget_pending_seqs = discard item.seq k.fire_and_forget_pending_seqs;
      } in
      (
        handle_send_failure now kick item.seq exc (if item.pending then dropped else k),
        err send_failed,
      )

  unfoldable pub note_unanswered : QueuedRequest → Kernel → Kernel
  note_unanswered item k = record k {
    fire_and_forget_pending_seqs = add item.seq k.fire_and_forget_pending_seqs;
    dispatcher =
        add_pending k.dispatcher
          (record { seq = item.seq; expected_route = item.expected_route; opaque = item.opaque });
  }

  unfoldable pub send_request_with_seq :
      QueuedRequest → Bool → Kernel → Kernel × Result KernelError ℕ
  send_request_with_seq item expects_reply k =
      if not (has_session k.session)
      then (k, err no_active_session)
      else if not (is_active k.session)
      then (k, err session_not_active)
      else if expects_reply
      then (enqueue_request kick (queued_request item k) k, ok item.seq)
      else send_unanswered (raises item) item (if item.pending then note_unanswered item k else k)

  -- The end of `_on_message`: the reply to the active request completes it.
  unfoldable pub complete_reply : Json → Kernel → Kernel
  complete_reply seq k = elim (positive seq) [
    | none ↦ k
    | some n ↦
        if not (is_idle k.request_state) && same_seq k.active_seq n
        then complete_active kick (record k { active_timeout = none })
        else k
  ]

  -- `_complete_raw_reply`
  unfoldable pub complete_raw_reply : Json → Kernel → Kernel
  complete_raw_reply seq k = elim (positive seq) [
    | none ↦ k
    | some n ↦ complete_reply seq (drop_request n k)
  ]

  -- The reply's future is resolved, and its retries are dropped.
  unfoldable pub resolve_reply : Json → Members → Kernel → Kernel
  resolve_reply seq msg k = elim (positive seq) [
    | none ↦ k
    | some n ↦
        clear_pending_transport_retry n
          (record k { pending_responses = (resolve true true n msg k.pending_responses).0 })
  ]

  unfoldable pub note_received : Members → Kernel → Kernel
  note_received msg k = record k {
    session_id = elim (as_int (get "session_id" msg)) [ none ↦ k.session_id | some sid ↦ some sid ];
    last_rx_at = now;
    last_exchange_at = now;
  }

  -- `_on_message`; `dispatch` gives what the dispatcher becomes. A `seq` without a hash ends it with
  -- an exception that the event loop logs.
  unfoldable pub on_message : (Dispatcher → Members → Dispatcher) → Members → Kernel → Kernel
  on_message dispatch msg k =
      let (seq, msg') = with_auth_seq msg in
      let k' = note_received msg' (resolve_reply seq msg' k) in
      let dispatched : Kernel = record k' { dispatcher = dispatch k'.dispatcher msg' } in
      elim (is_raw_seq seq k'.raw_passthrough_seqs) [
        | none ↦ k'
        | some true ↦ complete_raw_reply (get "seq" msg') k'
        | some false ↦ complete_reply (get "seq" msg') dispatched
      ]
