-- ===== src/Kernel/Calls.antt =====
-- src/elke27_lib/kernel_loop.py: what reaches the request scheduler of `E27Kernel` from outside: new
-- requests, the outcomes of sends, timers, messages, cancellation, disconnects and `close`.
pub mod Active
pub mod Ends
use elke.Dispatch.IntText.{whole_value}
use text.Mathlib.Text.{◌==◌ as str_eq}
use elke.Base.{
  ℕ, suc, ◌+◌, Bool, true, false, not, ◌&&◌, ◌||◌, Option, none, some, List, [], ◌∷◌, ◌++◌, String,
  ◌==◌, leb, if◌then◌else◌,
}
use elke.Base.Dict.{Dict, pair_key, nat_key, lookup, contains}
use elke.Base.Result.{Result, ok, err}
use elke.Outbound.{high}
use elke.Dispatch.Json.{
  array, float, object, array, float, object, pos, Json, Members, get, has, put, as_int, as_mapping,
}
use elke.Dispatch.Route.{RouteKey}
use elke.Dispatch.State.{Dispatcher, add_pending, abort_paged_transfers}
use elke.Pending.{PendingResponseManager, fail, fail_all, drop_response, resolve}
use elke.Session.State.{Session, SessionError, io_error}
use elke.Kernel.{
  QueuedRequest, sends, cancels, Kernel, is_disarm, is_past_deadline, transport_wait_budget,
  is_active,
}
use elke.Kernel.RawSeqs.{add, discard, RawSeqTracker, is_raw}
use elke.Kernel.Scheduler.{
  Raised, deadline_expired, signal_sent_event, drop_request, mark_send_failed,
  cancel_transport_retry_timer, fail_queued_command, build_request_message, is_idle, is_sent,
  same_seq,
}
use elke.Kernel.Scheduler.Failures.{
  complete_active, enqueue_request, handle_transport_failure, handle_send_failure,
}
use elke.Kernel.Scheduler.Fuel.{kick_scheduler}

-- Removing a number's requests from the queues.
abbrev pub without_seq : ℕ → List QueuedRequest → List QueuedRequest
without_seq seq [] = []
without_seq seq (item ∷ items) =
    let rest = without_seq seq items in if item.seq == seq then rest else item ∷ rest

unfoldable pub remove_queued_seq : ℕ → Kernel → Kernel
remove_queued_seq seq k = record k {
  request_queue_high = without_seq seq k.request_queue_high;
  request_queue_normal = without_seq seq k.request_queue_normal;
}

unfoldable pub clear_pending_transport_retry : ℕ → Kernel → Kernel
unfolding cancel_transport_retry_timer remove_queued_seq
clear_pending_transport_retry seq k = remove_queued_seq seq (cancel_transport_retry_timer seq k)

-- The sent event is set, and the send is confirmed if someone waits for it.
unfoldable pub mark_request_sent : ℕ → ℕ → Kernel → Kernel
unfolding signal_sent_event
mark_request_sent now seq k = signal_sent_event seq (record k {
  last_exchange_at = now;
  confirmed_sent_seqs =
      if contains seq k.sent_events then add seq k.confirmed_sent_seqs else k.confirmed_sent_seqs;
})

-- The timer's handle; a timeout of 0 is none.
unfoldable pub arm_reply_timeout : ℕ → ℕ → Kernel → Kernel
arm_reply_timeout seq timeout k = if timeout == 0 then k else record k { active_timeout = some seq }

unfoldable pub on_request_sent : ℕ → ℕ → ℕ → Kernel → Kernel
unfolding mark_request_sent arm_reply_timeout
on_request_sent now seq timeout k = arm_reply_timeout seq timeout (
    mark_request_sent now seq (record k {
      active_sent_at = if same_seq k.active_seq seq then some now else k.active_sent_at;
    }))

abbrev pub has_session : Option Session → Bool
has_session none = false
has_session (some _) = true

unfoldable pub request_link_check : Kernel → Kernel
request_link_check k =
    if not k.keepalive_enabled || not (has_session k.session)
    then k
    else record k { keepalive_probe_requested = true }

abbrev pub is_probe_route : Option RouteKey → Bool
is_probe_route none = false
is_probe_route (some route) = pair_key.same route ("system", "r_u_alive")

abbrev pub route_of : Option QueuedRequest → Option RouteKey
route_of none = none
route_of (some item) = item.expected_route

-- Nothing has come from the panel since then.
abbrev pub is_silent : Option ℕ → ℕ → Bool
is_silent none last_rx_at = false
is_silent (some sent_at) last_rx_at = leb last_rx_at sent_at

-- The `fail` of a pending response, which is dropped where that finds none.
unfoldable pub fail_or_drop : ℕ → Raised → PendingResponseManager → PendingResponseManager
fail_or_drop seq exc m =
    let (failed, found) = fail true true seq exc.text m in
    if found then failed else drop_response true seq failed

unfoldable pub drop_fire_and_forget_pending : List ℕ → Kernel → Kernel
unfolding drop_request
drop_fire_and_forget_pending [] k = record k { fire_and_forget_pending_seqs = [] }
drop_fire_and_forget_pending (seq ∷ seqs) k = drop_fire_and_forget_pending seqs (drop_request seq k)

abbrev pub waiting_items : Dict ℕ QueuedRequest → List QueuedRequest
waiting_items [] = []
waiting_items ((_, item) ∷ d) = item ∷ waiting_items d

-- The retries that wait and the queued requests, taken out.
unfoldable pub drain_requests : Kernel → List QueuedRequest × Kernel
drain_requests k = (
  waiting_items k.transport_retry ++ (k.request_queue_high ++ k.request_queue_normal),
  record k { transport_retry = []; request_queue_high = []; request_queue_normal = [] },
)

-- The active request, if any, fails, and nothing else is sent for it.
unfoldable pub fail_active : Raised → Kernel → Kernel
unfolding mark_send_failed complete_active
fail_active exc k = elim k.active_seq [
  | none ↦ k
  | some seq ↦
      if is_idle k.request_state || k.active_released
      then k
      else complete_active (λ after. after) (mark_send_failed seq exc k)
]

unfoldable pub fail_each : (QueuedRequest → Kernel → Kernel) → List QueuedRequest → Kernel → Kernel
fail_each fail_item [] k = k
fail_each fail_item (item ∷ items) k = fail_each fail_item items (fail_item item k)

abbrev pub signal_all : Dict ℕ ℕ → List ℕ → List ℕ
signal_all [] signalled = signalled
signal_all ((_, event) ∷ d) signalled = signal_all d (signalled ++ (event ∷ []))

unfoldable pub signal_all_sent_events : Kernel → Kernel
signal_all_sent_events k = record k {
  sent_events = [];
  signalled = signal_all k.sent_events k.signalled;
}

unfoldable pub fail_all_pending_commands : Raised → Kernel → Kernel
unfolding drop_fire_and_forget_pending drain_requests fail_active fail_each fail_queued_command
    signal_all_sent_events
fail_all_pending_commands exc k =
    let (items, drained) =
      drain_requests (drop_fire_and_forget_pending k.fire_and_forget_pending_seqs k) in
    let failed = fail_each (fail_queued_command exc) items (fail_active exc drained) in
    signal_all_sent_events (record failed {
      pending_responses = (fail_all true true exc.text failed.pending_responses).0;
    })

-- `_abort_requests`
unfoldable pub abort_requests : Raised → Kernel → Kernel
unfolding drain_requests fail_active fail_each mark_send_failed
abort_requests exc k =
    let (items, drained) = drain_requests k in
    let failed =
      fail_each (λ item. mark_send_failed item.seq exc) items (fail_active exc drained) in
    record failed { pending_responses = (fail_all true true exc.text failed.pending_responses).0 }

-- `seq_val` where it is an int above 0; a bool is an int.
abbrev pub positive : Json → Option ℕ
positive value = elim (as_int value) [ some (pos (suc n)) ↦ some (suc n) | _ ↦ none ]

-- Whether the tracker has `seq_val`, which need not be an int: a float is found where it equals one,
-- and a list or a dict raises a TypeError, since it has no hash.
abbrev pub is_raw_seq : Json → RawSeqTracker → Option Bool
is_raw_seq (array _) t = none
is_raw_seq (object _) t = none
is_raw_seq (float text _) t = some (elim (whole_value text) [ none ↦ false | some n ↦ is_raw n t ])
is_raw_seq value t = some (elim (as_int value) [ some (pos n) ↦ is_raw n t | _ ↦ false ])

-- The sequence number of a message, which an authentication reply carries inside, and the message
-- with what was inside.
abbrev pub lift_missing : String → Json → Members → Members
lift_missing key value msg = if has key msg then msg else put key value msg

abbrev pub lift_auth : Option Members → Members → Json × Members
lift_auth none msg = (get "seq" msg, msg)
lift_auth (some auth) msg = elim (positive (get "seq" auth)) [
  | none ↦ (get "seq" msg, msg)
  | some n ↦
      let seq = get "seq" auth in
      let msg' = lift_missing "seq" seq msg in
      (
        seq,
        elim (as_int (get "session_id" auth)) [
          | none ↦ msg'
          | some sid ↦ lift_missing "session_id" (get "session_id" auth) msg'
        ],
      )
]

unfoldable pub with_auth_seq : Members → Json × Members
with_auth_seq msg = elim (as_int (get "seq" msg)) [
  | some n ↦ (get "seq" msg, msg)
  | none ↦ lift_auth (as_mapping (get "authenticate" msg)) msg
]

pub data KernelError : Type 0 where
  no_active_session session_not_active send_failed : KernelError
