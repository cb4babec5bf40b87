-- ===== src/Kernel/Scheduler.antt =====
-- src/elke27_lib/kernel_loop.py: the request scheduler of `E27Kernel`, from `_try_send_next` to the
-- retries. A call of `_kick_scheduler` runs `_try_send_next` at once, since the kernel's loop is
-- running. `_try_send_next` is written with the kick it makes as an argument, and then tied to
-- itself on fuel.
pub mod Failures
pub mod Sending
pub mod Fuel
use text.Mathlib.Text.{◌==◌ as str_eq}
use elke.Base.{
  ℕ, zero, suc, ◌+◌, ◌-◌, Bool, true, false, not, ◌&&◌, ◌||◌, Option, none, some, List, [], ◌∷◌,
  ◌++◌, String, ◌==◌, if◌then◌else◌,
}
use elke.Base.Dict.{Dict, pair_key, nat_key, lookup, insert, erase, contains}
use elke.Outbound.{OutboundPriority, high, normal}
use elke.Dispatch.Json.{
  ℤ, pos, Json, null, bool, int, float, object, Members, empty, member, get, put,
}
use elke.Dispatch.Route.{RouteKey}
use elke.Dispatch.State.{PagedTransferKey, add_pending, drop_pending}
use elke.Pending.{fail}
use elke.Session.State.{Session, SessionError, io_error, Notice, connected, lost, handle_disconnect}
use elke.Kernel.{
  RequestState, idle, in_flight, QueuedRequest, sends, Kernel, is_keepalive, is_disarm,
  retry_after_send_allowed, retries_disabled, is_past_deadline, transport_retry_allowed,
  transport_backoff, is_active,
}

-- An exception, as far as the kernel looks at it. Its text is without the sequence number that the
-- code names in it.
pub record Raised : Type 0 where
  pub is_session_io_error : Bool
  pub text : String

abbrev pub deadline_expired : Raised
deadline_expired = record { is_session_io_error = false; text = "Command deadline expired" }

abbrev pub signal : Option ℕ → List ℕ → List ℕ
signal none signalled = signalled
signal (some event) signalled = signalled ++ (event ∷ [])

unfoldable pub signal_sent_event : ℕ → Kernel → Kernel
signal_sent_event seq k = record k {
  sent_events = erase seq k.sent_events;
  signalled = signal (lookup seq k.sent_events) k.signalled;
}

-- `self.dispatcher.drop_pending(seq)`
unfoldable pub drop_request : ℕ → Kernel → Kernel
drop_request seq k = record k { dispatcher = drop_pending k.dispatcher seq }

-- `_mark_send_failed`, and the same three calls elsewhere
unfoldable pub mark_send_failed : ℕ → Raised → Kernel → Kernel
unfolding signal_sent_event
mark_send_failed seq exc k = signal_sent_event seq (record k {
  dispatcher = drop_pending k.dispatcher seq;
  pending_responses = (fail true true seq exc.text k.pending_responses).0;
})

unfoldable pub cancel_transport_retry_timer : ℕ → Kernel → Kernel
cancel_transport_retry_timer seq k = record k { transport_retry = erase seq k.transport_retry }

unfoldable pub fail_queued_command : Raised → QueuedRequest → Kernel → Kernel
unfolding cancel_transport_retry_timer mark_send_failed
fail_queued_command exc item k =
    mark_send_failed item.seq exc (cancel_transport_retry_timer item.seq k)

abbrev pub lost_calls : List Notice → List SessionError
lost_calls [] = []
lost_calls (connected _ ∷ notices) = lost_calls notices
lost_calls (lost e ∷ notices) = e ∷ lost_calls notices

abbrev pub disconnect_session : Option Session → Kernel → Kernel
disconnect_session none k = k
disconnect_session (some s) k =
    let (closed, notices) = handle_disconnect s io_error in
    record k { session = some closed; loop_calls = k.loop_calls ++ lost_calls notices }

unfoldable pub disconnect_session_on_io_error : Raised → Kernel → Kernel
disconnect_session_on_io_error exc k =
    if not exc.is_session_io_error
    then k
    else if not (is_active k.session)
    then k
    else disconnect_session k.session k

abbrev pub put_request : OutboundPriority → QueuedRequest → Kernel → Kernel
put_request high item k = record k { request_queue_high = k.request_queue_high ++ (item ∷ []) }
put_request normal item k = record k {
  request_queue_normal = k.request_queue_normal ++ (item ∷ []);
}

-- `_request_queue_high.appendleft`, at high priority
unfoldable pub put_first : QueuedRequest → Kernel → Kernel
put_first item k = record k {
  request_queue_high = record item { priority = high } ∷ k.request_queue_high;
}

-- The body of a request message.
abbrev pub message_body : String → Json → Json
message_body name payload =
    if str_eq name "__root__" then payload else object (member name payload empty)

unfoldable pub build_request_message : Option ℤ → ℕ → String → String → Json → Members
build_request_message session_id seq domain name payload =
    let start = member "seq" (int (pos seq)) empty in
    put domain (message_body name payload)
      (elim session_id [ none ↦ start | some sid ↦ put "session_id" (int sid) start ])

-- `block_id in (None, 1)`
abbrev pub is_first_block : Json → Bool
is_first_block null = true
is_first_block (bool b) = b
is_first_block (int (pos n)) = n == 1
is_first_block (float text _) = str_eq text "1.0"
is_first_block _ = false

abbrev pub block_of : Json → Json
block_of (object payload) = get "block_id" payload
block_of _ = null

-- The transfer key that a pending request starts, if it starts one.
abbrev pub started_transfer :
    Option PagedTransferKey → Option RouteKey → Json → Kernel → Option PagedTransferKey
started_transfer (some _) _ _ k = none
started_transfer none none _ k = none
started_transfer none (some route) payload k =
    if contains route k.dispatcher.paged_routes && is_first_block (block_of payload)
    then some
        (record { session_id = k.session_id; transfer_id = k.next_transfer_id; route = route })
    else none

abbrev pub with_transfer : Option PagedTransferKey → QueuedRequest → Kernel → QueuedRequest × Kernel
with_transfer none item k = (item, k)
with_transfer (some key) item k =
    (record item { opaque = some key }, record k { next_transfer_id = suc k.next_transfer_id })

abbrev pub register_pending : QueuedRequest × Kernel → QueuedRequest × Kernel
register_pending (item, k) = (
  item,
  record k {
    dispatcher =
        add_pending k.dispatcher
          (record { seq = item.seq; expected_route = item.expected_route; opaque = item.opaque });
  },
)

-- The request to send and the kernel before the send, from the request that was taken.
unfoldable pub prepare : QueuedRequest → Kernel → QueuedRequest × Kernel
prepare item k =
    if item.pending
    then register_pending
        (with_transfer (started_transfer item.opaque item.expected_route item.payload k) item k)
    else (item, k)

-- It becomes the active one.
unfoldable pub activate : QueuedRequest × Kernel → Kernel
activate (item, k) = record k {
  request_state = in_flight;
  active_seq = some item.seq;
  active_released = false;
  active_request = some item;
}

-- `session.send_json`
unfoldable pub hand_over : QueuedRequest → Kernel → Kernel
unfolding build_request_message
hand_over item k = record k {
  session_calls =
      k.session_calls
      ++ (sends item.seq
            (build_request_message k.session_id item.seq item.domain item.name item.payload)
            item.priority
          ∷ []);
}

-- The next request in the queues, taken out.
unfoldable pub next_request : Kernel → Option (QueuedRequest × Kernel)
next_request k = elim k.request_queue_high [
  | item ∷ rest ↦ some (item, record k { request_queue_high = rest })
  | [] ↦ elim k.request_queue_normal [
    | item ∷ rest ↦ some (item, record k { request_queue_normal = rest })
    | [] ↦ none
  ]
]

abbrev pub is_idle : RequestState → Bool
is_idle idle = true
is_idle in_flight = false

abbrev pub is_sent : Option ℕ → Bool
is_sent none = false
is_sent (some _) = true

abbrev pub same_seq : Option ℕ → ℕ → Bool
same_seq none seq = false
same_seq (some active) seq = active == seq
