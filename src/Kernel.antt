-- ===== src/Kernel.antt =====
-- src/elke27_lib/kernel_loop.py: the state of `E27Kernel` that its requests live in, what is asked
-- of a queued request, and sequence numbers. All calls run on the kernel's event loop, as the
-- session delivers every message, notice and callback there. Times are whole milliseconds.
pub mod RawSeqs
pub mod Scheduler
pub mod Calls
pub mod Chances
pub mod Sending
pub mod Termination
pub mod Steps
pub mod Sends
pub mod Arrivals
pub mod Runs
pub mod Progress
pub mod Waiting
pub mod Closing
pub mod Delivery
pub mod Answered
pub mod Seqs
pub mod LateWindow
mod Tests
use text.Mathlib.Text.{◌==◌ as str_eq, starts_with}
use elke.Base.{
  ℕ, zero, suc, ◌+◌, ◌-◌, ◌*◌, ◌^◌, Bool, true, false, not, ◌&&◌, ◌||◌, Option, none, some, List,
  [], ◌∷◌, ◌++◌, String, ◌==◌, ltb, leb, if◌then◌else◌,
}
use elke.Base.Dict.{Dict, pair_key, nat_key, lookup, erase}
use elke.Outbound.{OutboundPriority, high, normal}
use elke.Dispatch.Json.{ℤ, Json, str, int, Members, get, as_mapping}
use elke.Dispatch.Route.{RouteKey}
use elke.Dispatch.State.{Dispatcher, PagedTransferKey, drop_pending}
use elke.Pending.{PendingResponseManager, fail}
use elke.Session.State.{Session, SessionError, SessionState, active}
use elke.Kernel.RawSeqs.{RawSeqTracker, is_raw}

pub data RequestState : Type 0 where
  idle in_flight : RequestState

pub record QueuedRequest : Type 0 where
  pub seq : ℕ
  pub domain : String
  pub name : String
  pub payload : Json
  pub pending : Bool
  pub opaque : Option PagedTransferKey
  pub expected_route : Option RouteKey
  pub priority : OutboundPriority
  pub timeout : ℕ
  pub attempt : ℕ
  pub deadline_at : ℕ

-- A call of `session.send_json` that returns, or of `session.cancel_outbound_pending_seq`.
pub data SessionCall : Type 0 where
  sends : ℕ → Members → OutboundPriority → SessionCall
  cancels : ℕ → SessionCall

-- `transport_retry` stands for the three containers of timers and of the requests that wait with
-- them, which have the same keys. `loop_calls` are the calls of `_on_session_disconnected` that
-- the session has left with the event loop, and `signalled` are the sent events that are set.
pub record Kernel : Type 0 where
  pub session : Option Session
  pub session_id : Option ℤ
  pub connected : Bool
  pub closing : Bool
  pub closed_explicitly : Bool
  pub seq : ℕ
  pub dispatcher : Dispatcher
  pub pending_responses : PendingResponseManager
  pub raw_passthrough_seqs : RawSeqTracker
  pub sent_events : Dict ℕ ℕ
  pub signalled : List ℕ
  pub confirmed_sent_seqs : List ℕ
  pub fire_and_forget_pending_seqs : List ℕ
  pub request_state : RequestState
  pub active_seq : Option ℕ
  pub active_sent_at : Option ℕ
  pub active_timeout : Option ℕ
  pub active_released : Bool
  pub active_request : Option QueuedRequest
  pub request_queue_high : List QueuedRequest
  pub request_queue_normal : List QueuedRequest
  pub transport_retry : Dict ℕ QueuedRequest
  pub next_transfer_id : ℕ
  pub last_rx_at : ℕ
  pub last_exchange_at : ℕ
  pub keepalive_enabled : Bool
  pub keepalive_running : Bool
  pub keepalive_probe_requested : Bool
  pub request_max_retries : ℕ
  pub request_max_backoff : ℕ
  pub session_calls : List SessionCall
  pub loop_calls : List SessionError

-- The tests of a queued request.
unfoldable pub is_keepalive : QueuedRequest → Bool
is_keepalive item =
    if str_eq item.domain "system" && str_eq item.name "r_u_alive"
    then true
    else elim item.expected_route [
      | none ↦ false
      | some route ↦ pair_key.same route ("system", "r_u_alive")
    ]

abbrev pub is_disarmed : Json → Bool
is_disarmed (str s) = str_eq s "DISARMED"
is_disarmed _ = false

unfoldable pub is_disarm : QueuedRequest → Bool
is_disarm item =
    if not (str_eq item.domain "area") || not (str_eq item.name "set_arm_state")
    then false
    else elim (as_mapping item.payload) [
      | none ↦ false
      | some payload ↦ is_disarmed (get "arm_state" payload)
    ]

unfoldable pub retry_after_send_allowed : QueuedRequest → Bool
unfolding is_disarm
retry_after_send_allowed item =
    if is_disarm item
    then true
    else elim item.expected_route [ none ↦ false | some (_, name) ↦ starts_with name "get_" ]

-- `_disable_retries_for_routes`
abbrev pub disable_retries_for_routes : List RouteKey
disable_retries_for_routes =
    ("barrier", "set_status")
    ∷ ("area", "get_attribs")
    ∷ ("zone", "get_attribs")
    ∷ ("output", "get_attribs")
    ∷ ("light", "get_attribs")
    ∷ ("barrier", "get_attribs")
    ∷ ("lock", "get_attribs")
    ∷ ("tstat", "get_attribs")
    ∷ ("user", "get_attribs")
    ∷ ("keypad", "get_attribs")
    ∷ []

abbrev pub has_route : RouteKey → List RouteKey → Bool
has_route route [] = false
has_route route (r ∷ rs) = if pair_key.same route r then true else has_route route rs

abbrev pub retries_disabled : Option RouteKey → Bool
retries_disabled none = false
retries_disabled (some route) = has_route route disable_retries_for_routes

unfoldable pub is_past_deadline : ℕ → QueuedRequest → Bool
is_past_deadline now item = ltb 0 item.deadline_at && leb item.deadline_at now

-- `_transport_retry_allowed`
unfoldable pub transport_retry_allowed : ℕ → Bool → QueuedRequest → Kernel → Bool
unfolding is_keepalive is_past_deadline retry_after_send_allowed
transport_retry_allowed now sent item k =
    if is_keepalive item
    then false
    else if is_past_deadline now item
    then false
    else if retries_disabled item.expected_route
    then false
    else if leb k.request_max_retries item.attempt
    then false
    else if sent && not (retry_after_send_allowed item)
    then false
    else not (is_raw item.seq k.raw_passthrough_seqs)

-- `min`
abbrev pub smaller : ℕ → ℕ → ℕ
smaller a b = if ltb b a then b else a

unfoldable pub transport_backoff : ℕ → ℕ → ℕ
transport_backoff attempt max_backoff =
    if attempt == 0 then 0 else smaller (500 * 2 ^ (attempt - 1)) max_backoff

-- `transport_wait_budget_s`: the waits before the first `attempts` retries.
abbrev pub backoff_total : ℕ → ℕ → ℕ
backoff_total max_backoff zero = 0
backoff_total max_backoff (suc n) = backoff_total max_backoff n + smaller (500 * 2 ^ n) max_backoff

unfoldable pub transport_wait_budget : ℕ → ℕ → ℕ → ℕ
transport_wait_budget timeout max_retries max_backoff =
    (max_retries + 1) * timeout + backoff_total max_backoff max_retries

-- `_next_seq`: the number handed out.
abbrev pub max_seq : ℕ
max_seq = 2147483647

abbrev pub usable_seq : ℕ → ℕ
usable_seq s = if (s == 0) || ltb max_seq s then 10 else s

unfoldable pub next_seq : Kernel → Kernel × ℕ
next_seq k =
    let s = usable_seq k.seq in
    let next_val = if ltb max_seq (s + 1) then 10 else s + 1 in (record k { seq = next_val }, s)

-- There is a session, and it is active.
abbrev pub is_active : Option Session → Bool
is_active none = false
is_active (some s) = elim s.state [ active ↦ true | _ ↦ false ]
