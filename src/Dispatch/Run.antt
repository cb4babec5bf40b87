-- ===== src/Dispatch/Run.antt =====
-- `dispatch` of src/elke27_lib/dispatcher_loop.py: correlation, fan-out to the handlers, and the
-- error channel. A handler is a number and a parameter gives its answer; it does not call the
-- dispatcher back. The payload preview of an error message is a parameter too.
use text.Mathlib.Text.{◌==◌ as str_eq}
use elke.Base.{
  ℕ, Bool, true, false, ◌&&◌, ◌||◌, Option, none, some, List, [], ◌∷◌, ◌++◌, String, if◌then◌else◌,
}
use elke.Dispatch.Json.{
  ℤ, pos, Json, null, int, str, array, object, Items, no_items, item, Members, empty, member, get,
  as_int,
}
use elke.Dispatch.Route.{
  RouteKey, MessageKind, DispatchSeverity, code_text, DispatchError, extract_route, classify_kind,
}
use elke.Dispatch.State.{PendingRequest, Dispatcher, handlers_of, match_pending}
use elke.Dispatch.Paged.{Reassembly, maybe_reassemble_paged, expire_paged_transfers}

pub data Classification : Type 0 where
  unknown broadcast response unsolicited : Classification

pub record DispatchContext : Type 0 where
  pub kind : MessageKind
  pub seq : Option ℕ
  pub session_id : Option ℤ
  pub route : RouteKey
  pub classification : Classification
  pub response_match : Option PendingRequest
  pub raw_route : RouteKey

-- One call of a handler.
pub record Called : Type 0 where
  pub handler : ℕ
  pub message : Members
  pub context : DispatchContext

pub record DispatchResult : Type 0 where
  pub context : DispatchContext
  pub errors : List DispatchError
  pub handled : Bool

-- What `dispatch` leaves behind: the state, its result, the handler calls in their order, and the
-- blocks requested.
pub record Dispatched : Type 0 where
  pub dispatcher : Dispatcher
  pub result : DispatchResult
  pub called : List Called
  pub requests : List ℕ

-- `_call_handlers`; an answer `none` is one of the exceptions that are caught.
abbrev pub call_handlers :
    (ℕ → Members → DispatchContext → Option Bool)
    → List ℕ
    → Members
    → DispatchContext
    → Bool × List Called
call_handlers handle [] msg ctx = (false, [])
call_handlers handle (h ∷ hs) msg ctx =
    let (others, calls) = call_handlers handle hs msg ctx in
    let handled : Bool = elim (handle h msg ctx) [ none ↦ false | some b ↦ b ] in
    (handled || others, record { handler = h; message = msg; context = ctx } ∷ calls)

abbrev pub class_of : Option PendingRequest → Classification
class_of none = unsolicited
class_of (some _) = response

-- Correlation: the pending request of a directed message is taken out.
unfoldable pub correlate :
    Dispatcher → MessageKind → Option ℕ → Dispatcher × Classification × Option PendingRequest
unfolding match_pending
correlate d MessageKind.broadcast seq = (d, broadcast, none)
correlate d MessageKind.unknown seq = (d, unknown, none)
correlate d MessageKind.directed none = (d, unknown, none)
correlate d MessageKind.directed (some n) =
    let (d', found) = match_pending d n in (d', class_of found, found)

-- The routes that `_dispatch_normal` calls, in order.
unfoldable pub fan_out : RouteKey → List RouteKey
fan_out (domain, name) =
    let domain_level = str_eq name "__empty__" || str_eq name "__value__" in
    let root_level =
      str_eq domain "__root__" && (str_eq name "__empty__" || str_eq name "__multi__") in
    (domain, name)
    ∷ ((if domain_level then (domain, "__root__") ∷ [] else [])
        ++ (if root_level then ("__root__", "__root__") ∷ [] else []))

abbrev seq_value : Option ℕ → Json
seq_value none = null
seq_value (some n) = int (pos n)

abbrev session_value : Option ℤ → Json
session_value none = null
session_value (some z) = int z

abbrev text_value : Option String → Json
text_value none = null
text_value (some s) = str s

abbrev texts : List String → Items
texts [] = no_items
texts (s ∷ ss) = item (str s) (texts ss)

abbrev severity_text : DispatchSeverity → String
severity_text DispatchSeverity.debug = "debug"
severity_text DispatchSeverity.info = "info"
severity_text DispatchSeverity.warning = "warning"
severity_text DispatchSeverity.error = "error"

-- The envelope that an error handler receives.
unfoldable pub error_message :
    (Members → String) → Members → DispatchContext → DispatchError → Members
error_message preview msg ctx e =
    let details = member "message" (str e.message) (
      member "domain" (text_value e.domain) (
        member "name" (text_value e.name) (
          member "keys" (array (texts e.keys)) (
            member "severity" (str (severity_text e.severity))
              (member "payload" (str (preview msg)) empty))))) in
    member "seq" (seq_value ctx.seq) (
      member "session_id" (session_value ctx.session_id)
        (member "__error__" (object (member (code_text e.code) (object details) empty)) empty))

module _ (handle : ℕ → Members → DispatchContext → Option Bool) (preview : Members → String)
    (d : Dispatcher) where
  abbrev pub call_routes : List RouteKey → Members → DispatchContext → Bool × List Called
  call_routes [] msg ctx = (false, [])
  call_routes (r ∷ rs) msg ctx =
      let (first, calls) = call_handlers handle (handlers_of d r) msg ctx in
      let (others, later) = call_routes rs msg ctx in (first || others, calls ++ later)

  -- `_dispatch_normal`
  unfoldable pub dispatch_normal : Members → DispatchContext → Bool × List Called
  unfolding handlers_of fan_out
  dispatch_normal msg ctx = call_routes (fan_out ctx.route) msg ctx

  -- `_emit_errors`: the handlers of the code, then those of all errors.
  unfoldable pub emit_errors : Members → DispatchContext → List DispatchError → List Called
  unfolding error_message handlers_of
  emit_errors msg ctx [] = []
  emit_errors msg ctx (e ∷ es) =
      let err_msg = error_message preview msg ctx e in
      let err_ctx = record ctx { route = ("__error__", code_text e.code) } in
      (call_handlers handle (handlers_of d ("__error__", code_text e.code)) err_msg err_ctx).1
      ++ ((call_handlers handle (handlers_of d ("__error__", "__all__")) err_msg err_ctx).1
          ++ emit_errors msg ctx es)

-- The rest of `dispatch`, with what reassembly makes of the message.
unfoldable pub deliver :
    (ℕ → Members → DispatchContext → Option Bool)
    → (Members → String)
    → Dispatcher
    → Members
    → DispatchContext
    → List DispatchError
    → List ℕ
    → Option Members
    → Dispatched
unfolding emit_errors dispatch_normal
deliver handle preview d msg ctx errors requests none = record {
  dispatcher = d;
  result = record { context = ctx; errors = errors; handled = true };
  called = emit_errors handle preview d msg ctx errors;
  requests = requests;
}
deliver handle preview d msg ctx errors requests (some paged_msg) =
    let (handled, calls) = dispatch_normal handle preview d paged_msg ctx in
    record {
      dispatcher = d;
      result = record { context = ctx; errors = errors; handled = handled };
      called = calls ++ emit_errors handle preview d paged_msg ctx errors;
      requests = requests;
    }

-- `ctx` of `dispatch`, the state behind correlation and expiry, and what reassembly makes of it.
abbrev pub context_of : Dispatcher → Members → DispatchContext
context_of d msg =
    let (route, _) = extract_route msg in
    let (seq, kind, _) = classify_kind msg in
    let (_, classification, response_match) = correlate d kind seq in
    record {
      kind = kind;
      seq = seq;
      session_id = as_int (get "session_id" msg);
      route = route;
      classification = classification;
      response_match = response_match;
      raw_route = route;
    }

abbrev pub live_state : ℕ → Dispatcher → Members → Dispatcher
live_state expire_now d msg =
    let (seq, kind, _) = classify_kind msg in
    expire_paged_transfers (correlate d kind seq).0 expire_now

abbrev pub paged_message : ℕ → ℕ → Dispatcher → Members → Reassembly
paged_message expire_now now d msg =
    let ctx = context_of d msg in
    maybe_reassemble_paged (live_state expire_now d msg) msg ctx.route ctx.session_id
      ctx.response_match now

abbrev pub paged_state : ℕ → ℕ → Dispatcher → Members → Dispatcher
paged_state expire_now now d msg = record (live_state expire_now d msg) {
  paged_transfers = (paged_message expire_now now d msg).transfers;
}

-- `dispatch` of a mapping, with the clock's two readings.
unfoldable pub dispatch :
    (ℕ → Members → DispatchContext → Option Bool)
    → (Members → String)
    → ℕ
    → ℕ
    → Dispatcher
    → Members
    → Dispatched
unfolding deliver extract_route classify_kind correlate expire_paged_transfers
    maybe_reassemble_paged
dispatch handle preview expire_now now d msg =
    let paged = paged_message expire_now now d msg in
    deliver handle preview (paged_state expire_now now d msg) msg (context_of d msg)
      ((extract_route msg).1 ++ (classify_kind msg).2) paged.requests paged.message
