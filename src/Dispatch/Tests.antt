-- ===== src/Dispatch/Tests.antt =====
-- Runs of src/elke27_lib/dispatcher_loop.py, and its theorems at concrete inputs.
use elke.Base.{
  ℕ, ◌≡◌, ◌≢◌, ◌↔◌, ◌⊎◌, inr, refl, Bool, true, false, Option, none, some, [], ◌∷◌, ◌++◌, String,
  arith,
}
use elke.Base.Dict.{nat_key, pair_key, string_key, ne_of_same, lookup, contains}
use elke.Dispatch.IntText.{is_int_text}
use elke.Dispatch.Json.{pos, int, object, Members, empty, member, truthy}
use elke.Dispatch.Route.{
  extract_route, is_root_error_envelope, is_domain_root_error, classify_kind, no_command,
}
use elke.Dispatch.Routing.{IsRoutable, extract_route_command, extract_route_iff}
use elke.Dispatch.State.{
  PagedTransferKey, PendingRequest, PagedRouteSpec, PagedTransfer, Dispatcher, handlers_of,
}
use elke.Dispatch.Paged.{receive_block}
use elke.Dispatch.Reassembly.{IsProper, Sound, receive_block-Sound}
use elke.Dispatch.Transfers.{AllProper, dispatch-AllProper}
use elke.Dispatch.Run.{DispatchContext, response, unsolicited, dispatch}
use elke.Dispatch.Correlation.{IsDirected, dispatch-response, dispatch-dispatch_unsolicited}
use elke.Dispatch.FanOut.{calls_of, any_handled, names, dispatch-handlers}
use elke.Dispatch.RootEmpty.{dispatch-root_empty}

-- `{"zone": {"get_status": {}}, "seq": 5}`
abbrev message : Members
message =
    member "zone" (object (member "get_status" (object empty) empty))
      (member "seq" (int (pos 5)) empty)

abbrev answers : ℕ → Members → DispatchContext → Option Bool
answers h msg ctx = some true

abbrev no_preview : Members → String
no_preview msg = ""

abbrev request : PendingRequest
request = record { seq = 5; expected_route = none; opaque = none }

abbrev dispatcher : Dispatcher
dispatcher = record {
  handlers = (("zone", "get_status"), 1 ∷ 2 ∷ []) ∷ (("__root__", "__root__"), 3 ∷ []) ∷ [];
  pending = (5, request) ∷ [];
  paged_routes = [];
  paged_transfers = [];
  paged_timeout = 10;
}

int_texts :
    (is_int_text " -1_000 " ≡ true)
    × (is_int_text "1__0" ≡ false)
    × (is_int_text "" ≡ false)
    × (is_int_text "+ 5" ≡ false)
    × (is_int_text "12x" ≡ false)
unfolding is_int_text
int_texts = (refl, refl, refl, refl, refl)

message-IsDirected : IsDirected message 5
message-IsDirected = record { has_seq = refl; seq_value = refl; positive = omega arith }

dispatch-response_example :
    let done = dispatch answers no_preview 0 0 dispatcher message in
    (done.result.context.classification ≡ response)
    × (done.result.context.response_match ≡ some request)
    × (lookup 5 done.dispatcher.pending ≡ none)
    × ((j : ℕ) → j ≢ 5 → lookup j done.dispatcher.pending ≡ lookup j dispatcher.pending)
unfolding lookup
dispatch-response_example =
    dispatch-response answers no_preview 0 0 dispatcher message 5 request message-IsDirected refl

dispatch-dispatch_unsolicited_example :
    let first = dispatch answers no_preview 0 0 dispatcher message in
    let second = dispatch answers no_preview 1 1 first.dispatcher message in
    (second.result.context.classification ≡ unsolicited)
    × (second.result.context.response_match ≡ none)
dispatch-dispatch_unsolicited_example =
    dispatch-dispatch_unsolicited answers no_preview 0 0 1 1 dispatcher message message 5
      message-IsDirected message-IsDirected

extract_route_command_example : extract_route message ≡ (("zone", "get_status"), [])
extract_route_command_example =
    extract_route_command message "zone" "get_status" (object empty) refl refl
      (ne_of_same "zone" "error_code" refl) (ne_of_same "get_status" "error_code" refl)

message-IsRoutable : IsRoutable message
message-IsRoutable =
    ("zone", member "get_status" (object empty) empty, refl, refl, inr ("get_status", refl))

extract_route_iff_example :
    ((extract_route message).1 ≡ [])
    ↔ ((is_root_error_envelope message ≡ true) ⊎ IsRoutable message)
extract_route_iff_example = extract_route_iff message

message-clean : (extract_route message).1 ++ (classify_kind message).2 ≡ []
unfolding extract_route is_root_error_envelope is_domain_root_error classify_kind no_command truthy
message-clean = refl

message-route : (extract_route message).0 ≡ ("zone", "get_status")
unfolding extract_route is_root_error_envelope is_domain_root_error no_command truthy
message-route = refl

unpaged_route : lookup ("zone", "get_status") dispatcher.paged_routes ≡ none
unfolding lookup
unpaged_route = refl

dispatch-handlers_example :
    let done = dispatch answers no_preview 0 0 dispatcher message in
    (done.called
      ≡ calls_of message done.result.context (handlers_of dispatcher ("zone", "get_status")))
    × (done.result.handled
        ≡ any_handled answers message done.result.context
            (handlers_of dispatcher ("zone", "get_status")))
dispatch-handlers_example =
    dispatch-handlers answers no_preview 0 0 dispatcher message ("zone", "get_status") message-route
      (
        ne_of_same "get_status" "__empty__" refl,
        ne_of_same "get_status" "__value__" refl,
        ne_of_same "get_status" "__multi__" refl,
      )
      message-clean unpaged_route

-- `{"session_id": 7}` calls the one root handler twice.
abbrev bare : Members
bare = member "session_id" (int (pos 7)) empty

unpaged_root : lookup ("__root__", "__empty__") dispatcher.paged_routes ≡ none
unfolding lookup
unpaged_root = refl

dispatch-root_empty_example :
    names (dispatch answers no_preview 0 0 dispatcher bare).called ≡ 3 ∷ 3 ∷ []
unfolding handlers_of lookup
dispatch-root_empty_example =
    dispatch-root_empty answers no_preview 0 0 dispatcher bare refl refl unpaged_root

-- Blocks 1 and 3 of three have arrived.
abbrev transfer : PagedTransfer
transfer = record {
  total_count = 3;
  last_update_at = 0;
  received_blocks = (3, empty) ∷ (1, empty) ∷ [];
  requested_blocks = [];
}

abbrev spec : PagedRouteSpec
spec = record { merge_fn = λ blocks total. message; request_block = none; timeout = 10 }

abbrev key : PagedTransferKey
key = record { session_id = none; transfer_id = 5; route = ("zone", "get_status") }

transfer-IsProper : IsProper transfer
unfolding contains
transfer-IsProper = record {
  distinct = (refl, (refl, tt));
  in_range = omega arith;
  incomplete = omega arith;
}

receive_block-Sound_example :
    Sound spec 3 (some transfer) 2 empty (receive_block spec key (some transfer) 1 2 3 empty).0
receive_block-Sound_example =
    receive_block-Sound spec key (some transfer) 1 2 3 empty transfer-IsProper (omega arith)
      (omega arith)

abbrev paging : Dispatcher
paging = record dispatcher { paged_transfers = (key, transfer) ∷ [] }

dispatch-AllProper_example :
    AllProper (dispatch answers no_preview 0 0 paging message).dispatcher.paged_transfers
dispatch-AllProper_example =
    dispatch-AllProper answers no_preview 0 0 paging message (transfer-IsProper, tt)
