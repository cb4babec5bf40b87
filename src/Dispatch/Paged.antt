-- ===== src/Dispatch/Paged.antt =====
-- `_maybe_reassemble_paged` and `_expire_paged_transfers` of src/elke27_lib/dispatcher_loop.py.
use elke.Base.{
  ℕ, zero, suc, ◌-◌, Bool, false, not, ◌||◌, Option, none, some, List, [], ◌∷◌, ltb, leb, ◌==◌,
  if◌then◌else◌, length,
}
use elke.Base.Dict.{Dict, nat_key, pair_key, lookup, insert, erase, contains}
use elke.Dispatch.Json.{
  ℤ, pos, negsuc, Json, object, Members, empty, member, get, put, as_int, as_mapping,
}
use elke.Dispatch.Route.{RouteKey}
use elke.Dispatch.State.{
  PagedTransferKey, transfer_key, PendingRequest, PagedBlock, PagedRouteSpec, PagedTransfer,
  Dispatcher,
}

-- `sorted(received_blocks.keys())` with the payloads
abbrev pub insert_block : PagedBlock → List PagedBlock → List PagedBlock
insert_block b [] = b ∷ []
insert_block b (c ∷ cs) = if leb b.block_id c.block_id then b ∷ c ∷ cs else c ∷ insert_block b cs

unfoldable pub sorted_blocks : Dict ℕ Members → List PagedBlock
sorted_blocks [] = []
sorted_blocks ((i, m) ∷ d) = insert_block (record { block_id = i; payload = m }) (sorted_blocks d)

abbrev pub member_of : ℕ → List ℕ → Bool
member_of n [] = false
member_of n (m ∷ ms) = n == m || member_of n ms

-- The first of `count` numbers from `next` that is neither received nor requested.
unfoldable pub first_missing : Dict ℕ Members → List ℕ → ℕ → ℕ → Option ℕ
first_missing received requested next zero = none
first_missing received requested next (suc count) =
    let rest = first_missing received requested (suc next) count in
    if contains next received || member_of next requested then rest else some next

-- The loop that requests one block: the requested set, and the call if one was made.
abbrev pub ask :
    Option (ℕ → PagedTransferKey → Bool) → PagedTransferKey → List ℕ → Option ℕ → List ℕ × List ℕ
ask none key requested _ = (requested, [])
ask (some request) key requested none = (requested, [])
ask (some request) key requested (some b) =
    (if request b key then b ∷ requested else requested, b ∷ [])

-- What a valid block does: the message goes on with the transfer dropped, nothing, a transfer that
-- waits, or the merged payload.
pub data Received : Type 0 where
  mismatch duplicate : Received
  waits : PagedTransfer → Received
  merged : List PagedBlock → Members → Received

-- The block is stored, the next one requested, and the transfer finished if nothing is missing.
unfoldable pub store_block :
    PagedRouteSpec → PagedTransferKey → PagedTransfer → ℕ → ℕ → Members → Received × List ℕ
unfolding first_missing sorted_blocks
store_block spec key t now block_id payload =
    let received = insert block_id payload t.received_blocks in
    let requested = block_id ∷ t.requested_blocks in
    let (asked, calls) =
      ask spec.request_block key requested (first_missing received requested 1 t.total_count) in
    let blocks = sorted_blocks received in
    (
      if ltb (length received) t.total_count
          then waits (record t {
            received_blocks = received;
            last_update_at = now;
            requested_blocks = asked;
          })
          else merged blocks
              (spec.merge_fn blocks (if t.total_count == 0 then length blocks else t.total_count)),
      calls,
    )

abbrev pub new_transfer : ℕ → ℕ → PagedTransfer
new_transfer block_count now = record {
  total_count = block_count;
  last_update_at = now;
  received_blocks = [];
  requested_blocks = [];
}

unfoldable pub receive_block :
    PagedRouteSpec
    → PagedTransferKey
    → Option PagedTransfer
    → ℕ
    → ℕ
    → ℕ
    → Members
    → Received × List ℕ
unfolding store_block
receive_block spec key none now block_id block_count payload =
    store_block spec key (new_transfer block_count now) now block_id payload
receive_block spec key (some t) now block_id block_count payload =
    if not (t.total_count == block_count)
    then (mismatch, [])
    else if contains block_id t.received_blocks
    then (duplicate, [])
    else store_block spec key t now block_id payload

-- `isinstance(n, int) and n >= 1`
abbrev pub positive : Json → Option ℕ
positive v = elim (as_int v) [
  | none ↦ none
  | some z ↦ elim z [ pos n ↦ (if n == 0 then none else some n) | negsuc _ ↦ none ]
]

-- `isinstance(code, int) and code == 11008`
abbrev pub is_auth_error : Json → Bool
is_auth_error v = elim (as_int v) [
  | none ↦ false
  | some z ↦ elim z [ pos n ↦ n == 11008 | negsuc _ ↦ false ]
]

-- `_paged_transfer_key`
unfoldable pub paged_transfer_key :
    RouteKey → Option ℤ → Option PendingRequest → Option PagedTransferKey
paged_transfer_key route session_id none = none
paged_transfer_key route session_id (some p) = elim p.opaque [
  | none ↦ some (record { session_id = session_id; transfer_id = p.seq; route = route })
  | some key ↦ some key
]

-- `_extract_paged_payload`, with the domain's object
abbrev pub extract_paged_payload : Members → RouteKey → Option (Members × Members)
extract_paged_payload msg (domain, name) = elim (as_mapping (get domain msg)) [
  | none ↦ none
  | some domain_map ↦ elim (as_mapping (get name domain_map)) [
    | none ↦ none
    | some payload ↦ some (domain_map, payload)
  ]
]

-- The message to dispatch, or none for a block that is consumed; and the blocks requested.
pub record Reassembly : Type 0 where
  pub transfers : Dict PagedTransferKey PagedTransfer
  pub message : Option Members
  pub requests : List ℕ

abbrev pub assembled : Members → RouteKey → Members → Members
assembled msg (domain, name) payload = put domain (object (member name (object payload) empty)) msg

abbrev pub finish :
    Dict PagedTransferKey PagedTransfer
    → PagedTransferKey
    → Members
    → RouteKey
    → Received × List ℕ
    → Reassembly
finish ts key msg route (mismatch, calls) = record {
  transfers = erase key ts;
  message = some msg;
  requests = calls;
}
finish ts key msg route (duplicate, calls) = record {
  transfers = ts;
  message = none;
  requests = calls;
}
finish ts key msg route (waits t, calls) = record {
  transfers = insert key t ts;
  message = none;
  requests = calls;
}
finish ts key msg route (merged _ payload, calls) = record {
  transfers = erase key ts;
  message = some (assembled msg route payload);
  requests = calls;
}

abbrev pub consumed : Dict PagedTransferKey PagedTransfer → Reassembly
consumed ts = record { transfers = ts; message = none; requests = [] }

abbrev pub passes : Dict PagedTransferKey PagedTransfer → Members → Reassembly
passes ts msg = record { transfers = ts; message = some msg; requests = [] }

abbrev pub take_block :
    PagedRouteSpec
    → Dict PagedTransferKey PagedTransfer
    → PagedTransferKey
    → Members
    → RouteKey
    → ℕ
    → Members
    → Option ℕ
    → Option ℕ
    → Reassembly
take_block spec ts key msg route now payload none _ = consumed ts
take_block spec ts key msg route now payload (some block_id) none = consumed ts
take_block spec ts key msg route now payload (some block_id) (some block_count) =
    if ltb block_count block_id
    then consumed ts
    else finish ts key msg route
        (receive_block spec key (lookup key ts) now block_id block_count payload)

abbrev pub reassemble_with :
    Dispatcher
    → Members
    → RouteKey
    → ℕ
    → Option PagedRouteSpec
    → Option PagedTransferKey
    → Option (Members × Members)
    → Reassembly
reassemble_with d msg route now none _ _ = passes d.paged_transfers msg
reassemble_with d msg route now (some spec) none _ = passes d.paged_transfers msg
reassemble_with d msg route now (some spec) (some key) none = passes d.paged_transfers msg
reassemble_with d msg route now (some spec) (some key) (some (domain_map, payload)) =
    if is_auth_error (get "error_code" domain_map) || is_auth_error (get "error_code" payload)
    then passes (erase key d.paged_transfers) msg
    else take_block spec d.paged_transfers key msg route now payload
        (positive (get "block_id" payload)) (positive (get "block_count" payload))

-- `_maybe_reassemble_paged`
unfoldable pub maybe_reassemble_paged :
    Dispatcher → Members → RouteKey → Option ℤ → Option PendingRequest → ℕ → Reassembly
unfolding receive_block paged_transfer_key
maybe_reassemble_paged d msg route session_id response_match now =
    reassemble_with d msg route now (lookup route d.paged_routes)
      (paged_transfer_key route session_id response_match) (extract_paged_payload msg route)

abbrev pub timeout_of : Dispatcher → PagedTransferKey → ℕ
timeout_of d key = elim (lookup key.route d.paged_routes) [
  | none ↦ d.paged_timeout
  | some spec ↦ spec.timeout
]

-- The transfers that are not expired; the clock never runs back.
unfoldable pub live_transfers :
    Dispatcher → ℕ → Dict PagedTransferKey PagedTransfer → Dict PagedTransferKey PagedTransfer
live_transfers d now [] = []
live_transfers d now ((key, t) ∷ ts) =
    let rest = live_transfers d now ts in
    if leb (timeout_of d key) (now - t.last_update_at) then rest else (key, t) ∷ rest

-- `_expire_paged_transfers`
unfoldable pub expire_paged_transfers : Dispatcher → ℕ → Dispatcher
unfolding live_transfers
expire_paged_transfers d now = record d { paged_transfers = live_transfers d now d.paged_transfers }
