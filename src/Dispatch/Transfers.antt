-- ===== src/Dispatch/Transfers.antt =====
-- The paged transfers of a `Dispatcher` of src/elke27_lib/dispatcher_loop.py over its calls.
use elke.Base.{
  ℕ, ◌-◌, ◌≤◌, ◌≡◌, refl, sym, subst, Bool, true, false, ◌||◌, Option, none, String, some, List, [],
  ◌∷◌, ◌++◌, arith, ltb, leb, ◌==◌, if◌then◌else◌, Bool-cases, inl, inr,
}
use elke.Base.Dict.{Dict, pair_key, lookup, insert, erase}
use elke.Dispatch.Json.{ℤ, pos, negsuc, Json, Members, get, as_int}
use elke.Dispatch.Route.{RouteKey, MessageKind, DispatchError, extract_route, classify_kind}
use elke.Dispatch.State.{
  PagedTransferKey, transfer_key, PagedRouteSpec, PagedTransfer, Dispatcher, match_pending,
}
use elke.Dispatch.Paged.{
  Received, mismatch, duplicate, waits, merged, receive_block, positive, is_auth_error,
  paged_transfer_key, extract_paged_payload, finish, take_block, reassemble_with,
  maybe_reassemble_paged, live_transfers, timeout_of, expire_paged_transfers,
}
use elke.Dispatch.Reassembly.{IsProper, Sound, ProperOption, receive_block-Sound}
use elke.Dispatch.Run.{
  DispatchContext, correlate, deliver, dispatch, context_of, live_state, paged_message, paged_state,
}

abbrev pub AllProper : Dict PagedTransferKey PagedTransfer → Type 0
AllProper [] = Unit
AllProper ((_, t) ∷ ts) = IsProper t × AllProper ts

lookup-AllProper :
    (key : PagedTransferKey) (ts : Dict PagedTransferKey PagedTransfer)
    → AllProper ts
    → ProperOption (lookup key ts)
unfolding lookup
lookup-AllProper key [] h = tt
lookup-AllProper key ((k, t) ∷ ts) (p, h) =
    elim (transfer_key.same key k) as (λ b. ProperOption (if b then some t else lookup key ts)) [
      | true ↦ p
      | false ↦ lookup-AllProper key ts h
    ]

insert-AllProper :
    (key : PagedTransferKey) (t : PagedTransfer) (ts : Dict PagedTransferKey PagedTransfer)
    → IsProper t
    → AllProper ts
    → AllProper (insert key t ts)
unfolding insert
insert-AllProper key t [] p h = (p, tt)
insert-AllProper key t ((k, u) ∷ ts) p (q, h) =
    elim (transfer_key.same key k)
      as (λ b. AllProper (if b then (key, t) ∷ ts else (k, u) ∷ insert key t ts)) [
        | true ↦ (p, h)
        | false ↦ (q, insert-AllProper key t ts p h)
      ]

erase-AllProper :
    (key : PagedTransferKey) (ts : Dict PagedTransferKey PagedTransfer)
    → AllProper ts
    → AllProper (erase key ts)
unfolding erase
erase-AllProper key [] h = tt
erase-AllProper key ((k, u) ∷ ts) (q, h) =
    elim (transfer_key.same key k)
      as (λ b. AllProper (if b then erase key ts else (k, u) ∷ erase key ts)) [
        | true ↦ erase-AllProper key ts h
        | false ↦ (q, erase-AllProper key ts h)
      ]

live_transfers-AllProper :
    (d : Dispatcher) (now : ℕ) (ts : Dict PagedTransferKey PagedTransfer)
    → AllProper ts
    → AllProper (live_transfers d now ts)
unfolding live_transfers
live_transfers-AllProper d now [] h = tt
live_transfers-AllProper d now ((k, u) ∷ ts) (q, h) =
    elim (leb (timeout_of d k) (now - u.last_update_at))
      as (λ b.
        AllProper (if b then live_transfers d now ts else (k, u) ∷ live_transfers d now ts)) [
          | true ↦ live_transfers-AllProper d now ts h
          | false ↦ (q, live_transfers-AllProper d now ts h)
        ]

finish-AllProper :
    (spec : PagedRouteSpec) (ts : Dict PagedTransferKey PagedTransfer) (key : PagedTransferKey)
    (msg : Members) (route : RouteKey) (total id : ℕ) (payload : Members) (r : Received)
    (calls : List ℕ)
    → AllProper ts
    → Sound spec total (lookup key ts) id payload r
    → AllProper (finish ts key msg route (r, calls)).transfers
finish-AllProper spec ts key msg route total id payload mismatch calls h s =
    erase-AllProper key ts h
finish-AllProper spec ts key msg route total id payload duplicate calls h s = h
finish-AllProper spec ts key msg route total id payload (waits t) calls h s =
    let (_, _, (proper, _, _)) = s in insert-AllProper key t ts proper h
finish-AllProper spec ts key msg route total id payload (merged _ out) calls h s =
    erase-AllProper key ts h

-- `positive` gives numbers from 1.
positive-pos : (v : Json) (n : ℕ) → positive v ≡ some n → 1 ≤ n
positive-pos v n h = by_int (as_int v) h
  where
    by_int :
        (z : Option ℤ)
        → (elim z [
          | none ↦ none
          | some y ↦ elim y [ pos n ↦ (if n == 0 then none else some n) | negsuc _ ↦ none ]
        ])
          ≡ some n
        → 1 ≤ n
    by_int none h = cc
    by_int (some (negsuc m)) h = cc
    by_int (some (pos m)) h = ground arith

take_block-AllProper :
    (spec : PagedRouteSpec) (ts : Dict PagedTransferKey PagedTransfer) (key : PagedTransferKey)
    (msg : Members) (route : RouteKey) (now : ℕ) (payload : Members) (id total : Option ℕ)
    → AllProper ts
    → ((n : ℕ) → id ≡ some n → 1 ≤ n)
    → AllProper (take_block spec ts key msg route now payload id total).transfers
take_block-AllProper spec ts key msg route now payload none total h low = h
take_block-AllProper spec ts key msg route now payload (some n) none h low = h
take_block-AllProper spec ts key msg route now payload (some n) (some total) h low =
    elim (Bool-cases (ltb total n)) [
      | inl e ↦ rw e h
      | inr e ↦ rw e (
          let r = receive_block spec key (lookup key ts) now n total payload in
          finish-AllProper spec ts key msg route total n payload r.0 r.1 h (
            receive_block-Sound spec key (lookup key ts) now n total payload
              (lookup-AllProper key ts h) (low n refl) (at_most total n e)))
    ]
  where
    at_most : (a b : ℕ) → ltb a b ≡ false → b ≤ a
    at_most a b e = ground arith

reassemble_with-AllProper :
    (d : Dispatcher) (msg : Members) (route : RouteKey) (now : ℕ) (spec : Option PagedRouteSpec)
    (key : Option PagedTransferKey) (parts : Option (Members × Members))
    → AllProper d.paged_transfers
    → AllProper (reassemble_with d msg route now spec key parts).transfers
reassemble_with-AllProper d msg route now none key parts h = h
reassemble_with-AllProper d msg route now (some spec) none parts h = h
reassemble_with-AllProper d msg route now (some spec) (some key) none h = h
reassemble_with-AllProper d msg route now (some spec) (some key) (some (domain_map, payload)) h =
    elim (Bool-cases
      (is_auth_error (get "error_code" domain_map) || is_auth_error (get "error_code" payload))) [
        | inl e ↦ rw e (erase-AllProper key d.paged_transfers h)
        | inr e ↦ rw e (
            take_block-AllProper spec d.paged_transfers key msg route now payload
              (positive (get "block_id" payload)) (positive (get "block_count" payload)) h
              (positive-pos (get "block_id" payload)))
      ]

correlate-transfers :
    (d : Dispatcher) (k : MessageKind) (seq : Option ℕ)
    → (correlate d k seq).0.paged_transfers ≡ d.paged_transfers
unfolding correlate match_pending
correlate-transfers d MessageKind.broadcast seq = refl
correlate-transfers d MessageKind.unknown seq = refl
correlate-transfers d MessageKind.directed none = refl
correlate-transfers d MessageKind.directed (some n) = refl

deliver-dispatcher :
    (handle : ℕ → Members → DispatchContext → Option Bool) (preview : Members → String)
    (d : Dispatcher) (msg : Members) (ctx : DispatchContext) (errors : List DispatchError)
    (requests : List ℕ) (m : Option Members)
    → (deliver handle preview d msg ctx errors requests m).dispatcher ≡ d
unfolding deliver
deliver-dispatcher handle preview d msg ctx errors requests none = refl
deliver-dispatcher handle preview d msg ctx errors requests (some m) = refl

-- Whatever message is dispatched, every transfer that is kept stays proper: distinct block ids
-- between 1 and its total, and never all of them.
pub dispatch-AllProper :
    (handle : ℕ → Members → DispatchContext → Option Bool) (preview : Members → String)
    (expire_now now : ℕ) (d : Dispatcher) (msg : Members)
    → AllProper d.paged_transfers
    → AllProper (dispatch handle preview expire_now now d msg).dispatcher.paged_transfers
unfolding dispatch expire_paged_transfers maybe_reassemble_paged
dispatch-AllProper handle preview expire_now now d msg h =
    let paged = paged_message expire_now now d msg in
    let ctx = context_of d msg in
    let matched = (correlate d (classify_kind msg).1 (classify_kind msg).0).0 in
    let live : AllProper (live_state expire_now d msg).paged_transfers =
      live_transfers-AllProper matched expire_now matched.paged_transfers (
        subst AllProper (sym (correlate-transfers d (classify_kind msg).1 (classify_kind msg).0))
          h) in
    let kept : AllProper paged.transfers =
      reassemble_with-AllProper (live_state expire_now d msg) msg ctx.route now
        (lookup ctx.route (live_state expire_now d msg).paged_routes)
        (paged_transfer_key ctx.route ctx.session_id ctx.response_match)
        (extract_paged_payload msg ctx.route) live in
    subst (λ s. AllProper s.paged_transfers)
      (sym (
        deliver-dispatcher handle preview (paged_state expire_now now d msg) msg ctx
          ((extract_route msg).1 ++ (classify_kind msg).2) paged.requests paged.message))
      kept
