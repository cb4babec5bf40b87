-- ===== src/Dispatch/State.antt =====
-- The state of `Dispatcher` in src/elke27_lib/dispatcher_loop.py, and its registration methods.
-- Handlers are named by numbers; times are numbers of clock ticks.
use elke.Base.{
  ℕ, ◌≡◌, refl, ◌↔◌, Bool, true, false, ◌&&◌, Option, none, some, List, [], ◌∷◌, ◌++◌, String,
  arith, ◌==◌, ==_iff, if◌then◌else◌,
}
use elke.Base.Dict.{Key, Dict, nat_key, pair_key, lookup, insert, erase}
use elke.Dispatch.Json.{ℤ, pos, negsuc, Members}
use elke.Dispatch.Route.{RouteKey}

pub record PagedTransferKey : Type 0 where
  pub session_id : Option ℤ
  pub transfer_id : ℕ
  pub route : RouteKey

abbrev same_int : ℤ → ℤ → Bool
same_int (pos a) (pos b) = a == b
same_int (negsuc a) (negsuc b) = a == b
same_int _ _ = false

abbrev same_option : Option ℤ → Option ℤ → Bool
same_option none none = true
same_option (some a) (some b) = same_int a b
same_option _ _ = false

same_option_iff : (a b : Option ℤ) → (same_option a b ≡ true) ↔ (a ≡ b)
same_option_iff none none = (λ _. refl, λ _. refl)
same_option_iff none (some b) = (λ h. cc, λ h. cc)
same_option_iff (some a) none = (λ h. cc, λ h. cc)
same_option_iff (some (pos a)) (some (pos b)) = ground (arith, ==_iff a b)
same_option_iff (some (pos a)) (some (negsuc b)) = (λ h. cc, λ h. cc)
same_option_iff (some (negsuc a)) (some (pos b)) = (λ h. cc, λ h. cc)
same_option_iff (some (negsuc a)) (some (negsuc b)) = ground (arith, ==_iff a b)

abbrev same_transfer : PagedTransferKey → PagedTransferKey → Bool
same_transfer a b =
    same_option a.session_id b.session_id
    && (a.transfer_id == b.transfer_id && pair_key.same a.route b.route)

pub same_transfer_iff : (a b : PagedTransferKey) → (same_transfer a b ≡ true) ↔ (a ≡ b)
same_transfer_iff a b = (
  λ h.
      both (same_option a.session_id b.session_id) (a.transfer_id == b.transfer_id)
        (pair_key.same a.route b.route) refl refl refl h,
  λ e.
      all_true (same_option a.session_id b.session_id) (a.transfer_id == b.transfer_id)
        (pair_key.same a.route b.route)
        ((same_option_iff a.session_id b.session_id).1 (λ i. (e i).session_id))
        ((==_iff a.transfer_id b.transfer_id).1 (λ i. (e i).transfer_id))
        ((pair_key.same_iff a.route b.route).1 (λ i. (e i).route)),
)
  where
    all_true : (p q r : Bool) → p ≡ true → q ≡ true → r ≡ true → (p && (q && r)) ≡ true
    all_true true true r e f h = h
    all_true true false r e f h = cc
    all_true false q r e f h = cc

    both :
        (p q r : Bool)
        → same_option a.session_id b.session_id ≡ p
        → (a.transfer_id == b.transfer_id) ≡ q
        → pair_key.same a.route b.route ≡ r
        → (p && (q && r)) ≡ true
        → a ≡ b
    both true true true e f g h = λ i. record {
      session_id = (same_option_iff a.session_id b.session_id).0 e i;
      transfer_id = (==_iff a.transfer_id b.transfer_id).0 f i;
      route = (pair_key.same_iff a.route b.route).0 g i;
    }
    both true true false e f g h = cc
    both true false r e f g h = cc
    both false q r e f g h = cc

instance abbrev pub transfer_key : Key PagedTransferKey
transfer_key = record { same = same_transfer; same_iff = same_transfer_iff }

-- `opaque` counts only where it is a `PagedTransferKey`.
pub record PendingRequest : Type 0 where
  pub seq : ℕ
  pub expected_route : Option RouteKey
  pub opaque : Option PagedTransferKey

pub record PagedBlock : Type 0 where
  pub block_id : ℕ
  pub payload : Members

-- `request_block` tells whether it returns; the other way is an exception.
pub record PagedRouteSpec : Type 0 where
  pub merge_fn : List PagedBlock → ℕ → Members
  pub request_block : Option (ℕ → PagedTransferKey → Bool)
  pub timeout : ℕ

-- `total_count` is set where a transfer is made.
pub record PagedTransfer : Type 0 where
  pub total_count : ℕ
  pub last_update_at : ℕ
  pub received_blocks : Dict ℕ Members
  pub requested_blocks : List ℕ

pub record Dispatcher : Type 0 where
  pub handlers : Dict RouteKey (List ℕ)
  pub pending : Dict ℕ PendingRequest
  pub paged_routes : Dict RouteKey PagedRouteSpec
  pub paged_transfers : Dict PagedTransferKey PagedTransfer
  pub paged_timeout : ℕ

-- `self._handlers.get(route)`, where no list and an empty one are treated alike.
unfoldable pub handlers_of : Dispatcher → RouteKey → List ℕ
handlers_of d route = elim (lookup route d.handlers) [ none ↦ [] | some hs ↦ hs ]

unfoldable pub register : Dispatcher → RouteKey → ℕ → Dispatcher
unfolding handlers_of
register d route handler = record d {
  handlers = insert route (handlers_of d route ++ (handler ∷ [])) d.handlers;
}

unfoldable pub register_domain : Dispatcher → String → ℕ → Dispatcher
unfolding register
register_domain d domain handler = register d (domain, "__root__") handler

unfoldable pub register_paged : Dispatcher → RouteKey → PagedRouteSpec → Dispatcher
register_paged d route spec = record d { paged_routes = insert route spec d.paged_routes }

-- `list.remove`, of the first that is equal
abbrev remove : ℕ → List ℕ → List ℕ
remove h [] = []
remove h (x ∷ xs) = if x == h then xs else x ∷ remove h xs

-- The route is dropped with its last handler.
abbrev keep_handlers : RouteKey → List ℕ → Dict RouteKey (List ℕ) → Dict RouteKey (List ℕ)
keep_handlers route [] d = erase route d
keep_handlers route (h ∷ hs) d = insert route (h ∷ hs) d

unfoldable pub unregister : Dispatcher → RouteKey → ℕ → Dispatcher
unfolding handlers_of
unregister d route handler = elim (handlers_of d route) [
  | [] ↦ d
  | h ∷ hs ↦ record d { handlers = keep_handlers route (remove handler (h ∷ hs)) d.handlers }
]

unfoldable pub add_pending : Dispatcher → PendingRequest → Dispatcher
add_pending d p = record d { pending = insert p.seq p d.pending }

-- `match_pending` with `pop=True`
unfoldable pub match_pending : Dispatcher → ℕ → Dispatcher × Option PendingRequest
match_pending d seq = (record d { pending = erase seq d.pending }, lookup seq d.pending)

unfoldable pub drop_pending : Dispatcher → ℕ → Dispatcher
drop_pending d seq = record d { pending = erase seq d.pending }

unfoldable pub abort_paged_transfers : Dispatcher → Dispatcher
abort_paged_transfers d = record d { paged_transfers = [] }
