-- ===== src/Dispatch/FanOut.antt =====
-- Which handlers `dispatch` of src/elke27_lib/dispatcher_loop.py calls.
use text.Mathlib.Text.{◌==◌ as str_eq}
use elke.Base.{
  ℕ, ◌≡◌, ◌≢◌, refl, ap, ◌∙◌, Bool, true, false, ◌&&◌, ◌||◌, Option, none, some, List, [], ◌∷◌,
  ◌++◌, append-nil, String, if◌then◌else◌,
}
use elke.Base.Dict.{pair_key, string_key, lookup, same_ne}
use elke.Dispatch.Json.{ℤ, Members}
use elke.Dispatch.Route.{RouteKey, MessageKind, DispatchError, extract_route, classify_kind}
use elke.Dispatch.State.{PendingRequest, Dispatcher, handlers_of, match_pending}
use elke.Dispatch.Paged.{
  reassemble_with, paged_transfer_key, extract_paged_payload, maybe_reassemble_paged,
  expire_paged_transfers,
}
use elke.Dispatch.Run.{
  DispatchContext, Called, call_handlers, call_routes, correlate, fan_out, dispatch_normal,
  emit_errors, deliver, dispatch, context_of, live_state, paged_message, paged_state,
}

-- The calls that a list of handlers gets, in order.
abbrev pub calls_of : Members → DispatchContext → List ℕ → List Called
calls_of msg ctx [] = []
calls_of msg ctx (h ∷ hs) =
    record { handler = h; message = msg; context = ctx } ∷ calls_of msg ctx hs

abbrev pub names : List Called → List ℕ
names [] = []
names (c ∷ cs) = c.handler ∷ names cs

pub names-append : (xs ys : List Called) → names (xs ++ ys) ≡ names xs ++ names ys
names-append [] ys = refl
names-append (x ∷ xs) ys = ap (◌∷◌ x.handler) (names-append xs ys)

-- Whether some handler answers with true; an exception counts as no.
abbrev pub any_handled :
    (ℕ → Members → DispatchContext → Option Bool) → Members → DispatchContext → List ℕ → Bool
any_handled handle msg ctx [] = false
any_handled handle msg ctx (h ∷ hs) =
    let handled : Bool = elim (handle h msg ctx) [ none ↦ false | some b ↦ b ] in
    handled || any_handled handle msg ctx hs

module _ (handle : ℕ → Members → DispatchContext → Option Bool) (msg : Members)
    (ctx : DispatchContext) where
  call_handlers_lem :
      (hs : List ℕ)
      → call_handlers handle hs msg ctx ≡ (any_handled handle msg ctx hs, calls_of msg ctx hs)
  call_handlers_lem [] = refl
  call_handlers_lem (h ∷ hs) =
      let answer : Bool = elim (handle h msg ctx) [ none ↦ false | some b ↦ b ] in
      ap (λ r. (answer || r.0, record { handler = h; message = msg; context = ctx } ∷ r.1))
        (call_handlers_lem hs)

  pub names-call_handlers : (hs : List ℕ) → names (call_handlers handle hs msg ctx).1 ≡ hs
  names-call_handlers [] = refl
  names-call_handlers (h ∷ hs) = ap (◌∷◌ h) (names-call_handlers hs)

-- A route with no handlers besides its own.
abbrev pub IsOrdinary : RouteKey → Type 0
IsOrdinary (domain, name) = (name ≢ "__empty__") × (name ≢ "__value__") × (name ≢ "__multi__")

fan_out-IsOrdinary : (r : RouteKey) → IsOrdinary r → fan_out r ≡ r ∷ []
unfolding fan_out
fan_out-IsOrdinary (domain, name) (a, b, c) =
    let e = same_ne name "__empty__" a in
    let v = same_ne name "__value__" b in
    let m = same_ne name "__multi__" c in rw e (rw v (rw m (none_extra (str_eq domain "__root__"))))
  where
    none_extra :
        (b : Bool)
        → ◌≡◌ {A = List RouteKey}
            ((domain, name)
              ∷ ([] ++ (if b && (false || false) then ("__root__", "__root__") ∷ [] else [])))
            ((domain, name) ∷ [])
    none_extra true = refl
    none_extra false = refl

module _ (handle : ℕ → Members → DispatchContext → Option Bool) (preview : Members → String)
    (expire_now now : ℕ) (d : Dispatcher) (msg : Members) where
  pub correlate-handlers :
      (k : MessageKind) (seq : Option ℕ)
      → ((correlate d k seq).0.handlers ≡ d.handlers)
        × ((correlate d k seq).0.paged_routes ≡ d.paged_routes)
  unfolding correlate match_pending
  correlate-handlers MessageKind.broadcast seq = (refl, refl)
  correlate-handlers MessageKind.unknown seq = (refl, refl)
  correlate-handlers MessageKind.directed none = (refl, refl)
  correlate-handlers MessageKind.directed (some n) = (refl, refl)

  pub unpaged :
      (d' : Dispatcher) (r : RouteKey) (session_id : Option ℤ) (match : Option PendingRequest)
      → d'.paged_routes ≡ d.paged_routes
      → lookup r d.paged_routes ≡ none
      → (maybe_reassemble_paged d' msg r session_id match now).message ≡ some msg
  unfolding maybe_reassemble_paged
  unpaged d' r session_id match same plain =
      ap
        (λ s.
          (reassemble_with d' msg r now s (paged_transfer_key r session_id match)
            (extract_paged_payload msg r)).message)
        (ap (lookup r) same ∙ plain)

  -- The calls of one delivery with no errors, on an ordinary route.
  deliver-ordinary :
      (d' : Dispatcher) (ctx : DispatchContext) (errors : List DispatchError) (requests : List ℕ)
      (m : Option Members) (r : RouteKey)
      → d'.handlers ≡ d.handlers
      → m ≡ some msg
      → ctx.route ≡ r
      → IsOrdinary r
      → errors ≡ []
      → let done = deliver handle preview d' msg ctx errors requests m in
        (done.called ≡ calls_of msg done.result.context (handlers_of d r))
        × (done.result.handled ≡ any_handled handle msg done.result.context (handlers_of d r))
  unfolding deliver dispatch_normal emit_errors
  deliver-ordinary d' ctx errors requests none r same e route plain clean = cc
  deliver-ordinary d' ctx errors requests (some m) r same e route plain clean =
      let whole : m ≡ msg = cc in
      let here : handlers_of d' r ≡ handlers_of d r = ap (λ hs. of_dict hs r) same in
      let run : call_routes handle preview d' (fan_out ctx.route) m ctx ≡ (
        any_handled handle msg ctx (handlers_of d r) || false,
        calls_of msg ctx (handlers_of d r) ++ [],
      ) =
        ap (λ q. call_routes handle preview d' q m ctx)
          (ap fan_out route ∙ fan_out-IsOrdinary r plain)
        ∙ ap (λ x. call_routes handle preview d' (r ∷ []) x ctx) whole
        ∙ ap (λ c. (c.0 || false, c.1 ++ []))
            (call_handlers_lem handle msg ctx (handlers_of d' r)
              ∙ ap (λ hs. (any_handled handle msg ctx hs, calls_of msg ctx hs)) here) in
      (
        ap (λ c. c.1 ++ emit_errors handle preview d' m ctx errors) run
            ∙ ap
                (λ es.
                  (calls_of msg ctx (handlers_of d r) ++ [])
                  ++ emit_errors handle preview d' m ctx es)
                clean
            ∙ append-nil _
            ∙ append-nil _,
        ap (λ c. c.0) run ∙ or_false (any_handled handle msg ctx (handlers_of d r)),
      )
    where
      of_dict : List (RouteKey × List ℕ) → RouteKey → List ℕ
      of_dict hs r = handlers_of (record d { handlers = hs }) r

      or_false : (b : Bool) → (b || false) ≡ b
      or_false true = refl
      or_false false = refl

-- A message with no routing error, on a route of its own that is not paged, goes to the handlers
-- registered for that route and to no others: each is called once, in the order of registration,
-- with the whole message and the reported context, and the message counts as handled just if one
-- of them answers true.
pub dispatch-handlers :
    (handle : ℕ → Members → DispatchContext → Option Bool) (preview : Members → String)
    (expire_now now : ℕ) (d : Dispatcher) (msg : Members) (r : RouteKey)
    → (extract_route msg).0 ≡ r
    → IsOrdinary r
    → (extract_route msg).1 ++ (classify_kind msg).2 ≡ []
    → lookup r d.paged_routes ≡ none
    → let done = dispatch handle preview expire_now now d msg in
      (done.called ≡ calls_of msg done.result.context (handlers_of d r))
      × (done.result.handled ≡ any_handled handle msg done.result.context (handlers_of d r))
unfolding dispatch expire_paged_transfers
dispatch-handlers handle preview expire_now now d msg r route plain clean unpaged_route =
    let kept =
      correlate-handlers handle preview expire_now now d msg (classify_kind msg).1
        (classify_kind msg).0 in
    let paged = paged_message expire_now now d msg in
    let ctx = context_of d msg in
    let whole : paged.message ≡ some msg =
      ap
        (λ q.
          (maybe_reassemble_paged (live_state expire_now d msg) msg q ctx.session_id
            ctx.response_match now).message)
        route
      ∙ unpaged handle preview expire_now now d msg (live_state expire_now d msg) r ctx.session_id
          ctx.response_match kept.1 unpaged_route in
    deliver-ordinary handle preview expire_now now d msg (paged_state expire_now now d msg) ctx
      ((extract_route msg).1 ++ (classify_kind msg).2) paged.requests paged.message r kept.0 whole
      route plain clean
