-- ===== src/Dispatch/RootEmpty.antt =====
-- `dispatch` of src/elke27_lib/dispatcher_loop.py on a message that holds meta keys only.
use elke.Base.{
  ℕ, ◌≡◌, refl, ap, ◌∙◌, Bool, false, Option, none, some, List, [], ◌∷◌, ◌++◌, append-nil,
  append_assoc, String,
}
use elke.Base.Dict.{pair_key, lookup}
use elke.Dispatch.Json.{Members, has}
use elke.Dispatch.Route.{
  RouteKey, MessageKind, DispatchError, code_text, root_non_meta, root_route,
  is_root_error_envelope, extract_route, classify_kind,
}
use elke.Dispatch.Routing.{no_error_code}
use elke.Dispatch.State.{Dispatcher, handlers_of}
use elke.Dispatch.Run.{
  DispatchContext, call_handlers, call_routes, fan_out, dispatch_normal, error_message, emit_errors,
  deliver, dispatch, context_of, live_state, paged_message, paged_state,
}
use elke.Dispatch.FanOut.{names, names-append, names-call_handlers, correlate-handlers, unpaged}

-- The handlers of several routes, in order.
abbrev pub all_handlers : Dispatcher → List RouteKey → List ℕ
all_handlers d [] = []
all_handlers d (r ∷ rs) = handlers_of d r ++ all_handlers d rs

-- The error channel's routes for some errors.
abbrev pub error_routes : List DispatchError → List RouteKey
error_routes [] = []
error_routes (e ∷ es) = ("__error__", code_text e.code) ∷ ("__error__", "__all__") ∷ error_routes es

handlers_of-handlers :
    (d' d : Dispatcher) (r : RouteKey)
    → d'.handlers ≡ d.handlers
    → handlers_of d' r ≡ handlers_of d r
unfolding handlers_of
handlers_of-handlers d' d r same = ap (λ hs. handlers_of (record d { handlers = hs }) r) same

module _ (handle : ℕ → Members → DispatchContext → Option Bool) (preview : Members → String)
    (d : Dispatcher) where
  names-call_routes :
      (d' : Dispatcher) (rs : List RouteKey) (msg : Members) (ctx : DispatchContext)
      → d'.handlers ≡ d.handlers
      → names (call_routes handle preview d' rs msg ctx).1 ≡ all_handlers d rs
  names-call_routes d' [] msg ctx same = refl
  names-call_routes d' (r ∷ rs) msg ctx same =
      names-append (call_handlers handle (handlers_of d' r) msg ctx).1
        (call_routes handle preview d' rs msg ctx).1
      ∙ ap (λ hs. hs ++ names (call_routes handle preview d' rs msg ctx).1)
          (names-call_handlers handle msg ctx (handlers_of d' r) ∙ handlers_of-handlers d' d r same)
      ∙ ap (◌++◌ (handlers_of d r)) (names-call_routes d' rs msg ctx same)

  names-emit_errors :
      (d' : Dispatcher) (msg : Members) (ctx : DispatchContext) (es : List DispatchError)
      → d'.handlers ≡ d.handlers
      → names (emit_errors handle preview d' msg ctx es) ≡ all_handlers d (error_routes es)
  unfolding emit_errors
  names-emit_errors d' msg ctx [] same = refl
  names-emit_errors d' msg ctx (e ∷ es) same =
      let err_msg = error_message preview msg ctx e in
      let err_ctx = record ctx { route = ("__error__", code_text e.code) } in
      let one : RouteKey = ("__error__", code_text e.code) in
      let all : RouteKey = ("__error__", "__all__") in
      names-append (call_handlers handle (handlers_of d' one) err_msg err_ctx).1 (
        (call_handlers handle (handlers_of d' all) err_msg err_ctx).1
        ++ emit_errors handle preview d' msg ctx es)
      ∙ ap (λ x. names (call_handlers handle (handlers_of d' one) err_msg err_ctx).1 ++ x)
          (names-append (call_handlers handle (handlers_of d' all) err_msg err_ctx).1
            (emit_errors handle preview d' msg ctx es))
      ∙ ap
          (λ x.
            x
            ++ (names (call_handlers handle (handlers_of d' all) err_msg err_ctx).1
                ++ names (emit_errors handle preview d' msg ctx es)))
          (names-call_handlers handle err_msg err_ctx (handlers_of d' one)
            ∙ handlers_of-handlers d' d one same)
      ∙ ap (λ x. handlers_of d one ++ (x ++ names (emit_errors handle preview d' msg ctx es)))
          (names-call_handlers handle err_msg err_ctx (handlers_of d' all)
            ∙ handlers_of-handlers d' d all same)
      ∙ ap (λ x. handlers_of d one ++ (handlers_of d all ++ x))
          (names-emit_errors d' msg ctx es same)

  -- The handlers that a delivered message reaches, from its route and its errors.
  names-deliver :
      (d' : Dispatcher) (msg : Members) (ctx : DispatchContext) (errors : List DispatchError)
      (requests : List ℕ) (m : Option Members) (x : Members)
      → d'.handlers ≡ d.handlers
      → m ≡ some x
      → names (deliver handle preview d' msg ctx errors requests m).called
        ≡ all_handlers d (fan_out ctx.route) ++ all_handlers d (error_routes errors)
  unfolding deliver dispatch_normal
  names-deliver d' msg ctx errors requests none x same e = cc
  names-deliver d' msg ctx errors requests (some m) x same e =
      names-append (call_routes handle preview d' (fan_out ctx.route) m ctx).1
        (emit_errors handle preview d' m ctx errors)
      ∙ ap (λ l. l ++ names (emit_errors handle preview d' m ctx errors))
          (names-call_routes d' (fan_out ctx.route) m ctx same)
      ∙ ap (◌++◌ (all_handlers d (fan_out ctx.route))) (names-emit_errors d' m ctx errors same)

-- On a route that is not paged, the handlers called, in their order, are those of the routes of
-- `_dispatch_normal`, and then, for each error, those of its code and those of all errors.
pub dispatch-names :
    (handle : ℕ → Members → DispatchContext → Option Bool) (preview : Members → String)
    (expire_now now : ℕ) (d : Dispatcher) (msg : Members)
    → lookup (extract_route msg).0 d.paged_routes ≡ none
    → names (dispatch handle preview expire_now now d msg).called
      ≡ all_handlers d (fan_out (extract_route msg).0)
        ++ all_handlers d (error_routes ((extract_route msg).1 ++ (classify_kind msg).2))
unfolding dispatch
dispatch-names handle preview expire_now now d msg plain =
    let kept =
      correlate-handlers handle preview expire_now now d msg (classify_kind msg).1
        (classify_kind msg).0 in
    let paged = paged_message expire_now now d msg in
    let ctx = context_of d msg in
    names-deliver handle preview d (paged_state expire_now now d msg) msg ctx
      ((extract_route msg).1 ++ (classify_kind msg).2) paged.requests paged.message msg kept.0
      (unpaged handle preview expire_now now d msg (live_state expire_now d msg) ctx.route
        ctx.session_id ctx.response_match kept.1 plain)

-- A message of meta keys only, with no `seq`, whose route is not paged, calls the handlers of ("__root__", "__root__") twice
-- over, behind those of ("__root__", "__empty__") and before those of the error.
pub dispatch-root_empty :
    (handle : ℕ → Members → DispatchContext → Option Bool) (preview : Members → String)
    (expire_now now : ℕ) (d : Dispatcher) (msg : Members)
    → root_non_meta msg ≡ []
    → has "seq" msg ≡ false
    → lookup ("__root__", "__empty__") d.paged_routes ≡ none
    → names (dispatch handle preview expire_now now d msg).called
      ≡ handlers_of d ("__root__", "__empty__")
        ++ (handlers_of d ("__root__", "__root__")
            ++ (handlers_of d ("__root__", "__root__")
                ++ (handlers_of d ("__error__", "root_empty")
                    ++ handlers_of d ("__error__", "__all__"))))
unfolding extract_route classify_kind fan_out
dispatch-root_empty handle preview expire_now now d msg bare no_seq plain =
    let envelope : is_root_error_envelope msg ≡ false =
      no_error_code msg (rw bare (λ h. elim h [ ])) in
    let route : extract_route msg ≡ root_route msg [] = rw envelope (ap (root_route msg) bare) in
    let kind : classify_kind msg ≡ (none, MessageKind.unknown, []) = rw no_seq refl in
    dispatch-names handle preview expire_now now d msg
      (ap (λ q. lookup q d.paged_routes) (ap (λ x. x.0) route) ∙ plain)
    ∙ ap
        (λ q.
          all_handlers d (fan_out q.0)
          ++ all_handlers d (error_routes (q.1 ++ (classify_kind msg).2)))
        route
    ∙ ap
        (λ k.
          all_handlers d (fan_out ("__root__", "__empty__"))
          ++ all_handlers d (error_routes ((root_route msg []).1 ++ k.2)))
        kind
    ∙ tidy (handlers_of d ("__root__", "__empty__")) (handlers_of d ("__root__", "__root__"))
        (handlers_of d ("__error__", "root_empty")) (handlers_of d ("__error__", "__all__"))
  where
    tidy :
        (a b c e : List ℕ)
        → (a ++ (b ++ (b ++ []))) ++ (c ++ (e ++ [])) ≡ a ++ (b ++ (b ++ (c ++ e)))
    tidy a b c e = simp (append-nil, append_assoc)
