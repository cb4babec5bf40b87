-- ===== src/Dispatch/Correlation.antt =====
-- How `dispatch` of src/elke27_lib/dispatcher_loop.py matches a message with a pending request.
use elke.Base.{
  ℕ, ◌<◌, ◌≡◌, ◌≢◌, refl, ap, ◌∙◌, Bool, true, Option, none, some, List, [], String, arith,
  ne→==_false,
}
use elke.Base.Dict.{nat_key, lookup, lookup-erase, same_refl, same_ne}
use elke.Dispatch.Json.{pos, int, Members, get, has, as_int}
use elke.Dispatch.Route.{MessageKind, DispatchError, classify_kind, kind_of}
use elke.Dispatch.State.{PendingRequest, Dispatcher, match_pending}
use elke.Dispatch.Paged.{expire_paged_transfers}
use elke.Dispatch.Run.{response, unsolicited, DispatchContext, correlate, deliver, dispatch}

-- A message whose root `seq` is the positive number `n`.
pub record IsDirected (msg : Members) (n : ℕ) : Type 0 where
  pub has_seq : has "seq" msg ≡ true
  pub seq_value : get "seq" msg ≡ int (pos n)
  pub positive : 0 < n

classify_kind-IsDirected :
    (msg : Members) (n : ℕ)
    → IsDirected msg n
    → classify_kind msg ≡ (some n, MessageKind.directed, [])
unfolding classify_kind
classify_kind-IsDirected msg n h = rw h.has_seq (
    ap (λ j. kind_of j (as_int j)) h.seq_value
    ∙ rw (ne→==_false n 0 (λ e. absurd (omega (arith, h.positive)))) refl)

module _ (handle : ℕ → Members → DispatchContext → Option Bool) (preview : Members → String)
    (expire_now now : ℕ) where
  deliver-same :
      (d : Dispatcher) (msg : Members) (ctx : DispatchContext) (errors : List DispatchError)
      (requests : List ℕ) (m : Option Members)
      → ((deliver handle preview d msg ctx errors requests m).dispatcher ≡ d)
        × ((deliver handle preview d msg ctx errors requests m).result.context ≡ ctx)
  unfolding deliver
  deliver-same d msg ctx errors requests none = (refl, refl)
  deliver-same d msg ctx errors requests (some paged_msg) = (refl, refl)

  -- What `dispatch` keeps of the correlation.
  dispatch-correlate :
      (d : Dispatcher) (msg : Members) (n : ℕ)
      → IsDirected msg n
      → let found = correlate d MessageKind.directed (some n) in
        let done = dispatch handle preview expire_now now d msg in
        (done.dispatcher.pending ≡ found.0.pending)
        × (done.result.context.classification ≡ found.1)
        × (done.result.context.response_match ≡ found.2)
        × (done.result.context.seq ≡ some n)
  unfolding dispatch expire_paged_transfers
  dispatch-correlate d msg n h =
      let e = classify_kind-IsDirected msg n h in
      (
        ap (λ x. x.pending) (deliver-same _ _ _ _ _ _).0
            ∙ ap (λ k. (correlate d k.1 k.0).0.pending) e,
        ap (λ x. x.classification) (deliver-same _ _ _ _ _ _).1
            ∙ ap (λ k. (correlate d k.1 k.0).1) e,
        ap (λ x. x.response_match) (deliver-same _ _ _ _ _ _).1
            ∙ ap (λ k. (correlate d k.1 k.0).2) e,
        ap (λ x. x.seq) (deliver-same _ _ _ _ _ _).1 ∙ ap (λ k. k.0) e,
      )

-- A positive `seq` that is pending is a response: `dispatch` reports it with its request, whatever
-- else the message holds, takes that request out, and leaves every other pending request.
pub dispatch-response :
    (handle : ℕ → Members → DispatchContext → Option Bool) (preview : Members → String)
    (expire_now now : ℕ) (d : Dispatcher) (msg : Members) (n : ℕ) (p : PendingRequest)
    → IsDirected msg n
    → lookup n d.pending ≡ some p
    → let done = dispatch handle preview expire_now now d msg in
      (done.result.context.classification ≡ response)
      × (done.result.context.response_match ≡ some p)
      × (lookup n done.dispatcher.pending ≡ none)
      × ((j : ℕ) → j ≢ n → lookup j done.dispatcher.pending ≡ lookup j d.pending)
unfolding correlate match_pending
dispatch-response handle preview expire_now now d msg n p h found =
    let (pending, class, matched, _) = dispatch-correlate handle preview expire_now now d msg n h in
    let rest = λ (j : ℕ). ap (lookup j) pending ∙ lookup-erase j n d.pending in
    (
      class ∙ rw found refl,
      matched ∙ rw found refl,
      rest n ∙ rw (same_refl n) refl,
      λ j other. rest j ∙ rw (same_ne j n other) refl,
    )

-- The match is made once: a second message with the same positive `seq`, whatever its content, is
-- unsolicited, unless the request is added again in between.
pub dispatch-dispatch_unsolicited :
    (handle : ℕ → Members → DispatchContext → Option Bool) (preview : Members → String)
    (expire_now now later_expire later : ℕ) (d : Dispatcher) (msg again : Members) (n : ℕ)
    → IsDirected msg n
    → IsDirected again n
    → let first = dispatch handle preview expire_now now d msg in
      let second = dispatch handle preview later_expire later first.dispatcher again in
      (second.result.context.classification ≡ unsolicited)
      × (second.result.context.response_match ≡ none)
unfolding correlate match_pending
dispatch-dispatch_unsolicited handle preview expire_now now later_expire later d msg again n h h' =
    let first = dispatch handle preview expire_now now d msg in
    let (pending, _, _, _) = dispatch-correlate handle preview expire_now now d msg n h in
    let (_, class, matched, _) =
      dispatch-correlate handle preview later_expire later first.dispatcher again n h' in
    let gone : lookup n first.dispatcher.pending ≡ none =
      ap (lookup n) pending ∙ lookup-erase n n d.pending ∙ rw (same_refl n) refl in
    (class ∙ rw gone refl, matched ∙ rw gone refl)
