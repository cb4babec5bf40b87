-- ===== src/Kernel/Waiting/Ends.antt =====
-- What a loss of the connection and `close` leave in the queues of src/elke27_lib/kernel_loop.py.
use elke.Base.{
  ℕ, ◌≡◌, refl, ap, ◌∙◌, Bool, true, false, not, ◌&&◌, ◌||◌, Option, none, some, List, [], ◌∷◌,
  if◌then◌else◌,
}
use elke.Base.Dict.{nat_key}
use elke.Dispatch.State.{abort_paged_transfers}
use elke.Session.State.{SessionError}
use elke.Kernel.{QueuedRequest, Kernel, is_active}
use elke.Kernel.Scheduler.{Raised, fail_queued_command, mark_send_failed, is_idle}
use elke.Kernel.Scheduler.Failures.{complete_active}
use elke.Kernel.Calls.Ends.{
  closed_error, is_io_error, connection_lost, on_session_disconnected, notify, stop_keepalive,
  close_kernel,
}
use elke.Kernel.Calls.{
  has_session, drop_fire_and_forget_pending, drain_requests, fail_active, fail_each,
  signal_all_sent_events, fail_all_pending_commands, abort_requests,
}
use elke.Kernel.Progress.{is_empty, is_stuck}
use elke.Kernel.Waiting.{nothing_queued}

-- What fails requests leaves the queues as they are.
abbrev SameQueues : Kernel → Kernel → Type 0
SameQueues k k' =
    (k'.request_queue_high ≡ k.request_queue_high)
    × (k'.request_queue_normal ≡ k.request_queue_normal)

fail_each-SameQueues :
    (f : QueuedRequest → Kernel → Kernel)
    → ((item : QueuedRequest) (k : Kernel) → SameQueues k (f item k))
    → (items : List QueuedRequest) (k : Kernel) → SameQueues k (fail_each f items k)
unfolding fail_each
fail_each-SameQueues f same [] k = (refl, refl)
fail_each-SameQueues f same (item ∷ items) k =
    let (a, b) = same item k in
    let (c, d) = fail_each-SameQueues f same items (f item k) in (c ∙ a, d ∙ b)

fail_active-SameQueues : (exc : Raised) (k : Kernel) → SameQueues k (fail_active exc k)
unfolding fail_active
fail_active-SameQueues exc k =
    cases k.active_seq (is_idle k.request_state || k.active_released) k.active_released
  where
    cases :
        (o : Option ℕ) (b released : Bool)
        → SameQueues k (elim o [
          | none ↦ k
          | some seq ↦
              if b
              then k
              else if released
              then mark_send_failed seq exc k
              else complete_active
                  (λ after. after)
                  (record (mark_send_failed seq exc k) { active_released = false })
        ])
    cases none b released = (refl, refl)
    cases (some seq) true released = (refl, refl)
    cases (some seq) false true = (refl, refl)
    cases (some seq) false false = (refl, refl)

unqueued :
    (k : Kernel) → k.request_queue_high ≡ [] → k.request_queue_normal ≡ [] → is_stuck k ≡ false
unqueued k e f =
    ap
      (λ (hs : List QueuedRequest).
        is_idle k.request_state
        && (is_active k.session && not (is_empty hs && is_empty k.request_queue_normal)))
      e
    ∙ ap
        (λ (ns : List QueuedRequest).
          is_idle k.request_state && (is_active k.session && not (is_empty ns)))
        f
    ∙ nothing_queued (is_idle k.request_state) (is_active k.session)

-- The queues are empty behind each of the two ways to fail all requests.
pub abort_requests_unqueued :
    (exc : Raised) (k : Kernel)
    → ((abort_requests exc k).request_queue_high ≡ [])
      × ((abort_requests exc k).request_queue_normal ≡ [])
unfolding abort_requests drain_requests mark_send_failed
abort_requests_unqueued exc k =
    let drained = (drain_requests k).1 in
    let (a, b) = fail_active-SameQueues exc drained in
    let (c, d) =
      fail_each-SameQueues (λ item. mark_send_failed item.seq exc) (λ item k'. (refl, refl))
        (drain_requests k).0 (fail_active exc drained) in
    (c ∙ a, d ∙ b)

pub fail_all_pending_commands_unqueued :
    (exc : Raised) (k : Kernel)
    → ((fail_all_pending_commands exc k).request_queue_high ≡ [])
      × ((fail_all_pending_commands exc k).request_queue_normal ≡ [])
unfolding fail_all_pending_commands drain_requests fail_queued_command signal_all_sent_events
fail_all_pending_commands_unqueued exc k =
    let dropped = drop_fire_and_forget_pending k.fire_and_forget_pending_seqs k in
    let drained = (drain_requests dropped).1 in
    let (a, b) = fail_active-SameQueues exc drained in
    let (c, d) =
      fail_each-SameQueues (fail_queued_command exc) (λ item k'. (refl, refl))
        (drain_requests dropped).0 (fail_active exc drained) in
    (c ∙ a, d ∙ b)

pub close_rests : (k : Kernel) → is_stuck (close_kernel k) ≡ false
unfolding close_kernel
close_rests k = cases (has_session k.session)
  where
    exc : Raised
    exc = closed_error (has_session k.session)

    cases :
        (there : Bool)
        → is_stuck (
            if not there
            then record (fail_all_pending_commands exc k) { transport_retry = [] }
            else record (fail_all_pending_commands exc (stop_keepalive k)) {
              transport_retry = [];
              session = none;
              closing = true;
              closed_explicitly = true;
              connected = false;
            })
          ≡ false
    cases false =
        let (a, b) = fail_all_pending_commands_unqueued exc k in
        unqueued (record (fail_all_pending_commands exc k) { transport_retry = [] }) a b
    cases true =
        let (a, b) = fail_all_pending_commands_unqueued exc (stop_keepalive k) in
        unqueued
          (record (fail_all_pending_commands exc (stop_keepalive k)) {
            transport_retry = [];
            session = none;
            closing = true;
            closed_explicitly = true;
            connected = false;
          })
          a b

pub notify_rests :
    (es : List SessionError) (k : Kernel) → is_stuck k ≡ false → is_stuck (notify es k) ≡ false
unfolding on_session_disconnected
notify_rests [] k h = h
notify_rests (e ∷ es) k h = cases k.closing (k.closed_explicitly && is_io_error e) k.connected
  where
    left : Kernel
    left = record k { loop_calls = es }

    down : Kernel
    down = record left { connected = false }

    cases :
        (closing explicit up : Bool)
        → is_stuck (
            if closing
            then left
            else if explicit
            then left
            else if not up
            then down
            else abort_requests connection_lost
                (record down { dispatcher = abort_paged_transfers k.dispatcher }))
          ≡ false
    cases true explicit up = h
    cases false true up = h
    cases false false false = h
    cases false false true =
        let aborted = record down { dispatcher = abort_paged_transfers k.dispatcher } in
        let (a, b) = abort_requests_unqueued connection_lost aborted in
        unqueued (abort_requests connection_lost aborted) a b
