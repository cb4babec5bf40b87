-- ===== src/Kernel/Closing/Over.antt =====
-- `close` and a lost connection of src/elke27_lib/kernel_loop.py leave nobody waiting.
use elke.Dispatch.State.{abort_paged_transfers}
use elke.Session.State.{SessionError}
use elke.Base.{
  ℕ, ◌≡◌, refl, Bool, true, false, not, ◌&&◌, ◌||◌, Option, none, some, List, [], ◌∷◌,
  if◌then◌else◌, inl,
}
use elke.Base.Dict.{nat_key, lookup}
use elke.Pending.{PendingResponse, PendingResponseManager}
use elke.Pending.FailAll.{WillSettle}
use elke.Kernel.{QueuedRequest, Kernel}
use elke.Kernel.Scheduler.{Raised, mark_send_failed, is_idle}
use elke.Kernel.Scheduler.Failures.{complete_active}
use elke.Kernel.Calls.Ends.{
  closed_error, is_io_error, on_session_disconnected, connection_lost, stop_keepalive, close_kernel,
}
use elke.Kernel.Calls.{
  drain_requests, fail_active, fail_each, fail_all_pending_commands, abort_requests, has_session,
}
use elke.Kernel.Waiting.Ends.{abort_requests_unqueued, fail_all_pending_commands_unqueued}
use elke.Kernel.Closing.{AwaitedIn, abort_requests-WillSettle, fail_all_pending_commands-WillSettle}

-- The future of an awaited reply is done once the event loop has run its callbacks.
abbrev pub Settles : Option PendingResponse → PendingResponseManager → Type 0
Settles none m = Unit
Settles (some entry) m = WillSettle entry.future m

-- Nothing is left of the requests of the first kernel in the second: no queue and no waiting retry has
-- one, and whoever waited for a reply has an outcome.
pub record IsOver (before after : Kernel) : Type 0 where
  pub no_high : after.request_queue_high ≡ []
  pub no_normal : after.request_queue_normal ≡ []
  pub no_retry : after.transport_retry ≡ []
  pub done : (j : ℕ) → Settles (lookup j before.pending_responses.pending) after.pending_responses

by_entry :
    (o : Option PendingResponse) (m : PendingResponseManager)
    → ((entry : PendingResponse) → o ≡ some entry → WillSettle entry.future m)
    → Settles o m
by_entry none m h = tt
by_entry (some entry) m h = h entry refl

fail_each_no_retry :
    (exc : Raised) (items : List QueuedRequest) (k : Kernel)
    → k.transport_retry ≡ []
    → (fail_each (λ item. mark_send_failed item.seq exc) items k).transport_retry ≡ []
unfolding fail_each mark_send_failed
fail_each_no_retry exc [] k e = e
fail_each_no_retry exc (item ∷ items) k e =
    fail_each_no_retry exc items (mark_send_failed item.seq exc k) e

fail_active_no_retry :
    (exc : Raised) (k : Kernel) → k.transport_retry ≡ [] → (fail_active exc k).transport_retry ≡ []
unfolding fail_active
fail_active_no_retry exc k e =
    cases k.active_seq (is_idle k.request_state || k.active_released) k.active_released
  where
    cases :
        (o : Option ℕ) (b released : Bool)
        → (λ (k' : Kernel). k'.transport_retry ≡ [])
            (elim o [
              | none ↦ k
              | some seq ↦
                  if b
                  then k
                  else if released
                  then mark_send_failed seq exc k
                  else complete_active
                      (λ after. after)
                      (record (mark_send_failed seq exc k) { active_released = false })
            ])
    cases none b released = e
    cases (some seq) true released = e
    cases (some seq) false true = e
    cases (some seq) false false = e

-- Nobody is left waiting after `close`, in whatever state the kernel is: the queues are empty, no retry
-- waits, and the future of each reply that was awaited is done once the event loop has run.
pub close_kernel-IsOver : (k : Kernel) → IsOver k (close_kernel k)
unfolding close_kernel
close_kernel-IsOver k = closed (has_session k.session)
  where
    exc : Raised
    exc = closed_error (has_session k.session)

    quiet :
        (j : ℕ) (entry : PendingResponse)
        → lookup j k.pending_responses.pending ≡ some entry
        → (b : Bool)
        → AwaitedIn j entry (
            if b
            then record k { keepalive_running = false; keepalive_probe_requested = false }
            else k)
    quiet j entry held true = inl held
    quiet j entry held false = inl held

    closed :
        (there : Bool)
        → IsOver k (
            if not there
            then record (fail_all_pending_commands exc k) { transport_retry = [] }
            else record (fail_all_pending_commands exc (stop_keepalive k)) {
              transport_retry = [];
              session = none;
              closing = true;
              closed_explicitly = true;
              connected = false;
            })
    closed false = record {
      no_high = (fail_all_pending_commands_unqueued exc k).0;
      no_normal = (fail_all_pending_commands_unqueued exc k).1;
      no_retry = refl;
      done = λ j.
          by_entry (lookup j k.pending_responses.pending)
            (fail_all_pending_commands exc k).pending_responses
            (λ entry held. fail_all_pending_commands-WillSettle j entry exc k (inl held));
    }
    closed true = record {
      no_high = (fail_all_pending_commands_unqueued exc (stop_keepalive k)).0;
      no_normal = (fail_all_pending_commands_unqueued exc (stop_keepalive k)).1;
      no_retry = refl;
      done = λ j.
          by_entry (lookup j k.pending_responses.pending)
            (fail_all_pending_commands exc (stop_keepalive k)).pending_responses
            (λ entry held.
              fail_all_pending_commands-WillSettle j entry exc (stop_keepalive k)
                (unfold stop_keepalive in quiet j entry held k.keepalive_running));
    }

abort_requests-IsOver : (exc : Raised) (k : Kernel) → IsOver k (abort_requests exc k)
unfolding abort_requests drain_requests
abort_requests-IsOver exc k = record {
  no_high = (abort_requests_unqueued exc k).0;
  no_normal = (abort_requests_unqueued exc k).1;
  no_retry =
      fail_each_no_retry exc (drain_requests k).0 (fail_active exc (drain_requests k).1)
        (fail_active_no_retry exc (drain_requests k).1 refl);
  done = λ j.
      by_entry (lookup j k.pending_responses.pending) (abort_requests exc k).pending_responses
        (λ entry held. abort_requests-WillSettle j entry exc k (inl held));
}

-- Nobody is left waiting after `_on_session_disconnected` reports the loss of a connection that was
-- up and is not being closed, unless it is a SessionIOError after an explicit close: the queues are
-- empty, no retry waits, and the future of each reply that was awaited is done once the event loop
-- has run.
pub on_session_disconnected-IsOver :
    (k : Kernel) (e : SessionError)
    → k.closing ≡ false
    → (k.closed_explicitly && is_io_error e) ≡ false
    → k.connected ≡ true
    → IsOver k (on_session_disconnected e k)
unfolding on_session_disconnected
on_session_disconnected-IsOver k e not_closing implicit up =
    let down : Kernel = record k {
      connected = false;
      dispatcher = abort_paged_transfers k.dispatcher;
    } in
    let over = abort_requests-IsOver connection_lost down in
    rw (not_closing, implicit, up)
      (record {
        no_high = over.no_high;
        no_normal = over.no_normal;
        no_retry = over.no_retry;
        done = over.done;
      })
