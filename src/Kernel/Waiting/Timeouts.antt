-- ===== src/Kernel/Waiting/Timeouts.antt =====
-- What a reply timeout, a retry timer and a cancellation leave to the scheduler of
-- src/elke27_lib/kernel_loop.py.
use elke.Base.{
  ℕ, ◌≡◌, refl, Bool, true, false, not, ◌&&◌, ◌||◌, Option, none, some, [], ◌∷◌, ◌++◌,
  if◌then◌else◌,
}
use elke.Base.Dict.{nat_key, lookup, erase}
use elke.Dispatch.State.{drop_pending}
use elke.Pending.{fail}
use elke.Kernel.{QueuedRequest, cancels, Kernel, is_past_deadline}
use elke.Kernel.Scheduler.{
  Raised, deadline_expired, fail_queued_command, drop_request, signal_sent_event,
  cancel_transport_retry_timer, is_sent, is_idle, same_seq,
}
use elke.Kernel.Scheduler.Failures.{complete_active, enqueue_request}
use elke.Kernel.Calls.{
  clear_pending_transport_retry, request_link_check, has_session, is_silent, is_probe_route,
  route_of, fail_or_drop,
}
use elke.Kernel.Calls.Active.{
  after_timeout, on_reply_timeout, release_item, release, cancel_command_transport, timed_out, kick,
}
use elke.Kernel.Chances.{IsTidy}
use elke.Kernel.Progress.{is_stuck}
use elke.Kernel.Waiting.{cleared_rests, complete_rests, enqueue_rests, failure_rests}

module _ (r now : ℕ) (raises : QueuedRequest → Option Raised) where
  pub timeout_rests :
      (seq : ℕ) (k : Kernel)
      → IsTidy r k
      → is_stuck k ≡ false
      → is_stuck (on_reply_timeout now raises seq k) ≡ false
  unfolding on_reply_timeout request_link_check
  timeout_rests seq k t h =
      cases (is_idle k.request_state) k.active_released (same_seq k.active_seq seq)
        (is_silent k.active_sent_at k.last_rx_at
          && not (is_probe_route (route_of k.active_request)))
        refl
    where
      after : Kernel
      after = after_timeout now raises k.active_request seq k

      by_request :
          (o : Option QueuedRequest)
          → k.active_released ≡ false
          → is_stuck (after_timeout now raises o seq k) ≡ false
      by_request none e =
          complete_rests r now raises
            (record k {
              pending_responses = (fail true true seq "Response timed out" k.pending_responses).0;
            })
            (record { limit = t.limit; held = t.held }) e
      by_request (some item) e =
          failure_rests r now raises item (timed_out now raises) (is_sent k.active_sent_at) k t e

      link_check :
          (b silent : Bool)
          → is_stuck after ≡ false
          → is_stuck (
              if silent
              then if b then after else record after { keepalive_probe_requested = true }
              else after)
            ≡ false
      link_check true true e = e
      link_check false true e = e
      link_check b false e = e

      cases :
          (free released ours silent : Bool)
          → k.active_released ≡ released
          → is_stuck (
              if free
              then k
              else if released || not ours
              then k
              else if silent
              then request_link_check after
              else after)
            ≡ false
      cases true released ours silent e = h
      cases false true ours silent e = h
      cases false false false silent e = h
      cases false false true silent e =
          link_check (not after.keepalive_enabled || not (has_session after.session)) silent
            (by_request k.active_request e)

  pub release_rests :
      (seq : ℕ) (k : Kernel)
      → IsTidy r k
      → is_stuck k ≡ false
      → is_stuck (release now raises seq k) ≡ false
  unfolding release cancel_transport_retry_timer fail_queued_command
  release_rests seq k t h = cases (lookup seq k.transport_retry)
    where
      cleared : Kernel
      cleared = record k { transport_retry = erase seq k.transport_retry }

      due :
          (item : QueuedRequest) (past : Bool)
          → is_stuck (
              if past
              then fail_queued_command deadline_expired item cleared
              else enqueue_request (kick now raises) item cleared)
            ≡ false
      due item true = h
      due item false =
          enqueue_rests r now raises item cleared (record { limit = t.limit; held = t.held })

      cases : (o : Option QueuedRequest) → is_stuck (release_item now raises o cleared) ≡ false
      cases none = h
      cases (some item) = due item (is_past_deadline now item)

  pub cancel_rests :
      (seq : ℕ) (exc : Raised) (k : Kernel)
      → IsTidy r k
      → is_stuck k ≡ false
      → is_stuck (cancel_command_transport now raises seq exc k) ≡ false
  unfolding cancel_command_transport clear_pending_transport_retry drop_request signal_sent_event
  cancel_rests seq exc k t h =
      cases (not (is_idle k.request_state)) (same_seq k.active_seq seq) k.active_released refl
    where
      cleared : Kernel
      cleared = clear_pending_transport_retry seq k

      failed : Kernel
      failed = signal_sent_event seq (record cleared {
        dispatcher = drop_pending k.dispatcher seq;
        session_calls =
            if has_session k.session
            then k.session_calls ++ (cancels seq ∷ [])
            else k.session_calls;
        pending_responses = fail_or_drop seq exc k.pending_responses;
      })

      cases :
          (flying ours released : Bool)
          → k.active_released ≡ released
          → is_stuck (
              if flying && ours && not released
              then complete_active (kick now raises) failed
              else failed)
            ≡ false
      cases true true false e =
          complete_rests r now raises failed (record { limit = t.limit; held = t.held }) e
      cases true true true e = cleared_rests seq k h
      cases true false released e = cleared_rests seq k h
      cases false ours released e = cleared_rests seq k h
