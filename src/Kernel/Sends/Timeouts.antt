-- ===== src/Kernel/Sends/Timeouts.antt =====
-- What a reply timeout and a cancellation add to the sends of src/elke27_lib/kernel_loop.py.
use native.Mathlib.Nat.{le_trans}
use elke.Base.{
  ℕ, ◌≤◌, ◌≡◌, refl, ap, Bool, true, false, not, ◌&&◌, ◌||◌, Option, none, some, List, [], ◌∷◌,
  ◌++◌, if◌then◌else◌, arith,
}
use elke.Base.Dict.{nat_key}
use elke.Dispatch.State.{drop_pending}
use elke.Pending.{fail}
use elke.Kernel.{QueuedRequest, SessionCall, cancels, Kernel}
use elke.Kernel.Scheduler.{Raised, drop_request, signal_sent_event, is_sent, is_idle, same_seq}
use elke.Kernel.Scheduler.Failures.{complete_active}
use elke.Kernel.Scheduler.Fuel.{share_active}
use elke.Kernel.Calls.{
  clear_pending_transport_retry, request_link_check, has_session, is_silent, is_probe_route,
  route_of, fail_or_drop,
}
use elke.Kernel.Calls.Active.{after_timeout, on_reply_timeout, cancel_command_transport, timed_out}
use elke.Kernel.Chances.{one_if, sends_made, sends_made-append, IsTidy, shares_waiting-erase}
use elke.Kernel.Chances.Within.{settled, complete_active-IsWithin}
use elke.Kernel.Chances.Failures.{handle_transport_failure-IsWithin}
use elke.Kernel.Sends.{Within, complete_ours, kick, shares-without_seq, shrinks, sum}

module _ (p q : ℕ → Bool) (below : (seq : ℕ) → one_if (q seq) ≤ one_if (p seq)) (r now : ℕ) where
  module _ (raises : QueuedRequest → Option Raised) where
    link_check :
        (b : Bool) (most : ℕ) (k : Kernel)
        → Within p q below r now most k
        → Within p q below r now most (if b then request_link_check k else k)
    unfolding request_link_check
    link_check false most k w = w
    link_check true most k w = cases (not k.keepalive_enabled || not (has_session k.session))
      where
        cases :
            (b : Bool)
            → Within p q below r now most
                (if b then k else record k { keepalive_probe_requested = true })
        cases true = w
        cases false = record {
          tidy = record { limit = w.tidy.limit; held = w.tidy.held };
          bound = w.bound;
        }

    after_timeout-IsWithin :
        (o : Option QueuedRequest) (seq : ℕ) (k : Kernel)
        → IsTidy r k
        → k.active_released ≡ false
        → k.active_request ≡ o
        → Within p q below r now (sum p q below r now k) (after_timeout now raises o seq k)
    after_timeout-IsWithin none seq k t h e =
        let w =
          complete_active-IsWithin p q below r now (kick p q below r now raises)
            (shrinks p q below r now raises)
            (record k {
              pending_responses = (fail true true seq "Response timed out" k.pending_responses).0;
            })
            (record { limit = t.limit; held = t.held }) h in
        record { tidy = w.tidy; bound = le_trans w.bound (omega arith) }
    after_timeout-IsWithin (some item) seq k t h e =
        let w =
          handle_transport_failure-IsWithin p q below r now (kick p q below r now raises)
            (shrinks p q below r now raises) item (timed_out now raises) (is_sent k.active_sent_at)
            k t h in
        let same = ap (share_active p r (is_sent k.active_sent_at)) e in
        record { tidy = w.tidy; bound = le_trans w.bound (omega arith) }

    pub on_reply_timeout-IsWithin :
        (seq : ℕ) (k : Kernel)
        → IsTidy r k
        → Within p q below r now (sum p q below r now k) (on_reply_timeout now raises seq k)
    unfolding on_reply_timeout
    on_reply_timeout-IsWithin seq k t =
        cases (is_idle k.request_state) k.active_released (same_seq k.active_seq seq)
          (is_silent k.active_sent_at k.last_rx_at
            && not (is_probe_route (route_of k.active_request)))
          refl
      where
        after : Kernel
        after = after_timeout now raises k.active_request seq k

        same : Within p q below r now (sum p q below r now k) k
        same = record { tidy = t; bound = omega arith }

        cases :
            (free released ours silent : Bool)
            → k.active_released ≡ released
            → Within p q below r now (sum p q below r now k) (
                if free
                then k
                else if released || not ours
                then k
                else if silent
                then request_link_check after
                else after)
        cases true released ours silent h = same
        cases false true ours silent h = same
        cases false false false silent h = same
        cases false false true silent h =
            link_check silent (sum p q below r now k) after
              (after_timeout-IsWithin k.active_request seq k t h refl)

    -- The queues and the waiting retries without a number.
    pub cleared_settled :
        (seq : ℕ) (k : Kernel)
        → settled p q below r now (clear_pending_transport_retry seq k) ≤ settled p q below r now k
    unfolding clear_pending_transport_retry
    cleared_settled seq k = omega (
      arith,
      shares-without_seq p r seq k.request_queue_high,
      shares-without_seq p r seq k.request_queue_normal,
      shares_waiting-erase p r seq k.transport_retry,
    )

    pub cancel_command_transport-IsWithin :
        (seq : ℕ) (exc : Raised) (k : Kernel)
        → IsTidy r k
        → Within p q below r now
            (sum p q below r now k)
            (cancel_command_transport now raises seq exc k)
    unfolding cancel_command_transport clear_pending_transport_retry drop_request signal_sent_event
        sends_made
    cancel_command_transport-IsWithin seq exc k t =
        cases (not (is_idle k.request_state)) (same_seq k.active_seq seq) k.active_released refl
      where
        calls : Bool → List SessionCall
        calls up = if up then k.session_calls ++ (cancels seq ∷ []) else k.session_calls

        same_calls : (up : Bool) → sends_made q (calls up) ≡ sends_made q k.session_calls
        same_calls true =
            let split = sends_made-append q k.session_calls (cancels seq ∷ []) in omega arith
        same_calls false = refl

        cleared : Kernel
        cleared = clear_pending_transport_retry seq k

        failed : Kernel
        failed = signal_sent_event seq (record cleared {
          dispatcher = drop_pending k.dispatcher seq;
          session_calls = calls (has_session k.session);
          pending_responses = fail_or_drop seq exc k.pending_responses;
        })

        tidy : IsTidy r failed
        tidy = record { limit = t.limit; held = t.held }

        fewer : settled p q below r now failed ≤ settled p q below r now k
        fewer = omega (arith, cleared_settled seq k, same_calls (has_session k.session))

        cases :
            (flying ours released : Bool)
            → same_seq k.active_seq seq ≡ ours
            → Within p q below r now (sum p q below r now k) (
                if flying && ours && not released
                then complete_active (kick p q below r now raises) failed
                else failed)
        cases true true false h =
            let w = complete_ours p q below r now raises seq failed tidy h in
            record { tidy = w.tidy; bound = le_trans w.bound (omega (arith, fewer)) }
        cases true true true h = record { tidy = tidy; bound = omega (arith, fewer) }
        cases true false released h = record { tidy = tidy; bound = omega (arith, fewer) }
        cases false ours released h = record { tidy = tidy; bound = omega (arith, fewer) }
