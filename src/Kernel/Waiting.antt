-- ===== src/Kernel/Waiting.antt =====
-- Over any run of src/elke27_lib/kernel_loop.py, an idle scheduler with an active session has no
-- request queued.
pub mod Requests
pub mod Timeouts
pub mod Messages
pub mod Ends
pub mod Runs
use elke.Base.{
  ℕ, suc, ◌+◌, ◌<◌, ◌≡◌, refl, sym, ap, ◌∙◌, Bool, true, false, not, ◌&&◌, ◌||◌, Option, none, some,
  List, [], ◌∷◌, ◌++◌, if◌then◌else◌, ◌==◌, Bool-cases, inl, inr, arith,
}
use elke.Base.Dict.{nat_key, lookup, erase}
use elke.Base.Result.{Result, ok, err}
use elke.Dispatch.Json.{Json, Members, get}
use elke.Dispatch.State.{Dispatcher, abort_paged_transfers, drop_pending}
use elke.Pending.{fail, resolve}
use elke.Session.State.{Session, SessionError, handle_disconnect, teardown, close, io_error}
use elke.Kernel.{QueuedRequest, cancels, Kernel, next_seq, is_past_deadline, is_active}
use elke.Kernel.RawSeqs.{discard}
use elke.Kernel.Scheduler.{
  Raised, deadline_expired, fail_queued_command, mark_send_failed, drop_request, signal_sent_event,
  cancel_transport_retry_timer, disconnect_session, disconnect_session_on_io_error, is_sent,
  is_idle, same_seq,
}
use elke.Kernel.Scheduler.Failures.{
  complete_active, enqueue_request, handle_send_failure, handle_transport_failure,
}
use elke.Kernel.Scheduler.Fuel.{share, share_active, kick_scheduler}
use elke.Kernel.Calls.Ends.{
  closed_error, is_io_error, connection_lost, on_session_disconnected, notify, stop_keepalive,
  close_kernel, close_done,
}
use elke.Kernel.Calls.{
  KernelError, no_active_session, session_not_active, without_seq, clear_pending_transport_retry,
  on_request_sent, mark_request_sent, request_link_check, has_session, is_silent, is_probe_route,
  route_of, fail_or_drop, positive, is_raw_seq, with_auth_seq, drop_fire_and_forget_pending,
  drain_requests, fail_active, fail_each, signal_all_sent_events, fail_all_pending_commands,
  abort_requests,
}
use elke.Kernel.Calls.Active.{
  after_timeout, on_reply_timeout, release_item, release, cancel_command_transport, timed_out, kick,
  queued_request, note_unanswered, send_unanswered, send_request_with_seq, resolve_reply,
  note_received, complete_reply, complete_raw_reply, on_message,
}
use elke.Kernel.Chances.{is_some, IsTidy}
use elke.Kernel.Chances.Within.{IsWithin, settled, total}
use elke.Kernel.Sending.Kick.{kick_scheduler-IsWithin}
use elke.Kernel.Sends.{released_of}
use elke.Kernel.Termination.{every, never, never-le}
use elke.Kernel.Runs.{step-Kept}
use elke.Kernel.Steps.{
  Step, numbers, registers, marks_raw, finishes_raw, requests, sent, sent_unanswered, fails,
  times_out, releases, cancels_command, receives, idles, notifies, closes, close_finishes, step,
  run_steps, IsFair,
}
use elke.Kernel.Progress.{
  is_empty, is_stuck, complete_active_rests, enqueue_request_rests, handle_transport_failure_rests,
}
use elke.Kernel.Progress.Sending.{kick_scheduler_rests}
use elke.Kernel.Progress.Failures.{handle_send_failure_rests}

-- With no request queued nothing is stuck, and removing requests leaves nothing stuck.
pub nothing_queued : (x y : Bool) → (x && (y && false)) ≡ false
nothing_queued true true = refl
nothing_queued true false = refl
nothing_queued false y = refl

less_queued :
    (x y a b a' b' : Bool)
    → (a ≡ true → a' ≡ true)
    → (b ≡ true → b' ≡ true)
    → (x && (y && not (a && b))) ≡ false
    → (x && (y && not (a' && b'))) ≡ false
less_queued false y a b a' b' f g h = refl
less_queued true false a b a' b' f g h = refl
less_queued true true true true a' b' f g h = rw (f refl, g refl) refl
less_queued true true true false a' b' f g h = cc
less_queued true true false b a' b' f g h = cc

is_empty-without_seq :
    (seq : ℕ) (items : List QueuedRequest)
    → is_empty items ≡ true
    → is_empty (without_seq seq items) ≡ true
is_empty-without_seq seq [] h = refl
is_empty-without_seq seq (item ∷ items) h = cc

pub cleared_rests :
    (seq : ℕ) (k : Kernel)
    → is_stuck k ≡ false
    → is_stuck (clear_pending_transport_retry seq k) ≡ false
unfolding clear_pending_transport_retry
cleared_rests seq k h =
    less_queued (is_idle k.request_state) (is_active k.session) (is_empty k.request_queue_high)
      (is_empty k.request_queue_normal) (is_empty (without_seq seq k.request_queue_high))
      (is_empty (without_seq seq k.request_queue_normal))
      (is_empty-without_seq seq k.request_queue_high)
      (is_empty-without_seq seq k.request_queue_normal) h

-- A disconnect closes the session, or leaves it as it was.
disconnect_session_rests :
    (o : Option Session) (k : Kernel)
    → k.session ≡ o
    → is_stuck k ≡ false
    → is_stuck (disconnect_session o k) ≡ false
unfolding handle_disconnect teardown close
disconnect_session_rests none k e h = h
disconnect_session_rests (some s) k e h = by_flag s.disconnect_handled
  where
    closed : (x z : Bool) → (x && (false && z)) ≡ false
    closed true z = refl
    closed false z = refl

    by_flag :
        (b : Bool)
        → (is_idle k.request_state
            && (is_active (some (teardown b s io_error).0)
                && not (is_empty k.request_queue_high && is_empty k.request_queue_normal)))
          ≡ false
    by_flag true =
        ap
          (λ (o : Option Session).
            is_idle k.request_state
            && (is_active o
                && not (is_empty k.request_queue_high && is_empty k.request_queue_normal)))
          (sym e)
        ∙ h
    by_flag false =
        closed (is_idle k.request_state)
          (not (is_empty k.request_queue_high && is_empty k.request_queue_normal))

pub disconnect_rests :
    (exc : Raised) (k : Kernel)
    → is_stuck k ≡ false
    → is_stuck (disconnect_session_on_io_error exc k) ≡ false
unfolding disconnect_session_on_io_error
disconnect_rests exc k h = cases exc.is_session_io_error (is_active k.session)
  where
    cases :
        (io up : Bool)
        → is_stuck (if not io then k else if not up then k else disconnect_session k.session k)
          ≡ false
    cases false up = h
    cases true false = h
    cases true true = disconnect_session_rests k.session k refl h

module _ (r now : ℕ) (raises : QueuedRequest → Option Raised) where
  kicked : Kernel → Kernel
  kicked = kick_scheduler now raises

  pub shrinks :
      (k : Kernel)
      → IsTidy r k
      → IsWithin every never never-le r now
          (total every never never-le r now k)
          (kick_scheduler now raises k)
  shrinks = kick_scheduler-IsWithin every never never-le r now raises

  pub rests_below :
      (w : ℕ) (k : Kernel)
      → IsTidy r k
      → total every never never-le r now k < w
      → is_stuck (kick_scheduler now raises k) ≡ false
  rests_below w k t less = kick_scheduler_rests r now raises k t

  pub complete_rests :
      (k : Kernel)
      → IsTidy r k
      → k.active_released ≡ false
      → is_stuck (complete_active (kick_scheduler now raises) k) ≡ false
  complete_rests k t h =
      let w = suc (settled every never never-le r now k) in
      complete_active_rests r now w (kick_scheduler now raises) shrinks (rests_below w) k t h
        (omega arith)

  pub enqueue_rests :
      (item : QueuedRequest) (k : Kernel)
      → IsTidy r k
      → is_stuck (enqueue_request (kick_scheduler now raises) item k) ≡ false
  enqueue_rests item k t =
      let w = suc (total every never never-le r now k + share every r item) in
      enqueue_request_rests r now w (kick_scheduler now raises) shrinks (rests_below w) item k t
        (omega arith)

  pub failure_rests :
      (item : QueuedRequest) (exc : Raised) (confirmed : Bool) (k : Kernel)
      → IsTidy r k
      → k.active_released ≡ false
      → is_stuck (handle_transport_failure now (kick_scheduler now raises) item exc confirmed k)
        ≡ false
  failure_rests item exc confirmed k t h =
      let w =
        suc (settled every never never-le r now k + share_active every r confirmed (some item)) in
      handle_transport_failure_rests r now w (kick_scheduler now raises) shrinks (rests_below w)
        item exc confirmed k t h (omega arith)
