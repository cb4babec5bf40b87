-- ===== src/Kernel/Waiting/Runs.antt =====
-- Over any run of src/elke27_lib/kernel_loop.py, an idle scheduler with an active session has no
-- request left to send.
use elke.Base.{
  ℕ, ◌≡◌, refl, Bool, true, false, ◌&&◌, Option, some, List, [], ◌∷◌, if◌then◌else◌, ◌==◌,
}
use elke.Base.Dict.{nat_key}
use elke.Dispatch.Json.{Members}
use elke.Dispatch.State.{Dispatcher}
use elke.Kernel.{QueuedRequest, Kernel, next_seq}
use elke.Kernel.Scheduler.{Raised, same_seq}
use elke.Kernel.Calls.Ends.{close_done}
use elke.Kernel.Calls.{on_request_sent, mark_request_sent}
use elke.Kernel.Chances.{is_some, IsTidy}
use elke.Kernel.Termination.{every, never, never-le}
use elke.Kernel.Runs.{step-Kept}
use elke.Kernel.Steps.{
  Step, numbers, registers, marks_raw, finishes_raw, requests, sent, sent_unanswered, fails,
  times_out, releases, cancels_command, receives, idles, notifies, closes, close_finishes, step,
  run_steps, IsFair,
}
use elke.Kernel.Progress.{is_stuck}
use elke.Kernel.Progress.Sending.{kick_scheduler_rests}
use elke.Kernel.Waiting.Timeouts.{cancel_rests, release_rests, timeout_rests}
use elke.Kernel.Waiting.Requests.{request_rests, send_failure_rests}
use elke.Kernel.Waiting.Messages.{message_rests}
use elke.Kernel.Waiting.Ends.{close_rests, notify_rests}

module _ (raises : QueuedRequest → Option Raised)
    (dispatch : Dispatcher → Members → Dispatcher) where
  step_rests :
      (r now : ℕ) (s : Step) (k : Kernel)
      → IsTidy r k
      → is_stuck k ≡ false
      → is_stuck (step raises dispatch k (now, s)) ≡ false
  unfolding step next_seq on_request_sent mark_request_sent close_done
  step_rests r now numbers k t h = h
  step_rests r now (registers seq event) k t h = h
  step_rests r now (marks_raw seq) k t h = h
  step_rests r now (finishes_raw seq) k t h = h
  step_rests r now (requests item reply) k t h = request_rests r now raises item reply k t h
  step_rests r now (sent seq timeout) k t h = armed (timeout == 0)
    where
      marked : Kernel
      marked = mark_request_sent now seq (record k {
        active_sent_at = if same_seq k.active_seq seq then some now else k.active_sent_at;
      })

      armed :
          (b : Bool)
          → is_stuck (if b then marked else record marked { active_timeout = some seq }) ≡ false
      armed true = h
      armed false = h
  step_rests r now (sent_unanswered seq) k t h = h
  step_rests r now (fails seq exc) k t h = send_failure_rests r now raises seq exc k t h
  step_rests r now (times_out seq) k t h = timeout_rests r now raises seq k t h
  step_rests r now (releases seq) k t h = release_rests r now raises seq k t h
  step_rests r now (cancels_command seq exc) k t h = cancel_rests r now raises seq exc k t h
  step_rests r now (receives msg) k t h = message_rests r now raises dispatch msg k t h
  step_rests r now idles k t h = kick_scheduler_rests r now raises k t
  step_rests r now notifies k t h = notify_rests k.loop_calls k h
  step_rests r now closes k t h = close_rests k
  step_rests r now close_finishes k t h = h

  run_rests :
      (r : ℕ) (ss : List (ℕ × Step)) (k : Kernel)
      → IsTidy r k
      → is_stuck k ≡ false
      → IsFair raises dispatch k ss
      → is_stuck (run_steps raises dispatch k ss) ≡ false
  unfolding run_steps
  run_rests r [] k t h f = h
  run_rests r ((now, s) ∷ ss) k t h f =
      run_rests r ss (step raises dispatch k (now, s))
        (step-Kept every never never-le r raises dispatch now s k t f.0).0
        (step_rests r now s k t h) f.1

-- No request is left behind: over any run, whenever the scheduler is idle and the session active,
-- both queues are empty, as they are at the start. The active request at the start has not been
-- released, and no send fails for an active request once it has been confirmed.
pub is_stuck-run_steps :
    (raises : QueuedRequest → Option Raised) (dispatch : Dispatcher → Members → Dispatcher)
    (k : Kernel) (ss : List (ℕ × Step))
    → (is_some k.active_seq && k.active_released) ≡ false
    → is_stuck k ≡ false
    → IsFair raises dispatch k ss
    → is_stuck (run_steps raises dispatch k ss) ≡ false
is_stuck-run_steps raises dispatch k ss held rested fair =
    run_rests raises dispatch k.request_max_retries ss k (record { limit = refl; held = held })
      rested fair
