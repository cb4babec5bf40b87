-- ===== src/Kernel/Steps.antt =====
-- Runs of src/elke27_lib/kernel_loop.py: the calls that reach `E27Kernel`, each at its time. Handlers
-- that send requests while a message is dispatched do so in steps of their own.
use elke.Base.{ℕ, Bool, false, ◌&&◌, Option, List, [], ◌∷◌, ◌≡◌}
use elke.Base.Dict.{nat_key, insert}
use elke.Dispatch.Json.{Members}
use elke.Dispatch.State.{Dispatcher}
use elke.Kernel.{QueuedRequest, Kernel, next_seq}
use elke.Kernel.RawSeqs.{mark, finish}
use elke.Kernel.Scheduler.{Raised, is_sent, same_seq}
use elke.Kernel.Scheduler.Failures.{handle_send_failure}
use elke.Kernel.Scheduler.Fuel.{kick_scheduler}
use elke.Kernel.Calls.{on_request_sent, mark_request_sent}
use elke.Kernel.Calls.Active.{
  on_reply_timeout, release, cancel_command_transport, send_request_with_seq, on_message,
}
use elke.Kernel.Calls.Ends.{notify, close_kernel, close_done}

pub data Step : Type 0 where
  numbers : Step
  registers : ℕ → ℕ → Step
  marks_raw finishes_raw : ℕ → Step
  requests : QueuedRequest → Bool → Step
  sent : ℕ → ℕ → Step
  sent_unanswered : ℕ → Step
  fails : ℕ → Raised → Step
  times_out : ℕ → Step
  releases : ℕ → Step
  cancels_command : ℕ → Raised → Step
  receives : Members → Step
  idles notifies closes close_finishes : Step

module _ (raises : QueuedRequest → Option Raised)
    (dispatch : Dispatcher → Members → Dispatcher) where
  unfoldable pub step : Kernel → ℕ × Step → Kernel
  step k (now, numbers) = (next_seq k).0
  step k (now, registers seq event) = record k { sent_events = insert seq event k.sent_events }
  step k (now, marks_raw seq) = record k { raw_passthrough_seqs = mark seq k.raw_passthrough_seqs }
  step k (now, finishes_raw seq) = record k {
    raw_passthrough_seqs = finish seq k.raw_passthrough_seqs;
  }
  step k (now, requests item expects_reply) =
      (send_request_with_seq now raises item expects_reply k).0
  step k (now, sent seq timeout) = on_request_sent now seq timeout k
  step k (now, sent_unanswered seq) = mark_request_sent now seq k
  step k (now, fails seq exc) = handle_send_failure now (kick_scheduler now raises) seq exc k
  step k (now, times_out seq) = on_reply_timeout now raises seq k
  step k (now, releases seq) = release now raises seq k
  step k (now, cancels_command seq exc) = cancel_command_transport now raises seq exc k
  step k (now, receives msg) = on_message now raises dispatch msg k
  step k (now, idles) = kick_scheduler now raises k
  step k (now, notifies) = notify k.loop_calls k
  step k (now, closes) = close_kernel k
  step k (now, close_finishes) = close_done k

  unfoldable pub run_steps : Kernel → List (ℕ × Step) → Kernel
  run_steps k [] = k
  run_steps k (s ∷ ss) = run_steps (step k s) ss

  -- No send fails for the active request once its send has been confirmed: the outbound queue calls
  -- `on_fail` after `on_sent` only where `on_sent` raises, and the kernel's does not.
  abbrev pub FailsUnsent : Kernel → Step → Type 0
  FailsUnsent k (fails seq _) = (same_seq k.active_seq seq && is_sent k.active_sent_at) ≡ false
  FailsUnsent k (requests item false) =
      (same_seq k.active_seq item.seq && is_sent k.active_sent_at) ≡ false
  FailsUnsent k _ = Unit

  abbrev pub IsFair : Kernel → List (ℕ × Step) → Type 0
  IsFair k [] = Unit
  IsFair k ((now, s) ∷ ss) = FailsUnsent k s × IsFair (step k (now, s)) ss
