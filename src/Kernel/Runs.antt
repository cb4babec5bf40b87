-- ===== src/Kernel/Runs.antt =====
-- Any run of the kernel of src/elke27_lib/kernel_loop.py: how often each sequence number is sent.
use native.Mathlib.Nat.{le_trans}
use elke.Base.{
  ℕ, ◌+◌, ◌≤◌, ◌≡◌, refl, ap, ◌∙◌, Bool, true, false, not, ◌&&◌, Option, some, List, [], ◌∷◌,
  if◌then◌else◌, ◌==◌, arith,
}
use elke.Base.Dict.{nat_key}
use elke.Dispatch.Json.{Members}
use elke.Dispatch.State.{Dispatcher}
use elke.Kernel.{QueuedRequest, Kernel, next_seq, retry_after_send_allowed}
use elke.Kernel.Scheduler.{Raised, is_sent}
use elke.Kernel.Scheduler.Fuel.{chances, share_active, queued_sends, future_sends}
use elke.Kernel.Calls.{mark_request_sent}
use elke.Kernel.Calls.Ends.{close_done}
use elke.Kernel.Steps.{
  Step, numbers, registers, marks_raw, finishes_raw, requests, sent, sent_unanswered, fails,
  times_out, releases, cancels_command, receives, idles, notifies, closes, close_finishes, step,
  run_steps, FailsUnsent, IsFair,
}
use elke.Kernel.Chances.{one_if, is_some, sends_made, IsTidy}
use elke.Kernel.Chances.Within.{IsWithin, total}
use elke.Kernel.Sending.Kick.{kick_scheduler-IsWithin}
use elke.Kernel.Sends.{on_request_sent-IsWithin, handle_send_failure-FailsUnsent, release-IsWithin}
use elke.Kernel.Sends.Timeouts.{on_reply_timeout-IsWithin, cancel_command_transport-IsWithin}
use elke.Kernel.Arrivals.{asked, send_request_with_seq-IsWithin}
use elke.Kernel.Arrivals.Messages.{on_message-IsWithin}
use elke.Kernel.Arrivals.Closing.{close_kernel-IsWithin, notify-IsWithin}

abbrev asked_by : (ℕ → Bool) → ℕ → Step → ℕ
asked_by p r (requests item expects_reply) = asked p r expects_reply item
asked_by p r _ = 0

-- The sends that the requests of a run may bring.
unfoldable pub asked_sends : (ℕ → Bool) → ℕ → List (ℕ × Step) → ℕ
asked_sends p r [] = 0
asked_sends p r ((_, s) ∷ ss) = asked_by p r s + asked_sends p r ss

module _ (p q : ℕ → Bool) (below : (seq : ℕ) → one_if (q seq) ≤ one_if (p seq)) (r : ℕ)
    (raises : QueuedRequest → Option Raised) (dispatch : Dispatcher → Members → Dispatcher) where
  abbrev pub Kept : ℕ → Kernel → Type 0
  Kept most k = IsTidy r k × (total p q below r 0 k ≤ most)

  kept : {now most : ℕ} {k : Kernel} → IsWithin p q below r now most k → Kept (most + 0) k
  kept w = (w.tidy, le_trans w.bound (omega arith))

  pub step-Kept :
      (now : ℕ) (s : Step) (k : Kernel)
      → IsTidy r k
      → FailsUnsent raises dispatch k s
      → Kept (total p q below r 0 k + asked_by p r s) (step raises dispatch k (now, s))
  unfolding step next_seq mark_request_sent close_done
  step-Kept now numbers k t f = (record { limit = t.limit; held = t.held }, omega arith)
  step-Kept now (registers seq event) k t f =
      (record { limit = t.limit; held = t.held }, omega arith)
  step-Kept now (marks_raw seq) k t f = (record { limit = t.limit; held = t.held }, omega arith)
  step-Kept now (finishes_raw seq) k t f = (record { limit = t.limit; held = t.held }, omega arith)
  step-Kept now (requests item true) k t f =
      let w = send_request_with_seq-IsWithin p q below r now raises item true k t refl in
      (w.tidy, w.bound)
  step-Kept now (requests item false) k t f =
      let w = send_request_with_seq-IsWithin p q below r now raises item false k t f in
      (w.tidy, w.bound)
  step-Kept now (sent seq timeout) k t f =
      kept (on_request_sent-IsWithin p q below r now seq timeout k t)
  step-Kept now (sent_unanswered seq) k t f =
      (record { limit = t.limit; held = t.held }, omega arith)
  step-Kept now (fails seq exc) k t f =
      kept (handle_send_failure-FailsUnsent p q below r now raises seq exc k t f)
  step-Kept now (times_out seq) k t f =
      kept (on_reply_timeout-IsWithin p q below r now raises seq k t)
  step-Kept now (releases seq) k t f = kept (release-IsWithin p q below r now raises seq k t)
  step-Kept now (cancels_command seq exc) k t f =
      kept (cancel_command_transport-IsWithin p q below r now raises seq exc k t)
  step-Kept now (receives msg) k t f =
      kept (on_message-IsWithin p q below r now raises dispatch msg k t)
  step-Kept now idles k t f = kept (kick_scheduler-IsWithin p q below r now raises k t)
  step-Kept now notifies k t f = kept (notify-IsWithin p q below r now k.loop_calls k t)
  step-Kept now closes k t f = kept (close_kernel-IsWithin p q below r now k t)
  step-Kept now close_finishes k t f = (record { limit = t.limit; held = t.held }, omega arith)

  pub run_steps-Kept :
      (ss : List (ℕ × Step)) (k : Kernel)
      → IsTidy r k
      → IsFair raises dispatch k ss
      → Kept (total p q below r 0 k + asked_sends p r ss) (run_steps raises dispatch k ss)
  unfolding run_steps asked_sends
  run_steps-Kept [] k t f = (t, omega arith)
  run_steps-Kept ((now, s) ∷ ss) k t f =
      let (t', bound) = step-Kept now s k t f.0 in
      let (t'', rest) = run_steps-Kept ss (step raises dispatch k (now, s)) t' f.1 in
      (t'', omega arith)

-- The sends of one sequence number so far.
abbrev pub sends_of : ℕ → Kernel → ℕ
sends_of seq k = sends_made (λ n. n == seq) k.session_calls

abbrev pub future_sends_of : ℕ → Kernel → ℕ
future_sends_of seq k = future_sends (λ n. n == seq) k.request_max_retries k

-- Over any run, a sequence number is sent no more often than its requests allow: each queued or
-- waiting request counts once and again for each retry it has left, and likewise each new request,
-- where a keepalive or a route with retries disabled has no retry; a request without a reply counts
-- once. The active request at the start has not been released, and no send fails for an active
-- request once it has been confirmed.
pub sends_of-run_steps :
    (raises : QueuedRequest → Option Raised) (dispatch : Dispatcher → Members → Dispatcher)
    (k : Kernel) (ss : List (ℕ × Step)) (seq : ℕ)
    → (is_some k.active_seq && k.active_released) ≡ false
    → IsFair raises dispatch k ss
    → sends_of seq (run_steps raises dispatch k ss)
      ≤ sends_of seq k
        + future_sends_of seq k
        + asked_sends (λ n. n == seq) k.request_max_retries ss
sends_of-run_steps raises dispatch k ss seq held fair =
    let p : ℕ → Bool = λ n. n == seq in
    let (_, bound) =
      run_steps-Kept p p (λ n. omega arith) k.request_max_retries raises dispatch ss k
        (record { limit = refl; held = held }) fair in
    omega arith

-- A command that the panel may have carried out is not sent again: if the active request has been
-- confirmed as sent, is neither a disarm nor of a `get_` route, and no other request with its
-- number is queued or waits for a retry, then no run without a new request of that number adds a
-- send of it, whatever times out, fails, disconnects or arrives. The active request at the start
-- has not been released, and no send fails for an active request once it has been confirmed.
pub sends_of-run_steps_sent :
    (raises : QueuedRequest → Option Raised) (dispatch : Dispatcher → Members → Dispatcher)
    (k : Kernel) (ss : List (ℕ × Step)) (item : QueuedRequest)
    → (is_some k.active_seq && k.active_released) ≡ false
    → k.active_request ≡ some item
    → is_sent k.active_sent_at ≡ true
    → retry_after_send_allowed item ≡ false
    → queued_sends (λ n. n == item.seq) k.request_max_retries k ≡ 0
    → IsFair raises dispatch k ss
    → asked_sends (λ n. n == item.seq) k.request_max_retries ss ≡ 0
    → sends_of item.seq (run_steps raises dispatch k ss) ≤ sends_of item.seq k
sends_of-run_steps_sent raises dispatch k ss item held current confirmed final alone fair
      none_asked =
    let bound = sends_of-run_steps raises dispatch k ss item.seq held fair in
    let spent : share_active (λ n. n == item.seq) k.request_max_retries (is_sent k.active_sent_at)
          k.active_request
        ≡ 0 =
      ap (share_active (λ n. n == item.seq) k.request_max_retries (is_sent k.active_sent_at))
        current
      ∙ ap (λ b. share_active (λ n. n == item.seq) k.request_max_retries b (some item)) confirmed
      ∙ none_left (item.seq == item.seq) (retry_after_send_allowed item)
          (chances k.request_max_retries item) final in
    omega arith
  where
    none_left :
        (b after : Bool) (n : ℕ) → after ≡ false → (if b then if not after then 0 else n else 0) ≡ 0
    none_left true true n h = cc
    none_left true false n h = refl
    none_left false after n h = refl
