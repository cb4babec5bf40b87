-- ===== src/Kernel/Waiting/Requests.antt =====
-- What a request, a timeout, a retry timer and a cancellation leave to the scheduler of
-- src/elke27_lib/kernel_loop.py: no request that it could send.
use elke.Base.{
  ℕ, suc, ◌+◌, ◌≡◌, Bool, true, false, not, Option, none, some, if◌then◌else◌, Bool-cases, inl, inr,
  arith,
}
use elke.Base.Dict.{nat_key}
use elke.Base.Result.{Result, ok, err}
use elke.Kernel.{QueuedRequest, Kernel, is_active}
use elke.Kernel.RawSeqs.{discard}
use elke.Kernel.Scheduler.{Raised, mark_send_failed, drop_request, same_seq}
use elke.Kernel.Scheduler.Failures.{enqueue_request, handle_send_failure}
use elke.Kernel.Scheduler.Fuel.{share_active, kick_scheduler}
use elke.Kernel.Calls.{KernelError, no_active_session, session_not_active, has_session}
use elke.Kernel.Calls.Active.{
  kick, queued_request, note_unanswered, send_unanswered, send_request_with_seq,
}
use elke.Kernel.Chances.{IsTidy}
use elke.Kernel.Chances.Within.{settled}
use elke.Kernel.Sends.{released_of}
use elke.Kernel.Termination.{every, never, never-le}
use elke.Kernel.Progress.{is_stuck}
use elke.Kernel.Progress.Failures.{handle_send_failure_rests}
use elke.Kernel.Waiting.{disconnect_rests, enqueue_rests, rests_below, shrinks}

module _ (r now : ℕ) (raises : QueuedRequest → Option Raised) where
  pub send_failure_rests :
      (seq : ℕ) (exc : Raised) (k : Kernel)
      → IsTidy r k
      → is_stuck k ≡ false
      → is_stuck (handle_send_failure now (kick_scheduler now raises) seq exc k) ≡ false
  unfolding handle_send_failure mark_send_failed
  send_failure_rests seq exc k t h = elim (Bool-cases (same_seq k.active_seq seq)) [
    | inl ours ↦
        let w =
          suc
            (settled every never never-le r now k + share_active every r false k.active_request) in
        handle_send_failure_rests r now w (kick_scheduler now raises) (shrinks r now raises)
          (rests_below r now raises w) seq exc k t
          (released_of k.active_seq seq k.active_released t.held ours) ours (omega arith)
    | inr other ↦ rw other (disconnect_rests exc (mark_send_failed seq exc k) h)
  ]

  pub request_rests :
      (item : QueuedRequest) (expects_reply : Bool) (k : Kernel)
      → IsTidy r k
      → is_stuck k ≡ false
      → is_stuck (send_request_with_seq now raises item expects_reply k).0 ≡ false
  unfolding send_request_with_seq note_unanswered drop_request
  request_rests item expects_reply k t h =
      cases (has_session k.session) (is_active k.session) expects_reply
    where
      noted : Bool → Kernel
      noted b = if b then note_unanswered now raises item k else k

      unanswered :
          (o : Option Raised) (b : Bool)
          → is_stuck (send_unanswered now raises o item (noted b)).0 ≡ false
      unanswered none true = h
      unanswered none false = h
      unanswered (some exc) true =
          failing exc item.pending (note_unanswered now raises item k)
            (record { limit = t.limit; held = t.held }) h
        where
          failing :
              (exc : Raised) (b : Bool) (k' : Kernel)
              → IsTidy r k'
              → is_stuck k' ≡ false
              → is_stuck (
                  handle_send_failure now (kick_scheduler now raises) item.seq exc (
                    if b
                    then record (drop_request item.seq k') {
                      fire_and_forget_pending_seqs =
                          discard item.seq k'.fire_and_forget_pending_seqs;
                    }
                    else k'))
                ≡ false
          failing exc true k' t' h' =
              send_failure_rests item.seq exc
                (record (drop_request item.seq k') {
                  fire_and_forget_pending_seqs = discard item.seq k'.fire_and_forget_pending_seqs;
                })
                (record { limit = t'.limit; held = t'.held }) h'
          failing exc false k' t' h' = send_failure_rests item.seq exc k' t' h'
      unanswered (some exc) false = failing item.pending
        where
          failing :
              (b : Bool)
              → is_stuck (
                  handle_send_failure now (kick_scheduler now raises) item.seq exc (
                    if b
                    then record (drop_request item.seq k) {
                      fire_and_forget_pending_seqs =
                          discard item.seq k.fire_and_forget_pending_seqs;
                    }
                    else k))
                ≡ false
          failing true =
              send_failure_rests item.seq exc
                (record (drop_request item.seq k) {
                  fire_and_forget_pending_seqs = discard item.seq k.fire_and_forget_pending_seqs;
                })
                (record { limit = t.limit; held = t.held }) h
          failing false = send_failure_rests item.seq exc k t h

      cases :
          (there up reply : Bool)
          → (λ (out : Kernel × Result KernelError ℕ). is_stuck out.0 ≡ false)
              (if not there
                then (k, err no_active_session)
                else if not up
                then (k, err session_not_active)
                else if reply
                then (
                  enqueue_request (kick now raises) (queued_request now raises item k) k,
                  ok item.seq,
                )
                else send_unanswered now raises (raises item) item (noted item.pending))
      cases false up reply = h
      cases true false reply = h
      cases true true true = enqueue_rests r now raises (queued_request now raises item k) k t
      cases true true false = unanswered (raises item) item.pending
