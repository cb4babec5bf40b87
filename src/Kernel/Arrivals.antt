-- ===== src/Kernel/Arrivals.antt =====
-- Requests, messages, disconnects and `close` in src/elke27_lib/kernel_loop.py: the sends that each may
-- add.
pub mod Messages
pub mod Ends
pub mod Closing
use native.Mathlib.Nat.{le_trans}
use elke.Base.{
  ℕ, ◌+◌, ◌≤◌, ◌≡◌, refl, Bool, true, false, not, ◌&&◌, ◌||◌, Option, none, some, List, [], ◌∷◌,
  if◌then◌else◌, arith,
}
use elke.Base.Dict.{nat_key}
use elke.Base.Result.{Result, ok, err}
use elke.Dispatch.Json.{Json, Members, get}
use elke.Dispatch.State.{Dispatcher, abort_paged_transfers}
use elke.Pending.{resolve}
use elke.Session.State.{SessionError}
use elke.Kernel.{QueuedRequest, sends, Kernel, is_keepalive, is_active, idle}
use elke.Kernel.RawSeqs.{discard}
use elke.Kernel.Scheduler.{
  Raised, mark_send_failed, drop_request, fail_queued_command, is_sent, is_idle, same_seq,
  build_request_message,
}
use elke.Kernel.Scheduler.Failures.{complete_active, enqueue_request, handle_send_failure}
use elke.Kernel.Scheduler.Fuel.{share, shares, shares_waiting}
use elke.Kernel.Calls.Ends.{
  closed_error, is_io_error, connection_lost, on_session_disconnected, notify, stop_keepalive,
  close_kernel,
}
use elke.Kernel.Calls.{
  KernelError, no_active_session, session_not_active, has_session, positive, is_raw_seq,
  with_auth_seq, clear_pending_transport_retry, drop_fire_and_forget_pending, drain_requests,
  fail_active, fail_each, fail_all_pending_commands, abort_requests,
}
use elke.Kernel.Calls.Active.{
  kick, queued_request, note_unanswered, send_unanswered, send_request_with_seq, resolve_reply,
  note_received, complete_reply, complete_raw_reply, on_message,
}
use elke.Kernel.Chances.{one_if, sends_made, sends_made-append, IsTidy}
use elke.Kernel.Chances.Within.{
  IsWithin, total, enqueue_request-IsWithin, fail_queued_command-IsWithin,
}
use elke.Kernel.Sends.{shrinks, complete_ours, handle_send_failure-FailsUnsent}
use elke.Kernel.Sends.Timeouts.{cleared_settled}

-- What a request adds: a send now, or its share of a queue.
abbrev pub asked : (ℕ → Bool) → ℕ → Bool → QueuedRequest → ℕ
asked p r true item = share p r (record item { attempt = 0 })
asked p r false item = one_if (p item.seq)

module _ (p q : ℕ → Bool) (below : (seq : ℕ) → one_if (q seq) ≤ one_if (p seq)) (r now : ℕ) where
  abbrev pub Within : ℕ → Kernel → Type 0
  Within = IsWithin p q below r now

  abbrev pub sum : Kernel → ℕ
  sum = total p q below r now

  module _ (raises : QueuedRequest → Option Raised) where
    send_unanswered-IsWithin :
        (o : Option Raised) (item : QueuedRequest) (k : Kernel)
        → IsTidy r k
        → (same_seq k.active_seq item.seq && is_sent k.active_sent_at) ≡ false
        → Within (sum k + one_if (p item.seq)) (send_unanswered now raises o item k).0
    unfolding sends_made drop_request
    send_unanswered-IsWithin none item k t fair =
        let more = sends_made-append q k.session_calls (
          sends item.seq
            (build_request_message k.session_id item.seq item.domain item.name item.payload)
            item.priority
          ∷ []) in
        record {
          tidy = record { limit = t.limit; held = t.held };
          bound = omega (arith, below item.seq);
        }
    send_unanswered-IsWithin (some exc) item k t fair = cases item.pending
      where
        dropped : Kernel
        dropped = record (drop_request item.seq k) {
          fire_and_forget_pending_seqs = discard item.seq k.fire_and_forget_pending_seqs;
        }

        cases :
            (b : Bool)
            → Within
                (sum k + one_if (p item.seq))
                (handle_send_failure now (kick now raises) item.seq exc (if b then dropped else k))
        cases true =
            let w =
              handle_send_failure-FailsUnsent p q below r now raises item.seq exc dropped
                (record { limit = t.limit; held = t.held }) fair in
            record { tidy = w.tidy; bound = le_trans w.bound (omega arith) }
        cases false =
            let w = handle_send_failure-FailsUnsent p q below r now raises item.seq exc k t fair in
            record { tidy = w.tidy; bound = le_trans w.bound (omega arith) }

    pub send_request_with_seq-IsWithin :
        (item : QueuedRequest) (expects_reply : Bool) (k : Kernel)
        → IsTidy r k
        → (if expects_reply
            then false
            else same_seq k.active_seq item.seq && is_sent k.active_sent_at)
          ≡ false
        → Within
            (sum k + asked p r expects_reply item)
            (send_request_with_seq now raises item expects_reply k).0
    unfolding send_request_with_seq queued_request is_keepalive note_unanswered
    send_request_with_seq-IsWithin item expects_reply k t fair =
        cases (has_session k.session) (is_active k.session) expects_reply fair
      where
        noted : Bool → Kernel
        noted b = if b then note_unanswered now raises item k else k

        same : (n : ℕ) → Within (sum k + n) k
        same n = record { tidy = t; bound = omega arith }

        cases :
            (there up reply : Bool)
            → (if reply then false else same_seq k.active_seq item.seq && is_sent k.active_sent_at)
              ≡ false
            → (λ (out : Kernel × Result KernelError ℕ). Within (sum k + asked p r reply item) out.0)
                (if not there
                  then (k, err no_active_session)
                  else if not up
                  then (k, err session_not_active)
                  else if reply
                  then (
                    enqueue_request (kick now raises) (queued_request now raises item k) k,
                    ok item.seq,
                  )
                  else send_unanswered now raises (raises item) item (noted item.pending))
        cases false up reply fair = same _
        cases true false reply fair = same _
        cases true true true fair =
            enqueue_request-IsWithin p q below r now (kick now raises)
              (shrinks p q below r now raises) (queued_request now raises item k) k t
        cases true true false fair = unanswered item.pending
          where
            unanswered :
                (b : Bool)
                → Within
                    (sum k + one_if (p item.seq))
                    (send_unanswered now raises (raises item) item (noted b)).0
            unanswered true =
                let w =
                  send_unanswered-IsWithin (raises item) item (note_unanswered now raises item k)
                    (record { limit = t.limit; held = t.held }) fair in
                record { tidy = w.tidy; bound = w.bound }
            unanswered false = send_unanswered-IsWithin (raises item) item k t fair

    pub cleared :
        (n : ℕ) (k : Kernel) → IsTidy r k → Within (sum k) (clear_pending_transport_retry n k)
    unfolding clear_pending_transport_retry
    cleared n k t = record {
      tidy = record { limit = t.limit; held = t.held };
      bound = omega (arith, cleared_settled p q below r now raises n k);
    }
