-- ===== src/Kernel/Delivery/Replies.antt =====
-- `_on_message` of src/elke27_lib/kernel_loop.py, down to the future that waits for the reply.
use elke.Kernel.Calls.{positive, clear_pending_transport_retry, is_raw_seq, with_auth_seq}
use elke.Kernel.Delivery.{complete_active_keeps}
use elke.Kernel.Delivery.Sending.{kick_scheduler_keeps}
use elke.Kernel.Calls.Active.{
  kick, complete_reply, complete_raw_reply, on_message, note_received, resolve_reply,
}
use elke.Kernel.Scheduler.Fuel.{kick_scheduler}
use elke.Kernel.Scheduler.Failures.{complete_active}
use elke.Kernel.Scheduler.{same_seq, Raised, drop_request, is_idle}
use elke.Pending.Settle.{run_callback_done}
use elke.Pending.FailAll.{Targets, resolve_delivers, run_all-append}
use elke.Base.{
  ℕ, ◌≡◌, refl, sym, subst, ap, ◌∙◌, Bool, true, false, not, ◌&&◌, Option, none, some, [], ◌∷◌,
  String, if◌then◌else◌, ◌==◌,
}
use elke.Base.Dict.{nat_key, lookup, erase, lookup-erase}
use elke.Dispatch.Json.{Json, Members, get}
use elke.Dispatch.State.{Dispatcher}
use elke.Pending.{
  fail, result, failed, waiting, PendingResponse, PendingResponseManager, Callback, call_in_loop,
  pop, resolve, settle_entry, run_all, is_done,
}
use elke.Kernel.{QueuedRequest, Kernel}

-- The number is answered, and the future gets the message once the event loop has run.
abbrev Answered : ℕ → ℕ → Members → PendingResponseManager → Type 0
Answered n f msg m = (lookup n m.pending ≡ none) × (run_all m.scheduled m.futures f ≡ result msg)

fail-Answered :
    (n f : ℕ) (msg : Members) (seq : ℕ) (exc : String) (m : PendingResponseManager)
    → Answered n f msg m
    → Answered n f msg (fail true true seq exc m).0
unfolding fail pop call_in_loop
fail-Answered n f msg seq exc m (gone, got) = cases (lookup seq m.pending)
  where
    none_left : lookup n (erase seq m.pending) ≡ none
    none_left = lookup-erase n seq m.pending ∙ by (n == seq)
      where
        by : (b : Bool) → (if b then none else lookup n m.pending) ≡ none
        by true = refl
        by false = gone

    cases :
        (o : Option PendingResponse)
        → Answered n f msg
            (settle_entry true (failed exc) (record m { pending = erase seq m.pending }, o)).0
    cases none = (none_left, got)
    cases (some entry) =
        let cb : Callback = record { future = entry.future; outcome = failed exc } in
        (
          none_left,
          ap (λ fs. fs f) (run_all-append m.scheduled (cb ∷ []) m.futures)
              ∙ run_callback_done cb (run_all m.scheduled m.futures) f (ap is_done got)
              ∙ got,
        )

module _ (now : ℕ) (raises : QueuedRequest → Option Raised) (n f : ℕ) (answer : Members) where
  abbrev Holding : Kernel → Type 0
  Holding k = Answered n f answer k.pending_responses

  complete_reply_keeps :
      (seq : Json) (k : Kernel) → Holding k → Holding (complete_reply now raises seq k)
  unfolding complete_reply
  complete_reply_keeps seq k h = by_seq (positive seq)
    where
      done : Kernel
      done = record k { active_timeout = none }

      by_test : (b : Bool) → Holding (if b then complete_active (kick now raises) done else k)
      by_test true =
          complete_active_keeps (Answered n f answer) (fail-Answered n f answer) now
            (kick_scheduler now raises)
            (kick_scheduler_keeps (Answered n f answer) (fail-Answered n f answer) now raises) done
            h
      by_test false = h

      by_seq :
          (o : Option ℕ)
          → Holding (elim o [
            | none ↦ k
            | some j ↦
                if not (is_idle k.request_state) && same_seq k.active_seq j
                then complete_active (kick now raises) done
                else k
          ])
      by_seq none = h
      by_seq (some j) = by_test (not (is_idle k.request_state) && same_seq k.active_seq j)

  complete_raw_reply_keeps :
      (seq : Json) (k : Kernel) → Holding k → Holding (complete_raw_reply now raises seq k)
  unfolding complete_raw_reply drop_request
  complete_raw_reply_keeps seq k h = by_seq (positive seq)
    where
      by_seq :
          (o : Option ℕ)
          → Holding
              (elim o [ none ↦ k | some j ↦ complete_reply now raises seq (drop_request j k) ])
      by_seq none = h
      by_seq (some j) = complete_reply_keeps seq (drop_request j k) h

-- A reply reaches its waiter: for a message with a positive sequence number, of its own or of the
-- authentication inside it, whose future was waiting with no other callback on its way to it, the
-- number is no longer pending after `_on_message`, whatever the scheduler sends or fails in it, and
-- the future holds the message once the event loop has run.
pub run_all-on_message :
    (now : ℕ) (raises : QueuedRequest → Option Raised)
    (dispatch : Dispatcher → Members → Dispatcher) (msg : Members) (k : Kernel) (n : ℕ)
    (entry : PendingResponse)
    → positive (with_auth_seq msg).0 ≡ some n
    → lookup n k.pending_responses.pending ≡ some entry
    → k.pending_responses.futures entry.future ≡ waiting
    → (Targets entry.future k.pending_responses.scheduled → ⊥)
    → let m = (on_message now raises dispatch msg k).pending_responses in
      (lookup n m.pending ≡ none)
      × (run_all m.scheduled m.futures entry.future ≡ result (with_auth_seq msg).1)
unfolding on_message note_received resolve_reply clear_pending_transport_retry
run_all-on_message now raises dispatch msg k n entry numbered found w free =
    cases (is_raw_seq (with_auth_seq msg).0 noted.raw_passthrough_seqs)
  where
    msg' : Members
    msg' = (with_auth_seq msg).1

    noted : Kernel
    noted = note_received now raises msg' (resolve_reply now raises (with_auth_seq msg).0 msg' k)

    dispatched : Kernel
    dispatched = record noted { dispatcher = dispatch noted.dispatcher msg' }

    after : Option ℕ → Kernel
    after o = elim o [
      | none ↦ k
      | some j ↦
          clear_pending_transport_retry j
            (record k { pending_responses = (resolve true true j msg' k.pending_responses).0 })
    ]

    answered : Answered n entry.future msg' noted.pending_responses
    answered =
        let (_, gone, _, got) =
          resolve_delivers true n msg' k.pending_responses entry found w free in
        subst (λ o. Answered n entry.future msg' (after o).pending_responses) (sym numbered)
          (gone, got)

    cases :
        (o : Option Bool)
        → (λ (k' : Kernel). Answered n entry.future msg' k'.pending_responses)
            (elim o [
              | none ↦ noted
              | some true ↦ complete_raw_reply now raises (get "seq" msg') noted
              | some false ↦ complete_reply now raises (get "seq" msg') dispatched
            ])
    cases none = answered
    cases (some true) =
        complete_raw_reply_keeps now raises n entry.future msg' (get "seq" msg') noted answered
    cases (some false) =
        complete_reply_keeps now raises n entry.future msg' (get "seq" msg') dispatched answered
