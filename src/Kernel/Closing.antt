-- ===== src/Kernel/Closing.antt =====
-- `close` and `_abort_requests` of src/elke27_lib/kernel_loop.py: nobody is left waiting.
pub mod Over
use elke.Dispatch.State.{abort_paged_transfers}
use elke.Session.State.{SessionError}
use elke.Base.{
  ℕ, ◌≡◌, ◌⊎◌, refl, sym, ap, ◌∙◌, Bool, true, false, not, ◌||◌, Option, none, some, List, [], ◌∷◌,
  String, if◌then◌else◌, ◌==◌, ==_iff, Bool-cases, inl, inr,
}
use elke.Base.Dict.{Dict, nat_key, lookup, erase, lookup-erase}
use elke.Pending.{
  PendingResponse, PendingResponseManager, failed, call_in_loop, pop, settle_entry, fail, fail_all,
}
use elke.Pending.FailAll.{
  Holds, WillSettle, call_in_loop-WillSettle, call_in_loop-keeps, fail_all_settles,
  fail_entries-keeps,
}
use elke.Kernel.{QueuedRequest, Kernel}
use elke.Kernel.Scheduler.{Raised, mark_send_failed, fail_queued_command, is_idle, drop_request}
use elke.Kernel.Scheduler.Failures.{complete_active}
use elke.Kernel.Calls.Ends.{
  closed_error, on_session_disconnected, connection_lost, stop_keepalive, close_kernel,
}
use elke.Kernel.Calls.{
  drop_fire_and_forget_pending, drain_requests, fail_active, fail_each, signal_all_sent_events,
  fail_all_pending_commands, abort_requests, has_session,
}
use elke.Kernel.Waiting.Ends.{abort_requests_unqueued, fail_all_pending_commands_unqueued}

-- The entry is in the table, or its future is done or about to be.
abbrev Awaited : ℕ → PendingResponse → PendingResponseManager → Type 0
Awaited j entry m = (lookup j m.pending ≡ some entry) ⊎ WillSettle entry.future m

fail-Awaited :
    (j : ℕ) (entry : PendingResponse) (seq : ℕ) (exc : String) (m : PendingResponseManager)
    → Awaited j entry m
    → Awaited j entry (fail true true seq exc m).0
unfolding fail pop call_in_loop
fail-Awaited j entry seq exc m (inr w) = later (lookup seq m.pending)
  where
    later :
        (o : Option PendingResponse)
        → Awaited j entry
            (settle_entry true (failed exc) (record m { pending = erase seq m.pending }, o)).0
    later none = inr w
    later (some other) = inr (
        call_in_loop-keeps true (record { future = other.future; outcome = failed exc })
          (record m { pending = erase seq m.pending }) entry.future refl w)
fail-Awaited j entry seq exc m (inl e) = elim (Bool-cases (j == seq)) [
  | inl same ↦
      let here : lookup seq m.pending ≡ some entry =
        ap (λ i. lookup i m.pending) (sym ((==_iff j seq).0 same)) ∙ e in
      rw here (
        inr (
          call_in_loop-WillSettle true (record { future = entry.future; outcome = failed exc })
            (record m { pending = erase seq m.pending }) refl))
  | inr other ↦ still (lookup seq m.pending) (lookup-erase j seq m.pending ∙ rw other e)
]
  where
    still :
        (o : Option PendingResponse)
        → lookup j (erase seq m.pending) ≡ some entry
        → Awaited j entry
            (settle_entry true (failed exc) (record m { pending = erase seq m.pending }, o)).0
    still none kept = inl kept
    still (some found) kept = inl kept

module _ (j : ℕ) (entry : PendingResponse) where
  abbrev pub AwaitedIn : Kernel → Type 0
  AwaitedIn k = Awaited j entry k.pending_responses

  fail_each-AwaitedIn :
      (f : QueuedRequest → Kernel → Kernel)
      → ((item : QueuedRequest) (k : Kernel) → AwaitedIn k → AwaitedIn (f item k))
      → (items : List QueuedRequest) (k : Kernel) → AwaitedIn k
      → AwaitedIn (fail_each f items k)
  unfolding fail_each
  fail_each-AwaitedIn f keeps [] k a = a
  fail_each-AwaitedIn f keeps (item ∷ items) k a =
      fail_each-AwaitedIn f keeps items (f item k) (keeps item k a)

  fail_active-AwaitedIn : (exc : Raised) (k : Kernel) → AwaitedIn k → AwaitedIn (fail_active exc k)
  unfolding fail_active
  fail_active-AwaitedIn exc k a =
      cases k.active_seq (is_idle k.request_state || k.active_released) k.active_released
    where
      cases :
          (o : Option ℕ) (b released : Bool)
          → AwaitedIn (elim o [
            | none ↦ k
            | some seq ↦
                if b
                then k
                else if released
                then mark_send_failed seq exc k
                else complete_active
                    (λ after. after)
                    (record (mark_send_failed seq exc k) { active_released = false })
          ])
      cases none b released = a
      cases (some seq) true released = a
      cases (some seq) false true = fail-Awaited j entry seq exc.text k.pending_responses a
      cases (some seq) false false = fail-Awaited j entry seq exc.text k.pending_responses a

  dropped :
      (seqs : List ℕ) (k : Kernel) → AwaitedIn k → AwaitedIn (drop_fire_and_forget_pending seqs k)
  unfolding drop_fire_and_forget_pending
  dropped [] k a = a
  dropped (seq ∷ seqs) k a = dropped seqs (drop_request seq k) a

  lookup-Holds : (d : Dict ℕ PendingResponse) → lookup j d ≡ some entry → Holds entry.future d
  unfolding lookup
  lookup-Holds [] e = cc
  lookup-Holds ((i, other) ∷ d) e = elim (Bool-cases (j == i)) [
    | inl same ↦
        inl (ap (λ (x : PendingResponse). x.future) (unsome entry other (sym (rw same at e))))
    | inr no_match ↦ inr (lookup-Holds d (rw no_match at e))
  ]
    where
      unsome : (a b : PendingResponse) → some a ≡ some b → a ≡ b
      unsome a b h = cc

  settles :
      (exc : String) (m : PendingResponseManager)
      → Awaited j entry m
      → WillSettle entry.future (fail_all true true exc m).0
  unfolding fail_all
  settles exc m (inl e) = (fail_all_settles true exc m entry.future (lookup-Holds m.pending e)).1
  settles exc m (inr w) =
      fail_entries-keeps true exc m.pending (record m { pending = [] }) entry.future w

  pub abort_requests-WillSettle :
      (exc : Raised) (k : Kernel)
      → AwaitedIn k
      → WillSettle entry.future (abort_requests exc k).pending_responses
  unfolding abort_requests drain_requests mark_send_failed
  abort_requests-WillSettle exc k a =
      let drained = (drain_requests k).1 in
      let active = fail_active exc drained in
      settles exc.text
        (fail_each (λ item. mark_send_failed item.seq exc) (drain_requests k).0
          active).pending_responses
        (fail_each-AwaitedIn (λ item. mark_send_failed item.seq exc)
          (λ item k' a'. fail-Awaited j entry item.seq exc.text k'.pending_responses a')
          (drain_requests k).0 active (fail_active-AwaitedIn exc drained a))

  pub fail_all_pending_commands-WillSettle :
      (exc : Raised) (k : Kernel)
      → AwaitedIn k
      → WillSettle entry.future (fail_all_pending_commands exc k).pending_responses
  unfolding fail_all_pending_commands drain_requests fail_queued_command signal_all_sent_events
  fail_all_pending_commands-WillSettle exc k a =
      let start = drop_fire_and_forget_pending k.fire_and_forget_pending_seqs k in
      let drained = (drain_requests start).1 in
      let active = fail_active exc drained in
      settles exc.text
        (fail_each (fail_queued_command exc) (drain_requests start).0 active).pending_responses
        (fail_each-AwaitedIn (fail_queued_command exc)
          (λ item k' a'. fail-Awaited j entry item.seq exc.text k'.pending_responses a')
          (drain_requests start).0 active
          (fail_active-AwaitedIn exc drained (dropped k.fire_and_forget_pending_seqs k a)))
