-- ===== src/Outbound/Tests.antt =====
-- Runs of src/elke27_lib/outbound_loop.py, and its theorems at concrete inputs.
use elke.Base.{◌≡◌, ◌≤◌, ◌+◌, refl, true, false, some, List, [], ◌∷◌, inr}
use elke.Outbound.{
  Step, OutboundItem, OutboundQueue, high, normal, ended, throttling, handed, sent, failed, start,
  stop, has_seq, enqueue, cancel_pending_seq, loops, gets, times_out, throttled, sends, delivered,
  on_sent_raises, send_raises, stops, enqueues, starts, run_step, run_steps,
}
use elke.Outbound.Once.{outcomes, weight, requests}
use elke.Outbound.Once.Runs.{repeats, outcomes-run_steps}
use elke.Outbound.Cancel.{cancel_pending_seq-NotHanded}
use elke.Outbound.Unsent.{NotHanded}

abbrev first : OutboundItem
first = record { payload = 1 ∷ []; seq = some 5; priority = normal }

abbrev second : OutboundItem
second = record { payload = 2 ∷ []; seq = some 6; priority = high }

abbrev empty_queue : OutboundQueue
empty_queue = record { high_q = []; normal_q = []; stop_set = false; worker = ended }

-- The worker throttles the first item while the second one is queued.
abbrev busy_queue : OutboundQueue
busy_queue = record {
  high_q = second ∷ [];
  normal_q = [];
  stop_set = false;
  worker = throttling first false;
}

-- The item of high priority overtakes the other.
high_first :
    (run_steps empty_queue (
      enqueues first
      ∷ enqueues second
      ∷ starts
      ∷ loops
      ∷ throttled
      ∷ sends delivered
      ∷ loops
      ∷ gets
      ∷ throttled
      ∷ sends (send_raises false)
      ∷ [])).1
    ≡ handed second ∷ sent second ∷ handed first ∷ failed first ∷ []
unfolding run_steps run_step start enqueue
high_first = refl

-- An item that is being throttled when the queue stops gets no notice.
stop_loses :
    (run_steps busy_queue (stops true ∷ starts ∷ loops ∷ times_out ∷ [])).1 ≡ failed second ∷ []
unfolding run_steps run_step start stop
stop_loses = refl

cancel_pending_seq-NotHanded_example :
    NotHanded 5
      (run_steps
        (cancel_pending_seq 5 busy_queue).0
        (throttled ∷ loops ∷ throttled ∷ sends delivered ∷ [])).1
unfolding cancel_pending_seq
cancel_pending_seq-NotHanded_example =
    cancel_pending_seq-NotHanded 5 busy_queue (throttled ∷ loops ∷ throttled ∷ sends delivered ∷ [])
      (inr ((refl, tt), tt)) refl (tt, (tt, (tt, (tt, tt))))

abbrev calls : List Step
calls = throttled ∷ sends delivered ∷ enqueues first ∷ loops ∷ throttled ∷ sends delivered ∷ []

outcomes-run_steps_example :
    let (q, ns) = run_steps busy_queue calls in
    let p = has_seq 5 in
    (outcomes p true false ns + weight p q ≤ weight p busy_queue + requests p calls)
    × (outcomes p false true ns + weight p q ≤ weight p busy_queue + requests p calls)
    × (outcomes p true true ns + weight p q
        ≤ weight p busy_queue + requests p calls + repeats p true true busy_queue calls)
outcomes-run_steps_example = outcomes-run_steps (has_seq 5) busy_queue calls

-- An `on_sent` that raises is followed by `on_fail`, and an `on_fail` that raises ends the worker.
both_reports :
    run_steps busy_queue (throttled ∷ sends (on_sent_raises true) ∷ loops ∷ [])
    ≡ (record busy_queue { worker = ended }, handed first ∷ sent first ∷ failed first ∷ [])
unfolding run_steps run_step
both_reports = refl
