-- ===== src/Outbound/Once.antt =====
-- How often src/elke27_lib/outbound_loop.py reports on an item.
pub mod Runs
use elke.Base.{
  ℕ, ◌+◌, ◌≤◌, ◌≡◌, refl, ap, Bool, true, false, ◌&&◌, List, [], ◌∷◌, ◌++◌, if◌then◌else◌,
  Bool-cases, inl, inr, arith,
}
use elke.Outbound.{
  OutboundPriority, high, normal, OutboundItem, Worker, ended, idle, polling, throttling, sending,
  OutboundQueue, Notice, handed, sent, failed, has_seq, start, start_worker, put_in, enqueue,
  failures, stop, remove_seq, cancel_queued, cancel_at, cancel_pending_seq, take_high, take_normal,
  next_item, got_normal, poll_timeout, throttle_over, SendEnd, delivered, on_sent_raises,
  send_raises, after_failure, send_over, Step, starts, enqueues, stops, cancels, loops, gets,
  times_out, throttled, sends, run_step, run_steps,
}

abbrev pub one : Bool → ℕ
one b = if b then 1 else 0

module _ (p : OutboundItem → Bool) where
  unfoldable pub count : List OutboundItem → ℕ
  count [] = 0
  count (item ∷ items) = one (p item) + count items

  abbrev pub in_worker : Worker → ℕ
  in_worker (throttling item _) = one (p item)
  in_worker (sending item) = one (p item)
  in_worker _ = 0

  -- How many items that pass the test the queue still has.
  abbrev pub weight : OutboundQueue → ℕ
  weight q = count q.high_q + count q.normal_q + in_worker q.worker

  -- How often `on_sent` is called for such an item, if `on_sents`, and `on_fail`, if `on_fails`.
  unfoldable pub outcomes : Bool → Bool → List Notice → ℕ
  outcomes on_sents on_fails [] = 0
  outcomes on_sents on_fails (handed _ ∷ ns) = outcomes on_sents on_fails ns
  outcomes on_sents on_fails (sent item ∷ ns) =
      one (on_sents && p item) + outcomes on_sents on_fails ns
  outcomes on_sents on_fails (failed item ∷ ns) =
      one (on_fails && p item) + outcomes on_sents on_fails ns

  abbrev pub asked : Step → ℕ
  asked (enqueues item) = one (p item)
  asked _ = 0

  -- How many such items are enqueued.
  unfoldable pub requests : List Step → ℕ
  requests [] = 0
  requests (s ∷ ss) = asked s + requests ss

  count-append :
      (items : List OutboundItem) (item : OutboundItem)
      → count (items ++ (item ∷ [])) ≡ count items + one (p item)
  unfolding count
  count-append [] item = omega arith
  count-append (x ∷ items) item = let rest = count-append items item in omega arith

  pub outcomes-append :
      (s f : Bool) (xs ys : List Notice)
      → outcomes s f (xs ++ ys) ≡ outcomes s f xs + outcomes s f ys
  unfolding outcomes
  outcomes-append s f [] ys = omega arith
  outcomes-append s f (handed _ ∷ xs) ys = outcomes-append s f xs ys
  outcomes-append s f (sent item ∷ xs) ys = let rest = outcomes-append s f xs ys in omega arith
  outcomes-append s f (failed item ∷ xs) ys = let rest = outcomes-append s f xs ys in omega arith

  pub one-and : (f b : Bool) → one (f && b) ≤ one b
  one-and true b = omega arith
  one-and false b = ground arith

  outcomes-failures :
      (s f : Bool) (items : List OutboundItem) → outcomes s f (failures items) ≤ count items
  unfolding outcomes count
  outcomes-failures s f [] = omega arith
  outcomes-failures s f (item ∷ items) =
      let rest = outcomes-failures s f items in let now = one-and f (p item) in omega arith

  count-remove_seq :
      (n : ℕ) (items : List OutboundItem) → count (remove_seq n items).0 ≤ count items
  unfolding count
  count-remove_seq n [] = omega arith
  count-remove_seq n (item ∷ items) = elim (Bool-cases (has_seq n item)) [
    | inl e ↦ rw e (let rest = count-remove_seq n items in omega arith)
    | inr e ↦ rw e (let rest = count-remove_seq n items in omega arith)
  ]

  pub weight-put_in :
      (priority : OutboundPriority) (item : OutboundItem) (q : OutboundQueue)
      → weight (put_in priority item q) ≤ weight q + one (p item)
  weight-put_in high item q = let a = count-append q.high_q item in omega arith
  weight-put_in normal item q = let a = count-append q.normal_q item in omega arith

  weight-take_high :
      (items : List OutboundItem) (otherwise : Worker) (q : OutboundQueue)
      → q.high_q ≡ items
      → in_worker otherwise ≡ 0
      → weight (take_high items otherwise q) ≤ weight q
  unfolding count
  weight-take_high [] otherwise q e none = omega arith
  weight-take_high (item ∷ items) otherwise q e none = let total = ap count e in omega arith

  -- No item gets an outcome that was neither in the queue nor enqueued.
  abbrev pub Bounded : Bool → Bool → ℕ → OutboundQueue × List Notice → Type 0
  Bounded s f most (q, ns) = outcomes s f ns + weight q ≤ most

  weight-take_normal :
      (items : List OutboundItem) (q : OutboundQueue)
      → q.normal_q ≡ items
      → weight (take_normal items q) ≤ weight q
  unfolding count
  weight-take_normal [] q e = omega arith
  weight-take_normal (item ∷ items) q e = let total = ap count e in omega arith

  pub weight-start_worker : (w : Worker) (q : OutboundQueue) → weight (start_worker w q) ≤ weight q
  weight-start_worker ended q = omega arith
  weight-start_worker idle q = omega arith
  weight-start_worker polling q = omega arith
  weight-start_worker (throttling item c) q = omega arith
  weight-start_worker (sending item) q = omega arith

  pub stop-Bounded :
      (s f has_exc : Bool) (q : OutboundQueue) → Bounded s f (weight q) (stop has_exc q)
  unfolding stop count outcomes
  stop-Bounded s f true q =
      let split = outcomes-append s f (failures q.high_q) (failures q.normal_q) in
      let a = outcomes-failures s f q.high_q in
      let b = outcomes-failures s f q.normal_q in omega arith
  stop-Bounded s f false q = omega arith

  weight-cancel_queued : (n : ℕ) (q : OutboundQueue) → weight (cancel_queued n q).0 ≤ weight q
  weight-cancel_queued n q =
      let a = count-remove_seq n q.high_q in let b = count-remove_seq n q.normal_q in omega arith

  pub weight-cancel_at :
      (w : Worker) (n : ℕ) (q : OutboundQueue)
      → in_worker q.worker ≡ in_worker w
      → weight (cancel_at w n q).0 ≤ weight q
  weight-cancel_at (throttling item c) n q e = elim (Bool-cases (has_seq n item)) [
    | inl h ↦ rw h (omega arith)
    | inr h ↦ rw h (weight-cancel_queued n q)
  ]
  weight-cancel_at (sending item) n q e = elim (Bool-cases (has_seq n item)) [
    | inl h ↦ rw h (omega arith)
    | inr h ↦ rw h (weight-cancel_queued n q)
  ]
  weight-cancel_at ended n q e = weight-cancel_queued n q
  weight-cancel_at idle n q e = weight-cancel_queued n q
  weight-cancel_at polling n q e = weight-cancel_queued n q

  weight-loop_test :
      (b : Bool) (q : OutboundQueue)
      → weight (if b then record q { worker = ended } else take_high q.high_q polling q) ≤ weight q
  weight-loop_test true q = omega arith
  weight-loop_test false q = weight-take_high q.high_q polling q refl refl

  pub weight-next_item : (w : Worker) (q : OutboundQueue) → weight (next_item w q) ≤ weight q
  weight-next_item idle q = weight-loop_test q.stop_set q
  weight-next_item ended q = omega arith
  weight-next_item polling q = omega arith
  weight-next_item (throttling item c) q = omega arith
  weight-next_item (sending item) q = omega arith

  pub weight-got_normal : (w : Worker) (q : OutboundQueue) → weight (got_normal w q) ≤ weight q
  weight-got_normal polling q = weight-take_normal q.normal_q q refl
  weight-got_normal ended q = omega arith
  weight-got_normal idle q = omega arith
  weight-got_normal (throttling item c) q = omega arith
  weight-got_normal (sending item) q = omega arith

  pub weight-poll_timeout : (w : Worker) (q : OutboundQueue) → weight (poll_timeout w q) ≤ weight q
  weight-poll_timeout polling q = weight-take_high q.high_q idle q refl refl
  weight-poll_timeout ended q = omega arith
  weight-poll_timeout idle q = omega arith
  weight-poll_timeout (throttling item c) q = omega arith
  weight-poll_timeout (sending item) q = omega arith
