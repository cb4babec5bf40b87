-- ===== src/Outbound/Unsent.antt =====
-- The steps of src/elke27_lib/outbound_loop.py that keep a number unsent.
use elke.Base.{ℕ, ◌≡◌, Bool, true, false, List, [], ◌∷◌, ◌++◌, if◌then◌else◌, Bool-cases, inl, inr}
use elke.Outbound.{
  OutboundPriority, high, normal, OutboundItem, Worker, ended, idle, polling, throttling, sending,
  OutboundQueue, Notice, handed, sent, failed, has_seq, start, start_worker, put_in, enqueue,
  failures, stop, remove_seq, cancel_queued, cancel_at, cancel_pending_seq, take_high, take_normal,
  next_item, got_normal, poll_timeout, throttle_over, SendEnd, delivered, on_sent_raises,
  send_raises, after_failure, send_over, Step, starts, enqueues, stops, cancels, loops, gets,
  times_out, throttled, sends, run_step, run_steps,
}

-- No item of the list has the number.
abbrev pub NoneOf : ℕ → List OutboundItem → Type 0
NoneOf n [] = Unit
NoneOf n (item ∷ items) = (has_seq n item ≡ false) × NoneOf n items

-- The worker will not send the number: it holds another item, or it has a cancelled one.
abbrev pub Spares : ℕ → Worker → Type 0
Spares n (throttling item true) = Unit
Spares n (throttling item false) = has_seq n item ≡ false
Spares n _ = Unit

pub record IsUnsent (n : ℕ) (q : OutboundQueue) : Type 0 where
  pub highs : NoneOf n q.high_q
  pub normals : NoneOf n q.normal_q
  pub spares : Spares n q.worker

-- No item with the number is handed to `send_fn`.
abbrev pub NotHanded : ℕ → List Notice → Type 0
NotHanded n [] = Unit
NotHanded n (handed item ∷ ns) = (has_seq n item ≡ false) × NotHanded n ns
NotHanded n (sent _ ∷ ns) = NotHanded n ns
NotHanded n (failed _ ∷ ns) = NotHanded n ns

NotHanded-append :
    (n : ℕ) (xs ys : List Notice) → NotHanded n xs → NotHanded n ys → NotHanded n (xs ++ ys)
NotHanded-append n [] ys h k = k
NotHanded-append n (handed item ∷ xs) ys (first, h) k = (first, NotHanded-append n xs ys h k)
NotHanded-append n (sent _ ∷ xs) ys h k = NotHanded-append n xs ys h k
NotHanded-append n (failed _ ∷ xs) ys h k = NotHanded-append n xs ys h k

failures-NotHanded : (n : ℕ) (items : List OutboundItem) → NotHanded n (failures items)
failures-NotHanded n [] = tt
failures-NotHanded n (item ∷ items) = failures-NotHanded n items

NoneOf-append :
    (n : ℕ) (items : List OutboundItem) (item : OutboundItem)
    → NoneOf n items
    → has_seq n item ≡ false
    → NoneOf n (items ++ (item ∷ []))
NoneOf-append n [] item h new = (new, tt)
NoneOf-append n (x ∷ items) item (first, h) new = (first, NoneOf-append n items item h new)

-- What a list has not, what is kept of it has not either.
remove_seq-keeps :
    (n m : ℕ) (items : List OutboundItem) → NoneOf n items → NoneOf n (remove_seq m items).0
remove_seq-keeps n m [] h = tt
remove_seq-keeps n m (item ∷ items) (first, h) = elim (Bool-cases (has_seq m item)) [
  | inl e ↦ rw e (remove_seq-keeps n m items h)
  | inr e ↦ rw e (first, remove_seq-keeps n m items h)
]

-- A step that is not an `enqueue` of the number.
abbrev pub Foreign : ℕ → Step → Type 0
Foreign n (enqueues item) = has_seq n item ≡ false
Foreign n _ = Unit

abbrev pub AllForeign : ℕ → List Step → Type 0
AllForeign n [] = Unit
AllForeign n (s ∷ ss) = Foreign n s × AllForeign n ss

-- The step keeps the number unsent and hands none of its items over.
abbrev pub Safe : ℕ → OutboundQueue × List Notice → Type 0
Safe n (q, ns) = IsUnsent n q × NotHanded n ns

module _ (n : ℕ) where
  take_high-IsUnsent :
      (items : List OutboundItem) (otherwise : Worker) (q : OutboundQueue)
      → NoneOf n items
      → NoneOf n q.high_q
      → NoneOf n q.normal_q
      → Spares n otherwise
      → IsUnsent n (take_high items otherwise q)
  take_high-IsUnsent [] otherwise q h a b s = record { highs = a; normals = b; spares = s }
  take_high-IsUnsent (item ∷ items) otherwise q (first, h) a b s = record {
    highs = h;
    normals = b;
    spares = first;
  }

  take_normal-IsUnsent :
      (items : List OutboundItem) (q : OutboundQueue)
      → NoneOf n items
      → IsUnsent n q
      → IsUnsent n (take_normal items q)
  take_normal-IsUnsent [] q h u = u
  take_normal-IsUnsent (item ∷ items) q (first, h) u = record {
    highs = u.highs;
    normals = h;
    spares = first;
  }

  cancel_queued-IsUnsent :
      (m : ℕ) (q : OutboundQueue) → IsUnsent n q → IsUnsent n (cancel_queued m q).0
  cancel_queued-IsUnsent m q u = record {
    highs = remove_seq-keeps n m q.high_q u.highs;
    normals = remove_seq-keeps n m q.normal_q u.normals;
    spares = u.spares;
  }

  cancel_at-IsUnsent :
      (w : Worker) (m : ℕ) (q : OutboundQueue) → IsUnsent n q → IsUnsent n (cancel_at w m q).0
  cancel_at-IsUnsent (throttling item c) m q u = elim (Bool-cases (has_seq m item)) [
    | inl e ↦ rw e (record { highs = u.highs; normals = u.normals; spares = tt })
    | inr e ↦ rw e (cancel_queued-IsUnsent m q u)
  ]
  cancel_at-IsUnsent (sending item) m q u = elim (Bool-cases (has_seq m item)) [
    | inl e ↦ rw e u
    | inr e ↦ rw e (cancel_queued-IsUnsent m q u)
  ]
  cancel_at-IsUnsent ended m q u = cancel_queued-IsUnsent m q u
  cancel_at-IsUnsent idle m q u = cancel_queued-IsUnsent m q u
  cancel_at-IsUnsent polling m q u = cancel_queued-IsUnsent m q u

  start_worker-IsUnsent :
      (w : Worker) (q : OutboundQueue) → IsUnsent n q → IsUnsent n (start_worker w q)
  start_worker-IsUnsent ended q u = record { highs = u.highs; normals = u.normals; spares = tt }
  start_worker-IsUnsent idle q u = u
  start_worker-IsUnsent polling q u = u
  start_worker-IsUnsent (throttling item c) q u = u
  start_worker-IsUnsent (sending item) q u = u

  put_in-IsUnsent :
      (p : OutboundPriority) (item : OutboundItem) (q : OutboundQueue)
      → has_seq n item ≡ false
      → IsUnsent n q
      → IsUnsent n (put_in p item q)
  put_in-IsUnsent high item q new u = record {
    highs = NoneOf-append n q.high_q item u.highs new;
    normals = u.normals;
    spares = u.spares;
  }
  put_in-IsUnsent normal item q new u = record {
    highs = u.highs;
    normals = NoneOf-append n q.normal_q item u.normals new;
    spares = u.spares;
  }

  stop-Safe : (has_exc : Bool) (q : OutboundQueue) → IsUnsent n q → Safe n (stop has_exc q)
  unfolding stop
  stop-Safe true q u = (
    record { highs = tt; normals = tt; spares = tt },
    NotHanded-append n (failures q.high_q) (failures q.normal_q) (failures-NotHanded n q.high_q)
        (failures-NotHanded n q.normal_q),
  )
  stop-Safe false q u = (record { highs = u.highs; normals = u.normals; spares = tt }, tt)

  loop_test-IsUnsent :
      (b : Bool) (q : OutboundQueue)
      → IsUnsent n q
      → IsUnsent n (if b then record q { worker = ended } else take_high q.high_q polling q)
  loop_test-IsUnsent true q u = record { highs = u.highs; normals = u.normals; spares = tt }
  loop_test-IsUnsent false q u = take_high-IsUnsent q.high_q polling q u.highs u.highs u.normals tt

  next_item-IsUnsent : (w : Worker) (q : OutboundQueue) → IsUnsent n q → IsUnsent n (next_item w q)
  next_item-IsUnsent idle q u = loop_test-IsUnsent q.stop_set q u
  next_item-IsUnsent ended q u = u
  next_item-IsUnsent polling q u = u
  next_item-IsUnsent (throttling item c) q u = u
  next_item-IsUnsent (sending item) q u = u

  got_normal-IsUnsent :
      (w : Worker) (q : OutboundQueue) → IsUnsent n q → IsUnsent n (got_normal w q)
  got_normal-IsUnsent polling q u = take_normal-IsUnsent q.normal_q q u.normals u
  got_normal-IsUnsent ended q u = u
  got_normal-IsUnsent idle q u = u
  got_normal-IsUnsent (throttling item c) q u = u
  got_normal-IsUnsent (sending item) q u = u

  poll_timeout-IsUnsent :
      (w : Worker) (q : OutboundQueue) → IsUnsent n q → IsUnsent n (poll_timeout w q)
  poll_timeout-IsUnsent polling q u =
      take_high-IsUnsent q.high_q idle q u.highs u.highs u.normals tt
  poll_timeout-IsUnsent ended q u = u
  poll_timeout-IsUnsent idle q u = u
  poll_timeout-IsUnsent (throttling item c) q u = u
  poll_timeout-IsUnsent (sending item) q u = u

  throttle_over-Safe :
      (w : Worker) (q : OutboundQueue) → Spares n w → IsUnsent n q → Safe n (throttle_over w q)
  throttle_over-Safe (throttling item true) q s u =
      (record { highs = u.highs; normals = u.normals; spares = tt }, tt)
  throttle_over-Safe (throttling item false) q s u =
      (record { highs = u.highs; normals = u.normals; spares = tt }, (s, tt))
  throttle_over-Safe ended q s u = (u, tt)
  throttle_over-Safe idle q s u = (u, tt)
  throttle_over-Safe polling q s u = (u, tt)
  throttle_over-Safe (sending item) q s u = (u, tt)

  free :
      (b : Bool) (q : OutboundQueue)
      → IsUnsent n q
      → IsUnsent n (record q { worker = after_failure b })
  free true q u = record { highs = u.highs; normals = u.normals; spares = tt }
  free false q u = record { highs = u.highs; normals = u.normals; spares = tt }

  send_over-Safe :
      (e : SendEnd) (w : Worker) (q : OutboundQueue) → IsUnsent n q → Safe n (send_over e w q)
  send_over-Safe delivered (sending item) q u =
      (record { highs = u.highs; normals = u.normals; spares = tt }, tt)
  send_over-Safe (on_sent_raises b) (sending item) q u = (free b q u, tt)
  send_over-Safe (send_raises b) (sending item) q u = (free b q u, tt)
  send_over-Safe delivered ended q u = (u, tt)
  send_over-Safe delivered idle q u = (u, tt)
  send_over-Safe delivered polling q u = (u, tt)
  send_over-Safe delivered (throttling item c) q u = (u, tt)
  send_over-Safe (on_sent_raises b) ended q u = (u, tt)
  send_over-Safe (on_sent_raises b) idle q u = (u, tt)
  send_over-Safe (on_sent_raises b) polling q u = (u, tt)
  send_over-Safe (on_sent_raises b) (throttling item c) q u = (u, tt)
  send_over-Safe (send_raises b) ended q u = (u, tt)
  send_over-Safe (send_raises b) idle q u = (u, tt)
  send_over-Safe (send_raises b) polling q u = (u, tt)
  send_over-Safe (send_raises b) (throttling item c) q u = (u, tt)

  run_step-Safe :
      (q : OutboundQueue) (s : Step) → Foreign n s → IsUnsent n q → Safe n (run_step q s)
  unfolding run_step start enqueue stop cancel_pending_seq
  run_step-Safe q starts f u = (start_worker-IsUnsent q.worker q u, tt)
  run_step-Safe q (enqueues item) f u = (put_in-IsUnsent item.priority item q f u, tt)
  run_step-Safe q (stops has_exc) f u = stop-Safe has_exc q u
  run_step-Safe q (cancels m) f u = (cancel_at-IsUnsent q.worker m q u, tt)
  run_step-Safe q loops f u = (next_item-IsUnsent q.worker q u, tt)
  run_step-Safe q gets f u = (got_normal-IsUnsent q.worker q u, tt)
  run_step-Safe q times_out f u = (poll_timeout-IsUnsent q.worker q u, tt)
  run_step-Safe q throttled f u = throttle_over-Safe q.worker q u.spares u
  run_step-Safe q (sends e) f u = send_over-Safe e q.worker q u

  pub run_steps-Safe :
      (q : OutboundQueue) (ss : List Step)
      → AllForeign n ss
      → IsUnsent n q
      → Safe n (run_steps q ss)
  unfolding run_steps
  run_steps-Safe q [] f u = (u, tt)
  run_steps-Safe q (s ∷ ss) (f, fs) u =
      let now = run_step-Safe q s f u in
      let later = run_steps-Safe (run_step q s).0 ss fs now.0 in
      (later.0, NotHanded-append n (run_step q s).1 (run_steps (run_step q s).0 ss).1 now.1 later.1)
