-- ===== src/Outbound/Once/Runs.antt =====
-- How often a whole run of src/elke27_lib/outbound_loop.py reports on an item.
use elke.Base.{ℕ, ◌+◌, ◌≤◌, ◌≡◌, refl, Bool, true, false, ◌&&◌, List, [], ◌∷◌, arith}
use elke.Outbound.{
  OutboundItem, Worker, ended, idle, polling, throttling, sending, OutboundQueue, start, enqueue,
  cancel_pending_seq, throttle_over, SendEnd, delivered, on_sent_raises, send_raises, after_failure,
  send_over, Step, starts, enqueues, stops, cancels, loops, gets, times_out, throttled, sends,
  run_step, run_steps,
}
use elke.Outbound.Once.{
  Bounded, asked, in_worker, one, one-and, outcomes, outcomes-append, requests, stop-Bounded,
  weight, weight-cancel_at, weight-got_normal, weight-next_item, weight-poll_timeout, weight-put_in,
  weight-start_worker,
}

module _ (p : OutboundItem → Bool) where
  throttle_over-Bounded :
      (s f : Bool) (w : Worker) (q : OutboundQueue)
      → in_worker p q.worker ≡ in_worker p w
      → Bounded p s f (weight p q) (throttle_over w q)
  unfolding outcomes
  throttle_over-Bounded s f (throttling item true) q e = omega arith
  throttle_over-Bounded s f (throttling item false) q e = omega arith
  throttle_over-Bounded s f ended q e = omega arith
  throttle_over-Bounded s f idle q e = omega arith
  throttle_over-Bounded s f polling q e = omega arith
  throttle_over-Bounded s f (sending item) q e = omega arith

  in_worker-after_failure : (b : Bool) → in_worker p (after_failure b) ≡ 0
  in_worker-after_failure true = refl
  in_worker-after_failure false = refl

  one-both : (s f b : Bool) → one (s && b) + one (f && b) ≤ one b + one (s && (f && b))
  one-both s f b = ground arith

  -- The send of such an item whose `on_sent` raises, if both callbacks count.
  abbrev pub twice : Bool → Bool → SendEnd → Worker → ℕ
  twice s f (on_sent_raises _) (sending item) = one (s && (f && p item))
  twice s f _ _ = 0

  send_over-Bounded :
      (s f : Bool) (e : SendEnd) (w : Worker) (q : OutboundQueue)
      → in_worker p q.worker ≡ in_worker p w
      → Bounded p s f (weight p q + twice s f e w) (send_over e w q)
  unfolding outcomes
  send_over-Bounded s f delivered (sending item) q h = let now = one-and p s (p item) in omega arith
  send_over-Bounded s f (on_sent_raises b) (sending item) q h =
      let none_left = in_worker-after_failure b in let now = one-both s f (p item) in omega arith
  send_over-Bounded s f (send_raises b) (sending item) q h =
      let none_left = in_worker-after_failure b in let now = one-and p f (p item) in omega arith
  send_over-Bounded s f delivered ended q h = omega arith
  send_over-Bounded s f delivered idle q h = omega arith
  send_over-Bounded s f delivered polling q h = omega arith
  send_over-Bounded s f delivered (throttling item c) q h = omega arith
  send_over-Bounded s f (on_sent_raises b) ended q h = omega arith
  send_over-Bounded s f (on_sent_raises b) idle q h = omega arith
  send_over-Bounded s f (on_sent_raises b) polling q h = omega arith
  send_over-Bounded s f (on_sent_raises b) (throttling item c) q h = omega arith
  send_over-Bounded s f (send_raises b) ended q h = omega arith
  send_over-Bounded s f (send_raises b) idle q h = omega arith
  send_over-Bounded s f (send_raises b) polling q h = omega arith
  send_over-Bounded s f (send_raises b) (throttling item c) q h = omega arith

  abbrev pub raised : Bool → Bool → OutboundQueue → Step → ℕ
  raised s f q (sends e) = twice s f e q.worker
  raised s f q _ = 0

  run_step-Bounded :
      (s f : Bool) (q : OutboundQueue) (c : Step)
      → Bounded p s f (weight p q + asked p c + raised s f q c) (run_step q c)
  unfolding run_step start enqueue cancel_pending_seq outcomes
  run_step-Bounded s f q starts = let w = weight-start_worker p q.worker q in omega arith
  run_step-Bounded s f q (enqueues item) =
      let w = weight-put_in p item.priority item q in omega arith
  run_step-Bounded s f q (stops has_exc) = let w = stop-Bounded p s f has_exc q in omega arith
  run_step-Bounded s f q (cancels n) = let w = weight-cancel_at p q.worker n q refl in omega arith
  run_step-Bounded s f q loops = let w = weight-next_item p q.worker q in omega arith
  run_step-Bounded s f q gets = let w = weight-got_normal p q.worker q in omega arith
  run_step-Bounded s f q times_out = let w = weight-poll_timeout p q.worker q in omega arith
  run_step-Bounded s f q throttled =
      let w = throttle_over-Bounded s f q.worker q refl in omega arith
  run_step-Bounded s f q (sends e) = let w = send_over-Bounded s f e q.worker q refl in omega arith

  -- In how many steps of the run the `on_sent` of such an item raises, if both callbacks count.
  unfoldable pub repeats : Bool → Bool → OutboundQueue → List Step → ℕ
  repeats s f q [] = 0
  repeats s f q (c ∷ cs) = raised s f q c + repeats s f (run_step q c).0 cs

  outcomes-weight :
      (s f : Bool) (q : OutboundQueue) (ss : List Step)
      → outcomes p s f (run_steps q ss).1 + weight p (run_steps q ss).0
        ≤ weight p q + requests p ss + repeats s f q ss
  unfolding run_steps outcomes requests repeats
  outcomes-weight s f q [] = omega arith
  outcomes-weight s f q (c ∷ cs) =
      let now = run_step-Bounded s f q c in
      let later = outcomes-weight s f (run_step q c).0 cs in
      let split = outcomes-append p s f (run_step q c).1 (run_steps (run_step q c).0 cs).1 in
      omega arith

  one-neither : (s f b : Bool) → (s && f) ≡ false → one (s && (f && b)) ≡ 0
  one-neither s f b h = ground arith

  twice-one : (s f : Bool) (e : SendEnd) (w : Worker) → (s && f) ≡ false → twice s f e w ≡ 0
  twice-one s f delivered w h = refl
  twice-one s f (send_raises b) w h = refl
  twice-one s f (on_sent_raises b) (sending item) h = one-neither s f (p item) h
  twice-one s f (on_sent_raises b) ended h = refl
  twice-one s f (on_sent_raises b) idle h = refl
  twice-one s f (on_sent_raises b) polling h = refl
  twice-one s f (on_sent_raises b) (throttling item c) h = refl

  raised-one : (s f : Bool) (q : OutboundQueue) (c : Step) → (s && f) ≡ false → raised s f q c ≡ 0
  raised-one s f q (sends e) h = twice-one s f e q.worker h
  raised-one s f q starts h = refl
  raised-one s f q (enqueues item) h = refl
  raised-one s f q (stops has_exc) h = refl
  raised-one s f q (cancels n) h = refl
  raised-one s f q loops h = refl
  raised-one s f q gets h = refl
  raised-one s f q times_out h = refl
  raised-one s f q throttled h = refl

  repeats-one :
      (s f : Bool) (q : OutboundQueue) (ss : List Step) → (s && f) ≡ false → repeats s f q ss ≡ 0
  unfolding repeats
  repeats-one s f q [] h = refl
  repeats-one s f q (c ∷ cs) h =
      let now = raised-one s f q c h in
      let later = repeats-one s f (run_step q c).0 cs h in omega arith

  -- Take the items that pass some test. In any run, the calls of `on_sent` for them together with
  -- those that the queue still has are never more than those that it had at first and those
  -- enqueued, and the same holds of the calls of `on_fail`. The calls of both together exceed that
  -- number by at most one for each of their sends whose `on_sent` raises. So an item that is enqueued
  -- once is never reported sent twice nor failed twice, and gets both reports only where its
  -- `on_sent` raises.
  pub outcomes-run_steps :
      (q : OutboundQueue) (ss : List Step)
      → let (q', ns) = run_steps q ss in
        (outcomes p true false ns + weight p q' ≤ weight p q + requests p ss)
        × (outcomes p false true ns + weight p q' ≤ weight p q + requests p ss)
        × (outcomes p true true ns + weight p q'
            ≤ weight p q + requests p ss + repeats true true q ss)
  outcomes-run_steps q ss =
      let a = outcomes-weight true false q ss in
      let b = outcomes-weight false true q ss in
      let no_a = repeats-one true false q ss refl in
      let no_b = repeats-one false true q ss refl in
      (omega arith, omega arith, outcomes-weight true true q ss)
