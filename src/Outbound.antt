-- ===== src/Outbound.antt =====
-- src/elke27_lib/outbound_loop.py: `OutboundQueue`, as one step for each thing that its worker, its
-- callers or the clock do. The token bucket only decides how long a throttle step takes, and is not
-- modelled, nor are the fields of an item that only log records read.
pub mod Cancel
pub mod Once
pub mod Unsent
mod Tests
use elke.Base.{
  ℕ, Bool, true, false, not, ◌&&◌, ◌||◌, Option, none, some, List, [], ◌∷◌, ◌++◌, ◌==◌,
  if◌then◌else◌,
}
use elke.Base.Bytes.{Bytes}

pub data OutboundPriority : Type 0 where
  high normal : OutboundPriority

pub record OutboundItem : Type 0 where
  pub payload : Bytes
  pub seq : Option ℕ
  pub priority : OutboundPriority

-- Where the worker task stands: not running, at the head of its loop, waiting for a normal item,
-- or with an item, throttled (and cancelled or not) or being sent.
pub data Worker : Type 0 where
  ended idle polling : Worker
  throttling : OutboundItem → Bool → Worker
  sending : OutboundItem → Worker

pub record OutboundQueue : Type 0 where
  pub high_q : List OutboundItem
  pub normal_q : List OutboundItem
  pub stop_set : Bool
  pub worker : Worker

-- The bytes handed to `send_fn`, and the calls of `on_sent` and `on_fail`, for items that have these
-- callbacks.
pub data Notice : Type 0 where
  handed sent failed : OutboundItem → Notice

abbrev pub has_seq : ℕ → OutboundItem → Bool
has_seq n item = elim item.seq [ none ↦ false | some m ↦ m == n ]

abbrev pub start_worker : Worker → OutboundQueue → OutboundQueue
start_worker ended q = record q { stop_set = false; worker = idle }
start_worker _ q = q

unfoldable pub start : OutboundQueue → OutboundQueue
start q = start_worker q.worker q

abbrev pub put_in : OutboundPriority → OutboundItem → OutboundQueue → OutboundQueue
put_in high item q = record q { high_q = q.high_q ++ (item ∷ []) }
put_in normal item q = record q { normal_q = q.normal_q ++ (item ∷ []) }

unfoldable pub enqueue : OutboundItem → OutboundQueue → OutboundQueue
enqueue item q = put_in item.priority item q

abbrev pub failures : List OutboundItem → List Notice
failures [] = []
failures (item ∷ items) = failed item ∷ failures items

-- `stop`: the queues are drained if there is an exception to fail them with, and the worker's task
-- is cancelled, which raises in it no `Exception`, so that an item it holds gets no notice. The step
-- includes the end of that task, which comes when the event loop runs it next.
unfoldable pub stop : Bool → OutboundQueue → OutboundQueue × List Notice
stop has_exc q =
    if has_exc
    then (
      record { high_q = []; normal_q = []; stop_set = true; worker = ended },
      failures q.high_q ++ failures q.normal_q,
    )
    else (record q { stop_set = true; worker = ended }, [])

-- The items kept, and whether one was removed.
abbrev pub remove_seq : ℕ → List OutboundItem → List OutboundItem × Bool
remove_seq n [] = ([], false)
remove_seq n (item ∷ items) =
    let (kept, removed) = remove_seq n items in
    if has_seq n item then (kept, true) else (item ∷ kept, removed)

abbrev pub cancel_queued : ℕ → OutboundQueue → OutboundQueue × Bool
cancel_queued n q =
    let (highs, a) = remove_seq n q.high_q in
    let (normals, b) = remove_seq n q.normal_q in
    (record q { high_q = highs; normal_q = normals }, a || b)

abbrev pub cancel_at : Worker → ℕ → OutboundQueue → OutboundQueue × Bool
cancel_at (throttling item cancelled) n q =
    if has_seq n item then (record q { worker = throttling item true }, true) else cancel_queued n q
cancel_at (sending item) n q = if has_seq n item then (q, false) else cancel_queued n q
cancel_at _ n q = cancel_queued n q

-- `cancel_pending_seq`
unfoldable pub cancel_pending_seq : ℕ → OutboundQueue → OutboundQueue × Bool
cancel_pending_seq n q = cancel_at q.worker n q

abbrev pub take_high : List OutboundItem → Worker → OutboundQueue → OutboundQueue
take_high [] otherwise q = record q { worker = otherwise }
take_high (item ∷ items) otherwise q = record q { high_q = items; worker = throttling item false }

abbrev pub take_normal : List OutboundItem → OutboundQueue → OutboundQueue
take_normal [] q = q
take_normal (item ∷ items) q = record q { normal_q = items; worker = throttling item false }

-- The head of the loop, with the first test of `_next_item`.
abbrev pub next_item : Worker → OutboundQueue → OutboundQueue
next_item idle q = if q.stop_set then record q { worker = ended } else take_high q.high_q polling q
next_item _ q = q

-- `wait_for(self._normal_q.get())` returns, whatever has come into the other queue since.
abbrev pub got_normal : Worker → OutboundQueue → OutboundQueue
got_normal polling q = take_normal q.normal_q q
got_normal _ q = q

-- It times out.
abbrev pub poll_timeout : Worker → OutboundQueue → OutboundQueue
poll_timeout polling q = take_high q.high_q idle q
poll_timeout _ q = q

-- `_throttle` returns: a cancelled item is skipped.
abbrev pub throttle_over : Worker → OutboundQueue → OutboundQueue × List Notice
throttle_over (throttling item cancelled) q =
    if cancelled
    then (record q { worker = idle }, [])
    else (record q { worker = sending item }, handed item ∷ [])
throttle_over _ q = (q, [])

-- How the body of the `try` ends: `send_fn` and `on_sent` return, `on_sent` raises, or `send_fn` does.
-- The flag of the last two tells whether the `on_fail` that follows raises in its turn.
pub data SendEnd : Type 0 where
  delivered : SendEnd
  on_sent_raises send_raises : Bool → SendEnd

-- An exception of `on_fail` is caught nowhere, and ends the worker's task.
abbrev pub after_failure : Bool → Worker
after_failure on_fail_raises = if on_fail_raises then ended else idle

-- `send_fn` is over.
abbrev pub send_over : SendEnd → Worker → OutboundQueue → OutboundQueue × List Notice
send_over delivered (sending item) q = (record q { worker = idle }, sent item ∷ [])
send_over (on_sent_raises b) (sending item) q =
    (record q { worker = after_failure b }, sent item ∷ failed item ∷ [])
send_over (send_raises b) (sending item) q =
    (record q { worker = after_failure b }, failed item ∷ [])
send_over e _ q = (q, [])

pub data Step : Type 0 where
  starts : Step
  enqueues : OutboundItem → Step
  stops : Bool → Step
  cancels : ℕ → Step
  loops gets times_out throttled : Step
  sends : SendEnd → Step

unfoldable pub run_step : OutboundQueue → Step → OutboundQueue × List Notice
unfolding start enqueue stop cancel_pending_seq
run_step q starts = (start q, [])
run_step q (enqueues item) = (enqueue item q, [])
run_step q (stops has_exc) = stop has_exc q
run_step q (cancels n) = ((cancel_pending_seq n q).0, [])
run_step q loops = (next_item q.worker q, [])
run_step q gets = (got_normal q.worker q, [])
run_step q times_out = (poll_timeout q.worker q, [])
run_step q throttled = throttle_over q.worker q
run_step q (sends e) = send_over e q.worker q

unfoldable pub run_steps : OutboundQueue → List Step → OutboundQueue × List Notice
run_steps q [] = (q, [])
run_steps q (s ∷ ss) =
    let (q', now) = run_step q s in let (q'', later) = run_steps q' ss in (q'', now ++ later)
