-- ===== src/Pending.antt =====
-- src/elke27_lib/pending_loop.py: `PendingResponseManager`, with the futures it hands out and the
-- callbacks that wait in the event loop. A future is a number. Whether the lock is taken in time,
-- and whether the loop still takes callbacks, are inputs of each call.
pub mod Settle
pub mod FailAll
mod Tests
use elke.Base.{
  ℕ, zero, suc, Bool, true, false, Option, none, some, List, [], ◌∷◌, ◌++◌, String, ◌==◌,
  if◌then◌else◌, length,
}
use elke.Base.Dict.{Dict, nat_key, lookup, insert, erase}
use elke.Base.Result.{Result, ok, err, PyError, runtime_error}
use elke.Dispatch.Json.{Members}
use elke.Dispatch.Route.{RouteKey}

pub data Future : Type 0 where
  waiting : Future
  result : Members → Future
  failed : String → Future
  cancelled : Future

-- `future.done()`
abbrev pub is_done : Future → Bool
is_done waiting = false
is_done _ = true

-- `_set_result` and `_set_exc`, and the future they close over.
pub record Callback : Type 0 where
  pub future : ℕ
  pub outcome : Future

pub record PendingResponse : Type 0 where
  pub seq : ℕ
  pub command_key : String
  pub expected_route : RouteKey
  pub future : ℕ

pub record PendingResponseManager : Type 0 where
  pub pending : Dict ℕ PendingResponse
  pub futures : ℕ → Future
  pub next_future : ℕ
  pub scheduled : List Callback

-- A future that is done stays as it is.
abbrev pub settle : Future → Future → Future
settle waiting outcome = outcome
settle old outcome = old

unfoldable pub run_callback : Callback → (ℕ → Future) → ℕ → Future
run_callback cb futures f = if f == cb.future then settle (futures f) cb.outcome else futures f

-- `_call_in_loop`: a closed loop raises, and the callback runs at once.
unfoldable pub call_in_loop : Bool → Callback → PendingResponseManager → PendingResponseManager
unfolding run_callback
call_in_loop loop_open cb m =
    if loop_open
    then record m { scheduled = m.scheduled ++ (cb ∷ []) }
    else record m { futures = run_callback cb m.futures }

-- `create`: the future is made before the lock is tried.
unfoldable pub create :
    Bool
    → ℕ
    → String
    → RouteKey
    → PendingResponseManager
    → PendingResponseManager × Result PyError ℕ
create locked seq command_key expected_route m =
    let f = m.next_future in
    let made : PendingResponseManager = record m {
      futures = λ g. if g == f then waiting else m.futures g;
      next_future = suc f;
    } in
    let entry : PendingResponse = record {
      seq = seq;
      command_key = command_key;
      expected_route = expected_route;
      future = f;
    } in
    if locked
    then (record made { pending = insert seq entry m.pending }, ok f)
    else (made, err runtime_error)

-- `_pop`
unfoldable pub pop :
    Bool → ℕ → PendingResponseManager → PendingResponseManager × Option PendingResponse
pop locked seq m =
    if locked then (record m { pending = erase seq m.pending }, lookup seq m.pending) else (m, none)

abbrev pub settle_entry :
    Bool → Future → PendingResponseManager × Option PendingResponse → PendingResponseManager × Bool
settle_entry loop_open outcome (m, none) = (m, false)
settle_entry loop_open outcome (m, some entry) =
    (call_in_loop loop_open (record { future = entry.future; outcome = outcome }) m, true)

unfoldable pub resolve :
    Bool → Bool → ℕ → Members → PendingResponseManager → PendingResponseManager × Bool
unfolding pop call_in_loop
resolve locked loop_open seq msg m = settle_entry loop_open (result msg) (pop locked seq m)

unfoldable pub fail :
    Bool → Bool → ℕ → String → PendingResponseManager → PendingResponseManager × Bool
unfolding pop call_in_loop
fail locked loop_open seq exc m = settle_entry loop_open (failed exc) (pop locked seq m)

unfoldable pub drop_response : Bool → ℕ → PendingResponseManager → PendingResponseManager
drop_response locked seq m = if locked then record m { pending = erase seq m.pending } else m

unfoldable pub pending_count : Bool → PendingResponseManager → ℕ
pending_count locked m = if locked then length m.pending else 0

abbrev pub fail_entries :
    Bool → String → Dict ℕ PendingResponse → PendingResponseManager → PendingResponseManager
fail_entries loop_open exc [] m = m
fail_entries loop_open exc ((_, entry) ∷ entries) m =
    fail_entries loop_open exc entries
      (call_in_loop loop_open (record { future = entry.future; outcome = failed exc }) m)

unfoldable pub fail_all :
    Bool
    → Bool
    → String
    → PendingResponseManager
    → PendingResponseManager × Result PyError (Unit {0})
unfolding call_in_loop
fail_all locked loop_open exc m =
    if locked
    then (fail_entries loop_open exc m.pending (record m { pending = [] }), ok tt)
    else (m, err runtime_error)

-- The event loop runs its callbacks in order.
abbrev pub run_all : List Callback → (ℕ → Future) → ℕ → Future
run_all [] futures = futures
run_all (cb ∷ cbs) futures = run_all cbs (run_callback cb futures)

-- The loop runs the first callback.
abbrev pub step_loop : List Callback → PendingResponseManager → PendingResponseManager
step_loop [] m = m
step_loop (cb ∷ cbs) m = record m { futures = run_callback cb m.futures; scheduled = cbs }

-- The waiter gives up: `future.cancel()`.
unfoldable pub cancel : ℕ → PendingResponseManager → PendingResponseManager
unfolding run_callback
cancel f m = record m {
  futures = run_callback (record { future = f; outcome = cancelled }) m.futures;
}
