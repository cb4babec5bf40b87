-- ===== src/Pending/Settle.antt =====
-- A future of src/elke27_lib/pending_loop.py is settled once, and a resolved one holds its message.
use elke.Base.{
  ℕ, ◌<◌, ◌≡◌, refl, ap, ◌∙◌, Bool, true, false, Option, none, some, List, [], ◌∷◌, String, arith,
  ◌==◌, ne→==_false, if◌then◌else◌,
}
use elke.Base.Dict.{Dict, nat_key}
use elke.Dispatch.Json.{Members}
use elke.Dispatch.Route.{RouteKey}
use elke.Pending.{
  Future, waiting, result, failed, cancelled, is_done, Callback, PendingResponse,
  PendingResponseManager, settle, run_callback, call_in_loop, create, pop, settle_entry, resolve,
  fail, drop_response, fail_entries, fail_all, step_loop, cancel,
}

pub data Operation : Type 0 where
  creates : Bool → ℕ → String → RouteKey → Operation
  resolves : Bool → Bool → ℕ → Members → Operation
  fails : Bool → Bool → ℕ → String → Operation
  drops : Bool → ℕ → Operation
  fails_all : Bool → Bool → String → Operation
  steps : Operation
  cancels : ℕ → Operation

unfoldable pub run_operation : PendingResponseManager → Operation → PendingResponseManager
run_operation m (creates locked seq command_key route) = (create locked seq command_key route m).0
run_operation m (resolves locked loop_open seq msg) = (resolve locked loop_open seq msg m).0
run_operation m (fails locked loop_open seq exc) = (fail locked loop_open seq exc m).0
run_operation m (drops locked seq) = drop_response locked seq m
run_operation m (fails_all locked loop_open exc) = (fail_all locked loop_open exc m).0
run_operation m steps = step_loop m.scheduled m
run_operation m (cancels f) = cancel f m

unfoldable pub run_operations : PendingResponseManager → List Operation → PendingResponseManager
run_operations m [] = m
run_operations m (op ∷ ops) = run_operations (run_operation m op) ops

settle_done : (x outcome : Future) → is_done x ≡ true → settle x outcome ≡ x
settle_done waiting outcome h = cc
settle_done (result _) outcome h = refl
settle_done (failed _) outcome h = refl
settle_done cancelled outcome h = refl

pub run_callback_done :
    (cb : Callback) (futures : ℕ → Future) (f : ℕ)
    → is_done (futures f) ≡ true
    → run_callback cb futures f ≡ futures f
unfolding run_callback
run_callback_done cb futures f h =
    elim (f == cb.future)
      as (λ b. (if b then settle (futures f) cb.outcome else futures f) ≡ futures f) [
        | true ↦ settle_done (futures f) cb.outcome h
        | false ↦ refl
      ]

-- A future that exists and is done, before and after.
abbrev Kept : ℕ → PendingResponseManager → PendingResponseManager → Type 0
Kept f m m' = (f < m'.next_future) × (m'.futures f ≡ m.futures f)

module _ (f : ℕ) where
  call_in_loop-Kept :
      (loop_open : Bool) (cb : Callback) (m : PendingResponseManager)
      → f < m.next_future
      → is_done (m.futures f) ≡ true
      → Kept f m (call_in_loop loop_open cb m)
  unfolding call_in_loop
  call_in_loop-Kept true cb m old h = (old, refl)
  call_in_loop-Kept false cb m old h = (old, run_callback_done cb m.futures f h)

  settle_entry-Kept :
      (loop_open : Bool) (outcome : Future) (r : PendingResponseManager × Option PendingResponse)
      → f < r.0.next_future
      → is_done (r.0.futures f) ≡ true
      → Kept f r.0 (settle_entry loop_open outcome r).0
  settle_entry-Kept loop_open outcome (m, none) old h = (old, refl)
  settle_entry-Kept loop_open outcome (m, some entry) old h = call_in_loop-Kept loop_open _ m old h

  fail_entries-Kept :
      (loop_open : Bool) (exc : String) (entries : Dict ℕ PendingResponse)
      (m : PendingResponseManager)
      → f < m.next_future
      → is_done (m.futures f) ≡ true
      → Kept f m (fail_entries loop_open exc entries m)
  fail_entries-Kept loop_open exc [] m old h = (old, refl)
  fail_entries-Kept loop_open exc ((k, entry) ∷ entries) m old h =
      let cb : Callback = record { future = entry.future; outcome = failed exc } in
      let (old', same) = call_in_loop-Kept loop_open cb m old h in
      let (old'', same') =
        fail_entries-Kept loop_open exc entries (call_in_loop loop_open cb m) old'
          (ap is_done same ∙ h) in
      (old'', same' ∙ same)

  run_operation-Kept :
      (m : PendingResponseManager) (op : Operation)
      → f < m.next_future
      → is_done (m.futures f) ≡ true
      → Kept f m (run_operation m op)
  unfolding run_operation create resolve fail pop drop_response fail_all cancel
  run_operation-Kept m (creates true seq command_key route) old h = (
    omega (arith, old),
    rw (ne→==_false f m.next_future (λ e. absurd (omega (arith, old, e)))) refl,
  )
  run_operation-Kept m (creates false seq command_key route) old h = (
    omega (arith, old),
    rw (ne→==_false f m.next_future (λ e. absurd (omega (arith, old, e)))) refl,
  )
  run_operation-Kept m (resolves true loop_open seq msg) old h =
      settle_entry-Kept loop_open (result msg) (pop true seq m) old h
  run_operation-Kept m (resolves false loop_open seq msg) old h = (old, refl)
  run_operation-Kept m (fails true loop_open seq exc) old h =
      settle_entry-Kept loop_open (failed exc) (pop true seq m) old h
  run_operation-Kept m (fails false loop_open seq exc) old h = (old, refl)
  run_operation-Kept m (drops true seq) old h = (old, refl)
  run_operation-Kept m (drops false seq) old h = (old, refl)
  run_operation-Kept m (fails_all true loop_open exc) old h =
      fail_entries-Kept loop_open exc m.pending (record m { pending = [] }) old h
  run_operation-Kept m (fails_all false loop_open exc) old h = (old, refl)
  run_operation-Kept m steps old h = stepped m.scheduled
    where
      stepped : (cbs : List Callback) → Kept f m (step_loop cbs m)
      stepped [] = (old, refl)
      stepped (cb ∷ cbs) = (old, run_callback_done cb m.futures f h)
  run_operation-Kept m (cancels g) old h = (old, run_callback_done _ m.futures f h)

-- A future that is done keeps its result, exception or cancellation through any later calls, event
-- loop steps and cancellations: replies, failures and the loss of the connection settle it once.
pub run_operations_done :
    (f : ℕ) (ops : List Operation) (m : PendingResponseManager)
    → f < m.next_future
    → is_done (m.futures f) ≡ true
    → (run_operations m ops).futures f ≡ m.futures f
unfolding run_operations
run_operations_done f [] m old h = refl
run_operations_done f (op ∷ ops) m old h =
    let (old', same) = run_operation-Kept f m op old h in
    run_operations_done f ops (run_operation m op) old' (ap is_done same ∙ h) ∙ same
