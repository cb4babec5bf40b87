-- ===== src/Pending/Tests.antt =====
-- Runs of src/elke27_lib/pending_loop.py, and its theorems at concrete inputs.
use elke.Base.{zero, suc, ◌≡◌, refl, true, [], ◌∷◌, arith}
use elke.Base.Dict.{nat_key}
use elke.Dispatch.Json.{empty}
use elke.Pending.{waiting, result, PendingResponse, PendingResponseManager}
use elke.Pending.Settle.{steps, cancels, fails_all, run_operations, run_operations_done}

abbrev entry : PendingResponse
entry = record {
  seq = 7;
  command_key = "zone_get_status";
  expected_route = ("zone", "get_status");
  future = 0;
}

-- Future 0 waits for the reply to number 7, and future 1 has its reply.
abbrev manager : PendingResponseManager
manager = record {
  pending = (7, entry) ∷ [];
  futures = λ f. elim f [ zero ↦ waiting | suc _ ↦ result empty ];
  next_future = 2;
  scheduled = [];
}

run_operations_done_example :
    (run_operations manager (fails_all true true "lost" ∷ steps ∷ cancels 1 ∷ [])).futures 1
    ≡ result empty
run_operations_done_example =
    run_operations_done 1 (fails_all true true "lost" ∷ steps ∷ cancels 1 ∷ []) manager
      (omega arith) refl
