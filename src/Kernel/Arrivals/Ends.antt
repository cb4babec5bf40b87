-- ===== src/Kernel/Arrivals/Ends.antt =====
-- What failing all requests, a loss of the connection and `close` add to the sends of
-- src/elke27_lib/kernel_loop.py.
use native.Mathlib.Nat.{le_trans}
use elke.Base.{
  ℕ, ◌≤◌, refl, Bool, true, false, ◌||◌, Option, none, some, List, [], ◌∷◌, if◌then◌else◌, arith,
}
use elke.Base.Dict.{nat_key}
use elke.Kernel.{QueuedRequest, Kernel, idle}
use elke.Kernel.Scheduler.{Raised, mark_send_failed, is_idle}
use elke.Kernel.Scheduler.Failures.{complete_active}
use elke.Kernel.Scheduler.Fuel.{shares, shares_waiting}
use elke.Kernel.Calls.{drain_requests, fail_active, fail_each, abort_requests}
use elke.Kernel.Chances.{one_if, IsTidy}
use elke.Kernel.Arrivals.{Within, sum}

module _ (p q : ℕ → Bool) (below : (seq : ℕ) → one_if (q seq) ≤ one_if (p seq)) (r now : ℕ) where
  -- What fails requests takes nothing but the active request's chances away.
  pub fail_each-IsWithin :
      (f : QueuedRequest → Kernel → Kernel)
      → ((item : QueuedRequest) (k : Kernel)
          → IsTidy r k
          → Within p q below r now (sum p q below r now k) (f item k))
      → (items : List QueuedRequest) (k : Kernel) → IsTidy r k
      → Within p q below r now (sum p q below r now k) (fail_each f items k)
  unfolding fail_each
  fail_each-IsWithin f keeps [] k t = record { tidy = t; bound = omega arith }
  fail_each-IsWithin f keeps (item ∷ items) k t =
      let w = keeps item k t in
      let v = fail_each-IsWithin f keeps items (f item k) w.tidy in
      record { tidy = v.tidy; bound = le_trans v.bound w.bound }

  pub fail_active-IsWithin :
      (exc : Raised) (k : Kernel)
      → IsTidy r k
      → Within p q below r now (sum p q below r now k) (fail_active exc k)
  unfolding fail_active
  fail_active-IsWithin exc k t = cases k.active_seq (is_idle k.request_state) k.active_released
    where
      same : Within p q below r now (sum p q below r now k) k
      same = record { tidy = t; bound = omega arith }

      freed :
          (seq : ℕ) (b : Bool)
          → Within p q below r now (sum p q below r now k) (
              if b then mark_send_failed seq exc k else record (mark_send_failed seq exc k) {
                active_released = true;
                active_timeout = none;
                active_seq = none;
                active_sent_at = none;
                active_request = none;
                request_state = idle;
              })
      freed seq true = record {
        tidy = record { limit = t.limit; held = t.held };
        bound = omega arith;
      }
      freed seq false = record {
        tidy = record { limit = t.limit; held = refl };
        bound = omega arith;
      }

      cases :
          (o : Option ℕ) (free released : Bool)
          → Within p q below r now (sum p q below r now k) (elim o [
            | none ↦ k
            | some seq ↦
                if free || released
                then k
                else complete_active (λ after. after) (mark_send_failed seq exc k)
          ])
      cases none free released = same
      cases (some seq) true released = same
      cases (some seq) false true = same
      cases (some seq) false false = freed seq k.active_released

  pub drained :
      (k : Kernel)
      → IsTidy r k
      → Within p q below r now (sum p q below r now k) (drain_requests k).1
  unfolding drain_requests shares shares_waiting
  drained k t = record { tidy = record { limit = t.limit; held = t.held }; bound = omega arith }

  mark_send_failed-IsWithin :
      (exc : Raised) (item : QueuedRequest) (k : Kernel)
      → IsTidy r k
      → Within p q below r now (sum p q below r now k) (mark_send_failed item.seq exc k)
  unfolding mark_send_failed
  mark_send_failed-IsWithin exc item k t = record {
    tidy = record { limit = t.limit; held = t.held };
    bound = omega arith;
  }

  pub abort_requests-IsWithin :
      (exc : Raised) (k : Kernel)
      → IsTidy r k
      → Within p q below r now (sum p q below r now k) (abort_requests exc k)
  unfolding abort_requests
  abort_requests-IsWithin exc k t =
      let u = drained k t in
      let v = fail_active-IsWithin exc (drain_requests k).1 u.tidy in
      let w =
        fail_each-IsWithin (λ item. mark_send_failed item.seq exc) (mark_send_failed-IsWithin exc)
          (drain_requests k).0 (fail_active exc (drain_requests k).1) v.tidy in
      record {
        tidy = record { limit = w.tidy.limit; held = w.tidy.held };
        bound = le_trans w.bound (le_trans v.bound u.bound);
      }
