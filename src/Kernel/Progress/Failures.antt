-- ===== src/Kernel/Progress/Failures.antt =====
-- Once a send has failed, the scheduler of src/elke27_lib/kernel_loop.py leaves no request behind.
use elke.Base.{ℕ, ◌+◌, ◌<◌, ◌≡◌, ◌∙◌, Bool, true, false, Option, none, some, if◌then◌else◌, arith}
use elke.Base.Dict.{nat_key}
use elke.Kernel.{QueuedRequest, Kernel}
use elke.Kernel.Scheduler.{Raised, mark_send_failed, disconnect_session_on_io_error, same_seq}
use elke.Kernel.Scheduler.Failures.{complete_active, handle_transport_failure, handle_send_failure}
use elke.Kernel.Scheduler.Fuel.{share_active}
use elke.Kernel.Chances.{IsTidy}
use elke.Kernel.Chances.Within.{IsWithin, total}
use elke.Kernel.Chances.Failures.{disconnect_lem}
use elke.Kernel.Termination.{every, never, never-le}
use elke.Kernel.Progress.{
  complete_active_rests, handle_transport_failure_rests, is_stuck, settle_sum,
}

module _ (r now w : ℕ) (kick : Kernel → Kernel)
    (shrinks : (k : Kernel)
      → IsTidy r k
      → IsWithin every never never-le r now (total every never never-le r now k) (kick k))
    (rests : (k : Kernel)
      → IsTidy r k
      → total every never never-le r now k < w
      → is_stuck (kick k) ≡ false) where
  pub handle_send_failure_rests :
      (seq : ℕ) (exc : Raised) (k : Kernel)
      → IsTidy r k
      → k.active_released ≡ false
      → same_seq k.active_seq seq ≡ true
      → settle_sum r now w kick shrinks rests k + share_active every r false k.active_request < w
      → is_stuck (handle_send_failure now kick seq exc k) ≡ false
  unfolding handle_send_failure mark_send_failed
  handle_send_failure_rests seq exc k t h ours less =
      rw ours (cases exc.is_session_io_error k.active_request less)
    where
      gone : Kernel
      gone = disconnect_session_on_io_error exc (mark_send_failed seq exc k)

      completed :
          settle_sum r now w kick shrinks rests k < w → is_stuck (complete_active kick gone) ≡ false
      completed less =
          let (t', _, same, released) =
            disconnect_lem every never never-le r now kick shrinks exc (mark_send_failed seq exc k)
              (record { limit = t.limit; held = t.held }) in
          complete_active_rests r now w kick shrinks rests gone t' (released ∙ h)
            (omega (arith, same))

      cases :
          (io : Bool) (o : Option QueuedRequest)
          → settle_sum r now w kick shrinks rests k + share_active every r false o < w
          → is_stuck (
              if io then complete_active kick gone else elim o [
                | none ↦ complete_active kick gone
                | some item ↦ handle_transport_failure now kick item exc false k
              ])
            ≡ false
      cases true o less = completed (omega arith)
      cases false none less = completed (omega arith)
      cases false (some item) less =
          handle_transport_failure_rests r now w kick shrinks rests item exc false k t h less
