-- ===== src/Kernel/Sending/Kick.antt =====
-- `_kick_scheduler` of src/elke27_lib/kernel_loop.py makes no sends beyond those still to come.
use elke.Base.{
  ℕ, zero, suc, ◌≤◌, ◌≡◌, refl, ap, Bool, true, false, not, Option, none, some, List, [], ◌∷◌,
  if◌then◌else◌, arith,
}
use elke.Kernel.{QueuedRequest, Kernel, is_active}
use elke.Kernel.Scheduler.{Raised, is_idle, next_request}
use elke.Kernel.Scheduler.Fuel.{shares, future_sends, kick_scheduler}
use elke.Kernel.Scheduler.Sending.{send_next, try_send_next_by, try_send_next_within}
use elke.Kernel.Chances.{one_if, IsTidy}
use elke.Kernel.Chances.Within.{IsWithin, total}
use elke.Kernel.Sending.{Within, send_next-IsWithin}

module _ (p q : ℕ → Bool) (below : (seq : ℕ) → one_if (q seq) ≤ one_if (p seq)) (r now : ℕ) where
  module _ (raises : QueuedRequest → Option Raised) (kick : Kernel → Kernel)
      (shrinks : (k : Kernel)
        → IsTidy r k
        → IsWithin p q below r now (total p q below r now k) (kick k)) where
    pub try_send_next_by-IsWithin :
        (k : Kernel)
        → IsTidy r k
        → Within p q below r now (total p q below r now k) (try_send_next_by now raises kick k)
    unfolding try_send_next_by next_request shares
    try_send_next_by-IsWithin k t =
        cases (is_idle k.request_state) (is_active k.session) k.request_queue_high
          k.request_queue_normal refl refl
      where
        same : Within p q below r now (total p q below r now k) k
        same = record { tidy = t; bound = omega arith }

        cases :
            (idle up : Bool) (highs normals : List QueuedRequest)
            → k.request_queue_high ≡ highs
            → k.request_queue_normal ≡ normals
            → Within p q below r now (total p q below r now k) (
                if not idle
                then k
                else if not up
                then k
                else send_next now raises kick
                    (elim highs [
                      | item ∷ rest ↦ some (item, record k { request_queue_high = rest })
                      | [] ↦ elim normals [
                        | item ∷ rest ↦ some (item, record k { request_queue_normal = rest })
                        | [] ↦ none
                      ]
                    ])
                    k)
        cases false up highs normals e f = same
        cases true false highs normals e f = same
        cases true true [] [] e f = same
        cases true true [] (item ∷ rest) e f =
            let fewer = ap (shares p r) f in
            send_next-IsWithin p q below r now raises kick shrinks item
              (record k { request_queue_normal = rest }) k
              (record { limit = t.limit; held = t.held }) (omega arith)
        cases true true (item ∷ rest) normals e f =
            let fewer = ap (shares p r) e in
            send_next-IsWithin p q below r now raises kick shrinks item
              (record k { request_queue_high = rest }) k (record { limit = t.limit; held = t.held })
              (omega arith)

  pub try_send_next_within-IsWithin :
      (raises : QueuedRequest → Option Raised) (fuel : ℕ) (k : Kernel)
      → IsTidy r k
      → Within p q below r now (total p q below r now k) (try_send_next_within now raises fuel k)
  unfolding try_send_next_within
  try_send_next_within-IsWithin raises zero k t = record { tidy = t; bound = omega arith }
  try_send_next_within-IsWithin raises (suc fuel) k t =
      try_send_next_by-IsWithin raises (try_send_next_within now raises fuel)
        (try_send_next_within-IsWithin raises fuel) k t

  pub kick_scheduler-IsWithin :
      (raises : QueuedRequest → Option Raised) (k : Kernel)
      → IsTidy r k
      → Within p q below r now (total p q below r now k) (kick_scheduler now raises k)
  unfolding kick_scheduler
  kick_scheduler-IsWithin raises k t =
      try_send_next_within-IsWithin raises
        (suc (future_sends (λ seq. true) k.request_max_retries k)) k t
