-- ===== src/Kernel/Termination/Within.antt =====
-- The calls that `_try_send_next` of src/elke27_lib/kernel_loop.py makes of itself come to an end.
use elke.Base.{
  ℕ, zero, suc, ◌<◌, ◌≡◌, refl, sym, ap, ◌∙◌, false, ◌&&◌, Option, List, [], ◌∷◌, arith,
}
use elke.Base.Dict.{nat_key}
use elke.Kernel.{QueuedRequest, SessionCall, sends, cancels, Kernel}
use elke.Kernel.Scheduler.{Raised}
use elke.Kernel.Scheduler.Fuel.{future_sends, kick_scheduler}
use elke.Kernel.Scheduler.Sending.{try_send_next_by, try_send_next_within}
use elke.Kernel.Chances.{is_some, sends_made, IsTidy}
use elke.Kernel.Chances.Within.{total}
use elke.Kernel.Sending.Kick.{try_send_next_within-IsWithin}
use elke.Kernel.Termination.{every, never, never-le}
use elke.Kernel.Termination.Sending.{try_send_next_by_agree}

pub sends_made-never : (calls : List SessionCall) → sends_made never calls ≡ 0
unfolding sends_made
sends_made-never [] = refl
sends_made-never (sends _ _ _ ∷ calls) = omega (arith, sends_made-never calls)
sends_made-never (cancels _ ∷ calls) = sends_made-never calls

module _ (r now : ℕ) (raises : QueuedRequest → Option Raised) where
  -- Any fuel above the sends still to come gives the same.
  within_agree :
      (n m : ℕ) (k : Kernel)
      → IsTidy r k
      → total every never never-le r now k < n
      → total every never never-le r now k < m
      → try_send_next_within now raises n k ≡ try_send_next_within now raises m k
  unfolding try_send_next_within
  within_agree zero m k t a b = absurd (omega arith)
  within_agree (suc n) zero k t a b = absurd (omega arith)
  within_agree (suc n) (suc m) k t a b =
      try_send_next_by_agree r now (total every never never-le r now k)
        (try_send_next_within now raises n) (try_send_next_within now raises m)
        (try_send_next_within-IsWithin every never never-le r now raises n)
        (λ k' t' less. within_agree n m k' t' (omega arith) (omega arith)) raises k t (omega arith)

  kick_scheduler-within :
      (n : ℕ) (k : Kernel)
      → IsTidy r k
      → total every never never-le r now k < n
      → kick_scheduler now raises k ≡ try_send_next_within now raises n k
  unfolding kick_scheduler
  kick_scheduler-within n k t h =
      let same : total every never never-le k.request_max_retries now k
          ≡ total every never never-le r now k =
        ap (λ limit. total every never never-le limit now k) t.limit in
      let unsent = sends_made-never k.session_calls in
      within_agree (suc (future_sends every k.request_max_retries k)) n k t (omega arith) h

-- The calls that `_try_send_next` makes of itself, through `_kick_scheduler`, come to an end: with
-- the fuel that the model gives it, it does what one round of it does whose kicks are its own
-- unbounded calls. The state is one in which an active request has not been released.
pub kick_scheduler-try_send_next_by :
    (now : ℕ) (raises : QueuedRequest → Option Raised) (k : Kernel)
    → (is_some k.active_seq && k.active_released) ≡ false
    → kick_scheduler now raises k ≡ try_send_next_by now raises (kick_scheduler now raises) k
unfolding try_send_next_within
kick_scheduler-try_send_next_by now raises k held =
    let r = k.request_max_retries in
    let t : IsTidy r k = record { limit = refl; held = held } in
    let n = total every never never-le r now k in
    kick_scheduler-within r now raises (suc n) k t (omega arith)
    ∙ try_send_next_by_agree r now n (try_send_next_within now raises n) (kick_scheduler now raises)
        (try_send_next_within-IsWithin every never never-le r now raises n)
        (λ k' t' less. sym (kick_scheduler-within r now raises n k' t' less)) raises k t
        (omega arith)
