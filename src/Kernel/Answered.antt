-- ===== src/Kernel/Answered.antt =====
-- A reply that reaches `_on_message` of src/elke27_lib/kernel_loop.py ends the sends of its request.
pub mod Runs
use elke.Kernel.Sending.Kick.{kick_scheduler-IsWithin}
use elke.Kernel.Scheduler.Failures.{complete_active}
use elke.Kernel.Calls.Active.{kick, complete_reply, complete_raw_reply}
use elke.Kernel.Chances.Within.{IsWithin, complete_active-IsWithin}
use elke.Kernel.Scheduler.{same_seq, Raised, drop_request, is_idle}
use elke.Kernel.Runs.{sends_of}
use elke.Kernel.Calls.{positive, without_seq}
use elke.Kernel.Scheduler.Fuel.{shares, shares_waiting, queued_sends}
use elke.Base.{
  ℕ, suc, ◌+◌, ◌≤◌, ◌≡◌, refl, sym, subst, Bool, true, false, not, ◌&&◌, Option, none, some, List,
  [], ◌∷◌, if◌then◌else◌, ◌==◌, ==_refl, Bool-cases, inl, inr, arith,
}
use elke.Base.Dict.{Dict, nat_key, lookup, erase}
use elke.Dispatch.Json.{ℤ, pos, negsuc, Json, Members, get, as_int, as_mapping}
use elke.Dispatch.State.{Dispatcher}
use elke.Pending.{resolve}
use elke.Kernel.{QueuedRequest, Kernel, RequestState, in_flight}

-- Each request waits for its retry under its own number.
abbrev pub AllOwn : Dict ℕ QueuedRequest → Type 0
AllOwn [] = Unit
AllOwn ((j, item) ∷ d) = (item.seq ≡ j) × AllOwn d

pub shares-without_own :
    (n r : ℕ) (items : List QueuedRequest) → shares (λ s. s == n) r (without_seq n items) ≡ 0
unfolding shares
shares-without_own n r [] = refl
shares-without_own n r (item ∷ items) = elim (Bool-cases (item.seq == n)) [
  | inl e ↦ rw e (shares-without_own n r items)
  | inr e ↦ rw (e, e) (omega (arith, shares-without_own n r items))
]

pub shares_waiting-erase_own :
    (n r : ℕ) (d : Dict ℕ QueuedRequest) → AllOwn d → shares_waiting (λ s. s == n) r (erase n d) ≡ 0
unfolding shares_waiting erase
shares_waiting-erase_own n r [] own = refl
shares_waiting-erase_own n r ((j, item) ∷ d) (own, rest) = elim (Bool-cases (n == j)) [
  | inl e ↦ rw e (shares_waiting-erase_own n r d rest)
  | inr e ↦
      let other : (item.seq == n) ≡ false = ground arith in
      rw (e, other) (omega (arith, shares_waiting-erase_own n r d rest))
]

-- The active request is in flight under the number, and nothing else is to be sent for it.
pub record IsAnswering (n r most : ℕ) (k : Kernel) : Type 0 where
  pub ours : k.active_seq ≡ some n
  pub flying : k.request_state ≡ in_flight
  pub free : k.active_released ≡ false
  pub limit : k.request_max_retries ≡ r
  pub bound : sends_of n k + queued_sends (λ s. s == n) r k ≤ most

module _ (now : ℕ) (raises : QueuedRequest → Option Raised) (n r most : ℕ) where
  abbrev pub Over : Kernel → Type 0
  Over = IsWithin (λ s. s == n) (λ s. s == n) (λ s. omega arith) r now most

  pub complete_reply-Over :
      (seq : Json) (k : Kernel)
      → positive seq ≡ some n
      → IsAnswering n r most k
      → Over (complete_reply now raises seq k)
  unfolding complete_reply
  complete_reply-Over seq k numbered a =
      subst (λ o. Over (after o)) (sym numbered)
        (by_test (not (is_idle k.request_state) && same_seq k.active_seq n)
          (rw (a.flying, a.ours) (==_refl n)))
    where
      done : Kernel
      done = record k { active_timeout = none }

      after : Option ℕ → Kernel
      after o = elim o [
        | none ↦ k
        | some j ↦
            if not (is_idle k.request_state) && same_seq k.active_seq j
            then complete_active (kick now raises) done
            else k
      ]

      by_test :
          (b : Bool) → b ≡ true → Over (if b then complete_active (kick now raises) done else k)
      by_test true h =
          let p : ℕ → Bool = λ s. s == n in
          let w =
            complete_active-IsWithin p p (λ s. omega arith) r now (kick now raises)
              (kick_scheduler-IsWithin p p (λ s. omega arith) r now raises) done
              (record { limit = a.limit; held = rw a.ours a.free }) a.free in
          record { tidy = w.tidy; bound = omega (arith, w.bound, a.bound) }
      by_test false h = cc

  pub complete_raw_reply-Over :
      (seq : Json) (k : Kernel)
      → positive seq ≡ some n
      → IsAnswering n r most k
      → Over (complete_raw_reply now raises seq k)
  unfolding complete_raw_reply drop_request
  complete_raw_reply-Over seq k numbered a =
      subst (λ o. Over (after o)) (sym numbered)
        (complete_reply-Over seq (drop_request n k) numbered (record {
          ours = a.ours;
          flying = a.flying;
          free = a.free;
          limit = a.limit;
          bound = a.bound;
        }))
    where
      after : Option ℕ → Kernel
      after o = elim o [ none ↦ k | some j ↦ complete_reply now raises seq (drop_request j k) ]
