-- ===== src/Kernel/Sends.antt =====
-- How often src/elke27_lib/kernel_loop.py sends a request, over any run of the kernel.
pub mod Timeouts
use native.Mathlib.Nat.{le_trans}
use elke.Base.{
  ℕ, ◌+◌, ◌≤◌, ◌≡◌, refl, ap, Bool, true, false, not, ◌&&◌, ◌||◌, Option, none, some, List, [], ◌∷◌,
  ◌++◌, if◌then◌else◌, ◌==◌, Bool-cases, inl, inr, arith,
}
use elke.Base.Dict.{Dict, nat_key, lookup, erase}
use elke.Dispatch.State.{drop_pending}
use elke.Pending.{fail}
use elke.Kernel.{
  QueuedRequest, SessionCall, cancels, Kernel, retry_after_send_allowed, is_past_deadline,
}
use elke.Kernel.Scheduler.{
  Raised, deadline_expired, fail_queued_command, drop_request, cancel_transport_retry_timer,
  signal_sent_event, is_sent, is_idle, same_seq,
}
use elke.Kernel.Scheduler.Failures.{complete_active, enqueue_request, handle_send_failure}
use elke.Kernel.Scheduler.Fuel.{
  chances, share, share_active, shares, shares_waiting, kick_scheduler,
}
use elke.Kernel.Calls.{
  without_seq, clear_pending_transport_retry, on_request_sent, mark_request_sent,
  request_link_check, has_session, is_silent, is_probe_route, route_of, fail_or_drop,
}
use elke.Kernel.Calls.Active.{
  after_timeout, on_reply_timeout, release_item, release, cancel_command_transport, timed_out,
}
use elke.Kernel.Chances.{
  one_if, is_some, sends_made, sends_made-append, IsTidy, shares_waiting-erase,
}
use elke.Kernel.Chances.Within.{
  IsWithin, settled, total, complete_active-IsWithin, enqueue_request-IsWithin,
  fail_queued_command-IsWithin,
}
use elke.Kernel.Chances.Failures.{
  handle_transport_failure-IsWithin, handle_send_failure-IsWithin,
  handle_send_failure-IsWithin_other,
}
use elke.Kernel.Sending.Kick.{kick_scheduler-IsWithin}

module _ (p : ℕ → Bool) (r : ℕ) where
  pub shares-without_seq :
      (seq : ℕ) (items : List QueuedRequest) → shares p r (without_seq seq items) ≤ shares p r items
  unfolding shares
  shares-without_seq seq [] = omega arith
  shares-without_seq seq (item ∷ items) = elim (Bool-cases (item.seq == seq)) [
    | inl e ↦ rw e (omega (arith, shares-without_seq seq items))
    | inr e ↦ rw e (omega (arith, shares-without_seq seq items))
  ]

  -- What waits under a number goes with it.
  shares_waiting-lookup :
      (seq : ℕ) (item : QueuedRequest) (d : Dict ℕ QueuedRequest)
      → lookup seq d ≡ some item
      → shares_waiting p r (erase seq d) + share p r item ≤ shares_waiting p r d
  unfolding shares_waiting lookup erase
  shares_waiting-lookup seq item [] h = cc
  shares_waiting-lookup seq item ((j, old) ∷ d) h = elim (Bool-cases (seq == j)) [
    | inl e ↦
        let found : old ≡ item = cc (rw e at h) in
        let same : share p r old ≡ share p r item = ap (share p r) found in
        rw e (omega (arith, shares_waiting-erase p r seq d))
    | inr e ↦ rw e (omega (arith, shares_waiting-lookup seq item d (rw e at h)))
  ]

pub released_of :
    (o : Option ℕ) (seq : ℕ) (b : Bool)
    → (is_some o && b) ≡ false
    → same_seq o seq ≡ true
    → b ≡ false
released_of none seq b h e = cc
released_of (some n) seq true h e = cc
released_of (some n) seq false h e = refl

sent_less :
    (p : ℕ → Bool) (r : ℕ) (sent : Bool) (o : Option QueuedRequest)
    → share_active p r true o ≤ share_active p r sent o
sent_less p r sent none = omega arith
sent_less p r sent (some item) = by (p item.seq) sent (retry_after_send_allowed item)
  where
    by :
        (b sent after : Bool)
        → (if b then if not after then 0 else chances r item else 0)
          ≤ (if b then if sent && not after then 0 else chances r item else 0)
    by true true after = omega arith
    by true false true = omega arith
    by true false false = omega arith
    by false sent after = omega arith

module _ (p q : ℕ → Bool) (below : (seq : ℕ) → one_if (q seq) ≤ one_if (p seq)) (r now : ℕ) where
  abbrev pub Within : ℕ → Kernel → Type 0
  Within = IsWithin p q below r now

  abbrev pub sum : Kernel → ℕ
  sum = total p q below r now

  pub on_request_sent-IsWithin :
      (seq timeout : ℕ) (k : Kernel)
      → IsTidy r k
      → Within (sum k) (on_request_sent now seq timeout k)
  unfolding on_request_sent
  on_request_sent-IsWithin seq timeout k t = cases (timeout == 0) (same_seq k.active_seq seq)
    where
      marked : Bool → Kernel
      marked ours =
          mark_request_sent now seq
            (record k { active_sent_at = if ours then some now else k.active_sent_at })

      cases :
          (never ours : Bool)
          → Within
              (sum k)
              (if never then marked ours else record (marked ours) { active_timeout = some seq })
      cases true true = record {
        tidy = record { limit = t.limit; held = t.held };
        bound = omega (arith, sent_less p r (is_sent k.active_sent_at) k.active_request);
      }
      cases true false = record {
        tidy = record { limit = t.limit; held = t.held };
        bound = omega arith;
      }
      cases false true = record {
        tidy = record { limit = t.limit; held = t.held };
        bound = omega (arith, sent_less p r (is_sent k.active_sent_at) k.active_request);
      }
      cases false false = record {
        tidy = record { limit = t.limit; held = t.held };
        bound = omega arith;
      }

  module _ (raises : QueuedRequest → Option Raised) where
    abbrev pub kick : Kernel → Kernel
    kick = kick_scheduler now raises

    pub shrinks : (k : Kernel) → IsTidy r k → Within (sum k) (kick k)
    shrinks = kick_scheduler-IsWithin p q below r now raises

    pub handle_send_failure-FailsUnsent :
        (seq : ℕ) (exc : Raised) (k : Kernel)
        → IsTidy r k
        → (same_seq k.active_seq seq && is_sent k.active_sent_at) ≡ false
        → Within (sum k) (handle_send_failure now kick seq exc k)
    handle_send_failure-FailsUnsent seq exc k t fair =
        elim (Bool-cases (same_seq k.active_seq seq)) [
          | inl ours ↦
              let w =
                handle_send_failure-IsWithin p q below r now kick shrinks seq exc k t
                  (released_of k.active_seq seq k.active_released t.held ours) ours in
              let unsent : is_sent k.active_sent_at ≡ false = rw ours at fair in
              let same = ap (λ b. share_active p r b k.active_request) unsent in
              record { tidy = w.tidy; bound = le_trans w.bound (omega arith) }
          | inr other ↦
              handle_send_failure-IsWithin_other p q below r now kick shrinks seq exc k t other
        ]

    pub release-IsWithin :
        (seq : ℕ) (k : Kernel) → IsTidy r k → Within (sum k) (release now raises seq k)
    unfolding release cancel_transport_retry_timer
    release-IsWithin seq k t = cases (lookup seq k.transport_retry) refl
      where
        cleared : Kernel
        cleared = record k { transport_retry = erase seq k.transport_retry }

        tidy : IsTidy r cleared
        tidy = record { limit = t.limit; held = t.held }

        cases :
            (o : Option QueuedRequest)
            → lookup seq k.transport_retry ≡ o
            → Within (sum k) (release_item now raises o cleared)
        cases none e = record {
          tidy = tidy;
          bound = omega (arith, shares_waiting-erase p r seq k.transport_retry);
        }
        cases (some item) e =
            let less = shares_waiting-lookup p r seq item k.transport_retry e in
            due less (is_past_deadline now item)
          where
            due :
                shares_waiting p r (erase seq k.transport_retry) + share p r item
                  ≤ shares_waiting p r k.transport_retry
                → (past : Bool)
                → Within (sum k) (
                    if past
                    then fail_queued_command deadline_expired item cleared
                    else enqueue_request kick item cleared)
            due less true =
                let w =
                  fail_queued_command-IsWithin p q below r now kick shrinks deadline_expired item
                    cleared tidy in
                record { tidy = w.tidy; bound = le_trans w.bound (omega arith) }
            due less false =
                let w = enqueue_request-IsWithin p q below r now kick shrinks item cleared tidy in
                record { tidy = w.tidy; bound = le_trans w.bound (omega arith) }

    -- An active request that the number names has not been released.
    pub complete_ours :
        (seq : ℕ) (k : Kernel)
        → IsTidy r k
        → same_seq k.active_seq seq ≡ true
        → Within (settled p q below r now k) (complete_active kick k)
    complete_ours seq k t ours =
        complete_active-IsWithin p q below r now kick shrinks k t
          (released_of k.active_seq seq k.active_released t.held ours)
