-- ===== src/Kernel/Chances/Within.antt =====
-- What one kick of the scheduler of src/elke27_lib/kernel_loop.py may send, from the failures that
-- it handles.
use elke.Base.{
  ℕ, ◌+◌, ◌≤◌, ◌≡◌, ◌⊎◌, refl, Bool, true, false, if◌then◌else◌, ◌==◌, Bool-cases, inl, inr, arith,
}
use native.Mathlib.Nat.{le_trans}
use elke.Base.Dict.{nat_key, insert, erase}
use elke.Outbound.{OutboundPriority, high, normal}
use elke.Kernel.{QueuedRequest, Kernel, is_disarm, is_past_deadline, transport_backoff}
use elke.Kernel.Scheduler.{
  Raised, deadline_expired, put_request, put_first, fail_queued_command,
  cancel_transport_retry_timer, is_sent,
}
use elke.Kernel.Scheduler.Failures.{complete_active, enqueue_request, schedule_transport_requeue}
use elke.Kernel.Scheduler.Fuel.{share, share_active, shares_waiting, queued_sends}
use elke.Kernel.Chances.{
  IsTidy, one_if, queued_sends-put_first, sends_made, shares-append, shares_waiting-erase,
  shares_waiting-insert,
}

-- What is sent and may still be sent, for two tests of sequence numbers of which the first passes
-- only what the second does.
module _ (p q : ℕ → Bool) (below : (seq : ℕ) → one_if (q seq) ≤ one_if (p seq)) (r now : ℕ) where
  abbrev pub settled : Kernel → ℕ
  settled k = sends_made q k.session_calls + queued_sends p r k

  abbrev pub total : Kernel → ℕ
  total k = settled k + share_active p r (is_sent k.active_sent_at) k.active_request

  -- A state with no more than that.
  pub record IsWithin (most : ℕ) (k : Kernel) : Type 0 where
    pub tidy : IsTidy r k
    pub bound : total k ≤ most

  -- The kick.
  module _ (kick : Kernel → Kernel)
      (shrinks : (k : Kernel) → IsTidy r k → IsWithin (total k) (kick k)) where
    kick-IsWithin : (k : Kernel) (most : ℕ) → IsTidy r k → total k ≤ most → IsWithin most (kick k)
    kick-IsWithin k most t h =
        let w = shrinks k t in record { tidy = w.tidy; bound = le_trans w.bound h }

    pub complete_active-IsWithin :
        (k : Kernel)
        → IsTidy r k
        → k.active_released ≡ false
        → IsWithin (settled k) (complete_active kick k)
    unfolding complete_active
    complete_active-IsWithin k t h =
        rw h (kick-IsWithin _ (settled k) (record { limit = t.limit; held = refl }) (omega arith))

    pub enqueue_request-IsWithin :
        (item : QueuedRequest) (k : Kernel)
        → IsTidy r k
        → IsWithin (total k + share p r item) (enqueue_request kick item k)
    unfolding enqueue_request
    enqueue_request-IsWithin item k t = put item.priority
      where
        put :
            (priority : OutboundPriority)
            → IsWithin (total k + share p r item) (kick (put_request priority item k))
        put high =
            let more = shares-append p r k.request_queue_high item in
            kick-IsWithin _ _ (record { limit = t.limit; held = t.held }) (omega arith)
        put normal =
            let more = shares-append p r k.request_queue_normal item in
            kick-IsWithin _ _ (record { limit = t.limit; held = t.held }) (omega arith)

    pub fail_queued_command-IsWithin :
        (exc : Raised) (item : QueuedRequest) (k : Kernel)
        → IsTidy r k
        → IsWithin (total k) (fail_queued_command exc item k)
    unfolding fail_queued_command
    fail_queued_command-IsWithin exc item k t =
        let fewer = shares_waiting-erase p r item.seq k.transport_retry in
        record { tidy = record { limit = t.limit; held = t.held }; bound = omega arith }

    pub schedule_transport_requeue-IsWithin :
        (item : QueuedRequest) (k : Kernel)
        → IsTidy r k
        → IsWithin (total k + share p r item) (schedule_transport_requeue now kick item k)
    unfolding schedule_transport_requeue put_first cancel_transport_retry_timer
    schedule_transport_requeue-IsWithin item k t = elim (Bool-cases (is_past_deadline now item)) [
      | inl past ↦ rw past (
          let w = fail_queued_command-IsWithin deadline_expired item k t in
          record { tidy = w.tidy; bound = le_trans w.bound (omega arith) })
      | inr live ↦ rw live (requeue (Bool-cases (is_disarm item)))
    ]
      where
        fewer :
            shares_waiting p r (erase item.seq k.transport_retry)
            ≤ shares_waiting p r k.transport_retry
        fewer = shares_waiting-erase p r item.seq k.transport_retry

        cleared : Kernel
        cleared = record k { transport_retry = erase item.seq k.transport_retry }

        later :
            (none_left : Bool)
            → IsWithin (total k + share p r item) (
                if none_left then enqueue_request kick item cleared else record cleared {
                  transport_retry = insert item.seq item cleared.transport_retry;
                })
        later true =
            let w =
              enqueue_request-IsWithin item cleared (record { limit = t.limit; held = t.held }) in
            record { tidy = w.tidy; bound = le_trans w.bound (omega (arith, fewer)) }
        later false =
            let more = shares_waiting-insert p r item.seq item cleared.transport_retry in
            record {
              tidy = record { limit = t.limit; held = t.held };
              bound = omega (arith, fewer, more);
            }

        requeue :
            (is_disarm item ≡ true) ⊎ (is_disarm item ≡ false)
            → IsWithin (total k + share p r item) (
                if is_disarm item
                then kick (put_first item cleared)
                else if transport_backoff item.attempt k.request_max_backoff == 0
                then enqueue_request kick item cleared
                else record cleared {
                  transport_retry = insert item.seq item cleared.transport_retry;
                })
        requeue (inl disarm) = rw disarm (
            kick-IsWithin _ _ (record { limit = t.limit; held = t.held })
              (omega (arith, fewer, queued_sends-put_first p r item cleared)))
        requeue (inr other) =
            rw other (later (transport_backoff item.attempt k.request_max_backoff == 0))
