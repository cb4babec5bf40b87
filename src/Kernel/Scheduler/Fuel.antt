-- ===== src/Kernel/Scheduler/Fuel.antt =====
-- The sends that src/elke27_lib/kernel_loop.py has still to make, and `_kick_scheduler` with that many
-- rounds.
use elke.Base.{
  ℕ, suc, ◌+◌, ◌-◌, Bool, true, not, ◌&&◌, ◌||◌, Option, none, some, List, [], ◌∷◌, if◌then◌else◌,
}
use elke.Base.Dict.{Dict, pair_key, nat_key}
use elke.Kernel.{QueuedRequest, Kernel, is_keepalive, retry_after_send_allowed, retries_disabled}
use elke.Kernel.Scheduler.{Raised, is_sent}
use elke.Kernel.Scheduler.Sending.{try_send_next_within}

-- How often a request may yet be sent again: not at all where its route is never retried.
abbrev pub chances : ℕ → QueuedRequest → ℕ
chances max_retries item =
    if is_keepalive item || retries_disabled item.expected_route
    then 0
    else max_retries - item.attempt

-- Nor once it has been sent, where the reply timeout may not send it again.
abbrev pub chances_active : ℕ → Bool → QueuedRequest → ℕ
chances_active max_retries sent item =
    if sent && not (retry_after_send_allowed item) then 0 else chances max_retries item

-- The sends that are still to come, or may be, for the sequence numbers that pass a test: from the
-- queues and the retries that wait, and from the active request.
module _ (p : ℕ → Bool) (max_retries : ℕ) where
  abbrev pub share : QueuedRequest → ℕ
  share item = if p item.seq then suc (chances max_retries item) else 0

  abbrev pub share_active : Bool → Option QueuedRequest → ℕ
  share_active sent none = 0
  share_active sent (some item) = if p item.seq then chances_active max_retries sent item else 0

  unfoldable pub shares : List QueuedRequest → ℕ
  shares [] = 0
  shares (item ∷ items) = share item + shares items

  unfoldable pub shares_waiting : Dict ℕ QueuedRequest → ℕ
  shares_waiting [] = 0
  shares_waiting ((_, item) ∷ d) = share item + shares_waiting d

  abbrev pub queued_sends : Kernel → ℕ
  queued_sends k =
      shares k.request_queue_high + shares k.request_queue_normal + shares_waiting k.transport_retry

  abbrev pub future_sends : Kernel → ℕ
  future_sends k = queued_sends k + share_active (is_sent k.active_sent_at) k.active_request

-- `_kick_scheduler`, and `_try_send_next`: the sends still to come are fuel enough.
unfoldable pub kick_scheduler : ℕ → (QueuedRequest → Option Raised) → Kernel → Kernel
unfolding try_send_next_within shares shares_waiting
kick_scheduler now raises k =
    try_send_next_within now raises (suc (future_sends (λ seq. true) k.request_max_retries k)) k
