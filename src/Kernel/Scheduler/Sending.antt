-- ===== src/Kernel/Scheduler/Sending.antt =====
-- src/elke27_lib/kernel_loop.py: `_try_send_next`.
use elke.Base.{ℕ, zero, suc, not, Option, none, some, if◌then◌else◌}
use elke.Base.Dict.{pair_key, nat_key}
use elke.Kernel.{QueuedRequest, Kernel, is_past_deadline, is_active}
use elke.Kernel.Scheduler.{
  Raised, activate, deadline_expired, fail_queued_command, hand_over, is_idle, next_request,
  prepare,
}
use elke.Kernel.Scheduler.Failures.{handle_send_failure}

-- `raises` says what `send_json` raises for a request, if it does: that is a matter of the message
-- alone, as the session is active whenever it is called.
module _ (now : ℕ) (raises : QueuedRequest → Option Raised) where
  module _ (kick : Kernel → Kernel) where
    abbrev pub send_or_fail : Option Raised → QueuedRequest → Kernel → Kernel
    send_or_fail none item k = hand_over item k
    send_or_fail (some exc) item k = handle_send_failure now kick item.seq exc k

    unfoldable pub send_request : QueuedRequest → Kernel → Kernel
    send_request item k =
        let (item', k') = prepare item k in send_or_fail (raises item') item' (activate (item', k'))

    abbrev pub send_next : Option (QueuedRequest × Kernel) → Kernel → Kernel
    send_next none k = k
    send_next (some (item, k')) k =
        if is_past_deadline now item
        then kick (fail_queued_command deadline_expired item k')
        else send_request item k'

    -- `_try_send_next`
    unfoldable pub try_send_next_by : Kernel → Kernel
    try_send_next_by k =
        if not (is_idle k.request_state)
        then k
        else if not (is_active k.session)
        then k
        else send_next (next_request k) k

  unfoldable pub try_send_next_within : ℕ → Kernel → Kernel
  try_send_next_within zero k = k
  try_send_next_within (suc fuel) k = try_send_next_by (try_send_next_within fuel) k
