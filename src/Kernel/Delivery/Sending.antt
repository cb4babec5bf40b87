-- ===== src/Kernel/Delivery/Sending.antt =====
-- `_try_send_next` of src/elke27_lib/kernel_loop.py does nothing to an awaited reply but fail it.
use elke.Kernel.Scheduler.Fuel.{kick_scheduler, future_sends}
use elke.Kernel.Scheduler.Sending.{
  send_request, send_next, send_or_fail, try_send_next_by, try_send_next_within,
}
use elke.Kernel.Scheduler.{
  cancel_transport_retry_timer, fail_queued_command, mark_send_failed, signal_sent_event,
  deadline_expired, Raised, prepare, started_transfer, register_pending, with_transfer, activate,
  hand_over, next_request, is_idle,
}
use elke.Base.{
  ℕ, zero, suc, Bool, true, false, not, Option, none, some, List, [], ◌∷◌, String, if◌then◌else◌,
}
use elke.Base.Dict.{nat_key}
use elke.Dispatch.State.{PagedTransferKey}
use elke.Pending.{PendingResponseManager, fail}
use elke.Kernel.{QueuedRequest, Kernel, is_past_deadline, is_active}
use elke.Kernel.Delivery.{Holding, handle_send_failure_keeps}

module _ (P : PendingResponseManager → Type 0)
    (keeps : (seq : ℕ) (exc : String) (m : PendingResponseManager)
      → P m
      → P (fail true true seq exc m).0) where
  module _ (now : ℕ) (kick : Kernel → Kernel)
      (kicks : (k : Kernel) → Holding P keeps k → Holding P keeps (kick k)) where
    prepare_keeps :
        (item : QueuedRequest) (k : Kernel) → Holding P keeps k → Holding P keeps (prepare item k).1
    unfolding prepare
    prepare_keeps item k h =
        cases item.pending (started_transfer item.opaque item.expected_route item.payload k)
      where
        cases :
            (b : Bool) (o : Option PagedTransferKey)
            → Holding P keeps (if b then register_pending (with_transfer o item k) else (item, k)).1
        cases false o = h
        cases true none = h
        cases true (some key) = h

    module _ (raises : QueuedRequest → Option Raised) where
      send_next_keeps :
          (item : QueuedRequest) (k' k : Kernel)
          → Holding P keeps k'
          → Holding P keeps (send_next now raises kick (some (item, k')) k)
      unfolding send_request activate hand_over fail_queued_command mark_send_failed
          signal_sent_event cancel_transport_retry_timer
      send_next_keeps item k' k h = cases (is_past_deadline now item)
        where
          item' : QueuedRequest
          item' = (prepare item k').0

          begun : Kernel
          begun = activate (item', (prepare item k').1)

          send : (o : Option Raised) → Holding P keeps (send_or_fail now raises kick o item' begun)
          send none = prepare_keeps item k' h
          send (some exc) =
              handle_send_failure_keeps P keeps now kick kicks item'.seq exc begun
                (prepare_keeps item k' h)

          cases :
              (past : Bool)
              → Holding P keeps (
                  if past
                  then kick (fail_queued_command deadline_expired item k')
                  else send_request now raises kick item k')
          cases true = kicks _ (keeps item.seq deadline_expired.text k'.pending_responses h)
          cases false = send (raises item')

      try_send_next_by_keeps :
          (k : Kernel) → Holding P keeps k → Holding P keeps (try_send_next_by now raises kick k)
      unfolding try_send_next_by next_request
      try_send_next_by_keeps k h =
          cases (is_idle k.request_state) (is_active k.session) k.request_queue_high
            k.request_queue_normal
        where
          cases :
              (free up : Bool) (highs normals : List QueuedRequest)
              → Holding P keeps (
                  if not free
                  then k
                  else if not up
                  then k
                  else send_next now raises kick
                      (elim highs [
                        | item ∷ rest ↦ some (item, record k { request_queue_high = rest })
                        | [] ↦ elim normals [
                          | item ∷ rest ↦ some (item, record k { request_queue_normal = rest })
                          | [] ↦ none
                        ]
                      ])
                      k)
          cases false up highs normals = h
          cases true false highs normals = h
          cases true true [] [] = h
          cases true true [] (item ∷ rest) =
              send_next_keeps item (record k { request_queue_normal = rest }) k h
          cases true true (item ∷ rest) normals =
              send_next_keeps item (record k { request_queue_high = rest }) k h

  within_keeps :
      (now : ℕ) (raises : QueuedRequest → Option Raised) (fuel : ℕ) (k : Kernel)
      → Holding P keeps k
      → Holding P keeps (try_send_next_within now raises fuel k)
  unfolding try_send_next_within
  within_keeps now raises zero k h = h
  within_keeps now raises (suc fuel) k h =
      try_send_next_by_keeps now (try_send_next_within now raises fuel)
        (within_keeps now raises fuel) raises k h

  pub kick_scheduler_keeps :
      (now : ℕ) (raises : QueuedRequest → Option Raised) (k : Kernel)
      → Holding P keeps k
      → Holding P keeps (kick_scheduler now raises k)
  unfolding kick_scheduler
  kick_scheduler_keeps now raises k h =
      within_keeps now raises (suc (future_sends (λ seq. true) k.request_max_retries k)) k h
