-- ===== src/Kernel/Waiting/Messages.antt =====
-- What a message leaves to the scheduler of src/elke27_lib/kernel_loop.py.
use elke.Base.{ℕ, ◌≡◌, refl, Bool, true, false, not, ◌&&◌, Option, none, some, if◌then◌else◌}
use elke.Base.Dict.{nat_key}
use elke.Dispatch.Json.{Json, Members, get}
use elke.Dispatch.State.{Dispatcher}
use elke.Pending.{resolve}
use elke.Kernel.{QueuedRequest, Kernel}
use elke.Kernel.Scheduler.{Raised, drop_request, is_idle, same_seq}
use elke.Kernel.Scheduler.Failures.{complete_active}
use elke.Kernel.Calls.{clear_pending_transport_retry, positive, is_raw_seq, with_auth_seq}
use elke.Kernel.Calls.Active.{
  kick, resolve_reply, note_received, complete_reply, complete_raw_reply, on_message,
}
use elke.Kernel.Chances.{IsTidy}
use elke.Kernel.Sends.{released_of}
use elke.Kernel.Progress.{is_stuck}
use elke.Kernel.Waiting.{cleared_rests, complete_rests}

module _ (r now : ℕ) (raises : QueuedRequest → Option Raised) where
  reply_rests :
      (seq : Json) (k : Kernel)
      → IsTidy r k
      → is_stuck k ≡ false
      → is_stuck (complete_reply now raises seq k) ≡ false
  unfolding complete_reply
  reply_rests seq k t h = by_seq (positive seq)
    where
      untimed : Kernel
      untimed = record k { active_timeout = none }

      by_test :
          (n : ℕ) (flying ours : Bool)
          → same_seq k.active_seq n ≡ ours
          → is_stuck (if flying && ours then complete_active (kick now raises) untimed else k)
            ≡ false
      by_test n true true e =
          complete_rests r now raises untimed (record { limit = t.limit; held = t.held })
            (released_of k.active_seq n k.active_released t.held e)
      by_test n true false e = h
      by_test n false ours e = h

      by_seq :
          (o : Option ℕ)
          → is_stuck (elim o [
            | none ↦ k
            | some n ↦
                if not (is_idle k.request_state) && same_seq k.active_seq n
                then complete_active (kick now raises) untimed
                else k
          ])
            ≡ false
      by_seq none = h
      by_seq (some n) = by_test n (not (is_idle k.request_state)) (same_seq k.active_seq n) refl

  raw_reply_rests :
      (seq : Json) (k : Kernel)
      → IsTidy r k
      → is_stuck k ≡ false
      → is_stuck (complete_raw_reply now raises seq k) ≡ false
  unfolding complete_raw_reply drop_request
  raw_reply_rests seq k t h = by_seq (positive seq)
    where
      by_seq :
          (o : Option ℕ)
          → is_stuck
              (elim o [ none ↦ k | some n ↦ complete_reply now raises seq (drop_request n k) ])
            ≡ false
      by_seq none = h
      by_seq (some n) =
          reply_rests seq (drop_request n k) (record { limit = t.limit; held = t.held }) h

  resolved :
      (seq : Json) (msg : Members) (k : Kernel)
      → IsTidy r k
      → is_stuck k ≡ false
      → IsTidy r (resolve_reply now raises seq msg k)
        × (is_stuck (resolve_reply now raises seq msg k) ≡ false)
  unfolding resolve_reply clear_pending_transport_retry
  resolved seq msg k t h = by_seq (positive seq)
    where
      by_seq :
          (o : Option ℕ)
          → (λ (k' : Kernel). IsTidy r k' × (is_stuck k' ≡ false))
              (elim o [
                | none ↦ k
                | some n ↦ clear_pending_transport_retry n (record k {
                  pending_responses = (resolve true true n msg k.pending_responses).0;
                })
              ])
      by_seq none = (t, h)
      by_seq (some n) = (
        record { limit = t.limit; held = t.held },
        cleared_rests n
            (record k { pending_responses = (resolve true true n msg k.pending_responses).0 }) h,
      )

  pub message_rests :
      (dispatch : Dispatcher → Members → Dispatcher) (msg : Members) (k : Kernel)
      → IsTidy r k
      → is_stuck k ≡ false
      → is_stuck (on_message now raises dispatch msg k) ≡ false
  unfolding on_message note_received
  message_rests dispatch msg k t h = by_test (is_raw_seq seq noted.raw_passthrough_seqs)
    where
      seq : Json
      seq = (with_auth_seq msg).0

      msg' : Members
      msg' = (with_auth_seq msg).1

      noted : Kernel
      noted = note_received now raises msg' (resolve_reply now raises seq msg' k)

      dispatched : Kernel
      dispatched = record noted { dispatcher = dispatch noted.dispatcher msg' }

      by_test :
          (o : Option Bool)
          → is_stuck (elim o [
            | none ↦ noted
            | some true ↦ complete_raw_reply now raises (get "seq" msg') noted
            | some false ↦ complete_reply now raises (get "seq" msg') dispatched
          ])
            ≡ false
      by_test none = let (t', h') = resolved seq msg' k t h in h'
      by_test (some true) =
          let (t', h') = resolved seq msg' k t h in
          raw_reply_rests (get "seq" msg') noted (record { limit = t'.limit; held = t'.held }) h'
      by_test (some false) =
          let (t', h') = resolved seq msg' k t h in
          reply_rests (get "seq" msg') dispatched (record { limit = t'.limit; held = t'.held }) h'
