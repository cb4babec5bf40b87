-- ===== src/Kernel/Arrivals/Messages.antt =====
-- What a message adds to the sends of src/elke27_lib/kernel_loop.py.
use native.Mathlib.Nat.{le_trans}
use elke.Base.{
  ℕ, ◌≤◌, ◌≡◌, refl, Bool, true, false, not, ◌&&◌, Option, none, some, if◌then◌else◌, arith,
}
use elke.Base.Dict.{nat_key}
use elke.Dispatch.Json.{Json, Members, get}
use elke.Dispatch.State.{Dispatcher}
use elke.Pending.{resolve}
use elke.Kernel.{QueuedRequest, Kernel}
use elke.Kernel.Scheduler.{Raised, drop_request, is_idle, same_seq}
use elke.Kernel.Scheduler.Failures.{complete_active}
use elke.Kernel.Calls.{positive, is_raw_seq, with_auth_seq, clear_pending_transport_retry}
use elke.Kernel.Calls.Active.{
  kick, resolve_reply, note_received, complete_reply, complete_raw_reply, on_message,
}
use elke.Kernel.Chances.{one_if, IsTidy}
use elke.Kernel.Sends.{complete_ours}
use elke.Kernel.Arrivals.{Within, cleared, sum}

module _ (p q : ℕ → Bool) (below : (seq : ℕ) → one_if (q seq) ≤ one_if (p seq)) (r now : ℕ) where
  module _ (raises : QueuedRequest → Option Raised) where
    complete_reply-IsWithin :
        (seq : Json) (k : Kernel)
        → IsTidy r k
        → Within p q below r now (sum p q below r now k) (complete_reply now raises seq k)
    unfolding complete_reply
    complete_reply-IsWithin seq k t = by_seq (positive seq)
      where
        same : Within p q below r now (sum p q below r now k) k
        same = record { tidy = t; bound = omega arith }

        untimed : Kernel
        untimed = record k { active_timeout = none }

        by_test :
            (n : ℕ) (flying ours : Bool)
            → same_seq k.active_seq n ≡ ours
            → Within p q below r now
                (sum p q below r now k)
                (if flying && ours then complete_active (kick now raises) untimed else k)
        by_test n true true e =
            let w =
              complete_ours p q below r now raises n untimed
                (record { limit = t.limit; held = t.held }) e in
            record { tidy = w.tidy; bound = le_trans w.bound (omega arith) }
        by_test n true false e = same
        by_test n false ours e = same

        by_seq :
            (o : Option ℕ)
            → Within p q below r now (sum p q below r now k) (elim o [
              | none ↦ k
              | some n ↦
                  if not (is_idle k.request_state) && same_seq k.active_seq n
                  then complete_active (kick now raises) untimed
                  else k
            ])
        by_seq none = same
        by_seq (some n) = by_test n (not (is_idle k.request_state)) (same_seq k.active_seq n) refl

    complete_raw_reply-IsWithin :
        (seq : Json) (k : Kernel)
        → IsTidy r k
        → Within p q below r now (sum p q below r now k) (complete_raw_reply now raises seq k)
    unfolding complete_raw_reply drop_request
    complete_raw_reply-IsWithin seq k t = by_seq (positive seq)
      where
        by_seq :
            (o : Option ℕ)
            → Within p q below r now
                (sum p q below r now k)
                (elim o [ none ↦ k | some n ↦ complete_reply now raises seq (drop_request n k) ])
        by_seq none = record { tidy = t; bound = omega arith }
        by_seq (some n) =
            let w =
              complete_reply-IsWithin seq (drop_request n k)
                (record { limit = t.limit; held = t.held }) in
            record { tidy = w.tidy; bound = w.bound }

    resolve_reply-IsWithin :
        (seq : Json) (msg : Members) (k : Kernel)
        → IsTidy r k
        → Within p q below r now (sum p q below r now k) (resolve_reply now raises seq msg k)
    unfolding resolve_reply
    resolve_reply-IsWithin seq msg k t = by_seq (positive seq)
      where
        by_seq :
            (o : Option ℕ)
            → Within p q below r now (sum p q below r now k) (elim o [
              | none ↦ k
              | some n ↦
                  clear_pending_transport_retry n (record k {
                    pending_responses = (resolve true true n msg k.pending_responses).0;
                  })
            ])
        by_seq none = record { tidy = t; bound = omega arith }
        by_seq (some n) =
            cleared p q below r now raises n
              (record k { pending_responses = (resolve true true n msg k.pending_responses).0 })
              (record { limit = t.limit; held = t.held })

    pub on_message-IsWithin :
        (dispatch : Dispatcher → Members → Dispatcher) (msg : Members) (k : Kernel)
        → IsTidy r k
        → Within p q below r now (sum p q below r now k) (on_message now raises dispatch msg k)
    unfolding on_message note_received
    on_message-IsWithin dispatch msg k t = by_test (is_raw_seq seq noted.raw_passthrough_seqs)
      where
        seq : Json
        seq = (with_auth_seq msg).0

        msg' : Members
        msg' = (with_auth_seq msg).1

        noted : Kernel
        noted = note_received now raises msg' (resolve_reply now raises seq msg' k)

        dispatched : Kernel
        dispatched = record noted { dispatcher = dispatch noted.dispatcher msg' }

        by_test :
            (o : Option Bool)
            → Within p q below r now (sum p q below r now k) (elim o [
              | none ↦ noted
              | some true ↦ complete_raw_reply now raises (get "seq" msg') noted
              | some false ↦ complete_reply now raises (get "seq" msg') dispatched
            ])
        by_test none =
            let u = resolve_reply-IsWithin seq msg' k t in
            record { tidy = record { limit = u.tidy.limit; held = u.tidy.held }; bound = u.bound }
        by_test (some true) =
            let u = resolve_reply-IsWithin seq msg' k t in
            let w =
              complete_raw_reply-IsWithin (get "seq" msg') noted
                (record { limit = u.tidy.limit; held = u.tidy.held }) in
            record { tidy = w.tidy; bound = le_trans w.bound u.bound }
        by_test (some false) =
            let u = resolve_reply-IsWithin seq msg' k t in
            let w =
              complete_reply-IsWithin (get "seq" msg') dispatched
                (record { limit = u.tidy.limit; held = u.tidy.held }) in
            record { tidy = w.tidy; bound = le_trans w.bound u.bound }
