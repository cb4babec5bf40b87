-- ===== src/Kernel/Answered/Runs.antt =====
-- After a reply, no run of src/elke27_lib/kernel_loop.py sends its request again.
use elke.Kernel.Steps.{Step, run_steps, IsFair}
use elke.Kernel.RawSeqs.{RawSeqTracker}
use elke.Kernel.Runs.{asked_sends, run_steps-Kept, sends_of}
use elke.Kernel.Calls.Active.{
  resolve_reply, on_message, note_received, complete_raw_reply, complete_reply,
}
use elke.Kernel.Scheduler.{Raised}
use elke.Kernel.Calls.{
  positive, with_auth_seq, lift_auth, clear_pending_transport_retry, is_raw_seq,
}
use elke.Base.{
  ℕ, suc, ◌≢◌, ◌≤◌, ◌≡◌, refl, sym, subst, Bool, true, false, Option, none, some, List, ◌==◌, arith,
}
use elke.Dispatch.Json.{
  null, bool, int, float, str, array, object, ℤ, pos, Json, Members, get, as_int, as_mapping,
}
use elke.Dispatch.State.{Dispatcher}
use elke.Pending.{resolve}
use elke.Kernel.{QueuedRequest, Kernel, in_flight}
use elke.Kernel.Answered.{
  AllOwn, IsAnswering, Over, shares-without_own, shares_waiting-erase_own, complete_reply-Over,
  complete_raw_reply-Over,
}

-- The number of a message that has one is its own.
with_auth_seq_own :
    (msg : Members) (n : ℕ)
    → positive (get "seq" msg) ≡ some n
    → with_auth_seq msg ≡ (get "seq" msg, msg)
unfolding with_auth_seq
with_auth_seq_own msg n = by (as_int (get "seq" msg))
  where
    by :
        (o : Option ℤ)
        → ◌≡◌ {A = Option ℕ} (elim o [ some (pos (suc j)) ↦ some (suc j) | _ ↦ none ]) (some n)
        → ◌≡◌ {A = Json × Members}
            (elim o [
              | some z ↦ (get "seq" msg, msg)
              | none ↦ lift_auth (as_mapping (get "authenticate" msg)) msg
            ])
            (get "seq" msg, msg)
    by none h = cc
    by (some z) h = refl

-- A number has a hash.
unhashed :
    (n : ℕ) (value : Json) (t : RawSeqTracker) → positive value ≡ some n → is_raw_seq value t ≢ none
unhashed n null t h e = cc
unhashed n (bool b) t h e = cc
unhashed n (int z) t h e = cc
unhashed n (float text zero) t h e = cc
unhashed n (str s) t h e = cc
unhashed n (array items) t h e = cc
unhashed n (object members) t h e = cc

module _ (now : ℕ) (raises : QueuedRequest → Option Raised) (n : ℕ) where
  -- Once the reply is resolved, nothing but the active request is left of its number.
  resolved :
      (seq : Json) (msg : Members) (k : Kernel)
      → positive seq ≡ some n
      → k.active_seq ≡ some n
      → k.request_state ≡ in_flight
      → k.active_released ≡ false
      → AllOwn k.transport_retry
      → IsAnswering n k.request_max_retries (sends_of n k) (resolve_reply now raises seq msg k)
  unfolding resolve_reply clear_pending_transport_retry
  resolved seq msg k numbered ours flying free own =
      subst (λ o. IsAnswering n k.request_max_retries (sends_of n k) (after o)) (sym numbered)
        (record {
          ours = ours;
          flying = flying;
          free = free;
          limit = refl;
          bound = omega (
            arith,
            shares-without_own n k.request_max_retries k.request_queue_high,
            shares-without_own n k.request_max_retries k.request_queue_normal,
            shares_waiting-erase_own n k.request_max_retries k.transport_retry own,
          );
        })
    where
      after : Option ℕ → Kernel
      after o = elim o [
        | none ↦ k
        | some j ↦
            clear_pending_transport_retry j
              (record k { pending_responses = (resolve true true j msg k.pending_responses).0 })
      ]

  on_message-Over :
      (dispatch : Dispatcher → Members → Dispatcher) (msg : Members) (k : Kernel)
      → positive (get "seq" msg) ≡ some n
      → k.active_seq ≡ some n
      → k.request_state ≡ in_flight
      → k.active_released ≡ false
      → AllOwn k.transport_retry
      → Over now raises n k.request_max_retries
          (sends_of n k)
          (on_message now raises dispatch msg k)
  unfolding on_message note_received
  on_message-Over dispatch msg k numbered ours flying free own =
      subst (λ w. Over now raises n k.request_max_retries (sends_of n k) (after w))
        (sym (with_auth_seq_own msg n numbered))
        (cases (is_raw_seq (get "seq" msg) noted.raw_passthrough_seqs)
          (unhashed n (get "seq" msg) noted.raw_passthrough_seqs numbered))
    where
      noted : Kernel
      noted = note_received now raises msg (resolve_reply now raises (get "seq" msg) msg k)

      dispatched : Kernel
      dispatched = record noted { dispatcher = dispatch noted.dispatcher msg }

      a :
          IsAnswering n k.request_max_retries
            (sends_of n k)
            (resolve_reply now raises (get "seq" msg) msg k)
      a = resolved (get "seq" msg) msg k numbered ours flying free own

      cases :
          (o : Option Bool)
          → (o ≢ none)
          → Over now raises n k.request_max_retries (sends_of n k) (elim o [
            | none ↦ noted
            | some true ↦ complete_raw_reply now raises (get "seq" msg) noted
            | some false ↦ complete_reply now raises (get "seq" msg) dispatched
          ])
      cases none h = absurd (h refl)
      cases (some true) h =
          complete_raw_reply-Over now raises n k.request_max_retries (sends_of n k) (get "seq" msg)
            noted numbered
            (record {
              ours = a.ours;
              flying = a.flying;
              free = a.free;
              limit = a.limit;
              bound = a.bound;
            })
      cases (some false) h =
          complete_reply-Over now raises n k.request_max_retries (sends_of n k) (get "seq" msg)
            dispatched numbered
            (record {
              ours = a.ours;
              flying = a.flying;
              free = a.free;
              limit = a.limit;
              bound = a.bound;
            })

      after : Json × Members → Kernel
      after w =
          let noted = note_received now raises w.1 (resolve_reply now raises w.0 w.1 k) in
          let dispatched : Kernel = record noted { dispatcher = dispatch noted.dispatcher w.1 } in
          elim (is_raw_seq w.0 noted.raw_passthrough_seqs) [
            | none ↦ noted
            | some true ↦ complete_raw_reply now raises (get "seq" w.1) noted
            | some false ↦ complete_reply now raises (get "seq" w.1) dispatched
          ]

-- A request that has been answered is not sent again: after a message with the number of the active
-- request, which was in flight, no run without a new request of that number adds a send of it, though
-- retries of it were queued or waiting. Each request that waits for a retry does so under its own
-- number, and no send fails for an active request once it has been confirmed.
pub sends_of-run_steps_answered :
    (now : ℕ) (raises : QueuedRequest → Option Raised)
    (dispatch : Dispatcher → Members → Dispatcher) (msg : Members) (k : Kernel)
    (ss : List (ℕ × Step)) (n : ℕ)
    → positive (get "seq" msg) ≡ some n
    → k.active_seq ≡ some n
    → k.request_state ≡ in_flight
    → k.active_released ≡ false
    → AllOwn k.transport_retry
    → IsFair raises dispatch (on_message now raises dispatch msg k) ss
    → asked_sends (λ s. s == n) k.request_max_retries ss ≡ 0
    → sends_of n (run_steps raises dispatch (on_message now raises dispatch msg k) ss)
      ≤ sends_of n k
sends_of-run_steps_answered now raises dispatch msg k ss n numbered ours flying free own fair
      none_asked =
    let p : ℕ → Bool = λ s. s == n in
    let w = on_message-Over now raises n dispatch msg k numbered ours flying free own in
    let (_, bound) =
      run_steps-Kept p p (λ s. omega arith) k.request_max_retries raises dispatch ss
        (on_message now raises dispatch msg k) w.tidy fair in
    omega (arith, w.bound, bound, none_asked)
