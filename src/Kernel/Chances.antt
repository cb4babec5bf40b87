-- ===== src/Kernel/Chances.antt =====
-- The scheduler of src/elke27_lib/kernel_loop.py makes no sends beyond those that were still to come.
pub mod Within
pub mod Failures
use elke.Base.{
  ℕ, suc, ◌+◌, ◌-◌, ◌≤◌, ◌≡◌, ◌⊎◌, refl, subst, ◌∙◌, Bool, true, false, not, ◌&&◌, ◌||◌, Option,
  none, some, List, [], ◌∷◌, ◌++◌, leb, if◌then◌else◌, ◌==◌, Bool-cases, inl, inr, arith,
}
use native.Mathlib.Nat.{le_trans}
use elke.Base.Dict.{Dict, nat_key, insert, erase}
use elke.Outbound.{OutboundPriority, high, normal}
use elke.Kernel.{
  QueuedRequest, SessionCall, sends, cancels, Kernel, is_keepalive, is_disarm,
  retry_after_send_allowed, retries_disabled, is_past_deadline, transport_retry_allowed,
  transport_backoff, is_active,
}
use elke.Session.State.{Session}
use elke.Kernel.RawSeqs.{is_raw}
use elke.Kernel.Scheduler.{
  Raised, deadline_expired, put_request, put_first, fail_queued_command, mark_send_failed,
  drop_request, cancel_transport_retry_timer, is_sent, disconnect_session,
  disconnect_session_on_io_error, same_seq,
}
use elke.Kernel.Scheduler.Failures.{
  complete_active, enqueue_request, schedule_transport_requeue, handle_transport_failure,
  handle_send_failure,
}
use elke.Kernel.Scheduler.Fuel.{share, share_active, shares, shares_waiting, queued_sends}

-- The sends made so far, for the sequence numbers that pass a test.
abbrev pub one_if : Bool → ℕ
one_if b = if b then 1 else 0

unfoldable pub sends_made : (ℕ → Bool) → List SessionCall → ℕ
sends_made q [] = 0
sends_made q (sends seq _ _ ∷ calls) = one_if (q seq) + sends_made q calls
sends_made q (cancels _ ∷ calls) = sends_made q calls

pub sends_made-append :
    (q : ℕ → Bool) (calls more : List SessionCall)
    → sends_made q (calls ++ more) ≡ sends_made q calls + sends_made q more
unfolding sends_made
sends_made-append q [] more = omega arith
sends_made-append q (sends seq _ _ ∷ calls) more = omega (arith, sends_made-append q calls more)
sends_made-append q (cancels _ ∷ calls) more = sends_made-append q calls more

-- What the retries need to know of the kernel, and what each part of the scheduler keeps: the
-- number of retries, and that an active request has not been released.
abbrev pub is_some {ℓ} : {A : Type ℓ} → Option A → Bool
is_some none = false
is_some (some _) = true

pub record IsTidy (max_retries : ℕ) (k : Kernel) : Type 0 where
  pub limit : k.request_max_retries ≡ max_retries
  pub held : (is_some k.active_seq && k.active_released) ≡ false

-- The facts on sums.
module _ (p : ℕ → Bool) (r : ℕ) where
  pub shares-append :
      (items : List QueuedRequest) (item : QueuedRequest)
      → shares p r (items ++ (item ∷ [])) ≡ shares p r items + share p r item
  unfolding shares
  shares-append [] item = omega arith
  shares-append (x ∷ items) item = omega (arith, shares-append items item)

  pub shares_waiting-erase :
      (seq : ℕ) (d : Dict ℕ QueuedRequest) → shares_waiting p r (erase seq d) ≤ shares_waiting p r d
  unfolding shares_waiting erase
  shares_waiting-erase seq [] = omega arith
  shares_waiting-erase seq ((j, item) ∷ d) = elim (Bool-cases (seq == j)) [
    | inl e ↦ rw e (omega (arith, shares_waiting-erase seq d))
    | inr e ↦ rw e (omega (arith, shares_waiting-erase seq d))
  ]

  pub shares_waiting-insert :
      (seq : ℕ) (item : QueuedRequest) (d : Dict ℕ QueuedRequest)
      → shares_waiting p r (insert seq item d) ≤ shares_waiting p r d + share p r item
  unfolding shares_waiting insert
  shares_waiting-insert seq item [] = omega arith
  shares_waiting-insert seq item ((j, old) ∷ d) = elim (Bool-cases (seq == j)) [
    | inl e ↦ rw e (omega arith)
    | inr e ↦ rw e (omega (arith, shares_waiting-insert seq item d))
  ]

retry-le :
    (counted alive past off : Bool) (r a : ℕ) (sent after raw : Bool)
    → (if alive
        then false
        else if past
        then false
        else if off
        then false
        else if leb r a
        then false
        else if sent && not after
        then false
        else not raw)
      ≡ true
    → (if counted then suc (if alive || off then 0 else r - suc a) else 0)
      ≤ (if counted then if sent && not after then 0 else if alive || off then 0 else r - a else 0)
retry-le false _ _ _ _ _ _ _ _ _ = omega arith
retry-le true true _ _ _ _ _ _ _ h = cc
retry-le true false true _ _ _ _ _ _ h = cc
retry-le true false false true _ _ _ _ _ h = cc
retry-le true false false false r a sent after raw h = ground arith

-- A retry that is allowed uses up one of the chances.
pub share-retry :
    (p : ℕ → Bool) (r now : ℕ) (sent : Bool) (item : QueuedRequest) (k : Kernel)
    → k.request_max_retries ≡ r
    → transport_retry_allowed now sent item k ≡ true
    → share p r (record item { attempt = suc item.attempt }) ≤ share_active p r sent (some item)
unfolding transport_retry_allowed is_keepalive
share-retry p r now sent item k limit allowed =
    subst
      (λ n.
        share p n (record item { attempt = suc item.attempt }) ≤ share_active p n sent (some item))
      limit
      (retry-le (p item.seq) (is_keepalive item) (is_past_deadline now item)
        (retries_disabled item.expected_route) k.request_max_retries item.attempt sent
        (retry_after_send_allowed item) (is_raw item.seq k.raw_passthrough_seqs) allowed)

share-priority :
    (p : ℕ → Bool) (r : ℕ) (item : QueuedRequest)
    → share p r (record item { priority = high }) ≡ share p r item
unfolding is_keepalive
share-priority p r item = refl

pub queued_sends-put_first :
    (p : ℕ → Bool) (r : ℕ) (item : QueuedRequest) (k : Kernel)
    → queued_sends p r (put_first item k) ≡ queued_sends p r k + share p r item
unfolding put_first shares
queued_sends-put_first p r item k =
    let same : share p r (record item { priority = high }) ≡ share p r item =
      share-priority p r item in
    omega arith
