-- ===== src/Kernel/Sending.antt =====
-- `_try_send_next` of src/elke27_lib/kernel_loop.py makes no sends beyond those still to come.
pub mod Kick
use native.Mathlib.Nat.{le_trans}
use elke.Base.{
  ℕ, zero, suc, ◌+◌, ◌≤◌, ◌≡◌, refl, ap, ◌∙◌, Bool, true, false, not, ◌&&◌, Option, none, some,
  List, [], ◌∷◌, if◌then◌else◌, ==_refl, Bool-cases, inl, inr, arith,
}
use elke.Dispatch.State.{PagedTransferKey}
use elke.Kernel.{
  QueuedRequest, SessionCall, sends, Kernel, is_keepalive, retry_after_send_allowed,
  is_past_deadline, is_active,
}
use elke.Kernel.Scheduler.{
  Raised, deadline_expired, fail_queued_command, is_sent, is_idle, build_request_message, prepare,
  activate, hand_over, with_transfer, started_transfer, register_pending, next_request,
}
use elke.Kernel.Scheduler.Fuel.{
  chances, share, share_active, shares, shares_waiting, future_sends, kick_scheduler,
}
use elke.Kernel.Scheduler.Sending.{
  send_or_fail, send_request, send_next, try_send_next_by, try_send_next_within,
}
use elke.Kernel.Chances.{one_if, sends_made, sends_made-append, IsTidy}
use elke.Kernel.Chances.Within.{IsWithin, settled, total, fail_queued_command-IsWithin}
use elke.Kernel.Chances.Failures.{handle_send_failure-IsWithin}

-- `prepare` gives the request a transfer at most, and the kernel keeps its requests.
pub record Prepared (item item' : QueuedRequest) (k k' : Kernel) : Type 0 where
  pub same_seq : item'.seq ≡ item.seq
  pub same_chances : (r : ℕ) → chances r item' ≡ chances r item
  pub same_high : k'.request_queue_high ≡ k.request_queue_high
  pub same_normal : k'.request_queue_normal ≡ k.request_queue_normal
  pub same_waiting : k'.transport_retry ≡ k.transport_retry
  pub same_calls : k'.session_calls ≡ k.session_calls
  pub same_limit : k'.request_max_retries ≡ k.request_max_retries

pub prepare_lem :
    (item : QueuedRequest) (k : Kernel) → Prepared item (prepare item k).0 k (prepare item k).1
unfolding prepare is_keepalive
prepare_lem item k = by_pending item.pending
  where
    same : Prepared item item k k
    same = record {
      same_seq = refl;
      same_chances = λ r. refl;
      same_high = refl;
      same_normal = refl;
      same_waiting = refl;
      same_calls = refl;
      same_limit = refl;
    }

    by_transfer :
        (o : Option PagedTransferKey)
        → Prepared item
            (register_pending (with_transfer o item k)).0
            k
            (register_pending (with_transfer o item k)).1
    by_transfer none = record {
      same_seq = refl;
      same_chances = λ r. refl;
      same_high = refl;
      same_normal = refl;
      same_waiting = refl;
      same_calls = refl;
      same_limit = refl;
    }
    by_transfer (some key) = record {
      same_seq = refl;
      same_chances = λ r. refl;
      same_high = refl;
      same_normal = refl;
      same_waiting = refl;
      same_calls = refl;
      same_limit = refl;
    }

    by_pending :
        (b : Bool)
        → (λ (made : QueuedRequest × Kernel). Prepared item made.0 k made.1)
            (if b
              then register_pending (
                  with_transfer
                    (started_transfer item.opaque item.expected_route item.payload k)
                    item
                    k)
              else (item, k))
    by_pending true = by_transfer (started_transfer item.opaque item.expected_route item.payload k)
    by_pending false = same

-- One send, and the chances that are left then, are no more than the request's share.
part-le :
    (counted sent after : Bool) (n : ℕ)
    → (if counted then if sent && not after then 0 else n else 0) + one_if counted
      ≤ (if counted then suc n else 0)
part-le true true true n = omega arith
part-le true true false n = omega arith
part-le true false after n = omega arith
part-le false sent after n = omega arith

abbrev sent_call : QueuedRequest → Kernel → SessionCall
sent_call item k =
    sends item.seq (build_request_message k.session_id item.seq item.domain item.name item.payload)
      item.priority

pub share_active-le :
    (p : ℕ → Bool) (r : ℕ) (sent : Bool) (item : QueuedRequest)
    → share_active p r sent (some item) + one_if (p item.seq) ≤ share p r item
share_active-le p r sent item =
    part-le (p item.seq) sent (retry_after_send_allowed item) (chances r item)

module _ (p q : ℕ → Bool) (below : (seq : ℕ) → one_if (q seq) ≤ one_if (p seq)) (r now : ℕ)
    {item item' : QueuedRequest} {k k' : Kernel} (made : Prepared item item' k k') where
  pub prepared_share : share p r item' ≡ share p r item
  prepared_share = λ i. if p (made.same_seq i) then suc (made.same_chances r i) else 0

  pub prepared_settled : settled p q below r now (activate (item', k')) ≡ settled p q below r now k
  unfolding activate
  prepared_settled =
      let a = ap (shares p r) made.same_high in
      let b = ap (shares p r) made.same_normal in
      let c = ap (shares_waiting p r) made.same_waiting in
      let d = ap (sends_made q) made.same_calls in omega arith

module _ (p q : ℕ → Bool) (below : (seq : ℕ) → one_if (q seq) ≤ one_if (p seq)) (r now : ℕ) where
  abbrev pub Within : ℕ → Kernel → Type 0
  Within = IsWithin p q below r now

  module _ (raises : QueuedRequest → Option Raised) (kick : Kernel → Kernel)
      (shrinks : (k : Kernel) → IsTidy r k → Within (total p q below r now k) (kick k)) where
    send_request-IsWithin :
        (item : QueuedRequest) (k : Kernel)
        → k.request_max_retries ≡ r
        → Within (settled p q below r now k + share p r item) (send_request now raises kick item k)
    unfolding send_request activate hand_over sends_made
    send_request-IsWithin item k limit = send (raises item')
      where
        item' : QueuedRequest
        item' = (prepare item k).0

        k' : Kernel
        k' = (prepare item k).1

        made : Prepared item item' k k'
        made = prepare_lem item k

        same_share : share p r item' ≡ share p r item
        same_share = prepared_share p q below r now made

        same_settled : settled p q below r now (activate (item', k')) ≡ settled p q below r now k
        same_settled = prepared_settled p q below r now made

        tidy : IsTidy r (activate (item', k'))
        tidy = record { limit = made.same_limit ∙ limit; held = refl }

        send :
            (o : Option Raised)
            → Within
                (settled p q below r now k + share p r item)
                (send_or_fail now raises kick o item' (activate (item', k')))
        send none =
            let more =
              sends_made-append q (activate (item', k')).session_calls (sent_call item' k' ∷ []) in
            let one = share_active-le p r (is_sent k'.active_sent_at) item' in
            record {
              tidy = record { limit = tidy.limit; held = tidy.held };
              bound = omega (arith, same_share, same_settled, below item'.seq);
            }
        send (some exc) =
            let one = share_active-le p r false item' in
            let w =
              handle_send_failure-IsWithin p q below r now kick shrinks item'.seq exc
                (activate (item', k')) tidy refl (==_refl item'.seq) in
            record {
              tidy = w.tidy;
              bound = le_trans w.bound (omega (arith, same_share, same_settled));
            }

    pub send_next-IsWithin :
        (item : QueuedRequest) (k' k : Kernel)
        → IsTidy r k'
        → total p q below r now k' + share p r item ≤ total p q below r now k
        → Within (total p q below r now k) (send_next now raises kick (some (item, k')) k)
    send_next-IsWithin item k' k t fits = elim (Bool-cases (is_past_deadline now item)) [
      | inl past ↦ rw past (
          let w =
            fail_queued_command-IsWithin p q below r now kick shrinks deadline_expired item k' t in
          let v = shrinks (fail_queued_command deadline_expired item k') w.tidy in
          record { tidy = v.tidy; bound = le_trans v.bound (le_trans w.bound (omega arith)) })
      | inr live ↦ rw live (
          let w = send_request-IsWithin item k' t.limit in
          record { tidy = w.tidy; bound = le_trans w.bound (omega arith) })
    ]
