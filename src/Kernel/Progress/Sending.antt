-- ===== src/Kernel/Progress/Sending.antt =====
-- `_try_send_next` of src/elke27_lib/kernel_loop.py leaves no request behind that it could send.
use elke.Base.{
  ℕ, zero, suc, ◌+◌, ◌≤◌, ◌<◌, ◌≡◌, refl, ap, ◌∙◌, Bool, true, false, not, ◌&&◌, Option, none, some,
  List, [], ◌∷◌, if◌then◌else◌, ==_refl, arith,
}
use elke.Base.Dict.{nat_key}
use elke.Kernel.{QueuedRequest, Kernel, is_past_deadline, is_active}
use elke.Kernel.Scheduler.{
  Raised, deadline_expired, fail_queued_command, is_idle, prepare, activate, hand_over,
  next_request,
}
use elke.Kernel.Scheduler.Fuel.{share, shares, future_sends, kick_scheduler}
use elke.Kernel.Scheduler.Sending.{
  send_or_fail, send_request, send_next, try_send_next_by, try_send_next_within,
}
use elke.Kernel.Chances.{IsTidy}
use elke.Kernel.Chances.Within.{IsWithin, total, fail_queued_command-IsWithin}
use elke.Kernel.Sending.{Prepared, prepare_lem, share_active-le, prepared_settled, prepared_share}
use elke.Kernel.Sending.Kick.{try_send_next_within-IsWithin}
use elke.Kernel.Termination.{every, never, never-le}
use elke.Kernel.Termination.Within.{sends_made-never}
use elke.Kernel.Progress.{is_empty, is_stuck, settle_sum, sum}
use elke.Kernel.Progress.Failures.{handle_send_failure_rests}

module _ (r now w : ℕ) (kick : Kernel → Kernel)
    (shrinks : (k : Kernel)
      → IsTidy r k
      → IsWithin every never never-le r now (total every never never-le r now k) (kick k))
    (rests : (k : Kernel)
      → IsTidy r k
      → total every never never-le r now k < w
      → is_stuck (kick k) ≡ false) where
  module _ (raises : QueuedRequest → Option Raised) where
    send_request_rests :
        (item : QueuedRequest) (k : Kernel)
        → k.request_max_retries ≡ r
        → settle_sum r now w kick shrinks rests k + share every r item ≤ w
        → is_stuck (send_request now raises kick item k) ≡ false
    unfolding send_request activate hand_over
    send_request_rests item k limit fits = send (raises item')
      where
        item' : QueuedRequest
        item' = (prepare item k).0

        k' : Kernel
        k' = (prepare item k).1

        made : Prepared item item' k k'
        made = prepare_lem item k

        send :
            (o : Option Raised)
            → is_stuck (send_or_fail now raises kick o item' (activate (item', k'))) ≡ false
        send none = refl
        send (some exc) =
            let one = share_active-le every r false item' in
            let same = prepared_settled every never never-le r now made in
            let alike = prepared_share every never never-le r now made in
            handle_send_failure_rests r now w kick shrinks rests item'.seq exc
              (activate (item', k')) (record { limit = made.same_limit ∙ limit; held = refl }) refl
              (==_refl item'.seq) (omega arith)

    send_next_rests :
        (item : QueuedRequest) (k' k : Kernel)
        → IsTidy r k'
        → sum r now w kick shrinks rests k' + share every r item ≤ w
        → is_stuck (send_next now raises kick (some (item, k')) k) ≡ false
    send_next_rests item k' k t fits = cases (is_past_deadline now item)
      where
        expired : Kernel
        expired = fail_queued_command deadline_expired item k'

        cases :
            (past : Bool)
            → is_stuck (if past then kick expired else send_request now raises kick item k') ≡ false
        cases true =
            let v =
              fail_queued_command-IsWithin every never never-le r now kick shrinks deadline_expired
                item k' t in
            rests expired v.tidy (omega (arith, v.bound))
        cases false = send_request_rests item k' t.limit (omega arith)

    pub try_send_next_by_rests :
        (k : Kernel)
        → IsTidy r k
        → sum r now w kick shrinks rests k ≤ w
        → is_stuck (try_send_next_by now raises kick k) ≡ false
    unfolding try_send_next_by next_request shares
    try_send_next_by_rests k t fits =
        cases (is_idle k.request_state) (is_active k.session) k.request_queue_high
          k.request_queue_normal refl refl refl refl
      where
        by_guards :
            (free up : Bool)
            → is_idle k.request_state ≡ free
            → is_active k.session ≡ up
            → (free && up) ≡ false
            → is_stuck k ≡ false
        by_guards true true e f h = cc
        by_guards true false e f h = rw (e, f) refl
        by_guards false up e f h = rw e refl

        cases :
            (free up : Bool) (highs normals : List QueuedRequest)
            → is_idle k.request_state ≡ free
            → is_active k.session ≡ up
            → k.request_queue_high ≡ highs
            → k.request_queue_normal ≡ normals
            → is_stuck (
                if not free
                then k
                else if not up
                then k
                else send_next now raises kick
                    (elim highs [
                      | item ∷ rest ↦ some (item, record k { request_queue_high = rest })
                      | [] ↦ elim normals [
                        | item ∷ rest ↦ some (item, record k { request_queue_normal = rest })
                        | [] ↦ none
                      ]
                    ])
                    k)
              ≡ false
        cases false up highs normals a b e f = by_guards false up a b refl
        cases true false highs normals a b e f = by_guards true false a b refl
        cases true true [] [] a b e f =
            ap
              (λ (hs : List QueuedRequest).
                is_idle k.request_state
                && (is_active k.session && not (is_empty hs && is_empty k.request_queue_normal)))
              e
            ∙ ap
                (λ (ns : List QueuedRequest).
                  is_idle k.request_state && (is_active k.session && not (is_empty ns)))
                f
            ∙ both (is_idle k.request_state) (is_active k.session)
          where
            both : (x y : Bool) → (x && (y && false)) ≡ false
            both true true = refl
            both true false = refl
            both false y = refl
        cases true true [] (item ∷ rest) a b e f =
            let fewer = ap (shares every r) f in
            send_next_rests item (record k { request_queue_normal = rest }) k
              (record { limit = t.limit; held = t.held }) (omega arith)
        cases true true (item ∷ rest) normals a b e f =
            let fewer = ap (shares every r) e in
            send_next_rests item (record k { request_queue_high = rest }) k
              (record { limit = t.limit; held = t.held }) (omega arith)

module _ (r now : ℕ) (raises : QueuedRequest → Option Raised) where
  within_rests :
      (n : ℕ) (k : Kernel)
      → IsTidy r k
      → total every never never-le r now k < n
      → is_stuck (try_send_next_within now raises n k) ≡ false
  unfolding try_send_next_within
  within_rests zero k t less = absurd (omega arith)
  within_rests (suc n) k t less =
      try_send_next_by_rests r now (total every never never-le r now k)
        (try_send_next_within now raises n)
        (try_send_next_within-IsWithin every never never-le r now raises n)
        (λ k' t' fewer. within_rests n k' t' (omega arith)) raises k t (omega arith)

  pub kick_scheduler_rests :
      (k : Kernel) → IsTidy r k → is_stuck (kick_scheduler now raises k) ≡ false
  unfolding kick_scheduler
  kick_scheduler_rests k t =
      let same : total every never never-le k.request_max_retries now k
          ≡ total every never never-le r now k =
        ap (λ limit. total every never never-le limit now k) t.limit in
      let unsent = sends_made-never k.session_calls in
      within_rests (suc (future_sends every k.request_max_retries k)) k t (omega arith)
