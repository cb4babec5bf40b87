-- ===== src/Kernel/Termination/Sending.antt =====
-- A send of src/elke27_lib/kernel_loop.py calls the kick with less to send than before.
use elke.Base.{
  ℕ, ◌+◌, ◌≤◌, ◌<◌, ◌≡◌, refl, ap, ◌∙◌, Bool, true, false, not, Option, none, some, List, [], ◌∷◌,
  if◌then◌else◌, arith,
}
use elke.Base.Dict.{nat_key}
use elke.Kernel.{QueuedRequest, Kernel, is_past_deadline, is_active}
use elke.Kernel.Scheduler.{
  Raised, deadline_expired, fail_queued_command, is_idle, prepare, activate, next_request,
}
use elke.Kernel.Scheduler.Fuel.{share, shares}
use elke.Kernel.Scheduler.Sending.{send_or_fail, send_request, send_next, try_send_next_by}
use elke.Kernel.Chances.{IsTidy}
use elke.Kernel.Chances.Within.{IsWithin, total, fail_queued_command-IsWithin}
use elke.Kernel.Sending.{Prepared, prepare_lem, share_active-le, prepared_settled, prepared_share}
use elke.Kernel.Termination.{every, never, never-le, settle_sum, sum}
use elke.Kernel.Termination.Failures.{handle_send_failure_agree}

module _ (r now w : ℕ) (kick kick' : Kernel → Kernel)
    (shrinks : (k : Kernel)
      → IsTidy r k
      → IsWithin every never never-le r now (total every never never-le r now k) (kick k))
    (agree : (k : Kernel)
      → IsTidy r k
      → total every never never-le r now k < w
      → kick k ≡ kick' k) where
  module _ (raises : QueuedRequest → Option Raised) where
    send_request_agree :
        (item : QueuedRequest) (k : Kernel)
        → k.request_max_retries ≡ r
        → settle_sum r now w kick kick' shrinks agree k + share every r item ≤ w
        → send_request now raises kick item k ≡ send_request now raises kick' item k
    unfolding send_request activate
    send_request_agree item k limit fits = send (raises item')
      where
        item' : QueuedRequest
        item' = (prepare item k).0

        k' : Kernel
        k' = (prepare item k).1

        made : Prepared item item' k k'
        made = prepare_lem item k

        send :
            (o : Option Raised)
            → send_or_fail now raises kick o item' (activate (item', k'))
              ≡ send_or_fail now raises kick' o item' (activate (item', k'))
        send none = refl
        send (some exc) =
            let one = share_active-le every r false item' in
            let same = prepared_settled every never never-le r now made in
            let alike = prepared_share every never never-le r now made in
            handle_send_failure_agree r now w kick kick' shrinks agree item'.seq exc
              (activate (item', k')) (record { limit = made.same_limit ∙ limit; held = refl }) refl
              (omega arith)

    send_next_agree :
        (item : QueuedRequest) (k' k : Kernel)
        → IsTidy r k'
        → sum r now w kick kick' shrinks agree k' + share every r item ≤ w
        → send_next now raises kick (some (item, k')) k
          ≡ send_next now raises kick' (some (item, k')) k
    send_next_agree item k' k t fits = cases (is_past_deadline now item)
      where
        expired : Kernel
        expired = fail_queued_command deadline_expired item k'

        cases :
            (past : Bool)
            → (if past then kick expired else send_request now raises kick item k')
              ≡ (if past then kick' expired else send_request now raises kick' item k')
        cases true =
            let v =
              fail_queued_command-IsWithin every never never-le r now kick shrinks deadline_expired
                item k' t in
            agree expired v.tidy (omega (arith, v.bound))
        cases false = send_request_agree item k' t.limit (omega arith)

    pub try_send_next_by_agree :
        (k : Kernel)
        → IsTidy r k
        → sum r now w kick kick' shrinks agree k ≤ w
        → try_send_next_by now raises kick k ≡ try_send_next_by now raises kick' k
    unfolding try_send_next_by next_request shares
    try_send_next_by_agree k t fits =
        cases (is_idle k.request_state) (is_active k.session) k.request_queue_high
          k.request_queue_normal refl refl
      where
        step : (Kernel → Kernel) → Bool → Bool → List QueuedRequest → List QueuedRequest → Kernel
        step by free up highs normals =
            if not free
            then k
            else if not up
            then k
            else send_next now raises by
                (elim highs [
                  | item ∷ rest ↦ some (item, record k { request_queue_high = rest })
                  | [] ↦ elim normals [
                    | item ∷ rest ↦ some (item, record k { request_queue_normal = rest })
                    | [] ↦ none
                  ]
                ])
                k

        cases :
            (free up : Bool) (highs normals : List QueuedRequest)
            → k.request_queue_high ≡ highs
            → k.request_queue_normal ≡ normals
            → step kick free up highs normals ≡ step kick' free up highs normals
        cases false up highs normals e f = refl
        cases true false highs normals e f = refl
        cases true true [] [] e f = refl
        cases true true [] (item ∷ rest) e f =
            let fewer = ap (shares every r) f in
            send_next_agree item (record k { request_queue_normal = rest }) k
              (record { limit = t.limit; held = t.held }) (omega arith)
        cases true true (item ∷ rest) normals e f =
            let fewer = ap (shares every r) e in
            send_next_agree item (record k { request_queue_high = rest }) k
              (record { limit = t.limit; held = t.held }) (omega arith)
