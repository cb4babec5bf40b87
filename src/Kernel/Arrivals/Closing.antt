-- ===== src/Kernel/Arrivals/Closing.antt =====
-- What `close` and a lost connection add to the sends of src/elke27_lib/kernel_loop.py: nothing.
use native.Mathlib.Nat.{le_trans}
use elke.Base.{ℕ, ◌≤◌, Bool, true, false, not, ◌&&◌, none, List, [], ◌∷◌, if◌then◌else◌, arith}
use elke.Base.Dict.{nat_key}
use elke.Dispatch.State.{abort_paged_transfers}
use elke.Session.State.{SessionError}
use elke.Kernel.{Kernel}
use elke.Kernel.Scheduler.{Raised, drop_request, fail_queued_command}
use elke.Kernel.Scheduler.Fuel.{shares_waiting}
use elke.Kernel.Calls.Ends.{
  closed_error, is_io_error, connection_lost, on_session_disconnected, notify, stop_keepalive,
  close_kernel,
}
use elke.Kernel.Calls.{
  has_session, drop_fire_and_forget_pending, drain_requests, fail_active, fail_all_pending_commands,
  abort_requests,
}
use elke.Kernel.Chances.{one_if, IsTidy}
use elke.Kernel.Chances.Within.{fail_queued_command-IsWithin}
use elke.Kernel.Arrivals.{Within, sum}
use elke.Kernel.Arrivals.Ends.{
  abort_requests-IsWithin, drained, fail_active-IsWithin, fail_each-IsWithin,
}

module _ (p q : ℕ → Bool) (below : (seq : ℕ) → one_if (q seq) ≤ one_if (p seq)) (r now : ℕ) where
  dropped-IsWithin :
      (seqs : List ℕ) (k : Kernel)
      → IsTidy r k
      → Within p q below r now (sum p q below r now k) (drop_fire_and_forget_pending seqs k)
  unfolding drop_fire_and_forget_pending
  dropped-IsWithin [] k t = record {
    tidy = record { limit = t.limit; held = t.held };
    bound = omega arith;
  }
  dropped-IsWithin (seq ∷ seqs) k t =
      let w =
        dropped-IsWithin seqs (drop_request seq k) (record { limit = t.limit; held = t.held }) in
      record { tidy = w.tidy; bound = w.bound }

  fail_all_pending_commands-IsWithin :
      (exc : Raised) (k : Kernel)
      → IsTidy r k
      → Within p q below r now (sum p q below r now k) (fail_all_pending_commands exc k)
  unfolding fail_all_pending_commands
  fail_all_pending_commands-IsWithin exc k t =
      let o = dropped-IsWithin k.fire_and_forget_pending_seqs k t in
      let dropped = drop_fire_and_forget_pending k.fire_and_forget_pending_seqs k in
      let u = drained p q below r now dropped o.tidy in
      let v = fail_active-IsWithin p q below r now exc (drain_requests dropped).1 u.tidy in
      let w =
        fail_each-IsWithin p q below r now (fail_queued_command exc)
          (fail_queued_command-IsWithin p q below r now (λ k. k)
            (λ k t. record { tidy = t; bound = omega arith }) exc)
          (drain_requests dropped).0 (fail_active exc (drain_requests dropped).1) v.tidy in
      record {
        tidy = record { limit = w.tidy.limit; held = w.tidy.held };
        bound = le_trans w.bound (le_trans v.bound (le_trans u.bound o.bound));
      }

  pub close_kernel-IsWithin :
      (k : Kernel) → IsTidy r k → Within p q below r now (sum p q below r now k) (close_kernel k)
  unfolding close_kernel stop_keepalive shares_waiting
  close_kernel-IsWithin k t = cases (has_session k.session) k.keepalive_running
    where
      exc : Raised
      exc = closed_error (has_session k.session)

      quiet : Bool → Kernel
      quiet b =
          if b then record k { keepalive_running = false; keepalive_probe_requested = false } else k

      closed :
          (b : Bool)
          → Within p q below r now (sum p q below r now k) (fail_all_pending_commands exc (quiet b))
      closed true =
          let w =
            fail_all_pending_commands-IsWithin exc
              (record k { keepalive_running = false; keepalive_probe_requested = false })
              (record { limit = t.limit; held = t.held }) in
          record { tidy = w.tidy; bound = w.bound }
      closed false = fail_all_pending_commands-IsWithin exc k t

      cases :
          (there running : Bool)
          → Within p q below r now (sum p q below r now k) (
              if not there
              then record (fail_all_pending_commands exc k) { transport_retry = [] }
              else record (fail_all_pending_commands exc (quiet running)) {
                transport_retry = [];
                session = none;
                closing = true;
                closed_explicitly = true;
                connected = false;
              })
      cases false running =
          let w = closed false in
          record {
            tidy = record { limit = w.tidy.limit; held = w.tidy.held };
            bound = le_trans (omega arith) w.bound;
          }
      cases true running =
          let w = closed running in
          record {
            tidy = record { limit = w.tidy.limit; held = w.tidy.held };
            bound = le_trans (omega arith) w.bound;
          }

  pub notify-IsWithin :
      (es : List SessionError) (k : Kernel)
      → IsTidy r k
      → Within p q below r now (sum p q below r now k) (notify es k)
  unfolding on_session_disconnected
  notify-IsWithin [] k t = record { tidy = t; bound = omega arith }
  notify-IsWithin (e ∷ es) k t = cases k.closing (k.closed_explicitly && is_io_error e) k.connected
    where
      left : Kernel
      left = record k { loop_calls = es }

      down : Kernel
      down = record left { connected = false }

      cases :
          (closing explicit up : Bool)
          → Within p q below r now (sum p q below r now k) (
              if closing
              then left
              else if explicit
              then left
              else if not up
              then down
              else abort_requests connection_lost
                  (record down { dispatcher = abort_paged_transfers k.dispatcher }))
      cases true explicit up = record {
        tidy = record { limit = t.limit; held = t.held };
        bound = omega arith;
      }
      cases false true up = record {
        tidy = record { limit = t.limit; held = t.held };
        bound = omega arith;
      }
      cases false false false = record {
        tidy = record { limit = t.limit; held = t.held };
        bound = omega arith;
      }
      cases false false true =
          let w =
            abort_requests-IsWithin p q below r now connection_lost
              (record down { dispatcher = abort_paged_transfers k.dispatcher })
              (record { limit = t.limit; held = t.held }) in
          record { tidy = w.tidy; bound = w.bound }
