-- ===== src/Kernel/LateWindow/Runs.antt =====
-- Any run of `RawSeqTracker` of src/elke27_lib/kernel_loop.py.
use elke.Base.{ℕ, zero, suc, ◌-◌, ◌≡◌, refl, ◌||◌, List, [], ◌∷◌, drop}
use elke.Kernel.RawSeqs.{has_member, RawSeqTracker, mark, finish, is_raw}
use elke.Kernel.LateWindow.{
  Calls, Event, abstract_event, finishes, last_items, marks, tracker_event,
}
use elke.Kernel.LateWindow.Tracks.{IsFresh, Tracks, mark-Tracks}
use elke.Kernel.LateWindow.Finish.{finish-Tracks}

unfoldable pub run_tracker : RawSeqTracker → List Event → RawSeqTracker
run_tracker t [] = t
run_tracker t (e ∷ es) = run_tracker (tracker_event t e) es

unfoldable pub run_abstract : Calls → List Event → Calls
run_abstract c [] = c
run_abstract c (e ∷ es) = run_abstract (abstract_event c e) es

-- Each event of the run is fresh where it comes.
abbrev pub AllFresh : ℕ → Calls → List Event → Type 0
AllFresh w c [] = Unit
AllFresh w c (e ∷ es) = IsFresh w c e × AllFresh w (abstract_event c e) es

run-Tracks :
    (w : ℕ) (es : List Event) (c : Calls) (t : RawSeqTracker)
    → Tracks w c t
    → AllFresh w c es
    → Tracks w (run_abstract c es) (run_tracker t es)
unfolding run_tracker run_abstract tracker_event
run-Tracks w [] c t r f = r
run-Tracks w (marks seq ∷ es) c t r (fresh, f) =
    run-Tracks w es (abstract_event c (marks seq)) (mark seq t) (mark-Tracks w c t seq r fresh) f
run-Tracks w (finishes seq ∷ es) c t r (_, f) =
    run-Tracks w es (abstract_event c (finishes seq)) (finish seq t) (finish-Tracks w c t seq r) f

abbrev pub empty_tracker : ℕ → RawSeqTracker
empty_tracker w = record { inflight = []; recent = []; recent_order = []; late_window = w }

abbrev pub no_calls : Calls
no_calls = record { inflight = []; finished = [] }

drop_nothing : (n : ℕ) → ◌≡◌ {A = List ℕ} [] (drop n [])
drop_nothing zero = refl
drop_nothing (suc n) = refl

-- `RawSeqTracker` implements its specification: after any marks and finishes, starting from nothing
-- and marking no number that is among the last `late_window` finished ones, the tracker has just
-- the numbers that are in flight and those last finished ones.
pub is_raw-run_tracker :
    (w : ℕ) (es : List Event) (seq : ℕ)
    → AllFresh w no_calls es
    → is_raw seq (run_tracker (empty_tracker w) es) ≡ (
        has_member seq (run_abstract no_calls es).inflight
        || has_member seq (last_items w (run_abstract no_calls es).finished))
unfolding is_raw
is_raw-run_tracker w es seq fresh =
    let r = run-Tracks w es no_calls (empty_tracker w) (start w) fresh in
    λ i. has_member seq (r.flying i) || has_member seq (r.late i)
  where
    start : (w : ℕ) → Tracks w no_calls (empty_tracker w)
    start w = record {
      window = refl;
      flying = refl;
      order = refl;
      late = drop_nothing (0 - w);
      distinct = tt;
      apart = λ x. unfold has_member in refl;
    }
