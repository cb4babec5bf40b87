-- ===== src/Pending/FailAll.antt =====
-- `resolve` and `fail_all` of src/elke27_lib/pending_loop.py, and the event loop behind them.
use elke.Base.{
  ℕ, ◌≡◌, ◌≢◌, ◌⊎◌, refl, sym, ap, subst, ◌∙◌, Bool, true, false, none, some, List, [], ◌∷◌, ◌++◌,
  String, ◌==◌, ==_refl, ==_iff, ne→==_false, if◌then◌else◌, Bool-cases, inl, inr,
}
use elke.Base.Dict.{Dict, nat_key, lookup, erase, lookup-erase, same_refl, same_ne}
use elke.Dispatch.Json.{Members}
use elke.Pending.{
  Future, waiting, result, failed, cancelled, is_done, Callback, PendingResponse,
  PendingResponseManager, settle, run_callback, call_in_loop, pop, settle_entry, resolve,
  fail_entries, fail_all, run_all,
}
use elke.Pending.Settle.{run_callback_done}

-- Some callback is for the future.
abbrev pub Targets : ℕ → List Callback → Type 0
Targets f [] = ⊥
Targets f (cb ∷ cbs) = (f ≡ cb.future) ⊎ Targets f cbs

run_all_done :
    (cbs : List Callback) (futures : ℕ → Future) (f : ℕ)
    → is_done (futures f) ≡ true
    → run_all cbs futures f ≡ futures f
run_all_done [] futures f h = refl
run_all_done (cb ∷ cbs) futures f h =
    let same = run_callback_done cb futures f h in
    run_all_done cbs (run_callback cb futures) f (ap is_done same ∙ h) ∙ same

run_all_other :
    (cbs : List Callback) (futures : ℕ → Future) (f : ℕ)
    → (Targets f cbs → ⊥)
    → run_all cbs futures f ≡ futures f
unfolding run_callback
run_all_other [] futures f h = refl
run_all_other (cb ∷ cbs) futures f h =
    run_all_other cbs (run_callback cb futures) f (λ t. h (inr t))
    ∙ rw (ne→==_false f cb.future (λ e. h (inl e))) refl

pub run_all-append :
    (xs ys : List Callback) (futures : ℕ → Future)
    → run_all (xs ++ ys) futures ≡ run_all ys (run_all xs futures)
run_all-append [] ys futures = refl
run_all-append (x ∷ xs) ys futures = run_all-append xs ys (run_callback x futures)

-- Every outcome that the manager sets is a done one.
abbrev pub Settles : List Callback → Type 0
Settles [] = Unit
Settles (cb ∷ cbs) = (is_done cb.outcome ≡ true) × Settles cbs

-- The future is done, or a callback that settles it is on its way.
abbrev pub WillSettle : ℕ → PendingResponseManager → Type 0
WillSettle f m = is_done (run_all m.scheduled m.futures f) ≡ true

run_callback-done :
    (cb : Callback) (futures : ℕ → Future)
    → is_done cb.outcome ≡ true
    → is_done (run_callback cb futures cb.future) ≡ true
unfolding run_callback
run_callback-done cb futures h = rw (==_refl cb.future) (by_state (futures cb.future))
  where
    by_state : (x : Future) → is_done (settle x cb.outcome) ≡ true
    by_state waiting = h
    by_state (result _) = refl
    by_state (failed _) = refl
    by_state cancelled = refl

pub call_in_loop-WillSettle :
    (loop_open : Bool) (cb : Callback) (m : PendingResponseManager)
    → is_done cb.outcome ≡ true
    → WillSettle cb.future (call_in_loop loop_open cb m)
unfolding call_in_loop
call_in_loop-WillSettle true cb m h =
    ap (λ fs. is_done (fs cb.future)) (run_all-append m.scheduled (cb ∷ []) m.futures)
    ∙ run_callback-done cb (run_all m.scheduled m.futures) h
call_in_loop-WillSettle false cb m h =
    let now = run_callback-done cb m.futures h in
    ap is_done (run_all_done m.scheduled (run_callback cb m.futures) cb.future now) ∙ now

pub call_in_loop-keeps :
    (loop_open : Bool) (cb : Callback) (m : PendingResponseManager) (f : ℕ)
    → is_done cb.outcome ≡ true
    → WillSettle f m
    → WillSettle f (call_in_loop loop_open cb m)
unfolding call_in_loop
call_in_loop-keeps true cb m f done h =
    ap (λ fs. is_done (fs f)) (run_all-append m.scheduled (cb ∷ []) m.futures)
    ∙ ap is_done (run_callback_done cb (run_all m.scheduled m.futures) f h)
    ∙ h
call_in_loop-keeps false cb m f done h = elim (Bool-cases (f == cb.future)) [
  | inl e ↦
      subst (WillSettle' (call_in_loop false cb m)) (sym ((==_iff f cb.future).0 e))
        (call_in_loop-WillSettle false cb m done)
  | inr e ↦ ap is_done (other m.scheduled (run_callback cb m.futures) m.futures (untouched e)) ∙ h
]
  where
    WillSettle' : PendingResponseManager → ℕ → Type 0
    WillSettle' m' g = WillSettle g m'

    untouched : (f == cb.future) ≡ false → run_callback cb m.futures f ≡ m.futures f
    untouched e = unfold run_callback in rw e refl

    other :
        (cbs : List Callback) (fs gs : ℕ → Future)
        → fs f ≡ gs f
        → run_all cbs fs f ≡ run_all cbs gs f
    other [] fs gs e = e
    other (c ∷ cs) fs gs e =
        other cs (run_callback c fs) (run_callback c gs)
          (unfold run_callback in ap (λ x. if f == c.future then settle x c.outcome else x) e)

-- Some entry holds the future.
abbrev pub Holds : ℕ → Dict ℕ PendingResponse → Type 0
Holds f [] = ⊥
Holds f ((_, entry) ∷ entries) = (f ≡ entry.future) ⊎ Holds f entries

pub fail_entries-keeps :
    (loop_open : Bool) (exc : String) (entries : Dict ℕ PendingResponse)
    (m : PendingResponseManager) (f : ℕ)
    → WillSettle f m
    → WillSettle f (fail_entries loop_open exc entries m)
fail_entries-keeps loop_open exc [] m f h = h
fail_entries-keeps loop_open exc ((k, entry) ∷ entries) m f h =
    fail_entries-keeps loop_open exc entries
      (call_in_loop loop_open (record { future = entry.future; outcome = failed exc }) m) f
      (call_in_loop-keeps loop_open (record { future = entry.future; outcome = failed exc }) m f
        refl h)

fail_entries-WillSettle :
    (loop_open : Bool) (exc : String) (entries : Dict ℕ PendingResponse)
    (m : PendingResponseManager) (f : ℕ)
    → Holds f entries
    → WillSettle f (fail_entries loop_open exc entries m)
fail_entries-WillSettle loop_open exc [] m f h = elim h [ ]
fail_entries-WillSettle loop_open exc ((k, entry) ∷ entries) m f h =
    let cb : Callback = record { future = entry.future; outcome = failed exc } in
    elim h [
      | inl e ↦
          subst
            (λ g. WillSettle g (fail_entries loop_open exc entries (call_in_loop loop_open cb m)))
            (sym e)
            (fail_entries-keeps loop_open exc entries (call_in_loop loop_open cb m) cb.future
              (call_in_loop-WillSettle loop_open cb m refl))
      | inr later ↦
          fail_entries-WillSettle loop_open exc entries (call_in_loop loop_open cb m) f later
    ]

pub fail_all_settles :
    (loop_open : Bool) (exc : String) (m : PendingResponseManager) (f : ℕ)
    → Holds f m.pending
    → let m' = (fail_all true loop_open exc m).0 in
      (m'.pending ≡ []) × (is_done (run_all m'.scheduled m'.futures f) ≡ true)
unfolding fail_all
fail_all_settles loop_open exc m f h = (
  emptied m.pending (record m { pending = [] }) refl,
  fail_entries-WillSettle loop_open exc m.pending (record m { pending = [] }) f h,
)
  where
    called :
        (cb : Callback) (n : PendingResponseManager)
        → (call_in_loop loop_open cb n).pending ≡ n.pending
    called cb n = by_loop loop_open
      where
        by_loop : (b : Bool) → (call_in_loop b cb n).pending ≡ n.pending
        by_loop true = unfold call_in_loop in refl
        by_loop false = unfold call_in_loop in refl

    emptied :
        (entries : Dict ℕ PendingResponse) (n : PendingResponseManager)
        → n.pending ≡ []
        → (fail_entries loop_open exc entries n).pending ≡ []
    emptied [] n e = e
    emptied ((k, entry) ∷ entries) n e =
        emptied entries _ (called (record { future = entry.future; outcome = failed exc }) n ∙ e)

resolved :
    (loop_open : Bool) (msg : Members) (m : PendingResponseManager) (f : ℕ)
    → m.futures f ≡ waiting
    → (Targets f m.scheduled → ⊥)
    → let m' = call_in_loop loop_open (record { future = f; outcome = result msg }) m in
      run_all m'.scheduled m'.futures f ≡ result msg
unfolding call_in_loop run_callback
resolved true msg m f w free =
    let cb : Callback = record { future = f; outcome = result msg } in
    ap (λ fs. fs f) (run_all-append m.scheduled (cb ∷ []) m.futures)
    ∙ rw (==_refl f)
        (ap (λ x. settle x (result msg)) (run_all_other m.scheduled m.futures f free ∙ w))
resolved false msg m f w free =
    let cb : Callback = record { future = f; outcome = result msg } in
    run_all_other m.scheduled (run_callback cb m.futures) f free
    ∙ rw (==_refl f) (ap (λ x. settle x (result msg)) w)

pub resolve_delivers :
    (loop_open : Bool) (seq : ℕ) (msg : Members) (m : PendingResponseManager)
    (entry : PendingResponse)
    → lookup seq m.pending ≡ some entry
    → m.futures entry.future ≡ waiting
    → (Targets entry.future m.scheduled → ⊥)
    → let (m', found) = resolve true loop_open seq msg m in
      (found ≡ true)
      × (lookup seq m'.pending ≡ none)
      × ((j : ℕ) → j ≢ seq → lookup j m'.pending ≡ lookup j m.pending)
      × (run_all m'.scheduled m'.futures entry.future ≡ result msg)
unfolding resolve pop
resolve_delivers loop_open seq msg m entry found w free =
    let popped = record m { pending = erase seq m.pending } in
    let cb : Callback = record { future = entry.future; outcome = result msg } in
    let here : settle_entry loop_open (result msg) (popped, lookup seq m.pending)
        ≡ (call_in_loop loop_open cb popped, true) =
      ap (λ o. settle_entry loop_open (result msg) (popped, o)) found in
    let table : (call_in_loop loop_open cb popped).pending ≡ erase seq m.pending =
      by_loop loop_open cb popped in
    (
      ap (λ r. r.1) here,
      ap (λ r. lookup seq r.0.pending) here
          ∙ ap (lookup seq) table
          ∙ lookup-erase seq seq m.pending
          ∙ rw (same_refl seq) refl,
      λ j other.
          ap (λ r. lookup j r.0.pending) here
          ∙ ap (lookup j) table
          ∙ lookup-erase j seq m.pending
          ∙ rw (same_ne j seq other) refl,
      ap (λ r. run_all r.0.scheduled r.0.futures entry.future) here
          ∙ resolved loop_open msg popped entry.future w free,
    )
  where
    by_loop :
        (b : Bool) (cb : Callback) (n : PendingResponseManager)
        → (call_in_loop b cb n).pending ≡ n.pending
    by_loop true cb n = unfold call_in_loop in refl
    by_loop false cb n = unfold call_in_loop in refl
