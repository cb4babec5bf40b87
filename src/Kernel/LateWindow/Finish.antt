-- ===== src/Kernel/LateWindow/Finish.antt =====
-- `finish` of `RawSeqTracker` in src/elke27_lib/kernel_loop.py keeps what the tracker stands for.
use elke.Base.{
  ℕ, suc, ◌-◌, ◌≤◌, ◌≡◌, ◌⊎◌, refl, sym, ap, subst, ◌∙◌, Bool, true, false, ◌&&◌, ◌||◌, List, [],
  ◌∷◌, ◌++◌, ◌==◌, ==_iff, ==_refl, if◌then◌else◌, length, drop, length-append, length-drop,
  Bool-cases, inl, inr, arith,
}
use elke.Kernel.RawSeqs.{has_member, discard, RawSeqTracker, evict, remember, finish}
use elke.Kernel.LateWindow.{
  Calls, Distinct, Distinct-append, Distinct-drop, abstract_event, discard_missing, finishes,
  has_member-append, has_member-discard, has_member-drop, last_items-append_full,
  last_items-append_short,
}
use elke.Kernel.LateWindow.Tracks.{Tracks, and_false, length-last_items}

-- One round of the loop takes the head of the deque out of both.
evict_head :
    (items : List ℕ) (t : RawSeqTracker)
    → t.recent ≡ items
    → Distinct items
    → ((x : ℕ) → (has_member x items && has_member x t.inflight) ≡ false)
    → ((evict 1 items t).recent ≡ drop 1 items)
      × ((evict 1 items t).recent_order ≡ drop 1 items)
      × ((evict 1 items t).inflight ≡ t.inflight)
      × ((evict 1 items t).late_window ≡ t.late_window)
unfolding has_member discard
evict_head [] t e d apart = (e, refl, refl, refl)
evict_head (y ∷ items) t e (first, d) apart =
    let here : (y == y) ≡ true = ==_refl y in
    let gone : has_member y t.inflight ≡ false =
      landed (has_member y t.inflight) (rw here at (apart y)) in
    (rw gone (ap (discard y) e ∙ rw here (discard_missing y items first)), refl, refl, refl)
  where
    landed : (b : Bool) → (true && b) ≡ false → b ≡ false
    landed true h = cc
    landed false h = refl

pub finish-Tracks :
    (w : ℕ) (c : Calls) (t : RawSeqTracker) (seq : ℕ)
    → Tracks w c t
    → Tracks w (abstract_event c (finishes seq)) (finish seq t)
unfolding finish abstract_event
finish-Tracks w c t seq r = elim (Bool-cases (has_member seq t.inflight)) [
  | inr idle ↦ rw (idle, sym (ap (has_member seq) r.flying) ∙ idle) r
  | inl flying ↦
      let late : has_member seq t.recent ≡ false =
        landed (has_member seq t.recent) (rw flying at (r.apart seq)) in
      rw (flying, sym (ap (has_member seq) r.flying) ∙ flying, late)
        (remembered late (fits (length t.recent) short_enough))
]
  where
    landed : (b : Bool) → (b && true) ≡ false → b ≡ false
    landed true h = cc
    landed false h = refl

    done : RawSeqTracker
    done = record t { inflight = discard seq t.inflight }

    items : List ℕ
    items = t.recent ++ (seq ∷ [])

    short_enough : length t.recent ≤ w
    short_enough = omega (arith, ap length r.late, length-last_items w c.finished)

    fits : (n : ℕ) → n ≤ w → (suc n ≤ w) ⊎ (n ≡ w)
    fits n h = elim (Bool-cases (n == w)) [
      | inl e ↦ inr ((==_iff n w).0 e)
      | inr e ↦ inl (ground (arith, ==_iff n w))
    ]

    landed_discard : (x : ℕ) → (has_member x items && has_member x (discard seq t.inflight)) ≡ false
    landed_discard x =
        rw (has_member-append x seq t.recent, has_member-discard x seq t.inflight)
          (by (seq == x) (has_member x t.recent) (has_member x t.inflight) (r.apart x))
      where
        by :
            (same late up : Bool)
            → (late && up) ≡ false
            → ((late || same) && (if same then false else up)) ≡ false
        by true true up h = refl
        by true false up h = refl
        by false true up h = h
        by false false up h = refl

    start : List ℕ → RawSeqTracker
    start order = record done { recent = items; recent_order = order }

    after : Calls
    after = record { inflight = discard seq c.inflight; finished = c.finished ++ (seq ∷ []) }

    of_excess :
        (n : ℕ)
        → length items - t.late_window ≡ n
        → Tracks w after (evict n items (start items))
        → Tracks w after (remember seq done)
    of_excess n e r' =
        subst (λ order. Tracks w after (evict (length order - t.late_window) order (start order)))
          (sym (ap (λ xs. xs ++ (seq ∷ [])) r.order))
          (subst (λ m. Tracks w after (evict m items (start items))) (sym e) r')

    sizes :
        (length items ≡ suc (length t.recent))
        × (length t.recent ≡ length c.finished - (length c.finished - w))
    sizes = (
      omega (arith, length-append t.recent (seq ∷ [])),
      ap length r.late ∙ length-drop (length c.finished - w) c.finished,
    )

    away : (b : Bool) → (true && b) ≡ false → b ≡ false
    away true h = cc
    away false h = refl

    shorter :
        (x : ℕ)
        → (has_member x items ≡ true) ⊎ (has_member x items ≡ false)
        → (has_member x (drop 1 items) && has_member x (discard seq t.inflight)) ≡ false
    shorter x (inl there) =
        let gone : has_member x (discard seq t.inflight) ≡ false =
          away (has_member x (discard seq t.inflight)) (rw there at (landed_discard x)) in
        rw gone (and_false (has_member x (drop 1 items)))
    shorter x (inr missing) = rw (has_member-drop x 1 items missing) refl

    remembered :
        has_member seq t.recent ≡ false
        → (suc (length t.recent) ≤ w) ⊎ (length t.recent ≡ w)
        → Tracks w after (remember seq done)
    remembered late (inl short) = of_excess 0 (omega (arith, sizes.0, r.window)) (record {
      window = r.window;
      flying = ap (discard seq) r.flying;
      order = refl;
      late =
          ap (λ xs. xs ++ (seq ∷ [])) r.late
          ∙ sym (last_items-append_short w seq c.finished (omega (arith, sizes.1)));
      distinct = Distinct-append seq t.recent r.distinct late;
      apart = landed_discard;
    })
    remembered late (inr full) =
        let distinct' = Distinct-append seq t.recent r.distinct late in
        let (a, b, flown, kept) = evict_head items (start items) refl distinct' landed_discard in
        of_excess 1 (omega (arith, sizes.0, r.window)) (record {
          window = kept ∙ r.window;
          flying = flown ∙ ap (discard seq) r.flying;
          order = b ∙ sym a;
          late =
              a
              ∙ ap (λ xs. drop 1 (xs ++ (seq ∷ []))) r.late
              ∙ sym (last_items-append_full w seq c.finished (omega (arith, sizes.1)));
          distinct = subst Distinct (sym a) (Distinct-drop 1 items distinct');
          apart = λ x.
              (λ i. has_member x (a i) && has_member x (flown i))
              ∙ shorter x (Bool-cases (has_member x items));
        })
