-- ===== src/Outbound/Cancel.antt =====
-- What `cancel_pending_seq` of src/elke27_lib/outbound_loop.py promises.
use elke.Base.{
  ℕ, ◌≡◌, refl, sym, subst, ◌∙◌, Bool, true, false, List, [], ◌∷◌, if◌then◌else◌, ◌⊎◌, Bool-cases,
  inl, inr,
}
use elke.Outbound.{
  OutboundItem, Worker, ended, idle, polling, throttling, sending, OutboundQueue, has_seq,
  remove_seq, cancel_queued, cancel_at, cancel_pending_seq, Step, run_steps,
}
use elke.Outbound.Unsent.{NoneOf, Spares, IsUnsent, NotHanded, AllForeign, run_steps-Safe}

-- What is kept of a list has not the number.
remove_seq-NoneOf : (n : ℕ) (items : List OutboundItem) → NoneOf n (remove_seq n items).0
remove_seq-NoneOf n [] = tt
remove_seq-NoneOf n (item ∷ items) = elim (Bool-cases (has_seq n item)) [
  | inl e ↦ rw e (remove_seq-NoneOf n items)
  | inr e ↦ rw e (e, remove_seq-NoneOf n items)
]

-- The worker holds an item with the number.
abbrev pub holds : ℕ → Worker → Bool
holds n (throttling item _) = has_seq n item
holds n (sending item) = has_seq n item
holds n _ = false

-- Not both the worker and a queue have an item with the number.
abbrev pub IsLone : ℕ → OutboundQueue → Type 0
IsLone n q = (holds n q.worker ≡ false) ⊎ (NoneOf n q.high_q × NoneOf n q.normal_q)

abbrev IsFalse : Bool → Type 0
IsFalse false = Unit
IsFalse true = ⊥

IsFalse-true : false ≡ true → ⊥
IsFalse-true e = subst IsFalse e tt

module _ (n : ℕ) where
  cancel_queued-removed :
      (w : Worker) (q : OutboundQueue)
      → Spares n w
      → q.worker ≡ w
      → IsUnsent n (cancel_queued n q).0
  cancel_queued-removed w q s e = record {
    highs = remove_seq-NoneOf n q.high_q;
    normals = remove_seq-NoneOf n q.normal_q;
    spares = subst (Spares n) (sym e) s;
  }

  cancel_sending-removed :
      (b : Bool) (item : OutboundItem) (q : OutboundQueue)
      → q.worker ≡ sending item
      → (if b then (q, false) else cancel_queued n q).1 ≡ true
      → IsUnsent n (if b then (q, false) else cancel_queued n q).0
  cancel_sending-removed true item q e h = absurd (IsFalse-true h)
  cancel_sending-removed false item q e h = cancel_queued-removed (sending item) q tt e

  cancel_throttling-removed :
      (b c : Bool) (item : OutboundItem) (q : OutboundQueue)
      → has_seq n item ≡ b
      → q.worker ≡ throttling item c
      → (has_seq n item ≡ false) ⊎ (NoneOf n q.high_q × NoneOf n q.normal_q)
      → IsUnsent n
          (if b then (record q { worker = throttling item true }, true) else cancel_queued n q).0
  cancel_throttling-removed true c item q e _ (inl f) = absurd (IsFalse-true (sym f ∙ e))
  cancel_throttling-removed true c item q e _ (inr (highs, normals)) = record {
    highs = highs;
    normals = normals;
    spares = tt;
  }
  cancel_throttling-removed false true item q e w _ =
      cancel_queued-removed (throttling item true) q tt w
  cancel_throttling-removed false false item q e w _ =
      cancel_queued-removed (throttling item false) q e w

  cancel_at-removed :
      (w : Worker) (q : OutboundQueue)
      → q.worker ≡ w
      → (holds n w ≡ false) ⊎ (NoneOf n q.high_q × NoneOf n q.normal_q)
      → (cancel_at w n q).1 ≡ true
      → IsUnsent n (cancel_at w n q).0
  cancel_at-removed (throttling item c) q e l h =
      cancel_throttling-removed (has_seq n item) c item q refl e l
  cancel_at-removed (sending item) q e l h = cancel_sending-removed (has_seq n item) item q e h
  cancel_at-removed ended q e l h = cancel_queued-removed ended q tt e
  cancel_at-removed idle q e l h = cancel_queued-removed idle q tt e
  cancel_at-removed polling q e l h = cancel_queued-removed polling q tt e

-- When `cancel_pending_seq` returns true for a number, and not both the worker and a queue had an
-- item with it, then whatever happens next, `send_fn` is given no item with that number, unless
-- one is enqueued anew.
pub cancel_pending_seq-NotHanded :
    (n : ℕ) (q : OutboundQueue) (ss : List Step)
    → IsLone n q
    → (cancel_pending_seq n q).1 ≡ true
    → AllForeign n ss
    → NotHanded n (run_steps (cancel_pending_seq n q).0 ss).1
unfolding cancel_pending_seq
cancel_pending_seq-NotHanded n q ss lone cancelled f =
    (run_steps-Safe n (cancel_at q.worker n q).0 ss f
      (cancel_at-removed n q.worker q refl lone cancelled)).1
