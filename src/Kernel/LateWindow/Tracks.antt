-- ===== src/Kernel/LateWindow/Tracks.antt =====
-- `RawSeqTracker` of src/elke27_lib/kernel_loop.py stands for the calls made of it.
use elke.Base.{
  ℕ, ◌-◌, ◌≤◌, ◌≡◌, ◌⊎◌, refl, sym, ap, ◌∙◌, Bool, true, false, ◌&&◌, ◌||◌, List, ◌==◌, ==_iff,
  length, length-drop, Bool-cases, inl, inr, arith,
}
use elke.Kernel.RawSeqs.{has_member, add, RawSeqTracker, mark}
use elke.Kernel.LateWindow.{
  Calls, Distinct, Event, abstract_event, finishes, has_member-append, last_items, marks,
}

-- The tracker stands for the calls: it remembers just the last of the numbers finished, each once,
-- and none of them is in flight.
pub record Tracks (w : ℕ) (c : Calls) (t : RawSeqTracker) : Type 0 where
  pub window : t.late_window ≡ w
  pub flying : t.inflight ≡ c.inflight
  pub order : t.recent_order ≡ t.recent
  pub late : t.recent ≡ last_items w c.finished
  pub distinct : Distinct t.recent
  pub apart : (x : ℕ) → (has_member x t.recent && has_member x t.inflight) ≡ false

-- A number is marked only when it is not remembered as finished.
abbrev pub IsFresh : ℕ → Calls → Event → Type 0
IsFresh w c (marks seq) = has_member seq (last_items w c.finished) ≡ false
IsFresh w c (finishes seq) = Unit

pub length-last_items : (w : ℕ) (xs : List ℕ) → length (last_items w xs) ≤ w
length-last_items w xs = omega (arith, length-drop (length xs - w) xs)

has_member-add : (x y : ℕ) (xs : List ℕ) → has_member x (add y xs) ≡ (has_member x xs || (y == x))
unfolding add
has_member-add x y xs = elim (Bool-cases (has_member y xs)) [
  | inl there ↦ rw there (kept (Bool-cases (y == x)) there)
  | inr missing ↦ rw missing (has_member-append x y xs)
]
  where
    or_true : (b : Bool) → true ≡ b → b ≡ (b || true)
    or_true true e = refl
    or_true false e = cc

    or_false : (b : Bool) → b ≡ (b || false)
    or_false true = refl
    or_false false = refl

    kept :
        ((y == x) ≡ true) ⊎ ((y == x) ≡ false)
        → has_member y xs ≡ true
        → has_member x xs ≡ (has_member x xs || (y == x))
    kept (inl same) there = rw same (
        or_true (has_member x xs)
          (sym (ap (λ z. has_member z xs) (sym ((==_iff y x).0 same)) ∙ there)))
    kept (inr other) there = rw other (or_false (has_member x xs))

pub and_false : (b : Bool) → (b && false) ≡ false
and_false true = refl
and_false false = refl

pub mark-Tracks :
    (w : ℕ) (c : Calls) (t : RawSeqTracker) (seq : ℕ)
    → Tracks w c t
    → has_member seq (last_items w c.finished) ≡ false
    → Tracks w (abstract_event c (marks seq)) (mark seq t)
unfolding mark abstract_event
mark-Tracks w c t seq r fresh = record {
  window = r.window;
  flying = ap (add seq) r.flying;
  order = r.order;
  late = r.late;
  distinct = r.distinct;
  apart = λ x.
      ap (λ b. has_member x t.recent && b) (has_member-add x seq t.inflight)
      ∙ still x (Bool-cases (seq == x));
}
  where
    new : has_member seq t.recent ≡ false
    new = ap (has_member seq) r.late ∙ fresh

    or_false : (b : Bool) → (b || false) ≡ b
    or_false true = refl
    or_false false = refl

    still :
        (x : ℕ)
        → ((seq == x) ≡ true) ⊎ ((seq == x) ≡ false)
        → (has_member x t.recent && (has_member x t.inflight || (seq == x))) ≡ false
    still x (inl same) =
        let gone : has_member x t.recent ≡ false =
          ap (λ z. has_member z t.recent) (sym ((==_iff seq x).0 same)) ∙ new in
        rw gone refl
    still x (inr other) =
        rw other
          (ap (λ b. has_member x t.recent && b) (or_false (has_member x t.inflight)) ∙ r.apart x)
