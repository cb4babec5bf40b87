-- ===== src/Kernel/LateWindow.antt =====
-- `RawSeqTracker` of src/elke27_lib/kernel_loop.py against what it stands for: the numbers in flight,
-- and the numbers finished, in order, of which the last ones are remembered.
pub mod Tracks
pub mod Finish
pub mod Runs
use elke.Base.{
  ℕ, zero, suc, ◌-◌, ◌≤◌, ◌≡◌, ◌⊎◌, refl, sym, ap, subst, ◌∙◌, Bool, true, false, ◌&&◌, ◌||◌, List,
  [], ◌∷◌, ◌++◌, ◌==◌, ==_iff, ==_refl, if◌then◌else◌, length, drop, length-append, length-drop,
  Bool-cases, inl, inr, arith,
}
use elke.Kernel.RawSeqs.{
  has_member, add, discard, RawSeqTracker, mark, evict, remember, finish, is_raw,
}

pub record Calls : Type 0 where
  pub inflight : List ℕ
  pub finished : List ℕ

pub data Event : Type 0 where
  marks finishes : ℕ → Event

unfoldable pub abstract_event : Calls → Event → Calls
unfolding add has_member discard
abstract_event c (marks seq) = record c { inflight = add seq c.inflight }
abstract_event c (finishes seq) =
    if has_member seq c.inflight
    then record { inflight = discard seq c.inflight; finished = c.finished ++ (seq ∷ []) }
    else c

unfoldable pub tracker_event : RawSeqTracker → Event → RawSeqTracker
unfolding mark finish
tracker_event t (marks seq) = mark seq t
tracker_event t (finishes seq) = finish seq t

-- The last items of a list.
abbrev pub last_items : ℕ → List ℕ → List ℕ
last_items n xs = drop (length xs - n) xs

abbrev pub Distinct : List ℕ → Type 0
Distinct [] = Unit
Distinct (x ∷ xs) = (has_member x xs ≡ false) × Distinct xs

pub has_member-append :
    (x y : ℕ) (xs : List ℕ) → has_member x (xs ++ (y ∷ [])) ≡ (has_member x xs || (y == x))
unfolding has_member
has_member-append x y [] = by (y == x)
  where
    by : (b : Bool) → (if b then true else false) ≡ (false || b)
    by true = refl
    by false = refl
has_member-append x y (z ∷ xs) = elim (Bool-cases (z == x)) [
  | inl e ↦ rw e refl
  | inr e ↦ rw e (has_member-append x y xs)
]

pub discard_missing : (x : ℕ) (xs : List ℕ) → has_member x xs ≡ false → discard x xs ≡ xs
unfolding has_member discard
discard_missing x [] h = refl
discard_missing x (y ∷ xs) h = elim (Bool-cases (y == x)) [
  | inl e ↦ cc (rw e at h)
  | inr e ↦ rw e (ap (◌∷◌ y) (discard_missing x xs (rw e at h)))
]

pub has_member-discard :
    (x y : ℕ) (xs : List ℕ)
    → has_member x (discard y xs) ≡ (if y == x then false else has_member x xs)
unfolding has_member discard
has_member-discard x y [] = by (y == x)
  where
    by : (b : Bool) → false ≡ (if b then false else false)
    by true = refl
    by false = refl
has_member-discard x y (z ∷ xs) = ground (arith, has_member-discard x y xs)

pub Distinct-append :
    (x : ℕ) (xs : List ℕ) → Distinct xs → has_member x xs ≡ false → Distinct (xs ++ (x ∷ []))
unfolding has_member
Distinct-append x [] d h = (refl, tt)
Distinct-append x (y ∷ xs) (first, d) h = elim (Bool-cases (y == x)) [
  | inl e ↦ cc (rw e at h)
  | inr e ↦
      (has_member-append y x xs ∙ rw (first, apart e) refl, Distinct-append x xs d (rw e at h))
]
  where
    apart : (y == x) ≡ false → (x == y) ≡ false
    apart e = ground arith

-- What is dropped from a distinct list is not in the rest.
pub Distinct-drop : (n : ℕ) (xs : List ℕ) → Distinct xs → Distinct (drop n xs)
Distinct-drop zero xs d = d
Distinct-drop (suc n) [] d = tt
Distinct-drop (suc n) (x ∷ xs) (_, d) = Distinct-drop n xs d

pub has_member-drop :
    (x n : ℕ) (xs : List ℕ) → has_member x xs ≡ false → has_member x (drop n xs) ≡ false
unfolding has_member
has_member-drop x zero xs h = h
has_member-drop x (suc n) [] h = refl
has_member-drop x (suc n) (y ∷ xs) h = elim (Bool-cases (y == x)) [
  | inl e ↦ cc (rw e at h)
  | inr e ↦ has_member-drop x n xs (rw e at h)
]

drop-append_one :
    (n x : ℕ) (xs : List ℕ) → n ≤ length xs → drop n xs ++ (x ∷ []) ≡ drop n (xs ++ (x ∷ []))
drop-append_one zero x xs h = refl
drop-append_one (suc n) x [] h = absurd (omega arith)
drop-append_one (suc n) x (y ∷ xs) h = drop-append_one n x xs (omega arith)

drop-suc : (n : ℕ) (xs : List ℕ) → drop 1 (drop n xs) ≡ drop (suc n) xs
drop-suc zero xs = refl
drop-suc (suc n) [] = refl
drop-suc (suc n) (x ∷ xs) = drop-suc n xs

-- One more item, with a list that is not full and with a full one.
pub last_items-append_short :
    (w x : ℕ) (xs : List ℕ)
    → suc (length xs) ≤ w
    → last_items w (xs ++ (x ∷ [])) ≡ last_items w xs ++ (x ∷ [])
last_items-append_short w x xs h =
    let longer : length (xs ++ (x ∷ [])) - w ≡ 0 = omega (arith, length-append xs (x ∷ [])) in
    let same : length xs - w ≡ 0 = omega arith in
    ap (λ (k : ℕ). drop k (xs ++ (x ∷ []))) longer
    ∙ sym (ap (λ (k : ℕ). drop k xs ++ (x ∷ [])) same)

pub last_items-append_full :
    (w x : ℕ) (xs : List ℕ)
    → w ≤ length xs
    → last_items w (xs ++ (x ∷ [])) ≡ drop 1 (last_items w xs ++ (x ∷ []))
last_items-append_full w x xs h =
    let k = length xs - w in
    let longer : length (xs ++ (x ∷ [])) - w ≡ suc k = omega (arith, length-append xs (x ∷ [])) in
    ap (λ (n : ℕ). drop n (xs ++ (x ∷ []))) longer
    ∙ sym (drop-suc k (xs ++ (x ∷ [])))
    ∙ ap (drop 1) (sym (drop-append_one k x xs (omega arith)))
