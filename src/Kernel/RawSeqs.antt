-- ===== src/Kernel/RawSeqs.antt =====
-- src/elke27_lib/kernel_loop.py: `RawSeqTracker`. A set is the list of its members, each once.
use elke.Base.{
  ℕ, suc, ◌-◌, Bool, true, false, not, ◌||◌, List, [], ◌∷◌, ◌++◌, ◌==◌, if◌then◌else◌, length,
}

-- `seq in s`, `s.add(seq)` and `s.discard(seq)` for a set
unfoldable pub has_member : ℕ → List ℕ → Bool
has_member seq [] = false
has_member seq (x ∷ xs) = if x == seq then true else has_member seq xs

unfoldable pub add : ℕ → List ℕ → List ℕ
unfolding has_member
add seq xs = if has_member seq xs then xs else xs ++ (seq ∷ [])

unfoldable pub discard : ℕ → List ℕ → List ℕ
discard seq [] = []
discard seq (x ∷ xs) = let rest = discard seq xs in if x == seq then rest else x ∷ rest

pub record RawSeqTracker : Type 0 where
  pub inflight : List ℕ
  pub recent : List ℕ
  pub recent_order : List ℕ
  pub late_window : ℕ

-- `RawSeqTracker()`
abbrev pub new_tracker : RawSeqTracker
new_tracker = record { inflight = []; recent = []; recent_order = []; late_window = 256 }

unfoldable pub mark : ℕ → RawSeqTracker → RawSeqTracker
unfolding add
mark seq t = record t { inflight = add seq t.inflight }

-- The `while` loop of `finish`, a round for each excess entry of the deque.
abbrev pub evict : ℕ → List ℕ → RawSeqTracker → RawSeqTracker
evict (suc n) (old ∷ order) t = evict n order (record t {
  recent = if has_member old t.inflight then t.recent else discard old t.recent;
  recent_order = order;
})
evict _ order t = record t { recent_order = order }

abbrev pub remember : ℕ → RawSeqTracker → RawSeqTracker
remember seq t =
    let order = t.recent_order ++ (seq ∷ []) in
    evict (length order - t.late_window) order
      (record t { recent = t.recent ++ (seq ∷ []); recent_order = order })

unfoldable pub finish : ℕ → RawSeqTracker → RawSeqTracker
unfolding has_member discard
finish seq t =
    let done : RawSeqTracker = record t { inflight = discard seq t.inflight } in
    if not (has_member seq t.inflight)
    then t
    else if has_member seq t.recent
    then done
    else remember seq done

-- `seq in tracker`
unfoldable pub is_raw : ℕ → RawSeqTracker → Bool
unfolding has_member
is_raw seq t = has_member seq t.inflight || has_member seq t.recent
