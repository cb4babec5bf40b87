-- ===== src/Kernel/Seqs.antt =====
-- The sequence numbers that `_next_seq` of src/elke27_lib/kernel_loop.py hands out.
use elke.Base.{
  ℕ, zero, suc, ◌+◌, ◌-◌, ◌%◌, ◌≤◌, ◌<◌, ◌≡◌, ◌≢◌, sym, ap, ◌∙◌, ltb, leb, if◌then◌else◌, arith,
}
use elke.Kernel.{Kernel, max_seq, usable_seq, next_seq}

-- The kernel after some calls of `_next_seq`.
unfoldable pub after_calls : ℕ → Kernel → Kernel
after_calls zero k = k
after_calls (suc n) k = (next_seq (after_calls n k)).0

-- The number at a place, counted from a number in use: up to the largest, and then round and
-- round from 10.
abbrev place : ℕ → ℕ → ℕ
place s n = if leb (s + n) 2147483647 then s + n else 10 + (s + n - 10) % 2147483638

place_bounds : (s n : ℕ) → 1 ≤ s → s ≤ 2147483647 → (1 ≤ place s n) × (place s n ≤ 2147483647)
place_bounds s n low h = ground arith

place-suc :
    (s n : ℕ)
    → 1 ≤ s
    → s ≤ 2147483647
    → (if ltb 2147483647 (place s n + 1) then 10 else place s n + 1) ≡ place s (suc n)
place-suc s n low h = ground arith

usable_seq-place : (s n : ℕ) → 1 ≤ s → s ≤ 2147483647 → usable_seq (place s n) ≡ place s n
usable_seq-place s n low h = ground arith

after_calls-place :
    (n : ℕ) (k : Kernel) → 1 ≤ k.seq → k.seq ≤ max_seq → (after_calls n k).seq ≡ place k.seq n
unfolding after_calls next_seq
after_calls-place zero k low h = ground arith
after_calls-place (suc n) k low h =
    let s = (after_calls n k).seq in
    ap (λ (v : ℕ). if ltb max_seq (usable_seq v + 1) then 10 else usable_seq v + 1)
      (after_calls-place n k low h)
    ∙ ap (λ (v : ℕ). if ltb max_seq (v + 1) then 10 else v + 1) (usable_seq-place k.seq n low h)
    ∙ place-suc k.seq n low h

place_ne : (s i j : ℕ) → 1 ≤ s → s ≤ 2147483647 → i < j → j < i + 2147483638 → place s i ≢ place s j
place_ne s i j low h less near = λ e. absurd (ground arith)

-- From any number in use, each call hands out a number from 1 to 2147483647, and no number twice
-- within 2147483638 calls.
pub next_seq_distinct :
    (k : Kernel) (i j : ℕ)
    → 1 ≤ k.seq
    → k.seq ≤ max_seq
    → i < j
    → j < i + 2147483638
    → let s = (next_seq (after_calls i k)).1 in
      let t = (next_seq (after_calls j k)).1 in (1 ≤ s) × (s ≤ max_seq) × (s ≢ t)
unfolding next_seq
next_seq_distinct k i j low h less near =
    let at_i : usable_seq (after_calls i k).seq ≡ place k.seq i =
      ap usable_seq (after_calls-place i k low h) ∙ usable_seq-place k.seq i low h in
    let at_j : usable_seq (after_calls j k).seq ≡ place k.seq j =
      ap usable_seq (after_calls-place j k low h) ∙ usable_seq-place k.seq j low h in
    let (a, b) = place_bounds k.seq i low h in
    (rw at_i a, rw at_i b, λ e. place_ne k.seq i j low h less near (sym at_i ∙ e ∙ at_j))
