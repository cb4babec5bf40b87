-- ===== src/Dispatch/Blocks.antt =====
-- Lists of paged blocks, and `sorted` over the received ones, of
-- src/elke27_lib/dispatcher_loop.py.
use elke.Base.{
  ℕ, suc, ◌+◌, ◌≤◌, ◌≡◌, ◌≢◌, refl, sym, ap, ◌∙◌, Bool, true, false, some, List, [], ◌∷◌, arith,
  leb, ◌==◌, ==_refl, ne→==_false, length, if◌then◌else◌, Bool-cases, inl, inr,
}
use elke.Base.Dict.{Dict, nat_key, lookup, contains}
use elke.Dispatch.Json.{Members}
use elke.Dispatch.State.{PagedBlock}
use elke.Dispatch.Paged.{insert_block, sorted_blocks}

abbrev Avoids : ℕ → List PagedBlock → Type 0
Avoids k [] = Unit
Avoids k (b ∷ bs) = (k ≢ b.block_id) × Avoids k bs

abbrev pub Ascends : ℕ → List PagedBlock → Type 0
Ascends low [] = Unit
Ascends low (b ∷ bs) = (low ≤ b.block_id) × Ascends (suc b.block_id) bs

abbrev pub Within : ℕ → List PagedBlock → Type 0
Within high [] = Unit
Within high (b ∷ bs) = (b.block_id ≤ high) × Within high bs

-- The ids are `low`, `low + 1` and so on.
abbrev pub Numbered : ℕ → List PagedBlock → Type 0
Numbered low [] = Unit
Numbered low (b ∷ bs) = (b.block_id ≡ low) × Numbered (suc low) bs

-- Each block is one of the dict's items.
abbrev pub From : Dict ℕ Members → List PagedBlock → Type 0
From d [] = Unit
From d (b ∷ bs) = (lookup b.block_id d ≡ some b.payload) × From d bs

abbrev pub Distinct : Dict ℕ Members → Type 0
Distinct [] = Unit
Distinct ((k, _) ∷ d) = (contains k d ≡ false) × Distinct d

abbrev pub InRange : ℕ → Dict ℕ Members → Type 0
InRange high [] = Unit
InRange high ((k, _) ∷ d) = (1 ≤ k) × (k ≤ high) × InRange high d

module _ (b : PagedBlock) where
  insert_block-Avoids :
      (k : ℕ) (bs : List PagedBlock) → k ≢ b.block_id → Avoids k bs → Avoids k (insert_block b bs)
  insert_block-Avoids k [] new h = (new, tt)
  insert_block-Avoids k (c ∷ bs) new (first, rest) =
      elim (leb b.block_id c.block_id)
        as (λ t. Avoids k (if t then b ∷ c ∷ bs else c ∷ insert_block b bs)) [
          | true ↦ (new, (first, rest))
          | false ↦ (first, insert_block-Avoids k bs new rest)
        ]

  insert_block-Ascends :
      (low : ℕ) (bs : List PagedBlock)
      → low ≤ b.block_id
      → Avoids b.block_id bs
      → Ascends low bs
      → Ascends low (insert_block b bs)
  insert_block-Ascends low [] at avoids h = (at, tt)
  insert_block-Ascends low (c ∷ bs) at (new, avoids) (first, rest) =
      elim (Bool-cases (leb b.block_id c.block_id)) [
        | inl e ↦ rw e (at, (leb_lt b.block_id c.block_id e new, rest))
        | inr e ↦ rw e (
          first,
          insert_block-Ascends (suc c.block_id) bs (leb_gt b.block_id c.block_id e) avoids rest,
        )
      ]
    where
      leb_lt : (x y : ℕ) → leb x y ≡ true → x ≢ y → suc x ≤ y
      leb_lt x y e new = ground arith

      leb_gt : (x y : ℕ) → leb x y ≡ false → suc y ≤ x
      leb_gt x y e = ground arith

  insert_block-Within :
      (high : ℕ) (bs : List PagedBlock)
      → b.block_id ≤ high
      → Within high bs
      → Within high (insert_block b bs)
  insert_block-Within high [] at h = (at, tt)
  insert_block-Within high (c ∷ bs) at (first, rest) =
      elim (leb b.block_id c.block_id)
        as (λ t. Within high (if t then b ∷ c ∷ bs else c ∷ insert_block b bs)) [
          | true ↦ (at, (first, rest))
          | false ↦ (first, insert_block-Within high bs at rest)
        ]

  insert_block-From :
      (d : Dict ℕ Members) (bs : List PagedBlock)
      → lookup b.block_id d ≡ some b.payload
      → From d bs
      → From d (insert_block b bs)
  insert_block-From d [] at h = (at, tt)
  insert_block-From d (c ∷ bs) at (first, rest) =
      elim (leb b.block_id c.block_id)
        as (λ t. From d (if t then b ∷ c ∷ bs else c ∷ insert_block b bs)) [
          | true ↦ (at, (first, rest))
          | false ↦ (first, insert_block-From d bs at rest)
        ]

  length-insert_block : (bs : List PagedBlock) → length (insert_block b bs) ≡ suc (length bs)
  length-insert_block [] = refl
  length-insert_block (c ∷ bs) =
      elim (leb b.block_id c.block_id)
        as (λ t. length (if t then b ∷ c ∷ bs else c ∷ insert_block b bs) ≡ suc (suc (length bs))) [
          | true ↦ refl
          | false ↦ ap suc (length-insert_block bs)
        ]

abbrev block : ℕ → Members → PagedBlock
block k m = record { block_id = k; payload = m }

contains_false : (k j : ℕ) (b : Bool) → (if k == j then true else b) ≡ false → (k ≢ j) × (b ≡ false)
contains_false k j b h = ground arith

sorted_blocks-Avoids :
    (k : ℕ) (d : Dict ℕ Members) → contains k d ≡ false → Avoids k (sorted_blocks d)
unfolding contains sorted_blocks
sorted_blocks-Avoids k [] h = tt
sorted_blocks-Avoids k ((j, m) ∷ d) h =
    let (other, rest) = contains_false k j (contains k d) h in
    insert_block-Avoids (block j m) k (sorted_blocks d) other (sorted_blocks-Avoids k d rest)

pub sorted_blocks-Ascends :
    (high : ℕ) (d : Dict ℕ Members)
    → Distinct d
    → InRange high d
    → Ascends 1 (sorted_blocks d) × Within high (sorted_blocks d)
unfolding sorted_blocks
sorted_blocks-Ascends high [] u r = (tt, tt)
sorted_blocks-Ascends high ((k, m) ∷ d) (fresh, u) (low, up, r) =
    let (asc, within) = sorted_blocks-Ascends high d u r in
    (
      insert_block-Ascends (block k m) 1 (sorted_blocks d) low (sorted_blocks-Avoids k d fresh) asc,
      insert_block-Within (block k m) high (sorted_blocks d) up within,
    )

pub length-sorted_blocks : (d : Dict ℕ Members) → length (sorted_blocks d) ≡ length d
unfolding sorted_blocks
length-sorted_blocks [] = refl
length-sorted_blocks ((k, m) ∷ d) =
    length-insert_block (block k m) (sorted_blocks d) ∙ ap suc (length-sorted_blocks d)

From-cons :
    (k : ℕ) (m : Members) (d : Dict ℕ Members) (bs : List PagedBlock)
    → Avoids k bs
    → From d bs
    → From ((k, m) ∷ d) bs
unfolding lookup
From-cons k m d [] avoids h = tt
From-cons k m d (b ∷ bs) (other, avoids) (first, rest) =
    (rw (ne→==_false b.block_id k (λ e. other (sym e))) first, From-cons k m d bs avoids rest)

pub sorted_blocks-From : (d : Dict ℕ Members) → Distinct d → From d (sorted_blocks d)
unfolding sorted_blocks lookup
sorted_blocks-From [] u = tt
sorted_blocks-From ((k, m) ∷ d) (fresh, u) =
    insert_block-From (block k m) ((k, m) ∷ d) (sorted_blocks d) (rw (==_refl k) refl)
      (From-cons k m d (sorted_blocks d) (sorted_blocks-Avoids k d fresh) (sorted_blocks-From d u))

-- Ascending ids up to `high` are at most as many as the numbers there.
Ascends-length :
    (low high : ℕ) (bs : List PagedBlock)
    → low ≤ suc high
    → Ascends low bs
    → Within high bs
    → length bs + low ≤ suc high
Ascends-length low high [] at asc within = omega arith
Ascends-length low high (b ∷ bs) at (first, asc) (up, within) =
    let rest = Ascends-length (suc b.block_id) high bs (omega arith) asc within in omega arith

-- Where they are as many, none is left out.
pub Ascends-Numbered :
    (low high : ℕ) (bs : List PagedBlock)
    → Ascends low bs
    → Within high bs
    → length bs + low ≡ suc high
    → Numbered low bs
Ascends-Numbered low high [] asc within full = tt
Ascends-Numbered low high (b ∷ bs) (first, asc) (up, within) full =
    let rest = Ascends-length (suc b.block_id) high bs (omega arith) asc within in
    let here : b.block_id ≡ low = omega arith in
    (here, Ascends-Numbered (suc low) high bs (rw here at asc) within (omega arith))
