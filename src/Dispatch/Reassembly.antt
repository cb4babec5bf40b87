-- ===== src/Dispatch/Reassembly.antt =====
-- Paged transfers of src/elke27_lib/dispatcher_loop.py: when one is finished, and with what.
use elke.Base.{
  ℕ, suc, ◌≤◌, ◌<◌, ◌≡◌, refl, sym, ap, subst, ◌∙◌, Bool, true, false, not, Option, none, some,
  List, [], ◌∷◌, arith, ltb, ltb→lt, ◌==◌, ==_iff, length, if◌then◌else◌, Bool-cases, inl, inr,
}
use elke.Base.Dict.{Dict, nat_key, insert, contains}
use elke.Dispatch.Json.{Members}
use elke.Dispatch.State.{PagedTransferKey, PagedBlock, PagedRouteSpec, PagedTransfer}
use elke.Dispatch.Paged.{
  Received, mismatch, duplicate, waits, merged, sorted_blocks, store_block, new_transfer,
  receive_block,
}
use elke.Dispatch.Blocks.{
  Ascends, Within, Numbered, From, Distinct, InRange, sorted_blocks-Ascends, length-sorted_blocks,
  sorted_blocks-From, Ascends-Numbered,
}

-- A transfer under way: distinct ids from 1 to the total, not all of them.
pub record IsProper (t : PagedTransfer) : Type 0 where
  pub distinct : Distinct t.received_blocks
  pub in_range : InRange t.total_count t.received_blocks
  pub incomplete : length t.received_blocks < t.total_count

contains-insert :
    (j k : ℕ) (v : Members) (d : Dict ℕ Members)
    → contains j (insert k v d) ≡ (if j == k then true else contains j d)
unfolding contains insert
contains-insert j k v [] = refl
contains-insert j k v ((i, w) ∷ d) = ground (arith, contains-insert j k v d)

module _ (k : ℕ) (v : Members) where
  -- A new key goes to the end.
  insert_fresh :
      (high : ℕ) (d : Dict ℕ Members)
      → contains k d ≡ false
      → Distinct d
      → InRange high d
      → 1 ≤ k
      → k ≤ high
      → Distinct (insert k v d)
        × InRange high (insert k v d)
        × (length (insert k v d) ≡ suc (length d))
  unfolding contains insert
  insert_fresh high [] fresh u r low up = ((refl, tt), (low, up, tt), refl)
  insert_fresh high ((i, w) ∷ d) fresh (new, u) (a, b, r) low up =
      let (other, rest) = apart k i (contains k d) fresh in
      let (distinct, in_range, len) = insert_fresh high d rest u r low up in
      let missing : contains i (insert k v d) ≡ false =
        contains-insert i k v d ∙ rw (swap k i other) new in
      rw other ((missing, distinct), (a, b, in_range), ap suc len)
    where
      apart :
          (x y : ℕ) (b : Bool)
          → (if x == y then true else b) ≡ false
          → ((x == y) ≡ false) × (b ≡ false)
      apart x y b h = ground arith

      swap : (x y : ℕ) → (x == y) ≡ false → (y == x) ≡ false
      swap x y h = ground arith

-- What a new block of `total` does to a transfer that has received `before`.
abbrev pub Stored : PagedRouteSpec → ℕ → Dict ℕ Members → ℕ → Members → Received → Type 0
Stored spec total before id payload mismatch = ⊥
Stored spec total before id payload duplicate = ⊥
Stored spec total before id payload (waits t) =
    IsProper t × (t.total_count ≡ total) × (t.received_blocks ≡ insert id payload before)
Stored spec total before id payload (merged blocks out) =
    Numbered 1 blocks
    × (length blocks ≡ total)
    × From (insert id payload before) blocks
    × (out ≡ spec.merge_fn blocks total)

abbrev pub received_of : Option PagedTransfer → Dict ℕ Members
received_of none = []
received_of (some t) = t.received_blocks

-- The transfer under way, if there is one, has another total.
abbrev pub contradicts : Option PagedTransfer → ℕ → Bool
contradicts none total = false
contradicts (some t) total = not (t.total_count == total)

-- The answer to a block of `total`, for the transfer under way if there is one.
abbrev pub Sound : PagedRouteSpec → ℕ → Option PagedTransfer → ℕ → Members → Received → Type 0
Sound spec total t id payload mismatch = contradicts t total ≡ true
Sound spec total t id payload duplicate =
    (contradicts t total ≡ false) × (contains id (received_of t) ≡ true)
Sound spec total t id payload (waits u) =
    (contradicts t total ≡ false)
    × (contains id (received_of t) ≡ false)
    × Stored spec total (received_of t) id payload (waits u)
Sound spec total t id payload (merged blocks out) =
    (contradicts t total ≡ false)
    × (contains id (received_of t) ≡ false)
    × Stored spec total (received_of t) id payload (merged blocks out)

Stored-Sound :
    (spec : PagedRouteSpec) (total : ℕ) (t : Option PagedTransfer) (id : ℕ) (payload : Members)
    (r : Received)
    → contradicts t total ≡ false
    → contains id (received_of t) ≡ false
    → Stored spec total (received_of t) id payload r
    → Sound spec total t id payload r
Stored-Sound spec total t id payload mismatch agrees fresh s = absurd s
Stored-Sound spec total t id payload duplicate agrees fresh s = absurd s
Stored-Sound spec total t id payload (waits u) agrees fresh s = (agrees, fresh, s)
Stored-Sound spec total t id payload (merged blocks out) agrees fresh s = (agrees, fresh, s)

store_block-Stored :
    (spec : PagedRouteSpec) (key : PagedTransferKey) (t : PagedTransfer) (now id : ℕ)
    (payload : Members)
    → IsProper t
    → contains id t.received_blocks ≡ false
    → 1 ≤ id
    → id ≤ t.total_count
    → Stored spec t.total_count t.received_blocks id payload
        (store_block spec key t now id payload).0
unfolding store_block
store_block-Stored spec key t now id payload p fresh low up =
    let received = insert id payload t.received_blocks in
    let (distinct, in_range, len) =
      insert_fresh id payload t.total_count t.received_blocks fresh p.distinct p.in_range low up in
    elim (Bool-cases (ltb (length received) t.total_count)) [
      | inl e ↦ rw e (
        record {
          distinct = distinct;
          in_range = in_range;
          incomplete = ltb→lt (length received) t.total_count e;
        },
        refl,
        refl,
      )
      | inr e ↦ rw e (done (sorted_blocks received) distinct in_range len e refl)
    ]
  where
    full : (n m total : ℕ) → n ≡ suc m → m < total → ltb n total ≡ false → n ≡ total
    full n m total e lt h = ground arith

    done :
        (blocks : List PagedBlock)
        → Distinct (insert id payload t.received_blocks)
        → InRange t.total_count (insert id payload t.received_blocks)
        → length (insert id payload t.received_blocks) ≡ suc (length t.received_blocks)
        → ltb (length (insert id payload t.received_blocks)) t.total_count ≡ false
        → sorted_blocks (insert id payload t.received_blocks) ≡ blocks
        → Stored spec t.total_count t.received_blocks id payload (
            merged blocks
              (spec.merge_fn blocks (if t.total_count == 0 then length blocks else t.total_count)))
    done blocks distinct in_range len e same =
        let received = insert id payload t.received_blocks in
        let (asc, within) = sorted_blocks-Ascends t.total_count received distinct in_range in
        let many : length blocks ≡ t.total_count =
          ap length (sym same)
          ∙ length-sorted_blocks received
          ∙ full (length received) (length t.received_blocks) t.total_count len p.incomplete e in
        let some_total : (t.total_count == 0) ≡ false = nonzero t.total_count p.incomplete in
        (
          Ascends-Numbered 1 t.total_count blocks (subst (Ascends 1) same asc)
              (subst (Within t.total_count) same within) (omega arith),
          many,
          subst (From received) same (sorted_blocks-From received distinct),
          rw some_total refl,
        )
      where
        nonzero : (n : ℕ) → length t.received_blocks < n → (n == 0) ≡ false
        nonzero n h = ground arith

abbrev pub ProperOption : Option PagedTransfer → Type 0
ProperOption none = Unit
ProperOption (some t) = IsProper t

-- A block with an id from 1 to its total, met by no transfer or by a proper one, is a mismatch just
-- where it contradicts the transfer's total, and else a duplicate just where its id has been
-- received. Otherwise it leaves a proper transfer that waits with it, or finishes the transfer:
-- `merge_fn` then gets just the blocks 1 to the total, in that order, each with the payload it
-- arrived with.
pub receive_block-Sound :
    (spec : PagedRouteSpec) (key : PagedTransferKey) (t : Option PagedTransfer) (now id total : ℕ)
    (payload : Members)
    → ProperOption t
    → 1 ≤ id
    → id ≤ total
    → Sound spec total t id payload (receive_block spec key t now id total payload).0
unfolding receive_block contains
receive_block-Sound spec key none now id total payload p low up =
    Stored-Sound spec total none id payload
      (store_block spec key (new_transfer total now) now id payload).0 refl refl
      (store_block-Stored spec key (new_transfer total now) now id payload
        (record { distinct = tt; in_range = tt; incomplete = omega arith }) refl low up)
receive_block-Sound spec key (some t) now id total payload p low up =
    elim (Bool-cases (t.total_count == total)) [
      | inr e ↦ rw (e, e) refl
      | inl e ↦ rw e (elim (Bool-cases (contains id t.received_blocks)) [
        | inl old ↦ rw old (rw e refl, old)
        | inr fresh ↦ rw fresh (
            Stored-Sound spec total (some t) id payload (store_block spec key t now id payload).0
              (rw e refl) fresh (stored (sym ((==_iff t.total_count total).0 e)) fresh))
      ])
    ]
  where
    stored :
        total ≡ t.total_count
        → contains id t.received_blocks ≡ false
        → Stored spec total t.received_blocks id payload (store_block spec key t now id payload).0
    stored same fresh =
        subst
          (λ n.
            Stored spec n t.received_blocks id payload (store_block spec key t now id payload).0)
          (sym same) (store_block-Stored spec key t now id payload p fresh low (omega arith))
