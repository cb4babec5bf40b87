-- ===== src/Util/Swap.antt =====
-- `swap_endianness` and `calculate_block_padding` of src/elke27_lib/util.py.
use elke.Base.{
  ℕ, ◌+◌, ◌-◌, ◌%◌, ◌<◌, ◌≤◌, ◌≡◌, ◌≢◌, refl, ap, [], ◌∷◌, arith, ◌==◌, length, not, Bool-cases,
  ==_iff, sym, ◌∙◌, ◌⊎◌, inl, inr,
}
use native.Mathlib.Nat.{mod_self, mod-lt, mod-eq_of_lt, mod-add-mod, add-zero}
use native.Mathlib.Decide.{dec_lt}
use elke.Base.Bytes.{Bytes, IsBytes}
use elke.Base.Result.{Result, ok, ◌>>◌, raise_if, PyError, value_error}

-- The loop: each chunk of four bytes is reversed.
unfoldable pub swap_words : Bytes → Bytes
swap_words (a ∷ (b ∷ (c ∷ (d ∷ rest)))) = d ∷ c ∷ b ∷ a ∷ swap_words rest
swap_words _ = []

unfoldable pub swap_endianness : Bytes → Result PyError Bytes
swap_endianness src = do
  raise_if (length src == 0) value_error
  raise_if (not (length src % 4 == 0)) value_error
  ok (swap_words src)

unfoldable pub calculate_block_padding : ℕ → ℕ → Result PyError ℕ
calculate_block_padding n block_size = do
  raise_if (block_size == 0) value_error
  ok ((block_size - n % block_size) % block_size)

-- A whole number of words.
abbrev pub IsWords : Bytes → Type 0
IsWords [] = Unit
IsWords (a ∷ (b ∷ (c ∷ (d ∷ rest)))) = IsWords rest
IsWords _ = ⊥

pub IsWords-of_length : (bs : Bytes) → length bs % 4 ≡ 0 → IsWords bs
IsWords-of_length [] h = tt
IsWords-of_length (a ∷ []) h = omega arith
IsWords-of_length (a ∷ (b ∷ [])) h = omega arith
IsWords-of_length (a ∷ (b ∷ (c ∷ []))) h = omega arith
IsWords-of_length (a ∷ (b ∷ (c ∷ (d ∷ rest)))) h = IsWords-of_length rest (omega arith)

-- Swapping twice gives back the bytes.
pub swap_words-swap_words : (bs : Bytes) → IsWords bs → swap_words (swap_words bs) ≡ bs
unfolding swap_words
swap_words-swap_words [] h = refl
swap_words-swap_words (a ∷ []) h = elim h [ ]
swap_words-swap_words (a ∷ (b ∷ [])) h = elim h [ ]
swap_words-swap_words (a ∷ (b ∷ (c ∷ []))) h = elim h [ ]
swap_words-swap_words (a ∷ (b ∷ (c ∷ (d ∷ rest)))) h =
    ap (λ r. a ∷ b ∷ c ∷ d ∷ r) (swap_words-swap_words rest h)

pub length-swap_words : (bs : Bytes) → IsWords bs → length (swap_words bs) ≡ length bs
unfolding swap_words
length-swap_words [] h = refl
length-swap_words (a ∷ []) h = elim h [ ]
length-swap_words (a ∷ (b ∷ [])) h = elim h [ ]
length-swap_words (a ∷ (b ∷ (c ∷ []))) h = elim h [ ]
length-swap_words (a ∷ (b ∷ (c ∷ (d ∷ rest)))) h = omega (arith, length-swap_words rest h)

pub swap_words-IsBytes : (bs : Bytes) → IsBytes bs → IsBytes (swap_words bs)
unfolding swap_words
swap_words-IsBytes (a ∷ (b ∷ (c ∷ (d ∷ rest)))) (ha, (hb, (hc, (hd, h)))) =
    (hd, (hc, (hb, (ha, swap_words-IsBytes rest h))))
swap_words-IsBytes [] h = tt
swap_words-IsBytes (a ∷ []) h = tt
swap_words-IsBytes (a ∷ (b ∷ [])) h = tt
swap_words-IsBytes (a ∷ (b ∷ (c ∷ []))) h = tt

pub swap_endianness-ok :
    (bs : Bytes) → 0 < length bs → length bs % 4 ≡ 0 → swap_endianness bs ≡ ok (swap_words bs)
unfolding swap_endianness
swap_endianness-ok bs some_left h = ground arith

-- A call that returns was given at least one whole word.
pub swap_endianness-eq-ok :
    (bs : Bytes) {swapped : Bytes}
    → swap_endianness bs ≡ ok swapped
    → (0 < length bs) × (length bs % 4 ≡ 0) × (swapped ≡ swap_words bs)
unfolding swap_endianness
swap_endianness-eq-ok bs e = (ground arith, ground arith, ground arith)

-- Whatever `swap_endianness` returns, a second call turns back into its argument.
pub swap_endianness-swap_endianness :
    (bs : Bytes) {swapped : Bytes}
    → swap_endianness bs ≡ ok swapped
    → swap_endianness swapped ≡ ok bs
swap_endianness-swap_endianness bs e =
    let (some_left, whole, same) = swap_endianness-eq-ok bs e in
    let w = IsWords-of_length bs whole in
    let len = length-swap_words bs w in
    rw same (
      swap_endianness-ok (swap_words bs) (omega arith) (omega arith)
      ∙ ap ok (swap_words-swap_words bs w))

-- The padding is what is left of the last block, if one was begun.
padding_cases :
    (n b : ℕ)
    → 0 < b
    → ((n % b ≡ 0) × ((b - n % b) % b ≡ 0))
      ⊎ ((0 < n % b) × (n % b < b) × ((b - n % b) % b ≡ b - n % b))
padding_cases n b h = elim (Bool-cases (n % b == 0)) [
  | inl e ↦
      let z : n % b ≡ 0 = (==_iff _ _).0 e in
      let full : b - n % b ≡ b = omega arith in inl (z, ap (λ m. m % b) full ∙ mod_self b)
  | inr e ↦
      let ne : n % b ≢ 0 = (λ z. cc ((==_iff _ _).1 z)) in
      inr (omega arith, mod-lt n h, mod-eq_of_lt (omega arith))
]

padded_whole : (n b : ℕ) → 0 < b → (n + (b - n % b) % b) % b ≡ 0
padded_whole n b h = elim (padding_cases n b h) [
  | inl (z, pad) ↦ rw pad (rw add-zero z)
  | inr (some_left, small, pad) ↦
      let full : n % b + (b - n % b) ≡ b = omega arith in
      rw pad (sym (mod-add-mod n b (b - n % b)) ∙ ap (λ m. m % b) full ∙ mod_self b)
]

padding_least : (n b k : ℕ) → 0 < b → (n + k) % b ≡ 0 → (b - n % b) % b ≤ k
padding_least n b k h e = elim (padding_cases n b h) [
  | inl (z, pad) ↦ rw pad (omega arith)
  | inr (some_left, small, pad) ↦
      let e' : (n % b + k) % b ≡ 0 = mod-add-mod n b k ∙ e in
      rw pad (elim (dec_lt (n % b + k) b) [
        | yes less ↦ absurd (omega (arith, mod-eq_of_lt less))
        | no more ↦ omega arith
      ])
]

-- For a positive block size the padding is returned, and is the least number of bytes that completes the last block.
pub calculate_block_padding_lem :
    (n block_size : ℕ)
    → 0 < block_size
    → (pad : ℕ) × (calculate_block_padding n block_size ≡ ok pad)
      × (pad < block_size)
      × ((n + pad) % block_size ≡ 0)
      × ((k : ℕ) → (n + k) % block_size ≡ 0 → pad ≤ k)
unfolding calculate_block_padding
calculate_block_padding_lem n block_size h = (
  (block_size - n % block_size) % block_size,
  ground arith,
  mod-lt (block_size - n % block_size) h,
  padded_whole n block_size h,
  λ k e. padding_least n block_size k h e,
)
