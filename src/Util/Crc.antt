-- ===== src/Util/Crc.antt =====
-- `calculate_crc16_checksum` of src/elke27_lib/util.py: reflected CRC-16, polynomial 0xA001.
use elke.Base.{
  ℕ, zero, suc, ◌/◌, ◌%◌, ◌^◌, ◌<◌, bit_xor, ◌≡◌, refl, ◌∙◌, ◌⊎◌, inl, inr, none, some, [], ◌∷◌,
  ◌++◌, arith, ◌==◌, if◌then◌else◌, length, get_elem?, get_elem?-append, length-append,
  append_assoc,
}
use elke.Base.Xor.{bit_xor-lt}
use elke.Base.Bytes.{Bytes}
use elke.Base.Result.{Result, ok, err, ◌>>=◌, PyError, index_error}

-- One round of the inner loop: the new `w_sum`; `data` is halved beside it.
unfoldable pub crc_bit : ℕ → ℕ → ℕ
crc_bit w_sum data_byte =
    if bit_xor (w_sum % 2) (data_byte % 2) == 0 then w_sum / 2 else bit_xor (w_sum / 2) 0xA001

-- `for _ in range(8)`, with the rounds left.
unfoldable pub crc_bits : ℕ → ℕ → ℕ → ℕ
unfolding crc_bit
crc_bits zero w_sum data_byte = w_sum
crc_bits (suc rounds) w_sum data_byte = crc_bits rounds (crc_bit w_sum data_byte) (data_byte / 2)

-- One round of the outer loop.
unfoldable pub crc_byte : ℕ → ℕ → ℕ
unfolding crc_bits
crc_byte w_sum raw = crc_bits 8 w_sum (raw % 256)

-- `for i in range(start, start + numb)`, at index `i` with the bytes left.
pub crc_loop : Bytes → ℕ → ℕ → ℕ → Result PyError ℕ
crc_loop bs i zero w_sum = ok w_sum
crc_loop bs i (suc left) w_sum = elim (get_elem? bs i) [
  | none ↦ err index_error
  | some b ↦ crc_loop bs (suc i) left (crc_byte w_sum b)
]

unfoldable pub calculate_crc16_checksum : ℕ → Bytes → ℕ → ℕ → Result PyError ℕ
unfolding crc_loop
calculate_crc16_checksum w_sum bs start numb = do
  total ← crc_loop bs start numb (w_sum % 2 ^ 16)
  ok (total % 2 ^ 16)

-- The same as a plain fold over the bytes, with no index and no exception.
unfoldable pub crc_fold : ℕ → Bytes → ℕ
crc_fold w_sum [] = w_sum
crc_fold w_sum (b ∷ bs) = crc_fold (crc_byte w_sum b) bs

abbrev pub crc16 : Bytes → ℕ
crc16 bs = crc_fold 0 bs % 2 ^ 16

crc_loop-crc_fold :
    (before bs after : Bytes) (w : ℕ)
    → crc_loop (before ++ (bs ++ after)) (length before) (length bs) w ≡ ok (crc_fold w bs)
unfolding crc_loop crc_fold
crc_loop-crc_fold before [] after w = refl
crc_loop-crc_fold before (b ∷ bs) after w =
    let here : length (before ++ (b ∷ [])) ≡ suc (length before) =
      omega (arith, length-append before (b ∷ [])) in
    let rest = crc_loop-crc_fold (before ++ (b ∷ [])) bs after (crc_byte w b) in
    rw (get_elem?-append before b (bs ++ after), crc_loop)
      (rw here at (rw (append_assoc before (b ∷ []) (bs ++ after)) at rest))

-- Over a range inside the buffer the checksum never raises, and is the fold of its bytes.
pub calculate_crc16_checksum-crc_fold :
    (before bs after : Bytes) (w : ℕ)
    → calculate_crc16_checksum w (before ++ (bs ++ after)) (length before) (length bs)
      ≡ ok (crc_fold (w % 2 ^ 16) bs % 2 ^ 16)
unfolding calculate_crc16_checksum
calculate_crc16_checksum-crc_fold before bs after w =
    rw (crc_loop-crc_fold before bs after (w % 2 ^ 16))

crc_bit_same : (w d : ℕ) → w % 2 ≡ d % 2 → crc_bit w d ≡ w / 2
unfolding crc_bit
crc_bit_same w d h = rw h (elim (two (d % 2) (omega arith)) [ inl e ↦ rw e | inr e ↦ rw e ])
  where
    two : (n : ℕ) → n < 2 → (n ≡ 0) ⊎ (n ≡ 1)
    two n h = omega arith

-- The lowest `n` binary digits of the two numbers are the same.
abbrev SameLow : ℕ → ℕ → ℕ → Type 0
SameLow zero w d = Unit
SameLow (suc n) w d = (w % 2 ≡ d % 2) × SameLow n (w / 2) (d / 2)

abbrev halve : ℕ → ℕ → ℕ
halve zero w = w
halve (suc n) w = halve n (w / 2)

crc_bits_same : (n w d : ℕ) → SameLow n w d → crc_bits n w d ≡ halve n w
unfolding crc_bits
crc_bits_same zero w d h = refl
crc_bits_same (suc n) w d h = rw (crc_bit_same w d h.0) (crc_bits_same n (w / 2) (d / 2) h.1)

-- A byte equal to the low byte of the running sum shifts it out.
crc_byte_same : (w b : ℕ) → b % 256 ≡ w % 256 → crc_byte w b ≡ w / 256
unfolding crc_byte
crc_byte_same w b h = crc_bits_same 8 w (b % 256) (omega arith) ∙ omega arith

crc_fold-append : (w : ℕ) (xs ys : Bytes) → crc_fold w (xs ++ ys) ≡ crc_fold (crc_fold w xs) ys
unfolding crc_fold
crc_fold-append w [] ys = refl
crc_fold-append w (x ∷ xs) ys = crc_fold-append (crc_byte w x) xs ys

-- Appending a 16-bit sum to the bytes, low byte first, brings the sum to zero.
pub crc_fold_residue :
    (bs : Bytes) (w c : ℕ)
    → crc_fold w bs ≡ c
    → c < 2 ^ 16
    → crc_fold w (bs ++ (c % 256 ∷ c / 256 % 256 ∷ [])) ≡ 0
unfolding crc_fold
crc_fold_residue bs w c e h =
    rw (crc_fold-append w bs (c % 256 ∷ c / 256 % 256 ∷ []), e)
      (rw (crc_byte_same c (c % 256) (omega arith))
        (crc_byte_same (c / 256) (c / 256 % 256) (omega arith) ∙ omega arith))

crc_bit-lt : (w d : ℕ) → w < 2 ^ 16 → crc_bit w d < 2 ^ 16
unfolding crc_bit
crc_bit-lt w d h = ground (arith, bit_xor-lt 16 (w / 2) 0xA001 (omega arith) (omega arith))

crc_bits-lt : (n w d : ℕ) → w < 2 ^ 16 → crc_bits n w d < 2 ^ 16
unfolding crc_bits
crc_bits-lt zero w d h = h
crc_bits-lt (suc n) w d h = crc_bits-lt n (crc_bit w d) (d / 2) (crc_bit-lt w d h)

-- The running sum stays within 16 bits.
pub crc_fold-lt : (w : ℕ) (bs : Bytes) → w < 2 ^ 16 → crc_fold w bs < 2 ^ 16
unfolding crc_fold crc_byte
crc_fold-lt w [] h = h
crc_fold-lt w (b ∷ bs) h = crc_fold-lt (crc_byte w b) bs (crc_bits-lt 8 w (b % 256) h)

-- The checksum of a message followed by its own checksum, low byte first, is zero.
pub crc16_residue : (bs : Bytes) → crc16 (bs ++ (crc16 bs % 256 ∷ crc16 bs / 256 % 256 ∷ [])) ≡ 0
crc16_residue bs =
    let small = crc_fold-lt 0 bs (omega arith) in
    let whole : crc_fold 0 bs ≡ crc16 bs = omega arith in
    rw (crc_fold_residue bs 0 (crc16 bs) whole (omega arith))

-- What `calculate_crc16_checksum(0, buf, 0, n)` computes of the first bytes of a buffer.
pub calculate_crc16_checksum-crc16 :
    (bs after : Bytes) → calculate_crc16_checksum 0 (bs ++ after) 0 (length bs) ≡ ok (crc16 bs)
calculate_crc16_checksum-crc16 bs after = calculate_crc16_checksum-crc_fold [] bs after 0
