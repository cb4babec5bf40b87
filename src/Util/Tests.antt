-- ===== src/Util/Tests.antt =====
-- Runs of src/elke27_lib/util.py, and its theorems at concrete inputs.
use elke.Base.{ℕ, ◌+◌, ◌/◌, ◌%◌, ◌^◌, ◌<◌, ◌≤◌, ◌≡◌, refl, [], ◌∷◌, arith}
use elke.Base.Result.{ok}
use elke.Util.Crc.{
  calculate_crc16_checksum, crc_byte, crc_bits, crc_bit, crc_fold, crc16,
  calculate_crc16_checksum-crc_fold, crc16_residue,
}
use elke.Util.Swap.{
  swap_words, swap_endianness, calculate_block_padding, swap_endianness-swap_endianness,
  calculate_block_padding_lem,
}

-- The check value of CRC-16 with this polynomial: "123456789" gives 0xBB3D.
crc16-check : crc16 (49 ∷ 50 ∷ 51 ∷ 52 ∷ 53 ∷ 54 ∷ 55 ∷ 56 ∷ 57 ∷ []) ≡ 0xBB3D
unfolding crc_fold crc_byte crc_bits crc_bit
crc16-check = refl

calculate_crc16_checksum-crc_fold_example :
    calculate_crc16_checksum 1 (9 ∷ 49 ∷ 50 ∷ 9 ∷ []) 1 2 ≡ ok (crc_fold 1 (49 ∷ 50 ∷ []) % 2 ^ 16)
calculate_crc16_checksum-crc_fold_example =
    calculate_crc16_checksum-crc_fold (9 ∷ []) (49 ∷ 50 ∷ []) (9 ∷ []) 1

crc16_residue_example :
    crc16 (1 ∷ 2 ∷ crc16 (1 ∷ 2 ∷ []) % 256 ∷ crc16 (1 ∷ 2 ∷ []) / 256 % 256 ∷ []) ≡ 0
crc16_residue_example = crc16_residue (1 ∷ 2 ∷ [])

one_word : swap_endianness (1 ∷ 2 ∷ 3 ∷ 4 ∷ []) ≡ ok (4 ∷ 3 ∷ 2 ∷ 1 ∷ [])
unfolding swap_endianness swap_words
one_word = refl

swap_endianness-swap_endianness_example :
    swap_endianness (4 ∷ 3 ∷ 2 ∷ 1 ∷ []) ≡ ok (1 ∷ 2 ∷ 3 ∷ 4 ∷ [])
swap_endianness-swap_endianness_example =
    swap_endianness-swap_endianness (1 ∷ 2 ∷ 3 ∷ 4 ∷ []) one_word

calculate_block_padding_lem_example :
    (pad : ℕ) × (calculate_block_padding 11 16 ≡ ok pad)
    × (pad < 16)
    × ((11 + pad) % 16 ≡ 0)
    × ((k : ℕ) → (11 + k) % 16 ≡ 0 → pad ≤ k)
calculate_block_padding_lem_example = calculate_block_padding_lem 11 16 (omega arith)
