-- ===== src/Encryption.antt =====
-- src/elke27_lib/encryption_loop.py: hex keys, the word swap, and schema-0 encryption. Arguments
-- are never `None`, except that of `hex_to_bytes`.
pub mod Hex
pub mod RoundTrip
mod Tests
use elke.Base.{
  ℕ, ◌+◌, ◌-◌, ◌%◌, Bool, true, false, not, ◌||◌, Option, none, some, [], ◌∷◌, String, bit_and,
  ◌==◌, if◌then◌else◌, length,
}
use elke.Base.Bytes.{Bytes}
use elke.Base.Result.{Result, ok, err, ◌>>=◌, ◌>>◌, raise_if}
use elke.Presentation.{AesCbc}
use elke.Util.Swap.{swap_words}
use elke.Encryption.Hex.{strip, from_hex, count}

-- `E27CryptoError`, by its place.
pub data CryptoError : Type 0 where
  missing_hex empty_hex odd_hex invalid_hex : CryptoError
  swap_length wrong_length block_multiple : CryptoError

abbrev pub hex_result : Option Bytes → Result CryptoError Bytes
hex_result none = err invalid_hex
hex_result (some bs) = ok bs

unfoldable pub hex_to_bytes : Option String → Result CryptoError Bytes
hex_to_bytes none = err missing_hex
hex_to_bytes (some hex_str) = do
  let s = strip hex_str
  raise_if (count s == 0) empty_hex
  raise_if (not (count s % 2 == 0)) odd_hex
  hex_result (from_hex s)

unfoldable pub swap_endianness : Bytes → Result CryptoError Bytes
swap_endianness src = do
  raise_if (length src == 0) swap_length
  raise_if (not (length src % 4 == 0)) swap_length
  ok (swap_words src)

unfoldable pub calculate_block_padding : ℕ → ℕ
calculate_block_padding n = bit_and (16 - n % 16) 15

abbrev pub require_block_multiple : Bytes → Result CryptoError (Unit {0})
require_block_multiple bs = raise_if (length bs == 0 || not (length bs % 16 == 0)) block_multiple

abbrev pub require_len : Bytes → ℕ → Result CryptoError (Unit {0})
require_len bs n = raise_if (not (length bs == n)) wrong_length

module _ (aes : AesCbc) where
  unfoldable pub aes_cbc_encrypt_no_padding : Bytes → Bytes → Bytes → Result CryptoError Bytes
  aes_cbc_encrypt_no_padding key iv plaintext = do
    require_len key 16
    require_len iv 16
    require_block_multiple plaintext
    ok (aes.encryptor key iv plaintext)

  unfoldable pub aes_cbc_decrypt_no_padding : Bytes → Bytes → Bytes → Result CryptoError Bytes
  aes_cbc_decrypt_no_padding key iv ciphertext = do
    require_len key 16
    require_len iv 16
    require_block_multiple ciphertext
    ok (aes.decryptor key iv ciphertext)

  unfoldable pub decrypt_schema0_ciphertext : Bytes → Bytes → Bytes → Result CryptoError Bytes
  unfolding swap_endianness aes_cbc_decrypt_no_padding
  decrypt_schema0_ciphertext key ciphertext iv = do
    require_len key 16
    require_len iv 16
    require_block_multiple ciphertext
    swapped_ct ← swap_endianness ciphertext
    pt ← aes_cbc_decrypt_no_padding key iv swapped_ct
    swap_endianness pt

  unfoldable pub encrypt_schema0_plaintext : Bytes → Bytes → Bytes → Result CryptoError Bytes
  unfolding swap_endianness aes_cbc_encrypt_no_padding
  encrypt_schema0_plaintext key plaintext iv = do
    require_len key 16
    require_len iv 16
    require_block_multiple plaintext
    swapped_pt ← swap_endianness plaintext
    ct ← aes_cbc_encrypt_no_padding key iv swapped_pt
    swap_endianness ct

-- `tempkey_hex_to_aes_key` and `linkkey_hex_to_aes_key`, which do the same.
unfoldable pub linkkey_hex_to_aes_key : Option String → Result CryptoError Bytes
unfolding hex_to_bytes swap_endianness
linkkey_hex_to_aes_key linkkey_hex = do
  raw ← hex_to_bytes linkkey_hex
  require_len raw 16
  swap_endianness raw

unfoldable pub tempkey_hex_to_aes_key : Option String → Result CryptoError Bytes
unfolding hex_to_bytes swap_endianness
tempkey_hex_to_aes_key tempkey_hex = do
  raw ← hex_to_bytes tempkey_hex
  require_len raw 16
  swap_endianness raw

unfoldable pub sessionkey_hex_to_aes_key : Option String → Result CryptoError Bytes
unfolding hex_to_bytes
sessionkey_hex_to_aes_key session_key_hex = do
  raw ← hex_to_bytes session_key_hex
  require_len raw 16
  ok raw

-- The plaintext is not swapped.
unfoldable pub decrypt_hello_field :
    AesCbc → Option String → Option String → Bytes → Result CryptoError Bytes
unfolding linkkey_hex_to_aes_key hex_to_bytes swap_endianness aes_cbc_decrypt_no_padding
decrypt_hello_field aes linkkey_hex field_hex iv = do
  key ← linkkey_hex_to_aes_key linkkey_hex
  ct ← hex_to_bytes field_hex
  require_block_multiple ct
  swapped_ct ← swap_endianness ct
  aes_cbc_decrypt_no_padding aes key iv swapped_ct
