-- ===== src/Encryption/Tests.antt =====
-- Runs of src/elke27_lib/encryption_loop.py, and its theorems at concrete inputs.
use elke.Base.{◌+◌, ◌≡◌, refl, some, [], ◌∷◌, arith}
use elke.Base.Bytes.{Bytes}
use elke.Base.Result.{ok, err, ◌>>=◌}
use elke.Presentation.{api_link_iv, encrypt_schema0_envelope}
use elke.Presentation.Layout.{envelope}
use elke.Presentation.RoundTrip.{Accepted, padding}
use elke.Presentation.Plain.{plain_cipher, sample_key}
use elke.Encryption.{
  odd_hex, invalid_hex, empty_hex, hex_to_bytes, encrypt_schema0_plaintext,
  decrypt_schema0_ciphertext,
}
use elke.Encryption.Hex.{strip, from_hex}
use elke.Encryption.RoundTrip.{
  IsBlocks, decrypt_schema0_ciphertext-encrypt_schema0_plaintext,
  encrypt_schema0_envelope-encrypt_schema0_plaintext,
}

hex_to_bytes-spaces : hex_to_bytes (some " 0aFF 10\n") ≡ err odd_hex
unfolding hex_to_bytes strip
hex_to_bytes-spaces = refl

hex_to_bytes-mixed : hex_to_bytes (some " 0aFF1 ") ≡ err odd_hex
unfolding hex_to_bytes strip
hex_to_bytes-mixed = refl

hex_to_bytes-pairs : hex_to_bytes (some "\t0aFF10 ") ≡ ok (10 ∷ 255 ∷ 16 ∷ [])
unfolding hex_to_bytes strip from_hex
hex_to_bytes-pairs = refl

hex_to_bytes-letter : hex_to_bytes (some "0g") ≡ err invalid_hex
unfolding hex_to_bytes strip from_hex
hex_to_bytes-letter = refl

hex_to_bytes-blank : hex_to_bytes (some "  ") ≡ err empty_hex
unfolding hex_to_bytes strip
hex_to_bytes-blank = refl

sample-IsBlocks : IsBlocks sample_key api_link_iv api_link_iv
sample-IsBlocks = record { key_16 = refl; iv_16 = refl; blocks = refl; some_left = omega arith }

decrypt_schema0_ciphertext-encrypt_schema0_plaintext_example :
    (encrypt_schema0_plaintext plain_cipher sample_key api_link_iv api_link_iv >>= λ ct.
    decrypt_schema0_ciphertext plain_cipher sample_key ct api_link_iv)
    ≡ ok api_link_iv
decrypt_schema0_ciphertext-encrypt_schema0_plaintext_example =
    decrypt_schema0_ciphertext-encrypt_schema0_plaintext plain_cipher sample-IsBlocks

sample-Accepted : Accepted sample_key api_link_iv 1 0 0 17
sample-Accepted = record {
  key_16 = refl;
  iv_16 = refl;
  src_byte = omega arith;
  dest_byte = omega arith;
  head_byte = omega arith;
  seq_32 = omega arith;
}

encrypt_schema0_envelope-encrypt_schema0_plaintext_example :
    (ct : Bytes) × (encrypt_schema0_envelope plain_cipher
        (123 ∷ 125 ∷ [])
        sample_key
        1
        0
        0
        17
        api_link_iv
      ≡ ok (0x80 + padding 2, ct))
    × (encrypt_schema0_plaintext plain_cipher sample_key
          (envelope 17 1 0 0 (123 ∷ 125 ∷ []) (padding 2))
          api_link_iv
        ≡ ok ct)
encrypt_schema0_envelope-encrypt_schema0_plaintext_example =
    encrypt_schema0_envelope-encrypt_schema0_plaintext plain_cipher (123 ∷ 125 ∷ []) sample-Accepted
