-- ===== src/Encryption/RoundTrip.antt =====
-- The schema-0 functions of src/elke27_lib/encryption_loop.py undo each other, and agree with
-- those of src/elke27_lib/presentation_loop.py.
use elke.Base.{ℕ, ◌+◌, ◌%◌, ◌<◌, ◌≡◌, ap, ◌∙◌, false, arith, ◌==◌, ne→==_false, length}
use elke.Base.Bytes.{Bytes}
use elke.Base.Result.{ok, ◌>>=◌}
use elke.Presentation.{Fits, AesCbc, encrypt_schema0_envelope}
use elke.Presentation.Layout.{envelope, length-envelope}
use elke.Presentation.RoundTrip.{Accepted, padding, encrypt_schema0_envelope_lem}
use elke.Util.Swap.{
  swap_words, swap_words-swap_words, length-swap_words, IsWords, IsWords-of_length,
}
use elke.Encryption.{
  swap_endianness, aes_cbc_encrypt_no_padding, aes_cbc_decrypt_no_padding,
  encrypt_schema0_plaintext, decrypt_schema0_ciphertext,
}

swap_endianness-ok :
    (bs : Bytes) → 0 < length bs → length bs % 4 ≡ 0 → swap_endianness bs ≡ ok (swap_words bs)
unfolding swap_endianness
swap_endianness-ok bs some_left h = ground arith

-- A text of whole blocks, and not empty.
pub record IsBlocks (key iv text : Bytes) : Type 0 where
  pub key_16 : length key ≡ 16
  pub iv_16 : length iv ≡ 16
  pub blocks : length text % 16 ≡ 0
  pub some_left : 0 < length text

module _ (aes : AesCbc) {key iv text : Bytes} (h : IsBlocks key iv text) where
  open h use {key_16, iv_16, blocks, some_left}

  text-IsWords : IsWords text
  text-IsWords = IsWords-of_length text (omega (arith, blocks))

  len : length (swap_words text) ≡ length text
  len = length-swap_words text text-IsWords

  fits : Fits key iv (swap_words text)
  fits = record { key_16 = key_16; iv_16 = iv_16; blocks = omega (arith, len, blocks) }

  abbrev ct : Bytes
  ct = aes.encryptor key iv (swap_words text)

  length-ct : length ct ≡ length text
  length-ct = aes.length-encryptor key iv (swap_words text) fits ∙ len

  ct-IsWords : IsWords ct
  ct-IsWords = IsWords-of_length ct (omega (arith, length-ct, blocks))

  pub encrypt_schema0_plaintext_lem : encrypt_schema0_plaintext aes key text iv ≡ ok (swap_words ct)
  unfolding encrypt_schema0_plaintext aes_cbc_encrypt_no_padding
  encrypt_schema0_plaintext_lem =
      let nonempty : length text == 0 ≡ false =
        ne→==_false _ _ (λ z. absurd (omega (arith, some_left))) in
      let nonempty' : length (swap_words text) == 0 ≡ false =
        ne→==_false _ _ (λ z. absurd (omega (arith, some_left, len))) in
      let whole : length (swap_words text) % 16 ≡ 0 = omega (arith, len, blocks) in
      rw (swap_endianness-ok text some_left (omega (arith, blocks))) (
        rw key_16 (
          rw iv_16 (
            rw nonempty (
              rw blocks (
                rw nonempty' (
                  rw whole (
                    swap_endianness-ok ct (omega (arith, length-ct, some_left))
                      (omega (arith, length-ct, blocks)))))))))

  pub decrypt_schema0_ciphertext_lem :
      decrypt_schema0_ciphertext aes key (swap_words ct) iv ≡ ok text
  unfolding decrypt_schema0_ciphertext aes_cbc_decrypt_no_padding
  decrypt_schema0_ciphertext_lem =
      let out = length-swap_words ct ct-IsWords in
      let nonempty : length (swap_words ct) == 0 ≡ false =
        ne→==_false _ _ (λ z. absurd (omega (arith, some_left, length-ct, out))) in
      let whole : length (swap_words ct) % 16 ≡ 0 = omega (arith, out, length-ct, blocks) in
      let nonempty' : length ct == 0 ≡ false =
        ne→==_false _ _ (λ z. absurd (omega (arith, some_left, length-ct))) in
      let whole' : length ct % 16 ≡ 0 = omega (arith, length-ct, blocks) in
      let back : swap_endianness (swap_words ct) ≡ ok ct =
        swap_endianness-ok (swap_words ct) (omega (arith, out, length-ct, some_left))
          (omega (arith, out, length-ct, blocks))
        ∙ ap ok (swap_words-swap_words ct ct-IsWords) in
      let plain : swap_endianness (swap_words text) ≡ ok text =
        swap_endianness-ok (swap_words text) (omega (arith, len, some_left))
          (omega (arith, len, blocks))
        ∙ ap ok (swap_words-swap_words text text-IsWords) in
      rw back (
        rw key_16 (
          rw iv_16 (
            rw nonempty (
              rw whole (
                rw nonempty' (
                  rw whole' (rw (aes.decryptor-encryptor key iv (swap_words text) fits) plain)))))))

-- A nonempty text of whole blocks, under a key and a vector of 16 bytes, is encrypted with no
-- error, and decryption returns it.
pub decrypt_schema0_ciphertext-encrypt_schema0_plaintext :
    (aes : AesCbc) {key iv text : Bytes}
    → IsBlocks key iv text
    → (encrypt_schema0_plaintext aes key text iv >>= λ ct. decrypt_schema0_ciphertext aes key ct iv)
      ≡ ok text
decrypt_schema0_ciphertext-encrypt_schema0_plaintext aes h =
    rw (encrypt_schema0_plaintext_lem aes h) (decrypt_schema0_ciphertext_lem aes h)

envelope-IsBlocks :
    {key iv : Bytes} {src dest head envelope_seq : ℕ} (payload : Bytes)
    → Accepted key iv src dest head envelope_seq
    → IsBlocks key iv (envelope envelope_seq src dest head payload (padding (length payload)))
envelope-IsBlocks {src = src} {dest = dest} {head = head} {envelope_seq = envelope_seq} payload a =
    let len = length-envelope envelope_seq src dest head payload (padding (length payload)) in
    record { key_16 = a.key_16; iv_16 = a.iv_16; blocks = omega arith; some_left = omega arith }

-- For every argument that `encrypt_schema0_envelope` accepts, the two modules agree: its ciphertext
-- is what `encrypt_schema0_plaintext` makes of the padded envelope.
pub encrypt_schema0_envelope-encrypt_schema0_plaintext :
    (aes : AesCbc) {key iv : Bytes} {src dest head envelope_seq : ℕ} (payload : Bytes)
    → Accepted key iv src dest head envelope_seq
    → (ct : Bytes) × (encrypt_schema0_envelope aes payload key src dest head envelope_seq iv
        ≡ ok (0x80 + padding (length payload), ct))
      × (encrypt_schema0_plaintext aes key
            (envelope envelope_seq src dest head payload (padding (length payload)))
            iv
          ≡ ok ct)
encrypt_schema0_envelope-encrypt_schema0_plaintext aes payload a = (
  _,
  encrypt_schema0_envelope_lem aes a payload,
  encrypt_schema0_plaintext_lem aes (envelope-IsBlocks payload a),
)
