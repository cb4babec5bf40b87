-- ===== src/Presentation/RoundTrip.antt =====
-- Encryption of an envelope and its decryption.
use elke.Base.{
  ℕ, zero, suc, ◌+◌, ◌-◌, ◌/◌, ◌%◌, ◌^◌, ◌<◌, ◌≡◌, refl, ap, ◌∙◌, Bool, true, false, ◌&&◌, ◌∷◌,
  ◌++◌, arith, ◌==◌, length, ge→ltb, bit_and, bit_or, ne→==_false,
}
use elke.Base.Bits.{all_below, all_below_lem}
use elke.Base.Bytes.{Bytes, IsBytes, IsBytes-append, to_bytes}
use elke.Base.Result.{ok, ◌>>=◌}
use elke.Util.Swap.{
  swap_words, swap_endianness, swap_endianness-ok, IsWords-of_length, swap_words-swap_words,
  length-swap_words, swap_words-IsBytes, calculate_block_padding, IsWords,
}
use elke.Presentation.{
  Fits, AesCbc, e27_magic, envelope_bytes, protocol_padding_len, protocol_is_encrypted,
  aes128_cbc_decrypt, aes128_cbc_encrypt, decrypt_schema0_envelope, encrypt_schema0_envelope,
}
use elke.Presentation.Layout.{
  envelope, envelope_bytes-envelope, length-envelope, opened, parse_envelope-envelope, zeros,
}

-- The padding of a payload of `n` bytes, and the length of the padded envelope.
abbrev pub padding : ℕ → ℕ
padding n = (16 - (n + 9) % 16) % 16

-- The protocol byte and its two readings, for every padding length.
protocol_table :
    all_below 16 (λ pad.
      bit_or 0x80 (bit_and pad 0x0F) == 0x80 + pad
      && bit_and (0x80 + pad) 0x0F == pad
      && bit_and (0x80 + pad) 0x80 == 0x80)
    ≡ true
unfolding all_below
protocol_table = refl

protocol_bits :
    (pad : ℕ)
    → pad < 16
    → (bit_or 0x80 (bit_and pad 0x0F) ≡ 0x80 + pad)
      × (protocol_padding_len (0x80 + pad) ≡ pad)
      × (protocol_is_encrypted (0x80 + pad) ≡ true)
unfolding protocol_padding_len protocol_is_encrypted
protocol_bits pad h = let row = all_below_lem 16 _ pad protocol_table h in ground arith

-- The arguments that `encrypt_schema0_envelope` accepts.
pub record Accepted (key iv : Bytes) (src dest head envelope_seq : ℕ) : Type 0 where
  pub key_16 : length key ≡ 16
  pub iv_16 : length iv ≡ 16
  pub src_byte : src < 256
  pub dest_byte : dest < 256
  pub head_byte : head < 256
  pub seq_32 : envelope_seq < 2 ^ 32

module _ (aes : AesCbc) where
  -- What the cipher is given, and the ciphertext on the wire.
  abbrev pub plaintext : ℕ → ℕ → ℕ → ℕ → Bytes → Bytes
  plaintext envelope_seq src dest head payload =
      swap_words (envelope envelope_seq src dest head payload (padding (length payload)))

  abbrev pub ciphertext : Bytes → Bytes → ℕ → ℕ → ℕ → ℕ → Bytes → Bytes
  ciphertext key iv envelope_seq src dest head payload =
      swap_words (aes.encryptor key iv (plaintext envelope_seq src dest head payload))

  module _ {key iv : Bytes} {src dest head envelope_seq : ℕ}
      (a : Accepted key iv src dest head envelope_seq) (payload : Bytes) where
    open a use {key_16, iv_16, src_byte, dest_byte, head_byte, seq_32}

    abbrev n : ℕ
    n = length payload

    abbrev buf : Bytes
    buf = envelope envelope_seq src dest head payload (padding n)

    length-buf : (0 < length buf) × (length buf % 16 ≡ 0) × (length buf ≡ n + padding n + 9)
    length-buf =
        let len = length-envelope envelope_seq src dest head payload (padding n) in omega arith

    buf-IsWords : IsWords buf
    buf-IsWords = IsWords-of_length buf (omega (arith, length-buf.1))

    length-plaintext : length (swap_words buf) ≡ length buf
    length-plaintext = length-swap_words buf buf-IsWords

    fits : Fits key iv (swap_words buf)
    fits = record {
      key_16 = key_16;
      iv_16 = iv_16;
      blocks = omega (arith, length-plaintext, length-buf.1);
    }

    abbrev ct : Bytes
    ct = aes.encryptor key iv (swap_words buf)

    length-ct : length ct ≡ length buf
    length-ct = aes.length-encryptor key iv (swap_words buf) fits ∙ length-plaintext

    ct-IsWords : IsWords ct
    ct-IsWords = IsWords-of_length ct (omega (arith, length-ct, length-buf.1))

    aes-encrypt : aes128_cbc_encrypt aes key iv (swap_words buf) ≡ ok ct
    unfolding aes128_cbc_encrypt
    aes-encrypt =
        let some_left : length (swap_words buf) == 0 ≡ false =
          ne→==_false _ _ (λ z. absurd (omega (arith, length-plaintext, length-buf.0))) in
        rw key_16 (rw some_left (rw fits.blocks (rw iv_16)))

    -- Encryption returns the flag with the padding length, and the swapped ciphertext.
    pub encrypt_schema0_envelope_lem :
        encrypt_schema0_envelope aes payload key src dest head envelope_seq iv
        ≡ ok (0x80 + padding n, swap_words ct)
    unfolding encrypt_schema0_envelope
    encrypt_schema0_envelope_lem =
        let base = 4 + 1 + 1 + 1 + n + 2 in
        let small : padding n < 16 = omega arith in
        let padded : calculate_block_padding base 16 ≡ ok (padding n) = block_padding n in
        let whole : (base + padding n) % 16 ≡ 0 = omega arith in
        let swapped : swap_endianness
              (envelope_bytes envelope_seq src dest head payload (padding n))
            ≡ ok (swap_words buf) =
          ap swap_endianness
            (envelope_bytes-envelope envelope_seq src dest head payload (padding n))
          ∙ swap_endianness-ok buf length-buf.0 (omega (arith, length-buf.1)) in
        let swapped_ct : swap_endianness ct ≡ ok (swap_words ct) =
          swap_endianness-ok ct (omega (arith, length-ct, length-buf.0))
            (omega (arith, length-ct, length-buf.1)) in
        rw (ge→ltb 255 src (omega arith)) (
          rw (ge→ltb 255 dest (omega arith)) (
            rw (ge→ltb 255 head (omega arith)) (
              rw (ge→ltb 0xFFFFFFFF envelope_seq (omega arith)) (
                rw padded (
                  rw (ge→ltb 15 (padding n) (omega arith)) (
                    rw whole (
                      rw swapped (
                        rw aes-encrypt
                          (rw swapped_ct (rw (protocol_bits (padding n) small).0))))))))))
      where
        block_padding :
            (m : ℕ) → calculate_block_padding (4 + 1 + 1 + 1 + m + 2) 16 ≡ ok (padding m)
        block_padding m = unfold calculate_block_padding in ap ok (omega arith)

    aes-decrypt : aes128_cbc_decrypt aes key iv ct ≡ ok (swap_words buf)
    unfolding aes128_cbc_decrypt
    aes-decrypt =
        let some_left : length ct == 0 ≡ false =
          ne→==_false _ _ (λ z. absurd (omega (arith, length-ct, length-buf.0))) in
        let blocks : length ct % 16 ≡ 0 = omega (arith, length-ct, length-buf.1) in
        rw key_16 (
          rw some_left
            (rw blocks (rw iv_16 (ap ok (aes.decryptor-encryptor key iv (swap_words buf) fits)))))

    -- Decryption takes back what encryption returned, field by field, whether or not MAGIC is
    -- required.
    pub decrypt_schema0_envelope-ciphertext :
        (require_magic : Bool)
        → decrypt_schema0_envelope aes (0x80 + padding n) (swap_words ct) key iv require_magic
          ≡ ok (opened envelope_seq src dest head payload (padding n))
    unfolding decrypt_schema0_envelope
    decrypt_schema0_envelope-ciphertext require_magic =
        let small : padding n < 16 = omega arith in
        let (_, pad, encrypted) = protocol_bits (padding n) small in
        let len = length-swap_words ct ct-IsWords in
        let back : swap_endianness (swap_words ct) ≡ ok ct =
          swap_endianness-ok (swap_words ct) (omega (arith, length-ct, length-buf.0))
            (omega (arith, length-ct, length-buf.1))
          ∙ ap ok (swap_words-swap_words ct ct-IsWords) in
        let plain : swap_endianness (swap_words buf) ≡ ok buf =
          swap_endianness-ok (swap_words buf) (omega (arith, length-plaintext, length-buf.0))
            (omega (arith, length-plaintext, length-buf.1))
          ∙ ap ok (swap_words-swap_words buf buf-IsWords) in
        rw encrypted (
          rw pad (
            rw back (
              rw aes-decrypt (
                rw plain (
                  parse_envelope-envelope envelope_seq src dest head payload (padding n)
                    require_magic seq_32 src_byte dest_byte head_byte small)))))

    pub ciphertext-IsBytes : IsBytes payload → IsBytes (swap_words ct)
    ciphertext-IsBytes h = swap_words-IsBytes ct (
        aes.encryptor-IsBytes key iv (swap_words buf) fits (swap_words-IsBytes buf (buf-IsBytes h)))
      where
        zeros-IsBytes : (k : ℕ) → IsBytes (zeros k)
        zeros-IsBytes zero = tt
        zeros-IsBytes (suc k) = (omega arith, zeros-IsBytes k)

        to_bytes-IsBytes : (w m : ℕ) → IsBytes (to_bytes w m)
        to_bytes-IsBytes zero m = tt
        to_bytes-IsBytes (suc w) m = (omega arith, to_bytes-IsBytes w (m / 256))

        buf-IsBytes : IsBytes payload → IsBytes buf
        buf-IsBytes p =
            IsBytes-append (to_bytes 4 envelope_seq)
              (src % 256
                ∷ dest % 256
                ∷ head % 256
                ∷ (payload ++ (to_bytes 2 e27_magic ++ zeros (padding n))))
              (to_bytes-IsBytes 4 envelope_seq)
              (
                omega arith,
                (
                  omega arith,
                  (
                    omega arith,
                    IsBytes-append payload (to_bytes 2 e27_magic ++ zeros (padding n)) p
                        (omega arith, (omega arith, zeros-IsBytes (padding n))),
                  ),
                ),
              )

    pub length-ciphertext : length (swap_words ct) ≡ n + padding n + 9
    length-ciphertext = length-swap_words ct ct-IsWords ∙ length-ct ∙ length-buf.2

-- Every envelope within the ranges that the code checks, under a key and a vector of 16 bytes, is
-- encrypted with no error, and decryption returns its fields, its payload and the padding length.
pub decrypt_schema0_envelope-encrypt_schema0_envelope :
    (aes : AesCbc) {key iv : Bytes} {src dest head envelope_seq : ℕ} (payload : Bytes)
    (require_magic : Bool)
    → Accepted key iv src dest head envelope_seq
    → (encrypt_schema0_envelope aes payload key src dest head envelope_seq iv
        >>= λ (protocol_byte, ct).
            decrypt_schema0_envelope aes protocol_byte ct key iv require_magic)
      ≡ ok (opened envelope_seq src dest head payload (padding (length payload)))
decrypt_schema0_envelope-encrypt_schema0_envelope aes payload require_magic a =
    rw (encrypt_schema0_envelope_lem aes a payload)
      (decrypt_schema0_envelope-ciphertext aes a payload require_magic)
