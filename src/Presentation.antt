-- ===== src/Presentation.antt =====
-- src/elke27_lib/presentation_loop.py: the encrypted envelope. AES-128-CBC is the `cryptography`
-- package's, and a parameter here.
pub mod Layout
pub mod RoundTrip
pub mod Plain
mod Tests
use elke.Base.{
  ℕ, zero, suc, ◌+◌, ◌-◌, ◌*◌, ◌/◌, ◌%◌, ◌^◌, ◌≤◌, ◌<◌, ◌≡◌, Bool, true, false, not, ◌&&◌, ◌||◌,
  Option, none, some, [], ◌∷◌, ◌++◌, ltb, ◌==◌, if◌then◌else◌, length, get_elem?, take, drop,
  replicate, bit_and, bit_or,
}
use elke.Base.Bytes.{Bytes, IsBytes, to_bytes, from_bytes}
use elke.Base.Result.{Result, ok, err, ◌>>=◌, ◌>>◌, raise_if, PyError}
use elke.Util.Swap.{swap_endianness, calculate_block_padding}

-- What the cipher is called with: a key and a vector of 16 bytes, and whole blocks.
pub record Fits (key iv text : Bytes) : Type 0 where
  pub key_16 : length key ≡ 16
  pub iv_16 : length iv ≡ 16
  pub blocks : length text % 16 ≡ 0

-- `Cipher(algorithms.AES(key), modes.CBC(iv))` of the `cryptography` package, with no padding:
-- decryption undoes encryption, and texts of whole blocks keep their length.
pub record AesCbc : Type 0 where
  pub encryptor : Bytes → Bytes → Bytes → Bytes
  pub decryptor : Bytes → Bytes → Bytes → Bytes
  pub decryptor-encryptor :
      (key iv text : Bytes) → Fits key iv text → decryptor key iv (encryptor key iv text) ≡ text
  pub length-encryptor :
      (key iv text : Bytes) → Fits key iv text → length (encryptor key iv text) ≡ length text
  pub encryptor-IsBytes :
      (key iv text : Bytes) → Fits key iv text → IsBytes text → IsBytes (encryptor key iv text)

-- The exceptions: what `util` raises, and `E27ProtocolError` by its place.
pub data PresentationError : Type 0 where
  util : PyError → PresentationError
  key_length text_length iv_length : PresentationError
  not_encrypted too_short invalid_padding magic_layout magic_mismatch : PresentationError
  field_range seq_range total_length : PresentationError

-- A call of `util`, whose exceptions pass through.
abbrev pub from_util {ℓ} : {A : Type ℓ} → Result PyError A → Result PresentationError A
from_util (ok a) = ok a
from_util (err e) = err (util e)

abbrev pub e27_magic : ℕ
e27_magic = 0x422A

abbrev pub protocol_encrypted_flag : ℕ
protocol_encrypted_flag = 0x80

abbrev pub protocol_padding_mask : ℕ
protocol_padding_mask = 0x0F

-- 00 01 02 ... 0f
abbrev pub api_link_iv : Bytes
api_link_iv = 0 ∷ 1 ∷ 2 ∷ 3 ∷ 4 ∷ 5 ∷ 6 ∷ 7 ∷ 8 ∷ 9 ∷ 10 ∷ 11 ∷ 12 ∷ 13 ∷ 14 ∷ 15 ∷ []

pub record E27DecryptedEnvelope : Type 0 where
  pub envelope_seq : ℕ
  pub src : ℕ
  pub dest : ℕ
  pub head : ℕ
  pub payload : Bytes
  pub padding_len : ℕ
  pub magic : ℕ

-- `_require_len(name, data, 16)`
abbrev pub require_len : Bytes → Result PresentationError (Unit {0})
require_len bs = raise_if (length bs == 0 || not (length bs % 16 == 0)) text_length

abbrev pub require_key_16 : Bytes → Result PresentationError (Unit {0})
require_key_16 key = raise_if (not (length key == 16)) key_length

abbrev require_iv_16 : Bytes → Result PresentationError (Unit {0})
require_iv_16 iv = raise_if (not (length iv == 16)) iv_length

unfoldable pub protocol_padding_len : ℕ → ℕ
protocol_padding_len protocol_byte = bit_and protocol_byte protocol_padding_mask

unfoldable pub protocol_is_encrypted : ℕ → Bool
protocol_is_encrypted protocol_byte =
    bit_and protocol_byte protocol_encrypted_flag == protocol_encrypted_flag

-- `pt[i]`; the callers have checked the length.
abbrev pub byte_at : Bytes → ℕ → ℕ
byte_at bs i = elim (get_elem? bs i) [ none ↦ 0 | some b ↦ b ]

-- `decrypt_schema0_envelope` behind the decryption: the plaintext taken apart.
unfoldable pub parse_envelope : ℕ → Bool → Bytes → Result PresentationError E27DecryptedEnvelope
parse_envelope pad_len require_magic pt = do
  raise_if (ltb (length pt) (4 + 1 + 1 + 1 + 2)) too_short
  raise_if (ltb 15 pad_len) invalid_padding
  raise_if (ltb (length pt) (pad_len + 2 + 7)) magic_layout
  let magic_off = length pt - (pad_len + 2)
  let magic = from_bytes (take 2 (drop magic_off pt))
  raise_if (require_magic && not (magic == e27_magic)) magic_mismatch
  ok (record {
    envelope_seq = from_bytes (take 4 pt);
    src = byte_at pt 4;
    dest = byte_at pt 5;
    head = byte_at pt 6;
    payload = take (magic_off - 7) (drop 7 pt);
    padding_len = pad_len;
    magic = magic;
  })

-- `buf[i : i + len(xs)] = xs`
unfoldable pub write : Bytes → ℕ → Bytes → Bytes
write buf i xs = take i buf ++ (xs ++ drop (i + length xs) buf)

-- The buffer that `encrypt_schema0_envelope` fills: zeros, then each field in its place.
unfoldable pub envelope_bytes : ℕ → ℕ → ℕ → ℕ → Bytes → ℕ → Bytes
envelope_bytes envelope_seq src dest head payload pad_len =
    let zeros = replicate (4 + 1 + 1 + 1 + length payload + 2 + pad_len) 0 in
    let with_seq = write zeros 0 (to_bytes 4 envelope_seq) in
    let with_src = write with_seq 4 (src % 256 ∷ []) in
    let with_dest = write with_src 5 (dest % 256 ∷ []) in
    let with_head = write with_dest 6 (head % 256 ∷ []) in
    let with_payload = write with_head 7 payload in
    write with_payload (7 + length payload) (to_bytes 2 e27_magic)

module _ (aes : AesCbc) where
  pub aes128_cbc_decrypt : Bytes → Bytes → Bytes → Result PresentationError Bytes
  aes128_cbc_decrypt key iv ciphertext = do
    require_key_16 key
    require_len ciphertext
    require_iv_16 iv
    ok (aes.decryptor key iv ciphertext)

  pub aes128_cbc_encrypt : Bytes → Bytes → Bytes → Result PresentationError Bytes
  aes128_cbc_encrypt key iv plaintext = do
    require_key_16 key
    require_len plaintext
    require_iv_16 iv
    ok (aes.encryptor key iv plaintext)

  unfoldable pub decrypt_schema0_envelope :
      ℕ → Bytes → Bytes → Bytes → Bool → Result PresentationError E27DecryptedEnvelope
  unfolding aes128_cbc_decrypt
  decrypt_schema0_envelope protocol_byte ciphertext session_key iv require_magic = do
    raise_if (not (protocol_is_encrypted protocol_byte)) not_encrypted
    let pad_len = protocol_padding_len protocol_byte
    ct_swapped ← from_util (swap_endianness ciphertext)
    pt ← aes128_cbc_decrypt session_key iv ct_swapped
    swapped ← from_util (swap_endianness pt)
    parse_envelope pad_len require_magic swapped

  -- The protocol byte and the ciphertext.
  unfoldable pub encrypt_schema0_envelope :
      Bytes → Bytes → ℕ → ℕ → ℕ → ℕ → Bytes → Result PresentationError (ℕ × Bytes)
  unfolding aes128_cbc_encrypt
  encrypt_schema0_envelope payload session_key src dest head envelope_seq iv = do
    raise_if (ltb 255 src || ltb 255 dest || ltb 255 head) field_range
    raise_if (ltb 0xFFFFFFFF envelope_seq) seq_range
    let base_len = 4 + 1 + 1 + 1 + length payload + 2
    pad_len ← from_util (calculate_block_padding base_len 16)
    raise_if (ltb 15 pad_len) invalid_padding
    raise_if (not ((base_len + pad_len) % 16 == 0)) total_length
    let protocol = bit_or protocol_encrypted_flag (bit_and pad_len protocol_padding_mask)
    let buf = envelope_bytes envelope_seq src dest head payload pad_len
    pt_swapped ← from_util (swap_endianness buf)
    ct ← aes128_cbc_encrypt session_key iv pt_swapped
    swapped ← from_util (swap_endianness ct)
    ok (protocol, swapped)
