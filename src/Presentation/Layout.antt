-- ===== src/Presentation/Layout.antt =====
-- The buffer of an envelope, field by field, and how it is taken apart.
use elke.Base.{
  ℕ, zero, suc, ◌+◌, ◌-◌, ◌%◌, ◌^◌, ◌<◌, ◌≡◌, refl, sym, ap, ◌∙◌, Bool, false, ◌&&◌, [], ◌∷◌, ◌++◌,
  append_assoc, arith, ltb, length, length-append, take, drop, replicate, take-append, drop-append,
  length-replicate, ge→ltb,
}
use elke.Base.Bytes.{Bytes, to_bytes, from_bytes, from_bytes-to_bytes}
use elke.Base.Result.{ok, raise_if}
use elke.Presentation.{
  magic_mismatch, E27DecryptedEnvelope, e27_magic, write, envelope_bytes, parse_envelope,
}

-- The envelope as one sequence of fields.
abbrev pub envelope : ℕ → ℕ → ℕ → ℕ → Bytes → ℕ → Bytes
envelope envelope_seq src dest head payload pad_len =
    to_bytes 4 envelope_seq
    ++ (src % 256
        ∷ dest % 256
        ∷ head % 256
        ∷ (payload ++ (to_bytes 2 e27_magic ++ replicate pad_len 0)))

abbrev pub zeros : ℕ → Bytes
zeros n = replicate n 0

zeros-add : (n m k : ℕ) → k ≡ n + m → zeros k ≡ zeros n ++ zeros m
zeros-add zero m k e = ap zeros (e ∙ omega arith)
zeros-add (suc n) m k e =
    let e' : k ≡ suc (n + m) = omega arith in ap zeros e' ∙ ap (◌∷◌ 0) (zeros-add n m (n + m) refl)

-- A field written at the end of what is filled so far takes the place of that many zeros.
write-zeros :
    (filled xs : Bytes) (n k i : ℕ)
    → i ≡ length filled
    → n ≡ length xs + k
    → write (filled ++ zeros n) i xs ≡ (filled ++ xs) ++ zeros k
unfolding write
write-zeros filled xs n k i at all =
    let front = filled ++ zeros (length xs) in
    let split : filled ++ zeros n ≡ front ++ zeros k =
      ap (λ zs. filled ++ zs) (zeros-add (length xs) k n all)
      ∙ sym (append_assoc filled (zeros (length xs)) (zeros k)) in
    let fits : length (zeros (length xs)) ≡ length xs = length-replicate (length xs) 0 in
    let long = length-append filled (zeros (length xs)) in
    let len : i + length xs ≡ length front = omega arith in
    let kept : take i (filled ++ zeros n) ≡ filled =
      ap (λ m. take m (filled ++ zeros n)) at ∙ take-append filled (zeros n) in
    let rest : drop (i + length xs) (filled ++ zeros n) ≡ zeros k =
      ap (λ bs. drop (i + length xs) bs) split
      ∙ ap (λ m. drop m (front ++ zeros k)) len
      ∙ drop-append front (zeros k) in
    rw kept (rw rest (sym (append_assoc filled xs (zeros k))))

-- Written in the order of the code, the fields fill the buffer from the front.
pub envelope_bytes-envelope :
    (envelope_seq src dest head : ℕ) (payload : Bytes) (pad_len : ℕ)
    → envelope_bytes envelope_seq src dest head payload pad_len
      ≡ envelope envelope_seq src dest head payload pad_len
unfolding envelope_bytes
envelope_bytes-envelope envelope_seq src dest head payload pad_len =
    let n = length payload in
    let s = to_bytes 4 envelope_seq in
    let s₁ = s ++ (src % 256 ∷ []) in
    let s₂ = s₁ ++ (dest % 256 ∷ []) in
    let s₃ = s₂ ++ (head % 256 ∷ []) in
    let s₄ = s₃ ++ payload in
    let m = to_bytes 2 e27_magic in
    let p = 2 + pad_len in
    rw (write-zeros [] s (4 + 1 + 1 + 1 + n + 2 + pad_len) (1 + 1 + 1 + n + p) 0 refl (omega arith))
      (rw (write-zeros s (src % 256 ∷ []) (1 + 1 + 1 + n + p) (1 + 1 + n + p) 4 refl (omega arith))
        (rw (write-zeros s₁ (dest % 256 ∷ []) (1 + 1 + n + p) (1 + n + p) 5 refl (omega arith)) (
          rw (write-zeros s₂ (head % 256 ∷ []) (1 + n + p) (n + p) 6 refl (omega arith)) (
            rw (write-zeros s₃ payload (n + p) p 7 refl refl) (
              rw (write-zeros s₄ m p pad_len (7 + n) (omega (arith, length-append s₃ payload)) refl)
                (rw (append_assoc payload m (zeros pad_len))))))))

pub length-envelope :
    (envelope_seq src dest head : ℕ) (payload : Bytes) (pad_len : ℕ)
    → length (envelope envelope_seq src dest head payload pad_len) ≡ length payload + pad_len + 9
length-envelope envelope_seq src dest head payload pad_len =
    let fits = length-append payload (to_bytes 2 e27_magic ++ zeros pad_len) in
    let filled : length (zeros pad_len) ≡ pad_len = length-replicate pad_len 0 in omega arith

-- What the envelope is taken apart into.
abbrev pub opened : ℕ → ℕ → ℕ → ℕ → Bytes → ℕ → E27DecryptedEnvelope
opened envelope_seq src dest head payload pad_len = record {
  envelope_seq = envelope_seq;
  src = src;
  dest = dest;
  head = head;
  payload = payload;
  padding_len = pad_len;
  magic = e27_magic;
}

pub parse_envelope-envelope :
    (envelope_seq src dest head : ℕ) (payload : Bytes) (pad_len : ℕ) (require_magic : Bool)
    → envelope_seq < 2 ^ 32
    → src < 256
    → dest < 256
    → head < 256
    → pad_len < 16
    → parse_envelope pad_len require_magic (envelope envelope_seq src dest head payload pad_len)
      ≡ ok (opened envelope_seq src dest head payload pad_len)
unfolding parse_envelope
parse_envelope-envelope envelope_seq src dest head payload pad_len require_magic hq hs hd hh hp =
    let n = length payload in
    let pt = envelope envelope_seq src dest head payload pad_len in
    let tail = to_bytes 2 e27_magic ++ zeros pad_len in
    let len : length pt ≡ n + pad_len + 9 =
      length-envelope envelope_seq src dest head payload pad_len in
    let off : length pt - (pad_len + 2) ≡ suc (suc (suc (suc (suc (suc (suc n)))))) = omega arith in
    let off' : suc (suc (suc (suc (suc (suc (suc n)))))) - 7 ≡ n = omega arith in
    let long : ltb (length pt) (4 + 1 + 1 + 1 + 2) ≡ false = ge→ltb _ _ (omega arith) in
    let room : ltb (length pt) (pad_len + 2 + 7) ≡ false = ge→ltb _ _ (omega arith) in
    let seq : from_bytes (to_bytes 4 envelope_seq) ≡ envelope_seq =
      from_bytes-to_bytes 4 envelope_seq hq in
    rw long (
      rw (ge→ltb 15 pad_len (omega arith)) (
        rw room (
          rw off (
            rw (drop-append payload tail) (
              rw off'
                (rw (take-append payload tail) (rw (passes require_magic) (ground arith))))))))
  where
    passes : (b : Bool) → raise_if (b && false) magic_mismatch ≡ ok tt
    passes b = ground arith
