-- ===== src/Framing/Escape.antt =====
-- The receiver undoes the escaping: inside a frame, an escaped byte is collected as itself.
use elke.Base.{
  ℕ, ◌+◌, ◌<◌, ◌≡◌, ◌≢◌, refl, sym, ap, ◌∙◌, Bool, true, false, List, [], ◌∷◌, ◌++◌, append-nil,
  append_assoc, arith, ◌==◌, Bool-cases, ==_iff, length, length-append, inl, inr,
}
use elke.Base.Bytes.{Bytes, IsBytes}
use elke.Base.Result.{ok, err, ◌>>=◌}
use elke.Framing.{
  startchar, wait_data, DeframeResult, DeframeState, LogLevel, Step, escape, escape_byte,
}
use elke.Framing.Deframe.{collect, end_data, feed_byte, feed_bytes}

-- The results of what came before stand in front.
abbrev pub emit : List DeframeResult → Step → Step
emit now m = m >>= λ (st, later). ok (st, now ++ later)

pub emit_nil : (m : Step) → emit [] m ≡ m
emit_nil (ok r) = refl
emit_nil (err e) = refl

pub emit-emit : (xs ys : List DeframeResult) (m : Step) → emit xs (emit ys m) ≡ emit (xs ++ ys) m
emit-emit xs ys (ok (st, zs)) = ap (λ r. ok (st, r)) (sym (append_assoc xs ys zs))
emit-emit xs ys (err e) = refl

pub escape-append : (xs ys : Bytes) → escape (xs ++ ys) ≡ escape xs ++ escape ys
escape-append [] ys = refl
escape-append (x ∷ xs) ys =
    ap (λ zs. escape_byte x ++ zs) (escape-append xs ys)
    ∙ sym (append_assoc (escape_byte x) (escape xs) (escape ys))

module _ (enabled : LogLevel → Bool) where
  -- What follows a step: the rest of the stream.
  abbrev pub resume : Step → Bytes → Step
  resume m rest = m >>= λ (st, now). emit now (feed_bytes enabled st rest)

  pub feed_bytes-cons :
      (st : DeframeState) (b : ℕ) (rest : Bytes)
      → feed_bytes enabled st (b ∷ rest) ≡ resume (feed_byte enabled st b) rest
  unfolding feed_bytes
  feed_bytes-cons st b rest = refl

  pub feed_byte-startchar :
      (st : DeframeState)
      → feed_byte enabled st startchar
        ≡ ok (record st { escaping = true; warned_wait_start = false }, [])
  unfolding feed_byte
  feed_byte-startchar st = refl

  feed_byte_plain :
      (st : DeframeState) (b : ℕ)
      → st.escaping ≡ false
      → b < 256
      → b ≢ startchar
      → feed_byte enabled st b ≡ collect enabled st.rcv_state st b
  unfolding feed_byte
  feed_byte_plain st b e small ne = ground arith

  feed_byte_literal :
      (st : DeframeState)
      → st.escaping ≡ false
      → st.warned_wait_start ≡ false
      → feed_byte enabled (record st { escaping = true; warned_wait_start = false }) 0
        ≡ collect enabled st.rcv_state st startchar
  unfolding feed_byte
  feed_byte_literal st e w = ground arith

  -- One byte of the framed portion, whichever way it is written on the wire.
  pub feed-escape_byte :
      (st : DeframeState) (b : ℕ) (rest : Bytes)
      → st.escaping ≡ false
      → st.warned_wait_start ≡ false
      → b < 256
      → feed_bytes enabled st (escape_byte b ++ rest)
        ≡ resume (collect enabled st.rcv_state st b) rest
  feed-escape_byte st b rest e w small = elim (Bool-cases (b == startchar)) [
    | inl same ↦
        let begun = record st { escaping = true; warned_wait_start = false } in
        let is_start : startchar ≡ b = sym ((==_iff b startchar).0 same) in
        rw same (
          feed_bytes-cons st startchar (0 ∷ rest)
          ∙ ap (λ m. resume m (0 ∷ rest)) (feed_byte-startchar st)
          ∙ emit_nil (feed_bytes enabled begun (0 ∷ rest))
          ∙ feed_bytes-cons begun 0 rest
          ∙ ap (λ m. resume m rest) (feed_byte_literal st e w)
          ∙ ap (λ c. resume (collect enabled st.rcv_state st c) rest) is_start)
    | inr other ↦
        let ne : b ≢ startchar = (λ same. cc ((==_iff b startchar).1 same)) in
        rw other
          (feed_bytes-cons st b rest ∙ ap (λ m. resume m rest) (feed_byte_plain st b e small ne))
  ]

  -- The state after one more byte of data.
  abbrev pub with_byte : DeframeState → ℕ → DeframeState
  with_byte st x = record st { input_buffer = st.input_buffer ++ (x ∷ []) }

  pub collect_more :
      (st : DeframeState) (x : ℕ)
      → st.rcv_state ≡ wait_data
      → length st.input_buffer + 1 < st.msglength
      → collect enabled st.rcv_state st x ≡ ok (with_byte st x, [])
  unfolding collect
  collect_more st x r len = rw r (ground (arith, length-append st.input_buffer (x ∷ [])))

  collect_last :
      (st : DeframeState) (x : ℕ)
      → st.rcv_state ≡ wait_data
      → length st.input_buffer + 1 ≡ st.msglength
      → collect enabled st.rcv_state st x ≡ end_data (with_byte st x)
  unfolding collect
  collect_last st x r len =
      let full : (length (st.input_buffer ++ (x ∷ [])) == st.msglength) ≡ true =
        (==_iff _ _).1 (omega (arith, length-append st.input_buffer (x ∷ []))) in
      rw r (rw full)

  -- The data and checksum bytes of a frame, up to the last one, which completes the message.
  pub feed-escape_data :
      (xs : Bytes) (x : ℕ) (st : DeframeState) (rest : Bytes)
      → st.escaping ≡ false
      → st.warned_wait_start ≡ false
      → st.rcv_state ≡ wait_data
      → IsBytes (x ∷ xs)
      → length st.input_buffer + length (x ∷ xs) ≡ st.msglength
      → feed_bytes enabled st (escape (x ∷ xs) ++ rest)
        ≡ resume (end_data (record st { input_buffer = st.input_buffer ++ (x ∷ xs) })) rest
  feed-escape_data [] x st rest e w r small len = rw (append-nil (escape_byte x)) (
      feed-escape_byte st x rest e w small.0
      ∙ ap (λ m. resume m rest) (collect_last st x r (omega arith)))
  feed-escape_data (y ∷ ys) x st rest e w r small len =
      let tail = escape (y ∷ ys) ++ rest in
      let enough = length-append st.input_buffer (x ∷ []) in
      rw (append_assoc (escape_byte x) (escape (y ∷ ys)) rest) (
        feed-escape_byte st x tail e w small.0
        ∙ ap (λ m. resume m tail) (collect_more st x r (omega arith))
        ∙ emit_nil (feed_bytes enabled (with_byte st x) tail)
        ∙ feed-escape_data ys y (with_byte st x) rest e w r small.1 (omega arith)
        ∙ rw (append_assoc st.input_buffer (x ∷ []) (y ∷ ys)))

  pub feed-escape_all :
      (zs : Bytes) (st : DeframeState) (rest : Bytes)
      → st.escaping ≡ false
      → st.warned_wait_start ≡ false
      → st.rcv_state ≡ wait_data
      → IsBytes zs
      → 0 < length zs
      → length st.input_buffer + length zs ≡ st.msglength
      → feed_bytes enabled st (escape zs ++ rest)
        ≡ resume (end_data (record st { input_buffer = st.input_buffer ++ zs })) rest
  feed-escape_all [] st rest e w r small some_left len = elim some_left [ ]
  feed-escape_all (x ∷ xs) st rest e w r small some_left len =
      feed-escape_data xs x st rest e w r small len
