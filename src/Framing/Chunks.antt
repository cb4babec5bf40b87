-- ===== src/Framing/Chunks.antt =====
-- The deframer on a stream that arrives in pieces, and with any logger.
use elke.Base.{
  ℕ, ◌%◌, ◌≡◌, refl, sym, ap, ◌∙◌, Bool, false, List, [], ◌∷◌, ◌++◌, arith, if◌then◌else◌,
}
use mathlib.Core.List.{flatten}
use elke.Base.Bytes.{Bytes}
use elke.Base.Result.{ok, err, ◌>>=◌}
use elke.Framing.{
  startchar, FrameStates, wait_start, wait_length, wait_data, DeframeResult, DeframeState, LogLevel,
  Step,
}
use elke.Framing.Deframe.{collect, end_message, feed_byte, feed_bytes, deframe_feed, warn_chunk}
use elke.Framing.Escape.{emit, emit_nil, emit-emit}

-- A state without the flags that throttle the log.
abbrev pub erase : DeframeState → DeframeState
erase st = record st { warned_wait_start = false; warned_resync = false }

abbrev pub erase_step : Step → Step
erase_step (ok (st, rs)) = ok (erase st, rs)
erase_step (err e) = err e

end_message-erase :
    (st : DeframeState) (buf : Bytes)
    → erase_step (end_message st buf) ≡ erase_step (end_message (erase st) buf)
unfolding end_message
end_message-erase st buf = ground arith

module _ (enabled enabled' : LogLevel → Bool) where
  collect-erase :
      (r : FrameStates) (st : DeframeState) (b : ℕ)
      → erase_step (collect enabled r st b) ≡ erase_step (collect enabled' r (erase st) b)
  unfolding collect
  collect-erase wait_start st b = refl
  collect-erase wait_length st b = ground arith
  collect-erase wait_data st b = ground (
    arith,
    end_message-erase (record st { input_buffer = st.input_buffer ++ (b ∷ []) })
        (st.input_buffer ++ (b ∷ [])),
  )

  feed_byte-erase :
      (st : DeframeState) (b : ℕ)
      → erase_step (feed_byte enabled st b) ≡ erase_step (feed_byte enabled' (erase st) b)
  unfolding feed_byte
  feed_byte-erase st b = ground (
    arith,
    collect-erase st.rcv_state (record st { escaping = false })
        (if st.escaping then startchar else b % 256),
  )

feed_byte_erase₂ :
    (enabled enabled' : LogLevel → Bool) (st st' : DeframeState) (b : ℕ)
    → erase st ≡ erase st'
    → erase_step (feed_byte enabled st b) ≡ erase_step (feed_byte enabled' st' b)
feed_byte_erase₂ enabled enabled' st st' b e =
    feed_byte-erase enabled enabled st b
    ∙ ap (λ s. erase_step (feed_byte enabled s b)) e
    ∙ sym (feed_byte-erase enabled' enabled st' b)

-- Two steps that agree but for the flags, and what follows them.
erase-resume :
    (k k' : DeframeState → Step) (m m' : Step)
    → erase_step m ≡ erase_step m'
    → ((s s' : DeframeState) → erase s ≡ erase s' → erase_step (k s) ≡ erase_step (k' s'))
    → erase_step (m >>= λ (s, now). emit now (k s))
      ≡ erase_step (m' >>= λ (s, now). emit now (k' s))
erase-resume k k' (ok (s, now)) (ok (s', now')) e h = emit_erase (k s) (k' s') (h s s' (cc))
  where
    emit_erase :
        (n n' : Step)
        → erase_step n ≡ erase_step n'
        → erase_step (emit now n) ≡ erase_step (emit now' n')
    emit_erase (ok (t, later)) (ok (t', later')) d = cc
    emit_erase (ok _) (err _) d = cc
    emit_erase (err _) (ok _) d = cc
    emit_erase (err x) (err y) d = d
erase-resume k k' (ok _) (err _) e h = cc
erase-resume k k' (err _) (ok _) e h = cc
erase-resume k k' (err x) (err y) e h = e

pub feed_bytes-erase :
    (enabled enabled' : LogLevel → Bool) (bs : Bytes) (st st' : DeframeState)
    → erase st ≡ erase st'
    → erase_step (feed_bytes enabled st bs) ≡ erase_step (feed_bytes enabled' st' bs)
unfolding feed_bytes
feed_bytes-erase enabled enabled' [] st st' e = ap (λ s. ok (s, [])) e
feed_bytes-erase enabled enabled' (b ∷ bs) st st' e =
    erase-resume (λ s. feed_bytes enabled s bs) (λ s. feed_bytes enabled' s bs)
      (feed_byte enabled st b) (feed_byte enabled' st' b)
      (feed_byte_erase₂ enabled enabled' st st' b e) (feed_bytes-erase enabled enabled' bs)

erase-warn_chunk : (st : DeframeState) (chunk : Bytes) → erase (warn_chunk st chunk) ≡ erase st
erase-warn_chunk st chunk = ground arith

-- What is received does not depend on the logger, nor on the flags that throttle it.
pub deframe_feed-erase :
    (enabled enabled' : LogLevel → Bool) (st st' : DeframeState) (chunk : Bytes)
    → erase st ≡ erase st'
    → erase_step (deframe_feed enabled st chunk) ≡ erase_step (deframe_feed enabled' st' chunk)
unfolding deframe_feed
deframe_feed-erase enabled enabled' st st' chunk e =
    feed_bytes-erase enabled enabled' chunk (warn_chunk st chunk) (warn_chunk st' chunk)
      (erase-warn_chunk st chunk ∙ e ∙ sym (erase-warn_chunk st' chunk))

module _ (enabled : LogLevel → Bool) where
  feed_bytes-append :
      (xs ys : Bytes) (st : DeframeState)
      → feed_bytes enabled st (xs ++ ys)
        ≡ (feed_bytes enabled st xs >>= λ (s, now). emit now (feed_bytes enabled s ys))
  unfolding feed_bytes
  feed_bytes-append [] ys st = sym (emit_nil (feed_bytes enabled st ys))
  feed_bytes-append (x ∷ xs) ys st = go (feed_bytes-append xs ys) (feed_byte enabled st x)
    where
      inner :
          (now : List DeframeResult) (m : Step)
          → emit now (m >>= λ (s, mid). emit mid (feed_bytes enabled s ys))
            ≡ (emit now m >>= λ (s, mid). emit mid (feed_bytes enabled s ys))
      inner now (ok (s, mid)) = emit-emit now mid (feed_bytes enabled s ys)
      inner now (err e) = refl

      go :
          ((s : DeframeState)
            → feed_bytes enabled s (xs ++ ys)
              ≡ (feed_bytes enabled s xs >>= λ (t, mid). emit mid (feed_bytes enabled t ys)))
          → (m : Step)
          → (m >>= λ (s, now). emit now (feed_bytes enabled s (xs ++ ys))) ≡ (
              (m >>= λ (s, now). emit now (feed_bytes enabled s xs)) >>= λ (s, now).
              emit now (feed_bytes enabled s ys))
      go ih (ok (s, now)) = ap (emit now) (ih s) ∙ inner now (feed_bytes enabled s xs)
      go ih (err e) = refl

  -- Successive calls, one for each chunk that the socket hands over.
  unfoldable pub deframe_chunks : DeframeState → List Bytes → Step
  deframe_chunks st [] = ok (st, [])
  deframe_chunks st (chunk ∷ chunks) = do
    (st', now) ← deframe_feed enabled st chunk
    emit now (deframe_chunks st' chunks)

  pub deframe_chunks_bytes :
      (chunks : List Bytes) (st st' : DeframeState)
      → erase st ≡ erase st'
      → erase_step (deframe_chunks st chunks) ≡ erase_step (feed_bytes enabled st' (flatten chunks))
  unfolding deframe_chunks flatten
  deframe_chunks_bytes [] st st' e = unfold feed_bytes in ap (λ s. ok (s, [])) e
  deframe_chunks_bytes (chunk ∷ chunks) st st' e =
      erase-resume (λ s. deframe_chunks s chunks) (λ s. feed_bytes enabled s (flatten chunks))
        (deframe_feed enabled st chunk) (feed_bytes enabled st' chunk)
        (unfold deframe_feed in
          feed_bytes-erase enabled enabled chunk (warn_chunk st chunk) st'
            (erase-warn_chunk st chunk ∙ e))
        (deframe_chunks_bytes chunks)
      ∙ ap erase_step (sym (feed_bytes-append chunk (flatten chunks) st'))

  -- How a stream is cut into chunks makes no difference to the results, to an exception or to the
  -- state, the two flags that throttle its log records apart.
  pub deframe_chunks-flatten :
      (chunks : List Bytes) (st : DeframeState)
      → erase_step (deframe_chunks st chunks)
        ≡ erase_step (deframe_feed enabled st (flatten chunks))
  unfolding deframe_feed
  deframe_chunks-flatten chunks st =
      deframe_chunks_bytes chunks st (warn_chunk st (flatten chunks))
        (sym (erase-warn_chunk st (flatten chunks)))
