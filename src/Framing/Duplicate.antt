-- ===== src/Framing/Duplicate.antt =====
-- The rule of `deframe_feed` that skips a byte equal to the protocol byte right behind it. The low
-- byte of the length stands there, so a message of that length is lost.
use elke.Base.{
  ℕ, ◌+◌, ◌*◌, ◌/◌, ◌%◌, ◌^◌, ◌<◌, ◌≤◌, ◌≡◌, refl, sym, ap, subst, ◌∙◌, Bool, true, false, List, [],
  ◌∷◌, ◌++◌, arith, ◌==◌, if◌then◌else◌, length, length-append, ◌⊎◌, inl, inr, ne→==_false, not,
  ◌&&◌,
}
use elke.Base.Bits.{bit_or-byte}
use elke.Base.Bytes.{Bytes, IsBytes, IsBytes-append}
use elke.Base.Result.{ok, err, ◌>>=◌}
use elke.Util.Crc.{crc16}
use elke.Framing.{
  startchar, wait_start, wait_length, wait_data, RxErrorType, framing_error, overflow,
  DeframeResult, frame, failure, DeframeState, LogLevel, Step, escape, escape_byte, framed,
  frame_build, discard_log_level, reset_to_wait_start,
}
use elke.Framing.Deframe.{started, collect, feed_bytes, deframe_feed, warn_chunk}
use elke.Framing.Escape.{emit, emit_nil, resume, feed-escape_byte, with_byte, collect_more}
use elke.Framing.Chunks.{erase_step, feed_bytes-erase}
use elke.Framing.RoundTrip.{
  IsProtocol, message_length, collect_lo, collect_hi, with_length, wire, frame_build-wire,
  feed_start,
}

abbrev pub AllFailures : List DeframeResult → Type 0
AllFailures [] = Unit
AllFailures (frame _ ∷ rs) = ⊥
AllFailures (failure _ ∷ rs) = AllFailures rs

-- The call returns, and delivers no frame.
abbrev pub NoFrame : Step → Type 0
NoFrame (ok (_, rs)) = AllFailures rs
NoFrame (err _) = ⊥

NoFrame-erase : (m m' : Step) → erase_step m ≡ erase_step m' → NoFrame m' → NoFrame m
NoFrame-erase (ok (s, rs)) (ok (s', rs')) e h = subst AllFailures (ap later (sym e)) h
  where
    later : Step → List DeframeResult
    later (ok (_, xs)) = xs
    later (err _) = []
NoFrame-erase (ok _) (err _) e h = elim h [ ]
NoFrame-erase (err _) (ok _) e h = cc
NoFrame-erase (err _) (err _) e h = h

NoFrame-emit : (r : RxErrorType) (m : Step) → NoFrame m → NoFrame (emit (failure r ∷ []) m)
NoFrame-emit r (ok _) h = h
NoFrame-emit r (err _) h = h

module _ (enabled : LogLevel → Bool) where
  -- No frame is under way, or one that the remaining bytes cannot complete.
  abbrev Quiet : DeframeState → ℕ → Type 0
  Quiet st left =
      (st.rcv_state ≡ wait_start)
      ⊎ ((st.rcv_state ≡ wait_data) × (length st.input_buffer + left < st.msglength))

  discard_quiet :
      (st : DeframeState) (z : ℕ) (rest : Bytes)
      → NoFrame (feed_bytes enabled (record st { warned_wait_start = false }) rest)
      → NoFrame (resume enabled (collect enabled wait_start st z) rest)
  discard_quiet st z rest h =
      let warn = not st.warned_wait_start && enabled (discard_log_level st) in
      let st₁ = record st { warned_wait_start = if warn then true else st.warned_wait_start } in
      let st₂ = record st { warned_wait_start = false } in
      unfold collect in
      NoFrame-emit framing_error (feed_bytes enabled st₁ rest) (
        NoFrame-erase (feed_bytes enabled st₁ rest) (feed_bytes enabled st₂ rest)
          (feed_bytes-erase enabled enabled rest st₁ st₂ refl) h)

  feed-Quiet :
      (zs : Bytes) (st : DeframeState)
      → st.escaping ≡ false
      → st.warned_wait_start ≡ false
      → IsBytes zs
      → Quiet st (length zs)
      → NoFrame (feed_bytes enabled st (escape zs))
  feed-Quiet [] st e w small q = unfold feed_bytes in tt
  feed-Quiet (z ∷ zs) st e w small (inl r) =
      let discarded =
        discard_quiet st z (escape zs)
          (feed-Quiet zs (record st { warned_wait_start = false }) e refl small.1 (inl r)) in
      subst NoFrame
        (sym (
          feed-escape_byte enabled st z (escape zs) e w small.0
          ∙ ap (λ s. resume enabled (collect enabled s st z) (escape zs)) r))
        discarded
  feed-Quiet (z ∷ zs) st e w small (inr (r, few)) =
      let longer = length-append st.input_buffer (z ∷ []) in
      rw (feed-escape_byte enabled st z (escape zs) e w small.0) (
        rw (collect_more enabled st z r (omega arith))
          (rw emit_nil (feed-Quiet zs (with_byte enabled st z) e w small.1 (inr (r, omega arith)))))

  -- The third byte of a frame, when the length that it completes is out of the limits.
  collect_overflow :
      (st : DeframeState) (p lo hi : ℕ)
      → st.rcv_state ≡ wait_length
      → st.input_buffer ≡ p ∷ lo ∷ []
      → lo < 256
      → (lo + hi * 256 < st.min_message_size) ⊎ (st.data_bus_in_buffer_size < lo + hi * 256)
      → collect enabled st.rcv_state st hi ≡ ok (reset_to_wait_start st, failure overflow ∷ [])
  unfolding collect
  collect_overflow st p lo hi r buf small bad =
      rw r (rw buf (rw (bit_or-byte lo hi small) (ground arith)))

  -- The byte behind a zero low byte makes the length a multiple of 256.
  feed_wrong_length :
      (st : DeframeState) (p z : ℕ) (zs : Bytes)
      → st.escaping ≡ false
      → st.warned_wait_start ≡ false
      → st.rcv_state ≡ wait_length
      → st.input_buffer ≡ p ∷ 0 ∷ []
      → st.just_resynced ≡ false
      → 0 < st.min_message_size
      → st.data_bus_in_buffer_size < 2 ^ 16
      → IsBytes (z ∷ zs)
      → length (z ∷ zs) < 253
      → NoFrame (feed_bytes enabled st (escape (z ∷ zs)))
  feed_wrong_length st p z zs e w r buf j least most small few =
      rw (feed-escape_byte enabled st z (escape zs) e w small.0)
        (elim (limits (z * 256) st.min_message_size st.data_bus_in_buffer_size) [
          | inl bad ↦ rw (collect_overflow st p 0 z r buf (omega arith) (omega arith)) (
              NoFrame-emit overflow (feed_bytes enabled (reset_to_wait_start st) (escape zs))
                (feed-Quiet zs (reset_to_wait_start st) refl refl small.1 (inl refl)))
          | inr (low, high) ↦
              rw
                (collect_hi enabled st p 0 z r buf j (omega arith)
                  (omega arith, omega arith, omega arith))
                (rw emit_nil (
                  feed-Quiet zs (with_length enabled st p 0 z) e w small.1
                    (inr (refl, omega arith))))
        ])
    where
      limits : (n a b : ℕ) → ((n < a) ⊎ (b < n)) ⊎ ((a ≤ n) × (n ≤ b))
      limits n a b = omega arith

  skip :
      (st : DeframeState) (p : ℕ)
      → st.rcv_state ≡ wait_length
      → st.input_buffer ≡ p ∷ []
      → st.just_resynced ≡ true
      → collect enabled st.rcv_state st p ≡ ok (st, [])
  unfolding collect
  skip st p r buf j = rw r (rw buf (ground arith))

  -- The low length byte of the frame is skipped, whatever the state was.
  feed_skipped :
      (st : DeframeState) (p : ℕ) (zs : Bytes)
      → IsProtocol p
      → 0 < st.min_message_size
      → st.data_bus_in_buffer_size < 2 ^ 16
      → IsBytes zs
      → 0 < length zs
      → length zs < 253
      → NoFrame (feed_bytes enabled st (startchar ∷ escape (p ∷ p ∷ 0 ∷ zs)))
  feed_skipped st p [] proto least most small some_left few = elim some_left [ ]
  feed_skipped st p (z ∷ zs) proto least most small some_left few =
      let header = started enabled (record st { escaping = true; warned_wait_start = false }) p in
      let tail = escape (z ∷ zs) in
      let plain : p == startchar ≡ false = ne→==_false p startchar proto.2 in
      let one : escape_byte p ≡ p ∷ [] = rw plain in
      let low = record header { input_buffer = p ∷ 0 ∷ []; just_resynced = false } in
      let path : feed_bytes enabled st (startchar ∷ escape (p ∷ p ∷ 0 ∷ z ∷ zs))
          ≡ feed_bytes enabled low tail =
        ap (λ bs. feed_bytes enabled st (startchar ∷ (bs ++ (escape_byte p ++ (0 ∷ tail))))) one
        ∙ feed_start enabled st p (escape_byte p ++ (0 ∷ tail)) proto
        ∙ feed-escape_byte enabled header p (0 ∷ tail) refl refl proto.1
        ∙ ap (λ m. resume enabled m (0 ∷ tail)) (skip header p refl refl refl)
        ∙ emit_nil (feed_bytes enabled header (0 ∷ tail))
        ∙ feed-escape_byte enabled header 0 tail refl refl (omega arith)
        ∙ ap (λ m. resume enabled m tail)
            (collect_lo enabled header p 0 refl refl (λ same. absurd (omega (arith, proto.0))))
        ∙ emit_nil (feed_bytes enabled low tail) in
      subst NoFrame (sym path)
        (feed_wrong_length low p z zs refl refl refl refl refl least most small few)

warn_chunk-limits :
    (st : DeframeState) (chunk : Bytes)
    → ((warn_chunk st chunk).min_message_size ≡ st.min_message_size)
      × ((warn_chunk st chunk).data_bus_in_buffer_size ≡ st.data_bus_in_buffer_size)
warn_chunk-limits st chunk = (ground arith, ground arith)

-- A message whose length is the protocol byte, below 256, is lost: the deframer returns, from any
-- state with a positive lower limit and an upper limit below 65536, and delivers no frame of what
-- `frame_build` has built.
pub deframe_feed_loses :
    (enabled : LogLevel → Bool) (st : DeframeState) (p : ℕ) (data_frame : Bytes)
    → IsProtocol p
    → IsBytes data_frame
    → message_length (length data_frame) ≡ p
    → 0 < st.min_message_size
    → st.data_bus_in_buffer_size < 2 ^ 16
    → NoFrame (frame_build p data_frame >>= deframe_feed enabled st)
unfolding deframe_feed
deframe_feed_loses enabled st p data_frame proto small len least most =
    let c = crc16 (framed p data_frame) in
    let zs = data_frame ++ (c % 256 ∷ c / 256 % 256 ∷ []) in
    let count = length-append data_frame (c % 256 ∷ c / 256 % 256 ∷ []) in
    let bytes : IsBytes zs =
      IsBytes-append data_frame (c % 256 ∷ c / 256 % 256 ∷ []) small
        (omega arith, (omega arith, tt)) in
    let begun = warn_chunk st (wire p data_frame) in
    let n = message_length (length data_frame) in
    let same : p % 256 ≡ p = omega (arith, proto.1) in
    let low : n % 256 ≡ p = omega (arith, proto.1) in
    let high : n / 256 % 256 ≡ 0 = omega (arith, proto.1) in
    let shape : wire p data_frame ≡ startchar ∷ escape (p ∷ p ∷ 0 ∷ zs) =
      ap (λ a. startchar ∷ escape (a ∷ n % 256 ∷ n / 256 % 256 ∷ zs)) same
      ∙ ap (λ b. startchar ∷ escape (p ∷ b ∷ n / 256 % 256 ∷ zs)) low
      ∙ ap (λ b. startchar ∷ escape (p ∷ p ∷ b ∷ zs)) high in
    let limits = warn_chunk-limits st (wire p data_frame) in
    subst NoFrame
      (sym (
        ap (λ m. m >>= deframe_feed enabled st) (frame_build-wire p data_frame proto.1)
        ∙ ap (feed_bytes enabled begun) shape))
      (feed_skipped enabled begun p zs proto (rw limits.0 least) (rw limits.1 most) bytes
        (omega arith) (omega (arith, proto.1)))
