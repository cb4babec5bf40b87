-- ===== src/Framing/RoundTrip.antt =====
-- A frame on the wire, received from any state of the deframer.
use elke.Base.{
  ℕ, suc, ◌+◌, ◌-◌, ◌*◌, ◌/◌, ◌%◌, ◌^◌, ◌<◌, ◌≤◌, ◌≡◌, ◌≢◌, refl, sym, ap, ◌∙◌, Bool, true, false,
  [], ◌∷◌, ◌++◌, append-nil, append_assoc, arith, ◌==◌, if◌then◌else◌, Bool-cases, ==_iff, length,
  length-append, take-append, get_elem?-append, ltb, ge→ltb, ne→==_false, inl, inr,
}
use elke.Base.Bits.{bit_or-byte}
use elke.Base.Bytes.{Bytes, IsBytes, IsBytes-append}
use elke.Base.Result.{ok}
use elke.Util.Crc.{crc16, calculate_crc16_checksum, calculate_crc16_checksum-crc16}
use elke.Framing.{
  startchar, wait_length, wait_data, bad_crc, DeframeResult, frame, failure, DeframeState,
  reset_to_wait_start, LogLevel, escape, escape_byte, framed, frame_build, item, item_back,
}
use elke.Framing.Deframe.{started, collect, end_data, end_message, feed_byte, feed_bytes}
use elke.Framing.Escape.{
  emit, emit_nil, resume, feed_bytes-cons, feed_byte-startchar, feed-escape_byte, feed-escape_all,
  escape-append,
}

-- What a complete message becomes, from its body and the checksum that came with it.
abbrev pub verdict : Bytes → ℕ → ℕ → DeframeResult
verdict body lo hi = if crc16 body == lo + hi * 256 then frame body else failure bad_crc

-- The state after a complete message.
abbrev pub finished : DeframeState → Bytes → ℕ → ℕ → DeframeState
finished st body lo hi =
    reset_to_wait_start
      (record st { seen_frame = if crc16 body == lo + hi * 256 then true else st.seen_frame })

item_back-append :
    (before : Bytes) (b : ℕ) (after : Bytes) (n : ℕ)
    → suc (length after) ≡ n
    → item_back (before ++ (b ∷ after)) n ≡ ok b
item_back-append before b after n e =
    let len = length-append before (b ∷ after) in
    let long : ltb (length (before ++ (b ∷ after))) n ≡ false = ge→ltb _ _ (omega arith) in
    let at : length (before ++ (b ∷ after)) - n ≡ length before = omega arith in
    rw long (rw at (rw (get_elem?-append before b after, item)))

end_message_lem :
    (st : DeframeState) (body : Bytes) (lo hi : ℕ)
    → lo < 256
    → end_message st (body ++ (lo ∷ hi ∷ [])) ≡ ok (finished st body lo hi, verdict body lo hi ∷ [])
unfolding end_message
end_message_lem st body lo hi small =
    let len : length (body ++ (lo ∷ hi ∷ [])) - 2 ≡ length body =
      omega (arith, length-append body (lo ∷ hi ∷ [])) in
    let back2 : item_back (body ++ (lo ∷ hi ∷ [])) 2 ≡ ok lo =
      item_back-append body lo (hi ∷ []) 2 refl in
    let back1 : item_back (body ++ (lo ∷ hi ∷ [])) 1 ≡ ok hi =
      rw (append_assoc body (lo ∷ []) (hi ∷ [])) at
        (item_back-append (body ++ (lo ∷ [])) hi [] 1 refl) in
    rw back2 (
      rw back1 (
        rw len (
          rw (calculate_crc16_checksum-crc16 body (lo ∷ hi ∷ [])) (
            rw (bit_or-byte lo hi small) (
              rw (take-append body (lo ∷ hi ∷ []))
                (elim (Bool-cases (crc16 body == lo + hi * 256)) [
                  | inl e ↦ rw e
                  | inr e ↦ rw e
                ]))))))

-- The message length that a frame of `n` data bytes announces.
abbrev pub message_length : ℕ → ℕ
message_length n = 1 + 2 + n + 2

-- A protocol byte that can start a frame.
abbrev pub IsProtocol : ℕ → Type 0
IsProtocol p = (0 < p) × (p < 256) × (p ≢ startchar)

-- The state's limits admit a message of this length, and the length fits its two bytes.
abbrev pub Admits : DeframeState → ℕ → Type 0
Admits st n = (st.min_message_size ≤ n) × (n ≤ st.data_bus_in_buffer_size) × (n < 2 ^ 16)

-- The protocol byte, the length and what follows them, as they stand on the wire.
pub wire_split :
    (p a b : ℕ) (zs rest : Bytes)
    → IsProtocol p
    → escape (p ∷ a ∷ b ∷ zs) ++ rest ≡ p ∷ (escape (a ∷ b ∷ []) ++ (escape zs ++ rest))
wire_split p a b zs rest proto =
    let plain : p == startchar ≡ false = ne→==_false p startchar proto.2 in
    rw plain (
      ap (◌∷◌ p) (
        ap (λ w. w ++ rest) (escape-append (a ∷ b ∷ []) zs)
        ∙ append_assoc (escape (a ∷ b ∷ [])) (escape zs) rest))

module _ (enabled : LogLevel → Bool) where
  -- STARTCHAR and a protocol byte start a frame, whatever the state was.
  pub feed_start :
      (st : DeframeState) (p : ℕ) (rest : Bytes)
      → IsProtocol p
      → feed_bytes enabled st (startchar ∷ p ∷ rest)
        ≡ feed_bytes enabled
            (started enabled (record st { escaping = true; warned_wait_start = false }) p)
            rest
  feed_start st p rest h =
      let begun = record st { escaping = true; warned_wait_start = false } in
      feed_bytes-cons enabled st startchar (p ∷ rest)
      ∙ ap (λ m. resume enabled m (p ∷ rest)) (feed_byte-startchar enabled st)
      ∙ emit_nil (feed_bytes enabled begun (p ∷ rest))
      ∙ feed_bytes-cons enabled begun p rest
      ∙ ap (λ m. resume enabled m rest) (feed_byte_protocol begun)
      ∙ emit_nil (feed_bytes enabled (started enabled begun p) rest)
    where
      feed_byte_protocol :
          (t : DeframeState)
          → feed_byte enabled (record t { escaping = true }) p
            ≡ ok (started enabled (record t { escaping = true }) p, [])
      feed_byte_protocol t = unfold feed_byte in ground arith

  -- The state between a protocol byte and the data, from that behind the protocol byte.
  abbrev pub with_length : DeframeState → ℕ → ℕ → ℕ → DeframeState
  with_length st p lo hi = record st {
    input_buffer = p ∷ lo ∷ hi ∷ [];
    just_resynced = false;
    msglength = lo + hi * 256;
    rcv_state = wait_data;
  }

  pub collect_lo :
      (st : DeframeState) (p lo : ℕ)
      → st.rcv_state ≡ wait_length
      → st.input_buffer ≡ p ∷ []
      → lo ≢ p
      → collect enabled st.rcv_state st lo
        ≡ ok (record st { input_buffer = p ∷ lo ∷ []; just_resynced = false }, [])
  unfolding collect
  collect_lo st p lo r buf ne = rw r (rw buf (ground arith))

  pub collect_hi :
      (st : DeframeState) (p lo hi : ℕ)
      → st.rcv_state ≡ wait_length
      → st.input_buffer ≡ p ∷ lo ∷ []
      → st.just_resynced ≡ false
      → lo < 256
      → Admits st (lo + hi * 256)
      → collect enabled st.rcv_state st hi ≡ ok (with_length st p lo hi, [])
  unfolding collect
  collect_hi st p lo hi r buf j small h =
      rw r (rw buf (rw (bit_or-byte lo hi small) (ground arith)))

  -- The two length bytes behind the protocol byte.
  feed_length :
      (st : DeframeState) (p lo hi : ℕ) (rest : Bytes)
      → st.escaping ≡ false
      → st.warned_wait_start ≡ false
      → st.rcv_state ≡ wait_length
      → st.input_buffer ≡ p ∷ []
      → lo ≢ p
      → lo < 256
      → hi < 256
      → Admits st (lo + hi * 256)
      → feed_bytes enabled st (escape (lo ∷ hi ∷ []) ++ rest)
        ≡ feed_bytes enabled (with_length st p lo hi) rest
  feed_length st p lo hi rest e w r buf ne small small' h =
      let st' = record st { input_buffer = p ∷ lo ∷ []; just_resynced = false } in
      let tail = escape_byte hi ++ rest in
      rw (append-nil (escape_byte hi)) (
        rw (append_assoc (escape_byte lo) (escape_byte hi) rest) (
          feed-escape_byte enabled st lo tail e w small
          ∙ ap (λ m. resume enabled m tail) (collect_lo st p lo r buf ne)
          ∙ emit_nil (feed_bytes enabled st' tail)
          ∙ feed-escape_byte enabled st' hi rest e w small'
          ∙ ap (λ m. resume enabled m rest) (collect_hi st' p lo hi r refl refl small h)
          ∙ emit_nil (feed_bytes enabled (with_length st p lo hi) rest)))

  -- The data and the checksum behind a header that was accepted.
  feed_body :
      (st : DeframeState) (data_frame : Bytes) (lo hi : ℕ) (rest : Bytes)
      → st.escaping ≡ false
      → st.warned_wait_start ≡ false
      → st.rcv_state ≡ wait_data
      → IsBytes data_frame
      → lo < 256
      → hi < 256
      → length st.input_buffer + length data_frame + 2 ≡ st.msglength
      → let body = st.input_buffer ++ data_frame in
        feed_bytes enabled st (escape (data_frame ++ (lo ∷ hi ∷ [])) ++ rest)
        ≡ emit (verdict body lo hi ∷ []) (feed_bytes enabled (finished st body lo hi) rest)
  feed_body st data_frame lo hi rest e w r small lo_small hi_small len =
      let sent = length-append data_frame (lo ∷ hi ∷ []) in
      let bytes = IsBytes-append data_frame (lo ∷ hi ∷ []) small (lo_small, (hi_small, tt)) in
      let full = record st { input_buffer = st.input_buffer ++ (data_frame ++ (lo ∷ hi ∷ [])) } in
      let body = st.input_buffer ++ data_frame in
      let ended : end_data full ≡ ok (finished st body lo hi, verdict body lo hi ∷ []) =
        ap (end_message full) (sym (append_assoc st.input_buffer data_frame (lo ∷ hi ∷ [])))
        ∙ end_message_lem full body lo hi lo_small in
      feed-escape_all enabled (data_frame ++ (lo ∷ hi ∷ [])) st rest e w r bytes (omega arith)
        (omega arith)
      ∙ ap (λ m. resume enabled m rest) ended

  -- A frame on the wire with any two checksum bytes, from any state, with any bytes behind it.
  pub feed_wire :
      (st : DeframeState) (p : ℕ) (data_frame : Bytes) (lo hi : ℕ) (rest : Bytes)
      → IsProtocol p
      → IsBytes data_frame
      → Admits st (message_length (length data_frame))
      → message_length (length data_frame) % 256 ≢ p
      → lo < 256
      → hi < 256
      → let body = framed p data_frame in
        feed_bytes enabled st (startchar ∷ (escape (body ++ (lo ∷ hi ∷ [])) ++ rest))
        ≡ emit (verdict body lo hi ∷ []) (feed_bytes enabled (finished st body lo hi) rest)
  feed_wire st p data_frame lo hi rest proto small admits ne lo_small hi_small =
      let n = message_length (length data_frame) in
      let begun = record st { escaping = true; warned_wait_start = false } in
      let header = started enabled begun p in
      let tail = escape (data_frame ++ (lo ∷ hi ∷ [])) ++ rest in
      let ready = with_length header p (n % 256) (n / 256 % 256) in
      let same : p % 256 ≡ p = omega (arith, proto.1) in
      let whole : n % 256 + n / 256 % 256 * 256 ≡ n = omega (arith, admits.2) in
      rw same (
        ap (λ w. feed_bytes enabled st (startchar ∷ w))
          (wire_split p (n % 256) (n / 256 % 256) (data_frame ++ (lo ∷ hi ∷ [])) rest proto)
        ∙ feed_start st p (escape (n % 256 ∷ n / 256 % 256 ∷ []) ++ tail) proto
        ∙ feed_length header p (n % 256) (n / 256 % 256) tail refl refl refl refl ne (omega arith)
            (omega arith) (rw whole admits)
        ∙ feed_body ready data_frame lo hi rest refl refl refl small lo_small hi_small
            (omega arith))

-- What `frame_build` puts on the wire.
abbrev pub wire : ℕ → Bytes → Bytes
wire p data_frame =
    let body = framed p data_frame in
    startchar ∷ escape (body ++ (crc16 body % 256 ∷ crc16 body / 256 % 256 ∷ []))

pub frame_build-wire :
    (p : ℕ) (data_frame : Bytes) → p < 256 → frame_build p data_frame ≡ ok (wire p data_frame)
unfolding frame_build
frame_build-wire p data_frame h =
    let body = framed p data_frame in
    let crc : calculate_crc16_checksum 0 body 0 (length body) ≡ ok (crc16 body) =
      ap (λ bs. calculate_crc16_checksum 0 bs 0 (length body)) (sym (append-nil body))
      ∙ calculate_crc16_checksum-crc16 body [] in
    rw (ge→ltb 255 p (omega arith)) (rw crc)

-- The state of the receiver behind a good frame.
abbrev pub ready : DeframeState → DeframeState
ready st = reset_to_wait_start (record st { seen_frame = true })

-- The frame is the only result, and the state before it is forgotten.
pub feed-frame_build :
    (enabled : LogLevel → Bool) (st : DeframeState) (p : ℕ) (data_frame rest : Bytes)
    → IsProtocol p
    → IsBytes data_frame
    → Admits st (message_length (length data_frame))
    → message_length (length data_frame) % 256 ≢ p
    → feed_bytes enabled st (wire p data_frame ++ rest)
      ≡ emit (frame (framed p data_frame) ∷ []) (feed_bytes enabled (ready st) rest)
feed-frame_build enabled st p data_frame rest proto small admits ne =
    let c = crc16 (framed p data_frame) in
    let good : c == c % 256 + c / 256 % 256 * 256 ≡ true = (==_iff c _).1 (omega arith) in
    rw good at (
      feed_wire enabled st p data_frame (c % 256) (c / 256 % 256) rest proto small admits ne
        (omega arith) (omega arith))
