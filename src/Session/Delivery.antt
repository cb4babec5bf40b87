-- ===== src/Session/Delivery.antt =====
-- A message sent by one session and received by another with the same key.
use mathlib.Core.List.{flatten}
use elke.Base.{
  ℕ, ◌+◌, ◌%◌, ◌^◌, ◌≤◌, ◌<◌, ◌≡◌, ◌≢◌, refl, ap, ◌∙◌, Bool, true, some, List, [], ◌∷◌, map,
  append-nil, arith, ge→ltb, length, drop,
}
use elke.Base.Bytes.{Bytes, IsBytes}
use elke.Base.Result.{Result, ok}
use elke.Framing.{DeframeState, LogLevel, framed}
use elke.Framing.RoundTrip.{IsProtocol, wire, frame_build-wire}
use elke.Framing.Stream.{Sendable, delivered, build_all, deframe_chunks-build_all}
use elke.Presentation.{AesCbc, E27DecryptedEnvelope, api_link_iv, decrypt_schema0_envelope, byte_at}
use elke.Presentation.Layout.{opened}
use elke.Presentation.RoundTrip.{
  padding, Accepted, ciphertext, encrypt_schema0_envelope_lem, decrypt_schema0_envelope-ciphertext,
  ciphertext-IsBytes, length-ciphertext,
}
use elke.Session.State.{Session, SessionInfo, SessionError}
use elke.Session.Codec.{
  is_ready, encode_json, encode_with, encode_ready, recv_ready, open_with, open_received, recv_json,
  Read, chunk, good_frames, pump_frames, recv_one_frame, open_frame,
}
use elke.Session.Pump.{pump_frames-first}

-- Two sessions that can talk: both connected, with one key of 16 bytes, the receiver between
-- frames and with the limits of `DeframeState()`.
pub record Linked (sender receiver : Session) (sent : SessionInfo) (st : DeframeState)
    : Type 0 where
  pub sender_ready : is_ready sender ≡ true
  pub receiver_ready : is_ready receiver ≡ true
  pub sender_info : sender.info ≡ some sent
  pub receiver_info : receiver.info ≡ some sent
  pub key_16 : length sent.session_key ≡ 16
  pub seq_32 : sender.tx_envelope_seq < 2 ^ 32
  pub receiving : receiver.deframe_state ≡ some st
  pub nothing_pending : receiver.pending_frames ≡ []
  pub least : st.min_message_size ≡ 5
  pub most : st.data_bus_in_buffer_size ≡ 4096

module _ (aes : AesCbc) (enabled : LogLevel → Bool) {sender receiver : Session} {sent : SessionInfo}
    {st : DeframeState} (link : Linked sender receiver sent st) (payload : Bytes)
    (small : IsBytes payload) where
  open link use {key_16, seq_32}

  -- The arguments that `_encode_json` passes on are in range.
  pub accepted : Accepted sent.session_key api_link_iv 1 0 0 sender.tx_envelope_seq
  accepted = record {
    key_16 = key_16;
    iv_16 = refl;
    src_byte = omega arith;
    dest_byte = omega arith;
    head_byte = omega arith;
    seq_32 = seq_32;
  }

  abbrev pub pad : ℕ
  pad = padding (length payload)

  abbrev pub ct : Bytes
  ct = ciphertext aes sent.session_key api_link_iv sender.tx_envelope_seq 1 0 0 payload

  pub length-ct : length ct ≡ length payload + pad + 9
  length-ct = length-ciphertext aes accepted payload

  pub protocol : IsProtocol (0x80 + pad)
  protocol = (omega arith, omega arith, λ e. absurd (omega arith))

  pub encode_json-wire : (encode_json aes sender payload).1 ≡ ok (wire (0x80 + pad) ct)
  unfolding encode_json encode_with
  encode_json-wire = rw link.sender_ready (
      ap (λ i. (encode_ready aes sender i payload).1) link.sender_info
      ∙ rw (encrypt_schema0_envelope_lem aes accepted payload, encode_ready, encode_with)
          (rw (frame_build-wire (0x80 + pad) ct protocol.1, encode_with) refl))

  open_frame-ok :
      (s : Session) (bs : Bytes) (env : E27DecryptedEnvelope)
      → s.info ≡ some sent
      → 3 ≤ length bs
      → decrypt_schema0_envelope aes (byte_at bs 0) (drop 3 bs) sent.session_key api_link_iv true
        ≡ ok env
      → (open_frame aes s bs).1 ≡ ok env
  unfolding open_frame
  open_frame-ok s bs env e long d =
      rw (ge→ltb (length bs) 3 long) (ap (λ i. (open_with aes s i bs).1) e ∙ rw (d, open_with) refl)

  open_frame-ct :
      (s : Session)
      → s.info ≡ some sent
      → (open_frame aes s (framed (0x80 + pad) ct)).1
        ≡ ok (opened sender.tx_envelope_seq 1 0 0 payload pad)
  open_frame-ct s e =
      let same : (0x80 + pad) % 256 ≡ 0x80 + pad = omega arith in
      open_frame-ok s (framed (0x80 + pad) ct) (opened sender.tx_envelope_seq 1 0 0 payload pad) e
        (omega arith)
        (ap (λ p. decrypt_schema0_envelope aes p ct sent.session_key api_link_iv true) same
          ∙ decrypt_schema0_envelope-ciphertext aes accepted payload true)

  pub ct-IsBytes : IsBytes ct
  ct-IsBytes = ciphertext-IsBytes aes accepted payload small

  sendable : length payload ≤ 4071 → length payload % 256 ≢ 114 → Sendable st (0x80 + pad) ct
  sendable short other = record {
    protocol = protocol;
    bytes = ct-IsBytes;
    admitted = omega (arith, length-ct);
    no_duplicate = λ e. other (omega (arith, length-ct));
  }

  pub received :
      (reads : List Read) (f : Bytes)
      → (st' : DeframeState) × (pending : List Bytes) × (pump_frames enabled st [] reads
          ≡ (st', pending, ok f))
      → (s : Session) × (recv_one_frame enabled receiver reads ≡ (s, ok f)) × (s.info ≡ some sent)
  unfolding recv_one_frame
  received reads f (st', pending, e) = (
    record receiver { deframe_state = some st'; pending_frames = pending },
    rw link.receiver_ready (
        ap (λ d. recv_ready enabled receiver d reads) link.receiving
        ∙ ap (λ p. fed p) link.nothing_pending
        ∙ rw e),
    link.receiver_info,
  )
    where
      fed : List Bytes → Session × Result SessionError Bytes
      fed p =
          let (st₁, pending₁, r) = pump_frames enabled st p reads in
          (record receiver { deframe_state = some st₁; pending_frames = pending₁ }, r)

  good_frames-delivered :
      good_frames (delivered ((0x80 + pad, ct) ∷ [])) ≡ framed (0x80 + pad) ct ∷ []
  unfolding good_frames
  good_frames-delivered = refl

  opened_json :
      (reads : List Read)
      → ((s : Session) × (recv_one_frame enabled receiver reads ≡ (s, ok (framed (0x80 + pad) ct)))
          × (s.info ≡ some sent))
      → (recv_json aes enabled receiver reads).1
        ≡ ok (opened sender.tx_envelope_seq 1 0 0 payload pad)
  unfolding recv_json
  opened_json reads (s, e, i) = ap (λ r. (open_received aes r).1) e ∙ open_frame-ct s i

  one_frame :
      (chunks : List Bytes)
      → length payload ≤ 4071
      → length payload % 256 ≢ 114
      → wire (0x80 + pad) ct ≡ flatten chunks
      → (recv_json aes enabled receiver (map chunk chunks)).1
        ≡ ok (opened sender.tx_envelope_seq 1 0 0 payload pad)
  one_frame chunks short other e =
      let built : build_all ((0x80 + pad, ct) ∷ []) ≡ ok (flatten chunks) =
        rw (frame_build-wire (0x80 + pad) ct protocol.1)
          (rw (append-nil (wire (0x80 + pad) ct)) (ap ok e)) in
      opened_json (map chunk chunks) (
        received (map chunk chunks) (framed (0x80 + pad) ct) (
          pump_frames-first enabled chunks st (delivered ((0x80 + pad, ct) ∷ []))
            (framed (0x80 + pad) ct) []
            (deframe_chunks-build_all enabled st ((0x80 + pad, ct) ∷ []) chunks
              (sendable short other, tt) built)
            good_frames-delivered))

-- A payload of at most 4071 bytes whose length is not 114 modulo 256 goes through: `_encode_json`
-- of a ready session returns its wire bytes, and however those are cut into reads, `recv_json` of
-- a ready session with the same key, between frames, returns the payload with the sender's
-- envelope sequence number, source 1, destination 0 and head 0.
pub recv_json-encode_json :
    (aes : AesCbc) (enabled : LogLevel → Bool) {sender receiver : Session} {sent : SessionInfo}
    {st : DeframeState}
    → Linked sender receiver sent st
    → (payload : Bytes) → IsBytes payload
    → length payload ≤ 4071
    → length payload % 256 ≢ 114
    → (w : Bytes) × ((encode_json aes sender payload).1 ≡ ok w)
      × ((chunks : List Bytes)
          → w ≡ flatten chunks
          → (recv_json aes enabled receiver (map chunk chunks)).1
            ≡ ok (opened sender.tx_envelope_seq 1 0 0 payload (padding (length payload))))
recv_json-encode_json aes enabled link payload small short other = (
  wire (0x80 + pad aes enabled link payload small) (ct aes enabled link payload small),
  encode_json-wire aes enabled link payload small,
  λ chunks. one_frame aes enabled link payload small chunks short other,
)
