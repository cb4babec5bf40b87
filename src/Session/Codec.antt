-- ===== src/Session/Codec.antt =====
-- Sending and receiving in src/elke27_lib/session_thread.py: `_encode_json`, the frame pump and
-- the decryption in `recv_json`. A message is its JSON text, as bytes.
use elke.Base.{
  Bool, true, false, ◌&&◌, Option, none, some, List, [], ◌∷◌, ltb, if◌then◌else◌, length, drop,
}
use elke.Base.Bytes.{Bytes}
use elke.Base.Result.{Result, ok, err, PyError}
use elke.Framing.{DeframeResult, frame, failure, DeframeState, LogLevel, frame_build}
use elke.Framing.Deframe.{deframe_feed}
use elke.Presentation.{
  AesCbc, PresentationError, E27DecryptedEnvelope, api_link_iv, encrypt_schema0_envelope,
  decrypt_schema0_envelope, byte_at,
}
use elke.Session.State.{
  Session, SessionInfo, SessionState, active, SessionError, not_ready, io_error, protocol_error,
  timeout_error, unexpected_error, next_envelope_seq, note_rx_envelope_seq,
}

abbrev pub is_active : SessionState → Bool
is_active active = true
is_active _ = false

abbrev pub is_some {ℓ} : {A : Type ℓ} → Option A → Bool
is_some none = false
is_some (some _) = true

-- What `_require_ready` asks for.
unfoldable pub is_ready : Session → Bool
is_ready s = is_active s.state && s.sock && is_some s.info && is_some s.deframe_state

-- The errors of `_encode_json`.
pub data EncodeError : Type 0 where
  session : SessionError → EncodeError
  encryption : PresentationError → EncodeError
  framing : PyError → EncodeError

-- What one turn of the receive loop meets: bytes, a read timeout, or a failed read.
pub data Read : Type 0 where
  chunk : Bytes → Read
  quiet : Read
  broken : Read

-- The good frames among the results; the others are dropped.
unfoldable pub good_frames : List DeframeResult → List Bytes
good_frames [] = []
good_frames (frame bs ∷ rs) = bs ∷ good_frames rs
good_frames (failure _ ∷ rs) = good_frames rs

-- A decrypted envelope is noted, and any error of decryption is the session's.
abbrev pub opened_with :
    Session
    → Result PresentationError E27DecryptedEnvelope
    → Session × Result SessionError E27DecryptedEnvelope
opened_with s (err _) = (s, err protocol_error)
opened_with s (ok env) = (note_rx_envelope_seq s env.envelope_seq, ok env)

module _ (aes : AesCbc) where
  -- The envelope sequence number is used up even where the encryption then raises.
  unfoldable pub encode_with : Session → SessionInfo → Bytes → Result EncodeError Bytes
  encode_with s info payload =
      elim (encrypt_schema0_envelope aes payload info.session_key 1 0 0 s.tx_envelope_seq
        api_link_iv) [
          | err e ↦ err (encryption e)
          | ok sealed ↦ elim (frame_build sealed.0 sealed.1) [
            | err e ↦ err (framing e)
            | ok framed ↦ ok framed
          ]
        ]

  -- A ready session has its keys.
  unfoldable pub encode_ready :
      Session → Option SessionInfo → Bytes → Session × Result EncodeError Bytes
  unfolding encode_with
  encode_ready s none payload = (s, err (session not_ready))
  encode_ready s (some info) payload = (
    record s { tx_envelope_seq = next_envelope_seq s.tx_envelope_seq },
    encode_with s info payload,
  )

  unfoldable pub encode_json : Session → Bytes → Session × Result EncodeError Bytes
  unfolding encode_ready
  encode_json s payload =
      if is_ready s then encode_ready s s.info payload else (s, err (session not_ready))

  -- `recv_json` behind the pump: the header is cut off and the rest decrypted.
  unfoldable pub open_with :
      Session → Option SessionInfo → Bytes → Session × Result SessionError E27DecryptedEnvelope
  open_with s none frame_no_crc = (s, err not_ready)
  open_with s (some info) frame_no_crc = opened_with s (
      decrypt_schema0_envelope aes (byte_at frame_no_crc 0) (drop 3 frame_no_crc) info.session_key
        api_link_iv true)

  unfoldable pub open_frame : Session → Bytes → Session × Result SessionError E27DecryptedEnvelope
  unfolding open_with
  open_frame s frame_no_crc =
      if ltb (length frame_no_crc) 3
      then (s, err protocol_error)
      else open_with s s.info frame_no_crc

module _ (enabled : LogLevel → Bool) where
  -- The first good frame; the list of reads ends at the deadline.
  unfoldable pub pump_frames :
      DeframeState → List Bytes → List Read → DeframeState × List Bytes × Result SessionError Bytes
  unfolding good_frames
  pump_frames st (f ∷ pending) reads = (st, pending, ok f)
  pump_frames st [] [] = (st, [], err timeout_error)
  pump_frames st [] (quiet ∷ reads) = pump_frames st [] reads
  pump_frames st [] (broken ∷ reads) = (st, [], err io_error)
  pump_frames st [] (chunk bs ∷ reads) = elim (deframe_feed enabled st bs) [
    | err _ ↦ (st, [], err unexpected_error)
    | ok fed ↦ pump_frames fed.0 (good_frames fed.1) reads
  ]

  -- A ready session has a deframer.
  unfoldable pub recv_ready :
      Session → Option DeframeState → List Read → Session × Result SessionError Bytes
  unfolding pump_frames
  recv_ready s none reads = (s, err not_ready)
  recv_ready s (some st) reads =
      let (st', pending, r) = pump_frames st s.pending_frames reads in
      (record s { deframe_state = some st'; pending_frames = pending }, r)

  -- `_recv_one_frame_no_crc`
  unfoldable pub recv_one_frame : Session → List Read → Session × Result SessionError Bytes
  unfolding recv_ready
  recv_one_frame s reads =
      if is_ready s then recv_ready s s.deframe_state reads else (s, err not_ready)

-- What `recv_json` does with the pump's result.
abbrev pub open_received :
    AesCbc
    → Session × Result SessionError Bytes
    → Session × Result SessionError E27DecryptedEnvelope
open_received aes (s, err e) = (s, err e)
open_received aes (s, ok frame_no_crc) = open_frame aes s frame_no_crc

-- `recv_json`, up to the JSON text.
unfoldable pub recv_json :
    AesCbc
    → (LogLevel → Bool)
    → Session
    → List Read
    → Session × Result SessionError E27DecryptedEnvelope
unfolding recv_one_frame open_frame
recv_json aes enabled s reads = open_received aes (recv_one_frame enabled s reads)
