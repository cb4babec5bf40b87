-- ===== src/Session/Loss.antt =====
-- A message sent by one session that the other cannot receive.
use elke.Base.{◌+◌, ◌≡◌, refl, ap, subst, ◌∙◌, Bool, some, List, [], ◌∷◌, arith, length}
use elke.Base.Bytes.{Bytes, IsBytes}
use elke.Base.Result.{Result, ok, err, ◌>>=◌}
use elke.Framing.{DeframeState, LogLevel, Step}
use elke.Framing.Deframe.{deframe_feed}
use elke.Framing.RoundTrip.{IsProtocol, wire, frame_build-wire}
use elke.Framing.Duplicate.{NoFrame, deframe_feed_loses}
use elke.Presentation.{AesCbc}
use elke.Session.State.{Session, SessionInfo, SessionError, timeout_error}
use elke.Session.Codec.{
  encode_json, recv_ready, open_received, recv_json, Read, chunk, pump_frames, recv_one_frame,
}
use elke.Session.Pump.{good_frames_none}
use elke.Session.Delivery.{Linked, pad, ct, protocol, length-ct, ct-IsBytes, encode_json-wire}

-- The pump makes no frame of a chunk with none, and waits to the deadline.
pump_frames-NoFrame :
    (enabled : LogLevel → Bool) (st : DeframeState) (w : Bytes) (m : Step)
    → deframe_feed enabled st w ≡ m
    → NoFrame m
    → (st' : DeframeState) × (pump_frames enabled st [] (chunk w ∷ [])
        ≡ (st', [], err timeout_error))
unfolding pump_frames
pump_frames-NoFrame enabled st w (err x) e h = elim h [ ]
pump_frames-NoFrame enabled st w (ok (s, rs)) e h =
    (s, rw (e, pump_frames) (rw (good_frames_none rs h) refl))

-- `recv_json` of a ready session passes the pump's error on.
recv_json-timeout :
    (aes : AesCbc) (enabled : LogLevel → Bool) {sender receiver : Session} {sent : SessionInfo}
    {st : DeframeState}
    → Linked sender receiver sent st
    → (reads : List Read)
    → ((st' : DeframeState) × (pump_frames enabled st [] reads ≡ (st', [], err timeout_error)))
    → (recv_json aes enabled receiver reads).1 ≡ err timeout_error
unfolding recv_json recv_one_frame
recv_json-timeout aes enabled {receiver = receiver} {st = st} link reads (st', e) =
    let received : recv_one_frame enabled receiver reads ≡ put (st', [], err timeout_error) =
      rw link.receiver_ready (
        ap (λ d. recv_ready enabled receiver d reads) link.receiving
        ∙ ap (λ p. fed p) link.nothing_pending
        ∙ ap (λ r. put r) e) in
    ap (λ r. (open_received aes r).1) received
  where
    put :
        DeframeState × List Bytes × Result SessionError Bytes → Session × Result SessionError Bytes
    put (st₁, pending₁, r) =
        (record receiver { deframe_state = some st₁; pending_frames = pending₁ }, r)

    fed : List Bytes → Session × Result SessionError Bytes
    fed p = put (pump_frames enabled st p reads)

-- A payload of 114 bytes is encrypted and framed with no error, and the receiver that reads all of
-- the wire's bytes at once gets nothing of it: `recv_json` ends with its timeout.
pub recv_json-encode_json_114 :
    (aes : AesCbc) (enabled : LogLevel → Bool) {sender receiver : Session} {sent : SessionInfo}
    {st : DeframeState}
    → Linked sender receiver sent st
    → (payload : Bytes) → IsBytes payload
    → length payload ≡ 114
    → (w : Bytes) × ((encode_json aes sender payload).1 ≡ ok w)
      × ((recv_json aes enabled receiver (chunk w ∷ [])).1 ≡ err timeout_error)
recv_json-encode_json_114 aes enabled {st = st} link payload small long =
    let p = 0x80 + pad aes enabled link payload small in
    let body = ct aes enabled link payload small in
    let proto : IsProtocol p = protocol aes enabled link payload small in
    let size = length-ct aes enabled link payload small in
    let lost : NoFrame (deframe_feed enabled st (wire p body)) =
      subst NoFrame (ap (λ m. m >>= deframe_feed enabled st) (frame_build-wire p body proto.1)) (
        deframe_feed_loses enabled st p body proto (ct-IsBytes aes enabled link payload small)
          (omega (arith, size, long)) (omega (arith, link.least)) (omega (arith, link.most))) in
    (
      wire p body,
      encode_json-wire aes enabled link payload small,
      recv_json-timeout aes enabled link (chunk (wire p body) ∷ []) (
          pump_frames-NoFrame enabled st (wire p body) (deframe_feed enabled st (wire p body)) refl
            lost),
    )
