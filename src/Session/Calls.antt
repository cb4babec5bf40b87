-- ===== src/Session/Calls.antt =====
-- Sequences of calls on one `Session` of src/elke27_lib/session_thread.py, one after the other.
use elke.Base.{
  ℕ, ◌≡◌, refl, subst, Bool, true, false, Option, none, some, List, [], ◌∷◌, ◌++◌, if◌then◌else◌,
  ◌&&◌, ltb, length, drop,
}
use elke.Base.Bytes.{Bytes}
use elke.Base.Result.{Result, ok, err}
use elke.Framing.{DeframeState, LogLevel}
use elke.Presentation.{AesCbc, decrypt_schema0_envelope, byte_at, api_link_iv}
use elke.Session.State.{
  SessionState, disconnected, connecting, hello, active, Session, SessionInfo, SessionError, Notice,
  Hello, close, handle_disconnect, connect, reconnect, enable_outbound_queue, note_rx_envelope_seq,
}
use elke.Session.Codec.{
  is_some, is_active, is_ready, encode_json, encode_ready, recv_json, open_received, recv_one_frame,
  recv_ready, open_frame, opened_with, open_with, Read,
}
use elke.Session.Lifecycle.{
  Holds, IsConsistent, close-IsConsistent, handle_disconnect-IsConsistent, connect-IsConsistent,
  next_envelope_seq-bounds,
}

pub data Call : Type 0 where
  closes : Call
  drops : SessionError → Call
  connects reconnects : Bool → Hello → Call
  queues : Call
  sends : Bytes → Call
  receives : List Read → Call

if-IsConsistent {ℓ} :
    {R : Type ℓ} (b : Bool) (x y : Session × R)
    → (b ≡ true → IsConsistent x.0)
    → IsConsistent y.0
    → IsConsistent (if b then x else y).0
if-IsConsistent true x y f c = f refl
if-IsConsistent false x y f c = c

is_ready-active : (s : Session) → is_ready s ≡ true → s.state ≡ active
unfolding is_ready
is_ready-active s h = by_state s.state h
  where
    by_state :
        (x : SessionState)
        → (is_active x && s.sock && is_some s.info && is_some s.deframe_state) ≡ true
        → x ≡ active
    by_state disconnected h = cc
    by_state connecting h = cc
    by_state hello h = cc
    by_state active h = refl

module _ (aes : AesCbc) (enabled : LogLevel → Bool) where
  -- The session that a call leaves behind, and the callbacks that it made.
  unfoldable pub run_call : Session → Call → Session × List Notice
  unfolding enable_outbound_queue
  run_call s closes = (close s, [])
  run_call s (drops e) = handle_disconnect s e
  run_call s (connects tcp greeting) =
      ((connect s tcp greeting).session, (connect s tcp greeting).notices)
  run_call s (reconnects tcp greeting) =
      ((reconnect s tcp greeting).session, (reconnect s tcp greeting).notices)
  run_call s queues = (enable_outbound_queue s, [])
  run_call s (sends payload) = ((encode_json aes s payload).0, [])
  run_call s (receives reads) = ((recv_json aes enabled s reads).0, [])

  unfoldable pub run_calls : Session → List Call → Session × List Notice
  run_calls s [] = (s, [])
  run_calls s (c ∷ cs) =
      let (s', now) = run_call s c in let (s'', later) = run_calls s' cs in (s'', now ++ later)

  encode_ready-IsConsistent :
      (s : Session) (i : Option SessionInfo) (payload : Bytes)
      → IsConsistent s
      → IsConsistent (encode_ready aes s i payload).0
  unfolding encode_ready
  encode_ready-IsConsistent s none payload c = c
  encode_ready-IsConsistent s (some i) payload c =
      let next = next_envelope_seq-bounds s.tx_envelope_seq in
      record { holds = by_state s.state c.holds; seq_low = next.0; seq_high = next.1 }
    where
      by_state : (x : SessionState) → Holds x s → Holds x (encode_ready aes s (some i) payload).0
      by_state disconnected h = h
      by_state connecting h = h
      by_state hello h = h
      by_state active h = h

  encode_json-IsConsistent :
      (s : Session) (payload : Bytes) → IsConsistent s → IsConsistent (encode_json aes s payload).0
  unfolding encode_json
  encode_json-IsConsistent s payload c =
      if-IsConsistent (is_ready s) _ _ (λ _. encode_ready-IsConsistent s s.info payload c) c

  note_rx_envelope_seq-IsConsistent :
      (s : Session) (n : ℕ) → IsConsistent s → IsConsistent (note_rx_envelope_seq s n)
  unfolding note_rx_envelope_seq
  note_rx_envelope_seq-IsConsistent s n c = record {
    holds = by_state s.state c.holds;
    seq_low = c.seq_low;
    seq_high = c.seq_high;
  }
    where
      by_state : (x : SessionState) → Holds x s → Holds x (note_rx_envelope_seq s n)
      by_state disconnected h = h
      by_state connecting h = h
      by_state hello h = h
      by_state active h = h

  open_with-IsConsistent :
      (s : Session) (i : Option SessionInfo) (f : Bytes)
      → IsConsistent s
      → IsConsistent (open_with aes s i f).0
  unfolding open_with
  open_with-IsConsistent s none f c = c
  open_with-IsConsistent s (some i) f c =
      elim (decrypt_schema0_envelope aes (byte_at f 0) (drop 3 f) i.session_key api_link_iv true)
        as (λ r. IsConsistent (opened_with s r).0) [
          | err _ ↦ c
          | ok env ↦ note_rx_envelope_seq-IsConsistent s env.envelope_seq c
        ]

  open_received-IsConsistent :
      (r : Session × Result SessionError Bytes)
      → IsConsistent r.0
      → IsConsistent (open_received aes r).0
  unfolding open_frame
  open_received-IsConsistent (s, err e) c = c
  open_received-IsConsistent (s, ok f) c =
      if-IsConsistent (ltb (length f) 3) _ _ (λ _. c) (open_with-IsConsistent s s.info f c)

  recv_ready-IsConsistent :
      (s : Session) (d : Option DeframeState) (reads : List Read)
      → s.state ≡ active
      → IsConsistent s
      → IsConsistent (recv_ready enabled s d reads).0
  unfolding recv_ready
  recv_ready-IsConsistent s none reads a c = c
  recv_ready-IsConsistent s (some st) reads a c =
      let h : Holds active s = subst (λ x. Holds x s) a c.holds in
      record { holds = rw a (h.0, h.1, refl); seq_low = c.seq_low; seq_high = c.seq_high }

  recv_json-IsConsistent :
      (s : Session) (reads : List Read)
      → IsConsistent s
      → IsConsistent (recv_json aes enabled s reads).0
  unfolding recv_json recv_one_frame
  recv_json-IsConsistent s reads c = open_received-IsConsistent (recv_one_frame enabled s reads) (
      if-IsConsistent (is_ready s) _ _
        (λ r. recv_ready-IsConsistent s s.deframe_state reads (is_ready-active s r) c) c)

  run_call-IsConsistent :
      (s : Session) (call : Call) → IsConsistent s → IsConsistent (run_call s call).0
  unfolding run_call reconnect enable_outbound_queue
  run_call-IsConsistent s closes c = close-IsConsistent s c
  run_call-IsConsistent s (drops e) c = handle_disconnect-IsConsistent s e c
  run_call-IsConsistent s (connects tcp greeting) c = connect-IsConsistent s tcp greeting c
  run_call-IsConsistent s (reconnects tcp greeting) c =
      connect-IsConsistent (close s) tcp greeting (close-IsConsistent s c)
  run_call-IsConsistent s queues c = record {
    holds = by_state s.state c.holds;
    seq_low = c.seq_low;
    seq_high = c.seq_high;
  }
    where
      by_state : (x : SessionState) → Holds x s → Holds x (enable_outbound_queue s)
      by_state disconnected h = h
      by_state connecting h = h
      by_state hello h = h
      by_state active h = h
  run_call-IsConsistent s (sends payload) c = encode_json-IsConsistent s payload c
  run_call-IsConsistent s (receives reads) c = recv_json-IsConsistent s reads c

  -- After any calls on a consistent session it is consistent.
  pub run_calls-IsConsistent :
      (calls : List Call) (s : Session) → IsConsistent s → IsConsistent (run_calls s calls).0
  unfolding run_calls
  run_calls-IsConsistent [] s c = c
  run_calls-IsConsistent (x ∷ xs) s c =
      run_calls-IsConsistent xs (run_call s x).0 (run_call-IsConsistent s x c)
