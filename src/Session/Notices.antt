-- ===== src/Session/Notices.antt =====
-- How often `on_disconnected` of src/elke27_lib/session_thread.py is called.
use elke.Base.{
  ℕ, suc, ◌+◌, ◌≤◌, ◌≡◌, refl, ◌∙◌, Bool, true, false, Option, none, some, List, [], ◌∷◌, ◌++◌,
  arith, if◌then◌else◌, ltb, length,
}
use elke.Base.Bytes.{Bytes}
use elke.Base.Result.{Result, ok, err}
use elke.Framing.{DeframeState, LogLevel}
use elke.Presentation.{AesCbc, PresentationError, E27DecryptedEnvelope}
use elke.Session.State.{
  Session, SessionInfo, SessionError, Notice, connected, lost, Hello, keys, refused, crashed, close,
  teardown, handle_disconnect, after_hello, begin, connect, reconnect, enable_outbound_queue,
  note_rx_envelope_seq, is_disconnected,
}
use elke.Session.Codec.{
  is_ready, encode_json, encode_ready, recv_json, open_received, recv_one_frame, recv_ready,
  open_frame, opened_with, open_with, Read,
}
use elke.Session.Calls.{
  Call, closes, drops, connects, reconnects, queues, sends, receives, run_call, run_calls,
}

abbrev pub losses : List Notice → ℕ
losses [] = 0
losses (connected _ ∷ ns) = losses ns
losses (lost _ ∷ ns) = suc (losses ns)

-- The calls that start a connection.
abbrev pub dials : List Call → ℕ
dials [] = 0
dials (connects _ _ ∷ cs) = suc (dials cs)
dials (reconnects _ _ ∷ cs) = suc (dials cs)
dials (closes ∷ cs) = dials cs
dials (drops _ ∷ cs) = dials cs
dials (queues ∷ cs) = dials cs
dials (sends _ ∷ cs) = dials cs
dials (receives _ ∷ cs) = dials cs

-- One notice is due until `_try_begin_disconnect_teardown` has passed.
abbrev pub due : Session → ℕ
due s = if s.disconnect_handled then 0 else 1

losses-append : (xs ys : List Notice) → losses (xs ++ ys) ≡ losses xs + losses ys
losses-append [] ys = omega arith
losses-append (connected _ ∷ xs) ys = losses-append xs ys
losses-append (lost _ ∷ xs) ys = omega (arith, losses-append xs ys)

teardown-due :
    (handled : Bool) (s : Session) (e : SessionError)
    → s.disconnect_handled ≡ handled
    → losses (teardown handled s e).1 + due (teardown handled s e).0 ≤ due s
unfolding teardown close
teardown-due true s e h = omega arith
teardown-due false s e h = ground arith

after_hello-due :
    (s : Session) (greeting : Hello)
    → losses (after_hello s greeting).notices + due (after_hello s greeting).session ≤ due s
unfolding handle_disconnect
after_hello-due s (keys info) = omega arith
after_hello-due s refused = teardown-due s.disconnect_handled s _ refl
after_hello-due s crashed = omega arith

connect-due :
    (s : Session) (tcp : Bool) (greeting : Hello)
    → losses (connect s tcp greeting).notices + due (connect s tcp greeting).session ≤ 1
unfolding connect
connect-due s tcp greeting = go tcp (if is_disconnected s.state then s else close s)
  where
    go :
        (tcp : Bool) (idle : Session)
        → losses (begin tcp idle greeting).notices + due (begin tcp idle greeting).session ≤ 1
    go true idle = after_hello-due _ greeting
    go false idle = omega arith

module _ (aes : AesCbc) (enabled : LogLevel → Bool) where
  due-if :
      {R : Type 0} (b : Bool) (s : Session) (x y : Session × R)
      → due x.0 ≡ due s
      → due y.0 ≡ due s
      → due (if b then x else y).0 ≡ due s
  due-if true s x y h k = h
  due-if false s x y h k = k

  encode_json-due : (s : Session) (payload : Bytes) → due (encode_json aes s payload).0 ≡ due s
  unfolding encode_json encode_ready
  encode_json-due s payload = due-if (is_ready s) s _ _ (by_info s.info) refl
    where
      by_info : (i : Option SessionInfo) → due (encode_ready aes s i payload).0 ≡ due s
      by_info none = refl
      by_info (some i) = refl

  open_received-due :
      (r : Session × Result SessionError Bytes) → due (open_received aes r).0 ≡ due r.0
  unfolding open_frame open_with note_rx_envelope_seq
  open_received-due (s, err e) = refl
  open_received-due (s, ok f) = due-if (ltb (length f) 3) s _ _ refl (by_info s.info)
    where
      opened : (r : Result PresentationError E27DecryptedEnvelope) → due (opened_with s r).0 ≡ due s
      opened (ok env) = refl
      opened (err e) = refl

      by_info : (i : Option SessionInfo) → due (open_with aes s i f).0 ≡ due s
      by_info none = refl
      by_info (some i) = opened _

  recv_json-due : (s : Session) (reads : List Read) → due (recv_json aes enabled s reads).0 ≡ due s
  unfolding recv_json recv_one_frame recv_ready
  recv_json-due s reads =
      open_received-due (recv_one_frame enabled s reads)
      ∙ due-if (is_ready s) s _ _ (by_framer s.deframe_state) refl
    where
      by_framer : (d : Option DeframeState) → due (recv_ready enabled s d reads).0 ≡ due s
      by_framer none = refl
      by_framer (some st) = refl

  run_call-due :
      (s : Session) (c : Call)
      → losses (run_call aes enabled s c).1 + due (run_call aes enabled s c).0
        ≤ due s + dials (c ∷ [])
  unfolding run_call handle_disconnect reconnect close enable_outbound_queue
  run_call-due s closes = omega arith
  run_call-due s (drops e) = omega (arith, teardown-due s.disconnect_handled s e refl)
  run_call-due s (connects tcp greeting) = omega (arith, connect-due s tcp greeting)
  run_call-due s (reconnects tcp greeting) = omega (arith, connect-due (close s) tcp greeting)
  run_call-due s queues = omega arith
  run_call-due s (sends payload) = omega (arith, encode_json-due s payload)
  run_call-due s (receives reads) = omega (arith, recv_json-due s reads)

-- Over any calls on any session, `on_disconnected` is called, counting one call that is still due
-- at the end, at most as often as `connect` and `reconnect`, counting one that was due at the start.
-- A call is due while no teardown has begun since the last connect.
pub losses-run_calls :
    (aes : AesCbc) (enabled : LogLevel → Bool) (calls : List Call) (s : Session)
    → losses (run_calls aes enabled s calls).1 + due (run_calls aes enabled s calls).0
      ≤ due s + dials calls
unfolding run_calls
losses-run_calls aes enabled [] s = omega arith
losses-run_calls aes enabled (c ∷ cs) s =
    let now = run_call-due aes enabled s c in
    let later = losses-run_calls aes enabled cs (run_call aes enabled s c).0 in
    let split =
      losses-append (run_call aes enabled s c).1
        (run_calls aes enabled (run_call aes enabled s c).0 cs).1 in
    let total : dials (c ∷ cs) ≡ dials (c ∷ []) + dials cs = by_call c in omega arith
  where
    by_call : (c : Call) → dials (c ∷ cs) ≡ dials (c ∷ []) + dials cs
    by_call closes = omega arith
    by_call (drops _) = omega arith
    by_call (connects _ _) = omega arith
    by_call (reconnects _ _) = omega arith
    by_call queues = omega arith
    by_call (sends _) = omega arith
    by_call (receives _) = omega arith
