-- ===== src/Session/State.antt =====
-- src/elke27_lib/session_thread.py: the connection's state, its lifecycle, and the envelope
-- sequence numbers. Threads, locks, clocks and log records are not modelled.
use elke.Base.{
  ℕ, ◌+◌, Bool, true, false, Option, none, some, List, [], ◌∷◌, ltb, leb, if◌then◌else◌,
}
use elke.Base.Bytes.{Bytes}
use elke.Base.Result.{Result, ok, err}
use elke.Framing.{DeframeState, initial}

pub data SessionState : Type 0 where
  disconnected connecting hello active : SessionState

-- The exceptions that the session's methods raise or record.
pub data SessionError : Type 0 where
  not_ready io_error protocol_error timeout_error : SessionError
  hello_error connect_error unexpected_error : SessionError

pub record SessionInfo : Type 0 where
  pub session_id : ℕ
  pub session_key : Bytes

pub record Session : Type 0 where
  pub state : SessionState
  pub sock : Bool
  pub deframe_state : Option DeframeState
  pub pending_frames : List Bytes
  pub info : Option SessionInfo
  pub outbound : Bool
  pub last_error : Option SessionError
  pub disconnect_handled : Bool
  pub tx_envelope_seq : ℕ
  pub last_rx_envelope_seq : Option ℕ
  pub rx_seq_regressions : ℕ

-- `Session(...)`
abbrev pub new_session : Session
new_session = record {
  state = disconnected;
  sock = false;
  deframe_state = none;
  pending_frames = [];
  info = none;
  outbound = false;
  last_error = none;
  disconnect_handled = false;
  tx_envelope_seq = 1;
  last_rx_envelope_seq = none;
  rx_seq_regressions = 0;
}

-- The calls of `on_connected` and `on_disconnected`.
pub data Notice : Type 0 where
  connected : SessionInfo → Notice
  lost : SessionError → Notice

-- What a method leaves behind: the session, the callbacks made, and its result.
pub record Outcome (A : Type 0) : Type 0 where
  pub session : Session
  pub notices : List Notice
  pub result : Result SessionError A

unfoldable pub close : Session → Session
close s = record s {
  outbound = false;
  sock = false;
  deframe_state = none;
  pending_frames = [];
  info = none;
  state = disconnected;
}

-- `_handle_disconnect`, from what `_try_begin_disconnect_teardown` finds in the flag.
unfoldable pub teardown : Bool → Session → SessionError → Session × List Notice
unfolding close
teardown true s e = (s, [])
teardown false s e =
    (close (record s { disconnect_handled = true; last_error = some e }), lost e ∷ [])

unfoldable pub handle_disconnect : Session → SessionError → Session × List Notice
unfolding teardown
handle_disconnect s e = teardown s.disconnect_handled s e

-- How `perform_hello` ends: with keys, with an `E27Error`, or with another exception.
pub data Hello : Type 0 where
  keys : SessionInfo → Hello
  refused : Hello
  crashed : Hello

abbrev pub is_disconnected : SessionState → Bool
is_disconnected disconnected = true
is_disconnected _ = false

-- `connect`, from whether the TCP connection is made and how HELLO ends.
abbrev pub after_hello : Session → Hello → Outcome SessionInfo
after_hello s (keys info) = record {
  session = record s {
    info = some info;
    state = active;
    tx_envelope_seq = 1;
    last_rx_envelope_seq = none;
    rx_seq_regressions = 0;
  };
  notices = connected info ∷ [];
  result = ok info;
}
after_hello s refused =
    let (s', notices) = handle_disconnect s hello_error in
    record { session = s'; notices = notices; result = err protocol_error }
after_hello s crashed = record { session = s; notices = []; result = err unexpected_error }

abbrev pub begin : Bool → Session → Hello → Outcome SessionInfo
begin tcp idle greeting =
    let begun = record idle { last_error = none; disconnect_handled = false; state = connecting } in
    if tcp
    then after_hello (record begun { sock = true; deframe_state = some initial; state = hello })
        greeting
    else record {
      session = record begun { last_error = some connect_error; state = disconnected };
      notices = [];
      result = err io_error;
    }

-- A session that is not DISCONNECTED is closed first.
unfoldable pub connect : Session → Bool → Hello → Outcome SessionInfo
unfolding handle_disconnect teardown close
connect s tcp greeting = begin tcp (if is_disconnected s.state then s else close s) greeting

-- `reconnect`
unfoldable pub reconnect : Session → Bool → Hello → Outcome SessionInfo
unfolding connect close
reconnect s = connect (close s)

-- `enable_outbound_queue`
unfoldable pub enable_outbound_queue : Session → Session
enable_outbound_queue s = record s { outbound = true }

-- `_wrap_seq`, on a value that is never negative, and `_next_envelope_seq`.
abbrev pub max_seq : ℕ
max_seq = 2147483647

unfoldable pub wrap_seq : ℕ → ℕ → ℕ
wrap_seq value wrap_to =
    if ltb max_seq value then wrap_to else if leb value 0 then wrap_to else value

unfoldable pub next_envelope_seq : ℕ → ℕ
unfolding wrap_seq
next_envelope_seq current = wrap_seq (current + 1) 1

abbrev stale : Option ℕ → ℕ → Bool
stale none seq_val = false
stale (some last) seq_val = leb seq_val last

-- `_note_rx_envelope_seq`: a number that does not increase is counted, and the frame is kept.
unfoldable pub note_rx_envelope_seq : Session → ℕ → Session
note_rx_envelope_seq s seq_val = record s {
  last_rx_envelope_seq = some seq_val;
  rx_seq_regressions =
      if stale s.last_rx_envelope_seq seq_val
      then s.rx_seq_regressions + 1
      else s.rx_seq_regressions;
}
