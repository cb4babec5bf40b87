-- ===== src/Session/Reach.antt =====
-- What holds of a `Session` of src/elke27_lib/session_thread.py after any calls on a new one.
use elke.Base.{◌≤◌, ◌≡◌, refl, Bool, not, List, ◌&&◌}
use elke.Framing.{LogLevel}
use elke.Presentation.{AesCbc}
use elke.Session.State.{
  SessionState, disconnected, connecting, hello, active, Session, new_session, is_disconnected,
  max_seq,
}
use elke.Session.Codec.{is_some, is_active, is_ready}
use elke.Session.Lifecycle.{Holds, IsConsistent, new_session-IsConsistent}
use elke.Session.Calls.{Call, run_calls, run_calls-IsConsistent}

is_ready-Holds : (s : Session) → IsConsistent s → is_ready s ≡ is_active s.state
unfolding is_ready
is_ready-Holds s c = by_state s.state c.holds
  where
    by_state :
        (x : SessionState)
        → Holds x s
        → (is_active x && s.sock && is_some s.info && is_some s.deframe_state) ≡ is_active x
    by_state disconnected h = refl
    by_state connecting h = refl
    by_state hello h = refl
    by_state active (a, b, c) = rw a (rw b c)

sock-Holds : (s : Session) → IsConsistent s → s.sock ≡ not (is_disconnected s.state)
sock-Holds s c = by_state s.state c.holds
  where
    by_state : (x : SessionState) → Holds x s → s.sock ≡ not (is_disconnected x)
    by_state disconnected h = h.0
    by_state connecting h = elim h [ ]
    by_state hello h = h.0
    by_state active h = h.0

-- After any calls on a new session the state tells what is there: `_require_ready` passes exactly
-- in ACTIVE, a socket is held exactly outside DISCONNECTED, and the next envelope number lies
-- between 1 and 2147483647.
pub run_calls-new_session :
    (aes : AesCbc) (enabled : LogLevel → Bool) (calls : List Call)
    → let s = (run_calls aes enabled new_session calls).0 in
      (is_ready s ≡ is_active s.state)
      × (s.sock ≡ not (is_disconnected s.state))
      × (1 ≤ s.tx_envelope_seq)
      × (s.tx_envelope_seq ≤ max_seq)
run_calls-new_session aes enabled calls =
    let c = run_calls-IsConsistent aes enabled calls new_session new_session-IsConsistent in
    let s = (run_calls aes enabled new_session calls).0 in
    (is_ready-Holds s c, sock-Holds s c, c.seq_low, c.seq_high)
