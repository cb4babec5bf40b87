-- ===== src/Session/Lifecycle.antt =====
-- The life of a `Session` of src/elke27_lib/session_thread.py, over any sequence of calls.
use elke.Base.{ℕ, ◌≤◌, ◌≡◌, refl, sym, subst, Bool, true, false, none, [], arith, if◌then◌else◌}
use elke.Session.State.{
  SessionState, disconnected, connecting, hello, active, Session, SessionError, new_session, Hello,
  keys, refused, crashed, close, teardown, handle_disconnect, hello_error, after_hello, begin,
  connect, wrap_seq, next_envelope_seq, max_seq, is_disconnected,
}
use elke.Session.Codec.{is_some}

-- What a session holds in each state; no call ends in CONNECTING.
abbrev pub Holds : SessionState → Session → Type 0
Holds disconnected s =
    (s.sock ≡ false) × (s.info ≡ none) × (s.deframe_state ≡ none) × (s.pending_frames ≡ [])
Holds connecting s = ⊥
Holds hello s = (s.sock ≡ true) × (s.info ≡ none) × (is_some s.deframe_state ≡ true)
Holds active s = (s.sock ≡ true) × (is_some s.info ≡ true) × (is_some s.deframe_state ≡ true)

pub record IsConsistent (s : Session) : Type 0 where
  pub holds : Holds s.state s
  pub seq_low : 1 ≤ s.tx_envelope_seq
  pub seq_high : s.tx_envelope_seq ≤ max_seq

pub new_session-IsConsistent : IsConsistent new_session
new_session-IsConsistent = record {
  holds = (refl, refl, refl, refl);
  seq_low = omega arith;
  seq_high = omega arith;
}

pub close-IsConsistent : (s : Session) → IsConsistent s → IsConsistent (close s)
unfolding close
close-IsConsistent s c = record {
  holds = (refl, refl, refl, refl);
  seq_low = c.seq_low;
  seq_high = c.seq_high;
}

teardown-IsConsistent :
    (handled : Bool) (s : Session) (e : SessionError)
    → IsConsistent s
    → IsConsistent (teardown handled s e).0
unfolding teardown close
teardown-IsConsistent true s e c = c
teardown-IsConsistent false s e c = record {
  holds = (refl, refl, refl, refl);
  seq_low = c.seq_low;
  seq_high = c.seq_high;
}

pub handle_disconnect-IsConsistent :
    (s : Session) (e : SessionError) → IsConsistent s → IsConsistent (handle_disconnect s e).0
unfolding handle_disconnect
handle_disconnect-IsConsistent s e c = teardown-IsConsistent s.disconnect_handled s e c

pub next_envelope_seq-bounds : (n : ℕ) → (1 ≤ next_envelope_seq n) × (next_envelope_seq n ≤ max_seq)
unfolding next_envelope_seq wrap_seq
next_envelope_seq-bounds n = ground arith

-- From a session with no socket, each way to greet ends in a consistent session.
after_hello-IsConsistent :
    (s : Session) (greeting : Hello)
    → s.sock ≡ true
    → s.info ≡ none
    → is_some s.deframe_state ≡ true
    → s.state ≡ hello
    → s.disconnect_handled ≡ false
    → 1 ≤ s.tx_envelope_seq
    → s.tx_envelope_seq ≤ max_seq
    → IsConsistent (after_hello s greeting).session
unfolding handle_disconnect teardown close
after_hello-IsConsistent s (keys info) sock none_yet framer state fresh low high = record {
  holds = (sock, refl, framer);
  seq_low = omega arith;
  seq_high = omega arith;
}
after_hello-IsConsistent s refused sock none_yet framer state fresh low high =
    subst (λ b. IsConsistent (teardown b s hello_error).0) (sym fresh)
      (record { holds = (refl, refl, refl, refl); seq_low = low; seq_high = high })
after_hello-IsConsistent s crashed sock none_yet framer state fresh low high = record {
  holds = rw state (sock, none_yet, framer);
  seq_low = low;
  seq_high = high;
}

-- The session that `connect` starts from holds nothing.
idle-disconnected :
    (s : Session)
    → IsConsistent s
    → Holds disconnected (if is_disconnected s.state then s else close s)
unfolding close
idle-disconnected s c = by_state s.state refl c.holds
  where
    by_state :
        (x : SessionState)
        → s.state ≡ x
        → Holds x s
        → Holds disconnected (if is_disconnected x then s else close s)
    by_state disconnected e h = h
    by_state connecting e h = elim h [ ]
    by_state hello e h = (refl, refl, refl, refl)
    by_state active e h = (refl, refl, refl, refl)

pub connect-IsConsistent :
    (s : Session) (tcp : Bool) (greeting : Hello)
    → IsConsistent s
    → IsConsistent (connect s tcp greeting).session
unfolding connect close
connect-IsConsistent s tcp greeting c =
    go tcp (if is_disconnected s.state then s else close s) (idle-disconnected s c)
      (idle-seq s.state)
  where
    idle-seq :
        (x : SessionState)
        → (1 ≤ (if is_disconnected x then s else close s).tx_envelope_seq)
          × ((if is_disconnected x then s else close s).tx_envelope_seq ≤ max_seq)
    idle-seq disconnected = (c.seq_low, c.seq_high)
    idle-seq connecting = (c.seq_low, c.seq_high)
    idle-seq hello = (c.seq_low, c.seq_high)
    idle-seq active = (c.seq_low, c.seq_high)

    go :
        (tcp : Bool) (idle : Session)
        → Holds disconnected idle
        → (1 ≤ idle.tx_envelope_seq) × (idle.tx_envelope_seq ≤ max_seq)
        → IsConsistent (begin tcp idle greeting).session
    go true idle (sock, i, d, p) (low, high) =
        after_hello-IsConsistent _ greeting refl i refl refl refl low high
    go false idle (sock, i, d, p) (low, high) = record {
      holds = (sock, i, d, p);
      seq_low = low;
      seq_high = high;
    }
