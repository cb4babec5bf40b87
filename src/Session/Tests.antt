-- ===== src/Session/Tests.antt =====
-- Runs of src/elke27_lib/session_thread.py, and its theorems at concrete inputs.
use mathlib.Core.List.{flatten}
use elke.Base.{◌+◌, ◌≤◌, ◌≡◌, refl, Bool, true, not, some, List, [], ◌∷◌, map, arith, replicate}
use elke.Base.Bytes.{Bytes}
use elke.Base.Result.{ok, err}
use elke.Framing.{LogLevel, initial}
use elke.Presentation.Layout.{opened}
use elke.Presentation.Plain.{plain_cipher, sample_key}
use elke.Session.State.{
  active, io_error, timeout_error, SessionInfo, Session, new_session, lost, keys, refused,
  is_disconnected, max_seq, next_envelope_seq, wrap_seq, close, teardown, handle_disconnect,
}
use elke.Session.Codec.{chunk, is_active, is_ready, encode_json, recv_json}
use elke.Session.Delivery.{Linked, recv_json-encode_json}
use elke.Session.Loss.{recv_json-encode_json_114}
use elke.Session.Calls.{Call, connects, drops, queues, sends, run_call, run_calls}
use elke.Session.Reach.{run_calls-new_session}
use elke.Session.Notices.{losses, due, losses-run_calls}

abbrev all_levels : LogLevel → Bool
all_levels _ = true

abbrev info : SessionInfo
info = record { session_id = 9; session_key = sample_key }

abbrev peer : Session
peer = record new_session {
  state = active;
  sock = true;
  info = some info;
  deframe_state = some initial;
}

peer-Linked : Linked peer peer info initial
unfolding is_ready
peer-Linked = record {
  sender_ready = refl;
  receiver_ready = refl;
  sender_info = refl;
  receiver_info = refl;
  key_16 = refl;
  seq_32 = omega arith;
  receiving = refl;
  nothing_pending = refl;
  least = refl;
  most = refl;
}

recv_json-encode_json_example :
    (w : Bytes) × ((encode_json plain_cipher peer (123 ∷ 125 ∷ [])).1 ≡ ok w)
    × ((chunks : List Bytes)
        → w ≡ flatten chunks
        → (recv_json plain_cipher all_levels peer (map chunk chunks)).1
          ≡ ok (opened 1 1 0 0 (123 ∷ 125 ∷ []) 5))
recv_json-encode_json_example =
    recv_json-encode_json plain_cipher all_levels peer-Linked (123 ∷ 125 ∷ []) (omega arith)
      (omega arith) (omega arith)

abbrev long_payload : Bytes
long_payload = replicate 114 65

recv_json-encode_json_114_example :
    (w : Bytes) × ((encode_json plain_cipher peer long_payload).1 ≡ ok w)
    × ((recv_json plain_cipher all_levels peer (chunk w ∷ [])).1 ≡ err timeout_error)
recv_json-encode_json_114_example =
    recv_json-encode_json_114 plain_cipher all_levels peer-Linked long_payload (omega arith) refl

abbrev calls : List Call
calls =
    connects true (keys info)
    ∷ queues
    ∷ sends (123 ∷ 125 ∷ [])
    ∷ drops io_error
    ∷ drops io_error
    ∷ connects true refused
    ∷ []

next_envelope_seq-wraps : next_envelope_seq 2147483647 ≡ 1
unfolding next_envelope_seq wrap_seq
next_envelope_seq-wraps = refl

-- The second report of a lost connection is not passed on.
drops-twice :
    (run_calls plain_cipher all_levels peer (drops io_error ∷ drops io_error ∷ [])).1
    ≡ lost io_error ∷ []
unfolding run_calls run_call handle_disconnect teardown close
drops-twice = refl

run_calls-new_session_example :
    let s = (run_calls plain_cipher all_levels new_session calls).0 in
    (is_ready s ≡ is_active s.state)
    × (s.sock ≡ not (is_disconnected s.state))
    × (1 ≤ s.tx_envelope_seq)
    × (s.tx_envelope_seq ≤ max_seq)
run_calls-new_session_example = run_calls-new_session plain_cipher all_levels calls

losses-run_calls_example :
    losses (run_calls plain_cipher all_levels new_session calls).1
      + due (run_calls plain_cipher all_levels new_session calls).0
    ≤ 3
losses-run_calls_example = losses-run_calls plain_cipher all_levels calls new_session
