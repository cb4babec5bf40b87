-- ===== src/Kernel/Calls/Ends.antt =====
-- The ways a connection of src/elke27_lib/kernel_loop.py ends: its loss, and `close`.
use elke.Base.{Bool, true, false, not, ◌&&◌, none, List, [], ◌∷◌, if◌then◌else◌}
use elke.Base.Dict.{pair_key, nat_key}
use elke.Dispatch.State.{abort_paged_transfers}
use elke.Session.State.{SessionError, io_error}
use elke.Kernel.{Kernel}
use elke.Kernel.Scheduler.{Raised}
use elke.Kernel.Calls.{abort_requests, fail_all_pending_commands, has_session}

abbrev pub is_io_error : SessionError → Bool
is_io_error io_error = true
is_io_error _ = false

abbrev pub connection_lost : Raised
connection_lost = record { is_session_io_error = false; text = "Session disconnected." }

-- `_on_session_disconnected`, without the event that it emits
unfoldable pub on_session_disconnected : SessionError → Kernel → Kernel
unfolding abort_requests
on_session_disconnected e k =
    let down : Kernel = record k { connected = false } in
    if k.closing
    then k
    else if k.closed_explicitly && is_io_error e
    then k
    else if not k.connected
    then down
    else abort_requests connection_lost
        (record down { dispatcher = abort_paged_transfers k.dispatcher })

-- The event loop runs the first of those calls.
abbrev pub notify : List SessionError → Kernel → Kernel
notify [] k = k
notify (e ∷ es) k = on_session_disconnected e (record k { loop_calls = es })

-- `_stop_keepalive`, where its task runs
unfoldable pub stop_keepalive : Kernel → Kernel
stop_keepalive k =
    if k.keepalive_running
    then record k { keepalive_running = false; keepalive_probe_requested = false }
    else k

abbrev pub closed_error : Bool → Raised
closed_error true = record { is_session_io_error = false; text = "Kernel closed." }
closed_error false = record {
  is_session_io_error = false;
  text = "Kernel closed with no active session.";
}

-- `close`, up to the session's own `close`, and what follows that.
unfoldable pub close_kernel : Kernel → Kernel
unfolding fail_all_pending_commands stop_keepalive
close_kernel k =
    let exc = closed_error (has_session k.session) in
    if not (has_session k.session)
    then record (fail_all_pending_commands exc k) { transport_retry = [] }
    else record (fail_all_pending_commands exc (stop_keepalive k)) {
      transport_retry = [];
      session = none;
      closing = true;
      closed_explicitly = true;
      connected = false;
    }

unfoldable pub close_done : Kernel → Kernel
close_done k = record k { closing = false }
