-- ===== src/Kernel/Tests.antt =====
-- Runs of src/elke27_lib/kernel_loop.py, and its theorems at concrete inputs.
use elke.Kernel.Answered.Runs.{sends_of-run_steps_answered}
use elke.Kernel.Delivery.Replies.{run_all-on_message}
use elke.Kernel.LateWindow.{abstract_event, Event, finishes, marks, last_items}
use elke.Kernel.LateWindow.Runs.{
  is_raw-run_tracker, run_tracker, empty_tracker, run_abstract, no_calls,
}
use elke.Kernel.Seqs.{after_calls, next_seq_distinct}
use elke.Kernel.Closing.Over.{IsOver, close_kernel-IsOver, on_session_disconnected-IsOver}
use elke.Kernel.Waiting.Runs.{is_stuck-run_steps}
use elke.Kernel.Progress.{is_stuck}
use elke.Kernel.Runs.{
  sends_of-run_steps, sends_of, sends_of-run_steps_sent, future_sends_of, asked_sends,
}
use elke.Kernel.Termination.Within.{kick_scheduler-try_send_next_by}
use elke.Base.Dict.{nat_key, erase, lookup, insert, contains}
use elke.Kernel.Calls.Active.{
  on_message, send_request_with_seq, queued_request, on_reply_timeout, release,
}
use elke.Kernel.Calls.{
  with_auth_seq, on_request_sent, mark_request_sent, arm_reply_timeout, request_link_check,
  fail_all_pending_commands, drop_fire_and_forget_pending, drain_requests, fail_active, fail_each,
  signal_all_sent_events, abort_requests,
}
use elke.Kernel.Calls.Ends.{close_kernel, stop_keepalive, on_session_disconnected}
use elke.Base.{
  ℕ, ◌≢◌, ◌||◌, ◌+◌, ◌≤◌, ◌≡◌, refl, arith, true, false, Option, none, some, List, [], ◌∷◌, ◌==◌,
}
use elke.Outbound.{normal}
use elke.Dispatch.Json.{int, pos, member, object, Members, empty}
use elke.Dispatch.State.{add_pending, drop_pending, Dispatcher}
use elke.Pending.{
  result, run_all, PendingResponse, fail, pop, call_in_loop, fail_all, PendingResponseManager,
  waiting,
}
use elke.Session.State.{handle_disconnect, Session, new_session, active, io_error}
use elke.Kernel.{
  next_seq, SessionCall, transport_wait_budget, is_past_deadline, transport_retry_allowed,
  is_keepalive, is_disarm, transport_backoff, QueuedRequest, sends, cancels, Kernel, idle,
  in_flight, retry_after_send_allowed,
}
use elke.Kernel.RawSeqs.{is_raw, has_member, new_tracker}
use elke.Kernel.Scheduler.Failures.{
  enqueue_request, handle_transport_failure, complete_active, schedule_transport_requeue,
  handle_send_failure,
}
use elke.Kernel.Scheduler.Sending.{try_send_next_within, send_request, try_send_next_by}
use elke.Kernel.Scheduler.{
  next_request, fail_queued_command, prepare, activate, hand_over, build_request_message,
  signal_sent_event, drop_request, mark_send_failed, put_first, cancel_transport_retry_timer,
  disconnect_session_on_io_error, Raised,
}
use elke.Kernel.Scheduler.Fuel.{shares, shares_waiting, kick_scheduler}
use elke.Kernel.Steps.{Step, requests, sent, times_out, releases, notifies, step, run_steps}

abbrev session : Session
session = record new_session { state = active; sock = true; outbound = true }

abbrev no_routes : Dispatcher
no_routes = record {
  handlers = [];
  pending = [];
  paged_routes = [];
  paged_transfers = [];
  paged_timeout = 60;
}

abbrev no_futures : PendingResponseManager
no_futures = record { pending = []; futures = λ f. waiting; next_future = 0; scheduled = [] }

-- A connected kernel with no requests.
abbrev kernel : Kernel
kernel = record {
  session = some session;
  session_id = some (pos 9);
  connected = true;
  closing = false;
  closed_explicitly = false;
  seq = 1;
  dispatcher = no_routes;
  pending_responses = no_futures;
  raw_passthrough_seqs = new_tracker;
  sent_events = [];
  signalled = [];
  confirmed_sent_seqs = [];
  fire_and_forget_pending_seqs = [];
  request_state = idle;
  active_seq = none;
  active_sent_at = none;
  active_timeout = none;
  active_released = false;
  active_request = none;
  request_queue_high = [];
  request_queue_normal = [];
  transport_retry = [];
  next_transfer_id = 1;
  last_rx_at = 0;
  last_exchange_at = 0;
  keepalive_enabled = false;
  keepalive_running = false;
  keepalive_probe_requested = false;
  request_max_retries = 2;
  request_max_backoff = 30000;
  session_calls = [];
  loop_calls = [];
}

-- A write, and a read that may be repeated.
abbrev write : QueuedRequest
write = record {
  seq = 5;
  domain = "zone";
  name = "set_status";
  payload = object empty;
  pending = true;
  opaque = none;
  expected_route = some ("zone", "set_status");
  priority = normal;
  timeout = 5000;
  attempt = 0;
  deadline_at = 0;
}

abbrev query : QueuedRequest
query = record write { seq = 6; name = "get_status"; expected_route = some ("zone", "get_status") }

-- `send_json` never raises.
abbrev never_raises : QueuedRequest → Option Raised
never_raises item = none

abbrev undispatched : Dispatcher → Members → Dispatcher
undispatched d msg = d

abbrev numbers_of : List SessionCall → List ℕ
numbers_of [] = []
numbers_of (sends seq _ _ ∷ calls) = seq ∷ numbers_of calls
numbers_of (cancels _ ∷ calls) = numbers_of calls

-- The numbers sent in a run from the connected kernel.
sent_in : List (ℕ × Step) → List ℕ
unfolding run_steps step send_request_with_seq queued_request transport_wait_budget enqueue_request
    kick_scheduler try_send_next_within try_send_next_by next_request is_past_deadline
    fail_queued_command send_request prepare activate hand_over build_request_message add_pending
    shares shares_waiting on_request_sent mark_request_sent arm_reply_timeout signal_sent_event
    on_reply_timeout handle_transport_failure transport_retry_allowed is_keepalive is_disarm
    retry_after_send_allowed is_raw has_member drop_request mark_send_failed complete_active
    schedule_transport_requeue transport_backoff put_first cancel_transport_retry_timer release
    request_link_check handle_send_failure disconnect_session_on_io_error handle_disconnect lookup
    insert erase contains fail pop call_in_loop drop_pending close_kernel stop_keepalive
    fail_all_pending_commands drop_fire_and_forget_pending drain_requests fail_active fail_each
    signal_all_sent_events fail_all on_session_disconnected abort_requests
sent_in ss = numbers_of (run_steps never_raises undispatched kernel ss).session_calls

-- A write that times out is not sent again, and the next request takes its turn.
write_once :
    sent_in (
      (10, requests write true)
      ∷ (11, requests query true)
      ∷ (20, sent 5 5000)
      ∷ (5020, times_out 5)
      ∷ (6000, releases 5)
      ∷ [])
    ≡ 5 ∷ 6 ∷ []
unfolding sent_in
write_once = refl

-- A read is sent once more for each of the two retries.
query_thrice :
    sent_in (
      (10, requests query true)
      ∷ (20, sent 6 5000)
      ∷ (5020, times_out 6)
      ∷ (5520, releases 6)
      ∷ (5530, sent 6 5000)
      ∷ (10530, times_out 6)
      ∷ (11530, releases 6)
      ∷ (11540, sent 6 5000)
      ∷ (16540, times_out 6)
      ∷ (20000, releases 6)
      ∷ [])
    ≡ 6 ∷ 6 ∷ 6 ∷ []
unfolding sent_in
query_thrice = refl

-- `send_json` raises for every request, and no retry waits.
abbrev always_raises : QueuedRequest → Option Raised
always_raises item = some (record { is_session_io_error = false; text = "bad payload" })

abbrev queued : Kernel
queued = record kernel {
  request_max_backoff = 0;
  request_queue_high = query ∷ [];
  request_queue_normal = write ∷ [];
}

kick_scheduler-try_send_next_by_example :
    kick_scheduler 10 always_raises queued
    ≡ try_send_next_by 10 always_raises (kick_scheduler 10 always_raises) queued
kick_scheduler-try_send_next_by_example =
    kick_scheduler-try_send_next_by 10 always_raises queued refl

abbrev calls : List (ℕ × Step)
calls = (10, requests query true) ∷ (20, sent 6 5000) ∷ (5020, times_out 6) ∷ []

sends_of-run_steps_example :
    sends_of 6 (run_steps never_raises undispatched kernel calls)
    ≤ sends_of 6 kernel + future_sends_of 6 kernel + asked_sends (λ n. n == 6) 2 calls
sends_of-run_steps_example =
    sends_of-run_steps never_raises undispatched kernel calls 6 refl (tt, (tt, (tt, tt)))

-- The write has been sent, and the query waits behind it.
abbrev writing : Kernel
writing = record kernel {
  request_state = in_flight;
  active_seq = some 5;
  active_sent_at = some 20;
  active_request = some write;
  request_queue_normal = query ∷ [];
  session_calls = sends 5 empty normal ∷ [];
}

abbrev losses : List (ℕ × Step)
losses = (5020, times_out 5) ∷ (6000, releases 5) ∷ (6001, notifies) ∷ []

sends_of-run_steps_sent_example :
    sends_of 5 (run_steps never_raises undispatched writing losses) ≤ sends_of 5 writing
unfolding retry_after_send_allowed is_disarm shares shares_waiting asked_sends
sends_of-run_steps_sent_example =
    sends_of-run_steps_sent never_raises undispatched writing losses write refl refl refl refl refl
      (tt, (tt, (tt, tt))) refl

is_stuck-run_steps_example : is_stuck (run_steps never_raises undispatched writing losses) ≡ false
is_stuck-run_steps_example =
    is_stuck-run_steps never_raises undispatched writing losses refl refl (tt, (tt, (tt, tt)))

-- A reply to the query is awaited on the future 0, and the write waits in a queue.
abbrev awaited : PendingResponse
awaited = record {
  seq = 6;
  command_key = "zone_get_status";
  expected_route = ("zone", "get_status");
  future = 0;
}

abbrev waiting_kernel : Kernel
waiting_kernel = record kernel {
  pending_responses = record no_futures { pending = (6, awaited) ∷ []; next_future = 1 };
  request_queue_normal = write ∷ [];
}

-- The link has dropped, and two still wait.
abbrev dropped_kernel : Kernel
dropped_kernel = record waiting_kernel { connected = false; closed_explicitly = true }

close_kernel-IsOver_example : IsOver dropped_kernel (close_kernel dropped_kernel)
close_kernel-IsOver_example = close_kernel-IsOver dropped_kernel

on_session_disconnected-IsOver_example :
    IsOver waiting_kernel (on_session_disconnected io_error waiting_kernel)
on_session_disconnected-IsOver_example =
    on_session_disconnected-IsOver waiting_kernel io_error refl refl refl

next_seq_distinct_example :
    let s = (next_seq (after_calls 0 kernel)).1 in
    let t = (next_seq (after_calls 1000 kernel)).1 in (1 ≤ s) × (s ≤ 2147483647) × (s ≢ t)
next_seq_distinct_example =
    next_seq_distinct kernel 0 1000 (ground arith) (ground arith) (ground arith) (ground arith)

-- Of two finished numbers a window of one remembers the last.
abbrev events : List Event
events = marks 3 ∷ marks 4 ∷ finishes 3 ∷ finishes 4 ∷ []

is_raw-run_tracker_example : is_raw 3 (run_tracker (empty_tracker 1) events) ≡ (
    has_member 3 (run_abstract no_calls events).inflight
    || has_member 3 (last_items 1 (run_abstract no_calls events).finished))
unfolding has_member abstract_event
is_raw-run_tracker_example = is_raw-run_tracker 1 events 3 (refl, (refl, (tt, (tt, tt))))

abbrev reply : Members
reply = member "seq" (int (pos 6)) (member "zone" (object empty) empty)

run_all-on_message_example :
    let m = (on_message 40 never_raises undispatched reply waiting_kernel).pending_responses in
    (lookup 6 m.pending ≡ none) × (run_all m.scheduled m.futures 0 ≡ result reply)
unfolding lookup with_auth_seq
run_all-on_message_example =
    run_all-on_message 40 never_raises undispatched reply waiting_kernel 6 awaited refl refl refl
      (λ t. t)

-- The reply to the write that is in flight, with another attempt of it queued.
abbrev answering : Kernel
answering = record writing { request_queue_high = write ∷ [] }

abbrev confirmation : Members
confirmation = member "seq" (int (pos 5)) (member "zone" (object empty) empty)

sends_of-run_steps_answered_example :
    sends_of 5 (
      run_steps never_raises undispatched
        (on_message 40 never_raises undispatched confirmation answering)
        losses)
    ≤ sends_of 5 answering
unfolding asked_sends
sends_of-run_steps_answered_example =
    sends_of-run_steps_answered 40 never_raises undispatched confirmation answering losses 5 refl
      refl refl refl tt (tt, (tt, (tt, tt))) refl
