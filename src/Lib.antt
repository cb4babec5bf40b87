-- ===== src/Lib.antt =====
-- A model of elke27_lib, a Python client for the Elk E27 alarm panel, and the theorems that make
-- its protocol stack correct.
--
-- The program talks to a panel over one TCP connection. A message is a JSON object. Going out, a
-- session encrypts the JSON text into an envelope, and framing adds the length, the checksum and
-- the escapes. Coming in, the bytes of each read are deframed, a good frame is decrypted, and the
-- dispatcher routes the message to handlers and matches it with the request that waits for it. The
-- kernel stands above them: it hands one request at a time to the session, waits for its reply,
-- repeats it where that is safe, and completes the future that the caller waits on.
--
-- Files and the code they model:
--   Base           numbers, bytes, results and dicts as Python has them; no code of the repository.
--   Util           src/elke27_lib/util.py: `calculate_crc16_checksum` (Crc), `swap_endianness` and
--                  `calculate_block_padding` (Swap).
--   Framing        src/elke27_lib/framing_loop.py: `frame_build` and the state `DeframeState`;
--                  Framing/Deframe is `deframe_feed`, one function for each state of the machine.
--   Presentation   src/elke27_lib/presentation_loop.py: `encrypt_schema0_envelope` and
--                  `decrypt_schema0_envelope`.
--   Encryption     src/elke27_lib/encryption_loop.py: hex keys and the schema-0 primitives.
--   Session        src/elke27_lib/session_thread.py: Session/State is the state of `Session` with
--                  `connect`, `close`, `_handle_disconnect`, `reconnect` and the envelope numbers;
--                  Session/Codec is `_encode_json`, `_recv_one_frame_no_crc` and `recv_json`.
--   Dispatch       src/elke27_lib/dispatcher_loop.py: Json and IntText are the values of a message,
--                  Route is `_extract_route` and `_classify_kind`, State the registration methods,
--                  Paged the reassembly of paged transfers, Run is `dispatch`.
--   Pending        src/elke27_lib/pending_loop.py: `PendingResponseManager`, the futures it hands
--                  out and the callbacks of the event loop.
--   Outbound       src/elke27_lib/outbound_loop.py: `OutboundQueue` as a list of steps of its worker,
--                  its callers and the clock.
--   Kernel         src/elke27_lib/kernel_loop.py: the record `Kernel` is the state of `E27Kernel` that
--                  requests live in, and `_next_seq` and the tests of a request stand beside it;
--                  Kernel/RawSeqs is `RawSeqTracker`, Kernel/Scheduler and its children are
--                  `_try_send_next` with what it calls, Kernel/Calls and its children are what the
--                  session, the timers, the client and the event loop call, Kernel/Steps is a run
--                  of these calls, each at its time.
--   Permissions    src/elke27_lib/permissions.py: the levels and the generator tables.
--   CommandKinds   src/elke27_lib/command_kinds.py: the routes that only read the panel.
--
-- State is passed explicitly: a method takes the record of its object and returns the new one with
-- its result, the callbacks it made, or the calls of handlers. Exceptions are values of `Result`.
-- The panel and the network are inputs: the list of reads of a receive call, how HELLO ends, the
-- readings of the clock. Loops are structural, over the bytes of a chunk, the reads before the
-- deadline or the items of a dict. The one exception is `_try_send_next`, which calls itself again
-- through `_kick_scheduler` and the failures it handles: it has the sends that are still to come as
-- its fuel, and with that much it has the equation of the code.
--
-- AES-128-CBC of the `cryptography` package is a parameter, the record `AesCbc`, with what the code
-- relies on: decryption undoes encryption, lengths are kept, and the ciphertext is bytes. Handlers,
-- merge functions and the logger's levels are parameters as well. The kernel has two more: what
-- `send_json` raises for a request, and what `dispatch` does to the dispatcher. Its runs assume of the
-- session's outbound queue that it does not call `on_fail` for an item after `on_sent`, which it does
-- only where `on_sent` raises. Times of the kernel are whole milliseconds, and all its calls happen on
-- its event loop.
--
-- Not modelled: threads and locks, partial socket writes, log records, the coding of JSON text, the
-- kernel's connect, keepalive and events, linking, the client and the feature handlers. Two calls on
-- one session, or two calls of `dispatch`, follow each other and never overlap.
pub mod Base
pub mod Util
pub mod Framing
pub mod Presentation
pub mod Session
pub mod Dispatch
pub mod Permissions
pub mod CommandKinds
pub mod Encryption
pub mod Pending
pub mod Outbound
pub mod Kernel
