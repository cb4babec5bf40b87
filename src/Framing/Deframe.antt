-- ===== src/Framing/Deframe.antt =====
-- `deframe_feed` of src/elke27_lib/framing_loop.py: the receiving state machine, byte by byte.
use elke.Base.{
  ℕ, suc, ◌-◌, ◌*◌, ◌%◌, bit_or, Bool, true, false, not, ◌&&◌, ◌||◌, Option, none, some, [], ◌∷◌,
  ◌++◌, ltb, ◌==◌, if◌then◌else◌, length, take,
}
use elke.Base.Bytes.{Bytes}
use elke.Base.Result.{ok, ◌>>=◌}
use elke.Util.Crc.{calculate_crc16_checksum}
use elke.Framing.{
  startchar, FrameStates, wait_start, wait_length, wait_data, bad_crc, framing_error, overflow,
  frame, failure, DeframeState, reset_to_wait_start, LogLevel, error, discard_log_level,
  is_wait_start, is_empty, Step, item, item_back,
}

-- The state after STARTCHAR and a non-zero byte: `b` is the protocol byte of a new frame.
abbrev pub started : (LogLevel → Bool) → DeframeState → ℕ → DeframeState
started enabled st b =
    let midframe = not (is_wait_start st.rcv_state) || not (is_empty st.input_buffer) in
    let warn = not st.warned_resync && midframe && enabled error in
    record st {
      warned_resync = if warn then true else st.warned_resync;
      input_buffer = b ∷ [];
      msglength = 0;
      rcv_state = wait_length;
      escaping = false;
      just_resynced = true;
    }

-- Until a frame starts, bytes are thrown away, each with an error.
abbrev pub discard : (LogLevel → Bool) → DeframeState → Step
discard enabled st =
    let warn = not st.warned_wait_start && enabled (discard_log_level st) in
    ok (
      record st { warned_wait_start = if warn then true else st.warned_wait_start },
      failure framing_error ∷ [],
    )

-- The two bytes of the length are in: `buf[1] | (buf[2] << 8)`, and the limits.
abbrev pub end_length : DeframeState → Step
end_length st = do
  lo ← item st.input_buffer 1
  hi ← item st.input_buffer 2
  let n = bit_or lo (hi * 256)
  let bad = ltb n st.min_message_size || ltb st.data_bus_in_buffer_size n
  ok (
      if bad
      then (reset_to_wait_start (record st { msglength = n }), failure overflow ∷ [])
      else (record st { msglength = n; rcv_state = wait_data }, []))

-- A byte equal to the protocol byte, directly behind it, is skipped.
abbrev pub is_duplicate : DeframeState → ℕ → Bool
is_duplicate st b = elim st.input_buffer [
  | [] ↦ false
  | p ∷ rest ↦ elim rest [ [] ↦ st.just_resynced && b == p | _ ∷ _ ↦ false ]
]

abbrev pub collect_length : DeframeState → ℕ → Step
collect_length st b =
    if is_duplicate st b
    then ok (st, [])
    else (let buf = st.input_buffer ++ (b ∷ []) in
        let resynced = if ltb (length buf) 2 then st.just_resynced else false in
        let st' = record st { input_buffer = buf; just_resynced = resynced } in
        if length buf == 3 then end_length st' else ok (st', []))

-- The message is complete: its checksum decides.
unfoldable pub end_message : DeframeState → Bytes → Step
end_message st buf = do
  lo ← item_back buf 2
  hi ← item_back buf 1
  let recv_crc = bit_or lo (hi * 256)
  calc_crc ← calculate_crc16_checksum 0 buf 0 (length buf - 2)
  ok (
      if calc_crc == recv_crc
      then (
        reset_to_wait_start (record st { seen_frame = true }),
        frame (take (length buf - 2) buf) ∷ [],
      )
      else (reset_to_wait_start st, failure bad_crc ∷ []))

abbrev pub end_data : DeframeState → Step
end_data st = end_message st st.input_buffer

abbrev pub collect_data : DeframeState → ℕ → Step
collect_data st b =
    let st' = record st { input_buffer = st.input_buffer ++ (b ∷ []) } in
    if length st'.input_buffer == st.msglength then end_data st' else ok (st', [])

-- A byte of the framed portion, its escape undone.
unfoldable pub collect : (LogLevel → Bool) → FrameStates → DeframeState → ℕ → Step
unfolding end_message
collect enabled wait_start st b = discard enabled st
collect enabled wait_length st b = collect_length st b
collect enabled wait_data st b = collect_data st b

-- The body of `for raw in chunk`.
unfoldable pub feed_byte : (LogLevel → Bool) → DeframeState → ℕ → Step
feed_byte enabled st raw =
    let b = raw % 256 in
    if b == startchar
    then ok (record st { escaping = true; warned_wait_start = false }, [])
    else if st.escaping && not (b == 0)
    then ok (started enabled st b, [])
    else collect enabled st.rcv_state (record st { escaping = false })
        (if st.escaping then startchar else b)

unfoldable pub feed_bytes : (LogLevel → Bool) → DeframeState → Bytes → Step
feed_bytes enabled st [] = ok (st, [])
feed_bytes enabled st (raw ∷ chunk) = do
  (st', now) ← feed_byte enabled st raw
  (st'', later) ← feed_bytes enabled st' chunk
  ok (st'', now ++ later)

-- `chunk.find(b"\x7e")`
abbrev pub find : ℕ → Bytes → Option ℕ
find b [] = none
find b (c ∷ cs) =
    if c == b then some 0 else elim (find b cs) [ none ↦ none | some i ↦ some (suc i) ]

abbrev at_start : Option ℕ → Bool
at_start none = false
at_start (some i) = i == 0

-- The warning at the head of a chunk that does not begin with STARTCHAR.
abbrev pub warn_chunk : DeframeState → Bytes → DeframeState
warn_chunk st chunk =
    if is_wait_start st.rcv_state
      && not (is_empty chunk)
      && not (at_start (find startchar chunk))
      && not st.warned_wait_start
    then record st { warned_wait_start = true }
    else st

unfoldable pub deframe_feed : (LogLevel → Bool) → DeframeState → Bytes → Step
unfolding feed_bytes feed_byte collect
deframe_feed enabled st chunk = feed_bytes enabled (warn_chunk st chunk) chunk
