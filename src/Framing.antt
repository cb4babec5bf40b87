-- ===== src/Framing.antt =====
-- src/elke27_lib/framing_loop.py: `frame_build`, `deframe_feed` and their state. Log records are
-- not modelled, but the flags that throttle them are, with the logger's levels as a parameter.
pub mod Deframe
pub mod Escape
pub mod RoundTrip
pub mod Chunks
pub mod Stream
pub mod Safety
pub mod Duplicate
mod Tests
use elke.Base.{
  ℕ, zero, suc, ◌+◌, ◌-◌, ◌*◌, ◌/◌, ◌%◌, bit_or, Bool, true, false, not, ◌&&◌, ◌||◌, Option, none,
  some, List, [], ◌∷◌, ◌++◌, ltb, ◌==◌, if◌then◌else◌, length, get_elem?, take,
}
use elke.Base.Bytes.{Bytes}
use elke.Base.Result.{Result, ok, err, ◌>>=◌, ◌>>◌, raise_if, PyError, value_error, index_error}
use elke.Util.Crc.{calculate_crc16_checksum}

abbrev pub startchar : ℕ
startchar = 0x7E

pub data FrameStates : Type 0 where
  wait_start wait_length wait_data : FrameStates

pub data RxErrorType : Type 0 where
  bad_crc framing_error overflow : RxErrorType

-- `DeframeResult`: `ok=True` with its frame, or `ok=False` with its error.
pub data DeframeResult : Type 0 where
  frame : Bytes → DeframeResult
  failure : RxErrorType → DeframeResult

pub record DeframeState : Type 0 where
  pub escaping : Bool
  pub just_resynced : Bool
  pub warned_wait_start : Bool
  pub seen_frame : Bool
  pub warned_resync : Bool
  pub rcv_state : FrameStates
  pub msglength : ℕ
  pub input_buffer : Bytes
  pub data_bus_in_buffer_size : ℕ
  pub min_message_size : ℕ

-- `DeframeState()`
abbrev pub initial : DeframeState
initial = record {
  escaping = false;
  just_resynced = false;
  warned_wait_start = false;
  seen_frame = false;
  warned_resync = false;
  rcv_state = wait_start;
  msglength = 0;
  input_buffer = [];
  data_bus_in_buffer_size = 4096;
  min_message_size = 5;
}

-- The escaping loop of `frame_build`, for one byte and for all.
abbrev pub escape_byte : ℕ → Bytes
escape_byte b = if b == startchar then startchar ∷ 0 ∷ [] else b ∷ []

abbrev pub escape : Bytes → Bytes
escape [] = []
escape (b ∷ bs) = escape_byte b ++ escape bs

-- Protocol byte, length and data, before the checksum.
abbrev pub framed : ℕ → Bytes → Bytes
framed protocol_byte data_frame =
    let message_length = 1 + 2 + length data_frame + 2 in
    protocol_byte % 256 ∷ message_length % 256 ∷ message_length / 256 % 256 ∷ data_frame

unfoldable pub frame_build : ℕ → Bytes → Result PyError Bytes
frame_build protocol_byte data_frame = do
  raise_if (ltb 0xFF protocol_byte) value_error
  let unescaped = framed protocol_byte data_frame
  crc ← calculate_crc16_checksum 0 unescaped 0 (length unescaped)
  ok (startchar ∷ escape (unescaped ++ (crc % 256 ∷ crc / 256 % 256 ∷ [])))

abbrev pub reset_to_wait_start : DeframeState → DeframeState
reset_to_wait_start st = record st {
  rcv_state = wait_start;
  msglength = 0;
  input_buffer = [];
  escaping = false;
  just_resynced = false;
  warned_wait_start = false;
  warned_resync = false;
}

-- The levels of `logging` that the deframer uses.
pub data LogLevel : Type 0 where
  debug warning error : LogLevel

abbrev pub discard_log_level : DeframeState → LogLevel
discard_log_level st = if st.seen_frame then warning else debug

abbrev pub is_wait_start : FrameStates → Bool
is_wait_start wait_start = true
is_wait_start _ = false

abbrev pub is_empty : Bytes → Bool
is_empty [] = true
is_empty (_ ∷ _) = false

-- What one byte of the stream does: the new state, and the results appended.
abbrev pub Step : Type 0
Step = Result PyError (DeframeState × List DeframeResult)

-- `buf[i]`, which raises out of range.
abbrev pub item : Bytes → ℕ → Result PyError ℕ
item buf i = elim (get_elem? buf i) [ none ↦ err index_error | some b ↦ ok b ]

-- `buf[-n]`
abbrev pub item_back : Bytes → ℕ → Result PyError ℕ
item_back buf n = if ltb (length buf) n then err index_error else item buf (length buf - n)
