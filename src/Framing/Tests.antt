-- ===== src/Framing/Tests.antt =====
-- Runs of src/elke27_lib/framing_loop.py, and its theorems at concrete inputs.
use mathlib.Core.List.{flatten}
use elke.Base.{ℕ, ◌≡◌, refl, Bool, true, List, [], ◌∷◌, arith}
use elke.Base.Bytes.{Bytes}
use elke.Base.Result.{ok, ◌>>=◌}
use elke.Util.Crc.{calculate_crc16_checksum, crc_byte, crc_bits, crc_bit}
use elke.Framing.{frame, LogLevel, initial, frame_build}
use elke.Framing.Deframe.{deframe_feed}
use elke.Framing.Chunks.{erase_step, deframe_chunks, deframe_chunks-flatten}
use elke.Framing.RoundTrip.{ready}
use elke.Framing.Stream.{
  Sendable, AllSendable, build_all, results, deframe_feed-frame_build, deframe_chunks-build_all,
}
use elke.Framing.Safety.{IsValid, Safe, deframe_feed-Safe}
use elke.Framing.Duplicate.{NoFrame, deframe_feed_loses}

abbrev all_levels : LogLevel → Bool
all_levels _ = true

abbrev escaped_data : Bytes
escaped_data = 0x7E ∷ 1 ∷ []

abbrev messages : List (ℕ × Bytes)
messages = (0x80, escaped_data) ∷ (0x81, 5 ∷ []) ∷ []

-- The two frames of the messages, cut inside the first one.
abbrev cut_chunks : List Bytes
cut_chunks =
    (126 ∷ 128 ∷ 7 ∷ []) ∷ (0 ∷ 126 ∷ 0 ∷ 1 ∷ 224 ∷ 202 ∷ 126 ∷ 129 ∷ 6 ∷ 0 ∷ 5 ∷ 8 ∷ 62 ∷ []) ∷ []

build_all-messages : build_all messages ≡ ok (flatten cut_chunks)
unfolding frame_build calculate_crc16_checksum crc_byte crc_bits crc_bit flatten
build_all-messages = refl

escaped_data-Sendable : Sendable initial 0x80 escaped_data
escaped_data-Sendable = record {
  protocol = omega arith;
  bytes = omega arith;
  admitted = omega arith;
  no_duplicate = omega arith;
}

messages-AllSendable : AllSendable initial messages
messages-AllSendable = (
  escaped_data-Sendable,
  (
    record {
      protocol = omega arith;
      bytes = omega arith;
      admitted = omega arith;
      no_duplicate = omega arith;
    },
    tt,
  ),
)

deframe_feed-frame_build_example :
    (frame_build 0x80 escaped_data >>= deframe_feed all_levels initial)
    ≡ ok (ready initial, frame (0x80 ∷ 7 ∷ 0 ∷ 0x7E ∷ 1 ∷ []) ∷ [])
deframe_feed-frame_build_example =
    deframe_feed-frame_build all_levels initial 0x80 escaped_data escaped_data-Sendable

deframe_chunks-build_all_example :
    results (deframe_chunks all_levels initial cut_chunks)
    ≡ ok (frame (0x80 ∷ 7 ∷ 0 ∷ 0x7E ∷ 1 ∷ []) ∷ frame (0x81 ∷ 6 ∷ 0 ∷ 5 ∷ []) ∷ [])
deframe_chunks-build_all_example =
    deframe_chunks-build_all all_levels initial messages cut_chunks messages-AllSendable
      build_all-messages

deframe_chunks-flatten_example :
    erase_step (deframe_chunks all_levels initial cut_chunks)
    ≡ erase_step (deframe_feed all_levels initial (flatten cut_chunks))
deframe_chunks-flatten_example = deframe_chunks-flatten all_levels cut_chunks initial

initial-IsValid : IsValid 5 4096 (omega arith) initial
initial-IsValid = record { least_is = refl; most_is = refl; buffer = refl }

deframe_feed-Safe_example :
    Safe 5 4096 (omega arith) 4 (deframe_feed all_levels initial (0x7E ∷ 0x80 ∷ 6 ∷ 0 ∷ []))
deframe_feed-Safe_example =
    deframe_feed-Safe 5 4096 (omega arith) all_levels initial (0x7E ∷ 0x80 ∷ 6 ∷ 0 ∷ [])
      initial-IsValid

-- One data byte makes the length 6, which is the protocol byte.
deframe_feed_loses_example : NoFrame (frame_build 6 (1 ∷ []) >>= deframe_feed all_levels initial)
deframe_feed_loses_example =
    deframe_feed_loses all_levels initial 6 (1 ∷ []) (omega arith) (omega arith) refl (omega arith)
      (omega arith)
