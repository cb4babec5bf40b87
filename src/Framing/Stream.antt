-- ===== src/Framing/Stream.antt =====
-- What the deframer delivers of a stream that holds frames of `frame_build`.
use mathlib.Core.List.{flatten}
use elke.Base.{
  ℕ, ◌%◌, ◌≡◌, ◌≢◌, refl, sym, ap, ◌∙◌, Bool, List, [], ◌∷◌, ◌++◌, append-nil, arith, length,
}
use elke.Base.Bytes.{Bytes, IsBytes}
use elke.Base.Result.{Result, ok, err, ◌>>=◌, PyError}
use elke.Framing.{DeframeResult, frame, DeframeState, LogLevel, Step, framed, frame_build}
use elke.Framing.Deframe.{feed_bytes, deframe_feed, warn_chunk}
use elke.Framing.Escape.{emit}
use elke.Framing.RoundTrip.{
  IsProtocol, Admits, message_length, ready, wire, frame_build-wire, feed-frame_build,
}
use elke.Framing.Chunks.{erase_step, deframe_chunks, deframe_chunks_bytes}

-- A message that survives the wire, between limits `lo` and `hi` on its length.
pub record Sendable (st : DeframeState) (p : ℕ) (data_frame : Bytes) : Type 0 where
  pub protocol : IsProtocol p
  pub bytes : IsBytes data_frame
  pub admitted : Admits st (message_length (length data_frame))
  pub no_duplicate : message_length (length data_frame) % 256 ≢ p

ready-warn_chunk : (st : DeframeState) (chunk : Bytes) → ready (warn_chunk st chunk) ≡ ready st
ready-warn_chunk st chunk = ground arith

Sendable-warn_chunk :
    (st : DeframeState) (chunk : Bytes) {p : ℕ} {data_frame : Bytes}
    → Sendable st p data_frame
    → Admits (warn_chunk st chunk) (message_length (length data_frame))
Sendable-warn_chunk st chunk h = let admitted = h.admitted in ground arith

-- Built and received from any state at all, a sendable message is the one result.
pub deframe_feed-frame_build :
    (enabled : LogLevel → Bool) (st : DeframeState) (p : ℕ) (data_frame : Bytes)
    → Sendable st p data_frame
    → (frame_build p data_frame >>= deframe_feed enabled st)
      ≡ ok (ready st, frame (framed p data_frame) ∷ [])
unfolding deframe_feed
deframe_feed-frame_build enabled st p data_frame h =
    let w = wire p data_frame in
    let begun = warn_chunk st w in
    let received =
      feed-frame_build enabled begun p data_frame [] h.protocol h.bytes (Sendable-warn_chunk st w h)
        h.no_duplicate in
    ap (λ m. m >>= deframe_feed enabled st) (frame_build-wire p data_frame h.protocol.1)
    ∙ ap (feed_bytes enabled begun) (sym (append-nil w))
    ∙ received
    ∙ unfold feed_bytes in
      ap (λ s. ok (s, frame (framed p data_frame) ∷ [])) (ready-warn_chunk st w)

-- The frames of several messages, one behind the other.
abbrev pub build_all : List (ℕ × Bytes) → Result PyError Bytes
build_all [] = ok []
build_all ((p, data_frame) ∷ ms) = do w ← frame_build p data_frame; ws ← build_all ms; ok (w ++ ws)

abbrev pub AllSendable : DeframeState → List (ℕ × Bytes) → Type 0
AllSendable st [] = Unit
AllSendable st ((p, data_frame) ∷ ms) = Sendable st p data_frame × AllSendable st ms

abbrev pub results : Step → Result PyError (List DeframeResult)
results (ok (_, rs)) = ok rs
results (err e) = err e

abbrev pub delivered : List (ℕ × Bytes) → List DeframeResult
delivered [] = []
delivered ((p, data_frame) ∷ ms) = frame (framed p data_frame) ∷ delivered ms

abbrev wires : List (ℕ × Bytes) → Bytes
wires [] = []
wires ((p, data_frame) ∷ ms) = wire p data_frame ++ wires ms

build_all-wires :
    (st : DeframeState) (ms : List (ℕ × Bytes)) → AllSendable st ms → build_all ms ≡ ok (wires ms)
build_all-wires st [] h = refl
build_all-wires st ((p, data_frame) ∷ ms) h =
    rw (frame_build-wire p data_frame h.0.protocol.1) (rw (build_all-wires st ms h.1))

AllSendable-limits :
    (st st' : DeframeState) (ms : List (ℕ × Bytes))
    → st.min_message_size ≡ st'.min_message_size
    → st.data_bus_in_buffer_size ≡ st'.data_bus_in_buffer_size
    → AllSendable st ms
    → AllSendable st' ms
AllSendable-limits st st' [] a b h = tt
AllSendable-limits st st' ((p, data_frame) ∷ ms) a b (s, h) =
    let admitted = s.admitted in
    (
      record {
        protocol = s.protocol;
        bytes = s.bytes;
        admitted = omega arith;
        no_duplicate = s.no_duplicate;
      },
      AllSendable-limits st st' ms a b h,
    )

feed_bytes-wires :
    (enabled : LogLevel → Bool) (ms : List (ℕ × Bytes)) (st : DeframeState)
    → AllSendable st ms
    → results (feed_bytes enabled st (wires ms)) ≡ ok (delivered ms)
feed_bytes-wires enabled [] st h = unfold feed_bytes in refl
feed_bytes-wires enabled ((p, data_frame) ∷ ms) st (s, h) =
    ap results (
      feed-frame_build enabled st p data_frame (wires ms) s.protocol s.bytes s.admitted
        s.no_duplicate)
    ∙ results_emit (feed_bytes enabled (ready st) (wires ms))
        (feed_bytes-wires enabled ms (ready st) (AllSendable-limits st (ready st) ms refl refl h))
  where
    results_emit :
        {r : DeframeResult} {rs : List DeframeResult} (m : Step)
        → results m ≡ ok rs
        → results (emit (r ∷ []) m) ≡ ok (r ∷ rs)
    results_emit (ok (t, ts)) e = cc
    results_emit (err x) e = cc

-- Any stream of sendable messages, cut into chunks in any way, delivers just those messages in
-- their order, from any state of the deframer.
pub deframe_chunks-build_all :
    (enabled : LogLevel → Bool) (st : DeframeState) (ms : List (ℕ × Bytes)) (chunks : List Bytes)
    → AllSendable st ms
    → build_all ms ≡ ok (flatten chunks)
    → results (deframe_chunks enabled st chunks) ≡ ok (delivered ms)
deframe_chunks-build_all enabled st ms chunks h e =
    let same : wires ms ≡ flatten chunks = ok_injective (sym (build_all-wires st ms h) ∙ e) in
    results_erase (deframe_chunks enabled st chunks)
    ∙ ap results (deframe_chunks_bytes enabled chunks st st refl)
    ∙ sym (results_erase (feed_bytes enabled st (flatten chunks)))
    ∙ ap (λ w. results (feed_bytes enabled st w)) (sym same)
    ∙ feed_bytes-wires enabled ms st h
  where
    ok_injective : {a b : Bytes} → ◌≡◌ {A = Result PyError Bytes} (ok a) (ok b) → a ≡ b
    ok_injective d = cc

    results_erase : (m : Step) → results m ≡ results (erase_step m)
    results_erase (ok r) = refl
    results_erase (err x) = refl
