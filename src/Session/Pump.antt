-- ===== src/Session/Pump.antt =====
-- `_recv_one_frame_no_crc` of src/elke27_lib/session_thread.py: the first good frame of a stream.
use elke.Base.{◌≡◌, refl, sym, ap, ◌∙◌, Bool, List, [], ◌∷◌, ◌++◌, map}
use elke.Base.Bytes.{Bytes}
use elke.Base.Result.{ok, err, ◌>>=◌}
use elke.Framing.{DeframeResult, frame, failure, DeframeState, LogLevel, Step}
use elke.Framing.Deframe.{deframe_feed}
use elke.Framing.Escape.{emit}
use elke.Framing.Chunks.{deframe_chunks}
use elke.Framing.Stream.{results}
use elke.Framing.Duplicate.{AllFailures}
use elke.Session.Codec.{Read, chunk, good_frames, pump_frames}

good_frames-append :
    (xs ys : List DeframeResult) → good_frames (xs ++ ys) ≡ good_frames xs ++ good_frames ys
unfolding good_frames
good_frames-append [] ys = refl
good_frames-append (frame f ∷ xs) ys = ap (◌∷◌ f) (good_frames-append xs ys)
good_frames-append (failure _ ∷ xs) ys = good_frames-append xs ys

pub good_frames_none : (rs : List DeframeResult) → AllFailures rs → good_frames rs ≡ []
unfolding good_frames
good_frames_none [] h = refl
good_frames_none (frame _ ∷ rs) h = elim h [ ]
good_frames_none (failure _ ∷ rs) h = good_frames_none rs h

results-emit :
    (now : List DeframeResult) (m : Step) {rs : List DeframeResult}
    → results (emit now m) ≡ ok rs
    → (later : List DeframeResult) × (results m ≡ ok later) × (rs ≡ now ++ later)
results-emit now (ok (s, later)) e = (later, refl, cc)
results-emit now (err x) e = cc

module _ (enabled : LogLevel → Bool) where
  -- What the pump returns: this frame, in some state.
  abbrev pub Pumps : DeframeState → List Bytes → List Read → Bytes → Type 0
  Pumps st pending reads f =
      (st' : DeframeState) × (pending' : List Bytes) × (pump_frames enabled st pending reads
        ≡ (st', pending', ok f))

  pump_frames-pending :
      (st : DeframeState) (g : Bytes) (gs : List Bytes) (reads : List Read) (f : Bytes)
      → g ≡ f
      → Pumps st (g ∷ gs) reads f
  unfolding pump_frames
  pump_frames-pending st g gs reads f e = (st, gs, ap (λ b. (st, gs, ok b)) e)

  -- The first chunk is fed; its good frames are returned, or else the next read is made.
  pub pump_frames-chunk :
      (st s : DeframeState) (bs : Bytes) (now : List DeframeResult) (gs : List Bytes)
      (reads : List Read) (f : Bytes)
      → deframe_feed enabled st bs ≡ ok (s, now)
      → good_frames now ≡ gs
      → Pumps s gs reads f
      → Pumps st [] (chunk bs ∷ reads) f
  unfolding pump_frames
  pump_frames-chunk st s bs now gs reads f fed good (st', pending, e) =
      (st', pending, rw (fed, pump_frames) (rw good e))

  pump_step :
      (m : Step) (cs : List Bytes) (c : Bytes) (st : DeframeState) (rs : List DeframeResult)
      (f : Bytes) (more : List Bytes)
      → deframe_feed enabled st c ≡ m
      → results (m >>= λ (s, now). emit now (deframe_chunks enabled s cs)) ≡ ok rs
      → good_frames rs ≡ f ∷ more
      → ((s : DeframeState) (later : List DeframeResult)
          → results (deframe_chunks enabled s cs) ≡ ok later
          → good_frames later ≡ f ∷ more
          → Pumps s [] (map chunk cs) f)
      → Pumps st [] (chunk c ∷ map chunk cs) f
  pump_step (err x) cs c st rs f more d r g next = cc
  pump_step (ok (s, now)) cs c st rs f more d r g next =
      let (later, rest, both) = results-emit now (deframe_chunks enabled s cs) r in
      let split : good_frames now ++ good_frames later ≡ f ∷ more =
        sym (good_frames-append now later) ∙ ap good_frames (sym both) ∙ g in
      go (good_frames now) later refl rest split
    where
      go :
          (gs : List Bytes) (later : List DeframeResult)
          → good_frames now ≡ gs
          → results (deframe_chunks enabled s cs) ≡ ok later
          → gs ++ good_frames later ≡ f ∷ more
          → Pumps st [] (chunk c ∷ map chunk cs) f
      go [] later good rest split =
          pump_frames-chunk st s c now [] (map chunk cs) f d good (next s later rest split)
      go (x ∷ gs) later good rest split =
          pump_frames-chunk st s c now (x ∷ gs) (map chunk cs) f d good
            (pump_frames-pending s x gs (map chunk cs) f (cc))

  -- The pump returns the first good frame of the stream, however the stream is cut.
  pub pump_frames-first :
      (chunks : List Bytes) (st : DeframeState) (rs : List DeframeResult) (f : Bytes)
      (more : List Bytes)
      → results (deframe_chunks enabled st chunks) ≡ ok rs
      → good_frames rs ≡ f ∷ more
      → Pumps st [] (map chunk chunks) f
  unfolding deframe_chunks good_frames
  pump_frames-first [] st rs f more e g =
      let nothing : rs ≡ [] = cc in
      let clash : ◌≡◌ {A = List Bytes} [] (f ∷ more) = ap good_frames (sym nothing) ∙ g in cc
  pump_frames-first (c ∷ cs) st rs f more e g =
      pump_step (deframe_feed enabled st c) cs c st rs f more refl e g
        (λ s later. pump_frames-first cs s later f more)
