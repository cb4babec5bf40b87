-- ===== src/Framing/Safety.antt =====
-- The invariant of the deframer: it never raises, its buffer stays within the limits, and a frame
-- that it delivers has the length that it announces.
use elke.Base.{
  ℕ, zero, suc, ◌+◌, ◌-◌, ◌*◌, ◌%◌, ◌<◌, ◌≤◌, ◌≡◌, refl, sym, ap, subst, ◌∙◌, Bool, true, false,
  List, [], ◌∷◌, ◌++◌, arith, ◌==◌, if◌then◌else◌, length, length-append, bit_or, not, ◌&&◌, take,
  drop, get_elem?-IsSome, ge→ltb, Bool-cases, ==_iff, inl, inr, length-take_le, take-append-drop,
}
use elke.Base.Bytes.{Bytes}
use elke.Base.Result.{ok, err, ◌>>=◌}
use elke.Util.Crc.{crc16, calculate_crc16_checksum, calculate_crc16_checksum-crc16}
use elke.Framing.{
  startchar, FrameStates, wait_start, wait_length, wait_data, DeframeResult, frame, failure,
  DeframeState, LogLevel, Step, discard_log_level, item, item_back,
}
use elke.Framing.Escape.{emit}
use elke.Framing.Deframe.{
  started, collect, end_message, feed_byte, feed_bytes, deframe_feed, warn_chunk,
}

-- The bytes behind the protocol byte say that the message has length `n`.
abbrev pub Announces : Bytes → ℕ → Type 0
Announces (p ∷ (lo ∷ (hi ∷ rest))) n = bit_or lo (hi * 256) ≡ n
Announces _ n = ⊥

-- What each state knows of the buffer, the announced length and the limits.
abbrev BufferInv : FrameStates → Bytes → ℕ → ℕ → ℕ → Type 0
BufferInv wait_start buf n least most = buf ≡ []
BufferInv wait_length buf n least most = (0 < length buf) × (length buf < 3)
BufferInv wait_data buf n least most =
    Announces buf n × (3 ≤ length buf) × (length buf < n) × (least ≤ n) × (n ≤ most)

item_back-IsSome :
    (buf : Bytes) (n : ℕ) → 0 < n → n ≤ length buf → (b : ℕ) × (item_back buf n ≡ ok b)
item_back-IsSome buf n pos h =
    let (b, e) = get_elem?-IsSome buf (length buf - n) (omega arith) in
    (b, rw (ge→ltb (length buf) n h) (rw (e, item)))

checksum-ok :
    (buf : Bytes) (n : ℕ)
    → n ≤ length buf
    → calculate_crc16_checksum 0 buf 0 n ≡ ok (crc16 (take n buf))
checksum-ok buf n h =
    let len = length-take_le n buf h in
    ap (λ bs. calculate_crc16_checksum 0 bs 0 n) (sym (take-append-drop n buf))
    ∙ ap (calculate_crc16_checksum 0 (take n buf ++ drop n buf) 0) (sym len)
    ∙ calculate_crc16_checksum-crc16 (take n buf) (drop n buf)

Announces-take : (buf : Bytes) (k n : ℕ) → 3 ≤ k → Announces buf n → Announces (take k buf) n
Announces-take (p ∷ (lo ∷ (hi ∷ rest))) (suc (suc (suc k))) n h a = a
Announces-take (p ∷ (lo ∷ (hi ∷ rest))) zero n h a = elim h [ ]
Announces-take (p ∷ (lo ∷ (hi ∷ rest))) (suc zero) n h a = absurd (omega arith)
Announces-take (p ∷ (lo ∷ (hi ∷ rest))) (suc (suc zero)) n h a = absurd (omega arith)
Announces-take [] k n h a = elim a [ ]
Announces-take (_ ∷ []) k n h a = elim a [ ]
Announces-take (_ ∷ (_ ∷ [])) k n h a = elim a [ ]

Announces-append : (buf zs : Bytes) (n : ℕ) → Announces buf n → Announces (buf ++ zs) n
Announces-append (p ∷ (lo ∷ (hi ∷ rest))) zs n a = a
Announces-append [] zs n a = elim a [ ]
Announces-append (_ ∷ []) zs n a = elim a [ ]
Announces-append (_ ∷ (_ ∷ [])) zs n a = elim a [ ]

module _ (least most : ℕ) (header : 5 ≤ least) where
  pub record IsValid (st : DeframeState) : Type 0 where
    pub least_is : st.min_message_size ≡ least
    pub most_is : st.data_bus_in_buffer_size ≡ most
    pub buffer : BufferInv st.rcv_state st.input_buffer st.msglength least most

  -- A delivered frame, its checksum removed, has the announced length, within the limits.
  abbrev pub IsGood : DeframeResult → Type 0
  IsGood (frame body) =
      Announces body (length body + 2) × (least ≤ length body + 2) × (length body + 2 ≤ most)
  IsGood (failure _) = Unit

  abbrev pub AllGood : List DeframeResult → Type 0
  AllGood [] = Unit
  AllGood (r ∷ rs) = IsGood r × AllGood rs

  -- A call that returns a valid state and at most `n` results, all good.
  abbrev pub Safe : ℕ → Step → Type 0
  Safe n (ok (st, rs)) = IsValid st × AllGood rs × (length rs ≤ n)
  Safe n (err _) = ⊥

  -- The invariant with the receive state and the buffer written out.
  at_state :
      {st : DeframeState} {r : FrameStates} {buf : Bytes}
      → IsValid st
      → st.rcv_state ≡ r
      → st.input_buffer ≡ buf
      → BufferInv r buf st.msglength least most
  at_state v e d = rw d at (rw e at v.buffer)

  collect_length-Safe :
      (enabled : LogLevel → Bool) (st : DeframeState) (b : ℕ) (buf : Bytes)
      → IsValid st
      → st.rcv_state ≡ wait_length
      → st.input_buffer ≡ buf
      → Safe 1 (collect enabled wait_length st b)
  unfolding collect
  collect_length-Safe enabled st b [] v r e = elim (at_state v r e).0 [ ]
  collect_length-Safe enabled st b (x ∷ []) v r e = rw e (ground arith)
  collect_length-Safe enabled st b (x ∷ (y ∷ [])) v r e = rw e (ground arith)
  collect_length-Safe enabled st b (x ∷ (y ∷ (z ∷ zs))) v r e =
      absurd (omega (arith, (at_state v r e).1))

  end_message-Safe :
      (st : DeframeState) (buf : Bytes)
      → st.min_message_size ≡ least
      → st.data_bus_in_buffer_size ≡ most
      → Announces buf (length buf)
      → least ≤ length buf
      → length buf ≤ most
      → Safe 1 (end_message st buf)
  unfolding end_message
  end_message-Safe st buf least_is most_is a low high =
      let n = length buf - 2 in
      let (lo, back2) = item_back-IsSome buf 2 (omega arith) (omega arith) in
      let (hi, back1) = item_back-IsSome buf 1 (omega arith) (omega arith) in
      let len : length (take n buf) ≡ n = length-take_le n buf (omega arith) in
      let whole : length (take n buf) + 2 ≡ length buf = omega arith in
      let good : IsGood (frame (take n buf)) =
        (rw whole (Announces-take buf n (length buf) (omega arith) a), omega arith, omega arith) in
      rw back2 (rw back1 (rw (checksum-ok buf n (omega arith)) (ground arith)))

  collect_data-Safe :
      (enabled : LogLevel → Bool) (st : DeframeState) (b : ℕ)
      → IsValid st
      → st.rcv_state ≡ wait_data
      → Safe 1 (collect enabled wait_data st b)
  unfolding collect
  collect_data-Safe enabled st b v r =
      let inv = at_state v r refl in
      let buf = st.input_buffer ++ (b ∷ []) in
      let len = length-append st.input_buffer (b ∷ []) in
      let a = Announces-append st.input_buffer (b ∷ []) st.msglength inv.0 in
      let st' = record st { input_buffer = buf } in
      elim (Bool-cases (length buf == st.msglength)) [
        | inl full ↦
            let e : length buf ≡ st.msglength = (==_iff _ _).0 full in
            rw full (
              end_message-Safe st' buf v.least_is v.most_is (rw e a) (omega (arith, inv.3))
                (omega (arith, inv.4)))
        | inr more ↦
            let ne : ¬ (length buf ≡ st.msglength) = (λ e. cc ((==_iff _ _).1 e)) in
            let kept : IsValid st' = record {
              least_is = v.least_is;
              most_is = v.most_is;
              buffer = rw r (a, omega (arith, inv.1), omega (arith, inv.2), inv.3, inv.4);
            } in
            rw more (kept, tt, omega arith)
      ]

  -- The flags play no part in the invariant.
  flags-IsValid :
      {st : DeframeState} (escaping warned : Bool)
      → IsValid st
      → IsValid (record st { escaping = escaping; warned_wait_start = warned })
  flags-IsValid escaping warned v = record {
    least_is = v.least_is;
    most_is = v.most_is;
    buffer = v.buffer;
  }

  collect-Safe :
      (enabled : LogLevel → Bool) (r : FrameStates) (st : DeframeState) (b : ℕ)
      → IsValid st
      → st.rcv_state ≡ r
      → Safe 1 (collect enabled r st b)
  collect-Safe enabled wait_start st b v r =
      unfold collect in
      (
        flags-IsValid st.escaping
            (if not st.warned_wait_start && enabled (discard_log_level st)
              then true
              else st.warned_wait_start)
            v,
        (tt, tt),
        omega arith,
      )
  collect-Safe enabled wait_length st b v r =
      collect_length-Safe enabled st b st.input_buffer v r refl
  collect-Safe enabled wait_data st b v r = collect_data-Safe enabled st b v r

  started-IsValid :
      (enabled : LogLevel → Bool) (st : DeframeState) (b : ℕ)
      → IsValid st
      → IsValid (started enabled st b)
  started-IsValid enabled st b v = record {
    least_is = v.least_is;
    most_is = v.most_is;
    buffer = omega arith;
  }

  feed_byte-Safe :
      (enabled : LogLevel → Bool) (st : DeframeState) (b : ℕ)
      → IsValid st
      → Safe 1 (feed_byte enabled st b)
  unfolding feed_byte
  feed_byte-Safe enabled st raw v =
      let b = raw % 256 in
      elim (Bool-cases (b == startchar)) [
        | inl start ↦ rw start (flags-IsValid true false v, tt, omega arith)
        | inr other ↦ rw other (elim (Bool-cases (st.escaping && not (b == 0))) [
          | inl new ↦ rw new (started-IsValid enabled st b v, tt, omega arith)
          | inr same ↦ rw same (
              collect-Safe enabled st.rcv_state (record st { escaping = false })
                (if st.escaping then startchar else b) (flags-IsValid false st.warned_wait_start v)
                refl)
        ])
      ]

  emit-Safe :
      (n m : ℕ) (now : List DeframeResult) (s : Step)
      → AllGood now
      → length now ≤ n
      → Safe m s
      → Safe (n + m) (emit now s)
  emit-Safe n m now (ok (st, later)) g h s =
      (s.0, AllGood-append now later g s.1, omega (arith, length-append now later))
    where
      AllGood-append : (xs ys : List DeframeResult) → AllGood xs → AllGood ys → AllGood (xs ++ ys)
      AllGood-append [] ys p q = q
      AllGood-append (x ∷ xs) ys p q = (p.0, AllGood-append xs ys p.1 q)
  emit-Safe n m now (err e) g h s = s

  feed_bytes-Safe :
      (enabled : LogLevel → Bool) (bs : Bytes) (st : DeframeState)
      → IsValid st
      → Safe (length bs) (feed_bytes enabled st bs)
  unfolding feed_bytes
  feed_bytes-Safe enabled [] st v = (v, tt, omega arith)
  feed_bytes-Safe enabled (b ∷ bs) st v =
      go (feed_byte enabled st b) (feed_byte-Safe enabled st b v) (feed_bytes-Safe enabled bs)
    where
      go :
          (m : Step)
          → Safe 1 m
          → ((s : DeframeState) → IsValid s → Safe (length bs) (feed_bytes enabled s bs))
          → Safe (suc (length bs)) (m >>= λ (s, now). emit now (feed_bytes enabled s bs))
      go (ok (s, now)) h rest =
          subst (λ k. Safe k (emit now (feed_bytes enabled s bs))) (omega arith)
            (emit-Safe 1 (length bs) now (feed_bytes enabled s bs) h.1 h.2 (rest s h.0))
      go (err e) h rest = h

  warn_chunk-IsValid :
      (st : DeframeState) (chunk : Bytes) → IsValid st → IsValid (warn_chunk st chunk)
  warn_chunk-IsValid st chunk v = ground arith

  -- From a valid state, with a lower limit of at least 5, a call never raises and keeps the invariant: the buffer holds less than the announced length,
  -- which is within the limits. Each byte yields at most one result, and every frame delivered
  -- has the length that its header announces, also within the limits.
  pub deframe_feed-Safe :
      (enabled : LogLevel → Bool) (st : DeframeState) (chunk : Bytes)
      → IsValid st
      → Safe (length chunk) (deframe_feed enabled st chunk)
  unfolding deframe_feed
  deframe_feed-Safe enabled st chunk v =
      feed_bytes-Safe enabled chunk (warn_chunk st chunk) (warn_chunk-IsValid st chunk v)
