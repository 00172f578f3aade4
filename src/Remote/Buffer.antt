-- ===== src/Remote/Buffer.antt =====
-- `b_send` and `b_flush` of remote.c, which collect what is sent in a buffer.
use hivelang.Prelude.{
  ℕ, zero, suc, ◌-◌, ◌<◌, ◌==◌, ◌≡◌, refl, ap, sym, ◌∙◌, ltb, Bool, true, false, if◌then◌else◌,
  Option, none, some, List, [], ◌∷◌, ◌++◌, append-nil, append_assoc, length, take, drop,
  length-append, length-take, length-drop, take-append-drop, min, arith, ne→==, ==_iff, ℕ_discrete,
}

-- `sent` is all that `send` was given on the socket, and `buffer` its first `buffer_len` bytes.
pub record BufferizedSocket : Type 0 where
  pub sent : List ℕ
  pub buffer : List ℕ

-- `sizeof(s->buffer)`
abbrev pub buffer_size : ℕ
buffer_size = 1024

-- Whether `send` gives an error is a parameter.
module _ (send_fails : List ℕ → Bool) where
  -- The loop `while (len > 0)`. The Boolean is whether 0 is returned, and not -1; `none` is fuel
  -- that ran out.
  unfoldable pub b_send : ℕ → BufferizedSocket → List ℕ → Option (Bool × BufferizedSocket)
  b_send zero s msg = none
  b_send (suc fuel) s [] = some (true, s)
  b_send (suc fuel) s (b ∷ msg) =
      let c = min (length (b ∷ msg)) (buffer_size - length s.buffer) in
      let filled = s.buffer ++ take c (b ∷ msg) in
      elim (length filled == buffer_size) [
        | true ↦ elim (send_fails filled) [
          | true ↦ some (false, record s { buffer = filled })
          | false ↦ b_send fuel (record { sent = s.sent ++ filled; buffer = [] }) (drop c (b ∷ msg))
        ]
        | false ↦ b_send fuel (record s { buffer = filled }) (drop c (b ∷ msg))
      ]

  unfoldable pub b_flush : BufferizedSocket → BufferizedSocket
  b_flush s =
      if ltb 0 (length s.buffer) then record { sent = s.sent ++ s.buffer; buffer = [] } else s

  -- What was sent and what is to be sent, in order.
  abbrev pub stream : BufferizedSocket → List ℕ
  stream s = s.sent ++ s.buffer

  abbrev pub Sends : BufferizedSocket → List ℕ → Option (Bool × BufferizedSocket) → Type 0
  Sends s msg r =
      (s' : BufferizedSocket) × (r ≡ some (true, s'))
      × (stream s' ≡ stream s ++ msg)
      × (length s'.buffer < buffer_size)

  -- The stream after one round.
  round_stream :
      (sent buffer msg : List ℕ) (c : ℕ)
      → (sent ++ (buffer ++ take c msg)) ++ drop c msg ≡ (sent ++ buffer) ++ msg
  round_stream sent buffer msg c =
      append_assoc sent (buffer ++ take c msg) (drop c msg)
      ∙ ap (◌++◌ sent) (
          append_assoc buffer (take c msg) (drop c msg) ∙ ap (◌++◌ buffer) (take-append-drop c msg))
      ∙ sym (append_assoc sent buffer msg)

  abbrev chunk_size : BufferizedSocket → List ℕ → ℕ
  chunk_size s msg = min (length msg) (buffer_size - length s.buffer)

  abbrev filled_with : BufferizedSocket → List ℕ → List ℕ
  filled_with s msg = s.buffer ++ take (chunk_size s msg) msg

  sent_round :
      (fuel : ℕ) (s : BufferizedSocket) (b : ℕ) (msg : List ℕ)
      → (length (filled_with s (b ∷ msg)) == buffer_size) ≡ true
      → send_fails (filled_with s (b ∷ msg)) ≡ false
      → b_send (suc fuel) s (b ∷ msg)
        ≡ b_send fuel
            (record { sent = s.sent ++ filled_with s (b ∷ msg); buffer = [] })
            (drop (chunk_size s (b ∷ msg)) (b ∷ msg))
  unfolding b_send
  sent_round fuel s b msg full ok = rw (b_send, full, ok) refl

  kept_round :
      (fuel : ℕ) (s : BufferizedSocket) (b : ℕ) (msg : List ℕ)
      → (length (filled_with s (b ∷ msg)) == buffer_size) ≡ false
      → b_send (suc fuel) s (b ∷ msg)
        ≡ b_send fuel
            (record s { buffer = filled_with s (b ∷ msg) })
            (drop (chunk_size s (b ∷ msg)) (b ∷ msg))
  unfolding b_send
  kept_round fuel s b msg not_full = rw (b_send, not_full) refl

  -- With a `send` that never fails, fuel for each byte and one more, and a buffer that is not full,
  -- `b_send` ends and returns 0. What was sent and what is in the buffer, in order, grows by the
  -- message, and the buffer is not full afterwards.
  pub b_send-Sends :
      ((bytes : List ℕ) → send_fails bytes ≡ false)
      → (fuel : ℕ) (s : BufferizedSocket) (msg : List ℕ) → length s.buffer < buffer_size
      → length msg < fuel
      → Sends s msg (b_send fuel s msg)
  unfolding b_send
  b_send-Sends ok zero s msg room less = elim less [ ]
  b_send-Sends ok (suc fuel) s [] room less = (s, refl, sym (append-nil (stream s)), room)
  b_send-Sends ok (suc fuel) s (b ∷ msg) room less =
      let whole : List ℕ = b ∷ msg in
      let c = min (length whole) (buffer_size - length s.buffer) in
      let filled = s.buffer ++ take c whole in
      let n = length-append s.buffer (take c whole) in
      let m = length-take c whole in
      let left = length-drop c whole in
      elim (ℕ_discrete (length filled) buffer_size) [
        | yes full ↦
            let (s', e, same, room') =
              b_send-Sends ok fuel (record { sent = s.sent ++ filled; buffer = [] }) (drop c whole)
                (omega arith) (omega arith) in
            (
              s',
              sent_round fuel s b msg ((==_iff (length filled) buffer_size).1 full) (ok filled) ∙ e,
              same
                  ∙ ap (λ l. l ++ drop c whole) (append-nil (s.sent ++ filled))
                  ∙ round_stream s.sent s.buffer whole c,
              room',
            )
        | no not_full ↦
            let (s', e, same, room') =
              b_send-Sends ok fuel (record s { buffer = filled }) (drop c whole) (omega arith)
                (omega arith) in
            (
              s',
              kept_round fuel s b msg (ne→== (length filled) buffer_size not_full) ∙ e,
              same ∙ round_stream s.sent s.buffer whole c,
              room',
            )
      ]

  -- `b_flush` empties the buffer, and keeps the order of what was sent and what is to be sent.
  pub b_flush_lem :
      (s : BufferizedSocket) → ((b_flush s).sent ≡ stream s) × ((b_flush s).buffer ≡ [])
  unfolding b_flush
  b_flush_lem s = flush s.sent s.buffer
    where
      flush :
          (sent buffer : List ℕ)
          → ((b_flush (record { sent = sent; buffer = buffer })).sent ≡ sent ++ buffer)
            × ((b_flush (record { sent = sent; buffer = buffer })).buffer ≡ [])
      flush sent [] = (sym (append-nil sent), refl)
      flush sent (x ∷ xs) = ground arith
