-- ===== src/Remote/Receive/Loop.antt =====
-- How `recv` cuts the stream of a connection does not matter to the loop of `Worker`.
use hivelang.Prelude.{
  ℕ, zero, suc, ◌+◌, ◌-◌, ◌≤◌, ◌<◌, ◌≡◌, refl, ap, sym, ◌∙◌, Bool, true, false, if◌then◌else◌,
  Option, some, List, [], ◌∷◌, ◌++◌, length, take, drop, length-append, length-drop, length-take,
  take-append-drop, arith, lt→ltb, le→ltb, le→leb, lt→leb, dec_lt,
}
use hivelang.Remote.Bytes.{le_value}
use hivelang.Remote.Receive.{
  ConnectionContext, waiting_message, waiting_body_size, waiting_body, Link, connected, closed,
  overrun, res_buffer_size, run_callback, receive, feed, feed_message,
}
use hivelang.Remote.Receive.Chunks.{
  IsContext, pending, pending_le, body-IsContext, feed_closed, feed_overrun, feed-append, feed_size,
  feed_size_end, feed_body, feed-body_end, body_end,
}

module _ {S : Type 0} (handle : S → ℕ → List ℕ → S × Bool) where
  receive_size :
      (fuel : ℕ)
      → ((ctx : ConnectionContext)
          → IsContext ctx
          → (s : S) (bytes : List ℕ) → length bytes + length bytes + pending ctx < fuel
          → receive handle fuel s ctx bytes ≡ some (feed handle (connected s ctx) bytes))
      → (s : S) (call : ℕ) (buffer : List ℕ) → length buffer < 7
      → (b : ℕ) (bs : List ℕ) → length (b ∷ bs) + length (b ∷ bs) < suc fuel
      → receive handle (suc fuel) s (waiting_body_size call buffer) (b ∷ bs)
        ≡ some (feed handle (connected s (waiting_body_size call buffer)) (b ∷ bs))
  unfolding receive
  receive_size fuel next s call buffer w b bs less =
      let missing = 7 - length buffer in
      let bytes : List ℕ = b ∷ bs in
      elim (dec_lt (length bytes) missing) [
        | yes short ↦
            rw (receive, lt→leb missing (length bytes) short)
              (next (waiting_body_size call (buffer ++ bytes))
                  (omega (arith, length-append buffer bytes)) s [] (omega arith)
                ∙ ap some (sym (feed_size handle s call buffer bytes (omega arith))))
        | no enough ↦
            let head = take missing bytes in
            let n : length head ≡ missing = length-take missing bytes ∙ omega arith in
            let body = waiting_body call (le_value (buffer ++ head)) [] in
            rw (receive, le→leb missing (length bytes) (omega arith))
              (next body (body-IsContext (le_value (buffer ++ head)) call) s (drop missing bytes)
                  (omega (arith, length-drop missing bytes, pending_le body))
                ∙ ap some (
                    ap (λ l. feed handle l (drop missing bytes))
                      (sym (feed_size_end handle s call buffer head (omega arith) (omega arith)))
                    ∙ sym (
                        feed-append handle (connected s (waiting_body_size call buffer)) head
                          (drop missing bytes))
                    ∙ ap (feed handle (connected s (waiting_body_size call buffer)))
                        (take-append-drop missing bytes)))
      ]

  -- The fuel that is left is enough for what follows.
  abbrev Enough : ℕ → Type 0
  Enough fuel =
      (ctx : ConnectionContext)
      → IsContext ctx
      → (s : S) (bytes : List ℕ) → length bytes + length bytes + pending ctx < fuel
      → receive handle fuel s ctx bytes ≡ some (feed handle (connected s ctx) bytes)

  -- What the loop does after the callback.
  abbrev go_on : ℕ → List ℕ → Link S → Option (Link S)
  go_on fuel rest (connected s ctx) = receive handle fuel s ctx rest
  go_on fuel rest (closed s) = some (closed s)
  go_on fuel rest (overrun s) = some (overrun s)

  go_on-feed :
      (fuel : ℕ)
      → Enough fuel
      → (s : S) (call : ℕ) (body rest : List ℕ) → length rest + length rest < fuel
      → go_on fuel rest (run_callback handle s call body)
        ≡ some (feed handle (run_callback handle s call body) rest)
  go_on-feed fuel next s call body rest less = answered (handle s call body).1
    where
      answered :
          (keep : Bool)
          → go_on fuel rest (
              if keep
              then connected (handle s call body).0 waiting_message
              else closed (handle s call body).0)
            ≡ some (
                feed handle
                  (if keep
                    then connected (handle s call body).0 waiting_message
                    else closed (handle s call body).0)
                  rest)
      answered true = next waiting_message tt (handle s call body).0 rest (omega arith)
      answered false = ap some (sym (feed_closed handle (handle s call body).0 rest))

  receive_empty_body :
      (fuel : ℕ)
      → Enough fuel
      → (s : S) (call : ℕ) (buffer : List ℕ) → length buffer ≡ 0
      → (b : ℕ) (bs : List ℕ) → length (b ∷ bs) + length (b ∷ bs) < fuel
      → receive handle (suc fuel) s (waiting_body call 0 buffer) (b ∷ bs)
        ≡ some (feed handle (connected s (waiting_body call 0 buffer)) (b ∷ bs))
  unfolding receive
  receive_empty_body fuel next s call (x ∷ buffer) w b bs less = absurd (omega arith)
  receive_empty_body fuel next s call [] w b bs less =
      rw (receive, le→leb 0 (length (b ∷ bs)) (omega arith))
        (go_on-feed fuel next s call [] (b ∷ bs) less ∙ ap some (answered (handle s call []).1))
    where
      answered :
          (keep : Bool)
          → feed handle
              (if keep
                then connected (handle s call []).0 waiting_message
                else closed (handle s call []).0)
              (b ∷ bs)
            ≡ feed handle
                (feed_message handle
                  (if keep
                    then connected (handle s call []).0 waiting_message
                    else closed (handle s call []).0)
                  b)
                bs
      answered true = refl
      answered false = sym (feed_closed handle (handle s call []).0 bs)

  receive_body :
      (fuel : ℕ)
      → Enough fuel
      → (s : S) (call n : ℕ) (buffer : List ℕ) → length buffer < suc n
      → length buffer ≤ res_buffer_size
      → (b : ℕ) (bs : List ℕ) → length (b ∷ bs) + length (b ∷ bs) < suc fuel
      → receive handle (suc fuel) s (waiting_body call (suc n) buffer) (b ∷ bs)
        ≡ some (feed handle (connected s (waiting_body call (suc n) buffer)) (b ∷ bs))
  unfolding receive
  receive_body fuel next s call n buffer w fits b bs less =
      let missing = suc n - length buffer in
      let bytes : List ℕ = b ∷ bs in
      let all = length-append buffer bytes in
      elim (dec_lt (length bytes) missing) [
        | yes short ↦ elim (dec_lt res_buffer_size (length buffer + length bytes)) [
          | yes over ↦
              rw
                (
                  receive,
                  lt→leb missing (length bytes) short,
                  lt→ltb res_buffer_size (length buffer + length bytes) over,
                )
                (ap some (
                  sym (
                    feed_body handle s call n buffer bytes (omega arith) fits
                    ∙ rw (lt→ltb res_buffer_size (length (buffer ++ bytes)) (omega arith)) refl)))
          | no under ↦
              rw
                (
                  receive,
                  lt→leb missing (length bytes) short,
                  le→ltb res_buffer_size (length buffer + length bytes) (omega arith),
                )
                (next (waiting_body call (suc n) (buffer ++ bytes)) (omega arith, omega arith) s []
                    (omega arith)
                  ∙ ap some (
                      sym (
                        feed_body handle s call n buffer bytes (omega arith) fits
                        ∙ rw (le→ltb res_buffer_size (length (buffer ++ bytes)) (omega arith))
                            refl)))
        ]
        | no enough ↦
            let head = take missing bytes in
            let m : length head ≡ missing = length-take missing bytes ∙ omega arith in
            let got = length-append buffer head in
            let ctx = waiting_body call (suc n) buffer in
            let rest = drop missing bytes in
            let split : feed handle (connected s ctx) bytes
                ≡ feed handle (body_end handle s call n (buffer ++ head)) rest =
              ap (feed handle (connected s ctx)) (sym (take-append-drop missing bytes))
              ∙ feed-append handle (connected s ctx) head rest
              ∙ ap (λ l. feed handle l rest)
                  (feed-body_end handle s call n buffer head (omega arith) (omega arith) fits) in
            elim (dec_lt res_buffer_size (length buffer + missing)) [
              | yes over ↦
                  rw
                    (
                      receive,
                      le→leb missing (length bytes) (omega arith),
                      lt→ltb res_buffer_size (length buffer + missing) over,
                    )
                    (ap some (
                      sym (
                        split
                        ∙ rw (lt→ltb res_buffer_size (length (buffer ++ head)) (omega arith))
                            (feed_overrun handle s rest))))
              | no under ↦
                  rw
                    (
                      receive,
                      le→leb missing (length bytes) (omega arith),
                      le→ltb res_buffer_size (length buffer + missing) (omega arith),
                    )
                    (go_on-feed fuel next s call (buffer ++ head) rest
                        (omega (arith, length-drop missing bytes))
                      ∙ ap some (
                          sym (
                            split
                            ∙ rw (le→ltb res_buffer_size (length (buffer ++ head)) (omega arith))
                                refl)))
            ]
      ]

  -- Whatever part of a message a connection is in, the loop of `Worker` ends on the bytes that `recv`
  -- gave, with fuel of two turns for each byte and two more. It leaves what the protocol leaves that
  -- takes the same bytes one by one. So it does not matter how `recv` cuts the stream.
  pub receive-feed :
      (fuel : ℕ) (ctx : ConnectionContext)
      → IsContext ctx
      → (s : S) (bytes : List ℕ) → length bytes + length bytes + pending ctx < fuel
      → receive handle fuel s ctx bytes ≡ some (feed handle (connected s ctx) bytes)
  unfolding receive
  receive-feed zero ctx w s bytes less = elim less [ ]
  receive-feed (suc fuel) ctx w s [] less = refl
  receive-feed (suc fuel) waiting_message w s (b ∷ bs) less =
      receive-feed fuel (waiting_body_size b []) (omega arith) s bs (omega arith)
  receive-feed (suc fuel) (waiting_body_size call buffer) w s (b ∷ bs) less =
      receive_size fuel (receive-feed fuel) s call buffer w b bs (omega arith)
  receive-feed (suc fuel) (waiting_body call zero buffer) w s (b ∷ bs) less =
      receive_empty_body fuel (receive-feed fuel) s call buffer w b bs (omega arith)
  receive-feed (suc fuel) (waiting_body call (suc n) buffer) w s (b ∷ bs) less =
      receive_body fuel (receive-feed fuel) s call n buffer w.0 w.1 b bs (omega arith)
