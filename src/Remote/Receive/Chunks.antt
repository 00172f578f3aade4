-- ===== src/Remote/Receive/Chunks.antt =====
-- The bytewise protocol of remote.c on a run of bytes within one part of a message.
use hivelang.Prelude.{
  ℕ, zero, suc, ◌+◌, ◌≤◌, ◌<◌, ltb, ◌≡◌, refl, ap, sym, ◌∙◌, Bool, if◌then◌else◌, List, [], ◌∷◌,
  ◌++◌, append-nil, append_assoc, length, length-append, arith, lt→ltb, le→ltb, ne→==, ==_refl,
  dec_lt,
}
use hivelang.Remote.Bytes.{le_value}
use hivelang.Remote.Receive.{
  ConnectionContext, waiting_message, waiting_body_size, waiting_body, Link, connected, closed,
  overrun, res_buffer_size, run_callback, feed, feed_byte,
}

-- The contexts that the loop leaves behind: a part is filled before its last byte only, but for an
-- empty body, which waits for the next byte.
abbrev pub IsContext : ConnectionContext → Type 0
IsContext waiting_message = Unit
IsContext (waiting_body_size call buffer) = length buffer < 7
IsContext (waiting_body call zero buffer) = length buffer ≡ 0
IsContext (waiting_body call (suc n) buffer) =
    (length buffer < suc n) × (length buffer ≤ res_buffer_size)

-- An empty body takes a turn of the loop of its own.
abbrev pub pending : ConnectionContext → ℕ
pending waiting_message = 0
pending (waiting_body_size call buffer) = 0
pending (waiting_body call zero buffer) = 1
pending (waiting_body call (suc n) buffer) = 0

pub pending_le : (ctx : ConnectionContext) → pending ctx ≤ 1
pending_le waiting_message = omega arith
pending_le (waiting_body_size call buffer) = omega arith
pending_le (waiting_body call zero buffer) = omega arith
pending_le (waiting_body call (suc n) buffer) = omega arith

pub body-IsContext : (n call : ℕ) → IsContext (waiting_body call n [])
body-IsContext zero call = refl
body-IsContext (suc n) call = (omega arith, omega arith)

pub length-snoc : (xs : List ℕ) (b : ℕ) → length (xs ++ b ∷ []) ≡ length xs + 1
length-snoc xs b = length-append xs (b ∷ [])

module _ {S : Type 0} (handle : S → ℕ → List ℕ → S × Bool) where
  pub feed_closed : (s : S) (bs : List ℕ) → feed handle (closed s) bs ≡ closed s
  feed_closed s [] = refl
  feed_closed s (b ∷ bs) = refl

  pub feed_overrun : (s : S) (bs : List ℕ) → feed handle (overrun s) bs ≡ overrun s
  feed_overrun s [] = refl
  feed_overrun s (b ∷ bs) = refl

  pub feed-append :
      (link : Link S) (xs ys : List ℕ)
      → feed handle link (xs ++ ys) ≡ feed handle (feed handle link xs) ys
  feed-append link [] ys = refl
  feed-append (connected s ctx) (x ∷ xs) ys = feed-append (feed_byte handle s ctx x) xs ys
  feed-append (closed s) (x ∷ xs) ys = sym (feed_closed s ys)
  feed-append (overrun s) (x ∷ xs) ys = sym (feed_overrun s ys)

  pub feed_size :
      (s : S) (call : ℕ) (buffer xs : List ℕ)
      → length buffer + length xs < 7
      → feed handle (connected s (waiting_body_size call buffer)) xs
        ≡ connected s (waiting_body_size call (buffer ++ xs))
  feed_size s call buffer [] less = rw (append-nil buffer) refl
  feed_size s call buffer (x ∷ xs) less =
      let n = length-snoc buffer x in
      rw (ne→== (length (buffer ++ x ∷ [])) 7 (omega arith)) (
        feed_size s call (buffer ++ x ∷ []) xs (omega arith)
        ∙ ap (λ l. connected s (waiting_body_size call l)) (append_assoc buffer (x ∷ []) xs))

  pub feed_size_end :
      (s : S) (call : ℕ) (buffer xs : List ℕ)
      → length buffer + length xs ≡ 7
      → 0 < length xs
      → feed handle (connected s (waiting_body_size call buffer)) xs
        ≡ connected s (waiting_body call (le_value (buffer ++ xs)) [])
  feed_size_end s call buffer [] eq some_byte = absurd (omega arith)
  feed_size_end s call buffer (x ∷ []) eq some_byte =
      let n : length (buffer ++ x ∷ []) ≡ 7 = length-snoc buffer x ∙ eq in rw (n) refl
  feed_size_end s call buffer (x ∷ y ∷ ys) eq some_byte =
      let n = length-snoc buffer x in
      rw (ne→== (length (buffer ++ x ∷ [])) 7 (omega arith)) (
        feed_size_end s call (buffer ++ x ∷ []) (y ∷ ys) (omega arith) (omega arith)
        ∙ ap (λ l. connected s (waiting_body call (le_value l) []))
            (append_assoc buffer (x ∷ []) (y ∷ ys)))

  module _ (s : S) (call n : ℕ) where
    -- The body after a part of it that is not the end.
    abbrev pub body_part : List ℕ → Link S
    body_part got =
        if ltb res_buffer_size (length got)
        then overrun s
        else connected s (waiting_body call (suc n) got)

    abbrev pub body_end : List ℕ → Link S
    body_end got =
        if ltb res_buffer_size (length got) then overrun s else run_callback handle s call got

    pub feed_body :
        (buffer xs : List ℕ)
        → length buffer + length xs < suc n
        → length buffer ≤ res_buffer_size
        → feed handle (connected s (waiting_body call (suc n) buffer)) xs ≡ body_part (buffer ++ xs)
    feed_body buffer [] less fits =
        rw (append-nil buffer, le→ltb res_buffer_size (length buffer) fits) refl
    feed_body buffer (x ∷ xs) less fits =
        let m = length-snoc buffer x in
        let all = length-append buffer (x ∷ xs) in
        elim (dec_lt res_buffer_size (length (buffer ++ x ∷ []))) [
          | yes over ↦ rw (lt→ltb res_buffer_size (length (buffer ++ x ∷ [])) over) (
              feed_overrun s xs
              ∙ rw (lt→ltb res_buffer_size (length (buffer ++ x ∷ xs)) (omega arith)) refl)
          | no under ↦
              rw
                (
                  le→ltb res_buffer_size (length (buffer ++ x ∷ [])) (omega arith),
                  ne→== (length (buffer ++ x ∷ [])) (suc n) (omega arith),
                )
                (feed_body (buffer ++ x ∷ []) xs (omega arith) (omega arith)
                  ∙ ap body_part (append_assoc buffer (x ∷ []) xs))
        ]

    pub feed-body_end :
        (buffer xs : List ℕ)
        → length buffer + length xs ≡ suc n
        → 0 < length xs
        → length buffer ≤ res_buffer_size
        → feed handle (connected s (waiting_body call (suc n) buffer)) xs ≡ body_end (buffer ++ xs)
    feed-body_end buffer [] eq some_byte fits = absurd (omega arith)
    feed-body_end buffer (x ∷ []) eq some_byte fits =
        let m : length (buffer ++ x ∷ []) ≡ suc n = length-snoc buffer x ∙ eq in
        rw (m, ==_refl (suc n)) refl
    feed-body_end buffer (x ∷ y ∷ ys) eq some_byte fits =
        let m = length-snoc buffer x in
        let all = length-append buffer (x ∷ y ∷ ys) in
        elim (dec_lt res_buffer_size (length (buffer ++ x ∷ []))) [
          | yes over ↦
              rw (feed, lt→ltb res_buffer_size (length (buffer ++ x ∷ [])) over)
                (rw (lt→ltb res_buffer_size (length (buffer ++ x ∷ y ∷ ys)) (omega arith)) refl)
          | no under ↦
              rw
                (
                  feed,
                  le→ltb res_buffer_size (length (buffer ++ x ∷ [])) (omega arith),
                  ne→== (length (buffer ++ x ∷ [])) (suc n) (omega arith),
                )
                (feed-body_end (buffer ++ x ∷ []) (y ∷ ys) (omega arith) (omega arith) (omega arith)
                  ∙ ap body_end (append_assoc buffer (x ∷ []) (y ∷ ys)))
        ]
