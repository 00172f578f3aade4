-- ===== src/Remote/Delivery.antt =====
-- What the senders of remote.c write, the loop of `Worker` on the other side reads.
pub mod Objects
use hivelang.Prelude.{
  ℕ, zero, suc, ◌+◌, ◌-◌, ◌*◌, ◌%◌, ◌^◌, ◌≤◌, ◌<◌, ◌==◌, ltb, ◌≡◌, refl, ap, sym, ◌∙◌, Bool, true,
  false, if◌then◌else◌, List, [], ◌∷◌, ◌++◌, length, take, drop, take-append_length,
  drop-append_length, append_assoc, arith, le→ltb,
}
use hivelang.Remote.Bytes.{le_value, le_bytes, length-le_bytes, le_value-le_bytes}
use hivelang.Remote.Receive.{
  ConnectionContext, waiting_message, waiting_body, Link, connected, res_buffer_size, run_callback,
  feed,
}
use hivelang.Remote.Receive.Chunks.{feed-append, feed_size_end, feed-body_end, body_end}
use hivelang.Remote.Send.{header, int64_bytes}

-- `*(int64_t *)(ctx->res_buffer + k)`, as `HandleApiCall` reads the fields of a call.
abbrev pub int64_at : List ℕ → ℕ → ℕ
int64_at buffer k = le_value (take 8 (drop k buffer))

pub take_eq : (n : ℕ) (xs ys : List ℕ) → length xs ≡ n → take n (xs ++ ys) ≡ xs
take_eq n xs ys e = rw (← e) (take-append_length xs ys)

pub drop_eq : (n : ℕ) (xs ys : List ℕ) → length xs ≡ n → drop n (xs ++ ys) ≡ ys
drop_eq n xs ys e = rw (← e) (drop-append_length xs ys)

-- The field that starts after the bytes before it.
pub int64_at-field :
    (k : ℕ) (before : List ℕ) (x : ℕ) (after : List ℕ)
    → length before ≡ k
    → x < 2 ^ 64
    → int64_at (before ++ (int64_bytes x ++ after)) k ≡ x
int64_at-field k before x after e fits =
    ap (λ l. le_value (take 8 l)) (drop_eq k before (int64_bytes x ++ after) e)
    ∙ ap le_value (take_eq 8 (int64_bytes x) after (length-le_bytes 8 x))
    ∙ le_value-le_bytes 8 x (omega arith)

module _ {S : Type 0} (handle : S → ℕ → List ℕ → S × Bool) where
  feed-header :
      (s : S) (call size : ℕ)
      → feed handle (connected s waiting_message) (header call size)
        ≡ connected s (waiting_body call (size % 256) [])
  feed-header s call size =
      feed_size_end handle s call [] (size % 256 ∷ 0 ∷ 0 ∷ 0 ∷ 0 ∷ 0 ∷ 0 ∷ []) refl (omega arith)
      ∙ ap (λ n. connected s (waiting_body call n [])) (omega arith)

  feed_body_all :
      (s : S) (call n : ℕ) (body : List ℕ)
      → length body ≡ n
      → 0 < n
      → n < 256
      → feed handle (connected s (waiting_body call n [])) body ≡ run_callback handle s call body
  feed_body_all s call zero body e some_byte less = elim some_byte [ ]
  feed_body_all s call (suc n) body e some_byte less =
      feed-body_end handle s call n [] body (omega arith) (omega arith) (omega arith)
      ∙ rw (le→ltb res_buffer_size (length body) (omega arith)) refl

  -- A connection that waits for a message, fed a header and a body that is not empty and whose length
  -- is the header's size modulo 256, runs the callback once, on the header's call and on that body.
  pub feed_call :
      (s : S) (call size : ℕ) (body : List ℕ)
      → length body ≡ size % 256
      → 0 < length body
      → feed handle (connected s waiting_message) (header call size ++ body)
        ≡ run_callback handle s call body
  feed_call s call size body e some_byte =
      feed-append handle (connected s waiting_message) (header call size) body
      ∙ rw (feed-header s call size)
          (feed_body_all s call (size % 256) body e (omega arith) (omega arith))
