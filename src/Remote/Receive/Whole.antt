-- ===== src/Remote/Receive/Whole.antt =====
-- The loop of `Worker` on a connection that waits for a message, with fuel for all its bytes.
use hivelang.Prelude.{
  ℕ, ◌+◌, ◌≡◌, ap, sym, ◌∙◌, Bool, Option, some, some-inj, List, ◌++◌, length, arith, Bool-cases,
  inl, inr,
}
use hivelang.Remote.Receive.{
  waiting_message, Link, connected, closed, overrun, run_callback, receive, feed,
}
use hivelang.Remote.Receive.Chunks.{feed-append, feed_closed}
use hivelang.Remote.Receive.Loop.{receive-feed}

module _ {S : Type 0} (handle : S → ℕ → List ℕ → S × Bool) where
  -- What `receive` does on the bytes that `recv` gave, where the connection is still there.
  abbrev pub receive_all : Link S → List ℕ → Option (Link S)
  receive_all (connected s ctx) bytes = receive handle (length bytes + length bytes + 2) s ctx bytes
  receive_all (closed s) bytes = some (closed s)
  receive_all (overrun s) bytes = some (overrun s)

  receive_all-feed :
      (s : S) (bytes : List ℕ)
      → receive_all (connected s waiting_message) bytes
        ≡ some (feed handle (connected s waiting_message) bytes)
  receive_all-feed s bytes =
      receive-feed handle (length bytes + length bytes + 2) waiting_message tt s bytes (omega arith)

  -- What follows the bytes that are read already.
  pub receive_all-append :
      (s₀ s : S) (before message : List ℕ)
      → receive_all (connected s₀ waiting_message) before ≡ some (connected s waiting_message)
      → receive_all (connected s₀ waiting_message) (before ++ message)
        ≡ some (feed handle (connected s waiting_message) message)
  receive_all-append s₀ s before message read =
      let fed : feed handle (connected s₀ waiting_message) before ≡ connected s waiting_message =
        some-inj (sym (receive_all-feed s₀ before) ∙ read) in
      receive_all-feed s₀ (before ++ message)
      ∙ ap some (
          feed-append handle (connected s₀ waiting_message) before message
          ∙ ap (λ l. feed handle l message) fed)

  -- What follows a call, which may have closed the connection.
  pub receive_all-run_callback :
      (s : S) (call : ℕ) (body rest : List ℕ)
      → receive_all (run_callback handle s call body) rest
        ≡ some (feed handle (run_callback handle s call body) rest)
  receive_all-run_callback s call body rest =
      let s' = (handle s call body).0 in
      elim (Bool-cases (handle s call body).1) [
        | inl keep ↦ rw (keep) (receive_all-feed s' rest)
        | inr close ↦ rw (close) (ap some (sym (feed_closed handle s' rest)))
      ]
