-- ===== src/Remote/Receive.antt =====
-- The loop of `Worker` in remote.c that cuts the stream of bytes of a connection into calls: one
-- byte of call, seven of body size, and the body.
pub mod Chunks
pub mod Loop
pub mod Whole
use hivelang.Prelude.{
  ℕ, zero, suc, ◌+◌, ◌-◌, ◌==◌, ltb, leb, Bool, true, false, if◌then◌else◌, Option, none, some,
  List, [], ◌∷◌, ◌++◌, length, take, drop,
}
use hivelang.Remote.Bytes.{le_value}

-- `struct connection_context` by the state that `res_buffer_len` codes: -1; -2 - n, with n bytes of
-- the size received; or the size, with `res_buffer_current_len` bytes of the body received. The
-- list is the part of `res_buffer` that is filled.
pub data ConnectionContext : Type 0 where
  waiting_message : ConnectionContext
  waiting_body_size : (res_api_call : ℕ) (res_buffer : List ℕ) → ConnectionContext
  waiting_body : (res_api_call res_buffer_len : ℕ) (res_buffer : List ℕ) → ConnectionContext

-- `res_buffer` is 4096 bytes long, and no size is compared with that.
abbrev pub res_buffer_size : ℕ
res_buffer_size = 4096

-- What a connection is after some bytes, with the state `S` of the rest of the runtime. `overrun`
-- is a write outside `res_buffer`.
pub data Link (S : Type 0) : Type 0 where
  connected : S → ConnectionContext → Link S
  closed : S → Link S
  overrun : S → Link S

-- `HandleApiCall` is a parameter: it is given the call and the body, and answers whether to keep
-- the connection.
module _ {S : Type 0} (handle_api_call : S → ℕ → List ℕ → S × Bool) where
  -- A whole body is there: the callback, and the next message or the end.
  abbrev pub run_callback : S → ℕ → List ℕ → Link S
  run_callback s call body =
      let (s', keep) = handle_api_call s call body in
      if keep then connected s' waiting_message else closed s'

  -- The loop `while (bytesProcessed < bytesReceived)`. The list is what is left of the bytes that
  -- `recv` gave; `none` is fuel that ran out.
  unfoldable pub receive : ℕ → S → ConnectionContext → List ℕ → Option (Link S)
  receive zero s ctx bytes = none
  receive (suc fuel) s ctx [] = some (connected s ctx)
  receive (suc fuel) s waiting_message (b ∷ bs) = receive fuel s (waiting_body_size b []) bs
  receive (suc fuel) s (waiting_body_size call buffer) (b ∷ bs) =
      let missing = 7 - length buffer in
      elim (leb missing (length (b ∷ bs))) [
        | true ↦
            let res_buffer_len = le_value (buffer ++ take missing (b ∷ bs)) in
            receive fuel s (waiting_body call res_buffer_len []) (drop missing (b ∷ bs))
        | false ↦ receive fuel s (waiting_body_size call (buffer ++ b ∷ bs)) []
      ]
  receive (suc fuel) s (waiting_body call res_buffer_len buffer) (b ∷ bs) =
      let missing = res_buffer_len - length buffer in
      elim (leb missing (length (b ∷ bs))) [
        | true ↦ elim (ltb res_buffer_size (length buffer + missing)) [
          | true ↦ some (overrun s)
          | false ↦ elim (run_callback s call (buffer ++ take missing (b ∷ bs))) [
            | connected s' ctx ↦ receive fuel s' ctx (drop missing (b ∷ bs))
            | closed s' ↦ some (closed s')
            | overrun s' ↦ some (overrun s')
          ]
        ]
        | false ↦ elim (ltb res_buffer_size (length buffer + length (b ∷ bs))) [
          | true ↦ some (overrun s)
          | false ↦ receive fuel s (waiting_body call res_buffer_len (buffer ++ b ∷ bs)) []
        ]
      ]

  -- The protocol one byte at a time, with no regard to how `recv` cuts the stream.
  abbrev pub start_message : ℕ → ConnectionContext
  start_message b = waiting_body_size b []

  abbrev pub take_size_byte : ℕ → List ℕ → ConnectionContext
  take_size_byte call got =
      if length got == 7 then waiting_body call (le_value got) [] else waiting_body_size call got

  abbrev pub take_body_byte : S → ℕ → ℕ → List ℕ → Link S
  take_body_byte s call len got =
      if ltb res_buffer_size (length got)
      then overrun s
      else if length got == len
      then run_callback s call got
      else connected s (waiting_body call len got)

  abbrev pub feed_message : Link S → ℕ → Link S
  feed_message (connected s ctx) b = connected s (start_message b)
  feed_message (closed s) b = closed s
  feed_message (overrun s) b = overrun s

  abbrev pub feed_byte : S → ConnectionContext → ℕ → Link S
  feed_byte s waiting_message b = connected s (start_message b)
  feed_byte s (waiting_body_size call buffer) b =
      connected s (take_size_byte call (buffer ++ b ∷ []))
  feed_byte s (waiting_body call zero buffer) b = feed_message (run_callback s call buffer) b
  feed_byte s (waiting_body call (suc n) buffer) b =
      take_body_byte s call (suc n) (buffer ++ b ∷ [])

  abbrev pub feed : Link S → List ℕ → Link S
  feed link [] = link
  feed (connected s ctx) (b ∷ bs) = feed (feed_byte s ctx b) bs
  feed (closed s) (b ∷ bs) = closed s
  feed (overrun s) (b ∷ bs) = overrun s
