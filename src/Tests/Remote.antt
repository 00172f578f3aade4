-- ===== src/Tests/Remote.antt =====
-- A stream of two calls, cut in two places, and the answers to a read and to a write.
use hivelang.Prelude.{
  false, ℕ, ◌≡◌, refl, Bool, true, List, [], ◌∷◌, ◌++◌, some, arith, length, drop, replicate,
  length-replicate,
}
use hivelang.Remote.Buffer.{Sends, b_send, b_send-Sends}
use hivelang.Remote.Connection.{HiveConnection}
use hivelang.Remote.Receive.{
  waiting_message, waiting_body_size, connected, receive, feed, run_callback,
}
use hivelang.Remote.Receive.Loop.{receive-feed}
use hivelang.Remote.Receive.Whole.{receive_all}
use hivelang.Remote.Send.{answer, api_query_object, answer_query_object}
use hivelang.Remote.Delivery.{int64_at}
use hivelang.Remote.Delivery.Objects.{
  fields3, answer_query_object-delivered, answer_query_object_cut,
}

-- The calls are kept as they come.
abbrev note_call : List (ℕ × List ℕ) → ℕ → List ℕ → List (ℕ × List ℕ) × Bool
note_call calls call body = ((call, body) ∷ calls, true)

-- The end of a header, a body of two bytes, and the start of the next header.
abbrev chunk : List ℕ
chunk = 0 ∷ 0 ∷ 0 ∷ 0 ∷ 65 ∷ 66 ∷ 18 ∷ 24 ∷ []

receive-feed_example :
    receive note_call 17 [] (waiting_body_size 7 (2 ∷ 0 ∷ 0 ∷ [])) chunk
    ≡ some (feed note_call (connected [] (waiting_body_size 7 (2 ∷ 0 ∷ 0 ∷ []))) chunk)
receive-feed_example =
    receive-feed note_call 17 (waiting_body_size 7 (2 ∷ 0 ∷ 0 ∷ [])) (omega arith) [] chunk
      (omega arith)

feed_test :
    feed note_call (connected [] (waiting_body_size 7 (2 ∷ 0 ∷ 0 ∷ []))) chunk
    ≡ connected ((7, 65 ∷ 66 ∷ []) ∷ []) (waiting_body_size 18 (24 ∷ []))
feed_test = refl

abbrev connection : HiveConnection
connection = record {
  receiving = true;
  has_socket = true;
  outgoing = [];
  local_id = 1;
  wait_list_len = 0;
  queue_len = 0;
  idle_time = 0;
}

answer_query_object-delivered_example :
    (body : List ℕ) × (receive_all note_call
        (connected [] waiting_message)
        (answer_query_object connection (1 ∷ 2 ∷ []) 5 16).outgoing
      ≡ some (run_callback note_call [] (answer api_query_object) body))
    × (int64_at body 0 ≡ 5)
    × (int64_at body 8 ≡ 16)
    × (int64_at body 16 ≡ 2)
    × (drop 24 body ≡ 1 ∷ 2 ∷ [])
unfolding receive
answer_query_object-delivered_example =
    answer_query_object-delivered note_call [] [] connection (1 ∷ 2 ∷ []) 5 16 refl (omega arith)
      (omega arith) (omega arith)

abbrev zero_byte : ℕ
zero_byte = 0

abbrev many_bytes : List ℕ
many_bytes = replicate 240 zero_byte

answer_query_object_cut_example :
    (body rest : List ℕ) × (receive_all note_call
        (connected [] waiting_message)
        (answer_query_object connection many_bytes 5 16).outgoing
      ≡ receive_all note_call (run_callback note_call [] (answer api_query_object) body) rest)
    × (length rest ≡ 256)
    × (body ++ rest ≡ fields3 5 16 (length many_bytes) many_bytes)
unfolding receive
answer_query_object_cut_example =
    answer_query_object_cut note_call [] [] connection many_bytes 5 16 refl
      (omega (arith, length-replicate 240 zero_byte))
      (omega (arith, length-replicate 240 zero_byte))

-- A message of two bytes on a buffer of one.
b_send-Sends_example :
    Sends
      (λ bytes. false)
      (record { sent = []; buffer = 1 ∷ [] })
      (2 ∷ 3 ∷ [])
      (b_send (λ bytes. false) 3 (record { sent = []; buffer = 1 ∷ [] }) (2 ∷ 3 ∷ []))
b_send-Sends_example =
    b_send-Sends (λ bytes. false) (λ bytes. refl) 3 (record { sent = []; buffer = 1 ∷ [] })
      (2 ∷ 3 ∷ []) (omega arith) (omega arith)
