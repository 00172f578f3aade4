-- ===== src/Remote/Delivery/Objects.antt =====
-- The answers of remote.c to the reads and writes of objects, at the hive that asked.
use hivelang.Prelude.{
  ℕ, ◌+◌, ◌^◌, ◌≤◌, ◌<◌, ◌≡◌, refl, ap, sym, ◌∙◌, Bool, some, List, [], ◌++◌, length, take, drop,
  length-append, append_assoc, take-append-drop, length-take, ◌-◌, arith,
}
use hivelang.Remote.Connection.{HiveConnection}
use hivelang.Remote.Receive.{waiting_message, connected, run_callback, feed}
use hivelang.Remote.Receive.Chunks.{feed-append}
use hivelang.Remote.Receive.Whole.{receive_all, receive_all-append, receive_all-run_callback}
use hivelang.Remote.Send.{header, int64_bytes, answer, api_query_object, answer_query_object}
use hivelang.Remote.Delivery.{int64_at, int64_at-field, feed_call}

abbrev pub fields3 : ℕ → ℕ → ℕ → List ℕ → List ℕ
fields3 a b c rest = int64_bytes a ++ int64_bytes b ++ int64_bytes c ++ rest

length-fields3 : (a b c : ℕ) (rest : List ℕ) → length (fields3 a b c rest) ≡ 24 + length rest
length-fields3 a b c rest = omega arith

-- The first three fields, and what follows them.
read_fields3 :
    (a b c : ℕ) (rest : List ℕ)
    → a < 2 ^ 64
    → b < 2 ^ 64
    → c < 2 ^ 64
    → (int64_at (fields3 a b c rest) 0 ≡ a)
      × (int64_at (fields3 a b c rest) 8 ≡ b)
      × (int64_at (fields3 a b c rest) 16 ≡ c)
      × (drop 24 (fields3 a b c rest) ≡ rest)
read_fields3 a b c rest fa fb fc = (
  int64_at-field 0 [] a (int64_bytes b ++ int64_bytes c ++ rest) refl fa,
  int64_at-field 8 (int64_bytes a) b (int64_bytes c ++ rest) refl fb,
  int64_at-field 16 (int64_bytes a ++ int64_bytes b) c rest refl fc,
  refl,
)

module _ {S : Type 0} (handle : S → ℕ → List ℕ → S × Bool) (s₀ s : S) (con : HiveConnection) where
  -- The other side has read all that was sent, and waits for a message.
  abbrev pub ReadAll : Type 0
  ReadAll =
      receive_all handle (connected s₀ waiting_message) con.outgoing
      ≡ some (connected s waiting_message)

  -- After `AnswerQueryObject` with at most 231 bytes of data, the loop of `Worker` at the hive that
  -- asked, which has read all that was sent before, ends when it has run its callback once, with the call API_ANSWER_QUERY_OBJECT and a body whose three fields
  -- are the object, the offset and the number of bytes, and whose rest is the data.
  pub answer_query_object-delivered :
      (data_bytes : List ℕ) (object_id offset : ℕ)
      → ReadAll
      → object_id < 2 ^ 64
      → offset < 2 ^ 64
      → length data_bytes ≤ 231
      → (body : List ℕ) × (receive_all handle
            (connected s₀ waiting_message)
            (answer_query_object con data_bytes object_id offset).outgoing
          ≡ some (run_callback handle s (answer api_query_object) body))
        × (int64_at body 0 ≡ object_id)
        × (int64_at body 8 ≡ offset)
        × (int64_at body 16 ≡ length data_bytes)
        × (drop 24 body ≡ data_bytes)
  unfolding answer_query_object
  answer_query_object-delivered data_bytes object_id offset read fo ff few =
      let body = fields3 object_id offset (length data_bytes) data_bytes in
      let head = header (answer api_query_object) (24 + length data_bytes) in
      let (r0, r8, r16, r24) =
        read_fields3 object_id offset (length data_bytes) data_bytes fo ff (omega arith) in
      let n = length-fields3 object_id offset (length data_bytes) data_bytes in
      (
        body,
        receive_all-append handle s₀ s con.outgoing (head ++ body) read
            ∙ ap some (
                feed_call handle s (answer api_query_object) (24 + length data_bytes) body
                  (omega arith) (omega arith)),
        r0,
        r8,
        r16,
        r24,
      )

  -- After `AnswerQueryObject` with 233 to 487 bytes of data, the loop of `Worker` at the hive that
  -- asked, which has read all that was sent before, runs its callback on the first bytes of the body alone, 256 fewer than were sent, and then
  -- reads the other 256 bytes as messages.
  pub answer_query_object_cut :
      (data_bytes : List ℕ) (object_id offset : ℕ)
      → ReadAll
      → 232 < length data_bytes
      → length data_bytes < 488
      → (body rest : List ℕ) × (receive_all handle
            (connected s₀ waiting_message)
            (answer_query_object con data_bytes object_id offset).outgoing
          ≡ receive_all handle (run_callback handle s (answer api_query_object) body) rest)
        × (length rest ≡ 256)
        × (body ++ rest ≡ fields3 object_id offset (length data_bytes) data_bytes)
  unfolding answer_query_object
  answer_query_object_cut data_bytes object_id offset read many less =
      let whole = fields3 object_id offset (length data_bytes) data_bytes in
      let k = length data_bytes - 232 in
      let head = header (answer api_query_object) (24 + length data_bytes) in
      let n = length-fields3 object_id offset (length data_bytes) data_bytes in
      let body = take k whole in
      let rest = drop k whole in
      let m : length body ≡ k = length-take k whole ∙ omega arith in
      let split = take-append-drop k whole in
      (
        body,
        rest,
        receive_all-append handle s₀ s con.outgoing (head ++ whole) read
            ∙ ap some (
                ap (λ l. feed handle (connected s waiting_message) (head ++ l)) (sym split)
                ∙ ap (feed handle (connected s waiting_message)) (sym (append_assoc head body rest))
                ∙ feed-append handle (connected s waiting_message) (head ++ body) rest
                ∙ ap (λ l. feed handle l rest)
                    (feed_call handle s (answer api_query_object) (24 + length data_bytes) body
                      (omega arith) (omega arith)))
            ∙ sym (receive_all-run_callback handle s (answer api_query_object) body rest),
        omega (arith, length-append body rest, ap length split),
        split,
      )
