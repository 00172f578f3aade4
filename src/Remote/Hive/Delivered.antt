-- ===== src/Remote/Hive/Delivered.antt =====
-- A worker that one hive sends away, started by the hive that receives it: the sender, the loop of
-- `Worker`, `HandleApiCall` and `StartNewWorker` together.
use hivelang.Prelude.{
  ℕ, ◌+◌, ◌^◌, ◌<◌, ◌==◌, ◌≡◌, refl, ap, ◌∙◌, Bool, false, not, Option, none, some, ◌>>=◌,
  Option-cases, inl, inr, List, [], ◌∷◌, ◌++◌, length, take, drop, get_elem?, arith,
}
use hivelang.Remote.Bytes.{le_value}
use hivelang.Remote.Connection.{HiveConnection}
use hivelang.Remote.Receive.{Link, waiting_message, connected, closed, run_callback}
use hivelang.Remote.Receive.Whole.{receive_all, receive_all-append}
use hivelang.Remote.Send.{header, int64_bytes, api_call_worker, start_new_worker_remote}
use hivelang.Remote.Delivery.{int64_at, int64_at-field, feed_call}
use hivelang.Remote.Delivery.Objects.{ReadAll}
use hivelang.Remote.Hive.{Hive, System}
use hivelang.Remote.Hive.Requests.{start_new_worker}
use hivelang.Remote.Hive.Calls.{handle_call_worker}
use hivelang.Remote.Hive.Switch.{handle_call, handle_api_call}

-- `HandleApiCall` as the loop of `Worker` calls it, for the connection `con`: 0 ends the connection.
-- After a step of which nothing is said nothing more is said.
unfoldable pub callback : System → ℕ → ℕ → Option Hive → ℕ → List ℕ → Option Hive × Bool
callback sys upper_bytes con none call body = (none, false)
callback sys upper_bytes con (some hive) call body =
    elim (handle_api_call sys upper_bytes hive con call body) [
      | none ↦ (none, false)
      | some (n, hive') ↦ (some hive', not (n == 0))
    ]

-- What is left of a connection after a call that may have no result.
abbrev pub continued : Option Hive → Link (Option Hive)
continued none = closed none
continued (some hive) = connected (some hive) waiting_message

-- The body of API_CALL_WORKER.
abbrev worker_body : ℕ → ℕ → List ℕ → List ℕ
worker_body worker_id global_id input = int64_bytes worker_id ++ int64_bytes global_id ++ input

read_worker_body :
    (worker_id global_id : ℕ) (input : List ℕ)
    → worker_id < 2 ^ 64
    → global_id < 2 ^ 64
    → (int64_at (worker_body worker_id global_id input) 0 ≡ worker_id)
      × (int64_at (worker_body worker_id global_id input) 8 ≡ global_id)
      × (drop 16 (worker_body worker_id global_id input) ≡ input)
read_worker_body worker_id global_id input fw fg = (
  int64_at-field 0 [] worker_id (int64_bytes global_id ++ input) refl fw,
  int64_at-field 8 (int64_bytes worker_id) global_id input refl fg,
  refl,
)

take_all : (xs : List ℕ) → take (length xs) xs ≡ xs
take_all [] = refl
take_all (x ∷ xs) = ap (λ ys. x ∷ ys) (take_all xs)

module _ (sys : System) (upper_bytes con : ℕ) (hive : Hive) (worker_id global_id : ℕ)
    (input : List ℕ) (fw : worker_id < 2 ^ 64) (fg : global_id < 2 ^ 64)
    (known : get_elem? hive.input_sizes worker_id ≡ some (length input)) where
  abbrev started : Option Hive
  started = start_new_worker hive worker_id global_id input (le_value (take 8 (sys.random 0)))

  handle_call_worker-started :
      handle_call_worker sys hive (worker_body worker_id global_id input) ≡ started
  unfolding handle_call_worker
  handle_call_worker-started =
      let (r0, r8, r16) = read_worker_body worker_id global_id input fw fg in
      rw (handle_call_worker, r0, known) (rw (◌>>=◌, r8, r16, take_all input) refl)

  callback-started :
      run_callback
        (callback sys upper_bytes con)
        (some hive)
        api_call_worker
        (worker_body worker_id global_id input)
      ≡ continued started
  unfolding callback handle_api_call handle_call
  callback-started = elim (Option-cases started) [
    | inl gone ↦
        rw (gone, callback, handle_api_call, handle_call, handle_call_worker-started, gone) refl
    | inr (h, there) ↦
        rw (there, callback, handle_api_call, handle_call, handle_call_worker-started, there) refl
  ]

  -- A hive sends a worker away by StartNewWorkerRemote, with an input of at most 239 bytes, which is as
  -- long as the receiver has it for that worker; the receiver has read all that was sent before.
  -- Then the loop of Worker at the receiver, with HandleApiCall as its callback, does exactly what
  -- StartNewWorker does there with the same worker, global identifier and input, and then waits
  -- for the next message.
  pub start_new_worker_remote-delivered :
      (s₀ : Option Hive) (c : HiveConnection)
      → ReadAll (callback sys upper_bytes con) s₀ (some hive) c
      → 16 + length input < 256
      → receive_all
          (callback sys upper_bytes con)
          (connected s₀ waiting_message)
          (start_new_worker_remote c worker_id global_id input).outgoing
        ≡ some (
            continued
              (start_new_worker hive worker_id global_id input (le_value (take 8 (sys.random 0)))))
  unfolding start_new_worker_remote
  start_new_worker_remote-delivered s₀ c read short =
      let handle = callback sys upper_bytes con in
      let body = worker_body worker_id global_id input in
      let message = header api_call_worker (16 + length input) ++ body in
      receive_all-append handle s₀ (some hive) c.outgoing message read
      ∙ ap some (
          feed_call handle (some hive) api_call_worker (16 + length input) body (omega arith)
            (omega arith)
          ∙ callback-started)
