-- ===== src/Remote/Hive/Objects.antt =====
-- Those who wait for an answer about an object, and the callbacks that answer them: callbacks.c and
-- remote.c.
use hivelang.Prelude.{ℕ, ◌==◌, true, false, Option, some, ◌>>=◌, List, [], ◌∷◌, ◌++◌}
use hivelang.Remote.Connection.{get_connection_by_id}
use hivelang.Remote.Send.{answer_query_object, answer_push_object}
use hivelang.Remote.WaitList.{update_waiting_query, update_waiting_push}
use hivelang.Remote.Hive.{Hive, System, continue_query, continue_push, with_connection}

-- The callbacks by their numbers.
abbrev pub callback_query_answer : ℕ
callback_query_answer = 1

abbrev pub callback_query_continue : ℕ
callback_query_continue = 2

abbrev pub callback_push_answer : ℕ
callback_push_answer = 3

abbrev pub callback_push_continue : ℕ
callback_push_continue = 4

-- `callbackQueryAnswerLocalId`, `callbackPushAnswerLocalId`; an unknown connection is a NULL pointer.
unfoldable pub answer_query_to : ℕ → ℕ → ℕ → List ℕ → Hive → Option Hive
answer_query_to params object_id offset data_bytes hive = do
  (index, _) ← get_connection_by_id hive.connections params
  with_connection hive index (λ c. answer_query_object c data_bytes object_id offset)

unfoldable pub answer_push_to : ℕ → ℕ → ℕ → ℕ → ℕ → Hive → Option Hive
answer_push_to params object_id offset size hash hive = do
  (index, _) ← get_connection_by_id hive.connections params
  with_connection hive index (λ c. answer_push_object c object_id offset size hash)

-- The callbacks of a list of `get_wait_list`, which are all called as those of a query are: where
-- one is `callbackPushAnswerLocalId`, it takes the address of the data as the hash.
abbrev pub run_query_callbacks : List (ℕ × ℕ) → ℕ → ℕ → ℕ → ℕ → List ℕ → Hive → Option Hive
run_query_callbacks [] object_id offset size data_address data_bytes hive = some hive
run_query_callbacks ((callback, params) ∷ calls) object_id offset size data_address data_bytes
      hive =
    do
      hive' ← elim (callback == callback_query_answer) [
        | true ↦ answer_query_to params object_id offset data_bytes hive
        | false ↦ elim (callback == callback_push_answer) [
          | true ↦ answer_push_to params object_id offset size data_address hive
          | false ↦ some (record hive {
            effects = hive.effects ++ (continue_query params object_id offset size data_bytes ∷ []);
          })
        ]
      ]
      run_query_callbacks calls object_id offset size data_address data_bytes hive'

abbrev pub run_push_callbacks : List (ℕ × ℕ) → ℕ → ℕ → ℕ → ℕ → Hive → Option Hive
run_push_callbacks [] object_id offset size hash hive = some hive
run_push_callbacks ((callback, params) ∷ calls) object_id offset size hash hive = do
  hive' ← elim (callback == callback_push_answer) [
    | true ↦ answer_push_to params object_id offset size hash hive
    | false ↦ some (record hive {
      effects = hive.effects ++ (continue_push params object_id offset size hash ∷ []);
    })
  ]
  run_push_callbacks calls object_id offset size hash hive'

-- `UpdateWaitingQuery` and `UpdateWaitingPush`, with their callbacks.
unfoldable pub wake_query : System → Hive → ℕ → ℕ → ℕ → ℕ → List ℕ → Option Hive
wake_query sys hive object_id offset size data_address data_bytes = do
  (calls, waiting) ← update_waiting_query sys.fuel hive.get_wait_list object_id offset size
  run_query_callbacks calls object_id offset size data_address data_bytes
      (record hive { get_wait_list = waiting })

unfoldable pub wake_push : System → Hive → ℕ → ℕ → ℕ → ℕ → Option Hive
wake_push sys hive object_id offset size hash = do
  (calls, waiting) ← update_waiting_push sys.fuel hive.set_wait_list object_id offset size hash
  run_push_callbacks calls object_id offset size hash (record hive { set_wait_list = waiting })
