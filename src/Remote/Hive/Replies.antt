-- ===== src/Remote/Hive/Replies.antt =====
-- The answers to the broadcasts of remote.c.
use hivelang.Prelude.{ℕ, ◌==◌, true, false, Option, none, some, ◌>>=◌, List, write}
use hivelang.Hash.Keys.{get_hashtable}
use hivelang.Remote.Connection.{HiveConnection, get_connection_by_id}
use hivelang.Remote.Send.{send_id_confirm, send_page_allocation_confirm}
use hivelang.Remote.Hive.{
  Hive, BroadcastValue, BroadcastTable, minus_one, with_connection, broadcast_id_at,
}
use hivelang.Remote.Hive.Broadcasts.{confirm_id, confirm_new_page, increment32}

-- The first part of API_ANSWER_REQUEST_ID and API_ANSWER_REQUEST_MEM_PAGE: an answer is counted, and
-- the broadcast is given when it was the last one.
unfoldable pub count_answer :
    BroadcastTable → List ℕ → Option (Option BroadcastValue × BroadcastTable)
count_answer p broadcast_id = do
  (broadcast, t) ← get_hashtable p.table broadcast_id
  elim (broadcast == 0) [
    | true ↦ some (none, record p { table = t })
    | false ↦ do
      value ← p.values broadcast
      let counted : BroadcastValue = record value { answered = increment32 value.answered }
      let p' : BroadcastTable = record {
        table = t;
        values = write p.values broadcast (some counted);
      }
      elim (counted.answered == counted.requested) [
        | true ↦ some (some counted, p')
        | false ↦ some (none, p')
      ]
  ]

-- A broadcast of another hive: the answer goes back to it, if it is still there.
abbrev pub answer_initiator : Hive → ℕ → (HiveConnection → HiveConnection) → Option Hive
answer_initiator hive local_redirect_id confirm =
    elim (get_connection_by_id hive.connections local_redirect_id) [
      | none ↦ some hive
      | some (index, _) ↦ with_connection hive index confirm
    ]

unfoldable pub handle_answer_request_id : Hive → List ℕ → Option Hive
handle_answer_request_id hive res_buffer = do
  let broadcast_id = broadcast_id_at res_buffer 0
  (last, broadcasts) ← count_answer hive.get_id_broadcasts broadcast_id
  let hive' = record hive { get_id_broadcasts = broadcasts }
  elim last [
    | none ↦ some hive'
    | some value ↦ elim (value.local_redirect_id == minus_one) [
      | true ↦ some (confirm_id hive' value.id)
      | false ↦ answer_initiator hive' value.local_redirect_id (λ c. send_id_confirm c broadcast_id)
    ]
  ]

unfoldable pub handle_answer_request_mem_page : Hive → List ℕ → Option Hive
handle_answer_request_mem_page hive res_buffer = do
  let broadcast_id = broadcast_id_at res_buffer 0
  (last, broadcasts) ← count_answer hive.get_page_broadcasts broadcast_id
  let hive' = record hive { get_page_broadcasts = broadcasts }
  elim last [
    | none ↦ some hive'
    | some value ↦ elim (value.local_redirect_id == minus_one) [
      | true ↦ confirm_new_page hive' value.id
      | false ↦
          answer_initiator hive' value.local_redirect_id
            (λ c. send_page_allocation_confirm c broadcast_id)
    ]
  ]
