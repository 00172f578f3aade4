-- ===== src/Remote/Hive/Requests.antt =====
-- What this hive asks of the others about objects and hives, and where it starts a worker: the
-- second half of remote.c, and `StartNewWorker` of runtime.c.
use hivelang.Prelude.{
  ℕ, ◌+◌, ◌-◌, ◌*◌, ◌/◌, ◌%◌, ◌^◌, ◌==◌, Bool, true, false, not, ◌&&◌, ◌||◌, Option, none, some,
  ◌>>=◌, List, [], ◌∷◌, ◌++◌, if◌then◌else◌, leb, length, get_elem?,
}
use hivelang.Word.{word_size, signed_lt, add64}
use hivelang.Hash.Bytes.{get_byte_string_hash}
use hivelang.Hash.Keys.{i64_get_hashtable}
use hivelang.Remote.Connection.{
  HiveConnection, emit_data, broadcast_if, is_other, get_connection_by_id,
}
use hivelang.Remote.Send.{
  header, int64_bytes, api_request_path, api_query_object, api_push_object, start_new_worker_remote,
}
use hivelang.Remote.WaitList.{
  WaitList, write_node, getset_insert_tagged, get_wait_list_key, set_wait_list_key,
}
use hivelang.Remote.Paths.{forget_path}
use hivelang.Objects.{universal_update_local_push}
use hivelang.Remote.Hive.{Hive, System, minus_one, with_connection, start_local}
use hivelang.Remote.Hive.Objects.{callback_query_continue, callback_push_continue, wake_push}

-- The message of both path broadcasts: each carries the call API_REQUEST_PATH.
abbrev pub broadcast_path_request : Hive → ℕ → List ℕ → ℕ → Hive
broadcast_path_request hive id broadcast_id except_this_local_id = record hive {
  connections =
      (broadcast_if (is_other except_this_local_id)
        (header api_request_path (8 + 27) ++ int64_bytes id ++ broadcast_id) hive.connections).0;
}

-- `broadcast_id` is what SECURE_RANDOM gives.
unfoldable pub request_object_path_broadcast : Hive → ℕ → List ℕ → ℕ → Option Hive
request_object_path_broadcast hive object broadcast_id except_this_local_id = do
  paths ← forget_path hive.object_paths object
  some (
      broadcast_path_request (record hive { object_paths = paths }) object broadcast_id
        except_this_local_id)

unfoldable pub request_path_to_id_broadcast : Hive → ℕ → List ℕ → ℕ → Option Hive
request_path_to_id_broadcast hive global_id broadcast_id except_this_local_id = do
  paths ← forget_path hive.global_id_paths global_id
  some (
      broadcast_path_request (record hive { global_id_paths = paths }) global_id broadcast_id
        except_this_local_id)

-- A new node for a list of those who wait: `next` is not yet written.
abbrev pub wait_for : System → WaitList → List ℕ → ℕ → ℕ → Option WaitList
wait_for sys s key callback params =
    getset_insert_tagged sys.fuel
      (record s {
        nodes =
            write_node s.nodes sys.address
              (some (record { next = 0; params = params; callback = callback }));
      })
      key sys.address

-- The connection that leads to an object: none when no path is known.
abbrev pub path_to : Hive → ℕ → Option (Option ℕ × Hive)
path_to hive object_id = do
  (path, table) ← i64_get_hashtable hive.object_paths.table object_id
  let hive' = record hive {
    object_paths = record { table = table; values = hive.object_paths.values };
  }
  elim (path == 0) [
    | true ↦ some (none, hive')
    | false ↦ do
      value ← hive.object_paths.values path
      some (if value.local_id == minus_one then none else some value.local_id, hive')
  ]

-- The second half of `RequestObjectGet` and of `RequestObjectSet`: the request goes to the
-- connection on the path (NULL when it is unknown), or the path is asked for.
abbrev pub send_on_path : Hive → ℕ → List ℕ → List ℕ → Option Hive
send_on_path hive object_id broadcast_id message = do
  (local_id, hive') ← path_to hive object_id
  elim local_id [
    | none ↦ request_object_path_broadcast hive' object_id broadcast_id minus_one
    | some id ↦ do
      (index, _) ← get_connection_by_id hive'.connections id
      with_connection hive' index (λ c. emit_data c message)
  ]

-- `worker` is 0 for NULL.
unfoldable pub request_object_get : System → Hive → ℕ → ℕ → ℕ → ℕ → List ℕ → Option Hive
request_object_get sys hive object_id offset size worker broadcast_id = do
  hive' ← elim (worker == 0) [
    | true ↦ some hive
    | false ↦ do
      waiting ←
          wait_for sys hive.get_wait_list (get_wait_list_key object_id offset size)
            callback_query_continue worker
      some (record hive { get_wait_list = waiting })
  ]
  send_on_path hive' object_id broadcast_id (
      header api_query_object 24 ++ int64_bytes object_id ++ int64_bytes offset ++ int64_bytes size)

-- `data_bytes` are the `size` bytes at `data_address`.
unfoldable pub request_object_set :
    System → Hive → ℕ → ℕ → ℕ → ℕ → List ℕ → ℕ → List ℕ → Option Hive
request_object_set sys hive object_id offset size data_address data_bytes worker broadcast_id = do
  let hash = get_byte_string_hash data_bytes
  (loc, local_objects) ← i64_get_hashtable hive.local_objects object_id
  let hive₁ = record hive { local_objects = local_objects }
  elim (loc == 0) [
    | false ↦
        wake_push sys
          (record hive₁ {
            memory =
                universal_update_local_push hive.memory loc offset size data_address data_bytes;
          })
          object_id offset size hash
    | true ↦ do
      hive₂ ← elim (worker == 0) [
        | true ↦ some hive₁
        | false ↦ do
          waiting ←
              wait_for sys hive.set_wait_list (set_wait_list_key object_id offset size hash)
                callback_push_continue worker
          some (record hive₁ { set_wait_list = waiting })
      ]
      send_on_path hive₂ object_id broadcast_id (
          header api_push_object (24 + size)
          ++ int64_bytes object_id
          ++ int64_bytes offset
          ++ int64_bytes size
          ++ data_bytes)
  ]

-- `rnd % connections_len`, where `rnd` is `myAbs` of a word: the least `int64_t` is its own.
abbrev pub random_index : ℕ → ℕ → Option ℕ
random_index rnd n = elim (rnd == 2 ^ 63) [
  | false ↦ some (rnd % n)
  | true ↦ if rnd % n == 0 then some 0 else none
]

-- A connection with a socket that is not busy, or is asked for by the global identifier 2.
abbrev pub can_start : HiveConnection → ℕ → Bool
can_start c global_id =
    c.has_socket
    && ((signed_lt c.wait_list_len 50 && signed_lt c.queue_len 30)
        || (c.queue_len == 0 || global_id == 2))

-- The first lines of `StartNewWorker`: whether the worker is to run on another hive.
unfoldable pub wants_remote : ℕ → ℕ → ℕ → Bool
wants_remote rnd waiting global_id =
    let random_confirm =
      (rnd / 2 ^ 31) % 2 == 1 && signed_lt (rnd % 100) (5 * waiting % word_size) in
    ((random_confirm || not (global_id == 0)) && not (global_id == 1)) || global_id == 2

-- `random_word` is what SECURE_RANDOM gives.
unfoldable pub start_new_worker : Hive → ℕ → ℕ → List ℕ → ℕ → Option Hive
start_new_worker hive worker_id global_id input_table random_word =
    let rnd = if leb (2 ^ 63) random_word then word_size - random_word else random_word in
    let here =
      some (record hive { effects = hive.effects ++ (start_local worker_id input_table ∷ []) }) in
    elim (wants_remote rnd (add64 hive.wait_list_len hive.queue_len) global_id
      && not (length hive.connections == 0)) [
        | false ↦ here
        | true ↦ do
          t ← random_index rnd (length hive.connections)
          c ← get_elem? hive.connections t
          elim (can_start c global_id) [
            | false ↦ here
            | true ↦
                let id = if leb (2 ^ 63) global_id then global_id else 0 in
                with_connection hive t (λ c'. start_new_worker_remote c' worker_id id input_table)
          ]
      ]
