-- ===== src/Remote/Hive/Calls.antt =====
-- `HandleApiCall` of remote.c: the calls about objects and paths, and the switch.
use hivelang.Prelude.{ℕ, ◌==◌, true, false, Option, some, ◌>>=◌, List, get_elem?, take, drop}
use hivelang.Word.{add64}
use hivelang.Hash.Bytes.{get_byte_string_hash}
use hivelang.Hash.Keys.{i64_get_hashtable, get_hashtable, set_hashtable}
use hivelang.Remote.Bytes.{le_value}
use hivelang.Remote.Send.{
  answer_query_object, answer_push_object, answer_request_object_path, answer_request_path_to_id,
}
use hivelang.Remote.Delivery.{int64_at}
use hivelang.Remote.WaitList.{get_wait_list_key, set_wait_list_key}
use hivelang.Remote.Paths.{learn_object_path, learn_id_path}
use hivelang.Objects.{read_bytes, universal_update_local_push}
use hivelang.Remote.Hive.{Hive, System, with_connection, broadcast_id_at}
use hivelang.Remote.Hive.Objects.{
  callback_query_answer, callback_push_answer, wake_query, wake_push,
}
use hivelang.Remote.Hive.Requests.{
  wait_for, request_object_get, request_object_set, request_object_path_broadcast, start_new_worker,
}

unfoldable pub handle_query_object : System → Hive → ℕ → List ℕ → Option Hive
handle_query_object sys hive con res_buffer =
    let object_id = int64_at res_buffer 0 in
    let offset = int64_at res_buffer 8 in
    let size = int64_at res_buffer 16 in
    do
      (obj, local_objects) ← i64_get_hashtable hive.local_objects object_id
      let hive₁ = record hive { local_objects = local_objects }
      elim (obj == 0) [
        | false ↦ with_connection hive₁ con (λ c.
            answer_query_object c (read_bytes hive.memory (add64 obj offset) size) object_id offset)
        | true ↦ do
          c ← get_elem? hive.connections con
          waiting ←
              wait_for sys hive.get_wait_list (get_wait_list_key object_id offset size)
                callback_query_answer c.local_id
          request_object_get sys (record hive₁ { get_wait_list = waiting }) object_id offset size 0
              (sys.random 0)
      ]

unfoldable pub handle_answer_query_object : System → Hive → List ℕ → Option Hive
handle_answer_query_object sys hive res_buffer =
    let size = int64_at res_buffer 16 in
    wake_query sys hive (int64_at res_buffer 0) (int64_at res_buffer 8) size
      (add64 sys.res_buffer_address 24) (take size (drop 24 res_buffer))

-- The key of a push is put into the table of those who wait for a read, whose keys are 24 bytes.
unfoldable pub handle_push_object : System → Hive → ℕ → List ℕ → Option Hive
handle_push_object sys hive con res_buffer =
    let object_id = int64_at res_buffer 0 in
    let offset = int64_at res_buffer 8 in
    let size = int64_at res_buffer 16 in
    let data_address = add64 sys.res_buffer_address 24 in
    let data_bytes = take size (drop 24 res_buffer) in
    let hash = get_byte_string_hash data_bytes in
    do
      (obj, local_objects) ← i64_get_hashtable hive.local_objects object_id
      let hive₁ = record hive { local_objects = local_objects }
      elim (obj == 0) [
        | false ↦ do
          answered ←
              with_connection
                (record hive₁ {
                  memory =
                      universal_update_local_push hive.memory obj offset size data_address
                        data_bytes;
                })
                con (λ c. answer_push_object c object_id offset size hash)
          wake_push sys answered object_id offset size hash
        | true ↦ do
          c ← get_elem? hive.connections con
          waiting ←
              wait_for sys hive.get_wait_list
                (take 24 (set_wait_list_key object_id offset size hash)) callback_push_answer
                c.local_id
          asked ←
              request_object_get sys (record hive₁ { get_wait_list = waiting }) object_id offset
                size 0 (sys.random 0)
          request_object_set sys asked object_id offset size data_address data_bytes 0
              (sys.random 1)
      ]

unfoldable pub handle_answer_push_object : System → Hive → List ℕ → Option Hive
handle_answer_push_object sys hive res_buffer =
    wake_push sys hive (int64_at res_buffer 0) (int64_at res_buffer 8) (int64_at res_buffer 16)
      (int64_at res_buffer 24)

unfoldable pub handle_request_path : System → Hive → ℕ → List ℕ → Option Hive
handle_request_path sys hive con res_buffer =
    let object_id = int64_at res_buffer 0 in
    let broadcast_id = broadcast_id_at res_buffer 8 in
    do
      (obj, local_objects) ← i64_get_hashtable hive.local_objects object_id
      let hive₁ = record hive { local_objects = local_objects }
      elim (obj == 0) [
        | false ↦
            some (record hive₁ {
              connections = answer_request_object_path hive.connections object_id 1;
            })
        | true ↦ do
          (seen, t) ← get_hashtable hive.get_path_broadcasts broadcast_id
          let hive₂ = record hive₁ { get_path_broadcasts = t }
          elim (seen == 0) [
            | false ↦ some hive₂
            | true ↦ do
              c ← get_elem? hive.connections con
              asked ← request_object_path_broadcast hive₂ object_id (sys.random 0) c.local_id
              (_, t') ← set_hashtable t broadcast_id 1 0
              some (record asked { get_path_broadcasts = t' })
          ]
      ]

unfoldable pub handle_answer_request_path : System → Hive → ℕ → List ℕ → Option Hive
handle_answer_request_path sys hive con res_buffer =
    let object_id = int64_at res_buffer 0 in
    let distance = int64_at res_buffer 8 in
    do
      (obj, local_objects) ← i64_get_hashtable hive.local_objects object_id
      let hive₁ = record hive { local_objects = local_objects }
      elim (obj == 0) [
        | false ↦ some hive₁
        | true ↦ do
          c ← get_elem? hive.connections con
          (taken, paths) ←
              learn_object_path sys.fuel sys.addresses hive.object_paths object_id c.local_id
                distance
          let hive₂ = record hive₁ { object_paths = paths }
          elim taken [
            | false ↦ some hive₂
            | true ↦ some (record hive₂ {
              connections =
                  answer_request_object_path hive.connections object_id (add64 distance 1);
            })
          ]
      ]

-- The request is redirected by `RequestObjectPathBroadcast`, as if the hive were an object.
unfoldable pub handle_request_path_to_id : System → Hive → ℕ → List ℕ → Option Hive
handle_request_path_to_id sys hive con res_buffer =
    let global_id = int64_at res_buffer 0 in
    let broadcast_id = broadcast_id_at res_buffer 8 in
    elim (global_id == hive.this_server_id) [
      | true ↦
          some
            (record hive { connections = answer_request_path_to_id hive.connections global_id 1 })
      | false ↦ do
        (seen, t) ← get_hashtable hive.get_path_to_id_broadcasts broadcast_id
        let hive₁ = record hive { get_path_to_id_broadcasts = t }
        elim (seen == 0) [
          | false ↦ some hive₁
          | true ↦ do
            c ← get_elem? hive.connections con
            asked ← request_object_path_broadcast hive₁ global_id (sys.random 0) c.local_id
            (_, t') ← set_hashtable t broadcast_id 1 0
            some (record asked { get_path_to_id_broadcasts = t' })
        ]
    ]

unfoldable pub handle_answer_request_path_to_id : System → Hive → ℕ → List ℕ → Option Hive
handle_answer_request_path_to_id sys hive con res_buffer =
    let global_id = int64_at res_buffer 0 in
    let distance = int64_at res_buffer 8 in
    elim (global_id == hive.this_server_id) [
      | true ↦ some hive
      | false ↦ do
        c ← get_elem? hive.connections con
        (taken, paths) ←
            learn_id_path sys.fuel sys.addresses hive.global_id_paths global_id c.local_id distance
        let hive₁ = record hive { global_id_paths = paths }
        elim taken [
          | false ↦ some hive₁
          | true ↦ some (record hive₁ {
            connections = answer_request_path_to_id hive.connections global_id (add64 distance 1);
          })
        ]
    ]

-- The input of the worker is as long as its type says.
unfoldable pub handle_call_worker : System → Hive → List ℕ → Option Hive
handle_call_worker sys hive res_buffer =
    let worker_id = int64_at res_buffer 0 in
    do
      input_size ← get_elem? hive.input_sizes worker_id
      start_new_worker hive worker_id (int64_at res_buffer 8) (take input_size (drop 16 res_buffer))
          (le_value (take 8 (sys.random 0)))
