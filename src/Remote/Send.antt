-- ===== src/Remote/Send.antt =====
-- The messages that remote.c sends: a byte of call, seven of body size, and the body.
use hivelang.Prelude.{ℕ, ◌+◌, ◌%◌, List, [], ◌∷◌, ◌++◌, length}
use hivelang.Word.{add64}
use hivelang.Remote.Bytes.{le_bytes}
use hivelang.Remote.Connection.{HiveConnection, emit_data, broadcast_if, is_receiving, is_other}

-- The codes of the calls.
abbrev pub api_request_mem_page : ℕ
api_request_mem_page = 2

abbrev pub api_query_object : ℕ
api_query_object = 4

abbrev pub api_push_object : ℕ
api_push_object = 6

abbrev pub api_request_path : ℕ
api_request_path = 8

abbrev pub api_call_worker : ℕ
api_call_worker = 16

abbrev pub api_get_hive_state : ℕ
api_get_hive_state = 18

abbrev pub api_request_id : ℕ
api_request_id = 254

-- `API_ANSWER_X` is `API_X | 0x1`, and each code is even.
abbrev pub answer : ℕ → ℕ
answer call = call + 1

-- `BYTE header[8] = {call, size, 0, 0, 0, 0, 0, 0}`: the size is stored in one byte.
abbrev pub header : ℕ → ℕ → List ℕ
header call size = call ∷ size % 256 ∷ 0 ∷ 0 ∷ 0 ∷ 0 ∷ 0 ∷ 0 ∷ []

-- The eight bytes of an `int64_t`, and the five of a page id.
abbrev pub int64_bytes : ℕ → List ℕ
int64_bytes = le_bytes 8

unfoldable pub send_page_allocation_confirm : HiveConnection → List ℕ → HiveConnection
send_page_allocation_confirm con broadcast_id =
    emit_data con (header (answer api_request_mem_page) 27 ++ broadcast_id)

unfoldable pub send_id_confirm : HiveConnection → List ℕ → HiveConnection
send_id_confirm con broadcast_id = emit_data con (header (answer api_request_id) 27 ++ broadcast_id)

-- The number added to `*send_counter` comes with the connections.
unfoldable pub redirect_broadcast_query :
    List HiveConnection → ℕ → List ℕ → ℕ → List HiveConnection × ℕ
redirect_broadcast_query connections page_id broadcast_id except_this_local_id =
    broadcast_if (is_other except_this_local_id)
      (header api_request_mem_page 32 ++ le_bytes 5 page_id ++ broadcast_id) connections

unfoldable pub redirect_broadcast_id_query :
    List HiveConnection → ℕ → List ℕ → ℕ → List HiveConnection × ℕ
redirect_broadcast_id_query connections want_id broadcast_id except_this_local_id =
    broadcast_if (is_other except_this_local_id)
      (header api_request_id (8 + 27) ++ int64_bytes want_id ++ broadcast_id) connections

unfoldable pub answer_push_object : HiveConnection → ℕ → ℕ → ℕ → ℕ → HiveConnection
answer_push_object con object_id offset size hash = emit_data con (
    header (answer api_push_object) 32
    ++ int64_bytes object_id
    ++ int64_bytes offset
    ++ int64_bytes size
    ++ int64_bytes hash)

-- `data` is the `size` bytes at `shifted_buffer`.
unfoldable pub answer_query_object : HiveConnection → List ℕ → ℕ → ℕ → HiveConnection
answer_query_object con data_bytes object_id offset = emit_data con (
    header (answer api_query_object) (24 + length data_bytes)
    ++ int64_bytes object_id
    ++ int64_bytes offset
    ++ int64_bytes (length data_bytes)
    ++ data_bytes)

unfoldable pub answer_request_object_path : List HiveConnection → ℕ → ℕ → List HiveConnection
answer_request_object_path connections object distance =
    (broadcast_if is_receiving
      (header (answer api_request_path) 16 ++ int64_bytes object ++ int64_bytes distance)
      connections).0

-- It sends the call of `AnswerRequestObjectPath`, not API_ANSWER_REQUEST_PATH_TO_ID.
unfoldable pub answer_request_path_to_id : List HiveConnection → ℕ → ℕ → List HiveConnection
answer_request_path_to_id connections global_id distance =
    (broadcast_if is_receiving
      (header (answer api_request_path) 16 ++ int64_bytes global_id ++ int64_bytes distance)
      connections).0

-- `input_table` is the `inputSize` bytes of the worker's input.
unfoldable pub start_new_worker_remote : HiveConnection → ℕ → ℕ → List ℕ → HiveConnection
start_new_worker_remote con worker_id global_id input_table =
    emit_data (record con { queue_len = add64 con.queue_len 1 })
      (header api_call_worker (16 + length input_table)
        ++ int64_bytes worker_id
        ++ int64_bytes global_id
        ++ input_table)

unfoldable pub send_hive_state : List HiveConnection → ℕ → ℕ → List HiveConnection
send_hive_state connections wait_list_len queue_len =
    (broadcast_if is_receiving
      (header api_get_hive_state 24
        ++ int64_bytes wait_list_len
        ++ int64_bytes queue_len
        ++ int64_bytes 0)
      connections).0
