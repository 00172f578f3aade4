-- ===== src/Remote/Hive/Switch.antt =====
-- The switch of `HandleApiCall` in remote.c.
use hivelang.Prelude.{ℕ, ◌==◌, true, false, Option, none, some, ◌>>=◌, List, [], ◌∷◌}
use hivelang.Remote.Send.{
  answer, api_request_mem_page, api_query_object, api_push_object, api_request_path,
  api_call_worker, api_get_hive_state, api_request_id,
}
use hivelang.Remote.Hive.{Hive, System}
use hivelang.Remote.Hive.Connect.{
  api_request_connection, handle_request_connection, handle_answer_request_connection,
  handle_get_hive_state,
}
use hivelang.Remote.Hive.Broadcasts.{handle_request_id, handle_request_mem_page}
use hivelang.Remote.Hive.Replies.{handle_answer_request_id, handle_answer_request_mem_page}
use hivelang.Remote.Hive.Calls.{
  handle_answer_push_object, handle_answer_query_object, handle_answer_request_path,
  handle_answer_request_path_to_id, handle_call_worker, handle_push_object, handle_query_object,
  handle_request_path, handle_request_path_to_id,
}

-- API_REQUEST_PATH_TO_ID
abbrev pub api_request_path_to_id : ℕ
api_request_path_to_id = 252

-- The calls, in the order of the switch.
pub data ApiCall : Type 0 where
  request_connection : ApiCall
  answer_request_connection : ApiCall
  request_id : ApiCall
  answer_request_id : ApiCall
  request_mem_page : ApiCall
  answer_request_mem_page : ApiCall
  query_object : ApiCall
  answer_query : ApiCall
  push_object : ApiCall
  answer_push : ApiCall
  request_path : ApiCall
  answer_request_path : ApiCall
  request_path_to_id : ApiCall
  answer_path_to_id : ApiCall
  call_worker : ApiCall
  get_hive_state : ApiCall

abbrev pub call_codes : List (ℕ × ApiCall)
call_codes =
    (api_request_connection, request_connection)
    ∷ (answer api_request_connection, answer_request_connection)
    ∷ (api_request_id, request_id)
    ∷ (answer api_request_id, answer_request_id)
    ∷ (api_request_mem_page, request_mem_page)
    ∷ (answer api_request_mem_page, answer_request_mem_page)
    ∷ (api_query_object, query_object)
    ∷ (answer api_query_object, answer_query)
    ∷ (api_push_object, push_object)
    ∷ (answer api_push_object, answer_push)
    ∷ (api_request_path, request_path)
    ∷ (answer api_request_path, answer_request_path)
    ∷ (api_request_path_to_id, request_path_to_id)
    ∷ (answer api_request_path_to_id, answer_path_to_id)
    ∷ (api_call_worker, call_worker)
    ∷ (api_get_hive_state, get_hive_state)
    ∷ []

abbrev pub find_call : List (ℕ × ApiCall) → ℕ → Option ApiCall
find_call [] res_api_call = none
find_call ((code, call) ∷ codes) res_api_call = elim (code == res_api_call) [
  | true ↦ some call
  | false ↦ find_call codes res_api_call
]

-- `return 1`
abbrev pub returns_one : Option Hive → Option (ℕ × Hive)
returns_one result = do hive ← result; some (1, hive)

-- A case of the switch.
unfoldable pub handle_call : System → ℕ → Hive → ℕ → List ℕ → ApiCall → Option (ℕ × Hive)
handle_call sys upper_bytes hive con res_buffer request_connection =
    returns_one (handle_request_connection sys hive con res_buffer)
handle_call sys upper_bytes hive con res_buffer answer_request_connection =
    handle_answer_request_connection hive con res_buffer
handle_call sys upper_bytes hive con res_buffer request_id =
    returns_one (handle_request_id sys hive con res_buffer)
handle_call sys upper_bytes hive con res_buffer answer_request_id =
    returns_one (handle_answer_request_id hive res_buffer)
handle_call sys upper_bytes hive con res_buffer request_mem_page =
    returns_one (handle_request_mem_page sys upper_bytes hive con res_buffer)
handle_call sys upper_bytes hive con res_buffer answer_request_mem_page =
    returns_one (handle_answer_request_mem_page hive res_buffer)
handle_call sys upper_bytes hive con res_buffer query_object =
    returns_one (handle_query_object sys hive con res_buffer)
handle_call sys upper_bytes hive con res_buffer answer_query =
    returns_one (handle_answer_query_object sys hive res_buffer)
handle_call sys upper_bytes hive con res_buffer push_object =
    returns_one (handle_push_object sys hive con res_buffer)
handle_call sys upper_bytes hive con res_buffer answer_push =
    returns_one (handle_answer_push_object sys hive res_buffer)
handle_call sys upper_bytes hive con res_buffer request_path =
    returns_one (handle_request_path sys hive con res_buffer)
handle_call sys upper_bytes hive con res_buffer answer_request_path =
    returns_one (handle_answer_request_path sys hive con res_buffer)
handle_call sys upper_bytes hive con res_buffer request_path_to_id =
    returns_one (handle_request_path_to_id sys hive con res_buffer)
handle_call sys upper_bytes hive con res_buffer answer_path_to_id =
    returns_one (handle_answer_request_path_to_id sys hive con res_buffer)
handle_call sys upper_bytes hive con res_buffer call_worker =
    returns_one (handle_call_worker sys hive res_buffer)
handle_call sys upper_bytes hive con res_buffer get_hive_state =
    returns_one (handle_get_hive_state hive con res_buffer)

unfoldable pub handle_api_call : System → ℕ → Hive → ℕ → ℕ → List ℕ → Option (ℕ × Hive)
handle_api_call sys upper_bytes hive con res_api_call res_buffer =
    elim (find_call call_codes res_api_call) [
      | none ↦ some (0, hive)
      | some call ↦ handle_call sys upper_bytes hive con res_buffer call
    ]
