-- ===== src/Remote/Hive/Connect.antt =====
-- Connections that come and go, in remote.c.
use hivelang.Prelude.{
  ℕ, ◌+◌, ◌-◌, ◌==◌, Bool, true, false, not, ◌&&◌, Option, none, some, ◌>>=◌, List, [], ◌∷◌, ◌++◌,
  length, get_elem?, set, take, ltb, if◌then◌else◌,
}
use hivelang.Word.{add64}
use hivelang.Remote.Connection.{HiveConnection, emit_data, get_connection_by_id}
use hivelang.Remote.Send.{header, int64_bytes}
use hivelang.Remote.Delivery.{int64_at}
use hivelang.Remote.Hive.{Hive, System, minus_one, with_connection}

-- INT_INFINITY
abbrev pub int_infinity : ℕ
int_infinity = 999999

abbrev pub api_request_connection : ℕ
api_request_connection = 0

-- `connections[connections_len++] = …` of an array of 1024 pointers, with no test for its end: nothing
-- is said of what comes then.
abbrev pub add_connection : Hive → HiveConnection → Option Hive
add_connection hive con = elim (ltb (length hive.connections) 1024) [
  | true ↦ some (record hive {
    next_local_id = add64 hive.next_local_id 1;
    connections = hive.connections ++ (con ∷ []);
  })
  | false ↦ none
]

-- `HandleNewConnection`: a connection that receives and has no socket to send on.
unfoldable pub handle_new_connection : Hive → Option Hive
handle_new_connection hive =
    let new_connection : HiveConnection = record {
      receiving = true;
      has_socket = false;
      outgoing = [];
      local_id = hive.next_local_id;
      wait_list_len = int_infinity;
      queue_len = int_infinity;
      idle_time = 0;
    } in
    add_connection hive new_connection

-- `ConfirmConnection`, with what `socket` and `connect` answer. The new socket has sent nothing; the
-- address that it is connected to is not modelled.
unfoldable pub confirm_connection : Bool → HiveConnection → ℕ → HiveConnection
confirm_connection can_connect c reply_id =
    if can_connect
    then emit_data (record c { has_socket = true; outgoing = [] })
        (header (api_request_connection + 1) 8 ++ int64_bytes reply_id)
    else c

-- `InitiateConnection`: the identifier of the new connection, or -1.
unfoldable pub initiate_connection : Bool → Hive → Option (ℕ × Hive)
initiate_connection can_connect hive = elim (not (hive.server_port == minus_one) && can_connect) [
  | false ↦ some (minus_one, hive)
  | true ↦
      let local_id = hive.next_local_id in
      let con : HiveConnection = record {
        receiving = false;
        has_socket = true;
        outgoing = [];
        local_id = local_id;
        wait_list_len = int_infinity;
        queue_len = int_infinity;
        idle_time = 0;
      } in
      let greeted = emit_data con (
        header api_request_connection 16 ++ int64_bytes local_id ++ int64_bytes hive.server_port) in
      do hive' ← add_connection hive greeted; some (local_id, hive')
]

-- `connections[index] = connections[--connections_len]`
unfoldable pub remove_connection : List HiveConnection → ℕ → Option (List HiveConnection)
remove_connection connections index = do
  last ← get_elem? connections (length connections - 1)
  some (take (length connections - 1) (set connections index last))

unfoldable pub handle_request_connection : System → Hive → ℕ → List ℕ → Option Hive
handle_request_connection sys hive con res_buffer =
    with_connection hive con (λ c. confirm_connection sys.can_connect c (int64_at res_buffer 0))

-- A connection takes over the socket of another one, which is removed.
unfoldable pub take_over : Hive → ℕ → ℕ → HiveConnection → Option Hive
take_over hive con index old_con = do
  moved ←
      with_connection hive con
        (λ c. record c { outgoing = old_con.outgoing; has_socket = old_con.has_socket })
  connections ← remove_connection moved.connections index
  some (record moved { connections = connections })

-- The number is what `HandleApiCall` returns.
unfoldable pub handle_answer_request_connection : Hive → ℕ → List ℕ → Option (ℕ × Hive)
handle_answer_request_connection hive con res_buffer =
    elim (get_connection_by_id hive.connections (int64_at res_buffer 0)) [
      | none ↦ some (0, hive)
      | some (index, old_con) ↦ do hive' ← take_over hive con index old_con; some (1, hive')
    ]

unfoldable pub handle_get_hive_state : Hive → ℕ → List ℕ → Option Hive
handle_get_hive_state hive con res_buffer = with_connection hive con (λ c. record c {
  wait_list_len = int64_at res_buffer 0;
  queue_len = int64_at res_buffer 8;
  idle_time = int64_at res_buffer 16;
})
