-- ===== src/Remote/Connection.antt =====
-- `struct hive_connection` of remote.h and the table `connections` of remote.c, as far as the
-- senders use them.
use hivelang.Prelude.{
  true, false, Option, none, some, ◌>>=◌, ℕ, ◌+◌, ◌==◌, Bool, not, ◌&&◌, if◌then◌else◌, List, [],
  ◌∷◌, ◌++◌,
}

-- `ctx != NULL` is `receiving`, and `outgoing.sock != INVALID_SOCKET` is `has_socket`. The bytes that `send` was given on the socket, first to last, are
-- `outgoing`: a socket keeps their order.
pub record HiveConnection : Type 0 where
  pub receiving : Bool
  pub has_socket : Bool
  pub outgoing : List ℕ
  pub local_id : ℕ
  pub wait_list_len : ℕ
  pub queue_len : ℕ
  pub idle_time : ℕ

abbrev pub emit_data : HiveConnection → List ℕ → HiveConnection
emit_data con bytes = record con { outgoing = con.outgoing ++ bytes }

-- The loop of the broadcasts: each connection that is not refused is sent the message. The number
-- is that of the connections it went to.
abbrev pub broadcast_if :
    (HiveConnection → Bool) → List ℕ → List HiveConnection → List HiveConnection × ℕ
broadcast_if test message [] = ([], 0)
broadcast_if test message (con ∷ cons) =
    let (cons', sent) = broadcast_if test message cons in
    if test con then (emit_data con message ∷ cons', sent + 1) else (con ∷ cons', sent)

abbrev pub is_receiving : HiveConnection → Bool
is_receiving con = con.receiving

abbrev pub is_other : ℕ → HiveConnection → Bool
is_other except_this_local_id con = con.receiving && not (con.local_id == except_this_local_id)

-- `GetConnectionById`: the first connection of that id, with its index.
unfoldable pub get_connection_by_id : List HiveConnection → ℕ → Option (ℕ × HiveConnection)
get_connection_by_id [] local_id = none
get_connection_by_id (con ∷ cons) local_id = elim (con.local_id == local_id) [
  | true ↦ some (0, con)
  | false ↦ do (i, found) ← get_connection_by_id cons local_id; some (i + 1, found)
]
