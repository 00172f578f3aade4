-- ===== src/Remote/Hive.antt =====
-- What the calls of other hives read and change: the global variables of remote.c and runtime.c.
pub mod Connect
pub mod Disconnect
pub mod Broadcasts
pub mod Replies
pub mod Objects
pub mod Requests
pub mod Calls
pub mod Switch
pub mod Answers
pub mod Confirm
pub mod Delivered
use hivelang.Prelude.{ℕ, ◌-◌, Bool, List, Memory, Option, ◌>>=◌, some, get_elem?, set, take, drop}
use hivelang.Word.{word_size}
use hivelang.Hash.Keys.{I64Hashtable, Hashtable, KeySpace}
use hivelang.Hash.Pointers.{PointerTable}
use hivelang.Remote.Connection.{HiveConnection}
use hivelang.Remote.WaitList.{WaitList}
use hivelang.Remote.Paths.{PathTable}
use hivelang.Remote.Pages.{MemoryPage}

-- `struct get_id_broadcasts_value`, `struct get_page_broadcasts_value` and `struct
-- memory_page_request`, whose fields have the same types in the same order.
pub record BroadcastValue : Type 0 where
  pub id : ℕ
  pub local_redirect_id : ℕ
  pub answered : ℕ
  pub requested : ℕ

abbrev pub BroadcastTable : Type 0
BroadcastTable = PointerTable (List ℕ) KeySpace BroadcastValue

-- What the code hands on to the providers: a worker to start (the provider of local calls alone has
-- no function for that, and an error is printed), or one that waits, with the answer that it waits
-- for.
pub data Effect : Type 0 where
  start_local : (worker_id : ℕ) (input_table : List ℕ) → Effect
  continue_query : (worker object_id offset size : ℕ) (data_bytes : List ℕ) → Effect
  continue_push : (worker object_id offset size hash : ℕ) → Effect

pub record Hive : Type 0 where
  pub connections : List HiveConnection
  pub next_local_id : ℕ
  pub server_port : ℕ
  pub this_server_id : ℕ
  pub pages : List MemoryPage
  pub local_objects : I64Hashtable
  pub memory : ℕ → ℕ
  pub object_paths : PathTable
  pub global_id_paths : PathTable
  pub get_id_ids : I64Hashtable
  pub get_page_ids : I64Hashtable
  pub get_id_broadcasts : BroadcastTable
  pub get_page_broadcasts : BroadcastTable
  pub get_path_broadcasts : Hashtable
  pub get_path_to_id_broadcasts : Hashtable
  pub get_wait_list : WaitList
  pub set_wait_list : WaitList
  pub wait_list_len : ℕ
  pub queue_len : ℕ
  pub input_sizes : List ℕ
  pub effects : List Effect

-- What the operating system and `myMalloc` give during one call: the clock, the draws of
-- SECURE_RANDOM, the addresses, whether a connection is made, and the address of `res_buffer`.
-- `fuel` bounds the loops.
pub record System : Type 0 where
  pub fuel : ℕ
  pub ticks : ℕ
  pub random : ℕ → List ℕ
  pub addresses : ℕ → ℕ
  pub address : ℕ
  pub can_connect : Bool
  pub res_buffer_address : ℕ

-- -1, which stands for this hive, for no hive and for no connection.
abbrev pub minus_one : ℕ
minus_one = word_size - 1

-- `HandleApiCall` has a pointer to a connection: its place in `connections`.
abbrev pub with_connection : Hive → ℕ → (HiveConnection → HiveConnection) → Option Hive
with_connection hive con change = do
  c ← get_elem? hive.connections con
  some (record hive { connections = set hive.connections con (change c) })

-- BROADCAST_ID_LENGTH bytes of `res_buffer` from a place on.
abbrev pub broadcast_id_at : List ℕ → ℕ → List ℕ
broadcast_id_at res_buffer k = take 27 (drop k res_buffer)
