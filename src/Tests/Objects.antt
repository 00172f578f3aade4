-- ===== src/Tests/Objects.antt =====
-- A promise that is made, pushed to and read, and a worker that goes from one hive to another.
use hivelang.Prelude.{ℕ, ◌≡◌, refl, true, some, [], ◌∷◌, take, arith}
use hivelang.Table.Layered.{update}
use hivelang.Table.Layered.Grow.{empty-LayerOf}
use hivelang.Hash.Keys.{int64_keys, i64_set_hashtable}
use hivelang.Hash.Session.{empty-IsTable}
use hivelang.Hash.Lookup.{Added, update-Added}
use hivelang.Objects.{
  write_bytes, object_header, object_promise, x64_new_object_using_page, register_object_with_id,
}
use hivelang.Objects.ReadBack.{ReadsBack, x64_new_object_using_page-ReadsBack}
use hivelang.Remote.Bytes.{le_value}
use hivelang.Remote.Connection.{HiveConnection}
use hivelang.Remote.Receive.{waiting_message, connected, receive}
use hivelang.Remote.Receive.Whole.{receive_all}
use hivelang.Remote.Send.{start_new_worker_remote}
use hivelang.Remote.Hive.{Hive}
use hivelang.Remote.Hive.Requests.{start_new_worker}
use hivelang.Remote.Hive.Delivered.{callback, continued, start_new_worker_remote-delivered}
use hivelang.Tests.Hives.{no_numbers, new_hive, system}

-- The promise at 109 has the identifier 5.
pub registered : Added int64_keys no_numbers 5 109 (update int64_keys no_numbers 5 109 0)
registered =
    update-Added int64_keys no_numbers [] 5 109 (empty-IsTable int64_keys 1024 tt (omega arith))
      (rw ((empty-LayerOf int64_keys 1024 tt []).1 5) refl)

abbrev new_memory : ℕ → ℕ
new_memory = write_bytes (write_bytes (λ a. 0) 101 (object_header 8 object_promise)) 100 (0 ∷ [])

new_promise :
    x64_new_object_using_page (λ a. 0) no_numbers [] 100 object_promise 8 0 5
    ≡ some (new_memory, registered.0)
unfolding x64_new_object_using_page register_object_with_id i64_set_hashtable
new_promise =
    rw (x64_new_object_using_page, register_object_with_id, i64_set_hashtable, registered.2) refl

x64_new_object_using_page-ReadsBack_example : ReadsBack new_memory 109 0 0 (7 ∷ 8 ∷ []) 500 []
x64_new_object_using_page-ReadsBack_example =
    x64_new_object_using_page-ReadsBack (λ a. 0) new_memory no_numbers registered.0 [] 100 8 0 5 0 0
      500 (7 ∷ 8 ∷ []) [] new_promise (omega arith) (omega arith)

-- Worker 0 has an input of two bytes.
abbrev receiver : Hive
receiver = record new_hive { input_sizes = 2 ∷ [] }

abbrev sender : HiveConnection
sender = record {
  receiving = true;
  has_socket = true;
  outgoing = [];
  local_id = 1;
  wait_list_len = 0;
  queue_len = 0;
  idle_time = 0;
}

start_new_worker_remote-delivered_example :
    receive_all
      (callback system 0 0)
      (connected (some receiver) waiting_message)
      (start_new_worker_remote sender 0 1 (65 ∷ 66 ∷ [])).outgoing
    ≡ some (
        continued
          (start_new_worker receiver 0 1 (65 ∷ 66 ∷ []) (le_value (take 8 (system.random 0)))))
unfolding receive
start_new_worker_remote-delivered_example =
    start_new_worker_remote-delivered system 0 0 receiver 0 1 (65 ∷ 66 ∷ []) (omega arith)
      (omega arith) refl (some receiver) sender refl (omega arith)
