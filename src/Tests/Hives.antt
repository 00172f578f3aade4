-- ===== src/Tests/Hives.antt =====
-- A hive that starts, and what it makes of calls and answers.
use hivelang.Prelude.{
  ℕ, ◌≡◌, refl, true, false, none, some, List, [], ◌∷◌, arith, write, replicate, ◌⊎◌, zero, suc,
  ◌+◌, length, ap, some-inj, ◌≢◌, ◌↔◌,
}
use hivelang.Table.Layered.{first, empty_layer, view, update}
use hivelang.Table.Layered.Grow.{IsTable, empty-LayerOf}
use hivelang.Hash.Keys.{I64Hashtable, Hashtable, int64_keys, byte_keys}
use hivelang.Hash.Session.{empty-IsTable}
use hivelang.Hash.Lookup.{Added, update-Added}
use hivelang.Hash.Pointers.{Entered, nothing-IsPointers, added-Entered}
use hivelang.Remote.Paths.{PathTable, learn_object_path, learn_id_path}
use hivelang.Remote.Paths.Routes.{route, IsRoutes, takes, object_path_after, id_path_after, Learned}
use hivelang.Remote.Paths.Learn.{learn_object_path-Learned, learn_id_path-Learned}
use hivelang.Remote.Paths.Nearest.{
  PathAnswer, Learning, started, answered, about, IsNearest, learn_id_path-IsNearest,
}
use hivelang.Remote.Pages.{MemoryPage, get_new_object_id, confirm_page}
use hivelang.Remote.Pages.Given.{Allocating, IsAllocated, started, confirmed, given}
use hivelang.Remote.Pages.Fresh.{get_new_object_id-IsAllocated}
use hivelang.Remote.Pages.Free.{IsCountedRight, get_new_object_id-IsCountedRight}
use hivelang.Remote.WaitList.{WaitList}
use hivelang.Remote.Hive.{Hive, System, BroadcastValue, BroadcastTable, minus_one}
use hivelang.Remote.Hive.Switch.{handle_call, handle_api_call}
use hivelang.Remote.Hive.Connect.{handle_answer_request_connection}
use hivelang.Remote.Connection.{HiveConnection, get_connection_by_id}
use hivelang.Remote.Hive.Disconnect.{disconnect, Stands, IsOwn, disconnect-Removed}
use hivelang.Remote.Hive.Answers.{IsRefused, handle_api_call-IsRefused}
use hivelang.Remote.Hive.Confirm.{confirmations, due, times, confirmations-due}

-- Tables without values.
abbrev pub no_numbers : I64Hashtable
no_numbers = first (empty_layer int64_keys 1024 tt)

abbrev no_bytes : Hashtable
no_bytes =
    first (empty_layer byte_keys 1024 (record { key_size = 27; offset = 0; current_segment = 0 }))

abbrev no_paths : PathTable
no_paths = record { table = no_numbers; values = λ a. none }

no_paths-IsRoutes : IsRoutes no_paths [] × ((k : ℕ) → route no_paths k ≡ none)
no_paths-IsRoutes =
    nothing-IsPointers int64_keys no_numbers [] (λ a. none)
      (empty-IsTable int64_keys 1024 tt (omega arith))
      (λ k. rw ((empty-LayerOf int64_keys 1024 tt []).1 k) refl)

-- Object 70 is two hives away by connection 5.
learn_object_path-Learned_example :
    Learned no_paths 70
      (takes (route no_paths 70) 2)
      (object_path_after (route no_paths 70) 5 2)
      (learn_object_path 1 (λ fuel. 16) no_paths 70 5 2)
learn_object_path-Learned_example =
    learn_object_path-Learned (λ fuel. 16) no_paths [] 70 5 2 0 no_paths-IsRoutes.0 (omega arith)
      refl

learn_id_path-Learned_example :
    Learned no_paths 70
      (takes (route no_paths 70) 2)
      (id_path_after (route no_paths 70) 5 2)
      (learn_id_path 2 (λ fuel. 16) no_paths 70 5 2)
learn_id_path-Learned_example =
    learn_id_path-Learned (λ fuel. 16) no_paths [] 70 5 2 0 no_paths-IsRoutes.0 (omega arith) refl
      (omega arith) (omega arith)

abbrev answer : PathAnswer
answer = record { global_id = 70; local_id = 5; distance = 2 }

one_answer : Learning (answer ∷ []) learn_id_path-Learned_example.0
one_answer =
    answered answer 0 (λ fuel. 16) (started [] no_paths-IsRoutes.0 no_paths-IsRoutes.1)
      (omega arith) refl (omega arith) (omega arith) learn_id_path-Learned_example.2

learn_id_path-IsNearest_example :
    ((keys : List ℕ) × IsRoutes learn_id_path-Learned_example.0 keys)
    × ((key : ℕ) → IsNearest (route learn_id_path-Learned_example.0 key) (about key (answer ∷ [])))
learn_id_path-IsNearest_example = learn_id_path-IsNearest one_answer

-- Page 3 gives its first id.
abbrev page : MemoryPage
page = record { id = 3; object_count = 0; next_allocated_id = 0 }

abbrev used_page : MemoryPage
used_page = record { id = 3; object_count = 0; next_allocated_id = 1 }

one_id : Allocating (50331648 ∷ []) (used_page ∷ [])
unfolding get_new_object_id confirm_page
one_id = given (confirmed 3 started refl) refl

get_new_object_id-IsAllocated_example : IsAllocated (50331648 ∷ []) (used_page ∷ [])
get_new_object_id-IsAllocated_example = get_new_object_id-IsAllocated one_id (tt, tt)

get_new_object_id-IsCountedRight_example :
    IsCountedRight (page ∷ []) (get_new_object_id (page ∷ [])).0 (get_new_object_id (page ∷ [])).2
get_new_object_id-IsCountedRight_example =
    get_new_object_id-IsCountedRight (page ∷ []) (omega arith, tt) (omega arith)

-- A hive that knows nothing.
abbrev nobody_waits : WaitList
nobody_waits = record { table = no_bytes; nodes = λ a. none }

abbrev no_broadcasts : BroadcastTable
no_broadcasts = record { table = no_bytes; values = λ a. none }

abbrev pub new_hive : Hive
new_hive = record {
  connections = [];
  next_local_id = 0;
  server_port = minus_one;
  this_server_id = minus_one;
  pages = [];
  local_objects = no_numbers;
  memory = λ a. 0;
  object_paths = no_paths;
  global_id_paths = no_paths;
  get_id_ids = no_numbers;
  get_page_ids = no_numbers;
  get_id_broadcasts = no_broadcasts;
  get_page_broadcasts = no_broadcasts;
  get_path_broadcasts = no_bytes;
  get_path_to_id_broadcasts = no_bytes;
  get_wait_list = nobody_waits;
  set_wait_list = nobody_waits;
  wait_list_len = 0;
  queue_len = 0;
  input_sizes = [];
  effects = [];
}

abbrev pub system : System
system = record {
  fuel = 8;
  ticks = 0;
  random = λ fuel. [];
  addresses = λ fuel. 16;
  address = 16;
  can_connect = false;
  res_buffer_address = 64;
}

-- 1 is API_ANSWER_REQUEST_CONNECTION.
refused : handle_api_call system 0 new_hive 0 1 (replicate 8 0) ≡ some (0, new_hive)
unfolding handle_api_call handle_call handle_answer_request_connection get_connection_by_id
refused = refl

handle_api_call-IsRefused_example :
    (IsRefused new_hive 1 (replicate 8 0)
      ↔ (handle_api_call system 0 new_hive 0 1 (replicate 8 0) ≡ some (0, new_hive)))
    × ((n : ℕ) (hive' : Hive)
        → handle_api_call system 0 new_hive 0 1 (replicate 8 0) ≡ some (n, hive')
        → (n ≡ 1) ⊎ ((n ≡ 0) × (hive' ≡ new_hive)))
handle_api_call-IsRefused_example = handle_api_call-IsRefused system 0 new_hive 0 (replicate 8 0) 1

-- A broadcast that waits for one answer.
abbrev broadcast_id : List ℕ
broadcast_id = replicate 27 7

abbrev waiting : BroadcastValue
waiting = record { id = 3; local_redirect_id = minus_one; answered = 0; requested = 1 }

no_broadcasts-view : (k : List ℕ) → view byte_keys no_bytes k ≡ 0
no_broadcasts-view k =
    rw
      ((empty-LayerOf byte_keys 1024 (record { key_size = 27; offset = 0; current_segment = 0 })
          []).1
        k)
      refl

no_bytes-IsTable : IsTable byte_keys no_bytes []
no_bytes-IsTable =
    empty-IsTable byte_keys 1024 (record { key_size = 27; offset = 0; current_segment = 0 })
      (omega arith)

added : Added byte_keys no_bytes broadcast_id 16 (update byte_keys no_bytes broadcast_id 16 0)
added =
    update-Added byte_keys no_bytes [] broadcast_id 16 no_bytes-IsTable
      (no_broadcasts-view broadcast_id)

abbrev one_broadcast : BroadcastTable
one_broadcast = record { table = added.0; values = write (λ a. none) 16 (some waiting) }

one_broadcast-Entered : Entered byte_keys no_broadcasts broadcast_id waiting one_broadcast added.1
one_broadcast-Entered =
    added-Entered byte_keys no_broadcasts []
      (nothing-IsPointers byte_keys no_bytes [] (λ a. none) no_bytes-IsTable no_broadcasts-view).0
      added.0 added.1 added.3 broadcast_id 16 waiting (no_broadcasts-view broadcast_id)
      (omega arith) refl added.4

-- The second answer is to another broadcast.
confirmations-due_example :
    (p' : BroadcastTable) × (confirmations broadcast_id one_broadcast (broadcast_id ∷ [] ∷ [])
      ≡ some (due waiting (times broadcast_id (broadcast_id ∷ [] ∷ [])), p'))
confirmations-due_example =
    confirmations-due broadcast_id (broadcast_id ∷ [] ∷ []) one_broadcast added.1 waiting
      one_broadcast-Entered.0 (one_broadcast-Entered.1 broadcast_id) (omega arith)

due_test : due waiting (times broadcast_id (broadcast_id ∷ [] ∷ [])) ≡ 1
due_test = refl

abbrev peer : ℕ → HiveConnection
peer id = record {
  receiving = true;
  has_socket = false;
  outgoing = [];
  local_id = id;
  wait_list_len = 0;
  queue_len = 0;
  idle_time = 0;
}

abbrev peers : List HiveConnection
peers = peer 4 ∷ (peer 5 ∷ [])

peers-IsOwn : IsOwn peers
peers-IsOwn zero zero c d h h' e = refl
peers-IsOwn zero (suc zero) c d h h' e = absurd (
    omega (
      arith,
      ap (λ (y : HiveConnection). y.local_id) (some-inj h),
      ap (λ (y : HiveConnection). y.local_id) (some-inj h'),
      e,
    ))
peers-IsOwn zero (suc (suc j)) c d h h' e = absurd (cc)
peers-IsOwn (suc zero) zero c d h h' e = absurd (
    omega (
      arith,
      ap (λ (y : HiveConnection). y.local_id) (some-inj h),
      ap (λ (y : HiveConnection). y.local_id) (some-inj h'),
      e,
    ))
peers-IsOwn (suc zero) (suc zero) c d h h' e = refl
peers-IsOwn (suc zero) (suc (suc j)) c d h h' e = absurd (cc)
peers-IsOwn (suc (suc i)) j c d h h' e = absurd (cc)

disconnect-Removed_example :
    (hive' : Hive) × (disconnect (record new_hive { connections = peers }) 0 ≡ some hive')
    × IsOwn hive'.connections
    × (length peers ≡ length hive'.connections + 1)
    × ((d : HiveConnection)
        → Stands hive'.connections d ↔ (Stands peers d × (d.local_id ≢ (peer 4).local_id)))
disconnect-Removed_example =
    disconnect-Removed (record new_hive { connections = peers }) 0 (peer 4) peers-IsOwn refl
