-- ===== src/Workers/States.antt =====
-- What a worker waits for on an x64 hive, and the functions that try to let it go on:
-- runtimes/0.3/common/x64/{sleep,new_object,push_object,query_object,await_worker}.c, allocators.c.
pub mod Waited
use hivelang.Prelude.{
  ℕ, zero, suc, ◌+◌, ◌^◌, ◌==◌, ◌&&◌, ltb, Bool, true, false, if◌then◌else◌, Option, none, some,
  ◌>>=◌, List, [], ◌∷◌, ◌++◌, length, take, drop, Memory, write, ◌⊎◌, inl, inr,
}
use hivelang.Word.{add64, signed_lt}
use hivelang.Hash.Bytes.{get_byte_string_hash}
use hivelang.Hash.Keys.{I64Hashtable, i64_get_hashtable}
use hivelang.Remote.Bytes.{le_bytes, le_value}
use hivelang.Remote.WaitList.{get_wait_list_key, set_wait_list_key}
use hivelang.Remote.Pages.{get_new_object_id}
use hivelang.Remote.Hive.{Hive, System}
use hivelang.Remote.Hive.Objects.{callback_query_continue, callback_push_continue, wake_query}
use hivelang.Remote.Hive.Requests.{wait_for, request_object_get, request_object_set}
use hivelang.Objects.{
  read_bytes, write_bytes, object_promise, before, my_abs, x64_update_local_push,
  x64_query_local_object, x64_new_object_using_page,
}
use hivelang.Workers.{WaitingWorker, WorkerPool}

-- `state` with `state_data` of `struct waiting_worker`: `wait_timer`, `wait_pages_info`,
-- `wait_push_info` (with the `size` bytes at `data`) and `wait_query_info`.
pub data WaitState : Type 0 where
  timer_wait : (end_time : ℕ) → WaitState
  new_object_wait_pages : (obj_type size param : ℕ) → WaitState
  push_object_wait :
      (object_id offset size hash data_address : ℕ) (data_bytes : List ℕ) (repeat_timeout : ℕ)
      → WaitState
  query_object_wait : (object_id offset size destination repeat_timeout : ℕ) → WaitState

-- The hive, the states of the workers that wait, `wait_list` with the newest first, the workers, and
-- `defined_arrays`.
pub record Runtime : Type 0 where
  pub hive : Hive
  pub states : Memory WaitState
  pub wait_list : List ℕ
  pub pool : WorkerPool
  pub defined_arrays : List (List ℕ)

-- The worker that runs: its number and depth, and where it is to go on.
pub record Caller : Type 0 where
  pub running_id : ℕ
  pub running_depth : ℕ
  pub return_address : ℕ
  pub rbp_value : ℕ
  pub context : List ℕ

-- `WaitListWorker`.
unfoldable pub wait_list_worker : Runtime → ℕ → Runtime
wait_list_worker s w = record s {
  wait_list = w ∷ s.wait_list;
  hive = record s.hive { wait_list_len = add64 s.hive.wait_list_len 1 };
}

abbrev pub set_state : Runtime → ℕ → WaitState → Runtime
set_state s w state = record s { states = write s.states w (some state) }

-- `x64PauseWorker`, where `AllocateWaitingWorker` gives `w`, whose memory has `queued_before` in the
-- field that is not written.
unfoldable pub x64_pause_worker : Runtime → Caller → ℕ → ℕ → WaitState → Runtime
x64_pause_worker s c w queued_before state =
    let pool = record s.pool {
      waiting = write s.pool.waiting w (
          some (record {
            queued = queued_before;
            links = 1;
            id = c.running_id;
            depth = c.running_depth;
            data_address = c.return_address;
            rbp_value = c.rbp_value;
            context = c.context;
          }));
    } in
    set_state (record s { pool = pool }) w state

-- What the functions below answer: 1 to go on or 0, and the eight bytes of `rdiValue`.
abbrev pub Answer : Type 0
Answer = ℕ × Runtime × List ℕ

-- The bytes of a value that is pushed: `size < 0 ? &source : source`.
abbrev pub pushed_bytes : Hive → ℕ → ℕ → List ℕ
pushed_bytes hive source size =
    if ltb size (2 ^ 63)
    then read_bytes hive.memory source size
    else take (my_abs size) (le_bytes 8 source)

-- `timeout` is what `SheduleTimeoutFromNow` gives.
module _ (sys : System) (timeout : ℕ) where
  unfoldable pub x64_sleep_states : Runtime → ℕ → ℕ → List ℕ → Answer
  x64_sleep_states s w end_time rdi =
      if signed_lt sys.ticks end_time then (0, wait_list_worker s w, rdi) else (1, s, rdi)

  unfoldable pub x64_sleep : Runtime → Caller → ℕ → ℕ → Runtime
  x64_sleep s c w queued_before =
      wait_list_worker (x64_pause_worker s c w queued_before (timer_wait timeout)) w

  -- `res` is where `myMalloc` puts the object.
  unfoldable pub x64_new_object_states : Runtime → ℕ → ℕ → ℕ → ℕ → ℕ → List ℕ → Option Answer
  x64_new_object_states s w res obj_type size param rdi =
      let (set, new_id, pages) = get_new_object_id s.hive.pages in
      elim set [
        | true ↦ do
          (memory, local_objects) ←
              x64_new_object_using_page s.hive.memory s.hive.local_objects s.defined_arrays res
                obj_type size param new_id
          some (
            1,
            record s {
              hive = record s.hive {
                pages = pages;
                memory = memory;
                local_objects = local_objects;
              };
            },
            le_bytes 8 new_id,
          )
        | false ↦ some (0, wait_list_worker s w, rdi)
      ]

  -- A new node for `w` in `get_wait_list` or `set_wait_list`.
  unfoldable pub wait_for_query : Runtime → ℕ → ℕ → ℕ → ℕ → Option Runtime
  wait_for_query s w object_id offset size = do
    waiting ←
        wait_for sys s.hive.get_wait_list (get_wait_list_key object_id offset (my_abs size))
          callback_query_continue w
    some (record s { hive = record s.hive { get_wait_list = waiting } })

  unfoldable pub wait_for_push : Runtime → ℕ → ℕ → ℕ → ℕ → ℕ → Option Runtime
  wait_for_push s w object_id offset size hash = do
    waiting ←
        wait_for sys s.hive.set_wait_list (set_wait_list_key object_id offset (my_abs size) hash)
          callback_push_continue w
    some (record s { hive = record s.hive { set_wait_list = waiting } })

  -- The write to an object of this hive, and the reads that wait for it.
  unfoldable pub push_local : Runtime → ℕ → ℕ → ℕ → ℕ → ℕ → List ℕ → Option Runtime
  push_local s obj object_id offset size source source_bytes =
      let memory = x64_update_local_push s.hive.memory obj offset size source source_bytes in
      let hive = record s.hive { memory = memory } in
      do
        hive' ←
            if memory (before obj 1) == object_promise
            then wake_query sys hive object_id offset (my_abs size) source source_bytes
            else some hive
        some (record s { hive = hive' })

  unfoldable pub x64_push_object_states :
      Runtime → ℕ → ℕ → ℕ → ℕ → ℕ → ℕ → List ℕ → ℕ → List ℕ → Option Answer
  x64_push_object_states s w object_id offset size hash data_address data_bytes repeat_timeout rdi =
      do
        (obj, local_objects) ← i64_get_hashtable s.hive.local_objects object_id
        let s₁ = record s { hive = record s.hive { local_objects = local_objects } }
        elim (obj == 0) [
          | true ↦ elim (signed_lt repeat_timeout sys.ticks) [
            | true ↦ do
              hive ←
                  request_object_set sys s₁.hive object_id offset (my_abs size) data_address
                    data_bytes w (sys.random 0)
              let again =
                  push_object_wait object_id offset size hash data_address data_bytes timeout
              some (0, set_state (record s₁ { hive = hive }) w again, rdi)
            | false ↦ do s₂ ← wait_for_push s₁ w object_id offset size hash; some (0, s₂, rdi)
          ]
          | false ↦ do
            s₂ ← push_local s₁ obj object_id offset size data_address data_bytes
            some (1, s₂, rdi)
        ]

  unfoldable pub x64_query_object_states : Runtime → ℕ → ℕ → ℕ → ℕ → ℕ → ℕ → List ℕ → Option Answer
  x64_query_object_states s w object_id offset size destination repeat_timeout rdi = do
    (obj, local_objects) ← i64_get_hashtable s.hive.local_objects object_id
    let s₁ = record s { hive = record s.hive { local_objects = local_objects } }
    elim (obj == 0) [
      | true ↦ elim (signed_lt repeat_timeout sys.ticks) [
        | true ↦ do
          hive ← request_object_get sys s₁.hive object_id offset (my_abs size) w (sys.random 0)
          let again = query_object_wait object_id offset size destination timeout
          some (0, set_state (record s₁ { hive = hive }) w again, rdi)
        | false ↦ do s₂ ← wait_for_query s₁ w object_id offset size; some (0, s₂, rdi)
      ]
      | false ↦
          let (ready, memory, rdi') =
            x64_query_local_object s.hive.memory destination obj offset size rdi in
          elim (ready == 0) [
            | false ↦ some (1, record s₁ { hive = record s₁.hive { memory = memory } }, rdi')
            | true ↦ do s₂ ← wait_for_query s₁ w object_id offset size; some (0, s₂, rdi)
          ]
    ]

  -- A push that needs no wait answers none; one that waits answers the worker. The copy of the value
  -- stands at `data_address`.
  unfoldable pub x64_push_object :
      Runtime → Caller → ℕ → ℕ → ℕ → ℕ → ℕ → ℕ → ℕ → Option (Option ℕ × Runtime)
  x64_push_object s c w queued_before data_address object_id source offset size = do
    (obj, local_objects) ← i64_get_hashtable s.hive.local_objects object_id
    let s₁ = record s { hive = record s.hive { local_objects = local_objects } }
    let value = pushed_bytes s.hive source size
    elim (obj == 0) [
      | true ↦
          let hash = get_byte_string_hash value in
          let state = push_object_wait object_id offset size hash data_address value timeout in
          let s₂ = x64_pause_worker s₁ c w queued_before state in
          do
            hive ←
                request_object_set sys s₂.hive object_id offset (my_abs size) data_address value w
                  (sys.random 0)
            some (some w, record s₂ { hive = hive })
      | false ↦ do s₂ ← push_local s₁ obj object_id offset size source value; some (none, s₂)
    ]

  -- A query that needs no wait answers the bytes of `rdiValue`, which begin as `rdi`.
  unfoldable pub x64_query_object :
      Runtime → Caller → ℕ → ℕ → ℕ → ℕ → ℕ → ℕ → List ℕ → Option ((ℕ ⊎ List ℕ) × Runtime)
  x64_query_object s c w queued_before destination object_id offset size rdi = do
    (obj, local_objects) ← i64_get_hashtable s.hive.local_objects object_id
    let s₁ = record s { hive = record s.hive { local_objects = local_objects } }
    let paused =
        x64_pause_worker s₁ c w queued_before
          (query_object_wait object_id offset size destination timeout)
    elim (obj == 0) [
      | true ↦ do
        hive ← request_object_get sys paused.hive object_id offset (my_abs size) w (sys.random 0)
        some (inl w, record paused { hive = hive })
      | false ↦
          let (ready, memory, rdi') =
            x64_query_local_object s.hive.memory destination obj offset size rdi in
          elim (ready == 0) [
            | false ↦ some (inr rdi', record s₁ { hive = record s₁.hive { memory = memory } })
            | true ↦ some (inl w, wait_list_worker paused w)
          ]
    ]

  -- A new object's id, 0 where there is none and no place to come back to, or the worker that waits.
  unfoldable pub x64_new_object :
      Runtime → Caller → ℕ → ℕ → ℕ → ℕ → ℕ → ℕ → Option ((ℕ ⊎ ℕ) × Runtime)
  x64_new_object s c w queued_before res type size param =
      let (set, new_id, pages) = get_new_object_id s.hive.pages in
      elim set [
        | true ↦ do
          (memory, local_objects) ←
              x64_new_object_using_page s.hive.memory s.hive.local_objects s.defined_arrays res type
                size param new_id
          some (
            inr new_id,
            record s {
              hive = record s.hive {
                pages = pages;
                memory = memory;
                local_objects = local_objects;
              };
            },
          )
        | false ↦ elim (c.return_address == 0) [
          | true ↦ some (inr 0, s)
          | false ↦
              some (
                inl w,
                x64_pause_worker s c w queued_before (new_object_wait_pages type size param),
              )
        ]
      ]
