-- ===== src/Workers/Updates.antt =====
-- How the workers that wait are tried again: `UpdateSingleWorker` and `UpdateWaitingWorkers` of
-- runtimes/0.3/common/runtime.c, and the callbacks of callbacks.c that continue a worker.
pub mod Kept
pub mod Lost
use hivelang.Prelude.{
  ℕ, zero, suc, ◌+◌, ◌-◌, ◌*◌, ◌^◌, ◌==◌, ◌&&◌, ltb, leb, Bool, true, false, if◌then◌else◌, Option,
  none, some, ◌>>=◌, List, [], ◌∷◌, ◌++◌, length, drop, Memory, write,
}
use hivelang.Word.{add64}
use hivelang.Remote.Bytes.{le_value}
use hivelang.Remote.Hive.{System}
use hivelang.Objects.{write_bytes, my_abs}
use hivelang.Workers.{WorkerPool, continue_worker}
use hivelang.Workers.States.{
  WaitState, timer_wait, new_object_wait_pages, push_object_wait, query_object_wait, Runtime,
  Answer, wait_list_worker, x64_sleep_states, x64_new_object_states, wait_for_query, wait_for_push,
  x64_push_object_states, x64_query_object_states,
}

-- `UpdateFromQueryResult`: a negative size copies to `rdiValue`, any other one to `destination`.
unfoldable pub update_from_query_result : Runtime → ℕ → ℕ → List ℕ → List ℕ → Runtime × List ℕ
update_from_query_result s destination size result_data rdi =
    if ltb size (2 ^ 63)
    then (
      record s {
        hive = record s.hive { memory = write_bytes s.hive.memory destination result_data };
      },
      rdi,
    )
    else (s, result_data ++ drop (my_abs size) rdi)

-- Going on with the worker where the answer is not 0.
unfoldable pub go_on : ℕ → ℕ → Answer → Option (ℕ × Runtime)
go_on w address (res, s, rdi) = if res == 0 then some (res, s) else (do
  pool ← continue_worker s.pool w (le_value rdi) address
  some (res, record s { pool = pool }))

module _ (sys : System) (timeout : ℕ) where
  -- The `switch` of `UpdateSingleWorker`. `res` is where `myMalloc` puts a new object.
  unfoldable pub update_state : Runtime → ℕ → ℕ → WaitState → List ℕ → Option Answer
  update_state s w res (timer_wait end_time) rdi =
      some (x64_sleep_states sys timeout s w end_time rdi)
  update_state s w res (new_object_wait_pages obj_type size param) rdi =
      x64_new_object_states sys timeout s w res obj_type size param rdi
  update_state s w res (push_object_wait object_id offset size hash data_address data_bytes t) rdi =
      x64_push_object_states sys timeout s w object_id offset size hash data_address data_bytes t
        rdi
  update_state s w res (query_object_wait object_id offset size destination t) rdi =
      x64_query_object_states sys timeout s w object_id offset size destination t rdi

  -- `rdiValue` is 0 before.
  unfoldable pub update_single_worker : ℕ → ℕ → Runtime → ℕ → Option (ℕ × Runtime)
  update_single_worker res address s w = do
    state ← s.states w
    answer ← update_state s w res state (0 ∷ 0 ∷ 0 ∷ 0 ∷ 0 ∷ 0 ∷ 0 ∷ 0 ∷ [])
    go_on w address answer

  -- `x64OnQueryObject` and `callbackContinueWorkerFromWaitingQuery`.
  unfoldable pub x64_on_query_object :
      Runtime → ℕ → WaitState → ℕ → ℕ → ℕ → List ℕ → List ℕ → Option Answer
  x64_on_query_object s w (query_object_wait object_id offset size destination t) object at n
        data_bytes rdi =
      elim (object_id == object && (my_abs size == n && offset == at)) [
        | true ↦
            let (s', rdi') = update_from_query_result s destination size data_bytes rdi in
            some (1, s', rdi')
        | false ↦ do s' ← wait_for_query sys timeout s w object_id offset size; some (0, s', rdi)
      ]
  x64_on_query_object s w _ object at n data_bytes rdi = some (0, s, rdi)

  unfoldable pub continue_from_waiting_query :
      ℕ → Runtime → ℕ → ℕ → ℕ → ℕ → List ℕ → List ℕ → Option (ℕ × Runtime)
  continue_from_waiting_query address s w object_id offset size data_bytes rdi = do
    state ← s.states w
    answer ← x64_on_query_object s w state object_id offset size data_bytes rdi
    go_on w address answer

  -- `x64OnPushObject` and `callbackContinueWorkerFromWaitingPush`, which gives 0 for rdi.
  unfoldable pub x64_on_push_object : Runtime → ℕ → WaitState → ℕ → ℕ → ℕ → ℕ → Option Answer
  x64_on_push_object s w (push_object_wait object_id offset size hash data_address data_bytes t)
        object at n h =
      elim (object_id == object && (offset == at && (my_abs size == n && hash == h))) [
        | true ↦ some (1, s, 0 ∷ [])
        | false ↦ do
          s' ← wait_for_push sys timeout s w object_id offset size hash
          some (0, s', 0 ∷ [])
      ]
  x64_on_push_object s w _ object at n h = some (0, s, 0 ∷ [])

  unfoldable pub continue_from_waiting_push : ℕ → Runtime → ℕ → ℕ → ℕ → ℕ → ℕ → Option (ℕ × Runtime)
  continue_from_waiting_push address s w object_id offset size hash = do
    state ← s.states w
    answer ← x64_on_push_object s w state object_id offset size hash
    go_on w address answer

-- The end of `UpdateWaitingWorkers` at the threshold: what is left goes before what was added since.
unfoldable pub return_workers : List ℕ → Runtime → Runtime
return_workers nxt s = record s {
  wait_list = nxt ++ s.wait_list;
  hive = record s.hive { wait_list_len = add64 s.hive.wait_list_len (length nxt) };
}

abbrev pub threshold : ℕ
threshold = 16 * 1024

-- The loop over the list that was taken, by what updates one worker; `count` is the number that went
-- on.
unfoldable pub update_loop :
    (Runtime → ℕ → Option (ℕ × Runtime)) → ℕ → List ℕ → Runtime → Option Runtime
update_loop update count [] s = some s
update_loop update count (w ∷ nxt) s = do
  (res, s') ← update s w
  elim (leb threshold (count + res) && ltb 0 (length nxt)) [
    | true ↦ some (return_workers nxt s')
    | false ↦ update_loop update (count + res) nxt s'
  ]

-- `UpdateWaitingWorkers(0)`.
unfoldable pub update_waiting_workers :
    (Runtime → ℕ → Option (ℕ × Runtime)) → Runtime → Option Runtime
update_waiting_workers update s =
    let taken = record s { wait_list = []; hive = record s.hive { wait_list_len = 0 } } in
    update_loop update 0 s.wait_list taken
