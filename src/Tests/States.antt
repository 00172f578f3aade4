-- ===== src/Tests/States.antt =====
-- Workers that wait: for a time, for an object that is there, and for a page.
use hivelang.Prelude.{ℕ, ◌-◌, ◌≡◌, ap, ◌∙◌, Option, none, some, [], ◌∷◌, write, arith}
use hivelang.Word.{word_size, add64}
use hivelang.Remote.Bytes.{le_bytes}
use hivelang.Hash.Keys.{I64Hashtable, int64_keys, i64_get_hashtable}
use hivelang.Hash.Lookup.{get-Found}
use hivelang.Objects.{write_bytes}
use hivelang.Workers.States.{timer_wait, Runtime, Caller, x64_push_object, x64_push_object_states}
use hivelang.Workers.States.Waited.{with_memory, x64_push_object_states-x64_push_object}
use hivelang.Workers.Updates.{update_single_worker}
use hivelang.Tests.Hives.{new_hive, system}
use hivelang.Tests.Objects.{registered}
use hivelang.Tests.Workers.{pool}

looked : (t : I64Hashtable) × (i64_get_hashtable registered.0 5 ≡ some (109, t))
unfolding i64_get_hashtable
looked =
    let (t, e, valid, same) = get-Found int64_keys registered.0 registered.1 5 registered.3 in
    (t, e ∙ ap (λ (v : ℕ). some (v, t)) (registered.4 5))

-- Object 5 stands at 109 and is no promise; worker 32 sleeps until 9.
abbrev waiting : Runtime
waiting = record {
  hive = record new_hive {
    local_objects = registered.0;
    memory = write_bytes (λ a. 0) 108 (4 ∷ (1 ∷ (2 ∷ [])));
  };
  states = write (λ a. none) 32 (some (timer_wait 9));
  wait_list = 32 ∷ [];
  pool = pool;
  defined_arrays = [];
}

abbrev caller : Caller
caller = record {
  running_id = 0;
  running_depth = 1;
  return_address = 700;
  rbp_value = 800;
  context = [];
}

abbrev stored : ℕ → Runtime
stored x =
    with_memory waiting looked.0 (write_bytes waiting.hive.memory (add64 109 0) (le_bytes 8 x))

x64_push_object_states-x64_push_object_example :
    (x64_push_object system 20 waiting caller 48 0 1000 5 77 0 (word_size - 8)
      ≡ some (none, stored 77))
    × (x64_push_object_states system 20 waiting 48 5 0 (word_size - 8) 3 1000 [] 20 []
        ≡ some (1, stored 1000, []))
x64_push_object_states-x64_push_object_example =
    x64_push_object_states-x64_push_object system 20 waiting caller 48 0 1000 5 77 0 3 20 109 [] []
      looked.0 (looked.1, omega arith, omega arith) (omega arith) (omega arith)

abbrev update_each : Runtime → ℕ → Option (ℕ × Runtime)
update_each s w = update_single_worker system 20 64 16 s w

abbrev taken : Runtime
taken = record waiting { wait_list = []; hive = record waiting.hive { wait_list_len = 0 } }
