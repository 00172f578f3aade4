-- ===== src/Remote/Paths.antt =====
-- The tables `object_paths` and `global_id_paths` of remote.c: to which connection a request about
-- an object or a hive goes.
pub mod Routes
pub mod Learn
pub mod Nearest
use hivelang.Prelude.{
  ℕ, zero, suc, ◌==◌, Bool, true, false, Option, none, some, ◌>>=◌, Memory, write,
}
use hivelang.Word.{add64, signed_lt}
use hivelang.Hash.Pointers.{PointerTable}
use hivelang.Hash.Keys.{i64_get_hashtable, i64_set_hashtable}

-- `struct object_paths_value` and `struct global_id_paths_value`.
pub record PathValue : Type 0 where
  pub local_id : ℕ
  pub distance : ℕ

abbrev pub PathTable : Type 0
PathTable = PointerTable ℕ (Unit {0}) PathValue

-- INFINITY_DISTANCE
abbrev pub infinity_distance : ℕ
infinity_distance = 999999

-- The loop of API_ANSWER_REQUEST_PATH, with fuel: whether the path was taken. `addresses fuel` is
-- what `myMalloc` gives in the round that starts with that fuel; a new value whose key is taken
-- meanwhile is freed.
unfoldable pub learn_object_path : ℕ → (ℕ → ℕ) → PathTable → ℕ → ℕ → ℕ → Option (Bool × PathTable)
learn_object_path zero addresses p object_id local_id distance = none
learn_object_path (suc fuel) addresses p object_id local_id distance = do
  (path, table) ← i64_get_hashtable p.table object_id
  elim (path == 0) [
    | true ↦
        let new_path = addresses fuel in
        let value : PathValue = record { local_id = local_id; distance = add64 distance 1 } in
        do
          (result, table') ← i64_set_hashtable table object_id new_path 0
          elim (result == 0) [
            | true ↦
                some
                  (true, record { table = table'; values = write p.values new_path (some value) })
            | false ↦
                learn_object_path fuel addresses
                  (record { table = table'; values = write p.values new_path none }) object_id
                  local_id distance
          ]
    | false ↦ do
      value ← p.values path
      elim (signed_lt distance value.distance) [
        | true ↦
            let closer : PathValue = record { local_id = local_id; distance = distance } in
            some (true, record { table = table; values = write p.values path (some closer) })
        | false ↦ some (false, record { table = table; values = p.values })
      ]
  ]

-- The loop of API_ANSWER_REQUEST_PATH_TO_ID. It has no `break` after a new value is in the table:
-- it then goes round again.
unfoldable pub learn_id_path : ℕ → (ℕ → ℕ) → PathTable → ℕ → ℕ → ℕ → Option (Bool × PathTable)
learn_id_path zero addresses p global_id local_id distance = none
learn_id_path (suc fuel) addresses p global_id local_id distance = do
  (path, table) ← i64_get_hashtable p.table global_id
  elim (path == 0) [
    | true ↦
        let new_path = addresses fuel in
        let value : PathValue = record { local_id = local_id; distance = add64 distance 1 } in
        do
          (result, table') ← i64_set_hashtable table global_id new_path 0
          elim (result == 0) [
            | true ↦
                learn_id_path fuel addresses
                  (record { table = table'; values = write p.values new_path (some value) })
                  global_id local_id distance
            | false ↦
                learn_id_path fuel addresses
                  (record { table = table'; values = write p.values new_path none }) global_id
                  local_id distance
          ]
    | false ↦ do
      value ← p.values path
      elim (signed_lt distance value.distance) [
        | true ↦
            let closer : PathValue = record { local_id = local_id; distance = distance } in
            some (true, record { table = table; values = write p.values path (some closer) })
        | false ↦ some (false, record { table = table; values = p.values })
      ]
  ]

-- The first lines of `RequestObjectPathBroadcast` and `RequestPathToIDBroadcast`: a known path is
-- forgotten by its distance.
unfoldable pub forget_path : PathTable → ℕ → Option PathTable
forget_path p key = do
  (path, table) ← i64_get_hashtable p.table key
  elim (path == 0) [
    | true ↦ some (record { table = table; values = p.values })
    | false ↦ do
      value ← p.values path
      let far : PathValue = record value { distance = infinity_distance }
      some (record { table = table; values = write p.values path (some far) })
  ]
