-- ===== src/Remote/WaitList.antt =====
-- The lists of those who wait for an answer about an object, in the hash tables `get_wait_list` and
-- `set_wait_list` of remote.c.
pub mod Linked
pub mod Insert
pub mod Wake
use hivelang.Prelude.{
  ℕ, zero, suc, ◌+◌, ◌-◌, ◌%◌, ◌^◌, ◌==◌, true, false, Option, none, some, List, [], ◌∷◌, ◌++◌,
  ◌>>=◌,
}
use hivelang.Word.{word_size}
use hivelang.Hash.Keys.{
  Hashtable, get_hashtable, set_hashtable, take_tagged_hashtable, add_hashtable,
}
use hivelang.Table.Layered.{tag_of, list_of}
use hivelang.Remote.Bytes.{le_bytes}

-- `struct get_wait_list_value` and `struct set_wait_list_value`. A callback is known by its number.
pub record WaitListValue : Type 0 where
  pub next : ℕ
  pub params : ℕ
  pub callback : ℕ

-- A table and the memory of its nodes, by their address; a node that is free is not there.
pub record WaitList : Type 0 where
  pub table : Hashtable
  pub nodes : ℕ → Option WaitListValue

abbrev pub write_node :
    (ℕ → Option WaitListValue) → ℕ → Option WaitListValue → ℕ → Option WaitListValue
write_node nodes a n b = elim (b == a) [ true ↦ n | false ↦ nodes b ]

-- GETSET_WAIT_LIST_VALUE_PROCESSING_TAG is 2 ^ 4 - 1.
abbrev pub tag_bits : ℕ
tag_bits = 4

-- `GetsetInsertTagged`, with fuel for its retries. The assertion that the address is a multiple of
-- 16 makes `tag | new_node` a sum.
unfoldable pub getset_insert_tagged : ℕ → WaitList → List ℕ → ℕ → Option WaitList
getset_insert_tagged zero s key new_node = none
getset_insert_tagged (suc fuel) s key new_node = do
  (value, t) ← get_hashtable s.table key
  n ← s.nodes new_node
  elim (new_node % 16 == 0) [
    | false ↦ none
    | true ↦
        let nodes =
          write_node s.nodes new_node (some (record n { next = list_of tag_bits value })) in
        do
          (result, t') ← set_hashtable t key (tag_of tag_bits value + new_node) value
          elim (result == value) [
            | true ↦ some (record { table = t'; nodes = nodes })
            | false ↦ getset_insert_tagged fuel (record { table = t'; nodes = nodes }) key new_node
          ]
  ]

-- `UpdateWaitingQueryList` and `UpdateWaitingPushList`: the callbacks with their parameters, in the
-- order in which they run, and the memory afterwards.
unfoldable pub update_waiting_list :
    ℕ → (ℕ → Option WaitListValue) → ℕ → Option (List (ℕ × ℕ) × (ℕ → Option WaitListValue))
update_waiting_list zero nodes q = none
update_waiting_list (suc fuel) nodes q = elim (q == 0) [
  | true ↦ some ([], nodes)
  | false ↦ do
    n ← nodes q
    (calls, nodes') ← update_waiting_list fuel (write_node nodes q none) n.next
    some ((n.callback, n.params) ∷ calls, nodes')
]

-- What `UpdateWaitingQuery` and `UpdateWaitingPush` do with their key: at most one thread at a time
-- (GETSET_WAIT_LIST_PARALLEL_PROCESSING) takes a list. The tag is released by adding -1.
abbrev pub update_waiting : ℕ → WaitList → List ℕ → Option (List (ℕ × ℕ) × WaitList)
update_waiting fuel s key = do
  (q, t) ← take_tagged_hashtable s.table key tag_bits 1
  elim (q == 0) [
    | true ↦ some ([], record s { table = t })
    | false ↦ do
      (calls, nodes) ← update_waiting_list fuel s.nodes q
      (_, t') ← add_hashtable t key (word_size - 1)
      some (calls, record { table = t'; nodes = nodes })
  ]

-- `struct get_wait_list_key` and `struct set_wait_list_key` in memory.
abbrev pub get_wait_list_key : ℕ → ℕ → ℕ → List ℕ
get_wait_list_key object_id offset size =
    le_bytes 8 object_id ++ le_bytes 8 offset ++ le_bytes 8 size

abbrev pub set_wait_list_key : ℕ → ℕ → ℕ → ℕ → List ℕ
set_wait_list_key object_id offset size hash =
    le_bytes 8 object_id ++ le_bytes 8 offset ++ le_bytes 8 size ++ le_bytes 8 hash

unfoldable pub update_waiting_query : ℕ → WaitList → ℕ → ℕ → ℕ → Option (List (ℕ × ℕ) × WaitList)
update_waiting_query fuel s object_id offset size =
    update_waiting fuel s (get_wait_list_key object_id offset size)

unfoldable pub update_waiting_push : ℕ → WaitList → ℕ → ℕ → ℕ → ℕ → Option (List (ℕ × ℕ) × WaitList)
update_waiting_push fuel s object_id offset size hash =
    update_waiting fuel s (set_wait_list_key object_id offset size hash)
