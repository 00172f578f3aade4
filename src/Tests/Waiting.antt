-- ===== src/Tests/Waiting.antt =====
-- Somebody waits for a read of an object, and is woken.
use hivelang.Prelude.{ℕ, ◌+◌, ◌≡◌, refl, ◌∙◌, sym, ap, subst, some, List, [], ◌∷◌, arith}
use hivelang.Table.Layered.{first, empty_layer, view, tag_of, list_of}
use hivelang.Table.Layered.Grow.{IsTable, empty-LayerOf}
use hivelang.Hash.Keys.{Hashtable, byte_keys, same_bytes_iff}
use hivelang.Hash.Session.{empty-IsTable}
use hivelang.Remote.WaitList.{
  WaitList, tag_bits, getset_insert_tagged, update_waiting_query, get_wait_list_key,
  set_wait_list_key,
}
use hivelang.Remote.WaitList.Linked.{Waiter, IsLinked}
use hivelang.Remote.WaitList.Insert.{Inserted, getset_insert_tagged-Inserted}
use hivelang.Remote.WaitList.Wake.{IsWaitList, Woken, update_waiting_query-Woken}

abbrev new_table : Hashtable
new_table =
    first (empty_layer byte_keys 1024 (record { key_size = 24; offset = 0; current_segment = 0 }))

new_table-IsTable : IsTable byte_keys new_table []
new_table-IsTable =
    empty-IsTable byte_keys 1024 (record { key_size = 24; offset = 0; current_segment = 0 })
      (omega arith)

new_table-view : (k : List ℕ) → view byte_keys new_table k ≡ 0
new_table-view k =
    rw
      ((empty-LayerOf byte_keys 1024 (record { key_size = 24; offset = 0; current_segment = 0 })
          []).1
        k)
      refl

-- The one node is at address 16.
abbrev waiter : Waiter
waiter = record { address = 16; callback = 1; params = 70 }

abbrev nobody_waits : WaitList
nobody_waits = record {
  table = new_table;
  nodes = λ a. some (record { next = 0; params = 70; callback = 1 });
}

module _ (key : List ℕ) where
  inserted : Inserted nobody_waits key waiter [] (getset_insert_tagged 1 nobody_waits key 16)
  inserted =
      getset_insert_tagged-Inserted 0 nobody_waits [] key 0 waiter [] new_table-IsTable refl refl
        (omega arith) tt (ap (list_of tag_bits) (new_table-view key))

  inserted-view : view byte_keys inserted.0.table key ≡ 16
  inserted-view =
      inserted.4 key
      ∙ rw ((same_bytes_iff key key).1 refl) (ap (λ v. tag_of tag_bits v + 16) (new_table-view key))

  waiting-IsWaitList : IsWaitList inserted.0 inserted.1 key (waiter ∷ [])
  waiting-IsWaitList = record {
    valid = inserted.3;
    untagged = ap (tag_of tag_bits) inserted-view;
    linked = subst (λ q. IsLinked inserted.0.nodes q (waiter ∷ [])) (sym inserted-view) inserted.5;
  }

abbrev read_key : List ℕ
read_key = get_wait_list_key 5 16 8

abbrev write_key : List ℕ
write_key = set_wait_list_key 5 16 8 99

getset_insert_tagged-Inserted_example :
    Inserted nobody_waits read_key waiter [] (getset_insert_tagged 1 nobody_waits read_key 16)
getset_insert_tagged-Inserted_example =
    getset_insert_tagged-Inserted 0 nobody_waits [] read_key 0 waiter [] new_table-IsTable refl refl
      (omega arith) tt (ap (list_of tag_bits) (new_table-view read_key))

update_waiting_query-Woken_example :
    Woken
      (inserted read_key).0
      (inserted read_key).1
      read_key
      (waiter ∷ [])
      (update_waiting_query 2 (inserted read_key).0 5 16 8)
update_waiting_query-Woken_example =
    update_waiting_query-Woken 2 (inserted read_key).0 (inserted read_key).1 5 16 8 (waiter ∷ [])
      (waiting-IsWaitList read_key) (omega arith)
