-- ===== src/Remote/WaitList/Insert.antt =====
-- `GetsetInsertTagged` of remote.c puts a waiter in front of a key's list.
use hivelang.Prelude.{
  ℕ, suc, ◌+◌, ◌%◌, ◌≡◌, refl, ◌≢◌, if◌then◌else◌, Option, some, List, ◌∷◌, ◌>>=◌, ==_refl, arith,
}
use hivelang.Table.Layered.{view, tag_of, list_of, get, update}
use hivelang.Table.Layered.Grow.{IsTable}
use hivelang.Table.Layered.Read.{get-Looked}
use hivelang.Hash.Bytes.{same_bytes}
use hivelang.Hash.Keys.{Hashtable, byte_keys, get_hashtable, set_hashtable}
use hivelang.Hash.Session.{store, step, step-refines}
use hivelang.Remote.WaitList.{WaitList, WaitListValue, tag_bits, write_node, getset_insert_tagged}
use hivelang.Remote.WaitList.Linked.{Waiter, IsLinked, Apart, write_node-IsLinked}

-- The two calls of the table that an insertion makes, when the second finds what the first found.
insert_once :
    (fuel : ℕ) (s : WaitList) (key : List ℕ) (a v : ℕ) (n : WaitListValue) (t t' : Hashtable)
    → a % 16 ≡ 0
    → s.nodes a ≡ some n
    → get_hashtable s.table key ≡ some (v, t)
    → set_hashtable t key (tag_of tag_bits v + a) v ≡ some (v, t')
    → getset_insert_tagged (suc fuel) s key a
      ≡ some (record {
        table = t';
        nodes = write_node s.nodes a (some (record n { next = list_of tag_bits v }));
      })
unfolding getset_insert_tagged
insert_once fuel s key a v n t t' aligned there got was_set =
    rw (getset_insert_tagged, got)
      (rw (◌>>=◌, there) (rw (◌>>=◌, aligned) (rw (was_set) (rw (◌>>=◌, ==_refl v) refl))))

second_call :
    (t₀ t t' : Hashtable) (key : List ℕ) (new_value v : ℕ)
    → get byte_keys t₀ key ≡ some (v, t)
    → step byte_keys t₀ (store key new_value) ≡ some (v, t')
    → update byte_keys t key new_value v ≡ some (v, t')
unfolding step
second_call t₀ t t' key new_value v got stored = rw (step, got, ◌>>=◌) at stored

-- The waiter in front, under the tag that was there, and the other keys as they were.
abbrev pub Inserted : WaitList → List ℕ → Waiter → List Waiter → Option WaitList → Type 0
Inserted s key w ws r =
    (s' : WaitList) × (keys : List (List ℕ)) × (r ≡ some s')
    × IsTable byte_keys s'.table keys
    × ((k : List ℕ)
        → view byte_keys s'.table k ≡ (
            if same_bytes key k
            then tag_of tag_bits (view byte_keys s.table key) + w.address
            else view byte_keys s.table k))
    × IsLinked s'.nodes w.address (w ∷ ws)

-- `GetsetInsertTagged` of a node whose address is a multiple of 16, not 0, and not that of another
-- waiter of the key ends at its first try. The node's waiter stands in front of the key's list, the
-- key's tag is kept, no other key of the table changes, and the table stays well formed.
pub getset_insert_tagged-Inserted :
    (fuel : ℕ) (s : WaitList) (keys : List (List ℕ)) (key : List ℕ) (next : ℕ) (w : Waiter)
    (ws : List Waiter)
    → IsTable byte_keys s.table keys
    → s.nodes w.address ≡ some (record { next = next; params = w.params; callback = w.callback })
    → w.address % 16 ≡ 0
    → w.address ≢ 0
    → Apart w.address ws
    → IsLinked s.nodes (list_of tag_bits (view byte_keys s.table key)) ws
    → Inserted s key w ws (getset_insert_tagged (suc fuel) s key w.address)
unfolding get_hashtable set_hashtable step
getset_insert_tagged-Inserted fuel s keys key next w ws valid there aligned ne apart linked =
    let v = view byte_keys s.table key in
    let a = w.address in
    let (t, got, l) = get-Looked byte_keys 0 s.table keys key (omega arith) valid.chain in
    let (t', keys', stored, valid', after) =
      step-refines byte_keys s.table keys (store key (tag_of tag_bits v + a)) valid in
    let was_set : update byte_keys t key (tag_of tag_bits v + a) v ≡ some (v, t') =
      second_call s.table t t' key (tag_of tag_bits v + a) v got stored in
    let n : WaitListValue = record { next = next; params = w.params; callback = w.callback } in
    let node : Option WaitListValue =
      some (record { next = list_of tag_bits v; params = w.params; callback = w.callback }) in
    (
      record { table = t'; nodes = write_node s.nodes a node },
      keys',
      insert_once fuel s key a v n t t' aligned there got was_set,
      valid',
      after,
      (
        refl,
        ne,
        list_of tag_bits v,
        rw (write_node, ==_refl a) refl,
        apart,
        write_node-IsLinked s.nodes (list_of tag_bits v) a node ws apart linked,
      ),
    )
