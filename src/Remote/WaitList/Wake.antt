-- ===== src/Remote/WaitList/Wake.antt =====
-- `UpdateWaitingQuery` and `UpdateWaitingPush` of remote.c wake every waiter of a key.
use hivelang.Prelude.{
  ℕ, ◌+◌, ◌-◌, ◌<◌, ◌≡◌, refl, ◌≢◌, ap, sym, ◌∙◌, true, false, if◌then◌else◌, Option, some, List,
  [], ◌∷◌, map, length, ◌>>=◌, ne→==, arith, ℕ_discrete, subst, ◌⊎◌, inl, inr, Bool, Bool-cases,
}
use hivelang.Word.{add64, word_size}
use hivelang.Table.Layered.{view, tag_of, list_of}
use hivelang.Table.Layered.Grow.{IsTable}
use hivelang.Table.Layered.Take.{take_tagged-Ends, add-Ends, TakeEnds}
use hivelang.Hash.Keys.{Hashtable, byte_keys, same_bytes_iff, take_tagged_hashtable, add_hashtable}
use hivelang.Remote.WaitList.{
  WaitList, WaitListValue, tag_bits, update_waiting, update_waiting_list, update_waiting_query,
  update_waiting_push, get_wait_list_key, set_wait_list_key,
}
use hivelang.Remote.WaitList.Linked.{Waiter, IsLinked, call_of, update_waiting_list-IsLinked}
use hivelang.Hash.Bytes.{same_bytes}

-- A wait list with a well-formed table, in which the key has no tag and the list of the waiters.
pub record IsWaitList (s : WaitList) (keys : List (List ℕ)) (key : List ℕ) (ws : List Waiter)
    : Type 0 where
  pub valid : IsTable byte_keys s.table keys
  pub untagged : tag_of tag_bits (view byte_keys s.table key) ≡ 0
  pub linked : IsLinked s.nodes (view byte_keys s.table key) ws

-- The waiters run, and afterwards the key's list is empty and has no tag.
abbrev pub Woken :
    WaitList → List (List ℕ) → List ℕ → List Waiter → Option (List (ℕ × ℕ) × WaitList) → Type 0
Woken s keys key ws r =
    (s' : WaitList) × (r ≡ some (map call_of ws, s'))
    × IsTable byte_keys s'.table keys
    × ((k : List ℕ)
        → view byte_keys s'.table k ≡ (if same_bytes key k then 0 else view byte_keys s.table k))

module _ (fuel : ℕ) (s : WaitList) (key : List ℕ) where
  wake_none :
      (t : Hashtable)
      → take_tagged_hashtable s.table key tag_bits 1 ≡ some (0, t)
      → update_waiting fuel s key ≡ some ([], record s { table = t })
  wake_none t e = rw (e, ◌>>=◌) refl

  wake_some :
      (q v : ℕ) (t t' : Hashtable) (calls : List (ℕ × ℕ)) (nodes : ℕ → Option WaitListValue)
      → q ≢ 0
      → take_tagged_hashtable s.table key tag_bits 1 ≡ some (q, t)
      → update_waiting_list fuel s.nodes q ≡ some (calls, nodes)
      → add_hashtable t key (word_size - 1) ≡ some (v, t')
      → update_waiting fuel s key ≡ some (calls, record { table = t'; nodes = nodes })
  wake_some q v t t' calls nodes ne e walked added =
      rw (e) (rw (◌>>=◌, ne→== q 0 ne) (rw (◌>>=◌, walked, added) refl))

empty_list :
    (nodes : ℕ → Option WaitListValue) (ws : List Waiter)
    → IsLinked nodes 0 ws
    → [] ≡ map call_of ws
empty_list nodes [] l = refl
empty_list nodes (w ∷ ws) (e, ne, next, there, own, l) = absurd (ne (sym e))

list_of_untagged : (v : ℕ) → tag_of tag_bits v ≡ 0 → list_of tag_bits v ≡ v
list_of_untagged v e = omega arith

released : (v : ℕ) → tag_of tag_bits v ≡ 0 → add64 (tag_of tag_bits v + 1) (word_size - 1) ≡ 0
released v e = omega arith

module _ (fuel : ℕ) (s : WaitList) (keys : List (List ℕ)) (key : List ℕ) (ws : List Waiter)
    (w : IsWaitList s keys key ws) (less : length ws < fuel) where
  wake_idle :
      view byte_keys s.table key ≡ 0
      → TakeEnds byte_keys 2 s.table keys key tag_bits 1
      → Woken s keys key ws (update_waiting fuel s key)
  unfolding take_tagged_hashtable
  wake_idle z (t, e, leaves) =
      let no_list : list_of tag_bits (view byte_keys s.table key) ≡ 0 =
        list_of_untagged (view byte_keys s.table key) w.untagged ∙ z in
      let (u, same) = leaves.0 no_list in
      (
        record s { table = t },
        wake_none fuel s key t (e ∙ ap (λ x. some (x, t)) no_list)
            ∙ ap (λ l. some (l, record s { table = t }))
                (empty_list s.nodes ws (subst (λ q. IsLinked s.nodes q ws) z w.linked)),
        u,
        λ k. same k ∙ at_key k (Bool-cases (same_bytes key k)),
      )
    where
      at_key :
          (k : List ℕ)
          → (same_bytes key k ≡ true) ⊎ (same_bytes key k ≡ false)
          → view byte_keys s.table k ≡ (if same_bytes key k then 0 else view byte_keys s.table k)
      at_key k (inl y) = rw y (ap (view byte_keys s.table) (sym ((same_bytes_iff key k).0 y)) ∙ z)
      at_key k (inr n) = rw n refl

  wake_waiters :
      view byte_keys s.table key ≢ 0
      → TakeEnds byte_keys 2 s.table keys key tag_bits 1
      → Woken s keys key ws (update_waiting fuel s key)
  unfolding take_tagged_hashtable add_hashtable
  wake_waiters ne (t, e, leaves) =
      let v = view byte_keys s.table key in
      let is_v = list_of_untagged v w.untagged in
      let a = leaves.1 (λ z. ne (sym is_v ∙ z)) in
      let (nodes, walked) = update_waiting_list-IsLinked fuel s.nodes v ws w.linked less in
      let (t', added, b) =
        add-Ends byte_keys 1 t keys key (word_size - 1) (tag_of tag_bits v + 1) a.valid
          a.in_newest in
      (
        record { table = t'; nodes = nodes },
        wake_some fuel s key v (tag_of tag_bits v + 1) t t' (map call_of ws) nodes ne
            (e ∙ ap (λ x. some (x, t)) is_v) walked added,
        b.valid,
        λ k.
            b.written k
            ∙ ap (λ x. if same_bytes key k then x else view byte_keys t k) (released v w.untagged)
            ∙ twice (same_bytes key k) 0 (tag_of tag_bits v + 1) (view byte_keys s.table k)
                (view byte_keys t k) (a.written k),
      )
    where
      twice :
          (b : Bool) (x y z r : ℕ)
          → r ≡ (if b then y else z)
          → (if b then x else r) ≡ (if b then x else z)
      twice true x y z r e = refl
      twice false x y z r e = e

  update_waiting-Woken : Woken s keys key ws (update_waiting fuel s key)
  update_waiting-Woken =
      let taken =
        take_tagged-Ends byte_keys s.table keys key tag_bits 1 w.valid
          (omega (arith, w.untagged)) in
      elim (ℕ_discrete (view byte_keys s.table key) 0) [
        | yes z ↦ wake_idle z taken
        | no ne ↦ wake_waiters ne taken
      ]

-- On a wait list in order, with fuel for each waiter of the key and one more,
-- `UpdateWaitingQuery` ends. It runs the callback of every waiter of that read once, the list's
-- first node first, then the list is empty and its tag released. No other key of the table changes.
pub update_waiting_query-Woken :
    (fuel : ℕ) (s : WaitList) (keys : List (List ℕ)) (object_id offset size : ℕ) (ws : List Waiter)
    → IsWaitList s keys (get_wait_list_key object_id offset size) ws
    → length ws < fuel
    → Woken s keys
        (get_wait_list_key object_id offset size)
        ws
        (update_waiting_query fuel s object_id offset size)
unfolding update_waiting_query
update_waiting_query-Woken fuel s keys object_id offset size ws w less =
    update_waiting-Woken fuel s keys (get_wait_list_key object_id offset size) ws w less

-- On a wait list in order, with fuel for each waiter of the key and one more, `UpdateWaitingPush`
-- ends. It runs the callback of every waiter of that write once, the list's first node first, then
-- the list is empty and its tag released. No other key of the table changes.
update_waiting_push-Woken :
    (fuel : ℕ) (s : WaitList) (keys : List (List ℕ)) (object_id offset size hash : ℕ)
    (ws : List Waiter)
    → IsWaitList s keys (set_wait_list_key object_id offset size hash) ws
    → length ws < fuel
    → Woken s keys
        (set_wait_list_key object_id offset size hash)
        ws
        (update_waiting_push fuel s object_id offset size hash)
unfolding update_waiting_push
update_waiting_push-Woken fuel s keys object_id offset size hash ws w less =
    update_waiting-Woken fuel s keys (set_wait_list_key object_id offset size hash) ws w less
