-- ===== src/Remote/WaitList/Linked.antt =====
-- A list of waiters in the memory of remote.c, and the loop that runs their callbacks.
use hivelang.Prelude.{
  ℕ, zero, suc, ◌<◌, ◌≡◌, refl, ◌≢◌, ap, ◌∙◌, Option, none, some, List, [], ◌∷◌, map, length, All,
  ◌>>=◌, ne→==, arith,
}
use hivelang.Remote.WaitList.{WaitListValue, write_node, update_waiting_list}

pub record Waiter : Type 0 where
  pub address : ℕ
  pub callback : ℕ
  pub params : ℕ

abbrev pub call_of : Waiter → ℕ × ℕ
call_of w = (w.callback, w.params)

abbrev pub Apart : ℕ → List Waiter → Type 0
Apart a ws = All (λ (u : Waiter). u.address ≢ a) ws

-- The nodes from `q` on are those of the waiters, each at an address of its own.
abbrev pub IsLinked : (ℕ → Option WaitListValue) → ℕ → List Waiter → Type 0
IsLinked nodes q [] = q ≡ 0
IsLinked nodes q (w ∷ ws) =
    (q ≡ w.address)
    × (w.address ≢ 0)
    × (next : ℕ) × (nodes w.address
        ≡ some (record { next = next; params = w.params; callback = w.callback }))
    × Apart w.address ws
    × IsLinked nodes next ws

-- A write elsewhere leaves the list.
pub write_node-IsLinked :
    (nodes : ℕ → Option WaitListValue) (q a : ℕ) (n : Option WaitListValue) (ws : List Waiter)
    → Apart a ws
    → IsLinked nodes q ws
    → IsLinked (write_node nodes a n) q ws
write_node-IsLinked nodes q a n [] apart l = l
write_node-IsLinked nodes q a n (w ∷ ws) apart (e, ne, next, there, own, l) = (
  e,
  ne,
  next,
  rw (write_node, ne→== w.address a apart.0) there,
  own,
  write_node-IsLinked nodes next a n ws apart.1 l,
)

visit_node :
    (fuel : ℕ) (nodes : ℕ → Option WaitListValue) (q : ℕ) (n : WaitListValue) (calls : List (ℕ × ℕ))
    (nodes' : ℕ → Option WaitListValue)
    → q ≢ 0
    → nodes q ≡ some n
    → update_waiting_list fuel (write_node nodes q none) n.next ≡ some (calls, nodes')
    → update_waiting_list (suc fuel) nodes q ≡ some ((n.callback, n.params) ∷ calls, nodes')
unfolding update_waiting_list
visit_node fuel nodes q n calls nodes' ne there rest =
    rw (update_waiting_list, ne→== q 0 ne) (rw (there) (rw (◌>>=◌, rest) refl))

-- With fuel for each node and one more, the loop runs every waiter's callback once, in the list's
-- order, and meets no freed node.
pub update_waiting_list-IsLinked :
    (fuel : ℕ) (nodes : ℕ → Option WaitListValue) (q : ℕ) (ws : List Waiter)
    → IsLinked nodes q ws
    → length ws < fuel
    → (nodes' : ℕ → Option WaitListValue) × (update_waiting_list fuel nodes q
        ≡ some (map call_of ws, nodes'))
unfolding update_waiting_list
update_waiting_list-IsLinked zero nodes q ws l less = elim less [ ]
update_waiting_list-IsLinked (suc fuel) nodes q [] l less = (nodes, rw l refl)
update_waiting_list-IsLinked (suc fuel) nodes q (w ∷ ws) (e, ne, next, there, own, l) less =
    let (nodes', rest) =
      update_waiting_list-IsLinked fuel (write_node nodes w.address none) next ws
        (write_node-IsLinked nodes next w.address none ws own l) (omega arith) in
    (
      nodes',
      ap (update_waiting_list (suc fuel) nodes) e
          ∙ visit_node fuel nodes w.address
              (record { next = next; params = w.params; callback = w.callback }) (map call_of ws)
              nodes' ne there rest,
    )
