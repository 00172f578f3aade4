-- ===== src/Workers/Updates/Kept.antt =====
-- What one try of `UpdateSingleWorker` does with a worker and with the wait list.
use hivelang.Prelude.{
  ℕ, ◌==◌, true, arith, ◌≡◌, refl, subst, Option, none, some, ◌>>=◌, List, [], ◌∷◌, ◌⊎◌, inl, inr,
  Bool-cases, Option-cases, some-inj,
}
use hivelang.Word.{signed_lt}
use hivelang.Remote.Hive.{System}
use hivelang.Remote.Pages.{get_new_object_id}
use hivelang.Hash.Keys.{i64_get_hashtable}
use hivelang.Remote.Bytes.{le_value}
use hivelang.Objects.{x64_query_local_object, x64_new_object_using_page}
use hivelang.Workers.{WorkerPool, continue_worker}
use hivelang.Workers.States.{
  WaitState, timer_wait, new_object_wait_pages, push_object_wait, query_object_wait, Runtime,
  Answer, wait_list_worker, x64_sleep_states, x64_new_object_states, wait_for_query, wait_for_push,
  push_local, x64_push_object_states, x64_query_object_states,
}
use hivelang.Workers.Updates.{go_on, update_state, update_single_worker}

-- The worker waits for an object, and so in `get_wait_list` or `set_wait_list`.
abbrev pub AwaitsObject : WaitState → Type 0
AwaitsObject (timer_wait end_time) = ⊥
AwaitsObject (new_object_wait_pages obj_type size param) = ⊥
AwaitsObject (push_object_wait object_id offset size hash data_address data_bytes t) = Unit
AwaitsObject (query_object_wait object_id offset size destination t) = Unit

pub data OnSome {ℓ} {A : Type ℓ} (P : A → Type 0) : Option A → Type ℓ where
  on_none : OnSome P none
  on_some : {a : A} → P a → OnSome P (some a)

OnSome-bind {ℓ κ} :
    {A : Type ℓ} {B : Type κ} (P : B → Type 0) (o : Option A) (f : A → Option B)
    → ((a : A) → OnSome P (f a))
    → OnSome P (o >>= f)
OnSome-bind P none f h = on_none
OnSome-bind P (some a) f h = h a

OnSome-imp {ℓ} :
    {A : Type ℓ} (P Q : A → Type 0) (o : Option A) → ((a : A) → P a → Q a) → OnSome P o → OnSome Q o
OnSome-imp P Q none f h = on_none
OnSome-imp P Q (some a) f (on_some p) = on_some (f a p)

pub OnSome-at {ℓ} :
    {A : Type ℓ} {P : A → Type 0} {o : Option A} {a : A} → OnSome P o → o ≡ some a → P a
OnSome-at on_none e = absurd (cc)
OnSome-at {P = P} (on_some p) e = subst P (some-inj e) p

OnSome-then {ℓ κ} :
    {A : Type ℓ} {B : Type κ} (P : B → Type 0) (Q : A → Type 0) (o : Option A) (f : A → Option B)
    → OnSome Q o
    → ((a : A) → Q a → OnSome P (f a))
    → OnSome P (o >>= f)
OnSome-then P Q none f h next = on_none
OnSome-then P Q (some a) f (on_some q) next = next a q

-- An answer that leaves the wait list as it was.
abbrev SameList : Runtime → Answer → Type 0
SameList s (res, s', rdi) = s'.wait_list ≡ s.wait_list

-- A worker that waits for an object.
abbrev pub Awaits : Runtime → ℕ → Type 0
Awaits s w = (state : WaitState) × (s.states w ≡ some state) × AwaitsObject state

-- The worker goes on: its struct is given back to the scheduler with a value for rdi.
abbrev pub GoesOn : ℕ → Runtime → ℕ → ℕ × Runtime → Type 0
GoesOn address s w (res, s') =
    (res ≡ 1) × (rdi_value : ℕ) × (continue_worker s.pool w rdi_value address ≡ some s'.pool)

-- A worker that is tried goes on, waits for its object, or is in front of the wait list again.
abbrev pub Stepped : ℕ → Runtime → ℕ → ℕ × Runtime → Type 0
Stepped address s w (res, s') =
    (s'.wait_list ≡ s.wait_list × (GoesOn address s w (res, s') ⊎ Awaits s w))
    ⊎ (s'.wait_list ≡ w ∷ s.wait_list)

abbrev Tried : Runtime → ℕ → Answer → Type 0
Tried s w (res, s', rdi) =
    (s'.wait_list ≡ s.wait_list × (((res ≡ 1) × (s'.pool ≡ s.pool)) ⊎ Awaits s w))
    ⊎ (s'.wait_list ≡ w ∷ s.wait_list)

module _ (sys : System) (timeout : ℕ) where
  wait_for_query-Same :
      (s : Runtime) (w object_id offset size : ℕ)
      → OnSome
          (λ s'. s'.wait_list ≡ s.wait_list)
          (wait_for_query sys timeout s w object_id offset size)
  unfolding wait_for_query
  wait_for_query-Same s w object_id offset size = OnSome-bind _ _ _ λ waiting. on_some refl

  wait_for_push-Same :
      (s : Runtime) (w object_id offset size hash : ℕ)
      → OnSome
          (λ s'. s'.wait_list ≡ s.wait_list)
          (wait_for_push sys timeout s w object_id offset size hash)
  unfolding wait_for_push
  wait_for_push-Same s w object_id offset size hash = OnSome-bind _ _ _ λ waiting. on_some refl

  push_local-Same :
      (s : Runtime) (obj object_id offset size source : ℕ) (bytes : List ℕ)
      → OnSome
          (λ s'. s'.wait_list ≡ s.wait_list)
          (push_local sys timeout s obj object_id offset size source bytes)
  unfolding push_local
  push_local-Same s obj object_id offset size source bytes = OnSome-bind _ _ _ λ hive. on_some refl

  push-Same :
      (s : Runtime) (w object_id offset size hash data_address : ℕ) (bytes : List ℕ) (t : ℕ)
      (rdi : List ℕ)
      → OnSome (SameList s) (
          x64_push_object_states sys timeout s w object_id offset size hash data_address bytes t
            rdi)
  unfolding x64_push_object_states
  push-Same s w object_id offset size hash data_address bytes t rdi =
      OnSome-bind (SameList s) (i64_get_hashtable s.hive.local_objects object_id) _
        λ (obj, local_objects). elim (Bool-cases (obj == 0)) [
          | inl e ↦ rw (e) (elim (Bool-cases (signed_lt t sys.ticks)) [
            | inl e' ↦ rw (e') (OnSome-bind (SameList s) _ _ λ hive. on_some refl)
            | inr e' ↦ rw (e') (
                OnSome-then (SameList s) _ _ _ (wait_for_push-Same _ w object_id offset size hash)
                  λ s' q. on_some q)
          ])
          | inr e ↦ rw (e) (
              OnSome-then (SameList s) _ _ _
                (push_local-Same _ obj object_id offset size data_address bytes) λ s' q. on_some q)
        ]

  query-Same :
      (s : Runtime) (w object_id offset size destination t : ℕ) (rdi : List ℕ)
      → OnSome
          (SameList s)
          (x64_query_object_states sys timeout s w object_id offset size destination t rdi)
  unfolding x64_query_object_states
  query-Same s w object_id offset size destination t rdi =
      OnSome-bind (SameList s) (i64_get_hashtable s.hive.local_objects object_id) _
        λ (obj, local_objects). elim (Bool-cases (obj == 0)) [
          | inl e ↦ rw (e) (elim (Bool-cases (signed_lt t sys.ticks)) [
            | inl e' ↦ rw (e') (OnSome-bind (SameList s) _ _ λ hive. on_some refl)
            | inr e' ↦ rw (e') (
                OnSome-then (SameList s) _ _ _ (wait_for_query-Same _ w object_id offset size)
                  λ s' q. on_some q)
          ])
          | inr e ↦
              rw (e)
                (elim (Bool-cases
                  ((x64_query_local_object s.hive.memory destination obj offset size rdi).0 == 0)) [
                    | inr e' ↦ rw (e') (on_some refl)
                    | inl e' ↦ rw (e') (
                        OnSome-then (SameList s) _ _ _
                          (wait_for_query-Same _ w object_id offset size) λ s' q. on_some q)
                  ])
        ]

  stopped-Stepped :
      (s s' : Runtime) (w address res : ℕ) (rdi : List ℕ)
      → (res == 0) ≡ true
      → Tried s w (res, s', rdi)
      → Stepped address s w (res, s')
  stopped-Stepped s s' w address res rdi e (inr listed) = inr listed
  stopped-Stepped s s' w address res rdi e (inl (same, inr awaits)) = inl (same, inr awaits)
  stopped-Stepped s s' w address res rdi e (inl (same, inl (one, kept))) = absurd (grind arith)

  gone_on-Stepped :
      (s s' : Runtime) (w address res : ℕ) (rdi : List ℕ) (pool : WorkerPool)
      → continue_worker s'.pool w (le_value rdi) address ≡ some pool
      → Tried s w (res, s', rdi)
      → Stepped address s w (res, record s' { pool = pool })
  gone_on-Stepped s s' w address res rdi pool e (inr listed) = inr listed
  gone_on-Stepped s s' w address res rdi pool e (inl (same, inr awaits)) = inl (same, inr awaits)
  gone_on-Stepped s s' w address res rdi pool e (inl (same, inl (one, kept))) = inl (
    same,
    inl (
      one,
      le_value rdi,
      subst (λ (p : WorkerPool). continue_worker p w (le_value rdi) address ≡ some pool) kept e,
    ),
  )

  go_on-Stepped :
      (s : Runtime) (w address : ℕ) (answer : Answer)
      → Tried s w answer
      → OnSome (Stepped address s w) (go_on w address answer)
  unfolding go_on
  go_on-Stepped s w address (res, s', rdi) h = elim (Bool-cases (res == 0)) [
    | inl e ↦ rw (go_on, e) (on_some (stopped-Stepped s s' w address res rdi e h))
    | inr e ↦ elim (Option-cases (continue_worker s'.pool w (le_value rdi) address)) [
      | inl gone ↦ rw (go_on, e) (rw (gone) on_none)
      | inr (pool, run) ↦
          rw (go_on, e) (rw (run) (on_some (gone_on-Stepped s s' w address res rdi pool run h)))
    ]
  ]

  update_state-Tried :
      (s : Runtime) (w res : ℕ) (state : WaitState) (rdi : List ℕ)
      → s.states w ≡ some state
      → OnSome (Tried s w) (update_state sys timeout s w res state rdi)
  unfolding update_state x64_sleep_states x64_new_object_states wait_list_worker
  update_state-Tried s w res (timer_wait end_time) rdi e =
      elim (Bool-cases (signed_lt sys.ticks end_time)) [
        | inl e' ↦ rw (update_state, x64_sleep_states, e') (on_some (inr refl))
        | inr e' ↦ rw (update_state, x64_sleep_states, e') (on_some (inl (refl, inl (refl, refl))))
      ]
  update_state-Tried s w res (new_object_wait_pages obj_type size param) rdi e =
      elim (Bool-cases (get_new_object_id s.hive.pages).0) [
        | inl e' ↦
            rw (update_state, x64_new_object_states, e')
              (OnSome-bind (Tried s w)
                (x64_new_object_using_page s.hive.memory s.hive.local_objects s.defined_arrays res
                  obj_type size param (get_new_object_id s.hive.pages).1)
                _ λ made. on_some (inl (refl, inl (refl, refl))))
        | inr e' ↦ rw (update_state, x64_new_object_states, e') (on_some (inr refl))
      ]
  update_state-Tried s w res (push_object_wait object_id offset size hash data_address bytes t) rdi
        e =
      OnSome-imp (SameList s) (Tried s w) _
        (λ (r, s', rdi') same.
          inl (same, inr (push_object_wait object_id offset size hash data_address bytes t, e, tt)))
        (push-Same s w object_id offset size hash data_address bytes t rdi)
  update_state-Tried s w res (query_object_wait object_id offset size destination t) rdi e =
      OnSome-imp (SameList s) (Tried s w) _
        (λ (r, s', rdi') same.
          inl (same, inr (query_object_wait object_id offset size destination t, e, tt)))
        (query-Same s w object_id offset size destination t rdi)

  pub update_single_worker-Stepped :
      (res address : ℕ) (s : Runtime) (w : ℕ)
      → OnSome (Stepped address s w) (update_single_worker sys timeout res address s w)
  unfolding update_single_worker
  update_single_worker-Stepped res address s w = elim (Option-cases (s.states w)) [
    | inl e ↦ rw (update_single_worker, e) on_none
    | inr (state, e) ↦
        rw (update_single_worker, e)
          (OnSome-then (Stepped address s w) (Tried s w)
            (update_state sys timeout s w res state (0 ∷ 0 ∷ 0 ∷ 0 ∷ 0 ∷ 0 ∷ 0 ∷ 0 ∷ [])) _
            (update_state-Tried s w res state _ e) λ answer h. go_on-Stepped s w address answer h)
  ]
