-- ===== src/Workers/States/Waited.antt =====
-- What a push that waited stores in an object of this hive, against one that did not have to.
use hivelang.Prelude.{
  ℕ, ◌+◌, ◌-◌, ◌^◌, ◌≤◌, ◌<◌, arith, ◌==◌, ◌≡◌, ◌≢◌, refl, ap, sym, ◌∙◌, false, Option, none, some,
  ◌>>=◌, List, if◌then◌else◌, inl, ne→==,
}
use hivelang.Hash.Keys.{I64Hashtable, i64_get_hashtable}
use hivelang.Remote.Hive.{Hive, System}
use hivelang.Remote.Hive.Objects.{wake_query}
use hivelang.Word.{word_size, add64}
use hivelang.Remote.Bytes.{le_bytes}
use hivelang.Objects.{my_abs, write_bytes, before, object_promise, x64_update_local_push}
use hivelang.Objects.Bytes.{write_bytes_outside}
use hivelang.Workers.States.{
  Runtime, Caller, pushed_bytes, push_local, x64_push_object_states, x64_push_object,
}

-- An object of this hive that is no promise.
abbrev pub IsPlain : Runtime → ℕ → ℕ → I64Hashtable → Type 0
IsPlain s object_id obj local_objects =
    (i64_get_hashtable s.hive.local_objects object_id ≡ some (obj, local_objects))
    × (obj ≢ 0)
    × (s.hive.memory (before obj 1) ≢ object_promise)

abbrev pub with_memory : Runtime → I64Hashtable → (ℕ → ℕ) → Runtime
with_memory s local_objects memory = record s {
  hive = record s.hive { local_objects = local_objects; memory = memory };
}

-- Eight bytes that are written to it do not reach its header.
plain_push :
    (sys : System) (timeout : ℕ) (s : Runtime) (obj object_id offset source : ℕ) (bytes : List ℕ)
    → s.hive.memory (before obj 1) ≢ object_promise
    → 0 < obj
    → obj + offset + 8 ≤ 2 ^ 64
    → push_local sys timeout s obj object_id offset (word_size - 8) source bytes
      ≡ some (record s {
        hive = record s.hive {
          memory = write_bytes s.hive.memory (add64 obj offset) (le_bytes 8 source);
        };
      })
unfolding push_local x64_update_local_push
plain_push sys timeout s obj object_id offset source bytes plain some_object fits =
    let written : ℕ → ℕ = write_bytes s.hive.memory (add64 obj offset) (le_bytes 8 source) in
    let e : (s.hive.memory (before obj 1) == object_promise) ≡ false =
      ne→== (s.hive.memory (before obj 1)) object_promise plain in
    let update : x64_update_local_push s.hive.memory obj offset (word_size - 8) source bytes
        ≡ written =
      rw (e) refl in
    let kept : written (before obj 1) ≡ s.hive.memory (before obj 1) =
      write_bytes_outside (le_bytes 8 source) s.hive.memory (add64 obj offset) (before obj 1)
        (omega arith) (inl (omega arith)) in
    let e' : (written (before obj 1) == object_promise) ≡ false =
      ne→== (written (before obj 1)) object_promise (λ same. plain (sym kept ∙ same)) in
    ap
      (λ (memory : ℕ → ℕ).
        let hive = record s.hive { memory = memory } in
        (if memory (before obj 1) == object_promise
          then wake_query sys hive object_id offset (my_abs (word_size - 8)) source bytes
          else some hive)
        >>= λ (hive' : Hive). some (record s { hive = hive' }))
      update
    ∙ rw (e') refl

-- A push of size -8 to an object of this hive that is no promise and whose eight bytes end at the end
-- of memory at most: it stores the value where the worker need not wait, and where it waited the
-- address of the copy of the value; the rest is the same.
pub x64_push_object_states-x64_push_object :
    (sys : System) (timeout : ℕ) (s : Runtime) (c : Caller)
    (w queued_before data_address object_id source offset hash repeat_timeout obj : ℕ)
    (data_bytes rdi : List ℕ) (local_objects : I64Hashtable)
    → IsPlain s object_id obj local_objects
    → 0 < obj
    → obj + offset + 8 ≤ 2 ^ 64
    → let stored : ℕ → Runtime = λ x.
      with_memory s local_objects (write_bytes s.hive.memory (add64 obj offset) (le_bytes 8 x)) in
      (x64_push_object sys timeout s c w queued_before data_address object_id source offset
          (word_size - 8)
        ≡ some (none, stored source))
      × (x64_push_object_states sys timeout s w object_id offset
            (word_size - 8)
            hash
            data_address
            data_bytes
            repeat_timeout
            rdi
          ≡ some (1, stored data_address, rdi))
unfolding x64_push_object x64_push_object_states x64_update_local_push
x64_push_object_states-x64_push_object sys timeout s c w queued_before data_address object_id source
      offset hash repeat_timeout obj data_bytes rdi local_objects (found, there, plain) some_object
      fits =
    let e₁ : (obj == 0) ≡ false = ne→== obj 0 there in
    let s₁ : Runtime = record s { hive = record s.hive { local_objects = local_objects } } in
    (
      rw (x64_push_object, found)
          (rw (◌>>=◌, e₁)
            (ap (λ (o : Option Runtime). o >>= λ s₂. some (none, s₂))
              (plain_push sys timeout s₁ obj object_id offset source
                (pushed_bytes s.hive source (word_size - 8)) plain some_object fits))),
      rw (x64_push_object_states, found)
          (rw (◌>>=◌, e₁)
            (ap (λ (o : Option Runtime). o >>= λ s₂. some (1, s₂, rdi))
              (plain_push sys timeout s₁ obj object_id offset data_address data_bytes plain
                some_object fits))),
    )
