-- ===== src/Objects/ReadBack.antt =====
-- What is pushed to a promise is what a query then reads.
use hivelang.Prelude.{
  ℕ, ◌+◌, ◌-◌, ◌^◌, ◌<◌, ◌==◌, ◌≡◌, refl, sym, ap, ◌∙◌, inl, inr, List, [], ◌∷◌, none, some,
  some-inj, Option-cases, length, lt→ltb, ne→==, arith, true, false, ==_refl, ==_iff,
}
use hivelang.Word.{word_size, add64}
use hivelang.Hash.Keys.{I64Hashtable}
use hivelang.Objects.{
  my_abs, read_bytes, write_bytes, before, object_promise, object_header, x64_update_local_push,
  x64_query_local_object, x64_new_object_using_page, register_object_with_id,
}
use hivelang.Objects.Bytes.{write_bytes_outside, read_bytes-write_bytes}

-- The byte `ready` and the type of the object at `obj`.
abbrev pub ready_at : (ℕ → ℕ) → ℕ → ℕ
ready_at memory obj = memory (before obj 9)

abbrev pub type_at : (ℕ → ℕ) → ℕ → ℕ
type_at memory obj = memory (before obj 1)

-- A promise at `res + 9` as it is made.
made : (ℕ → ℕ) → ℕ → ℕ → ℕ → ℕ
made memory res size =
    write_bytes (write_bytes memory (add64 res 1) (object_header size object_promise)) res (0 ∷ [])

made-ready_at :
    (memory : ℕ → ℕ) (res size : ℕ)
    → res + 9 < 2 ^ 64
    → ready_at (made memory res size) (res + 9) ≡ 0
unfolding made
made-ready_at memory res size h =
    let here : before (res + 9) 9 ≡ res = omega arith in rw (here) (rw (==_refl res) refl)

made-type_at :
    (memory : ℕ → ℕ) (res size : ℕ)
    → res + 9 < 2 ^ 64
    → type_at (made memory res size) (res + 9) ≡ object_promise
unfolding made
made-type_at memory res size h =
    let here : before (res + 9) 1 ≡ res + 8 = omega arith in
    let other : (res + 8 == res) ≡ false = ne→== (res + 8) res (omega arith) in
    let last : (res + 8
          == add64 (add64 (add64 (add64 (add64 (add64 (add64 (add64 res 1) 1) 1) 1) 1) 1) 1) 1)
        ≡ true =
      (==_iff (res + 8)
          (add64 (add64 (add64 (add64 (add64 (add64 (add64 (add64 res 1) 1) 1) 1) 1) 1) 1) 1)).1
        (omega arith) in
    rw (here) (rw (other, last) refl)

made-x64_new_object_using_page :
    (memory m : ℕ → ℕ) (objects t : I64Hashtable) (arrays : List (List ℕ)) (res size param id : ℕ)
    → x64_new_object_using_page memory objects arrays res object_promise size param id ≡ some (m, t)
    → m ≡ made memory res size
unfolding x64_new_object_using_page made
made-x64_new_object_using_page memory m objects t arrays res size param id e =
    elim (Option-cases (register_object_with_id objects id (add64 res 9))) [
      | inl gone ↦
          let e' : none ≡ some (m, t) = rw (x64_new_object_using_page, gone) at e in absurd (cc e')
      | inr (t', there) ↦
          let e' : some (made memory res size, t') ≡ some (m, t) =
            rw (x64_new_object_using_page, there) at e in
          sym (ap (λ r. r.0) (some-inj e'))
    ]

module _ (m : ℕ → ℕ) (res offset source : ℕ) (xs : List ℕ)
    (is_promise : type_at m (res + 9) ≡ object_promise)
    (fits : res + 9 + offset + length xs < 2 ^ 64) (short : length xs < 2 ^ 63) where
  abbrev pushed : ℕ → ℕ
  pushed = write_bytes (write_bytes m res (1 ∷ [])) (res + 9 + offset) xs

  pushed-x64_update_local_push :
      x64_update_local_push m (res + 9) offset (length xs) source xs ≡ pushed
  unfolding x64_update_local_push
  pushed-x64_update_local_push =
      let n = length xs in
      let target : add64 (res + 9) offset ≡ res + 9 + offset = omega arith in
      let flag : before (res + 9) 9 ≡ res = omega arith in
      rw
        (
          x64_update_local_push,
          is_promise,
          ne→== n (word_size - 1) (omega arith),
          ne→== n (word_size - 2) (omega arith),
          ne→== n (word_size - 4) (omega arith),
          ne→== n (word_size - 8) (omega arith),
          target,
          flag,
        )
        refl

  pushed-ready_at : ready_at pushed (res + 9) ≡ 1
  pushed-ready_at =
      let flag : before (res + 9) 9 ≡ res = omega arith in
      rw flag (
        write_bytes_outside xs (write_bytes m res (1 ∷ [])) (res + 9 + offset) res (omega arith)
          (inl (omega arith))
        ∙ rw (==_refl res) refl)

  pushed-type_at : type_at pushed (res + 9) ≡ object_promise
  pushed-type_at =
      let place : before (res + 9) 1 ≡ res + 8 = omega arith in
      rw place (
        write_bytes_outside xs (write_bytes m res (1 ∷ [])) (res + 9 + offset) (res + 8)
          (omega arith) (inl (omega arith))
        ∙ write_bytes_outside (1 ∷ []) m res (res + 8) (omega arith) (inr (omega arith))
        ∙ rw place at is_promise)

  pushed-query :
      (destination : ℕ) (rdi_value : List ℕ)
      → x64_query_local_object pushed destination (res + 9) offset (length xs) rdi_value
        ≡ (1, write_bytes pushed destination xs, rdi_value)
  unfolding x64_query_local_object
  pushed-query destination rdi_value =
      let target : add64 (res + 9) offset ≡ res + 9 + offset = omega arith in
      let data_bytes : read_bytes pushed (res + 9 + offset) (length xs) ≡ xs =
        read_bytes-write_bytes xs (write_bytes m res (1 ∷ [])) (res + 9 + offset) (omega arith) in
      let abs : my_abs (length xs) ≡ length xs =
        rw (my_abs, lt→ltb (length xs) (2 ^ 63) short) refl in
      rw (x64_query_local_object, pushed-type_at, pushed-ready_at)
        (rw (lt→ltb (length xs) (2 ^ 63) short, target, abs, data_bytes) refl)

-- What the two queries answer.
abbrev pub ReadsBack : (ℕ → ℕ) → ℕ → ℕ → ℕ → List ℕ → ℕ → List ℕ → Type 0
ReadsBack m obj offset source xs destination rdi_value =
    let m' = x64_update_local_push m obj offset (length xs) source xs in
    ((offset' size : ℕ)
      → x64_query_local_object m destination obj offset' size rdi_value ≡ (0, m, rdi_value))
    × (x64_query_local_object m' destination obj offset (length xs) rdi_value
        ≡ (1, write_bytes m' destination xs, rdi_value))

-- A promise that x64NewObjectUsingPage made answers every query with 0, not ready, and copies nothing;
-- after a push of some bytes, that end below the end of memory and are fewer than 2 ^ 63, a query of
-- the same range returns 1 and copies those bytes to its destination.
pub x64_new_object_using_page-ReadsBack :
    (memory m : ℕ → ℕ) (objects t : I64Hashtable) (arrays : List (List ℕ))
    (res size param id offset source destination : ℕ) (xs rdi_value : List ℕ)
    → x64_new_object_using_page memory objects arrays res object_promise size param id ≡ some (m, t)
    → res + 9 + offset + length xs < 2 ^ 64
    → length xs < 2 ^ 63
    → ReadsBack m (res + 9) offset source xs destination rdi_value
unfolding x64_query_local_object
x64_new_object_using_page-ReadsBack memory m objects t arrays res size param id offset source
      destination xs rdi_value e fits short =
    let is_made = made-x64_new_object_using_page memory m objects t arrays res size param id e in
    let is_promise : type_at m (res + 9) ≡ object_promise =
      rw is_made (made-type_at memory res size (omega arith)) in
    let not_ready : ready_at m (res + 9) ≡ 0 =
      rw is_made (made-ready_at memory res size (omega arith)) in
    (
      λ offset' size'. rw (x64_query_local_object, is_promise, not_ready) refl,
      rw (pushed-x64_update_local_push m res offset source xs is_promise fits short)
          (pushed-query m res offset source xs is_promise fits short destination rdi_value),
    )
