-- ===== src/Objects.antt =====
-- Objects in the memory of a hive, as the x64 provider makes, writes and reads them:
-- runtimes/0.3/common/x64/{new,push,query}_object.c.
pub mod Bytes
pub mod ReadBack
use hivelang.Prelude.{
  ℕ, zero, suc, ◌+◌, ◌-◌, ◌/◌, ◌^◌, ◌==◌, Bool, true, false, ◌&&◌, ◌||◌, Option, none, some, ◌>>=◌,
  List, [], ◌∷◌, length, ◌++◌, if◌then◌else◌, ltb, leb, drop, get_elem?,
}
use hivelang.Word.{word_size, add64}
use hivelang.Hash.Keys.{I64Hashtable, i64_set_hashtable}
use hivelang.Remote.Bytes.{le_bytes}

-- `memcpy` to and from memory, one byte after another.
abbrev pub read_bytes : (ℕ → ℕ) → ℕ → ℕ → List ℕ
read_bytes memory a zero = []
read_bytes memory a (suc n) = memory a ∷ read_bytes memory (add64 a 1) n

abbrev pub write_bytes : (ℕ → ℕ) → ℕ → List ℕ → ℕ → ℕ
write_bytes memory a [] b = memory b
write_bytes memory a (x ∷ xs) b = write_bytes (λ c. if c == a then x else memory c) (add64 a 1) xs b

abbrev pub object_promise : ℕ
object_promise = 2

-- The bytes of `struct object` before `data`: the type at -1 and the provider at -2; the byte
-- `ready` of `struct object_promise` is at -9.
abbrev pub before : ℕ → ℕ → ℕ
before obj k = add64 obj (word_size - k)

-- `x64UpdateLocalPush`. `source` is a value, which the sizes -1, -2, -4 and -8 store, or leads to
-- `source_bytes`.
unfoldable pub x64_update_local_push : (ℕ → ℕ) → ℕ → ℕ → ℕ → ℕ → List ℕ → ℕ → ℕ
x64_update_local_push memory obj offset size source source_bytes =
    let ready =
      if memory (before obj 1) == object_promise
      then write_bytes memory (before obj 9) (1 ∷ [])
      else memory in
    let target = add64 obj offset in
    if size == word_size - 1
    then write_bytes ready target (le_bytes 1 source)
    else (if size == word_size - 2
        then write_bytes ready target (le_bytes 2 source)
        else (if size == word_size - 4
            then write_bytes ready target (le_bytes 4 source)
            else (if size == word_size - 8
                then write_bytes ready target (le_bytes 8 source)
                else write_bytes ready target source_bytes)))

-- PROVIDER_X64 is 0; no other provider pushes.
unfoldable pub universal_update_local_push : (ℕ → ℕ) → ℕ → ℕ → ℕ → ℕ → List ℕ → ℕ → ℕ
universal_update_local_push memory obj offset size source source_bytes =
    if memory (before obj 2) == 0
    then x64_update_local_push memory obj offset size source source_bytes
    else memory

-- `myAbs`, with the least `int64_t` its own.
abbrev pub my_abs : ℕ → ℕ
my_abs x = if ltb x (2 ^ 63) then x else word_size - x

-- `x64QueryLocalObject`: what it returns, the memory, and the eight bytes of `rdiValue`. A negative
-- size copies to `rdiValue`, any other one to `destination`.
unfoldable pub x64_query_local_object : (ℕ → ℕ) → ℕ → ℕ → ℕ → ℕ → List ℕ → ℕ × (ℕ → ℕ) × List ℕ
x64_query_local_object memory destination obj offset size rdi_value =
    let data_bytes = read_bytes memory (add64 obj offset) (my_abs size) in
    elim (memory (before obj 1) == object_promise && memory (before obj 9) == 0) [
      | true ↦ (0, memory, rdi_value)
      | false ↦ elim (ltb size (2 ^ 63)) [
        | true ↦ (1, write_bytes memory destination data_bytes, rdi_value)
        | false ↦ (1, memory, data_bytes ++ drop (my_abs size) rdi_value)
      ]
    ]

-- The other types of objects.
abbrev pub object_pipe : ℕ
object_pipe = 1

abbrev pub object_array : ℕ
object_array = 3

abbrev pub object_object : ℕ
object_object = 4

abbrev pub object_defined_array : ℕ
object_defined_array = 5

-- `struct object` before its data: 48 bits of size, the provider (PROVIDER_X64 is 0) and the type.
abbrev pub object_header : ℕ → ℕ → List ℕ
object_header data_size type = le_bytes 6 data_size ++ (0 ∷ type ∷ [])

-- `RegisterObjectWithId`, with its assertion.
unfoldable pub register_object_with_id : I64Hashtable → ℕ → ℕ → Option I64Hashtable
register_object_with_id local_objects id object = do
  (result, t) ← i64_set_hashtable local_objects id object 0
  elim (result == 0) [ true ↦ some t | false ↦ none ]

-- No length is computed by a division by 0; negative sizes are left out.
abbrev pub no_length : ℕ → ℕ → Bool
no_length size param = param == 0 || (leb (2 ^ 63) size || leb (2 ^ 63) param)

-- `x64NewObjectUsingPage`, where `myMalloc` gives `res`: the memory and `local_objects`. Each entry of
-- `defined_arrays` is the bytes of one array. A pipe is made with the fields of a promise.
unfoldable pub x64_new_object_using_page :
    (ℕ → ℕ) → I64Hashtable → List (List ℕ) → ℕ → ℕ → ℕ → ℕ → ℕ → Option ((ℕ → ℕ) × I64Hashtable)
x64_new_object_using_page memory local_objects defined_arrays res type size param remote_id =
    elim (type == object_pipe || type == object_promise) [
      | true ↦ do
        t ← register_object_with_id local_objects remote_id (add64 res 9)
        let with_header = write_bytes memory (add64 res 1) (object_header size type)
        some (write_bytes with_header res (0 ∷ []), t)
      | false ↦ elim (type == object_array) [
        | true ↦ elim (no_length size param) [
          | true ↦ none
          | false ↦ do
            t ← register_object_with_id local_objects remote_id (add64 res 16)
            let with_header = write_bytes memory (add64 res 8) (object_header size type)
            some (write_bytes with_header res (le_bytes 8 (size / param)), t)
        ]
        | false ↦ elim (type == object_object) [
          | true ↦ do
            t ← register_object_with_id local_objects remote_id (add64 res 8)
            some (write_bytes memory res (object_header size type), t)
          | false ↦ elim (type == object_defined_array) [
            | false ↦ some (memory, local_objects)
            | true ↦ do
              array_bytes ← get_elem? defined_arrays size
              let data_size = length array_bytes
              elim (no_length data_size param) [
                | true ↦ none
                | false ↦ do
                  t ← register_object_with_id local_objects remote_id (add64 res 16)
                  let with_header =
                      write_bytes memory (add64 res 8) (object_header data_size object_array)
                  let with_length = write_bytes with_header res (le_bytes 8 (data_size / param))
                  some (write_bytes with_length (add64 res 16) array_bytes, t)
              ]
          ]
        ]
      ]
    ]
