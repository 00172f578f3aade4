-- ===== src/Program/Load.antt =====
-- The reader of programs, `LoadWorker` of runtimes/0.3/common/runtime.c, and the tables it fills.
-- A file is its bytes; a pointer into the code is its offset there.
pub mod Reads
pub mod Stack
pub mod Ends
use hivelang.Prelude.{
  ℕ, zero, suc, ◌+◌, ◌*◌, ◌^◌, ◌==◌, ltb, Bool, true, false, ◌||◌, if◌then◌else◌, Option, none,
  some, List, [], ◌∷◌, ◌++◌, length, take, drop, replicate,
}
use hivelang.Word.{add64, signed_lt}
use hivelang.Remote.Bytes.{le_value}
use hivelang.Remote.Send.{int64_bytes}
use hivelang.Program.Load.Reads.{
  Loading, ok, refused, exited, overrun, out_of_fuel, ◌>>=◌, read8, read64, read_block, read_name,
  rounds,
}
use hivelang.Program.Load.Stack.{DllInputTable, linux_stack_usage, windows_stack_usage}

-- The functions of the runtime that the compiled code calls.
pub data Endpoint : Type 0 where
  x64_fast_push_object x64_fast_query_object x64_fast_new_object gpu_fast_new_object
        loc_fast_new_object x64_fast_call_object gpu_fast_call_object dll_fast_call_object
        x64_fast_push_pipe x64_fast_query_pipe any_fast_cast_provider x64_fast_sleep :
      Endpoint

-- What the allocation of the memory of the code answers; on Linux a failure is not NULL.
pub data Mapping : Type 0 where
  mapped null_pointer map_failed : Mapping

-- The system under the loader: `windows` is `_WIN32`, `address` the addresses of the endpoints,
-- `map_memory` the allocation of so many bytes, `symbol` the address of a function of a library, 0
-- for NULL, and `build_kernel` what `gpuBuildFromText` makes of the text from one offset of the code
-- to another, `none` for an error.
pub record Platform : Type 0 where
  pub windows : Bool
  pub address : Endpoint → ℕ
  pub map_memory : ℕ → Mapping
  pub symbol : List ℕ → List ℕ → ℕ
  pub build_kernel : List ℕ → ℕ → ℕ → Option ℕ

-- `struct gpu_input_table`.
pub record GpuInputTable : Type 0 where
  pub size : ℕ
  pub type : ℕ

-- `struct dll_worker_info`, `x64_worker_data` (its buffer is NULL and its lock free) and
-- `gpu_worker_info`; the tag is the provider.
pub data WorkerData : Type 0 where
  dll_worker :
      (entry : ℕ) (entry_name : List ℕ) (call_stack_usage output_size input_map_length : ℕ)
      (input_map : List DllInputTable)
      → WorkerData
  x64_worker : (start end : ℕ) → WorkerData
  gpu_worker : (start end kernel input_map_length : ℕ) (input_map : List GpuInputTable) → WorkerData

-- `struct worker_info`.
pub record WorkerInfo : Type 0 where
  pub worker : WorkerData
  pub input_size : ℕ
  pub affinity : ℕ

-- `defined_arrays`: the copy of the raw bytes, and the offset there and the size of each array.
pub record DefinedArrays : Type 0 where
  pub raw : List ℕ
  pub arrays : List (ℕ × ℕ)

-- The memory of the code, `Workers`, `defined_arrays` and `ProcessEntryId`.
pub record Loaded : Type 0 where
  pub code : List ℕ
  pub workers : ℕ → Option WorkerInfo
  pub defined_arrays : Option DefinedArrays
  pub entry_id : Option ℕ

-- `struct worker_info Workers[100]`.
abbrev pub max_workers : ℕ
max_workers = 100

unfoldable pub set_worker : ℕ → WorkerInfo → Loaded → Loading Loaded
set_worker id info s =
    if ltb id max_workers
    then ok (record s { workers = λ k. if k == id then some info else s.workers k })
    else overrun

-- The headers of calls, and the endpoint that the inner `switch` has for each; it has none for four.
unfoldable pub is_call : ℕ → Bool
is_call t =
    (t == 0)
    || (t == 20)
    || (t == 1)
    || (t == 21)
    || (t == 2)
    || (t == 22)
    || (t == 42)
    || (t == 3)
    || (t == 23)
    || (t == 33)
    || (t == 8)
    || (t == 28)
    || (t == 9)
    || (t == 29)
    || (t == 10)
    || (t == 50)

unfoldable pub endpoint : ℕ → Option Endpoint
endpoint t =
    if t == 0
    then some x64_fast_push_object
    else if t == 1
    then some x64_fast_query_object
    else if t == 2
    then some x64_fast_new_object
    else if t == 22
    then some gpu_fast_new_object
    else if t == 42
    then some loc_fast_new_object
    else if t == 3
    then some x64_fast_call_object
    else if t == 23
    then some gpu_fast_call_object
    else if t == 33
    then some dll_fast_call_object
    else if t == 8
    then some x64_fast_push_pipe
    else if t == 9
    then some x64_fast_query_pipe
    else if t == 10
    then some any_fast_cast_provider
    else if t == 50
    then some x64_fast_sleep
    else none

-- `*callPosition = (uint64_t)&endpoint`.
unfoldable pub write_address : List ℕ → ℕ → ℕ → Loading (List ℕ)
write_address code position address =
    if ltb (length code) (position + 8)
    then overrun
    else ok (take position code ++ (int64_bytes address ++ drop (position + 8) code))

unfoldable pub patch_call : Platform → ℕ → List ℕ → ℕ → Loading (List ℕ)
patch_call p t code position = elim (endpoint t) [
  | some e ↦ write_address code position (p.address e)
  | none ↦ exited
]

unfoldable pub patch_calls : Platform → ℕ → ℕ → Loaded → List ℕ → Loading (Loaded × List ℕ)
patch_calls p t zero s bytes = ok (s, bytes)
patch_calls p t (suc n) s bytes = do
  (position, rest) ← read64 bytes
  code ← patch_call p t s.code position
  patch_calls p t n (record s { code = code }) rest

unfoldable pub load_calls : Platform → ℕ → Loaded → List ℕ → Loading (Loaded × List ℕ)
load_calls p t s bytes = do (count, rest) ← read64 bytes; patch_calls p t (rounds count) s rest

unfoldable pub read_inputs : ℕ → List ℕ → Loading (List DllInputTable × List ℕ)
read_inputs zero bytes = ok ([], bytes)
read_inputs (suc n) bytes = do
  (type, bytes) ← read8 bytes
  (provider, bytes) ← read64 bytes
  (size, bytes) ← read64 bytes
  (param, bytes) ← read64 bytes
  (inputs, bytes) ← read_inputs n bytes
  ok (record { provider = provider; size = size; param = param; type = type } ∷ inputs, bytes)

-- `totalSize`.
unfoldable pub total_size : ℕ → List DllInputTable → ℕ
total_size total [] = total
total_size total (i ∷ is) = total_size (add64 total i.size) is

unfoldable pub stack_usage : Platform → ℕ → List DllInputTable → ℕ
stack_usage p inputs_len inputs =
    if p.windows then windows_stack_usage inputs_len else linux_stack_usage inputs

unfoldable pub load_dll : Platform → Loaded → List ℕ → Loading (Loaded × List ℕ)
load_dll p s bytes = do
  (id, bytes) ← read64 bytes
  (lib_name, bytes) ← read_name bytes
  (entry, bytes) ← read_name bytes
  (affinity, bytes) ← read64 bytes
  (output_size, bytes) ← read64 bytes
  (inputs_len, bytes) ← read64 bytes
  (inputs, bytes) ← read_inputs (rounds inputs_len) bytes
  let address = p.symbol lib_name entry
  let usage = stack_usage p inputs_len inputs
  s ←
      set_worker id
        (record {
          worker = dll_worker address entry usage output_size inputs_len inputs;
          input_size = total_size 8 inputs;
          affinity = affinity;
        })
        s
  if address == 0 then exited else ok (s, bytes)

unfoldable pub load_x64_workers : ℕ → Loaded → List ℕ → Loading (Loaded × List ℕ)
load_x64_workers zero s bytes = ok (s, bytes)
load_x64_workers (suc n) s bytes = do
  (id, bytes) ← read64 bytes
  (offset, bytes) ← read64 bytes
  (size, bytes) ← read64 bytes
  (table_size, bytes) ← read64 bytes
  (affinity, bytes) ← read64 bytes
  s ←
      set_worker id
        (record {
          worker = x64_worker offset (add64 offset size);
          input_size = table_size;
          affinity = affinity;
        })
        s
  load_x64_workers n s bytes

unfoldable pub read_arrays : ℕ → List ℕ → Loading (List (ℕ × ℕ) × List ℕ)
read_arrays zero bytes = ok ([], bytes)
read_arrays (suc n) bytes = do
  (offset, bytes) ← read64 bytes
  (size, bytes) ← read64 bytes
  (arrays, bytes) ← read_arrays n bytes
  ok ((offset, size) ∷ arrays, bytes)

-- A negative `size`, whose block would begin before its header, comes to `overrun` where there are raw
-- bytes to copy.
unfoldable pub load_strings : Loaded → List ℕ → Loading (Loaded × List ℕ)
load_strings s bytes = do
  (size, bytes) ← read64 bytes
  (encoding, bytes) ← read8 bytes
  if encoding == 0
      then (do
        (rawsize, bytes) ← read64 bytes
        (raw, _) ← read_block rawsize (drop (size * 16) bytes)
        (arrays, bytes) ← read_arrays (rounds size) bytes
        (_, bytes) ← read_block rawsize bytes
        ok (record s { defined_arrays = some (record { raw = raw; arrays = arrays }) }, bytes))
      else refused
