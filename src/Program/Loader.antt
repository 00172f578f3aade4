-- ===== src/Program/Loader.antt =====
-- `LoadWorker` of runtimes/0.3/common/runtime.c: the loop over the headers, and the whole.
pub mod Ends
use hivelang.Prelude.{
  ℕ, zero, suc, ◌-◌, ◌/◌, ◌==◌, ltb, Bool, true, false, if◌then◌else◌, Option, none, some, List, [],
  ◌∷◌, length, drop,
}
use hivelang.Word.{sub64}
use hivelang.Program.Load.{
  Mapping, mapped, null_pointer, map_failed, Platform, GpuInputTable, gpu_worker, Loaded,
  set_worker, is_call, load_calls, load_dll, load_x64_workers, load_strings,
}
use hivelang.Program.Load.Reads.{
  Loading, ok, refused, exited, overrun, out_of_fuel, ◌>>=◌, read8, read64, rounds,
}

unfoldable pub read_gpu_inputs : ℕ → List ℕ → Loading (List GpuInputTable × List ℕ)
read_gpu_inputs zero bytes = ok ([], bytes)
read_gpu_inputs (suc n) bytes = do
  (size, bytes) ← read64 bytes
  (type, bytes) ← read8 bytes
  (inputs, bytes) ← read_gpu_inputs n bytes
  ok (record { size = size; type = type } ∷ inputs, bytes)

-- The byte after the text is zero while the text is shown, so it is one of the memory.
unfoldable pub build_gpu_worker : Platform → List ℕ → ℕ → ℕ → Loading ℕ
build_gpu_worker p code start end =
    if ltb end (length code)
    then elim (p.build_kernel code start end) [ some kernel ↦ ok kernel | none ↦ exited ]
    else overrun

-- The affinity of these workers is -1.
unfoldable pub load_gpu_workers : Platform → ℕ → Loaded → List ℕ → Loading (Loaded × List ℕ)
load_gpu_workers p zero s bytes = ok (s, bytes)
load_gpu_workers p (suc n) s bytes = do
  (id, bytes) ← read64 bytes
  (start, bytes) ← read64 bytes
  (end, bytes) ← read64 bytes
  (table_size, bytes) ← read64 bytes
  (input_map_length, bytes) ← read64 bytes
  (input_map, bytes) ← read_gpu_inputs (rounds input_map_length) bytes
  kernel ← build_gpu_worker p s.code start end
  s ←
      set_worker id
        (record {
          worker = gpu_worker start end kernel input_map_length input_map;
          input_size = table_size;
          affinity = 18_446_744_073_709_551_615;
        })
        s
  load_gpu_workers p n s bytes

unfoldable pub load_entry : Loaded → List ℕ → Loading (Loaded × List ℕ)
load_entry s bytes = do
  (entry_id, bytes) ← read64 bytes
  ok (record s { entry_id = some entry_id }, bytes)

unfoldable pub load_counted :
    (ℕ → Loaded → List ℕ → Loading (Loaded × List ℕ)) → Loaded → List ℕ → Loading (Loaded × List ℕ)
load_counted load s bytes = do (count, bytes) ← read64 bytes; load (rounds count) s bytes

-- The outer `switch`. A type that it does not know is only logged.
unfoldable pub load_header : Platform → ℕ → Loaded → List ℕ → Loading (Loaded × List ℕ)
load_header p type s bytes =
    if is_call type
    then load_calls p type s bytes
    else if type == 4
    then load_dll p s bytes
    else if type == 16
    then load_counted load_x64_workers s bytes
    else if type == 17
    then load_strings s bytes
    else if type == 18
    then load_counted (load_gpu_workers p) s bytes
    else if type == 80
    then load_entry s bytes
    else ok (s, bytes)

-- `while (pos < codePosition + file)`: there is a header while more is left of the file than the
-- code. Each round reads a byte at least.
unfoldable pub load_headers : Platform → ℕ → ℕ → Loaded → List ℕ → Loading Loaded
load_headers p zero code_length s bytes = out_of_fuel
load_headers p (suc fuel) code_length s bytes = elim (ltb code_length (length bytes)) [
  | true ↦ do
    (type, bytes) ← read8 bytes
    (s, bytes) ← load_header p type s bytes
    load_headers p fuel code_length s bytes
  | false ↦ ok s
]

unfoldable pub match_prefix : List ℕ → List ℕ → Loading (List ℕ)
match_prefix [] file = ok file
match_prefix (c ∷ cs) [] = overrun
match_prefix (c ∷ cs) (b ∷ file) = if b == c then match_prefix cs file else refused

-- `memcpy` to the new memory, which a failed `mmap` of Linux has at the address -1.
unfoldable pub copy_code : Platform → ℕ → List ℕ → Loading (List ℕ)
copy_code p code_position file = elim (p.map_memory (sub64 (length file) code_position)) [
  | mapped ↦ if ltb (length file) code_position then overrun else ok (drop code_position file)
  | null_pointer ↦ refused
  | map_failed ↦ overrun
]

-- The state is what the globals are before; its code is not read.
unfoldable pub load_worker : Platform → Loaded → List ℕ → Loading Loaded
load_worker p s file = do
  rest ← match_prefix (b'H' ∷ b'I' ∷ b'V' ∷ b'E' ∷ []) file
  (version, rest) ← read64 rest
  if version / 1000 == 0
      then (do
        (code_position, rest) ← read64 rest
        code ← copy_code p code_position file
        load_headers p (suc (length rest)) (length code) (record s { code = code }) rest)
      else refused
