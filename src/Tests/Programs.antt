-- ===== src/Tests/Programs.antt =====
-- A small program with a worker of each provider, written and loaded.
use hivelang.Prelude.{
  ℕ, ◌+◌, ◌^◌, ◌<◌, ◌%◌, ◌≤◌, ◌≡◌, ◌≢◌, refl, true, false, none, some, List, [], ◌∷◌, ◌++◌, length,
  get_elem?, All, arith, if◌then◌else◌, ◌==◌,
}
use hivelang.Program.Load.{
  Endpoint, mapped, Platform, DefinedArrays, Loaded, is_call, endpoint, load_strings,
  load_x64_workers,
}
use hivelang.Program.Load.Reads.{ok, out_of_fuel}
use hivelang.Program.Load.Stack.{DllInputTable, linux_stack_usage}
use hivelang.Program.Load.Stack.Bounds.{argument_bytes, linux_stack_usage_bounds}
use hivelang.Program.Loader.{load_counted, load_worker}
use hivelang.Program.Loader.Ends.{load_worker_ends}
use hivelang.Program.HeaderId.{action_push_object, gpu, get_header_id}
use hivelang.Program.Export.{
  X64Worker, GpuWorker, DllImport, Assembler, x64_assembler, gpu_assembler, dll_assembler, counted,
  write_calls, write_x64_worker, write_strings, strings_size, next_offset, string_table,
  string_bytes, gap, write_gpu_input, write_gpu_worker, write_dll_input, write_name, write_import,
  export_to_file, build_providers, write_entry_header, export_code,
}
use hivelang.Program.Install.{program_code, install_program}
use hivelang.Program.RoundTrip.Whole.{FitsAssembler, load_worker-export_code}
use hivelang.Program.Meaning.Strings.{array_bytes, load_strings-write_strings}
use hivelang.Program.Meaning.Calls.{
  runtime_function, endpoint-get_header_id, load_worker_unsupported,
}
use hivelang.Program.Meaning.Workers.{worker_info, load_x64_workers-write_x64_worker}
use hivelang.Program.SpreadMemory.{spread_memory}
use hivelang.Program.SpreadMemory.Spread.{IsSpread, spread_memory-IsSpread}
use hivelang.Program.ExportIds.{export_ids, x64_text, dll_text}
use hivelang.Program.ExportIds.Distinct.{export_ids-IsNumbering, IsNumbering}

abbrev system : Platform
system = record {
  windows = false;
  address = λ e. 4096;
  map_memory = λ n. mapped;
  symbol = λ library entry. 77;
  build_kernel = λ code start end. some 5;
}

abbrev nothing_loaded : Loaded
nothing_loaded = record { code = []; workers = λ k. none; defined_arrays = none; entry_id = none }

abbrev argument : DllInputTable
argument = record { provider = 0; size = 24; param = 0; type = 1 }

abbrev imported : DllImport
imported = record {
  export_id = 2;
  library = b'm' ∷ [];
  entry = b'f' ∷ (b'g' ∷ []);
  affinity = 3;
  output = 8;
  inputs = argument ∷ [];
}

abbrev kernel : GpuWorker
kernel = record {
  export_id = 1;
  start = 0;
  end = 2;
  table_size = 24;
  config = record { size = 4; type = 1 } ∷ [];
}

abbrev main_worker : X64Worker
main_worker = record { export_id = 0; position = 0; size = 9; table_size = 16; affinity = 4 }

abbrev strings : List (List ℕ)
strings = (b'a' ∷ (b'b' ∷ [])) ∷ ((b'c' ∷ []) ∷ [])

abbrev main_code : List ℕ
main_code = 1 ∷ (2 ∷ (3 ∷ (4 ∷ (5 ∷ (6 ∷ (7 ∷ (8 ∷ (9 ∷ []))))))))

abbrev main_assembler : ℕ → Assembler
main_assembler t = x64_assembler ((t, 1 ∷ []) ∷ []) (main_worker ∷ []) strings main_code

abbrev program : ℕ → List Assembler
program t =
    dll_assembler (imported ∷ [])
    ∷ (gpu_assembler (kernel ∷ []) (b'k' ∷ (b'n' ∷ (b'l' ∷ []))) ∷ (main_assembler t ∷ []))

program_file : ℕ → List ℕ
program_file t = elim (export_code (λ a. 0) (some 0) (program t)) [ some file ↦ file | none ↦ [] ]

program_file_lem : export_code (λ a. 0) (some 0) (program 1) ≡ some (program_file 1)
unfolding program_file export_code write_entry_header build_providers export_to_file
program_file_lem = refl

program-fits : (t : ℕ) → is_call t ≡ true → All FitsAssembler (program t)
unfolding strings_size next_offset
program-fits t call = (
  (omega arith, tt),
  (
    (omega arith, omega arith),
    ((((call, omega arith), tt), omega arith, omega arith, omega arith), tt),
  ),
)

length-program_file : length (program_file 1) < 2 ^ 64
unfolding program_file export_code write_entry_header build_providers export_to_file write_calls
    write_x64_worker write_strings strings_size next_offset string_table string_bytes gap
    write_gpu_worker write_gpu_input write_dll_input write_name write_import
length-program_file = omega arith

load_worker_ends_example : load_worker system nothing_loaded (program_file 1) ≢ out_of_fuel
load_worker_ends_example = load_worker_ends system nothing_loaded (program_file 1)

load_worker-export_code_example :
    load_worker system nothing_loaded (program_file 1)
    ≡ install_program system
        (λ a. 0)
        0
        (program 1)
        (record nothing_loaded { code = program_code (program 1); entry_id = some 0 })
load_worker-export_code_example =
    load_worker-export_code system (λ a. 0) 0 (program 1) nothing_loaded (program_file 1)
      program_file_lem (omega arith) (program-fits 1 (unfold is_call in refl)) length-program_file
      refl

-- A call of the function that writes to an object of a graphics card.
gpu_push_file_lem : export_code (λ a. 0) (some 0) (program 20) ≡ some (program_file 20)
unfolding program_file export_code write_entry_header build_providers export_to_file
gpu_push_file_lem = refl

length-gpu_push_file : length (program_file 20) < 2 ^ 64
unfolding program_file export_code write_entry_header build_providers export_to_file write_calls
    write_x64_worker write_strings strings_size next_offset string_table string_bytes gap
    write_gpu_worker write_gpu_input write_dll_input write_name write_import
length-gpu_push_file = omega arith

load_worker_unsupported_example :
    load_worker system nothing_loaded (program_file 20) ≢ ok nothing_loaded
load_worker_unsupported_example =
    load_worker_unsupported system (λ a. 0) 0 (program 20) nothing_loaded nothing_loaded
      (program_file 20) 2 0 20 1 [] ((20, 1 ∷ []) ∷ []) (main_worker ∷ []) strings main_code
      gpu_push_file_lem (omega arith) (program-fits 20 (unfold is_call in refl))
      length-gpu_push_file refl refl refl (unfold endpoint in refl)

endpoint-get_header_id_example :
    (endpoint (get_header_id action_push_object gpu) ≡ runtime_function action_push_object gpu)
    × ((e : Endpoint)
        → runtime_function action_push_object gpu ≡ some e
        → is_call (get_header_id action_push_object gpu) ≡ true)
endpoint-get_header_id_example = endpoint-get_header_id action_push_object gpu

load_strings-write_strings_example :
    (d : DefinedArrays) × (load_strings nothing_loaded (write_strings (λ a. 0) strings ++ (80 ∷ []))
      ≡ ok (record nothing_loaded { defined_arrays = some d }, 80 ∷ []))
    × ((i : ℕ) → array_bytes d i ≡ get_elem? strings i)
load_strings-write_strings_example =
    load_strings-write_strings (λ a. 0) strings nothing_loaded (80 ∷ [])
      (unfold strings_size next_offset in (omega arith, omega arith))

load_x64_workers-write_x64_worker_example :
    (s' : Loaded) × (load_counted load_x64_workers nothing_loaded
        (counted (write_x64_worker 3) (main_worker ∷ []) ++ (80 ∷ []))
      ≡ ok (s', 80 ∷ []))
    × All (λ (w : X64Worker). s'.workers w.export_id ≡ some (worker_info 3 w)) (main_worker ∷ [])
    × ((k : ℕ)
        → All (λ (w : X64Worker). w.export_id ≢ k) (main_worker ∷ [])
        → s'.workers k ≡ nothing_loaded.workers k)
load_x64_workers-write_x64_worker_example =
    load_x64_workers-write_x64_worker 3 (main_worker ∷ []) nothing_loaded (80 ∷ []) (omega arith)
      (omega arith) (omega arith, tt) (tt, tt)

linux_stack_usage_bounds_example :
    (linux_stack_usage (argument ∷ []) % 16 ≡ 0)
    × (linux_stack_usage (argument ∷ []) < argument_bytes (argument ∷ []) + 16)
    × (argument_bytes (argument ∷ []) ≤ linux_stack_usage (argument ∷ []) + 48)
linux_stack_usage_bounds_example = linux_stack_usage_bounds (argument ∷ []) (omega arith)

-- A variable of 4 bytes among others of 8.
abbrev variable_size : ℕ → ℕ
variable_size v = if v == 2 then 4 else 8

variable_size_pos : (v : ℕ) → 0 < variable_size v
variable_size_pos v = ground arith

spread_memory-IsSpread_example :
    (res : List (ℕ × ℕ)) × (top : ℕ) × (spread_memory variable_size (λ j. 0) (1 ∷ (2 ∷ (3 ∷ [])))
      ≡ some (res, top))
    × IsSpread variable_size variable_size_pos (1 ∷ (2 ∷ (3 ∷ []))) res top
spread_memory-IsSpread_example =
    spread_memory-IsSpread variable_size variable_size_pos (λ j. 0) (1 ∷ (2 ∷ (3 ∷ [])))

export_ids-IsNumbering_example :
    (length (export_ids [] ((7, x64_text) ∷ ((7, dll_text) ∷ ((7, x64_text) ∷ [])))) ≡ 3)
    × IsNumbering
        ((7, x64_text) ∷ ((7, dll_text) ∷ ((7, x64_text) ∷ [])))
        (export_ids [] ((7, x64_text) ∷ ((7, dll_text) ∷ ((7, x64_text) ∷ []))))
export_ids-IsNumbering_example =
    export_ids-IsNumbering ((7, x64_text) ∷ ((7, dll_text) ∷ ((7, x64_text) ∷ [])))
