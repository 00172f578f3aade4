-- ===== src/Program/Install.antt =====
-- What a program means to the runtime: its tables entered one after the other, with no file.
use hivelang.Prelude.{ℕ, ◌+◌, ◌==◌, ltb, ◌&&◌, if◌then◌else◌, some, List, [], ◌∷◌, ◌++◌, length}
use hivelang.Word.{add64}
use hivelang.Program.Load.{
  Platform, x64_worker, gpu_worker, dll_worker, Loaded, set_worker, patch_call, total_size,
  stack_usage,
}
use hivelang.Program.Load.Reads.{Loading, ok, exited, overrun, ◌>>=◌}
use hivelang.Program.Loader.{build_gpu_worker}
use hivelang.Program.Export.{
  X64Worker, GpuWorker, DllImport, Assembler, x64_assembler, gpu_assembler, dll_assembler,
  unknown_provider, next_offset, string_bytes,
}

abbrev pub install_each {ℓ} :
    {A : Type ℓ} → (A → Loaded → Loading Loaded) → List A → Loaded → Loading Loaded
install_each f [] s = ok s
install_each f (x ∷ xs) s = f x s >>= install_each f xs

abbrev pub install_call : Platform → ℕ → ℕ → ℕ → Loaded → Loading Loaded
install_call p offset t position s = do
  code ← patch_call p t s.code (add64 position offset)
  ok (record s { code = code })

abbrev pub install_calls : Platform → ℕ → ℕ × List ℕ → Loaded → Loading Loaded
install_calls p offset (t, positions) = install_each (install_call p offset t) positions

abbrev pub install_x64_worker : ℕ → X64Worker → Loaded → Loading Loaded
install_x64_worker offset w =
    let start = add64 w.position offset in
    set_worker w.export_id (record {
      worker = x64_worker start (add64 start w.size);
      input_size = w.table_size;
      affinity = w.affinity;
    })

abbrev pub install_gpu_worker : Platform → ℕ → GpuWorker → Loaded → Loading Loaded
install_gpu_worker p offset w s = do
  let start = add64 w.start offset
  let end = add64 w.end offset
  kernel ← build_gpu_worker p s.code start end
  set_worker w.export_id
      (record {
        worker = gpu_worker start end kernel (length w.config) w.config;
        input_size = w.table_size;
        affinity = 18_446_744_073_709_551_615;
      })
      s

-- The loader has 256 bytes for each name, a final zero included.
abbrev pub install_import : Platform → DllImport → Loaded → Loading Loaded
install_import p d s =
    let address = p.symbol d.library d.entry in
    let usage = stack_usage p (length d.inputs) d.inputs in
    let entered =
      set_worker d.export_id
        (record {
          worker = dll_worker address d.entry usage d.output (length d.inputs) d.inputs;
          input_size = total_size 8 d.inputs;
          affinity = d.affinity;
        })
        s in
    if ltb (length d.library) 256 && ltb (length d.entry) 256
    then (entered >>= λ s'. if address == 0 then exited else ok s')
    else overrun

abbrev pub offsets : ℕ → List (List ℕ) → List (ℕ × ℕ)
offsets offset [] = []
offsets offset (k ∷ ks) = (offset, length k) ∷ offsets (next_offset offset k) ks

abbrev pub install_strings : (ℕ → ℕ) → List (List ℕ) → Loaded → Loading Loaded
install_strings unwritten strings s = ok (record s {
  defined_arrays =
      some (record { raw = string_bytes unwritten 0 strings; arrays = offsets 0 strings });
})

abbrev pub install_assembler : Platform → (ℕ → ℕ) → ℕ → Assembler → Loaded → Loading Loaded
install_assembler p unwritten offset (x64_assembler calls workers strings code) s = do
  s ← install_each (install_calls p offset) calls s
  s ← install_each (install_x64_worker offset) workers s
  install_strings unwritten strings s
install_assembler p unwritten offset (gpu_assembler workers code) s =
    install_each (install_gpu_worker p offset) workers s
install_assembler p unwritten offset (dll_assembler imports) s =
    install_each (install_import p) imports s
install_assembler p unwritten offset unknown_provider s = ok s

abbrev pub code_of : Assembler → List ℕ
code_of (x64_assembler calls workers strings code) = code
code_of (gpu_assembler workers code) = code
code_of (dll_assembler imports) = []
code_of unknown_provider = []

abbrev pub program_code : List Assembler → List ℕ
program_code [] = []
program_code (a ∷ others) = code_of a ++ program_code others

-- `offset` bytes of code come before.
abbrev pub install_program : Platform → (ℕ → ℕ) → ℕ → List Assembler → Loaded → Loading Loaded
install_program p unwritten offset [] s = ok s
install_program p unwritten offset (a ∷ others) s =
    install_assembler p unwritten offset a s
    >>= install_program p unwritten (offset + length (code_of a)) others
