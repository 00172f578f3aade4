-- ===== src/Program/RoundTrip/Whole.antt =====
-- The file of `ExportCode`, read by `LoadWorker`.
use hivelang.Prelude.{
  ℕ, ◌+◌, ◌^◌, ◌<◌, ◌≡◌, refl, ap, ap₂, sym, ◌∙◌, Option, none, some, List, [], ◌∷◌, ◌++◌,
  append_assoc, append-nil, length, take, drop, All, All-imp, arith, length-append, some-inj,
  le→ltb, Option-cases, ◌⊎◌, inl, inr,
}
use hivelang.Word.{sub64}
use hivelang.Remote.Send.{int64_bytes}
use hivelang.Remote.Delivery.{drop_eq}
use hivelang.Program.Load.{Platform, mapped, Loaded}
use hivelang.Program.Load.Reads.{Loading, ok, refused, exited, overrun, out_of_fuel, ◌>>=◌}
use hivelang.Program.Loader.{match_prefix, copy_code, load_worker}
use hivelang.Program.Loader.Ends.{load_headers-stop}
use hivelang.Program.Export.{
  Assembler, x64_assembler, gpu_assembler, dll_assembler, unknown_provider, concat_map, counted,
  write_calls, write_x64_worker, write_strings, write_import, export_to_file, build_providers,
  write_entry_header, export_code,
}
use hivelang.Program.Install.{
  install_calls, install_import, install_strings, install_assembler, code_of, program_code,
  install_program,
}
use hivelang.Program.RoundTrip.Fields.{field}
use hivelang.Program.RoundTrip.Headers.{
  >>=-congr, headers, Loads, append-Loads, none-Loads, each-Loads,
}
use hivelang.Program.RoundTrip.Workers.{
  FitsCalls, FitsX64Worker, FitsGpuWorker, calls-Loads, x64_workers-Loads, gpu_workers-Loads,
  entry-Loads,
}
use hivelang.Program.RoundTrip.Tables.{FitsImport, FitsStrings, import-Loads, strings-Loads}

abbrev pub FitsAssembler : Assembler → Type 0
FitsAssembler (x64_assembler calls workers strings code) =
    All FitsCalls calls × length workers < 2 ^ 63 × All FitsX64Worker workers × FitsStrings strings
FitsAssembler (gpu_assembler workers code) = length workers < 2 ^ 63 × All FitsGpuWorker workers
FitsAssembler (dll_assembler imports) = All FitsImport imports
FitsAssembler unknown_provider = Unit

-- What the assemblers add to the header after `offset` bytes of code, and whether all are known.
abbrev pub headers_of : (ℕ → ℕ) → ℕ → Assembler → List ℕ
headers_of u offset a = elim (export_to_file u offset a) [
  | some (header, body) ↦ header
  | none ↦ []
]

abbrev pub program_headers : (ℕ → ℕ) → ℕ → List Assembler → List ℕ
program_headers u offset [] = []
program_headers u offset (a ∷ others) =
    headers_of u offset a ++ program_headers u (offset + length (code_of a)) others

assembler-Loads :
    (p : Platform) (u : ℕ → ℕ) (offset : ℕ) (a : Assembler)
    → FitsAssembler a
    → Loads p (headers_of u offset a) (install_assembler p u offset a)
unfolding export_to_file
assembler-Loads p u offset (x64_assembler calls workers strings code) (h1, h2, h3, h4) =
    append-Loads p (concat_map (write_calls offset) calls) _ _ _
      (each-Loads p (write_calls offset) (install_calls p offset) calls
        (All-imp FitsCalls calls (λ c. calls-Loads p offset c) h1))
      (append-Loads p (16 ∷ counted (write_x64_worker offset) workers)
        (17 ∷ write_strings u strings) _ (install_strings u strings)
        (x64_workers-Loads p offset workers h2 h3) (strings-Loads p u strings h4))
assembler-Loads p u offset (gpu_assembler workers code) (h1, h2) =
    gpu_workers-Loads p offset workers h1 h2
assembler-Loads p u offset (dll_assembler imports) h =
    each-Loads p (λ d. 4 ∷ write_import d) (install_import p) imports
      (All-imp FitsImport imports (λ d. import-Loads p d) h)
assembler-Loads p u offset unknown_provider h = none-Loads p

program-Loads :
    (p : Platform) (u : ℕ → ℕ) (offset : ℕ) (assemblers : List Assembler)
    → All FitsAssembler assemblers
    → Loads p (program_headers u offset assemblers) (install_program p u offset assemblers)
program-Loads p u offset [] h = none-Loads p
program-Loads p u offset (a ∷ others) (one, more) =
    append-Loads p (headers_of u offset a) _ (install_assembler p u offset a) _
      (assembler-Loads p u offset a one)
      (program-Loads p u (offset + length (code_of a)) others more)

built_cases :
    (u : ℕ → ℕ) (offset : ℕ) (a : Assembler)
    → (export_to_file u offset a ≡ none)
      ⊎ (export_to_file u offset a ≡ some (headers_of u offset a, code_of a))
unfolding export_to_file
built_cases u offset (x64_assembler calls workers strings code) = inr refl
built_cases u offset (gpu_assembler workers code) = inr refl
built_cases u offset (dll_assembler imports) = inr refl
built_cases u offset unknown_provider = inl refl

build_providers-some :
    (u : ℕ → ℕ) (assemblers : List Assembler) (header body header' body' : List ℕ)
    → build_providers u assemblers header body ≡ some (header', body')
    → (header' ≡ header ++ program_headers u (length body) assemblers)
      × (body' ≡ body ++ program_code assemblers)
unfolding build_providers
build_providers-some u [] header body header' body' e =
    let same = some-inj e in
    (
      sym (ap (λ (r : List ℕ × List ℕ). r.0) same) ∙ sym (append-nil header),
      sym (ap (λ (r : List ℕ × List ℕ). r.1) same) ∙ sym (append-nil body),
    )
build_providers-some u (a ∷ others) header body header' body' e =
    elim (built_cases u (length body) a) [
      | inl fails ↦
          let wrong : ◌≡◌ {A = Option (List ℕ × List ℕ)} none (some (header', body')) =
            rw (build_providers, fails) at e in
          absurd (cc)
      | inr built ↦
          let rest : build_providers u others (header ++ headers_of u (length body) a)
                (body ++ code_of a)
              ≡ some (header', body') =
            rw (build_providers, built) at e in
          let ih =
            build_providers-some u others (header ++ headers_of u (length body) a)
              (body ++ code_of a) header' body' rest in
          (
            ih.0
                ∙ rw (length-append body (code_of a))
                    (append_assoc header (headers_of u (length body) a) _),
            ih.1 ∙ append_assoc body (code_of a) (program_code others),
          )
    ]

-- The bytes of a program's file before its code, the size of the header among them.
abbrev file_headers : (ℕ → ℕ) → ℕ → List Assembler → List ℕ
file_headers u entry_id assemblers = 80 ∷ (int64_bytes entry_id ++ program_headers u 0 assemblers)

abbrev file_start : ℕ → List ℕ
file_start n = b'H' ∷ (b'I' ∷ (b'V' ∷ (b'E' ∷ (int64_bytes 3 ++ int64_bytes n))))

-- The size of the header over its place.
abbrev finish : List ℕ → List ℕ → List ℕ
finish header body = take 12 header ++ (int64_bytes (length header) ++ (drop 20 header ++ body))

export_code-some :
    (u : ℕ → ℕ) (entry_id : ℕ) (assemblers : List Assembler) (file : List ℕ)
    → export_code u (some entry_id) assemblers ≡ some file
    → file
      ≡ file_start (20 + length (file_headers u entry_id assemblers))
        ++ (file_headers u entry_id assemblers ++ program_code assemblers)
unfolding export_code write_entry_header
export_code-some u entry_id assemblers file e =
    elim (Option-cases (
      build_providers u assemblers
        (file_start 13_744_632_839_234_567_870 ++ (80 ∷ int64_bytes entry_id)) [])) [
          | inl fails ↦
              let wrong : ◌≡◌ {A = Option (List ℕ)} none (some file) =
                rw (export_code, fails) at e in
              absurd (cc)
          | inr ((header, body), built) ↦
              let parts = build_providers-some u assemblers _ [] header body built in
              let written : some (finish header body) ≡ some file = rw (export_code, built) at e in
              sym (some-inj written)
              ∙ ap₂ finish parts.0 parts.1
              ∙ ap
                  (λ n.
                    file_start n ++ (file_headers u entry_id assemblers ++ program_code assemblers))
                  (omega arith)
        ]

>>=_ok : (r : Loading Loaded) → (r >>= ok) ≡ r
>>=_ok (ok s) = refl
>>=_ok refused = refl
>>=_ok exited = refl
>>=_ok overrun = refl
>>=_ok out_of_fuel = refl

copy_code_lem :
    (p : Platform) (n : ℕ) (start code : List ℕ)
    → length start ≡ n
    → n + length code < 2 ^ 64
    → p.map_memory (length code) ≡ mapped
    → copy_code p n (start ++ code) ≡ ok code
unfolding copy_code
copy_code_lem p n start code size less map =
    let total : length (start ++ code) ≡ n + length code = length-append start code ∙ omega arith in
    let asked : sub64 (length (start ++ code)) n ≡ length code = omega arith in
    rw (copy_code, asked, map)
      (rw (le→ltb (length (start ++ code)) n (omega arith), drop_eq n start code size) refl)

load_file :
    (p : Platform) (s : Loaded) (n : ℕ) (blocks code : List ℕ)
    → n ≡ 20 + length blocks
    → n + length code < 2 ^ 64
    → p.map_memory (length code) ≡ mapped
    → load_worker p s (file_start n ++ (blocks ++ code))
      ≡ headers p (length code) (record s { code = code }) (blocks ++ code)
unfolding load_worker match_prefix
load_file p s n blocks code size less map =
    let copied : copy_code p n (file_start n ++ (blocks ++ code)) ≡ ok code =
      copy_code_lem p n (file_start n ++ blocks) code (omega arith) less map in
    field 3 _ _ (omega arith) ∙ field n (blocks ++ code) _ (omega arith) ∙ rw (copied) refl

-- `LoadWorker`, on the file that `ExportCode` writes of a program with an entry worker and known
-- providers, does what entering the program's tables one after the other does: it ends with the same
-- code, calls and workers and strings, or in the same error. The numbers of the program must have 64
-- bits, its lists fewer than 2 ^ 63 elements, the ids of its headers of calls be such, the file be
-- shorter than 2 ^ 64 bytes, and the memory of the code be there.
pub load_worker-export_code :
    (p : Platform) (unwritten : ℕ → ℕ) (entry_id : ℕ) (assemblers : List Assembler) (s : Loaded)
    (file : List ℕ)
    → export_code unwritten (some entry_id) assemblers ≡ some file
    → entry_id < 2 ^ 64
    → All FitsAssembler assemblers
    → length file < 2 ^ 64
    → p.map_memory (length (program_code assemblers)) ≡ mapped
    → load_worker p s file
      ≡ install_program p unwritten 0 assemblers
          (record s { code = program_code assemblers; entry_id = some entry_id })
load_worker-export_code p u entry_id assemblers s file e h1 h2 h3 map =
    let blocks : List ℕ = file_headers u entry_id assemblers in
    let code : List ℕ = program_code assemblers in
    let written = export_code-some u entry_id assemblers file e in
    let size : length file ≡ 20 + length blocks + length code =
      ap length written ∙ omega (arith, length-append blocks code) in
    let loads =
      append-Loads p (80 ∷ int64_bytes entry_id) (program_headers u 0 assemblers)
        (λ s'. ok (record s' { entry_id = some entry_id })) (install_program p u 0 assemblers)
        (entry-Loads p entry_id h1) (program-Loads p u 0 assemblers h2) in
    ap (load_worker p s) written
    ∙ load_file p s (20 + length blocks) blocks code refl (omega arith) map
    ∙ loads (length code) (record s { code = code }) code (omega arith)
    ∙ >>=-congr (install_program p u 0 assemblers _) _ ok
        (λ s'. load_headers-stop p (length code) (length code) s' code (omega arith))
    ∙ >>=_ok (install_program p u 0 assemblers _)
