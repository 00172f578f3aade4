-- ===== src/Program/Export.antt =====
-- The writer of programs: `ExportCode` of main/export.cpp, and `ExportToFile` of
-- codegen/x64_win/export.cpp, codegen/dll_win/codegen.cpp and codegen/gpu_win/codegen.cpp.
use hivelang.Prelude.{
  ℕ, zero, suc, ◌+◌, ◌-◌, ◌%◌, Option, none, some, List, [], ◌∷◌, ◌++◌, length, take, drop,
}
use hivelang.Word.{add64}
use hivelang.Remote.Send.{int64_bytes}
use hivelang.Program.Load.{GpuInputTable}
use hivelang.Program.Load.Stack.{DllInputTable}

-- What an assembler has of a worker when it writes: the number that `GetExportWorkerId` gives it and
-- its place in the assembler's own code.
pub record X64Worker : Type 0 where
  pub export_id : ℕ
  pub position : ℕ
  pub size : ℕ
  pub table_size : ℕ
  pub affinity : ℕ

pub record GpuWorker : Type 0 where
  pub export_id : ℕ
  pub start : ℕ
  pub end : ℕ
  pub table_size : ℕ
  pub config : List GpuInputTable

pub record DllImport : Type 0 where
  pub export_id : ℕ
  pub library : List ℕ
  pub entry : List ℕ
  pub affinity : ℕ
  pub output : ℕ
  pub inputs : List DllInputTable

-- The assemblers of a program, with what they have built: `runtimeApiHeader` (a header's id and the
-- positions of its calls), the workers, the strings and the code.
pub data Assembler : Type 0 where
  x64_assembler :
      (runtime_api_header : List (ℕ × List ℕ)) (workers : List X64Worker) (strings : List (List ℕ))
      (assembly_code : List ℕ)
      → Assembler
  gpu_assembler : (workers : List GpuWorker) (assembly_code : List ℕ) → Assembler
  dll_assembler : (imports : List DllImport) → Assembler
  unknown_provider : Assembler

abbrev pub concat_map {ℓ} : {A : Type ℓ} → (A → List ℕ) → List A → List ℕ
concat_map f [] = []
concat_map f (x ∷ xs) = f x ++ concat_map f xs

-- The number of elements, and the elements.
abbrev pub counted {ℓ} : {A : Type ℓ} → (A → List ℕ) → List A → List ℕ
counted f xs = int64_bytes (length xs) ++ concat_map f xs

unfoldable pub write_calls : ℕ → ℕ × List ℕ → List ℕ
write_calls body_offset (id, positions) =
    id ∷ counted (λ position. int64_bytes (add64 position body_offset)) positions

unfoldable pub write_x64_worker : ℕ → X64Worker → List ℕ
write_x64_worker body_offset w =
    int64_bytes w.export_id
    ++ (int64_bytes (add64 w.position body_offset)
        ++ (int64_bytes w.size ++ (int64_bytes w.table_size ++ int64_bytes w.affinity)))

-- Where the next string starts: after this one, at a multiple of 8.
unfoldable pub next_offset : ℕ → List ℕ → ℕ
next_offset offset k = offset + length k + (8 - (offset + length k) % 8) % 8

unfoldable pub strings_size : ℕ → List (List ℕ) → ℕ
strings_size offset [] = offset
strings_size offset (k ∷ ks) = strings_size (next_offset offset k) ks

unfoldable pub string_table : ℕ → List (List ℕ) → List ℕ
string_table offset [] = []
string_table offset (k ∷ ks) =
    int64_bytes offset ++ (int64_bytes (length k) ++ string_table (next_offset offset k) ks)

-- The `n` bytes from offset `a` that are passed over: what the memory of the header held there.
unfoldable pub gap : (ℕ → ℕ) → ℕ → ℕ → List ℕ
gap unwritten a zero = []
gap unwritten a (suc n) = unwritten a ∷ gap unwritten (a + 1) n

unfoldable pub string_bytes : (ℕ → ℕ) → ℕ → List (List ℕ) → List ℕ
string_bytes unwritten offset [] = []
string_bytes unwritten offset (k ∷ ks) =
    let end = offset + length k in
    k ++ (gap unwritten end ((8 - end % 8) % 8) ++ string_bytes unwritten (next_offset offset k) ks)

unfoldable pub write_strings : (ℕ → ℕ) → List (List ℕ) → List ℕ
write_strings unwritten strings =
    int64_bytes (length strings)
    ++ (0
        ∷ (int64_bytes (strings_size 0 strings)
            ++ (string_table 0 strings ++ string_bytes unwritten 0 strings)))

unfoldable pub write_gpu_input : GpuInputTable → List ℕ
write_gpu_input i = int64_bytes i.size ++ (i.type ∷ [])

unfoldable pub write_gpu_worker : ℕ → GpuWorker → List ℕ
write_gpu_worker body_offset w =
    int64_bytes w.export_id
    ++ (int64_bytes (add64 w.start body_offset)
        ++ (int64_bytes (add64 w.end body_offset)
            ++ (int64_bytes w.table_size ++ counted write_gpu_input w.config)))

unfoldable pub write_dll_input : DllInputTable → List ℕ
write_dll_input i = i.type ∷ (int64_bytes i.provider ++ (int64_bytes i.size ++ int64_bytes i.param))

unfoldable pub write_name : List ℕ → List ℕ
write_name name = int64_bytes (length name) ++ name

-- After the id 4 of the header.
unfoldable pub write_import : DllImport → List ℕ
write_import d =
    int64_bytes d.export_id
    ++ (write_name d.library
        ++ (write_name d.entry
            ++ (int64_bytes d.affinity
                ++ (int64_bytes d.output ++ counted write_dll_input d.inputs))))

-- What the assembler adds to the header and to the body, which has `body_offset` bytes already.
unfoldable pub export_to_file : (ℕ → ℕ) → ℕ → Assembler → Option (List ℕ × List ℕ)
export_to_file unwritten body_offset (x64_assembler calls workers strings assembly_code) = some (
  concat_map (write_calls body_offset) calls
      ++ ((16 ∷ counted (write_x64_worker body_offset) workers)
          ++ (17 ∷ write_strings unwritten strings)),
  assembly_code,
)
export_to_file unwritten body_offset (gpu_assembler workers assembly_code) =
    some (18 ∷ counted (write_gpu_worker body_offset) workers, assembly_code)
export_to_file unwritten body_offset (dll_assembler imports) =
    some (concat_map (λ d. 4 ∷ write_import d) imports, [])
export_to_file unwritten body_offset unknown_provider = none

unfoldable pub build_providers :
    (ℕ → ℕ) → List Assembler → List ℕ → List ℕ → Option (List ℕ × List ℕ)
build_providers unwritten [] header body = some (header, body)
build_providers unwritten (a ∷ others) header body =
    elim (export_to_file unwritten (length body) a) [
      | some (more_header, more_body) ↦
          build_providers unwritten others (header ++ more_header) (body ++ more_body)
      | none ↦ none
    ]

-- Without an entry worker the header's id is written all the same.
unfoldable pub write_entry_header : Option ℕ → List ℕ
write_entry_header (some entry_id) = 80 ∷ int64_bytes entry_id
write_entry_header none = 80 ∷ []

-- The bytes of `res.bin`, or `none` if a provider is unknown. The size of the header is written
-- last, over 0xBE.
unfoldable pub export_code : (ℕ → ℕ) → Option ℕ → List Assembler → Option (List ℕ)
export_code unwritten entry used_providers =
    let prefix : List ℕ =
      b'H' ∷ (b'I' ∷ (b'V' ∷ (b'E' ∷ (int64_bytes 3 ++ int64_bytes 13_744_632_839_234_567_870)))) in
    elim (build_providers unwritten used_providers (prefix ++ write_entry_header entry) []) [
      | some (header, body) ↦
          some (take 12 header ++ (int64_bytes (length header) ++ (drop 20 header ++ body)))
      | none ↦ none
    ]
