-- ===== src/Program/ExportIds.antt =====
-- The numbers that workers have in the file of a program: `GetExportWorkerId` of codegen/utils.cpp.
pub mod Distinct
use hivelang.Prelude.{
  ℕ, zero, suc, ◌==◌, ◌&&◌, Bool, true, false, Option, none, some, List, [], ◌∷◌, length,
}

-- A worker's number in the compiler, and the text of a provider.
abbrev pub Key : Type 0
Key = ℕ × List ℕ

unfoldable pub same_text : List ℕ → List ℕ → Bool
same_text [] [] = true
same_text [] (y ∷ ys) = false
same_text (x ∷ xs) [] = false
same_text (x ∷ xs) (y ∷ ys) = (x == y) && same_text xs ys

abbrev pub same_key : Key → Key → Bool
same_key (a, p) (b, q) = (a == b) && same_text p q

-- `exportWorkerId`, the newest entry first.
abbrev pub ExportWorkerId : Type 0
ExportWorkerId = List (Key × ℕ)

unfoldable pub find : ExportWorkerId → Key → Option ℕ
find [] key = none
find ((k, id) ∷ table) key = elim (same_key k key) [ true ↦ some id | false ↦ find table key ]

-- The size on the right is read before the entry is made.
unfoldable pub get_export_worker_id : ExportWorkerId → Key → ℕ × ExportWorkerId
get_export_worker_id table key = elim (find table key) [
  | some id ↦ (id, table)
  | none ↦ (length table, (key, length table) ∷ table)
]

-- One request after another.
unfoldable pub export_ids : ExportWorkerId → List Key → List ℕ
export_ids table [] = []
export_ids table (key ∷ keys) =
    let (id, table') = get_export_worker_id table key in id ∷ export_ids table' keys

abbrev pub x64_text : List ℕ
x64_text = b'x' ∷ (b'6' ∷ (b'4' ∷ []))

abbrev pub dll_text : List ℕ
dll_text = b'd' ∷ (b'l' ∷ (b'l' ∷ []))
