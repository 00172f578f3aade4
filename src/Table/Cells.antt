-- ===== src/Table/Cells.antt =====
-- The cells of a table and the probing loop that every operation of api.c runs.
pub mod Probe
use hivelang.Prelude.{
  ℕ, zero, suc, ◌+◌, ◌==◌, Bool, true, false, if◌then◌else◌, List, Option, none, some, get_elem?,
}

-- STATE_FREE, STATE_BUSY, STATE_READY
pub data CellState : Type 0 where
  free busy ready : CellState

-- `struct i64hashtable_node` and `struct hashtable_node`: a key pointer is read as the key that it
-- points to, which is never written again.
pub record Cell {ℓ} (K : Type ℓ) : Type ℓ where
  pub key : K
  pub value : ℕ
  pub state : CellState

-- `hash = (hash + 1 == alloc ? 0 : hash + 1)`
unfoldable pub next_index : ℕ → ℕ → ℕ
next_index alloc i = if i + 1 == alloc then 0 else i + 1

-- `while (1)`: from cell `i` on, to the first cell at which the loop's body returns or breaks.
-- The loop writes nothing before that, so rounds beyond `alloc` see the same cells again.
unfoldable pub scan {ℓ} : {K : Type ℓ} → ℕ → ℕ → (Cell K → Bool) → List (Cell K) → ℕ → Option ℕ
scan zero alloc stop cells i = none
scan (suc rounds) alloc stop cells i = elim (get_elem? cells i) [
  | none ↦ none
  | some c ↦ elim (stop c) [
    | true ↦ some i
    | false ↦ scan rounds alloc stop cells (next_index alloc i)
  ]
]
