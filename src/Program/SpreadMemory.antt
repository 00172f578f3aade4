-- ===== src/Program/SpreadMemory.antt =====
-- The places of a worker's variables in memory: codegen/memoryAllocator.cpp.
pub mod Places
pub mod Spread
use hivelang.Prelude.{
  ℕ, zero, suc, ◌+◌, ◌-◌, ◌*◌, ◌%◌, ◌==◌, ◌&&◌, ltb, leb, Bool, true, false, if◌then◌else◌, Option,
  none, some, ◌>>=◌, List, [], ◌∷◌, ◌++◌, length, get_elem?, set,
}

-- A cell of `used` has the variables that were put there.
abbrev pub is_busy : Option (List ℕ) → Bool
is_busy (some (x ∷ xs)) = true
is_busy (some []) = false
is_busy none = false

abbrev pub busy : List (List ℕ) → ℕ → Bool
busy used k = is_busy (get_elem? used k)

-- `used.resize(i + 1)` where `i` is past the end; the loop comes there one cell at a time.
abbrev pub with_cell : List (List ℕ) → ℕ → List (List ℕ)
with_cell used i = if ltb i (length used) then used else used ++ ([] ∷ [])

-- The loop of `Allocate`, on `i` and the cell after `lastBad`: where the variable is put, and `used`
-- before it is. `none` is a division by 0, or fuel that ran out.
unfoldable pub allocate_loop : ℕ → List (List ℕ) → ℕ → ℕ → ℕ → Option (ℕ × List (List ℕ))
allocate_loop zero used i free var_size = none
allocate_loop (suc fuel) used i free var_size =
    let used' = with_cell used i in
    let free' = if busy used' i then i + 1 else free in
    elim (leb var_size (i + 1 - free')) [
      | true ↦ elim (var_size == 0) [
        | true ↦ none
        | false ↦ elim ((i + 1 - var_size) % var_size == 0) [
          | true ↦ some (i + 1 - var_size, used')
          | false ↦ allocate_loop fuel used' (i + 1) free' var_size
        ]
      ]
      | false ↦ allocate_loop fuel used' (i + 1) free' var_size
    ]

-- `used[j].insert(var)`.
abbrev pub insert_at : List (List ℕ) → ℕ → ℕ → List (List ℕ)
insert_at used j var = elim (get_elem? used j) [ some cell ↦ set used j (var ∷ cell) | none ↦ used ]

-- `var` in so many cells from `start` on.
unfoldable pub fill : List (List ℕ) → ℕ → ℕ → ℕ → List (List ℕ)
fill used start zero var = used
fill used start (suc n) var = fill (insert_at used start var) (start + 1) n var

-- The exchange of two places, and the round of exchanges with what `rand` draws.
unfoldable pub shuffle : (ℕ → ℕ) → ℕ → ℕ → List ℕ → List ℕ
shuffle draws j zero order = order
shuffle draws j (suc n) order =
    let k = draws j % (j + 1) in
    let swapped : List ℕ = elim (get_elem? order k) [
      | none ↦ order
      | some a ↦ elim (get_elem? order j) [ none ↦ order | some b ↦ set (set order k b) j a ]
    ] in
    shuffle draws (j + 1) n swapped

module _ (size : ℕ → ℕ) where
  -- A place is found at a multiple of the size that is not below the cells in use, if not before.
  unfoldable pub allocate : List (List ℕ) → ℕ → Option (ℕ × List (List ℕ))
  allocate used var = do
    (start, used') ← allocate_loop (length used * size var + size var) used 0 0 (size var)
    some (start, fill used' start (size var) var)

  -- `getMemoryMap`, with what `getMemory` measures.
  unfoldable pub memory_map : List (List ℕ) → List ℕ → Option (List (ℕ × ℕ) × List (List ℕ))
  memory_map used [] = some ([], used)
  memory_map used (var ∷ order) = do
    (start, used') ← allocate used var
    (res, used'') ← memory_map used' order
    some ((var, start) ∷ res, used'')

  unfoldable pub get_memory : List ℕ → Option ℕ
  get_memory order = do (res, used) ← memory_map [] order; some (length used)

  -- `spreadMemory` of the variables in their order: the places, and the cells that they take.
  unfoldable pub spread_memory : (ℕ → ℕ) → List ℕ → Option (List (ℕ × ℕ) × ℕ)
  spread_memory draws order = do
    used_mem ← get_memory order
    let shuffled = shuffle draws 1 (length order - 1) order
    new_mem ← get_memory shuffled
    let better = ltb new_mem used_mem
    (res, used) ← memory_map [] (if better then shuffled else order)
    some (res, if better then new_mem else used_mem)
