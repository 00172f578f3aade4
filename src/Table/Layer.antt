-- ===== src/Table/Layer.antt =====
-- One array of cells of a hash table of api.c, and the loops over it.
pub mod Invariant
pub mod Update
pub mod Look
pub mod Capacity
use hivelang.Prelude.{
  ℕ, suc, ◌+◌, ◌%◌, ◌==◌, ◌≡◌, Bool, true, false, if◌then◌else◌, ◌>>=◌, List, [], ◌∷◌, Option, none,
  some, get_elem?, set,
}
use hivelang.Table.Cells.{Cell, CellState, free, busy, ready, scan}
use hivelang.Table.Kind.{Kind}

-- `struct i64hashtable` and `struct hashtable` without `prev`, which `Layered` has.
pub record Layer {ℓ} (K X : Type ℓ) : Type ℓ where
  pub updating : Bool
  pub cells : List (Cell K)
  pub len : ℕ
  pub alloc : ℕ
  pub extra : X

module _ {ℓ} {K X : Type ℓ} (kind : Kind K X) where
  -- The cells at which the loops stop: a busy one (for ever), one with the key, and a free one if
  -- the loop takes it for the end.
  abbrev pub halts : Bool → K → Cell K → Bool
  halts takes_free key c = elim c.state [
    | free ↦ takes_free
    | busy ↦ true
    | ready ↦ kind.same c.key key
  ]

  abbrev pub home : Layer K X → K → ℕ
  home h key = kind.hash key % h.alloc

  abbrev pub probe : Bool → Layer K X → K → Option ℕ
  probe takes_free h key = scan h.alloc h.alloc (halts takes_free key) h.cells (home h key)

  -- What an update does with the cell that its loop ends at.
  abbrev pub settle : Layer K X → K → ℕ → ℕ → ℕ → Cell K → Option (ℕ × Layer K X)
  settle h key new_value old_value i c = elim c.state [
    | free ↦ some (
      0,
      record h {
        cells = set h.cells i (record { key = key; value = new_value; state = ready });
        len = h.len + 1;
        extra = kind.note h.extra;
      },
    )
    | busy ↦ none
    | ready ↦
        if c.value == old_value
        then some (old_value, record h { cells = set h.cells i (record c { value = new_value }) })
        else some (c.value, h)
  ]

  -- `hashtable_raw_update` and `i64_raw_update`
  unfoldable pub raw_update : Layer K X → K → ℕ → ℕ → Option (ℕ × Layer K X)
  raw_update h key new_value old_value = do
    i ← probe (kind.claims old_value) h key
    c ← get_elem? h.cells i
    settle h key new_value old_value i c

  -- The value of the key in this layer, if the loop of `hashtable_get` and `i64_get` finds it.
  unfoldable pub look : Layer K X → K → Option (Option ℕ)
  look h key = do
    i ← probe true h key
    c ← get_elem? h.cells i
    elim c.state [ free ↦ some none | busy ↦ none | ready ↦ some (some c.value) ]

  -- The same without probing: the value in the first cell that has the key.
  abbrev pub lookup_cells : List (Cell K) → K → Option ℕ
  lookup_cells [] key = none
  lookup_cells (c ∷ cells) key = elim c.state [
    | free ↦ lookup_cells cells key
    | busy ↦ lookup_cells cells key
    | ready ↦ if kind.same c.key key then some c.value else lookup_cells cells key
  ]

abbrev pub is_ready {ℓ} : {K : Type ℓ} → Cell K → Bool
is_ready c = elim c.state [ free ↦ false | busy ↦ false | ready ↦ true ]
