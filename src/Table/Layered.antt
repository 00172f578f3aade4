-- ===== src/Table/Layered.antt =====
-- The chain of arrays that a hash table of api.c grows into, and the operations on it.
pub mod Chain
pub mod Read
pub mod Grow
pub mod Write
pub mod Tag
pub mod Take
use hivelang.Prelude.{
  ℕ, zero, suc, ◌+◌, ◌-◌, ◌*◌, ◌/◌, ◌%◌, ◌^◌, ◌==◌, ltb, leb, Bool, true, false, not, ◌&&◌,
  if◌then◌else◌, ◌>>=◌, Option, none, some, get_elem?, set, replicate,
}
use hivelang.Word.{add64}
use hivelang.Table.Kind.{Kind}
use hivelang.Table.Cells.{Cell, CellState, free, busy, ready}
use hivelang.Table.Layer.{Layer, probe, look, raw_update, lookup_cells}
use hivelang.Table.Layer.Update.{or_zero}

-- `first h` has no `prev`; in `over h t` the table `t` is `h->prev`.
pub data Table {ℓ} (K X : Type ℓ) : Type ℓ where
  first : Layer K X → Table K X
  over : Layer K X → Table K X → Table K X

abbrev pub newest {ℓ} : {K X : Type ℓ} → Table K X → Layer K X
newest (first h) = h
newest (over h t) = h

abbrev pub replace_newest {ℓ} : {K X : Type ℓ} → Table K X → Layer K X → Table K X
replace_newest (first h) h' = first h'
replace_newest (over h t) h' = over h' t

-- `value & mask` and `value & ~mask` for the mask 2 ^ bits - 1: the tag of a value, and the list
-- that it points to.
abbrev pub tag_of : ℕ → ℕ → ℕ
tag_of bits v = v % 2 ^ bits

abbrev pub list_of : ℕ → ℕ → ℕ
list_of bits v = v - v % 2 ^ bits

module _ {ℓ} {K X : Type ℓ} (kind : Kind K X) where
  -- An array as `calloc` or `memset` leaves it.
  unfoldable pub empty_layer : ℕ → X → Layer K X
  empty_layer alloc extra = record {
    updating = false;
    cells = replicate alloc (record { key = kind.blank; value = 0; state = free });
    len = 0;
    alloc = alloc;
    extra = extra;
  }

  -- The end of `hashtable_get`: a value found in `h->prev` is copied into `h`.
  unfoldable pub adopt : Layer K X → Table K X → K → ℕ → Option (ℕ × Table K X)
  adopt h t key val = if val == 0 then some (0, over h t) else (do
    (res, h') ← raw_update kind h key val 0
    some (if res == 0 then val else res, over h' t))

  -- `hashtable_get`, `i64_get`
  unfoldable pub get : Table K X → K → Option (ℕ × Table K X)
  get (first h) key = do r ← look kind h key; some (or_zero r, first h)
  get (over h t) key =
      let rest = get t key in
      do
        r ← look kind h key
        elim r [ some v ↦ some (v, over h t) | none ↦ do (val, t') ← rest; adopt h t' key val ]

  -- The test at the end of `SetHashtable`, with the table that is twice as large.
  unfoldable pub grow : Bool → Table K X → Table K X
  grow inserted t =
      let h = newest t in
      if inserted && ltb (h.alloc / 4) h.len && not h.updating
      then over (empty_layer (2 * h.alloc) (kind.renew h.extra))
          (replace_newest t (record h { updating = true }))
      else t

  -- `SetHashtable`, `i64SetHashtable`
  unfoldable pub update : Table K X → K → ℕ → ℕ → Option (ℕ × Table K X)
  update t key new_value old_value = do
    (res, h') ← raw_update kind (newest t) key new_value old_value
    some (res, grow ((res == 0) && (old_value == 0)) (replace_newest t h'))

  -- The loop of `hashtable_take_tagged` over one array. `mask` is 2 ^ bits - 1. The list of the
  -- cell is taken and its tag raised, unless the tag has reached `compareto`: then the loop waits.
  unfoldable pub take_here : Layer K X → K → ℕ → ℕ → Option (Option (ℕ × Layer K X))
  take_here h key bits compareto = do
    i ← probe kind true h key
    c ← get_elem? h.cells i
    elim c.state [
      | free ↦ some none
      | busy ↦ none
      | ready ↦
          let tag = tag_of bits c.value in
          let list = list_of bits c.value in
          if leb compareto tag
          then none
          else if list == 0
          then some (some (0, h))
          else some (some (list, record h { cells = set h.cells i (record c { value = tag + 1 }) }))
    ]

  -- `hashtable_take_tagged`, with fuel for its call of itself.
  unfoldable pub take_tagged : ℕ → Table K X → K → ℕ → ℕ → Option (ℕ × Table K X)
  take_tagged zero t key bits compareto = none
  take_tagged (suc fuel) (first h) key bits compareto = do
    r ← take_here h key bits compareto
    elim r [ none ↦ some (0, first h) | some (list, h') ↦ some (list, first h') ]
  take_tagged (suc fuel) (over h t) key bits compareto = do
    r ← take_here h key bits compareto
    elim r [
      | some (list, h') ↦ some (list, over h' t)
      | none ↦ do
        (val, t') ← get t key
        elim (val == 0) [
          | true ↦ some (0, over h t')
          | false ↦ do
            (_, h') ← raw_update kind h key val 0
            take_tagged fuel (over h' t') key bits compareto
        ]
    ]

  -- The loop of `hashtable_add` over one array.
  unfoldable pub add_here : Layer K X → K → ℕ → Option (Option (ℕ × Layer K X))
  add_here h key delta = do
    i ← probe kind true h key
    c ← get_elem? h.cells i
    elim c.state [
      | free ↦ some none
      | busy ↦ none
      | ready ↦
          let sum = add64 c.value delta in
          some (some (c.value, record h { cells = set h.cells i (record c { value = sum }) }))
    ]

  -- `hashtable_add`
  unfoldable pub add : ℕ → Table K X → K → ℕ → Option (ℕ × Table K X)
  add zero t key delta = none
  add (suc fuel) (first h) key delta = do
    r ← add_here h key delta
    elim r [ none ↦ some (0, first h) | some (old, h') ↦ some (old, first h') ]
  add (suc fuel) (over h t) key delta = do
    r ← add_here h key delta
    elim r [
      | some (old, h') ↦ some (old, over h' t)
      | none ↦ do
        (val, t') ← get t key
        elim (val == 0) [
          | true ↦ some (0, over h t')
          | false ↦ do
            (res, h') ← raw_update kind h key (add64 val delta) 0
            elim (res == 0) [
              | true ↦ some (add64 val delta, over h' t')
              | false ↦ add fuel (over h' t') key delta
            ]
        ]
    ]

  -- What a table holds, with no probing: the newest array that has the key decides.
  abbrev pub view : Table K X → K → ℕ
  view (first h) key = or_zero (lookup_cells kind h.cells key)
  view (over h t) key = elim (lookup_cells kind h.cells key) [ some v ↦ v | none ↦ view t key ]
