-- ===== src/Hash/Session.antt =====
-- Histories of calls on a hash table of api.c, against a plain map in which 0 means no value.
use hivelang.Prelude.{
  ℕ, ◌≡◌, refl, ◌≢◌, sym, ◌∙◌, true, List, [], ◌∷◌, Option, none, some, ◌>>=◌, arith, inl, inr,
  Option-cases, if◌then◌else◌, ==_refl, ℕ_discrete, ◌≤◌, ◌<◌, ◌⊎◌, length, get_elem?, false,
}
use mathlib.Core.Path.{fun_ext}
use hivelang.Table.Kind.{Kind}
use hivelang.Prelude.Slots.{count, find_refused}
use hivelang.Table.Cells.{Cell, CellState, free, busy, ready}
use hivelang.Table.Layer.{lookup_cells, is_ready}
use hivelang.Table.Layer.Update.{accepts, or_zero}
use hivelang.Table.Layered.{Table, first, newest, view, get, update, empty_layer}
use hivelang.Table.Layered.Read.{get-Looked, Looked, view-newest}
use hivelang.Table.Layered.Grow.{IsTable, empty-LayerOf, IsTable-HasRoom, IsTable-IsLayer}
use hivelang.Table.Layered.Write.{update-Wrote}

-- `lookup k` is `GetHashtable`; `store k v` is `GetHashtable` followed by `SetHashtable` with the
-- value that it gave as the expected one, the way `GetsetInsertTagged` uses a table.
pub data Call {ℓ} (K : Type ℓ) : Type ℓ where
  lookup : K → Call K
  store : K → ℕ → Call K

module _ {ℓ} {K X : Type ℓ} (kind : Kind K X) where
  unfoldable pub step : Table K X → Call K → Option (ℕ × Table K X)
  step t (lookup key) = get kind t key
  step t (store key new_value) = do
    (old_value, t') ← get kind t key
    update kind t' key new_value old_value

  unfoldable pub run : Table K X → List (Call K) → Option (List ℕ × Table K X)
  unfolding step
  run t [] = some ([], t)
  run t (c ∷ cs) = do
    (answer, t') ← step t c
    (answers, t₂) ← run t' cs
    some (answer ∷ answers, t₂)

  -- The map: what each call answers, and what it leaves.
  abbrev pub key_of : Call K → K
  key_of (lookup key) = key
  key_of (store key v) = key

  abbrev pub after : (K → ℕ) → Call K → K → ℕ
  after m (lookup key) k = m k
  after m (store key v) k = if kind.same key k then v else m k

  abbrev pub map_answers : (K → ℕ) → List (Call K) → List ℕ
  map_answers m [] = []
  map_answers m (c ∷ cs) = m (key_of c) ∷ map_answers (after m c) cs

  abbrev pub map_after : (K → ℕ) → List (Call K) → K → ℕ
  map_after m [] = m
  map_after m (c ∷ cs) = map_after (after m c) cs

  abbrev pub StepEnds : Table K X → Call K → Type ℓ
  StepEnds t c =
      (t' : Table K X) × (keys : List K) × (step t c ≡ some (view kind t (key_of c), t'))
      × IsTable kind t' keys
      × ((k : K) → view kind t' k ≡ after (view kind t) c k)

  -- After a look-up the newest array answers for the key as the whole table does.
  newest_answers :
      (t t₁ : Table K X) (keys : List K) (key : K)
      → Looked kind 0 t keys key t₁
      → let here = lookup_cells kind (newest t₁).cells key in
        (or_zero here ≡ view kind t key)
        × (accepts here (view kind t key) ≡ true)
        × ((view kind t key ≡ 0) ⊎ (here ≢ none))
  newest_answers t t₁ keys key l = elim (Option-cases (lookup_cells kind (newest t₁).cells key)) [
    | inr (v, there) ↦
        let is_v : view kind t key ≡ v = sym (l.same_view key) ∙ view-newest kind t₁ key v there in
        rw (there, is_v) (refl, ==_refl v, inr (λ gone. cc))
    | inl gone ↦
        let z : view kind t key ≡ 0 = elim (ℕ_discrete (view kind t key) 0) [
          | yes z ↦ z
          | no ne ↦ let held = l.in_newest ne in absurd (cc)
        ] in
        rw (gone, z) (refl, refl, inl refl)
  ]

  pub step-refines :
      (t : Table K X) (keys : List K) (c : Call K) → IsTable kind t keys → StepEnds t c
  unfolding step
  step-refines t keys (lookup key) w =
      let (t', e, l) = get-Looked kind 0 t keys key (omega arith) w.chain in
      (t', keys, e, record { chain = l.chain; still = l.same_updating ∙ w.still }, l.same_view)
  step-refines t keys (store key new_value) w =
      let (t₁, e, l) = get-Looked kind 0 t keys key (omega arith) w.chain in
      let w₁ : IsTable kind t₁ keys = record {
        chain = l.chain;
        still = l.same_updating ∙ w.still;
      } in
      let (same_answer, accepted, may) = newest_answers t t₁ keys key l in
      let (t₂, e₂, wrote) = update-Wrote kind t₁ keys key new_value (view kind t key) w₁ may in
      (
        t₂,
        wrote.keys,
        rw (e, ◌>>=◌) (e₂ ∙ rw same_answer refl),
        wrote.valid,
        λ k. wrote.written k ∙ rw (accepted, l.same_view k) (ground arith),
      )

  run-IsTable :
      (t : Table K X) (keys : List K) (cs : List (Call K))
      → IsTable kind t keys
      → (t' : Table K X) × (keys' : List K) × (run t cs ≡ some (map_answers (view kind t) cs, t'))
        × IsTable kind t' keys'
        × (view kind t' ≡ map_after (view kind t) cs)
  unfolding run
  run-IsTable t keys [] w = (t, keys, refl, w, refl)
  run-IsTable t keys (c ∷ cs) w =
      let (t₁, keys₁, e, w₁, same) = step-refines t keys c w in
      let (t₂, keys₂, e₂, w₂, same₂) = run-IsTable t₁ keys₁ cs w₁ in
      let m : view kind t₁ ≡ after (view kind t) c = fun_ext same in
      (t₂, keys₂, rw (e, ◌>>=◌, e₂, m) refl, w₂, same₂ ∙ rw m refl)

  pub empty-IsTable :
      (alloc : ℕ) (extra : X)
      → 1024 ≤ alloc
      → IsTable kind (first (empty_layer kind alloc extra)) []
  unfolding empty_layer
  empty-IsTable alloc extra big = record {
    chain = ((empty-LayerOf kind alloc extra []).0, big);
    still = refl;
  }

  empty_view : (alloc : ℕ) (extra : X) → view kind (first (empty_layer kind alloc extra)) ≡ (λ k. 0)
  empty_view alloc extra = fun_ext λ k. rw ((empty-LayerOf kind alloc extra []).1 k)

  -- Every history of look-ups and stores on a new table of at least 1024 cells ends, however often
  -- the table grows on the way: it answers as the map does that starts empty, and then the table
  -- holds what the map holds and is well formed.
  pub run-refines_map :
      (alloc : ℕ) (extra : X) (cs : List (Call K))
      → 1024 ≤ alloc
      → (t' : Table K X) × (keys : List K) × (run (first (empty_layer kind alloc extra)) cs
          ≡ some (map_answers (λ k. 0) cs, t'))
        × IsTable kind t' keys
        × (view kind t' ≡ map_after (λ k. 0) cs)
  run-refines_map alloc extra cs big =
      let (t', keys, e, w, same) =
        run-IsTable (first (empty_layer kind alloc extra)) [] cs (empty-IsTable alloc extra big) in
      let z = empty_view alloc extra in (t', keys, rw z at e, w, rw z at same)

  state_free :
      (state : CellState)
      → elim state [ free ↦ false | busy ↦ false | ready ↦ true ] ≡ false
      → state ≢ busy
      → state ≡ free
  state_free free out ne = refl
  state_free busy out ne = absurd (ne refl)
  state_free ready out ne = absurd (cc)

  -- Every history of look-ups and stores on a new table of at least 1024 cells ends, and then fewer
  -- cells of the newest array hold a key than it has cells, and one of its cells is free.
  pub run-HasRoom :
      (alloc : ℕ) (extra : X) (cs : List (Call K))
      → 1024 ≤ alloc
      → (answers : List ℕ) × (t' : Table K X) × (run (first (empty_layer kind alloc extra)) cs
          ≡ some (answers, t'))
        × (count is_ready (newest t').cells < length (newest t').cells)
        × (i : ℕ) × (c : Cell K) × (get_elem? (newest t').cells i ≡ some c)
        × (c.state ≡ free)
  run-HasRoom alloc extra cs big =
      let (t', keys, e, w, same) =
        run-IsTable (first (empty_layer kind alloc extra)) [] cs (empty-IsTable alloc extra big) in
      let layer = IsTable-IsLayer kind t' keys w in
      let room : count is_ready (newest t').cells < length (newest t').cells =
        omega (arith, layer.counted, layer.sized, IsTable-HasRoom kind t' keys w) in
      let (i, c, at, out) = find_refused is_ready (newest t').cells room in
      (
        map_answers (view kind (first (empty_layer kind alloc extra))) cs,
        t',
        e,
        room,
        i,
        c,
        at,
        state_free c.state out (layer.settled i c at),
      )
