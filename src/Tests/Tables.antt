-- ===== src/Tests/Tables.antt =====
-- A table of 64-bit keys of api.c, with one entry.
use hivelang.Prelude.{
  ℕ, ◌≡◌, refl, sym, ap, ◌∙◌, inl, inr, List, [], ◌∷◌, Option, none, some, arith, ◌<◌, length,
  get_elem?,
}
use hivelang.Prelude.Slots.{count}
use hivelang.Table.Cells.{Cell, free}
use hivelang.Table.Layer.{lookup_cells, is_ready}
use hivelang.Table.Layer.Invariant.{IsLayer, HasRoom}
use hivelang.Table.Layered.{first, newest, view}
use hivelang.Table.Layered.Chain.{newest-LayerOf, newest-HasRoom}
use hivelang.Table.Layered.Read.{LookupEnds, get-Looked}
use hivelang.Table.Layered.Grow.{IsTable, empty-LayerOf}
use hivelang.Table.Layered.Write.{UpdateTableEnds, update-Wrote}
use hivelang.Table.Layered.Take.{TakeEnds, take_tagged-Ends}
use hivelang.Hash.Keys.{I64Hashtable, int64_keys}
use hivelang.Hash.Session.{
  Call, lookup, store, run, map_answers, map_after, run-refines_map, run-HasRoom, empty-IsTable,
}
use hivelang.Table.Layered.{empty_layer}

abbrev empty_table : I64Hashtable
empty_table = first (empty_layer int64_keys 1024 tt)

present : (o : Option ℕ) → o ≡ some 77 → o ≡ none → ⊥
present o h k = cc

empty-valid : IsTable int64_keys empty_table []
empty-valid = empty-IsTable int64_keys 1024 tt (omega arith)

-- The key 5 is given the value 77.
stored : UpdateTableEnds int64_keys empty_table 5 77 0
stored = update-Wrote int64_keys empty_table [] 5 77 0 empty-valid (inl refl)

stored_view : view int64_keys stored.0 5 ≡ 77
stored_view = stored.2.written 5 ∙ rw ((empty-LayerOf int64_keys 1024 tt []).1 5) refl

-- A look-up makes sure that the newest array has it.
found : LookupEnds int64_keys 0 stored.0 stored.2.keys 5
found = get-Looked int64_keys 0 stored.0 stored.2.keys 5 (omega arith) stored.2.valid.chain

abbrev one_entry : I64Hashtable
one_entry = found.0

abbrev one_key : List ℕ
one_key = stored.2.keys

one_entry-valid : IsTable int64_keys one_entry one_key
one_entry-valid = record {
  chain = found.2.chain;
  still = found.2.same_updating ∙ stored.2.valid.still;
}

one_entry-view : view int64_keys one_entry 5 ≡ 77
one_entry-view = found.2.same_view 5 ∙ stored_view

one_entry-newest : lookup_cells int64_keys (newest one_entry).cells 5 ≡ some 77
one_entry-newest =
    found.2.in_newest (λ z. absurd (omega (arith, sym stored_view ∙ z))) ∙ ap some stored_view

one_entry-IsLayer : IsLayer int64_keys (newest one_entry)
one_entry-IsLayer =
    let (own, older, e, l) = newest-LayerOf int64_keys 0 one_entry one_key one_entry-valid.chain in
    l.valid

one_entry_room : HasRoom int64_keys (newest one_entry)
one_entry_room = newest-HasRoom int64_keys 0 one_entry one_key (omega arith) one_entry-valid.chain

get-Looked_example : LookupEnds int64_keys 0 one_entry one_key 5
get-Looked_example = get-Looked int64_keys 0 one_entry one_key 5 (omega arith) one_entry-valid.chain

-- The value 77 is there, and another is written over it.
update-Wrote_example : UpdateTableEnds int64_keys one_entry 5 90 77
update-Wrote_example =
    update-Wrote int64_keys one_entry one_key 5 90 77 one_entry-valid
      (inr (λ gone. present _ one_entry-newest gone))

-- With 6 bits of tag, 77 is the list 64 under the tag 13.
take_tagged-Ends_example : TakeEnds int64_keys 2 one_entry one_key 5 6 64
take_tagged-Ends_example =
    take_tagged-Ends int64_keys one_entry one_key 5 6 64 one_entry-valid
      (rw one_entry-view (omega arith))

-- A store, a store over it, and look-ups of a key that is there and of one that is not.
abbrev history : List (Call ℕ)
history = store 5 77 ∷ lookup 5 ∷ store 5 90 ∷ lookup 5 ∷ lookup 6 ∷ []

run-refines_map_example :
    (t' : I64Hashtable) × (keys : List ℕ) × (run int64_keys
        (first (empty_layer int64_keys 1024 tt))
        history
      ≡ some (map_answers int64_keys (λ k. 0) history, t'))
    × IsTable int64_keys t' keys
    × (view int64_keys t' ≡ map_after int64_keys (λ k. 0) history)
run-refines_map_example = run-refines_map int64_keys 1024 tt history (omega arith)

run-HasRoom_example :
    (answers : List ℕ) × (t' : I64Hashtable) × (run int64_keys
        (first (empty_layer int64_keys 1024 tt))
        history
      ≡ some (answers, t'))
    × (count is_ready (newest t').cells < length (newest t').cells)
    × (i : ℕ) × (c : Cell ℕ) × (get_elem? (newest t').cells i ≡ some c)
    × (c.state ≡ free)
run-HasRoom_example = run-HasRoom int64_keys 1024 tt history (omega arith)

map_answers_test : map_answers int64_keys (λ k. 0) history ≡ 0 ∷ 77 ∷ 77 ∷ 90 ∷ 0 ∷ []
map_answers_test = refl
