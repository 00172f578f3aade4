-- ===== src/Remote/Paths/Routes.antt =====
-- An answer about a path, taken by the loops of `HandleApiCall`, against the map of known paths.
use hivelang.Prelude.{
  ℕ, suc, ◌==◌, ==_iff, ◌≡◌, refl, ◌≢◌, ◌∙◌, Bool, true, false, Bool-cases, Option, none, some,
  ◌>>=◌, inl, inr, List, write, if◌then◌else◌, ==_refl, ne→==,
}
use hivelang.Word.{add64, signed_lt}
use hivelang.Table.Layered.{view, get, update}
use hivelang.Table.Layered.Grow.{IsTable}
use hivelang.Hash.Keys.{I64Hashtable, int64_keys, i64_get_hashtable}
use hivelang.Hash.Lookup.{get-Found, update-Added}
use hivelang.Hash.Pointers.{
  entry, IsPointers, Entered, entry-known, same-IsPointers, written-Entered, added-Entered,
}
use hivelang.Remote.Paths.{PathValue, PathTable, learn_object_path, learn_id_path}

abbrev pub route : PathTable → ℕ → Option PathValue
route = entry int64_keys

abbrev pub IsRoutes : PathTable → List ℕ → Type 0
IsRoutes = IsPointers int64_keys

-- An answer is taken when nothing is known, or when it is nearer.
abbrev pub takes : Option PathValue → ℕ → Bool
takes none distance = true
takes (some v) distance = signed_lt distance v.distance

-- The path to an object after an answer: the first one is stored one farther than it was sent.
abbrev pub object_path_after : Option PathValue → ℕ → ℕ → Option PathValue
object_path_after none local_id distance =
    some (record { local_id = local_id; distance = add64 distance 1 })
object_path_after (some v) local_id distance =
    if signed_lt distance v.distance
    then some (record { local_id = local_id; distance = distance })
    else some v

abbrev pub id_path_after : Option PathValue → ℕ → ℕ → Option PathValue
id_path_after known local_id distance =
    if takes known distance
    then some (record { local_id = local_id; distance = distance })
    else known

-- The loop ends, it says whether the path was taken, and the map is as before but for the key.
abbrev pub Learned : PathTable → ℕ → Bool → Option PathValue → Option (Bool × PathTable) → Type 0
Learned p key taken after r =
    (p' : PathTable) × (keys' : List ℕ) × (r ≡ some (taken, p'))
    × IsRoutes p' keys'
    × ((k : ℕ) → route p' k ≡ (if key == k then after else route p k))

module _ (addresses : ℕ → ℕ) (p : PathTable) (keys : List ℕ) (w : IsRoutes p keys)
    (key local_id distance : ℕ) where
  -- What the loops leave when the path that they find is farther, and when it is not.
  nearer_Learned :
      (r : Option (Bool × PathTable)) (t' : I64Hashtable)
      → view int64_keys p.table key ≢ 0
      → IsTable int64_keys t' keys
      → ((k : ℕ) → view int64_keys t' k ≡ view int64_keys p.table k)
      → r
        ≡ some (
          true,
          record {
            table = t';
            values =
                write p.values
                  (view int64_keys p.table key)
                  (some (record { local_id = local_id; distance = distance }));
          },
        )
      → Learned p key true (some (record { local_id = local_id; distance = distance })) r
  nearer_Learned r t' there w' same e =
      let (ok, routes) =
        written-Entered int64_keys p keys w t' keys w' key
          (record { local_id = local_id; distance = distance }) same there in
      (_, keys, e, ok, routes)

  farther_Learned :
      (r : Option (Bool × PathTable)) (t' : I64Hashtable)
      → IsTable int64_keys t' keys
      → ((k : ℕ) → view int64_keys t' k ≡ view int64_keys p.table k)
      → r ≡ some (false, record { table = t'; values = p.values })
      → Learned p key false (route p key) r
  farther_Learned r t' w' same e =
      let (ok, routes) = same-IsPointers int64_keys p keys w t' keys w' same in
      (
        _,
        keys,
        e,
        ok,
        λ k. routes k ∙ elim (Bool-cases (key == k)) [
          | inl one ↦ let is_key : key ≡ k = (==_iff key k).0 one in rw (one, is_key) refl
          | inr other ↦ rw other refl
        ],
      )

  -- A round of either loop at a key that is in the table.
  abbrev pub Compared : Option (Bool × PathTable) → Type 0
  Compared r =
      (v : PathValue) (t' : I64Hashtable)
      → get int64_keys p.table key ≡ some (view int64_keys p.table key, t')
      → p.values (view int64_keys p.table key) ≡ some v
      → (signed_lt distance v.distance ≡ true
          → r
            ≡ some (
              true,
              record {
                table = t';
                values =
                    write p.values (view int64_keys p.table key)
                      (some (record { local_id = local_id; distance = distance }));
              },
            ))
        × (signed_lt distance v.distance ≡ false
            → r ≡ some (false, record { table = t'; values = p.values }))

  pub known_Learned :
      (r : Option (Bool × PathTable))
      → view int64_keys p.table key ≢ 0
      → Compared r
      → Learned p key
          (takes (route p key) distance)
          (object_path_after (route p key) local_id distance)
          r
  known_Learned r there e =
      let (v, at, is) = entry-known int64_keys p keys w key there in
      let (t', got, w', same) = get-Found int64_keys p.table keys key w.valid in
      elim (Bool-cases (signed_lt distance v.distance)) [
        | inl nearer ↦
            rw (is, nearer) (nearer_Learned r t' there w' same ((e v t' got at).0 nearer))
        | inr farther ↦
            rw (is, farther) (rw (is) at (farther_Learned r t' w' same ((e v t' got at).1 farther)))
      ]

  pub object_Compared :
      (fuel : ℕ)
      → view int64_keys p.table key ≢ 0
      → Compared (learn_object_path (suc fuel) addresses p key local_id distance)
  unfolding learn_object_path i64_get_hashtable
  object_Compared fuel there v t' got at =
      let some_address = ne→== (view int64_keys p.table key) 0 there in
      (
        λ nearer.
            rw (learn_object_path, i64_get_hashtable, got)
              (rw (◌>>=◌, some_address) (rw (at) (rw (◌>>=◌, nearer) refl))),
        λ farther.
            rw (learn_object_path, i64_get_hashtable, got)
              (rw (◌>>=◌, some_address) (rw (at) (rw (◌>>=◌, farther) refl))),
      )

  pub id_Compared :
      (fuel : ℕ)
      → view int64_keys p.table key ≢ 0
      → Compared (learn_id_path (suc fuel) addresses p key local_id distance)
  unfolding learn_id_path i64_get_hashtable
  id_Compared fuel there v t' got at =
      let some_address = ne→== (view int64_keys p.table key) 0 there in
      (
        λ nearer.
            rw (learn_id_path, i64_get_hashtable, got)
              (rw (◌>>=◌, some_address) (rw (at) (rw (◌>>=◌, nearer) refl))),
        λ farther.
            rw (learn_id_path, i64_get_hashtable, got)
              (rw (◌>>=◌, some_address) (rw (at) (rw (◌>>=◌, farther) refl))),
      )

  -- A round at a key that is not in the table enters a value one farther than was answered.
  abbrev pub first_value : PathValue
  first_value = record { local_id = local_id; distance = add64 distance 1 }

  abbrev pub Inserted : ℕ → Type 0
  Inserted new_path =
      (t t' : I64Hashtable) × (keys' : List ℕ) × (get int64_keys p.table key ≡ some (0, t))
      × (update int64_keys t key new_path 0 ≡ some (0, t'))
      × Entered int64_keys p key first_value
          (record { table = t'; values = write p.values new_path (some first_value) }) keys'
      × (view int64_keys t' key ≡ new_path)

  pub inserted :
      (new_path : ℕ)
      → view int64_keys p.table key ≡ 0
      → new_path ≢ 0
      → p.values new_path ≡ none
      → Inserted new_path
  inserted new_path z some_address fresh =
      let (t, got, w₁, same) = get-Found int64_keys p.table keys key w.valid in
      let (t', keys', stored, w₂, new_view) =
        update-Added int64_keys t keys key new_path w₁ (same key ∙ z) in
      (
        t,
        t',
        keys',
        got ∙ rw z refl,
        stored,
        added-Entered int64_keys p keys w t' keys' w₂ key new_path first_value z some_address fresh
            (λ k. new_view k ∙ rw (same k) refl),
        new_view key ∙ rw (==_refl key) refl,
      )
