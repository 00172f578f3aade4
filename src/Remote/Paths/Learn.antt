-- ===== src/Remote/Paths/Learn.antt =====
-- The loops of API_ANSWER_REQUEST_PATH and API_ANSWER_REQUEST_PATH_TO_ID.
use hivelang.Prelude.{
  ℕ, suc, ◌-◌, ◌^◌, ◌<◌, ◌≡◌, refl, ◌≢◌, sym, ◌∙◌, true, none, some, ◌>>=◌, List, write, ℕ_discrete,
  ==_refl, lt→ltb, arith,
}
use hivelang.Word.{add64, signed_lt}
use hivelang.Table.Layered.{view}
use hivelang.Hash.Keys.{int64_keys, i64_get_hashtable, i64_set_hashtable}
use hivelang.Hash.Pointers.{entry-known, entry-unknown}
use hivelang.Remote.Paths.{PathValue, PathTable, learn_object_path, learn_id_path}
use hivelang.Remote.Paths.Routes.{
  route, IsRoutes, takes, object_path_after, id_path_after, Learned, known_Learned, object_Compared,
  id_Compared, inserted,
}

module _ (addresses : ℕ → ℕ) (p : PathTable) (keys : List ℕ) (key local_id distance fuel : ℕ) where
  -- The loop of API_ANSWER_REQUEST_PATH ends in its first round, on a table of paths whose addresses
  -- lead to different values, when `myMalloc` gives a free address. It takes the answer when no path
  -- to the object is known or the answer is nearer than the known one; the path then leads to the
  -- connection of the answer, at the distance answered, or one more where none was known. Every other
  -- path stays, and the table stays such a one.
  pub learn_object_path-Learned :
      IsRoutes p keys
      → addresses fuel ≢ 0
      → p.values (addresses fuel) ≡ none
      → Learned p key
          (takes (route p key) distance)
          (object_path_after (route p key) local_id distance)
          (learn_object_path (suc fuel) addresses p key local_id distance)
  unfolding learn_object_path i64_get_hashtable i64_set_hashtable
  learn_object_path-Learned w some_address fresh =
      elim (ℕ_discrete (view int64_keys p.table key) 0) [
        | no there ↦
            known_Learned addresses p keys w key local_id distance
              (learn_object_path (suc fuel) addresses p key local_id distance) there
              (object_Compared addresses p keys w key local_id distance fuel there)
        | yes z ↦
            let (t, t', keys', got, stored, (w', routes), _) =
              inserted addresses p keys w key local_id distance (addresses fuel) z some_address
                fresh in
            rw (entry-unknown int64_keys p keys w key z) (
              _,
              keys',
              rw (learn_object_path, i64_get_hashtable, got)
                  (rw (◌>>=◌, i64_set_hashtable, stored) refl),
              w',
              routes,
            )
      ]

-- No answer is as far as the greatest `int64_t`.
pub one_farther :
    (distance : ℕ)
    → distance < 2 ^ 64
    → distance ≢ 2 ^ 63 - 1
    → signed_lt distance (add64 distance 1) ≡ true
unfolding signed_lt
one_farther distance word less =
    lt→ltb (add64 distance (2 ^ 63)) (add64 (add64 distance 1) (2 ^ 63)) (omega arith)

module _ (addresses : ℕ → ℕ) (p : PathTable) (keys : List ℕ) (key local_id distance fuel : ℕ) where
  -- The loop goes round twice for a hive that is not known.
  id_second_round :
      (w : IsRoutes p keys)
      → addresses (suc fuel) ≢ 0
      → p.values (addresses (suc fuel)) ≡ none
      → view int64_keys p.table key ≡ 0
      → signed_lt distance (add64 distance 1) ≡ true
      → Learned p key true
          (some (record { local_id = local_id; distance = distance }))
          (learn_id_path (suc (suc fuel)) addresses p key local_id distance)
  unfolding learn_id_path i64_get_hashtable i64_set_hashtable
  id_second_round w some_address fresh z nearer =
      let new_path = addresses (suc fuel) in
      let (t, t', keys₁, got, stored, (w₁, routes₁), here) =
        inserted addresses p keys w key local_id distance new_path z some_address fresh in
      let value : PathValue = record { local_id = local_id; distance = add64 distance 1 } in
      let p₁ : PathTable = record { table = t'; values = write p.values new_path (some value) } in
      let there : view int64_keys t' key ≢ 0 = λ gone. some_address (sym here ∙ gone) in
      let known : route p₁ key ≡ some value = routes₁ key ∙ rw (==_refl key) refl in
      let (p₂, keys₂, e, w₂, routes₂) =
        rw (known, nearer) at
          (known_Learned addresses p₁ keys₁ w₁ key local_id distance
            (learn_id_path (suc fuel) addresses p₁ key local_id distance) there
            (id_Compared addresses p₁ keys₁ w₁ key local_id distance fuel there)) in
      (
        p₂,
        keys₂,
        rw (learn_id_path, i64_get_hashtable, got) (rw (◌>>=◌, i64_set_hashtable, stored) e),
        w₂,
        λ k. routes₂ k ∙ rw (routes₁ k) (ground arith),
      )

  -- The loop of API_ANSWER_REQUEST_PATH_TO_ID, which has no `break` after it enters a new path, ends in
  -- its second round at the latest, on a table of paths whose addresses lead to different values, when
  -- `myMalloc` gives a free address and the distance is a word other than the greatest `int64_t`. It
  -- takes the answer when no path to the hive is known or the answer is nearer than the known one;
  -- the path then leads to the connection of the answer, at the distance answered. Every other path
  -- stays, and the table stays such a one.
  pub learn_id_path-Learned :
      (w : IsRoutes p keys)
      → addresses (suc fuel) ≢ 0
      → p.values (addresses (suc fuel)) ≡ none
      → distance < 2 ^ 64
      → distance ≢ 2 ^ 63 - 1
      → Learned p key
          (takes (route p key) distance)
          (id_path_after (route p key) local_id distance)
          (learn_id_path (suc (suc fuel)) addresses p key local_id distance)
  unfolding learn_id_path i64_get_hashtable i64_set_hashtable
  learn_id_path-Learned w some_address fresh word less =
      elim (ℕ_discrete (view int64_keys p.table key) 0) [
        | no there ↦
            let (v, _, is) = entry-known int64_keys p keys w key there in
            rw (is) (
              rw (is) at (
                known_Learned addresses p keys w key local_id distance
                  (learn_id_path (suc (suc fuel)) addresses p key local_id distance) there
                  (id_Compared addresses p keys w key local_id distance (suc fuel) there)))
        | yes z ↦
            rw (entry-unknown int64_keys p keys w key z)
              (id_second_round w some_address fresh z (one_farther distance word less))
      ]
