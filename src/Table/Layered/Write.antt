-- ===== src/Table/Layered/Write.antt =====
-- `SetHashtable` and `i64SetHashtable` of api.c: the answer, the write, and growth.
use hivelang.Prelude.{
  ℕ, ◌+◌, ◌*◌, ◌/◌, ◌≤◌, ltb, ◌==◌, ◌≡◌, refl, ap, ◌≢◌, ◌∙◌, Bool, true, false, List, [], ◌∷◌, none,
  some, ◌>>=◌, length, arith, inl, inr, Option-cases, ◌⊎◌, if◌then◌else◌, ◌&&◌,
}
use hivelang.Table.Kind.{Kind}
use hivelang.Table.Layer.{Layer, lookup_cells, raw_update}
use hivelang.Table.Layer.Update.{Updates, raw_update-Updates, or_zero, accepts}
use hivelang.Table.Layered.{Table, newest, replace_newest, view, update, grow}
use hivelang.Table.Layered.Chain.{Chain, newest-HasRoom, newest-LayerOf, inserted-LayerOf}
use hivelang.Table.Layered.Grow.{
  IsTable, replace-Chain, view-replace, newest-replace, grow-IsTable, loosen, replaced-Chain,
}

module _ {ℓ} {K X : Type ℓ} (kind : Kind K X) where
  -- What a compare-and-set leaves.
  pub record Wrote (t : Table K X) (key : K) (new_value old_value : ℕ) (t' : Table K X)
      : Type ℓ where
    pub keys : List K
    pub valid : IsTable kind t' keys
    pub written :
        (k : K)
        → view kind t' k ≡ (
            if kind.same key k && accepts (lookup_cells kind (newest t).cells key) old_value
            then new_value
            else view kind t k)

  abbrev pub UpdateTableEnds : Table K X → K → ℕ → ℕ → Type ℓ
  UpdateTableEnds t key new_value old_value =
      (t' : Table K X) × (update kind t key new_value old_value
        ≡ some (or_zero (lookup_cells kind (newest t).cells key), t'))
      × Wrote t key new_value old_value t'

  module _ (t : Table K X) (keys : List K) (w : IsTable kind t keys) (key : K)
      (new_value old_value res : ℕ) (h' : Layer K X)
      (e : raw_update kind (newest t) key new_value old_value ≡ some (res, h'))
      (u : Updates kind (newest t) key new_value old_value res h') where
    abbrev replaced : Table K X
    replaced = replace_newest t h'

    abbrev inserted : Bool
    inserted = (res == 0) && (old_value == 0)

    still_replaced : (newest replaced).updating ≡ false
    still_replaced =
        ap (λ (x : Layer K X). x.updating) (newest-replace kind t h') ∙ u.same_updating ∙ w.still

    finish :
        (keys' : List K)
        → Chain kind 4 replaced keys'
        → ((inserted && ltb (h'.alloc / 4) h'.len) ≡ false → Chain kind 0 replaced keys')
        → UpdateTableEnds t key new_value old_value
    unfolding update
    finish keys' chain calm =
        let (valid, same_view) =
          grow-IsTable kind replaced keys' inserted chain still_replaced
            (rw (newest-replace kind t h') calm) in
        (
          grow kind inserted replaced,
          rw (e, ◌>>=◌, ← u.returned) refl,
          record {
            keys = keys';
            valid = valid;
            written = λ k. same_view k ∙ view-replace kind t h' key k new_value _ (u.written k);
          },
        )

    -- The key is in the newest array.
    update_present :
        lookup_cells kind (newest t).cells key ≢ none → UpdateTableEnds t key new_value old_value
    update_present there =
        let kept = replaced-Chain kind 0 t keys h' key new_value old_value res w.chain there u in
        finish keys (loosen kind replaced keys kept) (λ _. kept)

    -- It is not, and is inserted there.
    update_absent :
        lookup_cells kind (newest t).cells key ≡ none
        → old_value ≡ 0
        → UpdateTableEnds t key new_value old_value
    update_absent gone zero_old =
        let put : (slack : ℕ)
            → ((own : List K)
                → length own * 4 ≤ (newest t).alloc
                → length own ≤ (newest t).len
                → (length own + 1) * 4 ≤ (newest t).alloc + slack)
            → Chain kind slack replaced (key ∷ keys) =
          λ slack small.
            replace-Chain kind 0 slack t h' keys (key ∷ []) w.chain u.same_alloc (λ own older l.
              inserted-LayerOf kind 0 slack (newest t) h' own older key new_value old_value res l
                gone (small own (omega (arith, l.few)) l.counted) u) in
        let res_zero : res ≡ 0 = u.returned ∙ rw gone in
        let grown : h'.len ≡ (newest t).len + 1 = u.grown ∙ rw gone in
        finish (key ∷ keys) (put 4 (λ own a b. omega arith))
          (λ f. put 0 (λ own a b. ground (arith, u.same_alloc)))

  -- `SetHashtable` and `i64SetHashtable` end on every well-formed table, if 0 is expected or the
  -- newest array has the key. They answer the value that the newest array has, or 0, and write if
  -- it is the expected one or there is none. No other key changes, and the table stays well formed,
  -- also where it grows.
  pub update-Wrote :
      (t : Table K X) (keys : List K) (key : K) (new_value old_value : ℕ)
      → IsTable kind t keys
      → (old_value ≡ 0) ⊎ (lookup_cells kind (newest t).cells key ≢ none)
      → UpdateTableEnds t key new_value old_value
  update-Wrote t keys key new_value old_value w may =
      let (own, older, _, l) = newest-LayerOf kind 0 t keys w.chain in
      let room = newest-HasRoom kind 0 t keys (omega arith) w.chain in
      let claim : (kind.claims old_value ≡ true) ⊎ (lookup_cells kind (newest t).cells key ≢ none) =
        elim may [ inl z ↦ inl (rw z kind.claims_zero) | inr there ↦ inr there ] in
      let (res, h', e, u) =
        raw_update-Updates kind (newest t) l.valid key new_value old_value room claim in
      elim may [
        | inr there ↦ update_present t keys w key new_value old_value res h' e u there
        | inl z ↦ elim (Option-cases (lookup_cells kind (newest t).cells key)) [
          | inl gone ↦ update_absent t keys w key new_value old_value res h' e u gone z
          | inr (v, q) ↦ update_present t keys w key new_value old_value res h' e u (λ gone. cc)
        ]
      ]
