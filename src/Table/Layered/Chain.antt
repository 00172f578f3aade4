-- ===== src/Table/Layered/Chain.antt =====
-- When a chain of arrays of api.c is well formed. The keys of each array come from a list: those
-- that were inserted while it was the newest, and those of the older arrays, from which they are
-- copied. So no array is ever full.
use hivelang.Prelude.{
  ℕ, ◌+◌, ◌*◌, ◌≤◌, ◌<◌, ◌≡◌, ◌≢◌, true, List, [], ◌∷◌, ◌++◌, none, length, length-append, arith,
  sym, ◌∙◌, append-nil, inl, inr, Option-cases, Bool-cases,
}
use hivelang.Table.Kind.{Kind}
use hivelang.Table.Layer.{Layer, lookup_cells}
use hivelang.Table.Layer.Invariant.{IsLayer, HasRoom}
use hivelang.Table.Layer.Capacity.{has, has-append, len-le-length}
use hivelang.Table.Layer.Update.{Updates}
use hivelang.Table.Layered.{Table, first, over, newest, view}

module _ {ℓ} {K X : Type ℓ} (kind : Kind K X) where
  -- `own` are the keys inserted into the array itself: a quarter of it, and one more once a larger
  -- array replaces it (`slack`, in quarters).
  pub record LayerOf (slack : ℕ) (h : Layer K X) (own older : List K) : Type ℓ where
    pub valid : IsLayer kind h
    pub within : (k : K) → lookup_cells kind h.cells k ≢ none → has kind k (own ++ older) ≡ true
    pub few : length own * 4 ≤ h.alloc + slack
    pub counted : length own ≤ h.len

  abbrev pub Chain : ℕ → Table K X → List K → Type ℓ
  Chain slack (first h) keys = LayerOf slack h keys [] × (1024 ≤ h.alloc)
  Chain slack (over h t) keys =
      (own : List K) × (older : List K) × (keys ≡ own ++ older)
      × LayerOf slack h own older
      × (h.alloc ≡ 2 * (newest t).alloc)
      × Chain 4 t older

  abbrev pub depth : Table K X → ℕ
  depth (first h) = 1
  depth (over h t) = depth t + 1

  depth_pos : (t : Table K X) → 0 < depth t
  depth_pos (first h) = omega arith
  depth_pos (over h t) = omega arith

  depth-le :
      (slack : ℕ) (t : Table K X) (keys : List K)
      → Chain slack t keys
      → depth t * 1024 ≤ (newest t).alloc
  depth-le slack (first h) keys w = omega arith
  depth-le slack (over h t) keys (own, older, e, l, a, w) =
      omega (arith, depth-le 4 t older w, depth_pos t)

  length_keys :
      (slack : ℕ) (t : Table K X) (keys : List K)
      → slack ≤ 4
      → Chain slack t keys
      → length keys * 4 ≤ (newest t).alloc * 2 + depth t * 4
  length_keys slack (first h) keys small (l, _) = omega (arith, l.few)
  length_keys slack (over h t) keys small (own, older, e, l, a, w) =
      let n : length keys ≡ length own + length older = rw e (length-append own older) in
      omega (arith, l.few, length_keys 4 t older (omega arith) w)

  -- The lists with which the newest array of a chain is well formed.
  pub newest-LayerOf :
      (slack : ℕ) (t : Table K X) (keys : List K)
      → Chain slack t keys
      → (own older : List K) × (keys ≡ own ++ older) × LayerOf slack (newest t) own older
  newest-LayerOf slack (first h) keys (l, _) = (keys, [], sym (append-nil keys), l)
  newest-LayerOf slack (over h t) keys (own, older, e, l, a, w) = (own, older, e, l)

  -- In every well-formed chain of arrays (with a slack of at most 4) the newest array has fewer
  -- keys than cells, so that a probe for a key that it does not have ends at a free cell.
  pub newest-HasRoom :
      (slack : ℕ) (t : Table K X) (keys : List K)
      → slack ≤ 4
      → Chain slack t keys
      → HasRoom kind (newest t)
  newest-HasRoom slack t keys small w =
      let (own, older, e, l) = newest-LayerOf slack t keys w in
      let few : (newest t).len ≤ length keys =
        rw e (len-le-length kind (newest t) l.valid (own ++ older) l.within) in
      omega (arith, length_keys slack t keys small w, depth-le slack t keys w, depth_pos t)

  -- Every key with a value is in the list.
  pub has_of_view :
      (slack : ℕ) (t : Table K X) (keys : List K) (key : K)
      → Chain slack t keys
      → view kind t key ≢ 0
      → has kind key keys ≡ true
  has_of_view slack (first h) keys key (l, _) ne =
      elim (Option-cases (lookup_cells kind h.cells key)) [
        | inl gone ↦ absurd (ne (rw gone))
        | inr (v, e) ↦ rw append-nil at (l.within key (λ gone. cc))
      ]
  has_of_view slack (over h t) keys key (own, older, e, l, a, w) ne =
      elim (Option-cases (lookup_cells kind h.cells key)) [
        | inl gone ↦
            let there = has_of_view 4 t older key w (λ z. ne (rw (gone, view) z)) in
            rw (e, has-append kind key own older, there) (ground arith)
        | inr (v, q) ↦ rw e (l.within key (λ gone. cc))
      ]

  -- An update of a listed key, such as a copy from an older array, keeps the lists.
  pub updated-LayerOf :
      (slack : ℕ) (h h' : Layer K X) (own older : List K) (key : K) (new_value old_value res : ℕ)
      → LayerOf slack h own older
      → has kind key (own ++ older) ≡ true
      → Updates kind h key new_value old_value res h'
      → LayerOf slack h' own older
  updated-LayerOf slack h h' own older key new_value old_value res l there u = record {
    valid = u.valid;
    within = λ k held. elim (Bool-cases (kind.same key k)) [
      | inl t ↦ rw (← (kind.same_iff key k).0 t) there
      | inr f ↦ l.within k (λ gone. held (u.written k ∙ rw f gone))
    ];
    few = omega (arith, l.few, u.same_alloc);
    counted = omega (arith, l.counted, u.grown);
  }

  -- An insertion adds the key to the array's own.
  pub inserted-LayerOf :
      (slack slack' : ℕ) (h h' : Layer K X) (own older : List K) (key : K)
      (new_value old_value res : ℕ)
      → LayerOf slack h own older
      → lookup_cells kind h.cells key ≡ none
      → (length own + 1) * 4 ≤ h.alloc + slack'
      → Updates kind h key new_value old_value res h'
      → LayerOf slack' h' (key ∷ own) older
  inserted-LayerOf slack slack' h h' own older key new_value old_value res l gone small u = record {
    valid = u.valid;
    within = λ k held. elim (Bool-cases (kind.same key k)) [
      | inl t ↦ rw t
      | inr f ↦ rw f (l.within k (λ out. held (u.written k ∙ rw f out)))
    ];
    few = omega (arith, u.same_alloc);
    counted = let n : h'.len ≡ h.len + 1 = u.grown ∙ rw gone in omega (arith, l.counted);
  }
