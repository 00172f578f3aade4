-- ===== src/Table/Layered/Read.antt =====
-- `GetHashtable` and `i64GetHashtable` of api.c: the answer, and what the copying leaves alone.
use hivelang.Prelude.{
  ℕ, ◌≤◌, ◌≡◌, refl, ◌≢◌, sym, ◌∙◌, true, List, ◌++◌, none, some, ◌>>=◌, arith, inl, inr,
  Option-cases, Bool-cases, ne→==, ℕ_discrete,
}
use hivelang.Table.Kind.{Kind}
use hivelang.Table.Layer.{Layer, look, lookup_cells, raw_update}
use hivelang.Table.Layer.Look.{look-eq-lookup}
use hivelang.Table.Layer.Update.{raw_update-Updates}
use hivelang.Table.Layered.{Table, first, over, newest, view, get, adopt}
use hivelang.Table.Layered.Chain.{Chain, newest-HasRoom, has_of_view, updated-LayerOf}
use hivelang.Table.Layer.Capacity.{has, has-append}

module _ {ℓ} {K X : Type ℓ} (kind : Kind K X) where
  -- What a look-up leaves: a table that holds the same, with the key in the newest array if it has
  -- a value.
  pub record Looked (slack : ℕ) (t : Table K X) (keys : List K) (key : K) (t' : Table K X)
      : Type ℓ where
    pub chain : Chain kind slack t' keys
    pub same_view : (k : K) → view kind t' k ≡ view kind t k
    pub same_alloc : (newest t').alloc ≡ (newest t).alloc
    pub same_updating : (newest t').updating ≡ (newest t).updating
    pub in_newest :
        view kind t key ≢ 0 → lookup_cells kind (newest t').cells key ≡ some (view kind t key)

  abbrev pub LookupEnds : ℕ → Table K X → List K → K → Type ℓ
  LookupEnds slack t keys key =
      (t' : Table K X) × (get kind t key ≡ some (view kind t key, t')) × Looked slack t keys key t'

  pub view-newest :
      (t : Table K X) (key : K) (v : ℕ)
      → lookup_cells kind (newest t).cells key ≡ some v
      → view kind t key ≡ v
  view-newest (first h) key v e = rw e
  view-newest (over h t) key v e = rw (e, view)

  pub view-older :
      (h : Layer K X) (t : Table K X) (key : K)
      → lookup_cells kind h.cells key ≡ none
      → view kind (over h t) key ≡ view kind t key
  view-older h t key e = rw (e, view)

  view_over :
      (h : Layer K X) (t t' : Table K X)
      → ((k : K) → view kind t' k ≡ view kind t k)
      → (k : K) → view kind (over h t') k ≡ view kind (over h t) k
  view_over h t t' same k = elim (Option-cases (lookup_cells kind h.cells k)) [
    | inl e ↦ rw (e, view) (same k)
    | inr (v, e) ↦ rw (e, view) refl
  ]

  module _ (slack : ℕ) (h : Layer K X) (t : Table K X) (keys : List K) (key : K) (small : slack ≤ 4)
      (w : Chain kind slack (over h t) keys) where
    look_newest : look kind h key ≡ some (lookup_cells kind h.cells key)
    look_newest =
        look-eq-lookup kind h w.3.valid key (newest-HasRoom kind slack (over h t) keys small w)

    -- The key is found in the newest array.
    get_found :
        (v : ℕ) → lookup_cells kind h.cells key ≡ some v → LookupEnds slack (over h t) keys key
    unfolding get
    get_found v there =
        let is_v = view-newest (over h t) key v there in
        (
          over h t,
          rw (is_v, look_newest, ◌>>=◌, there) refl,
          record {
            chain = w;
            same_view = λ k. refl;
            same_alloc = refl;
            same_updating = refl;
            in_newest = λ ne. rw (is_v, there) refl;
          },
        )

    module _ (gone : lookup_cells kind h.cells key ≡ none) (t' : Table K X)
        (older : get kind t key ≡ some (view kind t key, t')) (l : Looked 4 t w.1 key t') where
      -- It is not, and the older arrays have no value for it.
      pub absent-Looked : view kind t key ≡ 0 → Looked slack (over h t) keys key (over h t')
      absent-Looked zero' =
          let is_zero : view kind (over h t) key ≡ 0 = view-older h t key gone ∙ zero' in
          record {
            chain = (w.0, w.1, w.2, w.3, omega (arith, w.4, l.same_alloc), l.chain);
            same_view = view_over h t t' l.same_view;
            same_alloc = refl;
            same_updating = refl;
            in_newest = λ ne. absurd (ne is_zero);
          }

      -- It is not, and they have one: it is copied into the newest array.
      pub copied-Looked :
          view kind t key ≢ 0
          → (h' : Layer K X) × (raw_update kind h key (view kind t key) 0 ≡ some (0, h'))
            × Looked slack (over h t) keys key (over h' t')
      copied-Looked ne =
          let is_old : view kind (over h t) key ≡ view kind t key = view-older h t key gone in
          let (res, h', e, u) =
            raw_update-Updates kind h w.3.valid key (view kind t key) 0
              (newest-HasRoom kind slack (over h t) keys small w) (inl kind.claims_zero) in
          let res_zero : res ≡ 0 = u.returned ∙ rw gone in
          let held : lookup_cells kind h'.cells key ≡ some (view kind t key) =
            u.written key ∙ rw ((kind.same_iff key key).1 refl, gone) refl in
          let listed : has kind key (w.0 ++ w.1) ≡ true =
            rw (has-append kind key w.0 w.1, has_of_view kind 4 t w.1 key w.5 ne) (ground arith) in
          (
            h',
            e ∙ rw res_zero refl,
            record {
              chain = (
                w.0,
                w.1,
                w.2,
                updated-LayerOf kind slack h h' w.0 w.1 key _ 0 res w.3 listed u,
                omega (arith, w.4, l.same_alloc, u.same_alloc),
                l.chain,
              );
              same_view = λ k. elim (Bool-cases (kind.same key k)) [
                | inl t₁ ↦
                    let q = (kind.same_iff key k).0 t₁ in
                    rw (← q) (view-newest (over h' t') key _ held ∙ sym is_old)
                | inr f ↦
                    let same_here : lookup_cells kind h'.cells k ≡ lookup_cells kind h.cells k =
                      u.written k ∙ rw f refl in
                    rw (view, same_here) (view_over h t t' l.same_view k)
              ];
              same_alloc = u.same_alloc;
              same_updating = u.same_updating;
              in_newest = λ _. rw (is_old, held) refl;
            },
          )

      get_missed : LookupEnds slack (over h t) keys key
      unfolding get adopt
      get_missed =
          let is_old : view kind (over h t) key ≡ view kind t key = view-older h t key gone in
          elim (ℕ_discrete (view kind t key) 0) [
            | yes z ↦
                (over h t', rw (is_old, look_newest, ◌>>=◌, gone, older, z) refl, absent-Looked z)
            | no ne ↦
                let (h', e, lk) = copied-Looked ne in
                (over h' t', rw (is_old, look_newest, ◌>>=◌, gone, older, ne→== _ 0 ne, e) refl, lk)
          ]

  -- `GetHashtable` and `i64GetHashtable` end on every well-formed chain of arrays (with a slack of
  -- at most 4) and answer the value that the table holds for the key, 0 if it holds none. The table
  -- holds the same afterwards, is well formed, and its newest array has the key if it has a value.
  pub get-Looked :
      (slack : ℕ) (t : Table K X) (keys : List K) (key : K)
      → slack ≤ 4
      → Chain kind slack t keys
      → LookupEnds slack t keys key
  unfolding get
  get-Looked slack (first h) keys key small w =
      let e =
        look-eq-lookup kind h w.0.valid key (newest-HasRoom kind slack (first h) keys small w) in
      (
        first h,
        rw e refl,
        record {
          chain = w;
          same_view = λ k. refl;
          same_alloc = refl;
          same_updating = refl;
          in_newest = λ ne. elim (Option-cases (lookup_cells kind h.cells key)) [
            | inl gone ↦ absurd (ne (rw gone))
            | inr (v, there) ↦ rw there refl
          ];
        },
      )
  get-Looked slack (over h t) keys key small w =
      elim (Option-cases (lookup_cells kind h.cells key)) [
        | inr (v, there) ↦ get_found slack h t keys key small w v there
        | inl gone ↦
            let (t', older, l) = get-Looked 4 t w.1 key (omega arith) w.5 in
            get_missed slack h t keys key small w gone t' older l
      ]
