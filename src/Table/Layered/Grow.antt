-- ===== src/Table/Layered/Grow.antt =====
-- Growth of a hash table of api.c, and when a table is well formed between two operations.
use hivelang.Prelude.{
  ℕ, ◌*◌, ◌/◌, ltb, ◌≡◌, refl, ap, ◌≢◌, sym, ◌∙◌, Bool, true, false, List, [], ◌++◌, none, some,
  arith, inl, inr, Bool-cases, if◌then◌else◌, ◌&&◌, append_assoc, length-replicate, get_elem?,
  replicate, eq_of_get_elem?-replicate,
}
use hivelang.Prelude.Slots.{count-replicate}
use hivelang.Table.Kind.{Kind}
use hivelang.Table.Cells.{Cell, free}
use hivelang.Table.Layer.{Layer, lookup_cells, is_ready}
use hivelang.Table.Layer.Invariant.{IsLayer, HasRoom}
use hivelang.Table.Layer.Look.{lookup-eq-none}
use hivelang.Table.Layer.Update.{Updates}
use hivelang.Table.Layered.{Table, first, over, newest, replace_newest, view, grow, empty_layer}
use hivelang.Table.Layered.Read.{view-older}
use hivelang.Table.Layered.Chain.{LayerOf, Chain, newest-HasRoom, newest-LayerOf, updated-LayerOf}

module _ {ℓ} {K X : Type ℓ} (kind : Kind K X) where
  -- A table between two operations.
  pub record IsTable (t : Table K X) (keys : List K) : Type ℓ where
    pub chain : Chain kind 0 t keys
    pub still : (newest t).updating ≡ false

  -- A new array holds nothing.
  pub empty-LayerOf :
      (alloc : ℕ) (extra : X) (older : List K)
      → LayerOf kind 0 (empty_layer kind alloc extra) [] older
        × ((k : K) → lookup_cells kind (empty_layer kind alloc extra).cells k ≡ none)
  unfolding empty_layer
  empty-LayerOf alloc extra older =
      let zero_cell : Cell K = record { key = kind.blank; value = 0; state = free } in
      let zeroed : (i : ℕ) (c : Cell K)
          → get_elem? (replicate alloc zero_cell) i ≡ some c
          → c.state ≡ free =
        λ i c at. rw (eq_of_get_elem?-replicate alloc zero_cell i c at) in
      let holds_none : (k : K) → lookup_cells kind (replicate alloc zero_cell) k ≡ none = λ k.
        lookup-eq-none kind (replicate alloc zero_cell) k
          (λ i c at r. let e = zeroed i c at in absurd (cc)) in
      (
        record {
          valid = record {
            sized = length-replicate alloc zero_cell;
            placed = λ i c at r. let e = zeroed i c at in absurd (cc);
            settled = λ i c at r. let e = zeroed i c at in absurd (cc);
            counted = count-replicate is_ready alloc zero_cell refl;
          };
          within = λ k held. absurd (held (holds_none k));
          few = omega arith;
          counted = omega arith;
        },
        holds_none,
      )

  -- Another newest array, with `pre` as further keys.
  pub replace-Chain :
      (slack slack' : ℕ) (t : Table K X) (h' : Layer K X) (keys pre : List K)
      → Chain kind slack t keys
      → h'.alloc ≡ (newest t).alloc
      → ((own older : List K)
          → LayerOf kind slack (newest t) own older
          → LayerOf kind slack' h' (pre ++ own) older)
      → Chain kind slack' (replace_newest t h') (pre ++ keys)
  replace-Chain slack slack' (first h) h' keys pre (l, big) same fill =
      (fill keys [] l, omega arith)
  replace-Chain slack slack' (over h t) h' keys pre (own, older, e, l, a, w) same fill =
      (pre ++ own, older, rw e (sym (append_assoc pre own older)), fill own older l, omega arith, w)

  -- What it holds, after an update of its newest array.
  pub view-replace :
      (t : Table K X) (h' : Layer K X) (key k : K) (new_value : ℕ) (writes : Bool)
      → lookup_cells kind h'.cells k ≡ (
          if kind.same key k && writes
          then some new_value
          else lookup_cells kind (newest t).cells k)
      → view kind (replace_newest t h') k
        ≡ (if kind.same key k && writes then new_value else view kind t k)
  view-replace (first h) h' key k new_value writes e =
      elim (Bool-cases (kind.same key k && writes)) [
        | inl y ↦ rw (e, y) refl
        | inr n ↦ rw (e, n) refl
      ]
  view-replace (over h t) h' key k new_value writes e =
      elim (Bool-cases (kind.same key k && writes)) [
        | inl y ↦ rw (y, view, e, y) refl
        | inr n ↦ rw (n, view, e, n) refl
      ]

  loosen-LayerOf :
      (h : Layer K X) (own older : List K) → LayerOf kind 0 h own older → LayerOf kind 4 h own older
  loosen-LayerOf h own older l = record {
    valid = l.valid;
    within = l.within;
    few = omega (arith, l.few);
    counted = l.counted;
  }

  pub loosen : (t : Table K X) (keys : List K) → Chain kind 0 t keys → Chain kind 4 t keys
  loosen (first h) keys (l, big) = (loosen-LayerOf h keys [] l, big)
  loosen (over h t) keys (own, older, e, l, a, w) =
      (own, older, e, loosen-LayerOf h own older l, a, w)

  module _ (h : Layer K X) where
    abbrev mark_updating : Layer K X
    mark_updating = record h { updating = true }

    marked-LayerOf :
        (slack : ℕ) (own older : List K)
        → LayerOf kind slack h own older
        → LayerOf kind slack mark_updating own older
    marked-LayerOf slack own older l = record {
      valid = record {
        sized = l.valid.sized;
        placed = l.valid.placed;
        settled = l.valid.settled;
        counted = l.valid.counted;
      };
      within = l.within;
      few = l.few;
      counted = l.counted;
    }

  pub newest-replace : (t : Table K X) (h' : Layer K X) → newest (replace_newest t h') ≡ h'
  newest-replace (first h) h' = refl
  newest-replace (over h t) h' = refl

  -- Growth keeps the table well formed and what it holds.
  pub grow-IsTable :
      (t : Table K X) (keys : List K) (inserted : Bool)
      → Chain kind 4 t keys
      → (newest t).updating ≡ false
      → ((inserted && ltb ((newest t).alloc / 4) (newest t).len) ≡ false → Chain kind 0 t keys)
      → IsTable (grow kind inserted t) keys
        × ((k : K) → view kind (grow kind inserted t) k ≡ view kind t k)
  unfolding grow
  grow-IsTable t keys inserted w still calm =
      elim (Bool-cases (inserted && ltb ((newest t).alloc / 4) (newest t).len)) [
        | inr f ↦ rw f (record { chain = calm f; still = still }, λ k. refl)
        | inl y ↦
            let m = mark_updating (newest t) in
            let (l, holds_none) =
              empty-LayerOf (2 * (newest t).alloc) (kind.renew (newest t).extra) keys in
            let w' = replace-Chain 4 4 t m keys [] w refl (marked-LayerOf (newest t) 4) in
            rw (y, still)
              (
                record {
                  chain = (
                    [],
                    keys,
                    refl,
                    l,
                    unfold empty_layer in
                        ap (λ (x : Layer K X). 2 * x.alloc) (sym (newest-replace t m)),
                    w',
                  );
                  still = unfold empty_layer in refl;
                },
                λ k.
                    view-older kind
                      (empty_layer kind (2 * (newest t).alloc) (kind.renew (newest t).extra))
                      (replace_newest t m) k (holds_none k)
                    ∙ view-replace t m k k 0 false (ground arith)
                    ∙ ground arith,
              )
      ]

  -- A write over a key of the newest array keeps the table well formed.
  pub replaced-Chain :
      (slack : ℕ) (t : Table K X) (keys : List K) (h' : Layer K X) (key : K)
      (new_value old_value res : ℕ)
      → Chain kind slack t keys
      → lookup_cells kind (newest t).cells key ≢ none
      → Updates kind (newest t) key new_value old_value res h'
      → Chain kind slack (replace_newest t h') keys
  replaced-Chain slack t keys h' key new_value old_value res w there u =
      replace-Chain slack slack t h' keys [] w u.same_alloc (λ own older l.
        updated-LayerOf kind slack (newest t) h' own older key new_value old_value res l
          (l.within key there) u)

  -- A table between two operations has a free cell in its newest array.
  pub IsTable-HasRoom : (t : Table K X) (keys : List K) → IsTable t keys → HasRoom kind (newest t)
  IsTable-HasRoom t keys w = newest-HasRoom kind 0 t keys (omega arith) w.chain

  pub IsTable-IsLayer : (t : Table K X) (keys : List K) → IsTable t keys → IsLayer kind (newest t)
  IsTable-IsLayer t keys w = (newest-LayerOf kind 0 t keys w.chain).3.valid
