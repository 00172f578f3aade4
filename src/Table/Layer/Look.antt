-- ===== src/Table/Layer/Look.antt =====
-- The loop that looks a key up in one array of api.c finds what the array holds.
use hivelang.Prelude.{
  ℕ, zero, suc, ◌≡◌, refl, ap, sym, ◌∙◌, inl, inr, true, false, ◌>>=◌, List, [], ◌∷◌, none, some,
  get_elem?, set, arith, Bool-cases, some-inj, ◌⊎◌,
}
use hivelang.Table.Cells.{Cell, CellState, free, busy, ready}
use hivelang.Table.Kind.{Kind}
use hivelang.Table.Layer.{Layer, halts, probe, look, lookup_cells}
use hivelang.Table.Layer.Invariant.{IsLayer, HasRoom, probe_total}

module _ {ℓ} {K X : Type ℓ} (kind : Kind K X) where
  pub lookup-eq-none :
      (cells : List (Cell K)) (key : K)
      → ((i : ℕ) (c : Cell K)
          → get_elem? cells i ≡ some c
          → c.state ≡ ready
          → kind.same c.key key ≡ false)
      → lookup_cells kind cells key ≡ none
  lookup-eq-none [] key absent = refl
  lookup-eq-none (c ∷ cells) key absent =
      let rest = lookup-eq-none cells key (λ i d at. absent (suc i) d at) in
      ground (arith, absent zero c refl, rest)

  pub lookup-eq-some :
      (cells : List (Cell K)) (key : K) (j : ℕ) (c : Cell K)
      → get_elem? cells j ≡ some c
      → c.state ≡ ready
      → kind.same c.key key ≡ true
      → ((i : ℕ) (d : Cell K)
          → get_elem? cells i ≡ some d
          → d.state ≡ ready
          → kind.same d.key key ≡ true
          → i ≡ j)
      → lookup_cells kind cells key ≡ some c.value
  lookup-eq-some [] key j c at r s one = absurd (cc)
  lookup-eq-some (d ∷ cells) key zero c at r s one = ground arith
  lookup-eq-some (d ∷ cells) key (suc j) c at r s one =
      let rest =
        lookup-eq-some cells key j c at r s
          (λ i x at' r' s'. omega (arith, one (suc i) x at' r' s')) in
      ground (arith, one zero d refl, rest)

  -- A write over a cell that did not have the key, by a cell that does not have it, is not seen.
  pub lookup-set_ne :
      (cells : List (Cell K)) (p : ℕ) (c d : Cell K) (key : K)
      → get_elem? cells p ≡ some c
      → (c.state ≡ ready → kind.same c.key key ≡ false)
      → kind.same d.key key ≡ false
      → lookup_cells kind (set cells p d) key ≡ lookup_cells kind cells key
  lookup-set_ne [] p c d key at out out' = refl
  lookup-set_ne (x ∷ cells) zero c d key at out out' = ground (arith, out)
  lookup-set_ne (x ∷ cells) (suc p) c d key at out out' =
      ground (arith, lookup-set_ne cells p c d key at out out')

  module _ (h : Layer K X) (v : IsLayer kind h) where
    -- What a probe ends at is what the array holds of the key.
    pub lookup-probe :
        (key : K) (j : ℕ) (c : Cell K)
        → probe kind true h key ≡ some j
        → get_elem? h.cells j ≡ some c
        → halts kind true key c ≡ true
        → ((c.state ≡ free) × (lookup_cells kind h.cells key ≡ none))
          ⊎ ((c.state ≡ ready) × (c.key ≡ key) × (lookup_cells kind h.cells key ≡ some c.value))
    lookup-probe key j c e at s = go c.state refl
      where
        here :
            (i : ℕ) (d : Cell K)
            → get_elem? h.cells i ≡ some d
            → d.state ≡ ready
            → kind.same d.key key ≡ true
            → i ≡ j
        here i d at' r t =
            some-inj (
              sym (v.placed i d at' r) ∙ ap (probe kind true h) ((kind.same_iff d.key key).0 t) ∙ e)

        go :
            (st : CellState)
            → c.state ≡ st
            → ((c.state ≡ free) × (lookup_cells kind h.cells key ≡ none))
              ⊎ ((c.state ≡ ready) × (c.key ≡ key) × (lookup_cells kind h.cells key ≡ some c.value))
        go busy q = absurd (v.settled j c at q)
        go free q = inl (
          q,
          lookup-eq-none h.cells key (λ i d at' r. elim (Bool-cases (kind.same d.key key)) [
            | inr f ↦ f
            | inl t ↦ let same_place = here i d at' r t in absurd (ground arith)
          ]),
        )
        go ready q =
            let t : kind.same c.key key ≡ true = ground arith in
            inr (q, (kind.same_iff c.key key).0 t, lookup-eq-some h.cells key j c at q t here)

    -- On a well-formed array that is not full, the loop that looks a key up ends, and finds what a
    -- search through all cells finds.
    pub look-eq-lookup :
        (key : K) → HasRoom kind h → look kind h key ≡ some (lookup_cells kind h.cells key)
    unfolding look
    look-eq-lookup key room =
        let (j, c, e, at, s) = probe_total kind h v key room in
        elim (lookup-probe key j c e at s) [
          | inl (q, r) ↦ rw (e, ◌>>=◌, at, q) (rw r)
          | inr (q, _, r) ↦ rw (e, ◌>>=◌, at, q) (rw r)
        ]
