-- ===== src/Table/Layer/Capacity.antt =====
-- An array of api.c whose keys come from a list has no more of them than the list.
use hivelang.Prelude.{
  ℕ, zero, suc, ◌+◌, ◌≤◌, ◌≡◌, refl, ◌≢◌, inl, inr, Bool, true, false, if◌then◌else◌, List, [], ◌∷◌,
  ◌++◌, none, some, get_elem?, length, arith, Bool-cases,
}
use hivelang.Prelude.Slots.{count}
use hivelang.Table.Cells.{Cell, CellState, free, busy, ready}
use hivelang.Table.Kind.{Kind}
use hivelang.Table.Layer.{Layer, halts, lookup_cells, is_ready}
use hivelang.Table.Layer.Invariant.{IsLayer, placed_unique}
use hivelang.Table.Layer.Look.{lookup-probe}

module _ {ℓ} {K X : Type ℓ} (kind : Kind K X) where
  abbrev pub has : K → List K → Bool
  has k [] = false
  has k (x ∷ xs) = if kind.same x k then true else has k xs

  remove : K → List K → List K
  remove k [] = []
  remove k (x ∷ xs) = if kind.same x k then xs else x ∷ remove k xs

  length-remove : (k : K) (xs : List K) → has k xs ≡ true → length (remove k xs) + 1 ≡ length xs
  unfolding remove
  length-remove k [] h = cc
  length-remove k (x ∷ xs) h = ground (arith, length-remove k xs)

  has-remove : (k j : K) (xs : List K) → kind.same k j ≡ false → has j (remove k xs) ≡ has j xs
  unfolding remove
  has-remove k j [] h = refl
  has-remove k j (x ∷ xs) h = elim (Bool-cases (kind.same x k)) [
    | inl t ↦ let e = (kind.same_iff x k).0 t in rw (t, e, h) refl
    | inr f ↦ rw f (rw (has-remove k j xs h) refl)
  ]

  pub has-append :
      (k : K) (xs ys : List K) → has k (xs ++ ys) ≡ (if has k xs then true else has k ys)
  has-append k [] ys = refl
  has-append k (x ∷ xs) ys = ground (arith, has-append k xs ys)

  count-le-length :
      (cells : List (Cell K)) (ks : List K)
      → ((i : ℕ) (c : Cell K) → get_elem? cells i ≡ some c → c.state ≡ ready → has c.key ks ≡ true)
      → ((i j : ℕ) (c d : Cell K)
          → get_elem? cells i ≡ some c
          → get_elem? cells j ≡ some d
          → c.state ≡ ready
          → d.state ≡ ready
          → c.key ≡ d.key
          → i ≡ j)
      → count is_ready cells ≤ length ks
  count-le-length [] ks within apart = omega arith
  count-le-length (c ∷ cells) ks within apart = go c.state refl (λ ks' w.
      count-le-length cells ks' w
        (λ i j x y a b r r' e. omega (arith, apart (suc i) (suc j) x y a b r r' e)))
    where
      rest_within :
          (i : ℕ) (x : Cell K)
          → c.state ≡ ready
          → get_elem? cells i ≡ some x
          → x.state ≡ ready
          → has x.key (remove c.key ks) ≡ true
      rest_within i x q a r = elim (Bool-cases (kind.same c.key x.key)) [
        | inl t ↦
            absurd (omega (arith, apart zero (suc i) c x refl a q r ((kind.same_iff _ _).0 t)))
        | inr f ↦ rw (has-remove c.key x.key ks f) (within (suc i) x a r)
      ]

      go :
          (st : CellState)
          → c.state ≡ st
          → ((ks' : List K)
              → ((i : ℕ) (x : Cell K)
                  → get_elem? cells i ≡ some x
                  → x.state ≡ ready
                  → has x.key ks' ≡ true)
              → count is_ready cells ≤ length ks')
          → count is_ready (c ∷ cells) ≤ length ks
      go free e rest = ground (arith, rest ks (λ i x a r. within (suc i) x a r))
      go busy e rest = ground (arith, rest ks (λ i x a r. within (suc i) x a r))
      go ready e rest =
          let here = within zero c refl e in
          let less = rest (remove c.key ks) (λ i x a r. rest_within i x e a r) in
          ground (arith, less, length-remove c.key ks here)

  pub len-le-length :
      (h : Layer K X)
      → IsLayer kind h
      → (ks : List K) → ((k : K) → lookup_cells kind h.cells k ≢ none → has k ks ≡ true)
      → h.len ≤ length ks
  len-le-length h v ks within = omega (
    arith,
    v.counted,
    count-le-length h.cells ks
        (λ i c at r. within c.key (λ gone.
          let s : halts kind true c.key c ≡ true = rw r ((kind.same_iff _ _).1 refl) in
          elim (lookup-probe kind h v c.key i c (v.placed i c at r) at s) [
            | inl (f, _) ↦ cc
            | inr (_, _, e) ↦ cc
          ]))
        (placed_unique kind h v),
  )
