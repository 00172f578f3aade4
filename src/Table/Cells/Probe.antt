-- ===== src/Table/Cells/Probe.antt =====
-- Facts about the probing loop of api.c.
use hivelang.Prelude.{
  ℕ, zero, suc, ◌+◌, ◌-◌, ◌<◌, leb, ◌≡◌, refl, ◌≢◌, inl, inr, Bool, true, false, if◌then◌else◌,
  List, some, get_elem?, set, length, arith, Bool-cases, Option-cases, ◌∙◌, ℕ_discrete,
  get_elem?_lt, lt_of_get_elem?, get_elem?-set_self, get_elem?-set_ne,
}
use hivelang.Table.Cells.{Cell, scan, next_index}

-- How many steps the loop takes from `i` to `q`, going round at the end.
abbrev rounds_to : ℕ → ℕ → ℕ → ℕ
rounds_to alloc i q = if leb i q then q - i else alloc + q - i

rounds_to-next :
    (alloc i q : ℕ)
    → i < alloc
    → q < alloc
    → i ≢ q
    → (rounds_to alloc (next_index alloc i) q < rounds_to alloc i q) × (next_index alloc i < alloc)
unfolding next_index
rounds_to-next alloc i q hi hq ne = ground arith

module _ {ℓ} {K : Type ℓ} (alloc : ℕ) where
  -- The loop ends at a cell that stops it.
  pub scan-stops :
      (stop : Cell K → Bool) (n : ℕ) (cells : List (Cell K)) (i j : ℕ)
      → scan n alloc stop cells i ≡ some j
      → (c : Cell K) × (get_elem? cells j ≡ some c) × (stop c ≡ true)
  unfolding scan
  scan-stops stop zero cells i j h = absurd (cc)
  scan-stops stop (suc n) cells i j h = elim (Option-cases (get_elem? cells i)) [
    | inl e ↦ absurd (ground arith)
    | inr (c, e) ↦ elim (Bool-cases (stop c)) [
      | inl s ↦ (c, ground arith, s)
      | inr s ↦ scan-stops stop n cells (next_index alloc i) j (ground arith)
    ]
  ]

  -- Where some cell stops it, the loop ends within one turn.
  scan_total_fuel :
      (stop : Cell K → Bool) (n : ℕ) (cells : List (Cell K)) (i q : ℕ) (c : Cell K)
      → length cells ≡ alloc
      → i < alloc
      → get_elem? cells q ≡ some c
      → stop c ≡ true
      → rounds_to alloc i q < n
      → (j : ℕ) × (scan n alloc stop cells i ≡ some j)
  unfolding scan
  scan_total_fuel stop zero cells i q c len hi at s h = elim h [ ]
  scan_total_fuel stop (suc n) cells i q c len hi at s h =
      let (d, here) = get_elem?_lt cells i (omega arith) in
      elim (Bool-cases (stop d)) [
        | inl e ↦ (i, ground arith)
        | inr e ↦
            let hq : q < alloc = omega (arith, lt_of_get_elem? cells q c at) in
            let ne : i ≢ q = λ eq. ground arith in
            let (less, inside) = rounds_to-next alloc i q hi hq ne in
            let (j, found) =
              scan_total_fuel stop n cells (next_index alloc i) q c len inside at s (omega arith) in
            (j, ground arith)
      ]

  pub scan_total :
      (stop : Cell K → Bool) (cells : List (Cell K)) (i q : ℕ) (c : Cell K)
      → length cells ≡ alloc
      → i < alloc
      → get_elem? cells q ≡ some c
      → stop c ≡ true
      → (j : ℕ) × (scan alloc alloc stop cells i ≡ some j)
  scan_total stop cells i q c len hi at s =
      scan_total_fuel stop alloc cells i q c len hi at s
        (ground (arith, lt_of_get_elem? cells q c at))

  -- A loop that ends at `j` does not notice a write to another cell that would have stopped it.
  pub scan-set_ne :
      (stop : Cell K → Bool) (n : ℕ) (cells : List (Cell K)) (i j p : ℕ) (c d : Cell K)
      → get_elem? cells p ≡ some c
      → stop c ≡ true
      → p ≢ j
      → scan n alloc stop cells i ≡ some j
      → scan n alloc stop (set cells p d) i ≡ some j
  unfolding scan
  scan-set_ne stop zero cells i j p c d at s ne h = absurd (cc)
  scan-set_ne stop (suc n) cells i j p c d at s ne h = elim (Option-cases (get_elem? cells i)) [
    | inl e ↦ absurd (ground arith)
    | inr (x, e) ↦ elim (Bool-cases (stop x)) [
      | inl t ↦
          let q : i ≡ j = ground arith in
          ground (arith, get_elem?-set_ne cells p i d (λ eq. ne (eq ∙ q)))
      | inr t ↦
          let apart : p ≢ i = λ eq. ground arith in
          ground (
            arith,
            get_elem?-set_ne cells p i d apart,
            scan-set_ne stop n cells (next_index alloc i) j p c d at s ne,
          )
    ]
  ]

  -- Nor a write to its own cell that stops it again.
  pub scan-set_self :
      (stop : Cell K → Bool) (n : ℕ) (cells : List (Cell K)) (i p : ℕ) (d : Cell K)
      → stop d ≡ true
      → scan n alloc stop cells i ≡ some p
      → scan n alloc stop (set cells p d) i ≡ some p
  unfolding scan
  scan-set_self stop zero cells i p d s h = absurd (cc)
  scan-set_self stop (suc n) cells i p d s h = elim (Option-cases (get_elem? cells i)) [
    | inl e ↦ absurd (ground arith)
    | inr (x, e) ↦ elim (Bool-cases (stop x)) [
      | inl t ↦
          let q : i ≡ p = ground arith in
          ground (arith, get_elem?-set_self cells i d (lt_of_get_elem? cells i x e))
      | inr t ↦ elim (ℕ_discrete p i) [
        | yes q ↦ ground (arith, get_elem?-set_self cells i d (lt_of_get_elem? cells i x e))
        | no apart ↦ ground (
          arith,
          get_elem?-set_ne cells p i d apart,
          scan-set_self stop n cells (next_index alloc i) p d s,
        )
      ]
    ]
  ]

  -- Two loops end alike where the second stops at no cell that the first passes.
  pub scan_agree :
      (stop stop' : Cell K → Bool) (n : ℕ) (cells : List (Cell K)) (i j : ℕ) (c : Cell K)
      → ((d : Cell K) → stop d ≡ false → stop' d ≡ false)
      → get_elem? cells j ≡ some c
      → stop' c ≡ true
      → scan n alloc stop cells i ≡ some j
      → scan n alloc stop' cells i ≡ some j
  unfolding scan
  scan_agree stop stop' zero cells i j c pass at s h = absurd (cc)
  scan_agree stop stop' (suc n) cells i j c pass at s h = elim (Option-cases (get_elem? cells i)) [
    | inl e ↦ absurd (ground arith)
    | inr (x, e) ↦ elim (Bool-cases (stop x)) [
      | inl t ↦ let q : i ≡ j = ground arith in ground arith
      | inr t ↦
          ground (arith, pass x t, scan_agree stop stop' n cells (next_index alloc i) j c pass at s)
    ]
  ]

  -- A write that stops the loop exactly where the old cell did changes nothing for it.
  pub scan-set_same :
      (stop : Cell K → Bool) (n : ℕ) (cells : List (Cell K)) (i p : ℕ) (c d : Cell K)
      → get_elem? cells p ≡ some c
      → stop d ≡ stop c
      → scan n alloc stop (set cells p d) i ≡ scan n alloc stop cells i
  unfolding scan
  scan-set_same stop zero cells i p c d at s = refl
  scan-set_same stop (suc n) cells i p c d at s = elim (ℕ_discrete p i) [
    | yes q ↦ ground (
      arith,
      get_elem?-set_self cells p d (lt_of_get_elem? cells p c at),
      scan-set_same stop n cells (next_index alloc i) p c d at s,
    )
    | no apart ↦ ground (
      arith,
      get_elem?-set_ne cells p i d apart,
      scan-set_same stop n cells (next_index alloc i) p c d at s,
    )
  ]
