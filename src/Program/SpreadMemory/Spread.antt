-- ===== src/Program/SpreadMemory/Spread.antt =====
-- `spreadMemory` of codegen/memoryAllocator.cpp, whichever of the two orders it takes.
use hivelang.Prelude.{
  ℕ, zero, suc, ◌+◌, ◌-◌, ◌%◌, ◌<◌, ltb, ◌≡◌, refl, ap, sym, subst, ◌∙◌, some, List, [], ◌∷◌, map,
  length, get_elem?, set, All, inl, inr, Bool-cases, Option-cases, ℕ_discrete, get_elem?-set_self,
  get_elem?-set_ne, lt_of_get_elem?, length-set,
}
use hivelang.Program.SpreadMemory.{get_memory, shuffle, spread_memory}
use hivelang.Program.SpreadMemory.Places.{AllApart, IsAligned, memory_map_lem}

abbrev pub Has : List ℕ → ℕ → Type 0
Has xs v = (i : ℕ) × (get_elem? xs i ≡ some v)

swapped-Has :
    (xs : List ℕ) (j k a b v : ℕ)
    → get_elem? xs k ≡ some a
    → get_elem? xs j ≡ some b
    → Has xs v
    → Has (set (set xs k b) j a) v
swapped-Has xs j k a b v at_k at_j (i, at_i) =
    let kn : k < length xs = lt_of_get_elem? xs k a at_k in
    let jn : j < length (set xs k b) =
      subst (λ n. j < n) (sym (length-set xs k b)) (lt_of_get_elem? xs j b at_j) in
    elim (ℕ_discrete i k) [
      | yes e ↦
          (j, get_elem?-set_self (set xs k b) j a jn ∙ sym at_k ∙ sym (ap (get_elem? xs) e) ∙ at_i)
      | no not_k ↦ elim (ℕ_discrete i j) [
        | yes e ↦ elim (ℕ_discrete k j) [
          | yes same ↦ absurd (not_k (e ∙ sym same))
          | no apart ↦ (
            k,
            get_elem?-set_ne (set xs k b) j k a (λ q. apart (sym q))
                ∙ get_elem?-set_self xs k b kn
                ∙ sym at_j
                ∙ sym (ap (get_elem? xs) e)
                ∙ at_i,
          )
        ]
        | no not_j ↦ (
          i,
          get_elem?-set_ne (set xs k b) j i a (λ q. not_j (sym q))
              ∙ get_elem?-set_ne xs k i b (λ q. not_k (sym q))
              ∙ at_i,
        )
      ]
    ]

shuffle-Has :
    (draws : ℕ → ℕ) (j n : ℕ) (xs : List ℕ) (v : ℕ) → Has xs v → Has (shuffle draws j n xs) v
unfolding shuffle
shuffle-Has draws j zero xs v h = h
shuffle-Has draws j (suc n) xs v h = elim (Option-cases (get_elem? xs (draws j % (j + 1)))) [
  | inl e ↦ rw (shuffle, e) (shuffle-Has draws (j + 1) n xs v h)
  | inr (a, e) ↦ elim (Option-cases (get_elem? xs j)) [
    | inl e' ↦ rw (shuffle, e) (rw (e') (shuffle-Has draws (j + 1) n xs v h))
    | inr (b, e') ↦
        rw (shuffle, e)
          (rw (e')
            (shuffle-Has draws (j + 1) n _ v (swapped-Has xs j (draws j % (j + 1)) a b v e e' h)))
  ]
]

everywhere {ℓ} : {A : Type ℓ} (P : A → Type 0) → ((a : A) → P a) → (xs : List A) → All P xs
everywhere P f [] = tt
everywhere P f (x ∷ xs) = (f x, everywhere P f xs)

module _ (size : ℕ → ℕ) (sized : (v : ℕ) → 0 < size v) where
  -- The places of variables in some order, in a memory of `top` bytes.
  abbrev pub IsSpread : List ℕ → List (ℕ × ℕ) → ℕ → Type 0
  IsSpread order res top =
      AllApart size res
      × All (IsAligned size top) res
      × ((v : ℕ) → Has order v → Has (map (λ (r : ℕ × ℕ). r.0) res) v)

  -- `spreadMemory` ends, and gives each variable of the order a place at a multiple of its size, in
  -- the memory that it says is used, so that no two places share a byte. The sizes of variables are
  -- not 0.
  pub spread_memory-IsSpread :
      (draws : ℕ → ℕ) (order : List ℕ)
      → (res : List (ℕ × ℕ)) × (top : ℕ) × (spread_memory size draws order ≡ some (res, top))
        × IsSpread order res top
  unfolding spread_memory get_memory
  spread_memory-IsSpread draws order =
      let shuffled : List ℕ = shuffle draws 1 (length order - 1) order in
      let (res, used, run, (names, all_apart, aligned, longer, free)) =
        memory_map_lem size order [] (everywhere _ sized order) in
      let (res', used', run', (names', all_apart', aligned', longer', free')) =
        memory_map_lem size shuffled [] (everywhere _ sized shuffled) in
      elim (Bool-cases (ltb (length used') (length used))) [
        | inl better ↦ (
          res',
          length used',
          rw (spread_memory, get_memory, run, run') (rw (better) (rw (run') refl)),
          (
            all_apart',
            aligned',
            λ v h.
                subst (λ vs. Has vs v) (sym names')
                  (shuffle-Has draws 1 (length order - 1) order v h),
          ),
        )
        | inr worse ↦ (
          res,
          length used,
          rw (spread_memory, get_memory, run, run') (rw (worse) (rw (run) refl)),
          (all_apart, aligned, λ v h. subst (λ vs. Has vs v) (sym names) h),
        )
      ]
