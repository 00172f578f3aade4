-- ===== src/Program/SpreadMemory/Places.antt =====
-- No two variables share a cell.
use hivelang.Prelude.{
  ℕ, zero, suc, ◌+◌, ◌-◌, ◌*◌, ◌%◌, ◌≤◌, ◌<◌, ◌==◌, ltb, ◌≡◌, ◌≢◌, refl, ap, sym, subst, ◌∙◌, Bool,
  true, false, if◌then◌else◌, some, ◌>>=◌, List, [], ◌∷◌, ◌++◌, map, length, set, All, All-imp, ◌⊎◌,
  inl, inr, arith, length-append, length-set, get_elem?_lt, get_elem?-set_self, get_elem?-set_ne,
  Bool-cases, ne→==, dec_lt, ℕ_discrete, lt→leb, le→leb,
}
use hivelang.Program.SpreadMemory.{
  is_busy, busy, with_cell, allocate_loop, insert_at, fill, allocate, memory_map,
}

busy-past : (used : List (List ℕ)) (k : ℕ) → length used ≤ k → busy used k ≡ false
busy-past [] k h = refl
busy-past (c ∷ used) zero h = absurd (omega arith)
busy-past (c ∷ used) (suc k) h = busy-past used k (omega arith)

busy-snoc : (used : List (List ℕ)) (k : ℕ) → busy (used ++ ([] ∷ [])) k ≡ busy used k
busy-snoc [] zero = refl
busy-snoc [] (suc k) = refl
busy-snoc (c ∷ used) zero = refl
busy-snoc (c ∷ used) (suc k) = busy-snoc used k

with_cell_lem :
    (used : List (List ℕ)) (i : ℕ)
    → i ≤ length used
    → (length used ≤ length (with_cell used i))
      × (i < length (with_cell used i))
      × ((k : ℕ) → busy (with_cell used i) k ≡ busy used k)
with_cell_lem used i h = elim (Bool-cases (ltb i (length used))) [
  | inl e ↦ rw (e) (omega arith, ground arith, λ k. refl)
  | inr e ↦ rw (e) (
    omega (arith, length-append used ([] ∷ [])),
    omega (arith, length-append used ([] ∷ [])),
    busy-snoc used,
  )
]

insert_at_lem :
    (used : List (List ℕ)) (j var : ℕ)
    → j < length used
    → (length (insert_at used j var) ≡ length used)
      × (busy (insert_at used j var) j ≡ true)
      × ((k : ℕ) → k ≢ j → busy (insert_at used j var) k ≡ busy used k)
insert_at_lem used j var h =
    let (cell, e) = get_elem?_lt used j h in
    let inserted : insert_at used j var ≡ set used j (var ∷ cell) = rw (insert_at, e) refl in
    subst
      (λ u.
        (length u ≡ length used) × (busy u j ≡ true) × ((k : ℕ) → k ≢ j → busy u k ≡ busy used k))
      (sym inserted)
      (
        length-set used j (var ∷ cell),
        ap is_busy (get_elem?-set_self used j (var ∷ cell) h),
        λ k apart. ap is_busy (get_elem?-set_ne used j k (var ∷ cell) (λ same. apart (sym same))),
      )

fill_lem :
    (used : List (List ℕ)) (start n var : ℕ)
    → start + n ≤ length used
    → (length (fill used start n var) ≡ length used)
      × ((k : ℕ) → start ≤ k → k < start + n → busy (fill used start n var) k ≡ true)
      × ((k : ℕ) → (k < start) ⊎ (start + n ≤ k) → busy (fill used start n var) k ≡ busy used k)
unfolding fill
fill_lem used start zero var h = (refl, λ k h₁ h₂. absurd (omega arith), λ k out. refl)
fill_lem used start (suc n) var h =
    let (size, here, others) = insert_at_lem used start var (omega arith) in
    let (size', inside, outside) =
      fill_lem (insert_at used start var) (start + 1) n var (omega arith) in
    (
      size' ∙ size,
      λ k h₁ h₂. elim (ℕ_discrete k start) [
        | yes e ↦
            outside k (inl (omega arith)) ∙ ap (λ j. busy (insert_at used start var) j) e ∙ here
        | no ne ↦ inside k (omega arith) (omega arith)
      ],
      λ k out. elim out [
        | inl before ↦ outside k (inl (omega arith)) ∙ others k (omega arith)
        | inr after ↦ outside k (inr (omega arith)) ∙ others k (omega arith)
      ],
    )

mod_zero : (L n : ℕ) → 0 < n → (L * n) % n ≡ 0
mod_zero L n h = grind arith

le_mul : (L n : ℕ) → 0 < n → L ≤ L * n
le_mul L n h = grind arith

-- A place for `n` cells at a multiple of `n`, none of them busy by `b`, in a list that has the cells.
abbrev IsPlace : (ℕ → Bool) → ℕ → ℕ → ℕ → List (List ℕ) → Type 0
IsPlace b n least start used =
    (start % n ≡ 0)
    × ((k : ℕ) → start ≤ k → k < start + n → b k ≡ false)
    × (start + n ≤ length used)
    × (least ≤ length used)
    × ((k : ℕ) → busy used k ≡ b k)

module _ (b : ℕ → Bool) (n least aligned : ℕ) (some_cell : 0 < n) (after : least ≤ aligned)
    (at_multiple : aligned % n ≡ 0) (past : (k : ℕ) → least ≤ k → b k ≡ false) where
  allocate_loop_lem :
      (fuel : ℕ) (used : List (List ℕ)) (i free : ℕ)
      → ((k : ℕ) → busy used k ≡ b k)
      → i ≤ length used
      → least ≤ length used
      → free ≤ i
      → free ≤ least
      → ((k : ℕ) → free ≤ k → k < i → b k ≡ false)
      → i < aligned + n
      → aligned + n ≤ i + fuel
      → (start : ℕ) × (used' : List (List ℕ)) × (allocate_loop fuel used i free n
          ≡ some (start, used'))
        × IsPlace b n least start used'
  unfolding allocate_loop
  allocate_loop_lem zero used i free same h₁ h₂ h₃ h₄ clear near enough = absurd (omega arith)
  allocate_loop_lem (suc fuel) used i free same h₁ h₂ h₃ h₄ clear near enough =
      let (longer, has_i, same_cells) = with_cell_lem used i h₁ in
      let used' : List (List ℕ) = with_cell used i in
      let same' : (k : ℕ) → busy used' k ≡ b k = λ k. same_cells k ∙ same k in
      let free' : ℕ = if busy used' i then i + 1 else free in
      let (f₁, f₂, clear') = free_lem used' i free (same' i) h₃ h₄ clear in
      let go_on : i + 1 < aligned + n
          → (start : ℕ) × (u : List (List ℕ)) × (allocate_loop fuel used' (i + 1) free' n
              ≡ some (start, u))
            × IsPlace b n least start u =
        λ nearer.
          allocate_loop_lem fuel used' (i + 1) free' same' (omega arith) (omega arith) f₁ f₂ clear'
            nearer (omega arith) in
      let positive : (n == 0) ≡ false = ne→== n 0 (omega arith) in
      elim (dec_lt (i + 1 - free') n) [
        | yes short ↦
            let (start, u, run, place) = go_on (omega arith) in
            (start, u, rw (allocate_loop, lt→leb n (i + 1 - free') short) run, place)
        | no room ↦ elim (ℕ_discrete ((i + 1 - n) % n) 0) [
          | yes fits ↦ (
            i + 1 - n,
            used',
            rw (allocate_loop, le→leb n (i + 1 - free') (omega arith))
                (rw (positive) (rw (fits) refl)),
            (fits, λ k l u. clear' k (omega arith) (omega arith), omega arith, omega arith, same'),
          )
          | no ne ↦
              let (start, u, run, place) = go_on (elim (ℕ_discrete (i + 1) (aligned + n)) [
                | yes e ↦
                    let start_is : i + 1 - n ≡ aligned = omega arith in
                    absurd (ne (ap (λ x. x % n) start_is ∙ at_multiple))
                | no apart ↦ omega arith
              ]) in
              (
                start,
                u,
                rw (allocate_loop, le→leb n (i + 1 - free') (omega arith))
                    (rw (positive) (rw (ne→== ((i + 1 - n) % n) 0 ne) run)),
                place,
              )
        ]
      ]
    where
      free_lem :
          (used' : List (List ℕ)) (i free : ℕ)
          → busy used' i ≡ b i
          → free ≤ i
          → free ≤ least
          → ((k : ℕ) → free ≤ k → k < i → b k ≡ false)
          → ((if busy used' i then i + 1 else free) ≤ i + 1)
            × ((if busy used' i then i + 1 else free) ≤ least)
            × ((k : ℕ) → (if busy used' i then i + 1 else free) ≤ k → k < i + 1 → b k ≡ false)
      free_lem used' i free e h h' clear = elim (Bool-cases (busy used' i)) [
        | inl t ↦ rw (t) (
          omega arith,
          elim (dec_lt i least) [
            | yes l ↦ omega arith
            | no g ↦ absurd (cc (e, t, past i (omega arith)))
          ],
          λ k l u. absurd (omega arith),
        )
        | inr f ↦ rw (f) (
          omega arith,
          h',
          λ k l u. elim (ℕ_discrete k i) [
            | yes same ↦ ap b same ∙ sym e ∙ f
            | no other ↦ clear k l (omega arith)
          ],
        )
      ]

module _ (size : ℕ → ℕ) where
  -- Where a variable is put: at a multiple of its size, in cells that were free and then are not, and
  -- no other cell changes.
  abbrev IsPut : List (List ℕ) → ℕ → ℕ → List (List ℕ) → Type 0
  IsPut used var start used' =
      (start % size var ≡ 0)
      × (start + size var ≤ length used')
      × (length used ≤ length used')
      × ((k : ℕ) → start ≤ k → k < start + size var → busy used k ≡ false)
      × ((k : ℕ) → start ≤ k → k < start + size var → busy used' k ≡ true)
      × ((k : ℕ) → busy used k ≡ true → busy used' k ≡ true)

  allocate-IsPut :
      (used : List (List ℕ)) (var : ℕ)
      → 0 < size var
      → (start : ℕ) × (used' : List (List ℕ)) × (allocate size used var ≡ some (start, used'))
        × IsPut used var start used'
  unfolding allocate
  allocate-IsPut used var some_cell =
      let n : ℕ = size var in
      let L : ℕ = length used in
      let above = le_mul L n some_cell in
      let (start, u, run, (multiple, clear, inside, longer, same)) =
        allocate_loop_lem (busy used) n L (L * n) some_cell above (mod_zero L n some_cell)
          (busy-past used) (L * n + n) used 0 0 (λ k. refl) (omega arith) (omega arith)
          (omega arith) (omega arith) (λ k l h. absurd (omega arith)) (omega arith) (omega arith) in
      let (filled, here, others) = fill_lem u start n var inside in
      (
        start,
        fill u start n var,
        rw (allocate, run) refl,
        (
          multiple,
          omega arith,
          omega arith,
          clear,
          here,
          λ k taken. elim (dec_lt k start) [
            | yes before ↦ others k (inl before) ∙ same k ∙ taken
            | no later ↦ elim (dec_lt k (start + n)) [
              | yes within ↦ here k (omega arith) within
              | no after ↦ others k (inr (omega arith)) ∙ same k ∙ taken
            ]
          ],
        ),
      )

  -- Two places that share no cell.
  abbrev pub Apart : ℕ × ℕ → ℕ × ℕ → Type 0
  Apart (v, a) (w, c) = (a + size v ≤ c) ⊎ (c + size w ≤ a)

  abbrev pub AllApart : List (ℕ × ℕ) → Type 0
  AllApart [] = Unit
  AllApart (x ∷ xs) = All (Apart x) xs × AllApart xs

  -- A place at a multiple of the variable's size, below `top`.
  abbrev pub IsAligned : ℕ → ℕ × ℕ → Type 0
  IsAligned top (v, a) = (a % size v ≡ 0) × a + size v ≤ top

  apart :
      (b : ℕ → Bool) (v a w c : ℕ)
      → 0 < size v
      → 0 < size w
      → ((k : ℕ) → a ≤ k → k < a + size v → b k ≡ true)
      → ((k : ℕ) → c ≤ k → k < c + size w → b k ≡ false)
      → Apart (v, a) (w, c)
  apart b v a w c hv hw taken clear = elim (dec_lt c (a + size v)) [
    | no after ↦ inl (omega arith)
    | yes l ↦ elim (dec_lt a (c + size w)) [
      | no after ↦ inr (omega arith)
      | yes l' ↦ elim (dec_lt a c) [
        | yes less ↦ absurd (cc (taken c (omega arith) l, clear c (omega arith) (omega arith)))
        | no more ↦ absurd (cc (taken a (omega arith) (omega arith), clear a (omega arith) l'))
      ]
    ]
  ]

  abbrev pub IsMap : List (List ℕ) → List ℕ → List (ℕ × ℕ) → List (List ℕ) → Type 0
  IsMap used order res used' =
      (map (λ (r : ℕ × ℕ). r.0) res ≡ order)
      × AllApart res
      × All (IsAligned (length used')) res
      × (length used ≤ length used')
      × All (λ (v, a). (0 < size v) × ((k : ℕ) → a ≤ k → k < a + size v → busy used k ≡ false)) res

  pub memory_map_lem :
      (order : List ℕ) (used : List (List ℕ))
      → All (λ v. 0 < size v) order
      → (res : List (ℕ × ℕ)) × (used' : List (List ℕ)) × (memory_map size used order
          ≡ some (res, used'))
        × IsMap used order res used'
  unfolding memory_map
  memory_map_lem [] used h = ([], used, refl, (refl, tt, tt, omega arith, tt))
  memory_map_lem (v ∷ order) used (hv, h) =
      let (start, u, put, (multiple, top, longer, was_free, taken, stays)) =
        allocate-IsPut used v hv in
      let (res, used', run, (names, all_apart, aligned, longer', free)) =
        memory_map_lem order u h in
      (
        (v, start) ∷ res,
        used',
        rw (memory_map, put) (rw (◌>>=◌, run) refl),
        (
          ap (λ vs. v ∷ vs) names,
          (
            All-imp _ res (λ (w, a) (hw, clear). apart (busy u) v start w a hv hw taken clear) free,
            all_apart,
          ),
          ((multiple, omega arith), aligned),
          omega arith,
          (
            (hv, was_free),
            All-imp _ res
                (λ (w, a) (hw, clear). (
                  hw,
                  λ k l h'. elim (Bool-cases (busy used k)) [
                    | inl t ↦ absurd (cc (stays k t, clear k l h'))
                    | inr f ↦ f
                  ],
                ))
                free,
          ),
        ),
      )
