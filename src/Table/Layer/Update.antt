-- ===== src/Table/Layer/Update.antt =====
-- `hashtable_raw_update` and `i64_raw_update` of api.c on one array: what they write.
use hivelang.Prelude.{
  ℕ, ◌+◌, ◌==◌, ◌≡◌, refl, ◌≢◌, ap, sym, ◌∙◌, inl, inr, Bool, true, false, ◌&&◌, if◌then◌else◌,
  ◌>>=◌, Option, none, some, get_elem?, set, length-set, arith, Bool-cases, ◌⊎◌, ℕ_discrete,
  get_elem?-set_self, get_elem?-set_ne, lt_of_get_elem?, ==_iff, ==_refl,
}
use hivelang.Prelude.Slots.{count, count-set}
use hivelang.Table.Cells.{Cell, CellState, free, busy, ready}
use hivelang.Table.Cells.Probe.{scan-set_ne, scan-set_self, scan-set_same, scan_agree}
use hivelang.Table.Kind.{Kind}
use hivelang.Table.Layer.{Layer, halts, probe, raw_update, lookup_cells, is_ready}
use hivelang.Table.Layer.Invariant.{IsLayer, HasRoom, placed_unique, probe_total}
use hivelang.Table.Layer.Look.{lookup-eq-some, lookup-set_ne, lookup-probe}

-- The number that the C code returns for a value that may be missing.
abbrev pub or_zero : Option ℕ → ℕ
or_zero none = 0
or_zero (some v) = v

-- Whether an update that expects `old_value` writes over this value.
abbrev pub accepts : Option ℕ → ℕ → Bool
accepts none old_value = true
accepts (some v) old_value = v == old_value

abbrev pub one_if_none : Option ℕ → ℕ
one_if_none none = 1
one_if_none (some v) = 0

module _ {ℓ} {K X : Type ℓ} (kind : Kind K X) where
  -- What an update of one key does to an array, in terms of what the arrays hold.
  pub record Updates (h : Layer K X) (key : K) (new_value old_value res : ℕ) (h' : Layer K X)
      : Type ℓ where
    pub valid : IsLayer kind h'
    pub same_alloc : h'.alloc ≡ h.alloc
    pub same_updating : h'.updating ≡ h.updating
    pub returned : res ≡ or_zero (lookup_cells kind h.cells key)
    pub grown : h'.len ≡ h.len + one_if_none (lookup_cells kind h.cells key)
    pub written :
        (k : K)
        → lookup_cells kind h'.cells k ≡ (
            if kind.same key k && accepts (lookup_cells kind h.cells key) old_value
            then some new_value
            else lookup_cells kind h.cells k)

  module _ (h : Layer K X) (v : IsLayer kind h) (p : ℕ) (c d : Cell K)
      (at : get_elem? h.cells p ≡ some c) (d_ready : d.state ≡ ready) where
    abbrev after : ℕ → X → Layer K X
    after len' extra' = record h { cells = set h.cells p d; len = len'; extra = extra' }

    at_set : get_elem? (set h.cells p d) p ≡ some d
    at_set = get_elem?-set_self h.cells p d (lt_of_get_elem? h.cells p c at)

    set-IsLayer :
        (len' : ℕ) (extra' : X)
        → ((i : ℕ) (x : Cell K)
            → get_elem? h.cells i ≡ some x
            → x.state ≡ ready
            → p ≢ i
            → probe kind true (after len' extra') x.key ≡ some i)
        → probe kind true (after len' extra') d.key ≡ some p
        → count is_ready (set h.cells p d) ≡ len'
        → IsLayer kind (after len' extra')
    set-IsLayer len' extra' others self counts = record {
      sized = length-set h.cells p d ∙ v.sized;
      placed = λ i x at' r. elim (ℕ_discrete p i) [
        | yes e ↦ let q : x ≡ d = cc at_set in rw (q, ← e) self
        | no ne ↦ others i x (sym (get_elem?-set_ne h.cells p i d ne) ∙ at') r ne
      ];
      settled = λ i x at' b. elim (ℕ_discrete p i) [
        | yes e ↦ cc at_set
        | no ne ↦ v.settled i x (sym (get_elem?-set_ne h.cells p i d ne) ∙ at') b
      ];
      counted = counts;
    }

    -- A key goes into the free cell at which its probing ends.
    pub insert-IsLayer :
        (extra' : X)
        → c.state ≡ free
        → probe kind true h d.key ≡ some p
        → IsLayer kind (after (h.len + 1) extra')
    insert-IsLayer extra' is_free e =
        set-IsLayer (h.len + 1) extra'
          (λ i x at' r ne.
            scan-set_ne h.alloc (halts kind true x.key) h.alloc h.cells _ i p c d at (ground arith)
              ne (v.placed i x at' r))
          (scan-set_self h.alloc (halts kind true d.key) h.alloc h.cells _ p d
            (ground (arith, (kind.same_iff d.key d.key).1 refl)) e)
          (ground (arith, count-set is_ready h.cells p c d at, v.counted))

    -- A cell that has a key gets another value.
    pub assign-IsLayer : c.state ≡ ready → c.key ≡ d.key → IsLayer kind (after h.len h.extra)
    assign-IsLayer is_ready' e =
        let same_stop : (key : K) → halts kind true key d ≡ halts kind true key c =
          λ key. rw (is_ready', d_ready, e) refl in
        let same_probe : (key : K)
            → probe kind true (after h.len h.extra) key ≡ probe kind true h key =
          λ key.
            scan-set_same h.alloc (halts kind true key) h.alloc h.cells _ p c d at
              (same_stop key) in
        set-IsLayer h.len h.extra (λ i x at' r ne. same_probe x.key ∙ v.placed i x at' r)
          (same_probe d.key ∙ ap (probe kind true h) (sym e) ∙ v.placed p c at is_ready')
          (ground (arith, count-set is_ready h.cells p c d at, v.counted))

    -- Either way the array now holds the new value under the key, and the rest as before.
    pub lookup-after :
        (len' : ℕ) (extra' : X)
        → IsLayer kind (after len' extra')
        → (c.state ≡ ready → c.key ≡ d.key)
        → (k : K)
        → lookup_cells kind (set h.cells p d) k
          ≡ (if kind.same d.key k then some d.value else lookup_cells kind h.cells k)
    lookup-after len' extra' w fits k = elim (Bool-cases (kind.same d.key k)) [
      | inl t ↦ rw t (
          lookup-eq-some kind (set h.cells p d) k p d at_set d_ready t (λ i x at' r t'.
            placed_unique kind _ w i p x d at' at_set r d_ready
              ((kind.same_iff x.key k).0 t' ∙ sym ((kind.same_iff d.key k).0 t))))
      | inr f ↦ rw f (lookup-set_ne kind h.cells p c d k at (λ r. let q = fits r in rw q f) f)
    ]

  -- The probe of an update ends where the probe of a look-up does, if it may claim a free cell or
  -- if the key is there.
  pub probe_for_update :
      (h : Layer K X) (v : IsLayer kind h) (key : K) (old_value : ℕ) (j : ℕ) (c : Cell K)
      → (kind.claims old_value ≡ true) ⊎ (lookup_cells kind h.cells key ≢ none)
      → probe kind true h key ≡ some j
      → get_elem? h.cells j ≡ some c
      → halts kind true key c ≡ true
      → probe kind (kind.claims old_value) h key ≡ some j
  probe_for_update h v key old_value j c (inl e) found at s = rw e found
  probe_for_update h v key old_value j c (inr there) found at s =
      elim (lookup-probe kind h v key j c found at s) [
        | inl (_, gone) ↦ absurd (there gone)
        | inr (r, same_key, _) ↦
            scan_agree h.alloc (halts kind true key) (halts kind (kind.claims old_value) key)
              h.alloc h.cells _ j c (λ d. passes d d.state refl) at
              (rw r ((kind.same_iff c.key key).1 same_key)) found
      ]
    where
      passes :
          (d : Cell K) (st : CellState)
          → d.state ≡ st
          → halts kind true key d ≡ false
          → halts kind (kind.claims old_value) key d ≡ false
      passes d free e f = absurd (ground arith)
      passes d busy e f = absurd (ground arith)
      passes d ready e f = ground arith

  -- A new value in the cell of a key is an update of the key.
  pub assigned-Updates :
      (h : Layer K X) (v : IsLayer kind h) (key : K) (new_value j : ℕ) (c : Cell K)
      → get_elem? h.cells j ≡ some c
      → c.state ≡ ready
      → c.key ≡ key
      → lookup_cells kind h.cells key ≡ some c.value
      → Updates h key new_value c.value c.value
          (record h { cells = set h.cells j (record c { value = new_value }) })
  assigned-Updates h v key new_value j c at q same_key there =
      let d : Cell K = record c { value = new_value } in
      let w = assign-IsLayer h v j c d at q q refl in
      record {
        valid = w;
        same_alloc = refl;
        same_updating = refl;
        returned = rw there refl;
        grown = rw there (omega arith);
        written = λ k.
            rw (there, ==_refl c.value, ← same_key)
              (ground (arith, lookup-after h v j c d at q h.len h.extra w (λ r. refl) k));
      }

  -- The update ends, and does to the array what `Updates` says.
  abbrev pub UpdateEnds : Layer K X → K → ℕ → ℕ → Type ℓ
  UpdateEnds h key new_value old_value =
      (res : ℕ) × (h' : Layer K X) × (raw_update kind h key new_value old_value ≡ some (res, h'))
      × Updates h key new_value old_value res h'

  module _ (h : Layer K X) (v : IsLayer kind h) (key : K) (new_value old_value : ℕ) (j : ℕ)
      (c : Cell K) (e : probe kind true h key ≡ some j)
      (e' : probe kind (kind.claims old_value) h key ≡ some j)
      (at : get_elem? h.cells j ≡ some c) where
    raw_update-free :
        c.state ≡ free → lookup_cells kind h.cells key ≡ none → UpdateEnds h key new_value old_value
    unfolding raw_update
    raw_update-free q gone =
        let d : Cell K = record { key = key; value = new_value; state = ready } in
        let w = insert-IsLayer h v j c d at refl (kind.note h.extra) q e in
        (
          0,
          record h { cells = set h.cells j d; len = h.len + 1; extra = kind.note h.extra },
          rw (e', ◌>>=◌, at, q) refl,
          record {
            valid = w;
            same_alloc = refl;
            same_updating = refl;
            returned = rw gone;
            grown = rw gone;
            written = λ k. rw gone (
                ground (
                  arith,
                  lookup-after h v j c d at refl (h.len + 1) (kind.note h.extra) w
                      (λ r. absurd (ground arith)) k,
                ));
          },
        )

    raw_update-ready :
        c.state ≡ ready
        → c.key ≡ key
        → lookup_cells kind h.cells key ≡ some c.value
        → ((c.value == old_value) ≡ true) ⊎ ((c.value == old_value) ≡ false)
        → UpdateEnds h key new_value old_value
    unfolding raw_update
    raw_update-ready q same_key there (inl t) =
        let same_value = (==_iff c.value old_value).0 t in
        (
          old_value,
          record h { cells = set h.cells j (record c { value = new_value }) },
          rw (e', ◌>>=◌, at, q, t) refl,
          rw (← same_value) (assigned-Updates h v key new_value j c at q same_key there),
        )
    raw_update-ready q same_key there (inr f) = (
      c.value,
      h,
      rw (e', ◌>>=◌, at, q, f) refl,
      record {
        valid = v;
        same_alloc = refl;
        same_updating = refl;
        returned = rw there refl;
        grown = rw there (omega arith);
        written = λ k. rw (there, f) (ground arith);
      },
    )

  -- On a well-formed array that is not full, an update that may claim a free cell, or of a key that
  -- is there, ends. The array stays well formed, the answer is the value that was there or 0, and
  -- the new value is written where the key was absent or had the expected value; nothing else
  -- changes.
  pub raw_update-Updates :
      (h : Layer K X) (v : IsLayer kind h) (key : K) (new_value old_value : ℕ)
      → HasRoom kind h
      → (kind.claims old_value ≡ true) ⊎ (lookup_cells kind h.cells key ≢ none)
      → UpdateEnds h key new_value old_value
  raw_update-Updates h v key new_value old_value room may =
      let (j, c, e, at, s) = probe_total kind h v key room in
      let e' = probe_for_update h v key old_value j c may e at s in
      elim (lookup-probe kind h v key j c e at s) [
        | inl (q, gone) ↦ raw_update-free h v key new_value old_value j c e e' at q gone
        | inr (q, same_key, there) ↦
            raw_update-ready h v key new_value old_value j c e e' at q same_key there
              (Bool-cases (c.value == old_value))
      ]
