-- ===== src/Table/Layer/Invariant.antt =====
-- When one array of cells is well formed, and its first consequences.
use hivelang.Prelude.{
  ℕ, ◌<◌, ◌≡◌, ◌≢◌, sym, ap, ◌∙◌, true, some, get_elem?, length, arith, some-inj,
}
use hivelang.Prelude.Slots.{count, find_refused}
use hivelang.Table.Cells.{Cell, busy, ready}
use hivelang.Table.Cells.Probe.{scan-stops, scan_total}
use hivelang.Table.Kind.{Kind}
use hivelang.Table.Layer.{Layer, halts, home, probe, is_ready}

module _ {ℓ} {K X : Type ℓ} (kind : Kind K X) where
  -- Every key stands where its own probing ends, no cell is left busy, and `len` counts the keys.
  pub record IsLayer (h : Layer K X) : Type ℓ where
    pub sized : length h.cells ≡ h.alloc
    pub placed :
        (i : ℕ) (c : Cell K)
        → get_elem? h.cells i ≡ some c
        → c.state ≡ ready
        → probe kind true h c.key ≡ some i
    pub settled : (i : ℕ) (c : Cell K) → get_elem? h.cells i ≡ some c → c.state ≢ busy
    pub counted : count is_ready h.cells ≡ h.len

  -- Some cell is free: what growth at a quarter full is there for.
  abbrev pub HasRoom : Layer K X → Type 0
  HasRoom h = h.len < h.alloc

  module _ (h : Layer K X) (v : IsLayer h) where
    -- Two ready cells with one key are one cell.
    pub placed_unique :
        (i j : ℕ) (c d : Cell K)
        → get_elem? h.cells i ≡ some c
        → get_elem? h.cells j ≡ some d
        → c.state ≡ ready
        → d.state ≡ ready
        → c.key ≡ d.key
        → i ≡ j
    placed_unique i j c d at at' r r' e =
        some-inj (sym (v.placed i c at r) ∙ ap (probe kind true h) e ∙ v.placed j d at' r')

    -- A probe that takes a free cell for the end does end, in a cell that is free or has the key.
    pub probe_total :
        (key : K)
        → HasRoom h
        → (j : ℕ) × (c : Cell K) × (probe kind true h key ≡ some j)
          × (get_elem? h.cells j ≡ some c)
          × (halts kind true key c ≡ true)
    probe_total key room =
        let (q, d, at, out) = find_refused is_ready h.cells (ground (arith, v.sized, v.counted)) in
        let s : halts kind true key d ≡ true = ground (arith, v.settled q d at) in
        let (j, e) =
          scan_total h.alloc (halts kind true key) h.cells (home kind h key) q d v.sized
            (ground arith) at s in
        let (c, at', t) = scan-stops h.alloc (halts kind true key) h.alloc h.cells _ j e in
        (j, c, e, at', t)
