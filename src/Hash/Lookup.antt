-- ===== src/Hash/Lookup.antt =====
-- `GetHashtable`, and `SetHashtable` that expects no value, against the map that a table stands for.
use hivelang.Prelude.{
  ℕ, ◌≡◌, refl, sym, ◌∙◌, true, Option, some, arith, inl, inr, Option-cases, if◌then◌else◌, List,
}
use hivelang.Table.Kind.{Kind}
use hivelang.Table.Layer.{lookup_cells}
use hivelang.Table.Layer.Update.{accepts, or_zero}
use hivelang.Table.Layered.{Table, newest, view, get, update}
use hivelang.Table.Layered.Read.{get-Looked, view-newest}
use hivelang.Table.Layered.Grow.{IsTable}
use hivelang.Table.Layered.Write.{update-Wrote}

module _ {ℓ} {K X : Type ℓ} (kind : Kind K X) where
  -- A table that stands for the same map.
  abbrev pub Found : Table K X → List K → K → Option (ℕ × Table K X) → Type ℓ
  Found t keys key r =
      (t' : Table K X) × (r ≡ some (view kind t key, t'))
      × IsTable kind t' keys
      × ((k : K) → view kind t' k ≡ view kind t k)

  -- A table that has one value more.
  abbrev pub Added : Table K X → K → ℕ → Option (ℕ × Table K X) → Type ℓ
  Added t key v r =
      (t' : Table K X) × (keys' : List K) × (r ≡ some (0, t'))
      × IsTable kind t' keys'
      × ((k : K) → view kind t' k ≡ (if kind.same key k then v else view kind t k))

  pub get-Found :
      (t : Table K X) (keys : List K) (key : K)
      → IsTable kind t keys
      → Found t keys key (get kind t key)
  get-Found t keys key w =
      let (t', e, l) = get-Looked kind 0 t keys key (omega arith) w.chain in
      (t', e, record { chain = l.chain; still = l.same_updating ∙ w.still }, l.same_view)

  -- What the newest array answers for a key that the table has no value for.
  nothing_here :
      (t : Table K X) (key : K)
      → view kind t key ≡ 0
      → let here = lookup_cells kind (newest t).cells key in
        (or_zero here ≡ 0) × (accepts here 0 ≡ true)
  nothing_here t key z = elim (Option-cases (lookup_cells kind (newest t).cells key)) [
    | inl e ↦ rw e (refl, refl)
    | inr (v, e) ↦ rw (e, sym (view-newest kind t key v e) ∙ z) (refl, refl)
  ]

  pub update-Added :
      (t : Table K X) (keys : List K) (key : K) (v : ℕ)
      → IsTable kind t keys
      → view kind t key ≡ 0
      → Added t key v (update kind t key v 0)
  update-Added t keys key v w z =
      let (t', e, wrote) = update-Wrote kind t keys key v 0 w (inl refl) in
      let (answer, accepted) = nothing_here t key z in
      (
        t',
        wrote.keys,
        e ∙ rw answer refl,
        wrote.valid,
        λ k. wrote.written k ∙ rw accepted (ground arith),
      )
