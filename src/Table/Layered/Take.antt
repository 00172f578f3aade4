-- ===== src/Table/Layered/Take.antt =====
-- `TakeTaggedHashtable` and `AddHashtable` of api.c on a whole table.
use hivelang.Prelude.{
  ap, ℕ, suc, ◌+◌, ◌≤◌, ◌<◌, leb, ◌≡◌, refl, ◌≢◌, sym, ◌∙◌, false, List, some, ◌>>=◌, arith, inl,
  inr, Option-cases, ne→==, ℕ_discrete, lt→leb,
}
use mathlib.Core.Path.{subst}
use native.Mathlib.Nat.{le_refl}
use hivelang.Word.{add64}
use hivelang.Table.Kind.{Kind}
use hivelang.Table.Layer.{Layer, lookup_cells}
use hivelang.Table.Layered.{
  Table, first, over, newest, replace_newest, view, take_here, take_tagged, add, tag_of, list_of,
}
use hivelang.Table.Layered.Read.{
  get-Looked, Looked, view-newest, view-older, absent-Looked, copied-Looked,
}
use hivelang.Table.Layered.Grow.{IsTable, IsTable-HasRoom, IsTable-IsLayer}
use hivelang.Table.Layered.Tag.{
  Assigned, assign-Assigned, take_here-none, take_here_some, add_here_some,
}

zero_le_four : 0 ≤ 4
zero_le_four = omega arith

module _ {ℓ} {K X : Type ℓ} (kind : Kind K X) where
  Looked-IsTable :
      (t t' : Table K X) (keys : List K) (key : K)
      → IsTable kind t keys
      → Looked kind 0 t keys key t'
      → IsTable kind t' keys
  Looked-IsTable t t' keys key w l = record { chain = l.chain; still = l.same_updating ∙ w.still }

  replace-newest_self : (t : Table K X) → replace_newest t (newest t) ≡ t
  replace-newest_self (first h) = refl
  replace-newest_self (over h t) = refl

  -- What a take of the list in the key's value `x` leaves: an empty list is not taken.
  abbrev pub TakeLeaves : Table K X → List K → K → ℕ → ℕ → Table K X → Type ℓ
  TakeLeaves t keys key bits x t' =
      ((list_of bits x ≡ 0) → IsTable kind t' keys × ((k : K) → view kind t' k ≡ view kind t k))
      × ((list_of bits x ≢ 0) → Assigned kind t keys key (tag_of bits x + 1) t')

  abbrev pub TakeEnds : ℕ → Table K X → List K → K → ℕ → ℕ → Type ℓ
  TakeEnds fuel t keys key bits compareto =
      (t' : Table K X) × (take_tagged kind fuel t key bits compareto
        ≡ some (list_of bits (view kind t key), t'))
      × TakeLeaves t keys key bits (view kind t key) t'

  module _ (t : Table K X) (keys : List K) (key : K) (bits compareto : ℕ)
      (w : IsTable kind t keys) where
    -- What the loop over the newest array does where that has the key.
    abbrev TakesNewest : ℕ → Type ℓ
    TakesNewest x =
        (h' : Layer K X) × (take_here kind (newest t) key bits compareto
          ≡ some (some (list_of bits x, h')))
        × TakeLeaves t keys key bits x (replace_newest t h')

    takes_newest :
        (v : ℕ)
        → lookup_cells kind (newest t).cells key ≡ some v
        → tag_of bits v < compareto
        → TakesNewest v
    takes_newest v there free_tag =
        let (h', e, u) =
          take_here_some kind (newest t) (IsTable-IsLayer kind t keys w)
            (IsTable-HasRoom kind t keys w) key bits compareto v there in
        let open_tag : leb compareto (tag_of bits v) ≡ false = lt→leb _ _ free_tag in
        elim (ℕ_discrete (list_of bits v) 0) [
          | yes z ↦ (
            newest t,
            rw (e, open_tag, z) refl,
            (λ _. rw (replace-newest_self t) (w, λ k. refl), λ ne. absurd (ne z)),
          )
          | no ne ↦ (
            h',
            rw (e, open_tag, ne→== _ 0 ne) refl,
            (
              λ z. absurd (ne z),
              λ _. assign-Assigned kind t keys key (tag_of bits v + 1) v h' w there u,
            ),
          )
        ]

    takes_view :
        (v : ℕ)
        → lookup_cells kind (newest t).cells key ≡ some v
        → tag_of bits (view kind t key) < compareto
        → TakesNewest (view kind t key)
    takes_view v there free_tag =
        let is_v = view-newest kind t key v there in
        subst TakesNewest (sym is_v) (takes_newest v there (rw (← is_v) free_tag))

  take_newest :
      (fuel : ℕ) (t : Table K X) (keys : List K) (key : K) (bits compareto v : ℕ)
      → IsTable kind t keys
      → lookup_cells kind (newest t).cells key ≡ some v
      → tag_of bits (view kind t key) < compareto
      → TakeEnds (suc fuel) t keys key bits compareto
  unfolding take_tagged
  take_newest fuel (first h) keys key bits compareto v w there free_tag =
      let (h', e, leaves) = takes_view (first h) keys key bits compareto w v there free_tag in
      (first h', rw e refl, leaves)
  take_newest fuel (over h t) keys key bits compareto v w there free_tag =
      let (h', e, leaves) = takes_view (over h t) keys key bits compareto w v there free_tag in
      (over h' t, rw e refl, leaves)

  -- After a copy into the newest array the table holds the same.
  leaves_looked :
      (t t₂ t' : Table K X) (keys : List K) (key : K) (bits x : ℕ)
      → ((k : K) → view kind t₂ k ≡ view kind t k)
      → TakeLeaves t₂ keys key bits x t'
      → TakeLeaves t keys key bits x t'
  leaves_looked t t₂ t' keys key bits x same (empty, taken) = (
    λ z. let (w, q) = empty z in (w, λ k. q k ∙ same k),
    λ ne.
        let a = taken ne in
        record {
          valid = a.valid;
          written = λ k. a.written k ∙ rw (same k) refl;
          in_newest = a.in_newest;
        },
  )

  -- Where the table has no value for the key there is nothing to take.
  leaves_none :
      (t t' : Table K X) (keys : List K) (key : K) (bits x : ℕ)
      → x ≡ 0
      → IsTable kind t' keys
      → ((k : K) → view kind t' k ≡ view kind t k)
      → TakeLeaves t keys key bits x t'
  leaves_none t t' keys key bits x z w same =
      (λ _. (w, same), λ ne. absurd (ne (rw z (omega arith))))

  -- On a well-formed table `TakeTaggedHashtable` ends if the tag of the key's value is below the
  -- bound. It answers the list in that value. If the list is empty, the table holds the same as
  -- before, and if not, the key has an empty list under the tag raised by one, and no other key
  -- changes.
  pub take_tagged-Ends :
      (t : Table K X) (keys : List K) (key : K) (bits compareto : ℕ)
      → IsTable kind t keys
      → tag_of bits (view kind t key) < compareto
      → TakeEnds 2 t keys key bits compareto
  unfolding take_tagged
  take_tagged-Ends (first h) keys key bits compareto w free_tag =
      elim (Option-cases (lookup_cells kind h.cells key)) [
        | inr (v, there) ↦ take_newest 1 (first h) keys key bits compareto v w there free_tag
        | inl gone ↦
            let e =
              take_here-none kind h (IsTable-IsLayer kind (first h) keys w)
                (IsTable-HasRoom kind (first h) keys w) key bits compareto gone in
            (
              first h,
              rw (gone, e) (ap (λ x. some (x, first h)) (omega arith)),
              leaves_none (first h) (first h) keys key bits _ (rw gone) w (λ k. refl),
            )
      ]
  take_tagged-Ends (over h t) keys key bits compareto w free_tag =
      elim (Option-cases (lookup_cells kind h.cells key)) [
        | inr (v, there) ↦ take_newest 1 (over h t) keys key bits compareto v w there free_tag
        | inl gone ↦
            let e =
              take_here-none kind h (IsTable-IsLayer kind (over h t) keys w)
                (IsTable-HasRoom kind (over h t) keys w) key bits compareto gone in
            let (t', older, l) = get-Looked kind 4 t w.chain.1 key (le_refl 4) w.chain.5 in
            let is_old = view-older kind h t key gone in
            elim (ℕ_discrete (view kind t key) 0) [
              | yes z ↦
                  let lk =
                    absent-Looked kind 0 h t keys key zero_le_four w.chain gone t' older l z in
                  (
                    over h t',
                    rw (is_old, e, ◌>>=◌, older, z) (ap (λ x. some (x, over h t')) (omega arith)),
                    leaves_none (over h t) (over h t') keys key bits _ (is_old ∙ z)
                        (Looked-IsTable (over h t) (over h t') keys key w lk) lk.same_view,
                  )
              | no ne ↦
                  let (h', e', lk) =
                    copied-Looked kind 0 h t keys key zero_le_four w.chain gone t' older l ne in
                  let there = lk.in_newest (λ z. ne (sym is_old ∙ z)) in
                  let (t₃, e₃, leaves) =
                    take_newest 0 (over h' t') keys key bits compareto _
                      (Looked-IsTable (over h t) (over h' t') keys key w lk) there
                      (rw (lk.same_view key) free_tag) in
                  (
                    t₃,
                    rw (e, ◌>>=◌, older, ne→== _ 0 ne, e') (e₃ ∙ rw (lk.same_view key) refl),
                    leaves_looked (over h t) (over h' t') t₃ keys key bits _ lk.same_view
                        (rw (lk.same_view key) at leaves),
                  )
            ]
      ]

  -- On a well-formed table whose newest array has the key, `AddHashtable` answers the old value and
  -- leaves its sum with the increment, modulo 2 ^ 64. No other key changes.
  pub add-Ends :
      (fuel : ℕ) (t : Table K X) (keys : List K) (key : K) (delta v : ℕ)
      → IsTable kind t keys
      → lookup_cells kind (newest t).cells key ≡ some v
      → (t' : Table K X) × (add kind (suc fuel) t key delta ≡ some (v, t'))
        × Assigned kind t keys key (add64 v delta) t'
  unfolding add
  add-Ends fuel (first h) keys key delta v w there =
      let (h', e, u) =
        add_here_some kind h (IsTable-IsLayer kind (first h) keys w)
          (IsTable-HasRoom kind (first h) keys w) key delta v there in
      (first h', rw e refl, assign-Assigned kind (first h) keys key (add64 v delta) v h' w there u)
  add-Ends fuel (over h t) keys key delta v w there =
      let (h', e, u) =
        add_here_some kind h (IsTable-IsLayer kind (over h t) keys w)
          (IsTable-HasRoom kind (over h t) keys w) key delta v there in
      (
        over h' t,
        rw e refl,
        assign-Assigned kind (over h t) keys key (add64 v delta) v h' w there u,
      )
