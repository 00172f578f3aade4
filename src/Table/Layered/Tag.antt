-- ===== src/Table/Layered/Tag.antt =====
-- `hashtable_take_tagged` and `hashtable_add` of api.c on the newest array: the low bits of a value are a tag, which says
-- that somebody is processing the list that the other bits point to.
use hivelang.Prelude.{
  ℕ, ◌+◌, leb, ◌==◌, ◌≡◌, refl, ap, ◌∙◌, true, List, none, some, ◌>>=◌, arith, inl, inr,
  if◌then◌else◌, ==_refl, get_elem?, set,
}
use hivelang.Word.{add64}
use hivelang.Table.Kind.{Kind}
use mathlib.Core.Path.{subst}
use hivelang.Table.Cells.{Cell, ready}
use hivelang.Table.Layer.{Layer, probe, lookup_cells}
use hivelang.Table.Layer.Invariant.{IsLayer, HasRoom, probe_total}
use hivelang.Table.Layer.Look.{lookup-probe}
use hivelang.Table.Layer.Update.{Updates, assigned-Updates}
use hivelang.Table.Layered.{
  Table, newest, replace_newest, view, take_here, add_here, tag_of, list_of,
}
use hivelang.Table.Layered.Grow.{IsTable, replaced-Chain, view-replace, newest-replace}

module _ {ℓ} {K X : Type ℓ} (kind : Kind K X) where
  module _ (h : Layer K X) (l : IsLayer kind h) (room : HasRoom kind h) (key : K) where
    pub take_here-none :
        (bits compareto : ℕ)
        → lookup_cells kind h.cells key ≡ none
        → take_here kind h key bits compareto ≡ some none
    unfolding take_here
    take_here-none bits compareto gone =
        let (j, c, e, at, s) = probe_total kind h l key room in
        elim (lookup-probe kind h l key j c e at s) [
          | inl (q, _) ↦ rw (e, ◌>>=◌, at, q) refl
          | inr (_, _, there) ↦ cc
        ]

    -- On an array that has the key: it waits, finds no list, or takes the list.
    abbrev pub TakesHere : ℕ → ℕ → ℕ → Type ℓ
    TakesHere bits compareto v =
        (h' : Layer K X) × (take_here kind h key bits compareto ≡ (
          if leb compareto (tag_of bits v)
          then none
          else if list_of bits v == 0
          then some (some (0, h))
          else some (some (list_of bits v, h'))))
        × Updates kind h key (tag_of bits v + 1) v v h'

    abbrev pub AddsHere : ℕ → ℕ → Type ℓ
    AddsHere delta v =
        (h' : Layer K X) × (add_here kind h key delta ≡ some (some (v, h')))
        × Updates kind h key (add64 v delta) v v h'

    module _ (j : ℕ) (c : Cell K) (e : probe kind true h key ≡ some j)
        (at : get_elem? h.cells j ≡ some c) (q : c.state ≡ ready) (same_key : c.key ≡ key)
        (found : lookup_cells kind h.cells key ≡ some c.value) where
      take_at : (bits compareto : ℕ) → TakesHere bits compareto c.value
      unfolding take_here
      take_at bits compareto = (
        record h { cells = set h.cells j (record c { value = tag_of bits c.value + 1 }) },
        rw (e, ◌>>=◌, at) (ground arith),
        assigned-Updates kind h l key (tag_of bits c.value + 1) j c at q same_key found,
      )

      add_at : (delta : ℕ) → AddsHere delta c.value
      unfolding add_here
      add_at delta = (
        record h { cells = set h.cells j (record c { value = add64 c.value delta }) },
        rw (e, ◌>>=◌, at) (ground arith),
        assigned-Updates kind h l key (add64 c.value delta) j c at q same_key found,
      )

    pub take_here_some :
        (bits compareto v : ℕ) → lookup_cells kind h.cells key ≡ some v → TakesHere bits compareto v
    take_here_some bits compareto v there =
        let (j, c, e, at, s) = probe_total kind h l key room in
        elim (lookup-probe kind h l key j c e at s) [
          | inl (_, gone) ↦ cc
          | inr (q, same_key, found) ↦
              let is_v : c.value ≡ v = cc in
              subst (TakesHere bits compareto) is_v
                (take_at j c e at q same_key found bits compareto)
        ]

    pub add_here-none :
        (delta : ℕ) → lookup_cells kind h.cells key ≡ none → add_here kind h key delta ≡ some none
    unfolding add_here
    add_here-none delta gone =
        let (j, c, e, at, s) = probe_total kind h l key room in
        elim (lookup-probe kind h l key j c e at s) [
          | inl (q, _) ↦ rw (e, ◌>>=◌, at, q) refl
          | inr (_, _, there) ↦ cc
        ]

    pub add_here_some : (delta v : ℕ) → lookup_cells kind h.cells key ≡ some v → AddsHere delta v
    add_here_some delta v there =
        let (j, c, e, at, s) = probe_total kind h l key room in
        elim (lookup-probe kind h l key j c e at s) [
          | inl (_, gone) ↦ cc
          | inr (q, same_key, found) ↦
              let is_v : c.value ≡ v = cc in
              subst (AddsHere delta) is_v (add_at j c e at q same_key found delta)
        ]

  -- A table after `new_value` was written under a key that its newest array has.
  pub record Assigned (t : Table K X) (keys : List K) (key : K) (new_value : ℕ) (t' : Table K X)
      : Type ℓ where
    pub valid : IsTable kind t' keys
    pub written : (k : K) → view kind t' k ≡ (if kind.same key k then new_value else view kind t k)
    pub in_newest : lookup_cells kind (newest t').cells key ≡ some new_value

  pub assign-Assigned :
      (t : Table K X) (keys : List K) (key : K) (new_value v : ℕ) (h' : Layer K X)
      → IsTable kind t keys
      → lookup_cells kind (newest t).cells key ≡ some v
      → Updates kind (newest t) key new_value v v h'
      → Assigned t keys key new_value (replace_newest t h')
  assign-Assigned t keys key new_value v h' w there u = record {
    valid = record {
      chain = replaced-Chain kind 0 t keys h' key new_value v v w.chain (λ gone. cc) u;
      still =
          ap (λ (x : Layer K X). x.updating) (newest-replace kind t h') ∙ u.same_updating ∙ w.still;
    };
    written = λ k.
        view-replace kind t h' key k new_value true (u.written k ∙ rw (there, ==_refl v) refl)
        ∙ ground arith;
    in_newest =
        ap (λ (x : Layer K X). lookup_cells kind x.cells key) (newest-replace kind t h')
        ∙ u.written key
        ∙ rw (there, (kind.same_iff key key).1 refl, ==_refl v) refl;
  }
