-- ===== src/Hash/Pointers.antt =====
-- Hash tables whose values are addresses of structs, the way remote.c uses them: `(void
-- *)GetHashtable(&table, key)` is NULL or leads to a struct that other threads share.
use hivelang.Prelude.{
  ℕ, ◌≡◌, refl, ◌≢◌, sym, ◌∙◌, Bool-cases, Option, none, some, inl, inr, List, Memory, write,
  write_here, write_other, value_at, value_at_there, value_at-write_here, value_at-write_other,
  if◌then◌else◌, ℕ_discrete,
}
use hivelang.Table.Kind.{Kind}
use hivelang.Table.Layered.{Table, view}
use hivelang.Table.Layered.Grow.{IsTable}

pub record PointerTable (K X A : Type 0) : Type 0 where
  pub table : Table K X
  pub values : Memory A

module _ {K X A : Type 0} (kind : Kind K X) where
  -- What a key leads to.
  unfoldable pub entry : PointerTable K X A → K → Option A
  entry p key = value_at p.values (view kind p.table key)

  -- The table is well formed, its addresses lead to structs, and no two keys share one.
  pub record IsPointers (p : PointerTable K X A) (keys : List K) : Type 0 where
    pub valid : IsTable kind p.table keys
    pub present :
        (k : K) → view kind p.table k ≢ 0 → (v : A) × (p.values (view kind p.table k) ≡ some v)
    pub apart :
        (k l : K) → view kind p.table k ≢ 0 → view kind p.table k ≡ view kind p.table l → k ≡ l

  -- `v` is what `key` leads to, and every other key leads to what it did in `p`.
  abbrev pub Entered : PointerTable K X A → K → A → PointerTable K X A → List K → Type 0
  Entered p key v p' keys =
      IsPointers p' keys × ((k : K) → entry p' k ≡ (if kind.same key k then some v else entry p k))

  module _ (p : PointerTable K X A) (keys : List K) (w : IsPointers p keys) where
    pub entry-known :
        (key : K)
        → view kind p.table key ≢ 0
        → (v : A) × (p.values (view kind p.table key) ≡ some v) × (entry p key ≡ some v)
    unfolding entry
    entry-known key ne =
        let (v, e) = w.present key ne in
        (v, e, value_at_there p.values (view kind p.table key) ne ∙ e)

    pub entry-unknown : (key : K) → view kind p.table key ≡ 0 → entry p key ≡ none
    unfolding entry
    entry-unknown key z = rw z refl

    module _ (t' : Table K X) (keys' : List K) (w' : IsTable kind t' keys') where
      -- Another table of the same map.
      pub same-IsPointers :
          ((k : K) → view kind t' k ≡ view kind p.table k)
          → let p' : PointerTable K X A = record { table = t'; values = p.values } in
            IsPointers p' keys' × ((k : K) → entry p' k ≡ entry p k)
      unfolding entry
      same-IsPointers same = (
        record {
          valid = w';
          present = λ k ne. rw (same k) (w.present k (λ z. ne (same k ∙ z)));
          apart = λ k l ne e. w.apart k l (λ z. ne (same k ∙ z)) (sym (same k) ∙ e ∙ same l);
        },
        λ k. rw (same k) refl,
      )

      written_present :
          (a : ℕ) (v : A) (b : ℕ)
          → (b ≢ a → (u : A) × (p.values b ≡ some u))
          → (u : A) × (write p.values a (some v) b ≡ some u)
      written_present a v b old = elim (ℕ_discrete b a) [
        | yes e ↦ (v, rw e (write_here p.values a (some v)))
        | no ne ↦ let (u, e) = old ne in (u, write_other p.values a b (some v) ne ∙ e)
      ]

      -- A struct is written over.
      pub written-Entered :
          (key : K) (v : A)
          → ((k : K) → view kind t' k ≡ view kind p.table k)
          → view kind p.table key ≢ 0
          → Entered p key v
              (record { table = t'; values = write p.values (view kind p.table key) (some v) })
              keys'
      unfolding entry
      written-Entered key v same there =
          let a = view kind p.table key in
          (
            record {
              valid = w';
              present = λ k ne. rw (same k) (
                  written_present a v (view kind p.table k)
                    (λ _. w.present k (λ z. ne (same k ∙ z))));
              apart = λ k l ne e. w.apart k l (λ z. ne (same k ∙ z)) (sym (same k) ∙ e ∙ same l);
            },
            λ k. elim (Bool-cases (kind.same key k)) [
              | inl e ↦
                  let is_key : key ≡ k = (kind.same_iff key k).0 e in
                  rw (e, same k, ← is_key) (value_at-write_here p.values a (some v) there)
              | inr e ↦
                  rw (e, same k)
                    (value_at-write_other p.values a (view kind p.table k) (some v) (λ ne one.
                      let is_key : key ≡ k = w.apart key k there (sym one) in
                      let yes_key = (kind.same_iff key k).1 is_key in cc))
            ],
          )

      -- The address of a struct that was there is not that of a new one.
      apart_new :
          (a : ℕ) → p.values a ≡ none → (k : K) → view kind p.table k ≢ 0 → view kind p.table k ≢ a
      apart_new a fresh k ne one =
          let (u, held) = w.present k ne in let held' : p.values a ≡ some u = rw one at held in cc

      added_apart :
          (key : K) (a : ℕ)
          → p.values a ≡ none
          → ((k : K) → view kind t' k ≡ (if kind.same key k then a else view kind p.table k))
          → (k l : K) → view kind t' k ≢ 0
          → view kind t' k ≡ view kind t' l
          → k ≡ l
      added_apart key a fresh new_view k l ne e = elim (Bool-cases (kind.same key k)) [
        | inl one ↦
            let e₁ : view kind t' k ≡ a = new_view k ∙ rw one refl in
            elim (Bool-cases (kind.same key l)) [
              | inl two ↦ sym ((kind.same_iff key k).0 one) ∙ (kind.same_iff key l).0 two
              | inr two ↦
                  let e₂ : view kind t' l ≡ view kind p.table l = new_view l ∙ rw two refl in
                  absurd (apart_new a fresh l (λ z. ne (e ∙ e₂ ∙ z)) (sym e₂ ∙ sym e ∙ e₁))
            ]
        | inr one ↦
            let e₁ : view kind t' k ≡ view kind p.table k = new_view k ∙ rw one refl in
            elim (Bool-cases (kind.same key l)) [
              | inl two ↦
                  let e₂ : view kind t' l ≡ a = new_view l ∙ rw two refl in
                  absurd (apart_new a fresh k (λ z. ne (e₁ ∙ z)) (sym e₁ ∙ e ∙ e₂))
              | inr two ↦
                  let e₂ : view kind t' l ≡ view kind p.table l = new_view l ∙ rw two refl in
                  w.apart k l (λ z. ne (e₁ ∙ z)) (sym e₁ ∙ e ∙ e₂)
            ]
      ]

      -- A new struct is entered.
      pub added-Entered :
          (key : K) (a : ℕ) (v : A)
          → view kind p.table key ≡ 0
          → a ≢ 0
          → p.values a ≡ none
          → ((k : K) → view kind t' k ≡ (if kind.same key k then a else view kind p.table k))
          → Entered p key v (record { table = t'; values = write p.values a (some v) }) keys'
      unfolding entry
      added-Entered key a v z there fresh new_view = (
        record {
          valid = w';
          present = λ k ne. elim (Bool-cases (kind.same key k)) [
            | inl e ↦
                let here : view kind t' k ≡ a = new_view k ∙ rw e refl in
                rw here (v, write_here p.values a (some v))
            | inr e ↦
                let here : view kind t' k ≡ view kind p.table k = new_view k ∙ rw e refl in
                rw here (
                  written_present a v (view kind p.table k)
                    (λ _. w.present k (λ z'. ne (here ∙ z'))))
          ];
          apart = λ k l ne e. added_apart key a fresh new_view k l ne e;
        },
        λ k. elim (Bool-cases (kind.same key k)) [
          | inl e ↦ rw (e, new_view k, e) (value_at-write_here p.values a (some v) there)
          | inr e ↦
              rw (e, new_view k, e)
                (value_at-write_other p.values a (view kind p.table k) (some v)
                  (λ ne. apart_new a fresh k ne))
        ],
      )

  -- A table without values.
  pub nothing-IsPointers :
      (t : Table K X) (keys : List K) (values : Memory A)
      → IsTable kind t keys
      → ((k : K) → view kind t k ≡ 0)
      → let p : PointerTable K X A = record { table = t; values = values } in
        IsPointers p keys × ((k : K) → entry p k ≡ none)
  unfolding entry
  nothing-IsPointers t keys values w nothing = (
    record {
      valid = w;
      present = λ k ne. absurd (ne (nothing k));
      apart = λ k l ne e. absurd (ne (nothing k));
    },
    λ k. rw (nothing k) refl,
  )
