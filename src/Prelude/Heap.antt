-- ===== src/Prelude/Heap.antt =====
-- Memory as the objects that stand at addresses; a free object is not there.
use Prim.Native.Nat.{ℕ}
use mathlib.Core.Path.{◌≡◌, refl, sym, ◌∙◌}
use mathlib.Core.Logic.{◌≢◌}
use mathlib.Core.Bool.{true, false}
use mathlib.Core.Option.{Option, none}
unfoldable use native.Mathlib.Decide.{ℕ_discrete}
use hivelang.Prelude.Tests.{◌==◌, ==_refl, ne→==}

abbrev pub Memory {ℓ} : Type ℓ → Type ℓ
Memory A = ℕ → Option A

module _ {ℓ} {A : Type ℓ} where
  abbrev pub write : Memory A → ℕ → Option A → Memory A
  write values a v b = elim (b == a) [ true ↦ v | false ↦ values b ]

  pub write_here : (values : Memory A) (a : ℕ) (v : Option A) → write values a v a ≡ v
  write_here values a v = rw (write, ==_refl a) refl

  pub write_other :
      (values : Memory A) (a b : ℕ) (v : Option A) → b ≢ a → write values a v b ≡ values b
  write_other values a b v ne = rw (write, ne→== b a ne) refl

  -- What a pointer leads to; 0 is NULL.
  abbrev pub value_at : Memory A → ℕ → Option A
  value_at values a = elim (a == 0) [ true ↦ none | false ↦ values a ]

  pub value_at_null : (values : Memory A) → value_at values 0 ≡ none
  value_at_null values = refl

  pub value_at_there : (values : Memory A) (a : ℕ) → a ≢ 0 → value_at values a ≡ values a
  value_at_there values a ne = rw (value_at, ne→== a 0 ne) refl

  pub value_at-write_here :
      (values : Memory A) (a : ℕ) (v : Option A) → a ≢ 0 → value_at (write values a v) a ≡ v
  value_at-write_here values a v ne = value_at_there (write values a v) a ne ∙ write_here values a v

  pub value_at-write_other :
      (values : Memory A) (a b : ℕ) (v : Option A)
      → (b ≢ 0 → b ≢ a)
      → value_at (write values a v) b ≡ value_at values b
  value_at-write_other values a b v ne = elim (ℕ_discrete b 0) [
    | yes z ↦ rw z refl
    | no there ↦
        value_at_there (write values a v) b there
        ∙ write_other values a b v (ne there)
        ∙ sym (value_at_there values b there)
  ]
