-- ===== src/Prelude/Slots.antt =====
-- Counting the elements of a list that a test accepts.
use Prim.Native.Nat.{ℕ, zero, suc, ◌+◌, ◌≤◌, ◌<◌}
use mathlib.Core.Path.{◌≡◌, refl}
use mathlib.Core.Bool.{Bool, true, false}
use mathlib.Core.List.{List, [], ◌∷◌}
use mathlib.Core.Option.{some}
use mathlib.Core.Logic.{inl, inr}
use hivelang.Prelude.Tests.{Bool-cases}
use native.Mathlib.Omega.{arith}
use hivelang.Prelude.Lists.{length, get_elem?, set, replicate}

abbrev pub to_nat : Bool → ℕ
to_nat true = 1
to_nat false = 0

module _ {ℓ} {A : Type ℓ} (p : A → Bool) where
  abbrev pub count : List A → ℕ
  count [] = 0
  count (x ∷ xs) = to_nat (p x) + count xs

  pub count-set :
      (xs : List A) (i : ℕ) (a v : A)
      → get_elem? xs i ≡ some a
      → count (set xs i v) + to_nat (p a) ≡ count xs + to_nat (p v)
  count-set [] i a v h = absurd (cc)
  count-set (x ∷ xs) zero a v h = ground arith
  count-set (x ∷ xs) (suc i) a v h = omega (arith, count-set xs i a v h)

  pub count-le : (xs : List A) → count xs ≤ length xs
  count-le [] = omega arith
  count-le (x ∷ xs) = ground (arith, count-le xs)

  -- Where not all are accepted, one is refused.
  pub find_refused :
      (xs : List A)
      → count xs < length xs
      → (i : ℕ) × (a : A) × (get_elem? xs i ≡ some a) × (p a ≡ false)
  find_refused [] h = elim h [ ]
  find_refused (x ∷ xs) h = elim (Bool-cases (p x)) [
    | inr e ↦ (zero, x, refl, e)
    | inl e ↦ let (i, a, at, out) = find_refused xs (ground arith) in (suc i, a, at, out)
  ]

  pub count-replicate : (n : ℕ) (a : A) → p a ≡ false → count (replicate n a) ≡ 0
  count-replicate zero a h = refl
  count-replicate (suc n) a h = ground (arith, count-replicate n a h)
