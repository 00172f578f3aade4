-- ===== src/Table/Kind.antt =====
-- What the tables of 64-bit keys and of byte-string keys do differently (api.c).
use hivelang.Prelude.{ℕ, ◌≡◌, ◌↔◌, Bool, true}

pub record Kind {ℓ} (K X : Type ℓ) : Type ℓ where
  -- The comparison of keys, their hash, and the key of a zeroed cell.
  pub same : K → K → Bool
  pub hash : K → ℕ
  pub blank : K
  pub same_iff : (a b : K) → (same a b ≡ true) ↔ (a ≡ b)
  -- Whether an update that expects this old value may claim a free cell.
  pub claims : ℕ → Bool
  pub claims_zero : claims 0 ≡ true
  -- The table's other fields: after an insertion, and in a new table that replaces this one.
  pub note : X → X
  pub renew : X → X
