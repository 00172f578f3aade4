-- ===== src/Objects/Bytes.antt =====
-- Reading memory after writing it.
use hivelang.Prelude.{
  ℕ, suc, ◌+◌, ◌^◌, ◌≤◌, ◌<◌, ◌==◌, ◌≡◌, refl, ap₂, sym, subst, ◌∙◌, ◌⊎◌, inl, inr, List, [], ◌∷◌,
  if◌then◌else◌, length, ne→==, ==_refl, arith,
}
use hivelang.Word.{add64}
use hivelang.Objects.{read_bytes, write_bytes}

next_address : (a n : ℕ) → a + suc (suc n) ≤ 2 ^ 64 → add64 a 1 ≡ a + 1
next_address a n h = omega arith

pub write_bytes_outside :
    (xs : List ℕ) (memory : ℕ → ℕ) (a b : ℕ)
    → a + length xs ≤ 2 ^ 64
    → (b < a) ⊎ (a + length xs ≤ b)
    → write_bytes memory a xs b ≡ memory b
write_bytes_outside [] memory a b fits out = refl
write_bytes_outside (x ∷ []) memory a b fits out = rw (ne→== b a (ground arith)) refl
write_bytes_outside (x ∷ y ∷ xs) memory a b fits out = rw (next_address a (length xs) fits) (
    write_bytes_outside (y ∷ xs) (λ c. if c == a then x else memory c) (a + 1) b (omega arith)
      (elim out [ inl before ↦ inl (omega arith) | inr after ↦ inr (omega arith) ])
    ∙ rw (ne→== b a (ground arith)) refl)

pub read_bytes-write_bytes :
    (xs : List ℕ) (memory : ℕ → ℕ) (a : ℕ)
    → a + length xs ≤ 2 ^ 64
    → read_bytes (write_bytes memory a xs) a (length xs) ≡ xs
read_bytes-write_bytes [] memory a fits = refl
read_bytes-write_bytes (x ∷ []) memory a fits = rw (==_refl a) refl
read_bytes-write_bytes (x ∷ y ∷ xs) memory a fits =
    let next = next_address a (length xs) fits in
    let rest =
      read_bytes-write_bytes (y ∷ xs) (λ c. if c == a then x else memory c) (a + 1) (omega arith) in
    let first =
      write_bytes_outside (y ∷ xs) (λ c. if c == a then x else memory c) (a + 1) a (omega arith)
        (inl (omega arith)) in
    ap₂ (λ h t. h ∷ t) (rw (next) (first ∙ rw (==_refl a) refl))
      (subst
        (λ c.
          read_bytes (write_bytes (λ d. if d == a then x else memory d) c (y ∷ xs)) c
            (length (y ∷ xs))
          ≡ y ∷ xs)
        (sym next) rest)
