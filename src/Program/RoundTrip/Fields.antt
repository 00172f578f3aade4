-- ===== src/Program/RoundTrip/Fields.antt =====
-- The loader's reads of fields take back what the writer's fields are.
use hivelang.Prelude.{
  ℕ, ◌^◌, ◌≤◌, ◌<◌, ◌≡◌, refl, ap, ◌∙◌, List, ◌++◌, append_assoc, length, arith, length-append,
  le→ltb, lt→ltb,
}
use hivelang.Remote.Bytes.{le_value, le_value-le_bytes}
use hivelang.Remote.Send.{int64_bytes}
use hivelang.Remote.Delivery.{take_eq, drop_eq}
use hivelang.Program.Load.Reads.{Loading, ok, overrun, ◌>>=◌, read64, read_block, read_name, rounds}
use hivelang.Program.Export.{write_name}

pub read_block-append :
    (size : ℕ) (block rest : List ℕ)
    → length block ≡ size
    → read_block size (block ++ rest) ≡ ok (block, rest)
unfolding read_block
read_block-append size block rest e =
    rw (read_block, le→ltb (length (block ++ rest)) size (omega (arith, length-append block rest)))
      (rw (take_eq size block rest e, drop_eq size block rest e) refl)

pub read64-int64 :
    (x : ℕ) (rest : List ℕ) → x < 2 ^ 64 → read64 (int64_bytes x ++ rest) ≡ ok (x, rest)
unfolding read64
read64-int64 x rest h =
    ap (λ (r : Loading (List ℕ × List ℕ)). r >>= λ (field, others). ok (le_value field, others))
      (read_block-append 8 (int64_bytes x) rest refl)
    ∙ ap (λ v. ok (v, rest)) (le_value-le_bytes 8 x (omega arith))

-- A field, and what is read after it.
pub field {κ} :
    {B : Type κ} (x : ℕ) (rest : List ℕ) (f : ℕ × List ℕ → Loading B)
    → x < 2 ^ 64
    → (read64 (int64_bytes x ++ rest) >>= f) ≡ f (x, rest)
field x rest f h = ap (λ r. r >>= f) (read64-int64 x rest h)

read_name-write_name :
    (name rest : List ℕ) → length name < 256 → read_name (write_name name ++ rest) ≡ ok (name, rest)
unfolding read_name write_name
read_name-write_name name rest h =
    field (length name) (name ++ rest) _ (omega arith)
    ∙ rw (lt→ltb (length name) 256 h) (read_block-append (length name) name rest refl)

read_name_long :
    (name rest : List ℕ)
    → 256 ≤ length name
    → length name < 2 ^ 64
    → read_name (write_name name ++ rest) ≡ overrun
unfolding read_name write_name
read_name_long name rest h less =
    field (length name) (name ++ rest) _ less ∙ rw (le→ltb (length name) 256 h) refl

module _ {κ} {B : Type κ} (name more rest : List ℕ) (f : List ℕ × List ℕ → Loading B) where
  name_first : (write_name name ++ more) ++ rest ≡ write_name name ++ (more ++ rest)
  name_first = append_assoc (write_name name) more rest

  pub name_field :
      length name < 256
      → (read_name ((write_name name ++ more) ++ rest) >>= f) ≡ f (name, more ++ rest)
  name_field h =
      ap (λ bytes. read_name bytes >>= f) name_first
      ∙ ap (λ r. r >>= f) (read_name-write_name name (more ++ rest) h)

  pub long_name :
      256 ≤ length name
      → length name < 2 ^ 64
      → (read_name ((write_name name ++ more) ++ rest) >>= f) ≡ overrun
  long_name h less =
      ap (λ bytes. read_name bytes >>= f) name_first
      ∙ ap (λ r. r >>= f) (read_name_long name (more ++ rest) h less)

pub rounds_eq : (n : ℕ) → n < 2 ^ 63 → rounds n ≡ n
unfolding rounds
rounds_eq n h = rw (lt→ltb n (2 ^ 63) h) refl
