-- ===== src/Hash/Spread.antt =====
-- What the hash of byte strings of api.c tells apart, where keys are stored, and `equal_bytes`.
use hivelang.Prelude.{
  ℕ, ◌↔◌, zero, suc, ◌+◌, ◌-◌, ◌*◌, ◌/◌, ◌%◌, ◌≤◌, ◌<◌, ◌≡◌, refl, ◌≢◌, sym, ◌∙◌, ap, true, List,
  [], ◌∷◌, take, arith, ne→==, inl, inr, ◌⊎◌, ℕ_discrete, dec_lt,
}
use native.Mathlib.Nat.{le_refl, mul-le-mul_right}
use hivelang.Word.{word_size}
use hivelang.Hash.Bytes.{hash_bytes, get_byte_string_hash, same_bytes, skip_words, equal_bytes}
use hivelang.Hash.Keys.{KeySpace, hashtable_alloc_key_space, segment_capacity, same_bytes_iff}

-- The number that the bytes are to the base 37, after `acc`, with no wrap-around.
abbrev pub polynomial : ℕ → List ℕ → ℕ
polynomial acc [] = acc
polynomial acc (b ∷ bs) = polynomial (acc * 37 + b) bs

polynomial-mod :
    (acc acc' : ℕ) (bs : List ℕ)
    → acc % word_size ≡ acc' % word_size
    → polynomial acc bs % word_size ≡ polynomial acc' bs % word_size
polynomial-mod acc acc' [] e = e
polynomial-mod acc acc' (b ∷ bs) e = polynomial-mod (acc * 37 + b) (acc' * 37 + b) bs (omega arith)

hash_bytes-eq-polynomial :
    (acc : ℕ) (bs : List ℕ) → acc < word_size → hash_bytes acc bs ≡ polynomial acc bs % word_size
unfolding hash_bytes
hash_bytes-eq-polynomial acc [] small = omega arith
hash_bytes-eq-polynomial acc (b ∷ bs) small =
    hash_bytes-eq-polynomial ((acc * 37 + b) % word_size) bs (omega arith)
    ∙ polynomial-mod ((acc * 37 + b) % word_size) (acc * 37 + b) bs (omega arith)

-- Two byte strings have one `GetByteStringHash` just when the polynomials of both, as whole numbers,
-- are multiples of 2 ^ 64, or neither is.
pub get_byte_string_hash_collides :
    (bs cs : List ℕ)
    → (get_byte_string_hash bs ≡ get_byte_string_hash cs)
      ↔ ((polynomial 123 bs % word_size ≡ 0) ↔ (polynomial 123 cs % word_size ≡ 0))
unfolding get_byte_string_hash
get_byte_string_hash_collides bs cs =
    let b = hash_bytes-eq-polynomial 123 bs (omega arith) in
    let c = hash_bytes-eq-polynomial 123 cs (omega arith) in rw (b, c) (ground arith)

-- A new space for keys, and its n-th hand-out.
abbrev pub new_space : ℕ → KeySpace
new_space key_size = record { key_size = key_size; offset = 0; current_segment = 0 }

abbrev pub space_after : ℕ → ℕ → KeySpace
space_after key_size zero = new_space key_size
space_after key_size (suc n) = (hashtable_alloc_key_space (space_after key_size n)).1

space_after_lem :
    (key_size n : ℕ)
    → (space_after key_size n).key_size ≡ key_size
      × ((space_after key_size n).offset ≡ n)
      × ((space_after key_size n).current_segment ≡ (n + 4095) / 4096)
unfolding hashtable_alloc_key_space
space_after_lem key_size zero = (refl, refl, omega arith)
space_after_lem key_size (suc n) = let (a, b, c) = space_after_lem key_size n in ground arith

slot_lem :
    (key_size n : ℕ)
    → (hashtable_alloc_key_space (space_after key_size n)).0 ≡ (n / 4096 + 1, (n % 4096) * key_size)
unfolding hashtable_alloc_key_space
slot_lem key_size n = let (a, b, c) = space_after_lem key_size n in ground arith

-- Two places for keys, of which neither overlaps the other.
abbrev pub Disjoint : ℕ → ℕ × ℕ → ℕ × ℕ → Type 0
Disjoint key_size p q = (p.0 ≢ q.0) ⊎ (p.1 + key_size ≤ q.1) ⊎ (q.1 + key_size ≤ p.1)

product_le : (i j k : ℕ) → i < j → i * k + k ≤ j * k
product_le i j k less = let q : suc i * k ≤ j * k = mul-le-mul_right k less in omega arith

places_lem :
    (key_size m n : ℕ)
    → m ≢ n
    → Disjoint key_size (m / 4096 + 1, (m % 4096) * key_size) (n / 4096 + 1, (n % 4096) * key_size)
places_lem key_size m n apart = elim (ℕ_discrete (m / 4096) (n / 4096)) [
  | no ne ↦ inl (omega arith)
  | yes e ↦ elim (dec_lt (m % 4096) (n % 4096)) [
    | yes less ↦ inr (inl (product_le (m % 4096) (n % 4096) key_size less))
    | no more ↦ inr (inr (product_le (n % 4096) (m % 4096) key_size (omega arith)))
  ]
]

-- Different hand-outs of one table's key space do not overlap, and each lies within its segment
-- of 4096 keys: one key never overwrites another.
alloc_key_space_apart :
    (key_size m n : ℕ)
    → m ≢ n
    → let place = (hashtable_alloc_key_space (space_after key_size m)).0 in
      Disjoint key_size place (hashtable_alloc_key_space (space_after key_size n)).0
      × (place.1 + key_size ≤ segment_capacity * key_size)
alloc_key_space_apart key_size m n apart =
    rw (slot_lem key_size m, slot_lem key_size n)
      (places_lem key_size m n apart, product_le (m % 4096) 4096 key_size (omega arith))

skip_words_lt :
    (fuel : ℕ) (a b : List ℕ) (len : ℕ)
    → len ≤ fuel
    → same_bytes (take 8 a) (take 8 b) ≡ true
    → skip_words fuel a b len < 8
unfolding skip_words
skip_words_lt zero a b len h s = omega arith
skip_words_lt (suc fuel) a b len h s = ground (arith, skip_words_lt fuel a b (len - 8))

take-take : (m n : ℕ) (xs : List ℕ) → m ≤ n → take m (take n xs) ≡ take m xs
take-take zero n xs h = refl
take-take (suc m) zero xs h = absurd (omega arith)
take-take (suc m) (suc n) [] h = refl
take-take (suc m) (suc n) (x ∷ xs) h = ap (◌∷◌ x) (take-take m n xs (omega arith))

-- `equal_bytes` on more than eight bytes looks at the first eight only: two buffers that agree
-- there are called equal whatever follows.
equal_bytes_prefix :
    (a b : List ℕ) (len : ℕ)
    → 8 < len
    → same_bytes (take 8 a) (take 8 b) ≡ true
    → equal_bytes a b len ≡ true
unfolding equal_bytes
equal_bytes_prefix a b len long s =
    let few = skip_words_lt len a b len (le_refl len) s in
    let left = skip_words len a b len in
    let same = (same_bytes_iff (take 8 a) (take 8 b)).0 s in
    let short : take left a ≡ take left b =
      sym (take-take left 8 a (omega arith))
      ∙ ap (take left) same
      ∙ take-take left 8 b (omega arith) in
    rw (ne→== len 8 (omega arith)) ((same_bytes_iff (take left a) (take left b)).1 short)
