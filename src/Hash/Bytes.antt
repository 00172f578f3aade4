-- ===== src/Hash/Bytes.antt =====
-- `GetByteStringHash`, `GetInt64Hash` and `equal_bytes` of api.c.
use hivelang.Prelude.{
  ℕ, zero, suc, ◌+◌, ◌-◌, ◌*◌, ◌%◌, ◌==◌, leb, Bool, true, false, ◌&&◌, if◌then◌else◌, List, [],
  ◌∷◌, take, bit_xor,
}
use hivelang.Word.{word_size, add64, mul64, sar64}

-- The loop of `GetByteStringHash`.
unfoldable pub hash_bytes : ℕ → List ℕ → ℕ
hash_bytes hash [] = hash
hash_bytes hash (b ∷ bs) = hash_bytes ((hash * 37 + b) % word_size) bs

unfoldable pub get_byte_string_hash : List ℕ → ℕ
unfolding hash_bytes
get_byte_string_hash bs = if hash_bytes 123 bs == 0 then 1 else 0

-- The shifts are those of a signed word.
unfoldable pub get_int64_hash : ℕ → ℕ
get_int64_hash key =
    let a = add64 key 1 in
    let b = bit_xor a (sar64 a 33) in
    let c = mul64 b 0xff51afd7ed558ccd in
    let d = bit_xor c (sar64 c 33) in let e = mul64 d 0xc4ceb9fe1a85ec53 in bit_xor e (sar64 e 33)

-- `memcmp(a, b, len) == 0` on keys of one length.
abbrev pub same_bytes : List ℕ → List ℕ → Bool
same_bytes [] [] = true
same_bytes [] (y ∷ ys) = false
same_bytes (x ∷ xs) [] = false
same_bytes (x ∷ xs) (y ∷ ys) = x == y && same_bytes xs ys

-- The first `while` of `equal_bytes`: it lowers `len` by eight, and leaves the pointers.
unfoldable pub skip_words : ℕ → List ℕ → List ℕ → ℕ → ℕ
skip_words zero a b len = len
skip_words (suc fuel) a b len =
    let rest = skip_words fuel a b (len - 8) in
    if leb 8 len && same_bytes (take 8 a) (take 8 b) then rest else len

-- `equal_bytes`, on buffers of at least `len` bytes.
unfoldable pub equal_bytes : List ℕ → List ℕ → ℕ → Bool
unfolding skip_words
equal_bytes a b len =
    if len == 8
    then same_bytes (take 8 a) (take 8 b)
    else (let left = skip_words len a b len in same_bytes (take left a) (take left b))
