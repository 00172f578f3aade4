-- ===== src/Tests/Hashes.antt =====
-- Byte strings and the space for keys of api.c.
use hivelang.Prelude.{◌<◌, ◌%◌, ◌↔◌, ◌≡◌, [], ◌∷◌, arith}
use hivelang.Word.{word_size}
use hivelang.Hash.Bytes.{get_byte_string_hash, get_int64_hash}
use hivelang.Hash.Spread.{polynomial, get_byte_string_hash_collides}

get_byte_string_hash_collides_example :
    (get_byte_string_hash (1 ∷ 2 ∷ []) ≡ get_byte_string_hash (7 ∷ []))
    ↔ ((polynomial 123 (1 ∷ 2 ∷ []) % word_size ≡ 0) ↔ (polynomial 123 (7 ∷ []) % word_size ≡ 0))
get_byte_string_hash_collides_example = get_byte_string_hash_collides (1 ∷ 2 ∷ []) (7 ∷ [])

int64_hash_test : get_int64_hash 0 < word_size
unfolding get_int64_hash
int64_hash_test = omega arith
