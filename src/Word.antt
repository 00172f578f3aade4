-- ===== src/Word.antt =====
-- 64-bit machine words as numbers below 2 ^ 64 (`uint64_t`, and `int64_t` as its bit pattern).
use hivelang.Prelude.{ℕ, ◌+◌, ◌-◌, ◌*◌, ◌/◌, ◌%◌, ◌^◌, Bool, ltb, if◌then◌else◌}

abbrev pub word_size : ℕ
word_size = 2 ^ 64

abbrev pub add64 : ℕ → ℕ → ℕ
add64 a b = (a + b) % word_size

abbrev pub sub64 : ℕ → ℕ → ℕ
sub64 a b = (a + (word_size - b)) % word_size

abbrev pub mul64 : ℕ → ℕ → ℕ
mul64 a b = (a * b) % word_size

-- `x << k` and `x >> k` of an unsigned word.
abbrev pub shl64 : ℕ → ℕ → ℕ
shl64 x k = (x * 2 ^ k) % word_size

abbrev pub shr64 : ℕ → ℕ → ℕ
shr64 x k = x / 2 ^ k

-- `x >> k` of a signed word, which copies the sign bit.
abbrev pub sar64 : ℕ → ℕ → ℕ
sar64 x k = if ltb x (2 ^ 63) then x / 2 ^ k else x / 2 ^ k + (word_size - 2 ^ (64 - k))

-- `a < b` of signed words.
unfoldable pub signed_lt : ℕ → ℕ → Bool
signed_lt a b = ltb (add64 a (2 ^ 63)) (add64 b (2 ^ 63))
