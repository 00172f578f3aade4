-- ===== src/Text.antt =====
-- Numbers as text, runtimes/0.3/lin/runtime_lib.c (the FREESTANDING build of the readers).
pub mod Read
pub mod Hex
use hivelang.Prelude.{
  set, length, ◌++◌, ℕ, zero, suc, ◌+◌, ◌-◌, ◌*◌, ◌/◌, ◌%◌, ◌^◌, ◌==◌, ltb, leb, Bool, true, false,
  ◌&&◌, ◌||◌, if◌then◌else◌, Option, none, some, List, [], ◌∷◌,
}
use hivelang.Word.{word_size}

abbrev pub is_digit : ℕ → Bool
is_digit c = leb 48 c && leb c 57

abbrev pub is_space : ℕ → Bool
is_space c = c == 32 || c == 10 || c == 9 || c == 13

-- `myScanI64`: the characters that `get_char` gives, which are 0 after the last one; `res` wraps
-- around as an `int64_t`, and `y` is whether a digit was read. `none` is a loop that reads for ever.
abbrev pub scan_loop : List ℕ → ℕ → Bool → Option (ℕ × List ℕ)
scan_loop [] res true = some (res, [])
scan_loop [] res false = none
scan_loop (c ∷ cs) res y = elim (is_digit c) [
  | true ↦ scan_loop cs ((res * 10 + (c - 48)) % word_size) true
  | false ↦ elim y [ true ↦ some (res, cs) | false ↦ scan_loop cs res false ]
]

unfoldable pub my_scan_i64 : List ℕ → Option (ℕ × List ℕ)
my_scan_i64 cs = scan_loop cs 0 false

-- The three loops of `myAtoll`, on the characters before the 0 that ends the string. `res` is an
-- `int`, here its bit pattern, and is extended to 64 bits when it is returned.
abbrev pub skip_spaces : List ℕ → List ℕ
skip_spaces [] = []
skip_spaces (c ∷ cs) = elim (is_space c) [ true ↦ skip_spaces cs | false ↦ c ∷ cs ]

abbrev pub read_sign : List ℕ → Bool × List ℕ
read_sign [] = (false, [])
read_sign (c ∷ cs) =
    if c == 43 then (false, cs) else if c == 45 then (true, cs) else (false, c ∷ cs)

abbrev pub read_digits : List ℕ → ℕ → ℕ
read_digits [] res = res
read_digits (c ∷ cs) res = elim (is_digit c) [
  | true ↦ read_digits cs ((c - 48 + res * 10) % 2 ^ 32)
  | false ↦ res
]

abbrev pub sign_extend : ℕ → ℕ
sign_extend r = if ltb r (2 ^ 31) then r else r + (word_size - 2 ^ 32)

unfoldable pub my_atoll : List ℕ → ℕ
my_atoll number =
    let (neg, digits) = read_sign (skip_spaces number) in
    let res = read_digits digits 0 in sign_extend (if neg then (2 ^ 32 - res) % 2 ^ 32 else res)

-- `PrintI64H` and `Print2H` fill their places from the last one down.
abbrev pub hex_digit : ℕ → ℕ
hex_digit tmp = if ltb tmp 10 then 48 + tmp else 65 - 10 + tmp

abbrev pub hex_loop : ℕ → ℕ → List ℕ → List ℕ
hex_loop zero value written = written
hex_loop (suc n) value written = hex_loop n (value / 16) (hex_digit (value % 16) ∷ written)

unfoldable pub print_i64h : ℕ → List ℕ
print_i64h value = hex_loop 16 value []

unfoldable pub print_2h : ℕ → List ℕ
print_2h value = hex_loop 2 value []

-- `PrintI64`: the digits from the last one on (a 64-bit number has at most 20), and the loop that
-- turns them round in place.
abbrev pub decimal_loop : ℕ → ℕ → List ℕ
decimal_loop zero value = []
decimal_loop (suc fuel) value =
    let c = 48 + value % 10 in
    elim (value / 10 == 0) [ true ↦ c ∷ [] | false ↦ c ∷ decimal_loop fuel (value / 10) ]

abbrev char_at : List ℕ → ℕ → ℕ
char_at [] i = 0
char_at (c ∷ cs) zero = c
char_at (c ∷ cs) (suc i) = char_at cs i

abbrev pub swap_loop : ℕ → List ℕ → ℕ → ℕ → List ℕ
swap_loop zero text start end = text
swap_loop (suc fuel) text start end = elim (ltb start end) [
  | false ↦ text
  | true ↦
      let at_start = char_at text start in
      let at_end = char_at text end in
      swap_loop fuel (set (set text end at_start) start at_end) (start + 1) (end - 1)
]

unfoldable pub print_i64 : ℕ → List ℕ
print_i64 value = let digits = decimal_loop 20 value in swap_loop 20 digits 0 (length digits - 1)

-- `myScanS`: the word up to white space or the end, spaces before it left out. What is left of the
-- characters comes with it.
abbrev pub scan_word : List ℕ → List ℕ → List ℕ × List ℕ
scan_word [] str = (str, [])
scan_word (c ∷ cs) str = elim (c == 0) [
  | true ↦ (str, cs)
  | false ↦ elim (c == 32 && length str == 0) [
    | true ↦ scan_word cs str
    | false ↦ elim (is_space c) [ true ↦ (str, cs) | false ↦ scan_word cs (str ++ c ∷ []) ]
  ]
]

unfoldable pub my_scan_s : List ℕ → List ℕ × List ℕ
my_scan_s cs = scan_word cs []
