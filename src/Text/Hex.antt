-- ===== src/Text/Hex.antt =====
-- What `PrintI64H` and `Print2H` write is the number to the base 16.
use hivelang.Prelude.{
  ℕ, zero, suc, ◌+◌, ◌-◌, ◌*◌, ◌/◌, ◌%◌, ◌^◌, ◌<◌, ◌≡◌, refl, ◌∙◌, ltb, if◌then◌else◌, List, [],
  ◌∷◌, length, arith,
}
use hivelang.Text.{hex_digit, hex_loop, print_i64h, print_2h}

-- The value of a digit 0 to 9 or A to F, and of a run of them after `acc`.
abbrev pub digit_value : ℕ → ℕ
digit_value c = if ltb c 58 then c - 48 else c - 55

abbrev pub hex_value : ℕ → List ℕ → ℕ
hex_value acc [] = acc
hex_value acc (c ∷ cs) = hex_value (acc * 16 + digit_value c) cs

digit_value-hex_digit : (d : ℕ) → d < 16 → digit_value (hex_digit d) ≡ d
digit_value-hex_digit d less = ground arith

hex_value-hex_loop :
    (n v : ℕ) (written : List ℕ)
    → v < 16 ^ n
    → hex_value 0 (hex_loop n v written) ≡ hex_value v written
hex_value-hex_loop zero v written less = let z : v ≡ 0 = omega arith in rw z refl
hex_value-hex_loop (suc n) v written less =
    let rest : v / 16 < 16 ^ n = omega arith in
    hex_value-hex_loop n (v / 16) (hex_digit (v % 16) ∷ written) rest
    ∙ rw (digit_value-hex_digit (v % 16) (omega arith))
        (let e : (v / 16) * 16 + v % 16 ≡ v = omega arith in rw e refl)

length-hex_loop : (n v : ℕ) (written : List ℕ) → length (hex_loop n v written) ≡ n + length written
length-hex_loop zero v written = omega arith
length-hex_loop (suc n) v written =
    omega (arith, length-hex_loop n (v / 16) (hex_digit (v % 16) ∷ written))

-- `PrintI64H` of a 64-bit number writes 16 characters, and read to the base 16 they are the number.
hex_value-print_i64h :
    (value : ℕ)
    → value < 2 ^ 64
    → (length (print_i64h value) ≡ 16) × (hex_value 0 (print_i64h value) ≡ value)
unfolding print_i64h
hex_value-print_i64h value less =
    (length-hex_loop 16 value [], hex_value-hex_loop 16 value [] (omega arith))

-- `Print2H` of a byte writes 2 characters, and read to the base 16 they are the byte.
hex_value-print_2h :
    (value : ℕ)
    → value < 256
    → (length (print_2h value) ≡ 2) × (hex_value 0 (print_2h value) ≡ value)
unfolding print_2h
hex_value-print_2h value less =
    (length-hex_loop 2 value [], hex_value-hex_loop 2 value [] (omega arith))
