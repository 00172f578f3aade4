-- ===== src/Text/Read.antt =====
-- What `myScanI64` and `myAtoll` read is the decimal number of the digits, within their width.
use hivelang.Prelude.{
  ℕ, ◌+◌, ◌-◌, ◌*◌, ◌%◌, ◌^◌, ◌<◌, ◌==◌, ◌≡◌, refl, ap, ◌∙◌, Bool, true, false, if◌then◌else◌, some,
  List, [], ◌∷◌, ◌++◌, All, arith,
}
use hivelang.Word.{word_size}
use hivelang.Text.{
  is_digit, is_space, scan_loop, my_scan_i64, skip_spaces, read_sign, read_digits, sign_extend,
  my_atoll,
}

-- The decimal number of digits after `acc`, with no bound.
abbrev pub decimal : ℕ → List ℕ → ℕ
decimal acc [] = acc
decimal acc (c ∷ cs) = decimal (acc * 10 + (c - 48)) cs

abbrev pub Digits : List ℕ → Type 0
Digits = All (λ c. is_digit c ≡ true)

decimal-mod64 :
    (acc acc' : ℕ) (ds : List ℕ)
    → acc % word_size ≡ acc' % word_size
    → decimal acc ds % word_size ≡ decimal acc' ds % word_size
decimal-mod64 acc acc' [] e = e
decimal-mod64 acc acc' (d ∷ ds) e =
    decimal-mod64 (acc * 10 + (d - 48)) (acc' * 10 + (d - 48)) ds (omega arith)

decimal-mod32 :
    (acc acc' : ℕ) (ds : List ℕ)
    → acc % 2 ^ 32 ≡ acc' % 2 ^ 32
    → decimal acc ds % 2 ^ 32 ≡ decimal acc' ds % 2 ^ 32
decimal-mod32 acc acc' [] e = e
decimal-mod32 acc acc' (d ∷ ds) e =
    decimal-mod32 (acc * 10 + (d - 48)) (acc' * 10 + (d - 48)) ds (omega arith)

scan-Digits :
    (ds : List ℕ) (res c : ℕ) (rest : List ℕ)
    → Digits ds
    → is_digit c ≡ false
    → res < word_size
    → scan_loop (ds ++ c ∷ rest) res true ≡ some (decimal res ds % word_size, rest)
scan-Digits [] res c rest all_digits stop less =
    let e : res % word_size ≡ res = omega arith in rw (scan_loop, stop, e) refl
scan-Digits (d ∷ ds) res c rest (one, more) stop less =
    let res' = (res * 10 + (d - 48)) % word_size in
    rw (scan_loop, one)
      (scan-Digits ds res' c rest more stop (omega arith)
        ∙ ap (λ n. some (n, rest)) (decimal-mod64 res' (res * 10 + (d - 48)) ds (omega arith)))

scan_others :
    (others : List ℕ) (cs : List ℕ)
    → All (λ c. is_digit c ≡ false) others
    → scan_loop (others ++ cs) 0 false ≡ scan_loop cs 0 false
scan_others [] cs h = refl
scan_others (c ∷ others) cs (one, more) = rw (scan_loop, one) (scan_others others cs more)

-- `myScanI64` on characters that are no digits, then at least one digit, then a character that is
-- none, ends: it answers the decimal number of the digits modulo 2 ^ 64, and has read up to that
-- last character and no further.
pub my_scan_i64-decimal :
    (others : List ℕ) (d : ℕ) (ds : List ℕ) (c : ℕ) (rest : List ℕ)
    → All (λ x. is_digit x ≡ false) others
    → Digits (d ∷ ds)
    → is_digit c ≡ false
    → my_scan_i64 (others ++ (d ∷ ds ++ c ∷ rest)) ≡ some (decimal 0 (d ∷ ds) % word_size, rest)
unfolding my_scan_i64
my_scan_i64-decimal others d ds c rest skipped (one, more) stop =
    scan_others others (d ∷ ds ++ c ∷ rest) skipped
    ∙ rw (scan_loop, one)
        (scan-Digits ds ((0 * 10 + (d - 48)) % word_size) c rest more stop (omega arith)
          ∙ ap (λ n. some (n, rest))
              (decimal-mod64 ((0 * 10 + (d - 48)) % word_size) (0 * 10 + (d - 48)) ds
                (omega arith)))

read_digits-decimal :
    (ds : List ℕ) (res : ℕ)
    → Digits ds
    → res < 2 ^ 32
    → read_digits ds res ≡ decimal res ds % 2 ^ 32
read_digits-decimal [] res all_digits less = omega arith
read_digits-decimal (d ∷ ds) res (one, more) less =
    rw (read_digits, one)
      (read_digits-decimal ds ((d - 48 + res * 10) % 2 ^ 32) more (omega arith)
        ∙ decimal-mod32 ((d - 48 + res * 10) % 2 ^ 32) (res * 10 + (d - 48)) ds (omega arith))

digit_lem :
    (d : ℕ) → is_digit d ≡ true → (is_space d ≡ false) × ((d == 43) ≡ false) × ((d == 45) ≡ false)
digit_lem d h = (ground arith, ground arith, ground arith)

skip_spaces-append :
    (spaces cs : List ℕ)
    → All (λ c. is_space c ≡ true) spaces
    → skip_spaces (spaces ++ cs) ≡ skip_spaces cs
skip_spaces-append [] cs h = refl
skip_spaces-append (c ∷ spaces) cs (one, more) =
    rw (skip_spaces, one) (skip_spaces-append spaces cs more)

-- The number, from the sign and the digits on.
abbrev finish : Bool × List ℕ → ℕ
finish (neg, digits) =
    let res = read_digits digits 0 in sign_extend (if neg then (2 ^ 32 - res) % 2 ^ 32 else res)

sign_extend-small : (n : ℕ) → n < 2 ^ 31 → sign_extend n ≡ n
sign_extend-small n less = ground arith

sign_extend-negated :
    (n : ℕ) → n < 2 ^ 31 → sign_extend ((2 ^ 32 - n) % 2 ^ 32) ≡ (word_size - n) % word_size
sign_extend-negated n less = ground arith

-- `myAtoll` of white space and digits whose decimal number is below 2 ^ 31 answers that number, and
-- with a minus sign before the digits its negation modulo 2 ^ 64.
my_atoll-decimal :
    (spaces : List ℕ) (d : ℕ) (ds : List ℕ)
    → All (λ c. is_space c ≡ true) spaces
    → Digits (d ∷ ds)
    → decimal 0 (d ∷ ds) < 2 ^ 31
    → (my_atoll (spaces ++ (d ∷ ds)) ≡ decimal 0 (d ∷ ds))
      × (my_atoll (spaces ++ (45 ∷ d ∷ ds)) ≡ (word_size - decimal 0 (d ∷ ds)) % word_size)
unfolding my_atoll
my_atoll-decimal spaces d ds skipped digits less =
    let (no_space, no_plus, no_minus) = digit_lem d digits.0 in
    let value = read_digits-decimal (d ∷ ds) 0 digits (omega arith) in
    let small : decimal 0 (d ∷ ds) % 2 ^ 32 ≡ decimal 0 (d ∷ ds) = omega arith in
    let whole = value ∙ small in
    let at_digit : skip_spaces (d ∷ ds) ≡ d ∷ ds = rw (skip_spaces, no_space) refl in
    (
      ap (λ l. finish (read_sign l)) (skip_spaces-append spaces (d ∷ ds) skipped ∙ at_digit)
          ∙ ap finish (unsigned d ds no_plus no_minus)
          ∙ ap sign_extend whole
          ∙ sign_extend-small (decimal 0 (d ∷ ds)) less,
      ap (λ l. finish (read_sign l)) (skip_spaces-append spaces (45 ∷ d ∷ ds) skipped)
          ∙ ap (λ n. sign_extend ((2 ^ 32 - n) % 2 ^ 32)) whole
          ∙ sign_extend-negated (decimal 0 (d ∷ ds)) less,
    )
  where
    unsigned :
        (d : ℕ) (ds : List ℕ)
        → (d == 43) ≡ false
        → (d == 45) ≡ false
        → read_sign (d ∷ ds) ≡ (false, d ∷ ds)
    unsigned d ds p m = rw (read_sign, p, m) refl
