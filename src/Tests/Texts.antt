-- ===== src/Tests/Texts.antt =====
-- Numbers as text.
use hivelang.Prelude.{◌%◌, ◌≡◌, refl, some, [], ◌∷◌, ◌++◌}
use hivelang.Word.{word_size}
use hivelang.Text.{my_scan_i64, print_i64, print_2h, my_scan_s}
use hivelang.Text.Read.{decimal, my_scan_i64-decimal}

-- The text " -12 9".
my_scan_i64-decimal_example :
    my_scan_i64 ((32 ∷ 45 ∷ []) ++ (49 ∷ (50 ∷ []) ++ 32 ∷ (57 ∷ [])))
    ≡ some (decimal 0 (49 ∷ 50 ∷ []) % word_size, 57 ∷ [])
my_scan_i64-decimal_example =
    my_scan_i64-decimal (32 ∷ 45 ∷ []) 49 (50 ∷ []) 32 (57 ∷ []) (refl, (refl, tt))
      (refl, (refl, tt)) refl

print_2h_test : print_2h 171 ≡ 65 ∷ 66 ∷ []
unfolding print_2h
print_2h_test = refl

print_i64_test : print_i64 1207 ≡ 49 ∷ 50 ∷ 48 ∷ 55 ∷ []
unfolding print_i64
print_i64_test = refl

-- The text "  ab c".
my_scan_s_test : my_scan_s (32 ∷ 32 ∷ 97 ∷ 98 ∷ 32 ∷ 99 ∷ []) ≡ (97 ∷ 98 ∷ [], 99 ∷ [])
unfolding my_scan_s
my_scan_s_test = refl
