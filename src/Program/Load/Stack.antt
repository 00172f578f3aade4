-- ===== src/Program/Load/Stack.antt =====
-- The stack that a call into a shared library takes, as `LoadWorker` of runtime.c computes it.
pub mod Bounds
use hivelang.Prelude.{ℕ, ◌+◌, ◌-◌, ◌*◌, ◌/◌, ◌%◌, ◌^◌, ltb, if◌then◌else◌, List, [], ◌∷◌}
use hivelang.Word.{word_size, add64, sub64, mul64, signed_lt}

-- `struct dll_input_table`.
pub record DllInputTable : Type 0 where
  pub provider : ℕ
  pub size : ℕ
  pub param : ℕ
  pub type : ℕ

-- `x / d` of a signed word by a small positive number, rounded to 0.
abbrev pub signed_div : ℕ → ℕ → ℕ
signed_div x d = if ltb x (2 ^ 63) then x / d else (word_size - (word_size - x) / d) % word_size

-- `(size + 7) / 8`.
abbrev pub words_of : ℕ → ℕ
words_of size = signed_div (add64 size 7) 8

-- One round of the loop, on `call_stack_usage` and `count`, the registers that are left.
unfoldable pub stack_step : ℕ → ℕ → ℕ → ℕ × ℕ
stack_step usage count size =
    let pushed = add64 usage (mul64 (words_of size) 8) in
    if signed_lt 16 size
    then (pushed, 0)
    else if signed_lt (mul64 8 count) size
    then (pushed, count)
    else (usage, sub64 count (words_of size))

unfoldable pub stack_loop : ℕ → ℕ → List DllInputTable → ℕ
stack_loop usage count [] = usage
stack_loop usage count (i ∷ is) =
    stack_loop (stack_step usage count i.size).0 (stack_step usage count i.size).1 is

unfoldable pub linux_stack_usage : List DllInputTable → ℕ
unfolding stack_loop
linux_stack_usage inputs = mul64 (signed_div (add64 (stack_loop 0 6 inputs) 15) 16) 16

-- `32 + 16 * (inputs_len < 4 ? 0 : (inputs_len - 4 + 1) / 2)`.
unfoldable pub windows_stack_usage : ℕ → ℕ
windows_stack_usage inputs_len =
    let others = if signed_lt inputs_len 4 then 0 else signed_div (sub64 inputs_len 3) 2 in
    add64 32 (mul64 16 others)
