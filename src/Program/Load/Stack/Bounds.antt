-- ===== src/Program/Load/Stack/Bounds.antt =====
-- The stack of a call holds the arguments that the registers do not.
use hivelang.Prelude.{
  ℕ, ◌+◌, ◌-◌, ◌*◌, ◌/◌, ◌%◌, ◌^◌, ◌≤◌, ◌<◌, ltb, ◌≡◌, List, [], ◌∷◌, arith, le→ltb, lt→ltb, dec_lt,
}
use hivelang.Word.{add64, sub64, mul64, signed_lt}
use hivelang.Program.Load.Stack.{
  DllInputTable, signed_div, words_of, stack_step, stack_loop, linux_stack_usage,
}

-- The bytes of the arguments, each rounded up to 8.
abbrev pub argument_bytes : List DllInputTable → ℕ
argument_bytes [] = 0
argument_bytes (i ∷ is) = (i.size + 7) / 8 * 8 + argument_bytes is

words_of_small : (size : ℕ) → size < 2 ^ 62 → words_of size ≡ (size + 7) / 8
words_of_small size h = ground arith

signed_lt_small : (a b : ℕ) → a < 2 ^ 62 → b < 2 ^ 62 → signed_lt a b ≡ ltb a b
unfolding signed_lt
signed_lt_small a b h1 h2 = ground arith

-- What a round gives the stack is at most the argument, and at least what the registers do not take.
step_bounds :
    (usage count size : ℕ)
    → usage < 2 ^ 62
    → size < 2 ^ 62
    → count ≤ 6
    → ((stack_step usage count size).1 ≤ 6)
      × ((stack_step usage count size).0 ≤ usage + (size + 7) / 8 * 8)
      × (usage + (size + 7) / 8 * 8 + 8 * (stack_step usage count size).1
          ≤ (stack_step usage count size).0 + 8 * count)
unfolding stack_step
step_bounds usage count size h1 h2 h3 =
    let large : mul64 8 count ≡ 8 * count = omega arith in
    let pushed : add64 usage (mul64 (words_of size) 8) ≡ usage + (size + 7) / 8 * 8 =
      rw (words_of_small size h2) (omega arith) in
    elim (dec_lt 16 size) [
      | yes over ↦
          rw (stack_step, signed_lt_small 16 size (omega arith) h2, lt→ltb 16 size over, pushed)
            (omega arith, omega arith, omega arith)
      | no small ↦ elim (dec_lt (8 * count) size) [
        | yes over ↦
            rw
              (
                stack_step,
                signed_lt_small 16 size (omega arith) h2,
                le→ltb 16 size (omega arith),
                large,
                signed_lt_small (8 * count) size (omega arith) h2,
                lt→ltb (8 * count) size over,
                pushed,
              )
              (omega arith, omega arith, omega arith)
        | no fits ↦
            let left : sub64 count (words_of size) ≡ count - (size + 7) / 8 =
              rw (words_of_small size h2) (omega arith) in
            rw
              (
                stack_step,
                signed_lt_small 16 size (omega arith) h2,
                le→ltb 16 size (omega arith),
                large,
                signed_lt_small (8 * count) size (omega arith) h2,
                le→ltb (8 * count) size (omega arith),
                left,
              )
              (omega arith, omega arith, omega arith)
      ]
    ]

loop_bounds :
    (is : List DllInputTable) (usage count : ℕ)
    → usage + argument_bytes is < 2 ^ 62
    → count ≤ 6
    → (stack_loop usage count is ≤ usage + argument_bytes is)
      × (usage + argument_bytes is ≤ stack_loop usage count is + 8 * count)
unfolding stack_loop
loop_bounds [] usage count h1 h2 = (omega arith, omega arith)
loop_bounds (i ∷ is) usage count h1 h2 =
    let step = step_bounds usage count i.size (omega arith) (omega arith) h2 in
    let (few, less, more) = step in
    let rest =
      loop_bounds is (stack_step usage count i.size).0 (stack_step usage count i.size).1
        (omega arith) few in
    (omega arith, omega arith)

-- On Linux the stack that the loader sets aside for a call with fewer than 2 ^ 62 bytes of arguments,
-- each rounded up to 8, is a multiple of 16; it is not 16 or more above those bytes, and with the 48
-- bytes of six registers it is not below them.
pub linux_stack_usage_bounds :
    (inputs : List DllInputTable)
    → argument_bytes inputs < 2 ^ 62
    → (linux_stack_usage inputs % 16 ≡ 0)
      × (linux_stack_usage inputs < argument_bytes inputs + 16)
      × (argument_bytes inputs ≤ linux_stack_usage inputs + 48)
unfolding linux_stack_usage
linux_stack_usage_bounds inputs h =
    let (less, more) = loop_bounds inputs 0 6 (omega arith) (omega arith) in
    let size : ℕ = stack_loop 0 6 inputs in
    let value : mul64 (signed_div (add64 size 15) 16) 16 ≡ (size + 15) / 16 * 16 =
      rounded size (omega arith) in
    rw (value) (omega arith, omega arith, omega arith)
  where
    rounded : (x : ℕ) → x < 2 ^ 62 → mul64 (signed_div (add64 x 15) 16) 16 ≡ (x + 15) / 16 * 16
    rounded x less = ground arith
