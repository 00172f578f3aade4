-- ===== src/Program/Load/Reads.antt =====
-- Reading the header of a program, and what reading it can end in (`LoadWorker` of runtime.c).
use hivelang.Prelude.{ℕ, ◌^◌, ltb, if◌then◌else◌, List, [], ◌∷◌, length, take, drop}
use hivelang.Remote.Bytes.{le_value}

-- `refused` is NULL, `exited` is `ExitProcess(1)`, and `overrun` a read or a write outside the file,
-- the memory of the code, `Workers` or the buffer of a name. `out_of_fuel` is no end of the code.
pub data Loading {ℓ} (A : Type ℓ) : Type ℓ where
  ok : A → Loading A
  refused : Loading A
  exited : Loading A
  overrun : Loading A
  out_of_fuel : Loading A

infixl 5 ◌>>=◌
abbrev pub ◌>>=◌ {ℓ κ} : {A : Type ℓ} {B : Type κ} → Loading A → (A → Loading B) → Loading B
ok a >>= f = f a
refused >>= f = refused
exited >>= f = exited
overrun >>= f = overrun
out_of_fuel >>= f = out_of_fuel

-- `*pos++`.
unfoldable pub read8 : List ℕ → Loading (ℕ × List ℕ)
read8 [] = overrun
read8 (b ∷ bytes) = ok (b, bytes)

-- `memcpy` of `size` bytes at `pos`, and `pos += size`.
unfoldable pub read_block : ℕ → List ℕ → Loading (List ℕ × List ℕ)
read_block size bytes =
    if ltb (length bytes) size then overrun else ok (take size bytes, drop size bytes)

-- `*(int64_t *)pos`, and `pos += 8`.
unfoldable pub read64 : List ℕ → Loading (ℕ × List ℕ)
unfolding read_block
read64 bytes = do (field, rest) ← read_block 8 bytes; ok (le_value field, rest)

-- A size and so many characters, copied with a final zero to 256 bytes of stack.
unfoldable pub read_name : List ℕ → Loading (List ℕ × List ℕ)
unfolding read64 read_block
read_name bytes = do (sz, rest) ← read64 bytes; if ltb sz 256 then read_block sz rest else overrun

-- The rounds of `for (int64_t i = 0; i < count; ++i)`.
unfoldable pub rounds : ℕ → ℕ
rounds count = if ltb count (2 ^ 63) then count else 0
