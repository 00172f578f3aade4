-- ===== src/Program/Meaning/Strings.antt =====
-- `defined_arrays` of runtime.c holds the strings of the program.
use hivelang.Prelude.{
  ℕ, zero, suc, ◌+◌, ◌-◌, ◌%◌, ◌≡◌, refl, ap, sym, ◌∙◌, Option, none, some, List, [], ◌∷◌, ◌++◌,
  append_assoc, length, get_elem?, take, drop, arith, length-append,
}
use hivelang.Remote.Delivery.{take_eq, drop_eq}
use hivelang.Program.Load.{Loaded, DefinedArrays, load_strings}
use hivelang.Program.Load.Reads.{ok}
use hivelang.Program.Export.{next_offset, gap, string_bytes, write_strings}
use hivelang.Program.Install.{offsets}
use hivelang.Program.RoundTrip.Tables.{FitsStrings, strings-reads, length-gap}

-- The bytes of `defined_arrays[i]`.
abbrev pub array_bytes : DefinedArrays → ℕ → Option (List ℕ)
array_bytes d i = elim (get_elem? d.arrays i) [
  | some (start, size) ↦ some (take size (drop start d.raw))
  | none ↦ none
]

bytes_at : List ℕ → Option (ℕ × ℕ) → Option (List ℕ)
bytes_at raw (some (start, size)) = some (take size (drop start raw))
bytes_at raw none = none

array_bytes_lem :
    (d : DefinedArrays) (i : ℕ) → array_bytes d i ≡ bytes_at d.raw (get_elem? d.arrays i)
unfolding bytes_at
array_bytes_lem d i =
    elim (get_elem? d.arrays i)
      as (λ o.
        (elim o [ some (start, size) ↦ some (take size (drop start d.raw)) | none ↦ none ])
        ≡ bytes_at d.raw o) [ some (start, size) ↦ refl | none ↦ refl ]

bytes_at-offsets :
    (u : ℕ → ℕ) (ks : List (List ℕ)) (before : List ℕ) (n i : ℕ)
    → length before ≡ n
    → bytes_at (before ++ string_bytes u n ks) (get_elem? (offsets n ks) i) ≡ get_elem? ks i
unfolding bytes_at string_bytes next_offset
bytes_at-offsets u [] before n i e = refl
bytes_at-offsets u (k ∷ ks) before n zero e =
    rw (drop_eq n before _ e) (ap some (take_eq (length k) k _ refl))
bytes_at-offsets u (k ∷ ks) before n (suc i) e =
    let end : ℕ = n + length k in
    let filler : ℕ = (8 - end % 8) % 8 in
    let next : List ℕ = string_bytes u (end + filler) ks in
    let before' : List ℕ = before ++ (k ++ gap u end filler) in
    let size : length before' ≡ end + filler = omega (
      arith,
      length-append before (k ++ gap u end filler),
      length-append k (gap u end filler),
      length-gap u end filler,
    ) in
    let same : before' ++ next ≡ before ++ (k ++ (gap u end filler ++ next)) =
      append_assoc before (k ++ gap u end filler) next
      ∙ ap (λ b. before ++ b) (append_assoc k (gap u end filler) next) in
    ap (λ raw. bytes_at raw (get_elem? (offsets (end + filler) ks) i)) (sym same)
    ∙ bytes_at-offsets u ks before' (end + filler) i size

-- The header of strings that the x64 assembler writes, followed by anything, is loaded as a table of
-- arrays whose array `i` has the bytes of string `i`, for every `i`, and there are no more arrays
-- than strings; the bytes after the header are left. The strings must be fewer than 2 ^ 63, and have
-- fewer than 2 ^ 64 bytes with what is passed over between them.
pub load_strings-write_strings :
    (unwritten : ℕ → ℕ) (strings : List (List ℕ)) (s : Loaded) (rest : List ℕ)
    → FitsStrings strings
    → (d : DefinedArrays) × (load_strings s (write_strings unwritten strings ++ rest)
        ≡ ok (record s { defined_arrays = some d }, rest))
      × ((i : ℕ) → array_bytes d i ≡ get_elem? strings i)
load_strings-write_strings u ks s rest fits =
    let d : DefinedArrays = record { raw = string_bytes u 0 ks; arrays = offsets 0 ks } in
    (
      d,
      strings-reads u ks s rest fits,
      λ i. array_bytes_lem d i ∙ bytes_at-offsets u ks [] 0 i refl,
    )
