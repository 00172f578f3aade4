-- ===== src/Program/RoundTrip/Tables.antt =====
-- The headers of a function of a shared library and of the strings.
use hivelang.Prelude.{
  ℕ, zero, suc, ◌+◌, ◌-◌, ◌*◌, ◌%◌, ◌^◌, ◌≤◌, ◌<◌, ◌==◌, ◌≡◌, refl, ap, ◌∙◌, Bool, true, false,
  if◌then◌else◌, List, [], ◌∷◌, ◌++◌, append_assoc, length, All, arith, length-append, dec_lt,
  lt→ltb, le→ltb,
}
use hivelang.Remote.Send.{int64_bytes}
use hivelang.Remote.Delivery.{drop_eq}
use hivelang.Program.Load.{
  Platform, Loaded, read_inputs, load_dll, read_arrays, load_strings, is_call,
}
use hivelang.Program.Load.Stack.{DllInputTable}
use hivelang.Program.Load.Reads.{Loading, ok, refused, exited, overrun, out_of_fuel, ◌>>=◌, read8}
use hivelang.Program.Loader.{load_header}
use hivelang.Program.Export.{
  DllImport, concat_map, counted, next_offset, strings_size, string_table, gap, string_bytes,
  write_strings, write_dll_input, write_name, write_import,
}
use hivelang.Program.Install.{install_import, offsets, install_strings}
use hivelang.Program.RoundTrip.Fields.{field, name_field, long_name, rounds_eq, read_block-append}
use hivelang.Program.RoundTrip.Headers.{and_leave, Loads, header-Loads}

abbrev pub FitsInput : DllInputTable → Type 0
FitsInput i = i.provider < 2 ^ 64 × i.size < 2 ^ 64 × i.param < 2 ^ 64

abbrev pub FitsImport : DllImport → Type 0
FitsImport d =
    d.export_id < 2 ^ 64
    × length d.library < 2 ^ 64
    × length d.entry < 2 ^ 64
    × d.affinity < 2 ^ 64
    × d.output < 2 ^ 64
    × length d.inputs < 2 ^ 63
    × All FitsInput d.inputs

abbrev pub FitsStrings : List (List ℕ) → Type 0
FitsStrings strings = length strings < 2 ^ 63 × strings_size 0 strings < 2 ^ 64

inputs-reads :
    (is : List DllInputTable) (rest : List ℕ)
    → All FitsInput is
    → read_inputs (length is) (concat_map write_dll_input is ++ rest) ≡ ok (is, rest)
unfolding read_inputs write_dll_input read8
inputs-reads [] rest h = refl
inputs-reads (i ∷ is) rest ((h1, h2, h3), more) =
    field i.provider _ _ h1
    ∙ field i.size _ _ h2
    ∙ field i.param (concat_map write_dll_input is ++ rest) _ h3
    ∙ ap (λ r. r >>= λ (inputs, bytes). ok (i ∷ inputs, bytes)) (inputs-reads is rest more)

entered_leave :
    (r : Loading Loaded) (b : Bool) (rest : List ℕ)
    → (r >>= λ s'. if b then exited else ok (s', rest))
      ≡ and_leave rest (r >>= λ s'. if b then exited else ok s')
entered_leave (ok s) true rest = refl
entered_leave (ok s) false rest = refl
entered_leave refused b rest = refl
entered_leave exited b rest = refl
entered_leave overrun b rest = refl
entered_leave out_of_fuel b rest = refl

-- What follows the library's name, and what follows the entry's.
abbrev after_entry : DllImport → List ℕ
after_entry d = int64_bytes d.affinity ++ (int64_bytes d.output ++ counted write_dll_input d.inputs)

abbrev after_library : DllImport → List ℕ
after_library d = write_name d.entry ++ after_entry d

module _ (p : Platform) (d : DllImport) (s : Loaded) (rest : List ℕ) where
  import_fields :
      FitsImport d
      → length d.library < 256
      → length d.entry < 256
      → load_dll p s (write_import d ++ rest) ≡ and_leave rest (install_import p d s)
  unfolding load_dll write_import
  import_fields (h1, h2, h3, h4, h5, h6, h7) short short' =
      let inputs : List ℕ = concat_map write_dll_input d.inputs ++ rest in
      field d.export_id _ _ h1
      ∙ name_field d.library (after_library d) rest _ short
      ∙ name_field d.entry (after_entry d) rest _ short'
      ∙ field d.affinity _ _ h4
      ∙ field d.output _ _ h5
      ∙ field (length d.inputs) inputs _ (omega arith)
      ∙ rw (rounds_eq (length d.inputs) h6, inputs-reads d.inputs rest h7)
          (rw (lt→ltb (length d.library) 256 short, lt→ltb (length d.entry) 256 short')
            (entered_leave _ (p.symbol d.library d.entry == 0) rest))

  import_long_library :
      FitsImport d
      → 256 ≤ length d.library
      → load_dll p s (write_import d ++ rest) ≡ and_leave rest (install_import p d s)
  unfolding load_dll write_import
  import_long_library (h1, h2, h3, h4, h5, h6, h7) long =
      field d.export_id _ _ h1
      ∙ long_name d.library (after_library d) rest _ long h2
      ∙ rw (le→ltb (length d.library) 256 long) refl

  import_long_entry :
      FitsImport d
      → length d.library < 256
      → 256 ≤ length d.entry
      → load_dll p s (write_import d ++ rest) ≡ and_leave rest (install_import p d s)
  unfolding load_dll write_import
  import_long_entry (h1, h2, h3, h4, h5, h6, h7) short long =
      field d.export_id _ _ h1
      ∙ name_field d.library (after_library d) rest _ short
      ∙ long_name d.entry (after_entry d) rest _ long h3
      ∙ rw (lt→ltb (length d.library) 256 short, le→ltb (length d.entry) 256 long) refl

  import-reads :
      FitsImport d → load_dll p s (write_import d ++ rest) ≡ and_leave rest (install_import p d s)
  import-reads fits = elim (dec_lt (length d.library) 256) [
    | yes short ↦ elim (dec_lt (length d.entry) 256) [
      | yes short' ↦ import_fields fits short short'
      | no long ↦ import_long_entry fits short (omega arith)
    ]
    | no long ↦ import_long_library fits (omega arith)
  ]

pub import-Loads :
    (p : Platform) (d : DllImport)
    → FitsImport d
    → Loads p (4 ∷ write_import d) (install_import p d)
unfolding load_header is_call
import-Loads p d fits =
    header-Loads p 4 (write_import d) (install_import p d) (λ s rest. import-reads p d s rest fits)

arrays-reads :
    (ks : List (List ℕ)) (offset : ℕ) (rest : List ℕ)
    → strings_size offset ks < 2 ^ 64
    → read_arrays (length ks) (string_table offset ks ++ rest) ≡ ok (offsets offset ks, rest)
unfolding read_arrays string_table strings_size next_offset
arrays-reads [] offset rest h = refl
arrays-reads (k ∷ ks) offset rest h =
    let next : ℕ = offset + length k + (8 - (offset + length k) % 8) % 8 in
    let less : next < 2 ^ 64 = omega (arith, strings_size_le ks next) in
    field offset _ _ (omega arith)
    ∙ field (length k) (string_table next ks ++ rest) _ (omega arith)
    ∙ ap (λ r. r >>= λ (arrays, bytes). ok ((offset, length k) ∷ arrays, bytes))
        (arrays-reads ks next rest h)
  where
    strings_size_le : (ks' : List (List ℕ)) (n : ℕ) → n ≤ strings_size n ks'
    strings_size_le [] n = omega arith
    strings_size_le (k' ∷ ks') n =
        omega (arith, strings_size_le ks' (n + length k' + (8 - (n + length k') % 8) % 8))

length-string_table :
    (ks : List (List ℕ)) (offset : ℕ) → length (string_table offset ks) ≡ length ks * 16
unfolding string_table
length-string_table [] offset = refl
length-string_table (k ∷ ks) offset = omega (arith, length-string_table ks (next_offset offset k))

pub length-gap : (u : ℕ → ℕ) (a n : ℕ) → length (gap u a n) ≡ n
unfolding gap
length-gap u a zero = refl
length-gap u a (suc n) = ap suc (length-gap u (a + 1) n)

length-string_bytes :
    (u : ℕ → ℕ) (ks : List (List ℕ)) (offset : ℕ)
    → offset + length (string_bytes u offset ks) ≡ strings_size offset ks
unfolding string_bytes strings_size next_offset
length-string_bytes u [] offset = omega arith
length-string_bytes u (k ∷ ks) offset =
    let end : ℕ = offset + length k in
    let filler : ℕ = (8 - end % 8) % 8 in
    let others : List ℕ = string_bytes u (end + filler) ks in
    omega (
      arith,
      length-append k (gap u end filler ++ others),
      length-append (gap u end filler) others,
      length-gap u end filler,
      length-string_bytes u ks (end + filler),
    )

pub strings-reads :
    (u : ℕ → ℕ) (ks : List (List ℕ)) (s : Loaded) (rest : List ℕ)
    → FitsStrings ks
    → load_strings s (write_strings u ks ++ rest) ≡ and_leave rest (install_strings u ks s)
unfolding load_strings write_strings read8
strings-reads u ks s rest (h1, h2) =
    let table : List ℕ = string_table 0 ks in
    let raw : List ℕ = string_bytes u 0 ks in
    let n : length raw ≡ strings_size 0 ks = omega (arith, length-string_bytes u ks 0) in
    field (length ks) _ _ (omega arith)
    ∙ field (strings_size 0 ks) ((table ++ raw) ++ rest) _ h2
    ∙ rw
        (
          append_assoc table raw rest,
          drop_eq (length ks * 16) table (raw ++ rest) (length-string_table ks 0),
          read_block-append (strings_size 0 ks) raw rest n,
          rounds_eq (length ks) h1,
          arrays-reads ks 0 (raw ++ rest) h2,
          read_block-append (strings_size 0 ks) raw rest n,
        )
        refl

pub strings-Loads :
    (p : Platform) (u : ℕ → ℕ) (ks : List (List ℕ))
    → FitsStrings ks
    → Loads p (17 ∷ write_strings u ks) (install_strings u ks)
unfolding load_header is_call
strings-Loads p u ks fits =
    header-Loads p 17 (write_strings u ks) (install_strings u ks)
      (λ s rest. strings-reads u ks s rest fits)
