-- ===== src/Program/Loader/Ends.antt =====
-- `LoadWorker` ends: each round of its loop takes a byte at least, and more rounds change nothing.
use hivelang.Prelude.{
  ℕ, zero, suc, ◌≤◌, ◌<◌, ◌==◌, ltb, ◌/◌, ◌≡◌, ◌≢◌, refl, Bool, true, false, if◌then◌else◌, List,
  [], ◌∷◌, length, drop, arith, sym, subst, ◌∙◌, dec_lt, Bool-cases, Option-cases, inl, inr,
}
use hivelang.Word.{sub64}
use hivelang.Program.Load.{
  mapped, null_pointer, map_failed, Platform, Loaded, is_call, load_x64_workers,
}
use hivelang.Program.Load.Reads.{
  Loading, ok, refused, exited, overrun, out_of_fuel, ◌>>=◌, read8, read64, rounds,
}
use hivelang.Program.Load.Ends.{
  Ended, Ends, Ends-bind, Ends-after, Ends-if, Ends-field, read8-Ends, read64-Ends,
  set_worker-Ended, load_calls-Ends, load_dll-Ends, load_x64_workers-Ends, load_strings-Ends,
}
use hivelang.Program.Loader.{
  read_gpu_inputs, build_gpu_worker, load_gpu_workers, load_entry, load_counted, load_header,
  load_headers, match_prefix, copy_code, load_worker,
}

read_gpu_inputs-Ends :
    (n count : ℕ) (bytes : List ℕ) → length bytes ≤ n → Ends n (read_gpu_inputs count bytes)
unfolding read_gpu_inputs
read_gpu_inputs-Ends n zero bytes h = h
read_gpu_inputs-Ends n (suc count) bytes h = Ends-field n bytes _ h λ size r1 h1.
    Ends-bind n (read8 r1) _ (read8-Ends n r1 h1) λ type r2 h2.
      Ends-bind n (read_gpu_inputs count r2) _ (read_gpu_inputs-Ends n count r2 h2)
        λ inputs r3 h3. h3

build_gpu_worker-Ended :
    (p : Platform) (code : List ℕ) (start end : ℕ) → Ended (build_gpu_worker p code start end)
unfolding build_gpu_worker
build_gpu_worker-Ended p code start end = elim (Bool-cases (ltb end (length code))) [
  | inr e ↦ rw e tt
  | inl e ↦ rw e (elim (Option-cases (p.build_kernel code start end)) [
    | inl e' ↦ rw e' tt
    | inr (kernel, e') ↦ rw e' tt
  ])
]

load_gpu_workers-Ends :
    (n : ℕ) (p : Platform) (count : ℕ) (s : Loaded) (bytes : List ℕ)
    → length bytes ≤ n
    → Ends n (load_gpu_workers p count s bytes)
unfolding load_gpu_workers
load_gpu_workers-Ends n p zero s bytes h = h
load_gpu_workers-Ends n p (suc count) s bytes h = Ends-field n bytes _ h λ id r1 h1.
    Ends-field n r1 _ h1 λ start r2 h2. Ends-field n r2 _ h2 λ end r3 h3.
      Ends-field n r3 _ h3 λ table_size r4 h4. Ends-field n r4 _ h4 λ input_map_length r5 h5.
        Ends-bind n (read_gpu_inputs (rounds input_map_length) r5) _
          (read_gpu_inputs-Ends n (rounds input_map_length) r5 h5)
          λ input_map r6 h6. Ends-after n _ _ (build_gpu_worker-Ended p s.code start end) λ kernel.
            Ends-after n _ _ (set_worker-Ended id _ s)
              λ s'. load_gpu_workers-Ends n p count s' r6 h6

load_counted-Ends :
    (n : ℕ) (load : ℕ → Loaded → List ℕ → Loading (Loaded × List ℕ)) (s : Loaded) (bytes : List ℕ)
    → ((count : ℕ) (rest : List ℕ) → length rest ≤ n → Ends n (load count s rest))
    → length bytes ≤ n
    → Ends n (load_counted load s bytes)
unfolding load_counted
load_counted-Ends n load s bytes each h =
    Ends-field n bytes _ h λ count rest less. each (rounds count) rest less

load_entry-Ends :
    (n : ℕ) (s : Loaded) (bytes : List ℕ) → length bytes ≤ n → Ends n (load_entry s bytes)
unfolding load_entry
load_entry-Ends n s bytes h = Ends-field n bytes _ h λ entry_id rest less. less

pub load_header-Ends :
    (n : ℕ) (p : Platform) (type : ℕ) (s : Loaded) (bytes : List ℕ)
    → length bytes ≤ n
    → Ends n (load_header p type s bytes)
unfolding load_header
load_header-Ends n p type s bytes h =
    Ends-if n (is_call type) _ _ (load_calls-Ends n p type s bytes h) (
      Ends-if n (type == 4) _ _ (load_dll-Ends n p s bytes h) (
        Ends-if n (type == 16) _ _
          (load_counted-Ends n load_x64_workers s bytes
            (λ count rest less. load_x64_workers-Ends n count s rest less) h)
          (Ends-if n (type == 17) _ _ (load_strings-Ends n s bytes h) (
            Ends-if n (type == 18) _ _
              (load_counted-Ends n (load_gpu_workers p) s bytes
                (λ count rest less. load_gpu_workers-Ends n p count s rest less) h)
              (Ends-if n (type == 80) _ (ok (s, bytes)) (load_entry-Ends n s bytes h) h)))))

-- Two continuations of a run that reads on agree where they agree on what it leaves.
Ends-cong {ℓ κ} :
    {A : Type ℓ} {B : Type κ} (n : ℕ) (r : Loading (A × List ℕ)) (f g : A × List ℕ → Loading B)
    → Ends n r
    → ((a : A) (rest : List ℕ) → length rest ≤ n → f (a, rest) ≡ g (a, rest))
    → (r >>= f) ≡ (r >>= g)
Ends-cong n (ok (a, rest)) f g h same = same a rest h
Ends-cong n refused f g h same = refl
Ends-cong n exited f g h same = refl
Ends-cong n overrun f g h same = refl
Ends-cong n out_of_fuel f g h same = refl

Ends-Ended {ℓ κ} :
    {A : Type ℓ} {B : Type κ} (n : ℕ) (r : Loading (A × List ℕ)) (f : A × List ℕ → Loading B)
    → Ends n r
    → ((a : A) (rest : List ℕ) → length rest ≤ n → Ended (f (a, rest)))
    → Ended (r >>= f)
Ends-Ended n (ok (a, rest)) f h next = next a rest h
Ends-Ended n refused f h next = tt
Ends-Ended n exited f h next = tt
Ends-Ended n overrun f h next = tt
Ends-Ended n out_of_fuel f h next = h

pub load_headers-step :
    (p : Platform) (fuel n : ℕ) (s : Loaded) (b : ℕ) (bytes : List ℕ)
    → n ≤ length bytes
    → load_headers p (suc fuel) n s (b ∷ bytes)
      ≡ (load_header p b s bytes >>= (λ (s', rest). load_headers p fuel n s' rest))
unfolding load_headers read8
load_headers-step p fuel n s b bytes h =
    let e : ltb n (length (b ∷ bytes)) ≡ true = ground arith in rw (load_headers, e) refl

pub load_headers-stop :
    (p : Platform) (fuel n : ℕ) (s : Loaded) (bytes : List ℕ)
    → length bytes ≤ n
    → load_headers p (suc fuel) n s bytes ≡ ok s
unfolding load_headers
load_headers-stop p fuel n s bytes h =
    let e : ltb n (length bytes) ≡ false = ground arith in rw (load_headers, e) refl

-- With more rounds than bytes, the number of rounds does not matter.
pub load_headers-fuel :
    (p : Platform) (f g n : ℕ) (s : Loaded) (bytes : List ℕ)
    → length bytes < f
    → length bytes < g
    → load_headers p f n s bytes ≡ load_headers p g n s bytes
load_headers-fuel p zero g n s bytes hf hg = absurd (omega arith)
load_headers-fuel p (suc f) zero n s bytes hf hg = absurd (omega arith)
load_headers-fuel p (suc f) (suc g) n s [] hf hg =
    load_headers-stop p f n s [] (omega arith) ∙ sym (load_headers-stop p g n s [] (omega arith))
load_headers-fuel p (suc f) (suc g) n s (b ∷ bytes) hf hg = elim (dec_lt n (length (b ∷ bytes))) [
  | yes more ↦
      load_headers-step p f n s b bytes (omega arith)
      ∙ Ends-cong (length bytes) (load_header p b s bytes) _ _
          (load_header-Ends (length bytes) p b s bytes (omega arith))
          (λ s' rest less. load_headers-fuel p f g n s' rest (omega arith) (omega arith))
      ∙ sym (load_headers-step p g n s b bytes (omega arith))
  | no stop ↦
      load_headers-stop p f n s (b ∷ bytes) (omega arith)
      ∙ sym (load_headers-stop p g n s (b ∷ bytes) (omega arith))
]

load_headers-Ended :
    (p : Platform) (f n : ℕ) (s : Loaded) (bytes : List ℕ)
    → length bytes < f
    → Ended (load_headers p f n s bytes)
load_headers-Ended p zero n s bytes h = absurd (omega arith)
load_headers-Ended p (suc f) n s [] h =
    subst Ended (sym (load_headers-stop p f n s [] (omega arith))) tt
load_headers-Ended p (suc f) n s (b ∷ bytes) h = elim (dec_lt n (length (b ∷ bytes))) [
  | yes more ↦ subst Ended (sym (load_headers-step p f n s b bytes (omega arith))) (
      Ends-Ended (length bytes) (load_header p b s bytes) _
        (load_header-Ends (length bytes) p b s bytes (omega arith))
        (λ s' rest less. load_headers-Ended p f n s' rest (omega arith)))
  | no stop ↦ subst Ended (sym (load_headers-stop p f n s (b ∷ bytes) (omega arith))) tt
]

match_prefix-Ended : (cs file : List ℕ) → Ended (match_prefix cs file)
unfolding match_prefix
match_prefix-Ended [] file = tt
match_prefix-Ended (c ∷ cs) [] = tt
match_prefix-Ended (c ∷ cs) (b ∷ file) = elim (Bool-cases (b == c)) [
  | inl e ↦ rw (match_prefix, e) (match_prefix-Ended cs file)
  | inr e ↦ rw (match_prefix, e) tt
]

copy_code-Ended :
    (p : Platform) (code_position : ℕ) (file : List ℕ) → Ended (copy_code p code_position file)
unfolding copy_code
copy_code-Ended p code_position file =
    elim (p.map_memory (sub64 (length file) code_position))
      as (λ m. Ended {A = List ℕ} (elim m [
        | mapped ↦ if ltb (length file) code_position then overrun else ok (drop code_position file)
        | null_pointer ↦ refused
        | map_failed ↦ overrun
      ])) [
        | mapped ↦ elim (Bool-cases (ltb (length file) code_position)) [
          | inl e ↦ rw (e) tt
          | inr e ↦ rw (e) tt
        ]
        | null_pointer ↦ tt
        | map_failed ↦ tt
      ]

Ended-bind {ℓ κ} :
    {A : Type ℓ} {B : Type κ} (r : Loading A) (f : A → Loading B)
    → Ended r
    → ((a : A) → Ended (f a))
    → Ended (r >>= f)
Ended-bind (ok a) f h next = next a
Ended-bind refused f h next = tt
Ended-bind exited f h next = tt
Ended-bind overrun f h next = tt
Ended-bind out_of_fuel f h next = h

Ended-if {ℓ} :
    {A : Type ℓ} (b : Bool) (r r' : Loading A) → Ended r → Ended r' → Ended (if b then r else r')
Ended-if true r r' h h' = h
Ended-if false r r' h h' = h'

-- `LoadWorker` ends on every file, whatever the system answers.
pub load_worker_ends :
    (p : Platform) (s : Loaded) (file : List ℕ) → load_worker p s file ≢ out_of_fuel
unfolding load_worker
load_worker_ends p s file e = subst Ended e (
    Ended-bind (match_prefix (b'H' ∷ b'I' ∷ b'V' ∷ b'E' ∷ []) file) _ (match_prefix-Ended _ file)
      λ rest.
        Ends-Ended (length rest) (read64 rest) _ (read64-Ends (length rest) rest (omega arith))
          λ version r1 h1.
            Ended-if (version / 1000 == 0) _ refused
              (Ends-Ended (length r1) (read64 r1) _ (read64-Ends (length r1) r1 (omega arith))
                λ code_position r2 h2.
                  Ended-bind (copy_code p code_position file) _
                    (copy_code-Ended p code_position file)
                    λ code.
                      load_headers-Ended p (suc (length r2)) (length code)
                        (record s { code = code }) r2 (omega arith))
              tt)
