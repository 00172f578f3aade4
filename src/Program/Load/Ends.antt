-- ===== src/Program/Load/Ends.antt =====
-- Each part of the loader ends, and leaves no more of the file than it was given.
use hivelang.Prelude.{
  ℕ, zero, suc, ◌+◌, ◌*◌, ◌≤◌, ◌==◌, ltb, Bool, true, false, if◌then◌else◌, List, [], ◌∷◌, length,
  take, drop, length-drop, arith, Bool-cases, Option-cases, inl, inr,
}
use hivelang.Remote.Bytes.{le_value}
use hivelang.Program.Load.{
  Platform, WorkerInfo, Loaded, set_worker, write_address, patch_call, endpoint, patch_calls,
  load_calls, read_inputs, load_dll, load_x64_workers, read_arrays, load_strings, max_workers,
}
use hivelang.Program.Load.Reads.{
  Loading, ok, refused, exited, overrun, out_of_fuel, ◌>>=◌, read8, read64, read_block, read_name,
  rounds,
}

-- The run ends; and where it reads on, at most `n` bytes are left.
abbrev pub Ended {ℓ} : {A : Type ℓ} → Loading A → Type 0
Ended (ok a) = Unit
Ended refused = Unit
Ended exited = Unit
Ended overrun = Unit
Ended out_of_fuel = ⊥

abbrev pub Ends {ℓ} : {A : Type ℓ} → ℕ → Loading (A × List ℕ) → Type 0
Ends n (ok (a, rest)) = length rest ≤ n
Ends n refused = Unit
Ends n exited = Unit
Ends n overrun = Unit
Ends n out_of_fuel = ⊥

module _ {ℓ κ} {A : Type ℓ} {B : Type κ} (n : ℕ) where
  pub Ends-bind :
      (r : Loading (A × List ℕ)) (f : A × List ℕ → Loading (B × List ℕ))
      → Ends n r
      → ((a : A) (rest : List ℕ) → length rest ≤ n → Ends n (f (a, rest)))
      → Ends n (r >>= f)
  Ends-bind (ok (a, rest)) f h next = next a rest h
  Ends-bind refused f h next = tt
  Ends-bind exited f h next = tt
  Ends-bind overrun f h next = tt
  Ends-bind out_of_fuel f h next = h

  pub Ends-after :
      (r : Loading A) (f : A → Loading (B × List ℕ))
      → Ended r
      → ((a : A) → Ends n (f a))
      → Ends n (r >>= f)
  Ends-after (ok a) f h next = next a
  Ends-after refused f h next = tt
  Ends-after exited f h next = tt
  Ends-after overrun f h next = tt
  Ends-after out_of_fuel f h next = h

module _ {ℓ} {A : Type ℓ} (n : ℕ) where
  pub Ends-if :
      (b : Bool) (r r' : Loading (A × List ℕ)) → Ends n r → Ends n r' → Ends n (if b then r else r')
  Ends-if true r r' h h' = h
  Ends-if false r r' h h' = h'

pub read8-Ends : (n : ℕ) (bytes : List ℕ) → length bytes ≤ n → Ends n (read8 bytes)
unfolding read8
read8-Ends n [] h = tt
read8-Ends n (b ∷ bytes) h = omega arith

pub read_block-Ends :
    (n size : ℕ) (bytes : List ℕ) → length bytes ≤ n → Ends n (read_block size bytes)
unfolding read_block
read_block-Ends n size bytes h =
    Ends-if n (ltb (length bytes) size) overrun (ok (take size bytes, drop size bytes)) tt
      (omega (arith, length-drop size bytes))

pub read64-Ends : (n : ℕ) (bytes : List ℕ) → length bytes ≤ n → Ends n (read64 bytes)
unfolding read64
read64-Ends n bytes h =
    Ends-bind n (read_block 8 bytes) (λ (field, rest). ok (le_value field, rest))
      (read_block-Ends n 8 bytes h) (λ field rest less. less)

pub read_name-Ends : (n : ℕ) (bytes : List ℕ) → length bytes ≤ n → Ends n (read_name bytes)
unfolding read_name
read_name-Ends n bytes h = Ends-bind n (read64 bytes) _ (read64-Ends n bytes h) (λ sz rest less.
    Ends-if n (ltb sz 256) (read_block sz rest) overrun (read_block-Ends n sz rest less) tt)

pub set_worker-Ended : (id : ℕ) (info : WorkerInfo) (s : Loaded) → Ended (set_worker id info s)
unfolding set_worker
set_worker-Ended id info s = elim (Bool-cases (ltb id max_workers)) [
  | inl e ↦ rw e tt
  | inr e ↦ rw e tt
]

patch_call-Ended :
    (p : Platform) (t : ℕ) (code : List ℕ) (position : ℕ) → Ended (patch_call p t code position)
unfolding patch_call write_address
patch_call-Ended p t code position = elim (Option-cases (endpoint t)) [
  | inl e ↦ rw (Ended, patch_call, e) tt
  | inr (a, e) ↦
      rw (patch_call, e)
        (elim (Bool-cases (ltb (length code) (position + 8))) [
          | inl e' ↦ rw (write_address, e') tt
          | inr e' ↦ rw (write_address, e') tt
        ])
]

-- A field of 8 bytes and what is read after it.
pub Ends-field {κ} :
    {B : Type κ} (n : ℕ) (bytes : List ℕ) (f : ℕ × List ℕ → Loading (B × List ℕ))
    → length bytes ≤ n
    → ((field : ℕ) (rest : List ℕ) → length rest ≤ n → Ends n (f (field, rest)))
    → Ends n (read64 bytes >>= f)
Ends-field n bytes f h next = Ends-bind n (read64 bytes) f (read64-Ends n bytes h) next

patch_calls-Ends :
    (n : ℕ) (p : Platform) (t count : ℕ) (s : Loaded) (bytes : List ℕ)
    → length bytes ≤ n
    → Ends n (patch_calls p t count s bytes)
unfolding patch_calls
patch_calls-Ends n p t zero s bytes h = h
patch_calls-Ends n p t (suc count) s bytes h = Ends-field n bytes _ h λ position rest less.
    Ends-after n (patch_call p t s.code position) _ (patch_call-Ended p t s.code position)
      λ code. patch_calls-Ends n p t count (record s { code = code }) rest less

pub load_calls-Ends :
    (n : ℕ) (p : Platform) (t : ℕ) (s : Loaded) (bytes : List ℕ)
    → length bytes ≤ n
    → Ends n (load_calls p t s bytes)
unfolding load_calls
load_calls-Ends n p t s bytes h =
    Ends-field n bytes _ h λ count rest less. patch_calls-Ends n p t (rounds count) s rest less

read_inputs-Ends :
    (n count : ℕ) (bytes : List ℕ) → length bytes ≤ n → Ends n (read_inputs count bytes)
unfolding read_inputs
read_inputs-Ends n zero bytes h = h
read_inputs-Ends n (suc count) bytes h =
    Ends-bind n (read8 bytes) _ (read8-Ends n bytes h) λ type r1 h1.
      Ends-field n r1 _ h1 λ provider r2 h2. Ends-field n r2 _ h2 λ size r3 h3.
        Ends-field n r3 _ h3 λ param r4 h4.
          Ends-bind n (read_inputs count r4) _ (read_inputs-Ends n count r4 h4) λ inputs r5 h5. h5

pub load_dll-Ends :
    (n : ℕ) (p : Platform) (s : Loaded) (bytes : List ℕ)
    → length bytes ≤ n
    → Ends n (load_dll p s bytes)
unfolding load_dll
load_dll-Ends n p s bytes h = Ends-field n bytes _ h λ id r1 h1.
    Ends-bind n (read_name r1) _ (read_name-Ends n r1 h1) λ lib_name r2 h2.
      Ends-bind n (read_name r2) _ (read_name-Ends n r2 h2) λ entry r3 h3.
        Ends-field n r3 _ h3 λ affinity r4 h4. Ends-field n r4 _ h4 λ output_size r5 h5.
          Ends-field n r5 _ h5 λ inputs_len r6 h6.
            Ends-bind n (read_inputs (rounds inputs_len) r6) _
              (read_inputs-Ends n (rounds inputs_len) r6 h6)
              λ inputs r7 h7.
                Ends-after n _ _ (set_worker-Ended id _ s)
                  λ s'. Ends-if n (p.symbol lib_name entry == 0) exited (ok (s', r7)) tt h7

pub load_x64_workers-Ends :
    (n count : ℕ) (s : Loaded) (bytes : List ℕ)
    → length bytes ≤ n
    → Ends n (load_x64_workers count s bytes)
unfolding load_x64_workers
load_x64_workers-Ends n zero s bytes h = h
load_x64_workers-Ends n (suc count) s bytes h = Ends-field n bytes _ h λ id r1 h1.
    Ends-field n r1 _ h1 λ offset r2 h2. Ends-field n r2 _ h2 λ size r3 h3.
      Ends-field n r3 _ h3 λ table_size r4 h4. Ends-field n r4 _ h4 λ affinity r5 h5.
        Ends-after n _ _ (set_worker-Ended id _ s) λ s'. load_x64_workers-Ends n count s' r5 h5

read_arrays-Ends :
    (n count : ℕ) (bytes : List ℕ) → length bytes ≤ n → Ends n (read_arrays count bytes)
unfolding read_arrays
read_arrays-Ends n zero bytes h = h
read_arrays-Ends n (suc count) bytes h = Ends-field n bytes _ h λ offset r1 h1.
    Ends-field n r1 _ h1 λ size r2 h2.
      Ends-bind n (read_arrays count r2) _ (read_arrays-Ends n count r2 h2) λ arrays r3 h3. h3

pub load_strings-Ends :
    (n : ℕ) (s : Loaded) (bytes : List ℕ) → length bytes ≤ n → Ends n (load_strings s bytes)
unfolding load_strings
load_strings-Ends n s bytes h = Ends-field n bytes _ h λ size r1 h1.
    Ends-bind n (read8 r1) _ (read8-Ends n r1 h1) λ encoding r2 h2.
      Ends-if n (encoding == 0) _ refused
        (Ends-field n r2 _ h2 λ rawsize r3 h3.
          Ends-bind n (read_block rawsize (drop (size * 16) r3)) _
            (read_block-Ends n rawsize (drop (size * 16) r3)
              (omega (arith, length-drop (size * 16) r3)))
            λ raw r4 h4.
              Ends-bind n (read_arrays (rounds size) r3) _ (read_arrays-Ends n (rounds size) r3 h3)
                λ arrays r5 h5.
                  Ends-bind n (read_block rawsize r5) _ (read_block-Ends n rawsize r5 h5)
                    λ copied r6 h6. h6)
        tt
