-- ===== src/Program/RoundTrip/Headers.antt =====
-- The loop of `LoadWorker` on one header and on a run of headers.
use hivelang.Prelude.{
  ℕ, zero, suc, ◌+◌, ◌≤◌, ◌≡◌, refl, ap, sym, ◌∙◌, List, [], ◌∷◌, ◌++◌, append_assoc, length, All,
  arith, length-append,
}
use hivelang.Program.Load.{Platform, Loaded}
use hivelang.Program.Load.Reads.{Loading, ok, refused, exited, overrun, out_of_fuel, ◌>>=◌}
use hivelang.Program.Loader.{load_header, load_headers}
use hivelang.Program.Loader.Ends.{load_headers-step, load_headers-fuel}
use hivelang.Program.Install.{install_each}
use hivelang.Program.Export.{concat_map}

pub >>=-congr {ℓ κ} :
    {A : Type ℓ} {B : Type κ} (r : Loading A) (f g : A → Loading B)
    → ((a : A) → f a ≡ g a)
    → (r >>= f) ≡ (r >>= g)
>>=-congr (ok a) f g same = same a
>>=-congr refused f g same = refl
>>=-congr exited f g same = refl
>>=-congr overrun f g same = refl
>>=-congr out_of_fuel f g same = refl

pub >>=_assoc {ℓ κ μ} :
    {A : Type ℓ} {B : Type κ} {C : Type μ} (r : Loading A) (f : A → Loading B) (g : B → Loading C)
    → ((r >>= f) >>= g) ≡ (r >>= λ a. f a >>= g)
>>=_assoc (ok a) f g = refl
>>=_assoc refused f g = refl
>>=_assoc exited f g = refl
>>=_assoc overrun f g = refl
>>=_assoc out_of_fuel f g = refl

-- A part of the loader, after which `rest` is left, that does what `effect` says.
abbrev pub and_leave : List ℕ → Loading Loaded → Loading (Loaded × List ℕ)
and_leave rest r = r >>= λ s. ok (s, rest)

-- The loop with enough rounds.
abbrev pub headers : Platform → ℕ → Loaded → List ℕ → Loading Loaded
headers p n s bytes = load_headers p (suc (length bytes)) n s bytes

-- The bytes are headers that do what `effect` says, where no less than the code follows them.
abbrev pub Loads : Platform → List ℕ → (Loaded → Loading Loaded) → Type 0
Loads p bytes effect =
    (n : ℕ) (s : Loaded) (rest : List ℕ)
    → n ≤ length rest
    → headers p n s (bytes ++ rest) ≡ (effect s >>= λ s'. headers p n s' rest)

pub header-Loads :
    (p : Platform) (type : ℕ) (payload : List ℕ) (effect : Loaded → Loading Loaded)
    → ((s : Loaded) (rest : List ℕ)
        → load_header p type s (payload ++ rest) ≡ and_leave rest (effect s))
    → Loads p (type ∷ payload) effect
header-Loads p type payload effect reads n s rest h =
    let bytes : List ℕ = payload ++ rest in
    let longer : length bytes ≡ length payload + length rest = length-append payload rest in
    load_headers-step p (suc (length bytes)) n s type bytes (omega arith)
    ∙ ap (λ r. r >>= λ (s', others). load_headers p (suc (length bytes)) n s' others) (reads s rest)
    ∙ >>=_assoc (effect s) (λ s'. ok (s', rest))
        (λ (s', others). load_headers p (suc (length bytes)) n s' others)
    ∙ >>=-congr (effect s) _ _ (λ s'.
      load_headers-fuel p (suc (length bytes)) (suc (length rest)) n s' rest (omega arith)
        (omega arith))

pub append-Loads :
    (p : Platform) (xs ys : List ℕ) (f g : Loaded → Loading Loaded)
    → Loads p xs f
    → Loads p ys g
    → Loads p (xs ++ ys) (λ s. f s >>= g)
append-Loads p xs ys f g hf hg n s rest h =
    ap (λ bytes. headers p n s bytes) (append_assoc xs ys rest)
    ∙ hf n s (ys ++ rest) (omega (arith, length-append ys rest))
    ∙ >>=-congr (f s) _ _ (λ s'. hg n s' rest h)
    ∙ sym (>>=_assoc (f s) g (λ s'. headers p n s' rest))

pub none-Loads : (p : Platform) → Loads p [] ok
none-Loads p n s rest h = refl

pub each-Loads {ℓ} :
    {A : Type ℓ} (p : Platform) (write : A → List ℕ) (effect : A → Loaded → Loading Loaded)
    (xs : List A)
    → All (λ x. Loads p (write x) (effect x)) xs
    → Loads p (concat_map write xs) (install_each effect xs)
each-Loads p write effect [] h = none-Loads p
each-Loads p write effect (x ∷ xs) (one, more) =
    append-Loads p (write x) (concat_map write xs) (effect x) (install_each effect xs) one
      (each-Loads p write effect xs more)

-- The loop of a header over its elements, where each is read back.
pub each-reads {ℓ} :
    {A : Type ℓ} (load : ℕ → Loaded → List ℕ → Loading (Loaded × List ℕ)) (write : A → List ℕ)
    (effect : A → Loaded → Loading Loaded)
    → ((s : Loaded) (bytes : List ℕ) → load zero s bytes ≡ ok (s, bytes))
    → (xs : List A)
    → All
        (λ x.
          (n : ℕ) (s : Loaded) (rest : List ℕ)
          → load (suc n) s (write x ++ rest) ≡ (effect x s >>= λ s'. load n s' rest))
        xs
    → (s : Loaded) (rest : List ℕ)
    → load (length xs) s (concat_map write xs ++ rest) ≡ and_leave rest (install_each effect xs s)
each-reads load write effect base [] h s rest = base s rest
each-reads load write effect base (x ∷ xs) (one, more) s rest =
    ap (λ bytes. load (suc (length xs)) s bytes) (append_assoc (write x) (concat_map write xs) rest)
    ∙ one (length xs) s (concat_map write xs ++ rest)
    ∙ >>=-congr (effect x s) _ _ (λ s'. each-reads load write effect base xs more s' rest)
    ∙ sym (>>=_assoc (effect x s) (install_each effect xs) (λ s'. ok (s', rest)))
