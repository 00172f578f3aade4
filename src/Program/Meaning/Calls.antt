-- ===== src/Program/Meaning/Calls.antt =====
-- The headers of calls: `GetHeaderId` of codegen/codegen.hpp against the loader's inner `switch`.
use hivelang.Prelude.{
  ℕ, zero, suc, ◌+◌, ◌≡◌, ◌≢◌, refl, sym, ◌∙◌, true, Option, none, some, List, [], ◌∷◌, get_elem?,
  length, All, ◌<◌, ◌^◌, some-inj, subst,
}
use hivelang.Program.Load.{
  Endpoint, x64_fast_push_object, x64_fast_query_object, x64_fast_new_object, gpu_fast_new_object,
  loc_fast_new_object, x64_fast_call_object, gpu_fast_call_object, dll_fast_call_object,
  x64_fast_push_pipe, x64_fast_query_pipe, any_fast_cast_provider, x64_fast_sleep, Platform, mapped,
  Loaded, is_call, endpoint, patch_call,
}
use hivelang.Program.Load.Reads.{Loading, ok, refused, exited, overrun, out_of_fuel, ◌>>=◌}
use hivelang.Program.Loader.{load_worker}
use hivelang.Program.HeaderId.{
  ProviderName, x64, gpu, dll, loc, other_name, HeaderIdAction, action_sleep, action_push_object,
  action_query_object, action_push_pipe, action_query_pipe, action_new_object, action_cast_provider,
  action_call_worker, header_dll_import, header_x64_workers, header_gpu_workers,
  header_strings_table, header_entry_id, get_header_id,
}
use hivelang.Program.Export.{X64Worker, Assembler, x64_assembler, export_code}
use hivelang.Program.Install.{
  install_each, install_call, install_calls, install_assembler, install_program, code_of,
  program_code,
}
use hivelang.Program.RoundTrip.Whole.{FitsAssembler, load_worker-export_code}

-- The function of the runtime that carries out an action on an object of a provider, by its name.
abbrev pub runtime_function : HeaderIdAction → ProviderName → Option Endpoint
runtime_function action_push_object x64 = some x64_fast_push_object
runtime_function action_query_object x64 = some x64_fast_query_object
runtime_function action_new_object x64 = some x64_fast_new_object
runtime_function action_new_object gpu = some gpu_fast_new_object
runtime_function action_new_object loc = some loc_fast_new_object
runtime_function action_call_worker x64 = some x64_fast_call_object
runtime_function action_call_worker gpu = some gpu_fast_call_object
runtime_function action_call_worker dll = some dll_fast_call_object
runtime_function action_push_pipe x64 = some x64_fast_push_pipe
runtime_function action_query_pipe x64 = some x64_fast_query_pipe
runtime_function action_cast_provider _ = some any_fast_cast_provider
runtime_function action_sleep x64 = some x64_fast_sleep
runtime_function _ _ = none

-- The byte that the compiler writes for an action and a provider has an endpoint in the loader just
-- when the runtime has a function for them, and it is that function; and a byte with an endpoint is a
-- header of calls.
pub endpoint-get_header_id :
    (action : HeaderIdAction) (provider : ProviderName)
    → (endpoint (get_header_id action provider) ≡ runtime_function action provider)
      × ((e : Endpoint)
          → runtime_function action provider ≡ some e
          → is_call (get_header_id action provider) ≡ true)
unfolding endpoint get_header_id is_call
endpoint-get_header_id action_sleep x64 = (refl, λ e h. refl)
endpoint-get_header_id action_sleep gpu = (refl, λ e h. absurd (cc))
endpoint-get_header_id action_sleep dll = (refl, λ e h. absurd (cc))
endpoint-get_header_id action_sleep loc = (refl, λ e h. absurd (cc))
endpoint-get_header_id action_sleep other_name = (refl, λ e h. absurd (cc))
endpoint-get_header_id action_push_object x64 = (refl, λ e h. refl)
endpoint-get_header_id action_push_object gpu = (refl, λ e h. absurd (cc))
endpoint-get_header_id action_push_object dll = (refl, λ e h. absurd (cc))
endpoint-get_header_id action_push_object loc = (refl, λ e h. absurd (cc))
endpoint-get_header_id action_push_object other_name = (refl, λ e h. absurd (cc))
endpoint-get_header_id action_query_object x64 = (refl, λ e h. refl)
endpoint-get_header_id action_query_object gpu = (refl, λ e h. absurd (cc))
endpoint-get_header_id action_query_object dll = (refl, λ e h. absurd (cc))
endpoint-get_header_id action_query_object loc = (refl, λ e h. absurd (cc))
endpoint-get_header_id action_query_object other_name = (refl, λ e h. absurd (cc))
endpoint-get_header_id action_push_pipe x64 = (refl, λ e h. refl)
endpoint-get_header_id action_push_pipe gpu = (refl, λ e h. absurd (cc))
endpoint-get_header_id action_push_pipe dll = (refl, λ e h. absurd (cc))
endpoint-get_header_id action_push_pipe loc = (refl, λ e h. absurd (cc))
endpoint-get_header_id action_push_pipe other_name = (refl, λ e h. absurd (cc))
endpoint-get_header_id action_query_pipe x64 = (refl, λ e h. refl)
endpoint-get_header_id action_query_pipe gpu = (refl, λ e h. absurd (cc))
endpoint-get_header_id action_query_pipe dll = (refl, λ e h. absurd (cc))
endpoint-get_header_id action_query_pipe loc = (refl, λ e h. absurd (cc))
endpoint-get_header_id action_query_pipe other_name = (refl, λ e h. absurd (cc))
endpoint-get_header_id action_new_object x64 = (refl, λ e h. refl)
endpoint-get_header_id action_new_object gpu = (refl, λ e h. refl)
endpoint-get_header_id action_new_object dll = (refl, λ e h. absurd (cc))
endpoint-get_header_id action_new_object loc = (refl, λ e h. refl)
endpoint-get_header_id action_new_object other_name = (refl, λ e h. absurd (cc))
endpoint-get_header_id action_cast_provider x64 = (refl, λ e h. refl)
endpoint-get_header_id action_cast_provider gpu = (refl, λ e h. refl)
endpoint-get_header_id action_cast_provider dll = (refl, λ e h. refl)
endpoint-get_header_id action_cast_provider loc = (refl, λ e h. refl)
endpoint-get_header_id action_cast_provider other_name = (refl, λ e h. refl)
endpoint-get_header_id action_call_worker x64 = (refl, λ e h. refl)
endpoint-get_header_id action_call_worker gpu = (refl, λ e h. refl)
endpoint-get_header_id action_call_worker dll = (refl, λ e h. refl)
endpoint-get_header_id action_call_worker loc = (refl, λ e h. absurd (cc))
endpoint-get_header_id action_call_worker other_name = (refl, λ e h. absurd (cc))
endpoint-get_header_id header_dll_import x64 = (refl, λ e h. absurd (cc))
endpoint-get_header_id header_dll_import gpu = (refl, λ e h. absurd (cc))
endpoint-get_header_id header_dll_import dll = (refl, λ e h. absurd (cc))
endpoint-get_header_id header_dll_import loc = (refl, λ e h. absurd (cc))
endpoint-get_header_id header_dll_import other_name = (refl, λ e h. absurd (cc))
endpoint-get_header_id header_x64_workers x64 = (refl, λ e h. absurd (cc))
endpoint-get_header_id header_x64_workers gpu = (refl, λ e h. absurd (cc))
endpoint-get_header_id header_x64_workers dll = (refl, λ e h. absurd (cc))
endpoint-get_header_id header_x64_workers loc = (refl, λ e h. absurd (cc))
endpoint-get_header_id header_x64_workers other_name = (refl, λ e h. absurd (cc))
endpoint-get_header_id header_gpu_workers x64 = (refl, λ e h. absurd (cc))
endpoint-get_header_id header_gpu_workers gpu = (refl, λ e h. absurd (cc))
endpoint-get_header_id header_gpu_workers dll = (refl, λ e h. absurd (cc))
endpoint-get_header_id header_gpu_workers loc = (refl, λ e h. absurd (cc))
endpoint-get_header_id header_gpu_workers other_name = (refl, λ e h. absurd (cc))
endpoint-get_header_id header_strings_table x64 = (refl, λ e h. absurd (cc))
endpoint-get_header_id header_strings_table gpu = (refl, λ e h. absurd (cc))
endpoint-get_header_id header_strings_table dll = (refl, λ e h. absurd (cc))
endpoint-get_header_id header_strings_table loc = (refl, λ e h. absurd (cc))
endpoint-get_header_id header_strings_table other_name = (refl, λ e h. absurd (cc))
endpoint-get_header_id header_entry_id x64 = (refl, λ e h. absurd (cc))
endpoint-get_header_id header_entry_id gpu = (refl, λ e h. absurd (cc))
endpoint-get_header_id header_entry_id dll = (refl, λ e h. absurd (cc))
endpoint-get_header_id header_entry_id loc = (refl, λ e h. absurd (cc))
endpoint-get_header_id header_entry_id other_name = (refl, λ e h. absurd (cc))

-- A part of loading that never gets through.
abbrev NeverOk : (Loaded → Loading Loaded) → Type 0
NeverOk f = (s s' : Loaded) → f s ≢ ok s'

never-first :
    (r : Loading Loaded) (g : Loaded → Loading Loaded)
    → ((s' : Loaded) → r ≢ ok s')
    → (s' : Loaded) → (r >>= g) ≢ ok s'
never-first (ok s) g h s' e = h s refl
never-first refused g h s' e = h s' e
never-first exited g h s' e = h s' e
never-first overrun g h s' e = h s' e
never-first out_of_fuel g h s' e = h s' e

never-then :
    (r : Loading Loaded) (g : Loaded → Loading Loaded)
    → NeverOk g
    → (s' : Loaded) → (r >>= g) ≢ ok s'
never-then (ok s) g h s' e = h s s' e
never-then refused g h s' e = absurd (cc)
never-then exited g h s' e = absurd (cc)
never-then overrun g h s' e = absurd (cc)
never-then out_of_fuel g h s' e = absurd (cc)

install_each_never {ℓ} :
    {A : Type ℓ} (f : A → Loaded → Loading Loaded) (xs : List A) (j : ℕ) (x : A)
    → get_elem? xs j ≡ some x
    → NeverOk (f x)
    → NeverOk (install_each f xs)
install_each_never f [] j x e h s = absurd (cc)
install_each_never f (y ∷ ys) zero x e h s =
    let same : y ≡ x = some-inj e in
    never-first (f y s) (install_each f ys)
      (subst (λ z. (s' : Loaded) → f z s ≢ ok s') (sym same) (h s))
install_each_never f (y ∷ ys) (suc j) x e h s =
    never-then (f y s) (install_each f ys) (install_each_never f ys j x e h)

install_program_never :
    (p : Platform) (u : ℕ → ℕ) (assemblers : List Assembler) (i : ℕ) (a : Assembler)
    → get_elem? assemblers i ≡ some a
    → ((offset : ℕ) → NeverOk (install_assembler p u offset a))
    → (offset : ℕ) → NeverOk (install_program p u offset assemblers)
install_program_never p u [] i a e h offset s = absurd (cc)
install_program_never p u (b ∷ others) zero a e h offset s =
    let same : b ≡ a = some-inj e in
    never-first (install_assembler p u offset b s) _ (
      subst (λ z. (s' : Loaded) → install_assembler p u offset z s ≢ ok s') (sym same) (h offset s))
install_program_never p u (b ∷ others) (suc i) a e h offset s =
    never-then (install_assembler p u offset b s) _
      (install_program_never p u others i a e h (offset + length (code_of b)))

call_never :
    (p : Platform) (offset t position : ℕ)
    → endpoint t ≡ none
    → NeverOk (install_call p offset t position)
unfolding patch_call
call_never p offset t position e s s' loaded =
    let wrong : ◌≡◌ {A = Loading Loaded} exited (ok s') = rw (patch_call, e) at loaded in
    absurd (cc)

-- `LoadWorker` does not load the file that `ExportCode` writes of a program in which the x64 code has
-- a call under a header that has no endpoint, such as the writing or reading of an object of a
-- graphics card: the runtime exits, or has failed before.
pub load_worker_unsupported :
    (p : Platform) (unwritten : ℕ → ℕ) (entry_id : ℕ) (assemblers : List Assembler) (s s' : Loaded)
    (file : List ℕ) (i j t position : ℕ) (positions : List ℕ) (calls : List (ℕ × List ℕ))
    (workers : List X64Worker) (strings : List (List ℕ)) (code : List ℕ)
    → export_code unwritten (some entry_id) assemblers ≡ some file
    → entry_id < 2 ^ 64
    → All FitsAssembler assemblers
    → length file < 2 ^ 64
    → p.map_memory (length (program_code assemblers)) ≡ mapped
    → get_elem? assemblers i ≡ some (x64_assembler calls workers strings code)
    → get_elem? calls j ≡ some (t, position ∷ positions)
    → endpoint t ≡ none
    → load_worker p s file ≢ ok s'
load_worker_unsupported p u entry_id assemblers s s' file i j t position positions calls workers
      strings code e h1 h2 h3 h4 at_i at_j no_endpoint loaded =
    let each : (offset : ℕ) → NeverOk (install_calls p offset (t, position ∷ positions)) =
      λ offset r.
        never-first (install_call p offset t position r)
          (install_each (install_call p offset t) positions)
          (call_never p offset t position no_endpoint r) in
    let never =
      install_program_never p u assemblers i (x64_assembler calls workers strings code) at_i
        (λ offset r. never-first (install_each (install_calls p offset) calls r) _ (
          install_each_never (install_calls p offset) calls j (t, position ∷ positions) at_j
            (each offset) r))
        0 in
    never _ s' (sym (load_worker-export_code p u entry_id assemblers s file e h1 h2 h3 h4) ∙ loaded)
