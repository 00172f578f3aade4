-- ===== src/Program/RoundTrip/Workers.antt =====
-- The headers of calls, of x64 workers and of workers for graphics cards.
use hivelang.Prelude.{
  ℕ, suc, ◌^◌, ◌<◌, ◌≡◌, refl, ap, sym, ◌∙◌, true, List, [], ◌∷◌, ◌++◌, length, All, All-imp, some,
  arith,
}
use hivelang.Word.{add64}
use hivelang.Remote.Send.{int64_bytes}
use hivelang.Program.Load.{
  Platform, GpuInputTable, Loaded, is_call, patch_call, patch_calls, load_calls, load_x64_workers,
}
use hivelang.Program.Load.Reads.{Loading, ok, ◌>>=◌, read8, rounds}
use hivelang.Program.Loader.{
  read_gpu_inputs, build_gpu_worker, load_gpu_workers, load_entry, load_counted, load_header,
}
use hivelang.Program.Export.{
  X64Worker, GpuWorker, concat_map, counted, write_calls, write_x64_worker, write_gpu_input,
  write_gpu_worker,
}
use hivelang.Program.Install.{
  install_each, install_call, install_calls, install_x64_worker, install_gpu_worker,
}
use hivelang.Program.RoundTrip.Fields.{field, rounds_eq}
use hivelang.Program.RoundTrip.Headers.{>>=_assoc, and_leave, Loads, header-Loads, each-reads}

-- The numbers of a program have 64 bits, and its lists fewer than 2 ^ 63 elements.
abbrev pub FitsCalls : ℕ × List ℕ → Type 0
FitsCalls (t, positions) = (is_call t ≡ true) × length positions < 2 ^ 63

abbrev pub FitsX64Worker : X64Worker → Type 0
FitsX64Worker w =
    w.export_id < 2 ^ 64 × w.size < 2 ^ 64 × w.table_size < 2 ^ 64 × w.affinity < 2 ^ 64

abbrev pub FitsGpuWorker : GpuWorker → Type 0
FitsGpuWorker w =
    w.export_id < 2 ^ 64
    × w.table_size < 2 ^ 64
    × length w.config < 2 ^ 63
    × All (λ i. i.size < 2 ^ 64) w.config

counted-reads {ℓ} :
    {A : Type ℓ} (load : ℕ → Loaded → List ℕ → Loading (Loaded × List ℕ)) (write : A → List ℕ)
    (xs : List A) (s : Loaded) (rest : List ℕ)
    → length xs < 2 ^ 63
    → load_counted load s (counted write xs ++ rest)
      ≡ load (length xs) s (concat_map write xs ++ rest)
unfolding load_counted
counted-reads load write xs s rest h =
    field (length xs) (concat_map write xs ++ rest) (λ (count, bytes). load (rounds count) s bytes)
      (omega arith)
    ∙ ap (λ n. load n s (concat_map write xs ++ rest)) (rounds_eq (length xs) h)

module _ (p : Platform) where
  call-reads :
      (offset t position n : ℕ) (s : Loaded) (rest : List ℕ)
      → patch_calls p t (suc n) s (int64_bytes (add64 position offset) ++ rest)
        ≡ (install_call p offset t position s >>= λ s'. patch_calls p t n s' rest)
  unfolding patch_calls
  call-reads offset t position n s rest =
      field (add64 position offset) rest _ (omega arith)
      ∙ sym (>>=_assoc (patch_call p t s.code (add64 position offset)) _ _)

  pub calls-Loads :
      (offset : ℕ) (c : ℕ × List ℕ)
      → FitsCalls c
      → Loads p (write_calls offset c) (install_calls p offset c)
  unfolding write_calls load_header load_calls load_counted
  calls-Loads offset (t, positions) (call, less) =
      header-Loads p t (counted (λ position. int64_bytes (add64 position offset)) positions)
        (install_calls p offset (t, positions))
        (λ s rest.
          rw (load_header, call)
            (counted-reads (patch_calls p t) (λ position. int64_bytes (add64 position offset))
                positions s rest less
              ∙ each-reads (patch_calls p t) (λ position. int64_bytes (add64 position offset))
                  (install_call p offset t) (λ s' bytes. unfold patch_calls in refl) positions
                  (every positions) s rest))
    where
      every :
          (xs : List ℕ)
          → All
              (λ x.
                (n : ℕ) (s' : Loaded) (others : List ℕ)
                → patch_calls p t (suc n) s' (int64_bytes (add64 x offset) ++ others)
                  ≡ (install_call p offset t x s' >>= λ s''. patch_calls p t n s'' others))
              xs
      every [] = tt
      every (x ∷ xs) = (λ n s' others. call-reads offset t x n s' others, every xs)

x64_worker-reads :
    (offset : ℕ) (w : X64Worker) (n : ℕ) (s : Loaded) (rest : List ℕ)
    → FitsX64Worker w
    → load_x64_workers (suc n) s (write_x64_worker offset w ++ rest)
      ≡ (install_x64_worker offset w s >>= λ s'. load_x64_workers n s' rest)
unfolding load_x64_workers write_x64_worker
x64_worker-reads offset w n s rest (h1, h2, h3, h4) =
    field w.export_id _ _ h1
    ∙ field (add64 w.position offset) _ _ (omega arith)
    ∙ field w.size _ _ h2
    ∙ field w.table_size _ _ h3
    ∙ field w.affinity rest _ h4

pub x64_workers-reads :
    (offset : ℕ) (ws : List X64Worker) (s : Loaded) (rest : List ℕ)
    → length ws < 2 ^ 63
    → All FitsX64Worker ws
    → load_counted load_x64_workers s (counted (write_x64_worker offset) ws ++ rest)
      ≡ and_leave rest (install_each (install_x64_worker offset) ws s)
x64_workers-reads offset ws s rest less fits =
    counted-reads load_x64_workers (write_x64_worker offset) ws s rest less
    ∙ each-reads load_x64_workers (write_x64_worker offset) (install_x64_worker offset)
        (λ s' bytes. unfold load_x64_workers in refl) ws
        (All-imp FitsX64Worker ws (λ w h n s' others. x64_worker-reads offset w n s' others h) fits)
        s rest

pub x64_workers-Loads :
    (p : Platform) (offset : ℕ) (ws : List X64Worker)
    → length ws < 2 ^ 63
    → All FitsX64Worker ws
    → Loads p
        (16 ∷ counted (write_x64_worker offset) ws)
        (install_each (install_x64_worker offset) ws)
unfolding load_header is_call
x64_workers-Loads p offset ws less fits =
    header-Loads p 16 (counted (write_x64_worker offset) ws)
      (install_each (install_x64_worker offset) ws)
      (λ s rest. x64_workers-reads offset ws s rest less fits)

gpu_inputs-reads :
    (is : List GpuInputTable) (rest : List ℕ)
    → All (λ i. i.size < 2 ^ 64) is
    → read_gpu_inputs (length is) (concat_map write_gpu_input is ++ rest) ≡ ok (is, rest)
unfolding read_gpu_inputs write_gpu_input read8
gpu_inputs-reads [] rest h = refl
gpu_inputs-reads (i ∷ is) rest (one, more) =
    field i.size (i.type ∷ (concat_map write_gpu_input is ++ rest)) _ one
    ∙ ap (λ r. r >>= λ (inputs, bytes). ok (i ∷ inputs, bytes)) (gpu_inputs-reads is rest more)

module _ (p : Platform) (offset : ℕ) where
  gpu_worker-reads :
      (w : GpuWorker) (n : ℕ) (s : Loaded) (rest : List ℕ)
      → FitsGpuWorker w
      → load_gpu_workers p (suc n) s (write_gpu_worker offset w ++ rest)
        ≡ (install_gpu_worker p offset w s >>= λ s'. load_gpu_workers p n s' rest)
  unfolding load_gpu_workers write_gpu_worker
  gpu_worker-reads w n s rest (h1, h2, h3, h4) =
      field w.export_id _ _ h1
      ∙ field (add64 w.start offset) _ _ (omega arith)
      ∙ field (add64 w.end offset) _ _ (omega arith)
      ∙ field w.table_size _ _ h2
      ∙ field (length w.config) (concat_map write_gpu_input w.config ++ rest) _ (omega arith)
      ∙ rw (rounds_eq (length w.config) h3, gpu_inputs-reads w.config rest h4)
          (sym
            (>>=_assoc (build_gpu_worker p s.code (add64 w.start offset) (add64 w.end offset)) _ _))

  pub gpu_workers-Loads :
      (ws : List GpuWorker)
      → length ws < 2 ^ 63
      → All FitsGpuWorker ws
      → Loads p
          (18 ∷ counted (write_gpu_worker offset) ws)
          (install_each (install_gpu_worker p offset) ws)
  unfolding load_header is_call
  gpu_workers-Loads ws less fits =
      header-Loads p 18 (counted (write_gpu_worker offset) ws) _ (λ s rest.
        counted-reads (load_gpu_workers p) (write_gpu_worker offset) ws s rest less
        ∙ each-reads (load_gpu_workers p) (write_gpu_worker offset) (install_gpu_worker p offset)
            (λ s' bytes. unfold load_gpu_workers in refl) ws
            (All-imp FitsGpuWorker ws (λ w h n s' others. gpu_worker-reads w n s' others h) fits) s
            rest)

pub entry-Loads :
    (p : Platform) (entry_id : ℕ)
    → entry_id < 2 ^ 64
    → Loads p (80 ∷ int64_bytes entry_id) (λ s. ok (record s { entry_id = some entry_id }))
unfolding load_header is_call load_entry
entry-Loads p entry_id less =
    header-Loads p 80 (int64_bytes entry_id) (λ s. ok (record s { entry_id = some entry_id }))
      (λ s rest. field entry_id rest _ less)
