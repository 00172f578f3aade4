-- ===== src/Program/Meaning/Workers.antt =====
-- `Workers` of runtime.c after the header of x64 workers.
use hivelang.Prelude.{
  ℕ, ◌^◌, ◌<◌, ◌==◌, ◌≡◌, ◌≢◌, refl, ap, sym, ◌∙◌, some, List, [], ◌∷◌, ◌++◌, length, All,
  if◌then◌else◌, ne→==, ==_refl, lt→ltb,
}
use hivelang.Word.{add64}
use hivelang.Program.Load.{
  WorkerInfo, x64_worker, Loaded, set_worker, max_workers, load_x64_workers,
}
use hivelang.Program.Load.Reads.{ok, ◌>>=◌}
use hivelang.Program.Loader.{load_counted}
use hivelang.Program.Export.{X64Worker, counted, write_x64_worker}
use hivelang.Program.Install.{install_each, install_x64_worker}
use hivelang.Program.RoundTrip.Headers.{and_leave}
use hivelang.Program.RoundTrip.Workers.{FitsX64Worker, x64_workers-reads}

-- Where a worker of the program stands in the memory of the code, and its sizes.
abbrev pub worker_info : ℕ → X64Worker → WorkerInfo
worker_info offset w = record {
  worker = x64_worker (add64 w.position offset) (add64 (add64 w.position offset) w.size);
  input_size = w.table_size;
  affinity = w.affinity;
}

abbrev pub IsFresh : X64Worker → List X64Worker → Type 0
IsFresh w ws = All (λ v. v.export_id ≢ w.export_id) ws

-- No two workers have the same number.
abbrev pub Distinct : List X64Worker → Type 0
Distinct [] = Unit
Distinct (w ∷ ws) = IsFresh w ws × Distinct ws

abbrev pub InTable : List X64Worker → Type 0
InTable = All (λ w. w.export_id < max_workers)

abbrev Entered : ℕ → List X64Worker → Loaded → Loaded → Type 0
Entered offset ws s s' =
    (install_each (install_x64_worker offset) ws s ≡ ok s')
    × All (λ w. s'.workers w.export_id ≡ some (worker_info offset w)) ws
    × ((k : ℕ) → All (λ w. w.export_id ≢ k) ws → s'.workers k ≡ s.workers k)

workers-Entered :
    (offset : ℕ) (ws : List X64Worker) (s : Loaded)
    → InTable ws
    → Distinct ws
    → (s' : Loaded) × Entered offset ws s s'
workers-Entered offset [] s h1 h2 = (s, (refl, tt, λ k h. refl))
workers-Entered offset (w ∷ ws) s (less, h1) (fresh, h2) =
    let s1 : Loaded = record s {
      workers = λ k. if k == w.export_id then some (worker_info offset w) else s.workers k;
    } in
    let first : install_x64_worker offset w s ≡ ok s1 =
      unfold set_worker in rw (lt→ltb w.export_id max_workers less) refl in
    let (s', (installed, entered, others)) = workers-Entered offset ws s1 h1 h2 in
    (
      s',
      (
        ap (λ r. r >>= install_each (install_x64_worker offset) ws) first ∙ installed,
        (others w.export_id fresh ∙ rw (==_refl w.export_id) refl, entered),
        λ k (apart, more). others k more ∙ rw (ne→== k w.export_id (λ e. apart (sym e))) refl,
      ),
    )

-- The header of x64 workers that the x64 assembler writes, followed by anything, is loaded: after it
-- each worker of the header is in `Workers` under its number, with its place in the memory of the
-- code, every other number has what it had, and the bytes after the header are left. The numbers of
-- the workers are distinct and below 100, and their fields have 64 bits.
pub load_x64_workers-write_x64_worker :
    (offset : ℕ) (ws : List X64Worker) (s : Loaded) (rest : List ℕ)
    → length ws < 2 ^ 63
    → All FitsX64Worker ws
    → InTable ws
    → Distinct ws
    → (s' : Loaded) × (load_counted load_x64_workers s
          (counted (write_x64_worker offset) ws ++ rest)
        ≡ ok (s', rest))
      × All (λ w. s'.workers w.export_id ≡ some (worker_info offset w)) ws
      × ((k : ℕ) → All (λ w. w.export_id ≢ k) ws → s'.workers k ≡ s.workers k)
load_x64_workers-write_x64_worker offset ws s rest less fits in_table distinct =
    let (s', (installed, entered, others)) = workers-Entered offset ws s in_table distinct in
    (
      s',
      x64_workers-reads offset ws s rest less fits ∙ ap (and_leave rest) installed,
      entered,
      others,
    )
