-- ===== src/Workers/Updates/Lost.antt =====
-- `UpdateWaitingWorkers` of runtimes/0.3/common/runtime.c over the whole wait list.
use hivelang.Prelude.{
  ℕ, ◌+◌, ◌&&◌, ltb, leb, false, ◌≡◌, Option, none, some, List, ◌∷◌, ◌++◌, length, ◌⊎◌,
}
use hivelang.Workers.States.{Runtime}
use hivelang.Workers.Updates.{threshold}
use hivelang.Workers.Updates.Kept.{Awaits, GoesOn}

abbrev pub In : ℕ → List ℕ → Type 0
In v xs = (front : List ℕ) × (back : List ℕ) × (xs ≡ front ++ (v ∷ back))

module _ (update : Runtime → ℕ → Option (ℕ × Runtime)) where
  -- The tries of the loop, from a number of workers that went on, a state and a list: it comes to
  -- try this worker in this state.
  pub data Tries : ℕ → Runtime → List ℕ → Runtime → ℕ → Type 0 where
    first : {count : ℕ} {s : Runtime} {w : ℕ} {ws : List ℕ} → Tries count s (w ∷ ws) s w
    later :
        {count res : ℕ} {s s₁ s₂ : Runtime} {w v : ℕ} {ws : List ℕ}
        → update s w ≡ some (res, s₁)
        → (leb threshold (count + res) && ltb 0 (length ws)) ≡ false
        → Tries (count + res) s₁ ws s₂ v
        → Tries count s (w ∷ ws) s₂ v

  -- The loop comes to try a worker, and `update` does not return.
  abbrev pub Fails : ℕ → Runtime → List ℕ → Type 0
  Fails count s ws = (s₁ : Runtime) × (v : ℕ) × Tries count s ws s₁ v × (update s₁ v ≡ none)

  module _ (address : ℕ → ℕ) where
    -- A worker is in the wait list of `s'`; or the loop came to try it, and it went on or waits for
    -- its object.
    abbrev pub Kept : ℕ → Runtime → List ℕ → Runtime → ℕ → Type 0
    Kept count s ws s' v =
        In v s'.wait_list
        ⊎ ((s₁ : Runtime) × (answer : ℕ × Runtime) × Tries count s ws s₁ v
            × (update s₁ v ≡ some answer)
            × (GoesOn (address v) s₁ v answer ⊎ Awaits s₁ v))
