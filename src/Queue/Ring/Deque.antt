-- ===== src/Queue/Ring/Deque.antt =====
-- The ring of queue.c is a double-ended queue of at most RING_SIZE tasks.
use hivelang.Prelude.{
  ℕ, zero, suc, ◌+◌, ◌-◌, ◌%◌, ◌≤◌, ◌<◌, ◌≡◌, refl, ◌≢◌, ap, ◌∙◌, none, some, List, [], ◌∷◌, ◌++◌,
  arith, ne→==, ==_refl, lt→leb, dec_lt,
}
use native.Mathlib.Nat.{le_refl}
use hivelang.Queue.Ring.{
  TaskQueue, ring_size, store, queue_init, queue_push, queue_push_front, queue_pop, cells, contents,
}

-- The cells between the counters hold tasks, and the others are empty.
pub record IsQueue (q : TaskQueue) : Type 0 where
  pub ordered : q.head ≤ q.tail
  pub fits : q.tail ≤ q.head + ring_size
  pub full_cells : (i : ℕ) → q.head ≤ i → i < q.tail → q.buffer (i % ring_size) ≢ 0
  pub empty_cells : (i : ℕ) → q.tail ≤ i → i < q.head + ring_size → q.buffer (i % ring_size) ≡ 0

-- A write to a cell outside the range is not seen in it.
cells-store :
    (b : ℕ → ℕ) (p v h n : ℕ)
    → ((i : ℕ) → h ≤ i → i < h + n → i % ring_size ≢ p)
    → cells (store b p v) h n ≡ cells b h n
cells-store b p v h zero apart = refl
cells-store b p v h (suc n) apart =
    let rest = cells-store b p v (h + 1) n (λ i low high. apart i (omega arith) (omega arith)) in
    rw rest (ground (arith, apart h (le_refl h) (omega arith)))

cells_snoc : (b : ℕ → ℕ) (h n : ℕ) → cells b h (suc n) ≡ cells b h n ++ b ((h + n) % ring_size) ∷ []
cells_snoc b h zero = ap (λ i. b (i % ring_size) ∷ []) (omega arith)
cells_snoc b h (suc n) =
    let e : h + 1 + n ≡ h + suc n = omega arith in
    ap (◌∷◌ (b (h % ring_size)))
      (cells_snoc b (h + 1) n ∙ ap (λ i. cells b (h + 1) n ++ b (i % ring_size) ∷ []) e)

pub queue_init-IsQueue : IsQueue queue_init × (contents queue_init ≡ [])
unfolding queue_init
queue_init-IsQueue = (
  record {
    ordered = omega arith;
    fits = omega arith;
    full_cells = λ i a b. absurd (omega arith);
    empty_cells = λ i a b. refl;
  },
  refl,
)

module _ (q : TaskQueue) (v : IsQueue q) where
  -- On a ring in order with a free cell and `head` above the bottom of its range,
  -- `queue_push_front` of a task ends and puts the task in front of the others, in a ring in order.
  pub queue_push_front-contents :
      (task : ℕ)
      → task ≢ 0
      → 0 < q.head
      → q.tail < q.head + ring_size
      → (q' : TaskQueue) × (queue_push_front q task ≡ some q')
        × IsQueue q'
        × (contents q' ≡ task ∷ contents q)
  unfolding queue_push_front
  queue_push_front-contents task ne pos_head room =
      let h = q.head - 1 in
      let same_cell : (h + ring_size) % ring_size ≡ h % ring_size = omega arith in
      let free : q.buffer (h % ring_size) ≡ 0 =
        rw same_cell at (v.empty_cells (h + ring_size) (omega arith) (omega arith)) in
      let q' : TaskQueue = record q { buffer = store q.buffer (h % ring_size) task; head = h } in
      let later : cells q'.buffer (h + 1) (q.tail - q.head) ≡ contents q =
        cells-store q.buffer (h % ring_size) task (h + 1) (q.tail - q.head)
          (λ i low high. omega (arith, v.ordered))
        ∙ ap (λ x. cells q.buffer x (q.tail - q.head)) (omega arith) in
      let count' : q.tail - h ≡ suc (q.tail - q.head) = omega (arith, v.ordered) in
      (
        q',
        rw free refl,
        record {
          ordered = omega (arith, v.ordered);
          fits = omega arith;
          full_cells = λ i low high. ground (arith, v.full_cells i);
          empty_cells = λ i low high.
              let apart : i % ring_size ≢ h % ring_size = omega (arith, v.ordered) in
              ground (arith, v.empty_cells i);
        },
        rw count' (rw later (ground arith)),
      )

  -- On a full ring `queue_push_front` waits for ever.
  queue_push_front_full :
      (task : ℕ) → 0 < q.head → q.tail ≡ q.head + ring_size → queue_push_front q task ≡ none
  unfolding queue_push_front
  queue_push_front_full task pos_head full =
      let h = q.head - 1 in
      let same_cell : (h + ring_size) % ring_size ≡ h % ring_size = omega arith in
      let taken : q.buffer (h % ring_size) ≢ 0 =
        rw same_cell at (v.full_cells (h + ring_size) (omega arith) (omega arith)) in
      rw (ne→== _ 0 taken) refl

  -- With a free cell and a task, `queue_push` puts the task behind those of the ring.
  pub queue_push-contents :
      (task : ℕ)
      → task ≢ 0
      → q.tail < q.head + ring_size
      → IsQueue (queue_push q task) × (contents (queue_push q task) ≡ contents q ++ task ∷ [])
  unfolding queue_push
  queue_push-contents task ne room =
      let count' : q.tail + 1 - q.head ≡ suc (q.tail - q.head) = omega (arith, v.ordered) in
      let last : q.head + (q.tail - q.head) ≡ q.tail = omega (arith, v.ordered) in
      (
        record {
          ordered = omega (arith, v.ordered);
          fits = omega arith;
          full_cells = λ i low high. ground (arith, v.full_cells i);
          empty_cells = λ i low high.
              let apart : i % ring_size ≢ q.tail % ring_size = omega (arith, v.ordered) in
              ground (arith, v.empty_cells i);
        },
        rw count' (
            cells_snoc (store q.buffer (q.tail % ring_size) task) q.head (q.tail - q.head)
            ∙ rw
                (
                  last,
                  cells-store q.buffer (q.tail % ring_size) task q.head (q.tail - q.head)
                      (λ i low high. omega (arith, v.ordered)),
                  ==_refl (q.tail % ring_size),
                )
                refl),
      )

  abbrev pub Pops : List ℕ → Type 0
  Pops [] = queue_pop q ≡ some (0, q)
  Pops (task ∷ rest) =
      (task ≢ 0)
      × (q' : TaskQueue) × (queue_pop q ≡ some (task, q'))
      × IsQueue q'
      × (contents q' ≡ rest)
      × (q'.head ≡ q.head + 1)

  queue_pop_empty : q.tail ≡ q.head → queue_pop q ≡ some (0, q)
  unfolding queue_pop
  queue_pop_empty e = ground arith

  queue_pop_front :
      q.head < q.tail
      → (q' : TaskQueue) × (queue_pop q ≡ some (q.buffer (q.head % ring_size), q'))
        × IsQueue q'
        × (contents q' ≡ cells q.buffer (q.head + 1) (q.tail - (q.head + 1)))
        × (q'.head ≡ q.head + 1)
  unfolding queue_pop
  queue_pop_front some_task =
      let there = v.full_cells q.head (le_refl q.head) some_task in
      (
        record q { buffer = store q.buffer (q.head % ring_size) 0; head = q.head + 1 },
        rw (lt→leb q.tail q.head some_task, ne→== _ 0 there) refl,
        record {
          ordered = omega arith;
          fits = omega (arith, v.fits);
          full_cells = λ i low high.
              let apart : i % ring_size ≢ q.head % ring_size = omega (arith, v.fits) in
              ground (arith, v.full_cells i);
          empty_cells = λ i low high. ground (arith, v.empty_cells i);
        },
        cells-store q.buffer (q.head % ring_size) 0 (q.head + 1) (q.tail - (q.head + 1))
            (λ i low high. omega (arith, v.fits)),
        refl,
      )

  -- On a ring in order, `queue_pop` answers NULL and changes nothing if there is no task. If there
  -- is one, it takes the front task and leaves the others, in a ring in order.
  pub queue_pop-Pops : Pops (contents q)
  queue_pop-Pops = elim (dec_lt q.head q.tail) [
    | no none_left ↦
        let z : q.tail - q.head ≡ 0 = omega arith in
        rw z (queue_pop_empty (omega (arith, v.ordered)))
    | yes more ↦
        let n : q.tail - q.head ≡ suc (q.tail - (q.head + 1)) = omega arith in
        let (q', e, w, c, hd) = queue_pop_front more in
        rw n (v.full_cells q.head (le_refl q.head) more, q', e, w, c, hd)
  ]
