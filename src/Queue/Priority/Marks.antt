-- ===== src/Queue/Priority/Marks.antt =====
-- The well-formed priority queues of queue.c, and what a mask marks.
use hivelang.Prelude.{
  ℕ, zero, suc, ◌≤◌, ◌<◌, ◌≡◌, refl, ◌≢◌, ap, sym, ◌∙◌, inl, inr, Bool, true, false, Option, none,
  some, List, [], arith, get_elem?, set, length, length-set, get_elem?-set_self, get_elem?-set_ne,
  lt_of_get_elem?, ne→==, ==_refl, some-inj, subst, ℕ_discrete, Bool-cases,
}
use hivelang.Queue.Ring.{TaskQueue, contents}
use hivelang.Queue.Ring.Deque.{IsQueue}
use hivelang.Queue.Priority.{SchedulerQueue, max_task_priority, highest, set_bit}

pub record IsScheduler (s : SchedulerQueue) : Type 0 where
  pub sized : length s.queues ≡ max_task_priority
  pub rings : (i : ℕ) (q : TaskQueue) → get_elem? s.queues i ≡ some q → IsQueue q
  -- A priority with tasks is in the mask, which has no other bits.
  pub marked :
      (i : ℕ) (q : TaskQueue)
      → get_elem? s.queues i ≡ some q
      → s.active_mask i ≡ false
      → contents q ≡ []
  pub bounded : (i : ℕ) → max_task_priority ≤ i → s.active_mask i ≡ false

-- The tasks of one priority, front first.
abbrev pub tasks_in : List TaskQueue → ℕ → List ℕ
tasks_in qs i = elim (get_elem? qs i) [ none ↦ [] | some q ↦ contents q ]

abbrev pub tasks_at : SchedulerQueue → ℕ → List ℕ
tasks_at s i = tasks_in s.queues i

pub tasks_in_self :
    (qs : List TaskQueue) (p : ℕ) (q : TaskQueue)
    → p < length qs
    → tasks_in (set qs p q) p ≡ contents q
tasks_in_self qs p q lt = rw (tasks_in, get_elem?-set_self qs p q lt) refl

pub tasks_in-ne :
    (qs : List TaskQueue) (p i : ℕ) (q : TaskQueue)
    → p ≢ i
    → tasks_in (set qs p q) i ≡ tasks_in qs i
tasks_in-ne qs p i q ne = rw (tasks_in, get_elem?-set_ne qs p i q ne) refl

pub tasks_in-some :
    (qs : List TaskQueue) (p : ℕ) (q : TaskQueue)
    → get_elem? qs p ≡ some q
    → tasks_in qs p ≡ contents q
tasks_in-some qs p q at = rw (tasks_in, at) refl

pub tasks_in-same :
    (qs : List TaskQueue) (p i : ℕ) (q : TaskQueue)
    → get_elem? qs p ≡ some q
    → tasks_in (set qs p q) i ≡ tasks_in qs i
tasks_in-same qs p i q at = elim (ℕ_discrete p i) [
  | no ne ↦ tasks_in-ne qs p i q ne
  | yes e ↦
      rw (← e) (tasks_in_self qs p q (lt_of_get_elem? qs p q at) ∙ sym (tasks_in-some qs p q at))
]

unmarked_ring :
    (s : SchedulerQueue)
    → IsScheduler s
    → (i : ℕ) → s.active_mask i ≡ false
    → (r : Option TaskQueue) → get_elem? s.queues i ≡ r
    → elim r [ none ↦ [] | some q ↦ contents q ] ≡ []
unmarked_ring s v i off none e = refl
unmarked_ring s v i off (some q) e = v.marked i q e off

pub unmarked :
    (s : SchedulerQueue) → IsScheduler s → (i : ℕ) → s.active_mask i ≡ false → tasks_at s i ≡ []
unmarked s v i off = unmarked_ring s v i off (get_elem? s.queues i) refl

-- A ring replaced, with another mask and counter.
module _ (s : SchedulerQueue) (v : IsScheduler s) (p : ℕ) (q : TaskQueue) (w : IsQueue q)
    (less : p < max_task_priority) where
  here : (i : ℕ) (r : TaskQueue) → p ≡ i → get_elem? (set s.queues p q) i ≡ some r → q ≡ r
  here i r e at = some-inj (
      sym (get_elem?-set_self s.queues p q (omega (arith, v.sized)))
      ∙ ap (get_elem? (set s.queues p q)) e
      ∙ at)

  pub replace-IsScheduler :
      (mask : ℕ → Bool) (n : ℕ)
      → (mask p ≡ false → contents q ≡ [])
      → ((i : ℕ) → p ≢ i → mask i ≡ s.active_mask i)
      → IsScheduler (record { queues = set s.queues p q; active_mask = mask; size = n })
  replace-IsScheduler mask n empty others = record {
    sized = length-set s.queues p q ∙ v.sized;
    rings = λ i r at. elim (ℕ_discrete p i) [
      | no ne ↦ v.rings i r (sym (get_elem?-set_ne s.queues p i q ne) ∙ at)
      | yes e ↦ subst IsQueue (here i r e at) w
    ];
    marked = λ i r at off. elim (ℕ_discrete p i) [
      | no ne ↦
          v.marked i r (sym (get_elem?-set_ne s.queues p i q ne) ∙ at) (sym (others i ne) ∙ off)
      | yes e ↦ rw (← here i r e at) (empty (ap mask e ∙ off))
    ];
    bounded = λ i le. others i (omega arith) ∙ v.bounded i le;
  }

  pub mark-IsScheduler :
      (b : Bool) (n : ℕ)
      → (b ≡ false → contents q ≡ [])
      → IsScheduler
          (record { queues = set s.queues p q; active_mask = set_bit s.active_mask p b; size = n })
  mark-IsScheduler b n empty =
      replace-IsScheduler (set_bit s.active_mask p b) n (λ off. empty (rw (==_refl p) at off))
        (λ i ne. rw (ne→== i p (λ e. ne (sym e))) refl)

pub highest-none :
    (n : ℕ) (mask : ℕ → Bool) → highest n mask ≡ none → (i : ℕ) → i < n → mask i ≡ false
highest-none zero mask h i lt = elim lt [ ]
highest-none (suc n) mask h i lt = elim (Bool-cases (mask n)) [
  | inl y ↦ absurd (ground arith)
  | inr f ↦ elim (ℕ_discrete i n) [
    | yes e ↦ rw e f
    | no ne ↦ highest-none n mask (ground arith) i (omega arith)
  ]
]

pub highest-some :
    (n : ℕ) (mask : ℕ → Bool) (p : ℕ)
    → highest n mask ≡ some p
    → (mask p ≡ true) × (p < n) × ((i : ℕ) → p < i → i < n → mask i ≡ false)
highest-some zero mask p h = absurd (cc)
highest-some (suc n) mask p h = elim (Bool-cases (mask n)) [
  | inl y ↦ let e : n ≡ p = ground arith in (rw (← e) y, omega arith, λ i a b. absurd (omega arith))
  | inr f ↦
      let (set', less, above) = highest-some n mask p (ground arith) in
      (
        set',
        omega arith,
        λ i a b. elim (ℕ_discrete i n) [ yes e ↦ rw e f | no ne ↦ above i a (omega arith) ],
      )
]
