-- ===== src/Remote/Pages/Given.antt =====
-- Histories of pages and ids, and what `GetNewObjectId` keeps.
use hivelang.Prelude.{
  ℕ, ◌+◌, ◌/◌, ◌%◌, ◌^◌, ◌≤◌, ◌<◌, ◌≡◌, refl, ◌≢◌, sym, ap, ◌∙◌, true, false, Bool-cases, inl, inr,
  some, List, [], ◌∷◌, map, All, ltb, arith,
}
use mathlib.Core.List.{Memᴰ}
use mathlib.Core.List.Memᴰ.{head, tail}
use hivelang.Word.{shl64}
use hivelang.Remote.Pages.{MemoryPage, objects_per_page, confirm_page, get_new_object_id}

-- The part of a page's id that an object id keeps.
abbrev pub number : MemoryPage → ℕ
number p = p.id % 2 ^ 40

abbrev pub Distinct : List ℕ → Type 0
Distinct [] = Unit
Distinct (n ∷ ns) = All (λ m. m ≢ n) ns × Distinct ns

-- The pages as they come, and the ids that they gave, the last one first.
pub data Allocating : List ℕ → List MemoryPage → Type 0 where
  started : Allocating [] []
  confirmed :
      {ids : List ℕ} {pages pages' : List MemoryPage} (page_id : ℕ)
      → Allocating ids pages
      → confirm_page pages page_id ≡ some pages'
      → Allocating ids pages'
  refused :
      {ids : List ℕ} {pages pages' : List MemoryPage} {id : ℕ}
      → Allocating ids pages
      → get_new_object_id pages ≡ (false, id, pages')
      → Allocating ids pages'
  given :
      {ids : List ℕ} {pages pages' : List MemoryPage} {id : ℕ}
      → Allocating ids pages
      → get_new_object_id pages ≡ (true, id, pages')
      → Allocating (id ∷ ids) pages'

-- An id that its page, if it is here, has given.
abbrev Below : ℕ → List MemoryPage → Type 0
Below id = All (λ p. id / 2 ^ 24 ≡ number p → id % 2 ^ 24 < p.next_allocated_id)

-- An id that one of the pages has given.
abbrev pub IsGiven : List MemoryPage → ℕ → Type 0
IsGiven pages id = Below id pages × Memᴰ (id / 2 ^ 24) (map number pages)

pub record IsAllocated (ids : List ℕ) (pages : List MemoryPage) : Type 0 where
  pub full : All (λ p. p.next_allocated_id ≤ objects_per_page) pages
  pub numbers : Distinct (map number pages)
  pub below : All (IsGiven pages) ids
  pub ids_distinct : Distinct ids

parts :
    (page_id t : ℕ)
    → t < 2 ^ 24
    → ((shl64 page_id 24 + t) / 2 ^ 24 ≡ page_id % 2 ^ 40) × ((shl64 page_id 24 + t) % 2 ^ 24 ≡ t)
parts page_id t h = (omega arith, omega arith)

pub same_numbers :
    (pages : List MemoryPage) → map number (get_new_object_id pages).2 ≡ map number pages
unfolding get_new_object_id
same_numbers [] = refl
same_numbers (p ∷ pages) = elim (Bool-cases (ltb p.next_allocated_id objects_per_page)) [
  | inl e ↦ rw (get_new_object_id, e) refl
  | inr e ↦ rw (get_new_object_id, e) (ap (λ ns. number p ∷ ns) (same_numbers pages))
]

pub still_full :
    (pages : List MemoryPage)
    → All (λ p. p.next_allocated_id ≤ objects_per_page) pages
    → All (λ p. p.next_allocated_id ≤ objects_per_page) (get_new_object_id pages).2
unfolding get_new_object_id
still_full [] h = tt
still_full (p ∷ pages) h = elim (Bool-cases (ltb p.next_allocated_id objects_per_page)) [
  | inl e ↦ rw (get_new_object_id, e) (ground arith, h.1)
  | inr e ↦ rw (get_new_object_id, e) (h.0, still_full pages h.1)
]

pub still-Below :
    (id : ℕ) (pages : List MemoryPage) → Below id pages → Below id (get_new_object_id pages).2
unfolding get_new_object_id
still-Below id [] h = tt
still-Below id (p ∷ pages) h = elim (Bool-cases (ltb p.next_allocated_id objects_per_page)) [
  | inl e ↦ rw (get_new_object_id, e) (λ same. omega (arith, h.0 same), h.1)
  | inr e ↦ rw (get_new_object_id, e) (h.0, still-Below id pages h.1)
]

-- The id is a new one.
pub new_id :
    (id : ℕ) (pages : List MemoryPage)
    → (get_new_object_id pages).0 ≡ true
    → Below id pages
    → id ≢ (get_new_object_id pages).1
unfolding get_new_object_id
new_id id [] h b = absurd (cc)
new_id id (p ∷ pages) h b = elim (Bool-cases (ltb p.next_allocated_id objects_per_page)) [
  | inl e ↦
      let (n, t) = parts p.id p.next_allocated_id (ground arith) in
      rw (get_new_object_id, e)
        (λ same.
          let n' : id / 2 ^ 24 ≡ number p = ap (λ x. x / 2 ^ 24) same ∙ n in
          let t' : id % 2 ^ 24 ≡ p.next_allocated_id = ap (λ x. x % 2 ^ 24) same ∙ t in
          omega (arith, b.0 n', t'))
  | inr e ↦
      let h' : (get_new_object_id pages).0 ≡ true = rw (get_new_object_id, e) at h in
      rw (get_new_object_id, e) (new_id id pages h' b.1)
]

-- It is one of those that the pages have given.
pub new_id-Memᴰ :
    (pages : List MemoryPage)
    → (get_new_object_id pages).0 ≡ true
    → Memᴰ ((get_new_object_id pages).1 / 2 ^ 24) (map number pages)
unfolding get_new_object_id
new_id-Memᴰ [] h = absurd (cc)
new_id-Memᴰ (p ∷ pages) h = elim (Bool-cases (ltb p.next_allocated_id objects_per_page)) [
  | inl e ↦
      let (n, _) = parts p.id p.next_allocated_id (ground arith) in
      rw (get_new_object_id, e) (head n)
  | inr e ↦
      let h' : (get_new_object_id pages).0 ≡ true = rw (get_new_object_id, e) at h in
      rw (get_new_object_id, e) (tail (new_id-Memᴰ pages h'))
]

not_mem_Below :
    (id : ℕ) (pages : List MemoryPage)
    → All (λ n. n ≢ id / 2 ^ 24) (map number pages)
    → Below id pages
not_mem_Below id [] h = tt
not_mem_Below id (p ∷ pages) h = (λ same. absurd (h.0 (sym same)), not_mem_Below id pages h.1)

pub apart_from : (n m : ℕ) (ns : List ℕ) → All (λ k. k ≢ n) ns → Memᴰ m ns → m ≢ n
apart_from n m [] h e = elim e [ ]
apart_from n m (k ∷ ns) h (head is) = λ same. h.0 (sym is ∙ same)
apart_from n m (k ∷ ns) h (tail e) = apart_from n m ns h.1 e

pub new_id-Below :
    (pages : List MemoryPage)
    → Distinct (map number pages)
    → (get_new_object_id pages).0 ≡ true
    → Below (get_new_object_id pages).1 (get_new_object_id pages).2
unfolding get_new_object_id
new_id-Below [] d h = absurd (cc)
new_id-Below (p ∷ pages) d h = elim (Bool-cases (ltb p.next_allocated_id objects_per_page)) [
  | inl e ↦
      let (n, t) = parts p.id p.next_allocated_id (ground arith) in
      rw (get_new_object_id, e)
        (
          λ _. omega (arith, t),
          not_mem_Below (shl64 p.id 24 + p.next_allocated_id) pages (rw n d.0),
        )
  | inr e ↦
      let h' : (get_new_object_id pages).0 ≡ true = rw (get_new_object_id, e) at h in
      let m =
        apart_from (number p) ((get_new_object_id pages).1 / 2 ^ 24) (map number pages) d.0
          (new_id-Memᴰ pages h') in
      rw (get_new_object_id, e) (λ same. absurd (m same), new_id-Below pages d.1 h')
]
