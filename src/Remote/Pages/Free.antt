-- ===== src/Remote/Pages/Free.antt =====
-- The free ids that `PagesAllocator` counts, and those that `GetNewObjectId` finds.
use hivelang.Prelude.{
  ℕ, ◌+◌, ◌-◌, ◌*◌, ◌%◌, ◌^◌, ◌≤◌, ◌≡◌, refl, ap, Bool, true, false, Bool-cases, some, inl, inr,
  List, [], ◌∷◌, All, length, ltb, arith,
}
use hivelang.Word.{signed_lt}
use hivelang.Remote.Pages.{
  MemoryPage, objects_per_page, max_pages, get_new_object_id, free_objects, pages_allocator,
}

abbrev pub IsCounted : List MemoryPage → Type 0
IsCounted = All (λ p. p.next_allocated_id ≤ objects_per_page)

free_count : List MemoryPage → ℕ
free_count [] = 0
free_count (p ∷ pages) = free_count pages + (objects_per_page - p.next_allocated_id)

free_count_le : (pages : List MemoryPage) → free_count pages ≤ length pages * objects_per_page
unfolding free_count
free_count_le [] = omega arith
free_count_le (p ∷ pages) = omega (arith, free_count_le pages)

-- The words do not wrap around.
free_objects-count :
    (pages : List MemoryPage)
    → IsCounted pages
    → length pages ≤ max_pages
    → free_objects pages ≡ free_count pages
unfolding free_objects free_count
free_objects-count [] h n = refl
free_objects-count (p ∷ pages) h n =
    rw (free_objects-count pages h.1 (omega arith)) (omega (arith, free_count_le pages, h.0))

-- What becomes of the pages and of the number of ids.
abbrev Counts : List MemoryPage → Bool → List MemoryPage → Type 0
Counts pages true pages' =
    (free_count pages' + 1 ≡ free_count pages) × (length pages' ≡ length pages) × IsCounted pages'
Counts pages false pages' = (pages' ≡ pages) × (free_count pages ≡ 0)

Counts-cons :
    (p : MemoryPage) (pages pages' : List MemoryPage) (set : Bool)
    → p.next_allocated_id ≡ objects_per_page
    → Counts pages set pages'
    → Counts (p ∷ pages) set (p ∷ pages')
unfolding free_count
Counts-cons p pages pages' true e h = (omega arith, omega arith, (omega arith, h.2))
Counts-cons p pages pages' false e h = (ap (λ ps. p ∷ ps) h.0, omega arith)

counts :
    (pages : List MemoryPage)
    → IsCounted pages
    → Counts pages (get_new_object_id pages).0 (get_new_object_id pages).2
unfolding get_new_object_id free_count
counts [] h = (refl, refl)
counts (p ∷ pages) h = elim (Bool-cases (ltb p.next_allocated_id objects_per_page)) [
  | inl e ↦ rw (get_new_object_id, e) (ground arith, refl, (ground arith, h.1))
  | inr e ↦
      rw (get_new_object_id, e)
        (Counts-cons p pages (get_new_object_id pages).2 (get_new_object_id pages).0 (ground arith)
          (counts pages h.1))
]

-- What the code counts.
unfoldable pub IsCountedRight : List MemoryPage → Bool → List MemoryPage → Type 0
IsCountedRight pages true pages' = free_objects pages' + 1 ≡ free_objects pages
IsCountedRight pages false pages' =
    (pages' ≡ pages)
    × (free_objects pages ≡ 0)
    × ((random_bytes : ℕ)
        → pages_allocator pages random_bytes ≡ some (random_bytes % 2 ^ 40 + 2 ^ 63))

counted :
    (pages pages' : List MemoryPage) (set : Bool)
    → IsCounted pages
    → length pages ≤ max_pages
    → Counts pages set pages'
    → IsCountedRight pages set pages'
unfolding IsCountedRight pages_allocator signed_lt
counted pages pages' true h n (one_less, same_length, h') =
    rw (free_objects-count pages h n, free_objects-count pages' h' (omega arith)) one_less
counted pages pages' false h n (same, none_left) =
    let nothing : free_objects pages ≡ 0 = rw (free_objects-count pages h n) none_left in
    (same, nothing, λ random_bytes. rw (pages_allocator, nothing) refl)

-- For at most 128 pages whose counters are at most OBJECTS_PER_PAGE: when `GetNewObjectId` gives an
-- id, the number of free objects that `PagesAllocator` counts falls by exactly one; when it refuses,
-- no page changes, that number is 0, and `PagesAllocator` then asks for a page, whatever five
-- bytes the system gives.
pub get_new_object_id-IsCountedRight :
    (pages : List MemoryPage)
    → IsCounted pages
    → length pages ≤ max_pages
    → IsCountedRight pages (get_new_object_id pages).0 (get_new_object_id pages).2
get_new_object_id-IsCountedRight pages h n =
    counted pages (get_new_object_id pages).2 (get_new_object_id pages).0 h n (counts pages h)
