-- ===== src/Remote/Pages.antt =====
-- The pages of object ids: `pages` of remote.c, and `GetNewObjectId` of runtime.c.
pub mod Given
pub mod Fresh
pub mod Free
use hivelang.Prelude.{
  ℕ, ◌+◌, ◌-◌, ◌*◌, ◌%◌, ◌^◌, Bool, true, false, List, [], ◌∷◌, ◌++◌, Option, none, some, ltb,
  length,
}
use hivelang.Word.{word_size, add64, shl64, signed_lt}

-- `struct memory_page`
pub record MemoryPage : Type 0 where
  pub id : ℕ
  pub object_count : ℕ
  pub next_allocated_id : ℕ

-- OBJECTS_PER_PAGE
abbrev pub objects_per_page : ℕ
objects_per_page = 2 ^ 24

-- `struct memory_page pages[128]`. `ConfirmPage` does not test for its end: nothing is said of what
-- comes then.
abbrev pub max_pages : ℕ
max_pages = 128

unfoldable pub confirm_page : List MemoryPage → ℕ → Option (List MemoryPage)
confirm_page pages page_id = elim (ltb (length pages) max_pages) [
  | true ↦
      let page : MemoryPage = record { id = page_id; object_count = 0; next_allocated_id = 0 } in
      some (pages ++ (page ∷ []))
  | false ↦ none
]

-- Whether there was an id, the id, and the pages afterwards. The page takes the bits from 24 on, so
-- that `|` adds; with no other thread the second test of the code answers as the first.
unfoldable pub get_new_object_id : List MemoryPage → Bool × ℕ × List MemoryPage
get_new_object_id [] = (false, 0, [])
get_new_object_id (p ∷ pages) = elim (ltb p.next_allocated_id objects_per_page) [
  | true ↦
      let t = p.next_allocated_id in
      (true, shl64 p.id 24 + t, record p { next_allocated_id = t + 1 } ∷ pages)
  | false ↦ let (set, remote_id, pages') = get_new_object_id pages in (set, remote_id, p ∷ pages')
]

-- The loop at the top of `PagesAllocator`, on 64-bit words.
unfoldable pub free_objects : List MemoryPage → ℕ
free_objects [] = 0
free_objects (p ∷ pages) =
    add64 (free_objects pages) (objects_per_page + (word_size - p.next_allocated_id))

-- One round of `PagesAllocator`: the page that it asks for, of the five bytes that the system gave.
unfoldable pub pages_allocator : List MemoryPage → ℕ → Option ℕ
pages_allocator pages random_bytes = elim (signed_lt (free_objects pages) (objects_per_page * 2)) [
  | true ↦ some (random_bytes % 2 ^ 40 + 2 ^ 63)
  | false ↦ none
]
