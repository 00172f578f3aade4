-- ===== src/Remote/Pages/Fresh.antt =====
-- No object id is given twice.
use hivelang.Prelude.{
  ℕ, ◌/◌, ◌%◌, ◌^◌, ◌≤◌, ◌<◌, ◌≡◌, refl, ◌≢◌, sym, ap, ◌∙◌, true, Bool-cases, inl, inr, some,
  some-inj, subst, length, List, [], ◌∷◌, ◌++◌, map, All, All-imp, All-snoc, ltb, arith,
}
use mathlib.Core.List.{Memᴰ}
use mathlib.Core.List.Memᴰ.{head, tail}
use hivelang.Remote.Pages.{MemoryPage, objects_per_page, max_pages, confirm_page, get_new_object_id}
use hivelang.Remote.Pages.Given.{
  Allocating, Distinct, IsAllocated, IsGiven, apart_from, confirmed, given, new_id, new_id-Below,
  new_id-Memᴰ, number, refused, same_numbers, started, still-Below, still_full,
}

map_snoc :
    (pages : List MemoryPage) (p : MemoryPage)
    → map number (pages ++ (p ∷ [])) ≡ map number pages ++ (number p ∷ [])
map_snoc [] p = refl
map_snoc (q ∷ pages) p = ap (λ ns. number q ∷ ns) (map_snoc pages p)

Distinct-snoc :
    (ns : List ℕ) (n : ℕ) → Distinct ns → All (λ m. m ≢ n) ns → Distinct (ns ++ (n ∷ []))
Distinct-snoc [] n d h = (tt, tt)
Distinct-snoc (m ∷ ns) n d h =
    (All-snoc (λ k. k ≢ m) ns n d.0 (λ e. h.0 (sym e)), Distinct-snoc ns n d.1 h.1)

Memᴰ_snoc : (n m : ℕ) (ns : List ℕ) → Memᴰ n ns → Memᴰ n (ns ++ (m ∷ []))
Memᴰ_snoc n m [] h = elim h [ ]
Memᴰ_snoc n m (k ∷ ns) (head e) = head e
Memᴰ_snoc n m (k ∷ ns) (tail h) = tail (Memᴰ_snoc n m ns h)

confirm_page-IsAllocated :
    (ids : List ℕ) (pages pages' : List MemoryPage) (page_id : ℕ)
    → IsAllocated ids pages
    → All (λ n. n ≢ page_id % 2 ^ 40) (map number pages)
    → confirm_page pages page_id ≡ some pages'
    → IsAllocated ids pages'
unfolding confirm_page
confirm_page-IsAllocated ids pages pages' page_id w new e =
    elim (Bool-cases (ltb (length pages) max_pages)) [
      | inr out ↦ let e' = rw (confirm_page, out) at e in absurd (cc)
      | inl room ↦
          let page : MemoryPage = record {
            id = page_id;
            object_count = 0;
            next_allocated_id = 0;
          } in
          let same : pages ++ (page ∷ []) ≡ pages' = some-inj (rw (confirm_page, room) at e) in
          subst (IsAllocated ids) same (record {
            full =
                All-snoc (λ p. p.next_allocated_id ≤ objects_per_page) pages page w.full
                  (omega arith);
            numbers =
                rw (map_snoc pages page)
                  (Distinct-snoc (map number pages) (page_id % 2 ^ 40) w.numbers new);
            below =
                All-imp (IsGiven pages) ids
                  (λ id (b, m). (
                    All-snoc (λ p. id / 2 ^ 24 ≡ number p → id % 2 ^ 24 < p.next_allocated_id) pages
                        page b
                        (λ is. absurd (
                          apart_from (page_id % 2 ^ 40) (id / 2 ^ 24) (map number pages) new m is)),
                    rw (map_snoc pages page)
                        (Memᴰ_snoc (id / 2 ^ 24) (page_id % 2 ^ 40) (map number pages) m),
                  ))
                  w.below;
            ids_distinct = w.ids_distinct;
          })
    ]

still-IsGiven :
    (pages : List MemoryPage) (id : ℕ) → IsGiven pages id → IsGiven (get_new_object_id pages).2 id
still-IsGiven pages id (b, m) = (still-Below id pages b, rw (same_numbers pages) m)

refused-IsAllocated :
    (ids : List ℕ) (pages : List MemoryPage)
    → IsAllocated ids pages
    → IsAllocated ids (get_new_object_id pages).2
refused-IsAllocated ids pages w = record {
  full = still_full pages w.full;
  numbers = rw (same_numbers pages) w.numbers;
  below = All-imp (IsGiven pages) ids (still-IsGiven pages) w.below;
  ids_distinct = w.ids_distinct;
}

given-IsAllocated :
    (ids : List ℕ) (pages : List MemoryPage)
    → IsAllocated ids pages
    → (get_new_object_id pages).0 ≡ true
    → IsAllocated ((get_new_object_id pages).1 ∷ ids) (get_new_object_id pages).2
given-IsAllocated ids pages w h = record {
  full = still_full pages w.full;
  numbers = rw (same_numbers pages) w.numbers;
  below = (
    (new_id-Below pages w.numbers h, rw (same_numbers pages) (new_id-Memᴰ pages h)),
    All-imp (IsGiven pages) ids (still-IsGiven pages) w.below,
  );
  ids_distinct =
      (All-imp (IsGiven pages) ids (λ id (b, _). new_id id pages h b) w.below, w.ids_distinct);
}

confirm_page-number :
    (pages pages' : List MemoryPage) (page_id : ℕ)
    → confirm_page pages page_id ≡ some pages'
    → map number pages' ≡ map number pages ++ ((page_id % 2 ^ 40) ∷ [])
unfolding confirm_page
confirm_page-number pages pages' page_id e = elim (Bool-cases (ltb (length pages) max_pages)) [
  | inr out ↦ let e' = rw (confirm_page, out) at e in absurd (cc)
  | inl room ↦
      let page : MemoryPage = record { id = page_id; object_count = 0; next_allocated_id = 0 } in
      subst (λ ps. map number ps ≡ map number pages ++ ((page_id % 2 ^ 40) ∷ []))
        (some-inj (rw (confirm_page, room) at e)) (map_snoc pages page)
]

All-init : (P : ℕ → Type 0) (ns : List ℕ) (n : ℕ) → All P (ns ++ (n ∷ [])) → All P ns × P n
All-init P [] n h = (tt, h.0)
All-init P (m ∷ ns) n h = let (i, l) = All-init P ns n h.1 in ((h.0, i), l)

Distinct-init :
    (ns : List ℕ) (n : ℕ) → Distinct (ns ++ (n ∷ [])) → Distinct ns × All (λ m. m ≢ n) ns
Distinct-init [] n d = (tt, tt)
Distinct-init (m ∷ ns) n d =
    let (i, l) = All-init (λ k. k ≢ m) ns n d.0 in
    let (ds, apart) = Distinct-init ns n d.1 in ((i, ds), (λ e. l (sym e), apart))

-- After any history of `ConfirmPage` and `GetNewObjectId` from no page, where the pages that it has
-- confirmed differ in their lower 40 bits: the object ids given are pairwise different, no page's
-- counter is above OBJECTS_PER_PAGE, and each id is below the counter of the page whose number it
-- carries.
pub get_new_object_id-IsAllocated :
    {ids : List ℕ} {pages : List MemoryPage}
    → Allocating ids pages
    → Distinct (map number pages)
    → IsAllocated ids pages
get_new_object_id-IsAllocated started d = record {
  full = tt;
  numbers = tt;
  below = tt;
  ids_distinct = tt;
}
get_new_object_id-IsAllocated
      (confirmed {ids = ids} {pages = pages} {pages' = pages'} page_id before e) d =
    let (old, new) =
      Distinct-init (map number pages) (page_id % 2 ^ 40)
        (subst Distinct (confirm_page-number pages pages' page_id e) d) in
    confirm_page-IsAllocated ids pages pages' page_id (get_new_object_id-IsAllocated before old) new
      e
get_new_object_id-IsAllocated (refused {ids = ids} {pages = pages} before e) d =
    subst (IsAllocated ids) (ap (λ r. r.2) e) (
      refused-IsAllocated ids pages (
        get_new_object_id-IsAllocated before
          (subst Distinct (ap (λ r. map number r.2) (sym e) ∙ same_numbers pages) d)))
get_new_object_id-IsAllocated (given {ids = ids} {pages = pages} before e) d =
    rw (ap (λ r. r.1) e, ap (λ r. r.2) e) at
      (given-IsAllocated ids pages
        (get_new_object_id-IsAllocated before
          (subst Distinct (ap (λ r. map number r.2) (sym e) ∙ same_numbers pages) d))
        (ap (λ r. r.0) e))
