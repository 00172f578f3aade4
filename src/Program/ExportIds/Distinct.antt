-- ===== src/Program/ExportIds/Distinct.antt =====
-- Different workers have different numbers.
use hivelang.Prelude.{
  ℕ, zero, suc, ◌<◌, ◌==◌, ◌&&◌, ◌≡◌, ◌↔◌, refl, ap, ap₂, sym, subst, ◌∙◌, Bool, true, false, some,
  List, [], ◌∷◌, length, get_elem?, inl, inr, arith, Bool-cases, Option-cases, some-inj, ==_refl,
  ==_iff,
}
use hivelang.Program.ExportIds.{
  Key, same_text, same_key, ExportWorkerId, find, get_export_worker_id, export_ids,
}

same_text_refl : (xs : List ℕ) → same_text xs xs ≡ true
unfolding same_text
same_text_refl [] = refl
same_text_refl (x ∷ xs) = rw (==_refl x, same_text_refl xs) refl

eq_of_same_text : (xs ys : List ℕ) → same_text xs ys ≡ true → xs ≡ ys
unfolding same_text
eq_of_same_text [] [] h = refl
eq_of_same_text [] (y ∷ ys) h = absurd (cc)
eq_of_same_text (x ∷ xs) [] h = absurd (cc)
eq_of_same_text (x ∷ xs) (y ∷ ys) h =
    let (e, e') = both (x == y) (same_text xs ys) h in
    ap₂ (λ z zs. z ∷ zs) ((==_iff x y).0 e) (eq_of_same_text xs ys e')
  where
    both : (b c : Bool) → (b && c) ≡ true → (b ≡ true) × (c ≡ true)
    both true true q = (refl, refl)
    both true false q = absurd (cc)
    both false c q = absurd (cc)

same_key_refl : (k : Key) → same_key k k ≡ true
same_key_refl (a, p) = rw (==_refl a, same_text_refl p) refl

eq_of_same_key : (k l : Key) → same_key k l ≡ true → k ≡ l
eq_of_same_key (a, p) (b, q) h =
    let (e, e') = both (a == b) (same_text p q) h in
    ap₂ (λ x y. (x, y)) ((==_iff a b).0 e) (eq_of_same_text p q e')
  where
    both : (c d : Bool) → (c && d) ≡ true → (c ≡ true) × (d ≡ true)
    both true true h' = (refl, refl)
    both true false h' = absurd (cc)
    both false d h' = absurd (cc)

-- Each entry's number is the number of entries before it.
abbrev IsCounted : ExportWorkerId → Type 0
IsCounted [] = Unit
IsCounted ((k, id) ∷ table) = (id ≡ length table) × IsCounted table

find_lt :
    (table : ExportWorkerId) (key : Key) (id : ℕ)
    → IsCounted table
    → find table key ≡ some id
    → id < length table
unfolding find
find_lt [] key id counted e = absurd (cc)
find_lt ((k, n) ∷ table) key id (here, counted) e = elim (Bool-cases (same_key k key)) [
  | inl t ↦ let same : n ≡ id = some-inj (rw (find, t) at e) in omega arith
  | inr f ↦ let less = find_lt table key id counted (rw (find, f) at e) in omega arith
]

find-injective :
    (table : ExportWorkerId) (key key' : Key) (id : ℕ)
    → IsCounted table
    → find table key ≡ some id
    → find table key' ≡ some id
    → key ≡ key'
unfolding find
find-injective [] key key' id counted e e' = absurd (cc)
find-injective ((k, n) ∷ table) key key' id (here, counted) e e' =
    elim (Bool-cases (same_key k key)) [
      | inl t ↦ elim (Bool-cases (same_key k key')) [
        | inl t' ↦ sym (eq_of_same_key k key t) ∙ eq_of_same_key k key' t'
        | inr f' ↦
            let same : n ≡ id = some-inj (rw (find, t) at e) in
            let less = find_lt table key' id counted (rw (find, f') at e') in absurd (omega arith)
      ]
      | inr f ↦ elim (Bool-cases (same_key k key')) [
        | inl t' ↦
            let same : n ≡ id = some-inj (rw (find, t') at e') in
            let less = find_lt table key id counted (rw (find, f) at e) in absurd (omega arith)
        | inr f' ↦
            find-injective table key key' id counted (rw (find, f) at e) (rw (find, f') at e')
      ]
    ]

-- What a request answers is found from then on, and so is what was found before.
request_lem :
    (table : ExportWorkerId) (key : Key)
    → IsCounted table
    → let (id, table') = get_export_worker_id table key in
      IsCounted table'
      × (find table' key ≡ some id)
      × ((k : Key) (n : ℕ) → find table k ≡ some n → find table' k ≡ some n)
unfolding get_export_worker_id find
request_lem table key counted = elim (Option-cases (find table key)) [
  | inr (id, e) ↦ rw (get_export_worker_id, e) (counted, e, λ k n h. h)
  | inl e ↦
      rw (get_export_worker_id, e)
        (
          (refl, counted),
          rw (find, same_key_refl key) refl,
          λ k n h. elim (Bool-cases (same_key key k)) [
            | inl t ↦
                let found : find table key ≡ some n =
                  subst (λ l. find table l ≡ some n) (sym (eq_of_same_key key k t)) h in
                absurd (cc (found, e))
            | inr f ↦ rw (find, f) h
          ],
        )
]

-- Two requests answer the same number just when they ask for the same worker and provider.
abbrev pub IsNumbering : List Key → List ℕ → Type 0
IsNumbering keys ids =
    (i j : ℕ) (k l : Key) (a b : ℕ)
    → get_elem? keys i ≡ some k
    → get_elem? keys j ≡ some l
    → get_elem? ids i ≡ some a
    → get_elem? ids j ≡ some b
    → (a ≡ b) ↔ (k ≡ l)

-- A table in which all answers are found.
abbrev Collected : ExportWorkerId → List Key → List ℕ → ExportWorkerId → Type 0
Collected table keys ids table' =
    IsCounted table'
    × ((k : Key) (n : ℕ) → find table k ≡ some n → find table' k ≡ some n)
    × ((i : ℕ) (k : Key) (n : ℕ)
        → get_elem? keys i ≡ some k
        → get_elem? ids i ≡ some n
        → find table' k ≡ some n)
    × (length ids ≡ length keys)

export_ids-Collected :
    (keys : List Key) (table : ExportWorkerId)
    → IsCounted table
    → (table' : ExportWorkerId) × Collected table keys (export_ids table keys) table'
unfolding export_ids
export_ids-Collected [] table counted =
    (table, (counted, λ k n h. h, λ i k n h h'. absurd (cc), refl))
export_ids-Collected (key ∷ keys) table counted =
    let (id, table₁) = get_export_worker_id table key in
    let (counted₁, found, kept) = request_lem table key counted in
    let (table', (counted', kept', all_found, size)) = export_ids-Collected keys table₁ counted₁ in
    (
      table',
      (
        counted',
        λ k n h. kept' k n (kept k n h),
        λ i k n h h'.
            answer table' key id (export_ids table₁ keys) (kept' key id found) all_found i k n h h',
        ap suc size,
      ),
    )
  where
    answer :
        (t : ExportWorkerId) (first : Key) (number : ℕ) (ids : List ℕ)
        → find t first ≡ some number
        → ((i : ℕ) (k : Key) (n : ℕ)
            → get_elem? keys i ≡ some k
            → get_elem? ids i ≡ some n
            → find t k ≡ some n)
        → (i : ℕ) (k : Key) (n : ℕ) → get_elem? (first ∷ keys) i ≡ some k
        → get_elem? (number ∷ ids) i ≡ some n
        → find t k ≡ some n
    answer t first number ids here later zero k n h h' =
        subst (λ x. find t x ≡ some n) (some-inj h) (here ∙ h')
    answer t first number ids here later (suc i) k n h h' = later i k n h h'

-- Of the requests for numbers that a compilation makes, in any order and number, each is answered,
-- and two answer the same number just when they ask for the same worker and provider.
pub export_ids-IsNumbering :
    (keys : List Key)
    → (length (export_ids [] keys) ≡ length keys) × IsNumbering keys (export_ids [] keys)
export_ids-IsNumbering keys =
    let (table, (counted, kept, found, size)) = export_ids-Collected keys [] tt in
    (
      size,
      λ i j k l a b at_i at_j id_i id_j. (
        λ same.
            find-injective table k l a counted (found i k a at_i id_i)
              (found j l b at_j id_j ∙ ap some (sym same)),
        λ same.
            some-inj (sym (found i k a at_i id_i) ∙ ap (find table) same ∙ found j l b at_j id_j),
      ),
    )
