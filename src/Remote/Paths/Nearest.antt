-- ===== src/Remote/Paths/Nearest.antt =====
-- What the table of hives holds after a history of answers.
use hivelang.Prelude.{
  ℕ, suc, ◌-◌, ◌^◌, ◌<◌, ◌==◌, ◌≡◌, refl, ◌≢◌, sym, ap, ◌∙◌, ==_iff, Bool, true, false, Bool-cases,
  Option, none, some, inl, inr, List, [], ◌∷◌, All, some-inj, if◌then◌else◌, arith,
}
use mathlib.Core.List.{Memᴰ}
use mathlib.Core.List.Memᴰ.{head, tail}
use hivelang.Word.{signed_lt}
use hivelang.Remote.Paths.{PathValue, PathTable, learn_id_path}
use hivelang.Remote.Paths.Routes.{route, IsRoutes, id_path_after}
use hivelang.Remote.Paths.Learn.{learn_id_path-Learned}

-- An API_ANSWER_REQUEST_PATH_TO_ID that arrives: the hive, the connection, and the distance in it.
pub record PathAnswer : Type 0 where
  pub global_id : ℕ
  pub local_id : ℕ
  pub distance : ℕ

-- The paths that the answers about a hive offer.
abbrev pub about : ℕ → List PathAnswer → List PathValue
about key [] = []
about key (a ∷ answers) =
    let rest = about key answers in
    if a.global_id == key
    then record { local_id = a.local_id; distance = a.distance } ∷ rest
    else rest

-- A table that starts with no path and takes answers, the last one first in the list. `myMalloc`
-- gives addresses that are free.
pub data Learning : List PathAnswer → PathTable → Type 0 where
  started :
      {p : PathTable} (keys : List ℕ)
      → IsRoutes p keys
      → ((k : ℕ) → route p k ≡ none)
      → Learning [] p
  answered :
      {answers : List PathAnswer} {p : PathTable} (a : PathAnswer) (fuel : ℕ) (addresses : ℕ → ℕ)
      {taken : Bool} {p' : PathTable}
      → Learning answers p
      → addresses (suc fuel) ≢ 0
      → p.values (addresses (suc fuel)) ≡ none
      → a.distance < 2 ^ 64
      → a.distance ≢ 2 ^ 63 - 1
      → learn_id_path (suc (suc fuel)) addresses p a.global_id a.local_id a.distance
        ≡ some (taken, p')
      → Learning (a ∷ answers) p'

-- A path is one of those offered, and none of them is nearer; there is none where none was offered.
abbrev pub IsNearest : Option PathValue → List PathValue → Type 0
IsNearest none offers = offers ≡ []
IsNearest (some v) offers =
    Memᴰ v offers × All (λ o. signed_lt o.distance v.distance ≡ false) offers

not_nearer_trans :
    (a b c : ℕ) → signed_lt a b ≡ true → signed_lt c b ≡ false → signed_lt c a ≡ false
unfolding signed_lt
not_nearer_trans a b c h₁ h₂ = ground arith

signed_lt_irrefl : (a : ℕ) → signed_lt a a ≡ false
unfolding signed_lt
signed_lt_irrefl a = ground arith

All-not_nearer :
    (d e : ℕ) (offers : List PathValue)
    → signed_lt d e ≡ true
    → All (λ o. signed_lt o.distance e ≡ false) offers
    → All (λ o. signed_lt o.distance d ≡ false) offers
All-not_nearer d e [] nearer all = tt
All-not_nearer d e (o ∷ offers) nearer all =
    (not_nearer_trans d e o.distance nearer all.0, All-not_nearer d e offers nearer all.1)

-- One more offer.
offer-IsNearest :
    (known : Option PathValue) (offers : List PathValue) (local_id distance : ℕ)
    → IsNearest known offers
    → IsNearest
        (id_path_after known local_id distance)
        (record { local_id = local_id; distance = distance } ∷ offers)
offer-IsNearest none offers local_id distance h = rw h (head refl, (signed_lt_irrefl distance, tt))
offer-IsNearest (some v) offers local_id distance h =
    elim (Bool-cases (signed_lt distance v.distance)) [
      | inl nearer ↦ rw nearer (
        head refl,
        (signed_lt_irrefl distance, All-not_nearer distance v.distance offers nearer h.1),
      )
      | inr farther ↦ rw farther (tail h.0, (farther, h.1))
    ]

-- After any history of answers about hives, in any order, that started with no path known: the
-- table of paths is well formed, and the path that it holds for a hive is one that an answer
-- offered, at its distance, and no answer about that hive offered a nearer one; a hive that no
-- answer was about has no path. The distances are words other than the greatest `int64_t`, and
-- `myMalloc` gives free addresses.
pub learn_id_path-IsNearest :
    {answers : List PathAnswer} {p : PathTable}
    → Learning answers p
    → ((keys : List ℕ) × IsRoutes p keys)
      × ((key : ℕ) → IsNearest (route p key) (about key answers))
learn_id_path-IsNearest (started keys w nothing) = ((keys, w), λ key. rw (nothing key) refl)
learn_id_path-IsNearest
      (answered {answers = answers} {p = p} a fuel addresses {p' = p'} before some_address fresh
        word less e) =
    let ((keys, w), nearest) = learn_id_path-IsNearest before in
    let (p₁, keys₁, e₁, w₁, routes) =
      learn_id_path-Learned addresses p keys a.global_id a.local_id a.distance fuel w some_address
        fresh word less in
    let same : p₁ ≡ p' = ap (λ x. x.1) (some-inj (sym e₁ ∙ e)) in
    let ends : ((keys : List ℕ) × IsRoutes p₁ keys)
        × ((key : ℕ) → IsNearest (route p₁ key) (about key (a ∷ answers))) =
      (
        (keys₁, w₁),
        λ key. elim (Bool-cases (a.global_id == key)) [
          | inl one ↦
              let is_key : a.global_id ≡ key = (==_iff a.global_id key).0 one in
              rw (routes key, one)
                (rw is_key (
                  offer-IsNearest (route p key) (about key answers) a.local_id a.distance
                    (nearest key)))
          | inr other ↦ rw (routes key, other) (nearest key)
        ],
      ) in
    rw same at ends
