-- ===== src/Remote/Hive/Confirm.antt =====
-- A broadcast of remote.c is confirmed when all hives that it was sent on to have answered.
use hivelang.Prelude.{
  ℕ, ◌+◌, ◌^◌, ◌<◌, ◌==◌, ◌≡◌, refl, ◌≢◌, ap, ◌∙◌, Bool, true, false, ◌&&◌, Bool-cases, Option,
  none, some, ◌>>=◌, inl, inr, List, [], ◌∷◌, if◌then◌else◌, ltb, leb, ℕ_discrete, ne→==, write,
  arith,
}
use hivelang.Prelude.Slots.{to_nat, count}
use hivelang.Table.Layered.{view}
use hivelang.Hash.Bytes.{same_bytes}
use hivelang.Hash.Keys.{byte_keys, same_bytes_iff, get_hashtable}
use hivelang.Hash.Lookup.{get-Found}
use hivelang.Hash.Pointers.{
  entry, IsPointers, entry-known, entry-unknown, same-IsPointers, written-Entered,
}
use hivelang.Remote.Hive.{BroadcastValue, BroadcastTable}
use hivelang.Remote.Hive.Broadcasts.{increment32}
use hivelang.Remote.Hive.Replies.{count_answer}

-- One more answer.
abbrev pub counted : BroadcastValue → BroadcastValue
counted v = record v { answered = increment32 v.answered }

abbrev pub count_known : Option BroadcastValue → Option BroadcastValue
count_known none = none
count_known (some v) = some (counted v)

-- The broadcast when the answer is the last one.
abbrev pub completed : Option BroadcastValue → Option BroadcastValue
completed none = none
completed (some v) =
    if (counted v).answered == (counted v).requested then some (counted v) else none

abbrev pub Counted : BroadcastTable → List (List ℕ) → List ℕ → Type 0
Counted p keys key =
    (p' : BroadcastTable) × (count_answer p key ≡ some (completed (entry byte_keys p key), p'))
    × IsPointers byte_keys p' keys
    × ((k : List ℕ)
        → entry byte_keys p' k
          ≡ (if same_bytes key k then count_known (entry byte_keys p key) else entry byte_keys p k))

module _ (p : BroadcastTable) (keys : List (List ℕ)) (key : List ℕ)
    (w : IsPointers byte_keys p keys) where
  -- No such broadcast: the answer is ignored.
  unknown-Counted : view byte_keys p.table key ≡ 0 → Counted p keys key
  unfolding count_answer get_hashtable
  unknown-Counted z =
      let (t', got, w', same) = get-Found byte_keys p.table keys key w.valid in
      let (ok, entries) = same-IsPointers byte_keys p keys w t' keys w' same in
      let nothing = entry-unknown byte_keys p keys w key z in
      (
        record { table = t'; values = p.values },
        rw (nothing, count_answer, get_hashtable, got) (rw (◌>>=◌, z) refl),
        ok,
        λ k. entries k ∙ elim (Bool-cases (same_bytes key k)) [
          | inl one ↦
              let is_key : key ≡ k = (same_bytes_iff key k).0 one in
              rw (one, nothing) (rw (← is_key) nothing)
          | inr other ↦ rw other refl
        ],
      )

  known-Counted : view byte_keys p.table key ≢ 0 → Counted p keys key
  unfolding count_answer get_hashtable
  known-Counted there =
      let (t', got, w', same) = get-Found byte_keys p.table keys key w.valid in
      let (v, at, is) = entry-known byte_keys p keys w key there in
      let (ok, entries) =
        written-Entered byte_keys p keys w t' keys w' key (counted v) same there in
      let some_address = ne→== (view byte_keys p.table key) 0 there in
      (
        record {
          table = t';
          values = write p.values (view byte_keys p.table key) (some (counted v));
        },
        elim (Bool-cases ((counted v).answered == (counted v).requested)) [
          | inl last ↦
              rw (is, last, count_answer, get_hashtable, got)
                (rw (◌>>=◌, some_address) (rw (at) (rw (◌>>=◌, last) refl)))
          | inr more ↦
              rw (is, more, count_answer, get_hashtable, got)
                (rw (◌>>=◌, some_address) (rw (at) (rw (◌>>=◌, more) refl)))
        ],
        ok,
        rw (is) entries,
      )

  pub count_answer-Counted : Counted p keys key
  count_answer-Counted = elim (ℕ_discrete (view byte_keys p.table key) 0) [
    | yes z ↦ unknown-Counted z
    | no there ↦ known-Counted there
  ]

abbrev pub is_some : Option BroadcastValue → Bool
is_some none = false
is_some (some v) = true

-- Answers that arrive, to any broadcasts and in any order; the number of those that complete `key`.
unfoldable pub confirmations : List ℕ → BroadcastTable → List (List ℕ) → Option (ℕ × BroadcastTable)
confirmations key p [] = some (0, p)
confirmations key p (broadcast_id ∷ answers) = do
  (last, p') ← count_answer p broadcast_id
  (n, p₂) ← confirmations key p' answers
  some (to_nat (same_bytes broadcast_id key && is_some last) + n, p₂)

-- How many of the answers are to `key`.
abbrev pub times : List ℕ → List (List ℕ) → ℕ
times key = count (λ broadcast_id. same_bytes broadcast_id key)

-- 1 when the last answer that is needed is among the next `m`, else 0.
abbrev pub due : BroadcastValue → ℕ → ℕ
due v m = to_nat (ltb v.answered v.requested && leb v.requested (v.answered + m))

due_next :
    (v : BroadcastValue) (m : ℕ)
    → v.answered + (1 + m) < 2 ^ 32
    → to_nat (is_some (completed (some v))) + due (counted v) m ≡ due v (1 + m)
due_next v m h =
    let one_more : increment32 v.answered ≡ v.answered + 1 = omega (arith, h) in
    rw (one_more) (ground arith)

plus_zero : (n : ℕ) → 0 + n ≡ n
plus_zero n = omega arith

pub due_nothing : (v : BroadcastValue) → due v 0 ≡ 0
due_nothing v = ground arith

-- Answers that arrive in any order, to this broadcast and to any others: of those to a known
-- broadcast exactly one completes it when enough of them come, and none when they do not; so that
-- it is confirmed once, at the answer that makes `answered` equal `requested`. The counter does not
-- wrap around, and the table is one that its addresses lead from to different structs.
pub confirmations-due :
    (key : List ℕ) (answers : List (List ℕ)) (p : BroadcastTable) (keys : List (List ℕ))
    (v : BroadcastValue)
    → IsPointers byte_keys p keys
    → entry byte_keys p key ≡ some v
    → v.answered + times key answers < 2 ^ 32
    → (p' : BroadcastTable) × (confirmations key p answers ≡ some (due v (times key answers), p'))
unfolding confirmations
confirmations-due key [] p keys v w known fits = (p, rw (due_nothing v) refl)
confirmations-due key (b ∷ answers) p keys v w known fits =
    let (p₁, e₁, w₁, entries) = count_answer-Counted p keys b w in
    elim (Bool-cases (same_bytes b key)) [
      | inl one ↦
          let is_key : b ≡ key = (same_bytes_iff b key).0 one in
          let here : entry byte_keys p b ≡ some v = rw is_key known in
          let next : entry byte_keys p₁ key ≡ some (counted v) =
            entries key ∙ rw (one, here) refl in
          let fits' : v.answered + (1 + times key answers) < 2 ^ 32 = rw one at fits in
          let (p₂, e₂) =
            confirmations-due key answers p₁ keys (counted v) w₁ next (omega (arith, fits')) in
          let total : to_nat (same_bytes b key && is_some (completed (entry byte_keys p b)))
                + due (counted v) (times key answers)
              ≡ due v (times key (b ∷ answers)) =
            rw (one, here) (due_next v (times key answers) fits') in
          (p₂, rw (confirmations, e₁) (rw (◌>>=◌, e₂) (ap (λ n. some (n, p₂)) total)))
      | inr other ↦
          let next : entry byte_keys p₁ key ≡ some v = entries key ∙ rw (other, known) refl in
          let same : times key (b ∷ answers) ≡ times key answers =
            rw other (plus_zero (times key answers)) in
          let fits' : v.answered + times key answers < 2 ^ 32 = rw same at fits in
          let (p₂, e₂) = confirmations-due key answers p₁ keys v w₁ next fits' in
          let total : to_nat (same_bytes b key && is_some (completed (entry byte_keys p b)))
                + due v (times key answers)
              ≡ due v (times key (b ∷ answers)) =
            rw (same, other) (plus_zero (due v (times key answers))) in
          (p₂, rw (confirmations, e₁) (rw (◌>>=◌, e₂) (ap (λ n. some (n, p₂)) total)))
    ]
