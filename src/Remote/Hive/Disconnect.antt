-- ===== src/Remote/Hive/Disconnect.antt =====
-- A peer that disconnects: the receive loop `Worker` of remote.c. The sockets that are closed and the
-- structs that are freed are left out.
use hivelang.Prelude.{
  ℕ, zero, suc, ◌+◌, ◌-◌, ◌<◌, ◌==◌, ◌≡◌, ◌≢◌, ◌↔◌, ◌⊎◌, inl, inr, refl, sym, ap, ◌∙◌, subst, true,
  Option, some, ◌>>=◌, List, [], ◌∷◌, length, get_elem?, set, take, arith, Bool-cases, some-inj,
  ==_refl, ==_iff, length-set, length-take, get_elem?_lt, lt_of_get_elem?, get_elem?-set_self,
  get_elem?-set_ne, ℕ_discrete,
}
use hivelang.Remote.Connection.{HiveConnection, get_connection_by_id}
use hivelang.Remote.Hive.{Hive}
use hivelang.Remote.Hive.Connect.{remove_connection}

-- `index` is not set where no connection has the identifier: nothing is said of what comes then.
unfoldable pub disconnect : Hive → ℕ → Option Hive
disconnect hive con = do
  connection ← get_elem? hive.connections con
  (index, found) ← get_connection_by_id hive.connections connection.local_id
  connections ← remove_connection hive.connections index
  some (record hive { connections = connections })

abbrev pub Stands : List HiveConnection → HiveConnection → Type 0
Stands cs d = (j : ℕ) × (get_elem? cs j ≡ some d)

-- No two entries of the table have one identifier.
abbrev pub IsOwn : List HiveConnection → Type 0
IsOwn cs =
    (i j : ℕ) (c d : HiveConnection)
    → get_elem? cs i ≡ some c
    → get_elem? cs j ≡ some d
    → c.local_id ≡ d.local_id
    → i ≡ j

get_elem?-take_lt {ℓ} :
    {A : Type ℓ} (n : ℕ) (xs : List A) (j : ℕ) → j < n → get_elem? (take n xs) j ≡ get_elem? xs j
get_elem?-take_lt zero xs j h = absurd (omega arith)
get_elem?-take_lt (suc n) [] j h = refl
get_elem?-take_lt (suc n) (x ∷ xs) zero h = refl
get_elem?-take_lt (suc n) (x ∷ xs) (suc j) h = get_elem?-take_lt n xs j (omega arith)

lt_of_get_elem?-take {ℓ} :
    {A : Type ℓ} (n : ℕ) (xs : List A) (j : ℕ) (d : A) → get_elem? (take n xs) j ≡ some d → j < n
lt_of_get_elem?-take zero xs j d h = absurd (cc)
lt_of_get_elem?-take (suc n) [] j d h = absurd (cc)
lt_of_get_elem?-take (suc n) (x ∷ xs) zero d h = omega arith
lt_of_get_elem?-take (suc n) (x ∷ xs) (suc j) d h = omega (arith, lt_of_get_elem?-take n xs j d h)

get_connection_by_id_lem :
    (cs : List HiveConnection) (i : ℕ) (c : HiveConnection)
    → get_elem? cs i ≡ some c
    → (k : ℕ) × (found : HiveConnection) × (get_connection_by_id cs c.local_id ≡ some (k, found))
      × (get_elem? cs k ≡ some found)
      × (found.local_id ≡ c.local_id)
unfolding get_connection_by_id
get_connection_by_id_lem [] i c h = absurd (cc)
get_connection_by_id_lem (x ∷ cs) zero c h =
    let same : x ≡ c = some-inj h in
    let e : (x.local_id == c.local_id) ≡ true =
      subst (λ (y : HiveConnection). (x.local_id == y.local_id) ≡ true) same (==_refl x.local_id) in
    (zero, x, rw (get_connection_by_id, e) refl, refl, ap (λ (y : HiveConnection). y.local_id) same)
get_connection_by_id_lem (x ∷ cs) (suc i) c h = elim (Bool-cases (x.local_id == c.local_id)) [
  | inl e ↦ (zero, x, rw (get_connection_by_id, e) refl, refl, (==_iff x.local_id c.local_id).0 e)
  | inr e ↦
      let (k, found, run, at, same) = get_connection_by_id_lem cs i c h in
      let up : k + 1 ≡ suc k = omega arith in
      (
        suc k,
        found,
        rw (get_connection_by_id, e) (rw (run) (ap (λ n. some (n, found)) up)),
        at,
        same,
      )
]

-- Where an entry of the smaller table stood: the last one has moved to the place that is free.
origin :
    (cs : List HiveConnection) (n i : ℕ) (last : HiveConnection)
    → length cs ≡ suc n
    → i < length cs
    → get_elem? cs n ≡ some last
    → (j : ℕ) (d : HiveConnection) → get_elem? (take n (set cs i last)) j ≡ some d
    → (k : ℕ) × (get_elem? cs k ≡ some d) × (k ≢ i) × (j < n) × (((j ≡ i) × (k ≡ n)) ⊎ (j ≡ k))
origin cs n i last size inside at_last j d h =
    let below : j < n = lt_of_get_elem?-take n (set cs i last) j d h in
    let read : get_elem? (set cs i last) j ≡ some d =
      sym (get_elem?-take_lt n (set cs i last) j below) ∙ h in
    elim (ℕ_discrete j i) [
      | yes e ↦ (
        n,
        at_last
            ∙ sym (get_elem?-set_self cs i last inside)
            ∙ subst (λ x. get_elem? (set cs i last) x ≡ some d) e read,
        λ e'. absurd (omega arith),
        below,
        inl (e, refl),
      )
      | no ne ↦
          (j, sym (get_elem?-set_ne cs i j last (λ e. ne (sym e))) ∙ read, ne, below, inr refl)
    ]

stays :
    (cs : List HiveConnection) (n i : ℕ) (last : HiveConnection)
    → length cs ≡ suc n
    → i < length cs
    → get_elem? cs n ≡ some last
    → (j : ℕ) (d : HiveConnection) → get_elem? cs j ≡ some d
    → j ≢ i
    → Stands (take n (set cs i last)) d
stays cs n i last size inside at_last j d h ne =
    let bound = lt_of_get_elem? cs j d h in
    let moved : j < n ⊎ (j ≡ n) = omega arith in
    elim moved [
      | inl below ↦ (
        j,
        get_elem?-take_lt n (set cs i last) j below
            ∙ get_elem?-set_ne cs i j last (λ e. ne (sym e))
            ∙ h,
      )
      | inr end ↦ (
        i,
        get_elem?-take_lt n (set cs i last) i (omega arith)
            ∙ get_elem?-set_self cs i last inside
            ∙ sym at_last
            ∙ subst (λ x. get_elem? cs x ≡ some d) end h,
      )
    ]

-- A peer that disconnects takes its own entry out of the table and no other, where no two entries
-- have one identifier; the table is shorter by one, and again no two entries have one identifier.
pub disconnect-Removed :
    (hive : Hive) (con : ℕ) (c : HiveConnection)
    → IsOwn hive.connections
    → get_elem? hive.connections con ≡ some c
    → (hive' : Hive) × (disconnect hive con ≡ some hive')
      × IsOwn hive'.connections
      × (length hive.connections ≡ length hive'.connections + 1)
      × ((d : HiveConnection)
          → Stands hive'.connections d ↔ (Stands hive.connections d × (d.local_id ≢ c.local_id)))
unfolding disconnect remove_connection
disconnect-Removed hive con c own at =
    let cs = hive.connections in
    let n = length cs - 1 in
    let inside = lt_of_get_elem? cs con c at in
    let size : length cs ≡ suc n = omega arith in
    let (last, at_last) = get_elem?_lt cs n (omega arith) in
    let (k, found, run, at_k, same) = get_connection_by_id_lem cs con c at in
    let here : k ≡ con = own k con found c at_k at same in
    let from = origin cs n k last size (lt_of_get_elem? cs k found at_k) at_last in
    let to = stays cs n k last size (lt_of_get_elem? cs k found at_k) at_last in
    (
      record hive { connections = take n (set cs k last) },
      rw (disconnect, at) (rw (run) (rw (remove_connection, at_last) refl)),
      λ i j a b h h' e.
          let (i', hi, ni, bi, wi) = from i a h in
          let (j', hj, nj, bj, wj) = from j b h' in
          let one = own i' j' a b hi hj e in
          elim wi [
            | inl (wi0, wi1) ↦ elim wj [ inl (wj0, wj1) ↦ omega arith | inr wj0 ↦ omega arith ]
            | inr wi0 ↦ elim wj [ inl (wj0, wj1) ↦ omega arith | inr wj0 ↦ omega arith ]
          ],
      omega (arith, length-take n (set cs k last), length-set cs k last),
      λ d. (
        λ (j, h).
            let (j', h', ne, b, w) = from j d h in
            ((j', h'), λ e. ne (own j' k d found h' at_k (e ∙ sym same))),
        λ ((j, h), ne). to j d h (λ e. ne (
            ap (λ (y : HiveConnection). y.local_id) (some-inj (sym h ∙ ap (get_elem? cs) e ∙ at_k))
            ∙ same)),
      ),
    )
