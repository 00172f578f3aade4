-- ===== src/Remote/Hive/Answers.antt =====
-- What `HandleApiCall` returns: 0 ends the connection.
use hivelang.Prelude.{
  ℕ, ◌≤◌, arith, ◌↔◌, ◌≡◌, refl, ◌≢◌, sym, ap, ◌⊎◌, inl, inr, Option, none, some, some-inj,
  Option-cases, List,
}
use hivelang.Remote.Connection.{HiveConnection, get_connection_by_id}
use hivelang.Remote.Delivery.{int64_at}
use hivelang.Remote.Hive.{Hive, System}
use hivelang.Remote.Hive.Connect.{take_over, handle_answer_request_connection}
use hivelang.Remote.Hive.Switch.{
  ApiCall, request_connection, answer_request_connection, request_id, answer_request_id,
  request_mem_page, answer_request_mem_page, query_object, answer_query, push_object, answer_push,
  request_path, answer_request_path, request_path_to_id, answer_path_to_id, call_worker,
  get_hive_state, call_codes, find_call, returns_one, handle_call, handle_api_call,
}

-- The codes with a case in the switch, as numbers: requests and answers 0 to 9, the two calls without
-- an answer, and the requests and answers about identifiers of hives. API_QUERY_PIPE (36),
-- API_PUSH_PIPE (38) and their answers have none.
abbrev pub HasCase : ℕ → Type 0
HasCase c = (c ≤ 9) ⊎ (c ≡ 16) ⊎ (c ≡ 18) ⊎ ((252 ≤ c) × (c ≤ 255))

-- A code without a case, or the answer (1) to a request of a connection that is not there.
abbrev pub IsRefused : Hive → ℕ → List ℕ → Type 0
IsRefused hive res_api_call res_buffer =
    (¬ HasCase res_api_call)
    ⊎ ((res_api_call ≡ 1) × (get_connection_by_id hive.connections (int64_at res_buffer 0) ≡ none))

find_call-HasCase :
    (c : ℕ) (call : ApiCall)
    → find_call call_codes c ≡ some call
    → HasCase c × ((c ≡ 1) ↔ (call ≡ answer_request_connection))
find_call-HasCase c call e = ground arith

find_call-none : (c : ℕ) → find_call call_codes c ≡ none → ¬ HasCase c
find_call-none c e = ground arith

returns_one_lem : (r : Option Hive) (n : ℕ) (hive' : Hive) → returns_one r ≡ some (n, hive') → n ≡ 1
returns_one_lem none n hive' e = absurd (cc)
returns_one_lem (some h) n hive' e = sym (ap (λ x. x.0) (some-inj e))

module _ (sys : System) (upper_bytes : ℕ) (hive : Hive) (con : ℕ) (res_buffer : List ℕ) where
  abbrev sought : Option (ℕ × HiveConnection)
  sought = get_connection_by_id hive.connections (int64_at res_buffer 0)

  -- Either 1, or 0 with nothing changed.
  abbrev Returns : ApiCall → ℕ → Hive → Type 0
  Returns call n hive' =
      ((n ≡ 1) × (call ≡ answer_request_connection → sought ≢ none))
      ⊎ ((n ≡ 0) × (hive' ≡ hive) × (call ≡ answer_request_connection) × (sought ≡ none))

  answer_request_connection-Returns :
      (n : ℕ) (hive' : Hive)
      → handle_answer_request_connection hive con res_buffer ≡ some (n, hive')
      → Returns answer_request_connection n hive'
  unfolding handle_answer_request_connection
  answer_request_connection-Returns n hive' e = elim (Option-cases sought) [
    | inl gone ↦
        let e' : some (0, hive) ≡ some (n, hive') =
          rw (handle_answer_request_connection, gone) at e in
        let same = some-inj e' in
        inr (sym (ap (λ x. x.0) same), sym (ap (λ x. x.1) same), refl, gone)
    | inr ((index, old_con), there) ↦
        let e' : returns_one (take_over hive con index old_con) ≡ some (n, hive') =
          rw (handle_answer_request_connection, there) at e in
        inl (returns_one_lem (take_over hive con index old_con) n hive' e', λ _ gone. cc)
  ]

  call-Returns :
      (call : ApiCall) (n : ℕ) (hive' : Hive)
      → handle_call sys upper_bytes hive con res_buffer call ≡ some (n, hive')
      → Returns call n hive'
  unfolding handle_call
  call-Returns answer_request_connection n hive' e = answer_request_connection-Returns n hive' e
  call-Returns request_connection n hive' e = inl (returns_one_lem _ n hive' e, λ is. absurd (cc))
  call-Returns request_id n hive' e = inl (returns_one_lem _ n hive' e, λ is. absurd (cc))
  call-Returns answer_request_id n hive' e = inl (returns_one_lem _ n hive' e, λ is. absurd (cc))
  call-Returns request_mem_page n hive' e = inl (returns_one_lem _ n hive' e, λ is. absurd (cc))
  call-Returns answer_request_mem_page n hive' e =
      inl (returns_one_lem _ n hive' e, λ is. absurd (cc))
  call-Returns query_object n hive' e = inl (returns_one_lem _ n hive' e, λ is. absurd (cc))
  call-Returns answer_query n hive' e = inl (returns_one_lem _ n hive' e, λ is. absurd (cc))
  call-Returns push_object n hive' e = inl (returns_one_lem _ n hive' e, λ is. absurd (cc))
  call-Returns answer_push n hive' e = inl (returns_one_lem _ n hive' e, λ is. absurd (cc))
  call-Returns request_path n hive' e = inl (returns_one_lem _ n hive' e, λ is. absurd (cc))
  call-Returns answer_request_path n hive' e = inl (returns_one_lem _ n hive' e, λ is. absurd (cc))
  call-Returns request_path_to_id n hive' e = inl (returns_one_lem _ n hive' e, λ is. absurd (cc))
  call-Returns answer_path_to_id n hive' e = inl (returns_one_lem _ n hive' e, λ is. absurd (cc))
  call-Returns call_worker n hive' e = inl (returns_one_lem _ n hive' e, λ is. absurd (cc))
  call-Returns get_hive_state n hive' e = inl (returns_one_lem _ n hive' e, λ is. absurd (cc))

  answered_lem :
      (res_api_call n : ℕ) (hive' : Hive)
      → handle_api_call sys upper_bytes hive con res_api_call res_buffer ≡ some (n, hive')
      → ((n ≡ 1) × ¬ IsRefused hive res_api_call res_buffer)
        ⊎ ((n ≡ 0) × (hive' ≡ hive) × IsRefused hive res_api_call res_buffer)
  unfolding handle_api_call
  answered_lem res_api_call n hive' e = elim (Option-cases (find_call call_codes res_api_call)) [
    | inl unknown ↦
        let e' : some (0, hive) ≡ some (n, hive') = rw (handle_api_call, unknown) at e in
        let same = some-inj e' in
        inr (
          sym (ap (λ x. x.0) same),
          sym (ap (λ x. x.1) same),
          inl (find_call-none res_api_call unknown),
        )
    | inr (call, known) ↦
        let e' : handle_call sys upper_bytes hive con res_buffer call ≡ some (n, hive') =
          rw (handle_api_call, known) at e in
        let (case, first) = find_call-HasCase res_api_call call known in
        elim (call-Returns call n hive' e') [
          | inl (one, there) ↦ inl (
            one,
            λ refused. elim refused [
              | inl unknown ↦ absurd (unknown case)
              | inr (is, gone) ↦ there (first.0 is) gone
            ],
          )
          | inr (zero', kept, is, gone) ↦ inr (zero', kept, inr (first.1 is, gone))
        ]
  ]

  refused_lem :
      (res_api_call : ℕ)
      → IsRefused hive res_api_call res_buffer
      → handle_api_call sys upper_bytes hive con res_api_call res_buffer ≡ some (0, hive)
  unfolding handle_api_call handle_call handle_answer_request_connection
  refused_lem res_api_call (inl unknown) = elim (Option-cases (find_call call_codes res_api_call)) [
    | inl e ↦ rw (handle_api_call, e) refl
    | inr (call, known) ↦ absurd (unknown (find_call-HasCase res_api_call call known).0)
  ]
  refused_lem res_api_call (inr (one, gone)) =
      rw (one) (rw (handle_api_call, handle_call, handle_answer_request_connection, gone) refl)

  -- For any call, connection, buffer and answers of the system: `HandleApiCall` returns 0, which ends
  -- the connection, exactly for a code without a case in the switch and for an
  -- API_ANSWER_REQUEST_CONNECTION that names a connection that is not there, and then nothing of the
  -- hive is changed; where it returns from another call, it returns 1.
  pub handle_api_call-IsRefused :
      (res_api_call : ℕ)
      → (IsRefused hive res_api_call res_buffer
          ↔ (handle_api_call sys upper_bytes hive con res_api_call res_buffer ≡ some (0, hive)))
        × ((n : ℕ) (hive' : Hive)
            → handle_api_call sys upper_bytes hive con res_api_call res_buffer ≡ some (n, hive')
            → (n ≡ 1) ⊎ ((n ≡ 0) × (hive' ≡ hive)))
  handle_api_call-IsRefused res_api_call = (
    (
      refused_lem res_api_call,
      λ e. elim (answered_lem res_api_call 0 hive e) [
        | inl (one, _) ↦ absurd (omega arith)
        | inr (_, _, refused) ↦ refused
      ],
    ),
    λ n hive' e. elim (answered_lem res_api_call n hive' e) [
      | inl (one, _) ↦ inl one
      | inr (zero', kept, _) ↦ inr (zero', kept)
    ],
  )
