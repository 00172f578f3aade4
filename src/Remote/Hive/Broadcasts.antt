-- ===== src/Remote/Hive/Broadcasts.antt =====
-- How the hives agree on the identifiers of hives and on pages: the broadcasts of remote.c and their
-- answers.
use hivelang.Prelude.{
  ℕ, zero, suc, ◌+◌, ◌*◌, ◌%◌, ◌^◌, ◌==◌, Bool, true, false, not, ◌&&◌, ◌||◌, Option, none, some,
  ◌>>=◌, List, [], ◌∷◌, get_elem?, take, if◌then◌else◌, Memory, write, value_at,
}
use hivelang.Word.{signed_lt}
use hivelang.Hash.Keys.{Hashtable, get_hashtable, set_hashtable, i64_get_hashtable}
use hivelang.Remote.Bytes.{le_value}
use hivelang.Remote.Connection.{HiveConnection}
use hivelang.Remote.Send.{
  send_id_confirm, send_page_allocation_confirm, redirect_broadcast_id_query,
  redirect_broadcast_query,
}
use hivelang.Remote.Delivery.{int64_at}
use hivelang.Remote.Pages.{MemoryPage, confirm_page}
use hivelang.Remote.Hive.{Hive, System, BroadcastValue, minus_one, with_connection, broadcast_id_at}

-- `++` of an `_Atomic int32_t`
abbrev pub increment32 : ℕ → ℕ
increment32 n = (n + 1) % 2 ^ 32

-- `ConfirmID`: only a hive without an identifier takes one.
unfoldable pub confirm_id : Hive → ℕ → Hive
confirm_id hive confirmed_id =
    if hive.this_server_id == minus_one then record hive { this_server_id = confirmed_id } else hive

abbrev pub confirm_new_page : Hive → ℕ → Option Hive
confirm_new_page hive page_id = do
  pages ← confirm_page hive.pages page_id
  some (record hive { pages = pages })

-- The draws of SECURE_RANDOM until `SetHashtable` takes one as a new key: the key, and the table.
unfoldable pub new_broadcast_id : ℕ → (ℕ → List ℕ) → Hashtable → ℕ → Option (List ℕ × Hashtable)
new_broadcast_id zero random t address = none
new_broadcast_id (suc fuel) random t address = do
  (result, t') ← set_hashtable t (random fuel) address 0
  elim (result == 0) [
    | true ↦ some (random fuel, t')
    | false ↦ new_broadcast_id fuel random t' address
  ]

-- A broadcast of this hive or of another one that was sent on to some hives.
abbrev pub sent_on : ℕ → ℕ → ℕ → BroadcastValue
sent_on id local_redirect_id sent = record {
  id = id;
  local_redirect_id = local_redirect_id;
  answered = 0;
  requested = sent % 2 ^ 32;
}

unfoldable pub request_server_id : System → Hive → ℕ → Option Hive
request_server_id sys hive new_id = do
  (broadcast_id, t) ← new_broadcast_id sys.fuel sys.random hive.get_id_broadcasts.table sys.address
  let (connections, sent) =
      redirect_broadcast_id_query hive.connections new_id broadcast_id minus_one
  let broadcast = sent_on new_id minus_one sent
  let hive' = record hive {
    connections = connections;
    get_id_broadcasts = record {
      table = t;
      values = write hive.get_id_broadcasts.values sys.address (some broadcast);
    };
  }
  elim (broadcast.requested == 0) [ true ↦ some (confirm_id hive' new_id) | false ↦ some hive' ]

unfoldable pub request_memory_page : System → Hive → ℕ → Option Hive
request_memory_page sys hive page_id = do
  (broadcast_id, t) ←
      new_broadcast_id sys.fuel sys.random hive.get_page_broadcasts.table sys.address
  let (connections, sent) = redirect_broadcast_query hive.connections page_id broadcast_id minus_one
  let broadcast = sent_on page_id minus_one sent
  let hive' = record hive {
    connections = connections;
    get_page_broadcasts = record {
      table = t;
      values = write hive.get_page_broadcasts.values sys.address (some broadcast);
    };
  }
  elim (broadcast.requested == 0) [ true ↦ confirm_new_page hive' page_id | false ↦ some hive' ]

-- A known broadcast is confirmed to who did not start it, and, when all answers are there, to who
-- did.
abbrev pub confirms : BroadcastValue → HiveConnection → Bool
confirms broadcast c =
    not (broadcast.local_redirect_id == c.local_id) || broadcast.answered == broadcast.requested

-- The last part of API_REQUEST_ID and of API_REQUEST_MEM_PAGE; the pointer is not NULL (`assert`).
abbrev pub answer_known :
    Hive → ℕ → Memory BroadcastValue → ℕ → (HiveConnection → HiveConnection) → Option Hive
answer_known hive con values broadcast confirm = do
  value ← value_at values broadcast
  with_connection hive con (λ c. if confirms value c then confirm c else c)

unfoldable pub handle_request_id : System → Hive → ℕ → List ℕ → Option Hive
handle_request_id sys hive con res_buffer =
    let want_id = int64_at res_buffer 0 in
    let broadcast_id = broadcast_id_at res_buffer 8 in
    let confirm : HiveConnection → HiveConnection = λ c. send_id_confirm c broadcast_id in
    elim (hive.this_server_id == want_id) [
      | true ↦ some hive
      | false ↦ do
        (timeout, get_id_ids) ← i64_get_hashtable hive.get_id_ids want_id
        let hive₁ = record hive { get_id_ids = get_id_ids }
        elim (not (timeout == 0) && signed_lt sys.ticks timeout) [
          | true ↦ some hive₁
          | false ↦ do
            let known = hive.get_id_broadcasts
            (broadcast, t) ← get_hashtable known.table broadcast_id
            elim (broadcast == 0) [
              | false ↦
                  answer_known (record hive₁ { get_id_broadcasts = record known { table = t } }) con
                    known.values broadcast confirm
              | true ↦ do
                c ← get_elem? hive.connections con
                (result, t') ← set_hashtable t broadcast_id sys.address 0
                elim (result == 0) [
                  | true ↦
                      let (connections, sent) =
                        redirect_broadcast_id_query hive.connections want_id broadcast_id
                          c.local_id in
                      let value = sent_on want_id c.local_id sent in
                      let hive₂ = record hive₁ {
                        connections = connections;
                        get_id_broadcasts = record {
                          table = t';
                          values = write known.values sys.address (some value);
                        };
                      } in
                      elim (value.requested == 0) [
                        | true ↦ with_connection hive₂ con confirm
                        | false ↦ some hive₂
                      ]
                  | false ↦ do
                    (found, t₂) ← get_hashtable t' broadcast_id
                    answer_known (record hive₁ { get_id_broadcasts = record known { table = t₂ } })
                        con known.values found confirm
                ]
            ]
        ]
    ]

-- `pages[i].id == page_id`
abbrev pub is_page : List MemoryPage → ℕ → Bool
is_page [] page_id = false
is_page (p ∷ pages) page_id = p.id == page_id || is_page pages page_id

-- The code leaves the upper three bytes of `page_id` as they were on the stack: they are a
-- parameter. New broadcasts are looked for in `get_page_broadcasts` and entered in
-- `get_id_broadcasts`.
unfoldable pub handle_request_mem_page : System → ℕ → Hive → ℕ → List ℕ → Option Hive
handle_request_mem_page sys upper_bytes hive con res_buffer =
    let page_id = le_value (take 5 res_buffer) + 2 ^ 40 * (upper_bytes % 2 ^ 24) in
    let broadcast_id = broadcast_id_at res_buffer 5 in
    let confirm : HiveConnection → HiveConnection =
      λ c. send_page_allocation_confirm c broadcast_id in
    elim (is_page hive.pages page_id) [
      | true ↦ some hive
      | false ↦ do
        (timeout, get_page_ids) ← i64_get_hashtable hive.get_page_ids page_id
        let hive₁ = record hive { get_page_ids = get_page_ids }
        elim (not (timeout == 0) && signed_lt sys.ticks timeout) [
          | true ↦ some hive₁
          | false ↦ do
            let known = hive.get_page_broadcasts
            let entered = hive.get_id_broadcasts
            (broadcast, t) ← get_hashtable known.table broadcast_id
            let hive₂ = record hive₁ { get_page_broadcasts = record known { table = t } }
            elim (broadcast == 0) [
              | false ↦ answer_known hive₂ con known.values broadcast confirm
              | true ↦ do
                c ← get_elem? hive.connections con
                (result, t') ← set_hashtable entered.table broadcast_id sys.address 0
                elim (result == 0) [
                  | true ↦
                      let (connections, sent) =
                        redirect_broadcast_query hive.connections page_id broadcast_id c.local_id in
                      let value = sent_on page_id c.local_id sent in
                      let hive₃ = record hive₂ {
                        connections = connections;
                        get_id_broadcasts = record {
                          table = t';
                          values = write entered.values sys.address (some value);
                        };
                      } in
                      elim (value.requested == 0) [
                        | true ↦ with_connection hive₃ con confirm
                        | false ↦ some hive₃
                      ]
                  | false ↦ do
                    (found, t₂) ← get_hashtable t' broadcast_id
                    answer_known
                        (record hive₂ { get_id_broadcasts = record entered { table = t₂ } }) con
                        entered.values found confirm
                ]
            ]
        ]
    ]
