-- ===== src/Delivery/Uploader/DeliverOne.antt =====
-- One delivery, with its freshness challenge (deliver_one of src/delivery/uploader.cpp).
use panopticon_agent.Prelude.{
  ℕ, Bool, ◌&&◌, ◌||◌, Option, none, some, List, [], ◌∷◌, ◌++◌, ltb, leb, ◌==◌, if◌then◌else◌,
  length, Text, codes, text_eq, all_chars, is_digit, to_string, Result, ok, err,
}
use panopticon_agent.Response.Command.Json.{
  Json, object, string, unsigned, Members, no_member, member, find,
}
use panopticon_agent.Delivery.Journal.Transact.{Platform, JournalError, DurableJournal}
use panopticon_agent.Delivery.Journal.Read.{JournalBatch, ndjson, peek}
use panopticon_agent.Delivery.Journal.Acknowledge.{acknowledge}
use panopticon_agent.Delivery.Uploader.{
  HealthState, healthy, degraded, unavailable, DeliveryError, journal_failure, manager_status,
  transport_failure, Uploader, HttpHeader, HttpResponse, DeliveryEnv, increment,
}

abbrev is_nonce_char : ℕ → Bool
is_nonce_char c = is_digit c || (leb b'a' c && leb c b'f')

abbrev string_value : Json → Option Text
string_value (string s) = some s
string_value _ = none

abbrev string_member : Text → Option Json → Option Text
string_member key (some (object ms)) = elim (find key ms) [ none ↦ none | some v ↦ string_value v ]
string_member key _ = none

-- The nonce of a challenge: 64 lower-case hexadecimal digits.
unfoldable pub nonce_of : Option Json → Option Text
nonce_of proof = elim (string_member (codes "nonce") proof) [
  | none ↦ none
  | some nonce ↦ if length nonce == 64 && all_chars is_nonce_char nonce then some nonce else none
]

-- `scope[key] = value`.
unfoldable pub set_member : Text → Json → Members → Members
set_member key value no_member = member key value no_member
set_member key value (member k v ms) =
    let rest = set_member key value ms in
    if text_eq k key then member k value ms else member k v rest

abbrev header : Text → Text → HttpHeader
header name value = record { name = name; value = value }

abbrev common_headers : JournalBatch → Uploader → List HttpHeader
common_headers batch u =
    header (codes "X-Panopticon-Batch-Id") batch.id
    ∷ header (codes "X-Panopticon-Agent-Id") u.agent_id
    ∷ header (codes "X-Panopticon-Protocol") (to_string batch.protocol)
    ∷ (if length u.config.bearer_token == 0
        then []
        else header (codes "Authorization") (codes "Bearer " ++ u.config.bearer_token) ∷ [])

abbrev challenge_nonce : Platform → Result Text HttpResponse → Option Text
challenge_nonce p (err e) = none
challenge_nonce p (ok r) = if r.status_code == 200 then nonce_of (p.parse r.body) else none

-- The headers that a valid challenge adds; none where the challenge failed.
unfoldable pub freshness :
    Platform → DeliveryEnv → JournalBatch → Members → Uploader → Option (List HttpHeader)
freshness p env batch scope u =
    elim (challenge_nonce p (
      env.post (u.config.manager_url ++ codes "/api/v2/endpoint/freshness-challenge")
        (header (codes "Content-Type") (codes "application/json") ∷ common_headers batch u)
        (codes "{}"))) [
          | none ↦ none
          | some nonce ↦ some (
              header (codes "X-Panopticon-Freshness-Nonce") nonce
              ∷ header (codes "X-Panopticon-Capture-Context") (
                  env.dump
                    (set_member (codes "send_uptime_ms") (string (to_string env.tick_count)) scope))
              ∷ [])
        ]

abbrev stale : Uploader → Uploader
stale u = record u {
  health = record u.health {
    freshness_challenge_failures = increment u.health.freshness_challenge_failures;
    capture_age_state = unavailable;
  };
}

-- A challenge that failed is counted, and adds no headers.
unfoldable pub challenged : Uploader → Option (List HttpHeader) → Uploader × List HttpHeader
challenged u none = (stale u, [])
challenged u (some headers) = (u, headers)

unfoldable pub challenge_scope :
    Platform → DeliveryEnv → JournalBatch → Uploader → Option Members → Uploader × List HttpHeader
challenge_scope p env batch u none = (u, [])
challenge_scope p env batch u (some scope) =
    if batch.protocol == 2 then challenged u (freshness p env batch scope u) else (u, [])

-- The uploader after the challenge, and the headers it adds. A batch of protocol 1, or one without
-- a scope, asks for none.
unfoldable pub challenge :
    Platform → DeliveryEnv → JournalBatch → Uploader → Uploader × List HttpHeader
challenge p env batch u = challenge_scope p env batch u u.capture_scope

-- `1`, `0` and `-1`.
pub data Outcome : Type 0 where
  acknowledged empty retry : Outcome

abbrev degrade : DeliveryError → Uploader → Uploader
degrade e u = record u {
  health = record u.health { transport_state = degraded; last_error = some e };
}

abbrev transport_failed : DeliveryError → Uploader → Uploader
transport_failed e u = degrade e (record u {
  health = record u.health { transport_failures = increment u.health.transport_failures };
})

abbrev receipt_failed : JournalError → Uploader → Uploader
receipt_failed e u = degrade (journal_failure e) (record u {
  health = record u.health { invalid_receipts = increment u.health.invalid_receipts };
})

-- The records of known capture age that the receipt counts.
unfoldable pub capture_age : ℕ → Option Json → HealthState
capture_age entries (some (object ms)) = elim (find (codes "capture_age_records") ms) [
  | some (unsigned n) ↦ if ltb 0 n && leb n entries then healthy else unavailable
  | _ ↦ unavailable
]
capture_age entries _ = unavailable

abbrev receipt_accepted : Platform → JournalBatch → Text → Uploader → Uploader
receipt_accepted p batch receipt u = record u {
  health = record u.health {
    transport_state = healthy;
    capture_age_state =
        if batch.protocol == 2
        then capture_age (length batch.entries) (p.parse receipt)
        else u.health.capture_age_state;
  };
}

-- After the receipt has been given to the journal.
unfoldable pub settle_receipt :
    Platform
    → JournalBatch
    → Text
    → Uploader
    → DurableJournal × Result JournalError (Unit {0})
    → Uploader × Outcome
settle_receipt p batch receipt u (j, ok _) =
    (receipt_accepted p batch receipt (record u { journal = j }), acknowledged)
settle_receipt p batch receipt u (j, err e) = (receipt_failed e (record u { journal = j }), retry)

unfoldable pub settle_response :
    Platform → DeliveryEnv → JournalBatch → Uploader → Result Text HttpResponse → Uploader × Outcome
settle_response p env batch u (err e) = (transport_failed (transport_failure e) u, retry)
settle_response p env batch u (ok r) =
    if r.status_code == 200
    then settle_receipt p batch r.body u (acknowledge p env.calls batch r.body u.journal)
    else (transport_failed (manager_status r.status_code) u, retry)

-- The address for the batch's protocol.
abbrev endpoint : JournalBatch → Uploader → Text
endpoint batch u =
    u.config.manager_url
    ++ (if batch.protocol == 2 then codes "/api/v2/endpoint/records" else codes "/api/v1/ingest")

unfoldable pub deliver_batch : Platform → DeliveryEnv → JournalBatch → Uploader → Uploader × Outcome
deliver_batch p env batch u =
    let (v, extra) = challenge p env batch u in
    settle_response p env batch v (
      env.post (endpoint batch u)
        ((header (codes "Content-Type") (codes "application/x-ndjson") ∷ common_headers batch u)
          ++ extra)
        (ndjson batch.entries))

-- An error of `peek` is thrown to the worker.
unfoldable pub deliver_peeked :
    Platform
    → DeliveryEnv
    → Uploader
    → Result JournalError (Option JournalBatch)
    → Uploader × Result JournalError Outcome
deliver_peeked p env u (err e) = (u, err e)
deliver_peeked p env u (ok none) = (u, ok empty)
deliver_peeked p env u (ok (some batch)) =
    let (v, outcome) = deliver_batch p env batch u in (v, ok outcome)

unfoldable pub deliver_one :
    Platform → DeliveryEnv → Uploader → Uploader × Result JournalError Outcome
deliver_one p env u = deliver_peeked p env u (peek p u.config.batch_max_events 8388608 u.journal)
