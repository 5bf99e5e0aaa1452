-- ===== src/Delivery/Journal/Acknowledge.antt =====
-- Receipts of delivered batches, and the rebuilding of the process index
-- (src/delivery/journal.cpp).
use panopticon_agent.Prelude.{
  ℕ, zero, suc, ◌+◌, ◌-◌, ◌%◌, Bool, true, false, not, ◌&&◌, ◌||◌, Option, none, some, List, [],
  ◌∷◌, ◌++◌, ltb, leb, ◌==◌, if◌then◌else◌, length, take, get_elem?, Text, codes, text_eq, some_row,
  count, select, size_mod, Result, ok, err, ◌>>=◌, require, or_fail,
}
use panopticon_agent.Response.Command.Json.{
  Json, null, object, array, string, unsigned, Elements, no_element, element, Members, find,
}
use panopticon_agent.Delivery.Journal.Db.{
  Db, Archived, Indexed, is_pending_key, delete_pending, bury_pending, retained_bytes,
}
use panopticon_agent.Delivery.Journal.Transact.{
  Platform, CallEnv, JournalConfig, JournalError, seal_failed, unseal_failed, receipt_size,
  receipt_shape, receipt_mismatch, receipt_unaccounted, rejection_line, rejection_semantics,
  rejection_detail, rejection_identity, rejection_retention, invalid_batch_limits, oversized_head,
  DurableJournal, admit_growth, transact,
}
use panopticon_agent.Delivery.Journal.Append.{index_process, done}
use panopticon_agent.Delivery.Journal.Command.{fits_one}
use panopticon_agent.Delivery.Journal.Read.{JournalEntry, JournalBatch, is_batch_limit}

-- `value.at(key)`: an error where the value is no object or has no such member.
unfoldable pub member_at : Text → Json → Result JournalError Json
member_at key (object ms) = or_fail (find key ms) receipt_shape
member_at key _ = err receipt_shape

-- `get<std::string>`.
unfoldable pub string_of : Json → Result JournalError Text
string_of (string s) = ok s
string_of _ = err receipt_shape

-- `is_number_unsigned`, and the number.
abbrev unsigned_of : Json → Result JournalError ℕ
unsigned_of (unsigned n) = ok n
unsigned_of _ = err receipt_shape

unfoldable pub receipt_count : Json → Text → Result JournalError ℕ
receipt_count value name = member_at name value >>= unsigned_of

unfoldable pub elements : Elements → List Json
elements no_element = []
elements (element v es) = v ∷ elements es

unfoldable pub array_of : Json → Result JournalError (List Json)
array_of (array es) = ok (elements es)
array_of _ = err receipt_mismatch

-- `object.value(key, std::string{})`.
unfoldable pub string_or_empty : Text → Members → Result JournalError Text
string_or_empty key ms = elim (find key ms) [ none ↦ ok [] | some v ↦ string_of v ]

-- The record that the observation says it is.
abbrev names_record : Text → Members → Result JournalError (Unit {0})
names_record event_id ms = string_or_empty (codes "record_id") ms >>= λ id.
    require (text_eq id event_id) rejection_identity

abbrev names_event : Text → Members → Option Json → Result JournalError (Unit {0})
names_event event_id ms (some (object event)) = string_or_empty (codes "id") event >>= λ id.
    if text_eq id event_id then ok tt else names_record event_id ms
names_event event_id ms _ = names_record event_id ms

-- The observation that the rejection names is the one on its line.
unfoldable pub check_identity : Text → Option Json → Result JournalError (Unit {0})
check_identity event_id (some (object ms)) = names_event event_id ms (find (codes "event") ms)
check_identity event_id _ = err rejection_identity

abbrev check_event_id : Platform → Text → Option Json → Result JournalError (Unit {0})
check_event_id p body none = ok tt
check_event_id p body (some null) = ok tt
check_event_id p body (some v) = string_of v >>= λ event_id. check_identity event_id (p.parse body)

abbrev members_of : Json → Result JournalError Members
members_of (object ms) = ok ms
members_of _ = err receipt_shape

unfoldable pub is_reason : Text → Bool
is_reason reason =
    text_eq reason (codes "schema_invalid")
    || text_eq reason (codes "unsupported_schema_version")
    || text_eq reason (codes "json_invalid")

-- `reasons[index]`, which has been read already.
unfoldable pub has_reason : ℕ → List (Option Text) → Bool
has_reason index reasons = elim (get_elem? reasons index) [
  | some (some _) ↦ true
  | some none ↦ false
  | none ↦ false
]

abbrev pub set_reason : ℕ → Text → List (Option Text) → List (Option Text)
set_reason index reason [] = []
set_reason zero reason (r ∷ rs) = some reason ∷ rs
set_reason (suc index) reason (r ∷ rs) = r ∷ set_reason index reason rs

abbrev body_at : ℕ → List JournalEntry → Text
body_at index entries = elim (get_elem? entries index) [ none ↦ [] | some e ↦ e.body ]

-- The checks of one rejection, and its reason at its line.
unfoldable pub check_rejection :
    Platform
    → JournalBatch
    → ℕ
    → Json
    → List (Option Text)
    → Result JournalError (List (Option Text))
check_rejection p batch received rejection reasons =
    receipt_count rejection (codes "line") >>= λ line.
    require (not (line == 0 || ltb received line || has_reason (line - 1) reasons)) rejection_line
    >>= λ _. (member_at (codes "reason") rejection >>= string_of) >>= λ reason.
        require (is_reason reason) rejection_semantics >>= λ _.
        (member_at (codes "detail") rejection >>= string_of) >>= λ detail.
        require (leb (length detail) 16384) rejection_detail >>= λ _. members_of rejection >>= λ ms.
        check_event_id p (body_at (line - 1) batch.entries) (find (codes "event_id") ms) >>= λ _.
        ok (set_reason (line - 1) (reason ++ codes ": " ++ detail) reasons)

unfoldable pub check_rejections :
    Platform
    → JournalBatch
    → ℕ
    → List Json
    → List (Option Text)
    → Result JournalError (List (Option Text))
check_rejections p batch received [] reasons = ok reasons
check_rejections p batch received (r ∷ rs) reasons =
    check_rejection p batch received r reasons >>= check_rejections p batch received rs

abbrev pub no_reasons : List JournalEntry → List (Option Text)
no_reasons [] = []
no_reasons (e ∷ es) = none ∷ no_reasons es

-- The value is the batch's id.
abbrev is_batch_id : Text → Json → Bool
is_batch_id id (string s) = text_eq s id
is_batch_id id _ = false

-- The reason for each observation that the receipt rejects; an error where it does not account for
-- every observation of the batch.
unfoldable pub read_receipt :
    Platform → JournalBatch → Text → Result JournalError (List (Option Text))
read_receipt p batch receipt =
    require (not (length batch.entries == 0 || ltb 262144 (length receipt))) receipt_size >>= λ _.
    or_fail (p.parse receipt) receipt_shape >>= λ ack.
    receipt_count ack (codes "received") >>= λ received.
    receipt_count ack (codes "accepted") >>= λ accepted.
    receipt_count ack (codes "duplicates") >>= λ duplicates.
    member_at (codes "batch_id") ack >>= λ batch_id.
    require
      (is_batch_id batch.id batch_id
        && received == length batch.entries
        && leb accepted received
        && leb duplicates received)
      receipt_mismatch
    >>= λ _. (member_at (codes "rejected") ack >>= array_of) >>= λ rejected.
        require (((accepted + duplicates) % size_mod + length rejected) % size_mod == received)
          receipt_unaccounted
        >>= λ _. check_rejections p batch received rejected (no_reasons batch.entries)

-- `DELETE`, and the counter of the acknowledged where one row went.
abbrev pub acknowledge_accepted : Text → Db → Db
acknowledge_accepted key db =
    let left = delete_pending key db in
    if count (is_pending_key key) db.observations == 1
    then record left {
      counters = record left.counters { acknowledged = left.counters.acknowledged + 1 };
    }
    else left

-- `UPDATE`, and the checks before it where the observation is still pending.
unfoldable pub acknowledge_rejected :
    JournalConfig → CallEnv → ℕ → Text → Text → Db → Result JournalError Db
acknowledge_rejected c env index key reason db =
    let existing = some_row (is_pending_key key) db.observations in
    require (not existing || fits_one c.retained_payload_limit (retained_bytes db) (length reason))
      rejection_retention
    >>= λ _. or_fail (env.seal key reason) seal_failed >>= λ encrypted.
        (if existing then admit_growth c (env.sample index) (length encrypted) else ok tt) >>= λ _.
        ok (bury_pending key encrypted (length reason) db)

-- The loop over the batch; `index` numbers the storage samples.
unfoldable pub apply_receipt :
    JournalConfig
    → CallEnv
    → ℕ
    → List JournalEntry
    → List (Option Text)
    → Db
    → Result JournalError Db
apply_receipt c env index [] reasons db = ok db
apply_receipt c env index (e ∷ es) [] db = ok db
apply_receipt c env index (e ∷ es) (none ∷ rs) db =
    apply_receipt c env (suc index) es rs (acknowledge_accepted e.key db)
apply_receipt c env index (e ∷ es) (some reason ∷ rs) db =
    acknowledge_rejected c env index e.key reason db >>= apply_receipt c env (suc index) es rs

-- The transaction for the reasons that the receipt gives.
unfoldable pub retire :
    CallEnv
    → List JournalEntry
    → Result JournalError (List (Option Text))
    → DurableJournal
    → DurableJournal × Result JournalError (Unit {0})
retire env entries (err e) j = (j, err e)
retire env entries (ok reasons) j =
    transact env (λ db. done (apply_receipt j.config env 0 entries reasons db)) j

unfoldable pub acknowledge :
    Platform
    → CallEnv
    → JournalBatch
    → Text
    → DurableJournal
    → DurableJournal × Result JournalError (Unit {0})
acknowledge p env batch receipt j = retire env batch.entries (read_receipt p batch receipt) j

-- `LEFT JOIN process_graph_index ... IS NULL`.
abbrev pub is_unindexed : List Indexed → Archived → Bool
is_unindexed index r = not (some_row (λ i. i.history_seq == r.seq) index)

-- The loop over the rows without an index; it gives their number too.
unfoldable pub rebuild_rows :
    Platform
    → JournalConfig
    → CallEnv
    → ℕ
    → ℕ
    → ℕ
    → List Archived
    → Db
    → Result JournalError (Db × ℕ)
rebuild_rows p c env max_bytes rebuilt bytes [] db = ok (db, rebuilt)
rebuild_rows p c env max_bytes rebuilt bytes (r ∷ rs) db =
    or_fail (p.unseal r.key r.payload) unseal_failed >>= λ body.
    if ltb (max_bytes - bytes) (length body + 1)
    then if rebuilt == 0 then err oversized_head else ok (db, rebuilt)
    else (admit_growth c (env.sample rebuilt) 256 >>= λ _.
        index_process p r.seq (p.parse body) db
        >>= rebuild_rows p c env max_bytes (rebuilt + 1) (bytes + (length body + 1)) rs)

unfoldable pub rebuild_process_graph :
    Platform → CallEnv → ℕ → ℕ → DurableJournal → DurableJournal × Result JournalError ℕ
rebuild_process_graph p env max_events max_bytes j =
    if is_batch_limit max_events max_bytes
    then transact env
        (λ db.
          rebuild_rows p j.config env max_bytes 0 0
            (take max_events (select (is_unindexed db.process_graph_index) db.process_history)) db)
        j
    else (j, err invalid_batch_limits)
