-- ===== src/Delivery/Journal/Append.antt =====
-- The acceptance of observations, and the checkpoints of their sources (src/delivery/journal.cpp).
use panopticon_agent.Prelude.{
  ℕ, ◌+◌, ◌-◌, ◌*◌, ◌/◌, Bool, true, false, not, ◌&&◌, ◌||◌, Option, none, some, [], ltb, leb, ◌==◌,
  if◌then◌else◌, length, Text, codes, text_eq, all_chars, some_row, bit, Result, ok, err, ◌>>=◌,
  require, or_fail,
}
use panopticon_agent.Response.Command.Json.{Json, object, string, Members, find}
use panopticon_agent.Delivery.Journal.Db.{
  Db, has_key, archive_key, next_archive_seq, insert_observation, insert_archived, insert_indexed,
  retained_bytes,
}
use panopticon_agent.Delivery.Journal.Transact.{
  Platform, CallEnv, JournalConfig, JournalError, digest_failed, seal_failed, invalid_observation,
  retention_exhausted, DurableJournal, admit_growth, transact, with_digest,
}

-- A JSON value that is this string.
abbrev pub is_string : Text → Option Json → Bool
is_string s (some (string t)) = text_eq t s
is_string s _ = false

abbrev pub is_object : (Members → Bool) → Option Json → Bool
is_object p (some (object ms)) = p ms
is_object p _ = false

abbrev pub has_member : Text → Members → Bool
has_member key ms = elim (find key ms) [ none ↦ false | some _ ↦ true ]

abbrev is_canonical : Members → Bool
is_canonical ms =
    is_string (codes "1.0") (find (codes "schema_version") ms) && has_member (codes "kind") ms

-- A canonical record is of protocol 2, and every other line of protocol 1.
unfoldable pub protocol_of : Option Json → ℕ
protocol_of document = if is_object is_canonical document then 2 else 1

abbrev is_start_event : Members → Bool
is_start_event ms = is_string (codes "start") (find (codes "type") ms)

abbrev has_start_event : Members → Bool
has_start_event ms = is_object is_start_event (find (codes "event") ms)

abbrev is_process_change : Members → Bool
is_process_change ms =
    is_string (codes "observation") (find (codes "kind") ms)
    && (is_string (codes "process_stop") (find (codes "category") ms)
        || (is_string (codes "process") (find (codes "category") ms)
            && is_object has_start_event (find (codes "data") ms)))

-- A canonical observation of the start or the stop of a process.
unfoldable pub is_lifecycle : Option Json → Bool
is_lifecycle document = is_object is_canonical document && is_object is_process_change document

abbrev pub optional_digest : Platform → Option Text → Result JournalError Text
optional_digest p none = ok []
optional_digest p (some entity) = or_fail (p.digest entity) digest_failed

unfoldable pub index_process : Platform → ℕ → Option Json → Db → Result JournalError Db
index_process p sequence document db =
    let fact = p.graph_fact document in
    optional_digest p fact.entity_id >>= λ entity.
    optional_digest p fact.parent_entity_id >>= λ parent. ok (
      insert_indexed
        (record {
          history_seq = sequence;
          entity_digest = entity;
          parent_digest = parent;
          quality = if fact.interpretable then elim fact.entity_id [ none ↦ 1 | some _ ↦ 0 ] else 2;
        })
        db)

-- The test of the retention quota for `copies` new copies of `size` bytes.
unfoldable pub fits_retention : ℕ → ℕ → ℕ → ℕ → Bool
fits_retention limit retained copies size =
    not (ltb (limit / copies) size || ltb (limit - copies * size) retained)

-- The row of `process_history`, with its index.
unfoldable pub archive : Platform → Text → Text → ℕ → Option Json → Db → Result JournalError Db
archive p key encrypted size document db =
    index_process p (next_archive_seq db.process_history) document
      (insert_archived key encrypted size db)

-- `Impl::insert`; the storage sample of its `admit_growth` is number 0.
unfoldable pub insert :
    Platform → JournalConfig → CallEnv → Text → Text → Db → Result JournalError Db
insert p c env line key db =
    let document = p.parse line in
    let pending_exists = some_row (has_key key) db.observations in
    let lifecycle = is_lifecycle document in
    let archives = lifecycle && not (some_row (archive_key key) db.process_history) in
    if pending_exists && not archives
    then ok db
    else (let copies = bit (not pending_exists) + bit archives in
        require (fits_retention c.retained_payload_limit (retained_bytes db) copies (length line))
          retention_exhausted
        >>= λ _. or_fail (env.seal key line) seal_failed >>= λ encrypted.
            admit_growth c (env.sample 0) (length encrypted * copies) >>= λ _.
            (if archives then archive p key encrypted (length line) document db else ok db)
            >>= λ archived. ok (
                if pending_exists
                then archived
                else insert_observation key encrypted (length line) (protocol_of document)
                    archived))

abbrev not_blank : ℕ → Bool
not_blank c = not (c == b' ' || c == 9)

abbrev not_newline : ℕ → Bool
not_newline c = not (c == 10 || c == 13)

-- A line that is not blank, not several lines, and within the limit.
unfoldable pub is_observation : JournalConfig → Text → Bool
is_observation c line =
    not (all_chars (λ ch. not (not_blank ch)) line)
    && all_chars not_newline line
    && leb (length line) c.event_size_limit

-- The database afterwards, with no value.
abbrev pub done : Result JournalError Db → Result JournalError (Db × Unit {0})
done r = r >>= λ db. ok (db, tt)

unfoldable pub append :
    Platform → CallEnv → Text → DurableJournal → DurableJournal × Result JournalError (Unit {0})
append p env line j =
    if is_observation j.config line
    then with_digest (p.digest line)
        (λ key. transact env (λ db. done (insert p j.config env line key db)) j) j
    else (j, err invalid_observation)
