-- ===== src/Delivery/Journal/Read.antt =====
-- What the journal hands out: batches for delivery, pages for inspection, dead letters, pending
-- commands and its statistics (src/delivery/journal.cpp).
use panopticon_agent.Prelude.{
  ℕ, ◌+◌, ◌-◌, Bool, true, false, not, ◌&&◌, ◌||◌, Option, none, some, List, [], ◌∷◌, ◌++◌, map,
  ltb, leb, ◌==◌, if◌then◌else◌, length, take, Text, codes, text_eq, select, first, Result, ok, err,
  ◌>>=◌, require, or_fail,
}
use panopticon_agent.Delivery.Journal.Db.{
  Observation, Archived, CommandRow, CommandState, received, executing, result_ready, outboxed,
  is_pending, is_dead,
}
use panopticon_agent.Delivery.Journal.Transact.{
  Platform, JournalError, digest_failed, unseal_failed, invalid_batch_limits, oversized_head,
  command_bounds, DurableJournal,
}
use panopticon_agent.Delivery.Journal.Command.{command_entropy, result_entropy, is_bounded}

pub record JournalEntry : Type 0 where
  pub key : Text
  pub body : Text

pub record JournalBatch : Type 0 where
  pub id : Text
  pub protocol : ℕ
  pub entries : List JournalEntry

pub record JournalInspectionEntry : Type 0 where
  pub local_sequence : ℕ
  pub protocol : ℕ
  pub original : JournalEntry

pub record JournalDeadLetter : Type 0 where
  pub original : JournalEntry
  pub reason : Text

pub record JournalCommand : Type 0 where
  pub key : Text
  pub scope : Text
  pub body : Text
  pub state : CommandState
  pub result : Text

-- `JournalBatch::ndjson` of these entries.
unfoldable pub ndjson : List JournalEntry → Text
ndjson [] = []
ndjson (e ∷ es) = e.body ++ (10 ∷ ndjson es)

abbrev pub is_batch_limit : ℕ → ℕ → Bool
is_batch_limit max_events max_bytes =
    not (max_events == 0 || ltb 1000 max_events || max_bytes == 0 || ltb 8388608 max_bytes)

-- The loop over the rows that a query gives. `size` bytes are taken so far; a body that does not fit
-- ends the loop, and is an error where it is the first.
unfoldable pub fill :
    Platform
    → ℕ
    → ℕ
    → Bool
    → List JournalInspectionEntry
    → Result JournalError (List JournalInspectionEntry)
fill p max_bytes size is_first [] = ok []
fill p max_bytes size is_first (r ∷ rs) =
    or_fail (p.unseal r.original.key r.original.body) unseal_failed >>= λ body.
    if ltb (max_bytes - size) (length body + 1)
    then if is_first then err oversized_head else ok []
    else (fill p max_bytes (size + (length body + 1)) false rs >>= λ entries.
        ok (record r { original = record { key = r.original.key; body = body } } ∷ entries))

-- The columns of a row, its body sealed. A row id is at least 1, so that the test
-- `sequence <= 0` is never true.
abbrev pub sealed_row : Observation → JournalInspectionEntry
sealed_row r = record {
  local_sequence = r.seq;
  protocol = r.protocol;
  original = record { key = r.key; body = r.payload };
}

abbrev pub sealed_archive : Archived → JournalInspectionEntry
sealed_archive r = record {
  local_sequence = r.seq;
  protocol = 2;
  original = record { key = r.key; body = r.payload };
}

-- `WHERE state='pending' AND protocol=?`.
abbrev pub is_sendable : ℕ → Observation → Bool
is_sendable protocol r = is_pending r && r.protocol == protocol

unfoldable pub joined_keys : List JournalInspectionEntry → Text
joined_keys [] = []
joined_keys (e ∷ es) = e.original.key ++ (10 ∷ joined_keys es)

abbrev pub original_entry : JournalInspectionEntry → JournalEntry
original_entry e = e.original

-- The batch of these entries.
unfoldable pub batch_of :
    Platform → ℕ → List JournalInspectionEntry → Result JournalError (Option JournalBatch)
batch_of p protocol [] = ok none
batch_of p protocol (e ∷ es) = or_fail (p.digest (joined_keys (e ∷ es))) digest_failed >>= λ hash.
    ok (
      some (record {
        id = codes "journal_" ++ hash;
        protocol = protocol;
        entries = map original_entry (e ∷ es);
      }))

unfoldable pub peek : Platform → ℕ → ℕ → DurableJournal → Result JournalError (Option JournalBatch)
peek p max_events max_bytes j =
    require (is_batch_limit max_events max_bytes) invalid_batch_limits >>= λ _.
    elim (first is_pending j.db.observations) [
      | none ↦ ok none
      | some head ↦
          fill p max_bytes 0 true (
            map sealed_row (take max_events (select (is_sendable head.protocol) j.db.observations)))
          >>= batch_of p head.protocol
    ]

-- `INT64_MAX`.
abbrev pub max_cursor : ℕ
max_cursor = 9223372036854775807

abbrev pub is_after : ℕ → Observation → Bool
is_after after r = is_pending r && ltb after r.seq

unfoldable pub inspect_pending :
    Platform → ℕ → ℕ → ℕ → DurableJournal → Result JournalError (List JournalInspectionEntry)
inspect_pending p after max_events max_bytes j =
    require (is_batch_limit max_events max_bytes && leb after max_cursor) invalid_batch_limits
    >>= λ _.
        fill p max_bytes 0 true
          (map sealed_row (take max_events (select (is_after after) j.db.observations)))

unfoldable pub inspect_process_history :
    Platform → ℕ → ℕ → ℕ → DurableJournal → Result JournalError (List JournalInspectionEntry)
inspect_process_history p after max_events max_bytes j =
    require (is_batch_limit max_events max_bytes && leb after max_cursor) invalid_batch_limits
    >>= λ _.
        fill p max_bytes 0 true (
          map sealed_archive (take max_events (select (λ r. ltb after r.seq) j.db.process_history)))

unfoldable pub letters : Platform → List Observation → Result JournalError (List JournalDeadLetter)
letters p [] = ok []
letters p (r ∷ rs) = or_fail (p.unseal r.key r.payload) unseal_failed >>= λ body.
    or_fail (p.unseal r.key (elim r.reason [ none ↦ [] | some reason ↦ reason ])) unseal_failed
    >>= λ reason. letters p rs >>= λ rest.
        ok (record { original = record { key = r.key; body = body }; reason = reason } ∷ rest)

unfoldable pub dead_letters :
    Platform → ℕ → DurableJournal → Result JournalError (List JournalDeadLetter)
dead_letters p limit j = require (not (limit == 0 || ltb 1000 limit)) invalid_batch_limits >>= λ _.
    letters p (take limit (select is_dead j.db.observations))

abbrev pub is_outboxed : CommandRow → Bool
is_outboxed r = elim r.state [
  | received ↦ false
  | executing ↦ false
  | result_ready ↦ false
  | outboxed ↦ true
]

unfoldable pub command_list :
    Platform → Text → List CommandRow → Result JournalError (List JournalCommand)
command_list p scope [] = ok []
command_list p scope (r ∷ rs) =
    or_fail (p.unseal (command_entropy scope r.key) r.payload) unseal_failed >>= λ body.
    or_fail
      (elim r.result [
        | none ↦ some []
        | some encrypted ↦ p.unseal (result_entropy scope r.key) encrypted
      ])
      unseal_failed
    >>= λ result. command_list p scope rs >>= λ rest. ok (
        record { key = r.key; scope = scope; body = body; state = r.state; result = result } ∷ rest)

unfoldable pub pending_commands :
    Platform → Text → ℕ → DurableJournal → Result JournalError (List JournalCommand)
pending_commands p scope limit j =
    require (is_bounded 128 scope && not (limit == 0 || ltb 1000 limit)) command_bounds >>= λ _.
    command_list p scope
      (take limit (select (λ r. text_eq r.scope scope && not (is_outboxed r)) j.db.commands))
