-- ===== src/Delivery/Journal/Checkpoint.antt =====
-- The checkpoints of the observations' sources (src/delivery/journal.cpp).
use panopticon_agent.Prelude.{
  ℕ, ◌+◌, ◌-◌, Bool, not, ◌&&◌, ◌||◌, Option, none, some, List, [], ◌∷◌, ◌++◌, ltb, leb, ◌==◌,
  if◌then◌else◌, length, Text, codes, text_eq, all_chars, first, size_mod, to_string, from_chars,
  Result, ok, err, ◌>>=◌, require, or_fail,
}
use panopticon_agent.Delivery.Journal.Db.{Db, CheckpointRow, retained_bytes}
use panopticon_agent.Delivery.Journal.Transact.{
  Platform, CallEnv, JournalConfig, JournalError, seal_failed, unseal_failed, invalid_observation,
  invalid_source, invalid_checkpoint, invalid_revision, revision_conflict, checkpoint_count,
  checkpoint_retention, DurableJournal, admit_growth, transact, with_digest,
}
use panopticon_agent.Delivery.Journal.Append.{insert, is_observation, done}

pub record SourceCheckpoint : Type 0 where
  pub revision : ℕ
  pub value : Text

unfoldable pub validate_source : Text → Bool
validate_source source =
    not (length source == 0)
    && leb (length source) 512
    && all_chars (λ c. not (c == 10 || c == 13 || c == 0)) source

-- The retained revision: a canonical decimal text of a positive 64-bit number.
unfoldable pub checkpoint_revision : Text → Result JournalError ℕ
checkpoint_revision [] = err invalid_revision
checkpoint_revision (c ∷ s) =
    if c == b'0' && not (length s == 0)
    then err invalid_revision
    else (or_fail (from_chars (c ∷ s)) invalid_revision >>= λ value.
        if value == 0 then err invalid_revision else ok value)

abbrev pub is_source : Text → CheckpointRow → Bool
is_source source r = text_eq r.source source

-- The entropy that seals a checkpoint.
abbrev pub source_entropy : Text → Text
source_entropy source = codes "source:" ++ source

unfoldable pub source_checkpoint :
    Platform → Text → DurableJournal → Result JournalError (Option SourceCheckpoint)
source_checkpoint p source j = require (validate_source source) invalid_source >>= λ _.
    elim (first (is_source source) j.db.source_checkpoints) [
      | none ↦ ok none
      | some row ↦ checkpoint_revision row.revision >>= λ revision.
          or_fail (p.unseal (source_entropy source) row.value) unseal_failed >>= λ value.
          ok (some (record { revision = revision; value = value }))
    ]

-- The revision that the table has for a source; 0 where it has none.
unfoldable pub current_revision : Option CheckpointRow → Result JournalError ℕ
current_revision none = ok 0
current_revision (some row) = checkpoint_revision row.revision

abbrev pub old_bytes : Option CheckpointRow → ℕ
old_bytes none = 0
old_bytes (some row) = row.bytes

-- A call that finds its own revision already kept has nothing to do.
unfoldable pub retried :
    Platform → Text → Text → Text → Option CheckpointRow → Result JournalError (Option ℕ)
retried p source checkpoint marker none = err revision_conflict
retried p source checkpoint marker (some row) =
    require (text_eq row.record_digest marker) revision_conflict >>= λ _.
    or_fail (p.unseal (source_entropy source) row.value) unseal_failed >>= λ value.
    if text_eq value checkpoint then ok none else err revision_conflict

-- The comparison with the expected revision: none for a retry of the latest call, and otherwise the
-- bytes that the new checkpoint replaces.
unfoldable pub fence : Platform → Text → Text → Text → ℕ → Db → Result JournalError (Option ℕ)
fence p source checkpoint marker expected db =
    let existing = first (is_source source) db.source_checkpoints in
    current_revision existing >>= λ revision.
    if revision == expected
    then if revision == 0 && leb 64 (length db.source_checkpoints)
      then err checkpoint_count
      else ok (some (old_bytes existing))
    else if revision == expected + 1
    then retried p source checkpoint marker existing
    else err revision_conflict

-- The quota with the new checkpoint in place of the old.
unfoldable pub fits_checkpoint : ℕ → ℕ → ℕ → ℕ → Bool
fits_checkpoint limit retained old size =
    not (ltb retained old || ltb limit size || ltb (limit - size) (retained - old))

-- `INSERT INTO source_checkpoints ... ON CONFLICT(source) DO UPDATE`: the row in conflict changes.
unfoldable pub upsert : CheckpointRow → List CheckpointRow → List CheckpointRow
upsert row [] = row ∷ []
upsert row (r ∷ rs) =
    let rest = upsert row rs in if is_source row.source r then row ∷ rs else r ∷ rest

-- The rest of both calls: the quota, the admission, the row.
unfoldable pub save_checkpoint :
    Platform
    → JournalConfig
    → CallEnv
    → ℕ
    → Text
    → Text
    → Text
    → ℕ
    → ℕ
    → Db
    → Result JournalError Db
save_checkpoint p c env sample source checkpoint marker expected old db =
    require (fits_checkpoint c.retained_payload_limit (retained_bytes db) old (length checkpoint))
      checkpoint_retention
    >>= λ _. or_fail (env.seal (source_entropy source) checkpoint) seal_failed >>= λ encrypted.
        admit_growth c (env.sample sample) (length encrypted) >>= λ _. ok (record db {
          source_checkpoints =
              upsert
                (record {
                  source = source;
                  revision = to_string (expected + 1);
                  value = encrypted;
                  record_digest = marker;
                  bytes = length checkpoint;
                })
                db.source_checkpoints;
        })

abbrev pub is_checkpoint : Text → ℕ → Bool
is_checkpoint checkpoint expected =
    not (length checkpoint == 0) && leb (length checkpoint) 16384 && not (expected == size_mod - 1)

-- What the transaction of `append_checkpointed` does. The samples of the record and of its
-- checkpoint are numbers 0 and 1.
unfoldable pub checkpointed :
    Platform → JournalConfig → CallEnv → Text → Text → Text → ℕ → Text → Db → Result JournalError Db
checkpointed p c env line source checkpoint expected key db =
    fence p source checkpoint key expected db >>= λ fenced. elim fenced [
      | none ↦ ok db
      | some old ↦ insert p c env line key db >>= λ inserted.
          save_checkpoint p c env 1 source checkpoint key expected old inserted
    ]

unfoldable pub append_checkpointed :
    Platform
    → CallEnv
    → Text
    → Text
    → Text
    → ℕ
    → DurableJournal
    → DurableJournal × Result JournalError (Unit {0})
append_checkpointed p env line source checkpoint expected j =
    if not (validate_source source)
    then (j, err invalid_source)
    else if not (is_checkpoint checkpoint expected)
    then (j, err invalid_checkpoint)
    else if not (is_observation j.config line)
    then (j, err invalid_observation)
    else with_digest (p.digest line)
        (λ key.
          transact env
            (λ db. done (checkpointed p j.config env line source checkpoint expected key db)) j)
        j

-- What the transaction of `advance_checkpoint` does.
unfoldable pub advanced :
    Platform → JournalConfig → CallEnv → Text → Text → ℕ → Text → Db → Result JournalError Db
advanced p c env source checkpoint expected marker db =
    fence p source checkpoint marker expected db >>= λ fenced. elim fenced [
      | none ↦ ok db
      | some old ↦ save_checkpoint p c env 0 source checkpoint marker expected old db
    ]

unfoldable pub advance_checkpoint :
    Platform
    → CallEnv
    → Text
    → Text
    → ℕ
    → DurableJournal
    → DurableJournal × Result JournalError (Unit {0})
advance_checkpoint p env source checkpoint expected j =
    if not (validate_source source)
    then (j, err invalid_source)
    else if not (is_checkpoint checkpoint expected)
    then (j, err invalid_checkpoint)
    else with_digest (p.digest checkpoint)
        (λ hash.
          transact env
            (λ db. done (
              advanced p j.config env source checkpoint expected (codes "checkpoint-only:" ++ hash)
                db))
            j)
        j
