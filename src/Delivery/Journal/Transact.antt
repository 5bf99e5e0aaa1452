-- ===== src/Delivery/Journal/Transact.antt =====
-- What the journal asks of its platform, its limits, and its transactions
-- (src/delivery/journal.cpp).
use panopticon_agent.Prelude.{
  ℕ, ◌+◌, ◌-◌, ◌*◌, ◌%◌, ◌≡◌, Bool, true, false, ◌||◌, Option, none, some, ltb, ◌==◌, if◌then◌else◌,
  Text, size_mod, Result, ok, err,
}
use panopticon_agent.Response.Command.Json.{Json}
use panopticon_agent.Delivery.Journal.Db.{Db}

-- What `core::process_graph_fact` tells the index of a record.
pub record GraphFact : Type 0 where
  pub interpretable : Bool
  pub entity_id : Option Text
  pub parent_entity_id : Option Text

-- The functions that the journal calls: SHA-256 as hex, `CryptUnprotectData` with its entropy,
-- the JSON parser (none for a text that is not JSON) and the facts of a process record.
pub record Platform : Type 0 where
  pub digest : Text → Option Text
  pub unseal : Text → Text → Option Text
  pub parse : Text → Option Json
  pub graph_fact : Option Json → GraphFact

-- What the operating system answers during one call. `sample k` is the call's storage sample
-- number k: the bytes of the database files, and those available; `seal` is `CryptProtectData` with
-- its entropy; `random` is the random number generator.
pub record CallEnv : Type 0 where
  pub begin_ok : Bool
  pub commit_ok : Bool
  pub sample : ℕ → Option (ℕ × ℕ)
  pub seal : Text → Text → Option Text
  pub random : Option Text

-- What is sealed is what unsealing gives.
abbrev pub IsSeal : Platform → CallEnv → Type 0
IsSeal p env =
    (key text blob : Text) → env.seal key text ≡ some blob → p.unseal key blob ≡ some text

pub record JournalConfig : Type 0 where
  pub retained_payload_limit : ℕ
  pub event_size_limit : ℕ
  pub physical_admission_limit : ℕ
  pub minimum_free_bytes : ℕ

pub data JournalError : Type 0 where
  sample_failed admission_exhausted headroom_exhausted : JournalError
  begin_failed commit_failed digest_failed seal_failed unseal_failed entropy_failed : JournalError
  invalid_observation retention_exhausted invalid_source invalid_checkpoint : JournalError
  invalid_revision revision_conflict checkpoint_count checkpoint_retention : JournalError
  graph_inconsistent : JournalError
  invalid_batch_limits oversized_head receipt_size receipt_shape receipt_mismatch : JournalError
  receipt_unaccounted rejection_line rejection_semantics rejection_detail : JournalError
  rejection_identity rejection_retention invalid_name corrupt_generation : JournalError
  exhausted_generation command_bounds command_collision command_count command_retention :
      JournalError
  outcome_bounds no_command outcome_collision no_intent outcome_retention no_outcome : JournalError

pub record DurableJournal : Type 0 where
  pub config : JournalConfig
  pub db : Db
  pub storage_admission_refusals : ℕ

-- The errors that `admit_growth` counts.
unfoldable pub is_refusal : JournalError → Bool
is_refusal sample_failed = true
is_refusal admission_exhausted = true
is_refusal headroom_exhausted = true
is_refusal _ = false

-- `Impl::admit_growth`, but for its counter, which `transact` keeps.
unfoldable pub admit_growth : JournalConfig → Option (ℕ × ℕ) → ℕ → Result JournalError (Unit {0})
admit_growth c none encrypted_bytes = err sample_failed
admit_growth c (some (bytes, available)) encrypted_bytes =
    let allowance = (128 * 1024 + 4 * encrypted_bytes) % size_mod in
    if ltb c.physical_admission_limit allowance
      || ltb (c.physical_admission_limit - allowance) bytes
    then err admission_exhausted
    else if ltb available c.minimum_free_bytes || ltb (available - c.minimum_free_bytes) allowance
    then err headroom_exhausted
    else ok tt

-- The saturating `++storage_admission_refusals`.
abbrev pub bump : ℕ → ℕ
bump n = if n == size_mod - 1 then n else n + 1

abbrev pub counted : JournalError → DurableJournal → DurableJournal
counted e j = record j {
  storage_admission_refusals =
      if is_refusal e then bump j.storage_admission_refusals else j.storage_admission_refusals;
}

-- One transaction: what `op` makes of the database is kept by the commit alone, and an error or a
-- commit that fails rolls back.
unfoldable pub transact :
    {A : Type 0}
    → CallEnv
    → (Db → Result JournalError (Db × A))
    → DurableJournal
    → DurableJournal × Result JournalError A
transact env op j =
    if env.begin_ok
    then elim (op j.db) [
      | ok (db, a) ↦ if env.commit_ok then (record j { db = db }, ok a) else (j, err commit_failed)
      | err e ↦ (counted e j, err e)
    ]
    else (j, err begin_failed)

-- A call whose digest comes before its transaction.
unfoldable pub with_digest :
    {A : Type 0}
    → Option Text
    → (Text → DurableJournal × Result JournalError A)
    → DurableJournal
    → DurableJournal × Result JournalError A
with_digest none call j = (j, err digest_failed)
with_digest (some key) call j = call key
