-- ===== src/Delivery/Journal/Db.antt =====
-- The tables of the journal's database, their counters and the triggers that keep them
-- (src/delivery/journal.cpp).
use panopticon_agent.Prelude.{
  ℕ, suc, ◌+◌, ◌-◌, max, Bool, true, false, not, ◌&&◌, Option, none, some, List, [], ◌∷◌, ◌++◌,
  if◌then◌else◌, length, Text, text_eq, select, delete, update, some_row, total, bit, ◌==◌,
}

-- The values of the column `state` of `observations`.
pub data RowState : Type 0 where
  pending dead : RowState

-- `payload` and `reason` are sealed.
pub record Observation : Type 0 where
  pub seq : ℕ
  pub key : Text
  pub payload : Text
  pub bytes : ℕ
  pub state : RowState
  pub reason : Option Text
  pub protocol : ℕ

pub record Archived : Type 0 where
  pub seq : ℕ
  pub key : Text
  pub payload : Text
  pub bytes : ℕ

pub record Indexed : Type 0 where
  pub history_seq : ℕ
  pub entity_digest : Text
  pub parent_digest : Text
  pub quality : ℕ

-- The values of the column `state` of `commands`.
pub data CommandState : Type 0 where
  received executing result_ready outboxed : CommandState

pub record CommandRow : Type 0 where
  pub key : Text
  pub scope : Text
  pub digest : Text
  pub payload : Text
  pub state : CommandState
  pub result : Option Text
  pub bytes : ℕ

-- `revision` is the text of the column.
pub record CheckpointRow : Type 0 where
  pub source : Text
  pub revision : Text
  pub value : Text
  pub record_digest : Text
  pub bytes : ℕ

pub record Identifier : Type 0 where
  pub name : Text
  pub value : Text

pub record Counters : Type 0 where
  pub acknowledged : ℕ
  pub retained : ℕ
  pub pending_count : ℕ
  pub dead_count : ℕ
  pub process_history_bytes : ℕ
  pub process_history_count : ℕ
  pub process_graph_count : ℕ
  pub process_graph_unresolved : ℕ

pub record Db : Type 0 where
  pub observations : List Observation
  pub identifiers : List Identifier
  pub commands : List CommandRow
  pub source_checkpoints : List CheckpointRow
  pub process_history : List Archived
  pub process_graph_index : List Indexed
  pub counters : Counters

abbrev pub is_pending : Observation → Bool
is_pending r = elim r.state [ pending ↦ true | dead ↦ false ]

abbrev pub is_dead : Observation → Bool
is_dead r = elim r.state [ pending ↦ false | dead ↦ true ]

abbrev pub has_key : Text → Observation → Bool
has_key key r = text_eq r.key key

-- `WHERE key=? AND state='pending'`.
abbrev pub is_pending_key : Text → Observation → Bool
is_pending_key key r = has_key key r && is_pending r

abbrev pub archive_key : Text → Archived → Bool
archive_key key r = text_eq r.key key

abbrev pub observation_bytes : Observation → ℕ
observation_bytes r = r.bytes

abbrev pub archived_bytes : Archived → ℕ
archived_bytes r = r.bytes

abbrev pub command_bytes : CommandRow → ℕ
command_bytes r = r.bytes

abbrev pub checkpoint_bytes : CheckpointRow → ℕ
checkpoint_bytes r = r.bytes

abbrev pub is_unresolved : Indexed → Bool
is_unresolved r = not (r.quality == 0)

-- The row id that SQLite gives a new row of a table whose primary key is its row id: one above the
-- largest.
unfoldable pub next_observation_seq : List Observation → ℕ
next_observation_seq [] = 1
next_observation_seq (r ∷ rs) = max (suc r.seq) (next_observation_seq rs)

unfoldable pub next_archive_seq : List Archived → ℕ
next_archive_seq [] = 1
next_archive_seq (r ∷ rs) = max (suc r.seq) (next_archive_seq rs)

-- `INSERT INTO observations(key,payload,bytes,protocol)`, with the triggers `retained_insert` and
-- `state_insert`.
unfoldable pub insert_observation : Text → Text → ℕ → ℕ → Db → Db
insert_observation key payload bytes protocol db = record db {
  observations =
      db.observations
      ++ record {
        seq = next_observation_seq db.observations;
        key = key;
        payload = payload;
        bytes = bytes;
        state = pending;
        reason = none;
        protocol = protocol;
      }
        ∷ [];
  counters = record db.counters {
    retained = db.counters.retained + bytes;
    pending_count = db.counters.pending_count + 1;
  };
}

-- `DELETE FROM observations WHERE key=? AND state='pending'`, with the triggers `retained_delete`
-- and `state_delete`; all rows it takes are pending.
unfoldable pub delete_pending : Text → Db → Db
delete_pending key db =
    let gone = select (is_pending_key key) db.observations in
    record db {
      observations = delete (is_pending_key key) db.observations;
      counters = record db.counters {
        retained = db.counters.retained - total observation_bytes gone;
        pending_count = db.counters.pending_count - length gone;
      };
    }

-- `UPDATE observations SET state='dead',reason=?,bytes=bytes+?` of one row.
abbrev pub bury : Text → ℕ → Observation → Observation
bury reason size r = record r { state = dead; reason = some reason; bytes = r.bytes + size }

-- That update of the pending row of a key, with the triggers `retained_update` and `state_update`.
unfoldable pub bury_pending : Text → Text → ℕ → Db → Db
bury_pending key reason size db =
    let found = length (select (is_pending_key key) db.observations) in
    record db {
      observations = update (is_pending_key key) (bury reason size) db.observations;
      counters = record db.counters {
        retained =
            db.counters.retained + total (λ _. size) (select (is_pending_key key) db.observations);
        pending_count = db.counters.pending_count - found;
        dead_count = db.counters.dead_count + found;
      };
    }

-- `INSERT INTO process_history(key,payload,bytes)`, with its trigger.
unfoldable pub insert_archived : Text → Text → ℕ → Db → Db
insert_archived key payload bytes db = record db {
  process_history =
      db.process_history
      ++ record {
        seq = next_archive_seq db.process_history;
        key = key;
        payload = payload;
        bytes = bytes;
      }
        ∷ [];
  counters = record db.counters {
    process_history_bytes = db.counters.process_history_bytes + bytes;
    process_history_count = db.counters.process_history_count + 1;
  };
}

-- `INSERT OR IGNORE INTO process_graph_index`, with its trigger.
unfoldable pub insert_indexed : Indexed → Db → Db
insert_indexed row db =
    if some_row (λ r. r.history_seq == row.history_seq) db.process_graph_index
    then db
    else record db {
      process_graph_index = db.process_graph_index ++ row ∷ [];
      counters = record db.counters {
        process_graph_count = db.counters.process_graph_count + 1;
        process_graph_unresolved = db.counters.process_graph_unresolved + bit (is_unresolved row);
      };
    }

-- `Impl::retained`.
unfoldable pub retained_bytes : Db → ℕ
retained_bytes db =
    db.counters.retained
    + total command_bytes db.commands
    + total checkpoint_bytes db.source_checkpoints
    + db.counters.process_history_bytes
