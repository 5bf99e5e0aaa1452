-- ===== src/Delivery/Journal/Inserted.antt =====
-- What the insertion of an observation does to the journal's database.
use panopticon_agent.Prelude.{
  ℕ, ◌+◌, ◌≤◌, ◌≡◌, refl, sym, ap, subst, ◌∙◌, Bool, true, false, not, ◌&&◌, Option, none, some, [],
  ◌∷◌, ◌++◌, if◌then◌else◌, if-both, length, arith, Text, some_row, bit, ok, bind-Gives,
  require-Gives, or_fail-Gives, Gives, gives, Gives-bind,
}
use panopticon_agent.Response.Command.Json.{Json}
use panopticon_agent.Delivery.Journal.Db.{
  Db, Observation, Indexed, pending, has_key, archive_key, insert_observation, insert_archived,
  insert_indexed, next_observation_seq, retained_bytes,
}
use panopticon_agent.Delivery.Journal.Transact.{Platform, CallEnv, JournalConfig, admit_growth}
use panopticon_agent.Delivery.Journal.Append.{
  protocol_of, is_lifecycle, optional_digest, index_process, fits_retention, archive, insert,
}
use panopticon_agent.Delivery.Journal.Keys.{UniqueKeys, UniqueKeys-snoc}
use panopticon_agent.Delivery.Journal.Accounting.{
  Accounted, insert_observation-Accounted, insert_archived-Accounted, insert_indexed-Accounted,
}

-- The tables that keep their rows while `size` bytes more are retained.
pub record Grown (size : ℕ) (db d : Db) : Type 0 where
  pub accounted : Accounted db → Accounted d
  pub observations : d.observations ≡ db.observations
  pub commands : d.commands ≡ db.commands
  pub checkpoints : d.source_checkpoints ≡ db.source_checkpoints
  pub identifiers : d.identifiers ≡ db.identifiers
  pub retained : retained_bytes d ≡ retained_bytes db + size

insert_indexed_same :
    (row : Indexed) (d : Db)
    → ((insert_indexed row d).observations ≡ d.observations)
      × ((insert_indexed row d).commands ≡ d.commands)
      × ((insert_indexed row d).source_checkpoints ≡ d.source_checkpoints)
      × ((insert_indexed row d).identifiers ≡ d.identifiers)
      × (retained_bytes (insert_indexed row d) ≡ retained_bytes d)
unfolding insert_indexed retained_bytes
insert_indexed_same row d =
    if-both
      (λ x.
        (x.observations ≡ d.observations)
        × (x.commands ≡ d.commands)
        × (x.source_checkpoints ≡ d.source_checkpoints)
        × (x.identifiers ≡ d.identifiers)
        × (retained_bytes x ≡ retained_bytes d))
      (some_row _ d.process_graph_index) _ _ (λ _. (refl, refl, refl, refl, refl))
      (λ _. (refl, refl, refl, refl, refl))

insert_indexed-Grown :
    (row : Indexed) (size : ℕ) (db d : Db) → Grown size db d → Grown size db (insert_indexed row d)
insert_indexed-Grown row size db d g = record {
  accounted = λ a. insert_indexed-Accounted row d (g.accounted a);
  observations = (insert_indexed_same row d).0 ∙ g.observations;
  commands = (insert_indexed_same row d).1 ∙ g.commands;
  checkpoints = (insert_indexed_same row d).2 ∙ g.checkpoints;
  identifiers = (insert_indexed_same row d).3 ∙ g.identifiers;
  retained = (insert_indexed_same row d).4 ∙ g.retained;
}

pub index_process-Grown :
    (p : Platform) (sequence : ℕ) (document : Option Json) (size : ℕ) (db d : Db)
    → Grown size db d
    → Gives (Grown size db) (index_process p sequence document d)
unfolding index_process
index_process-Grown p sequence document size db d g =
    bind-Gives (Grown size db) (optional_digest p (p.graph_fact document).entity_id) _ λ entity _.
      bind-Gives (Grown size db) (optional_digest p (p.graph_fact document).parent_entity_id) _
        λ parent _. gives (insert_indexed-Grown _ size db d g)

insert_archived-Grown :
    (key payload : Text) (size : ℕ) (db : Db) → Grown size db (insert_archived key payload size db)
unfolding insert_archived retained_bytes
insert_archived-Grown key payload size db = record {
  accounted = insert_archived-Accounted key payload size db;
  observations = refl;
  commands = refl;
  checkpoints = refl;
  identifiers = refl;
  retained = omega arith;
}

pub Grown-none : (db : Db) → Grown 0 db db
Grown-none db = record {
  accounted = λ a. a;
  observations = refl;
  commands = refl;
  checkpoints = refl;
  identifiers = refl;
  retained = omega arith;
}

abbrev counted_bytes : Bool → ℕ → ℕ
counted_bytes true size = size
counted_bytes false size = 0

archived-Grown :
    (p : Platform) (key encrypted : Text) (size : ℕ) (document : Option Json) (db : Db)
    (archives : Bool)
    → Gives
        (Grown (counted_bytes archives size) db)
        (if archives then archive p key encrypted size document db else ok db)
unfolding archive
archived-Grown p key encrypted size document db true =
    index_process-Grown p _ document size db _ (insert_archived-Grown key encrypted size db)
archived-Grown p key encrypted size document db false = gives (Grown-none db)

fits_retention→le :
    (limit retained size : ℕ) (exists archives : Bool)
    → (exists && not archives) ≡ false
    → fits_retention limit retained (bit (not exists) + bit archives) size ≡ true
    → retained + counted_bytes archives size + counted_bytes (not exists) size ≤ limit
unfolding fits_retention
fits_retention→le limit retained size true true n h = ground arith
fits_retention→le limit retained size true false n h = ground arith
fits_retention→le limit retained size false true n h = ground arith
fits_retention→le limit retained size false false n h = ground arith

-- The row of a new observation, its line sealed.
abbrev pub new_row : Platform → Text → Text → Text → Db → Observation
new_row p line key encrypted db = record {
  seq = next_observation_seq db.observations;
  key = key;
  payload = encrypted;
  bytes = length line;
  state = pending;
  reason = none;
  protocol = protocol_of (p.parse line);
}

-- The observations afterwards: no change where the key is there already, and otherwise one more
-- row, pending and last.
pub data Queued (p : Platform) (env : CallEnv) (line key : Text) (db d : Db) : Type 0 where
  known :
      some_row (has_key key) db.observations ≡ true
      → d.observations ≡ db.observations
      → Queued p env line key db d
  fresh :
      (encrypted : Text)
      → some_row (has_key key) db.observations ≡ false
      → env.seal key line ≡ some encrypted
      → d.observations ≡ db.observations ++ new_row p line key encrypted db ∷ []
      → Queued p env line key db d

pub record Inserted (p : Platform) (c : JournalConfig) (env : CallEnv) (line key : Text) (db d : Db)
    : Type 0 where
  pub accounted : Accounted db → Accounted d
  pub quota :
      retained_bytes db ≤ c.retained_payload_limit → retained_bytes d ≤ c.retained_payload_limit
  pub queued : Queued p env line key db d
  pub distinct : UniqueKeys db.observations → UniqueKeys d.observations
  pub commands : d.commands ≡ db.commands
  pub checkpoints : d.source_checkpoints ≡ db.source_checkpoints
  pub identifiers : d.identifiers ≡ db.identifiers

insert_observation-retained :
    (key payload : Text) (bytes protocol : ℕ) (db : Db)
    → retained_bytes (insert_observation key payload bytes protocol db) ≡ retained_bytes db + bytes
unfolding insert_observation retained_bytes
insert_observation-retained key payload bytes protocol db = omega arith

queue-Inserted :
    (p : Platform) (c : JournalConfig) (env : CallEnv) (line key encrypted : Text) (size : ℕ)
    (db d : Db) (exists : Bool)
    → some_row (has_key key) db.observations ≡ exists
    → env.seal key line ≡ some encrypted
    → Grown size db d
    → retained_bytes db + size + counted_bytes (not exists) (length line) ≤ c.retained_payload_limit
    → Inserted p c env line key db (
        if exists
        then d
        else insert_observation key encrypted (length line) (protocol_of (p.parse line)) d)
unfolding insert_observation
queue-Inserted p c env line key encrypted size db d true e sealed g h = record {
  accounted = g.accounted;
  quota = λ _. omega (arith, g.retained, h);
  queued = known e g.observations;
  distinct = subst UniqueKeys (sym g.observations);
  commands = g.commands;
  checkpoints = g.checkpoints;
  identifiers = g.identifiers;
}
queue-Inserted p c env line key encrypted size db d false e sealed g h = record {
  accounted = λ a. insert_observation-Accounted key encrypted (length line) _ d (g.accounted a);
  quota = λ _. omega (
    arith,
    insert_observation-retained key encrypted (length line) (protocol_of (p.parse line)) d,
    g.retained,
    h,
  );
  queued = fresh encrypted e sealed (
      ap
        (λ rows.
          rows
          ++ record {
            seq = next_observation_seq rows;
            key = key;
            payload = encrypted;
            bytes = length line;
            state = pending;
            reason = none;
            protocol = protocol_of (p.parse line);
          }
            ∷ [])
        g.observations);
  distinct = λ u.
      UniqueKeys-snoc d.observations _ (subst UniqueKeys (sym g.observations) u)
        (ap (some_row (has_key key)) g.observations ∙ e);
  commands = g.commands;
  checkpoints = g.checkpoints;
  identifiers = g.identifiers;
}

unchanged :
    (p : Platform) (c : JournalConfig) (env : CallEnv) (line key : Text) (db : Db)
    → some_row (has_key key) db.observations ≡ true
    → Inserted p c env line key db db
unchanged p c env line key db e = record {
  accounted = λ a. a;
  quota = λ h. h;
  queued = known e refl;
  distinct = λ u. u;
  commands = refl;
  checkpoints = refl;
  identifiers = refl;
}

abbrev archives : Platform → Text → Text → Db → Bool
archives p line key db =
    is_lifecycle (p.parse line) && not (some_row (archive_key key) db.process_history)

pub insert-Inserted :
    (p : Platform) (c : JournalConfig) (env : CallEnv) (line key : Text) (db : Db)
    → Gives (Inserted p c env line key db) (insert p c env line key db)
unfolding insert
insert-Inserted p c env line key db =
    let I = Inserted p c env line key db in
    let exists = some_row (has_key key) db.observations in
    if-both (Gives I) (exists && not (archives p line key db)) _ _
      (λ e. gives (unchanged p c env line key db (ground arith)))
      λ e. require-Gives I _ _ _ λ fits. or_fail-Gives I (env.seal key line) _ _ λ encrypted sealed.
        bind-Gives I (admit_growth _ _ _) _ λ _ _.
          Gives-bind (Grown (counted_bytes (archives p line key db) (length line)) db) I _ _
            (archived-Grown p key encrypted (length line) (p.parse line) db
              (archives p line key db))
            λ d g. gives (
              queue-Inserted p c env line key encrypted _ db d exists refl sealed g (
                fits_retention→le c.retained_payload_limit (retained_bytes db) (length line) exists
                  (archives p line key db) e fits))
