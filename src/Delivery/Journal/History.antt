-- ===== src/Delivery/Journal/History.antt =====
-- The journal over any sequence of calls.
use panopticon_agent.Prelude.{
  ℕ, ◌≡◌, refl, sym, subst, ◌∙◌, Bool, true, false, ◌&&◌, not, Option, none, some, List, [], ◌∷◌,
  if◌then◌else◌, if-both, Text, Result, ok, err, ◌>>=◌, Gives, gives, refuses, Gives-map,
}
use panopticon_agent.Delivery.Journal.Db.{Db}
use panopticon_agent.Delivery.Journal.Transact.{
  Platform, CallEnv, JournalConfig, JournalError, DurableJournal, begin_failed, commit_failed,
  counted, transact, with_digest,
}
use panopticon_agent.Delivery.Journal.Append.{is_observation, append, done}
use panopticon_agent.Delivery.Journal.Checkpoint.{
  validate_source, is_checkpoint, append_checkpointed, advance_checkpoint,
}
use panopticon_agent.Delivery.Journal.Identifiers.{
  is_identifier_name, persistent_identifier, next_collector_generation,
}
use panopticon_agent.Delivery.Journal.Command.{
  is_bounded, receive_command, begin_command, finish_command, mark_command_outboxed,
}
use panopticon_agent.Delivery.Journal.Read.{JournalBatch, JournalEntry, is_batch_limit}
use panopticon_agent.Delivery.Journal.Acknowledge.{
  acknowledge, read_receipt, retire, rebuild_process_graph,
}
use panopticon_agent.Delivery.Journal.Evolves.{
  Sound, Evolves, Evolves-refl, Evolves-trans, insert-Evolves,
}
use panopticon_agent.Delivery.Journal.Fence.{
  Committed, checkpointed-Committed, Committed-Evolves, advanced-Evolves,
}
use panopticon_agent.Delivery.Journal.Calls.{apply_receipt-Evolves, rebuild_rows-Evolves}
use panopticon_agent.Delivery.Journal.Commands.{receive-Evolves}
use panopticon_agent.Delivery.Journal.Settlement.{intend-Evolves, finish-Evolves, outbox-Evolves}
use panopticon_agent.Delivery.Journal.Generation.{identify-Evolves, Generated, generate-Generated}

-- A transaction either keeps the database as it was and gives an error, or keeps what its operation
-- makes and gives that value; the configuration stays.
pub data Transacted {A : Type 0} (P : Db × A → Type 0) (j : DurableJournal)
    : DurableJournal × Result JournalError A → Type 0 where
  rolled_back :
      (k : DurableJournal) (e : JournalError)
      → k.db ≡ j.db
      → k.config ≡ j.config
      → Transacted P j (k, err e)
  kept : (r : Db × A) → P r → Transacted P j (record j { db = r.0 }, ok r.1)

pub transact-Transacted :
    {A : Type 0} (P : Db × A → Type 0) (env : CallEnv) (op : Db → Result JournalError (Db × A))
    (j : DurableJournal)
    → Gives P (op j.db)
    → Transacted P j (transact env op j)
unfolding transact
transact-Transacted P env op j g =
    if-both (Transacted P j) env.begin_ok _ _ (λ _. after (op j.db) g)
      λ _. rolled_back j begin_failed refl refl
  where
    after :
        (r : Result JournalError (Db × _))
        → Gives P r
        → Transacted P j (elim r [
          | ok (db, a) ↦
              if env.commit_ok then (record j { db = db }, ok a) else (j, err commit_failed)
          | err e ↦ (counted e j, err e)
        ])
    after (ok (db, a)) (gives h) =
        if-both (Transacted P j) env.commit_ok _ _ (λ _. kept (db, a) h)
          λ _. rolled_back j commit_failed refl refl
    after (err e) refuses = rolled_back (counted e j) e refl refl

-- A call that changes the journal, with what the operating system answers during it.
pub data Call : Type 0 where
  appends : CallEnv → Text → Call
  appends_checkpointed : CallEnv → Text → Text → Text → ℕ → Call
  advances : CallEnv → Text → Text → ℕ → Call
  acknowledges : CallEnv → JournalBatch → Text → Call
  rebuilds : CallEnv → ℕ → ℕ → Call
  identifies : CallEnv → Text → Call
  generates : CallEnv → Call
  receives : CallEnv → Text → Text → Text → Call
  begins : CallEnv → Text → Text → Call
  finishes : CallEnv → Text → Text → Text → Call
  marks_outboxed : CallEnv → Text → Text → Call

-- The journal after a call.
abbrev pub run : Platform → Call → DurableJournal → DurableJournal
run p (appends env line) j = (append p env line j).0
run p (appends_checkpointed env line source checkpoint expected) j =
    (append_checkpointed p env line source checkpoint expected j).0
run p (advances env source checkpoint expected) j =
    (advance_checkpoint p env source checkpoint expected j).0
run p (acknowledges env batch receipt) j = (acknowledge p env batch receipt j).0
run p (rebuilds env max_events max_bytes) j = (rebuild_process_graph p env max_events max_bytes j).0
run p (identifies env name) j = (persistent_identifier p env name j).0
run p (generates env) j = (next_collector_generation env j).0
run p (receives env scope key body) j = (receive_command p env scope key body j).0
run p (begins env scope key) j = (begin_command env scope key j).0
run p (finishes env scope key outcome) j = (finish_command p env scope key outcome j).0
run p (marks_outboxed env scope key) j = (mark_command_outboxed env scope key j).0

abbrev pub runs : Platform → List Call → DurableJournal → DurableJournal
runs p [] j = j
runs p (c ∷ cs) j = runs p cs (run p c j)

-- What a call keeps.
pub record Follows (j k : DurableJournal) : Type 0 where
  pub config : k.config ≡ j.config
  pub evolves : Evolves j.config.retained_payload_limit j.db k.db

pub Follows-refl : (j : DurableJournal) → Follows j j
Follows-refl j = record { config = refl; evolves = Evolves-refl _ j.db }

Follows-trans : (i j k : DurableJournal) → Follows i j → Follows j k → Follows i k
Follows-trans i j k f g = record {
  config = g.config ∙ f.config;
  evolves = Evolves-trans i.config.retained_payload_limit i.db j.db k.db f.evolves (
      subst (λ (c : JournalConfig). Evolves c.retained_payload_limit j.db k.db) f.config g.evolves);
}

Transacted-Follows :
    {A : Type 0} (P : Db × A → Type 0) (j : DurableJournal)
    (r : DurableJournal × Result JournalError A)
    → ((x : Db × A) → P x → Evolves j.config.retained_payload_limit j.db x.0)
    → Transacted P j r
    → Follows j r.0
Transacted-Follows P j _ h (rolled_back k e d c) = record {
  config = c;
  evolves = subst (Evolves j.config.retained_payload_limit j.db) (sym d) (Evolves-refl _ j.db);
}
Transacted-Follows P j _ h (kept x p) = record { config = refl; evolves = h x p }

-- A transaction whose operation keeps what every call keeps.
pub transact-Follows :
    {A : Type 0} (env : CallEnv) (op : Db → Result JournalError (Db × A)) (j : DurableJournal)
    → Gives (λ x. Evolves j.config.retained_payload_limit j.db x.0) (op j.db)
    → Follows j (transact env op j).0
transact-Follows env op j g =
    Transacted-Follows (λ x. Evolves j.config.retained_payload_limit j.db x.0) j _ (λ x h. h)
      (transact-Transacted _ env op j g)

pub done-Gives :
    (P : Db → Type 0) (r : Result JournalError Db) → Gives P r → Gives (λ x. P x.0) (done r)
unfolding ◌>>=◌
done-Gives P (ok d) (gives h) = gives h
done-Gives P (err e) refuses = refuses

-- A guard in front of a call.
guarded :
    {A : Type 0} (b : Bool) (j : DurableJournal) (r : DurableJournal × Result JournalError A)
    (e : JournalError)
    → (b ≡ true → Follows j r.0)
    → Follows j (if b then r else (j, err e)).0
guarded true j r e f = f refl
guarded false j r e f = Follows-refl j

stopped :
    {A : Type 0} (b : Bool) (j : DurableJournal) (r : DurableJournal × Result JournalError A)
    (e : JournalError)
    → (b ≡ false → Follows j r.0)
    → Follows j (if b then (j, err e) else r).0
stopped true j r e f = Follows-refl j
stopped false j r e f = f refl

digested :
    {A : Type 0} (o : Option Text) (j : DurableJournal)
    (f : Text → DurableJournal × Result JournalError A)
    → ((key : Text) → Follows j (f key).0)
    → Follows j (with_digest o f j).0
unfolding with_digest
digested none j f h = Follows-refl j
digested (some key) j f h = h key

retire-Follows :
    (env : CallEnv) (entries : List JournalEntry) (r : Result JournalError (List (Option Text)))
    (j : DurableJournal)
    → Follows j (retire env entries r j).0
unfolding retire
retire-Follows env entries (err e) j = Follows-refl j
retire-Follows env entries (ok reasons) j =
    transact-Follows env _ j
      (done-Gives _ _ (apply_receipt-Evolves j.config env 0 entries reasons j.db))

pub run-Follows : (p : Platform) (call : Call) (j : DurableJournal) → Follows j (run p call j)
unfolding append acknowledge append_checkpointed advance_checkpoint rebuild_process_graph
    persistent_identifier next_collector_generation receive_command begin_command finish_command
    mark_command_outboxed
run-Follows p (appends env line) j = guarded (is_observation j.config line) j _ _ λ _.
    digested (p.digest line) j _
      λ key. transact-Follows env _ j (done-Gives _ _ (insert-Evolves p j.config env line key j.db))
run-Follows p (appends_checkpointed env line source checkpoint expected) j =
    stopped (not (validate_source source)) j _ _ λ _.
      stopped (not (is_checkpoint checkpoint expected)) j _ _ λ _.
        stopped (not (is_observation j.config line)) j _ _ λ _. digested (p.digest line) j _ λ key.
          transact-Follows env _ j (
            done-Gives _ _ (
              Gives-map (Committed p j.config env line source checkpoint key expected j.db)
                (Evolves j.config.retained_payload_limit j.db) _
                (checkpointed-Committed p j.config env line source checkpoint expected key j.db)
                (Committed-Evolves p j.config env line source checkpoint key expected j.db)))
run-Follows p (advances env source checkpoint expected) j =
    stopped (not (validate_source source)) j _ _ λ _.
      stopped (not (is_checkpoint checkpoint expected)) j _ _ λ _.
        digested (p.digest checkpoint) j _ λ hash.
          transact-Follows env _ j
            (done-Gives _ _ (advanced-Evolves p j.config env source checkpoint expected _ j.db))
run-Follows p (acknowledges env batch receipt) j =
    retire-Follows env batch.entries (read_receipt p batch receipt) j
run-Follows p (rebuilds env max_events max_bytes) j =
    guarded (is_batch_limit max_events max_bytes) j _ _
      λ _. transact-Follows env _ j (rebuild_rows-Evolves p j.config env max_bytes 0 0 _ j.db)
run-Follows p (identifies env name) j =
    guarded (is_identifier_name name) j _ _
      λ h. transact-Follows env _ j (identify-Evolves p j.config env name j.db h)
run-Follows p (generates env) j = transact-Follows env _ j (
    Gives-map (Generated j.config.retained_payload_limit j.db)
      (λ x. Evolves j.config.retained_payload_limit j.db x.0) _
      (generate-Generated j.config env j.db) λ x g. g.evolves)
run-Follows p (receives env scope key body) j =
    guarded (is_bounded 128 scope && is_bounded 128 key && is_bounded 8192 body) j _ _ λ _.
      transact-Follows env _ j (done-Gives _ _ (receive-Evolves p j.config env scope key body j.db))
run-Follows p (begins env scope key) j =
    transact-Follows env _ j (intend-Evolves j.config env scope key _ j.db refl)
run-Follows p (finishes env scope key outcome) j =
    guarded (is_bounded j.config.event_size_limit outcome) j _ _ λ _.
      transact-Follows env _ j
        (done-Gives _ _ (finish-Evolves p j.config env scope key outcome _ j.db refl))
run-Follows p (marks_outboxed env scope key) j =
    transact-Follows env _ j (done-Gives _ _ (outbox-Evolves j.config env scope key _ j.db refl))

pub runs-Follows :
    (p : Platform) (calls : List Call) (j : DurableJournal) → Follows j (runs p calls j)
runs-Follows p [] j = Follows-refl j
runs-Follows p (c ∷ cs) j =
    Follows-trans j (run p c j) (runs p cs (run p c j)) (run-Follows p c j)
      (runs-Follows p cs (run p c j))

-- Any sequence of the calls that change the journal keeps its invariant: each counter is the count
-- or the sum of the rows that it stands for, the bytes retained in observations, process history,
-- commands and checkpoints stay within the retention limit, and the keys of commands and of
-- observations are distinct.
pub runs-Sound :
    (p : Platform) (calls : List Call) (j : DurableJournal)
    → Sound j.config.retained_payload_limit j.db
    → Sound j.config.retained_payload_limit (runs p calls j).db
runs-Sound p calls j s = (runs-Follows p calls j).evolves.sound s
