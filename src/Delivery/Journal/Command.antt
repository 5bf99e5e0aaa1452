-- ===== src/Delivery/Journal/Command.antt =====
-- The inbox of commands (src/delivery/journal.cpp).
use panopticon_agent.Prelude.{
  ℕ, ◌+◌, ◌-◌, Bool, true, false, not, ◌&&◌, ◌||◌, Option, none, some, [], ◌∷◌, ◌++◌, ltb, leb,
  ◌==◌, if◌then◌else◌, length, Text, codes, text_eq, first, count, update, Result, ok, err, ◌>>=◌,
  require, or_fail,
}
use panopticon_agent.Delivery.Journal.Db.{
  Db, CommandRow, CommandState, received, executing, result_ready, outboxed, retained_bytes,
}
use panopticon_agent.Delivery.Journal.Transact.{
  Platform, CallEnv, JournalConfig, JournalError, digest_failed, seal_failed, unseal_failed,
  command_bounds, command_collision, command_count, command_retention, outcome_bounds, no_command,
  outcome_collision, no_intent, outcome_retention, no_outcome, DurableJournal, admit_growth,
  transact,
}
use panopticon_agent.Delivery.Journal.Append.{done}

-- `WHERE key=?`.
abbrev pub is_command : Text → CommandRow → Bool
is_command key r = text_eq r.key key

-- `WHERE scope=? AND key=?`.
abbrev pub is_scoped : Text → Text → CommandRow → Bool
is_scoped scope key r = text_eq r.scope scope && text_eq r.key key

abbrev pub command_entropy : Text → Text → Text
command_entropy scope key = scope ++ key ++ codes "/command"

abbrev pub result_entropy : Text → Text → Text
result_entropy scope key = scope ++ key ++ codes "/result"

-- The quota for one more text.
unfoldable pub fits_one : ℕ → ℕ → ℕ → Bool
fits_one limit used size = not (ltb limit size || ltb (limit - size) used)

-- A command that is there already must be the same one.
unfoldable pub same_command :
    Platform → Text → Text → Text → Text → CommandRow → Result JournalError (Unit {0})
same_command p scope key hash body row =
    require (text_eq row.scope scope && text_eq row.digest hash) command_collision >>= λ _.
    or_fail (p.unseal (command_entropy scope key) row.payload) unseal_failed >>= λ kept.
    require (text_eq kept body) command_collision

abbrev pub new_command : Text → Text → Text → Text → Text → CommandRow
new_command scope key hash body encrypted = record {
  key = key;
  scope = scope;
  digest = hash;
  payload = encrypted;
  state = received;
  result = none;
  bytes = length body;
}

-- What `receive_command` does with the row it finds for the key, if any.
unfoldable pub admit :
    Platform
    → JournalConfig
    → CallEnv
    → Text
    → Text
    → Text
    → Text
    → Option CommandRow
    → Db
    → Result JournalError Db
admit p c env scope key hash body (some row) db =
    same_command p scope key hash body row >>= λ _. ok db
admit p c env scope key hash body none db =
    require (not (leb 65536 (length db.commands))) command_count >>= λ _.
    require (fits_one c.retained_payload_limit (retained_bytes db) (length body)) command_retention
    >>= λ _. or_fail (env.seal (command_entropy scope key) body) seal_failed >>= λ encrypted.
        admit_growth c (env.sample 0) (length encrypted) >>= λ _.
        ok (record db { commands = db.commands ++ new_command scope key hash body encrypted ∷ [] })

unfoldable pub receive :
    Platform → JournalConfig → CallEnv → Text → Text → Text → Db → Result JournalError Db
receive p c env scope key body db = or_fail (p.digest body) digest_failed >>= λ hash.
    admit p c env scope key hash body (first (is_command key) db.commands) db

abbrev pub is_bounded : ℕ → Text → Bool
is_bounded maximum s = not (length s == 0) && leb (length s) maximum

unfoldable pub receive_command :
    Platform
    → CallEnv
    → Text
    → Text
    → Text
    → DurableJournal
    → DurableJournal × Result JournalError (Unit {0})
receive_command p env scope key body j =
    if is_bounded 128 scope && is_bounded 128 key && is_bounded 8192 body
    then transact env (λ db. done (receive p j.config env scope key body db)) j
    else (j, err command_bounds)

-- The rows of `commands` with a new state for one of them.
abbrev pub set_command : (CommandRow → Bool) → (CommandRow → CommandRow) → Db → Db
set_command p f db = record db { commands = update p f db.commands }

abbrev pub is_received : CommandRow → Bool
is_received r = elim r.state [
  | received ↦ true
  | executing ↦ false
  | result_ready ↦ false
  | outboxed ↦ false
]

-- `WHERE scope=? AND key=? AND state='received'`.
abbrev pub is_intended : Text → Text → CommandRow → Bool
is_intended scope key r = is_scoped scope key r && is_received r

-- What `begin_command` does with the row it finds; it gives true once the intent to execute is kept.
unfoldable pub intend :
    JournalConfig → CallEnv → Text → Text → Option CommandRow → Db → Result JournalError (Db × Bool)
intend c env scope key none db = ok (db, false)
intend c env scope key (some row) db =
    if is_received row
    then (admit_growth c (env.sample 0) 0 >>= λ _. ok (
      set_command (is_intended scope key) (λ r. record r { state = executing }) db,
      count (is_intended scope key) db.commands == 1,
    ))
    else ok (db, false)

unfoldable pub begin_command :
    CallEnv → Text → Text → DurableJournal → DurableJournal × Result JournalError Bool
begin_command env scope key j =
    transact env (λ db. intend j.config env scope key (first (is_scoped scope key) db.commands) db)
      j

abbrev pub settled : Text → ℕ → CommandRow → CommandRow
settled encrypted size r = record r {
  state = result_ready;
  result = some encrypted;
  bytes = r.bytes + size;
}

-- An outcome that is there already must be the same one.
unfoldable pub same_outcome :
    Platform → Text → Text → Text → Option Text → Db → Result JournalError Db
same_outcome p scope key outcome kept db =
    or_fail
      (p.unseal (result_entropy scope key) (elim kept [ none ↦ [] | some encrypted ↦ encrypted ]))
      unseal_failed
    >>= λ text. if text_eq text outcome then ok db else err outcome_collision

-- What `finish_command` does with the state and the result of the row it finds.
unfoldable pub settle :
    Platform
    → JournalConfig
    → CallEnv
    → Text
    → Text
    → Text
    → CommandState
    → Option Text
    → Db
    → Result JournalError Db
settle p c env scope key outcome received kept db = err no_intent
settle p c env scope key outcome executing kept db =
    require (fits_one c.retained_payload_limit (retained_bytes db) (length outcome))
      outcome_retention
    >>= λ _. or_fail (env.seal (result_entropy scope key) outcome) seal_failed >>= λ encrypted.
        admit_growth c (env.sample 0) (length encrypted) >>= λ _.
        ok (set_command (is_scoped scope key) (settled encrypted (length outcome)) db)
settle p c env scope key outcome result_ready kept db = same_outcome p scope key outcome kept db
settle p c env scope key outcome outboxed kept db = same_outcome p scope key outcome kept db

unfoldable pub finish :
    Platform
    → JournalConfig
    → CallEnv
    → Text
    → Text
    → Text
    → Option CommandRow
    → Db
    → Result JournalError Db
finish p c env scope key outcome none db = err no_command
finish p c env scope key outcome (some row) db =
    settle p c env scope key outcome row.state row.result db

unfoldable pub finish_command :
    Platform
    → CallEnv
    → Text
    → Text
    → Text
    → DurableJournal
    → DurableJournal × Result JournalError (Unit {0})
finish_command p env scope key outcome j =
    if is_bounded j.config.event_size_limit outcome
    then transact env
        (λ db.
          done
            (finish p j.config env scope key outcome (first (is_scoped scope key) db.commands) db))
        j
    else (j, err outcome_bounds)

unfoldable pub hand_off :
    JournalConfig → CallEnv → Text → Text → CommandState → Db → Result JournalError Db
hand_off c env scope key received db = err no_outcome
hand_off c env scope key executing db = err no_outcome
hand_off c env scope key outboxed db = ok db
hand_off c env scope key result_ready db = admit_growth c (env.sample 0) 0 >>= λ _.
    ok (set_command (is_scoped scope key) (λ r. record r { state = outboxed }) db)

unfoldable pub outbox :
    JournalConfig → CallEnv → Text → Text → Option CommandRow → Db → Result JournalError Db
outbox c env scope key none db = err no_outcome
outbox c env scope key (some row) db = hand_off c env scope key row.state db

unfoldable pub mark_command_outboxed :
    CallEnv → Text → Text → DurableJournal → DurableJournal × Result JournalError (Unit {0})
mark_command_outboxed env scope key j =
    transact env
      (λ db. done (outbox j.config env scope key (first (is_scoped scope key) db.commands) db)) j
