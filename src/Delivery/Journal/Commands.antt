-- ===== src/Delivery/Journal/Commands.antt =====
-- The command inbox: how a change of its rows, and a new command, change the database.
use panopticon_agent.Prelude.{
  ℕ, ◌+◌, ◌≤◌, ◌≡◌, refl, true, Option, none, some, List, [], ◌∷◌, ◌++◌, length, arith, Text, total,
  total-append, first, Gives, gives, bind-Gives, require-Gives, or_fail-Gives,
}
use panopticon_agent.Delivery.Journal.Db.{Db, CommandRow, command_bytes, retained_bytes}
use panopticon_agent.Delivery.Journal.Transact.{Platform, CallEnv, JournalConfig, admit_growth}
use panopticon_agent.Delivery.Journal.Command.{
  fits_one, admit, new_command, command_entropy, is_command, receive,
}
use panopticon_agent.Delivery.Journal.Accounting.{Accounted}
use panopticon_agent.Delivery.Journal.Inbox.{Grows, Grows-append, Unique, Unique-snoc}
use panopticon_agent.Delivery.Journal.Evolves.{Sound, Evolves, Evolves-refl, Later-refl}

abbrev pub with_commands : List CommandRow → Db → Db
with_commands rows db = record db { commands = rows }

with_commands-Accounted :
    (rows : List CommandRow) (db : Db) → Accounted db → Accounted (with_commands rows db)
with_commands-Accounted rows db a = record {
  retained = a.retained;
  pending_count = a.pending_count;
  dead_count = a.dead_count;
  history_bytes = a.history_bytes;
  history_count = a.history_count;
  graph_count = a.graph_count;
  graph_unresolved = a.graph_unresolved;
}

-- A change of the commands alone.
pub commands-Evolves :
    (limit : ℕ) (rows : List CommandRow) (db : Db)
    → (Sound limit db → retained_bytes (with_commands rows db) ≤ limit)
    → (Sound limit db → Grows db.commands rows)
    → (Sound limit db → Unique rows)
    → Evolves limit db (with_commands rows db)
commands-Evolves limit rows db quota grows unique = record {
  sound = λ s. record {
    accounted = with_commands-Accounted rows db s.accounted;
    quota = quota s;
    unique = unique s;
    distinct = s.distinct;
  };
  commands = grows;
  generation = Later-refl db.identifiers;
}

pub fits_one→le : (limit used size : ℕ) → fits_one limit used size ≡ true → used + size ≤ limit
unfolding fits_one
fits_one→le limit used size h = ground arith

pub with_commands-retained :
    (rows : List CommandRow) (db : Db) (size : ℕ)
    → total command_bytes rows ≤ total command_bytes db.commands + size
    → retained_bytes (with_commands rows db) ≤ retained_bytes db + size
unfolding retained_bytes
with_commands-retained rows db size h = omega (arith, h)

admit-Evolves :
    (p : Platform) (c : JournalConfig) (env : CallEnv) (scope key hash body : Text)
    (found : Option CommandRow) (db : Db)
    → first (is_command key) db.commands ≡ found
    → Gives (Evolves c.retained_payload_limit db) (admit p c env scope key hash body found db)
unfolding admit
admit-Evolves p c env scope key hash body (some row) db e =
    bind-Gives (Evolves c.retained_payload_limit db) _ _ λ _ _. gives (Evolves-refl _ db)
admit-Evolves p c env scope key hash body none db e =
    let E = Evolves c.retained_payload_limit db in
    require-Gives E _ _ _ λ _. require-Gives E _ _ _ λ fits.
      or_fail-Gives E (env.seal (command_entropy scope key) body) _ _ λ encrypted _.
        bind-Gives E (admit_growth _ _ _) _ λ _ _. gives (
          commands-Evolves c.retained_payload_limit _ db
            (λ _. omega (
              arith,
              fits_one→le c.retained_payload_limit (retained_bytes db) (length body) fits,
              with_commands-retained (db.commands ++ new_command scope key hash body encrypted ∷ [])
                  db (length body)
                  (omega (
                    arith,
                    total-append command_bytes db.commands
                        (new_command scope key hash body encrypted ∷ []),
                  )),
            ))
            (λ _. Grows-append db.commands _)
            λ s. Unique-snoc db.commands (new_command scope key hash body encrypted) s.unique e)

pub receive-Evolves :
    (p : Platform) (c : JournalConfig) (env : CallEnv) (scope key body : Text) (db : Db)
    → Gives (Evolves c.retained_payload_limit db) (receive p c env scope key body db)
unfolding receive
receive-Evolves p c env scope key body db =
    or_fail-Gives (Evolves c.retained_payload_limit db) (p.digest body) _ _
      λ hash _. admit-Evolves p c env scope key hash body _ db refl
