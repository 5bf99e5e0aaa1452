-- ===== src/Delivery/Journal/Settlement.antt =====
-- How a command that is there goes on: its intention, its outcome and the handing to the outbox.
use panopticon_agent.Prelude.{
  ℕ, ◌+◌, ◌≤◌, ◌≡◌, refl, sym, subst, Bool, Option, none, some, if◌then◌else◌, if-both, length,
  length-update, arith, update-both, Text, text_eq, update, first, Gives, gives, refuses,
  bind-Gives, require-Gives, or_fail-Gives,
}
use panopticon_agent.Delivery.Journal.Db.{
  Db, CommandRow, CommandState, received, executing, result_ready, outboxed, retained_bytes,
}
use panopticon_agent.Delivery.Journal.Transact.{
  Platform, CallEnv, JournalConfig, JournalError, admit_growth,
}
use panopticon_agent.Delivery.Journal.Command.{
  settled, same_outcome, is_scoped, is_received, set_command, intend, settle, finish, hand_off,
  outbox,
}
use panopticon_agent.Delivery.Journal.Inbox.{
  rank, Continues, Continues-refl, Unique-Grows, update-Grows, total-update,
}
use panopticon_agent.Delivery.Journal.Evolves.{Sound, Evolves, Evolves-refl}
use panopticon_agent.Delivery.Journal.Commands.{
  with_commands, fits_one→le, with_commands-retained, commands-Evolves,
}

-- A change of the one row of a command, `size` bytes more at most.
row-Evolves :
    (limit : ℕ) (scope key : Text) (f : CommandRow → CommandRow) (row : CommandRow) (size : ℕ)
    (db : Db)
    → first (is_scoped scope key) db.commands ≡ some row
    → Continues row (f row)
    → (f row).bytes ≡ row.bytes + size
    → (Sound limit db → retained_bytes db + size ≤ limit)
    → Evolves limit db (set_command (is_scoped scope key) f db)
row-Evolves limit scope key f row size db e c b q =
    commands-Evolves limit _ db
      (λ s. omega (
        arith,
        q s,
        with_commands-retained (update (is_scoped scope key) f db.commands) db size
            (total-update scope key f row size db.commands s.unique e b),
      ))
      (λ s. update-Grows scope key f row db.commands s.unique e c)
      λ s.
        Unique-Grows db.commands _ (length-update (is_scoped scope key) f db.commands)
          (update-Grows scope key f row db.commands s.unique e c) s.unique

abbrev pub executed : CommandRow → CommandRow
executed r = if is_received r then record r { state = executing } else r

executed-Continues : (r : CommandRow) → Continues r (executed r)
executed-Continues r =
    if-both (Continues r) (is_received r) _ _
      (λ h. record {
        same_key = refl;
        same_scope = refl;
        same_digest = refl;
        same_payload = refl;
        forward = ground arith;
        outcome = λ _. refl;
      })
      λ _. Continues-refl r

executed-bytes : (r : CommandRow) → (executed r).bytes ≡ r.bytes + 0
executed-bytes r =
    if-both (λ (x : CommandRow). x.bytes ≡ r.bytes + 0) (is_received r) _ _ (λ _. omega arith)
      λ _. omega arith

pub intend-Evolves :
    (c : JournalConfig) (env : CallEnv) (scope key : Text) (found : Option CommandRow) (db : Db)
    → first (is_scoped scope key) db.commands ≡ found
    → Gives (λ r. Evolves c.retained_payload_limit db r.0) (intend c env scope key found db)
unfolding intend
intend-Evolves c env scope key none db e = gives (Evolves-refl _ db)
intend-Evolves c env scope key (some row) db e =
    let E = λ (x : Db × Bool). Evolves c.retained_payload_limit db x.0 in
    if-both (Gives E) (is_received row) _ _
      (λ _. bind-Gives E (admit_growth _ _ _) _ λ _ _. gives (
        subst (λ rows. Evolves c.retained_payload_limit db (with_commands rows db))
          (sym (update-both (is_scoped scope key) is_received _ db.commands))
          (row-Evolves c.retained_payload_limit scope key executed row 0 db e
            (executed-Continues row) (executed-bytes row) λ s. omega (arith, s.quota))))
      λ _. gives (Evolves-refl _ db)

same_outcome-Evolves :
    (p : Platform) (limit : ℕ) (scope key outcome : Text) (kept : Option Text) (db : Db)
    → Gives (Evolves limit db) (same_outcome p scope key outcome kept db)
unfolding same_outcome
same_outcome-Evolves p limit scope key outcome kept db =
    or_fail-Gives (Evolves limit db) (p.unseal _ _) _ _ λ text _.
      if-both (Gives (Evolves limit db)) (text_eq text outcome) _ _
        (λ _. gives (Evolves-refl limit db)) λ _. refuses

settled-Continues :
    (encrypted : Text) (size : ℕ) (row : CommandRow)
    → row.state ≡ executing
    → Continues row (settled encrypted size row)
settled-Continues encrypted size row e = record {
  same_key = refl;
  same_scope = refl;
  same_digest = refl;
  same_payload = refl;
  forward = rw e (omega arith);
  outcome = λ h. absurd (too_late row.state e h);
}
  where
    too_late : (s : CommandState) → s ≡ executing → 2 ≤ rank s → ⊥
    too_late received e h = omega arith
    too_late executing e h = omega arith
    too_late result_ready e h = ground arith
    too_late outboxed e h = ground arith

settle-Evolves :
    (p : Platform) (c : JournalConfig) (env : CallEnv) (scope key outcome : Text)
    (state : CommandState) (row : CommandRow) (db : Db)
    → first (is_scoped scope key) db.commands ≡ some row
    → row.state ≡ state
    → Gives
        (Evolves c.retained_payload_limit db)
        (settle p c env scope key outcome state row.result db)
unfolding settle
settle-Evolves p c env scope key outcome received row db e s = refuses
settle-Evolves p c env scope key outcome executing row db e s =
    let E = Evolves c.retained_payload_limit db in
    require-Gives E _ _ _ λ fits. or_fail-Gives E (env.seal _ _) _ _ λ encrypted _.
      bind-Gives E (admit_growth _ _ _) _ λ _ _. gives (
        row-Evolves c.retained_payload_limit scope key (settled encrypted (length outcome)) row
          (length outcome) db e (settled-Continues encrypted (length outcome) row s) refl
          λ _. fits_one→le c.retained_payload_limit (retained_bytes db) (length outcome) fits)
settle-Evolves p c env scope key outcome result_ready row db e s =
    same_outcome-Evolves p c.retained_payload_limit scope key outcome row.result db
settle-Evolves p c env scope key outcome outboxed row db e s =
    same_outcome-Evolves p c.retained_payload_limit scope key outcome row.result db

pub finish-Evolves :
    (p : Platform) (c : JournalConfig) (env : CallEnv) (scope key outcome : Text)
    (found : Option CommandRow) (db : Db)
    → first (is_scoped scope key) db.commands ≡ found
    → Gives (Evolves c.retained_payload_limit db) (finish p c env scope key outcome found db)
unfolding finish
finish-Evolves p c env scope key outcome none db e = refuses
finish-Evolves p c env scope key outcome (some row) db e =
    settle-Evolves p c env scope key outcome row.state row db e refl

outboxed-Continues : (row : CommandRow) → Continues row (record row { state = outboxed })
outboxed-Continues row = record {
  same_key = refl;
  same_scope = refl;
  same_digest = refl;
  same_payload = refl;
  forward = last row.state;
  outcome = λ _. refl;
}
  where
    last : (s : CommandState) → rank s ≤ 3
    last received = omega arith
    last executing = omega arith
    last result_ready = omega arith
    last outboxed = omega arith

pub outbox-Evolves :
    (c : JournalConfig) (env : CallEnv) (scope key : Text) (found : Option CommandRow) (db : Db)
    → first (is_scoped scope key) db.commands ≡ found
    → Gives (Evolves c.retained_payload_limit db) (outbox c env scope key found db)
unfolding outbox hand_off
outbox-Evolves c env scope key none db e = refuses
outbox-Evolves c env scope key (some row) db e = by_state row.state
  where
    by_state :
        (state : CommandState)
        → Gives {E = JournalError}
            (Evolves c.retained_payload_limit db)
            (hand_off c env scope key state db)
    by_state received = refuses
    by_state executing = refuses
    by_state outboxed = gives (Evolves-refl _ db)
    by_state result_ready =
        bind-Gives (Evolves c.retained_payload_limit db) (admit_growth _ _ _) _ λ _ _. gives (
          row-Evolves c.retained_payload_limit scope key (λ r. record r { state = outboxed }) row 0
            db e (outboxed-Continues row) (omega arith) λ s. omega (arith, s.quota))
