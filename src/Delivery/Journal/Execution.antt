-- ===== src/Delivery/Journal/Execution.antt =====
-- Commands are executed at most once, and outcomes and generations are never taken back.
use panopticon_agent.Prelude.{
  ℕ, ◌-◌, ◌≤◌, ◌<◌, ◌≡◌, ◌≢◌, inl, inr, refl, sym, ap, subst, ◌∙◌, Bool, true, false, Option, none,
  some, List, [], ◌∷◌, if-both, Bool-cases, update, update-both, first, arith, Text, Result, ok,
  Gives, gives, bind-Gives,
}
use panopticon_agent.Delivery.Journal.Db.{Db, CommandRow}
use panopticon_agent.Delivery.Journal.Transact.{
  Platform, CallEnv, JournalConfig, JournalError, DurableJournal, admit_growth,
}
use panopticon_agent.Delivery.Journal.Identifiers.{next_collector_generation, previous_generation}
use panopticon_agent.Delivery.Journal.Command.{is_scoped, is_received, intend, begin_command}
use panopticon_agent.Delivery.Journal.Inbox.{
  rank, first_head, first_tail, first-Grows, is_scoped-Continues,
}
use panopticon_agent.Delivery.Journal.Evolves.{Sound}
use panopticon_agent.Delivery.Journal.Settlement.{executed}
use panopticon_agent.Delivery.Journal.Generation.{Generated, generate-Generated}
use panopticon_agent.Delivery.Journal.History.{
  Transacted, rolled_back, kept, transact-Transacted, Call, begins, runs, Follows, run-Follows,
  runs-Follows,
}

-- The command is there, and no longer waits for its execution.
pub record Begun (scope key : Text) (db : Db) : Type 0 where
  pub row : CommandRow
  pub found : first (is_scoped scope key) db.commands ≡ some row
  pub state : 1 ≤ rank row.state

Begun-Follows :
    (scope key : Text) (j k : DurableJournal)
    → Sound j.config.retained_payload_limit j.db
    → Follows j k
    → Begun scope key j.db
    → Begun scope key k.db
Begun-Follows scope key j k s f b =
    let (row, found, c) =
      first-Grows (is_scoped scope key) b.row (is_scoped-Continues scope key) (f.evolves.commands s)
        b.found in
    record { row = row; found = found; state = omega (arith, c.forward, b.state) }

first-update :
    (p : CommandRow → Bool) (g : CommandRow → CommandRow) (r : CommandRow) (rs : List CommandRow)
    → ((x : CommandRow) → p (g x) ≡ p x)
    → first p rs ≡ some r
    → first p (update p g rs) ≡ some (g r)
first-update p g r [] same e = absurd (ground arith)
first-update p g r (x ∷ rs) same e = elim (Bool-cases (p x)) [
  | inl t ↦ rw (t, same x, t) (ap (λ y. some (g y)) (first_head p x r rs t e))
  | inr t ↦ rw (t, t) (first-update p g r rs same (first_tail p x r rs t e))
]

executed-scoped :
    (scope key : Text) (r : CommandRow) → is_scoped scope key (executed r) ≡ is_scoped scope key r
executed-scoped scope key r =
    if-both (λ (x : CommandRow). is_scoped scope key x ≡ is_scoped scope key r) (is_received r) _ _
      (λ _. refl) λ _. refl

-- Where the intent is given, the command waited before and is begun afterwards.
intend-Begun :
    (c : JournalConfig) (env : CallEnv) (scope key : Text) (found : Option CommandRow) (db : Db)
    → first (is_scoped scope key) db.commands ≡ found
    → Gives (λ x. x.1 ≡ true → Begun scope key x.0) (intend c env scope key found db)
unfolding intend
intend-Begun c env scope key none db e = gives (λ t. absurd (ground arith))
intend-Begun c env scope key (some row) db e =
    let B = λ (x : Db × Bool). x.1 ≡ true → Begun scope key x.0 in
    if-both (Gives B) (is_received row) _ _
      (λ h. bind-Gives B (admit_growth _ _ _) _ λ _ _. gives (λ _. record {
        row = executed row;
        found =
            ap (first (is_scoped scope key))
              (update-both (is_scoped scope key) is_received _ db.commands)
            ∙ first-update (is_scoped scope key) executed row db.commands
                (executed-scoped scope key) e;
        state = rw h (omega arith);
      }))
      λ _. gives (λ t. absurd (ground arith))

refused_again :
    (c : JournalConfig) (env : CallEnv) (scope key : Text) (db : Db)
    → Begun scope key db
    → Gives (λ x. x.1 ≡ false) (intend c env scope key (first (is_scoped scope key) db.commands) db)
unfolding intend
refused_again c env scope key db b = rw (b.found, not_received b.row b.state) (gives refl)
  where
    not_received : (r : CommandRow) → 1 ≤ rank r.state → is_received r ≡ false
    not_received r h = ground arith

-- What a transaction that succeeds gives, with the database it keeps.
pub on_success :
    {A : Type 0} (P : Db × A → Type 0) (j : DurableJournal)
    (r : DurableJournal × Result JournalError A) (a : A)
    → Transacted P j r
    → r.1 ≡ ok a
    → P (r.0.db, a)
on_success P j _ a (rolled_back k e d c) h = absurd (ground arith)
on_success P j _ a (kept x p) h = subst (λ b. P (x.0, b)) (ground arith) p

begin_command-Begun :
    (env : CallEnv) (scope key : Text) (j : DurableJournal)
    → (begin_command env scope key j).1 ≡ ok true
    → Begun scope key (begin_command env scope key j).0.db
unfolding begin_command
begin_command-Begun env scope key j h =
    on_success (λ x. x.1 ≡ true → Begun scope key x.0) j _ true
      (transact-Transacted _ env _ j (intend-Begun j.config env scope key _ j.db refl)) h refl

begin_command-refused :
    (env : CallEnv) (scope key : Text) (j : DurableJournal)
    → Begun scope key j.db
    → (begin_command env scope key j).1 ≢ ok true
unfolding begin_command
begin_command-refused env scope key j b h = absurd (
    contradiction (
      on_success (λ x. x.1 ≡ false) j _ true
        (transact-Transacted _ env _ j (refused_again j.config env scope key j.db b)) h))
  where
    contradiction : true ≡ false → ⊥
    contradiction e = ground arith

-- In a journal that keeps the invariant: once begin_command has given true for a command, it never
-- gives true for it again, whatever sequence of calls comes in between and whatever the operating
-- system answers.
pub begin_command_once :
    (p : Platform) (calls : List Call) (env later : CallEnv) (scope key : Text) (j : DurableJournal)
    → Sound j.config.retained_payload_limit j.db
    → (begin_command env scope key j).1 ≡ ok true
    → (begin_command later scope key (runs p calls (begin_command env scope key j).0)).1 ≢ ok true
begin_command_once p calls env later scope key j s h =
    let k = (begin_command env scope key j).0 in
    let f = run-Follows p (begins env scope key) j in
    begin_command-refused later scope key (runs p calls k) (
      Begun-Follows scope key k (runs p calls k)
        (subst (λ (c : JournalConfig). Sound c.retained_payload_limit k.db) (sym f.config)
          (f.evolves.sound s))
        (runs-Follows p calls k) (begin_command-Begun env scope key j h))

-- In a journal that keeps the invariant, a command with an outcome is there after any sequence of
-- calls, with the same sealed body and the same sealed outcome.
pub outcome_kept :
    (p : Platform) (calls : List Call) (scope key : Text) (row : CommandRow) (j : DurableJournal)
    → Sound j.config.retained_payload_limit j.db
    → first (is_scoped scope key) j.db.commands ≡ some row
    → 2 ≤ rank row.state
    → (later : CommandRow) × (first (is_scoped scope key) (runs p calls j).db.commands ≡ some later)
      × (later.payload ≡ row.payload)
      × (later.result ≡ row.result)
outcome_kept p calls scope key row j s e h =
    let (later, found, c) =
      first-Grows (is_scoped scope key) row (is_scoped-Continues scope key)
        ((runs-Follows p calls j).evolves.commands s) e in
    (later, found, c.same_payload, c.outcome h)

generated :
    (env : CallEnv) (j : DurableJournal) (n : ℕ)
    → (next_collector_generation env j).1 ≡ ok n
    → Generated j.config.retained_payload_limit j.db ((next_collector_generation env j).0.db, n)
unfolding next_collector_generation
generated env j n h =
    on_success (Generated j.config.retained_payload_limit j.db) j _ n
      (transact-Transacted _ env _ j (generate-Generated j.config env j.db)) h

-- Where next_collector_generation gives n, and after any sequence of calls gives m, n is less than
-- m.
pub generation_increases :
    (p : Platform) (calls : List Call) (env later : CallEnv) (n m : ℕ) (j : DurableJournal)
    → (next_collector_generation env j).1 ≡ ok n
    → (next_collector_generation later (runs p calls (next_collector_generation env j).0)).1 ≡ ok m
    → n < m
generation_increases p calls env later n m j h l =
    let k = (next_collector_generation env j).0 in
    let first_one = generated env j n h in
    let last_one = generated later (runs p calls k) m l in
    let (between, e, low) = (runs-Follows p calls k).evolves.generation.later n first_one.after in
    omega (arith, low, last_one.positive, same between (m - 1) (runs p calls k) e last_one.before)
  where
    same :
        (a b : ℕ) (i : DurableJournal)
        → previous_generation i.db.identifiers ≡ ok a
        → previous_generation i.db.identifiers ≡ ok b
        → a ≡ b
    same a b i e f = ground arith
