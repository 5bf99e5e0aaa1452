-- ===== src/Delivery/Journal/Evolves.antt =====
-- How the journal's database may change: what every call keeps, and the calls one by one.
use panopticon_agent.Prelude.{ℕ, ◌≤◌, ◌≡◌, sym, subst, List, arith, Text, ok, Gives, Gives-map}
use panopticon_agent.Delivery.Journal.Db.{Db, Identifier, retained_bytes}
use panopticon_agent.Delivery.Journal.Transact.{Platform, CallEnv, JournalConfig}
use panopticon_agent.Delivery.Journal.Append.{insert}
use panopticon_agent.Delivery.Journal.Identifiers.{previous_generation}
use panopticon_agent.Delivery.Journal.Accounting.{Accounted}
use panopticon_agent.Delivery.Journal.Inserted.{Inserted, insert-Inserted}
use panopticon_agent.Delivery.Journal.Keys.{UniqueKeys}
use panopticon_agent.Delivery.Journal.Inbox.{Grows, Grows-refl, Grows-trans, Unique}

-- The counters agree with the tables, the quota is kept, and the keys of commands and of
-- observations are distinct.
pub record Sound (limit : ℕ) (db : Db) : Type 0 where
  pub accounted : Accounted db
  pub quota : retained_bytes db ≤ limit
  pub unique : Unique db.commands
  pub distinct : UniqueKeys db.observations

-- A generation that is there does not go back.
pub record Later (ids js : List Identifier) : Type 0 where
  pub later :
      (n : ℕ) → previous_generation ids ≡ ok n → (m : ℕ) × (previous_generation js ≡ ok m) × (n ≤ m)

pub record Evolves (limit : ℕ) (db d : Db) : Type 0 where
  pub sound : Sound limit db → Sound limit d
  pub commands : Sound limit db → Grows db.commands d.commands
  pub generation : Later db.identifiers d.identifiers

pub Later-refl : (ids : List Identifier) → Later ids ids
Later-refl ids = record { later = λ n e. (n, e, omega arith) }

pub Evolves-refl : (limit : ℕ) (db : Db) → Evolves limit db db
Evolves-refl limit db = record {
  sound = λ s. s;
  commands = λ _. Grows-refl db.commands;
  generation = Later-refl db.identifiers;
}

Later-trans : (a b c : List Identifier) → Later a b → Later b c → Later a c
Later-trans a b c f g = record {
  later = λ n e.
      let (m, e2, h) = f.later n e in
      let (k, e3, h2) = g.later m e2 in (k, e3, omega (arith, h, h2));
}

pub Evolves-trans :
    (limit : ℕ) (a b c : Db) → Evolves limit a b → Evolves limit b c → Evolves limit a c
Evolves-trans limit a b c f g = record {
  sound = λ s. g.sound (f.sound s);
  commands = λ s. Grows-trans (f.commands s) (g.commands (f.sound s));
  generation = Later-trans a.identifiers b.identifiers c.identifiers f.generation g.generation;
}

-- A call that changes neither commands nor identifiers.
pub quiet :
    (limit : ℕ) (db d : Db)
    → (Accounted db → Accounted d)
    → (retained_bytes db ≤ limit → UniqueKeys db.observations → retained_bytes d ≤ limit)
    → (UniqueKeys db.observations → UniqueKeys d.observations)
    → d.commands ≡ db.commands
    → d.identifiers ≡ db.identifiers
    → Evolves limit db d
quiet limit db d accounted quota distinct commands ids = record {
  sound = λ s. record {
    accounted = accounted s.accounted;
    quota = quota s.quota s.distinct;
    unique = subst Unique (sym commands) s.unique;
    distinct = distinct s.distinct;
  };
  commands = λ _. subst (Grows db.commands) (sym commands) (Grows-refl db.commands);
  generation = subst (Later db.identifiers) (sym ids) (Later-refl db.identifiers);
}

pub Inserted-Evolves :
    (p : Platform) (c : JournalConfig) (env : CallEnv) (line key : Text) (db d : Db)
    → Inserted p c env line key db d
    → Evolves c.retained_payload_limit db d
Inserted-Evolves p c env line key db d i =
    quiet c.retained_payload_limit db d i.accounted (λ h _. i.quota h) i.distinct i.commands
      i.identifiers

pub insert-Evolves :
    (p : Platform) (c : JournalConfig) (env : CallEnv) (line key : Text) (db : Db)
    → Gives (Evolves c.retained_payload_limit db) (insert p c env line key db)
insert-Evolves p c env line key db =
    Gives-map (Inserted p c env line key db) (Evolves c.retained_payload_limit db)
      (insert p c env line key db) (insert-Inserted p c env line key db)
      (Inserted-Evolves p c env line key db)
