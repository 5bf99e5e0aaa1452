-- ===== src/Delivery/Journal/Identifiers.antt =====
-- The persistent identifiers and the generations (src/delivery/journal.cpp).
use panopticon_agent.Prelude.{
  ℕ, ◌+◌, ◌-◌, Bool, not, ◌&&◌, Option, none, some, List, [], ◌∷◌, ◌++◌, leb, ◌==◌, if◌then◌else◌,
  length, take, Text, codes, text_eq, first, size_mod, to_string, from_chars, Result, ok, err,
  ◌>>=◌, or_fail,
}
use panopticon_agent.Delivery.Journal.Db.{Db, Identifier}
use panopticon_agent.Delivery.Journal.Transact.{
  Platform, CallEnv, JournalConfig, JournalError, digest_failed, entropy_failed, invalid_name,
  corrupt_generation, exhausted_generation, DurableJournal, admit_growth, transact,
}

abbrev pub is_name : Text → Identifier → Bool
is_name name i = text_eq i.name name

-- A name of the caller's: not one of the journal's own, which begin with two underscores.
unfoldable pub is_identifier_name : Text → Bool
is_identifier_name name =
    not (length name == 0) && leb (length name) 128 && not (text_eq (take 2 name) (codes "__"))

-- What `persistent_identifier` does with the row it finds.
unfoldable pub identify_at :
    Platform
    → JournalConfig
    → CallEnv
    → Text
    → Option Identifier
    → Db
    → Result JournalError (Db × Text)
identify_at p c env name (some i) db = ok (db, i.value)
identify_at p c env name none db = or_fail env.random entropy_failed >>= λ random.
    or_fail (p.digest random) digest_failed >>= λ value.
    admit_growth c (env.sample 0) (length name + length value) >>= λ _. ok (
      record db { identifiers = db.identifiers ++ record { name = name; value = value } ∷ [] },
      value,
    )

unfoldable pub identify :
    Platform → JournalConfig → CallEnv → Text → Db → Result JournalError (Db × Text)
identify p c env name db = identify_at p c env name (first (is_name name) db.identifiers) db

unfoldable pub persistent_identifier :
    Platform → CallEnv → Text → DurableJournal → DurableJournal × Result JournalError Text
persistent_identifier p env name j =
    if is_identifier_name name
    then transact env (identify p j.config env name) j
    else (j, err invalid_name)

abbrev pub generation_name : Text
generation_name = codes "__collector_generation"

-- The generation of the row that is found; 0 where there is none.
unfoldable pub generation_of : Option Identifier → Result JournalError ℕ
generation_of none = ok 0
generation_of (some i) = or_fail (from_chars i.value) corrupt_generation

unfoldable pub previous_generation : List Identifier → Result JournalError ℕ
previous_generation ids = generation_of (first (is_name generation_name) ids)

-- `INSERT INTO identifiers ... ON CONFLICT(name) DO UPDATE`: the row in conflict changes.
unfoldable pub put_identifier : Identifier → List Identifier → List Identifier
put_identifier i [] = i ∷ []
put_identifier i (x ∷ xs) =
    let rest = put_identifier i xs in if is_name i.name x then i ∷ xs else x ∷ rest

unfoldable pub generate : JournalConfig → CallEnv → Db → Result JournalError (Db × ℕ)
generate c env db = previous_generation db.identifiers >>= λ previous.
    if previous == size_mod - 1
    then err exhausted_generation
    else (admit_growth c (env.sample 0) 64 >>= λ _. ok (
      record db {
        identifiers =
            put_identifier (record { name = generation_name; value = to_string (previous + 1) })
              db.identifiers;
      },
      previous + 1,
    ))

unfoldable pub next_collector_generation :
    CallEnv → DurableJournal → DurableJournal × Result JournalError ℕ
next_collector_generation env j = transact env (generate j.config env) j
