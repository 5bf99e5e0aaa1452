-- ===== src/Delivery/Journal/Queue.antt =====
-- The journal as a queue: what `append` adds, and what `peek` gives.
use panopticon_agent.Prelude.{
  ℕ, zero, suc, ◌-◌, ◌≤◌, ◌<◌, ◌≡◌, inl, inr, refl, sym, ap, subst, ◌∙◌, true, false, Option, none,
  some, List, [], ◌∷◌, map, ◌==◌, if-both, Bool-cases, length, length-take, take, select, first,
  arith, Text, Result, ok, err, ◌>>=◌, Gives, gives, Gives-bind, require-Gives, or_fail-Gives,
}
use panopticon_agent.Delivery.Journal.Db.{Db, Observation, is_pending}
use panopticon_agent.Delivery.Journal.Transact.{
  Platform, CallEnv, JournalError, digest_failed, invalid_observation, DurableJournal, transact,
  with_digest,
}
use panopticon_agent.Delivery.Journal.Append.{is_observation, insert, append, done}
use panopticon_agent.Delivery.Journal.Read.{
  JournalBatch, JournalInspectionEntry, ndjson, fill, sealed_row, is_sendable, original_entry,
  batch_of, peek,
}
use panopticon_agent.Delivery.Journal.Inserted.{Inserted, Queued, insert-Inserted}
use panopticon_agent.Delivery.Journal.History.{
  Transacted, rolled_back, kept, transact-Transacted, done-Gives,
}
use panopticon_agent.Delivery.Journal.Filled.{Opens, Filled, fill-Filled}

-- A call of `append` either fails and leaves the database as it was, or succeeds with the line in
-- the queue.
pub data Appended (p : Platform) (env : CallEnv) (line : Text) (j : DurableJournal)
    : DurableJournal × Result JournalError (Unit {0}) → Type 0 where
  failed : (k : DurableJournal) (e : JournalError) → k.db ≡ j.db → Appended p env line j (k, err e)
  queued :
      (key : Text) (k : DurableJournal)
      → p.digest line ≡ some key
      → is_observation j.config line ≡ true
      → Queued p env line key j.db k.db
      → Appended p env line j (k, ok tt)

Transacted-Appended :
    (p : Platform) (env : CallEnv) (line key : Text) (j : DurableJournal)
    (r : DurableJournal × Result JournalError (Unit {0}))
    → p.digest line ≡ some key
    → is_observation j.config line ≡ true
    → Transacted (λ x. Inserted p j.config env line key j.db x.0) j r
    → Appended p env line j r
Transacted-Appended p env line key j _ d o (rolled_back k e same c) = failed k e same
Transacted-Appended p env line key j _ d o (kept x i) =
    queued key (record j { db = x.0 }) d o i.queued

-- A call of append either gives an error and leaves the database as it was, or succeeds, for a line
-- that is an observation: then the observations are those before, if the key of the line was there,
-- and otherwise they have one more row, pending and last, with the sealed line.
pub append-Appended :
    (p : Platform) (env : CallEnv) (line : Text) (j : DurableJournal)
    → Appended p env line j (append p env line j)
unfolding append with_digest
append-Appended p env line j =
    if-both (Appended p env line j) (is_observation j.config line) _ _
      (λ o. by_digest (p.digest line) refl o) λ _. failed j invalid_observation refl
  where
    by_digest :
        (hash : Option Text)
        → p.digest line ≡ hash
        → is_observation j.config line ≡ true
        → Appended p env line j (
            with_digest hash
              (λ key. transact env (λ db. done (insert p j.config env line key db)) j)
              j)
    by_digest none e o = failed j digest_failed refl
    by_digest (some key) e o = Transacted-Appended p env line key j _ e o (
        transact-Transacted (λ x. Inserted p j.config env line key j.db x.0) env _ j
          (done-Gives _ _ (insert-Inserted p j.config env line key j.db)))

-- A batch holds the oldest pending rows of one protocol, that of the oldest pending row, in order
-- and unsealed: at least one, and within the limits of the call.
pub record Oldest (p : Platform) (max_events max_bytes : ℕ) (db : Db) (batch : JournalBatch)
    : Type 0 where
  pub head : Observation
  pub is_head : first is_pending db.observations ≡ some head
  pub same_protocol : batch.protocol ≡ head.protocol
  pub opens :
      Opens p
        (take (length batch.entries) (select (is_sendable head.protocol) db.observations))
        batch.entries
  pub events : length batch.entries ≤ max_events
  pub bytes : length (ndjson batch.entries) ≤ max_bytes
  pub some_event : 0 < length batch.entries

-- There is no batch where nothing is pending, and otherwise there is one like that.
pub data Peeked (p : Platform) (max_events max_bytes : ℕ) (db : Db)
    : Option JournalBatch → Type 0 where
  empty : first is_pending db.observations ≡ none → Peeked p max_events max_bytes db none
  oldest :
      {batch : JournalBatch}
      → Oldest p max_events max_bytes db batch
      → Peeked p max_events max_bytes db (some batch)

head-select :
    (head : Observation) (rows : List Observation)
    → first is_pending rows ≡ some head
    → 0 < length (select (is_sendable head.protocol) rows)
head-select head [] e = absurd (ground arith)
head-select head (r ∷ rs) e = elim (Bool-cases (is_pending r)) [
  | inl t ↦ rw (t, sym (heads r head rs t e), own r.protocol) (omega arith)
  | inr t ↦ rw t (head-select head rs (tails r head rs t e))
]
  where
    own : (n : ℕ) → (n == n) ≡ true
    own n = ground arith

    heads :
        (r head : Observation) (rs : List Observation)
        → is_pending r ≡ true
        → first is_pending (r ∷ rs) ≡ some head
        → r ≡ head
    heads r head rs t e = ground arith

    tails :
        (r head : Observation) (rs : List Observation)
        → is_pending r ≡ false
        → first is_pending (r ∷ rs) ≡ some head
        → first is_pending rs ≡ some head
    tails r head rs t e = ground arith

length-map : (es : List JournalInspectionEntry) → length (map original_entry es) ≡ length es
length-map [] = refl
length-map (e ∷ es) = ap (λ n. suc n) (length-map es)

take-take :
    {A : Type 0} (n m : ℕ) (xs : List A) → n ≤ length (take m xs) → take n (take m xs) ≡ take n xs
take-take zero m xs h = refl
take-take (suc n) zero xs h = absurd (omega arith)
take-take (suc n) (suc m) [] h = refl
take-take (suc n) (suc m) (x ∷ xs) h = ap (λ ys. x ∷ ys) (take-take n m xs (omega (arith, h)))

batch-Oldest :
    (p : Platform) (max_events max_bytes : ℕ) (db : Db) (head : Observation)
    (es : List JournalInspectionEntry)
    → 0 < max_events
    → first is_pending db.observations ≡ some head
    → Filled p
        (max_bytes - 0)
        true
        (take max_events (select (is_sendable head.protocol) db.observations))
        es
    → Gives (Peeked p max_events max_bytes db) (batch_of p head.protocol es)
unfolding batch_of
batch-Oldest p max_events max_bytes db head [] m e f = absurd (
    omega (
      arith,
      f.progress refl (
          omega (
            arith,
            m,
            head-select head db.observations e,
            length-take max_events (select (is_sendable head.protocol) db.observations),
          )),
    ))
batch-Oldest p max_events max_bytes db head (x ∷ xs) m e f =
    or_fail-Gives (Peeked p max_events max_bytes db) (p.digest _) _ _ λ hash _. gives (
      oldest (record {
        head = head;
        is_head = e;
        same_protocol = refl;
        opens =
            subst (λ rows. Opens p rows (map original_entry (x ∷ xs)))
              (take-take (length (x ∷ xs)) max_events
                  (select (is_sendable head.protocol) db.observations) f.bounded
                ∙ ap (λ n. take n (select (is_sendable head.protocol) db.observations))
                    (sym (length-map (x ∷ xs))))
              f.opens;
        events = omega (
          arith,
          f.bounded,
          length-map (x ∷ xs),
          length-take max_events (select (is_sendable head.protocol) db.observations),
        );
        bytes = omega (arith, f.bytes);
        some_event = omega arith;
      }))

-- Where peek gives no error: it gives no batch only if no observation is pending, and otherwise a
-- batch of the protocol of the oldest pending observation. The entries of the batch are the oldest
-- pending rows of that protocol in order, with their payloads unsealed; there is at least one, and
-- their number and the length of their text keep within the limits of the call.
pub peek-Oldest :
    (p : Platform) (max_events max_bytes : ℕ) (j : DurableJournal)
    → Gives (Peeked p max_events max_bytes j.db) (peek p max_events max_bytes j)
unfolding peek
peek-Oldest p max_events max_bytes j =
    require-Gives (Peeked p max_events max_bytes j.db) _ _ _
      λ limits. by_head (ground arith) (first is_pending j.db.observations) refl
  where
    by_head :
        0 < max_events
        → (head : Option Observation) → first is_pending j.db.observations ≡ head
        → Gives {E = JournalError} (Peeked p max_events max_bytes j.db) (elim head [
          | none ↦ ok none
          | some head ↦
              fill p max_bytes 0 true (
                map sealed_row
                  (take max_events (select (is_sendable head.protocol) j.db.observations)))
              >>= batch_of p head.protocol
        ])
    by_head m none e = gives (empty e)
    by_head m (some head) e =
        Gives-bind
          (Filled p (max_bytes - 0) true
            (take max_events (select (is_sendable head.protocol) j.db.observations)))
          (Peeked p max_events max_bytes j.db) _ _ (fill-Filled p max_bytes 0 true _ (omega arith))
          λ es f. batch-Oldest p max_events max_bytes j.db head es m e f
