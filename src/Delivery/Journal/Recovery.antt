-- ===== src/Delivery/Journal/Recovery.antt =====
-- A source that restarts finds the checkpoint it last committed, and may repeat its last call.
use panopticon_agent.Prelude.{
  ℕ, ◌+◌, ◌<◌, ◌≡◌, refl, sym, ap, subst, ◌∙◌, true, false, not, ◌&&◌, Option, none, some, List, [],
  ◌∷◌, ◌==◌, ne→==_false, if-both, length, arith, Text, text_eq_refl, first, size_mod, to_string,
  from_chars, from_chars-to_string, to_string-IsCanonical, IsCanonical, Result, ok, ◌>>=◌, require,
  or_fail,
}
use panopticon_agent.Delivery.Journal.Db.{Db, CheckpointRow}
use panopticon_agent.Delivery.Journal.Transact.{
  Platform, CallEnv, IsSeal, JournalConfig, JournalError, DurableJournal, transact, with_digest,
}
use panopticon_agent.Delivery.Journal.Append.{is_observation, done}
use panopticon_agent.Delivery.Journal.Checkpoint.{
  validate_source, checkpoint_revision, current_revision, is_source, is_checkpoint, source_entropy,
  source_checkpoint, upsert, fence, retried, checkpointed, append_checkpointed,
}
use panopticon_agent.Delivery.Journal.Fence.{
  Fenced, retry, kept_row, Committed, again, committed, checkpointed-Committed,
}
use panopticon_agent.Delivery.Journal.History.{
  Transacted, rolled_back, kept, transact-Transacted, done-Gives,
}

first-upsert :
    (row : CheckpointRow) (rows : List CheckpointRow)
    → first (is_source row.source) (upsert row rows) ≡ some row
unfolding upsert
first-upsert row [] = rw (text_eq_refl row.source) refl
first-upsert row (r ∷ rs) = ground (arith, first-upsert row rs, text_eq_refl row.source)

canonical_revision :
    (s : Text) (n : ℕ)
    → IsCanonical n s
    → from_chars s ≡ some n
    → 0 < n
    → checkpoint_revision s ≡ ok n
unfolding checkpoint_revision ◌>>=◌ or_fail
canonical_revision [] n i e h = absurd i
canonical_revision (c ∷ s) n i e h = rw (not_zero, e, ne→==_false n 0 (omega (arith, h))) refl
  where
    not_zero : (c == b'0' && not (length s == 0)) ≡ false
    not_zero = ground arith

-- A revision that is printed is the one that is read.
revision-to_string : (n : ℕ) → 0 < n → n < size_mod → checkpoint_revision (to_string n) ≡ ok n
revision-to_string n p h =
    canonical_revision (to_string n) n (to_string-IsCanonical n) (from_chars-to_string n h) p

-- The table holds the checkpoint of a call.
pub record Holds (p : Platform) (source checkpoint key : Text) (expected : ℕ) (db : Db)
    : Type 0 where
  pub row : CheckpointRow
  pub found : first (is_source source) db.source_checkpoints ≡ some row
  pub revision : checkpoint_revision row.revision ≡ ok (expected + 1)
  pub digest : row.record_digest ≡ key
  pub value : p.unseal (source_entropy source) row.value ≡ some checkpoint

retry-Holds :
    {p : Platform} {source checkpoint key : Text} {expected : ℕ} {db : Db}
    → Fenced p source checkpoint key expected db.source_checkpoints none
    → Holds p source checkpoint key expected db
retry-Holds (retry row f r d v) = record {
  row = row;
  found = f;
  revision = r;
  digest = d;
  value = v;
}

Committed-Holds :
    (p : Platform) (c : JournalConfig) (env : CallEnv) (line source checkpoint key : Text)
    (expected : ℕ) (db d : Db)
    → IsSeal p env
    → expected + 1 < size_mod
    → Committed p c env line source checkpoint key expected db d
    → Holds p source checkpoint key expected d
Committed-Holds p c env line source checkpoint key expected db d seal h (again f e) =
    subst (Holds p source checkpoint key expected) (sym e) (retry-Holds f)
Committed-Holds p c env line source checkpoint key expected db d seal h (committed m r i s) =
    record {
      row = kept_row source checkpoint expected key s.encrypted;
      found =
          ap (first (is_source source)) s.rows
          ∙ first-upsert (kept_row source checkpoint expected key s.encrypted) m.source_checkpoints;
      revision = revision-to_string (expected + 1) (omega arith) h;
      digest = refl;
      value = seal (source_entropy source) checkpoint s.encrypted s.sealed;
    }

-- With that checkpoint kept, the source reads it.
Holds-read :
    (p : Platform) (source checkpoint key : Text) (expected : ℕ) (j : DurableJournal)
    → validate_source source ≡ true
    → Holds p source checkpoint key expected j.db
    → source_checkpoint p source j
      ≡ ok (some (record { revision = expected + 1; value = checkpoint }))
unfolding source_checkpoint ◌>>=◌ require or_fail
Holds-read p source checkpoint key expected j v h = rw (v, h.found, h.revision, h.value) refl

-- What is known where `append_checkpointed` succeeds.
record Success (p : Platform) (line source checkpoint : Text) (expected : ℕ) (j k : DurableJournal)
    : Type 0 where
  key : Text
  digest : p.digest line ≡ some key
  valid : validate_source source ≡ true
  bounded : is_checkpoint checkpoint expected ≡ true
  observation : is_observation j.config line ≡ true
  config : k.config ≡ j.config
  holds : Holds p source checkpoint key expected k.db

append_checkpointed-Success :
    (p : Platform) (env : CallEnv) (line source checkpoint : Text) (expected : ℕ)
    (j : DurableJournal)
    → IsSeal p env
    → expected < size_mod
    → (append_checkpointed p env line source checkpoint expected j).1 ≡ ok tt
    → Success p line source checkpoint expected j
        (append_checkpointed p env line source checkpoint expected j).0
unfolding append_checkpointed with_digest
append_checkpointed-Success p env line source checkpoint expected j seal small =
    if-both P (not (validate_source source)) _ _ (λ _ h. absurd (ground arith))
      λ v.
        if-both P (not (is_checkpoint checkpoint expected)) _ _ (λ _ h. absurd (ground arith))
          λ b.
            if-both P (not (is_observation j.config line)) _ _ (λ _ h. absurd (ground arith))
              λ o. by_digest v b o (p.digest line) refl
  where
    P : DurableJournal × Result JournalError (Unit {0}) → Type 0
    P r = r.1 ≡ ok tt → Success p line source checkpoint expected j r.0

    by_transaction :
        (key : Text) (r : DurableJournal × Result JournalError (Unit {0}))
        → not (validate_source source) ≡ false
        → not (is_checkpoint checkpoint expected) ≡ false
        → not (is_observation j.config line) ≡ false
        → p.digest line ≡ some key
        → Transacted
            (λ (x : Db × Unit {0}).
              Committed p j.config env line source checkpoint key expected j.db x.0)
            j
            r
        → P r
    by_transaction key _ v b o d (rolled_back k e same c) h = absurd (ground arith)
    by_transaction key _ v b o d (kept x m) h = record {
      key = key;
      digest = d;
      valid = ground arith;
      bounded = ground arith;
      observation = ground arith;
      config = refl;
      holds =
          Committed-Holds p j.config env line source checkpoint key expected j.db x.0 seal
            (ground arith) m;
    }

    by_digest :
        not (validate_source source) ≡ false
        → not (is_checkpoint checkpoint expected) ≡ false
        → not (is_observation j.config line) ≡ false
        → (hash : Option Text) → p.digest line ≡ hash
        → P (
            with_digest hash
              (λ key.
                transact env
                  (λ db. done (checkpointed p j.config env line source checkpoint expected key db))
                  j)
              j)
    by_digest v b o none e = λ h. absurd (ground arith)
    by_digest v b o (some key) e = by_transaction key _ v b o e (
        transact-Transacted _ env _ j (
          done-Gives _ _
            (checkpointed-Committed p j.config env line source checkpoint expected key j.db)))

-- Where unsealing gives back what was sealed and the expected revision is a 64-bit value: after a
-- call of append_checkpointed that succeeds, the source reads back the checkpoint of that call,
-- with the revision one above the expected one.
pub checkpoint_recovered :
    (p : Platform) (env : CallEnv) (line source checkpoint : Text) (expected : ℕ)
    (j : DurableJournal)
    → IsSeal p env
    → expected < size_mod
    → (append_checkpointed p env line source checkpoint expected j).1 ≡ ok tt
    → source_checkpoint p source (append_checkpointed p env line source checkpoint expected j).0
      ≡ ok (some (record { revision = expected + 1; value = checkpoint }))
checkpoint_recovered p env line source checkpoint expected j seal small h =
    let s = append_checkpointed-Success p env line source checkpoint expected j seal small h in
    Holds-read p source checkpoint s.key expected _ s.valid s.holds

Holds-fence :
    (p : Platform) (source checkpoint key : Text) (expected : ℕ) (db : Db)
    → Holds p source checkpoint key expected db
    → fence p source checkpoint key expected db ≡ ok none
unfolding fence current_revision retried ◌>>=◌ require or_fail
Holds-fence p source checkpoint key expected db h =
    rw
      (
        h.found,
        h.revision,
        ne→==_false (expected + 1) expected (λ e. omega arith),
        same (expected + 1),
        h.digest,
        text_eq_refl key,
        h.value,
        text_eq_refl checkpoint,
      )
      refl
  where
    same : (n : ℕ) → (n == n) ≡ true
    same n = ground arith

repeated :
    (p : Platform) (env : CallEnv) (line source checkpoint : Text) (expected : ℕ)
    (j k : DurableJournal)
    → Success p line source checkpoint expected j k
    → env.begin_ok ≡ true
    → env.commit_ok ≡ true
    → append_checkpointed p env line source checkpoint expected k ≡ (k, ok tt)
unfolding append_checkpointed with_digest transact checkpointed ◌>>=◌
repeated p env line source checkpoint expected j k s b c =
    rw
      (
        s.valid,
        s.bounded,
        subst (λ (x : JournalConfig). is_observation x line ≡ true) (sym s.config) s.observation,
        s.digest,
        b,
        Holds-fence p source checkpoint s.key expected k.db s.holds,
        c,
      )
      refl

-- Where unsealing gives back what was sealed and the expected revision is a 64-bit value: after a
-- call of append_checkpointed that succeeds, the same call succeeds again, if its transaction
-- begins and commits, and changes nothing.
pub repeated_append_checkpointed :
    (p : Platform) (env later : CallEnv) (line source checkpoint : Text) (expected : ℕ)
    (j : DurableJournal)
    → IsSeal p env
    → expected < size_mod
    → (append_checkpointed p env line source checkpoint expected j).1 ≡ ok tt
    → later.begin_ok ≡ true
    → later.commit_ok ≡ true
    → append_checkpointed p later line source checkpoint expected
        (append_checkpointed p env line source checkpoint expected j).0
      ≡ ((append_checkpointed p env line source checkpoint expected j).0, ok tt)
repeated_append_checkpointed p env later line source checkpoint expected j seal small h b c =
    repeated p later line source checkpoint expected j _
      (append_checkpointed-Success p env line source checkpoint expected j seal small h) b c
