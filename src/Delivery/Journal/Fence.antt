-- ===== src/Delivery/Journal/Fence.antt =====
-- What the two calls that keep a checkpoint do to the journal's database.
use panopticon_agent.Prelude.{
  ℕ, ◌+◌, ◌≤◌, ◌≡◌, refl, sym, ap, subst, ◌∙◌, true, ◌&&◌, Option, none, some, List, [], ◌∷◌, ◌==◌,
  ==_iff, to_string, leb, if-both, length, arith, Text, text_eq, text_eq→eq, first, total, ok,
  ◌>>=◌, Gives, gives, refuses, Gives-bind, Gives-map, bind-Gives, require-Gives, or_fail-Gives,
}
use panopticon_agent.Delivery.Journal.Db.{Db, CheckpointRow, checkpoint_bytes, retained_bytes}
use panopticon_agent.Delivery.Journal.Transact.{Platform, CallEnv, JournalConfig, admit_growth}
use panopticon_agent.Delivery.Journal.Append.{insert}
use panopticon_agent.Delivery.Journal.Checkpoint.{
  is_source, old_bytes, fence, fits_checkpoint, upsert, save_checkpoint, checkpointed, advanced,
  checkpoint_revision, current_revision, retried, source_entropy,
}
use panopticon_agent.Delivery.Journal.Accounting.{Accounted}
use panopticon_agent.Delivery.Journal.Inserted.{Inserted, insert-Inserted}
use panopticon_agent.Delivery.Journal.Evolves.{
  Evolves, Evolves-refl, Evolves-trans, quiet, Inserted-Evolves,
}

-- What the comparison with the expected revision tells: either the checkpoint of this very call is
-- kept already, or the revision kept is the expected one.
pub data Fenced (p : Platform) (source checkpoint marker : Text) (expected : ℕ)
    (rows : List CheckpointRow) : Option ℕ → Type 0 where
  retry :
      (row : CheckpointRow)
      → first (is_source source) rows ≡ some row
      → checkpoint_revision row.revision ≡ ok (expected + 1)
      → row.record_digest ≡ marker
      → p.unseal (source_entropy source) row.value ≡ some checkpoint
      → Fenced p source checkpoint marker expected rows none
  proceed :
      current_revision (first (is_source source) rows) ≡ ok expected
      → Fenced p source checkpoint marker expected rows
          (some (old_bytes (first (is_source source) rows)))

retried-Fenced :
    (p : Platform) (source checkpoint marker : Text) (expected : ℕ) (rows : List CheckpointRow)
    (existing : Option CheckpointRow)
    → first (is_source source) rows ≡ existing
    → current_revision existing ≡ ok (expected + 1)
    → Gives
        (Fenced p source checkpoint marker expected rows)
        (retried p source checkpoint marker existing)
unfolding retried current_revision
retried-Fenced p source checkpoint marker expected rows none e r = refuses
retried-Fenced p source checkpoint marker expected rows (some row) e r =
    let F = Fenced p source checkpoint marker expected rows in
    require-Gives F (text_eq row.record_digest marker) _ _ λ d.
      or_fail-Gives F (p.unseal (source_entropy source) row.value) _ _ λ value u.
        if-both (Gives F) (text_eq value checkpoint) _ _
          (λ t. gives (
            retry row e r (text_eq→eq _ _ d)
              (u ∙ ap (λ v. some v) (text_eq→eq value checkpoint t))))
          λ _. refuses

pub fence-Fenced :
    (p : Platform) (source checkpoint marker : Text) (expected : ℕ) (db : Db)
    → Gives
        (Fenced p source checkpoint marker expected db.source_checkpoints)
        (fence p source checkpoint marker expected db)
unfolding fence
fence-Fenced p source checkpoint marker expected db =
    let F = Fenced p source checkpoint marker expected db.source_checkpoints in
    let existing = first (is_source source) db.source_checkpoints in
    bind-Gives F (current_revision existing) _ λ revision r.
      if-both (Gives F) (revision == expected) _ _
        (λ same.
          if-both (Gives F) (revision == 0 && leb 64 (length db.source_checkpoints)) _ _
            (λ _. refuses)
            λ _. gives (proceed (r ∙ ap (λ n. ok n) ((==_iff revision expected).0 same))))
        λ _.
          if-both (Gives F) (revision == expected + 1) _ _
            (λ next.
              retried-Fenced p source checkpoint marker expected db.source_checkpoints existing refl
                (r ∙ ap (λ n. ok n) ((==_iff revision (expected + 1)).0 next)))
            λ _. refuses

total-upsert :
    (row : CheckpointRow) (rows : List CheckpointRow)
    → total checkpoint_bytes (upsert row rows) + old_bytes (first (is_source row.source) rows)
      ≡ total checkpoint_bytes rows + row.bytes
unfolding upsert
total-upsert row [] = omega arith
total-upsert row (r ∷ rs) = ground (arith, total-upsert row rs)

-- The row that a call keeps.
abbrev pub kept_row : Text → Text → ℕ → Text → Text → CheckpointRow
kept_row source checkpoint expected marker encrypted = record {
  source = source;
  revision = to_string (expected + 1);
  value = encrypted;
  record_digest = marker;
  bytes = length checkpoint;
}

abbrev pub with_checkpoints : List CheckpointRow → Db → Db
with_checkpoints rows db = record db { source_checkpoints = rows }

with_checkpoints-Accounted :
    (rows : List CheckpointRow) (db : Db) → Accounted db → Accounted (with_checkpoints rows db)
with_checkpoints-Accounted rows db a = record {
  retained = a.retained;
  pending_count = a.pending_count;
  dead_count = a.dead_count;
  history_bytes = a.history_bytes;
  history_count = a.history_count;
  graph_count = a.graph_count;
  graph_unresolved = a.graph_unresolved;
}

fits_checkpoint→le :
    (limit : ℕ) (row : CheckpointRow) (db : Db)
    → fits_checkpoint limit
        (retained_bytes db)
        (old_bytes (first (is_source row.source) db.source_checkpoints))
        row.bytes
      ≡ true
    → retained_bytes (with_checkpoints (upsert row db.source_checkpoints) db) ≤ limit
unfolding fits_checkpoint retained_bytes
fits_checkpoint→le limit row db h = ground (arith, total-upsert row db.source_checkpoints)

-- The table has the row of this call, and nothing else has changed.
pub record Saved (p : Platform) (c : JournalConfig) (env : CallEnv)
    (source checkpoint marker : Text) (expected : ℕ) (db d : Db) : Type 0 where
  pub evolves : Evolves c.retained_payload_limit db d
  pub encrypted : Text
  pub sealed : env.seal (source_entropy source) checkpoint ≡ some encrypted
  pub rows :
      d.source_checkpoints
      ≡ upsert (kept_row source checkpoint expected marker encrypted) db.source_checkpoints
  pub observations : d.observations ≡ db.observations

pub save_checkpoint-Saved :
    (p : Platform) (c : JournalConfig) (env : CallEnv) (sample : ℕ)
    (source checkpoint marker : Text) (expected old : ℕ) (db : Db)
    → old_bytes (first (is_source source) db.source_checkpoints) ≡ old
    → Gives
        (Saved p c env source checkpoint marker expected db)
        (save_checkpoint p c env sample source checkpoint marker expected old db)
unfolding save_checkpoint
save_checkpoint-Saved p c env sample source checkpoint marker expected old db o =
    let S = Saved p c env source checkpoint marker expected db in
    require-Gives S _ _ _ λ fits.
      or_fail-Gives S (env.seal (source_entropy source) checkpoint) _ _ λ encrypted sealed.
        bind-Gives S (admit_growth _ _ _) _ λ _ _. gives (record {
          evolves =
              quiet c.retained_payload_limit db _ (with_checkpoints-Accounted _ db)
                (λ _ _.
                  fits_checkpoint→le c.retained_payload_limit
                    (kept_row source checkpoint expected marker encrypted) db
                    (subst
                      (λ n.
                        fits_checkpoint c.retained_payload_limit (retained_bytes db) n
                          (length checkpoint)
                        ≡ true)
                      (sym o) fits))
                (λ u. u) refl refl;
          encrypted = encrypted;
          sealed = sealed;
          rows = refl;
          observations = refl;
        })

-- What `append_checkpointed` leaves behind: the kept state of an identical call, or the
-- observation with its checkpoint.
pub data Committed (p : Platform) (c : JournalConfig) (env : CallEnv)
    (line source checkpoint key : Text) (expected : ℕ) (db d : Db) : Type 0 where
  again :
      Fenced p source checkpoint key expected db.source_checkpoints none
      → d ≡ db
      → Committed p c env line source checkpoint key expected db d
  committed :
      (m : Db)
      → current_revision (first (is_source source) db.source_checkpoints) ≡ ok expected
      → Inserted p c env line key db m
      → Saved p c env source checkpoint key expected m d
      → Committed p c env line source checkpoint key expected db d

proceed_old :
    {p : Platform} {source checkpoint marker : Text} {expected old : ℕ} {rows : List CheckpointRow}
    → Fenced p source checkpoint marker expected rows (some old)
    → (old_bytes (first (is_source source) rows) ≡ old)
      × (current_revision (first (is_source source) rows) ≡ ok expected)
proceed_old (proceed e) = (refl, e)

after_fence :
    (p : Platform) (c : JournalConfig) (env : CallEnv) (line source checkpoint : Text)
    (expected : ℕ) (key : Text) (db : Db) (fenced : Option ℕ)
    → Fenced p source checkpoint key expected db.source_checkpoints fenced
    → Gives (Committed p c env line source checkpoint key expected db) (elim fenced [
      | none ↦ ok db
      | some old ↦ insert p c env line key db >>= λ inserted.
          save_checkpoint p c env 1 source checkpoint key expected old inserted
    ])
after_fence p c env line source checkpoint expected key db none f = gives (again f refl)
after_fence p c env line source checkpoint expected key db (some old) f =
    let C = Committed p c env line source checkpoint key expected db in
    Gives-bind (Inserted p c env line key db) C _ _ (insert-Inserted p c env line key db) λ m i.
      Gives-map (Saved p c env source checkpoint key expected m) C _
        (save_checkpoint-Saved p c env 1 source checkpoint key expected old m (
          ap (λ rows. old_bytes (first (is_source source) rows)) i.checkpoints ∙ (proceed_old f).0))
        λ d s. committed m (proceed_old f).1 i s

pub checkpointed-Committed :
    (p : Platform) (c : JournalConfig) (env : CallEnv) (line source checkpoint : Text)
    (expected : ℕ) (key : Text) (db : Db)
    → Gives
        (Committed p c env line source checkpoint key expected db)
        (checkpointed p c env line source checkpoint expected key db)
unfolding checkpointed
checkpointed-Committed p c env line source checkpoint expected key db =
    Gives-bind (Fenced p source checkpoint key expected db.source_checkpoints)
      (Committed p c env line source checkpoint key expected db) _ _
      (fence-Fenced p source checkpoint key expected db)
      (after_fence p c env line source checkpoint expected key db)

pub Committed-Evolves :
    (p : Platform) (c : JournalConfig) (env : CallEnv) (line source checkpoint key : Text)
    (expected : ℕ) (db d : Db)
    → Committed p c env line source checkpoint key expected db d
    → Evolves c.retained_payload_limit db d
Committed-Evolves p c env line source checkpoint key expected db d (again f e) =
    subst (Evolves c.retained_payload_limit db) (sym e) (Evolves-refl c.retained_payload_limit db)
Committed-Evolves p c env line source checkpoint key expected db d (committed m r i s) =
    Evolves-trans c.retained_payload_limit db m d (Inserted-Evolves p c env line key db m i)
      s.evolves

after_fence_alone :
    (p : Platform) (c : JournalConfig) (env : CallEnv) (source checkpoint : Text) (expected : ℕ)
    (marker : Text) (db : Db) (fenced : Option ℕ)
    → Fenced p source checkpoint marker expected db.source_checkpoints fenced
    → Gives (Evolves c.retained_payload_limit db) (elim fenced [
      | none ↦ ok db
      | some old ↦ save_checkpoint p c env 0 source checkpoint marker expected old db
    ])
after_fence_alone p c env source checkpoint expected marker db none f =
    gives (Evolves-refl c.retained_payload_limit db)
after_fence_alone p c env source checkpoint expected marker db (some old) f =
    Gives-map (Saved p c env source checkpoint marker expected db)
      (Evolves c.retained_payload_limit db) _
      (save_checkpoint-Saved p c env 0 source checkpoint marker expected old db (proceed_old f).0)
      λ d s. s.evolves

pub advanced-Evolves :
    (p : Platform) (c : JournalConfig) (env : CallEnv) (source checkpoint : Text) (expected : ℕ)
    (marker : Text) (db : Db)
    → Gives
        (Evolves c.retained_payload_limit db)
        (advanced p c env source checkpoint expected marker db)
unfolding advanced
advanced-Evolves p c env source checkpoint expected marker db =
    Gives-bind (Fenced p source checkpoint marker expected db.source_checkpoints)
      (Evolves c.retained_payload_limit db) _ _
      (fence-Fenced p source checkpoint marker expected db)
      (after_fence_alone p c env source checkpoint expected marker db)
