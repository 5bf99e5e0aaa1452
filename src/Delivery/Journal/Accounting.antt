-- ===== src/Delivery/Journal/Accounting.antt =====
-- The counters of the journal's database agree with its tables: what each statement does to them.
use panopticon_agent.Prelude.{
  ℕ, ◌+◌, ◌≡◌, refl, none, List, [], ◌∷◌, if-both, length, length-append, arith, Text, select,
  update, total, count, some_row, total-append, count-append, total-delete, count-delete,
}
use panopticon_agent.Delivery.Journal.Db.{
  Db, Observation, Archived, Indexed, pending, is_pending, is_dead, is_pending_key,
  observation_bytes, archived_bytes, is_unresolved, insert_observation, delete_pending,
  bury_pending, bury, insert_archived, insert_indexed, next_observation_seq, next_archive_seq,
}

-- Each counter is the count or the sum that it stands for.
pub record Accounted (db : Db) : Type 0 where
  pub retained : db.counters.retained ≡ total observation_bytes db.observations
  pub pending_count : db.counters.pending_count ≡ count is_pending db.observations
  pub dead_count : db.counters.dead_count ≡ count is_dead db.observations
  pub history_bytes : db.counters.process_history_bytes ≡ total archived_bytes db.process_history
  pub history_count : db.counters.process_history_count ≡ length db.process_history
  pub graph_count : db.counters.process_graph_count ≡ length db.process_graph_index
  pub graph_unresolved :
      db.counters.process_graph_unresolved ≡ count is_unresolved db.process_graph_index

selected_pending :
    (key : Text) (rs : List Observation)
    → count is_pending (select (is_pending_key key) rs) ≡ length (select (is_pending_key key) rs)
selected_pending key [] = refl
selected_pending key (r ∷ rs) = ground (arith, selected_pending key rs)

selected_dead :
    (key : Text) (rs : List Observation) → count is_dead (select (is_pending_key key) rs) ≡ 0
selected_dead key [] = refl
selected_dead key (r ∷ rs) = ground (arith, selected_dead key rs)

buried_bytes :
    (key reason : Text) (size : ℕ) (rs : List Observation)
    → total observation_bytes (update (is_pending_key key) (bury reason size) rs)
      ≡ total observation_bytes rs + total (λ _. size) (select (is_pending_key key) rs)
buried_bytes key reason size [] = refl
buried_bytes key reason size (r ∷ rs) = ground (arith, buried_bytes key reason size rs)

buried_pending :
    (key reason : Text) (size : ℕ) (rs : List Observation)
    → count is_pending (update (is_pending_key key) (bury reason size) rs)
        + length (select (is_pending_key key) rs)
      ≡ count is_pending rs
buried_pending key reason size [] = refl
buried_pending key reason size (r ∷ rs) = ground (arith, buried_pending key reason size rs)

buried_dead :
    (key reason : Text) (size : ℕ) (rs : List Observation)
    → count is_dead (update (is_pending_key key) (bury reason size) rs)
      ≡ count is_dead rs + length (select (is_pending_key key) rs)
buried_dead key reason size [] = refl
buried_dead key reason size (r ∷ rs) = ground (arith, buried_dead key reason size rs)

pub insert_observation-Accounted :
    (key payload : Text) (bytes protocol : ℕ) (db : Db)
    → Accounted db
    → Accounted (insert_observation key payload bytes protocol db)
unfolding insert_observation
insert_observation-Accounted key payload bytes protocol db a = record {
  retained = omega (arith, a.retained, total-append observation_bytes db.observations (row ∷ []));
  pending_count =
      omega (arith, a.pending_count, count-append is_pending db.observations (row ∷ []));
  dead_count = omega (arith, a.dead_count, count-append is_dead db.observations (row ∷ []));
  history_bytes = a.history_bytes;
  history_count = a.history_count;
  graph_count = a.graph_count;
  graph_unresolved = a.graph_unresolved;
}
  where
    row : Observation
    row = record {
      seq = next_observation_seq db.observations;
      key = key;
      payload = payload;
      bytes = bytes;
      state = pending;
      reason = none;
      protocol = protocol;
    }

pub delete_pending-Accounted :
    (key : Text) (db : Db) → Accounted db → Accounted (delete_pending key db)
unfolding delete_pending
delete_pending-Accounted key db a = record {
  retained =
      omega
        (arith, a.retained, total-delete (is_pending_key key) observation_bytes db.observations);
  pending_count = omega (
    arith,
    a.pending_count,
    count-delete (is_pending_key key) is_pending db.observations,
    selected_pending key db.observations,
  );
  dead_count = omega (
    arith,
    a.dead_count,
    count-delete (is_pending_key key) is_dead db.observations,
    selected_dead key db.observations,
  );
  history_bytes = a.history_bytes;
  history_count = a.history_count;
  graph_count = a.graph_count;
  graph_unresolved = a.graph_unresolved;
}

pub bury_pending-Accounted :
    (key reason : Text) (size : ℕ) (db : Db)
    → Accounted db
    → Accounted (bury_pending key reason size db)
unfolding bury_pending
bury_pending-Accounted key reason size db a = record {
  retained = omega (arith, a.retained, buried_bytes key reason size db.observations);
  pending_count = omega (arith, a.pending_count, buried_pending key reason size db.observations);
  dead_count = omega (arith, a.dead_count, buried_dead key reason size db.observations);
  history_bytes = a.history_bytes;
  history_count = a.history_count;
  graph_count = a.graph_count;
  graph_unresolved = a.graph_unresolved;
}

pub insert_archived-Accounted :
    (key payload : Text) (bytes : ℕ) (db : Db)
    → Accounted db
    → Accounted (insert_archived key payload bytes db)
unfolding insert_archived
insert_archived-Accounted key payload bytes db a = record {
  retained = a.retained;
  pending_count = a.pending_count;
  dead_count = a.dead_count;
  history_bytes =
      omega (arith, a.history_bytes, total-append archived_bytes db.process_history (row ∷ []));
  history_count = omega (arith, a.history_count, length-append {0} db.process_history (row ∷ []));
  graph_count = a.graph_count;
  graph_unresolved = a.graph_unresolved;
}
  where
    row : Archived
    row = record {
      seq = next_archive_seq db.process_history;
      key = key;
      payload = payload;
      bytes = bytes;
    }

pub insert_indexed-Accounted :
    (row : Indexed) (db : Db) → Accounted db → Accounted (insert_indexed row db)
unfolding insert_indexed
insert_indexed-Accounted row db a =
    if-both Accounted (some_row _ db.process_graph_index) _ _ (λ _. a)
      λ _. record {
        retained = a.retained;
        pending_count = a.pending_count;
        dead_count = a.dead_count;
        history_bytes = a.history_bytes;
        history_count = a.history_count;
        graph_count =
            omega (arith, a.graph_count, length-append {0} db.process_graph_index (row ∷ []));
        graph_unresolved = ground (
          arith,
          a.graph_unresolved,
          count-append is_unresolved db.process_graph_index (row ∷ []),
        );
      }
