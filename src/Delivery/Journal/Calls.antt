-- ===== src/Delivery/Journal/Calls.antt =====
-- Receipts, commands, identifiers and the process index: how each call changes the database.
use panopticon_agent.Prelude.{
  ℕ, suc, ◌+◌, ◌-◌, ◌≤◌, ◌≡◌, refl, sym, subst, true, false, Option, none, some, List, [], ◌∷◌,
  ◌==◌, ltb, if-both, Bool-cases, inl, inr, length, arith, Text, some_row, count, total, select,
  Gives, gives, refuses, Gives-bind, Gives-map, bind-Gives, require-Gives, or_fail-Gives,
}
use panopticon_agent.Delivery.Journal.Db.{
  Db, Archived, is_pending_key, delete_pending, bury_pending, retained_bytes,
}
use panopticon_agent.Delivery.Journal.Transact.{Platform, CallEnv, JournalConfig, admit_growth}
use panopticon_agent.Delivery.Journal.Command.{fits_one}
use panopticon_agent.Delivery.Journal.Read.{JournalEntry}
use panopticon_agent.Delivery.Journal.Acknowledge.{
  acknowledge_accepted, acknowledge_rejected, apply_receipt, rebuild_rows,
}
use panopticon_agent.Delivery.Journal.Accounting.{delete_pending-Accounted, bury_pending-Accounted}
use panopticon_agent.Delivery.Journal.Keys.{
  UniqueKeys, UniqueKeys-delete, UniqueKeys-bury, total-one,
}
use panopticon_agent.Delivery.Journal.Inserted.{Grown, index_process-Grown, Grown-none}
use panopticon_agent.Delivery.Journal.Evolves.{Evolves, Evolves-refl, Evolves-trans, quiet}

delete_pending-retained :
    (key : Text) (db : Db) → retained_bytes (delete_pending key db) ≤ retained_bytes db
unfolding delete_pending retained_bytes
delete_pending-retained key db = omega arith

delete_pending-Evolves :
    (limit : ℕ) (key : Text) (db : Db) → Evolves limit db (delete_pending key db)
unfolding delete_pending
delete_pending-Evolves limit key db =
    quiet limit db _ (delete_pending-Accounted key db)
      (λ h _. omega (arith, delete_pending-retained key db, h))
      (UniqueKeys-delete (is_pending_key key) db.observations) refl refl

abbrev one_more : Db → Db
one_more db = record db {
  counters = record db.counters { acknowledged = db.counters.acknowledged + 1 };
}

one_more-Evolves : (limit : ℕ) (db : Db) → Evolves limit db (one_more db)
unfolding retained_bytes
one_more-Evolves limit db =
    quiet limit db _
      (λ a. record {
        retained = a.retained;
        pending_count = a.pending_count;
        dead_count = a.dead_count;
        history_bytes = a.history_bytes;
        history_count = a.history_count;
        graph_count = a.graph_count;
        graph_unresolved = a.graph_unresolved;
      })
      (λ h _. h) (λ u. u) refl refl

acknowledge_accepted-Evolves :
    (limit : ℕ) (key : Text) (db : Db) → Evolves limit db (acknowledge_accepted key db)
acknowledge_accepted-Evolves limit key db =
    if-both (Evolves limit db) (count (is_pending_key key) db.observations == 1) _ _
      (λ _.
        Evolves-trans limit db (delete_pending key db) _ (delete_pending-Evolves limit key db)
          (one_more-Evolves limit (delete_pending key db)))
      λ _. delete_pending-Evolves limit key db

bury_pending-quota :
    (limit : ℕ) (key reason : Text) (size : ℕ) (db : Db)
    → total (λ _. size) (select (is_pending_key key) db.observations) ≤ size
    → fits_one limit (retained_bytes db) size ≡ true
    → retained_bytes (bury_pending key reason size db) ≤ limit
unfolding bury_pending retained_bytes fits_one
bury_pending-quota limit key reason size db h fits = ground arith

bury_pending-none :
    (key reason : Text) (size : ℕ) (db : Db)
    → some_row (is_pending_key key) db.observations ≡ false
    → retained_bytes (bury_pending key reason size db) ≡ retained_bytes db
unfolding bury_pending retained_bytes
bury_pending-none key reason size db h = omega (arith, none_selected db.observations h)
  where
    none_selected :
        (rs : List _)
        → some_row (is_pending_key key) rs ≡ false
        → total (λ _. size) (select (is_pending_key key) rs) ≡ 0
    none_selected [] e = refl
    none_selected (r ∷ rs) e = ground (arith, none_selected rs)

acknowledge_rejected-Evolves :
    (c : JournalConfig) (env : CallEnv) (index : ℕ) (key reason : Text) (db : Db)
    → Gives (Evolves c.retained_payload_limit db) (acknowledge_rejected c env index key reason db)
unfolding acknowledge_rejected bury_pending
acknowledge_rejected-Evolves c env index key reason db =
    let E = Evolves c.retained_payload_limit db in
    require-Gives E _ _ _ λ fits. or_fail-Gives E (env.seal key reason) _ _ λ encrypted _.
      bind-Gives E _ _ λ _ _. gives (
        quiet c.retained_payload_limit db _
          (bury_pending-Accounted key encrypted (length reason) db)
          (λ h u. elim (Bool-cases (some_row (is_pending_key key) db.observations)) [
            | inl e ↦
                bury_pending-quota c.retained_payload_limit key encrypted (length reason) db
                  (total-one key (length reason) db.observations u) (ground arith)
            | inr e ↦ omega (arith, bury_pending-none key encrypted (length reason) db e, h)
          ])
          (UniqueKeys-bury (is_pending_key key) encrypted (length reason) db.observations) refl
          refl)

pub apply_receipt-Evolves :
    (c : JournalConfig) (env : CallEnv) (index : ℕ) (entries : List JournalEntry)
    (reasons : List (Option Text)) (db : Db)
    → Gives (Evolves c.retained_payload_limit db) (apply_receipt c env index entries reasons db)
unfolding apply_receipt
apply_receipt-Evolves c env index [] reasons db = gives (Evolves-refl _ db)
apply_receipt-Evolves c env index (e ∷ es) [] db = gives (Evolves-refl _ db)
apply_receipt-Evolves c env index (e ∷ es) (none ∷ rs) db =
    Gives-map _ (Evolves c.retained_payload_limit db) _
      (apply_receipt-Evolves c env (suc index) es rs (acknowledge_accepted e.key db))
      λ d h.
        Evolves-trans c.retained_payload_limit db _ d
          (acknowledge_accepted-Evolves c.retained_payload_limit e.key db) h
apply_receipt-Evolves c env index (e ∷ es) (some reason ∷ rs) db =
    Gives-bind (Evolves c.retained_payload_limit db) (Evolves c.retained_payload_limit db) _ _
      (acknowledge_rejected-Evolves c env index e.key reason db)
      λ m h.
        Gives-map (Evolves c.retained_payload_limit m) (Evolves c.retained_payload_limit db) _
          (apply_receipt-Evolves c env (suc index) es rs m)
          λ d k. Evolves-trans c.retained_payload_limit db m d h k

Grown-Evolves : (limit : ℕ) (db d : Db) → Grown 0 db d → Evolves limit db d
Grown-Evolves limit db d g =
    quiet limit db d g.accounted (λ h _. omega (arith, g.retained, h))
      (subst UniqueKeys (sym g.observations)) g.commands g.identifiers

pub rebuild_rows-Evolves :
    (p : Platform) (c : JournalConfig) (env : CallEnv) (max_bytes rebuilt bytes : ℕ)
    (rows : List Archived) (db : Db)
    → Gives
        (λ r. Evolves c.retained_payload_limit db r.0)
        (rebuild_rows p c env max_bytes rebuilt bytes rows db)
unfolding rebuild_rows
rebuild_rows-Evolves p c env max_bytes rebuilt bytes [] db = gives (Evolves-refl _ db)
rebuild_rows-Evolves p c env max_bytes rebuilt bytes (r ∷ rs) db =
    let E = λ (x : Db × ℕ). Evolves c.retained_payload_limit db x.0 in
    or_fail-Gives E (p.unseal r.key r.payload) _ _ λ body _.
      if-both (Gives E) (ltb (max_bytes - bytes) (length body + 1)) _ _
        (λ _. if-both (Gives E) (rebuilt == 0) _ _ (λ _. refuses) λ _. gives (Evolves-refl _ db))
        λ _. bind-Gives E (admit_growth _ _ _) _ λ _ _.
          Gives-bind (Grown 0 db) E _ _
            (index_process-Grown p r.seq (p.parse body) 0 db db (Grown-none db))
            λ m g.
              Gives-map (λ x. Evolves c.retained_payload_limit m x.0) E _
                (rebuild_rows-Evolves p c env max_bytes (rebuilt + 1) (bytes + (length body + 1)) rs
                  m)
                λ x k.
                  Evolves-trans c.retained_payload_limit db m x.0
                    (Grown-Evolves c.retained_payload_limit db m g) k
