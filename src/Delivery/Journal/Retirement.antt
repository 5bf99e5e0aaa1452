-- ===== src/Delivery/Journal/Retirement.antt =====
-- What an accepted receipt does to the observations, as one pass over the table.
use panopticon_agent.Prelude.{
  ℕ, suc, ◌≡◌, inl, inr, refl, sym, ap, ◌∙◌, Option, none, some, List, [], ◌∷◌, if◌then◌else◌,
  if-both, Bool-cases, length, arith, Text, text_eq, text_eq→eq, delete, update, count, ◌==◌,
  Result, ok, err, Gives, gives, Gives-bind, Gives-map, bind-Gives, require-Gives, or_fail-Gives,
}
use panopticon_agent.Delivery.Journal.Db.{
  Db, Observation, is_pending, is_pending_key, bury, delete_pending, bury_pending,
}
use panopticon_agent.Delivery.Journal.Transact.{
  Platform, CallEnv, JournalConfig, JournalError, DurableJournal,
}
use panopticon_agent.Delivery.Journal.Read.{JournalEntry, JournalBatch}
use panopticon_agent.Delivery.Journal.Acknowledge.{
  acknowledge_accepted, acknowledge_rejected, apply_receipt, read_receipt, retire, acknowledge,
}
use panopticon_agent.Delivery.Journal.History.{
  Transacted, rolled_back, kept, transact-Transacted, done-Gives,
}

-- What the receipt says of a key: nothing, accepted, or rejected for a reason.
pub data Verdict : Type 0 where
  unnamed accepted : Verdict
  rejected : Text → Verdict

abbrev verdict_of : Option Text → Verdict
verdict_of none = accepted
verdict_of (some reason) = rejected reason

unfoldable pub verdict : Text → List JournalEntry → List (Option Text) → Verdict
verdict key [] reasons = unnamed
verdict key (e ∷ es) [] = unnamed
verdict key (e ∷ es) (r ∷ rs) =
    let rest = verdict key es rs in if text_eq key e.key then verdict_of r else rest

-- A pending row that is accepted goes; one that is rejected becomes a dead letter, its payload kept
-- and its reason sealed; every other row stays as it is.
abbrev pub judge : CallEnv → Verdict → Observation → Option Observation
judge env unnamed r = some r
judge env accepted r = none
judge env (rejected reason) r = elim (env.seal r.key reason) [
  | none ↦ some r
  | some sealed ↦ some (bury sealed (length reason) r)
]

abbrev pub judge_row :
    CallEnv → List JournalEntry → List (Option Text) → Observation → Option Observation
judge_row env es rs r = if is_pending r then judge env (verdict r.key es rs) r else some r

abbrev keep_row : Option Observation → List Observation → List Observation
keep_row none rows = rows
keep_row (some r) rows = r ∷ rows

-- The table with every row judged.
unfoldable pub judged :
    CallEnv → List JournalEntry → List (Option Text) → List Observation → List Observation
judged env es rs [] = []
judged env es rs (r ∷ rows) = keep_row (judge_row env es rs r) (judged env es rs rows)

judged-unnamed :
    (env : CallEnv) (es : List JournalEntry) (rs : List (Option Text))
    → ((key : Text) → verdict key es rs ≡ unnamed)
    → (rows : List Observation) → judged env es rs rows ≡ rows
unfolding judged
judged-unnamed env es rs h [] = refl
judged-unnamed env es rs h (r ∷ rows) =
    if-both (λ o. keep_row o (judged env es rs rows) ≡ r ∷ rows) (is_pending r) _ _
      (λ _. rw (h r.key) (ap (λ l. r ∷ l) (judged-unnamed env es rs h rows)))
      λ _. ap (λ l. r ∷ l) (judged-unnamed env es rs h rows)

judged-accepted :
    (env : CallEnv) (e : JournalEntry) (es : List JournalEntry) (rs : List (Option Text))
    (rows : List Observation)
    → judged env es rs (delete (is_pending_key e.key) rows) ≡ judged env (e ∷ es) (none ∷ rs) rows
unfolding judged verdict
judged-accepted env e es rs [] = refl
judged-accepted env e es rs (r ∷ rows) = ground (arith, judged-accepted env e es rs rows)

judge_row-rejected :
    (env : CallEnv) (e : JournalEntry) (reason sealed : Text) (es : List JournalEntry)
    (rs : List (Option Text)) (r : Observation)
    → env.seal e.key reason ≡ some sealed
    → judge_row env es rs (if is_pending_key e.key r then bury sealed (length reason) r else r)
      ≡ judge_row env (e ∷ es) (some reason ∷ rs) r
unfolding verdict
judge_row-rejected env e reason sealed es rs r h = elim (Bool-cases (is_pending r)) [
  | inr f ↦ ground arith
  | inl p ↦ elim (Bool-cases (text_eq r.key e.key)) [
    | inr f ↦ ground arith
    | inl t ↦ rw (p, t, ap (λ k. env.seal k reason) (text_eq→eq r.key e.key t) ∙ h) refl
  ]
]

judged-rejected :
    (env : CallEnv) (e : JournalEntry) (reason sealed : Text) (es : List JournalEntry)
    (rs : List (Option Text)) (rows : List Observation)
    → env.seal e.key reason ≡ some sealed
    → judged env es rs (update (is_pending_key e.key) (bury sealed (length reason)) rows)
      ≡ judged env (e ∷ es) (some reason ∷ rs) rows
unfolding judged
judged-rejected env e reason sealed es rs [] h = refl
judged-rejected env e reason sealed es rs (r ∷ rows) h =
    rw
      (
        judged-rejected env e reason sealed es rs rows h,
        judge_row-rejected env e reason sealed es rs r h,
      )
      refl

accepted-observations :
    (key : Text) (db : Db)
    → (acknowledge_accepted key db).observations ≡ delete (is_pending_key key) db.observations
unfolding delete_pending
accepted-observations key db =
    if-both (λ (d : Db). d.observations ≡ delete (is_pending_key key) db.observations)
      (count (is_pending_key key) db.observations == 1) _ _ (λ _. refl) λ _. refl

record Buried (env : CallEnv) (key reason : Text) (db d : Db) : Type 0 where
  sealed : Text
  is_sealed : env.seal key reason ≡ some sealed
  observations :
      d.observations ≡ update (is_pending_key key) (bury sealed (length reason)) db.observations

rejected-Buried :
    (c : JournalConfig) (env : CallEnv) (index : ℕ) (key reason : Text) (db : Db)
    → Gives (Buried env key reason db) (acknowledge_rejected c env index key reason db)
unfolding acknowledge_rejected bury_pending
rejected-Buried c env index key reason db = require-Gives (Buried env key reason db) _ _ _ λ _.
    or_fail-Gives (Buried env key reason db) (env.seal key reason) _ _ λ sealed e.
      bind-Gives (Buried env key reason db) _ _
        λ _ _. gives (record { sealed = sealed; is_sealed = e; observations = refl })

pub apply_receipt-judged :
    (c : JournalConfig) (env : CallEnv) (index : ℕ) (es : List JournalEntry)
    (rs : List (Option Text)) (db : Db)
    → Gives
        (λ d. d.observations ≡ judged env es rs db.observations)
        (apply_receipt c env index es rs db)
unfolding apply_receipt verdict
apply_receipt-judged c env index [] rs db =
    gives (sym (judged-unnamed env [] rs (λ _. refl) db.observations))
apply_receipt-judged c env index (e ∷ es) [] db =
    gives (sym (judged-unnamed env (e ∷ es) [] (λ _. refl) db.observations))
apply_receipt-judged c env index (e ∷ es) (none ∷ rs) db =
    Gives-map (λ d. d.observations ≡ judged env es rs (acknowledge_accepted e.key db).observations)
      (λ d. d.observations ≡ judged env (e ∷ es) (none ∷ rs) db.observations) _
      (apply_receipt-judged c env (suc index) es rs (acknowledge_accepted e.key db))
      λ d h.
        h
        ∙ ap (judged env es rs) (accepted-observations e.key db)
        ∙ judged-accepted env e es rs db.observations
apply_receipt-judged c env index (e ∷ es) (some reason ∷ rs) db =
    Gives-bind (Buried env e.key reason db)
      (λ d. d.observations ≡ judged env (e ∷ es) (some reason ∷ rs) db.observations) _ _
      (rejected-Buried c env index e.key reason db)
      λ m b.
        Gives-map (λ d. d.observations ≡ judged env es rs m.observations)
          (λ d. d.observations ≡ judged env (e ∷ es) (some reason ∷ rs) db.observations) _
          (apply_receipt-judged c env (suc index) es rs m)
          λ d h.
            h
            ∙ ap (judged env es rs) b.observations
            ∙ judged-rejected env e reason b.sealed es rs db.observations b.is_sealed

-- A call of `acknowledge` either fails and leaves the database as it was, or succeeds for a receipt
-- that accounts for the batch, and judges every row by it.
pub data Retired (p : Platform) (env : CallEnv) (batch : JournalBatch) (receipt : Text)
    (j : DurableJournal) : DurableJournal × Result JournalError (Unit {0}) → Type 0 where
  kept_all :
      (k : DurableJournal) (e : JournalError)
      → k.db ≡ j.db
      → Retired p env batch receipt j (k, err e)
  settled :
      (reasons : List (Option Text)) (k : DurableJournal)
      → read_receipt p batch receipt ≡ ok reasons
      → k.db.observations ≡ judged env batch.entries reasons j.db.observations
      → Retired p env batch receipt j (k, ok tt)

-- A call of acknowledge either gives an error and leaves the database as it was, or succeeds with a
-- receipt that passes every check against the batch. The observations are then those before, each
-- judged once by the first verdict on its key: a pending row that is accepted is gone, one that is
-- rejected is a dead letter with its payload and the sealed reason, and every other row is as it
-- was.
pub acknowledge-Retired :
    (p : Platform) (env : CallEnv) (batch : JournalBatch) (receipt : Text) (j : DurableJournal)
    → Retired p env batch receipt j (acknowledge p env batch receipt j)
unfolding acknowledge retire
acknowledge-Retired p env batch receipt j = by_receipt (read_receipt p batch receipt) refl
  where
    by_transaction :
        (reasons : List (Option Text)) (r : DurableJournal × Result JournalError (Unit {0}))
        → read_receipt p batch receipt ≡ ok reasons
        → Transacted
            (λ (x : Db × Unit {0}).
              x.0.observations ≡ judged env batch.entries reasons j.db.observations)
            j
            r
        → Retired p env batch receipt j r
    by_transaction reasons _ e (rolled_back k x same c) = kept_all k x same
    by_transaction reasons _ e (kept x h) = settled reasons (record j { db = x.0 }) e h

    by_receipt :
        (r : Result JournalError (List (Option Text)))
        → read_receipt p batch receipt ≡ r
        → Retired p env batch receipt j (retire env batch.entries r j)
    by_receipt (err x) e = kept_all j x refl
    by_receipt (ok reasons) e = by_transaction reasons _ e (
        transact-Transacted _ env _ j
          (done-Gives _ _ (apply_receipt-judged j.config env 0 batch.entries reasons j.db)))
