-- ===== src/Delivery/Uploader/Delivered.antt =====
-- What one delivery of the uploader does to the journal, and the bounds of the worker's backoff.
use panopticon_agent.Prelude.{
  ◌≡◌, ◌≢◌, refl, ap, ◌∙◌, Option, none, some, List, ◌==◌, ==_iff, if-both, arith, Text, Result, ok,
  err, Gives, gives,
}
use panopticon_agent.Response.Command.Json.{Members}
use panopticon_agent.Delivery.Journal.Transact.{Platform, JournalError, DurableJournal}
use panopticon_agent.Delivery.Journal.Read.{JournalBatch, ndjson}
use panopticon_agent.Delivery.Journal.Acknowledge.{read_receipt}
use panopticon_agent.Delivery.Journal.Queue.{Peeked, Oldest, oldest, peek-Oldest}
use panopticon_agent.Delivery.Journal.Retirement.{
  judged, Retired, kept_all, settled, acknowledge-Retired,
}
use panopticon_agent.Delivery.Uploader.{DeliveryEnv, Uploader, HttpHeader, HttpResponse}
use panopticon_agent.Delivery.Uploader.DeliverOne.{
  Outcome, acknowledged, empty, retry, freshness, challenge, challenged, challenge_scope,
  settle_receipt, settle_response, deliver_batch, deliver_peeked, deliver_one,
}

-- A delivery that does not end acknowledged leaves the journal's database as it was. One that does
-- had the oldest pending observations in its batch, a response of status 200 to their text, and in
-- it a receipt that accounts for the batch, by which the rows are judged.
pub data Delivered (p : Platform) (env : DeliveryEnv) (u : Uploader)
    : Uploader × Result JournalError Outcome → Type 0 where
  held :
      (v : Uploader) (r : Result JournalError Outcome)
      → v.journal.db ≡ u.journal.db
      → r ≢ ok acknowledged
      → Delivered p env u (v, r)
  delivered :
      (v : Uploader) (batch : JournalBatch) (url : Text) (headers : List HttpHeader)
      (response : HttpResponse) (reasons : List (Option Text))
      → Oldest p u.config.batch_max_events 8388608 u.journal.db batch
      → env.post url headers (ndjson batch.entries) ≡ ok response
      → response.status_code ≡ 200
      → read_receipt p batch response.body ≡ ok reasons
      → v.journal.db.observations ≡ judged env.calls batch.entries reasons u.journal.db.observations
      → Delivered p env u (v, ok acknowledged)

challenged-journal :
    (u : Uploader) (o : Option (List HttpHeader)) → (challenged u o).0.journal ≡ u.journal
unfolding challenged
challenged-journal u none = refl
challenged-journal u (some headers) = refl

challenge_scope-journal :
    (p : Platform) (env : DeliveryEnv) (batch : JournalBatch) (u : Uploader) (o : Option Members)
    → (challenge_scope p env batch u o).0.journal ≡ u.journal
unfolding challenge_scope
challenge_scope-journal p env batch u none = refl
challenge_scope-journal p env batch u (some scope) =
    if-both (λ (x : Uploader × List HttpHeader). x.0.journal ≡ u.journal) (batch.protocol == 2) _ _
      (λ _. challenged-journal u (freshness p env batch scope u)) λ _. refl

abbrev result : Outcome → Result JournalError Outcome
result e = ok e

retry_held : (e : Outcome) → e ≢ acknowledged → result e ≢ result acknowledged
retry_held e n h = n (ground arith)

retry_other : retry ≢ acknowledged
retry_other h = ground arith

empty_other : empty ≢ acknowledged
empty_other h = ground arith

module _ (p : Platform) (env : DeliveryEnv) (u : Uploader) where
  -- The receipt of a response of status 200.
  settle_receipt-Delivered :
      (batch : JournalBatch) (v : Uploader) (url : Text) (headers : List HttpHeader)
      (response : HttpResponse) (r : DurableJournal × Result JournalError (Unit {0}))
      → v.journal ≡ u.journal
      → Oldest p u.config.batch_max_events 8388608 u.journal.db batch
      → env.post url headers (ndjson batch.entries) ≡ ok response
      → response.status_code ≡ 200
      → Retired p env.calls batch response.body v.journal r
      → Delivered p env u (
        (settle_receipt p batch response.body v r).0,
        ok (settle_receipt p batch response.body v r).1,
      )
  unfolding settle_receipt
  settle_receipt-Delivered batch v url headers response _ j o post status (kept_all k e same) =
      held _ _ (same ∙ ap (λ (i : DurableJournal). i.db) j) (retry_held retry retry_other)
  settle_receipt-Delivered batch v url headers response _ j o post status
        (settled reasons k receipt rows) =
      delivered _ batch url headers response reasons o post status receipt (
        rows
        ∙ ap (λ (i : DurableJournal). judged env.calls batch.entries reasons i.db.observations) j)

  settle_response-Delivered :
      (batch : JournalBatch) (v : Uploader) (url : Text) (headers : List HttpHeader)
      (answer : Result Text HttpResponse)
      → v.journal ≡ u.journal
      → Oldest p u.config.batch_max_events 8388608 u.journal.db batch
      → env.post url headers (ndjson batch.entries) ≡ answer
      → Delivered p env u
          ((settle_response p env batch v answer).0, ok (settle_response p env batch v answer).1)
  unfolding settle_response
  settle_response-Delivered batch v url headers (err e) j o post =
      held _ _ (ap (λ (i : DurableJournal). i.db) j) (retry_held retry retry_other)
  settle_response-Delivered batch v url headers (ok r) j o post =
      if-both (λ (x : Uploader × Outcome). Delivered p env u (x.0, ok x.1)) (r.status_code == 200) _
        _
        (λ status.
          settle_receipt-Delivered batch v url headers r _ j o post
            ((==_iff r.status_code 200).0 status)
            (acknowledge-Retired p env.calls batch r.body v.journal))
        λ _. held _ _ (ap (λ (i : DurableJournal). i.db) j) (retry_held retry retry_other)

  deliver_peeked-Delivered :
      (r : Result JournalError (Option JournalBatch))
      → Gives (Peeked p u.config.batch_max_events 8388608 u.journal.db) r
      → Delivered p env u (deliver_peeked p env u r)
  unfolding deliver_peeked deliver_batch challenge
  deliver_peeked-Delivered (err e) g = held u (err e) refl (λ h. ground arith)
  deliver_peeked-Delivered (ok none) g = held u (ok empty) refl (retry_held empty empty_other)
  deliver_peeked-Delivered (ok (some batch)) (gives (oldest o)) =
      settle_response-Delivered batch _ _ _ _
        (challenge_scope-journal p env batch u u.capture_scope) o refl

  -- A delivery that does not end acknowledged leaves the journal's database as it was. For one that
  -- ends acknowledged, the batch held the oldest pending observations of one protocol, the manager
  -- answered 200 to a request with their text, the answer is a receipt that passes every check
  -- against the batch, and the observations are those before, judged by it.
  pub deliver_one-Delivered : Delivered p env u (deliver_one p env u)
  unfolding deliver_one
  deliver_one-Delivered =
      deliver_peeked-Delivered _ (peek-Oldest p u.config.batch_max_events 8388608 u.journal)
