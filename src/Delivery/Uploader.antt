-- ===== src/Delivery/Uploader.antt =====
-- The uploader, which queues observations in the journal and delivers them to the manager
-- (src/delivery/uploader.cpp, include/panopticon/officer/delivery/uploader.hpp).
pub mod DeliverOne
pub mod Worker
pub mod Delivered
mod Tests
use panopticon_agent.Prelude.{
  ℕ, zero, suc, ◌+◌, ◌-◌, ◌*◌, ◌%◌, min, Bool, true, false, not, ◌&&◌, ◌||◌, Option, none, some,
  List, [], ◌∷◌, ◌++◌, ltb, leb, ◌==◌, if◌then◌else◌, length, Text, codes, text_eq, all_chars,
  is_digit, size_mod, to_string, Result, ok, err,
}
use panopticon_agent.Response.Command.Json.{
  Json, object, string, unsigned, Members, no_member, member, find, keys,
}
use panopticon_agent.Delivery.Journal.Transact.{Platform, CallEnv, JournalError, DurableJournal}
use panopticon_agent.Delivery.Journal.Append.{append, has_member}
use panopticon_agent.Delivery.Journal.Checkpoint.{append_checkpointed, advance_checkpoint}
use panopticon_agent.Delivery.Journal.Read.{JournalBatch, ndjson, peek}
use panopticon_agent.Delivery.Journal.Acknowledge.{acknowledge}

pub record DeliveryConfig : Type 0 where
  pub manager_url : Text
  pub bearer_token : Text
  pub batch_max_events : ℕ
  pub flush_interval_ms : ℕ
  pub spool_base_backoff_ms : ℕ
  pub spool_max_backoff_ms : ℕ
  pub request_timeout_ms : ℕ

-- The texts "healthy", "degraded" and "unavailable".
pub data HealthState : Type 0 where
  healthy degraded unavailable : HealthState

-- What `last_error` says.
pub data DeliveryError : Type 0 where
  journal_failure : JournalError → DeliveryError
  manager_status : ℕ → DeliveryError
  transport_failure : Text → DeliveryError

pub record DeliveryHealth : Type 0 where
  pub commit_failures : ℕ
  pub transport_failures : ℕ
  pub invalid_receipts : ℕ
  pub freshness_challenge_failures : ℕ
  pub capture_age_state : HealthState
  pub durability_state : HealthState
  pub transport_state : HealthState
  pub last_error : Option DeliveryError

-- `capture_scope` is none for the null of a scope that is not set yet.
pub record Uploader : Type 0 where
  pub config : DeliveryConfig
  pub agent_id : Text
  pub journal : DurableJournal
  pub health : DeliveryHealth
  pub capture_scope : Option Members
  pub wake : Bool
  pub stop_requested : Bool

pub record HttpHeader : Type 0 where
  pub name : Text
  pub value : Text

pub record HttpResponse : Type 0 where
  pub status_code : ℕ
  pub body : Text

-- One delivery: `HttpClient::post` of an address, headers and a body, with the response or the
-- error; the printer of the JSON library; the tick count; the journal's calls.
pub record DeliveryEnv : Type 0 where
  pub calls : CallEnv
  pub post : Text → List HttpHeader → Text → Result Text HttpResponse
  pub dump : Members → Text
  pub tick_count : ℕ

-- The tests of `validate`.
unfoldable pub validate : DeliveryConfig → Bool
validate c = not (
    length c.manager_url == 0
    || c.batch_max_events == 0
    || ltb 1000 c.batch_max_events
    || c.flush_interval_ms == 0
    || c.spool_base_backoff_ms == 0
    || ltb c.spool_max_backoff_ms c.spool_base_backoff_ms
    || c.request_timeout_ms == 0)

-- `++` of a 64-bit counter.
abbrev pub increment : ℕ → ℕ
increment n = (n + 1) % size_mod

abbrev failed_commit : JournalError → DeliveryHealth → DeliveryHealth
failed_commit e h = record h {
  commit_failures = increment h.commit_failures;
  durability_state = degraded;
  last_error = some (journal_failure e);
}

-- The rest of an enqueue: the journal after its call, and what the call gave; `wakes` where success
-- wakes the worker.
unfoldable pub committed :
    Bool → Uploader → DurableJournal × Result JournalError (Unit {0}) → Uploader × Bool
committed wakes u (j, ok _) = (
  record u {
    journal = j;
    health = record u.health { durability_state = healthy };
    wake = wakes || u.wake;
  },
  true,
)
committed wakes u (j, err e) = (record u { journal = j; health = failed_commit e u.health }, false)

unfoldable pub enqueue : Platform → CallEnv → Text → Uploader → Uploader × Bool
enqueue p env line u =
    if u.stop_requested then (u, false) else committed true u (append p env line u.journal)

unfoldable pub enqueue_checkpointed :
    Platform → CallEnv → Text → Text → Text → ℕ → Uploader → Uploader × Bool
enqueue_checkpointed p env line source checkpoint expected u =
    if u.stop_requested
    then (u, false)
    else committed true u (append_checkpointed p env line source checkpoint expected u.journal)

unfoldable pub uploader_advance_checkpoint :
    Platform → CallEnv → Text → Text → ℕ → Uploader → Uploader × Bool
uploader_advance_checkpoint p env source checkpoint expected u =
    if u.stop_requested
    then (u, false)
    else committed false u (advance_checkpoint p env source checkpoint expected u.journal)

-- False stands for the exception.
unfoldable pub set_bearer_token : Text → Text → Uploader → Uploader × Bool
set_bearer_token agent_id token u =
    if not (text_eq agent_id u.agent_id) || length token == 0 || ltb 512 (length token)
    then (u, false)
    else (record u { config = record u.config { bearer_token = token }; wake = true }, true)

unfoldable pub is_capture_scope : Members → Bool
is_capture_scope ms =
    length (keys ms) == 4
    && has_member (codes "installation_id") ms
    && has_member (codes "boot_id") ms
    && has_member (codes "collector_generation") ms
    && has_member (codes "collector_epoch") ms

-- The scope is set once.
unfoldable pub set_capture_scope : Json → Uploader → Uploader × Bool
set_capture_scope (object ms) u =
    if is_capture_scope ms
    then elim u.capture_scope [
      | none ↦ (record u { capture_scope = some ms }, true)
      | some _ ↦ (u, false)
    ]
    else (u, false)
set_capture_scope _ u = (u, false)
