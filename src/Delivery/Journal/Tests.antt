-- ===== src/Delivery/Journal/Tests.antt =====
-- The theorems about the journal at concrete inputs, and some runs of it.
use panopticon_agent.Prelude.{
  ◌<◌, ◌≡◌, ◌≢◌, refl, ap, true, false, none, some, List, [], ◌∷◌, ◌++◌, length, drop, drop-append,
  first, Text, codes, text_eq, if◌then◌else◌, arith, ok, Gives, ◌>>=◌, require, or_fail,
  print_digits, to_string, from_chars, decimal_value, map, all_chars, ◌∙◌,
}
use panopticon_agent.Response.Command.Json.{
  Json, string, unsigned, array, object, no_element, element, no_member, member, find,
}
use panopticon_agent.Delivery.Journal.Db.{
  Db, Observation, CommandRow, received, result_ready, retained_bytes, dead, insert_observation,
  next_observation_seq, delete_pending, bury_pending,
}
use panopticon_agent.Delivery.Journal.Transact.{
  Platform, CallEnv, IsSeal, JournalConfig, DurableJournal, admit_growth, transact, with_digest,
}
use panopticon_agent.Delivery.Journal.Append.{
  append, is_observation, insert, protocol_of, is_lifecycle, fits_retention,
}
use panopticon_agent.Delivery.Journal.Checkpoint.{
  source_checkpoint, append_checkpointed, validate_source, checkpointed, fence, current_revision,
  save_checkpoint, fits_checkpoint,
}
use panopticon_agent.Delivery.Journal.Identifiers.{
  next_collector_generation, generate, previous_generation, generation_of, put_identifier,
}
use panopticon_agent.Delivery.Journal.Command.{begin_command, is_scoped, intend, fits_one}
use panopticon_agent.Delivery.Journal.Read.{JournalBatch, peek}
use panopticon_agent.Delivery.Journal.Acknowledge.{
  acknowledge, retire, read_receipt, check_rejections, check_rejection, receipt_count, member_at,
  string_of, array_of, elements, is_reason, has_reason, apply_receipt, acknowledge_rejected,
}
use panopticon_agent.Delivery.Journal.Evolves.{Sound}
use panopticon_agent.Delivery.Journal.History.{Call, appends, generates, begins, runs, runs-Sound}
use panopticon_agent.Delivery.Journal.Execution.{
  begin_command_once, outcome_kept, generation_increases,
}
use panopticon_agent.Delivery.Journal.Queue.{Appended, append-Appended, Peeked, peek-Oldest}
use panopticon_agent.Delivery.Journal.Retirement.{Retired, acknowledge-Retired}
use panopticon_agent.Delivery.Journal.Recovery.{checkpoint_recovered, repeated_append_checkpointed}

abbrev receipt : Text
receipt = codes "receipt"

-- One observation of the batch is accepted, and the second rejected.
abbrev receipt_document : Json
receipt_document = object (
    member (codes "batch_id") (string (codes "journal_h")) (
      member (codes "received") (unsigned 2) (
        member (codes "accepted") (unsigned 1) (
          member (codes "duplicates") (unsigned 0) (
            member (codes "rejected")
              (array (
                element
                  (object (
                    member (codes "line") (unsigned 2) (
                      member (codes "reason") (string (codes "json_invalid"))
                        (member (codes "detail") (string (codes "x")) no_member))))
                  no_element))
              no_member)))))

-- A digest that is the text itself, and sealing that puts the entropy in front.
abbrev platform : Platform
platform = record {
  digest = λ text. some text;
  unseal = λ key blob. some (drop (length key) blob);
  parse = λ text. if text_eq text receipt then some receipt_document else none;
  graph_fact = λ _. record { interpretable = false; entity_id = none; parent_entity_id = none };
}

abbrev works : CallEnv
works = record {
  begin_ok = true;
  commit_ok = true;
  sample = λ _. some (0, 1000000000);
  seal = λ key text. some (key ++ text);
  random = some (codes "r");
}

works-IsSeal : IsSeal platform works
works-IsSeal key text blob e =
    ap (λ b. some (drop (length key) b)) (sealed_text (key ++ text) e)
    ∙ ap (λ t. some t) (drop-append key text (length key) refl)
  where
    sealed_text : (t : Text) → some t ≡ some blob → blob ≡ t
    sealed_text t h = ground arith

abbrev limits : JournalConfig
limits = record {
  retained_payload_limit = 100000;
  event_size_limit = 1000;
  physical_admission_limit = 1000000000;
  minimum_free_bytes = 1000;
}

abbrev empty_db : Db
empty_db = record {
  observations = [];
  identifiers = [];
  commands = [];
  source_checkpoints = [];
  process_history = [];
  process_graph_index = [];
  counters = record {
    acknowledged = 0;
    retained = 0;
    pending_count = 0;
    dead_count = 0;
    process_history_bytes = 0;
    process_history_count = 0;
    process_graph_count = 0;
    process_graph_unresolved = 0;
  };
}

abbrev journal : DurableJournal
journal = record { config = limits; db = empty_db; storage_admission_refusals = 0 }

journal-Sound : Sound 100000 empty_db
unfolding retained_bytes
journal-Sound = record {
  accounted = record {
    retained = refl;
    pending_count = refl;
    dead_count = refl;
    history_bytes = refl;
    history_count = refl;
    graph_count = refl;
    graph_unresolved = refl;
  };
  quota = omega arith;
  unique = tt;
  distinct = tt;
}

abbrev calls : List Call
calls = appends works (codes "one") ∷ generates works ∷ []

runs-Sound_example : Sound 100000 (runs platform calls journal).db
runs-Sound_example = runs-Sound platform calls journal journal-Sound

append-Appended_example :
    Appended platform works (codes "one") journal (append platform works (codes "one") journal)
append-Appended_example = append-Appended platform works (codes "one") journal

abbrev queued : DurableJournal
queued = runs platform (appends works (codes "one") ∷ appends works (codes "two") ∷ []) journal

peek-Oldest_example : Gives (Peeked platform 10 1000 queued.db) (peek platform 10 1000 queued)
peek-Oldest_example = peek-Oldest platform 10 1000 queued

abbrev batch : JournalBatch
batch = record {
  id = codes "journal_h";
  protocol = 1;
  entries =
      record { key = codes "one"; body = codes "one" }
      ∷ record { key = codes "two"; body = codes "two" }
      ∷ [];
}

acknowledge-Retired_example :
    Retired platform works batch receipt queued (acknowledge platform works batch receipt queued)
acknowledge-Retired_example = acknowledge-Retired platform works batch receipt queued

abbrev command : CommandRow
command = record {
  key = codes "k";
  scope = codes "s";
  digest = codes "d";
  payload = codes "p";
  state = received;
  result = none;
  bytes = 1;
}

abbrev with_command : CommandRow → DurableJournal
with_command row = record journal { db = record empty_db { commands = row ∷ [] } }

with_command-Sound : (row : CommandRow) → row.bytes ≡ 1 → Sound 100000 (with_command row).db
unfolding retained_bytes
with_command-Sound row e = record {
  accounted = record {
    retained = refl;
    pending_count = refl;
    dead_count = refl;
    history_bytes = refl;
    history_count = refl;
    graph_count = refl;
    graph_unresolved = refl;
  };
  quota = omega (arith, e);
  unique = (refl, tt);
  distinct = tt;
}

begin_command_once_example :
    (begin_command works (codes "s") (codes "k") (
      runs platform calls (begin_command works (codes "s") (codes "k") (with_command command)).0)).1
    ≢ ok true
unfolding begin_command transact intend admit_growth text_eq ◌>>=◌
begin_command_once_example =
    begin_command_once platform calls works works (codes "s") (codes "k") (with_command command)
      (with_command-Sound command refl) refl

abbrev finished : CommandRow
finished = record command { state = result_ready; result = some (codes "r") }

outcome_kept_example :
    (later : CommandRow) × (first
        (is_scoped (codes "s") (codes "k"))
        (runs platform
          (begins works (codes "s") (codes "k") ∷ calls)
          (with_command finished)).db.commands
      ≡ some later)
    × (later.payload ≡ codes "p")
    × (later.result ≡ some (codes "r"))
unfolding text_eq
outcome_kept_example =
    outcome_kept platform (begins works (codes "s") (codes "k") ∷ calls) (codes "s") (codes "k")
      finished (with_command finished) (with_command-Sound finished refl) refl (omega arith)

generation_increases_example : 1 < 3
unfolding next_collector_generation generate previous_generation generation_of put_identifier
    transact admit_growth text_eq append is_observation all_chars with_digest insert ◌>>=◌ require
    or_fail protocol_of is_lifecycle fits_retention retained_bytes insert_observation to_string
    print_digits from_chars decimal_value
generation_increases_example = generation_increases platform calls works works 1 3 journal refl refl

-- The receipt retires the accepted observation, and keeps the rejected one as a dead letter.
acknowledge_test :
    ((acknowledge platform works batch receipt queued).1 ≡ ok tt)
    × (map
          (λ (r : Observation). r.state)
          (acknowledge platform works batch receipt queued).0.db.observations
        ≡ dead ∷ [])
unfolding acknowledge retire read_receipt check_rejections check_rejection receipt_count member_at
    string_of array_of elements is_reason has_reason find all_chars append is_observation
    with_digest insert transact admit_growth text_eq ◌>>=◌ require or_fail protocol_of is_lifecycle
    fits_retention retained_bytes insert_observation next_observation_seq apply_receipt
    acknowledge_rejected delete_pending bury_pending fits_one
acknowledge_test = (refl, refl)

checkpoint_recovered_example :
    source_checkpoint platform
      (codes "log")
      (append_checkpointed platform works (codes "one") (codes "log") (codes "c") 0 journal).0
    ≡ ok (some (record { revision = 1; value = codes "c" }))
unfolding append_checkpointed validate_source is_observation all_chars with_digest checkpointed
    fence current_revision insert save_checkpoint fits_checkpoint transact admit_growth text_eq
    ◌>>=◌ require or_fail is_lifecycle fits_retention retained_bytes insert_observation
checkpoint_recovered_example =
    checkpoint_recovered platform works (codes "one") (codes "log") (codes "c") 0 journal
      works-IsSeal (omega arith) refl

repeated_append_checkpointed_example :
    append_checkpointed platform works
      (codes "one")
      (codes "log")
      (codes "c")
      0
      (append_checkpointed platform works (codes "one") (codes "log") (codes "c") 0 journal).0
    ≡ (
      (append_checkpointed platform works (codes "one") (codes "log") (codes "c") 0 journal).0,
      ok tt,
    )
unfolding append_checkpointed validate_source is_observation all_chars with_digest checkpointed
    fence current_revision insert save_checkpoint fits_checkpoint transact admit_growth text_eq
    ◌>>=◌ require or_fail is_lifecycle fits_retention retained_bytes insert_observation
repeated_append_checkpointed_example =
    repeated_append_checkpointed platform works works (codes "one") (codes "log") (codes "c") 0
      journal works-IsSeal (omega arith) refl refl refl
