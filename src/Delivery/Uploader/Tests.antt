-- ===== src/Delivery/Uploader/Tests.antt =====
-- The uploader at concrete inputs.
use panopticon_agent.Prelude.{◌≡◌, refl, true, false, none, some, [], codes, drop, length, ◌++◌, ok}
use panopticon_agent.Delivery.Journal.Transact.{Platform, CallEnv, DurableJournal}
use panopticon_agent.Delivery.Uploader.{
  DeliveryConfig, healthy, unavailable, Uploader, DeliveryEnv, enqueue, validate,
}
use panopticon_agent.Delivery.Uploader.DeliverOne.{deliver_one}
use panopticon_agent.Delivery.Uploader.Delivered.{Delivered, deliver_one-Delivered}

abbrev platform : Platform
platform = record {
  digest = λ text. some text;
  unseal = λ key blob. some (drop (length key) blob);
  parse = λ _. none;
  graph_fact = λ _. record { interpretable = false; entity_id = none; parent_entity_id = none };
}

abbrev works : CallEnv
works = record {
  begin_ok = true;
  commit_ok = true;
  sample = λ _. some (0, 1000000000);
  seal = λ key text. some (key ++ text);
  random = none;
}

abbrev journal : DurableJournal
journal = record {
  config = record {
    retained_payload_limit = 100000;
    event_size_limit = 1000;
    physical_admission_limit = 1000000000;
    minimum_free_bytes = 1000;
  };
  db = record {
    observations = [];
    identifiers = [];
    commands = [];
    source_checkpoints = [];
    process_history = [];
    process_graph_index = [];
    counters = record {
      acknowledged = 0;
      retained = 0;
      pending_count = 0;
      dead_count = 0;
      process_history_bytes = 0;
      process_history_count = 0;
      process_graph_count = 0;
      process_graph_unresolved = 0;
    };
  };
  storage_admission_refusals = 0;
}

abbrev configuration : DeliveryConfig
configuration = record {
  manager_url = codes "https://m";
  bearer_token = codes "t";
  batch_max_events = 10;
  flush_interval_ms = 1;
  spool_base_backoff_ms = 1;
  spool_max_backoff_ms = 8;
  request_timeout_ms = 1;
}

abbrev uploader : Uploader
uploader = record {
  config = configuration;
  agent_id = codes "a";
  journal = journal;
  health = record {
    commit_failures = 0;
    transport_failures = 0;
    invalid_receipts = 0;
    freshness_challenge_failures = 0;
    capture_age_state = unavailable;
    durability_state = healthy;
    transport_state = unavailable;
    last_error = none;
  };
  capture_scope = none;
  wake = false;
  stop_requested = false;
}

abbrev delivery : DeliveryEnv
delivery = record {
  calls = works;
  post = λ _ _ _. ok (record { status_code = 200; body = codes "x" });
  dump = λ _. [];
  tick_count = 0;
}

validate_test : validate configuration ≡ true
unfolding validate
validate_test = refl

deliver_one-Delivered_example :
    Delivered platform delivery
      (enqueue platform works (codes "one") uploader).0
      (deliver_one platform delivery (enqueue platform works (codes "one") uploader).0)
deliver_one-Delivered_example =
    deliver_one-Delivered platform delivery (enqueue platform works (codes "one") uploader).0
