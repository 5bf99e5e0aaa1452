-- ===== src/Response/Tests.antt =====
-- The theorems about identity, ledger, gate and calendar at concrete inputs, and two runs of the
-- timestamp parser.
use panopticon_agent.Prelude.{
  ◌+◌, ◌≡◌, ◌⊎◌, inl, refl, true, false, none, some, [], ◌∷◌, ◌++◌, map, arith, ok, codes, text_eq,
  text_out, contains, pos, all_chars,
}
use panopticon_agent.Response.Identity.{
  is_valid_identifier, EnrolledIdentity, IdentityFiles, StoreEnv, cannot_publish,
  store_enrolled_identity, store_failed,
}
use panopticon_agent.Response.Timestamp.{parse_utc_timestamp, shifted_days, epoch_shift, max_day}
use panopticon_agent.Response.Timestamp.Calendar.{Date, next_day, IsDate, number, number-next_day}
use panopticon_agent.Response.ReplayLedger.{ReplayLedger, LedgerEnv, load, mark_if_new}
use panopticon_agent.Response.ReplayLedger.Restart.{
  Fresh, Synced, ledger_text, restarted, load-Synced, mark_if_new-Synced,
}
use panopticon_agent.Response.Command.{Command, collect_file, is_succeeded, is_kill_process}
use panopticon_agent.Response.Gate.{
  CommandGate, is_protected_process, any_separator, validate_and_mark, lower, is_implemented,
  mark_durably, after_mark,
}
use panopticon_agent.Response.Gate.ProtectedImages.{is_protected_process_path}
use panopticon_agent.Response.Gate.History.{Reaches, started, called, accepted-Fresh}
use panopticon_agent.Response.Gate.Admissible.{Admissible, validate_and_mark-Admissible}

abbrev leap_day : Date
leap_day = record { year = 2024; month = 2; day = 29 }

IsDate-leap_day : IsDate leap_day
unfolding max_day
IsDate-leap_day = record {
  month_low = omega arith;
  month_high = omega arith;
  day_low = omega arith;
  day_high = omega arith;
}

number-next_day_example : number (next_day leap_day) ≡ number leap_day + 1
number-next_day_example = number-next_day leap_day IsDate-leap_day

epoch_test : shifted_days 1970 1 1 ≡ epoch_shift
unfolding shifted_days
epoch_test = refl

parse_utc_timestamp_test :
    parse_utc_timestamp (codes "1970-01-02T00:00:01.5Z")
    ≡ some (record { seconds = pos 86401; nanoseconds = 500000000 })
unfolding parse_utc_timestamp
parse_utc_timestamp_test = refl

abbrev identity : EnrolledIdentity
identity = record { agent_id = codes "a1"; host_id = codes "h1"; bearer_token = codes "t" }

abbrev works : StoreEnv
works = record {
  directory_ok = true;
  open_ok = true;
  flush_ok = true;
  written = 0;
  acl_ok = true;
  rename_ok = true;
}

abbrev no_files : IdentityFiles
no_files = record { published = none; temporary = none }

store_failed_example :
    (store_enrolled_identity (record works { rename_ok = false }) identity no_files).0.published
    ≡ none
unfolding store_enrolled_identity is_valid_identifier all_chars
store_failed_example =
    store_failed (record works { rename_ok = false }) identity no_files {e = cannot_publish} refl

abbrev disk_works : LedgerEnv
disk_works = record {
  readable = true;
  directory_ok = true;
  open_ok = true;
  flush_ok = true;
  stored = 0;
}

abbrev ledger : ReplayLedger
ledger = record {
  maximum_entries = 4;
  entries = codes "c1" ∷ [];
  file = some (text_out (ledger_text (codes "c1" ∷ [])));
}

Synced-ledger : Synced ledger
unfolding is_valid_identifier all_chars contains
Synced-ledger = record { fresh = (refl, refl, tt); bounded = omega arith; stored = inl refl }

mark_if_new-Synced_example : Synced (mark_if_new disk_works (codes "c2") ledger).0
mark_if_new-Synced_example = mark_if_new-Synced disk_works (codes "c2") ledger refl Synced-ledger

load-Synced_example : load disk_works (restarted ledger) ≡ (ledger, ok tt)
load-Synced_example = load-Synced disk_works ledger refl Synced-ledger

abbrev command : Command
command = record {
  command_id = codes "c1";
  agent_id = codes "a1";
  host_id = codes "h1";
  schema_version = codes "1";
  correlation_id = codes "k1";
  action = collect_file;
  expires_at_epoch_seconds = pos 100;
  process_target = record { host_id = codes "h1"; pid = 0; start_time_ticks = 0; boot_id = none };
  file_target_path = codes "p";
  file_capture_id = [];
  file_maximum_bytes = 0;
  canonical_wire_json = [];
}

abbrev gate : CommandGate
gate = record {
  agent_id = codes "a1";
  host_id = codes "h1";
  durable_ledger = some (record { maximum_entries = 4; entries = []; file = none });
  seen = [];
}

abbrev gate_alone : CommandGate
gate_alone = record gate { durable_ledger = none }

abbrev once : CommandGate
once = (validate_and_mark (pos 5) disk_works command gate).0

abbrev twice : CommandGate
twice = (validate_and_mark (pos 6) disk_works command once).0

Reaches_twice : Reaches (codes "a1") (codes "h1") 4 twice (codes "c1" ∷ [])
unfolding validate_and_mark mark_durably after_mark mark_if_new is_valid_identifier all_chars
    text_eq contains is_implemented is_kill_process is_succeeded
Reaches_twice =
    called (pos 6) disk_works command once (codes "c1" ∷ []) refl
      (called (pos 5) disk_works command gate [] refl started)

accepted-Fresh_example : Fresh [] (codes "c1" ∷ [])
accepted-Fresh_example =
    accepted-Fresh (codes "a1") (codes "h1") 4 twice (codes "c1" ∷ []) Reaches_twice

validate_and_mark-Admissible_example :
    ((is_succeeded (validate_and_mark (pos 5) disk_works command gate_alone).1.code ≡ true)
      × Admissible (pos 5) command gate_alone
      × ((validate_and_mark (pos 5) disk_works command gate_alone).0
          ≡ record gate_alone { seen = codes "c1" ∷ [] }))
    ⊎ ((is_succeeded (validate_and_mark (pos 5) disk_works command gate_alone).1.code ≡ false)
        × (¬ Admissible (pos 5) command gate_alone)
        × ((validate_and_mark (pos 5) disk_works command gate_alone).0 ≡ gate_alone))
validate_and_mark-Admissible_example =
    validate_and_mark-Admissible (pos 5) disk_works command gate_alone refl

is_protected_process_path_example :
    (is_protected_process 8 (codes "C:\\Windows" ++ (92 ∷ codes "LSASS.exe"))
      ≡ is_protected_process 8 (codes "LSASS.exe"))
    × (is_protected_process 8 (map lower (codes "C:\\Windows" ++ (92 ∷ codes "LSASS.exe")))
        ≡ is_protected_process 8 (codes "C:\\Windows" ++ (92 ∷ codes "LSASS.exe")))
unfolding any_separator
is_protected_process_path_example =
    is_protected_process_path 8 (codes "C:\\Windows") 92 (codes "LSASS.exe") refl refl
