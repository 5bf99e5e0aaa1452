-- ===== src/Response/Gate.antt =====
-- Admission of commands: `CommandGate` and `is_protected_process` of src/response/command.cpp.
pub mod ProtectedImages
pub mod Admissible
pub mod History
use panopticon_agent.Prelude.{
  ℕ, ◌+◌, Bool, true, false, not, ◌&&◌, ◌||◌, Option, none, some, List, [], ◌∷◌, ◌++◌, map, leb,
  ◌==◌, if◌then◌else◌, Result, ok, err, Text, codes, text_eq, contains, ℤ, leb_ℤ,
}
use panopticon_agent.Response.Identity.{is_valid_identifier}
use panopticon_agent.Response.ReplayLedger.{ReplayLedger, LedgerEnv, LedgerError, mark_if_new}
use panopticon_agent.Response.Command.{
  ActionType, kill_process, collect_process_info, collect_network_connections, collect_file,
  quarantine_file, acquire_file, isolate_host, release_host_isolation, Command, ReceiptCode,
  succeeded, invalid_command, expired, replay_detected, target_protected, unsupported_action,
  execution_failed, CommandReceipt, is_kill_process,
}

-- `std::tolower` of the "C" locale.
abbrev pub lower : ℕ → ℕ
lower c = if leb b'A' c && leb c b'Z' then c + 32 else c

abbrev pub is_separator : ℕ → Bool
is_separator c = c == b'\\' || c == b'/'

unfoldable pub any_separator : Text → Bool
any_separator [] = false
any_separator (c ∷ s) = is_separator c || any_separator s

-- What follows the last separator.
unfoldable pub base_name : Text → Text
base_name [] = []
base_name (c ∷ s) =
    let rest = base_name s in if any_separator s then rest else if is_separator c then s else c ∷ s

abbrev pub protected_images : List Text
protected_images =
    codes "csrss.exe"
    ∷ codes "wininit.exe"
    ∷ codes "winlogon.exe"
    ∷ codes "services.exe"
    ∷ codes "lsass.exe"
    ∷ codes "smss.exe"
    ∷ []

unfoldable pub is_protected_process : ℕ → Text → Bool
is_protected_process pid image_name =
    pid == 0 || pid == 4 || contains protected_images (base_name (map lower image_name))

-- `durable_ledger` is none where the source's pointer is null.
pub record CommandGate : Type 0 where
  pub agent_id : Text
  pub host_id : Text
  pub durable_ledger : Option ReplayLedger
  pub seen : List Text

abbrev pub receipt : Command → ReceiptCode → Text → CommandReceipt
receipt c code summary = record {
  command_id = c.command_id;
  correlation_id = c.correlation_id;
  code = code;
  summary = summary;
  execution = none;
}

unfoldable pub is_implemented : ActionType → Bool
is_implemented kill_process = true
is_implemented collect_process_info = true
is_implemented collect_network_connections = true
is_implemented collect_file = true
is_implemented quarantine_file = true
is_implemented acquire_file = true
is_implemented isolate_host = true
is_implemented release_host_isolation = true

abbrev pub out_of_scope : Command → CommandGate → Bool
out_of_scope c g =
    not (is_valid_identifier c.command_id)
    || not (is_valid_identifier c.correlation_id)
    || (not (text_eq c.schema_version (codes "1")) && not (text_eq c.schema_version (codes "2")))
    || not (text_eq c.agent_id g.agent_id)
    || not (text_eq c.host_id g.host_id)
    || not (text_eq c.process_target.host_id g.host_id)

-- `seen_.insert` and the receipt after it.
abbrev pub accept : Command → CommandGate → CommandGate × CommandReceipt
accept c g = (
  record g { seen = if contains g.seen c.command_id then g.seen else g.seen ++ c.command_id ∷ [] },
  receipt c succeeded (codes "command accepted for a closed action handler"),
)

-- What follows the call of the ledger.
unfoldable pub after_mark :
    Command → CommandGate → ReplayLedger × Result LedgerError Bool → CommandGate × CommandReceipt
after_mark c g (l, err _) = (
  record g { durable_ledger = some l },
  receipt c execution_failed (codes "cannot persist command replay state"),
)
after_mark c g (l, ok false) = (
  record g { durable_ledger = some l },
  receipt c replay_detected (codes "command was accepted before restart"),
)
after_mark c g (l, ok true) = accept c (record g { durable_ledger = some l })

unfoldable pub mark_durably : LedgerEnv → Command → CommandGate → CommandGate × CommandReceipt
mark_durably env c g = elim g.durable_ledger [
  | none ↦ accept c g
  | some l ↦ after_mark c g (mark_if_new env c.command_id l)
]

-- `now` is what the clock answers.
unfoldable pub validate_and_mark :
    ℤ → LedgerEnv → Command → CommandGate → CommandGate × CommandReceipt
validate_and_mark now env c g =
    if out_of_scope c g
    then (g, receipt c invalid_command (codes "command identity, target, or schema is invalid"))
    else if leb_ℤ c.expires_at_epoch_seconds now
    then (g, receipt c expired (codes "command has expired"))
    else if contains g.seen c.command_id
    then (g, receipt c replay_detected (codes "command was already accepted"))
    else if not (is_implemented c.action)
    then (g, receipt c unsupported_action (codes "action is not implemented"))
    else if is_kill_process c.action && is_protected_process c.process_target.pid []
    then (g, receipt c target_protected (codes "target is a protected process"))
    else mark_durably env c g
