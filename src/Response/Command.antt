-- ===== src/Response/Command.antt =====
-- Commands and receipts (include/panopticon/officer/response/command.hpp).
pub mod Json
pub mod Parser
pub mod Sound
pub mod Targets
pub mod Accepted
mod Tests
use panopticon_agent.Prelude.{ℕ, Bool, true, false, Option, Text, ℤ}

pub data ActionType : Type 0 where
  kill_process collect_process_info collect_network_connections collect_file : ActionType
  quarantine_file acquire_file isolate_host release_host_isolation : ActionType

pub record ProcessTarget : Type 0 where
  pub host_id : Text
  pub pid : ℕ
  pub start_time_ticks : ℕ
  pub boot_id : Option Text

pub record Command : Type 0 where
  pub command_id : Text
  pub agent_id : Text
  pub host_id : Text
  pub schema_version : Text
  pub correlation_id : Text
  pub action : ActionType
  pub expires_at_epoch_seconds : ℤ
  pub process_target : ProcessTarget
  pub file_target_path : Text
  pub file_capture_id : Text
  pub file_maximum_bytes : ℕ
  pub canonical_wire_json : Text

pub data ReceiptCode : Type 0 where
  succeeded invalid_command expired replay_detected target_mismatch : ReceiptCode
  target_protected unsupported_action execution_failed indeterminate : ReceiptCode

pub record ProcessExecutionEvidence : Type 0 where
  pub stage : Text
  pub action_initiated : Bool
  pub completion_observed : Bool
  pub native_error : Option ℕ

pub record CommandReceipt : Type 0 where
  pub command_id : Text
  pub correlation_id : Text
  pub code : ReceiptCode
  pub summary : Text
  pub execution : Option ProcessExecutionEvidence

unfoldable pub is_kill_process : ActionType → Bool
is_kill_process kill_process = true
is_kill_process _ = false

unfoldable pub is_succeeded : ReceiptCode → Bool
is_succeeded succeeded = true
is_succeeded _ = false
