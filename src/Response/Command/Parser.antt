-- ===== src/Response/Command/Parser.antt =====
-- `parse_command_json` of src/response/command.cpp, in its order of checks.
use panopticon_agent.Prelude.{
  ℕ, suc, Bool, true, not, ◌&&◌, ◌||◌, Option, none, some, List, [], ◌∷◌, ltb, leb, ◌==◌,
  if◌then◌else◌, length, take, drop, Result, ok, err, ◌>>=◌, require, or_fail, Text, codes, text_eq,
  contains, all_chars, is_digit,
}
use panopticon_agent.Response.Identity.{is_valid_identifier}
use panopticon_agent.Response.Timestamp.{parse_utc_timestamp, before, digits}
use panopticon_agent.Response.Command.{
  ActionType, kill_process, collect_process_info, collect_network_connections, collect_file,
  quarantine_file, acquire_file, isolate_host, release_host_isolation, ProcessTarget, Command,
}
use panopticon_agent.Response.Command.Json.{
  Json, null, object, array, Elements, no_element, element, Members, no_member, member, keys, field,
  bounded_string, plain_string, positive_integer, bounded_positive_u64, is_capture_id,
}

pub data CommandError : Type 0 where
  exceeds_bounds malformed_document not_an_object unexpected_field missing_field : CommandError
  invalid_identity_fields failed_identifier unsupported_schema timestamps_not_strings : CommandError
  invalid_timestamps action_not_string unsupported_command_action target_not_object : CommandError
  schema_2_action invalid_process_target invalid_boot_identity invalid_ticks : CommandError
  invalid_file_target invalid_acquisition unexpected_target : CommandError
  pid_out_of_range invalid_boot_digest invalid_maximum_bytes : CommandError
  invalid_poll malformed_poll too_many_commands : CommandError

abbrev pub required_keys : List Text
required_keys =
    codes "command_id"
    ∷ codes "agent_id"
    ∷ codes "host_id"
    ∷ codes "schema_version"
    ∷ codes "action"
    ∷ codes "expires_at"
    ∷ codes "created_at"
    ∷ codes "correlation_id"
    ∷ []

abbrev pub allowed_keys : List Text
allowed_keys = codes "target" ∷ required_keys

-- Every element of the first list is in the second.
unfoldable pub all_in : List Text → List Text → Bool
all_in [] keys = true
all_in (k ∷ ks) keys = contains keys k && all_in ks keys

-- A member that is a bounded string and an identifier.
abbrev pub identifier_field : Text → Members → Result CommandError Text
identifier_field key ms = or_fail (bounded_string 128 (field key ms)) invalid_identity_fields

unfoldable pub action_of : Text → Option ActionType
action_of name =
    if text_eq name (codes "KILL_PROCESS")
    then some kill_process
    else if text_eq name (codes "COLLECT_PROCESS_INFO")
    then some collect_process_info
    else if text_eq name (codes "COLLECT_NETWORK_CONNECTIONS")
    then some collect_network_connections
    else if text_eq name (codes "COLLECT_FILE")
    then some collect_file
    else if text_eq name (codes "QUARANTINE_FILE")
    then some quarantine_file
    else if text_eq name (codes "ACQUIRE_FILE")
    then some acquire_file
    else if text_eq name (codes "ISOLATE_HOST")
    then some isolate_host
    else if text_eq name (codes "RELEASE_HOST_ISOLATION")
    then some release_host_isolation
    else none

-- The three kinds of target.
pub data TargetKind : Type 0 where
  process_kind file_kind acquire_kind no_target : TargetKind

unfoldable pub kind_of : ActionType → TargetKind
kind_of kill_process = process_kind
kind_of collect_process_info = process_kind
kind_of collect_file = file_kind
kind_of quarantine_file = file_kind
kind_of acquire_file = acquire_kind
kind_of _ = no_target

pub record Target : Type 0 where
  pub process : ProcessTarget
  pub path : Text
  pub capture_id : Text
  pub maximum_bytes : ℕ

abbrev pub no_process : Text → ProcessTarget
no_process host = record { host_id = host; pid = 0; start_time_ticks = 0; boot_id = none }

abbrev pub member_count : Members → ℕ
member_count ms = length (keys ms)

abbrev pub is_hex_lower : ℕ → Bool
is_hex_lower c = is_digit c || (leb b'a' c && leb c b'f')

unfoldable pub is_boot_digest : Text → Bool
is_boot_digest boot =
    length boot == 69
    && text_eq (take 5 boot) (codes "boot_")
    && all_chars is_hex_lower (drop 5 boot)

-- The canonical decimal text of a positive 64-bit number.
unfoldable pub canonical_ticks : Text → Option ℕ
canonical_ticks token = elim (digits (length token) 0 token) [
  | none ↦ none
  | some ticks ↦
      if length token == 0
        || ltb 20 (length token)
        || text_eq (take 1 token) (codes "0")
        || not (ltb ticks 18446744073709551616)
        || ticks == 0
      then none
      else some ticks
]

unfoldable pub schema_2_process : Text → ℕ → Members → Result CommandError ProcessTarget
schema_2_process host pid ms =
    or_fail (bounded_string 128 (field (codes "boot_id") ms)) invalid_boot_identity >>= λ boot.
    require (is_valid_identifier boot) invalid_boot_identity >>= λ _.
    or_fail (plain_string (field (codes "start_time_ticks") ms)) invalid_boot_identity >>= λ token.
    require (is_boot_digest boot) invalid_boot_digest >>= λ _.
    or_fail (canonical_ticks token) invalid_ticks >>= λ ticks.
    ok (record { host_id = host; pid = pid; start_time_ticks = ticks; boot_id = some boot })

unfoldable pub schema_1_process : Text → ℕ → Members → Result CommandError ProcessTarget
schema_1_process host pid ms =
    or_fail (positive_integer (field (codes "start_time_ticks") ms)) invalid_ticks >>= λ ticks.
    ok (record { host_id = host; pid = pid; start_time_ticks = ticks; boot_id = none })

unfoldable pub parse_process : Bool → Text → Members → Result CommandError ProcessTarget
parse_process schema_2 host ms =
    require (member_count ms == (if schema_2 then 3 else 2)) invalid_process_target >>= λ _.
    require (all_in (codes "pid" ∷ codes "start_time_ticks" ∷ []) (keys ms)) invalid_process_target
    >>= λ _. or_fail (positive_integer (field (codes "pid") ms)) invalid_process_target >>= λ pid.
        require (leb pid 4294967295) pid_out_of_range >>= λ _.
        if schema_2 then schema_2_process host pid ms else schema_1_process host pid ms

unfoldable pub parse_file : Text → Members → Result CommandError Target
parse_file host ms = require (member_count ms == 1) invalid_file_target >>= λ _.
    or_fail (bounded_string 4096 (field (codes "path") ms)) invalid_file_target >>= λ path.
    ok (record { process = no_process host; path = path; capture_id = []; maximum_bytes = 0 })

unfoldable pub parse_acquisition : Text → Members → Result CommandError Target
parse_acquisition host ms = require (member_count ms == 3) invalid_acquisition >>= λ _.
    or_fail (bounded_string 4096 (field (codes "path") ms)) invalid_acquisition >>= λ path.
    or_fail (plain_string (field (codes "capture_id") ms)) invalid_acquisition >>= λ capture.
    require (is_capture_id capture && contains (keys ms) (codes "maximum_bytes"))
      invalid_acquisition
    >>= λ _.
        or_fail (bounded_positive_u64 (field (codes "maximum_bytes") ms) 4294967296)
          invalid_maximum_bytes
        >>= λ bytes. ok (record {
          process = no_process host;
          path = path;
          capture_id = capture;
          maximum_bytes = bytes;
        })

unfoldable pub parse_kind : TargetKind → Bool → Text → Members → Result CommandError Target
parse_kind process_kind schema_2 host ms = parse_process schema_2 host ms >>= λ p.
    ok (record { process = p; path = []; capture_id = []; maximum_bytes = 0 })
parse_kind file_kind schema_2 host ms =
    require (not schema_2) schema_2_action >>= λ _. parse_file host ms
parse_kind acquire_kind schema_2 host ms =
    require (not schema_2) schema_2_action >>= λ _. parse_acquisition host ms
parse_kind no_target schema_2 host ms = require (not schema_2) schema_2_action >>= λ _.
    require (member_count ms == 0) unexpected_target >>= λ _.
    ok (record { process = no_process host; path = []; capture_id = []; maximum_bytes = 0 })

abbrev pub parse_target : Bool → ActionType → Text → Members → Result CommandError Target
parse_target schema_2 action host ms = parse_kind (kind_of action) schema_2 host ms

-- `document.contains("target") && !document["target"].is_null() ? ... : json::object()`
unfoldable pub target_members : Json → Option Members
target_members null = some no_member
target_members (object ms) = some ms
target_members _ = none

unfoldable pub count_elements : Elements → ℕ
count_elements no_element = 0
count_elements (element v es) = suc (count_elements es)

-- The array of an object whose only member is `commands`.
unfoldable pub poll_commands : Json → Option Elements
poll_commands (object (member key (array es) no_member)) =
    if text_eq key (codes "commands") then some es else none
poll_commands _ = none

module _ (dump : Json → Text) where
  unfoldable pub parse_members : Members → Result CommandError Command
  parse_members ms = require (all_in (keys ms) allowed_keys) unexpected_field >>= λ _.
      require (all_in required_keys (keys ms)) missing_field >>= λ _.
      identifier_field (codes "command_id") ms >>= λ command.
      identifier_field (codes "agent_id") ms >>= λ agent.
      identifier_field (codes "host_id") ms >>= λ host.
      identifier_field (codes "correlation_id") ms >>= λ correlation.
      require
        (is_valid_identifier command
          && is_valid_identifier agent
          && is_valid_identifier host
          && is_valid_identifier correlation)
        failed_identifier
      >>= λ _.
          or_fail (plain_string (field (codes "schema_version") ms)) unsupported_schema
          >>= λ schema.
              require (text_eq schema (codes "1") || text_eq schema (codes "2")) unsupported_schema
              >>= λ _.
                  or_fail (plain_string (field (codes "expires_at") ms)) timestamps_not_strings
                  >>= λ expires_at.
                      or_fail (plain_string (field (codes "created_at") ms)) timestamps_not_strings
                      >>= λ created_at.
                          or_fail (parse_utc_timestamp created_at) invalid_timestamps >>= λ created.
                          or_fail (parse_utc_timestamp expires_at) invalid_timestamps >>= λ expires.
                          require (before created expires) invalid_timestamps >>= λ _.
                          or_fail (plain_string (field (codes "action") ms)) action_not_string
                          >>= λ name.
                              or_fail (action_of name) unsupported_command_action >>= λ action.
                              or_fail (target_members (field (codes "target") ms)) target_not_object
                              >>= λ target.
                                  parse_target (text_eq schema (codes "2")) action host target
                                  >>= λ t. ok (record {
                                    command_id = command;
                                    agent_id = agent;
                                    host_id = host;
                                    schema_version = schema;
                                    correlation_id = correlation;
                                    action = action;
                                    expires_at_epoch_seconds = expires.seconds;
                                    process_target = t.process;
                                    file_target_path = t.path;
                                    file_capture_id = t.capture_id;
                                    file_maximum_bytes = t.maximum_bytes;
                                    canonical_wire_json = dump (object ms);
                                  })

  -- `parse` stands for the JSON library under the callback of `parse_unambiguous_json`.
  unfoldable pub parse_command_json :
      (Text → Result CommandError Json) → Text → Result CommandError Command
  parse_command_json parse payload =
      require (not (length payload == 0) && leb (length payload) 8192) exceeds_bounds >>= λ _.
      parse payload >>= λ document. elim document [
        | object ms ↦ parse_members ms
        | _ ↦ err not_an_object
      ]

  unfoldable pub parse_entries :
      (Text → Result CommandError Json) → Elements → Result CommandError (List Command)
  parse_entries parse no_element = ok []
  parse_entries parse (element v es) =
      let rest = parse_entries parse es in
      parse_command_json parse (dump v) >>= λ c. rest >>= λ cs. ok (c ∷ cs)

  unfoldable pub parse_command_poll_response :
      (Text → Result CommandError Json) → ℕ → Text → Result CommandError (List Command)
  parse_command_poll_response parse maximum payload =
      require (not (maximum == 0) && not (length payload == 0) && leb (length payload) 1048576)
        invalid_poll
      >>= λ _. parse payload >>= λ document.
          or_fail (poll_commands document) malformed_poll >>= λ es.
          require (leb (count_elements es) maximum) too_many_commands >>= λ _.
          parse_entries parse es
