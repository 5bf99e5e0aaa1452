-- ===== src/Response/Command/Tests.antt =====
-- A command of schema 2 that is accepted, and the theorems about the parser applied to it.
use panopticon_agent.Prelude.{
  ◌≡◌, refl, some, [], ◌∷◌, Result, ok, ◌>>=◌, require, or_fail, Text, codes, pos, text_eq,
  contains, all_chars, if◌then◌else◌,
}
use panopticon_agent.Response.Identity.{is_valid_identifier}
use panopticon_agent.Response.Timestamp.{parse_utc_timestamp, digits}
use panopticon_agent.Response.Command.{Command, kill_process}
use panopticon_agent.Response.Command.Json.{
  Json, unsigned, string, array, object, no_element, element, Members, no_member, member, find,
  keys, field, bounded_string, plain_string, positive_integer,
}
use panopticon_agent.Response.Command.Parser.{
  CommandError, all_in, action_of, kind_of, is_boot_digest, canonical_ticks, schema_2_process,
  parse_process, parse_kind, target_members, parse_members, parse_command_json,
  parse_command_poll_response, count_elements, parse_entries, poll_commands,
}
use panopticon_agent.Response.Command.Sound.{Yields}
use panopticon_agent.Response.Command.Accepted.{
  AcceptsPoll, parse_command_poll_response-AreCommands,
}

abbrev boot : Text
boot = codes "boot_0123456789abcdef0123456789abcdef0123456789abcdef0123456789abcdef"

abbrev target : Members
target = member (codes "pid") (unsigned 8) (
    member (codes "start_time_ticks") (string (codes "99"))
      (member (codes "boot_id") (string boot) no_member))

abbrev document : Json
document = object (
    member (codes "command_id") (string (codes "c1")) (
      member (codes "agent_id") (string (codes "a1")) (
        member (codes "host_id") (string (codes "h1")) (
          member (codes "schema_version") (string (codes "2")) (
            member (codes "action") (string (codes "KILL_PROCESS")) (
              member (codes "created_at") (string (codes "1970-01-01T00:00:01Z")) (
                member (codes "expires_at") (string (codes "1970-01-01T00:01:40Z")) (
                  member (codes "correlation_id") (string (codes "k1"))
                    (member (codes "target") (object target) no_member)))))))))

abbrev command : Command
command = record {
  command_id = codes "c1";
  agent_id = codes "a1";
  host_id = codes "h1";
  schema_version = codes "2";
  correlation_id = codes "k1";
  action = kill_process;
  expires_at_epoch_seconds = pos 100;
  process_target = record {
    host_id = codes "h1";
    pid = 8;
    start_time_ticks = 99;
    boot_id = some boot;
  };
  file_target_path = [];
  file_capture_id = [];
  file_maximum_bytes = 0;
  canonical_wire_json = codes "x";
}

abbrev dump : Json → Text
dump _ = codes "x"

abbrev parse : Text → Result CommandError Json
parse _ = ok document

parse_command_json_test : parse_command_json dump parse (codes "{}") ≡ ok command
unfolding parse_command_json ◌>>=◌ require parse_members all_in keys contains text_eq or_fail
    bounded_string field find is_valid_identifier plain_string parse_utc_timestamp action_of
    target_members parse_kind all_chars positive_integer canonical_ticks is_boot_digest kind_of
    parse_process schema_2_process digits
parse_command_json_test = refl

abbrev poll : Text → Result CommandError Json
poll text =
    if text_eq text (codes "x")
    then ok document
    else ok (object (member (codes "commands") (array (element document no_element)) no_member))

parse_command_poll_response_test :
    parse_command_poll_response dump poll 16 (codes "{}") ≡ ok (command ∷ [])
unfolding parse_command_poll_response parse_entries poll_commands count_elements parse_command_json
    ◌>>=◌ require parse_members all_in keys contains text_eq or_fail bounded_string field find
    is_valid_identifier plain_string parse_utc_timestamp action_of target_members parse_kind
    all_chars positive_integer canonical_ticks is_boot_digest kind_of parse_process schema_2_process
    digits
parse_command_poll_response_test = refl

parse_command_poll_response-AreCommands_example :
    Yields
      (AcceptsPoll dump poll 16 (codes "{}"))
      (parse_command_poll_response dump poll 16 (codes "{}"))
parse_command_poll_response-AreCommands_example =
    parse_command_poll_response-AreCommands dump poll 16 (codes "{}")
