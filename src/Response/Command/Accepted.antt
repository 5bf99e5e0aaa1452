-- ===== src/Response/Command/Accepted.antt =====
-- Every command that `parse_command_json` returns is well-formed, and read from the payload.
use panopticon_agent.Prelude.{
  ℕ, suc, ap, ◌∙◌, ◌≤◌, ◌<◌, ◌==◌, ◌≡◌, refl, not, some, ok, Bool, true, false, ◌&&◌, ◌||◌, List,
  [], ◌∷◌, text_eq→eq, leb, length, Result, err, require-both, or_fail-both, bind-both, Text, codes,
  text_eq, arith,
}
use panopticon_agent.Response.Identity.{is_valid_identifier}
use panopticon_agent.Response.Timestamp.{Timestamp, before, parse_utc_timestamp}
use panopticon_agent.Response.Command.{Command}
use panopticon_agent.Response.Command.Json.{
  Json, null, boolean, integer, unsigned, float, string, array, object, Elements, no_element,
  element, Members, no_member, member, keys, field, bounded_string, plain_string,
}
use panopticon_agent.Response.Command.Parser.{
  CommandError, required_keys, allowed_keys, all_in, action_of, poll_commands, kind_of, Target,
  parse_members, parse_command_json, count_elements, parse_entries, parse_command_poll_response,
}
use panopticon_agent.Response.Command.Sound.{Yields, yields, fails, Yields-map, IsTarget}
use panopticon_agent.Response.Command.Targets.{parse_kind-IsTarget}

abbrev pub target_of : Command → Target
target_of c = record {
  process = c.process_target;
  path = c.file_target_path;
  capture_id = c.file_capture_id;
  maximum_bytes = c.file_maximum_bytes;
}

-- The command was read from these members of an object: its texts and its action are theirs, its
-- expiry is the instant that `expires_at` names, and that comes after the one that `created_at` names.
pub record ReadFrom (dump : Json → Text) (ms : Members) (c : Command) : Type 0 where
  pub only_known : all_in (keys ms) allowed_keys ≡ true
  pub all_required : all_in required_keys (keys ms) ≡ true
  pub command_id : bounded_string 128 (field (codes "command_id") ms) ≡ some c.command_id
  pub agent_id : bounded_string 128 (field (codes "agent_id") ms) ≡ some c.agent_id
  pub host_id : bounded_string 128 (field (codes "host_id") ms) ≡ some c.host_id
  pub correlation_id :
      bounded_string 128 (field (codes "correlation_id") ms) ≡ some c.correlation_id
  pub schema_version : plain_string (field (codes "schema_version") ms) ≡ some c.schema_version
  pub created_at : Text
  pub expires_at : Text
  pub created : Timestamp
  pub expires : Timestamp
  pub has_created_at : plain_string (field (codes "created_at") ms) ≡ some created_at
  pub has_expires_at : plain_string (field (codes "expires_at") ms) ≡ some expires_at
  pub created_is : parse_utc_timestamp created_at ≡ some created
  pub expires_is : parse_utc_timestamp expires_at ≡ some expires
  pub ordered : before created expires ≡ true
  pub expiry : c.expires_at_epoch_seconds ≡ expires.seconds
  pub action_name : Text
  pub has_action : plain_string (field (codes "action") ms) ≡ some action_name
  pub action_is : action_of action_name ≡ some c.action
  pub wire : c.canonical_wire_json ≡ dump (object ms)

pub record IsCommand (c : Command) : Type 0 where
  pub identifiers :
      (is_valid_identifier c.command_id
        && is_valid_identifier c.agent_id
        && is_valid_identifier c.host_id
        && is_valid_identifier c.correlation_id)
      ≡ true
  pub schema : (text_eq c.schema_version (codes "1") || text_eq c.schema_version (codes "2")) ≡ true
  pub target :
      IsTarget (kind_of c.action) (text_eq c.schema_version (codes "2")) c.host_id (target_of c)

poll_commands-found :
    (document : Json) (es : Elements)
    → poll_commands document ≡ some es
    → document ≡ object (member (codes "commands") (array es) no_member)
unfolding poll_commands
poll_commands-found (object (member key (array items) no_member)) es e = by_key _ refl
  where
    by_key :
        (same : Bool)
        → text_eq key (codes "commands") ≡ same
        → object (member key (array items) no_member)
          ≡ object (member (codes "commands") (array es) no_member)
    by_key true t =
        let same_items : items ≡ es = ground (arith, t, e) in
        ap (λ k. object (member k (array items) no_member)) (text_eq→eq key (codes "commands") t)
        ∙ ap (λ xs. object (member (codes "commands") (array xs) no_member)) same_items
    by_key false t = absurd (ground (arith, t, e))
poll_commands-found (object (member key (array items) (member k v ms))) es e =
    absurd (ground (arith, e))
poll_commands-found (object (member key null ms)) es e = absurd (ground (arith, e))
poll_commands-found (object (member key (boolean b) ms)) es e = absurd (ground (arith, e))
poll_commands-found (object (member key (integer z) ms)) es e = absurd (ground (arith, e))
poll_commands-found (object (member key (unsigned n) ms)) es e = absurd (ground (arith, e))
poll_commands-found (object (member key (float t) ms)) es e = absurd (ground (arith, e))
poll_commands-found (object (member key (string t) ms)) es e = absurd (ground (arith, e))
poll_commands-found (object (member key (object v) ms)) es e = absurd (ground (arith, e))
poll_commands-found (object no_member) es e = absurd (ground (arith, e))
poll_commands-found null es e = absurd (ground (arith, e))
poll_commands-found (boolean b) es e = absurd (ground (arith, e))
poll_commands-found (integer z) es e = absurd (ground (arith, e))
poll_commands-found (unsigned n) es e = absurd (ground (arith, e))
poll_commands-found (float t) es e = absurd (ground (arith, e))
poll_commands-found (string t) es e = absurd (ground (arith, e))
poll_commands-found (array items) es e = absurd (ground (arith, e))

module _ (dump : Json → Text) where
  parse_members-IsCommand :
      (ms : Members) → Yields (λ c. ReadFrom dump ms c × IsCommand c) (parse_members dump ms)
  unfolding parse_members
  parse_members-IsCommand ms =
      let P = Yields (λ c. ReadFrom dump ms c × IsCommand c) in
      require-both P _ _ _ (λ _. fails)
        λ known_keys.
          require-both P _ _ _ (λ _. fails)
            λ required.
              or_fail-both P _ _ _ (λ _. fails)
                λ command e1.
                  or_fail-both P _ _ _ (λ _. fails)
                    λ agent e2.
                      or_fail-both P _ _ _ (λ _. fails)
                        λ host e3.
                          or_fail-both P _ _ _ (λ _. fails)
                            λ correlation e4.
                              require-both P _ _ _ (λ _. fails)
                                λ ids.
                                  or_fail-both P _ _ _ (λ _. fails)
                                    λ schema e5.
                                      require-both P _ _ _ (λ _. fails)
                                        λ known.
                                          or_fail-both P _ _ _ (λ _. fails)
                                            λ expires_at e6.
                                              or_fail-both P _ _ _ (λ _. fails)
                                                λ created_at e7.
                                                  or_fail-both P _ _ _ (λ _. fails)
                                                    λ created e8.
                                                      or_fail-both P _ _ _ (λ _. fails)
                                                        λ expires e9.
                                                          require-both P _ _ _ (λ _. fails)
                                                            λ ordered.
                                                            or_fail-both P _ _ _ (λ _. fails)
                                                            λ name e10.
                                                            or_fail-both P _ _ _ (λ _. fails)
                                                            λ action e11.
                                                            or_fail-both P _ _ _ (λ _. fails)
                                                            λ target _.
                                                            bind-both
                                                            (Yields (
                                                            IsTarget (kind_of action)
                                                            (text_eq schema (codes "2")) host))
                                                            P _ _
                                                            (parse_kind-IsTarget (kind_of action)
                                                            (text_eq schema (codes "2")) host
                                                            target)
                                                            (λ _. fails)
                                                            λ t y. elim y [
                                                              | yields v ↦ yields (
                                                              record {
                                                              only_known = known_keys;
                                                              all_required = required;
                                                              command_id = e1;
                                                              agent_id = e2;
                                                              host_id = e3;
                                                              correlation_id = e4;
                                                              schema_version = e5;
                                                              created_at = created_at;
                                                              expires_at = expires_at;
                                                              created = created;
                                                              expires = expires;
                                                              has_created_at = e7;
                                                              has_expires_at = e6;
                                                              created_is = e8;
                                                              expires_is = e9;
                                                              ordered = ordered;
                                                              expiry = refl;
                                                              action_name = name;
                                                              has_action = e10;
                                                              action_is = e11;
                                                              wire = refl;
                                                              },
                                                              record {
                                                              identifiers = ids;
                                                              schema = known;
                                                              target = v;
                                                              },
                                                              )
                                                            ]

  -- What the command of a payload is known to satisfy.
  abbrev pub Accepts : (Text → Result CommandError Json) → Text → Command → Type 0
  Accepts parse payload c =
      (0 < length payload)
      × (length payload ≤ 8192)
      × ((ms : Members) × (parse payload ≡ ok (object ms)) × ReadFrom dump ms c)
      × IsCommand c

  pub parse_command_json-IsCommand :
      (parse : Text → Result CommandError Json) (payload : Text)
      → Yields (Accepts parse payload) (parse_command_json dump parse payload)
  unfolding parse_command_json
  parse_command_json-IsCommand parse payload =
      let P = Yields (Accepts parse payload) in
      require-both P _ _ _ (λ _. fails)
        λ size.
          bind-both (λ r. parse payload ≡ r) P _ _ refl (λ _. fails)
            λ document e. by_shape size document e
    where
      by_shape :
          (not (length payload == 0) && leb (length payload) 8192) ≡ true
          → (document : Json) → parse payload ≡ ok document
          → Yields (Accepts parse payload) (elim document [
            | object ms ↦ parse_members dump ms
            | _ ↦ err CommandError.not_an_object
          ])
      by_shape size (object ms) e =
          Yields-map _ _ _ (parse_members-IsCommand ms)
            λ c h. (ground (arith, size), ground (arith, size), (ms, e, h.0), h.1)
      by_shape size null e = fails
      by_shape size (boolean b) e = fails
      by_shape size (integer z) e = fails
      by_shape size (unsigned n) e = fails
      by_shape size (float t) e = fails
      by_shape size (string t) e = fails
      by_shape size (array es) e = fails

  -- The commands are those of the elements, in order.
  abbrev pub AreCommands : (Text → Result CommandError Json) → Elements → List Command → Type 0
  AreCommands parse no_element [] = Unit {0}
  AreCommands parse (element v es) (c ∷ cs) = Accepts parse (dump v) c × AreCommands parse es cs
  AreCommands parse _ _ = ⊥

  parse_entries-AreCommands :
      (parse : Text → Result CommandError Json) (es : Elements)
      → Yields
          (λ cs. AreCommands parse es cs × (length cs ≡ count_elements es))
          (parse_entries dump parse es)
  unfolding parse_entries count_elements
  parse_entries-AreCommands parse no_element = yields (tt, refl)
  parse_entries-AreCommands parse (element v es) =
      let P =
        Yields
          (λ cs. AreCommands parse (element v es) cs × (length cs ≡ suc (count_elements es))) in
      bind-both (Yields (Accepts parse (dump v))) P _ _
        (parse_command_json-IsCommand parse (dump v)) (λ _. fails)
        λ c y.
          bind-both (Yields (λ cs. AreCommands parse es cs × (length cs ≡ count_elements es))) P _ _
            (parse_entries-AreCommands parse es) (λ _. fails)
            λ cs z. elim y [ yields v ↦ elim z [ yields w ↦ yields ((v, w.0), ap suc w.1) ] ]

  -- What the commands of a poll response are known to satisfy.
  abbrev pub AcceptsPoll : (Text → Result CommandError Json) → ℕ → Text → List Command → Type 0
  AcceptsPoll parse maximum payload cs =
      (length cs ≤ maximum)
      × ((es : Elements) × (parse payload
            ≡ ok (object (member (codes "commands") (array es) no_member)))
          × AreCommands parse es cs)

  -- Whatever the JSON library makes of the payloads, the commands that a poll response yields are
  -- those of the elements of the array commands, the only member of the response, one for each
  -- element in order; each satisfies what the parser of one command guarantees of the payload
  -- printed from that element, and there are no more of them than the maximum.
  pub parse_command_poll_response-AreCommands :
      (parse : Text → Result CommandError Json) (maximum : ℕ) (payload : Text)
      → Yields
          (AcceptsPoll parse maximum payload)
          (parse_command_poll_response dump parse maximum payload)
  unfolding parse_command_poll_response
  parse_command_poll_response-AreCommands parse maximum payload =
      let P = Yields (AcceptsPoll parse maximum payload) in
      require-both P _ _ _ (λ _. fails)
        λ _.
          bind-both (λ r. parse payload ≡ r) P _ _ refl (λ _. fails)
            λ document e.
              or_fail-both P _ _ _ (λ _. fails)
                λ es found.
                  require-both P _ _ _ (λ _. fails)
                    λ few.
                      bounded es few (e ∙ ap (λ d. ok d) (poll_commands-found document es found))
                        (parse_entries dump parse es) (parse_entries-AreCommands parse es)
    where
      bounded :
          (es : Elements)
          → leb (count_elements es) maximum ≡ true
          → parse payload ≡ ok (object (member (codes "commands") (array es) no_member))
          → (r : Result CommandError (List Command))
          → Yields (λ cs. AreCommands parse es cs × (length cs ≡ count_elements es)) r
          → Yields (AcceptsPoll parse maximum payload) r
      bounded es few e r (yields v) = yields (ground (arith, few, v.1), (es, e, v.0))
      bounded es few e r fails = fails
