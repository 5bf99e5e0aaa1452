-- ===== src/Response/Identity.antt =====
-- Identifiers and the enrolled identity's file (src/response/identity.cpp).
use panopticon_agent.Prelude.{
  ℕ, ◌≡◌, Bool, true, false, not, ◌&&◌, ◌||◌, Option, none, some, List, [], ◌∷◌, ◌++◌, ltb, ◌==◌,
  if◌then◌else◌, length, arith, Result, ok, err, Text, all_chars, is_digit, is_lower, is_upper,
  lines, NoNewline, take, text_in, text_out, NoCtrlZ, NoCtrlZ-append,
}

-- `std::isalnum` in the "C" locale, and the three signs.
abbrev pub is_identifier_char : ℕ → Bool
is_identifier_char c = is_digit c || is_lower c || is_upper c || c == b'-' || c == b'_' || c == b'.'

unfoldable pub is_valid_identifier : Text → Bool
unfolding all_chars
is_valid_identifier value =
    if length value == 0 || ltb 128 (length value)
    then false
    else all_chars is_identifier_char value

pub record EnrolledIdentity : Type 0 where
  pub agent_id : Text
  pub host_id : Text
  pub bearer_token : Text

-- The identity's file, and the temporary file beside it.
pub record IdentityFiles : Type 0 where
  pub published : Option Text
  pub temporary : Option Text

-- What the operating system answers during one store.
pub record StoreEnv : Type 0 where
  pub directory_ok : Bool
  pub open_ok : Bool
  pub flush_ok : Bool
  pub written : ℕ
  pub acl_ok : Bool
  pub rename_ok : Bool

pub data IdentityError : Type 0 where
  absent_or_invalid invalid no_directory cannot_write cannot_persist cannot_publish : IdentityError

abbrev token_ok : Text → Bool
token_ok token = not (length token == 0) && not (ltb 512 (length token))

-- The three lines, checked.
unfoldable pub parse_identity : List Text → Option EnrolledIdentity
unfolding is_valid_identifier
parse_identity (agent ∷ host ∷ token ∷ _) =
    if is_valid_identifier agent && is_valid_identifier host && token_ok token
    then some (record { agent_id = agent; host_id = host; bearer_token = token })
    else none
parse_identity _ = none

-- The stream is opened in text mode.
unfoldable pub load_enrolled_identity : IdentityFiles → Result IdentityError EnrolledIdentity
unfolding parse_identity lines text_in
load_enrolled_identity fs = elim fs.published [
  | none ↦ err absent_or_invalid
  | some bytes ↦ elim (parse_identity (lines (text_in bytes))) [
    | none ↦ err absent_or_invalid
    | some identity ↦ ok identity
  ]
]

abbrev pub identity_text : EnrolledIdentity → Text
identity_text i = i.agent_id ++ (10 ∷ (i.host_id ++ (10 ∷ (i.bearer_token ++ (10 ∷ [])))))

-- The stream is opened in text mode; `written` bytes have reached the temporary file where the flush
-- fails. A refused ACL is reported and does not stop the store.
unfoldable pub store_enrolled_identity :
    StoreEnv → EnrolledIdentity → IdentityFiles → IdentityFiles × Result IdentityError Bool
unfolding is_valid_identifier text_out
store_enrolled_identity env i fs =
    if not
      (is_valid_identifier i.agent_id && is_valid_identifier i.host_id && token_ok i.bearer_token)
    then (fs, err invalid)
    else if not env.directory_ok
    then (fs, err no_directory)
    else if not env.open_ok
    then (fs, err cannot_write)
    else if not env.flush_ok
    then (
      record fs { temporary = some (take env.written (text_out (identity_text i))) },
      err cannot_persist,
    )
    else if not env.rename_ok
    then (record fs { temporary = none }, err cannot_publish)
    else (record { published = some (text_out (identity_text i)); temporary = none }, ok env.acl_ok)

pub identifier-NoNewline : (s : Text) → all_chars is_identifier_char s ≡ true → NoNewline s
unfolding all_chars
identifier-NoNewline [] h = tt
identifier-NoNewline (c ∷ s) h = ground (arith, identifier-NoNewline s)

pub is_valid_identifier-NoNewline : (s : Text) → is_valid_identifier s ≡ true → NoNewline s
unfolding is_valid_identifier
is_valid_identifier-NoNewline s h = ground (arith, identifier-NoNewline s)

identifier-NoCtrlZ : (s : Text) → all_chars is_identifier_char s ≡ true → NoCtrlZ s
unfolding all_chars
identifier-NoCtrlZ [] h = tt
identifier-NoCtrlZ (c ∷ s) h = ground (arith, identifier-NoCtrlZ s)

pub is_valid_identifier-NoCtrlZ : (s : Text) → is_valid_identifier s ≡ true → NoCtrlZ s
unfolding is_valid_identifier
is_valid_identifier-NoCtrlZ s h = ground (arith, identifier-NoCtrlZ s)

pub NoCtrlZ-line : (s t : Text) → NoCtrlZ s → NoCtrlZ t → NoCtrlZ (s ++ (10 ∷ t))
NoCtrlZ-line s t h k = NoCtrlZ-append s (10 ∷ t) h (omega arith, k)

-- A store that fails leaves the published identity as it was.
pub store_failed :
    (env : StoreEnv) (i : EnrolledIdentity) (fs : IdentityFiles) {e : IdentityError}
    → (store_enrolled_identity env i fs).1 ≡ err e
    → (store_enrolled_identity env i fs).0.published ≡ fs.published
unfolding store_enrolled_identity
store_failed env i fs h = ground arith
