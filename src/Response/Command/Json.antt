-- ===== src/Response/Command/Json.antt =====
-- The values of the JSON library, and the checks of single values in src/response/command.cpp.
use panopticon_agent.Prelude.{
  ℕ, Bool, not, ◌&&◌, ◌||◌, Option, none, some, List, [], ◌∷◌, ltb, leb, ◌==◌, if◌then◌else◌,
  length, Text, text_eq, all_chars, is_digit, is_lower, is_upper, ℤ, pos,
}

-- The parser makes `unsigned` of a number without a sign and `integer` of a negative one; a `float`
-- is kept as its text.
mutual
  pub data Json : Type 0 where
    null : Json
    boolean : Bool → Json
    integer : ℤ → Json
    unsigned : ℕ → Json
    float : Text → Json
    string : Text → Json
    array : Elements → Json
    object : Members → Json

  pub data Elements : Type 0 where
    no_element : Elements
    element : Json → Elements → Elements

  pub data Members : Type 0 where
    no_member : Members
    member : Text → Json → Members → Members

unfoldable pub find : Text → Members → Option Json
find key no_member = none
find key (member k v ms) = if text_eq k key then some v else find key ms

unfoldable pub keys : Members → List Text
keys no_member = []
keys (member k v ms) = k ∷ keys ms

-- `document[key]`: null where the key is missing.
unfoldable pub field : Text → Members → Json
field key ms = elim (find key ms) [ none ↦ null | some v ↦ v ]

-- The string of a value that is one, in bounds.
unfoldable pub bounded_string : ℕ → Json → Option Text
bounded_string max_length (string s) =
    if not (length s == 0) && leb (length s) max_length then some s else none
bounded_string max_length _ = none

unfoldable pub plain_string : Json → Option Text
plain_string (string s) = some s
plain_string _ = none

-- `get<std::int64_t>` of a value that `is_positive_integer` takes: an unsigned number from 2 ^ 63 on
-- would be negative, and an `integer` is below it.
unfoldable pub positive_integer : Json → Option ℕ
positive_integer (unsigned n) = if ltb 0 n && ltb n 9223372036854775808 then some n else none
positive_integer (integer (pos n)) = if ltb 0 n && ltb n 9223372036854775808 then some n else none
positive_integer _ = none

unfoldable pub bounded_positive_u64 : Json → ℕ → Option ℕ
bounded_positive_u64 (unsigned n) maximum = if n == 0 || ltb maximum n then none else some n
bounded_positive_u64 (integer (pos n)) maximum = if n == 0 || ltb maximum n then none else some n
bounded_positive_u64 _ maximum = none

abbrev pub is_capture_char : ℕ → Bool
is_capture_char c = is_lower c || is_upper c || is_digit c || c == b'_' || c == b'-'

unfoldable pub is_capture_id : Text → Bool
is_capture_id value =
    not (length value == 0) && leb (length value) 96 && all_chars is_capture_char value
