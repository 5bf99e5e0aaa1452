-- ===== src/Response/Timestamp.antt =====
-- The RFC 3339 parser of src/response/command.cpp.
pub mod Calendar
use panopticon_agent.Prelude.{
  ℕ, zero, suc, ◌+◌, ◌-◌, ◌*◌, ◌/◌, ◌%◌, Bool, true, false, not, ◌&&◌, ◌||◌, Option, none, some,
  List, [], ◌∷◌, ltb, leb, ◌==◌, if◌then◌else◌, length, take, drop, get_elem?, Text, codes, text_eq,
  is_digit, ℤ, sub_ℕ, ltb_ℤ,
}

-- Seconds since the epoch, and nanoseconds.
pub record Timestamp : Type 0 where
  pub seconds : ℤ
  pub nanoseconds : ℕ

-- The lambda `digits`: `count` digits from the front of what is left.
unfoldable pub digits : ℕ → ℕ → Text → Option ℕ
digits zero number s = some number
digits (suc count) number [] = none
digits (suc count) number (c ∷ s) =
    let rest = digits count (number * 10 + (c - b'0')) s in if is_digit c then rest else none

abbrev pub digits_at : Text → ℕ → ℕ → Option ℕ
digits_at value offset count = digits count 0 (drop offset value)

abbrev pub char_is : Text → ℕ → ℕ → Bool
char_is value index c = elim (get_elem? value index) [ none ↦ false | some d ↦ d == c ]

abbrev pub is_leap : ℕ → Bool
is_leap year = (year % 4 == 0 && not (year % 100 == 0)) || year % 400 == 0

-- `days_in_month[month - 1]`.
abbrev pub days_in_month : ℕ → ℕ
days_in_month month =
    if month == 2
    then 28
    else if month == 4 || month == 6 || month == 9 || month == 11
    then 30
    else 31

unfoldable pub max_day : ℕ → ℕ → ℕ
max_day year month = if month == 2 && is_leap year then 29 else days_in_month month

-- The day number by Hinnant's algorithm, counted from 1 March of the year -400: the source's
-- `days_since_epoch` plus 865565. One era is added to the year, so that no value is negative.
unfoldable pub shifted_days : ℕ → ℕ → ℕ → ℕ
shifted_days year month day =
    let y : ℕ = year + 400 - (if leb month 2 then 1 else 0) in
    let era : ℕ = y / 400 in
    let yoe : ℕ = y - era * 400 in
    let doy : ℕ = (153 * (if ltb 2 month then month - 3 else month + 9) + 2) / 5 + day - 1 in
    let doe : ℕ = yoe * 365 + yoe / 4 - yoe / 100 + doy in era * 146097 + doe

abbrev pub epoch_shift : ℕ
epoch_shift = 865565

-- Fraction digits, as `nanoseconds * 10 + digit`.
unfoldable pub fraction_digits : Text → ℕ → Option ℕ
fraction_digits [] n = some n
fraction_digits (c ∷ s) n =
    let rest = fraction_digits s (n * 10 + (c - b'0')) in if is_digit c then rest else none

-- `for (count = size - 1; count < 9; ++count) nanoseconds *= 10;`
unfoldable pub scale : ℕ → ℕ → ℕ
scale zero n = n
scale (suc rounds) n = scale rounds (n * 10)

unfoldable pub parse_fraction : Text → Option ℕ
unfolding fraction_digits scale
parse_fraction [] = some 0
parse_fraction (c ∷ s) =
    if not (c == b'.') || ltb (length s) 1 || ltb 9 (length s)
    then none
    else elim (fraction_digits s 0) [ none ↦ none | some n ↦ some (scale (9 - length s) n) ]

abbrev pub in_clock : ℕ → ℕ → ℕ → ℕ → ℕ → Bool
in_clock month day hour minute second =
    leb 1 month
    && leb month 12
    && leb 1 day
    && leb day 31
    && leb hour 23
    && leb minute 59
    && leb second 59

unfoldable pub civil_seconds : ℕ → ℕ → ℕ → ℕ → ℕ → ℕ → ℤ
unfolding shifted_days
civil_seconds year month day hour minute second =
    sub_ℕ (shifted_days year month day * 86400 + hour * 3600 + minute * 60 + second)
      (epoch_shift * 86400)

-- What follows the seven fields.
abbrev pub finish : ℕ → ℕ → ℕ → ℕ → ℕ → ℕ → Text → Option Timestamp
finish year month day hour minute second fraction =
    if not (in_clock month day hour minute second) then none else elim (parse_fraction fraction) [
      | none ↦ none
      | some nanoseconds ↦
          if ltb (max_day year month) day
          then none
          else some (record {
            seconds = civil_seconds year month day hour minute second;
            nanoseconds = nanoseconds;
          })
    ]

abbrev pub ends_with_z : Text → Bool
ends_with_z value = char_is value (length value - 1) b'Z'

-- `value.substr(19, size - suffix_size - 19)`; an underflow of the count takes all that is left.
abbrev pub fraction_of : Text → Text
fraction_of value =
    let suffix_size : ℕ = if ends_with_z value then 1 else 6 in
    if ltb (length value) (suffix_size + 19)
    then drop 19 value
    else take (length value - suffix_size - 19) (drop 19 value)

infixl 5 ◌>>=?◌
abbrev ◌>>=?◌ {ℓ κ} : {A : Type ℓ} {B : Type κ} → Option A → (A → Option B) → Option B
none >>=? f = none
some a >>=? f = f a

abbrev pub well_shaped : Text → Bool
well_shaped value =
    leb 20 (length value)
    && (ends_with_z value || text_eq (drop (length value - 6) value) (codes "+00:00"))
    && char_is value 4 b'-'
    && char_is value 7 b'-'
    && char_is value 10 b'T'
    && char_is value 13 b':'
    && char_is value 16 b':'

unfoldable pub parse_utc_timestamp : Text → Option Timestamp
unfolding digits max_day parse_fraction civil_seconds text_eq
parse_utc_timestamp value =
    if not (well_shaped value)
    then none
    else digits_at value 0 4 >>=? λ year. digits_at value 5 2 >>=? λ month.
        digits_at value 8 2 >>=? λ day. digits_at value 11 2 >>=? λ hour.
        digits_at value 14 2 >>=? λ minute. digits_at value 17 2 >>=? λ second.
        finish year month day hour minute second (fraction_of value)

-- `*created_at >= *expires_at` fails: the order of pairs.
abbrev pub before : Timestamp → Timestamp → Bool
before a b =
    ltb_ℤ a.seconds b.seconds
    || (not (ltb_ℤ b.seconds a.seconds) && ltb a.nanoseconds b.nanoseconds)
