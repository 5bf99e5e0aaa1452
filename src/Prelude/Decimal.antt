-- ===== src/Prelude/Decimal.antt =====
-- `std::to_string` of an unsigned number, and `std::from_chars` that takes a whole text.
use Prim.Native.Nat.{ℕ, zero, suc, ◌+◌, ◌-◌, ◌*◌, ◌/◌, ◌%◌, ◌<◌}
use mathlib.Core.Path.{◌≡◌, refl, ap, ◌∙◌}
use mathlib.Core.Bool.{true}
use mathlib.Core.List.{[], ◌∷◌, ◌++◌}
use mathlib.Core.Option.{Option, none, some}
use native.Mathlib.Omega.{arith}
use panopticon_agent.Prelude.Tests.{ltb, if◌then◌else◌, if-both}
use panopticon_agent.Prelude.Chars.{Text, is_digit, all_chars}
use panopticon_agent.Prelude.Int.{size_mod}

-- The digits of `n`; the fuel `n + 1` is more than the digits there are.
unfoldable pub print_digits : ℕ → ℕ → Text
print_digits zero n = []
print_digits (suc fuel) n =
    let high = print_digits fuel (n / 10) in
    if ltb n 10 then (b'0' + n) ∷ [] else high ++ (b'0' + n % 10) ∷ []

unfoldable pub to_string : ℕ → Text
to_string n = print_digits (suc n) n

unfoldable pub decimal_value : ℕ → Text → Option ℕ
decimal_value value [] = some value
decimal_value value (c ∷ s) =
    let rest = decimal_value (10 * value + (c - b'0')) s in if is_digit c then rest else none

-- A value of at least 2 ^ 64 is out of range.
unfoldable pub from_chars : Text → Option ℕ
from_chars [] = none
from_chars (c ∷ s) = elim (decimal_value 0 (c ∷ s)) [
  | none ↦ none
  | some value ↦ if ltb value size_mod then some value else none
]

decimal_value-snoc :
    (value n d : ℕ) (s : Text)
    → decimal_value value s ≡ some n
    → d < 10
    → decimal_value value (s ++ (b'0' + d) ∷ []) ≡ some (10 * n + d)
unfolding decimal_value
decimal_value-snoc value n d [] e h = ground arith
decimal_value-snoc value n d (c ∷ s) e h =
    ground (arith, decimal_value-snoc (10 * value + (c - b'0')) n d s)

print_digits_value : (fuel n : ℕ) → n < fuel → decimal_value 0 (print_digits fuel n) ≡ some n
unfolding decimal_value print_digits
print_digits_value zero n h = absurd (omega arith)
print_digits_value (suc fuel) n h =
    if-both (λ t. decimal_value 0 t ≡ some n) (ltb n 10) _ _ (λ e. ground arith)
      λ e.
        decimal_value-snoc 0 (n / 10) (n % 10) (print_digits fuel (n / 10))
          (print_digits_value fuel (n / 10) (ground arith)) (omega arith)
        ∙ ap (λ m. some m) (omega arith)

-- The text begins with a digit, and only that of zero with a zero.
abbrev pub IsCanonical : ℕ → Text → Type 0
IsCanonical n [] = ⊥
IsCanonical n (c ∷ s) = 0 < n → b'0' < c

IsCanonical-snoc : (n m d : ℕ) (s : Text) → 0 < n → IsCanonical n s → IsCanonical m (s ++ d ∷ [])
IsCanonical-snoc n m d [] p h = absurd h
IsCanonical-snoc n m d (c ∷ s) p h = λ _. h p

print_digits-IsCanonical : (fuel n : ℕ) → n < fuel → IsCanonical n (print_digits fuel n)
unfolding print_digits
print_digits-IsCanonical zero n h = absurd (omega arith)
print_digits-IsCanonical (suc fuel) n h =
    if-both (IsCanonical n) (ltb n 10) _ _ (λ e p. omega arith)
      λ e.
        IsCanonical-snoc (n / 10) n (b'0' + n % 10) (print_digits fuel (n / 10)) (ground arith)
          (print_digits-IsCanonical fuel (n / 10) (ground arith))

pub to_string-IsCanonical : (n : ℕ) → IsCanonical n (to_string n)
unfolding to_string
to_string-IsCanonical n = print_digits-IsCanonical (suc n) n (omega arith)

from_chars-value :
    (s : Text) (n m : ℕ)
    → IsCanonical m s
    → decimal_value 0 s ≡ some n
    → n < size_mod
    → from_chars s ≡ some n
unfolding from_chars
from_chars-value [] n m i e h = absurd i
from_chars-value (c ∷ s) n m i e h = ground arith

-- Reading what was printed.
pub from_chars-to_string : (n : ℕ) → n < size_mod → from_chars (to_string n) ≡ some n
unfolding to_string
from_chars-to_string n h =
    from_chars-value (print_digits (suc n) n) n n (to_string-IsCanonical n)
      (print_digits_value (suc n) n (omega arith)) h

pub from_chars-bound : (s : Text) (n : ℕ) → from_chars s ≡ some n → n < size_mod
unfolding from_chars
from_chars-bound [] n e = absurd (ground arith)
from_chars-bound (c ∷ s) n e = ground arith

decimal_value-digits :
    (value n : ℕ) (s : Text) → decimal_value value s ≡ some n → all_chars is_digit s ≡ true
unfolding decimal_value all_chars
decimal_value-digits value n [] e = refl
decimal_value-digits value n (c ∷ s) e =
    ground (arith, decimal_value-digits (10 * value + (c - b'0')) n s)

pub to_string-digits : (n : ℕ) → all_chars is_digit (to_string n) ≡ true
unfolding to_string
to_string-digits n =
    decimal_value-digits 0 n (print_digits (suc n) n) (print_digits_value (suc n) n (omega arith))
