-- ===== src/Prelude/Chars.antt =====
-- Byte strings: literals, equality, lines.
use Prim.Native.Nat.{ℕ}
use Prim.Native.Char.{code}
use Prim.Native.String.{String}
use mathlib.Core.Path.{◌≡◌, refl}
use mathlib.Core.Logic.{◌≢◌}
use mathlib.Core.Bool.{Bool, true, false, ◌&&◌, ◌||◌}
use mathlib.Core.List.{List, [], ◌∷◌, ◌++◌}
use native.Mathlib.Omega.{arith}
use panopticon_agent.Prelude.Tests.{◌==◌, leb, if◌then◌else◌}

abbrev pub Text : Type 0
Text = List ℕ

-- The bytes of an ASCII literal.
abbrev pub codes : String → Text
codes String.[] = []
codes (String.◌∷◌ c s) = code c ∷ codes s

unfoldable pub text_eq : Text → Text → Bool
text_eq [] [] = true
text_eq (a ∷ s) (b ∷ t) = a == b && text_eq s t
text_eq _ _ = false

pub text_eq→eq : (s t : Text) → text_eq s t ≡ true → s ≡ t
unfolding text_eq
text_eq→eq [] [] h = refl
text_eq→eq [] (b ∷ t) h = absurd (ground arith)
text_eq→eq (a ∷ s) [] h = absurd (ground arith)
text_eq→eq (a ∷ s) (b ∷ t) h = ground (arith, text_eq→eq s t)

pub text_eq_refl : (s : Text) → text_eq s s ≡ true
unfolding text_eq
text_eq_refl [] = refl
text_eq_refl (a ∷ s) = ground (arith, text_eq_refl s)

pub text_eq→ne : (s t : Text) → text_eq s t ≡ false → s ≢ t
text_eq→ne s t h e = ground (arith, text_eq_refl s)

unfoldable pub contains : List Text → Text → Bool
contains [] t = false
contains (s ∷ ss) t = text_eq s t || contains ss t

unfoldable pub all_chars : (ℕ → Bool) → Text → Bool
all_chars p [] = true
all_chars p (c ∷ s) = p c && all_chars p s

abbrev pub is_digit : ℕ → Bool
is_digit c = leb b'0' c && leb c b'9'

abbrev pub is_lower : ℕ → Bool
is_lower c = leb b'a' c && leb c b'z'

abbrev pub is_upper : ℕ → Bool
is_upper c = leb b'A' c && leb c b'Z'

abbrev push : ℕ → List Text → List Text
push c [] = (c ∷ []) ∷ []
push c (l ∷ ls) = (c ∷ l) ∷ ls

-- The lines that `std::getline` finds, one after the other; the last may lack its newline.
unfoldable pub lines : Text → List Text
lines [] = []
lines (c ∷ s) = let rest = lines s in if c == 10 then [] ∷ rest else push c rest

-- A text with no newline in it.
abbrev pub NoNewline : Text → Type 0
NoNewline [] = Unit {0}
NoNewline (c ∷ s) = (c ≢ 10) × NoNewline s

pub lines_cons : (l rest : Text) → NoNewline l → lines (l ++ (10 ∷ rest)) ≡ l ∷ lines rest
unfolding lines
lines_cons [] rest h = refl
lines_cons (c ∷ l) rest h = ground (arith, lines_cons l rest h.1)

pub text_eq_sym : (s t : Text) → text_eq s t ≡ text_eq t s
unfolding text_eq
text_eq_sym [] [] = refl
text_eq_sym [] (b ∷ t) = refl
text_eq_sym (a ∷ s) [] = refl
text_eq_sym (a ∷ s) (b ∷ t) = ground (arith, text_eq_sym s t)
