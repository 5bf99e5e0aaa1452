-- ===== src/Prelude/TextMode.antt =====
-- Streams that are opened without `std::ios::binary`, as the C runtime of Windows reads and writes
-- them.
use mathlib.Core.Path.{◌≡◌, refl}
use mathlib.Core.Logic.{◌≢◌}
use mathlib.Core.Bool.{Bool, false, ◌&&◌}
use mathlib.Core.List.{[], ◌∷◌, ◌++◌}
use native.Mathlib.Omega.{arith}
use panopticon_agent.Prelude.Tests.{◌==◌, if◌then◌else◌}
use panopticon_agent.Prelude.Chars.{Text}

-- A newline is written as a carriage return and a newline.
unfoldable pub text_out : Text → Text
text_out [] = []
text_out (c ∷ s) = let rest = text_out s in if c == 10 then 13 ∷ 10 ∷ rest else c ∷ rest

abbrev starts_line : Text → Bool
starts_line [] = false
starts_line (c ∷ _) = c == 10

-- A carriage return before a newline is dropped, and Ctrl-Z ends the file.
unfoldable pub text_in : Text → Text
text_in [] = []
text_in (c ∷ s) =
    let rest = text_in s in
    if c == 26 then [] else if c == 13 && starts_line s then rest else c ∷ rest

-- A text without a Ctrl-Z.
abbrev pub NoCtrlZ : Text → Type 0
NoCtrlZ [] = Unit {0}
NoCtrlZ (c ∷ s) = (c ≢ 26) × NoCtrlZ s

pub NoCtrlZ-append : (s t : Text) → NoCtrlZ s → NoCtrlZ t → NoCtrlZ (s ++ t)
NoCtrlZ-append [] t h k = k
NoCtrlZ-append (c ∷ s) t h k = (h.0, NoCtrlZ-append s t h.1 k)

starts_line-text_out : (s : Text) → starts_line (text_out s) ≡ false
unfolding text_out
starts_line-text_out [] = refl
starts_line-text_out (c ∷ s) = ground arith

pub text_in-text_out : (s : Text) → NoCtrlZ s → text_in (text_out s) ≡ s
unfolding text_in text_out
text_in-text_out [] h = refl
text_in-text_out (c ∷ s) h = ground (arith, h.0, text_in-text_out s h.1, starts_line-text_out s)

pub text_out-append : (s t : Text) → text_out (s ++ t) ≡ text_out s ++ text_out t
unfolding text_out
text_out-append [] t = refl
text_out-append (c ∷ s) t = ground (arith, text_out-append s t)
