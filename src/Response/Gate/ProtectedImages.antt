-- ===== src/Response/Gate/ProtectedImages.antt =====
-- `is_protected_process` sees through the directory and the case of an image name.
use panopticon_agent.Prelude.{ℕ, ◌≡◌, refl, ap, ◌∙◌, true, false, [], ◌∷◌, ◌++◌, map, arith, Text}
use panopticon_agent.Response.Gate.{
  lower, is_separator, any_separator, base_name, is_protected_process,
}

is_separator-lower : (c : ℕ) → is_separator (lower c) ≡ is_separator c
is_separator-lower c = ground arith

lower-lower : (c : ℕ) → lower (lower c) ≡ lower c
lower-lower c = ground arith

any_separator-lower : (s : Text) → any_separator (map lower s) ≡ any_separator s
unfolding any_separator
any_separator-lower [] = refl
any_separator-lower (c ∷ s) = rw (is_separator-lower c, any_separator-lower s) refl

map-lower : (s : Text) → map lower (map lower s) ≡ map lower s
map-lower [] = refl
map-lower (c ∷ s) = rw (lower-lower c, map-lower s) refl

map_append : (s t : Text) → map lower (s ++ t) ≡ map lower s ++ map lower t
map_append [] t = refl
map_append (c ∷ s) t = ap (λ u. lower c ∷ u) (map_append s t)

any_separator_append :
    (dir : Text) (sep : ℕ) (name : Text)
    → is_separator sep ≡ true
    → any_separator (dir ++ (sep ∷ name)) ≡ true
unfolding any_separator
any_separator_append [] sep name h = ground arith
any_separator_append (c ∷ dir) sep name h = ground (arith, any_separator_append dir sep name h)

base_name_path :
    (dir : Text) (sep : ℕ) (name : Text)
    → is_separator sep ≡ true
    → any_separator name ≡ false
    → base_name (dir ++ (sep ∷ name)) ≡ name
unfolding base_name
base_name_path [] sep name h n = rw (n, h) refl
base_name_path (c ∷ dir) sep name h n =
    rw (any_separator_append dir sep name h) (base_name_path dir sep name h n)

base_name_plain : (name : Text) → any_separator name ≡ false → base_name name ≡ name
unfolding base_name any_separator
base_name_plain [] n = refl
base_name_plain (c ∷ name) n = ground arith

-- For an image name without separators, a directory and a separator before it do not change whether
-- the process is protected, and nor does the lower case of the whole path.
pub is_protected_process_path :
    (pid : ℕ) (dir : Text) (sep : ℕ) (name : Text)
    → is_separator sep ≡ true
    → any_separator name ≡ false
    → (is_protected_process pid (dir ++ (sep ∷ name)) ≡ is_protected_process pid name)
      × (is_protected_process pid (map lower (dir ++ (sep ∷ name)))
          ≡ is_protected_process pid (dir ++ (sep ∷ name)))
unfolding is_protected_process
is_protected_process_path pid dir sep name h n = (
  rw
      (
        map_append dir (sep ∷ name),
        base_name_path (map lower dir) (lower sep) (map lower name) (is_separator-lower sep ∙ h)
            (any_separator-lower name ∙ n),
        base_name_plain (map lower name) (any_separator-lower name ∙ n),
      )
      refl,
  rw (map-lower (dir ++ (sep ∷ name))) refl,
)
