-- ===== src/Delivery/Journal/Keys.antt =====
-- The keys of the journal's observations are distinct: what each statement does to them.
use panopticon_agent.Prelude.{
  ℕ, ◌≤◌, ◌≡◌, refl, subst, ◌∙◌, Bool, true, false, List, [], ◌∷◌, ◌++◌, if◌then◌else◌, if-both,
  Bool-cases, inl, inr, arith, Text, text_eq, text_eq→eq, text_eq_sym, some_row, some_row-snoc,
  select, delete, update, total,
}
use panopticon_agent.Delivery.Journal.Db.{Observation, has_key, is_pending_key, bury}

abbrev pub UniqueKeys : List Observation → Type 0
UniqueKeys [] = Unit {0}
UniqueKeys (r ∷ rs) = (some_row (has_key r.key) rs ≡ false) × UniqueKeys rs

other_key :
    (a b : Text) (rs : List Observation)
    → (if text_eq a b then true else some_row (has_key b) rs) ≡ false
    → (text_eq b a ≡ false) × (some_row (has_key b) rs ≡ false)
other_key a b rs h = elim (Bool-cases (text_eq a b)) [
  | inl t ↦ absurd (ground arith)
  | inr t ↦ (text_eq_sym b a ∙ t, ground arith)
]

pub UniqueKeys-snoc :
    (rs : List Observation) (r : Observation)
    → UniqueKeys rs
    → some_row (has_key r.key) rs ≡ false
    → UniqueKeys (rs ++ r ∷ [])
UniqueKeys-snoc [] r u h = (refl, tt)
UniqueKeys-snoc (x ∷ xs) r u h = (
  some_row-snoc (has_key x.key) xs r u.0 (other_key x.key r.key xs h).0,
  UniqueKeys-snoc xs r u.1 (other_key x.key r.key xs h).1,
)

some_row-delete :
    (p q : Observation → Bool) (rs : List Observation)
    → some_row p rs ≡ false
    → some_row p (delete q rs) ≡ false
some_row-delete p q [] h = refl
some_row-delete p q (r ∷ rs) h = ground (arith, some_row-delete p q rs)

pub UniqueKeys-delete :
    (p : Observation → Bool) (rs : List Observation) → UniqueKeys rs → UniqueKeys (delete p rs)
UniqueKeys-delete p [] u = tt
UniqueKeys-delete p (r ∷ rs) u =
    if-both UniqueKeys (p r) _ _ (λ _. UniqueKeys-delete p rs u.1)
      λ _. (some_row-delete (has_key r.key) p rs u.0, UniqueKeys-delete p rs u.1)

some_row-bury :
    (key : Text) (p : Observation → Bool) (reason : Text) (size : ℕ) (rs : List Observation)
    → some_row (has_key key) (update p (bury reason size) rs) ≡ some_row (has_key key) rs
some_row-bury key p reason size [] = refl
some_row-bury key p reason size (r ∷ rs) = ground (arith, some_row-bury key p reason size rs)

bury_key :
    (b : Bool) (reason : Text) (size : ℕ) (r : Observation)
    → (if b then bury reason size r else r).key ≡ r.key
bury_key true reason size r = refl
bury_key false reason size r = refl

pub UniqueKeys-bury :
    (p : Observation → Bool) (reason : Text) (size : ℕ) (rs : List Observation)
    → UniqueKeys rs
    → UniqueKeys (update p (bury reason size) rs)
UniqueKeys-bury p reason size [] u = tt
UniqueKeys-bury p reason size (r ∷ rs) u = (
  rw (bury_key (p r) reason size r, some_row-bury r.key p reason size rs) u.0,
  UniqueKeys-bury p reason size rs u.1,
)

pub total-none :
    (key : Text) (f : Observation → ℕ) (rs : List Observation)
    → some_row (has_key key) rs ≡ false
    → total f (select (is_pending_key key) rs) ≡ 0
total-none key f [] h = refl
total-none key f (r ∷ rs) h = ground (arith, total-none key f rs)

-- At most one row is changed.
pub total-one :
    (key : Text) (size : ℕ) (rs : List Observation)
    → UniqueKeys rs
    → total (λ _. size) (select (is_pending_key key) rs) ≤ size
total-one key size [] u = omega arith
total-one key size (r ∷ rs) u =
    if-both (λ (l : List Observation). total (λ _. size) l ≤ size) (is_pending_key key r) _ _
      (λ h. omega (
        arith,
        total-none key (λ _. size) rs
            (subst (λ k. some_row (has_key k) rs ≡ false) (text_eq→eq r.key key (ground arith))
              u.0),
      ))
      λ _. total-one key size rs u.1
