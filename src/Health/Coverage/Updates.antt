-- ===== src/Health/Coverage/Updates.antt =====
-- What an update of the registry changes, and what it leaves alone.
use panopticon_agent.Prelude.{
  ◌≡◌, refl, sym, ap, ◌∙◌, true, false, ◌||◌, Option, none, some, List, [], ◌∷◌, ltb, ◌==◌,
  if◌then◌else◌, if-both, length, Text, text_eq, text_eq→eq, text_eq→ne, Bool-cases, inl, inr,
  arith,
}
use panopticon_agent.Health.Coverage.{
  Capability, Update, fresh_capability, updated_capability, put_capability, set_capability,
}

-- The first capability with an id.
unfoldable pub lookup : Text → List Capability → Option Capability
lookup id [] = none
lookup id (c ∷ cs) = let rest = lookup id cs in if text_eq c.id id then some c else rest

-- What the capability of an update becomes.
abbrev pub replaced : Update → Option Capability → Capability
replaced u none = fresh_capability u
replaced u (some c) = updated_capability u c

lookup-put_capability :
    (u : Update) (id : Text) (cs : List Capability)
    → lookup id (put_capability u cs)
      ≡ (if text_eq u.id id then some (replaced u (lookup id cs)) else lookup id cs)
unfolding lookup put_capability
lookup-put_capability u id [] = refl
lookup-put_capability u id (c ∷ cs) = elim (Bool-cases (text_eq c.id u.id)) [
  | inl e ↦
      let same : text_eq c.id id ≡ text_eq u.id id =
        ap (λ t. text_eq t id) (text_eq→eq c.id u.id e) in
      ground (arith, e, same)
  | inr e ↦ elim (Bool-cases (text_eq c.id id)) [
    | inl f ↦ let other : text_eq u.id id ≡ false = apart e f in ground (arith, e, f, other)
    | inr f ↦ ground (arith, e, f, lookup-put_capability u id cs)
  ]
]
  where
    apart : text_eq c.id u.id ≡ false → text_eq c.id id ≡ true → text_eq u.id id ≡ false
    apart e f = elim (Bool-cases (text_eq u.id id)) [
      | inl g ↦ absurd (text_eq→ne c.id u.id e (text_eq→eq c.id id f ∙ sym (text_eq→eq u.id id g)))
      | inr g ↦ g
    ]

-- After an update that is not refused, looking up an id finds what was there before, unless the id
-- is that of the update: then its state, reason, scope and time are those of the update, and a
-- failure adds one to the earlier count (modulo 2 ^ 64), or counts as the first.
pub lookup-set_capability :
    (u : Update) (id : Text) (cs cs' : List Capability)
    → set_capability u cs ≡ some cs'
    → lookup id cs' ≡ (if text_eq u.id id then some (replaced u (lookup id cs)) else lookup id cs)
unfolding set_capability
lookup-set_capability u id cs cs' =
    if-both
      (λ o.
        o ≡ some cs'
        → lookup id cs'
          ≡ (if text_eq u.id id then some (replaced u (lookup id cs)) else lookup id cs))
      (length u.id == 0
        || ltb 128 (length u.id)
        || ltb 2048 (length u.reason)
        || ltb 2048 (length u.scope))
      _ _ (λ _ e. absurd (ground (arith, e)))
      λ _ e. ap (lookup id) (sym (some_injective e)) ∙ lookup-put_capability u id cs
  where
    some_injective : {x y : List Capability} → some x ≡ some y → x ≡ y
    some_injective e = ground (arith, e)
