-- ===== src/Delivery/Journal/Inbox.antt =====
-- How the rows of the command inbox may change, and what each call does to them.
use panopticon_agent.Prelude.{
  ℕ, ◌+◌, ◌≤◌, ◌≡◌, inl, inr, refl, sym, subst, ◌∙◌, Bool, true, false, Option, none, some, List,
  [], ◌∷◌, ◌++◌, if◌then◌else◌, Bool-cases, some_row, length, arith, Text, text_eq→eq, text_eq_sym,
  some_row-snoc, first, update, total,
}
use panopticon_agent.Delivery.Journal.Db.{
  CommandRow, CommandState, command_bytes, received, executing, result_ready, outboxed,
}
use panopticon_agent.Delivery.Journal.Command.{is_scoped, is_command}

-- The order of a command's states.
abbrev pub rank : CommandState → ℕ
rank received = 0
rank executing = 1
rank result_ready = 2
rank outboxed = 3

-- A command keeps its identity and its body, its state never goes back, and an outcome that is
-- there stays.
pub record Continues (r s : CommandRow) : Type 0 where
  pub same_key : s.key ≡ r.key
  pub same_scope : s.scope ≡ r.scope
  pub same_digest : s.digest ≡ r.digest
  pub same_payload : s.payload ≡ r.payload
  pub forward : rank r.state ≤ rank s.state
  pub outcome : 2 ≤ rank r.state → s.result ≡ r.result

pub Continues-refl : (r : CommandRow) → Continues r r
Continues-refl r = record {
  same_key = refl;
  same_scope = refl;
  same_digest = refl;
  same_payload = refl;
  forward = omega arith;
  outcome = λ _. refl;
}

pub Continues-trans : (r s t : CommandRow) → Continues r s → Continues s t → Continues r t
Continues-trans r s t a b = record {
  same_key = b.same_key ∙ a.same_key;
  same_scope = b.same_scope ∙ a.same_scope;
  same_digest = b.same_digest ∙ a.same_digest;
  same_payload = b.same_payload ∙ a.same_payload;
  forward = omega (arith, a.forward, b.forward);
  outcome = λ h. b.outcome (omega (arith, a.forward, h)) ∙ a.outcome h;
}

-- Every row continues, in its place, and there may be new ones after them.
pub data Grows : List CommandRow → List CommandRow → Type 0 where
  new : {rs : List CommandRow} → Grows [] rs
  keep :
      {r s : CommandRow} {rs ss : List CommandRow}
      → Continues r s
      → Grows rs ss
      → Grows (r ∷ rs) (s ∷ ss)

pub Grows-refl : (rs : List CommandRow) → Grows rs rs
Grows-refl [] = new
Grows-refl (r ∷ rs) = keep (Continues-refl r) (Grows-refl rs)

pub Grows-trans : {rs ss ts : List CommandRow} → Grows rs ss → Grows ss ts → Grows rs ts
Grows-trans new g = new
Grows-trans (keep a g) (keep b h) = keep (Continues-trans _ _ _ a b) (Grows-trans g h)

pub Grows-append : (rs ss : List CommandRow) → Grows rs (rs ++ ss)
Grows-append [] ss = new
Grows-append (r ∷ rs) ss = keep (Continues-refl r) (Grows-append rs ss)

pub first_head :
    (p : CommandRow → Bool) (a r : CommandRow) (xs : List CommandRow)
    → p a ≡ true
    → first p (a ∷ xs) ≡ some r
    → a ≡ r
first_head p a r xs t e = ground arith

pub first_tail :
    (p : CommandRow → Bool) (a r : CommandRow) (xs : List CommandRow)
    → p a ≡ false
    → first p (a ∷ xs) ≡ some r
    → first p xs ≡ some r
first_tail p a r xs t e = ground arith

-- The first row for a test that no change of a row affects.
pub first-Grows :
    (p : CommandRow → Bool) {rs ss : List CommandRow} (r : CommandRow)
    → ((a b : CommandRow) → Continues a b → p b ≡ p a)
    → Grows rs ss
    → first p rs ≡ some r
    → (s : CommandRow) × (first p ss ≡ some s) × Continues r s
first-Grows p r same new e = absurd (ground arith)
first-Grows p r same (keep {r = a} {s = b} {rs = xs} c g) e = elim (Bool-cases (p a)) [
  | inl t ↦ (b, rw (same a b c, t) refl, subst (λ x. Continues x b) (first_head p a r xs t e) c)
  | inr t ↦
      (let (s, f, d) = first-Grows p r same g (first_tail p a r xs t e) in
        (s, rw (same a b c, t) f, d))
]

pub is_scoped-Continues :
    (scope key : Text) (a b : CommandRow)
    → Continues a b
    → is_scoped scope key b ≡ is_scoped scope key a
is_scoped-Continues scope key a b c = rw (c.same_key, c.same_scope) refl

pub is_command-Continues :
    (key : Text) (a b : CommandRow) → Continues a b → is_command key b ≡ is_command key a
is_command-Continues key a b c = rw c.same_key refl

-- The keys are distinct.
abbrev pub Unique : List CommandRow → Type 0
Unique [] = Unit {0}
Unique (r ∷ rs) = (some_row (is_command r.key) rs ≡ false) × Unique rs

no_scoped :
    (scope key : Text) (f : CommandRow → CommandRow) (rs : List CommandRow)
    → some_row (is_command key) rs ≡ false
    → update (is_scoped scope key) f rs ≡ rs
no_scoped scope key f [] h = refl
no_scoped scope key f (r ∷ rs) h = ground (arith, no_scoped scope key f rs)

scoped_key : (scope key : Text) (r : CommandRow) → is_scoped scope key r ≡ true → r.key ≡ key
scoped_key scope key r t = text_eq→eq r.key key (ground arith)

-- A change of the one row of a command.
pub update-Grows :
    (scope key : Text) (f : CommandRow → CommandRow) (row : CommandRow) (rs : List CommandRow)
    → Unique rs
    → first (is_scoped scope key) rs ≡ some row
    → Continues row (f row)
    → Grows rs (update (is_scoped scope key) f rs)
update-Grows scope key f row [] u e c = new
update-Grows scope key f row (r ∷ rs) u e c = elim (Bool-cases (is_scoped scope key r)) [
  | inl t ↦ rw t (
      keep (subst (λ x. Continues x (f x)) (sym (first_head (is_scoped scope key) r row rs t e)) c)
        (subst (Grows rs)
          (sym (
            no_scoped scope key f rs
              (subst (λ k. some_row (is_command k) rs ≡ false) (scoped_key scope key r t) u.0)))
          (Grows-refl rs)))
  | inr t ↦ rw t (
      keep (Continues-refl r)
        (update-Grows scope key f row rs u.1 (first_tail (is_scoped scope key) r row rs t e) c))
]

some_row-Grows :
    (key : Text) (rs ss : List CommandRow)
    → length ss ≡ length rs
    → Grows rs ss
    → some_row (is_command key) ss ≡ some_row (is_command key) rs
some_row-Grows key [] [] l g = refl
some_row-Grows key [] (s ∷ ss) l g = absurd (omega arith)
some_row-Grows key (r ∷ rs) [] l g = absurd (omega arith)
some_row-Grows key (r ∷ rs) (s ∷ ss) l (keep c g) =
    rw (c.same_key, some_row-Grows key rs ss (omega (arith, l)) g) refl

-- Changes of rows that add none keep the keys distinct.
pub Unique-Grows :
    (rs ss : List CommandRow) → length ss ≡ length rs → Grows rs ss → Unique rs → Unique ss
Unique-Grows [] [] l g u = tt
Unique-Grows [] (s ∷ ss) l g u = absurd (omega arith)
Unique-Grows (r ∷ rs) [] l g u = absurd (omega arith)
Unique-Grows (r ∷ rs) (s ∷ ss) l (keep c g) u = (
  rw (c.same_key, some_row-Grows r.key rs ss (omega (arith, l)) g) u.0,
  Unique-Grows rs ss (omega (arith, l)) g u.1,
)

pub Unique-snoc :
    (rs : List CommandRow) (r : CommandRow)
    → Unique rs
    → first (is_command r.key) rs ≡ none
    → Unique (rs ++ r ∷ [])
Unique-snoc [] r u e = (refl, tt)
Unique-snoc (x ∷ xs) r u e = (
  some_row-snoc (is_command x.key) xs r u.0
      (text_eq_sym r.key x.key ∙ other (is_command r.key x) (first (is_command r.key) xs) x e),
  Unique-snoc xs r u.1 (rest (is_command r.key x) (first (is_command r.key) xs) x e),
)
  where
    other :
        (b : Bool) (o : Option CommandRow) (x : CommandRow)
        → (if b then some x else o) ≡ none
        → b ≡ false
    other true o x e = absurd (ground arith)
    other false o x e = refl

    rest :
        (b : Bool) (o : Option CommandRow) (x : CommandRow)
        → (if b then some x else o) ≡ none
        → o ≡ none
    rest true o x e = absurd (ground arith)
    rest false o x e = e

-- The bytes after a change of one row.
pub total-update :
    (scope key : Text) (f : CommandRow → CommandRow) (row : CommandRow) (size : ℕ)
    (rs : List CommandRow)
    → Unique rs
    → first (is_scoped scope key) rs ≡ some row
    → (f row).bytes ≡ row.bytes + size
    → total command_bytes (update (is_scoped scope key) f rs) ≤ total command_bytes rs + size
total-update scope key f row size [] u e b = absurd (ground arith)
total-update scope key f row size (r ∷ rs) u e b = elim (Bool-cases (is_scoped scope key r)) [
  | inl t ↦ rw t (
      subst
        (λ rest. (f r).bytes + total command_bytes rest ≤ r.bytes + total command_bytes rs + size)
        (sym (
          no_scoped scope key f rs
            (subst (λ k. some_row (is_command k) rs ≡ false) (scoped_key scope key r t) u.0)))
        (omega (
          arith,
          subst (λ x. (f x).bytes ≡ x.bytes + size)
              (sym (first_head (is_scoped scope key) r row rs t e)) b,
        )))
  | inr t ↦ rw t (
      omega (
        arith,
        total-update scope key f row size rs u.1 (first_tail (is_scoped scope key) r row rs t e) b,
      ))
]
