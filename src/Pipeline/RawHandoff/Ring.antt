-- ===== src/Pipeline/RawHandoff/Ring.antt =====
-- The ring as a list of what waits in it.
use panopticon_agent.Prelude.{
  ℕ, zero, suc, ◌+◌, ◌-◌, ◌%◌, ◌≤◌, ◌<◌, ◌≡◌, ◌≢◌, ◌⊎◌, refl, ap, ◌∙◌, Option, some, List, [], ◌∷◌,
  ◌++◌, ◌==◌, if◌then◌else◌, length, get_elem?, arith,
}
use panopticon_agent.Pipeline.RawHandoff.{set_at, repeat_none}

pub get-set_same {ℓ} :
    {A : Type ℓ} (xs : List A) (i : ℕ) (y : A)
    → i < length xs
    → get_elem? (set_at xs i y) i ≡ some y
unfolding set_at
get-set_same [] i y h = absurd (omega (arith, h))
get-set_same (x ∷ xs) zero y h = refl
get-set_same (x ∷ xs) (suc i) y h = get-set_same xs i y (omega (arith, h))

get-set_other {ℓ} :
    {A : Type ℓ} (xs : List A) (i j : ℕ) (y : A)
    → i ≢ j
    → get_elem? (set_at xs i y) j ≡ get_elem? xs j
unfolding set_at
get-set_other [] i j y h = refl
get-set_other (x ∷ xs) zero zero y h = absurd (h refl)
get-set_other (x ∷ xs) zero (suc j) y h = refl
get-set_other (x ∷ xs) (suc i) zero y h = refl
get-set_other (x ∷ xs) (suc i) (suc j) y h = get-set_other xs i j y (λ e. h (ap suc e))

pub length-set_at {ℓ} :
    {A : Type ℓ} (xs : List A) (i : ℕ) (y : A) → length (set_at xs i y) ≡ length xs
unfolding set_at
length-set_at [] i y = refl
length-set_at (x ∷ xs) zero y = refl
length-set_at (x ∷ xs) (suc i) y = ap suc (length-set_at xs i y)

pub length-repeat_none {ℓ} : (A : Type ℓ) (n : ℕ) → length (repeat_none {A = A} n) ≡ n
length-repeat_none A zero = refl
length-repeat_none A (suc n) = ap suc (length-repeat_none A n)

-- The position after `h` on a ring of `n`.
pub next_mod : (h n : ℕ) → h < n → (h + 1) % n ≡ (if h + 1 == n then 0 else h + 1)
next_mod h n l = grind arith

-- `p` is the position `k` steps after `h`.
pub record Ahead (n h k p : ℕ) : Type 0 where
  pub head-lt : h < n
  pub position-lt : p < n
  pub steps : (p ≡ h + k) ⊎ (p + n ≡ h + k)

pub Ahead-behind : (n h : ℕ) → h < n → Ahead n ((h + 1) % n) (n - 1) h
Ahead-behind n h l =
    let e = next_mod h n l in
    record { head-lt = ground (arith, e, l); position-lt = l; steps = ground (arith, e, l) }

-- One step nearer; the ring may be full.
pub Ahead-taken : (n h k p : ℕ) → Ahead n h (suc k) p → suc k ≤ n → Ahead n ((h + 1) % n) k p
Ahead-taken n h k p a l =
    let e = next_mod h n a.head-lt in
    record {
      head-lt = ground (arith, e, a.head-lt);
      position-lt = a.position-lt;
      steps = ground (arith, e, l, a.steps, a.head-lt, a.position-lt);
    }

module _ {Item : Type 0} where
  -- From `h` on, the ring holds `xs`.
  abbrev pub Contents : ℕ → List (Option Item) → ℕ → List Item → Type 0
  Contents n queue h [] = Unit {0}
  Contents n queue h (x ∷ xs) =
      (get_elem? queue h ≡ some (some x)) × Contents n queue ((h + 1) % n) xs

  pub Contents-set :
      (n : ℕ) (queue : List (Option Item)) (h : ℕ) (xs : List Item) (k p : ℕ) (y : Option Item)
      → Ahead n h k p
      → k < n
      → length xs ≤ k
      → Contents n queue h xs
      → Contents n (set_at queue p y) h xs
  Contents-set n queue h [] k p y a b l c = tt
  Contents-set n queue h (x ∷ xs) zero p y a b l c = absurd (omega (arith, l))
  Contents-set n queue h (x ∷ xs) (suc k) p y a b l c = (
    get-set_other queue p h y (ground (arith, a.steps, a.head-lt, a.position-lt)) ∙ c.0,
    Contents-set n queue ((h + 1) % n) xs k p y (Ahead-taken n h k p a (omega (arith, b)))
        (omega (arith, b)) (omega (arith, l)) c.1,
  )

  pub Contents-snoc :
      (n : ℕ) (queue : List (Option Item)) (h : ℕ) (xs : List Item) (p : ℕ) (x : Item)
      → Ahead n h (length xs) p
      → length xs < n
      → get_elem? queue p ≡ some (some x)
      → Contents n queue h xs
      → Contents n queue h (xs ++ x ∷ [])
  Contents-snoc n queue h [] p x a b g c = (rw (position) g, tt)
    where
      position : h ≡ p
      position = ground (arith, a.steps, a.head-lt, a.position-lt)
  Contents-snoc n queue h (y ∷ xs) p x a b g c = (
    c.0,
    Contents-snoc n queue ((h + 1) % n) xs p x (Ahead-taken n h (length xs) p a (omega (arith, b)))
        (omega (arith, b)) g c.1,
  )
