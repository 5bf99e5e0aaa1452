-- ===== src/Prelude/Tables.antt =====
-- Tables of a database as lists: the statements that read and change them, and sums over them.
use Prim.Native.Nat.{ℕ, suc, ◌+◌}
use mathlib.Core.Path.{◌≡◌, refl, ap}
use mathlib.Core.Bool.{Bool, true, false, ◌&&◌}
use mathlib.Core.List.{List, [], ◌∷◌, ◌++◌}
use mathlib.Core.Option.{Option, none, some}
use native.Mathlib.Omega.{arith}
use panopticon_agent.Prelude.Tests.{if◌then◌else◌}
use panopticon_agent.Prelude.Lists.{length}

abbrev pub bit : Bool → ℕ
bit true = 1
bit false = 0

module _ {ℓ} {A : Type ℓ} where
  -- `SELECT * FROM rows WHERE p`, in the order of the rows.
  abbrev pub select : (A → Bool) → List A → List A
  select p [] = []
  select p (x ∷ xs) = if p x then x ∷ select p xs else select p xs

  -- The first row that `SELECT * FROM rows WHERE p` gives.
  abbrev pub first : (A → Bool) → List A → Option A
  first p [] = none
  first p (x ∷ xs) = if p x then some x else first p xs

  abbrev pub some_row : (A → Bool) → List A → Bool
  some_row p [] = false
  some_row p (x ∷ xs) = if p x then true else some_row p xs

  -- `UPDATE rows SET f WHERE p`.
  abbrev pub update : (A → Bool) → (A → A) → List A → List A
  update p f [] = []
  update p f (x ∷ xs) = (if p x then f x else x) ∷ update p f xs

  -- `SELECT SUM(f) FROM rows`.
  abbrev pub total : (A → ℕ) → List A → ℕ
  total f [] = 0
  total f (x ∷ xs) = f x + total f xs

  -- `DELETE FROM rows WHERE p`.
  abbrev pub delete : (A → Bool) → List A → List A
  delete p [] = []
  delete p (x ∷ xs) = if p x then delete p xs else x ∷ delete p xs

  -- `SELECT COUNT(*) FROM rows WHERE p`.
  abbrev pub count : (A → Bool) → List A → ℕ
  count p [] = 0
  count p (x ∷ xs) = (if p x then 1 else 0) + count p xs

  pub total-append : (f : A → ℕ) (xs ys : List A) → total f (xs ++ ys) ≡ total f xs + total f ys
  total-append f [] ys = omega arith
  total-append f (x ∷ xs) ys = omega (arith, total-append f xs ys)

  pub count-append : (p : A → Bool) (xs ys : List A) → count p (xs ++ ys) ≡ count p xs + count p ys
  count-append p [] ys = omega arith
  count-append p (x ∷ xs) ys = omega (arith, count-append p xs ys)

  pub total-delete :
      (p : A → Bool) (f : A → ℕ) (xs : List A)
      → total f (select p xs) + total f (delete p xs) ≡ total f xs
  total-delete p f [] = omega arith
  total-delete p f (x ∷ xs) = ground (arith, total-delete p f xs)

  pub count-delete :
      (p q : A → Bool) (xs : List A) → count q (select p xs) + count q (delete p xs) ≡ count q xs
  count-delete p q [] = omega arith
  count-delete p q (x ∷ xs) = ground (arith, count-delete p q xs)

  pub select-append :
      (p : A → Bool) (xs ys : List A) → select p (xs ++ ys) ≡ select p xs ++ select p ys
  select-append p [] ys = refl
  select-append p (x ∷ xs) ys = ground (arith, select-append p xs ys)

module _ {ℓ} {A : Type ℓ} where
  pub length-update : (p : A → Bool) (f : A → A) (xs : List A) → length (update p f xs) ≡ length xs
  length-update p f [] = refl
  length-update p f (x ∷ xs) = ap (λ n. suc n) (length-update p f xs)

  pub some_row-snoc :
      (p : A → Bool) (xs : List A) (x : A)
      → some_row p xs ≡ false
      → p x ≡ false
      → some_row p (xs ++ x ∷ []) ≡ false
  some_row-snoc p [] x h k = rw k refl
  some_row-snoc p (y ∷ xs) x h k = ground (arith, some_row-snoc p xs x)

  pub first-snoc_other :
      (p : A → Bool) (xs : List A) (x : A) → p x ≡ false → first p (xs ++ x ∷ []) ≡ first p xs
  first-snoc_other p [] x h = rw h refl
  first-snoc_other p (y ∷ xs) x h = ground (arith, first-snoc_other p xs x h)

  pub update-both :
      (p q : A → Bool) (f : A → A) (xs : List A)
      → update (λ x. p x && q x) f xs ≡ update p (λ x. if q x then f x else x) xs
  update-both p q f [] = refl
  update-both p q f (x ∷ xs) = ground (arith, update-both p q f xs)
