-- ===== src/Base/Lists.antt =====
-- Lists measured by native numbers, and searched and filtered by Boolean tests.
use Prim.Native.Nat.{ℕ, suc, ◌+◌, ◌≤◌}
use mathlib.Core.Path.{◌≡◌, refl}
use mathlib.Core.Bool.{Bool, false, ◌||◌}
use mathlib.Core.List.{List, [], ◌∷◌, ◌++◌}
use mathlib.Core.List.{Perm, perm_middle, append_assoc}
use mathlib.Core.List.Perm
use mathlib.Core.Logic.{inl, inr}
use native.Mathlib.Omega.{arith}
use madaodv_ns.Base.Tests.{if◌then◌else◌, Bool-cases}

module _ {ℓ} {A : Type ℓ} where
  abbrev pub length : List A → ℕ
  length [] = 0
  length (x ∷ xs) = suc (length xs)

  pub length-append : (xs ys : List A) → length (xs ++ ys) ≡ length xs + length ys
  length-append [] ys = omega arith
  length-append (x ∷ xs) ys = omega (arith, length-append xs ys)

  -- `std::any_of`, as the loops with an early `return true` compute it.
  unfoldable pub any : (A → Bool) → List A → Bool
  any p [] = false
  any p (x ∷ xs) = p x || any p xs

  -- What is left after `erase(remove_if(begin, end, p), end)`.
  unfoldable pub reject : (A → Bool) → List A → List A
  reject p [] = []
  reject p (x ∷ xs) = if p x then reject p xs else x ∷ reject p xs

  -- The items that a loop with the test `p` visits.
  unfoldable pub select : (A → Bool) → List A → List A
  select p [] = []
  select p (x ∷ xs) = if p x then x ∷ select p xs else select p xs

  -- Every item passes the test.
  abbrev pub All {κ} : (A → Type κ) → List A → Type κ
  All P [] = Unit
  All P (x ∷ xs) = P x × All P xs

module _ {ℓ} {A : Type ℓ} where
  pub length-reject : (p : A → Bool) (xs : List A) → length (reject p xs) ≤ length xs
  unfolding reject
  length-reject p [] = omega arith
  length-reject p (x ∷ xs) = ground (arith, length-reject p xs)

  pub length-reject-select :
      (p : A → Bool) (xs : List A) → length (reject p xs) + length (select p xs) ≡ length xs
  unfolding reject select
  length-reject-select p [] = omega arith
  length-reject-select p (x ∷ xs) = ground (arith, length-reject-select p xs)

  pub reject-append :
      (p : A → Bool) (xs ys : List A) → reject p (xs ++ ys) ≡ reject p xs ++ reject p ys
  unfolding reject
  reject-append p [] ys = refl
  reject-append p (x ∷ xs) ys = ground (arith, reject-append p xs ys)

  pub reject-reject : (p : A → Bool) (xs : List A) → reject p (reject p xs) ≡ reject p xs
  unfolding reject
  reject-reject p [] = refl
  reject-reject p (x ∷ xs) = ground (arith, reject-reject p xs)

  pub any-append : (p : A → Bool) (xs ys : List A) → any p (xs ++ ys) ≡ any p xs || any p ys
  unfolding any
  any-append p [] ys = refl
  any-append p (x ∷ xs) ys = ground (arith, any-append p xs ys)

  pub any-reject : (p : A → Bool) (xs : List A) → any p (reject p xs) ≡ false
  unfolding any reject
  any-reject p [] = refl
  any-reject p (x ∷ xs) = ground (arith, any-reject p xs)

  pub reject_none : (p : A → Bool) (xs : List A) → any p xs ≡ false → reject p xs ≡ xs
  unfolding any reject
  reject_none p [] h = refl
  reject_none p (x ∷ xs) h = ground (arith, reject_none p xs)

  pub select_none : (p : A → Bool) (xs : List A) → any p xs ≡ false → select p xs ≡ []
  unfolding any select
  select_none p [] h = refl
  select_none p (x ∷ xs) h = ground (arith, select_none p xs)

pub select-reject-perm {ℓ} :
    {A : Type ℓ} (p : A → Bool) (xs : List A) → Perm xs (select p xs ++ reject p xs)
unfolding select reject
select-reject-perm p [] = Perm.nil
select-reject-perm p (x ∷ xs) =
    let rest = Perm.cons x (select-reject-perm p xs) in
    elim (Bool-cases (p x)) [
      | inl out ↦ rw out rest
      | inr kept ↦ rw kept (Perm.trans rest (Perm.symm (perm_middle (select p xs) (reject p xs))))
    ]

pub perm_placed {ℓ} :
    {A : Type ℓ} (xs out kept oldest es new : List A)
    → Perm xs (out ++ kept)
    → oldest ++ es ≡ kept ++ new
    → Perm (xs ++ new) ((out ++ oldest) ++ es)
perm_placed xs out kept oldest es new p h =
    rw (append_assoc out oldest es, h, ← append_assoc out kept new) (Perm.append_right new p)
