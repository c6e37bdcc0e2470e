-- ===== src/Base/Lists.antt =====
-- Lists measured by native numbers, Boolean tests over their items, and the stable sort of `sorted`
-- and of `ORDER BY`.
use Prim.Native.Nat.{ℕ, zero, suc, ◌+◌}
use mathlib.Core.Path.{◌≡◌, refl}
use mathlib.Core.Bool.{Bool, true, false, ◌&&◌, ◌||◌}
use mathlib.Core.List.{List, [], ◌∷◌, ◌++◌}
use mathlib.Core.Option.{Option, none, some}
use native.Mathlib.Omega.{arith}
use mathlib.Core.Logic.{inl, inr}
use nyra.Base.Tests.{if◌then◌else◌, Bool-cases}

module _ {ℓ} {A : Type ℓ} where
  abbrev pub length : List A → ℕ
  length [] = 0
  length (x ∷ xs) = suc (length xs)

  abbrev pub get_elem? : List A → ℕ → Option A
  get_elem? [] i = none
  get_elem? (x ∷ xs) zero = some x
  get_elem? (x ∷ xs) (suc i) = get_elem? xs i

  abbrev pub any : (A → Bool) → List A → Bool
  any p [] = false
  any p (x ∷ xs) = p x || any p xs

  abbrev pub all : (A → Bool) → List A → Bool
  all p [] = true
  all p (x ∷ xs) = p x && all p xs

  -- `[x for x in xs if p(x)]`
  abbrev pub filter : (A → Bool) → List A → List A
  filter p [] = []
  filter p (x ∷ xs) = let rest = filter p xs in if p x then x ∷ rest else rest

  abbrev pub count : (A → Bool) → List A → ℕ
  count p [] = 0
  count p (x ∷ xs) = let rest = count p xs in if p x then suc rest else rest

  pub length-append : (xs ys : List A) → length (xs ++ ys) ≡ length xs + length ys
  length-append [] ys = omega arith
  length-append (x ∷ xs) ys = omega (arith, length-append xs ys)

  pub any-append : (p : A → Bool) (xs ys : List A) → any p (xs ++ ys) ≡ (any p xs || any p ys)
  any-append p [] ys = refl
  any-append p (x ∷ xs) ys = ground (arith, any-append p xs ys)

  pub count-append : (p : A → Bool) (xs ys : List A) → count p (xs ++ ys) ≡ count p xs + count p ys
  count-append p [] ys = omega arith
  count-append p (x ∷ xs) ys = ground (arith, count-append p xs ys)

  pub any-filter : (p q : A → Bool) (xs : List A) → any p (filter q xs) ≡ any (λ x. p x && q x) xs
  any-filter p q [] = refl
  any-filter p q (x ∷ xs) = ground (arith, any-filter p q xs)

  -- A recursive predicate that the tactics open.
  abbrev pub All {κ} : (A → Type κ) → List A → Type κ
  All P [] = Unit
  All P (x ∷ xs) = P x × All P xs

module _ {ℓ} {A : Type ℓ} (before : A → A → Bool) where
  -- A stable insertion: `x` goes behind what stands before it or level with it.
  abbrev pub insert_ordered : A → List A → List A
  insert_ordered x [] = x ∷ []
  insert_ordered x (y ∷ ys) =
      let rest = insert_ordered x ys in if before x y then x ∷ y ∷ ys else y ∷ rest

  abbrev pub order_by : List A → List A
  order_by [] = []
  order_by (x ∷ xs) = insert_ordered x (order_by xs)

module _ {ℓ} {A : Type ℓ} where
  pub any-insert_ordered :
      (before : A → A → Bool) (p : A → Bool) (x : A) (ys : List A)
      → any p (insert_ordered before x ys) ≡ (p x || any p ys)
  any-insert_ordered before p x [] = refl
  any-insert_ordered before p x (y ∷ ys) = ground (arith, any-insert_ordered before p x ys)

  -- Sorting keeps what a list holds.
  pub any-order_by :
      (before : A → A → Bool) (p : A → Bool) (xs : List A) → any p (order_by before xs) ≡ any p xs
  any-order_by before p [] = refl
  any-order_by before p (x ∷ xs) =
      ground (arith, any-order_by before p xs, any-insert_ordered before p x (order_by before xs))

-- Sorting keeps what holds of every item.
pub All-insert_ordered {ℓ κ} :
    {A : Type ℓ} (before : A → A → Bool) (P : A → Type κ) (x : A) (xs : List A)
    → P x
    → All P xs
    → All P (insert_ordered before x xs)
All-insert_ordered before P x [] first h = (first, tt)
All-insert_ordered before P x (y ∷ ys) first (second, h) = elim (Bool-cases (before x y)) [
  | inl e ↦ rw e (first, (second, h))
  | inr e ↦ rw e (second, All-insert_ordered before P x ys first h)
]

pub All-order_by {ℓ κ} :
    {A : Type ℓ} (before : A → A → Bool) (P : A → Type κ) (xs : List A)
    → All P xs
    → All P (order_by before xs)
All-order_by before P [] h = tt
All-order_by before P (x ∷ xs) (first, h) =
    All-insert_ordered before P x (order_by before xs) first (All-order_by before P xs h)
