-- ===== src/Base/Membership.antt =====
-- That an item is one of a list, with the way back from the Boolean tests.
use mathlib.Core.Path.{◌≡◌, refl}
use mathlib.Core.Bool.{Bool, true}
use mathlib.Core.List.{List, [], ◌∷◌}
use mathlib.Core.Logic.{◌⊎◌, inl, inr}
use native.Mathlib.Omega.{arith}
use nyra.Base.Tests.{Bool-cases}
use nyra.Base.Lists.{any, all, All, insert_ordered, order_by}

module _ {A : Type 0} where
  abbrev pub Occurs : A → List A → Type 0
  Occurs x [] = ⊥
  Occurs x (y ∷ ys) = (y ≡ x) ⊎ Occurs x ys

  pub List-cases : (xs : List A) → (xs ≡ []) ⊎ ((y : A) × (ys : List A) × (xs ≡ y ∷ ys))
  List-cases [] = inl refl
  List-cases (y ∷ ys) = inr (y, ys, refl)

  -- A test that some item passes is passed by one of the list.
  pub any-Occurs :
      (p : A → Bool) (xs : List A) → any p xs ≡ true → (x : A) × Occurs x xs × (p x ≡ true)
  any-Occurs p [] h = absurd (ground arith)
  any-Occurs p (x ∷ xs) h = elim (Bool-cases (p x)) [
    | inl e ↦ (x, inl refl, e)
    | inr e ↦ let (y, occurs, f) = any-Occurs p xs (ground arith) in (y, inr occurs, f)
  ]

  -- Where all items pass a test that has a meaning, all have it.
  pub all-All :
      (p : A → Bool) (P : A → Type 0) (xs : List A)
      → ((x : A) → p x ≡ true → P x)
      → all p xs ≡ true
      → All P xs
  all-All p P [] means h = tt
  all-All p P (x ∷ xs) means h = (means x (ground arith), all-All p P xs means (ground arith))

  Occurs-insert_ordered :
      (before : A → A → Bool) (z x : A) (ys : List A)
      → Occurs z (insert_ordered before x ys)
      → Occurs z (x ∷ ys)
  Occurs-insert_ordered before z x [] h = h
  Occurs-insert_ordered before z x (y ∷ ys) h = elim (Bool-cases (before x y)) [
    | inl e ↦ rw e at h
    | inr e ↦
        let later : (y ≡ z) ⊎ Occurs z (insert_ordered before x ys) = rw e at h in
        elim later [
          | inl f ↦ inr (inl f)
          | inr g ↦ elim (Occurs-insert_ordered before z x ys g) [
            | inl f ↦ inl f
            | inr f ↦ inr (inr f)
          ]
        ]
  ]

  -- What is in a sorted list is in the list.
  pub Occurs-order_by :
      (before : A → A → Bool) (z : A) (xs : List A) → Occurs z (order_by before xs) → Occurs z xs
  Occurs-order_by before z [] h = h
  Occurs-order_by before z (x ∷ xs) h =
      elim (Occurs-insert_ordered before z x (order_by before xs) h) [
        | inl f ↦ inl f
        | inr f ↦ inr (Occurs-order_by before z xs f)
      ]
