-- ===== src/Prelude/Sorting.antt =====
-- `Array.prototype.sort`, which is stable: `before y x` says that `y` must stand before `x`.
use Prim.Native.Nat.{◌+◌}
use mathlib.Core.Path.{◌≡◌, refl}
use mathlib.Core.Logic.{inl, inr}
use mathlib.Core.Bool.{Bool, true, false}
use mathlib.Core.List.{List, [], ◌∷◌}
use native.Mathlib.Omega.{arith}
use affiliate_platform_api.Prelude.Tests.{if◌then◌else◌, Bool-cases}
use affiliate_platform_api.Prelude.Lists.{length, length-select-cons, one_if, select}

module _ {A : Type 0} (before : A → A → Bool) where
  abbrev pub insert : A → List A → List A
  insert x [] = x ∷ []
  insert x (y ∷ ys) = let rest = insert x ys in if before y x then y ∷ rest else x ∷ y ∷ ys

  abbrev pub sort : List A → List A
  sort [] = []
  sort (x ∷ xs) = insert x (sort xs)

  -- Neighbours stand in the order asked for.
  abbrev pub IsOrdered : List A → Type 0
  IsOrdered [] = Unit
  IsOrdered (x ∷ []) = Unit
  IsOrdered (x ∷ y ∷ ys) = (before y x ≡ false) × IsOrdered (y ∷ ys)

  length-select-insert :
      (p : A → Bool) (x : A) (xs : List A)
      → length (select p (insert x xs)) ≡ one_if (p x) + length (select p xs)
  length-select-insert p x [] = length-select-cons p x []
  length-select-insert p x (y ∷ ys) = elim (Bool-cases (before y x)) [
    | inl first ↦ rw first (
        omega (
          arith,
          length-select-cons p y (insert x ys),
          length-select-cons p y ys,
          length-select-insert p x ys,
        ))
    | inr other ↦ rw other (length-select-cons p x (y ∷ ys))
  ]

  -- Sorting keeps the number of the elements with any property.
  pub length-select-sort :
      (p : A → Bool) (xs : List A) → length (select p (sort xs)) ≡ length (select p xs)
  length-select-sort p [] = refl
  length-select-sort p (x ∷ xs) = omega (
    arith,
    length-select-insert p x (sort xs),
    length-select-sort p xs,
    length-select-cons p x xs,
  )

  module _ (asym : (x y : A) → before y x ≡ true → before x y ≡ false) where
    placed :
        (b : Bool) (x y z : A) (zs : List A)
        → before z y ≡ false
        → before x y ≡ false
        → IsOrdered (if b then z ∷ insert x zs else x ∷ z ∷ zs)
        → IsOrdered (y ∷ (if b then z ∷ insert x zs else x ∷ z ∷ zs))
    placed true x y z zs h k q = (h, q)
    placed false x y z zs h k q = (k, q)

    insert-IsOrdered : (x : A) (ys : List A) → IsOrdered ys → IsOrdered (insert x ys)
    insert-IsOrdered x [] h = tt
    insert-IsOrdered x (y ∷ []) h = elim (Bool-cases (before y x)) [
      | inl first ↦ rw first (asym x y first, tt)
      | inr other ↦ rw other (other, tt)
    ]
    insert-IsOrdered x (y ∷ z ∷ zs) (h, hs) = elim (Bool-cases (before y x)) [
      | inl first ↦
          rw first
            (placed (before z x) x y z zs h (asym x y first) (insert-IsOrdered x (z ∷ zs) hs))
      | inr other ↦ rw other (other, (h, hs))
    ]

    pub sort-IsOrdered : (xs : List A) → IsOrdered (sort xs)
    sort-IsOrdered [] = tt
    sort-IsOrdered (x ∷ xs) = insert-IsOrdered x (sort xs) (sort-IsOrdered xs)
