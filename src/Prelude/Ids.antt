-- ===== src/Prelude/Ids.antt =====
-- Lists of ids: `includes`, `filter((v) => v !== id)`, `Array.from(new Set(xs))`, and the toggle of
-- a selection.
use Prim.Native.String.{String}
use mathlib.Core.Path.{◌≡◌, refl, ap, subst}
use mathlib.Core.Logic.{inl, inr}
use mathlib.Core.Bool.{false≢true, Bool, true, false, not, ◌&&◌, ◌||◌}
use mathlib.Core.List.{List, [], ◌∷◌, ◌++◌}
use native.Mathlib.Omega.{arith}
use text.Mathlib.Text.{◌==◌}
use text.Mathlib.TextEquality.{eq_iff}
use affiliate_platform_api.Prelude.Tests.{if◌then◌else◌, Bool-cases}
use affiliate_platform_api.Prelude.Lists.{All, select, every}

abbrev pub includes : List String → String → Bool
includes [] id = false
includes (x ∷ xs) id = x == id || includes xs id

abbrev pub without : String → List String → List String
without id [] = []
without id (x ∷ xs) = let rest = without id xs in if x == id then rest else x ∷ rest

-- A set keeps the first of equal entries, in the order of insertion.
abbrev pub unique : List String → List String
unique [] = []
unique (x ∷ xs) = x ∷ without x (unique xs)

-- `xs.filter((id) => !ids.includes(id))`
abbrev pub without_all : List String → List String → List String
without_all ids xs = select (λ x. not (includes ids x)) xs

abbrev pub NoRepeat : List String → Type 0
NoRepeat [] = Unit
NoRepeat (x ∷ xs) = (includes xs x ≡ false) × NoRepeat xs

pub includes-append :
    (xs ys : List String) (id : String)
    → includes (xs ++ ys) id ≡ (includes xs id || includes ys id)
includes-append [] ys id = refl
includes-append (x ∷ xs) ys id = ground (arith, includes-append xs ys id)

pub includes-without :
    (id j : String) (xs : List String)
    → includes (without id xs) j ≡ (not (id == j) && includes xs j)
includes-without id j [] = ground arith
includes-without id j (x ∷ xs) =
    ground (arith, includes-without id j xs, eq_iff x id, eq_iff x j, eq_iff id j)

pub includes-unique : (xs : List String) (j : String) → includes (unique xs) j ≡ includes xs j
includes-unique [] j = refl
includes-unique (x ∷ xs) j = ground (arith, includes-unique xs j, includes-without x j (unique xs))

pub NoRepeat-without : (id : String) (xs : List String) → NoRepeat xs → NoRepeat (without id xs)
NoRepeat-without id [] h = tt
NoRepeat-without id (x ∷ xs) (fresh, h) =
    ground (arith, NoRepeat-without id xs h, includes-without id x xs)

pub unique-NoRepeat : (xs : List String) → NoRepeat (unique xs)
unique-NoRepeat [] = tt
unique-NoRepeat (x ∷ xs) = (
  ground (arith, includes-without x x (unique xs), eq_iff x x),
  NoRepeat-without x (unique xs) (unique-NoRepeat xs),
)

pub includes-select :
    (p : String → Bool) (xs : List String) (j : String)
    → includes (select p xs) j ≡ (p j && includes xs j)
includes-select p [] j = ground arith
includes-select p (x ∷ xs) j = elim (Bool-cases (x == j)) [
  | inl same ↦ let e : x ≡ j = (eq_iff x j).0 same in ground (arith, includes-select p xs j, ap p e)
  | inr other ↦ ground (arith, includes-select p xs j)
]

pub NoRepeat-select : (p : String → Bool) (xs : List String) → NoRepeat xs → NoRepeat (select p xs)
NoRepeat-select p [] h = tt
NoRepeat-select p (x ∷ xs) (fresh, h) =
    ground (arith, NoRepeat-select p xs h, includes-select p xs x)

pub NoRepeat-concat :
    (xs : List String) (id : String)
    → NoRepeat xs
    → includes xs id ≡ false
    → NoRepeat (xs ++ id ∷ [])
NoRepeat-concat [] id h k = (refl, tt)
NoRepeat-concat (x ∷ xs) id (fresh, h) k = (
  ground (arith, includes-append xs (id ∷ []) x, eq_iff x id, eq_iff id x),
  NoRepeat-concat xs id h (ground arith),
)

-- Every id of a list is in a list that includes each of them, and the other way round.
pub every-includes :
    (ids xs : List String) (j : String)
    → every (includes xs) ids ≡ true
    → includes ids j ≡ true
    → includes xs j ≡ true
every-includes [] xs j h k = ground arith
every-includes (i ∷ ids) xs j h k = elim (Bool-cases (i == j)) [
  | inl same ↦ let e : i ≡ j = (eq_iff i j).0 same in ground (arith, ap (includes xs) e)
  | inr other ↦ every-includes ids xs j (ground arith) (ground arith)
]

-- What holds of all ids of a list holds of each that it includes.
pub All-includes {ℓ} :
    (P : String → Type ℓ) (xs : List String) (x : String) → All P xs → includes xs x ≡ true → P x
All-includes P [] x h k = absurd (false≢true k)
All-includes P (y ∷ xs) x (p, h) k = elim (Bool-cases (y == x)) [
  | inl same ↦ subst P ((eq_iff y x).0 same) p
  | inr other ↦ All-includes P xs x h (ground arith)
]
