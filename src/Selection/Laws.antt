-- ===== src/Selection/Laws.antt =====
-- What a click does to a selection.
use affiliate_platform_api.Prelude.{
  Bool, Bool-cases, List, NoRepeat, NoRepeat-concat, NoRepeat-select, NoRepeat-without, String, [],
  arith, eq_iff, every, false, if◌then◌else◌, includes, includes-append, includes-select,
  includes-unique, includes-without, inl, inr, not, refl, true, unique, unique-NoRepeat,
  without_all, ◌++◌, ◌==◌, ◌||◌, ◌≡◌, ◌∷◌, ap,
}
use affiliate_platform_api.Selection.{all_selected, toggle, toggle_all}

-- Clicking a row flips that row and no other, and no id is ever selected twice.
pub toggle_lem :
    (id : String) (selected : List String) (j : String)
    → NoRepeat selected
    → (includes (toggle id selected) j
        ≡ (if id == j then not (includes selected j) else includes selected j))
      × NoRepeat (toggle id selected)
unfolding toggle
toggle_lem id selected j h = elim (Bool-cases (includes selected id)) [
  | inl old ↦ (
    rw old (elim (Bool-cases (id == j)) [
      | inl same ↦
          ground
            (arith, includes-without id j selected, ap (includes selected) ((eq_iff id j).0 same))
      | inr other ↦ ground (arith, includes-without id j selected)
    ]),
    rw old (NoRepeat-without id selected h),
  )
  | inr new ↦ (
    rw new (elim (Bool-cases (id == j)) [
      | inl same ↦ ground (
        arith,
        includes-append selected (id ∷ []) j,
        ap (includes selected) ((eq_iff id j).0 same),
      )
      | inr other ↦ ground (arith, includes-append selected (id ∷ []) j)
    ]),
    rw new (NoRepeat-concat selected id h new),
  )
]

includes-shown :
    (shown selected : List String) (j : String)
    → includes (toggle_all shown selected) j
      ≡ (if includes shown j then not (all_selected shown selected) else includes selected j)
unfolding toggle_all
includes-shown shown selected j = elim (Bool-cases (all_selected shown selected)) [
  | inl all ↦ rw all (ground (arith, includes-select (λ x. not (includes shown x)) selected j))
  | inr some ↦
      rw some
        (ground (arith, includes-unique (selected ++ shown) j, includes-append selected shown j))
]

pub every-true :
    (shown selected : List String)
    → ((j : String) → (not (includes shown j) || includes selected j) ≡ true)
    → every (includes selected) shown ≡ true
every-true [] selected h = refl
every-true (x ∷ shown) selected h =
    ground (arith, h x, (eq_iff x x).1 refl, every-true shown selected (λ j. ground (arith, h j)))

all_selected-cleared :
    (x : String) (shown selected : List String)
    → all_selected (x ∷ shown) (without_all (x ∷ shown) selected) ≡ false
unfolding all_selected
all_selected-cleared x shown selected =
    ground
      (arith, includes-select (λ y. not (includes (x ∷ shown) y)) selected x, (eq_iff x x).1 refl)

all_selected-filled :
    (x : String) (shown selected : List String)
    → all_selected (x ∷ shown) (unique (selected ++ x ∷ shown)) ≡ true
unfolding all_selected
all_selected-filled x shown selected = every-true (x ∷ shown) (unique (selected ++ x ∷ shown)) (λ j.
    ground
      (arith, includes-unique (selected ++ x ∷ shown) j, includes-append selected (x ∷ shown) j))

flip-all_selected :
    (x : String) (shown selected : List String)
    → all_selected (x ∷ shown) (toggle_all (x ∷ shown) selected)
      ≡ not (all_selected (x ∷ shown) selected)
unfolding toggle_all
flip-all_selected x shown selected = flipped (all_selected (x ∷ shown) selected)
  where
    flipped :
        (b : Bool)
        → all_selected
            (x ∷ shown)
            (if b then without_all (x ∷ shown) selected else unique (selected ++ x ∷ shown))
          ≡ not b
    flipped true = all_selected-cleared x shown selected
    flipped false = all_selected-filled x shown selected

toggle_all-NoRepeat :
    (shown selected : List String) → NoRepeat selected → NoRepeat (toggle_all shown selected)
unfolding toggle_all
toggle_all-NoRepeat shown selected h = elim (Bool-cases (all_selected shown selected)) [
  | inl all ↦ rw all (NoRepeat-select (λ x. not (includes shown x)) selected h)
  | inr some ↦ rw some (unique-NoRepeat (selected ++ shown))
]

-- The click on the head of a table that shows rows: if all of them were selected, none of them is
-- afterwards, otherwise all are; the rows that are not shown keep their state, the box in the head
-- changes, and no id is selected twice.
pub toggle_all_lem :
    (x : String) (more selected : List String) (j : String)
    → NoRepeat selected
    → (let shown : List String = x ∷ more in
        (includes (toggle_all shown selected) j
          ≡ (if includes shown j then not (all_selected shown selected) else includes selected j))
        × (all_selected shown (toggle_all shown selected) ≡ not (all_selected shown selected))
        × NoRepeat (toggle_all shown selected))
toggle_all_lem x more selected j h = (
  includes-shown (x ∷ more) selected j,
  flip-all_selected x more selected,
  toggle_all-NoRepeat (x ∷ more) selected h,
)
