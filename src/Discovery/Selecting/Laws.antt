-- ===== src/Discovery/Selecting/Laws.antt =====
-- The selection of results and the number of selected ids.
use affiliate_platform_api.Prelude.{
  List, Option, get_elem?, zero, ◌++◌, none, some, Bool, Bool-cases, NoRepeat, String, [], arith,
  eq_iff, every, false, includes, includes-without, inl, inr, length, ltb, NoRepeat-without,
  NoRepeat-select, refl, select, suc, true, without, ℕ, ◌&&◌, ◌=?◌, ◌==◌, ◌≡◌, ◌≤◌, ◌∷◌, ◌∙◌, ap,
  sym, subst,
}
use affiliate_platform_api.Selection.{keep_valid, toggle}
use affiliate_platform_api.Selection.Laws.{every-true, toggle_lem}
use affiliate_platform_api.Discovery.Types.{DiscoveryProduct}
use affiliate_platform_api.Discovery.Selecting.{
  all_results_selected, on_results, product_ids, toggle_all_results, toggle_result,
}

length-without :
    (id : String) (xs : List String)
    → NoRepeat xs
    → includes xs id ≡ true
    → suc (length (without id xs)) ≡ length xs
length-without id [] h k = cc
length-without id (x ∷ xs) (fresh, h) k = elim (Bool-cases (x == id)) [
  | inl same ↦
      let e : x ≡ id = (eq_iff x id).0 same in
      rw same (ap (λ n. suc n) (kept xs (ap (λ i. includes xs i) (sym e) ∙ fresh)))
  | inr other ↦ rw other (ap (λ n. suc n) (length-without id xs h (ground (arith))))
]
  where
    kept : (ys : List String) → includes ys id ≡ false → length (without id ys) ≡ length ys
    kept [] h = refl
    kept (y ∷ ys) h = ground (arith, kept ys (ground (arith)))

every-without :
    (x : String) (xs ys : List String)
    → includes xs x ≡ false
    → every (includes ys) xs ≡ true
    → every (includes (without x ys)) xs ≡ true
every-without x [] ys h k = refl
every-without x (z ∷ xs) ys h k = ground (
  arith,
  every-without x xs ys (ground (arith)) (ground (arith)),
  includes-without x z ys,
  eq_iff x z,
  eq_iff z x,
)

-- Of as many different ids as there are, none is missing.
covers :
    (xs ys : List String) (j : String)
    → NoRepeat xs
    → NoRepeat ys
    → every (includes ys) xs ≡ true
    → length xs ≡ length ys
    → includes ys j ≡ true
    → includes xs j ≡ true
covers [] [] j h k l m n = n
covers [] (y ∷ ys) j h k l m n = absurd (omega (arith, m))
covers (x ∷ xs) ys j (fresh, h) k l m n = elim (Bool-cases (x == j)) [
  | inl same ↦ ground (arith)
  | inr other ↦
      let there : includes ys x ≡ true = ground (arith) in
      let rest : includes xs j ≡ true =
        covers xs (without x ys) j h (NoRepeat-without x ys k)
          (every-without x xs ys fresh (ground (arith)))
          (omega (arith, m, length-without x ys k there))
          (ground (arith, includes-without x j ys)) in
      ground (arith, rest)
]

fits :
    (xs ys : List String)
    → NoRepeat xs
    → NoRepeat ys
    → every (includes ys) xs ≡ true
    → length xs ≤ length ys
fits [] ys h k l = omega arith
fits (x ∷ xs) ys (fresh, h) k l =
    let there : includes ys x ≡ true = ground (arith) in
    omega (
      arith,
      fits xs (without x ys) h (NoRepeat-without x ys k)
          (every-without x xs ys fresh (ground (arith))),
      length-without x ys k there,
    )

counted :
    (shown selected : List String)
    → NoRepeat shown
    → NoRepeat selected
    → every (includes shown) selected ≡ true
    → (length selected =? length shown) ≡ every (includes selected) shown
counted shown selected h k l = elim (Bool-cases (length selected =? length shown)) [
  | inl same ↦
      let e : length selected ≡ length shown = ground (arith) in
      same
      ∙ sym (
          every-true shown selected (λ j. elim (Bool-cases (includes shown j)) [
            | inl there ↦
                let held : includes selected j ≡ true = covers selected shown j k h l e there in
                ground (arith)
            | inr missing ↦ ground (arith)
          ]))
  | inr other ↦ elim (Bool-cases (every (includes selected) shown)) [
    | inl all ↦
        let up : length shown ≤ length selected = fits shown selected h k all in
        let down : length selected ≤ length shown = fits selected shown k h l in ground (arith)
    | inr lacks ↦ other ∙ sym lacks
  ]
]

-- A selection of the results shown.
pub record IsSelection (shown selected : List String) : Type 0 where
  pub once : NoRepeat selected
  pub among : every (includes shown) selected ≡ true

-- A click on the row at an index, or on the box of all rows.
pub data Click : Type 0 where
  row : ℕ → Click
  all_rows : Click

abbrev pub toggle_at : Option String → List String → List String
toggle_at none selected = selected
toggle_at (some id) selected = toggle_result id selected

abbrev pub click : List DiscoveryProduct → Click → List String → List String
click items (row n) selected = toggle_at (get_elem? (product_ids items) n) selected
click items all_rows selected = toggle_all_results items selected

abbrev pub click_all : List DiscoveryProduct → List Click → List String → List String
click_all items [] selected = selected
click_all items (c ∷ cs) selected = click_all items cs (click items c selected)

every-concat :
    (p : String → Bool) (xs : List String) (id : String)
    → every p xs ≡ true
    → p id ≡ true
    → every p (xs ++ id ∷ []) ≡ true
every-concat p [] id h k = ground (arith)
every-concat p (x ∷ xs) id h k = ground (arith, every-concat p xs id (ground (arith)) k)

every-removed :
    (p : String → Bool) (id : String) (xs : List String)
    → every p xs ≡ true
    → every p (without id xs) ≡ true
every-removed p id [] h = refl
every-removed p id (x ∷ xs) h = ground (arith, every-removed p id xs (ground (arith)))

every-valid : (valid xs : List String) → every (includes valid) (select (includes valid) xs) ≡ true
every-valid valid [] = refl
every-valid valid (x ∷ xs) = ground (arith, every-valid valid xs)

every_self : (xs : List String) → every (includes xs) xs ≡ true
every_self xs = every-true xs xs (λ j. elim (Bool-cases (includes xs j)) [
  | inl there ↦ ground (arith)
  | inr missing ↦ ground (arith)
])

same_id : {a b : String} → some a ≡ some b → a ≡ b
same_id h = cc

includes-get :
    (xs : List String) (n : ℕ) (id : String) → get_elem? xs n ≡ some id → includes xs id ≡ true
includes-get [] n id h = cc
includes-get (x ∷ xs) zero id h = ground (arith, (eq_iff x id).1 (same_id h))
includes-get (x ∷ xs) (suc n) id h = ground (arith, includes-get xs n id h)

toggle_among :
    (shown : List String) (id : String) (selected : List String)
    → every (includes shown) selected ≡ true
    → includes shown id ≡ true
    → every (includes shown) (toggle id selected) ≡ true
unfolding toggle
toggle_among shown id selected h k = elim (Bool-cases (includes selected id)) [
  | inl old ↦ rw old (every-removed (includes shown) id selected h)
  | inr new ↦ rw new (every-concat (includes shown) selected id h k)
]

click-IsSelection :
    (items : List DiscoveryProduct) (c : Click) (selected : List String)
    → NoRepeat (product_ids items)
    → IsSelection (product_ids items) selected
    → IsSelection (product_ids items) (click items c selected)
unfolding toggle_result toggle_all_results
click-IsSelection items (row n) selected h k =
    toggled (get_elem? (product_ids items) n) (includes-get (product_ids items) n)
  where
    toggled :
        (o : Option String)
        → ((id : String) → o ≡ some id → includes (product_ids items) id ≡ true)
        → IsSelection (product_ids items) (toggle_at o selected)
    toggled none there = k
    toggled (some id) there = record {
      once = (toggle_lem id selected id k.once).1;
      among = toggle_among (product_ids items) id selected k.among (there id refl);
    }
click-IsSelection items all_rows selected h k =
    elim (Bool-cases (length selected =? length items)) [
      | inl full ↦ rw full (record { once = tt; among = refl })
      | inr partial ↦ rw partial (record { once = h; among = every_self (product_ids items) })
    ]

click_all-IsSelection :
    (items : List DiscoveryProduct) (cs : List Click) (selected : List String)
    → NoRepeat (product_ids items)
    → IsSelection (product_ids items) selected
    → IsSelection (product_ids items) (click_all items cs selected)
click_all-IsSelection items [] selected h k = k
click_all-IsSelection items (c ∷ cs) selected h k =
    click_all-IsSelection items cs (click items c selected) h
      (click-IsSelection items c selected h k)

length-ids : (items : List DiscoveryProduct) → length (product_ids items) ≡ length items
length-ids [] = refl
length-ids (item ∷ items) = ap (λ n. suc n) (length-ids items)

-- Once the list of results, no product twice, has arrived, and after any clicks on its rows and on
-- the box of all rows: no id is selected twice, only products of the list are selected, and the box
-- is ticked, which the code tells by the number of selected ids alone, exactly when there are
-- results and each of them is selected.
pub all_results_selected_lem :
    (items : List DiscoveryProduct) (cs : List Click) (before : List String)
    → NoRepeat (product_ids items)
    → NoRepeat before
    → (let selected : List String = click_all items cs (on_results items before) in
        IsSelection (product_ids items) selected
        × (all_results_selected items selected
            ≡ (ltb 0 (length items) && every (includes selected) (product_ids items))))
unfolding all_results_selected on_results keep_valid
all_results_selected_lem items cs before h k =
    let ids : List String = product_ids items in
    let selected : List String = click_all items cs (keep_valid ids before) in
    let q : IsSelection ids selected =
      click_all-IsSelection items cs (keep_valid ids before) h (record {
        once = NoRepeat-select (includes ids) before k;
        among = every-valid ids before;
      }) in
    (
      q,
      ap (λ b. ltb 0 (length items) && b)
          (subst (λ n. (length selected =? n) ≡ every (includes selected) ids) (length-ids items)
            (counted ids selected h q.once q.among)),
    )
