-- ===== src/Queue/Listing/Laws.antt =====
-- The list of posts: its filters, its order and its pages.
use affiliate_platform_api.Prelude.{
  Bool, IsOrdered, List, String, [], arith, drop, false, length, length-select-sort, ltb, refl,
  select, sort-IsOrdered, take, true, zero, suc, ℕ, ◌+◌, ◌*◌, ◌++◌, ◌&&◌, ◌≡◌, ◌≤◌, ◌∷◌, ap, sym,
  ◌∙◌,
}
use affiliate_platform_api.Queue.Types.{
  QueueItem, QueueWorkspaceSort, newest, oldest, schedule_asc, schedule_desc, status,
}
use affiliate_platform_api.Queue.Listing.{Workspace, before, filtered_items, matches, paged_items}

ltb_asym : (m n : ℕ) → ltb m n ≡ true → ltb n m ≡ false
ltb_asym m n h = ground arith

length-select-select :
    {A : Type 0} (p m : A → Bool) (xs : List A)
    → length (select p (select m xs)) ≡ length (select (λ x. m x && p x) xs)
length-select-select p m [] = refl
length-select-select p m (x ∷ xs) = ground (arith, length-select-select p m xs)

take-nil : {A : Type 0} (n : ℕ) → take {A = A} n [] ≡ []
take-nil zero = refl
take-nil (suc n) = refl

take-drop : {A : Type 0} (m k : ℕ) (xs : List A) → take m xs ++ take k (drop m xs) ≡ take (m + k) xs
take-drop zero k xs = ap (λ n. take n xs) (omega arith)
take-drop (suc m) k [] = take-nil k ∙ sym (take-nil (suc m + k))
take-drop (suc m) k (x ∷ xs) =
    let longer : suc (m + k) ≡ suc m + k = omega arith in
    ap (λ ys. x ∷ ys) (take-drop m k xs) ∙ ap (λ n. take n (x ∷ xs)) longer

take-length : {A : Type 0} (n : ℕ) (xs : List A) → length xs ≤ n → take n xs ≡ xs
take-length n [] h = take-nil n
take-length zero (x ∷ xs) h = absurd (omega (arith, h))
take-length (suc n) (x ∷ xs) h = ap (λ ys. x ∷ ys) (take-length n xs (omega (arith, h)))

module _ (lower : String → String) (date_parse : String → ℕ) where
  before_asym :
      (o : QueueWorkspaceSort) (x y : QueueItem)
      → before lower date_parse o y x ≡ true
      → before lower date_parse o x y ≡ false
  before_asym newest x y h = ltb_asym _ _ h
  before_asym oldest x y h = ltb_asym _ _ h
  before_asym schedule_asc x y h = ltb_asym _ _ h
  before_asym schedule_desc x y h = ltb_asym _ _ h
  before_asym status x y h = ltb_asym _ _ h

  -- Whatever the search, the filters and the order are: the list shows its posts in the order asked
  -- for, and for any property it shows as many posts with it as the posts that match the search and
  -- the filters have, so that it drops, adds and repeats none.
  pub filtered_items-IsOrdered :
      (items : List QueueItem) (w : Workspace) (p : QueueItem → Bool)
      → IsOrdered (before lower date_parse w.order) (filtered_items lower date_parse items w)
        × (length (select p (filtered_items lower date_parse items w))
            ≡ length (select (λ i. matches lower date_parse w i && p i) items))
  unfolding filtered_items
  filtered_items-IsOrdered items w p = (
    sort-IsOrdered (before lower date_parse w.order) (λ x y. before_asym w.order x y)
        (select (matches lower date_parse w) items),
    length-select-sort (before lower date_parse w.order) p
          (select (matches lower date_parse w) items)
        ∙ length-select-select p (matches lower date_parse w) items,
  )

  -- The first pages, one after the other.
  abbrev pub pages : List QueueItem → Workspace → ℕ → List QueueItem
  pages items w zero = []
  pages items w (suc n) =
      pages items w n ++ paged_items lower date_parse items (record w { page = n })

  pages-take :
      (items : List QueueItem) (w : Workspace) (n : ℕ)
      → pages items w n ≡ take (n * w.page_size) (filtered_items lower date_parse items w)
  unfolding paged_items filtered_items
  pages-take items w zero =
      let none_yet : zero * w.page_size ≡ zero = omega arith in
      sym (ap (λ k. take k (filtered_items lower date_parse items w)) none_yet)
  pages-take items w (suc n) =
      let all : List QueueItem = filtered_items lower date_parse items w in
      ap (λ ys. ys ++ take w.page_size (drop (n * w.page_size) all)) (pages-take items w n)
      ∙ take-drop (n * w.page_size) w.page_size all
      ∙ ap (λ k. take k all) (ground arith)

  -- As soon as the pages have room for all posts of the list, they make up the list one after the
  -- other: no post is left out between two pages and none is on two of them.
  pub pages-filtered_items :
      (items : List QueueItem) (w : Workspace) (n : ℕ)
      → length (filtered_items lower date_parse items w) ≤ n * w.page_size
      → pages items w n ≡ filtered_items lower date_parse items w
  pages-filtered_items items w n h =
      pages-take items w n
      ∙ take-length (n * w.page_size) (filtered_items lower date_parse items w) h
