-- ===== src/Products/View/Paging.antt =====
-- The pages of the inventory in `ProductsView`: paging after a change of the filter, and the last page
-- after a deletion.
use affiliate_platform_api.Prelude.{
  List, Option, String, [], arith, drop, false, is_some, leb, length, none, refl, send_each, some,
  suc, take, zero, ℕ, ◌*◌, ◌<◌, ◌≤◌, ◌≡◌, ◌∷◌, ◌∙◌, ap, ap₂, subst, sym,
}
use affiliate_platform_api.Products.{Product}
use affiliate_platform_api.Products.View.{
  Query, table, filtered_empty, clear_selection, Details, ProductsPage, Server, Thrown,
  confirm_delete, deleted, empty_inventory, next_page, no_items, on_status_change, screen,
}

drop_all : {A : Type 0} (n : ℕ) (xs : List A) → length xs ≤ n → drop n xs ≡ []
drop_all zero [] h = refl
drop_all zero (x ∷ xs) h = absurd (omega (arith, h))
drop_all (suc n) [] h = refl
drop_all (suc n) (x ∷ xs) h = drop_all n xs (omega (arith, h))

take_none : {A : Type 0} (n : ℕ) → take {A = A} n [] ≡ []
take_none zero = refl
take_none (suc n) = refl

take_all : {A : Type 0} (n : ℕ) (xs : List A) → length xs ≤ n → take n xs ≡ xs
take_all zero [] h = refl
take_all zero (x ∷ xs) h = absurd (omega (arith, h))
take_all (suc n) [] h = refl
take_all (suc n) (x ∷ xs) h = ap (λ ys. x ∷ ys) (take_all n xs (omega (arith, h)))

-- What the server sends for a page: of the products that the filter leaves, those behind the earlier
-- pages, and the count of all.
abbrev pub sent_page : List Product → ProductsPage → Query
sent_page listed p = record {
  is_pending = false;
  is_error = false;
  items = take p.page_size (drop (p.page * p.page_size) listed);
  total = length listed;
}

beyond_end :
    (listed : List Product) (p : ProductsPage)
    → length listed ≤ p.page * p.page_size
    → (sent_page listed p).items ≡ []
beyond_end listed p beyond =
    ap (λ l. take p.page_size l) (drop_all (p.page * p.page_size) listed beyond)
    ∙ take_none p.page_size

-- A list with more products than a page has is shown. The user sets the filter to a status of which
-- there is at most a page, and asks for the next page before the server has answered. As long as the
-- earlier list is shown, with its count, the button leads to the second page; when the server answers
-- for that page, the screen without buttons of paging says that nothing matches, although the first
-- page has all that match.
pub next_before_answer :
    (earlier : Query) (shown filtered listed : List Product) (value : String) (p : ProductsPage)
    → earlier.is_pending ≡ false
    → earlier.is_error ≡ false
    → no_items earlier.items ≡ false
    → no_items shown ≡ false
    → p.page_size < earlier.total
    → length listed ≤ p.page_size
    → (let waiting : ProductsPage = on_status_change (some value) p in
        let p' : ProductsPage = next_page earlier.total waiting in
        (screen earlier shown waiting ≡ table)
        × (p'.page ≡ 1)
        × (screen (sent_page listed p') filtered p' ≡ filtered_empty)
        × (take p.page_size listed ≡ listed))
unfolding next_page
next_before_answer earlier shown filtered listed value p pending failed items some_shown more few =
    let waiting : ProductsPage = on_status_change (some value) p in
    let open_button : leb earlier.total (1 * p.page_size) ≡ false = ground (arith, more) in
    let second : ProductsPage = record waiting {
      page = 1;
      inventory = clear_selection waiting.inventory;
    } in
    let led : next_page earlier.total waiting ≡ second = rw open_button refl in
    let sent : (sent_page listed second).items ≡ [] =
      beyond_end listed second (omega (arith, few)) in
    (
      ground (arith, pending, failed, items, some_shown),
      ap (λ (q : ProductsPage). q.page) led,
      subst (λ (q : ProductsPage). screen (sent_page listed q) filtered q ≡ filtered_empty)
          (sym led) (ground (arith, ap no_items sent)),
      take_all p.page_size listed few,
    )

deleted_page :
    (locale : ℕ → String) (details : Product → Details) (server : Server) (thrown : Option Thrown)
    (p : ProductsPage)
    → ((deleted locale details server thrown p).page ≡ p.page)
      × ((deleted locale details server thrown p).page_size ≡ p.page_size)
      × ((deleted locale details server thrown p).status ≡ p.status)
deleted_page locale details server none p = (refl, refl, refl)
deleted_page locale details server (some thrown) p = (refl, refl, refl)

-- After the deletion of products, without a filter on the status, when those that remain all stand on
-- pages before the one that is shown: the page number stays, so that the server, which sends the
-- products behind the earlier pages, sends none; and the page then says that the inventory is empty,
-- whatever remains.
pub emptied_last_page :
    (locale : ℕ → String) (details : Product → Details) (server : Server) (p : ProductsPage)
    (remaining filtered : List Product)
    → p.status ≡ none
    → length remaining ≤ p.page * p.page_size
    → (let p' : ProductsPage = (confirm_delete locale details server p).0 in
        screen (sent_page remaining p') filtered p' ≡ empty_inventory)
unfolding confirm_delete
emptied_last_page locale details server p remaining filtered unfiltered beyond =
    let thrown = (send_each (λ q. server.delete_product q.id) p.delete_targets).1 in
    let p' : ProductsPage = deleted locale details server thrown p in
    let (page, size, status) = deleted_page locale details server thrown p in
    let sent : take p'.page_size (drop (p'.page * p'.page_size) remaining) ≡ [] =
      ap (λ n. take p'.page_size (drop n remaining)) (ap₂ (λ a b. a * b) page size)
      ∙ ap (λ l. take p'.page_size l) (drop_all (p.page * p.page_size) remaining beyond)
      ∙ take_none p'.page_size in
    ground (arith, ap no_items sent, ap (λ o. is_some o) (status ∙ unfiltered))
