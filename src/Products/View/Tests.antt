-- ===== src/Products/View/Tests.antt =====
-- An inventory of three products, two to a page.
use affiliate_platform_api.Prelude.{
  List, String, [], append, false, if◌then◌else◌, none, refl, some, take, ◌==◌, ◌≡◌, ◌∷◌, ℕ,
  send_each, arith,
}
use affiliate_platform_api.Products.{Product, initial_inventory}
use affiliate_platform_api.Products.View.{
  Query, filtered_empty, next_page, on_status_change, table, Details, ProductsPage, Server, Thrown,
  change_selected_status, confirm_delete, empty_inventory, message_of, reset_filters, screen,
  updates,
}
use affiliate_platform_api.Products.View.Loops.{LoopOutcome, change_selected_status_lem}
use affiliate_platform_api.Products.View.Paging.{emptied_last_page, next_before_answer, sent_page}

abbrev held : String → Product
held id = record {
  id = id;
  aliexpress_product_id = none;
  title = append "Lamp " id;
  price = 1;
  rating = 1;
  sales = 1;
  category = none;
  store_name = none;
  score = 1;
  created_at = "2026-01-01";
}

abbrev rejected : Thrown
rejected = record { is_error = false; message = "Not found" }

abbrev picky : Server
picky = record {
  create_queue_item = λ post. none;
  update_product = λ id status. if id == "b" then some rejected else none;
  delete_product = λ id. none;
}

abbrev bare : Product → Details
bare p = record { description = none; affiliate_url = none; image_url = none }

abbrev digits : ℕ → String
digits n = "n"

abbrev second_page : ProductsPage
second_page = record {
  status = none;
  page = 1;
  page_size = 2;
  active_product = some (held "c");
  delete_targets = held "c" ∷ [];
  action_error = none;
  action_message = none;
  inventory = initial_inventory;
}

first_page : (reset_filters second_page).page ≡ 0
first_page = refl

closed_drawer : (confirm_delete digits bare picky second_page).0.active_product ≡ none
unfolding confirm_delete send_each
closed_drawer = refl

own_text : message_of rejected "Failed" ≡ "Failed"
own_text = refl

change_selected_status_lem_example :
    LoopOutcome
      (λ q. picky.update_product q.id "archived")
      (λ q. updates q.id "archived")
      "The status is not changed."
      (held "a" ∷ held "b" ∷ held "c" ∷ [])
      second_page
      (change_selected_status digits bare picky "archived"
        (held "a" ∷ held "b" ∷ held "c" ∷ [])
        second_page)
change_selected_status_lem_example =
    change_selected_status_lem digits bare picky "archived" (held "a" ∷ held "b" ∷ held "c" ∷ [])
      second_page

abbrev left : List Product
left = held "a" ∷ held "b" ∷ []

abbrev all_three : Query
all_three = record {
  is_pending = false;
  is_error = false;
  items = held "a" ∷ held "b" ∷ [];
  total = 3;
}

next_before_answer_example :
    (let waiting : ProductsPage = on_status_change (some "active") second_page in
      let p' : ProductsPage = next_page 3 waiting in
      (screen all_three (held "a" ∷ []) waiting ≡ table)
      × (p'.page ≡ 1)
      × (screen (sent_page left p') [] p' ≡ filtered_empty)
      × (take 2 left ≡ left))
next_before_answer_example =
    next_before_answer all_three (held "a" ∷ []) [] left "active" second_page refl refl refl refl
      (omega arith) (omega arith)

emptied_last_page_example :
    (let p' : ProductsPage = (confirm_delete digits bare picky second_page).0 in
      screen (sent_page left p') [] p' ≡ empty_inventory)
emptied_last_page_example =
    emptied_last_page digits bare picky second_page left [] refl (omega arith)
