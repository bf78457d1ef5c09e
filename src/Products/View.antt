-- ===== src/Products/View.antt =====
-- `ProductsView` of frontend/src/features/products/components/ProductsView.tsx: what the page of the
-- inventory does with the selected products, its paging and its screens. A handler runs from its start
-- to its end. Texts for the user stand here in English.
pub mod Loops
pub mod Paging
mod Tests
use affiliate_platform_api.Prelude.{
  Bool, List, Option, String, [], append, false, flat_map, if◌then◌else◌, is_some, join, leb,
  length, ltb, map, none, nonempty, not, send_each, some, some?, trim, true, truthy, ℕ, ◌+◌, ◌-◌,
  ◌*◌, ◌&&◌, ◌=?◌, ◌==◌, ◌||◌, ◌∷◌,
}
use affiliate_platform_api.Queue.Types.{QueueStatus, queued}
use affiliate_platform_api.Queue.Listing.{present}
use affiliate_platform_api.Products.{Inventory, Product}

-- The fields of a product that only the page reads.
pub record Details : Type 0 where
  pub description : Option String
  pub affiliate_url : Option String
  pub image_url : Option String

-- What is thrown: whether it is an instance of `Error`, and its message. What the HTTP client rejects
-- with is no such instance.
pub record Thrown : Type 0 where
  pub is_error : Bool
  pub message : String

abbrev pub message_of : Thrown → String → String
message_of thrown fallback = if thrown.is_error then thrown.message else fallback

-- The post that is asked for of a product.
pub record QueueCreate : Type 0 where
  pub title : String
  pub content : String
  pub status : QueueStatus
  pub product_id : String
  pub image_url : Option String
  pub button_text : Option String
  pub button_url : Option String

-- A status of a product is its name.
pub data Effect : Type 0 where
  creates : QueueCreate → Effect
  updates : String → String → Effect
  deletes : String → Effect
  push : String → Effect

-- The answers of the server to the requests of one handler.
pub record Server : Type 0 where
  pub create_queue_item : QueueCreate → Option Thrown
  pub update_product : String → String → Option Thrown
  pub delete_product : String → Option Thrown

-- The state of the page; an empty status filter is `none`.
pub record ProductsPage : Type 0 where
  pub status : Option String
  pub page : ℕ
  pub page_size : ℕ
  pub active_product : Option Product
  pub delete_targets : List Product
  pub action_error : Option String
  pub action_message : Option String
  pub inventory : Inventory

abbrev pub clear_selection : Inventory → Inventory
clear_selection s = record s { selected_product_ids = [] }

abbrev pub failed : Thrown → String → ProductsPage → ProductsPage
failed thrown fallback p = record p { action_error = some (message_of thrown fallback) }

-- The end of a handler that empties the selection when all went well.
abbrev pub finished : String → String → Option Thrown → ProductsPage → ProductsPage
finished message fallback none p = record p {
  action_error = none;
  action_message = some message;
  inventory = clear_selection p.inventory;
}
finished message fallback (some thrown) p = failed thrown fallback p

module _ (locale : ℕ → String) (details : Product → Details) (server : Server) where
  abbrev pub draft_of : Product → QueueCreate
  draft_of p = record {
    title = p.title;
    content =
        join "\n\n"
          (present (some p.title ∷ (details p).description ∷ (details p).affiliate_url ∷ []));
    status = queued;
    product_id = p.id;
    image_url = nonempty (details p).image_url;
    button_text = if truthy (details p).affiliate_url then some "Buy now" else none;
    button_url = (details p).affiliate_url;
  }

  -- `addProductsToQueue`
  unfoldable pub add_products_to_queue : List Product → ProductsPage → ProductsPage × List Effect
  unfolding send_each
  add_products_to_queue [] p = (p, [])
  add_products_to_queue (first ∷ rest) p =
      let (sent, thrown) = send_each (λ q. server.create_queue_item (draft_of q)) (first ∷ rest) in
      (
        finished (append "Added: " (locale (length (first ∷ rest)))) "The products are not added."
            thrown p,
        map (λ q. creates (draft_of q)) sent,
      )

  -- `changeSelectedStatus`
  unfoldable pub change_selected_status :
      String → List Product → ProductsPage → ProductsPage × List Effect
  unfolding send_each
  change_selected_status next_status selected p =
      let (sent, thrown) = send_each (λ q. server.update_product q.id next_status) selected in
      (
        finished "The status is changed." "The status is not changed." thrown p,
        map (λ q. updates q.id next_status) sent,
      )

  abbrev pub is_active : Option Product → List Product → Bool
  is_active none targets = false
  is_active (some active) targets = some? (λ q. q.id == active.id) targets

  abbrev pub deleted : Option Thrown → ProductsPage → ProductsPage
  deleted none p = record p {
    action_error = none;
    action_message = some (append "Deleted: " (locale (length p.delete_targets)));
    active_product = if is_active p.active_product p.delete_targets then none else p.active_product;
    inventory = clear_selection p.inventory;
    delete_targets = [];
  }
  deleted (some thrown) p = failed thrown "The products are not deleted." p

  -- `confirmDelete`
  unfoldable pub confirm_delete : ProductsPage → ProductsPage × List Effect
  unfolding send_each
  confirm_delete p =
      let (sent, thrown) = send_each (λ q. server.delete_product q.id) p.delete_targets in
      (deleted thrown p, map (λ q. deletes q.id) sent)

-- The toolbar and the paging.
abbrev pub on_search_change : String → ProductsPage → ProductsPage
on_search_change value p = record p {
  inventory = clear_selection (record p.inventory { client_search = value });
}

abbrev pub on_status_change : Option String → ProductsPage → ProductsPage
on_status_change value p = record p {
  status = value;
  page = 0;
  inventory = clear_selection p.inventory;
}

abbrev pub on_page_size_change : ℕ → ProductsPage → ProductsPage
on_page_size_change value p = record p {
  page_size = value;
  page = 0;
  inventory = clear_selection p.inventory;
}

abbrev pub reset_filters : ProductsPage → ProductsPage
reset_filters p = record p {
  inventory = record p.inventory { client_search = "" };
  status = none;
  page = 0;
}

-- The buttons, each of which is disabled where it leads to no page.
unfoldable pub previous_page : ProductsPage → ProductsPage
previous_page p =
    if p.page =? 0
    then p
    else record p { page = p.page - 1; inventory = clear_selection p.inventory }

unfoldable pub next_page : ℕ → ProductsPage → ProductsPage
next_page total p =
    if leb total ((p.page + 1) * p.page_size)
    then p
    else record p { page = p.page + 1; inventory = clear_selection p.inventory }

-- The query of the products: the page that the server has sent, and its count of all of them.
pub record Query : Type 0 where
  pub is_pending : Bool
  pub is_error : Bool
  pub items : List Product
  pub total : ℕ

pub data Screen : Type 0 where
  loading failure empty_inventory filtered_empty table : Screen

abbrev pub no_items : List Product → Bool
no_items [] = true
no_items (p ∷ items) = false

-- `filtered` are the products that the search leaves of the items.
abbrev pub screen : Query → List Product → ProductsPage → Screen
screen products filtered p =
    if products.is_pending
    then loading
    else if products.is_error
    then failure
    else if no_items products.items && not (is_some p.status)
    then empty_inventory
    else if no_items filtered || (no_items products.items && is_some p.status)
    then filtered_empty
    else table
