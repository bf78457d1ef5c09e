-- ===== src/Products.antt =====
-- frontend/src/features/products: the inventory state of hooks/useProducts.ts and what lib/inventory.ts
-- says of a product. Prices, ratings and scores are numbers of hundredths, whose order is that of the
-- numbers. `date_parse` is `Date.parse` on dates after 1970, `lower` is `toLocaleLowerCase`. The
-- Arabic labels stand here in English.
pub mod Laws
pub mod View
mod Tests
use affiliate_platform_api.Prelude.{
  Bool, Dict, List, Option, String, [], false, get, get_or, if◌then◌else◌, includes, leb, ltb, map,
  none, nonempty, not, put, select, some, some?, sort, trim, true, without, ℕ, ◌++◌, ◌&&◌, ◌==◌,
  ◌||◌, ◌∷◌, is_some,
}
use affiliate_platform_api.Queue.Types.{
  QueueItem, QueueStatus, draft, failed, published, queued, scheduled,
}
use affiliate_platform_api.Queue.Listing.{matches_query}
use affiliate_platform_api.Queue.Operations.{is_status}
use affiliate_platform_api.Selection.{all_selected, keep_valid, toggle, toggle_all}

-- The fields that the inventory reads.
pub record Product : Type 0 where
  pub id : String
  pub aliexpress_product_id : Option String
  pub title : String
  pub price : ℕ
  pub rating : ℕ
  pub sales : ℕ
  pub category : Option String
  pub store_name : Option String
  pub score : ℕ
  pub created_at : String

pub data ProductSort : Type 0 where
  newest score_desc sales_desc rating_desc price_asc price_desc : ProductSort

pub record Inventory : Type 0 where
  pub selected_product_ids : List String
  pub visible_columns : List String
  pub order : ProductSort
  pub client_search : String

abbrev pub default_product_columns : List String
default_product_columns =
    "product" ∷ "price" ∷ "rating" ∷ "sales" ∷ "score" ∷ "status" ∷ "actions" ∷ []

abbrev pub initial_inventory : Inventory
initial_inventory = record {
  selected_product_ids = [];
  visible_columns = default_product_columns;
  order = newest;
  client_search = "";
}

module _ (lower : String → String) (date_parse : String → ℕ) where
  abbrev pub matches_search : Inventory → Product → Bool
  matches_search s p =
      matches_query lower date_parse (lower (trim s.client_search))
        (some p.title ∷ p.category ∷ p.store_name ∷ p.aliexpress_product_id ∷ some p.id ∷ [])

  -- `y` must stand before `x`.
  abbrev pub comes_before : ProductSort → Product → Product → Bool
  comes_before score_desc y x = ltb x.score y.score
  comes_before sales_desc y x = ltb x.sales y.sales
  comes_before rating_desc y x = ltb x.rating y.rating
  comes_before price_asc y x = ltb y.price x.price
  comes_before price_desc y x = ltb x.price y.price
  comes_before newest y x = ltb (date_parse x.created_at) (date_parse y.created_at)

  unfoldable pub filtered_products : List Product → Inventory → List Product
  filtered_products items s = sort (comes_before s.order) (select (matches_search s) items)

  abbrev pub visible_ids : List Product → Inventory → List String
  visible_ids items s = map (λ p. p.id) (filtered_products items s)

  unfoldable pub toggle_all_products : List Product → Inventory → Inventory
  unfolding toggle_all
  toggle_all_products items s = record s {
    selected_product_ids = toggle_all (visible_ids items s) s.selected_product_ids;
  }

  unfoldable pub all_visible_selected : List Product → Inventory → Bool
  unfolding all_selected
  all_visible_selected items s = all_selected (visible_ids items s) s.selected_product_ids

unfoldable pub toggle_product : String → Inventory → Inventory
unfolding toggle
toggle_product id s = record s { selected_product_ids = toggle id s.selected_product_ids }

-- The list of products has changed.
unfoldable pub on_products : List Product → Inventory → Inventory
unfolding keep_valid
on_products items s = record s {
  selected_product_ids = keep_valid (map (λ p. p.id) items) s.selected_product_ids;
}

-- The columns of the product and of the actions cannot be hidden.
unfoldable pub toggle_column : String → Inventory → Inventory
unfolding toggle
toggle_column column s =
    if column == "product" || column == "actions"
    then s
    else record s { visible_columns = toggle column s.visible_columns }

abbrev pub selected_products : List Product → Inventory → List Product
selected_products items s = select (λ p. includes s.selected_product_ids p.id) items

-- `indexQueueByProduct`, from an index on.
abbrev pub add_to_index : Option String → QueueItem → Dict (List QueueItem) → Dict (List QueueItem)
add_to_index none item index = index
add_to_index (some product_id) item index =
    if product_id == ""
    then index
    else put product_id (get_or (get product_id index) [] ++ item ∷ []) index

abbrev pub index_from : Dict (List QueueItem) → List QueueItem → Dict (List QueueItem)
index_from index [] = index
index_from index (item ∷ items) = index_from (add_to_index item.product_id item index) items

unfoldable pub index_queue_by_product : List QueueItem → Dict (List QueueItem)
index_queue_by_product items = index_from [] items

pub record ProductPipelineState : Type 0 where
  pub has_content : Bool
  pub queued : Bool
  pub published : Bool
  pub low_score : Bool

abbrev pub in_queue : QueueItem → Bool
in_queue item =
    is_status item.status queued
    || is_status item.status scheduled
    || is_status item.status published

-- `queueItems.length > 0`
abbrev pub has_items : List QueueItem → Bool
has_items [] = false
has_items (item ∷ items) = true

unfoldable pub get_product_pipeline_state : Product → Dict (List QueueItem) → ProductPipelineState
get_product_pipeline_state product queue_index =
    let queue_items = get_or (get product.id queue_index) [] in
    record {
      has_content = has_items queue_items;
      queued = some? in_queue queue_items;
      published = some? (λ item. is_status item.status published) queue_items;
      low_score = ltb product.score 5500;
    }

pub data ScoreTone : Type 0 where
  success info warning error : ScoreTone

unfoldable pub get_score_quality : ℕ → String × ScoreTone
get_score_quality score =
    if leb 8500 score
    then ("Excellent", success)
    else if leb 7000 score
    then ("High potential", info)
    else if leb 5500 score
    then ("Average", warning)
    else ("Low", error)
