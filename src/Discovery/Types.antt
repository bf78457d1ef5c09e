-- ===== src/Discovery/Types.antt =====
-- frontend/src/features/discovery/types/api.ts: the parameters of a search, the products found, the
-- answer, and the session that the tab keeps. Prices, ratings and scores are numbers of hundredths.
-- Fields that no modelled code reads (galleries, shipping, breakdowns of scores, the drafts of future
-- filters) are left out.
use affiliate_platform_api.Prelude.{Bool, List, Option, String, none, ℕ}

pub data DiscoveryMode : Type 0 where
  general hot deals trending category recommended : DiscoveryMode

pub data ProductSort : Type 0 where
  orders_desc rating_desc discount_desc price_asc price_desc commission_desc newest : ProductSort

pub data TableDensity : Type 0 where
  comfortable compact : TableDensity

-- A field that is undefined is `none`.
pub record DiscoveryParams : Type 0 where
  pub mode : Option DiscoveryMode
  pub keywords : Option String
  pub category_id : Option String
  pub min_rating : Option ℕ
  pub min_orders : Option ℕ
  pub min_price : Option ℕ
  pub max_price : Option ℕ
  pub min_discount : Option ℕ
  pub shipping_country : Option String
  pub free_shipping : Option Bool
  pub choice_only : Option Bool
  pub min_commission : Option ℕ
  pub max_commission : Option ℕ
  pub top_n : Option ℕ
  pub order : Option ProductSort
  pub page : Option ℕ
  pub page_size : Option ℕ

pub record DiscoveryProduct : Type 0 where
  pub id : Option String
  pub aliexpress_product_id : String
  pub title : String
  pub description : Option String
  pub price : ℕ
  pub original_price : Option ℕ
  pub discount : ℕ
  pub rating : ℕ
  pub sales : ℕ
  pub reviews : ℕ
  pub image_url : String
  pub product_url : String
  pub affiliate_url : Option String
  pub commission_rate : Option ℕ
  pub score : ℕ

pub record DiscoveryResponse : Type 0 where
  pub items : List DiscoveryProduct
  pub total : ℕ
  pub skip : ℕ
  pub limit : ℕ
  pub page : ℕ
  pub total_pages : ℕ
  pub mode : DiscoveryMode
  pub order : ProductSort
  pub persisted_count : ℕ

-- A column is its name.
pub record DiscoveryUiPrefs : Type 0 where
  pub density : TableDensity
  pub visible_columns : List String
  pub result_search : String

pub data DiscoveryRunStatus : Type 0 where
  idle running success error : DiscoveryRunStatus

pub record DiscoverySessionSnapshot : Type 0 where
  pub draft_params : DiscoveryParams
  pub committed_params : Option DiscoveryParams
  pub last_response : Option DiscoveryResponse
  pub last_run_at : Option String
  pub last_run_status : DiscoveryRunStatus
  pub last_error : Option String
  pub imported_ids : List String
  pub ui_prefs : DiscoveryUiPrefs

abbrev pub no_params : DiscoveryParams
no_params = record {
  mode = none;
  keywords = none;
  category_id = none;
  min_rating = none;
  min_orders = none;
  min_price = none;
  max_price = none;
  min_discount = none;
  shipping_country = none;
  free_shipping = none;
  choice_only = none;
  min_commission = none;
  max_commission = none;
  top_n = none;
  order = none;
  page = none;
  page_size = none;
}
