-- ===== src/Discovery/Api.antt =====
-- What a search sends: `discoverProducts` and `recommendProducts` of
-- frontend/src/features/discovery/api/discovery.api.ts, the check of a draft in
-- components/DiscoveryFilterPanel.tsx, and the search by image of hooks/useDiscovery.ts. Texts for the
-- user stand here in English.
use affiliate_platform_api.Prelude.{
  Bool, Dict, Option, String, append, false, get, get_or, if◌then◌else◌, none, nonempty, put, some,
  trim, true, truthy, ℕ, ◌&&◌, ◌=?◌, ◌==◌,
}
use affiliate_platform_api.Discovery.Types.{
  DiscoveryMode, DiscoveryParams, category, deals, general, hot, no_params, recommended, trending,
}

abbrev pub is_category_mode : DiscoveryMode → Bool
is_category_mode category = true
is_category_mode general = false
is_category_mode hot = false
is_category_mode deals = false
is_category_mode trending = false
is_category_mode recommended = false

-- `!category_id?.trim()`
abbrev pub lacks_category : Option String → Bool
lacks_category none = true
lacks_category (some id) = trim id == ""

unfoldable pub validate_discovery_draft : DiscoveryParams → Option String
unfolding trim
validate_discovery_draft params =
    if is_category_mode (get_or params.mode hot) && lacks_category params.category_id
    then some "Choose a category first."
    else none

-- What `discoverProducts` does: a request with its path and query, or an error that is thrown. A
-- query has the fields of the parameters that are sent.
pub data Sent : Type 0 where
  get_recommendations : DiscoveryParams → Sent
  get_products : String → DiscoveryParams → Sent
  throws : String → Sent

abbrev pub recommend_products : DiscoveryParams → Sent
recommend_products params = get_recommendations (record no_params {
  keywords = params.keywords;
  min_price = params.min_price;
  max_price = params.max_price;
  min_rating = params.min_rating;
  min_orders = params.min_orders;
  min_discount = params.min_discount;
  min_commission = params.min_commission;
  max_commission = params.max_commission;
  top_n = some (get_or params.top_n 10);
})

-- `flag || undefined`
abbrev pub only_true : Option Bool → Option Bool
only_true (some true) = some true
only_true _ = none

abbrev pub query_of : DiscoveryParams → DiscoveryParams
query_of params = record no_params {
  keywords = params.keywords;
  min_rating = params.min_rating;
  min_orders = params.min_orders;
  min_price = params.min_price;
  max_price = params.max_price;
  min_discount = params.min_discount;
  shipping_country = params.shipping_country;
  free_shipping = only_true params.free_shipping;
  choice_only = only_true params.choice_only;
  order = params.order;
  page = params.page;
  page_size = params.page_size;
}

abbrev pub category_path : Option String → String
category_path none = "/products/discover/category"
category_path (some id) = append "/products/discover/category/" id

abbrev pub discover_mode : DiscoveryMode → DiscoveryParams → Sent
discover_mode recommended params = recommend_products params
discover_mode category params =
    if lacks_category params.category_id
    then throws "category_id is required for category discovery"
    else get_products (category_path (nonempty params.category_id)) (query_of params)
discover_mode general params = get_products "/products/discover" (query_of params)
discover_mode hot params = get_products "/products/discover/hot" (query_of params)
discover_mode deals params = get_products "/products/discover/deals" (query_of params)
discover_mode trending params = get_products "/products/discover/trending" (query_of params)

unfoldable pub discover_products : DiscoveryParams → Sent
unfolding trim
discover_products params = discover_mode (get_or params.mode general) params

pub data Source : Type 0 where
  url upload : Source

pub record ProductImageSearchRequest : Type 0 where
  pub image_url : Option String
  pub image_base64 : Option String
  pub page : Option ℕ

pub record ProductImageSearchKey : Type 0 where
  pub source : Source
  pub image_url : Option String
  pub fingerprint : Option String
  pub page : ℕ

pub record File : Type 0 where
  pub name : String
  pub size : ℕ
  pub last_modified : ℕ

-- `decimal` writes a number.
abbrev pub image_search_fingerprint : (ℕ → String) → File → String
image_search_fingerprint decimal file = append "upload:" (
    append file.name
      (append ":" (append (decimal file.size) (append ":" (decimal file.last_modified)))))

-- `imageSearchBodies`, by fingerprint.
abbrev pub remember_image_search_body : String → String → Dict String → Dict String
remember_image_search_body fingerprint image_base64 bodies = put fingerprint image_base64 bodies

abbrev pub body_of : Option String → Dict String → Option String
body_of none bodies = none
body_of (some fingerprint) bodies = if fingerprint == "" then none else get fingerprint bodies

abbrev pub page_or_first : ℕ → ℕ
page_or_first page = if page =? 0 then 1 else page

abbrev pub request_by : Source → Dict String → ProductImageSearchKey → ProductImageSearchRequest
request_by url bodies input = record {
  image_url = input.image_url;
  image_base64 = none;
  page = some (page_or_first input.page);
}
request_by upload bodies input = record {
  image_url = none;
  image_base64 = body_of input.fingerprint bodies;
  page = some (page_or_first input.page);
}

unfoldable pub to_image_search_request :
    Dict String → ProductImageSearchKey → ProductImageSearchRequest
to_image_search_request bodies input = request_by input.source bodies input

abbrev pub can_run_by : Source → Dict String → ProductImageSearchKey → Bool
can_run_by url bodies input = truthy input.image_url
can_run_by upload bodies input = truthy (body_of input.fingerprint bodies)

-- The image search of the page is enabled.
abbrev pub can_run : Dict String → Option ProductImageSearchKey → Bool
can_run bodies none = false
can_run bodies (some input) = can_run_by input.source bodies input
