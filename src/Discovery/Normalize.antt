-- ===== src/Discovery/Normalize.antt =====
-- frontend/src/features/discovery/lib/normalize.ts and lib/ui-prefs.ts: numbers that come over the
-- wire as numbers or as texts, and preferences that may be incomplete. `number` is `Number` on texts,
-- `none` where it is not finite.
use affiliate_platform_api.Prelude.{
  List, Option, String, [], get_or, if◌then◌else◌, map, none, refl, some, ℕ, ◌==◌, ◌≡◌, ◌∷◌,
}
use affiliate_platform_api.Discovery.Types.{
  DiscoveryMode, DiscoveryProduct, DiscoveryResponse, DiscoveryUiPrefs, ProductSort, TableDensity,
  comfortable, compact,
}

-- `number | string | null | undefined`
pub data Wire : Type 0 where
  missing : Wire
  numeric : ℕ → Wire
  text : String → Wire

pub record DiscoveryProductRaw : Type 0 where
  pub id : Option String
  pub aliexpress_product_id : String
  pub title : String
  pub description : Option String
  pub price : Wire
  pub original_price : Wire
  pub discount : Wire
  pub rating : Wire
  pub sales : Wire
  pub reviews : Wire
  pub image_url : String
  pub product_url : String
  pub affiliate_url : Option String
  pub commission_rate : Wire
  pub score : Wire

pub record DiscoveryResponseRaw : Type 0 where
  pub items : List DiscoveryProductRaw
  pub total : Wire
  pub skip : Wire
  pub limit : Wire
  pub page : Wire
  pub total_pages : Wire
  pub mode : DiscoveryMode
  pub order : ProductSort
  pub persisted_count : Wire

module _ (number : String → Option ℕ) where
  abbrev pub to_nullable_number : Wire → Option ℕ
  to_nullable_number missing = none
  to_nullable_number (numeric n) = some n
  to_nullable_number (text s) = if s == "" then none else number s

  abbrev pub to_number : Wire → ℕ → ℕ
  to_number missing fallback = fallback
  to_number (numeric n) fallback = n
  to_number (text s) fallback = if s == "" then fallback else get_or (number s) fallback

  abbrev pub normalize_discovery_product : DiscoveryProductRaw → DiscoveryProduct
  normalize_discovery_product raw = record {
    id = raw.id;
    aliexpress_product_id = raw.aliexpress_product_id;
    title = raw.title;
    description = raw.description;
    price = to_number raw.price 0;
    original_price = to_nullable_number raw.original_price;
    discount = to_number raw.discount 0;
    rating = to_number raw.rating 0;
    sales = to_number raw.sales 0;
    reviews = to_number raw.reviews 0;
    image_url = raw.image_url;
    product_url = raw.product_url;
    affiliate_url = raw.affiliate_url;
    commission_rate = to_nullable_number raw.commission_rate;
    score = to_number raw.score 0;
  }

  unfoldable pub normalize_discovery_response : DiscoveryResponseRaw → DiscoveryResponse
  normalize_discovery_response raw = record {
    items = map normalize_discovery_product raw.items;
    total = to_number raw.total 0;
    skip = to_number raw.skip 0;
    limit = to_number raw.limit 0;
    page = to_number raw.page 1;
    total_pages = to_number raw.total_pages 1;
    mode = raw.mode;
    order = raw.order;
    persisted_count = to_number raw.persisted_count 0;
  }

abbrev pub default_visible_columns : List String
default_visible_columns =
    "product" ∷ "price" ∷ "rating" ∷ "orders" ∷ "commission" ∷ "score" ∷ "status" ∷ "actions" ∷ []

abbrev pub default_ui_prefs : DiscoveryUiPrefs
default_ui_prefs = record {
  density = comfortable;
  visible_columns = default_visible_columns;
  result_search = "";
}

-- Preferences as they are stored: each may be missing, and the density may be any text.
pub record StoredPrefs : Type 0 where
  pub density : Option String
  pub visible_columns : Option (List String)
  pub result_search : Option String

abbrev pub density_of : Option String → TableDensity
density_of none = comfortable
density_of (some name) = if name == "compact" then compact else comfortable

abbrev pub or_default_columns : List String → List String
or_default_columns [] = default_visible_columns
or_default_columns (column ∷ columns) = column ∷ columns

abbrev pub normalize_ui_prefs : Option StoredPrefs → DiscoveryUiPrefs
normalize_ui_prefs none = default_ui_prefs
normalize_ui_prefs (some prefs) = record {
  density = density_of prefs.density;
  visible_columns = or_default_columns (get_or prefs.visible_columns []);
  result_search = get_or prefs.result_search "";
}

-- Preferences that are complete, as `JSON.stringify` stores them.
abbrev pub density_text : TableDensity → String
density_text comfortable = "comfortable"
density_text compact = "compact"

abbrev pub store_prefs : DiscoveryUiPrefs → StoredPrefs
store_prefs prefs = record {
  density = some (density_text prefs.density);
  visible_columns = some prefs.visible_columns;
  result_search = some prefs.result_search;
}

abbrev pub numeric_or_missing : Option ℕ → Wire
numeric_or_missing none = missing
numeric_or_missing (some n) = numeric n

abbrev pub store_product : DiscoveryProduct → DiscoveryProductRaw
store_product p = record {
  id = p.id;
  aliexpress_product_id = p.aliexpress_product_id;
  title = p.title;
  description = p.description;
  price = numeric p.price;
  original_price = numeric_or_missing p.original_price;
  discount = numeric p.discount;
  rating = numeric p.rating;
  sales = numeric p.sales;
  reviews = numeric p.reviews;
  image_url = p.image_url;
  product_url = p.product_url;
  affiliate_url = p.affiliate_url;
  commission_rate = numeric_or_missing p.commission_rate;
  score = numeric p.score;
}

abbrev pub store_response : DiscoveryResponse → DiscoveryResponseRaw
store_response r = record {
  items = map store_product r.items;
  total = numeric r.total;
  skip = numeric r.skip;
  limit = numeric r.limit;
  page = numeric r.page;
  total_pages = numeric r.total_pages;
  mode = r.mode;
  order = r.order;
  persisted_count = numeric r.persisted_count;
}

nullable-stored :
    (number : String → Option ℕ) (o : Option ℕ)
    → to_nullable_number number (numeric_or_missing o) ≡ o
nullable-stored number none = refl
nullable-stored number (some n) = refl

product-stored :
    (number : String → Option ℕ) (p : DiscoveryProduct)
    → normalize_discovery_product number (store_product p) ≡ p
product-stored number p = λ i. record p {
  original_price = nullable-stored number p.original_price i;
  commission_rate = nullable-stored number p.commission_rate i;
}

products-stored :
    (number : String → Option ℕ) (items : List DiscoveryProduct)
    → map (normalize_discovery_product number) (map store_product items) ≡ items
products-stored number [] = refl
products-stored number (p ∷ items) = λ i. product-stored number p i ∷ products-stored number items i

-- What is normalised once is kept when it is stored and normalised again.
pub response-stored :
    (number : String → Option ℕ) (r : DiscoveryResponse)
    → normalize_discovery_response number (store_response r) ≡ r
unfolding normalize_discovery_response
response-stored number r = λ i. record r { items = products-stored number r.items i }

density-stored : (d : TableDensity) → density_of (some (density_text d)) ≡ d
density-stored comfortable = refl
density-stored compact = refl

pub prefs-stored :
    (prefs : DiscoveryUiPrefs)
    → normalize_ui_prefs (some (store_prefs prefs))
      ≡ record prefs { visible_columns = or_default_columns prefs.visible_columns }
prefs-stored prefs = λ i. record prefs {
  density = density-stored prefs.density i;
  visible_columns = or_default_columns prefs.visible_columns;
}
