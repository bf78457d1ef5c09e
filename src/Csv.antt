-- ===== src/Csv.antt =====
-- The exports of products: frontend/src/features/products/lib/export.ts and
-- frontend/src/features/discovery/lib/export.ts, up to the text of the file. `String` on a number is a
-- parameter.
pub mod Reader
pub mod Fields
pub mod RoundTrip
mod Tests
use Prim.Native.Char.{Char, code}
use Prim.Native.String.{String, ◌++◌}
use affiliate_platform_api.Prelude.{
  Bool, List, Option, [], false, get_or, if◌then◌else◌, map, none, some, true, ℕ, ◌=?◌, ◌||◌, ◌∷◌,
  join,
}
use affiliate_platform_api.Discovery.Types.{DiscoveryProduct}
use affiliate_platform_api.Products.{Product}

-- `/[",\n]/`
abbrev pub is_special : ℕ → Bool
is_special c = c =? b'"' || c =? b',' || c =? 10

abbrev pub has_special : String → Bool
has_special String.[] = false
has_special (String.◌∷◌ c s) = is_special (code c) || has_special s

-- `replaceAll('"', '""')`
unfoldable pub double_quotes : String → String
double_quotes String.[] = String.[]
double_quotes (String.◌∷◌ c s) =
    let rest = double_quotes s in
    if code c =? b'"' then String.◌∷◌ c (String.◌∷◌ c rest) else String.◌∷◌ c rest

abbrev pub quote : Char
quote = "\""

-- `escapeCsv` and `csvEscape`, on what `String` makes of a value.
unfoldable pub escape_text : String → String
unfolding double_quotes
escape_text text =
    if has_special text
    then String.◌∷◌ quote (double_quotes text ++ String.◌∷◌ quote String.[])
    else text

abbrev pub escape_csv : Option String → String
escape_csv value = escape_text (get_or value "")

-- The text of the file: a row for the headers, then one for each product.
abbrev pub row_text : List String → String
row_text fields = join "," (map escape_text fields)

unfoldable pub csv_text : List (List String) → String
unfolding escape_text
csv_text rows = join "\n" (map row_text rows)

-- The headers are written as they are.
abbrev pub with_headers : List String → List (List String) → String
with_headers headers rows = join "\n" (join "," headers ∷ map row_text rows)

abbrev pub discovery_headers : List String
discovery_headers =
    "aliexpress_product_id" ∷ "title" ∷ "price" ∷ "currency" ∷ "discount" ∷ "rating" ∷ "sales"
    ∷ "reviews" ∷ "commission_rate" ∷ "score" ∷ "store_name" ∷ "category" ∷ "product_url"
    ∷ "affiliate_url" ∷ []

-- `currency`, `store_name` and `category` of a product, which nothing else reads.
pub record Described : Type 0 where
  pub currency : String
  pub store_name : Option String
  pub category : Option String

module _ (text_of : ℕ → String) (described : DiscoveryProduct → Described) where
  abbrev pub number_or_empty : Option ℕ → String
  number_or_empty none = ""
  number_or_empty (some n) = text_of n

  abbrev pub fields_of : DiscoveryProduct → List String
  fields_of p =
      p.aliexpress_product_id
      ∷ p.title
      ∷ text_of p.price
      ∷ (described p).currency
      ∷ text_of p.discount
      ∷ text_of p.rating
      ∷ text_of p.sales
      ∷ text_of p.reviews
      ∷ number_or_empty p.commission_rate
      ∷ text_of p.score
      ∷ get_or (described p).store_name ""
      ∷ get_or (described p).category ""
      ∷ p.product_url
      ∷ get_or p.affiliate_url ""
      ∷ []

  unfoldable pub export_discovery_products_csv : List DiscoveryProduct → String
  unfolding escape_text
  export_discovery_products_csv products = with_headers discovery_headers (map fields_of products)

abbrev pub product_headers : List String
product_headers =
    "id" ∷ "aliexpress_product_id" ∷ "title" ∷ "category" ∷ "store" ∷ "price" ∷ "currency"
    ∷ "rating" ∷ "sales" ∷ "score" ∷ "status" ∷ "product_url" ∷ []

-- `currency`, `status` and `product_url` of a product of the inventory.
pub record Listed : Type 0 where
  pub currency : String
  pub status : String
  pub product_url : Option String

module _ (text_of : ℕ → String) (listed : Product → Listed) where
  abbrev pub product_fields : Product → List String
  product_fields p =
      p.id
      ∷ get_or p.aliexpress_product_id ""
      ∷ p.title
      ∷ get_or p.category ""
      ∷ get_or p.store_name ""
      ∷ text_of p.price
      ∷ (listed p).currency
      ∷ text_of p.rating
      ∷ text_of p.sales
      ∷ text_of p.score
      ∷ (listed p).status
      ∷ get_or (listed p).product_url ""
      ∷ []

  unfoldable pub export_products_csv : List Product → String
  unfolding escape_text
  export_products_csv products = with_headers product_headers (map product_fields products)
