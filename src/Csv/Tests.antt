-- ===== src/Csv/Tests.antt =====
-- A lamp whose title has a comma, a quote and a line break.
use affiliate_platform_api.Prelude.{String, [], map, none, refl, some, ◌≡◌, ◌∷◌, ℕ}
use affiliate_platform_api.Discovery.Types.{DiscoveryProduct}
use affiliate_platform_api.Products.{Product}
use affiliate_platform_api.Csv.{
  Described, Listed, discovery_headers, escape_csv, escape_text, export_discovery_products_csv,
  export_products_csv, fields_of, product_fields, product_headers,
}
use affiliate_platform_api.Csv.Reader.{read, read_csv}
use affiliate_platform_api.Csv.RoundTrip.{read-export}

abbrev lamp : DiscoveryProduct
lamp = record {
  id = none;
  aliexpress_product_id = "1005";
  title = "Lamp, 12\" \n";
  description = none;
  price = 1250;
  original_price = none;
  discount = 10;
  rating = 480;
  sales = 77;
  reviews = 3;
  image_url = "https://i";
  product_url = "https://p";
  affiliate_url = none;
  commission_rate = some 7;
  score = 90;
}

abbrev held : Product
held = record {
  id = "p1";
  aliexpress_product_id = none;
  title = "A \"lamp\"";
  price = 1;
  rating = 1;
  sales = 1;
  category = none;
  store_name = some "a,b";
  score = 1;
  created_at = "2026-01-01";
}

abbrev one : ℕ → String
one n = "1"

abbrev described : DiscoveryProduct → Described
described p = record { currency = "USD"; store_name = none; category = none }

abbrev listed : Product → Listed
listed p = record { currency = "USD"; status = "active"; product_url = none }

quoted_comma : read_csv "a,\"b,\"\"c\"\"\"\nd" ≡ ("a" ∷ "b,\"c\"" ∷ []) ∷ ("d" ∷ []) ∷ []
unfolding read_csv read
quoted_comma = refl

missing_value : escape_csv none ≡ ""
unfolding escape_text
missing_value = refl

read-export_example :
    (read_csv (export_discovery_products_csv one described (lamp ∷ []))
      ≡ discovery_headers ∷ map (fields_of one described) (lamp ∷ []))
    × (read_csv (export_products_csv one listed (held ∷ []))
        ≡ product_headers ∷ map (product_fields one listed) (held ∷ []))
read-export_example = read-export one described listed (lamp ∷ []) (held ∷ [])
