-- ===== src/Discovery/Selecting/Tests.antt =====
-- Two results, and the clicks on them.
use affiliate_platform_api.Prelude.{
  List, String, [], every, includes, length, ltb, none, refl, ◌&&◌, ◌≡◌, ◌∷◌,
}
use affiliate_platform_api.Discovery.Types.{DiscoveryProduct}
use affiliate_platform_api.Discovery.Selecting.{
  all_results_selected, on_results, product_ids, selected_products,
}
use affiliate_platform_api.Discovery.Selecting.Laws.{
  Click, IsSelection, all_results_selected_lem, all_rows, click_all, row,
}

abbrev result : String → DiscoveryProduct
result id = record {
  id = none;
  aliexpress_product_id = id;
  title = id;
  description = none;
  price = 1;
  original_price = none;
  discount = 0;
  rating = 0;
  sales = 0;
  reviews = 0;
  image_url = "";
  product_url = "";
  affiliate_url = none;
  commission_rate = none;
  score = 0;
}

abbrev results : List DiscoveryProduct
results = result "a" ∷ result "b" ∷ []

abbrev clicks : List Click
clicks = row 0 ∷ all_rows ∷ row 1 ∷ []

chosen : selected_products results ("b" ∷ "z" ∷ []) ≡ result "b" ∷ []
chosen = refl

all_results_selected_lem_example :
    (let selected : List String = click_all results clicks (on_results results ("z" ∷ [])) in
      IsSelection (product_ids results) selected
      × (all_results_selected results selected
          ≡ (ltb 0 (length results) && every (includes selected) (product_ids results))))
all_results_selected_lem_example =
    all_results_selected_lem results clicks ("z" ∷ []) (refl, (refl, tt)) (refl, tt)
