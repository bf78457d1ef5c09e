-- ===== src/Discovery/Selecting.antt =====
-- `useDiscoverySelection` of frontend/src/features/discovery/hooks/useDiscovery.ts: the selection of
-- results, which tells by their number whether all are selected.
pub mod Laws
mod Tests
use affiliate_platform_api.Prelude.{
  All, Bool, Bool-cases, List, NoRepeat, String, [], arith, eq_iff, every, every-includes, false,
  if◌then◌else◌, includes, includes-without, inl, inr, length, ltb, map, not, NoRepeat-without,
  refl, select, suc, true, without, ℕ, ◌+◌, ◌&&◌, ◌=?◌, ◌==◌, ◌↔◌, ◌≡◌, ◌≤◌, ◌∷◌, ◌∙◌, ap, ◌||◌,
  sym, subst,
}
use affiliate_platform_api.Selection.{toggle, keep_valid}
use affiliate_platform_api.Discovery.Types.{DiscoveryProduct}

abbrev pub product_ids : List DiscoveryProduct → List String
product_ids items = map (λ item. item.aliexpress_product_id) items

abbrev pub selected_products : List DiscoveryProduct → List String → List DiscoveryProduct
selected_products items selected =
    select (λ item. includes selected item.aliexpress_product_id) items

unfoldable pub all_results_selected : List DiscoveryProduct → List String → Bool
all_results_selected items selected = ltb 0 (length items) && length selected =? length items

unfoldable pub toggle_all_results : List DiscoveryProduct → List String → List String
toggle_all_results items selected =
    if length selected =? length items then [] else product_ids items

-- The list of results has changed: `on_results`; a row is toggled: `toggle_result`.
unfoldable pub on_results : List DiscoveryProduct → List String → List String
unfolding keep_valid
on_results items selected = keep_valid (product_ids items) selected

unfoldable pub toggle_result : String → List String → List String
unfolding toggle
toggle_result id selected = toggle id selected
