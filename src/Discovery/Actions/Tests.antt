-- ===== src/Discovery/Actions/Tests.antt =====
-- Two products, with servers that refuse the second, or none.
use affiliate_platform_api.Prelude.{
  List, String, [], append, flat_map, if◌then◌else◌, inr, none, refl, some, true, ◌==◌, ◌≡◌, ◌∷◌,
}
use affiliate_platform_api.Queue.Publishing.{Thrown}
use affiliate_platform_api.Discovery.Types.{DiscoveryProduct}
use affiliate_platform_api.Discovery.Session.{empty_session}
use affiliate_platform_api.Discovery.Selecting.{product_ids}
use affiliate_platform_api.Discovery.View.{Page}
use affiliate_platform_api.Discovery.View.Reload.{start_page}
use affiliate_platform_api.Discovery.Actions.{
  Effect, Runtime, Server, content_of, creates, draft_effects, draft_of, exports, generate_effects,
  generate_refusal, handle_add_to_queue, handle_export, handle_generate_ai, handle_import_one,
  handle_import_selected, imports_batch,
}
use affiliate_platform_api.Discovery.Actions.Laws.{
  ImportOutcome, LoopOutcome, add_again_duplicates, handle_generate_ai_lem,
  handle_import_selected_lem,
}

abbrev browser : Runtime
browser = record { slice_500 = λ s. s; locale = λ n. "n"; encode_uri_component = λ s. s }

abbrev down : Thrown
down = record { message = none; status = none }

abbrev picky : Server
picky = record {
  import_product = λ id. none;
  import_products_batch = λ ids. inr (record { imported = 1; updated = 0; failed = 1 });
  create_queue_item = λ post. if post.title == "b" then some down else none;
  generate_content = λ input. inr "text";
}

abbrev willing : Server
willing = record picky { create_queue_item = λ post. none }

abbrev found : String → DiscoveryProduct
found title = record {
  id = none;
  aliexpress_product_id = append "id-" title;
  title = title;
  description = some "";
  price = 1;
  original_price = none;
  discount = 0;
  rating = 0;
  sales = 0;
  reviews = 0;
  image_url = "";
  product_url = "https://p";
  affiliate_url = some "https://a";
  commission_rate = none;
  score = 0;
}

abbrev page : Page
page = record (start_page empty_session) { selected_ids = "id-a" ∷ "id-b" ∷ [] }

one-import :
    (handle_import_one browser picky true (found "a") page).0.session.imported_ids ≡ "id-a" ∷ []
unfolding handle_import_one
one-import = refl

export-run : (handle_export browser [] (found "a" ∷ []) page).1 ≡ exports (found "a" ∷ []) ∷ []
unfolding handle_export
export-run = refl

handle_import_selected_lem_example :
    (let ids : List String = product_ids (found "a" ∷ found "b" ∷ []) in
      ((handle_import_selected browser picky true (found "a" ∷ found "b" ∷ []) page).1
        ≡ imports_batch ids ∷ [])
      × ImportOutcome ids
          (picky.import_products_batch ids)
          page
          (handle_import_selected browser picky true (found "a" ∷ found "b" ∷ []) page).0)
handle_import_selected_lem_example =
    handle_import_selected_lem browser picky (found "a") (found "b" ∷ []) page

handle_generate_ai_lem_example :
    LoopOutcome browser picky
      (generate_refusal browser picky)
      (generate_effects browser picky)
      (found "a" ∷ found "b" ∷ [])
      page
      (handle_generate_ai browser picky (found "a" ∷ found "b" ∷ []) page)
handle_generate_ai_lem_example =
    handle_generate_ai_lem browser picky (found "a") (found "b") [] page

add_again_duplicates_example :
    (let (p', before) = handle_add_to_queue browser picky (found "a" ∷ found "b" ∷ []) page in
      let (p'', after) = handle_add_to_queue browser willing (found "a" ∷ found "b" ∷ []) p' in
      let twice : Effect =
        creates (draft_of browser (found "a") (content_of browser (found "a"))) in
      (p'.selected_ids ≡ page.selected_ids)
      × ((others : List Effect) × (before ≡ twice ∷ others))
      × (after ≡ twice ∷ flat_map (draft_effects browser willing) (found "b" ∷ [])))
add_again_duplicates_example =
    add_again_duplicates browser picky willing (found "a") (found "b" ∷ []) page refl refl
      (λ q. refl)
