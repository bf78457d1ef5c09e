-- ===== src/Discovery/View/Tests.antt =====
-- A page that searches by category, and the laws at it.
use affiliate_platform_api.Prelude.{
  Option, List, String, [], false, none, refl, some, true, ◌≡◌, ◌∷◌, ℕ,
}
use affiliate_platform_api.Discovery.Types.{
  orders_desc, DiscoveryResponse, DiscoveryParams, category, hot, no_params, recommended,
}
use affiliate_platform_api.Discovery.Session.{
  StoredSession, Codec, empty_session, load_discovery_session, save_discovery_session,
  store_session,
}
use affiliate_platform_api.Discovery.Api.{
  ProductImageSearchKey, ProductImageSearchRequest, can_run, discover_products, get_recommendations,
  throws, to_image_search_request, upload, validate_discovery_draft,
}
use affiliate_platform_api.Discovery.View.{
  next_params, Page, Query, on_discovery, on_image_search, run_discovery, run_image_search,
  should_fetch,
}
use affiliate_platform_api.Discovery.View.Screen.{
  initial, leave_image_search, no_images, on_page_change, screen, show_loading, switch_mode,
  toggle_column,
}
use affiliate_platform_api.Discovery.View.Runs.{EndOutcome, RunOutcome, run_discovery_lem, run_ends}
use affiliate_platform_api.Discovery.View.Leaving.{brings, leave_image_search_throws}
use affiliate_platform_api.Discovery.View.Reload.{
  Background, discovers, HoldsRunning, happen_all, reloaded_stuck, settings, start_page,
}

abbrev quiet : Query
quiet = record {
  is_fetching = false;
  is_success = false;
  is_error = true;
  found = none;
  message = "No network";
}

abbrev lamps : DiscoveryParams
lamps = record no_params { mode = some category; category_id = some "39" }

abbrev searching : Page
searching = record (start_page (record empty_session { draft_params = lamps })) { run_token = 1 }

abbrev by_address : ProductImageSearchRequest
by_address = record { image_url = some "https://i"; image_base64 = none; page = none }

abbrev decimal : ℕ → String
decimal n = "1"

abbrev known_image : ProductImageSearchKey
known_image = record { source = upload; image_url = none; fingerprint = some "upload:i"; page = 0 }

first_screen : screen quiet quiet [] (start_page empty_session) ≡ initial
first_screen = refl

unknown_image : can_run [] (some known_image) ≡ false
unknown_image = refl

image_page :
    to_image_search_request (("upload:i", "abc") ∷ []) known_image
    ≡ record { image_url = none; image_base64 = some "abc"; page = some 1 }
unfolding to_image_search_request
image_page = refl

no_paging : on_page_change 2 (start_page empty_session) ≡ start_page empty_session
unfolding on_page_change
no_paging = refl

fixed_column : toggle_column "product" searching ≡ searching
unfolding toggle_column
fixed_column = refl

ten_best :
    discover_products (switch_mode recommended searching).session.draft_params
    ≡ get_recommendations (record no_params { top_n = some 10 })
unfolding discover_products
ten_best = refl

run_discovery_lem_example :
    RunOutcome (validate_discovery_draft lamps) lamps searching (run_discovery lamps searching)
run_discovery_lem_example = run_discovery_lem lamps searching

lamps_valid : validate_discovery_draft lamps ≡ none
unfolding validate_discovery_draft
lamps_valid = refl

run_ends_example :
    (let p' : Page = on_discovery "12:00" quiet (run_discovery lamps searching) in
      EndOutcome none quiet p' × (show_loading quiet quiet p' ≡ false))
run_ends_example = run_ends "12:00" lamps quiet quiet searching lamps_valid refl refl refl

abbrev nothing_found : DiscoveryResponse
nothing_found = record {
  items = [];
  total = 0;
  skip = 0;
  limit = 20;
  page = 1;
  total_pages = 0;
  mode = category;
  order = orders_desc;
  persisted_count = 0;
}

leave_image_search_throws_example :
    (let shown : Page =
        on_image_search "12:00"
          (brings nothing_found)
          (run_image_search decimal by_address none searching) in
      let p' : Page = leave_image_search shown in
      (screen quiet (brings nothing_found) [] shown ≡ no_images)
      × (should_fetch p' ≡ true)
      × ((params : DiscoveryParams) × (p'.session.committed_params ≡ some params)
          × (discover_products params ≡ throws "category_id is required for category discovery")))
leave_image_search_throws_example =
    leave_image_search_throws decimal "12:00" by_address none searching quiet nothing_found refl
      refl refl refl

abbrev events : List Background
events = settings (some hot) ∷ discovers "12:00" quiet ∷ []

abbrev plain : Codec StoredSession
plain = record { is_blank = λ t. false; stringify = store_session; parse = λ t. some t }

abbrev no_digits : String → Option ℕ
no_digits s = none

reloaded_stuck_example : HoldsRunning (next_params lamps) (
    happen_all events (
      start_page (
        load_discovery_session plain no_digits true
          (save_discovery_session plain true (run_discovery lamps searching).session none))))
reloaded_stuck_example =
    reloaded_stuck plain no_digits none lamps searching events lamps_valid
      (record { reads = refl; writes = refl }) refl
