-- ===== src/Discovery/View.antt =====
-- `DiscoveryView` of frontend/src/features/discovery/components/DiscoveryView.tsx: the runs of a search
-- and what the page shows of them. The queries are seen through their states. `lower` is
-- `toLowerCase`.
pub mod Screen
pub mod Runs
pub mod Leaving
pub mod Reload
mod Tests
use affiliate_platform_api.Prelude.{
  Bool, Dict, List, Option, String, [], false, find, get_or, if◌then◌else◌, includes, is_some,
  length, ltb, map, none, nonempty, not, or_else, same_text, select, some, trim, true, without, ℕ,
  ◌+◌, ◌++◌, ◌&&◌, ◌=?◌, ◌==◌, ◌||◌, ◌∷◌,
}
use affiliate_platform_api.Selection.{is_empty, keep_valid}
use affiliate_platform_api.Queue.Listing.{contains_text}
use affiliate_platform_api.Discovery.Types.{
  DiscoveryMode, DiscoveryParams, DiscoveryProduct, DiscoveryResponse, DiscoveryRunStatus,
  DiscoverySessionSnapshot, category, deals, error, general, hot, idle, no_params, recommended,
  running, success, trending,
}
use affiliate_platform_api.Discovery.Normalize.{StoredPrefs, or_default_columns}
use affiliate_platform_api.Discovery.Session.{
  is_category, mark_error, mark_running, mark_success, reset_draft_filters, update_draft,
  update_ui_prefs,
}
use affiliate_platform_api.Discovery.Api.{
  File, ProductImageSearchKey, ProductImageSearchRequest, Source, image_search_fingerprint,
  remember_image_search_body, upload, url, validate_discovery_draft,
}

-- The state of the page; `bodies` is the map of images that the module keeps.
pub record Page : Type 0 where
  pub session : DiscoverySessionSnapshot
  pub hydrated : Bool
  pub run_token : ℕ
  pub action_message : Option String
  pub action_error : Option String
  pub batch_busy : Bool
  pub inspector_id : Option String
  pub image_search_input : Option ProductImageSearchKey
  pub bodies : Dict String
  pub selected_ids : List String

-- A query as the page sees it; `message` is that of its error.
pub record Query : Type 0 where
  pub is_fetching : Bool
  pub is_success : Bool
  pub is_error : Bool
  pub found : Option DiscoveryResponse
  pub message : String

abbrev pub image_search_active : Page → Bool
image_search_active p = is_some p.image_search_input

abbrev pub should_fetch : Page → Bool
should_fetch p =
    not (image_search_active p) && ltb 0 p.run_token && is_some p.session.committed_params

abbrev pub found_or :
    String
    → DiscoveryParams
    → String
    → Bool
    → Option DiscoveryResponse
    → Bool
    → DiscoverySessionSnapshot
    → DiscoverySessionSnapshot
found_or now params message true (some response) failed s = mark_success now params response s
found_or now params message true none true s = mark_error now message s
found_or now params message true none false s = s
found_or now params message false found true s = mark_error now message s
found_or now params message false found false s = s

-- The end of a run is noted.
abbrev pub settled :
    String → Option DiscoveryParams → Query → DiscoverySessionSnapshot → DiscoverySessionSnapshot
settled now none query s = s
settled now (some params) query s =
    found_or now params query.message query.is_success query.found query.is_error s

abbrev pub on_discovery : String → Query → Page → Page
on_discovery now discovery p =
    if image_search_active p
    then p
    else if not discovery.is_fetching && ltb 0 p.run_token
    then record p { session = settled now p.session.committed_params discovery p.session }
    else p

abbrev pub committed_mode : Option DiscoveryParams → Option DiscoveryMode
committed_mode none = none
committed_mode (some params) = params.mode

-- The parameters that stand for a search by image.
abbrev pub image_params :
    Option ProductImageSearchKey → DiscoverySessionSnapshot → Option DiscoveryParams
image_params none s = none
image_params (some input) s = some (record no_params {
  mode = some (get_or (or_else (committed_mode s.committed_params) s.draft_params.mode) hot);
  page = some input.page;
  page_size = some 20;
})

abbrev pub on_image_search : String → Query → Page → Page
on_image_search now image_search p = if image_search.is_fetching then p else record p {
  session = settled now (image_params p.image_search_input p.session) image_search p.session;
}

abbrev pub items_of : Option DiscoveryResponse → List DiscoveryProduct
items_of none = []
items_of (some response) = response.items

abbrev pub or_found :
    Bool → Option DiscoveryResponse → List DiscoveryProduct → List DiscoveryProduct
or_found true (some response) others = response.items
or_found true none others = others
or_found false found others = others

-- The products that the page shows.
abbrev pub items : Query → Query → Page → List DiscoveryProduct
items discovery image_search p =
    if image_search_active p
    then items_of image_search.found
    else or_found discovery.is_success discovery.found (items_of p.session.last_response)

abbrev pub shown_response : Query → Query → Page → Option DiscoveryResponse
shown_response discovery image_search p =
    or_else (if image_search_active p then image_search.found else discovery.found)
      p.session.last_response

abbrev pub filtered_items :
    (String → String) → String → List DiscoveryProduct → List DiscoveryProduct
filtered_items lower result_search products =
    let q : String = lower (trim result_search) in
    if q == "" then products else select (λ item. contains_text (lower item.title) q) products

abbrev pub pending_review : List String → List DiscoveryProduct → ℕ
pending_review imported_ids products =
    length (select (λ item. not (includes imported_ids item.aliexpress_product_id)) products)

-- The workspace's default mode, until the first run.
abbrev pub same_mode : Option DiscoveryMode → DiscoveryMode → Bool
same_mode (some general) general = true
same_mode (some hot) hot = true
same_mode (some deals) deals = true
same_mode (some trending) trending = true
same_mode (some category) category = true
same_mode (some recommended) recommended = true
same_mode _ _ = false

abbrev pub on_settings : Option DiscoveryMode → Page → Page
on_settings none p = p
on_settings (some default_mode) p =
    if not p.hydrated || is_some p.session.committed_params || is_some p.session.last_response
    then p
    else if same_mode p.session.draft_params.mode default_mode
    then p
    else record p {
      session = update_draft (λ params. record params { mode = some default_mode }) p.session;
    }

abbrev pub next_params : DiscoveryParams → DiscoveryParams
next_params params = record params {
  page = some (get_or params.page 1);
  page_size = some (get_or params.page_size 20);
}

abbrev pub run_checked : Option String → DiscoveryParams → Page → Page
run_checked (some message) params p = record p { action_error = some message }
run_checked none params p = record p {
  action_error = none;
  action_message = none;
  image_search_input = none;
  session = mark_running (next_params params) p.session;
  run_token = p.run_token + 1;
  selected_ids = [];
}

unfoldable pub run_discovery : DiscoveryParams → Page → Page
unfolding validate_discovery_draft mark_running
run_discovery params p = run_checked (validate_discovery_draft params) params p

abbrev pub same_source : Source → Source → Bool
same_source url url = true
same_source upload upload = true
same_source _ _ = false

abbrev pub same_key : ProductImageSearchKey → ProductImageSearchKey → Bool
same_key a b =
    same_source a.source b.source
    && same_text a.image_url b.image_url
    && same_text a.fingerprint b.fingerprint
    && a.page =? b.page

abbrev pub keep_same :
    Option ProductImageSearchKey → ProductImageSearchKey → Option ProductImageSearchKey
keep_same none next = some next
keep_same (some prev) next = if same_key prev next then some prev else some next

abbrev pub run_key : ProductImageSearchKey → Page → Page
run_key next p = record p {
  image_search_input = keep_same p.image_search_input next;
  session =
      mark_running
        (record no_params {
          mode = some (get_or p.session.draft_params.mode hot);
          page = some next.page;
          page_size = some 20;
        })
        p.session;
  selected_ids = [];
}

abbrev pub search_image :
    (ℕ → String) → Option String → Option String → Option File → ℕ → Page → Page
search_image decimal (some address) body file page p =
    run_key (record { source = url; image_url = some address; fingerprint = none; page = page }) p
search_image decimal none (some body) (some file) page p =
    let fingerprint : String = image_search_fingerprint decimal file in
    run_key
      (record { source = upload; image_url = none; fingerprint = some fingerprint; page = page })
      (record p { bodies = remember_image_search_body fingerprint body p.bodies })
search_image decimal none (some body) none page p = record p {
  action_error = some "Enter the address of an image or attach a file.";
}
search_image decimal none none file page p = record p {
  action_error = some "Enter the address of an image or attach a file.";
}

unfoldable pub run_image_search :
    (ℕ → String) → ProductImageSearchRequest → Option File → Page → Page
unfolding mark_running
run_image_search decimal payload file p =
    search_image decimal (nonempty payload.image_url) (nonempty payload.image_base64) file
      (get_or payload.page 1)
      (record p { action_error = none; action_message = none; inspector_id = none })
