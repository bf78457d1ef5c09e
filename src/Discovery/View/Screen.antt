-- ===== src/Discovery/View/Screen.antt =====
-- The rest of `DiscoveryView` in frontend/src/features/discovery/components/DiscoveryView.tsx: paging and
-- the filters of the page, and which screen it shows.
use affiliate_platform_api.Prelude.{
  Bool, List, Option, String, [], false, get_or, if◌then◌else◌, includes, is_some, ltb, none, not,
  some, true, without, ◌&&◌, ◌++◌, ◌==◌, ◌||◌, ◌∷◌, ℕ,
}
use affiliate_platform_api.Discovery.Types.{
  DiscoveryMode, DiscoveryParams, DiscoveryProduct, DiscoveryRunStatus, error, recommended, running,
}
use affiliate_platform_api.Discovery.Normalize.{StoredPrefs, or_default_columns}
use affiliate_platform_api.Discovery.Session.{reset_draft_filters, update_draft, update_ui_prefs}
use affiliate_platform_api.Discovery.Api.{ProductImageSearchKey, is_category_mode}
use affiliate_platform_api.Discovery.View.{
  Page, Query, image_search_active, items, run_discovery, should_fetch,
}

abbrev pub run_committed : Option DiscoveryParams → Page → Page
run_committed none p = p
run_committed (some committed) p = run_discovery committed p

abbrev pub with_page : ℕ → Option DiscoveryParams → Option DiscoveryParams
with_page page none = none
with_page page (some committed) = some (record committed { page = some page })

abbrev pub turn_page : ℕ → Option ProductImageSearchKey → Page → Page
turn_page page (some input) p = record p {
  image_search_input = some (record input { page = page });
}
turn_page page none p = run_committed (with_page page p.session.committed_params) p

unfoldable pub on_page_change : ℕ → Page → Page
unfolding run_discovery
on_page_change page p = turn_page page p.image_search_input p

-- `onReset` of the screen without images.
unfoldable pub leave_image_search : Page → Page
unfolding reset_draft_filters
leave_image_search p = record p {
  image_search_input = none;
  session = reset_draft_filters p.session;
}

abbrev pub only_columns : List String → StoredPrefs
only_columns columns = record {
  density = none;
  visible_columns = some columns;
  result_search = none;
}

-- The columns of the product and of the actions always stay.
unfoldable pub toggle_column : String → Page → Page
unfolding update_ui_prefs
toggle_column column p =
    if column == "product" || column == "actions"
    then p
    else let current : List String = p.session.ui_prefs.visible_columns in
      record p {
        session =
            update_ui_prefs
              (only_columns (
                or_default_columns (
                  if includes current column
                  then without column current
                  else current ++ column ∷ [])))
              p.session;
      }

abbrev pub is_recommended : DiscoveryMode → Bool
is_recommended recommended = true
is_recommended _ = false

abbrev pub switch_mode : DiscoveryMode → Page → Page
switch_mode mode p = record p {
  session =
      update_draft
        (λ draft. record draft {
          mode = some mode;
          category_id = if is_category_mode mode then draft.category_id else none;
          top_n = if is_recommended mode then some (get_or draft.top_n 10) else none;
          page = some 1;
        })
        p.session;
}

abbrev pub is_running : DiscoveryRunStatus → Bool
is_running running = true
is_running _ = false

abbrev pub has_failed : DiscoveryRunStatus → Bool
has_failed error = true
has_failed _ = false

abbrev pub none_found : List DiscoveryProduct → Bool
none_found [] = true
none_found (item ∷ rest) = false

module _ (discovery image_search : Query) where
  abbrev pub active_fetching : Page → Bool
  active_fetching p =
      if image_search_active p then image_search.is_fetching else discovery.is_fetching

  abbrev pub show_initial_empty : Page → Bool
  show_initial_empty p =
      p.hydrated
      && not (is_some p.session.last_response)
      && not (should_fetch p)
      && not (image_search_active p)
      && not (active_fetching p)

  abbrev pub show_loading : Page → Bool
  show_loading p = active_fetching p || is_running p.session.last_run_status

  abbrev pub show_error : Page → Bool
  show_error p =
      not (active_fetching p)
      && ((image_search_active p && image_search.is_error)
          || (not (image_search_active p) && ltb 0 p.run_token && discovery.is_error)
          || has_failed p.session.last_run_status)
      && none_found (items discovery image_search p)

  abbrev pub show_no_images : Page → Bool
  show_no_images p =
      image_search_active p
      && not (active_fetching p)
      && image_search.is_success
      && none_found (items discovery image_search p)

-- The screens, in the order in which the page looks for one.
pub data Screen : Type 0 where
  initial loading failure no_images no_results no_matches table : Screen

module _ (discovery image_search : Query) where
  abbrev pub screen : List DiscoveryProduct → Page → Screen
  screen filtered p =
      if show_initial_empty discovery image_search p
      then initial
      else if show_loading discovery image_search p && none_found (items discovery image_search p)
      then loading
      else if show_error discovery image_search p
      then failure
      else if show_no_images discovery image_search p
      then no_images
      else if none_found (items discovery image_search p)
      then no_results
      else if none_found filtered
      then no_matches
      else table
