-- ===== src/Discovery/View/Reload.antt =====
-- A page that is reloaded while a search runs.
use affiliate_platform_api.Prelude.{
  ℕ, subst, sym, List, Option, String, [], arith, false, is_some, none, refl, some, true, ◌≡◌, ◌∷◌,
  ◌∙◌, ap,
}
use affiliate_platform_api.Discovery.Types.{
  DiscoveryMode, DiscoveryParams, DiscoverySessionSnapshot, running,
}
use affiliate_platform_api.Discovery.Session.{
  Codec, load_discovery_session, mark_running, save_discovery_session,
}
use affiliate_platform_api.Discovery.Session.Laws.{IsFaithful, load-save_discovery_session}
use affiliate_platform_api.Discovery.Api.{validate_discovery_draft}
use affiliate_platform_api.Selection.{is_empty}
use affiliate_platform_api.Discovery.View.{
  Page, Query, on_discovery, on_image_search, on_settings, should_fetch, next_params, run_checked,
  run_discovery,
}

-- The page as it starts with the session that it has loaded.
abbrev pub start_page : DiscoverySessionSnapshot → Page
start_page s = record {
  session = s;
  hydrated = true;
  run_token = 0;
  action_message = none;
  action_error = none;
  batch_busy = false;
  inspector_id = none;
  image_search_input = none;
  bodies = [];
  selected_ids = [];
}

-- What happens on the page without its user: the effects run with new states of the queries, or with
-- the settings of the workspace.
pub data Background : Type 0 where
  discovers : String → Query → Background
  images : String → Query → Background
  settings : Option DiscoveryMode → Background

abbrev pub happen : Background → Page → Page
happen (discovers now query) p = on_discovery now query p
happen (images now query) p = on_image_search now query p
happen (settings mode) p = on_settings mode p

abbrev pub happen_all : List Background → Page → Page
happen_all [] p = p
happen_all (b ∷ bs) p = happen_all bs (happen b p)

stays :
    (b : Background) (s : DiscoverySessionSnapshot)
    → is_some s.committed_params ≡ true
    → happen b (start_page s) ≡ start_page s
stays (discovers now query) s h = ground (arith)
stays (images now query) s h = ground (arith)
stays (settings none) s h = refl
stays (settings (some mode)) s h = rw h refl

all_stay :
    (bs : List Background) (s : DiscoverySessionSnapshot)
    → is_some s.committed_params ≡ true
    → happen_all bs (start_page s) ≡ start_page s
all_stay [] s h = refl
all_stay (b ∷ bs) s h = ap (λ p. happen_all bs p) (stays b s h) ∙ all_stay bs s h

-- A page on which the search with these parameters counts as running, but no query is enabled.
abbrev pub HoldsRunning : DiscoveryParams → Page → Type 0
HoldsRunning params p =
    (p.session.last_run_status ≡ running)
    × (p.session.committed_params ≡ some params)
    × (should_fetch p ≡ false)
    × (p.image_search_input ≡ none)

stuck-HoldsRunning :
    (bs : List Background) (params : DiscoveryParams) (s : DiscoverySessionSnapshot)
    → s.last_run_status ≡ running
    → s.committed_params ≡ some params
    → HoldsRunning params (happen_all bs (start_page s))
stuck-HoldsRunning bs params s status_running committed =
    subst (HoldsRunning params) (sym (all_stay bs s (ap (λ o. is_some o) committed)))
      (status_running, committed, refl, refl)

-- A user starts a search with a draft that is accepted, the session is saved in the tab, and the tab
-- is reloaded: the page loads the session and starts. Whatever the effects of the page see then, in
-- any order, the search counts as running, with its parameters, but no query is enabled, until the
-- user acts. The JSON codec reads back what it has written of the session, and a column is visible.
pub reloaded_stuck :
    {Text : Type 0} (json : Codec Text) (number : String → Option ℕ) (item : Option Text)
    (params : DiscoveryParams) (p : Page) (bs : List Background)
    → validate_discovery_draft params ≡ none
    → IsFaithful json (run_discovery params p).session
    → is_empty p.session.ui_prefs.visible_columns ≡ false
    → (let stored : Option Text =
          save_discovery_session json true (run_discovery params p).session item in
        HoldsRunning
          (next_params params)
          (happen_all bs (start_page (load_discovery_session json number true stored))))
unfolding run_discovery mark_running
reloaded_stuck json number item params p bs valid faithful columns =
    let Q = λ (v : Option String).
      IsFaithful json (run_checked v params p).session
      → HoldsRunning (next_params params) (
          happen_all bs (
            start_page (
              load_discovery_session json number true
                (save_discovery_session json true (run_checked v params p).session item)))) in
    let begun : DiscoverySessionSnapshot = (run_checked none params p).session in
    let go : Q none = λ h.
      subst (λ s. HoldsRunning (next_params params) (happen_all bs (start_page s)))
        (sym (load-save_discovery_session json number begun item h columns))
        (stuck-HoldsRunning bs (next_params params) begun refl refl) in
    subst Q (sym valid) go faithful
