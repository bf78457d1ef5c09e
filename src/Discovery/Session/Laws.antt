-- ===== src/Discovery/Session/Laws.antt =====
-- The session of a search: its copy in the storage of the tab, and what it shows of the last run.
use affiliate_platform_api.Prelude.{
  List, NoRepeat, Option, String, [], false, none, refl, some, subst, sym, true, unique-NoRepeat, ℕ,
  ◌++◌, ◌≡◌, ◌∷◌, ◌∙◌, ap,
}
use affiliate_platform_api.Selection.{is_empty}
use affiliate_platform_api.Discovery.Types.{
  DiscoveryParams, DiscoveryResponse, DiscoveryRunStatus, DiscoverySessionSnapshot, error, idle,
  running, success,
}
use affiliate_platform_api.Discovery.Normalize.{
  StoredPrefs, or_default_columns, prefs-stored, response-stored,
}
use affiliate_platform_api.Discovery.Session.{
  Codec, empty_session, load_discovery_session, mark_error, mark_running, mark_success,
  reset_draft_filters, response_of, save_discovery_session, session_of, store_session,
  stored_response, track_imported, update_draft, update_ui_prefs,
}

columns_kept :
    (columns : List String) → is_empty columns ≡ false → or_default_columns columns ≡ columns
columns_kept [] h = cc
columns_kept (column ∷ columns) h = refl

response_kept :
    (number : String → Option ℕ) (o : Option DiscoveryResponse)
    → response_of number (stored_response o) ≡ o
response_kept number none = refl
response_kept number (some r) = ap (λ x. some x) (response-stored number r)

session_kept :
    (number : String → Option ℕ) (s : DiscoverySessionSnapshot)
    → is_empty s.ui_prefs.visible_columns ≡ false
    → session_of number (store_session s) ≡ s
session_kept number s h =
    let prefs =
      prefs-stored s.ui_prefs
      ∙ ap (λ columns. record s.ui_prefs { visible_columns = columns })
          (columns_kept s.ui_prefs.visible_columns h) in
    λ i. record s { last_response = response_kept number s.last_response i; ui_prefs = prefs i }

-- The codec reads back what it has written of a session.
pub record IsFaithful {Text : Type 0} (json : Codec Text) (s : DiscoverySessionSnapshot)
    : Type 0 where
  pub reads : json.parse (json.stringify s) ≡ some (store_session s)
  pub writes : json.is_blank (json.stringify s) ≡ false

-- In a browser, with a JSON codec that reads back what it has written of the session: a session with
-- at least one visible column is the same after it was saved in the tab and loaded again, its
-- parameters, its results, its status and its imported ids included.
pub load-save_discovery_session :
    {Text : Type 0} (json : Codec Text) (number : String → Option ℕ) (s : DiscoverySessionSnapshot)
    (item : Option Text)
    → IsFaithful json s
    → is_empty s.ui_prefs.visible_columns ≡ false
    → load_discovery_session json number true (save_discovery_session json true s item) ≡ s
unfolding load_discovery_session save_discovery_session
load-save_discovery_session json number s item faithful columns =
    rw faithful.writes (rw faithful.reads (session_kept number s columns))

-- The last run, as its user knows it: none, one that has begun, one that has brought results, one that
-- has failed.
pub data LastRun : Type 0 where
  never : LastRun
  begun : DiscoveryParams → LastRun
  done : DiscoveryParams → DiscoveryResponse → LastRun
  refused : String → LastRun

-- What the session holds of its last run.
abbrev pub Shows :
    LastRun
    → DiscoveryRunStatus
    → Option DiscoveryParams
    → Option DiscoveryResponse
    → Option String
    → Type 0
Shows never status committed response message =
    (status ≡ idle) × (committed ≡ none) × (response ≡ none) × (message ≡ none)
Shows (begun params) status committed response message =
    (status ≡ running) × (committed ≡ some params) × (message ≡ none)
Shows (done params found) status committed response message =
    (status ≡ success) × (committed ≡ some params) × (response ≡ some found) × (message ≡ none)
Shows (refused text) status committed response message = (status ≡ error) × (message ≡ some text)

pub record IsSound (run : LastRun) (s : DiscoverySessionSnapshot) : Type 0 where
  pub shows : Shows run s.last_run_status s.committed_params s.last_response s.last_error
  pub imported_once : NoRepeat s.imported_ids
  pub columns_shown : is_empty s.ui_prefs.visible_columns ≡ false

-- What the page does with the session; a reload saves it and loads it again.
pub data Operation : Type 0 where
  drafts : (DiscoveryParams → DiscoveryParams) → Operation
  prefers : StoredPrefs → Operation
  resets : Operation
  runs : DiscoveryParams → Operation
  succeeds : String → DiscoveryParams → DiscoveryResponse → Operation
  errs : String → String → Operation
  imports : List String → Operation
  reloads : Operation

abbrev pub last_run : Operation → LastRun → LastRun
last_run (runs params) run = begun params
last_run (succeeds now params response) run = done params response
last_run (errs now message) run = refused message
last_run (drafts patch) run = run
last_run (prefers patch) run = run
last_run resets run = run
last_run (imports ids) run = run
last_run reloads run = run

abbrev pub last_run_of : List Operation → LastRun → LastRun
last_run_of [] run = run
last_run_of (o ∷ os) run = last_run_of os (last_run o run)

module _ {Text : Type 0} (json : Codec Text) (number : String → Option ℕ) where
  abbrev pub operate : Operation → DiscoverySessionSnapshot → DiscoverySessionSnapshot
  operate (drafts patch) s = update_draft patch s
  operate (prefers patch) s = update_ui_prefs patch s
  operate resets s = reset_draft_filters s
  operate (runs params) s = mark_running params s
  operate (succeeds now params response) s = mark_success now params response s
  operate (errs now message) s = mark_error now message s
  operate (imports ids) s = track_imported ids s
  operate reloads s =
      load_discovery_session json number true (save_discovery_session json true s none)

  abbrev pub operate_all : List Operation → DiscoverySessionSnapshot → DiscoverySessionSnapshot
  operate_all [] s = s
  operate_all (o ∷ os) s = operate_all os (operate o s)

  never_empty : (columns : List String) → is_empty (or_default_columns columns) ≡ false
  never_empty [] = refl
  never_empty (column ∷ columns) = refl

  operate-IsSound :
      (o : Operation) (run : LastRun) (s : DiscoverySessionSnapshot)
      → ((t : DiscoverySessionSnapshot) → IsFaithful json t)
      → IsSound run s
      → IsSound (last_run o run) (operate o s)
  unfolding update_ui_prefs reset_draft_filters mark_running mark_success mark_error track_imported
  operate-IsSound (drafts patch) run s faithful h = record {
    shows = h.shows;
    imported_once = h.imported_once;
    columns_shown = h.columns_shown;
  }
  operate-IsSound (prefers patch) run s faithful h = record {
    shows = h.shows;
    imported_once = h.imported_once;
    columns_shown = never_empty (_);
  }
  operate-IsSound resets run s faithful h = record {
    shows = h.shows;
    imported_once = h.imported_once;
    columns_shown = h.columns_shown;
  }
  operate-IsSound (runs params) run s faithful h = record {
    shows = (refl, refl, refl);
    imported_once = h.imported_once;
    columns_shown = h.columns_shown;
  }
  operate-IsSound (succeeds now params response) run s faithful h = record {
    shows = (refl, refl, refl, refl);
    imported_once = h.imported_once;
    columns_shown = h.columns_shown;
  }
  operate-IsSound (errs now message) run s faithful h = record {
    shows = (refl, refl);
    imported_once = h.imported_once;
    columns_shown = h.columns_shown;
  }
  operate-IsSound (imports ids) run s faithful h = record {
    shows = h.shows;
    imported_once = unique-NoRepeat (s.imported_ids ++ ids);
    columns_shown = h.columns_shown;
  }
  operate-IsSound reloads run s faithful h =
      subst (IsSound run)
        (sym (load-save_discovery_session json number s none (faithful s) h.columns_shown)) h

  -- Whatever the page does with the session and however often the tab is reloaded, with a JSON codec
  -- that reads back what it has written, the session agrees with its last run: before the first run it
  -- is idle and holds no parameters, results or message; when the last run has begun it is running and
  -- holds exactly the parameters of that run and no message; when the run has brought results it holds
  -- its parameters, these results and no message; when it has failed it holds its message. No product
  -- is noted twice as imported, and at least one column is visible.
  pub operate_all-IsSound :
      (os : List Operation) (run : LastRun) (s : DiscoverySessionSnapshot)
      → ((t : DiscoverySessionSnapshot) → IsFaithful json t)
      → IsSound run s
      → IsSound (last_run_of os run) (operate_all os s)
  operate_all-IsSound [] run s faithful h = h
  operate_all-IsSound (o ∷ os) run s faithful h =
      operate_all-IsSound os (last_run o run) (operate o s) faithful
        (operate-IsSound o run s faithful h)

pub empty_session-IsSound : IsSound never empty_session
empty_session-IsSound = record {
  shows = (refl, refl, refl, refl);
  imported_once = tt;
  columns_shown = refl;
}
