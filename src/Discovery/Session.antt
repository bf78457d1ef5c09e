-- ===== src/Discovery/Session.antt =====
-- `useDiscoverySession` of frontend/src/features/discovery/hooks/useDiscovery.ts and
-- frontend/src/features/discovery/lib/session.ts: the session of a search and its copy in the storage
-- of the tab. JSON and the clock are parameters. A patch of the draft is the function that spreads it.
pub mod Laws
mod Tests
use affiliate_platform_api.Prelude.{
  Bool, List, Option, String, [], false, get_or, if◌then◌else◌, is_some, none, nonempty, or_else,
  some, true, unique, ℕ, ◌++◌, ◌∷◌,
}
use affiliate_platform_api.Discovery.Types.{
  DiscoveryMode, DiscoveryParams, DiscoveryResponse, DiscoveryRunStatus, DiscoverySessionSnapshot,
  category, error, hot, idle, no_params, orders_desc, running, success,
}
use affiliate_platform_api.Discovery.Normalize.{
  DiscoveryResponseRaw, StoredPrefs, default_ui_prefs, normalize_discovery_response,
  normalize_ui_prefs, store_prefs, store_response,
}

abbrev pub empty_session : DiscoverySessionSnapshot
empty_session = record {
  draft_params = record no_params {
    mode = some hot;
    order = some orders_desc;
    page = some 1;
    page_size = some 20;
  };
  committed_params = none;
  last_response = none;
  last_run_at = none;
  last_run_status = idle;
  last_error = none;
  imported_ids = [];
  ui_prefs = default_ui_prefs;
}

-- The session as it is read back: what is missing takes its value from the empty session.
pub record StoredSession : Type 0 where
  pub draft_params : Option DiscoveryParams
  pub committed_params : Option DiscoveryParams
  pub last_response : Option DiscoveryResponseRaw
  pub last_run_at : Option String
  pub last_run_status : Option DiscoveryRunStatus
  pub last_error : Option String
  pub imported_ids : Option (List String)
  pub ui_prefs : Option StoredPrefs

abbrev pub response_of :
    (String → Option ℕ) → Option DiscoveryResponseRaw → Option DiscoveryResponse
response_of number none = none
response_of number (some raw) = some (normalize_discovery_response number raw)

abbrev pub session_of : (String → Option ℕ) → StoredSession → DiscoverySessionSnapshot
session_of number parsed = record {
  draft_params = get_or parsed.draft_params empty_session.draft_params;
  committed_params = parsed.committed_params;
  last_response = response_of number parsed.last_response;
  last_run_at = parsed.last_run_at;
  last_run_status = get_or parsed.last_run_status idle;
  last_error = parsed.last_error;
  imported_ids = get_or parsed.imported_ids [];
  ui_prefs = normalize_ui_prefs parsed.ui_prefs;
}

-- What `JSON.stringify` writes of a session.
abbrev pub stored_response : Option DiscoveryResponse → Option DiscoveryResponseRaw
stored_response none = none
stored_response (some response) = some (store_response response)

abbrev pub store_session : DiscoverySessionSnapshot → StoredSession
store_session s = record {
  draft_params = some s.draft_params;
  committed_params = s.committed_params;
  last_response = stored_response s.last_response;
  last_run_at = s.last_run_at;
  last_run_status = some s.last_run_status;
  last_error = s.last_error;
  imported_ids = some s.imported_ids;
  ui_prefs = some (store_prefs s.ui_prefs);
}

abbrev pub parsed_session : (String → Option ℕ) → Option StoredSession → DiscoverySessionSnapshot
parsed_session number none = empty_session
parsed_session number (some parsed) = session_of number parsed

-- The storage holds texts, of which nothing is used but the test for the empty one and JSON: any
-- type `Text` will do. `parse` is `none` where `JSON.parse` or the reading of the result throws.
pub record Codec (Text : Type 0) : Type 0 where
  pub is_blank : Text → Bool
  pub stringify : DiscoverySessionSnapshot → Text
  pub parse : Text → Option StoredSession

module _ {Text : Type 0} (json : Codec Text) where
  abbrev pub load_item : (String → Option ℕ) → Option Text → DiscoverySessionSnapshot
  load_item number none = empty_session
  load_item number (some raw) =
      if json.is_blank raw then empty_session else parsed_session number (json.parse raw)

  -- `has_window` is false on the server.
  unfoldable pub load_discovery_session :
      (String → Option ℕ) → Bool → Option Text → DiscoverySessionSnapshot
  unfolding normalize_discovery_response
  load_discovery_session number has_window item =
      if has_window then load_item number item else empty_session

  unfoldable pub save_discovery_session :
      Bool → DiscoverySessionSnapshot → Option Text → Option Text
  save_discovery_session has_window s item = if has_window then some (json.stringify s) else item

  abbrev pub clear_discovery_session : Bool → Option Text → Option Text
  clear_discovery_session has_window item = if has_window then none else item

abbrev pub update_draft :
    (DiscoveryParams → DiscoveryParams) → DiscoverySessionSnapshot → DiscoverySessionSnapshot
update_draft patch s = record s { draft_params = patch s.draft_params }

-- `{ ...prefs, ...patch }`
abbrev pub spread_prefs : StoredPrefs → StoredPrefs → StoredPrefs
spread_prefs patch prefs = record {
  density = or_else patch.density prefs.density;
  visible_columns = or_else patch.visible_columns prefs.visible_columns;
  result_search = or_else patch.result_search prefs.result_search;
}

unfoldable pub update_ui_prefs : StoredPrefs → DiscoverySessionSnapshot → DiscoverySessionSnapshot
update_ui_prefs patch s = record s {
  ui_prefs = normalize_ui_prefs (
      some (spread_prefs patch (store_prefs (normalize_ui_prefs (some (store_prefs s.ui_prefs))))));
}

abbrev pub is_category : Option DiscoveryMode → Bool
is_category (some category) = true
is_category _ = false

unfoldable pub reset_draft_filters : DiscoverySessionSnapshot → DiscoverySessionSnapshot
reset_draft_filters s = record s {
  draft_params = record no_params {
    mode = some (get_or s.draft_params.mode hot);
    order = some orders_desc;
    page = some 1;
    page_size = some (get_or s.draft_params.page_size 20);
    category_id = if is_category s.draft_params.mode then s.draft_params.category_id else none;
  };
}

unfoldable pub mark_running : DiscoveryParams → DiscoverySessionSnapshot → DiscoverySessionSnapshot
mark_running params s = record s {
  committed_params = some params;
  draft_params = params;
  last_run_status = running;
  last_error = none;
}

unfoldable pub mark_success :
    String
    → DiscoveryParams
    → DiscoveryResponse
    → DiscoverySessionSnapshot
    → DiscoverySessionSnapshot
mark_success now params response s = record s {
  committed_params = some params;
  draft_params = params;
  last_response = some response;
  last_run_at = some now;
  last_run_status = success;
  last_error = none;
}

unfoldable pub mark_error : String → String → DiscoverySessionSnapshot → DiscoverySessionSnapshot
mark_error now message s = record s {
  last_run_status = error;
  last_error = some message;
  last_run_at = some now;
}

unfoldable pub track_imported : List String → DiscoverySessionSnapshot → DiscoverySessionSnapshot
track_imported ids s = record s { imported_ids = unique (s.imported_ids ++ ids) }
