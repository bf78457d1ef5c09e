-- ===== src/Workspace/Tests.antt =====
-- Ids, paths and the query cache at concrete values, and the theorems at them.
use affiliate_platform_api.Prelude.{
  Option, String, [], false, none, refl, some, true, ◌≡◌, ◌∷◌, List,
}
use affiliate_platform_api.Session.{Session}
use affiliate_platform_api.Workspace.{
  workspace_scoped_query_key, QuerySync, normalize_workspace_id, text, workspace_query_sync,
  is_workspace_scoped_path,
}
use affiliate_platform_api.Workspace.Cache.{
  CacheEvent, load_global, load_scoped, on_cache_event, run_cache, settings_saved, switch,
}

abbrev id_a : String
id_a = "0b7e9c1a-1111-4222-8333-ABCDEF012345"

abbrev padded : String
padded = "  0b7e9c1a-1111-4222-8333-ABCDEF012345 "

normalize_padded : normalize_workspace_id (some padded) ≡ some id_a
unfolding normalize_workspace_id
normalize_padded = refl

normalize_word : normalize_workspace_id (some "Undefined") ≡ none
unfolding normalize_workspace_id
normalize_word = refl

abbrev tab : Session
tab = record {
  browser = true;
  https = false;
  storage = [];
  cookie = none;
  listeners = [];
  calls = [];
}

-- A browser for paths with no host: the address is its own path name.
abbrev plain_pathname : Option String → String → Option String
plain_pathname base url = some url

scoped_path : is_workspace_scoped_path plain_pathname (some "/api/v1/queues/42/") ≡ true
unfolding is_workspace_scoped_path
scoped_path = refl

global_path : is_workspace_scoped_path plain_pathname (some "/queues2") ≡ false
unfolding is_workspace_scoped_path
global_path = refl

abbrev no_queries : QuerySync
no_queries = record { previous = none; cache = [] }

abbrev moves : List CacheEvent
moves =
    load_scoped "queue" []
    ∷ switch (some "a")
    ∷ load_scoped "queue" []
    ∷ load_global "products" []
    ∷ switch (some "b")
    ∷ load_scoped "channels" []
    ∷ settings_saved "a"
    ∷ []

moves_lem :
    (run_cache moves no_queries).cache
    ≡ (text "products" ∷ [])
      ∷ (text "channels" ∷ text "b" ∷ [])
      ∷ (text "workspace-settings" ∷ text "a" ∷ [])
      ∷ []
unfolding run_cache on_cache_event workspace_query_sync workspace_scoped_query_key
moves_lem = refl
