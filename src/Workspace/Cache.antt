-- ===== src/Workspace/Cache.antt =====
-- The query cache across changes of the active workspace: `WorkspaceQuerySync` with the queries
-- that components load in between, and the settings that a request of the form writes to the cache
-- when it is answered (frontend/src/features/settings/hooks/useWorkspaceSettings.ts).
use affiliate_platform_api.Prelude.{
  includes, All, List, Option, String, [], false, if◌then◌else◌, is_some, none, not, same_text,
  some, true, ◌&&◌, ◌++◌, ◌≡◌, ◌∷◌,
}
use affiliate_platform_api.Workspace.{
  QueryKey, QuerySync, is_workspace_scoped_query_key, text, workspace_query_sync,
  workspace_scoped_query_key,
}

-- What happens to the cache: the active workspace changes and the effect runs, a component loads
-- a query of the active workspace, or one that no workspace owns, or the settings of a workspace, which
-- was active when they were sent, are saved.
pub data CacheEvent : Type 0 where
  switch : Option String → CacheEvent
  load_scoped : String → QueryKey → CacheEvent
  load_global : String → QueryKey → CacheEvent
  settings_saved : String → CacheEvent

-- Without a workspace a query stands under "none", disabled.
abbrev pub scoped_key : Option String → String → QueryKey → QueryKey
scoped_key none root rest = text root ∷ text "none" ∷ rest
scoped_key (some w) root rest = workspace_scoped_query_key root w rest

abbrev pub global_key : String → QueryKey → List QueryKey
global_key root rest =
    if is_workspace_scoped_query_key (text root ∷ rest) then [] else (text root ∷ rest) ∷ []

abbrev pub settings_key : String → QueryKey
settings_key w = workspace_scoped_query_key "workspace-settings" w []

unfoldable pub on_cache_event : CacheEvent → QuerySync → QuerySync
unfolding workspace_query_sync
on_cache_event (switch w) s = workspace_query_sync w s
on_cache_event (load_scoped root rest) s = record s {
  cache = s.cache ++ scoped_key s.previous root rest ∷ [];
}
on_cache_event (load_global root rest) s = record s { cache = s.cache ++ global_key root rest }
on_cache_event (settings_saved w) s = record s { cache = s.cache ++ settings_key w ∷ [] }

unfoldable pub run_cache : List CacheEvent → QuerySync → QuerySync
run_cache [] s = s
run_cache (e ∷ es) s = run_cache es (on_cache_event e s)

-- The workspaces whose settings were saved since one workspace was last left for another, or for none.
abbrev pub saved_after : CacheEvent → QuerySync → List String → List String
saved_after (switch w) s ws = if is_some s.previous && not (same_text s.previous w) then [] else ws
saved_after (load_scoped root rest) s ws = ws
saved_after (load_global root rest) s ws = ws
saved_after (settings_saved w) s ws = w ∷ ws

abbrev pub saved_since : List CacheEvent → QuerySync → List String → List String
saved_since [] s ws = ws
saved_since (e ∷ es) s ws = saved_since es (on_cache_event e s) (saved_after e s ws)

-- A key of a workspace names the active one, or none, or is that of settings saved since.
pub data Own (active : Option String) (saved : List String) (k : QueryKey) : Type 0 where
  global : is_workspace_scoped_query_key k ≡ false → Own active saved k
  owned :
      (w root : String) (rest : QueryKey)
      → active ≡ some w
      → k ≡ text root ∷ text w ∷ rest
      → Own active saved k
  disabled :
      (root : String) (rest : QueryKey) → k ≡ text root ∷ text "none" ∷ rest → Own active saved k
  late : (w : String) → includes saved w ≡ true → k ≡ settings_key w → Own active saved k

abbrev pub AllOwn : List String → QuerySync → Type 0
AllOwn saved s = All (Own s.previous saved) s.cache
