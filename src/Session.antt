-- ===== src/Session.antt =====
-- frontend/src/services/session.ts: the tokens and the active workspace of a browser tab.
-- `window` and `document` are there or missing together (`browser`). `sessionStorage` is a map, the
-- cookie that the middleware reads is `cookie`, and `calls` logs the listeners in the order in which
-- they were called.
pub mod Laws
mod Tests
use affiliate_platform_api.Prelude.{
  Bool, Dict, List, Option, String, [], delete, false, get, if◌then◌else◌, none, put, some, true,
  unique, without, ◌++◌, ◌∷◌,
}

abbrev pub access_token_key : String
access_token_key = "affiliate_access_token"

abbrev pub refresh_token_key : String
refresh_token_key = "affiliate_refresh_token"

abbrev pub active_workspace_key : String
active_workspace_key = "affiliate_active_workspace_id"

pub record Cookie : Type 0 where
  pub value : String
  pub secure : Bool

pub record Session : Type 0 where
  pub browser : Bool
  pub https : Bool
  pub storage : Dict String
  pub cookie : Option Cookie
  pub listeners : List String
  pub calls : List String

-- `workspaceListeners.forEach((listener) => listener())`
unfoldable pub notify_workspace_listeners : Session → Session
notify_workspace_listeners s = record s { calls = s.calls ++ s.listeners }

get_item : String → Session → Option String
get_item key s = if s.browser then get key s.storage else none

unfoldable pub get_access_token : Session → Option String
unfolding get_item
get_access_token s = get_item access_token_key s

unfoldable pub get_refresh_token : Session → Option String
unfolding get_item
get_refresh_token s = get_item refresh_token_key s

unfoldable pub get_active_workspace_id : Session → Option String
unfolding get_item
get_active_workspace_id s = get_item active_workspace_key s

-- With no `window` the write throws: `none`.
unfoldable pub set_access_token : String → Session → Option Session
set_access_token token s =
    if s.browser
    then some (record s {
      storage = put access_token_key token s.storage;
      cookie = some (record { value = "1"; secure = s.https });
    })
    else none

unfoldable pub set_refresh_token : String → Session → Option Session
set_refresh_token token s =
    if s.browser then some (record s { storage = put refresh_token_key token s.storage }) else none

infixl 5 ◌>>=◌
abbrev ◌>>=◌ : Option Session → (Session → Option Session) → Option Session
none >>= k = none
some s >>= k = k s

unfoldable pub set_tokens : String → String → Session → Option Session
unfolding set_access_token set_refresh_token
set_tokens access_token refresh_token s = do
  s' ← set_access_token access_token s
  set_refresh_token refresh_token s'

unfoldable pub set_active_workspace_id : String → Session → Session
unfolding notify_workspace_listeners
set_active_workspace_id workspace_id s =
    if s.browser
    then notify_workspace_listeners
        (record s { storage = put active_workspace_key workspace_id s.storage })
    else s

unfoldable pub clear_active_workspace_id : Session → Session
unfolding notify_workspace_listeners
clear_active_workspace_id s =
    notify_workspace_listeners
      (if s.browser then record s { storage = delete active_workspace_key s.storage } else s)

-- A set of listeners: one that is there already keeps its place.
unfoldable pub subscribe_workspace : String → Session → Session
subscribe_workspace listener s = record s { listeners = unique (s.listeners ++ listener ∷ []) }

-- The function that `subscribeWorkspace` returns.
unfoldable pub unsubscribe_workspace : String → Session → Session
unsubscribe_workspace listener s = record s { listeners = without listener s.listeners }

unfoldable pub clear : Session → Session
unfolding notify_workspace_listeners
clear s = notify_workspace_listeners (
    if s.browser
    then record s {
      storage =
          delete active_workspace_key
            (delete refresh_token_key (delete access_token_key s.storage));
      cookie = none;
    }
    else s)
