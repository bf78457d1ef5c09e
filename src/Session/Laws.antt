-- ===== src/Session/Laws.antt =====
-- What the operations on the session keep and what they change.
use affiliate_platform_api.Prelude.{
  Option, String, arith, get, get-delete, get-put, if◌then◌else◌, is_some, none, some, true, ◌≡◌,
  delete, put, ◌++◌, List, [], ◌∷◌,
}
use affiliate_platform_api.Session.{
  Session, access_token_key, active_workspace_key, clear, clear_active_workspace_id,
  get_access_token, get_active_workspace_id, get_refresh_token, refresh_token_key,
  set_active_workspace_id, set_tokens, subscribe_workspace, unsubscribe_workspace,
}

-- The session of a browser after `setTokens`.
abbrev pub with_tokens : String → String → Session → Session
with_tokens access refresh s = record s {
  storage = put refresh_token_key refresh (put access_token_key access s.storage);
  cookie = some (record { value = "1"; secure = s.https });
}

-- Storing a pair of tokens in a browser succeeds; both are read back, and the workspace, the
-- listeners and the log of calls stay.
pub set_tokens_lem :
    (access refresh : String) (s : Session)
    → s.browser ≡ true
    → (s' : Session) × (set_tokens access refresh s ≡ some s')
      × (get_access_token s' ≡ some access)
      × (get_refresh_token s' ≡ some refresh)
      × (get_active_workspace_id s' ≡ get_active_workspace_id s)
      × (s'.listeners ≡ s.listeners)
      × (s'.calls ≡ s.calls)
unfolding set_tokens get_access_token get_refresh_token get_active_workspace_id
set_tokens_lem access refresh s h = (
  with_tokens access refresh s,
  ground arith,
  ground (
    arith,
    get-put refresh_token_key access_token_key refresh (put access_token_key access s.storage),
    get-put access_token_key access_token_key access s.storage,
  ),
  ground (
    arith,
    get-put refresh_token_key refresh_token_key refresh (put access_token_key access s.storage),
  ),
  ground (
    arith,
    get-put refresh_token_key active_workspace_key refresh (put access_token_key access s.storage),
    get-put access_token_key active_workspace_key access s.storage,
  ),
  ground arith,
  ground arith,
)

-- Clearing the session forgets both tokens and the workspace, in a browser and without one; in a
-- browser the cookie goes too. Each listener is called once, in the order of subscription.
pub clear_lem :
    (s : Session)
    → (get_access_token (clear s) ≡ none)
      × (get_refresh_token (clear s) ≡ none)
      × (get_active_workspace_id (clear s) ≡ none)
      × ((clear s).cookie ≡ (if s.browser then none else s.cookie))
      × ((clear s).calls ≡ s.calls ++ s.listeners)
unfolding clear get_access_token get_refresh_token get_active_workspace_id
clear_lem s =
    let m = delete access_token_key s.storage in
    let n = delete refresh_token_key m in
    let at = λ (k : String). get-delete active_workspace_key k n in
    let rt = λ (k : String). get-delete refresh_token_key k m in
    (
      ground (
        arith,
        at access_token_key,
        rt access_token_key,
        get-delete access_token_key access_token_key s.storage,
      ),
      ground (arith, at refresh_token_key, rt refresh_token_key),
      ground (arith, at active_workspace_key),
      ground arith,
      ground arith,
    )

-- What the middleware sees agrees with what the client sees: the cookie is there exactly when an
-- access token is stored.
unfoldable pub CookieMatches : Session → Type 0
CookieMatches s = is_some s.cookie ≡ is_some (get access_token_key s.storage)

-- The operations on the session, with their arguments.
pub data Operation : Type 0 where
  store_tokens : String → String → Operation
  store_workspace : String → Operation
  forget_workspace : Operation
  subscribe : String → Operation
  unsubscribe : String → Operation
  forget_all : Operation

-- A write that throws leaves the session as it was.
abbrev or_same : Session → Option Session → Session
or_same s none = s
or_same s (some s') = s'

unfoldable pub apply : Operation → Session → Session
unfolding set_tokens set_active_workspace_id clear_active_workspace_id subscribe_workspace
    unsubscribe_workspace clear
apply (store_tokens access refresh) s = or_same s (set_tokens access refresh s)
apply (store_workspace workspace_id) s = set_active_workspace_id workspace_id s
apply forget_workspace s = clear_active_workspace_id s
apply (subscribe listener) s = subscribe_workspace listener s
apply (unsubscribe listener) s = unsubscribe_workspace listener s
apply forget_all s = clear s

unfoldable pub apply_all : List Operation → Session → Session
apply_all [] s = s
apply_all (op ∷ ops) s = apply_all ops (apply op s)

apply-CookieMatches : (op : Operation) (s : Session) → CookieMatches s → CookieMatches (apply op s)
unfolding CookieMatches apply
apply-CookieMatches (store_tokens access refresh) s h = ground (
  arith,
  get-put refresh_token_key access_token_key refresh (put access_token_key access s.storage),
  get-put access_token_key access_token_key access s.storage,
)
apply-CookieMatches (store_workspace w) s h =
    ground (arith, get-put active_workspace_key access_token_key w s.storage)
apply-CookieMatches forget_workspace s h =
    ground (arith, get-delete active_workspace_key access_token_key s.storage)
apply-CookieMatches (subscribe l) s h = h
apply-CookieMatches (unsubscribe l) s h = h
apply-CookieMatches forget_all s h =
    let m = delete access_token_key s.storage in
    ground (
      arith,
      get-delete active_workspace_key access_token_key (delete refresh_token_key m),
      get-delete refresh_token_key access_token_key m,
      get-delete access_token_key access_token_key s.storage,
    )

-- Whatever operations run, in any order, on a session whose cookie is there exactly when an access
-- token is stored: the cookie is still there exactly when an access token is stored.
pub apply_all-CookieMatches :
    (ops : List Operation) (s : Session) → CookieMatches s → CookieMatches (apply_all ops s)
unfolding apply_all
apply_all-CookieMatches [] s h = h
apply_all-CookieMatches (op ∷ ops) s h =
    apply_all-CookieMatches ops (apply op s) (apply-CookieMatches op s h)
