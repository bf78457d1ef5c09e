-- ===== src/ApiClient/Headers.antt =====
-- The request interceptor: which requests leave, and with which headers.
use Prim.Native.String
use affiliate_platform_api.Prelude.{
  Option, String, arith, false, get, get-delete, get-put, none, nonempty, some, true, ◌≡◌,
  Bool-cases, inl, inr, ◌⊎◌, subst, ◌∙◌, Option-cases, refl,
}
use affiliate_platform_api.Session.{Session, get_access_token, get_active_workspace_id}
use affiliate_platform_api.Workspace.{
  active_workspace_id, is_uuid, is_workspace_scoped_path, normalize_workspace_id, workspace_header,
}
use affiliate_platform_api.Workspace.Active.{normalize_workspace_id-is_uuid}
use affiliate_platform_api.ApiClient.{
  Intercepted, Request, apply_workspace_header, missing_workspace_error, on_request, refused, sent,
  with_authorization,
}

module _ (url_pathname : Option String → String → Option String) (env : Option String) where
  -- What a request may leave with: the active workspace, a UUID, if its path belongs to a workspace,
  -- and no workspace otherwise; it is refused only where a workspace is wanted and none is active.
  abbrev pub HasRightWorkspace : Session → Request → Intercepted → Type 0
  HasRightWorkspace s config (refused e) =
      (is_workspace_scoped_path url_pathname config.url ≡ true)
      × (active_workspace_id env s ≡ none)
      × (e ≡ missing_workspace_error)
  HasRightWorkspace s config (sent r) =
      ((is_workspace_scoped_path url_pathname config.url ≡ false)
        × (get workspace_header r.headers ≡ none))
      ⊎ ((w : String) × (is_workspace_scoped_path url_pathname config.url ≡ true)
          × (active_workspace_id env s ≡ some w)
          × (is_uuid w ≡ true)
          × (get workspace_header r.headers ≡ some w))

  active-is_uuid :
      (s : Session) (w : String) → active_workspace_id env s ≡ some w → is_uuid w ≡ true
  unfolding active_workspace_id
  active-is_uuid s w h = elim (Option-cases (normalize_workspace_id (get_active_workspace_id s))) [
    | inl missing ↦ (normalize_workspace_id-is_uuid env {w = w} (ground arith)).0
    | inr (v, found) ↦
        (normalize_workspace_id-is_uuid (get_active_workspace_id s) {w = w} (ground arith)).0
  ]

  apply-HasRightWorkspace :
      (s : Session) (config : Request)
      → HasRightWorkspace s config (apply_workspace_header url_pathname env s config)
  unfolding apply_workspace_header
  apply-HasRightWorkspace s config =
      elim (Bool-cases (is_workspace_scoped_path url_pathname config.url)) [
        | inl scoped ↦ elim (Option-cases (active_workspace_id env s)) [
          | inl missing ↦ rw (scoped, missing) (scoped, missing, refl)
          | inr (w, found) ↦
              rw (scoped, found)
                (inr (
                  w,
                  scoped,
                  found,
                  active-is_uuid s w found,
                  rw (get-put workspace_header workspace_header w config.headers) refl,
                ))
        ]
        | inr free ↦
            rw free
              (inl (free, rw (get-delete workspace_header workspace_header config.headers) refl))
      ]

  -- Every request of the client, whatever its headers were: one whose path belongs to a workspace
  -- leaves with the active workspace, a UUID, in its header, or is refused with the error for a
  -- missing workspace when none is active; any other request leaves with no workspace header.
  pub on_request-HasRightWorkspace :
      (s : Session) (config : Request)
      → HasRightWorkspace s config (on_request url_pathname env s config)
  unfolding on_request
  on_request-HasRightWorkspace s config = by_token (nonempty (get_access_token s))
    where
      by_token :
          (token : Option String)
          → HasRightWorkspace s config
              (apply_workspace_header url_pathname env s (with_authorization token config))
      by_token none = apply-HasRightWorkspace s config
      by_token (some t) = apply-HasRightWorkspace s (with_authorization (some t) config)

  apply-authorization :
      (s : Session) (config r : Request)
      → apply_workspace_header url_pathname env s config ≡ sent r
      → (get "Authorization" r.headers ≡ get "Authorization" config.headers)
        × (r.url ≡ config.url)
        × (r.auth_retried ≡ config.auth_retried)
        × (r.skip_auth_refresh ≡ config.skip_auth_refresh)
  unfolding apply_workspace_header
  apply-authorization s config r h = elim (Option-cases (active_workspace_id env s)) [
    | inl missing ↦ ground (arith, get-delete workspace_header "Authorization" config.headers)
    | inr (w, found) ↦ ground (
      arith,
      get-delete workspace_header "Authorization" config.headers,
      get-put workspace_header "Authorization" w config.headers,
    )
  ]

  -- A request that leaves while an access token is stored carries it as its bearer token; its
  -- address and its two flags are those that the caller gave.
  pub on_request-authorization :
      (s : Session) (config r : Request) (token : String)
      → nonempty (get_access_token s) ≡ some token
      → on_request url_pathname env s config ≡ sent r
      → (get "Authorization" r.headers ≡ some (String.◌++◌ "Bearer " token))
        × (r.url ≡ config.url)
        × (r.auth_retried ≡ config.auth_retried)
        × (r.skip_auth_refresh ≡ config.skip_auth_refresh)
  unfolding on_request
  on_request-authorization s config r token t h =
      let with_token = with_authorization (some token) config in
      let left =
        subst
          (λ o. apply_workspace_header url_pathname env s (with_authorization o config) ≡ sent r) t
          h in
      let (same, u, a, k) = apply-authorization s with_token r left in
      (
        same ∙ get-put "Authorization" "Authorization" (String.◌++◌ "Bearer " token) config.headers,
        u,
        a,
        k,
      )
