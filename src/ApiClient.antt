-- ===== src/ApiClient.antt =====
-- frontend/src/services/api-client.ts: the two interceptors of the HTTP client.
-- The request interceptor sets the headers of a request or refuses it. The response interceptor
-- answers a failed request: it rejects the caller's promise, or waits for one shared refresh of the
-- access token and sends the request again. A caller's promise is known by a number; what the
-- interceptors do to the outside is a list of effects; the answer to a posted refresh is an event.
-- The Arabic texts that the source shows to its users stand here in English.
pub mod Headers
pub mod Answers
pub mod Refresh
pub mod Retries
pub mod Resent
mod Tests
use Prim.Native.String
use affiliate_platform_api.Prelude.{
  Bool, Dict, List, Option, String, [], delete, false, if◌then◌else◌, is_some, none, nonempty, put,
  same_text, some, some?, true, truthy, ℕ, not, ◌&&◌, ◌++◌, ◌=?◌, ◌==◌, ◌||◌, ◌∷◌, or_else,
}
use affiliate_platform_api.Session.{Session, clear, get_access_token, get_refresh_token, set_tokens}
use affiliate_platform_api.Workspace.{
  active_workspace_id, is_workspace_scoped_path, request_pathname, workspace_header,
}

-- A part of the location of an invalid field.
pub data LocPart : Type 0 where
  name : String → LocPart
  index : ℕ → LocPart

pub record FieldError : Type 0 where
  pub loc : List LocPart
  pub msg : String

pub record ApiError : Type 0 where
  pub status : ℕ
  pub message : String
  pub code : Option String
  pub validation : Option (List FieldError)

abbrev pub missing_workspace_error : ApiError
missing_workspace_error = record {
  status = 0;
  message = "No workspace is selected.";
  code = some "missing_workspace";
  validation = none;
}

unfoldable pub is_missing_workspace_error : ApiError → Bool
is_missing_workspace_error e = same_text e.code (some "missing_workspace")

-- `detail` in the body of an error response: a text, a list of invalid fields, or anything else.
pub data Detail : Type 0 where
  plain : String → Detail
  fields : List FieldError → Detail
  absent : Detail

pub record Response : Type 0 where
  pub status : ℕ
  pub detail : Detail

-- A request, with the two flags of `AuthRequestConfig`.
pub record Request : Type 0 where
  pub url : Option String
  pub skip_auth_refresh : Bool
  pub auth_retried : Bool
  pub headers : Dict String

-- What an interceptor is handed: an error of axios, with its request and its response if there are
-- any, or another value.
pub data Failure : Type 0 where
  axios : Option Request → Option Response → Failure
  other : Failure

abbrev pub status_of : Option Response → ℕ
status_of none = 0
status_of (some r) = r.status

abbrev pub detail_of : Option Response → Detail
detail_of none = absent
detail_of (some r) = r.detail

abbrev pub default_message : ℕ → String
default_message status =
    if status =? 0 then "The server cannot be reached." else "The request cannot be completed."

unfoldable pub normalize_axios_error : Option Response → ApiError
normalize_axios_error response = elim (detail_of response) [
  | plain s ↦ record { status = status_of response; message = s; code = none; validation = none }
  | fields fs ↦ record {
    status = status_of response;
    message = default_message (status_of response);
    code = none;
    validation = some fs;
  }
  | absent ↦ record {
    status = status_of response;
    message = default_message (status_of response);
    code = none;
    validation = none;
  }
]

abbrev pub ends_with : String → String → Bool
ends_with t String.[] = t == ""
ends_with t (String.◌∷◌ c s) = t == String.◌∷◌ c s || ends_with t s

-- `AUTH_SESSION_PATH`
unfoldable pub is_auth_session_path : String → Bool
is_auth_session_path path =
    some? (λ end. ends_with end path)
      ("/auth/login" ∷ "/auth/refresh" ∷ "/auth/logout" ∷ "/auth/login/" ∷ "/auth/refresh/"
        ∷ "/auth/logout/" ∷ [])

-- The result of the request interceptor.
pub data Intercepted : Type 0 where
  refused : ApiError → Intercepted
  sent : Request → Intercepted

abbrev pub with_authorization : Option String → Request → Request
with_authorization none config = config
with_authorization (some token) config = record config {
  headers = put "Authorization" (String.◌++◌ "Bearer " token) config.headers;
}

abbrev pub without_workspace : Request → Request
without_workspace config = record config { headers = delete workspace_header config.headers }

-- A caller that waits for the refresh: its promise, its request and the error to reject with.
pub record Waiter : Type 0 where
  pub promise : ℕ
  pub original : Option Request
  pub error : ApiError

pub data Effect : Type 0 where
  reject : ℕ → ApiError → Effect
  reject_other : ℕ → Effect
  resend : ℕ → Request → Effect
  post_refresh : String → Effect
  redirect_to_login : Effect

-- `refreshing` is `inFlightRefresh !== null`.
pub record Client : Type 0 where
  pub session : Session
  pub refreshing : Bool
  pub waiting : List Waiter

module _ (url_pathname : Option String → String → Option String) where
  -- The sending of the workspace header, once it is known whether the path wants one.
  unfoldable pub apply_workspace_header : Option String → Session → Request → Intercepted
  apply_workspace_header env s config =
      if is_workspace_scoped_path url_pathname config.url
      then elim (active_workspace_id env s) [
        | none ↦ refused missing_workspace_error
        | some workspace_id ↦
            sent (record config { headers = put workspace_header workspace_id config.headers })
      ]
      else sent (without_workspace config)

  unfoldable pub on_request : Option String → Session → Request → Intercepted
  unfolding apply_workspace_header
  on_request env s config =
      apply_workspace_header env s (with_authorization (nonempty (get_access_token s)) config)

  unfoldable pub is_auth_session_request : Option Request → Bool
  is_auth_session_request none = false
  is_auth_session_request (some config) =
      config.skip_auth_refresh || is_auth_session_path (request_pathname url_pathname config.url)

abbrev pub is_retried : Option Request → Bool
is_retried none = false
is_retried (some config) = config.auth_retried

abbrev pub redirect : Session → List Effect
redirect s = if s.browser then redirect_to_login ∷ [] else []

-- `clearSessionAndRedirect(); return Promise.reject(normalized)`
unfoldable pub give_up : ℕ → ApiError → Client → Client × List Effect
give_up promise error c =
    (record c { session = clear c.session }, redirect c.session ++ reject promise error ∷ [])

-- `await refreshAccessToken()`: the caller joins those that wait; only the first posts a refresh.
unfoldable pub refresh_access_token : Waiter → String → Client → Client × List Effect
refresh_access_token w token c = (
  record c { refreshing = true; waiting = c.waiting ++ w ∷ [] },
  if c.refreshing then [] else post_refresh token ∷ [],
)

module _ (url_pathname : Option String → String → Option String) where
  unfoldable pub on_response_error : ℕ → Failure → Client → Client × List Effect
  unfolding give_up refresh_access_token
  on_response_error promise other c = (c, reject_other promise ∷ [])
  on_response_error promise (axios original response) c =
      let normalized = normalize_axios_error response in
      if not (normalized.status =? 401)
      then (c, reject promise normalized ∷ [])
      else if is_retried original
      then give_up promise normalized c
      else if is_auth_session_request url_pathname original
      then (c, reject promise normalized ∷ [])
      else elim (nonempty (get_refresh_token c.session)) [
        | none ↦ give_up promise normalized c
        | some token ↦
            refresh_access_token
              (record { promise = promise; original = original; error = normalized }) token c
      ]

-- How a waiting caller goes on when the refresh has succeeded.
unfoldable pub resume : Waiter → Client → Client × List Effect
unfolding give_up
resume w c = elim w.original [
  | none ↦ give_up w.promise w.error c
  | some original ↦ (c, resend w.promise (record original { auth_retried = true }) ∷ [])
]

-- How it goes on when the refresh has failed.
unfoldable pub fail : Waiter → Client → Client × List Effect
unfolding give_up
fail w c = give_up w.promise w.error c

-- The waiting callers go on one after the other, in the order in which they came.
unfoldable pub wake :
    (Waiter → Client → Client × List Effect) → List Waiter → Client → Client × List Effect
wake next [] c = (c, [])
wake next (w ∷ ws) c =
    let (c', done) = next w c in let (c'', rest) = wake next ws c' in (c'', done ++ rest)

-- The session once `performRefresh` has stored the answer to the posted refresh: `none` where the
-- post failed (no tokens) or storing them threw.
abbrev pub perform_refresh : Option (String × String) → Session → Option Session
perform_refresh none s = none
perform_refresh (some (access_token, refresh_token)) s = set_tokens access_token refresh_token s

-- The shared promise is settled. `inFlightRefresh` is null again before any caller goes on.
abbrev pub settle : Option Session → Client → Client × List Effect
settle none c = wake fail c.waiting (record c { refreshing = false; waiting = [] })
settle (some session) c =
    wake resume c.waiting (record { session = session; refreshing = false; waiting = [] })

unfoldable pub on_refresh_settled : Option (String × String) → Client → Client × List Effect
unfolding wake resume fail
on_refresh_settled tokens c = settle (perform_refresh tokens c.session) c
