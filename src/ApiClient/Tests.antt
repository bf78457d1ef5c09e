-- ===== src/ApiClient/Tests.antt =====
-- Three requests that fail together, and the theorems of the client at them.
use affiliate_platform_api.Prelude.{
  get_elem?, All, List, Option, String, [], false, map, none, refl, some, true, ◌≡◌, ◌∷◌, ◌+◌,
}
use affiliate_platform_api.Session.{
  Session, access_token_key, get_access_token, get_refresh_token, refresh_token_key, set_tokens,
  clear,
}
use affiliate_platform_api.Workspace.{request_pathname, is_workspace_scoped_path}
use affiliate_platform_api.ApiClient.{
  resend, Client, Request, Response, absent, axios, normalize_axios_error, on_refresh_settled,
  on_request, on_response_error, sent, is_auth_session_request, is_auth_session_path, Waiter,
}
use affiliate_platform_api.ApiClient.Headers.{HasRightWorkspace, on_request-HasRightWorkspace}
use affiliate_platform_api.ApiClient.Answers.{Event, answers, failed, posts, settled}
use affiliate_platform_api.ApiClient.Refresh.{
  failures, flights, refreshes_answered, run, run-posts, run-quiescent, step,
}
use affiliate_platform_api.ApiClient.Resent.{IsFinal, run-IsFinal}
use affiliate_platform_api.ApiClient.Retries.{
  IsSignedOut, Marked, marked_originals, refresh_failed, refresh_succeeded, rejections, resends,
  run-Marked, waiter_rejection,
}

abbrev plain_pathname : Option String → String → Option String
plain_pathname base url = some url

abbrev signed_in : Session
signed_in = record {
  browser = true;
  https = false;
  storage = (access_token_key, "a1") ∷ (refresh_token_key, "r1") ∷ [];
  cookie = none;
  listeners = [];
  calls = [];
}

abbrev request_to : String → Request
request_to url = record {
  url = some url;
  skip_auth_refresh = false;
  auth_retried = false;
  headers = [];
}

abbrev unauthorized : Option Response
unauthorized = some (record { status = 401; detail = absent })

abbrev client : Client
client = record { session = signed_in; refreshing = false; waiting = [] }

-- Two requests fail together, the refresh succeeds, a third fails, and its refresh fails.
abbrev story : List Event
story =
    failed 1 (axios (some (request_to "/products")) unauthorized)
    ∷ failed 2 (axios (some (request_to "/categories")) unauthorized)
    ∷ settled (some ("a2", "r2"))
    ∷ failed 3 (axios (some (request_to "/products")) unauthorized)
    ∷ settled none
    ∷ []

story_quiet : (run plain_pathname story client).0.refreshing ≡ false
unfolding run step on_response_error normalize_axios_error is_auth_session_request
    is_auth_session_path request_pathname get_refresh_token on_refresh_settled set_tokens clear
story_quiet = refl

run-quiescent_example :
    answers 2 (run plain_pathname story client).1 ≡ failures plain_pathname 2 story
run-quiescent_example = run-quiescent plain_pathname 2 story client refl story_quiet

posts_of_story : posts (run plain_pathname story client).1 ≡ 2
unfolding run step on_response_error normalize_axios_error is_auth_session_request
    is_auth_session_path request_pathname get_refresh_token on_refresh_settled set_tokens clear
posts_of_story = refl

run-posts_example :
    posts (run plain_pathname story client).1 + flights client
    ≡ flights (run plain_pathname story client).0 + refreshes_answered plain_pathname story client
run-posts_example = run-posts plain_pathname story client

run-Marked_example : All Marked (run plain_pathname story client).1
run-Marked_example = run-Marked plain_pathname story client

abbrev retried : Request
retried = record (request_to "/products") { auth_retried = true }

sent_again : get_elem? (run plain_pathname story client).1 1 ≡ some (resend 1 retried)
unfolding run step on_response_error normalize_axios_error is_auth_session_request
    is_auth_session_path request_pathname get_refresh_token on_refresh_settled set_tokens clear
sent_again = refl

run-IsFinal_example :
    IsFinal 1
      (normalize_axios_error unauthorized)
      client
      (on_response_error plain_pathname 1 (axios (some retried) unauthorized) client)
run-IsFinal_example =
    run-IsFinal plain_pathname story client 1 1 retried unauthorized client sent_again

on_request-HasRightWorkspace_example :
    HasRightWorkspace plain_pathname none signed_in
      (request_to "/queues")
      (on_request plain_pathname none signed_in (request_to "/queues"))
on_request-HasRightWorkspace_example =
    on_request-HasRightWorkspace plain_pathname none signed_in (request_to "/queues")

abbrev sent_request : Request
sent_request = record (request_to "/products") { headers = ("Authorization", "Bearer a1") ∷ [] }

products_sent :
    on_request plain_pathname none signed_in (request_to "/products") ≡ sent sent_request
unfolding on_request get_access_token is_workspace_scoped_path
products_sent = refl

abbrev waiter : Waiter
waiter = record {
  promise = 4;
  original = some (request_to "/products");
  error = normalize_axios_error unauthorized;
}

abbrev waiting_client : Client
waiting_client = record { session = signed_in; refreshing = true; waiting = waiter ∷ [] }

refresh_failed_example :
    (rejections (on_refresh_settled none waiting_client).1 ≡ map waiter_rejection (waiter ∷ []))
    × IsSignedOut (on_refresh_settled none waiting_client).0.session
refresh_failed_example = refresh_failed waiting_client (λ e. cc)

refresh_succeeded_example :
    (resends (on_refresh_settled (some ("a2", "r2")) waiting_client).1
      ≡ marked_originals (waiter ∷ []))
    × (get_access_token (on_refresh_settled (some ("a2", "r2")) waiting_client).0.session
        ≡ some "a2")
    × (get_refresh_token (on_refresh_settled (some ("a2", "r2")) waiting_client).0.session
        ≡ some "r2")
refresh_succeeded_example =
    refresh_succeeded "a2" "r2" waiting_client refl ((request_to "/products", refl), tt)
