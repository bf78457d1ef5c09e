-- ===== src/ApiClient/Resent.antt =====
-- What becomes of the requests that the response interceptor of frontend/src/services/api-client.ts
-- has sent again, when they fail in their turn.
use affiliate_platform_api.Prelude.{
  All, Bool-cases, List, Option, String, [], get_elem?, inl, inr, none, refl, some, suc, true, zero,
  ℕ, ◌++◌, ◌=?◌, ◌≡◌, ◌∷◌, sym, subst,
}
use affiliate_platform_api.Session.{clear}
use affiliate_platform_api.ApiClient.{
  ApiError, Client, Effect, Request, Response, axios, normalize_axios_error, on_response_error,
  redirect, reject, resend,
}
use affiliate_platform_api.ApiClient.Answers.{Event, posts}
use affiliate_platform_api.ApiClient.Refresh.{run}
use affiliate_platform_api.ApiClient.Retries.{
  Marked, rejections, resends, retried-is_final, run-Marked,
}

-- The caller is answered, by one rejection with this error; nothing is sent, and the callers that wait
-- and the refresh that is in flight stay.
pub record IsFinal (q : ℕ) (error : ApiError) (c : Client) (result : Client × List Effect)
    : Type 0 where
  pub rejected : rejections result.1 ≡ (q, error) ∷ []
  pub none_resent : resends result.1 ≡ []
  pub none_posted : posts result.1 ≡ 0
  pub waiting : result.0.waiting ≡ c.waiting
  pub refreshing : result.0.refreshing ≡ c.refreshing

rejected_now-IsFinal :
    (q : ℕ) (error : ApiError) (c : Client) → IsFinal q error c (c, reject q error ∷ [])
rejected_now-IsFinal q error c = record {
  rejected = refl;
  none_resent = refl;
  none_posted = refl;
  waiting = refl;
  refreshing = refl;
}

given_up-IsFinal :
    (q : ℕ) (error : ApiError) (c : Client)
    → IsFinal q error c
        (record c { session = clear c.session }, redirect c.session ++ reject q error ∷ [])
given_up-IsFinal q error c = elim (Bool-cases c.session.browser) [
  | inl there ↦ record {
    rejected = rw there refl;
    none_resent = rw there refl;
    none_posted = rw there refl;
    waiting = refl;
    refreshing = refl;
  }
  | inr missing ↦ record {
    rejected = rw missing refl;
    none_resent = rw missing refl;
    none_posted = rw missing refl;
    waiting = refl;
    refreshing = refl;
  }
]

auth_retried_at :
    (effects : List Effect) (i q : ℕ) (r : Request)
    → All Marked effects
    → get_elem? effects i ≡ some (resend q r)
    → r.auth_retried ≡ true
auth_retried_at [] i q r h e = cc
auth_retried_at (effect ∷ effects) zero q r (m, h) e = subst mark e m
  where
    mark : Option Effect → Type 0
    mark none = Unit
    mark (some found) = Marked found
auth_retried_at (effect ∷ effects) (suc i) q r (m, h) e = auth_retried_at effects i q r h e

module _ (url_pathname : Option String → String → Option String) where
  -- Over any events, take any request that the client has sent again. When it fails, whatever the
  -- answer and whatever the client is doing by then: its caller is answered at once, by exactly one
  -- rejection with the normalised error; no request is sent a third time, no refresh is posted, and
  -- nobody joins or leaves those that wait for one.
  pub run-IsFinal :
      (es : List Event) (c : Client) (i q : ℕ) (r : Request) (response : Option Response)
      (later : Client)
      → get_elem? (run url_pathname es c).1 i ≡ some (resend q r)
      → IsFinal q
          (normalize_axios_error response)
          later
          (on_response_error url_pathname q (axios (some r) response) later)
  run-IsFinal es c i q r response later sent =
      let marked : r.auth_retried ≡ true =
        auth_retried_at (run url_pathname es c).1 i q r (run-Marked url_pathname es c) sent in
      let error : ApiError = normalize_axios_error response in
      subst (IsFinal q error later) (sym (retried-is_final url_pathname q r response later marked))
        (elim (Bool-cases (error.status =? 401)) [
          | inl is_401 ↦ rw is_401 (given_up-IsFinal q error later)
          | inr differs ↦ rw differs (rejected_now-IsFinal q error later)
        ])
