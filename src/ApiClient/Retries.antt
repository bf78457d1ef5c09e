-- ===== src/ApiClient/Retries.antt =====
-- The response interceptor of frontend/src/services/api-client.ts: requests that are sent again, and
-- a refresh that fails.
use affiliate_platform_api.Prelude.{
  false, All, All-append, Bool-cases, List, Option, Option-cases, String, [], if◌then◌else◌, inl,
  inr, map, none, refl, some, true, ℕ, ◌++◌, ◌=?◌, ◌≡◌, ◌∷◌, ap, ◌∙◌, sym, subst, ◌≢◌, ◌⊎◌,
}
use affiliate_platform_api.Session.{Session, clear, get_access_token, get_refresh_token}
use affiliate_platform_api.Session.Laws.{set_tokens_lem, clear_lem}
use affiliate_platform_api.ApiClient.{
  ApiError, Client, Effect, Request, Response, Waiter, axios, fail, give_up, normalize_axios_error,
  on_refresh_settled, on_response_error, other, perform_refresh, redirect, refresh_access_token,
  reject, resend, resume, settle, wake,
}
use affiliate_platform_api.ApiClient.Answers.{Event, failed, settled}
use affiliate_platform_api.ApiClient.Refresh.{
  on_response_error-cases, run, step, step_settled-cases,
}

-- What is sent again carries the mark of a retried request.
abbrev pub Marked : Effect → Type 0
Marked (resend q r) = r.auth_retried ≡ true
Marked _ = Unit

redirect-Marked : (s : Session) → All Marked (redirect s)
redirect-Marked s = elim (Bool-cases s.browser) [ inl b ↦ rw b (tt, tt) | inr b ↦ rw b tt ]

give_up-Marked : (q : ℕ) (e : ApiError) (c : Client) → All Marked (give_up q e c).1
unfolding give_up
give_up-Marked q e c =
    All-append Marked (redirect c.session) (reject q e ∷ []) (redirect-Marked c.session) (tt, tt)

resume-Marked : (w : Waiter) (c : Client) → All Marked (resume w c).1
unfolding resume
resume-Marked w c = elim (Option-cases w.original) [
  | inl gone ↦ rw gone (give_up-Marked w.promise w.error c)
  | inr (r, there) ↦ rw there (refl, tt)
]

fail-Marked : (w : Waiter) (c : Client) → All Marked (fail w c).1
unfolding fail
fail-Marked w c = give_up-Marked w.promise w.error c

wake-Marked :
    (next : Waiter → Client → Client × List Effect)
    → ((w : Waiter) (c : Client) → All Marked (next w c).1)
    → (ws : List Waiter) (c : Client) → All Marked (wake next ws c).1
unfolding wake
wake-Marked next each [] c = tt
wake-Marked next each (w ∷ ws) c =
    All-append Marked (next w c).1 (wake next ws (next w c).0).1 (each w c)
      (wake-Marked next each ws (next w c).0)

settle-Marked : (stored : Option Session) (c : Client) → All Marked (settle stored c).1
settle-Marked none c = wake-Marked fail fail-Marked c.waiting _
settle-Marked (some s) c = wake-Marked resume resume-Marked c.waiting _

refresh-Marked :
    (w : Waiter) (token : String) (c : Client) → All Marked (refresh_access_token w token c).1
unfolding refresh_access_token
refresh-Marked w token c = elim (Bool-cases c.refreshing) [
  | inl b ↦ rw b tt
  | inr b ↦ rw b (tt, tt)
]

module _ (url_pathname : Option String → String → Option String) where
  step-Marked : (e : Event) (c : Client) → All Marked (step url_pathname e c).1
  step-Marked (failed q other) c = unfold step on_response_error in (tt, tt)
  step-Marked (failed q (axios original response)) c =
      unfold step in
      on_response_error-cases url_pathname (λ r. All Marked r.1) q original response c (tt, tt)
        (give_up-Marked q (normalize_axios_error response) c) (λ token. refresh-Marked _ token c)
  step-Marked (settled t) c =
      step_settled-cases url_pathname (λ r. All Marked r.1) t c
        (unfold on_refresh_settled in settle-Marked (perform_refresh t c.session) c) (λ idle. tt)

  -- Over any events, each request that is sent again is marked as retried.
  pub run-Marked : (es : List Event) (c : Client) → All Marked (run url_pathname es c).1
  unfolding run
  run-Marked [] c = tt
  run-Marked (e ∷ es) c =
      All-append Marked (step url_pathname e c).1 _ (step-Marked e c)
        (run-Marked es (step url_pathname e c).0)

  -- When a request that carries the mark fails, its caller is answered at once, by one rejection
  -- with the normalised error behind at most a redirection. Nothing is sent, nobody waits, and the
  -- session is cleared if the status is 401 and kept as it is otherwise.
  pub retried-is_final :
      (q : ℕ) (r : Request) (response : Option Response) (c : Client)
      → r.auth_retried ≡ true
      → let error = normalize_axios_error response in
        on_response_error url_pathname q (axios (some r) response) c ≡ (
          if error.status =? 401
          then (record c { session = clear c.session }, redirect c.session ++ reject q error ∷ [])
          else (c, reject q error ∷ []))
  unfolding on_response_error
  retried-is_final q r response c h =
      elim (Bool-cases ((normalize_axios_error response).status =? 401)) [
        | inl is_401 ↦ rw (is_401, h) refl
        | inr differs ↦ rw differs refl
      ]

-- The rejections among the effects, in order, each with its error.
abbrev pub rejections : List Effect → List (ℕ × ApiError)
rejections [] = []
rejections (reject q e ∷ es) = (q, e) ∷ rejections es
rejections (_ ∷ es) = rejections es

rejections-give_up :
    (q : ℕ) (e : ApiError) (c : Client) (es : List Effect)
    → rejections ((give_up q e c).1 ++ es) ≡ (q, e) ∷ rejections es
unfolding give_up
rejections-give_up q e c es = elim (Bool-cases c.session.browser) [
  | inl b ↦ rw b refl
  | inr b ↦ rw b refl
]

abbrev pub waiter_rejection : Waiter → ℕ × ApiError
waiter_rejection w = (w.promise, w.error)

rejections-wake-fail :
    (ws : List Waiter) (c : Client) → rejections (wake fail ws c).1 ≡ map waiter_rejection ws
unfolding wake fail
rejections-wake-fail [] c = refl
rejections-wake-fail (w ∷ ws) c =
    rejections-give_up w.promise w.error c _
    ∙ ap (λ es. (w.promise, w.error) ∷ es) (rejections-wake-fail ws (give_up w.promise w.error c).0)

-- No token is stored.
abbrev pub IsSignedOut : Session → Type 0
IsSignedOut s = (get_access_token s ≡ none) × (get_refresh_token s ≡ none)

clear-IsSignedOut : (s : Session) → IsSignedOut (clear s)
clear-IsSignedOut s = let (a, r, _, _, _) = clear_lem s in (a, r)

wake-fail-IsSignedOut :
    (ws : List Waiter) (c : Client)
    → IsSignedOut c.session ⊎ (ws ≢ [])
    → IsSignedOut (wake fail ws c).0.session
unfolding wake fail
wake-fail-IsSignedOut [] c (inl out) = out
wake-fail-IsSignedOut [] c (inr some_waits) = absurd (some_waits refl)
wake-fail-IsSignedOut (w ∷ ws) c _ =
    wake-fail-IsSignedOut ws (give_up w.promise w.error c).0
      (inl (unfold give_up in clear-IsSignedOut c.session))

-- When the shared refresh fails, each waiting caller is rejected with the error of its own request,
-- in the order in which they came, and if there is one, no token is left in the session.
pub refresh_failed :
    (c : Client)
    → c.waiting ≢ []
    → (rejections (on_refresh_settled none c).1 ≡ map waiter_rejection c.waiting)
      × IsSignedOut (on_refresh_settled none c).0.session
unfolding on_refresh_settled
refresh_failed c waits =
    (rejections-wake-fail c.waiting _, wake-fail-IsSignedOut c.waiting _ (inr waits))

abbrev pub HasOriginal : Waiter → Type 0
HasOriginal w = (r : Request) × (w.original ≡ some r)

-- The requests sent again among the effects, in order, each with its promise.
abbrev pub resends : List Effect → List (ℕ × Request)
resends [] = []
resends (resend q r ∷ es) = (q, r) ∷ resends es
resends (_ ∷ es) = resends es

abbrev pub marked_originals : List Waiter → List (ℕ × Request)
marked_originals [] = []
marked_originals (w ∷ ws) = elim w.original [
  | none ↦ marked_originals ws
  | some r ↦ (w.promise, record r { auth_retried = true }) ∷ marked_originals ws
]

wake-resume :
    (ws : List Waiter) (c : Client)
    → All HasOriginal ws
    → ((wake resume ws c).0 ≡ c) × (resends (wake resume ws c).1 ≡ marked_originals ws)
unfolding wake resume
wake-resume [] c h = (refl, refl)
wake-resume (w ∷ ws) c ((r, there), h) =
    let (same, sent) = wake-resume ws c h in
    rw there (same, ap (λ l. (w.promise, record r { auth_retried = true }) ∷ l) sent)

-- When the shared refresh succeeds in a browser, and every waiting caller has a request, each of
-- these requests is sent again, marked, in the order in which the callers came. Both new tokens
-- are stored, whatever the session held when the answer came, a session cleared meanwhile included.
pub refresh_succeeded :
    (access refresh : String) (c : Client)
    → c.session.browser ≡ true
    → All HasOriginal c.waiting
    → (resends (on_refresh_settled (some (access, refresh)) c).1 ≡ marked_originals c.waiting)
      × (get_access_token (on_refresh_settled (some (access, refresh)) c).0.session ≡ some access)
      × (get_refresh_token (on_refresh_settled (some (access, refresh)) c).0.session ≡ some refresh)
unfolding on_refresh_settled
refresh_succeeded access refresh c b h =
    let (s, stored, a, r, _, _, _) = set_tokens_lem access refresh c.session b in
    let (same, sent) =
      wake-resume c.waiting (record { session = s; refreshing = false; waiting = [] }) h in
    subst
      (λ o.
        (resends (settle o c).1 ≡ marked_originals c.waiting)
        × (get_access_token (settle o c).0.session ≡ some access)
        × (get_refresh_token (settle o c).0.session ≡ some refresh))
      (sym stored)
      (
        sent,
        ap (λ d. get_access_token d.session) same ∙ a,
        ap (λ d. get_refresh_token d.session) same ∙ r,
      )
