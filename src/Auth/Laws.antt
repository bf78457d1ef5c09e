-- ===== src/Auth/Laws.antt =====
-- The way of a user through the login and out again, over the session, the middleware and the guard.
use affiliate_platform_api.Prelude.{
  Bool, Bool-cases, List, Option, String, [], arith, false, get-put, includes, inl, inr, is_some,
  none, nonempty, not, put, refl, some, true, truthy, ◌&&◌, ◌++◌, ◌==◌, ◌≡◌, ◌∷◌, ◌∙◌, ap, sym,
  subst,
}
use affiliate_platform_api.Session.{
  Session, access_token_key, clear, get_access_token, get_refresh_token, refresh_token_key,
  set_tokens,
}
use affiliate_platform_api.Session.Laws.{clear_lem, with_tokens}
use affiliate_platform_api.Auth.{
  Effect, Guard, finish_logout, forgets_cache, goes_on, guard_effects, invalidates_user,
  login_target, logout, logout_with, middleware, on_login, posts_logout, public_routes, read_token,
  replaces, signed_in, starts_with_text, to_login,
}

abbrev pub has_cookie : Session → Bool
has_cookie s = is_some s.cookie

login_runs :
    (access refresh : String) (next : Option String) (s : Session)
    → s.browser ≡ true
    → on_login access refresh next s
      ≡ (with_tokens access refresh s, invalidates_user ∷ replaces (login_target next) ∷ [])
unfolding on_login set_tokens
login_runs access refresh next s h =
    let stored : set_tokens access refresh s ≡ some (with_tokens access refresh s) =
      ground (arith) in
    ap (λ o. signed_in o next s) stored

token_kept :
    (access refresh : String) (s : Session)
    → s.browser ≡ true
    → get_access_token (with_tokens access refresh s) ≡ some access
unfolding get_access_token
token_kept access refresh s h = ground (
  arith,
  get-put refresh_token_key access_token_key refresh (put access_token_key access s.storage),
  get-put access_token_key access_token_key access s.storage,
)

-- A user without a session asks for a private page of this site, is sent to the login with that page as
-- `next`, and logs in with a token that is not empty: the login leads to exactly that page, the
-- middleware then lets it through, and the guard finds the token and does not lead away.
pub login_returns :
    (access refresh path : String) (s : Session) (g : Guard)
    → s.browser ≡ true
    → (access == "") ≡ false
    → includes public_routes path ≡ false
    → starts_with_text path "/" ≡ true
    → starts_with_text path "//" ≡ false
    → g.is_error ≡ false
    → (let (s', effects) = on_login access refresh (some path) s in
        (middleware false path ≡ to_login path)
        × (effects ≡ invalidates_user ∷ replaces path ∷ [])
        × (middleware (has_cookie s') path ≡ goes_on)
        × (guard_effects (read_token s' g) ≡ []))
unfolding login_target middleware read_token
login_returns access refresh path s g browser given private local inside fine =
    let run = login_runs access refresh (some path) s browser in
    let token : truthy (get_access_token (with_tokens access refresh s)) ≡ true =
      ap (λ o. truthy o) (token_kept access refresh s browser) ∙ (ground (arith)) in
    subst
      (λ r.
        (middleware false path ≡ to_login path)
        × (r.1 ≡ invalidates_user ∷ replaces path ∷ [])
        × (middleware (has_cookie r.0) path ≡ goes_on)
        × (guard_effects (read_token r.0 g) ≡ []))
      (sym run)
      (
        ground (arith),
        ap (λ (target : String). invalidates_user ∷ replaces target ∷ []) (ground (arith)),
        ground (arith),
        ground (arith),
      )

-- `next` never leads to a text that is not a path, nor to another host by two slashes.
pub login_target_local :
    (next : Option String)
    → (starts_with_text (login_target next) "/" && not (starts_with_text (login_target next) "//"))
      ≡ true
unfolding login_target
login_target_local none = refl
login_target_local (some next) =
    elim (Bool-cases (starts_with_text next "/" && not (starts_with_text next "//"))) [
      | inl local ↦ rw local local
      | inr other ↦ rw other refl
    ]

-- The logout to its end: where a request was posted, `finish` runs once it has settled.
abbrev pub after_request : Session → List Effect → Option String → Session × List Effect
after_request s effects none = (s, effects)
after_request s effects (some token) = let (s', rest) = finish_logout s in (s', effects ++ rest)

unfoldable pub whole_logout : Session → Session × List Effect
unfolding logout get_refresh_token finish_logout
whole_logout s =
    let (s', effects) = logout s in after_request s' effects (nonempty (get_refresh_token s))

abbrev pub request_of : Option String → List Effect
request_of none = []
request_of (some token) = posts_logout token ∷ []

ends_cleared :
    (s : Session) (token : Option String)
    → (let (s', effects) = logout_with token s in after_request s' effects token)
      ≡ (clear s, request_of token ++ forgets_cache ∷ replaces "/login" ∷ [])
unfolding finish_logout
ends_cleared s none = refl
ends_cleared s (some token) = refl

-- A logout in a browser, whether it posts a request or has no refresh token to post, and however the
-- request ends: both tokens and the cookie are gone, the cache is emptied and the login is shown;
-- after that the middleware sends every private page to the login, and so does the guard.
pub whole_logout_lem :
    (s : Session) (path : String) (g : Guard)
    → s.browser ≡ true
    → includes public_routes path ≡ false
    → (let (s', effects) = whole_logout s in
        (effects
          ≡ request_of (nonempty (get_refresh_token s)) ++ forgets_cache ∷ replaces "/login" ∷ [])
        × (get_access_token s' ≡ none)
        × (get_refresh_token s' ≡ none)
        × (middleware (has_cookie s') path ≡ to_login path)
        × (guard_effects (read_token s' g) ≡ replaces "/login" ∷ []))
unfolding whole_logout logout middleware read_token
whole_logout_lem s path g browser private =
    let (access, refresh, workspace, cookie, calls) = clear_lem s in
    let no_cookie : has_cookie (clear s) ≡ false = ap (λ o. is_some o) cookie ∙ (ground (arith)) in
    let no_token : truthy (get_access_token (clear s)) ≡ false = ap (λ o. truthy o) access in
    subst
      (λ r.
        (r.1
          ≡ request_of (nonempty (get_refresh_token s)) ++ forgets_cache ∷ replaces "/login" ∷ [])
        × (get_access_token r.0 ≡ none)
        × (get_refresh_token r.0 ≡ none)
        × (middleware (has_cookie r.0) path ≡ to_login path)
        × (guard_effects (read_token r.0 g) ≡ replaces "/login" ∷ []))
      (sym (ends_cleared s (nonempty (get_refresh_token s))))
      (refl, access, refresh, ground (arith), ground (arith))
