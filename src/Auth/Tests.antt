-- ===== src/Auth/Tests.antt =====
-- A tab with a refresh token, a login that goes back to a page, and texts that are no pages.
use affiliate_platform_api.Prelude.{[], false, nonempty, none, refl, some, true, ◌++◌, ◌≡◌, ◌∷◌}
use affiliate_platform_api.Session.{Session, get_access_token, get_refresh_token}
use affiliate_platform_api.Auth.{
  Guard, children, forgets_cache, goes_on, guard_effects, guard_shows, invalidates_user,
  login_target, middleware, on_login, read_token, replaces, to_login,
}
use affiliate_platform_api.Auth.Laws.{
  has_cookie, login_returns, request_of, whole_logout, whole_logout_lem,
}

abbrev tab : Session
tab = record {
  browser = true;
  https = true;
  storage = ("affiliate_refresh_token", "r0") ∷ [];
  cookie = none;
  listeners = [];
  calls = [];
}

abbrev fresh : Guard
fresh = record { has_token = none; is_pending = false; is_error = false }

other_host : login_target (some "//evil") ≡ "/dashboard"
unfolding login_target
other_host = refl

-- A backslash after the slash passes the test.
backslash : login_target (some "/\\evil") ≡ "/\\evil"
unfolding login_target
backslash = refl

shown : guard_shows (record fresh { has_token = some true }) ≡ children
shown = refl

login_returns_example :
    (let (s', effects) = on_login "a1" "r1" (some "/queue") tab in
      (middleware false "/queue" ≡ to_login "/queue")
      × (effects ≡ invalidates_user ∷ replaces "/queue" ∷ [])
      × (middleware (has_cookie s') "/queue" ≡ goes_on)
      × (guard_effects (read_token s' fresh) ≡ []))
login_returns_example = login_returns "a1" "r1" "/queue" tab fresh refl refl refl refl refl refl

whole_logout_lem_example :
    (let (s', effects) = whole_logout tab in
      (effects
        ≡ request_of (nonempty (get_refresh_token tab)) ++ forgets_cache ∷ replaces "/login" ∷ [])
      × (get_access_token s' ≡ none)
      × (get_refresh_token s' ≡ none)
      × (middleware (has_cookie s') "/queue" ≡ to_login "/queue")
      × (guard_effects (read_token s' fresh) ≡ replaces "/login" ∷ []))
whole_logout_lem_example = whole_logout_lem tab "/queue" fresh refl refl
