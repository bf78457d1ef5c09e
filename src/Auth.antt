-- ===== src/Auth.antt =====
-- Signing in and out: frontend/src/features/auth/hooks/useAuth.ts and components/AuthGuard.tsx, and the
-- middleware in frontend/src/middleware.ts. Next.js carries out the redirects, and the cookie that the
-- middleware reads is the one that the session writes.
pub mod Laws
mod Tests
use affiliate_platform_api.Prelude.{
  Bool, List, Option, String, [], codes, false, if◌then◌else◌, includes, is_some, none, nonempty,
  not, some, true, truthy, ◌&&◌, ◌++◌, ◌||◌, ◌∷◌,
}
use affiliate_platform_api.Session.{Session, clear, get_access_token, get_refresh_token, set_tokens}
use affiliate_platform_api.Workspace.{apply_default_workspace_from_user}
use affiliate_platform_api.Queue.Listing.{starts_with}

-- `text.startsWith(prefix)`
abbrev pub starts_with_text : String → String → Bool
starts_with_text text prefix = starts_with (codes text) (codes prefix)

-- What goes out, in order. `forgets_cache` is `queryClient.clear()`.
pub data Effect : Type 0 where
  invalidates_user : Effect
  replaces : String → Effect
  posts_logout : String → Effect
  forgets_cache : Effect

-- Where the login leads: `next` of the address, if it is a path of this site.
unfoldable pub login_target : Option String → String
login_target none = "/dashboard"
login_target (some next) =
    if starts_with_text next "/" && not (starts_with_text next "//") then next else "/dashboard"

-- The tab after a login; with no browser the write throws, and nothing follows.
abbrev pub signed_in : Option Session → Option String → Session → Session × List Effect
signed_in none next s = (s, [])
signed_in (some s') next s = (s', invalidates_user ∷ replaces (login_target next) ∷ [])

unfoldable pub on_login : String → String → Option String → Session → Session × List Effect
unfolding set_tokens login_target
on_login access_token refresh_token next s =
    signed_in (set_tokens access_token refresh_token s) next s

-- `finish` of the logout.
unfoldable pub finish_logout : Session → Session × List Effect
unfolding clear
finish_logout s = (clear s, forgets_cache ∷ replaces "/login" ∷ [])

-- The logout up to its first wait; with a refresh token it ends when the request has settled, in
-- whatever way, by `finish_logout`.
abbrev pub logout_with : Option String → Session → Session × List Effect
logout_with none s = finish_logout s
logout_with (some token) s = (s, posts_logout token ∷ [])

unfoldable pub logout : Session → Session × List Effect
unfolding get_refresh_token finish_logout
logout s = logout_with (nonempty (get_refresh_token s)) s

-- `useCurrentUser`: the user has arrived.
abbrev pub on_current_user : Option String → Session → Session
on_current_user default_workspace_id s = apply_default_workspace_from_user default_workspace_id s

-- `hasToken`, and the query of the user.
pub record Guard : Type 0 where
  pub has_token : Option Bool
  pub is_pending : Bool
  pub is_error : Bool

pub data Shown : Type 0 where
  loading children : Shown

abbrev pub is_true : Option Bool → Bool
is_true (some true) = true
is_true _ = false

abbrev pub is_false : Option Bool → Bool
is_false (some false) = true
is_false _ = false

-- The first effect of the guard reads the token.
unfoldable pub read_token : Session → Guard → Guard
unfolding get_access_token
read_token s g = record g { has_token = some (truthy (get_access_token s)) }

-- The query of the user is enabled.
abbrev pub asks_user : Guard → Bool
asks_user g = is_true g.has_token

abbrev pub guard_effects : Guard → List Effect
guard_effects g = if is_false g.has_token || g.is_error then replaces "/login" ∷ [] else []

abbrev pub guard_shows : Guard → Shown
guard_shows g =
    if not (is_true g.has_token) || g.is_pending || g.is_error then loading else children

abbrev pub public_routes : List String
public_routes = "/login" ∷ []

-- What the middleware answers: the page, or a redirect to the login with `next`.
pub data Response : Type 0 where
  goes_on : Response
  to_login : String → Response

unfoldable pub middleware : Bool → String → Response
middleware signed_in pathname =
    if not signed_in && not (includes public_routes pathname) then to_login pathname else goes_on
