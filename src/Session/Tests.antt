-- ===== src/Session/Tests.antt =====
-- Runs of the session at concrete values, and the laws at them.
use affiliate_platform_api.Prelude.{List, [], none, refl, true, ◌≡◌, ◌∷◌}
use affiliate_platform_api.Session.{Session}
use affiliate_platform_api.Session.Laws.{
  apply, CookieMatches, Operation, apply_all, apply_all-CookieMatches, forget_all, store_tokens,
  store_workspace, subscribe,
}

abbrev fresh : Session
fresh = record {
  browser = true;
  https = true;
  storage = [];
  cookie = none;
  listeners = "sync" ∷ [];
  calls = [];
}

abbrev visit : List Operation
visit = store_tokens "a1" "r1" ∷ store_workspace "w" ∷ subscribe "badge" ∷ forget_all ∷ []

visit_calls : (apply_all visit fresh).calls ≡ "sync" ∷ "sync" ∷ "badge" ∷ []
unfolding apply_all apply
visit_calls = refl

apply_all-CookieMatches_example : CookieMatches (apply_all visit fresh)
unfolding CookieMatches
apply_all-CookieMatches_example = apply_all-CookieMatches visit fresh refl
