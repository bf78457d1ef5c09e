-- ===== src/Studio/History.antt =====
-- The history of a session: what was activated last.
use affiliate_platform_api.Prelude.{List, Option, String, [], refl, some, ◌++◌, ◌≡◌, ◌∷◌}
use affiliate_platform_api.Studio.{
  ContentSessionEvent, config_changed, distributed, modifier_toggled, session_created,
  variant_activated, variant_generated, variant_restored,
}

-- The variant that the history says is active.
abbrev pub last_activated : Option String → List ContentSessionEvent → Option String
last_activated last [] = last
last_activated last (variant_activated now id ∷ es) = last_activated (some id) es
last_activated last (session_created now ∷ es) = last_activated last es
last_activated last (config_changed now c ∷ es) = last_activated last es
last_activated last (modifier_toggled now m b ∷ es) = last_activated last es
last_activated last (variant_generated now id ∷ es) = last_activated last es
last_activated last (variant_restored now from id ∷ es) = last_activated last es
last_activated last (distributed k now id ∷ es) = last_activated last es

pub last_activated-append :
    (last : Option String) (es fs : List ContentSessionEvent)
    → last_activated last (es ++ fs) ≡ last_activated (last_activated last es) fs
last_activated-append last [] fs = refl
last_activated-append last (variant_activated now id ∷ es) fs =
    last_activated-append (some id) es fs
last_activated-append last (session_created now ∷ es) fs = last_activated-append last es fs
last_activated-append last (config_changed now c ∷ es) fs = last_activated-append last es fs
last_activated-append last (modifier_toggled now m b ∷ es) fs = last_activated-append last es fs
last_activated-append last (variant_generated now id ∷ es) fs = last_activated-append last es fs
last_activated-append last (variant_restored now from id ∷ es) fs = last_activated-append last es fs
last_activated-append last (distributed k now id ∷ es) fs = last_activated-append last es fs
