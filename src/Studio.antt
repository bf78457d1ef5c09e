-- ===== src/Studio.antt =====
-- The content studio: frontend/src/features/ai/types/session.ts, lib/session.ts and
-- hooks/useContentSession.ts. Each callback of the hook is a function on the session; the time and
-- the id that `crypto.randomUUID` draws are arguments. The options of a session (content type, tone,
-- language, length, provider, modifiers) are the texts that the server takes. The two fields of a
-- variant that are computed from its content, `structured` and `scores`, are left out.
mod Types
pub mod History
pub mod Variants
pub mod Laws
pub mod Payload
pub mod Document
mod Tests
use affiliate_platform_api.Prelude.{
  Bool, List, Option, String, [], false, find, if◌then◌else◌, includes, length, map, none, nonempty,
  not, some, some?, trim, true, without, ℕ, ◌+◌, ◌++◌, ◌==◌, ◌∷◌, is_some,
}
pub use Types.*

abbrev pub default_config : SessionConfig
default_config = record {
  content_type = "telegram";
  tone = "persuasive";
  language = "ar";
  length = "medium";
  provider = none;
}

abbrev pub no_product : ProductContextState
no_product = record {
  source_type = url;
  product_id = none;
  product_label = none;
  url = some "";
  image_url = none;
  affiliate_url = none;
}

unfoldable pub create_empty_session : String → String → ContentSession
create_empty_session id now = record {
  id = id;
  created_at = now;
  updated_at = now;
  product_context = no_product;
  config = default_config;
  instruction_modifiers = [];
  variants = [];
  active_variant_id = none;
  history = session_created now ∷ [];
  suggestions_open = false;
  advanced_open = false;
  compare_variant_ids = none;
}

-- The session that the hook starts with, given the loaded one and the ids in the address.
unfoldable pub initial_session : Option String → Option String → ContentSession → ContentSession
initial_session product_id address loaded = elim (nonempty product_id) [
  | some id ↦ record loaded {
    product_context = record {
      source_type = product;
      product_id = some id;
      product_label = loaded.product_context.product_label;
      url = none;
      image_url = loaded.product_context.image_url;
      affiliate_url = loaded.product_context.affiliate_url;
    };
  }
  | none ↦ elim (nonempty address) [
    | some a ↦ record loaded {
      product_context = record {
        source_type = url;
        product_id = none;
        product_label = none;
        url = some a;
        image_url = none;
        affiliate_url = none;
      };
    }
    | none ↦ loaded
  ]
]

abbrev pub touch : String → ContentSession → ContentSession
touch now s = record s { updated_at = now }

abbrev pub variant_ids : List ContentVariant → List String
variant_ids [] = []
variant_ids (v ∷ vs) = v.id ∷ variant_ids vs

abbrev pub find_variant : String → List ContentVariant → Option ContentVariant
find_variant id vs = find (λ v. v.id == id) vs

abbrev pub active_variant : ContentSession → Option ContentVariant
active_variant s = elim s.active_variant_id [ none ↦ none | some id ↦ find_variant id s.variants ]

abbrev pub log : ContentSession → List ContentSessionEvent → List ContentSessionEvent
log s events = s.history ++ events

-- What the callbacks of the hook are called with. A patch sets the fields that it has.
pub data Action : Type 0 where
  update_product_context : (ProductContextState → ProductContextState) → Action
  update_config : (SessionConfig → SessionConfig) → Action
  toggle_modifier : String → Action
  set_suggestions_open : Bool → Action
  set_advanced_open : Bool → Action
  set_compare_variant_ids : Option (String × String) → Action
  activate_variant : String → Action
  append_variant : String → GenerateContentResponse → ContentVariantOrigin → Action
  update_active_content : String → Action
  restore_variant : String → String → Action
  log_distribution : Distribution → String → Action
  reset_studio : String → Action

abbrev pub toggle_text : String → List String → List String
toggle_text m ms = if includes ms m then without m ms else ms ++ m ∷ []

abbrev pub build_variant :
    String
    → String
    → ContentSession
    → GenerateContentResponse
    → ContentVariantOrigin
    → ContentVariant
build_variant now id s response origin = record {
  id = id;
  index = length s.variants + 1;
  created_at = now;
  content = response.content;
  config_snapshot = s.config;
  modifiers_snapshot = s.instruction_modifiers;
  provider = response.provider;
  product_id = response.product_id;
  source_url = response.source_url;
  origin = origin;
}

abbrev pub edit_variant : String → String → ContentVariant → ContentVariant
edit_variant active content v =
    if v.id == active then record v { content = content; origin = manual_edit } else v

abbrev pub edit_active : String → String → Option String → ContentSession → ContentSession
edit_active now content none s = s
edit_active now content (some active) s =
    if active == ""
    then s
    else touch now (record s { variants = map (edit_variant active content) s.variants })

abbrev pub restore_from :
    String → String → String → Option ContentVariant → ContentSession → ContentSession
restore_from now from id none s = s
restore_from now from id (some source) s = touch now (record s {
  variants =
      s.variants
      ++ record source {
        id = id;
        index = length s.variants + 1;
        created_at = now;
        origin = restore;
      }
        ∷ [];
  active_variant_id = some id;
  history = log s (variant_restored now from id ∷ variant_activated now id ∷ []);
})

unfoldable pub perform : String → Action → ContentSession → ContentSession
unfolding create_empty_session
perform now (update_product_context patch) s =
    touch now (record s { product_context = patch s.product_context })
perform now (update_config patch) s =
    let config = patch s.config in
    touch now (record s { config = config; history = log s (config_changed now config ∷ []) })
perform now (toggle_modifier modifier) s =
    let enabled = not (includes s.instruction_modifiers modifier) in
    touch now (record s {
      instruction_modifiers = toggle_text modifier s.instruction_modifiers;
      history = log s (modifier_toggled now modifier enabled ∷ []);
    })
perform now (set_suggestions_open shown) s = touch now (record s { suggestions_open = shown })
perform now (set_advanced_open shown) s = touch now (record s { advanced_open = shown })
perform now (set_compare_variant_ids ids) s = touch now (record s { compare_variant_ids = ids })
perform now (activate_variant id) s =
    if not (includes (variant_ids s.variants) id)
    then s
    else touch now
        (record s { active_variant_id = some id; history = log s (variant_activated now id ∷ []) })
perform now (append_variant id response origin) s = touch now (record s {
  variants = s.variants ++ build_variant now id s response origin ∷ [];
  active_variant_id = some id;
  history = log s (variant_generated now id ∷ variant_activated now id ∷ []);
})
perform now (update_active_content content) s = edit_active now content s.active_variant_id s
perform now (restore_variant from id) s = restore_from now from id (find_variant from s.variants) s
perform now (log_distribution kind id) s =
    touch now (record s { history = log s (distributed kind now id ∷ []) })
perform now (reset_studio id) s = create_empty_session id now

-- The request of `buildGeneratePayload`: what content is generated from.
pub data Source : Type 0 where
  from_product : String → Source
  from_url : String → Source

abbrev pub is_product : SourceType → Bool
is_product product = true
is_product url = false

abbrev pub url_source : Option String → Option Source
url_source none = none
url_source (some address) = if trim address == "" then none else some (from_url (trim address))

abbrev pub source_of : SourceType → Option String → Option String → Option Source
source_of product (some id) address = some (from_product id)
source_of _ _ address = url_source address

unfoldable pub build_generate_payload :
    ContentSession → Option (SessionConfig × List String × Source)
build_generate_payload s =
    elim (source_of s.product_context.source_type (nonempty s.product_context.product_id)
      s.product_context.url) [
        | none ↦ none
        | some source ↦ some (
          record s.config { provider = nonempty s.config.provider },
          s.instruction_modifiers,
          source,
        )
      ]
