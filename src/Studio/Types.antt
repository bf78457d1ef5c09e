-- ===== src/Studio/Types.antt =====
-- frontend/src/features/ai/types/session.ts: the session of the studio, its variants and its history.
use affiliate_platform_api.Prelude.{Bool, List, Option, String, ℕ}

pub record SessionConfig : Type 0 where
  pub content_type : String
  pub tone : String
  pub language : String
  pub length : String
  pub provider : Option String

pub data SourceType : Type 0 where
  product url : SourceType

pub record ProductContextState : Type 0 where
  pub source_type : SourceType
  pub product_id : Option String
  pub product_label : Option String
  pub url : Option String
  pub image_url : Option String
  pub affiliate_url : Option String

pub data ContentVariantOrigin : Type 0 where
  generate variant restore manual_edit : ContentVariantOrigin

pub record ContentVariant : Type 0 where
  pub id : String
  pub index : ℕ
  pub created_at : String
  pub content : String
  pub config_snapshot : SessionConfig
  pub modifiers_snapshot : List String
  pub provider : Option String
  pub product_id : Option String
  pub source_url : Option String
  pub origin : ContentVariantOrigin

pub data Distribution : Type 0 where
  exported queued published draft_saved : Distribution

pub data ContentSessionEvent : Type 0 where
  session_created : String → ContentSessionEvent
  config_changed : String → SessionConfig → ContentSessionEvent
  modifier_toggled : String → String → Bool → ContentSessionEvent
  variant_generated : String → String → ContentSessionEvent
  variant_activated : String → String → ContentSessionEvent
  variant_restored : String → String → String → ContentSessionEvent
  distributed : Distribution → String → String → ContentSessionEvent

pub record ContentSession : Type 0 where
  pub id : String
  pub created_at : String
  pub updated_at : String
  pub product_context : ProductContextState
  pub config : SessionConfig
  pub instruction_modifiers : List String
  pub variants : List ContentVariant
  pub active_variant_id : Option String
  pub history : List ContentSessionEvent
  pub suggestions_open : Bool
  pub advanced_open : Bool
  pub compare_variant_ids : Option (String × String)

-- What the server answers.
pub record GenerateContentResponse : Type 0 where
  pub content : String
  pub provider : Option String
  pub product_id : Option String
  pub source_url : Option String
