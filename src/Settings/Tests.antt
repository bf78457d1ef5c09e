-- ===== src/Settings/Tests.antt =====
-- A workspace in Tokyo, and errors of the server about its forms.
use affiliate_platform_api.Prelude.{
  List, [], includes, inl, is_some, none, refl, some, some?, true, ◌≡◌, ◌↔◌, ◌∷◌,
}
use affiliate_platform_api.ApiClient.{ApiError, FieldError, index, name}
use affiliate_platform_api.Settings.{
  WorkspaceSettings, allowed_fields, coerce_timezone, default_values, general, null, on_error,
  on_success, open_form, patch_of, reset, str, success, telegram, timezones,
}
use affiliate_platform_api.Settings.Laws.{
  ErrorOutcome, on_error_lem, sent_timezone, shown_at, untouched_timezone_iff,
}

abbrev tokyo : WorkspaceSettings
tokyo = record {
  can_edit = true;
  timezone = "Asia/Tokyo";
  ui_language = "en";
  aliexpress_target_currency = "usd";
  aliexpress_ship_to_country = "il";
  aliexpress_target_language = "en";
  default_ai_provider = "openai";
  default_content_type = "blog";
  default_tone = "funny";
  default_content_language = "en";
  default_content_length = "short";
  discovery_default_mode = "hot";
  discovery_page_size = 20;
  default_telegram_channel_id = none;
}

abbrev invalid : List FieldError
invalid =
    record { loc = name "body" ∷ name "timezone" ∷ []; msg = "Unknown zone" }
    ∷ record { loc = name "body" ∷ name "tags" ∷ index 0 ∷ []; msg = "Too long" }
    ∷ []

abbrev refused : ApiError
refused = record { status = 422; message = "Invalid"; code = none; validation = some invalid }

no_channel :
    patch_of (λ t. t) telegram (default_values telegram tokyo)
    ≡ ("default_telegram_channel_id", null) ∷ []
no_channel = refl

closed :
    (reset general tokyo (on_success (open_form general tokyo))).toast
    ≡ some (success, "The settings are saved.")
unfolding coerce_timezone
closed = refl

on_error_lem_example :
    ErrorOutcome
      (some? (λ item. is_some (shown_at (allowed_fields general) item)) invalid)
      general
      refused
      invalid
      (open_form general tokyo)
      (on_error general (some refused) (open_form general tokyo))
on_error_lem_example = on_error_lem general refused invalid (open_form general tokyo) refl

untouched_timezone_iff_example :
    (sent_timezone (patch_of (λ t. t) general (open_form general tokyo).values)
      ≡ some (str tokyo.timezone))
    ↔ (includes timezones tokyo.timezone ≡ true)
untouched_timezone_iff_example = untouched_timezone_iff (λ t. t) general tokyo (inl refl)
