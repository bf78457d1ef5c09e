-- ===== src/Settings.antt =====
-- The settings of a workspace: frontend/src/features/settings/lib/mapApiErrors.ts, the forms of
-- components/WorkspaceSettingsView.tsx, and the time zones of lib/schemas.ts. The library of the forms
-- hands over values that the schema accepts. Texts for the user stand here in English.
pub mod Laws
mod Tests
use affiliate_platform_api.Prelude.{
  Bool, Dict, List, Option, String, [], codes, every, false, get, get_or, if◌then◌else◌, includes,
  leb, length, none, nonempty, not, put, select, some, true, ℕ, ◌&&◌, ◌++◌, ◌=?◌, ◌==◌, ◌||◌, ◌∷◌,
}
use affiliate_platform_api.ApiClient.{ApiError, FieldError, LocPart, index, name}

-- `isApiError` holds for what the client throws; anything else is `none`.
abbrev pub last_name : List LocPart → Option LocPart → Option LocPart
last_name [] found = found
last_name (name text ∷ parts) found =
    last_name parts (if text == "body" then found else some (name text))
last_name (index n ∷ parts) found = last_name parts (some (index n))

abbrev pub field_of : List String → Option LocPart → Option String
field_of allowed none = none
field_of allowed (some (index n)) = none
field_of allowed (some (name text)) = if includes allowed text then some text else none

-- The messages of the fields of a form, and whether any was set.
abbrev pub set_error : Option String → String → Dict String × Bool → Dict String × Bool
set_error none msg (errors, mapped) = (errors, mapped)
set_error (some field) msg (errors, mapped) = (put field msg errors, true)

abbrev pub apply_each : List String → List FieldError → Dict String × Bool → Dict String × Bool
apply_each allowed [] state = state
apply_each allowed (item ∷ items) state =
    apply_each allowed items (set_error (field_of allowed (last_name item.loc none)) item.msg state)

abbrev pub apply_validation :
    List String → Option (List FieldError) → Dict String → Dict String × Bool
apply_validation allowed none errors = (errors, false)
apply_validation allowed (some items) errors = apply_each allowed items (errors, false)

abbrev pub validation_of : Option ApiError → Option (List FieldError)
validation_of none = none
validation_of (some error) = error.validation

unfoldable pub apply_api_field_errors :
    List String → Option ApiError → Dict String → Dict String × Bool
apply_api_field_errors allowed error errors = apply_validation allowed (validation_of error) errors

abbrev pub timezones : List String
timezones =
    "UTC" ∷ "Asia/Jerusalem" ∷ "Asia/Riyadh" ∷ "Asia/Dubai" ∷ "Africa/Cairo" ∷ "Europe/London"
    ∷ "Europe/Paris" ∷ "Europe/Berlin" ∷ "America/New_York" ∷ "America/Los_Angeles" ∷ []

unfoldable pub coerce_timezone : String → String
coerce_timezone value = if includes timezones value then value else "UTC"

pub data SettingsSection : Type 0 where
  general aliexpress ai telegram discovery scheduling : SettingsSection

-- The settings that the forms edit; `discovery_page_size` aside, they are texts.
pub record WorkspaceSettings : Type 0 where
  pub can_edit : Bool
  pub timezone : String
  pub ui_language : String
  pub aliexpress_target_currency : String
  pub aliexpress_ship_to_country : String
  pub aliexpress_target_language : String
  pub default_ai_provider : String
  pub default_content_type : String
  pub default_tone : String
  pub default_content_language : String
  pub default_content_length : String
  pub discovery_default_mode : String
  pub discovery_page_size : ℕ
  pub default_telegram_channel_id : Option String

pub data Value : Type 0 where
  str : String → Value
  num : ℕ → Value
  null : Value

-- The values of a form, and the body of a request, by name.
abbrev pub Values : Type 0
Values = List (String × Value)

abbrev pub general_values : WorkspaceSettings → Values
general_values s =
    ("timezone", str (coerce_timezone s.timezone)) ∷ ("ui_language", str s.ui_language) ∷ []

abbrev pub aliexpress_values : WorkspaceSettings → Values
aliexpress_values s =
    ("aliexpress_target_currency", str s.aliexpress_target_currency)
    ∷ ("aliexpress_ship_to_country", str s.aliexpress_ship_to_country)
    ∷ ("aliexpress_target_language", str s.aliexpress_target_language)
    ∷ []

abbrev pub ai_values : WorkspaceSettings → Values
ai_values s =
    ("default_ai_provider", str s.default_ai_provider)
    ∷ ("default_content_type", str s.default_content_type)
    ∷ ("default_tone", str s.default_tone)
    ∷ ("default_content_language", str s.default_content_language)
    ∷ ("default_content_length", str s.default_content_length)
    ∷ []

abbrev pub telegram_values : WorkspaceSettings → Values
telegram_values s =
    ("default_telegram_channel_id", str (get_or s.default_telegram_channel_id "")) ∷ []

abbrev pub discovery_values : WorkspaceSettings → Values
discovery_values s =
    ("discovery_default_mode", str s.discovery_default_mode)
    ∷ ("discovery_page_size", num s.discovery_page_size)
    ∷ []

abbrev pub scheduling_values : WorkspaceSettings → Values
scheduling_values s = ("timezone", str (coerce_timezone s.timezone)) ∷ []

-- `defaultValues`, and what `reset` sets when the settings have changed.
abbrev pub default_values : SettingsSection → WorkspaceSettings → Values
default_values general s = general_values s
default_values aliexpress s = aliexpress_values s
default_values ai s = ai_values s
default_values telegram s = telegram_values s
default_values discovery s = discovery_values s
default_values scheduling s = scheduling_values s

abbrev pub general_fields : List String
general_fields = "timezone" ∷ "ui_language" ∷ []

abbrev pub aliexpress_fields : List String
aliexpress_fields =
    "aliexpress_target_currency" ∷ "aliexpress_ship_to_country" ∷ "aliexpress_target_language" ∷ []

abbrev pub ai_fields : List String
ai_fields =
    "default_ai_provider" ∷ "default_content_type" ∷ "default_tone" ∷ "default_content_language"
    ∷ "default_content_length" ∷ []

abbrev pub telegram_fields : List String
telegram_fields = "default_telegram_channel_id" ∷ []

abbrev pub discovery_fields : List String
discovery_fields = "discovery_default_mode" ∷ "discovery_page_size" ∷ []

abbrev pub scheduling_fields : List String
scheduling_fields = "timezone" ∷ []

-- The names for which a message of the server is shown at the field.
abbrev pub allowed_fields : SettingsSection → List String
allowed_fields general = general_fields
allowed_fields aliexpress = aliexpress_fields
allowed_fields ai = ai_fields
allowed_fields telegram = telegram_fields
allowed_fields discovery = discovery_fields
allowed_fields scheduling = scheduling_fields

abbrev pub upper_value : (String → String) → Value → Value
upper_value upper (str text) = str (upper text)
upper_value upper (num n) = num n
upper_value upper null = null

abbrev pub upper_values : (String → String) → Values → Values
upper_values upper [] = []
upper_values upper ((field, value) ∷ values) =
    (field, upper_value upper value) ∷ upper_values upper values

abbrev pub null_if_empty : Value → Value
null_if_empty (str text) = if text == "" then null else str text
null_if_empty (num n) = num n
null_if_empty null = null

abbrev pub without_empty : Values → Values
without_empty [] = []
without_empty ((field, value) ∷ values) = (field, null_if_empty value) ∷ without_empty values

-- The body that a form sends; `upper` is `toUpperCase`.
abbrev pub patch_of : (String → String) → SettingsSection → Values → Values
patch_of upper general values = values
patch_of upper aliexpress values = upper_values upper values
patch_of upper ai values = values
patch_of upper telegram values = without_empty values
patch_of upper discovery values = values
patch_of upper scheduling values = values

pub data Tone : Type 0 where
  success error : Tone

-- A form: its values, the messages of its fields, its toast.
pub record Form : Type 0 where
  pub values : Values
  pub errors : Dict String
  pub toast : Option (Tone × String)

abbrev pub open_form : SettingsSection → WorkspaceSettings → Form
open_form section s = record { values = default_values section s; errors = []; toast = none }

abbrev pub reset : SettingsSection → WorkspaceSettings → Form → Form
reset section s f = record f { values = default_values section s; errors = [] }

abbrev pub error_text : Option ApiError → String
error_text none = "The settings are not saved."
error_text (some thrown) =
    if thrown.message == "" then "The settings are not saved." else thrown.message

abbrev pub failed_form : Option ApiError → Dict String × Bool → Form → Form
failed_form thrown (errors, true) f = record f { errors = errors }
failed_form thrown (errors, false) f = record f {
  errors = errors;
  toast = some (error, error_text thrown);
}

-- The end of a request of the form.
unfoldable pub on_error : SettingsSection → Option ApiError → Form → Form
unfolding apply_api_field_errors
on_error section thrown f =
    failed_form thrown (apply_api_field_errors (allowed_fields section) thrown f.errors) f

abbrev pub on_success : Form → Form
on_success f = record f { toast = some (success, "The settings are saved.") }
