-- ===== src/Settings/Laws.antt =====
-- Which message of the server is shown at which field, and what a form sends that nobody has touched.
use affiliate_platform_api.Prelude.{
  Bool, Bool-cases, Dict, List, Option, String, [], arith, false, get, get-put, if◌then◌else◌,
  includes, inl, inr, is_some, none, or_else, refl, some, some?, true, ◌==◌, ◌||◌, ◌≡◌, ◌↔◌, ◌⊎◌,
  ◌∷◌, ◌∙◌, ap, false≢true, sym, subst,
}
use affiliate_platform_api.ApiClient.{ApiError, FieldError}
use affiliate_platform_api.Settings.{
  Form, ai, aliexpress, telegram, discovery, SettingsSection, Value, Values, WorkspaceSettings,
  allowed_fields, apply_api_field_errors, apply_each, apply_validation, coerce_timezone, error,
  error_text, failed_form, field_of, general, last_name, on_error, open_form, patch_of, scheduling,
  set_error, str, timezones,
}

-- The field at which a message is shown, if any.
abbrev pub shown_at : List String → FieldError → Option String
shown_at allowed item = field_of allowed (last_name item.loc none)

abbrev pub is_field : Option String → String → Bool
is_field none j = false
is_field (some field) j = field == j

-- The message of the last item that is shown at a field.
abbrev pub last_message : List String → String → List FieldError → Option String
last_message allowed j [] = none
last_message allowed j (item ∷ items) =
    or_else (last_message allowed j items)
      (if is_field (shown_at allowed item) j then some item.msg else none)

or_else_assoc : {A : Type 0} (a b c : Option A) → or_else (or_else a b) c ≡ or_else a (or_else b c)
or_else_assoc none b c = refl
or_else_assoc (some a) b c = refl

one_error :
    (field : Option String) (msg j : String) (errors : Dict String) (mapped : Bool)
    → (get j (set_error field msg (errors, mapped)).0
        ≡ or_else (if is_field field j then some msg else none) (get j errors))
      × ((set_error field msg (errors, mapped)).1 ≡ (mapped || is_some field))
one_error none msg j errors mapped = (refl, ground (arith))
one_error (some field) msg j errors mapped =
    (get-put field j msg errors ∙ choose (field == j) (get j errors), ground (arith))
  where
    choose :
        (b : Bool) (o : Option String)
        → (if b then some msg else o) ≡ or_else (if b then some msg else none) o
    choose true o = refl
    choose false o = refl

each_error :
    (allowed : List String) (items : List FieldError) (errors : Dict String) (mapped : Bool)
    (j : String)
    → (get j (apply_each allowed items (errors, mapped)).0
        ≡ or_else (last_message allowed j items) (get j errors))
      × ((apply_each allowed items (errors, mapped)).1
          ≡ (mapped || some? (λ item. is_some (shown_at allowed item)) items))
each_error allowed [] errors mapped j = (refl, ground (arith))
each_error allowed (item ∷ items) errors mapped j =
    let (errors', mapped') = set_error (shown_at allowed item) item.msg (errors, mapped) in
    let (message, any) = one_error (shown_at allowed item) item.msg j errors mapped in
    let (messages, anys) = each_error allowed items errors' mapped' j in
    (
      messages
          ∙ ap (λ o. or_else (last_message allowed j items) o) message
          ∙ sym (
              or_else_assoc (last_message allowed j items)
                (if is_field (shown_at allowed item) j then some item.msg else none)
                (get j errors)),
      ground (arith, anys, any),
    )

-- What a failed request leaves of a form.
abbrev pub ErrorOutcome : Bool → SettingsSection → ApiError → List FieldError → Form → Form → Type 0
ErrorOutcome true section thrown items f f' =
    (f'.toast ≡ f.toast)
    × (f'.values ≡ f.values)
    × ((j : String)
        → get j f'.errors
          ≡ or_else (last_message (allowed_fields section) j items) (get j f.errors))
ErrorOutcome false section thrown items f f' =
    (f'.toast ≡ some (error, error_text (some thrown)))
    × (f'.values ≡ f.values)
    × ((j : String) → get j f'.errors ≡ get j f.errors)

no_field :
    (o : Option String) (j msg : String)
    → is_some o ≡ false
    → (if is_field o j then some msg else none) ≡ none
no_field none j msg h = refl
no_field (some field) j msg h = cc

no_message :
    (allowed : List String) (j : String) (items : List FieldError)
    → some? (λ item. is_some (shown_at allowed item)) items ≡ false
    → last_message allowed j items ≡ none
no_message allowed j [] h = refl
no_message allowed j (item ∷ items) h =
    rw (no_message allowed j items (ground (arith)))
      (no_field (shown_at allowed item) j item.msg (ground (arith)))

failed_outcome :
    (section : SettingsSection) (thrown : ApiError) (items : List FieldError) (f : Form)
    (any mapped : Bool) (errors : Dict String)
    → some? (λ item. is_some (shown_at (allowed_fields section) item)) items ≡ any
    → mapped ≡ any
    → ((j : String)
        → get j errors ≡ or_else (last_message (allowed_fields section) j items) (get j f.errors))
    → ErrorOutcome any section thrown items f (failed_form (some thrown) (errors, mapped) f)
failed_outcome section thrown items f true true errors h k l = (refl, refl, l)
failed_outcome section thrown items f false false errors h k l = (
  refl,
  refl,
  λ j. l j ∙ ap (λ o. or_else o (get j f.errors)) (no_message (allowed_fields section) j items h),
)
failed_outcome section thrown items f true false errors h k l = cc
failed_outcome section thrown items f false true errors h k l = cc

-- A request of a form fails with messages about fields: when the last name (`body` aside) of one of
-- them is a field of the form, each such field shows the last message for it, the other fields keep
-- what they show, and no toast comes up; when none of them is, the messages of the fields stay and
-- the toast shows the message of the error. The values stay in either case.
pub on_error_lem :
    (section : SettingsSection) (thrown : ApiError) (items : List FieldError) (f : Form)
    → thrown.validation ≡ some items
    → ErrorOutcome
        (some? (λ item. is_some (shown_at (allowed_fields section) item)) items)
        section
        thrown
        items
        f
        (on_error section (some thrown) f)
unfolding on_error apply_api_field_errors
on_error_lem section thrown items f h =
    let allowed : List String = allowed_fields section in
    let any : Bool = some? (λ item. is_some (shown_at allowed item)) items in
    let (errors, mapped) = apply_each allowed items (f.errors, false) in
    subst
      (λ v.
        ErrorOutcome any section thrown items f
          (failed_form (some thrown) (apply_validation allowed v f.errors) f))
      (sym h)
      (failed_outcome section thrown items f any mapped errors refl
        ((each_error allowed items f.errors false "").1)
        (λ j. (each_error allowed items f.errors false j).0))

-- The timezone that a body sends.
abbrev pub sent_timezone : Values → Option Value
sent_timezone [] = none
sent_timezone ((field, value) ∷ values) =
    let rest = sent_timezone values in if field == "timezone" then some value else rest

str_inj : {a b : String} → Path (Option Value) (some (str a)) (some (str b)) → a ≡ b
str_inj h = cc

coerced_iff : (zone : String) → (coerce_timezone zone ≡ zone) ↔ (includes timezones zone ≡ true)
unfolding coerce_timezone
coerced_iff zone = elim (Bool-cases (includes timezones zone)) [
  | inl listed ↦ rw listed ((λ h. refl), λ h. refl)
  | inr other ↦ (
    (λ h.
        let fallback : coerce_timezone zone ≡ "UTC" = rw other refl in
        let e : "UTC" ≡ zone = sym fallback ∙ h in
        absurd (false≢true (sym other ∙ ap (λ z. includes timezones z) (sym e)))),
    λ h. absurd (false≢true (sym other ∙ h)),
  )
]

-- A form for the timezone, the one of the general settings or that of the scheduling, which nobody has
-- touched sends back the timezone of the settings exactly when that is one of the ten in the list;
-- with any other timezone it sends another one.
pub untouched_timezone_iff :
    (upper : String → String) (section : SettingsSection) (s : WorkspaceSettings)
    → (section ≡ general) ⊎ (section ≡ scheduling)
    → (sent_timezone (patch_of upper section (open_form section s).values) ≡ some (str s.timezone))
      ↔ (includes timezones s.timezone ≡ true)
untouched_timezone_iff upper general s h =
    let (there, back) = coerced_iff s.timezone in
    ((λ e. there (str_inj e)), λ e. ap (λ zone. some (str zone)) (back e))
untouched_timezone_iff upper scheduling s h =
    let (there, back) = coerced_iff s.timezone in
    ((λ e. there (str_inj e)), λ e. ap (λ zone. some (str zone)) (back e))
untouched_timezone_iff upper aliexpress s (inl e) = cc
untouched_timezone_iff upper aliexpress s (inr e) = cc
untouched_timezone_iff upper ai s (inl e) = cc
untouched_timezone_iff upper ai s (inr e) = cc
untouched_timezone_iff upper telegram s (inl e) = cc
untouched_timezone_iff upper telegram s (inr e) = cc
untouched_timezone_iff upper discovery s (inl e) = cc
untouched_timezone_iff upper discovery s (inr e) = cc
