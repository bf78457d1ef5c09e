-- ===== src/Studio/Tests.antt =====
-- A visit to the studio: content is generated, edited, and the generated variant is restored.
use affiliate_platform_api.Prelude.{[], length, none, refl, some, trim, trim_end, trim_start, ◌≡◌}
use affiliate_platform_api.Studio.{
  ContentSession, ContentVariant, GenerateContentResponse, append_variant, build_generate_payload,
  create_empty_session, default_config, generate, initial_session, perform, update_active_content,
}
use affiliate_platform_api.Studio.Laws.{IsSound, Reached, acted, Reached-IsSound, started}

abbrev response : GenerateContentResponse
response = record {
  content = "A lamp";
  provider = none;
  product_id = none;
  source_url = some "https://shop";
}

abbrev generated : ContentSession
generated = perform "2" (append_variant "v1" response generate) (create_empty_session "s" "1")

abbrev edited : ContentSession
edited = perform "3" (update_active_content "A bright lamp") generated

Reached-generated : Reached generated
unfolding create_empty_session
Reached-generated =
    acted (create_empty_session "s" "1") "2" (append_variant "v1" response generate)
      (started "s" "1") refl

Reached-IsSound_example : IsSound generated
Reached-IsSound_example = Reached-IsSound generated Reached-generated

abbrev lamp : ContentVariant
lamp = record {
  id = "v1";
  index = 1;
  created_at = "2";
  content = "A lamp";
  config_snapshot = default_config;
  modifiers_snapshot = [];
  provider = none;
  product_id = none;
  source_url = some "https://shop";
  origin = generate;
}

edited-length : length edited.variants ≡ 1
unfolding perform create_empty_session
edited-length = refl

nothing_to_ask : build_generate_payload (create_empty_session "s" "1") ≡ none
unfolding build_generate_payload create_empty_session trim trim_start trim_end
nothing_to_ask = refl

chosen_product :
    (initial_session (some "p1") none (create_empty_session "s" "1")).product_context.product_id
    ≡ some "p1"
unfolding initial_session create_empty_session
chosen_product = refl
