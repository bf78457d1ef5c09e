-- ===== src/Studio/Document/Tests.antt =====
-- A heading, a paragraph of two lines and two lists, with simple patterns.
use affiliate_platform_api.Prelude.{
  List, Option, String, [], false, if◌then◌else◌, map, none, refl, some, trim, ◌==◌, ◌∷◌, ◌≡◌,
}
use affiliate_platform_api.Studio.Document.{
  Patterns, heading, ordered_list, paragraph, parse_marketing_document, read_line,
  serialize_document, unordered_list,
}
use affiliate_platform_api.Studio.Document.Laws.{Parsed, parse_marketing_document-Parsed}

abbrev is_line : String → String → String → Option String
is_line marked text line = if line == marked then some text else none

abbrev simple : Patterns
simple = record {
  heading_2 = is_line "## Lamp" "Lamp";
  heading_3 = λ line. none;
  unordered_item = is_line "- small" "small";
  ordered_item = is_line "1. light" "light";
  begins_like_cta = λ line. false;
  includes_http = λ line. false;
  length_of = λ line. 10;
  url = λ line. none;
  without_urls = λ line. line;
}

abbrev lines : String → List String
lines content = "## Lamp" ∷ "A lamp" ∷ "for you" ∷ "- small" ∷ "1. light" ∷ "" ∷ []

blocks :
    parse_marketing_document simple lines "text"
    ≡ heading 2 "Lamp"
      ∷ paragraph "A lamp for you"
      ∷ unordered_list ("small" ∷ [])
      ∷ ordered_list ("light" ∷ [])
      ∷ []
unfolding parse_marketing_document trim
blocks = refl

parse_marketing_document-Parsed_example :
    Parsed "text"
      (map (λ raw. read_line simple raw) (lines "text"))
      (parse_marketing_document simple lines "text")
parse_marketing_document-Parsed_example = parse_marketing_document-Parsed simple lines "text"

-- What the document with no address is written as.
written :
    serialize_document
      (λ n. "1")
      (heading 2 "Lamp" ∷ paragraph "" ∷ ordered_list ("light" ∷ []) ∷ [])
    ≡ "## Lamp\n\n1. light"
unfolding serialize_document
written = refl
