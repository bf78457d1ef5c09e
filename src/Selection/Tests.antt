-- ===== src/Selection/Tests.antt =====
-- Clicks on the rows and on the head of a table.
use affiliate_platform_api.Prelude.{List, String, [], ◌∷◌}

abbrev chosen : List String
chosen = "a" ∷ "z" ∷ []
