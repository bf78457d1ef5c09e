-- ===== src/Selection.antt =====
-- The selection of rows that the lists of posts and of products keep, by the ids of the rows:
-- frontend/src/features/queue/hooks/useQueue.ts and frontend/src/features/products/hooks/useProducts.ts
-- write these same lines.
pub mod Laws
mod Tests
use affiliate_platform_api.Prelude.{
  Bool, List, String, [], every, false, if◌then◌else◌, includes, not, select, true, unique, without,
  without_all, ◌&&◌, ◌++◌, ◌∷◌,
}

unfoldable pub toggle : String → List String → List String
toggle id selected = if includes selected id then without id selected else selected ++ id ∷ []

abbrev pub is_empty : List String → Bool
is_empty [] = true
is_empty (x ∷ xs) = false

unfoldable pub all_selected : List String → List String → Bool
all_selected shown selected = not (is_empty shown) && every (includes selected) shown

unfoldable pub toggle_all : List String → List String → List String
unfolding all_selected
toggle_all shown selected =
    if all_selected shown selected then without_all shown selected else unique (selected ++ shown)

-- A row that is gone is not selected any longer.
unfoldable pub keep_valid : List String → List String → List String
keep_valid valid selected = select (includes valid) selected
