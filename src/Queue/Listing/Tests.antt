-- ===== src/Queue/Listing/Tests.antt =====
-- Two posts, the older one first in the list, shown in pages of one.
use affiliate_platform_api.Prelude.{List, String, [], none, ℕ, ◌==◌, ◌∷◌, if◌then◌else◌}
use affiliate_platform_api.Queue.Types.{QueueItem, draft}
use affiliate_platform_api.Queue.Listing.{Workspace, initial_workspace}

abbrev post : String → String → QueueItem
post id day = record {
  id = id;
  title = none;
  content = "A lamp";
  status = draft;
  scheduled_at = none;
  published_at = none;
  channel_id = none;
  product_id = none;
  image_url = none;
  button_text = none;
  button_url = none;
  created_at = day;
  updated_at = day;
  last_attempt = none;
  failure_reason = none;
  retry_count = 0;
}

abbrev posts : List QueueItem
posts = post "old" "1" ∷ post "new" "2" ∷ []

abbrev day_of : String → ℕ
day_of s = if s == "1" then 1 else 2

abbrev same : String → String
same s = s

abbrev lamps : Workspace
lamps = record initial_workspace { search = " lamp "; page_size = 1 }
