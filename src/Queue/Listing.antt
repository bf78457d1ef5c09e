-- ===== src/Queue/Listing.antt =====
-- `useQueueWorkspaceState` of frontend/src/features/queue/hooks/useQueue.ts: the search, the filters,
-- the order, the pages and the selection of the list of posts. `date_parse` is `Date.parse` on the
-- dates of the posts, which are after 1970; `lower` is `toLocaleLowerCase`.
pub mod Laws
mod Tests
use affiliate_platform_api.Prelude.{
  Bool, List, Option, String, [], codes, drop, false, get_or, if◌then◌else◌, includes, ltb, map,
  none, nonempty, not, select, some, some?, sort, take, trim, true, ℕ, zero, suc, ◌+◌, ◌*◌, ◌&&◌,
  ◌=?◌, ◌==◌, ◌||◌, ◌∷◌, is_some,
}
use affiliate_platform_api.Queue.Types.{
  QueueItem, QueueStatus, QueueWorkspaceSort, draft, failed, newest, oldest, published, queued,
  schedule_asc, schedule_desc, scheduled, status,
}
use affiliate_platform_api.Queue.Operations.{is_status}
use affiliate_platform_api.Selection.{all_selected, keep_valid, toggle, toggle_all}

abbrev pub starts_with : List ℕ → List ℕ → Bool
starts_with cs [] = true
starts_with [] (d ∷ ds) = false
starts_with (c ∷ cs) (d ∷ ds) = c =? d && starts_with cs ds

abbrev pub has_part : List ℕ → List ℕ → Bool
has_part [] ds = starts_with [] ds
has_part (c ∷ cs) ds = starts_with (c ∷ cs) ds || has_part cs ds

-- `text.includes(part)`
abbrev pub contains_text : String → String → Bool
contains_text text part = has_part (codes text) (codes part)

-- The values that are there, without the empty ones: `filter(Boolean)`.
abbrev pub present : List (Option String) → List String
present [] = []
present (none ∷ values) = present values
present (some v ∷ values) = if v == "" then present values else v ∷ present values

-- The filters, the order, the page, and the selected ids. An empty filter is `none`.
pub record Workspace : Type 0 where
  pub selected_ids : List String
  pub search : String
  pub status_filter : Option QueueStatus
  pub channel_filter : String
  pub order : QueueWorkspaceSort
  pub page_size : ℕ
  pub page : ℕ

abbrev pub initial_workspace : Workspace
initial_workspace = record {
  selected_ids = [];
  search = "";
  status_filter = none;
  channel_filter = "";
  order = newest;
  page_size = 25;
  page = 0;
}

abbrev pub matches_status : Option QueueStatus → QueueStatus → Bool
matches_status none held = true
matches_status (some wanted) held = is_status held wanted

abbrev pub same_channel : Option String → String → Bool
same_channel none channel = false
same_channel (some id) channel = id == channel

abbrev pub matches_channel : String → Option String → Bool
matches_channel channel_filter channel_id =
    if channel_filter == ""
    then true
    else if channel_filter == "missing"
    then not (is_some (nonempty channel_id))
    else same_channel channel_id channel_filter

-- The order of the statuses by their names.
abbrev pub status_rank : QueueStatus → ℕ
status_rank draft = 0
status_rank failed = 1
status_rank published = 2
status_rank queued = 3
status_rank scheduled = 4

module _ (lower : String → String) (date_parse : String → ℕ) where
  abbrev pub matches_query : String → List (Option String) → Bool
  matches_query query values =
      query == "" || some? (λ value. contains_text (lower value) query) (present values)

  abbrev pub matches : Workspace → QueueItem → Bool
  matches w item =
      matches_query (lower (trim w.search)) (item.title ∷ some item.content ∷ item.product_id ∷ [])
      && matches_status w.status_filter item.status
      && matches_channel w.channel_filter item.channel_id

  -- `y` must stand before `x`: the comparison of `y` with `x` is negative.
  abbrev pub before : QueueWorkspaceSort → QueueItem → QueueItem → Bool
  before newest y x = ltb (date_parse x.created_at) (date_parse y.created_at)
  before oldest y x = ltb (date_parse y.created_at) (date_parse x.created_at)
  before schedule_asc y x =
      ltb (date_parse (get_or y.scheduled_at "9999-12-31"))
        (date_parse (get_or x.scheduled_at "9999-12-31"))
  before schedule_desc y x =
      ltb (date_parse (get_or x.scheduled_at "1970-01-01"))
        (date_parse (get_or y.scheduled_at "1970-01-01"))
  before status y x = ltb (status_rank y.status) (status_rank x.status)

  unfoldable pub filtered_items : List QueueItem → Workspace → List QueueItem
  filtered_items items w = sort (before w.order) (select (matches w) items)

  -- `slice(page * pageSize, (page + 1) * pageSize)`
  unfoldable pub paged_items : List QueueItem → Workspace → List QueueItem
  unfolding filtered_items
  paged_items items w = take w.page_size (drop (w.page * w.page_size) (filtered_items items w))

  abbrev pub page_ids : List QueueItem → Workspace → List String
  page_ids items w = map (λ item. item.id) (paged_items items w)

  unfoldable pub all_page_selected : List QueueItem → Workspace → Bool
  unfolding paged_items all_selected
  all_page_selected items w = all_selected (page_ids items w) w.selected_ids

  unfoldable pub toggle_all_items : List QueueItem → Workspace → Workspace
  unfolding paged_items toggle_all
  toggle_all_items items w = record w {
    selected_ids = toggle_all (page_ids items w) w.selected_ids;
  }

abbrev pub selected_items : List QueueItem → Workspace → List QueueItem
selected_items items w = select (λ item. includes w.selected_ids item.id) items

unfoldable pub toggle_item : String → Workspace → Workspace
unfolding toggle
toggle_item id w = record w { selected_ids = toggle id w.selected_ids }

-- The list of posts has changed.
unfoldable pub on_items : List QueueItem → Workspace → Workspace
unfolding keep_valid
on_items items w = record w {
  selected_ids = keep_valid (map (λ item. item.id) items) w.selected_ids;
}

abbrev pub clear_selection : Workspace → Workspace
clear_selection w = record w { selected_ids = [] }

abbrev pub same_status : Option QueueStatus → Option QueueStatus → Bool
same_status none none = true
same_status (some a) (some b) = is_status a b
same_status _ _ = false

abbrev pub same_sort : QueueWorkspaceSort → QueueWorkspaceSort → Bool
same_sort newest newest = true
same_sort oldest oldest = true
same_sort schedule_asc schedule_asc = true
same_sort schedule_desc schedule_desc = true
same_sort status status = true
same_sort _ _ = false

-- The setters of the filters, each with the effect that goes back to the first page.
abbrev pub set_search : String → Workspace → Workspace
set_search search w = record w { search = search; page = if search == w.search then w.page else 0 }

abbrev pub set_status_filter : Option QueueStatus → Workspace → Workspace
set_status_filter wanted w = record w {
  status_filter = wanted;
  page = if same_status wanted w.status_filter then w.page else 0;
}

abbrev pub set_channel_filter : String → Workspace → Workspace
set_channel_filter channel w = record w {
  channel_filter = channel;
  page = if channel == w.channel_filter then w.page else 0;
}

abbrev pub set_sort : QueueWorkspaceSort → Workspace → Workspace
set_sort order w = record w { order = order; page = if same_sort order w.order then w.page else 0 }

abbrev pub set_page_size : ℕ → Workspace → Workspace
set_page_size size w = record w {
  page_size = size;
  page = if size =? w.page_size then w.page else 0;
}

abbrev pub set_page : ℕ → Workspace → Workspace
set_page page w = record w { page = page }
