-- ===== src/Queue/View/Tests.antt =====
-- Posts on the page, with servers that accept, refuse and answer late, and the laws at them.
use affiliate_platform_api.Prelude.{
  true, String, [], append, false, inr, none, refl, replicate, send_each, some, some?,
  if◌then◌else◌, ◌==◌, ◌≡◌, ◌∷◌, ◌||◌,
}
use affiliate_platform_api.Queue.Types.{QueueItem, draft, failed, queued}
use affiliate_platform_api.Queue.Operations.Laws.{updated}
use affiliate_platform_api.Queue.Listing.{initial_workspace}
use affiliate_platform_api.Queue.Publishing.{Thrown, accepted, refused}
use affiliate_platform_api.Queue.View.{
  Runtime, SchedulingState, Server, View, changed, close_inspector, delete_item, lacks_channel,
  open_ai, publish_selected, push, rejected,
}
use affiliate_platform_api.Queue.View.Handlers.{
  change_status, confirm_delete, dialog_items, publish_from_dialog, retry_failed_item,
}
use affiliate_platform_api.Queue.View.Laws.{PublishOutcome, publish_selected_lem}
use affiliate_platform_api.Queue.View.Dialog.{DialogOutcome, publish_from_dialog_lem}
use affiliate_platform_api.Queue.View.Retries.{
  confirm_again_stuck, confirm_times, requests, retry_requests, retry_failed_item_lem,
}

abbrev broken : QueueItem
broken = record {
  id = "q1";
  title = some "Lamp";
  content = "A lamp";
  status = failed;
  scheduled_at = some "2030-01-01";
  published_at = none;
  channel_id = some "c1";
  product_id = none;
  image_url = none;
  button_text = none;
  button_url = none;
  created_at = "2026-01-01";
  updated_at = "2026-01-02";
  last_attempt = none;
  failure_reason = none;
  retry_count = 1;
}

abbrev utc : Runtime
utc = record {
  workspace_id = some "w";
  now = λ id. "12:00";
  is_future = λ time. time == "2030-01-01";
  locale = λ n. "n";
  to_date_time_local = λ time. time;
  to_iso = λ time. inr (append time "Z");
  encode_uri_component = λ text. text;
}

abbrev lost : Thrown
lost = record { message = some "Not found"; status = some 404 }

-- Posts `a` and `c` can be changed, `b` is refused.
abbrev picky : Server
picky = record {
  update_queue_item = λ id input. if id == "b" then rejected lost else changed broken;
  delete_queue_item = λ id. if id == "b" then refused lost else accepted;
  publish_queue_item = λ id. if id == "b" then refused lost else accepted;
}

-- The same server after `a` is gone.
abbrev later_on : Server
later_on = record picky {
  delete_queue_item = λ id. if id == "a" || id == "b" then refused lost else accepted;
}

abbrev echo : Server
echo = record picky { update_queue_item = λ id input. changed (updated input broken) }

abbrev post : String → QueueItem
post id = record broken { id = id; status = queued }

abbrev dialog : SchedulingState
dialog = record { item_ids = "a" ∷ "b" ∷ "c" ∷ []; channel_id = "c1"; scheduled_at = "" }

abbrev page : View
page = record {
  active_post_id = some "a";
  scheduling_dialog = some dialog;
  delete_targets = post "a" ∷ post "b" ∷ post "c" ∷ [];
  toast = none;
  listing = record initial_workspace { selected_ids = "a" ∷ "b" ∷ [] };
  publishing = record { publishing_ids = []; failures = []; invalidated = [] };
}

deletion-run :
    (confirm_delete utc later_on (confirm_delete utc picky page).0).1 ≡ delete_item "a" ∷ []
unfolding confirm_delete send_each
deletion-run = refl

inspector-run :
    (close_inspector false (post "b" ∷ []) (record page { delete_targets = [] })).active_post_id
    ≡ none
unfolding close_inspector
inspector-run = refl

status-run :
    (change_status utc echo (post "a" ∷ post "c" ∷ []) draft page).0.listing.selected_ids ≡ []
unfolding change_status send_each
status-run = refl

ai-run : open_ai utc (record broken { button_url = some "u" }) ≡ push "/ai?url=u" ∷ []
unfolding open_ai
ai-run = refl

publish_selected_lem_example :
    PublishOutcome utc picky
      (some? lacks_channel (post "a" ∷ post "b" ∷ []))
      (post "a" ∷ post "b" ∷ [])
      page
      (publish_selected utc picky (post "a" ∷ post "b" ∷ []) page)
publish_selected_lem_example = publish_selected_lem utc picky (post "a") (post "b" ∷ []) page

publish_from_dialog_lem_example :
    DialogOutcome utc picky
      (dialog_items (post "a" ∷ post "d" ∷ []) dialog)
      "c2"
      dialog
      page
      (publish_from_dialog utc picky (post "a" ∷ post "d" ∷ []) "c2" page)
publish_from_dialog_lem_example =
    publish_from_dialog_lem utc picky (post "a" ∷ post "d" ∷ []) "c2" dialog page refl refl

retry_failed_item_lem_example :
    requests (retry_failed_item utc echo broken page).1
    ≡ retry_requests "q1" (some "2030-01-01") true
retry_failed_item_lem_example = retry_failed_item_lem utc echo broken page refl refl

confirm_again_stuck_example :
    (let (v', effects) = confirm_times utc later_on 2 (confirm_delete utc picky page).0 in
      (effects ≡ replicate 2 (delete_item "a"))
      × (v'.delete_targets ≡ post "a" ∷ post "b" ∷ post "c" ∷ [])
      × (v'.listing ≡ page.listing))
confirm_again_stuck_example =
    confirm_again_stuck utc picky later_on (post "a") (post "b" ∷ post "c" ∷ []) page 2 refl refl
      refl refl
