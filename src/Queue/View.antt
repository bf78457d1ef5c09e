-- ===== src/Queue/View.antt =====
-- `QueueViewBody` of frontend/src/features/queue/components/QueueView.tsx: what the page of posts
-- does with the posts. The rendering is left out; a handler runs from its start to its end with the
-- state that it was rendered with. The Arabic texts stand here in English.
pub mod Handlers
pub mod Laws
pub mod Dialog
pub mod Retries
mod Tests
use affiliate_platform_api.Prelude.{
  Bool, List, Option, String, [], append, false, find, flat_map, get_or, if◌then◌else◌, includes,
  is_some, join, ltb, map, none, nonempty, not, or_else, select, send_each, some, some?, true,
  unique, ℕ, ◌&&◌, ◌++◌, ◌=?◌, ◌==◌, ◌||◌, ◌∷◌, ◌⊎◌, inl, inr,
}
use affiliate_platform_api.Workspace.{QueryKey}
use affiliate_platform_api.Queue.Types.{
  QueueItem, QueueStatus, QueueUpdate, draft, failed, published, queued, scheduled,
}
use affiliate_platform_api.Queue.Keys.{queue_key}
use affiliate_platform_api.Queue.Operations.{is_status, next_status_after_failed_retry}
use affiliate_platform_api.Queue.Listing.{Workspace, clear_selection, selected_items}
use affiliate_platform_api.Queue.Publishing.{
  Answer, PublishBatchResult, Publishing, Thrown, accepted, get_api_error_message, publish_items,
  queue_key_of, refused,
}

pub record SchedulingState : Type 0 where
  pub item_ids : List String
  pub channel_id : String
  pub scheduled_at : String

pub data Tone : Type 0 where
  success error : Tone

pub record Toast : Type 0 where
  pub tone : Tone
  pub message : String

-- The state of the page: its own, that of the list, and that of the publishing operations.
pub record View : Type 0 where
  pub active_post_id : Option String
  pub scheduling_dialog : Option SchedulingState
  pub delete_targets : List QueueItem
  pub toast : Option Toast
  pub listing : Workspace
  pub publishing : Publishing

-- What goes out, in order: the requests, the invalidation of queries, the change of the page.
pub data Effect : Type 0 where
  update_item : String → QueueUpdate → Effect
  delete_item : String → Effect
  publish_item : String → Effect
  invalidate : QueryKey → Effect
  push : String → Effect

pub data Updated : Type 0 where
  changed : QueueItem → Updated
  rejected : Thrown → Updated

-- The answers of the server to the requests of one handler.
pub record Server : Type 0 where
  pub update_queue_item : String → QueueUpdate → Updated
  pub delete_queue_item : String → Answer
  pub publish_queue_item : String → Answer

-- What the page takes from the runtime: the active workspace, the clock, numbers and times as texts
-- (`to_iso` throws at a text that is no time), and `encodeURIComponent`.
pub record Runtime : Type 0 where
  pub workspace_id : Option String
  pub now : String → String
  pub is_future : String → Bool
  pub locale : ℕ → String
  pub to_date_time_local : String → String
  pub to_iso : String → Thrown ⊎ String
  pub encode_uri_component : String → String

abbrev pub say : Tone → String → View → View
say tone message v = record v { toast = some (record { tone = tone; message = message }) }

abbrev pub say_error : Thrown → String → View → View
say_error thrown fallback v = say error (get_api_error_message thrown fallback) v

abbrev pub has_active_id : Option String → List QueueItem → Bool
has_active_id none items = false
has_active_id (some id) items = some? (λ item. item.id == id) items

-- The effect that closes the inspector once the list has lost the post.
unfoldable pub close_inspector : Bool → List QueueItem → View → View
close_inspector is_pending list_items v =
    if not (is_some v.active_post_id) || is_pending
    then v
    else if not (has_active_id v.active_post_id list_items)
    then record v { active_post_id = none }
    else v

abbrev pub active_post : List QueueItem → Option String → Option QueueItem
active_post items none = none
active_post items (some id) = if id == "" then none else find (λ item. item.id == id) items

abbrev pub lacks_channel : QueueItem → Bool
lacks_channel item = not (is_some (nonempty item.channel_id))

abbrev pub item_ids : List QueueItem → List String
item_ids items = map (λ item. item.id) items

-- Parts of a message that are there.
abbrev pub part : Bool → String → List String
part true text = text ∷ []
part false text = []

abbrev pub with_reason : Option String → String
with_reason none = ""
with_reason (some reason) = append ": " reason

abbrev pub error_of : Answer → Option Thrown
error_of accepted = none
error_of (refused thrown) = some thrown

abbrev pub update_error : Updated → Option Thrown
update_error (changed item) = none
update_error (rejected thrown) = some thrown

module _ (rt : Runtime) where
  -- The toast after a batch.
  abbrev pub batch_toast : PublishBatchResult → Toast
  batch_toast r =
      if ltb 0 r.conflicts && r.published =? 0 && r.failed =? 0
      then record { tone = error; message = get_or r.conflict_message "A conflict." }
      else if ltb 0 r.failed || ltb 0 r.conflicts
      then record {
        tone = error;
        message = join ", " (
            part (ltb 0 r.published) (append "published " (rt.locale r.published))
            ++ part (ltb 0 r.failed) (
                append (append "failed " (rt.locale r.failed))
                  (with_reason (nonempty r.failure_message)))
            ++ part (ltb 0 r.conflicts) (
                append (append "conflicts " (rt.locale r.conflicts))
                  (with_reason (nonempty r.conflict_message))));
      }
      else record { tone = success; message = append "Published: " (rt.locale r.published) }

  abbrev pub local_time : Option String → String
  local_time none = ""
  local_time (some time) = rt.to_date_time_local time

  abbrev pub open_schedule : List QueueItem → View → View
  open_schedule [] v = v
  open_schedule (first ∷ items) v = record v {
    scheduling_dialog = some (record {
      item_ids = item_ids (first ∷ items);
      channel_id = get_or first.channel_id "";
      scheduled_at = local_time (nonempty first.scheduled_at);
    });
  }

  abbrev pub finish_publish : PublishBatchResult × Publishing → View → View
  finish_publish (result, p) v = record v {
    toast = some (batch_toast result);
    listing = clear_selection v.listing;
    publishing = p;
  }

  module _ (server : Server) where
    -- `publishItems` of the page.
    unfoldable pub publish_selected : List QueueItem → View → View × List Effect
    unfolding publish_items
    publish_selected [] v = (v, [])
    publish_selected (first ∷ items) v =
        let selected : List QueueItem = first ∷ items in
        if some? lacks_channel selected
        then (say error "Assign a channel first." (open_schedule selected v), [])
        else (
          finish_publish
              (publish_items rt.workspace_id server.publish_queue_item rt.now (item_ids selected)
                v.publishing)
              v,
          map (λ id. publish_item id) (unique (item_ids selected)),
        )

  abbrev pub ai_page : Option String → Option String → List Effect
  ai_page none none = []
  ai_page none (some url) = push (append "/ai?url=" (rt.encode_uri_component url)) ∷ []
  ai_page (some product_id) url =
      push (append "/ai?product=" (rt.encode_uri_component product_id)) ∷ []

  unfoldable pub open_ai : QueueItem → List Effect
  open_ai item = ai_page (nonempty item.product_id) (nonempty item.button_url)
