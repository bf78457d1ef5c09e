-- ===== src/Queue/View/Handlers.antt =====
-- The handlers of `QueueViewBody` in frontend/src/features/queue/components/QueueView.tsx that update
-- and delete posts: the dialog that schedules or publishes, the retry, the change of the status and
-- the deletion. Each sends its requests one after the other.
use affiliate_platform_api.Prelude.{
  List, Option, String, [], append, flat_map, if◌then◌else◌, includes, length, map, none, or_else,
  select, send_each, some, ◌++◌, ◌∷◌, ◌⊎◌, inl, inr,
}
use affiliate_platform_api.Queue.Types.{QueueItem, QueueStatus, QueueUpdate, queued, scheduled}
use affiliate_platform_api.Queue.Operations.{is_status, next_status_after_failed_retry}
use affiliate_platform_api.Queue.Listing.{clear_selection, selected_items}
use affiliate_platform_api.Queue.Publishing.{Thrown, queue_key_of}
use affiliate_platform_api.Queue.View.{
  Effect, Runtime, SchedulingState, Server, Updated, View, changed, delete_item, error_of,
  has_active_id, invalidate, item_ids, publish_selected, rejected, say, say_error, success,
  update_error, update_item,
}

abbrev pub to_schedule : String → String → String → String × QueueUpdate
to_schedule channel_id time id =
    (id, record { status = some scheduled; scheduled_at = some time; channel_id = some channel_id })

abbrev pub to_queue : String → QueueItem → String × QueueUpdate
to_queue channel_id item =
    (item.id, record { status = some queued; scheduled_at = none; channel_id = some channel_id })

abbrev pub queued_at : String → QueueItem → QueueItem
queued_at channel_id item = record item { channel_id = some channel_id; status = queued }

abbrev pub dialog_items : List QueueItem → SchedulingState → List QueueItem
dialog_items enriched_items dialog =
    select (λ item. includes dialog.item_ids item.id) enriched_items

-- `{ ...item, ...updated }`; what the answer leaves out is kept.
abbrev pub merge : QueueItem → QueueItem → QueueItem
merge item updated = record updated {
  last_attempt = or_else updated.last_attempt item.last_attempt;
  failure_reason = or_else updated.failure_reason item.failure_reason;
}

abbrev pub to_status : QueueStatus → QueueItem → String × QueueUpdate
to_status status item =
    (item.id, record { status = some status; scheduled_at = none; channel_id = none })

module _ (rt : Runtime) (server : Server) where
  abbrev pub invalidated_keys : List Effect
  invalidated_keys = map (λ key. invalidate key) (queue_key_of rt.workspace_id)

  abbrev pub when_accepted : Option Thrown → List Effect
  when_accepted none = invalidated_keys
  when_accepted (some thrown) = []

  -- `updateQueue.mutateAsync`: the request, and what `onSuccess` makes stale.
  abbrev pub update_refusal : String × QueueUpdate → Option Thrown
  update_refusal (id, input) = update_error (server.update_queue_item id input)

  abbrev pub update_effects : String × QueueUpdate → List Effect
  update_effects (id, input) = update_item id input ∷ when_accepted (update_refusal (id, input))

  -- `deleteQueue.mutateAsync`
  abbrev pub delete_refusal : String → Option Thrown
  delete_refusal id = error_of (server.delete_queue_item id)

  abbrev pub delete_effects : String → List Effect
  delete_effects id = delete_item id ∷ when_accepted (delete_refusal id)

  abbrev pub schedule_saved :
      List (String × QueueUpdate) × Option Thrown → View → View × List Effect
  schedule_saved (sent, none) v = (
    say success "The time is saved."
        (record v { scheduling_dialog = none; listing = clear_selection v.listing }),
    flat_map update_effects sent,
  )
  schedule_saved (sent, some thrown) v =
      (say_error thrown "The schedule is not saved." v, flat_map update_effects sent)

  abbrev pub save_at : Thrown ⊎ String → String → List String → View → View × List Effect
  save_at (inl thrown) channel_id ids v = (say_error thrown "The schedule is not saved." v, [])
  save_at (inr time) channel_id ids v =
      schedule_saved (send_each update_refusal (map (to_schedule channel_id time) ids)) v

  abbrev pub save_schedule_of : Option SchedulingState → String → String → View → View × List Effect
  save_schedule_of none channel_id time v = (v, [])
  save_schedule_of (some dialog) channel_id time v =
      save_at (rt.to_iso time) channel_id dialog.item_ids v

  unfoldable pub save_schedule : String → String → View → View × List Effect
  unfolding send_each
  save_schedule channel_id time v = save_schedule_of v.scheduling_dialog channel_id time v

  -- What follows on effects that are out already.
  abbrev pub after_effects : List Effect → View × List Effect → View × List Effect
  after_effects first (v, rest) = (v, first ++ rest)

  abbrev pub dialog_queued :
      String
      → List QueueItem
      → List (String × QueueUpdate) × Option Thrown
      → View
      → View × List Effect
  dialog_queued channel_id selected (sent, none) v = after_effects (flat_map update_effects sent) (
      publish_selected rt server (map (queued_at channel_id) selected)
        (record v { scheduling_dialog = none }))
  dialog_queued channel_id selected (sent, some thrown) v =
      (say_error thrown "The posts are not ready." v, flat_map update_effects sent)

  abbrev pub publish_from :
      Option SchedulingState → List QueueItem → String → View → View × List Effect
  publish_from none enriched_items channel_id v = (v, [])
  publish_from (some dialog) enriched_items channel_id v =
      let selected : List QueueItem = dialog_items enriched_items dialog in
      dialog_queued channel_id selected
        (send_each update_refusal (map (to_queue channel_id) selected)) v

  unfoldable pub publish_from_dialog : List QueueItem → String → View → View × List Effect
  unfolding send_each publish_selected
  publish_from_dialog enriched_items channel_id v =
      publish_from v.scheduling_dialog enriched_items channel_id v

  abbrev pub retried : QueueItem → QueueUpdate → Updated → View → View × List Effect
  retried item next (changed updated) v =
      if is_status updated.status queued
      then after_effects (update_item item.id next ∷ invalidated_keys)
          (publish_selected rt server (merge item updated ∷ []) v)
      else (
        say success "The failed post is scheduled again." v,
        update_item item.id next ∷ invalidated_keys,
      )
  retried item next (rejected thrown) v =
      (say_error thrown "The post is not retried." v, update_item item.id next ∷ [])

  unfoldable pub retry_failed_item : QueueItem → View → View × List Effect
  unfolding next_status_after_failed_retry publish_selected
  retry_failed_item item v =
      let next : QueueUpdate = next_status_after_failed_retry rt.is_future item in
      retried item next (server.update_queue_item item.id next) v

  abbrev pub status_changed_to :
      List (String × QueueUpdate) × Option Thrown → View → View × List Effect
  status_changed_to (sent, none) v = (
    say success "The posts are updated." (record v { listing = clear_selection v.listing }),
    flat_map update_effects sent,
  )
  status_changed_to (sent, some thrown) v =
      (say_error thrown "The status is not updated." v, flat_map update_effects sent)

  unfoldable pub change_status : List QueueItem → QueueStatus → View → View × List Effect
  unfolding send_each
  change_status enriched_items status v =
      status_changed_to
        (send_each update_refusal
          (map (to_status status) (selected_items enriched_items v.listing)))
        v

  abbrev pub deleted_all : List String × Option Thrown → View → View × List Effect
  deleted_all (sent, none) v = (
    say success (append "Deleted: " (rt.locale (length v.delete_targets))) (record v {
      active_post_id =
          if has_active_id v.active_post_id v.delete_targets then none else v.active_post_id;
      delete_targets = [];
      listing = clear_selection v.listing;
    }),
    flat_map delete_effects sent,
  )
  deleted_all (sent, some thrown) v =
      (say_error thrown "The posts are not deleted." v, flat_map delete_effects sent)

  unfoldable pub confirm_delete : View → View × List Effect
  unfolding send_each
  confirm_delete v = deleted_all (send_each delete_refusal (item_ids v.delete_targets)) v
