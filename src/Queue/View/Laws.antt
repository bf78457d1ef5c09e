-- ===== src/Queue/View/Laws.antt =====
-- What the handlers of the page of posts do: the guard before publishing, the toast after a batch,
-- and the requests of the dialog when one of them fails.
use affiliate_platform_api.Prelude.{
  Bool, Bool-cases, List, Option, Outcome, String, [], arith, every, false, flat_map, inl, inr,
  length, map, none, not, refl, select, send_each, send_each-Outcome, some, some?, true, unique,
  ◌&&◌, ◌=?◌, ◌≡◌, ◌∷◌, sym, subst, ap,
}
use affiliate_platform_api.Queue.Types.{QueueItem, QueueUpdate}
use affiliate_platform_api.Queue.Publishing.{
  Answer, PublishBatchResult, Publishing, Thrown, accepted, publish_items, refused,
}
use affiliate_platform_api.Queue.Publishing.Laws.{
  is_accepted, is_conflict, is_failure, publish_items-Counts,
}
use affiliate_platform_api.Queue.View.{
  Effect, Runtime, SchedulingState, Server, Toast, Tone, View, batch_toast, item_ids, lacks_channel,
  publish_item, publish_selected, success, error,
}
use affiliate_platform_api.Queue.View.Handlers.{
  save_at, save_schedule_of, schedule_saved, save_schedule, to_schedule, update_effects,
  update_refusal,
}

abbrev pub is_success : Option Toast → Bool
is_success none = false
is_success (some toast) = tone_is_success toast.tone
  where
    tone_is_success : Tone → Bool
    tone_is_success success = true
    tone_is_success error = false

accepted_split :
    (answer : Answer) → is_accepted answer ≡ (not (is_failure answer) && not (is_conflict answer))
accepted_split accepted = refl
accepted_split (refused e) = ground arith

-- A batch has neither a failure nor a conflict exactly when each post is accepted.
none_refused :
    (answers : String → Answer) (ids : List String)
    → every (λ id. is_accepted (answers id)) ids ≡ (
        length (select (λ id. is_failure (answers id)) ids) =? 0
        && length (select (λ id. is_conflict (answers id)) ids) =? 0)
none_refused answers [] = refl
none_refused answers (id ∷ ids) =
    ground (arith, accepted_split (answers id), none_refused answers ids)

batch_tone :
    (rt : Runtime) (r : PublishBatchResult)
    → is_success (some (batch_toast rt r)) ≡ (r.failed =? 0 && r.conflicts =? 0)
batch_tone rt r = ground arith

abbrev pub dialog_ids : Option SchedulingState → List String
dialog_ids none = []
dialog_ids (some dialog) = dialog.item_ids

module _ (rt : Runtime) (server : Server) where
  -- What has happened to the page `v` once it was asked to publish the posts: without a channel for
  -- each, nothing but the dialog; else the batch.
  abbrev pub PublishOutcome : Bool → List QueueItem → View → View × List Effect → Type 0
  PublishOutcome true selected v (v', effects) =
      (effects ≡ [])
      × (v'.publishing ≡ v.publishing)
      × (v'.listing ≡ v.listing)
      × (dialog_ids v'.scheduling_dialog ≡ item_ids selected)
      × (is_success v'.toast ≡ false)
  PublishOutcome false selected v (v', effects) =
      (effects ≡ map (λ id. publish_item id) (unique (item_ids selected)))
      × (v'.listing.selected_ids ≡ [])
      × (is_success v'.toast
          ≡ every (λ id. is_accepted (server.publish_queue_item id)) (unique (item_ids selected)))

  batch_success :
      (ids : List String) (p : Publishing)
      → is_success (
          some (
            batch_toast rt
              (publish_items rt.workspace_id server.publish_queue_item rt.now ids p).0))
        ≡ every (λ id. is_accepted (server.publish_queue_item id)) (unique ids)
  batch_success ids p =
      let r : PublishBatchResult =
        (publish_items rt.workspace_id server.publish_queue_item rt.now ids p).0 in
      let ((published, failed, conflicts), sum) =
        publish_items-Counts rt.workspace_id server.publish_queue_item rt.now ids p in
      ground (
        arith,
        batch_tone rt r,
        none_refused server.publish_queue_item (unique ids),
        ap (λ n. n =? 0) failed,
        ap (λ n. n =? 0) conflicts,
      )

  -- To publish a selection: when a post has no channel, nothing is sent, the posts in flight, the
  -- selection and the filters stay, and the dialog opens for exactly these posts; otherwise one
  -- request goes out for each post of the selection, in order, the selection is emptied, and the
  -- toast tells of a success exactly when the server has accepted each of them.
  pub publish_selected_lem :
      (first : QueueItem) (items : List QueueItem) (v : View)
      → PublishOutcome
          (some? lacks_channel (first ∷ items))
          (first ∷ items)
          v
          (publish_selected rt server (first ∷ items) v)
  unfolding publish_selected
  publish_selected_lem first items v = elim (Bool-cases (some? lacks_channel (first ∷ items))) [
    | inl lacks ↦ rw lacks (refl, refl, refl, refl, refl)
    | inr all ↦ rw all (refl, refl, batch_success (item_ids (first ∷ items)) v.publishing)
  ]

  abbrev pub Saved : Option Thrown → View → View → Type 0
  Saved none v v' =
      (v'.scheduling_dialog ≡ none) × (v'.listing.selected_ids ≡ []) × (is_success v'.toast ≡ true)
  Saved (some thrown) v v' =
      (v'.scheduling_dialog ≡ v.scheduling_dialog)
      × (v'.listing ≡ v.listing)
      × (is_success v'.toast ≡ false)

  -- A loop over the updates `wanted` has gone to its end, or stopped at the first that was refused.
  pub record SaveOutcome (wanted : List (String × QueueUpdate)) (v v' : View)
      (effects : List Effect) : Type 0 where
    pub sent : List (String × QueueUpdate)
    pub thrown : Option Thrown
    pub outcome : Outcome (update_refusal rt server) wanted sent thrown
    pub effects_sent : effects ≡ flat_map (update_effects rt server) sent
    pub saved : Saved thrown v v'

  schedule_saved-SaveOutcome :
      (wanted : List (String × QueueUpdate)) (v : View)
      (loop : List (String × QueueUpdate) × Option Thrown)
      → Outcome (update_refusal rt server) wanted loop.0 loop.1
      → SaveOutcome wanted v (schedule_saved rt server loop v).0 (schedule_saved rt server loop v).1
  schedule_saved-SaveOutcome wanted v (sent, none) h = record {
    sent = sent;
    thrown = none;
    outcome = h;
    effects_sent = refl;
    saved = (refl, refl, refl);
  }
  schedule_saved-SaveOutcome wanted v (sent, some thrown) h = record {
    sent = sent;
    thrown = some thrown;
    outcome = h;
    effects_sent = refl;
    saved = (refl, refl, refl);
  }

  -- To save the time of the posts of an open dialog, at a time that can be read: the updates go out
  -- in the order of the dialog until one is refused. When all are accepted the dialog closes, the
  -- selection is emptied and a success is shown; when one is refused, the posts before it keep
  -- their update, those after it get none, the dialog and the selection stay as they were, and an
  -- error is shown.
  pub save_schedule_lem :
      (channel_id time iso : String) (dialog : SchedulingState) (v : View)
      → v.scheduling_dialog ≡ some dialog
      → rt.to_iso time ≡ inr iso
      → SaveOutcome
          (map (to_schedule channel_id iso) dialog.item_ids)
          v
          (save_schedule rt server channel_id time v).0
          (save_schedule rt server channel_id time v).1
  unfolding save_schedule
  save_schedule_lem channel_id time iso dialog v opened readable =
      let wanted : List (String × QueueUpdate) = map (to_schedule channel_id iso) dialog.item_ids in
      let P = λ (r : View × List Effect). SaveOutcome wanted v r.0 r.1 in
      subst (λ o. P (save_schedule_of rt server o channel_id time v)) (sym opened)
        (subst (λ r. P (save_at rt server r channel_id dialog.item_ids v)) (sym readable)
          (schedule_saved-SaveOutcome wanted v (send_each (update_refusal rt server) wanted)
            (send_each-Outcome (update_refusal rt server) wanted)))
