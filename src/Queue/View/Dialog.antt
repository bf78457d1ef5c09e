-- ===== src/Queue/View/Dialog.antt =====
-- Publishing from the dialog of the page of posts.
use affiliate_platform_api.Prelude.{
  List, Option, Outcome, String, [], arith, false, flat_map, map, none, refl, send_each,
  send_each-Outcome, some, some?, subst, sym, unique, ◌++◌, ◌==◌, ◌≡◌, ◌∷◌, ap,
}
use affiliate_platform_api.Queue.Types.{QueueItem, QueueUpdate}
use affiliate_platform_api.Queue.Publishing.{Thrown}
use affiliate_platform_api.Queue.View.{
  Effect, Runtime, SchedulingState, Server, View, item_ids, lacks_channel, publish_item,
  publish_selected,
}
use affiliate_platform_api.Queue.View.Handlers.{
  dialog_items, dialog_queued, publish_from, publish_from_dialog, queued_at, to_queue,
  update_effects, update_refusal,
}

all_have_channel :
    (channel_id : String) (items : List QueueItem)
    → (channel_id == "") ≡ false
    → some? lacks_channel (map (queued_at channel_id) items) ≡ false
all_have_channel channel_id [] h = refl
all_have_channel channel_id (item ∷ items) h = ground (arith, all_have_channel channel_id items h)

ids-queued_at :
    (channel_id : String) (items : List QueueItem)
    → item_ids (map (queued_at channel_id) items) ≡ item_ids items
ids-queued_at channel_id [] = refl
ids-queued_at channel_id (item ∷ items) = ap (λ l. item.id ∷ l) (ids-queued_at channel_id items)

module _ (rt : Runtime) (server : Server) where
  -- After the updates have been sent: either all were accepted, and the publishing requests follow,
  -- or none follows, and the page keeps what it had.
  abbrev pub Published :
      Option Thrown
      → SchedulingState
      → List QueueItem
      → View
      → View × List Effect
      → List Effect
      → Type 0
  Published none dialog selected v (v', effects) updates =
      (effects ≡ updates ++ map (λ id. publish_item id) (unique (item_ids selected)))
      × (v'.scheduling_dialog ≡ none)
  Published (some thrown) dialog selected v (v', effects) updates =
      (effects ≡ updates)
      × (v'.scheduling_dialog ≡ v.scheduling_dialog)
      × (v'.publishing ≡ v.publishing)
      × (v'.listing ≡ v.listing)

  pub record DialogOutcome (selected : List QueueItem) (channel_id : String)
      (dialog : SchedulingState) (v : View) (result : View × List Effect) : Type 0 where
    pub sent : List (String × QueueUpdate)
    pub thrown : Option Thrown
    pub outcome :
        Outcome (update_refusal rt server) (map (to_queue channel_id) selected) sent thrown
    pub published :
        Published thrown dialog selected v result (flat_map (update_effects rt server) sent)

  -- With a channel for each, what is selected is published.
  publish_all :
      (selected : List QueueItem) (v : View)
      → some? lacks_channel selected ≡ false
      → ((publish_selected rt server selected v).1
          ≡ map (λ id. publish_item id) (unique (item_ids selected)))
        × ((publish_selected rt server selected v).0.scheduling_dialog ≡ v.scheduling_dialog)
  unfolding publish_selected
  publish_all [] v h = (refl, refl)
  publish_all (first ∷ items) v h = rw h (refl, refl)

  dialog_outcome :
      (selected : List QueueItem) (channel_id : String) (dialog : SchedulingState) (v : View)
      (loop : List (String × QueueUpdate) × Option Thrown)
      → (channel_id == "") ≡ false
      → Outcome (update_refusal rt server) (map (to_queue channel_id) selected) loop.0 loop.1
      → DialogOutcome selected channel_id dialog v
          (dialog_queued rt server channel_id selected loop v)
  dialog_outcome selected channel_id dialog v (sent, none) h k =
      let closed : View = record v { scheduling_dialog = none } in
      let (requests, shut) =
        publish_all (map (queued_at channel_id) selected) closed
          (all_have_channel channel_id selected h) in
      record {
        sent = sent;
        thrown = none;
        outcome = k;
        published = (
          ap (λ rest. flat_map (update_effects rt server) sent ++ rest)
              (subst
                (λ ids.
                  (publish_selected rt server (map (queued_at channel_id) selected) closed).1
                  ≡ map (λ id. publish_item id) (unique ids))
                (ids-queued_at channel_id selected) requests),
          shut,
        );
      }
  dialog_outcome selected channel_id dialog v (sent, some thrown) h k = record {
    sent = sent;
    thrown = some thrown;
    outcome = k;
    published = (refl, refl, refl, refl);
  }

  -- To publish the posts of an open dialog to a channel that was chosen: each post of the list that
  -- the dialog names is first updated to be queued for that channel, in order. Only when all these
  -- updates are accepted the dialog closes, and one publishing request goes out for each of them;
  -- when one is refused, no publishing request goes out at all, and the dialog, the posts in flight
  -- and the selection stay as they were.
  pub publish_from_dialog_lem :
      (enriched_items : List QueueItem) (channel_id : String) (dialog : SchedulingState) (v : View)
      → v.scheduling_dialog ≡ some dialog
      → (channel_id == "") ≡ false
      → DialogOutcome
          (dialog_items enriched_items dialog)
          channel_id
          dialog
          v
          (publish_from_dialog rt server enriched_items channel_id v)
  unfolding publish_from_dialog
  publish_from_dialog_lem enriched_items channel_id dialog v opened chosen =
      let selected : List QueueItem = dialog_items enriched_items dialog in
      subst
        (λ o.
          DialogOutcome selected channel_id dialog v
            (publish_from rt server o enriched_items channel_id v))
        (sym opened)
        (dialog_outcome selected channel_id dialog v
          (send_each (update_refusal rt server) (map (to_queue channel_id) selected)) chosen
          (send_each-Outcome (update_refusal rt server) (map (to_queue channel_id) selected)))
