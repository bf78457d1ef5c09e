-- ===== src/Queue/View/Retries.antt =====
-- What is tried again on the page of posts: a failed post, and a deletion that failed half-way.
use affiliate_platform_api.Prelude.{
  Bool, Bool-cases, List, Option, String, [], arith, false, inl, inr, is_some, map, none, nonempty,
  refl, replicate, send_each, send_each-thrown, ap₂, some, some?, subst, suc, sym, true, zero, ℕ,
  ◌++◌, ◌≡◌, ◌∷◌, ◌∙◌, ap,
}
use affiliate_platform_api.Queue.Types.{QueueItem, QueueStatus, QueueUpdate, queued, scheduled}
use affiliate_platform_api.Queue.Operations.{next_status_after_failed_retry, retry_update}
use affiliate_platform_api.Queue.Operations.Laws.{updated}
use affiliate_platform_api.Queue.Publishing.{Thrown}
use affiliate_platform_api.Queue.View.{
  Effect, Runtime, Server, View, changed, delete_item, invalidate, item_ids, publish_item,
  publish_selected, push, update_item,
}
use affiliate_platform_api.Queue.View.Handlers.{
  confirm_delete, delete_refusal, deleted_all, merge, retried, retry_failed_item, when_accepted,
}
use affiliate_platform_api.Queue.Publishing.{queue_key_of}
use affiliate_platform_api.Workspace.{QueryKey}

-- The requests to the server among what goes out, in order.
abbrev pub requests : List Effect → List Effect
requests [] = []
requests (publish_item id ∷ effects) = publish_item id ∷ requests effects
requests (update_item id input ∷ effects) = update_item id input ∷ requests effects
requests (delete_item id ∷ effects) = delete_item id ∷ requests effects
requests (invalidate key ∷ effects) = requests effects
requests (push url ∷ effects) = requests effects

-- The post waits for a time that is still to come.
abbrev pub waits : (String → Bool) → Option String → Bool
waits is_future none = false
waits is_future (some time) = is_future time

-- What a post waits for again, or the queue that it goes back to.
abbrev pub sent_back : QueueStatus → Option String → QueueUpdate
sent_back status time = record { status = some status; scheduled_at = time; channel_id = none }

-- The requests of a retry: of a post that waits, and of one that is published at once.
abbrev pub retry_requests : String → Option String → Bool → List Effect
retry_requests id time true = update_item id (sent_back scheduled time) ∷ []
retry_requests id time false = update_item id (sent_back queued none) ∷ publish_item id ∷ []

requests-invalidated :
    (keys : List QueryKey) (effects : List Effect)
    → requests (map (λ key. invalidate key) keys ++ effects) ≡ requests effects
requests-invalidated [] effects = refl
requests-invalidated (key ∷ keys) effects = requests-invalidated keys effects

none_requested : (keys : List QueryKey) → requests (map (λ key. invalidate key) keys) ≡ []
none_requested [] = refl
none_requested (key ∷ keys) = none_requested keys

module _ (rt : Runtime) (server : Server) where
  published_one :
      (item : QueueItem) (v : View)
      → is_some (nonempty item.channel_id) ≡ true
      → requests (publish_selected rt server (item ∷ []) v).1 ≡ publish_item item.id ∷ []
  unfolding publish_selected
  published_one item v h = rw h refl

  abbrev pub Retried : QueueItem → View → Option String → Type 0
  Retried item v time =
      let next : QueueUpdate = retry_update rt.is_future time in
      requests (retried rt server item next (changed (updated next item)) v).1
      ≡ retry_requests item.id time (waits rt.is_future time)

  retried_lem :
      (item : QueueItem) (v : View) (time : Option String)
      → is_some (nonempty item.channel_id) ≡ true
      → Retried item v time
  retried_lem item v none h =
      ap (λ es. update_item item.id (sent_back queued none) ∷ es)
        (requests-invalidated (queue_key_of rt.workspace_id) (_)
          ∙ published_one (merge item (updated (retry_update rt.is_future none) item)) v h)
  retried_lem item v (some time) h = elim (Bool-cases (rt.is_future time)) [
    | inl later ↦ rw later (
        ap (λ es. update_item item.id (sent_back scheduled (some time)) ∷ es)
          (none_requested (queue_key_of rt.workspace_id)))
    | inr past ↦ rw past (
        ap (λ es. update_item item.id (sent_back queued none) ∷ es)
          (requests-invalidated (queue_key_of rt.workspace_id) (_)
            ∙ published_one (merge item (record item { status = queued })) v h))
  ]

  -- To try a failed post again that has a channel, when the server updates it as it is asked: if the
  -- post waits for a time that is still to come, the only request sets it back to scheduled, at that
  -- time; otherwise the first request sets it back to queued, and a second one, right after it,
  -- publishes it.
  pub retry_failed_item_lem :
      (item : QueueItem) (v : View)
      → is_some (nonempty item.channel_id) ≡ true
      → server.update_queue_item item.id (next_status_after_failed_retry rt.is_future item)
        ≡ changed (updated (next_status_after_failed_retry rt.is_future item) item)
      → requests (retry_failed_item rt server item v).1
        ≡ retry_requests item.id
            (nonempty item.scheduled_at)
            (waits rt.is_future (nonempty item.scheduled_at))
  unfolding retry_failed_item next_status_after_failed_retry
  retry_failed_item_lem item v h taken =
      let next : QueueUpdate = retry_update rt.is_future (nonempty item.scheduled_at) in
      subst
        (λ answer.
          requests (retried rt server item next answer v).1
          ≡ retry_requests item.id (nonempty item.scheduled_at)
              (waits rt.is_future (nonempty item.scheduled_at)))
        (sym taken) (retried_lem item v (nonempty item.scheduled_at) h)

module _ (rt : Runtime) where
  -- The deletion is confirmed so many times.
  abbrev pub confirm_times : Server → ℕ → View → View × List Effect
  confirm_times server zero v = (v, [])
  confirm_times server (suc n) v =
      let (v', first) = confirm_delete rt server v in
      let (v'', rest) = confirm_times server n v' in (v'', first ++ rest)

  failed_keeps :
      (server : Server) (v : View) (loop : List String × Option Thrown)
      → is_some loop.1 ≡ true
      → ((deleted_all rt server loop v).0.delete_targets ≡ v.delete_targets)
        × ((deleted_all rt server loop v).0.listing ≡ v.listing)
  failed_keeps server v (sent, none) h = cc
  failed_keeps server v (sent, some thrown) h = (refl, refl)

  abbrev pub StopsAt : String → View → View × List Effect → Type 0
  StopsAt id v (v', effects) =
      (effects ≡ delete_item id ∷ [])
      × (v'.delete_targets ≡ v.delete_targets)
      × (v'.listing ≡ v.listing)

  stops_first :
      (server : Server) (first : QueueItem) (rest : List QueueItem) (v : View) (r : Option Thrown)
      → delete_refusal rt server first.id ≡ r
      → is_some r ≡ true
      → StopsAt first.id v (
          deleted_all rt server (send_each (delete_refusal rt server) (first.id ∷ item_ids rest)) v)
  unfolding send_each
  stops_first server first rest v none h k = cc
  stops_first server first rest v (some e) h k = rw h (
    ap (λ (r : Option Thrown). delete_item first.id ∷ (when_accepted rt server r ++ [])) h,
    refl,
    refl,
  )

  confirm-stops :
      (server : Server) (first : QueueItem) (rest : List QueueItem) (v : View)
      → v.delete_targets ≡ first ∷ rest
      → is_some (delete_refusal rt server first.id) ≡ true
      → StopsAt first.id v (confirm_delete rt server v)
  unfolding confirm_delete
  confirm-stops server first rest v h k =
      subst
        (λ (targets : List QueueItem).
          StopsAt first.id v
            (deleted_all rt server (send_each (delete_refusal rt server) (item_ids targets)) v))
        (sym h) (stops_first server first rest v (delete_refusal rt server first.id) refl k)

  times-stop :
      (server : Server) (first : QueueItem) (rest : List QueueItem) (n : ℕ) (v : View)
      → v.delete_targets ≡ first ∷ rest
      → is_some (delete_refusal rt server first.id) ≡ true
      → ((confirm_times server n v).1 ≡ replicate n (delete_item first.id))
        × ((confirm_times server n v).0.delete_targets ≡ first ∷ rest)
        × ((confirm_times server n v).0.listing ≡ v.listing)
  times-stop server first rest zero v h k = (refl, h, refl)
  times-stop server first rest (suc n) v h k =
      let (effects, targets, listing) = confirm-stops server first rest v h k in
      let v' : View = (confirm_delete rt server v).0 in
      let (effects', targets', listing') = times-stop server first rest n v' (targets ∙ h) k in
      (ap₂ (λ a b. a ++ b) effects effects', targets', listing' ∙ listing)

  -- A deletion of several posts in which the first is deleted and a later one is refused. The page
  -- keeps all of them as targets, the deleted one included. So when it is confirmed again, any number
  -- of times, and the server refuses to delete the first post once more, each confirmation sends that
  -- one request only: none of the other posts is ever tried again, and the targets and the selection
  -- stay.
  pub confirm_again_stuck :
      (server later : Server) (first : QueueItem) (rest : List QueueItem) (v : View) (n : ℕ)
      → v.delete_targets ≡ first ∷ rest
      → is_some (delete_refusal rt server first.id) ≡ false
      → some? (λ id. is_some (delete_refusal rt server id)) (item_ids rest) ≡ true
      → is_some (delete_refusal rt later first.id) ≡ true
      → (let (v', effects) = confirm_times later n (confirm_delete rt server v).0 in
          (effects ≡ replicate n (delete_item first.id))
          × (v'.delete_targets ≡ first ∷ rest)
          × (v'.listing ≡ v.listing))
  unfolding confirm_delete
  confirm_again_stuck server later first rest v n h accepted_first refused_later gone =
      let ids = item_ids v.delete_targets in
      let thrown : is_some (send_each (delete_refusal rt server) ids).1 ≡ true =
        send_each-thrown (delete_refusal rt server) ids
        ∙ ap
            (λ (l : List QueueItem).
              some? (λ id. is_some (delete_refusal rt server id)) (item_ids l))
            h
        ∙ (ground (arith)) in
      let (targets, listing) =
        failed_keeps server v (send_each (delete_refusal rt server) ids) thrown in
      let (a, b, c) =
        times-stop later first rest n (confirm_delete rt server v).0 (targets ∙ h) gone in
      (a, b, c ∙ listing)
