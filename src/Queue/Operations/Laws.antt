-- ===== src/Queue/Operations/Laws.antt =====
-- When a post is shown as ready, and what the summary counts.
use affiliate_platform_api.Prelude.{
  Bool, Dict, List, Option, String, [], arith, false, is_some, length, none, nonempty, or_else,
  get_or, refl, select, some, true, ℕ, ◌+◌, ◌&&◌, ◌≤◌, ◌≡◌, ◌∷◌, ◌↔◌, ◌⊎◌, inl, inr, Bool-cases,
  subst, sym, length-select, length-select-cons, one_if,
}
use affiliate_platform_api.Queue.Types.{
  QueueItem, QueuePublishFailure, QueueStatus, QueueUpdate, draft, failed, published, queued, ready,
  scheduled,
}
use affiliate_platform_api.Queue.Operations.{
  OperationalStats, failed_today, get_queue_health, get_queue_operational_stats, health_of,
  is_status, is_today, next_status_after_failed_retry, published_today, retry_update,
}

-- What a post needs before it can be published.
pub record IsReady (item : QueueItem) (in_flight : Bool) (failure : Option QueuePublishFailure)
    : Type 0 where
  pub waits :
      (item.status ≡ queued)
      ⊎ ((item.status ≡ scheduled) × (is_some (nonempty item.scheduled_at) ≡ true))
  pub idle : in_flight ≡ false
  pub sound : failure ≡ none
  pub addressed : is_some (nonempty item.channel_id) ≡ true

health-ready :
    (status : QueueStatus) (in_flight has_failure : Bool) (channel_id scheduled_at : Option String)
    → health_of status in_flight has_failure channel_id scheduled_at ≡ ready
    → ((status ≡ queued) ⊎ ((status ≡ scheduled) × (is_some (nonempty scheduled_at) ≡ true)))
      × (in_flight ≡ false)
      × (has_failure ≡ false)
      × (is_some (nonempty channel_id) ≡ true)
health-ready queued b f c s h = ground arith
health-ready scheduled b f c s h = ground arith
health-ready draft b f c s h = ground arith
health-ready published b f c s h = cc
health-ready failed b f c s h = cc

ready-health :
    (status : QueueStatus) (channel_id scheduled_at : Option String)
    → (status ≡ queued) ⊎ ((status ≡ scheduled) × (is_some (nonempty scheduled_at) ≡ true))
    → is_some (nonempty channel_id) ≡ true
    → health_of status false false channel_id scheduled_at ≡ ready
ready-health queued c s h k = ground arith
ready-health scheduled c s (inl e) k = cc
ready-health scheduled c s (inr (e, timed)) k = ground arith
ready-health draft c s (inl e) k = cc
ready-health draft c s (inr (e, timed)) k = cc
ready-health published c s (inl e) k = cc
ready-health published c s (inr (e, timed)) k = cc
ready-health failed c s (inl e) k = cc
ready-health failed c s (inr (e, timed)) k = cc

is_some-none : {A : Type 0} (o : Option A) → is_some o ≡ false → o ≡ none
is_some-none none h = refl
is_some-none (some a) h = cc

-- A post is shown as ready exactly when it is queued, or scheduled at a time that is set, is not
-- being published, has no failure to show and has a channel.
pub get_queue_health-IsReady :
    (item : QueueItem) (in_flight : Bool) (failure : Option QueuePublishFailure)
    → (get_queue_health item in_flight failure ≡ ready) ↔ IsReady item in_flight failure
unfolding get_queue_health
get_queue_health-IsReady item in_flight failure = (
  (λ h.
      let (waits, idle, sound, addressed) =
        health-ready item.status in_flight (is_some failure) item.channel_id item.scheduled_at h in
      record {
        waits = waits;
        idle = idle;
        sound = is_some-none failure sound;
        addressed = addressed;
      }),
  λ r.
      subst
        (λ b. health_of item.status b (is_some failure) item.channel_id item.scheduled_at ≡ ready)
        (sym r.idle)
        (subst
          (λ f. health_of item.status false (is_some f) item.channel_id item.scheduled_at ≡ ready)
          (sym r.sound)
          (ready-health item.status item.channel_id item.scheduled_at r.waits r.addressed)),
)

-- What a failed post is after the server has taken the update: its status, and its time unless the
-- update leaves it out.
abbrev pub updated : QueueUpdate → QueueItem → QueueItem
updated update item = record item {
  status = get_or update.status item.status;
  scheduled_at = or_else update.scheduled_at item.scheduled_at;
}

nonempty-is_some :
    (o : Option String) (v : String) → nonempty o ≡ some v → is_some (nonempty (some v)) ≡ true
nonempty-is_some none v h = cc
nonempty-is_some (some t) v h = ground arith

retry-waits :
    (is_future : String → Bool) (item : QueueItem) (time : Option String)
    → nonempty item.scheduled_at ≡ time
    → (let item' : QueueItem = updated (retry_update is_future time) item in
        (item'.status ≡ queued)
        ⊎ ((item'.status ≡ scheduled) × (is_some (nonempty item'.scheduled_at) ≡ true)))
retry-waits is_future item none h = inl refl
retry-waits is_future item (some value) h = elim (Bool-cases (is_future value)) [
  | inl later ↦ rw later (inr (refl, nonempty-is_some item.scheduled_at value h))
  | inr past ↦ inl (rw past refl)
]

-- A failed post that has a channel, is sent back for another attempt and updated as asked, is shown
-- as ready as soon as it is not in flight and shows no failure: an old time in the future is kept,
-- and without one the post is queued.
pub next_status-ready :
    (is_future : String → Bool) (item : QueueItem)
    → is_some (nonempty item.channel_id) ≡ true
    → get_queue_health (updated (next_status_after_failed_retry is_future item) item) false none
      ≡ ready
unfolding get_queue_health next_status_after_failed_retry
next_status-ready is_future item k =
    let item' : QueueItem = updated (retry_update is_future (nonempty item.scheduled_at)) item in
    ready-health item'.status item'.channel_id item'.scheduled_at
      (retry-waits is_future item (nonempty item.scheduled_at) refl) k

one_status :
    (status : QueueStatus) (today : Bool)
    → one_if (is_status status queued)
        + one_if (is_status status scheduled)
        + one_if (is_status status published && today)
      ≤ 1
one_status draft today = omega arith
one_status queued today = omega arith
one_status scheduled today = omega arith
one_status published true = omega arith
one_status published false = omega arith
one_status failed today = omega arith

disjoint :
    (falls_on_today : String → Bool) (items : List QueueItem)
    → length (select (λ item. is_status item.status queued) items)
        + length (select (λ item. is_status item.status scheduled) items)
        + length (select (published_today falls_on_today) items)
      ≤ length items
disjoint falls_on_today [] = omega arith
disjoint falls_on_today (item ∷ items) = omega (
  arith,
  disjoint falls_on_today items,
  one_status item.status (is_today falls_on_today item.published_at),
  length-select-cons (λ i. is_status i.status queued) item items,
  length-select-cons (λ i. is_status i.status scheduled) item items,
  length-select-cons (published_today falls_on_today) item items,
)

-- Whatever day it is: the posts that the summary counts as queued, as scheduled and as published
-- today are different ones of the list, those counted as failed today are posts of the list, and
-- the count of posts in flight is passed on as it is.
pub operational_stats-bounds :
    (falls_on_today : String → Bool) (items : List QueueItem) (in_flight : ℕ)
    (failures : Dict QueuePublishFailure)
    → (let stats : OperationalStats =
          get_queue_operational_stats falls_on_today items in_flight failures in
        (stats.queued + stats.scheduled + stats.published_today ≤ length items)
        × (stats.failed_today ≤ length items)
        × (stats.publishing ≡ in_flight))
unfolding get_queue_operational_stats
operational_stats-bounds falls_on_today items in_flight failures = (
  disjoint falls_on_today items,
  length-select (failed_today falls_on_today failures) items,
  refl,
)
