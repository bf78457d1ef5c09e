-- ===== src/Queue/Publishing.antt =====
-- `useQueuePublishingOperations` of frontend/src/features/queue/hooks/useQueue.ts: the posts in
-- flight, the failures that the client remembers until the server reports them, and a batch. The
-- answer to the request for each post, and the time at which a failure is noted, are parameters;
-- the loop waits for each answer before it goes on. The Arabic text stands here in English.
pub mod Laws
mod Tests
use affiliate_platform_api.Prelude.{
  Bool, Dict, List, Option, String, [], delete, false, get, has, if◌then◌else◌, is_some, none, not,
  put, some, true, truthy, unique, without, ℕ, ◌+◌, ◌++◌, ◌=?◌, ◌==◌, ◌∷◌, ◌||◌, get_or, nonempty,
}
use affiliate_platform_api.Workspace.{QueryKey}
use affiliate_platform_api.Queue.Types.{QueueItem, QueuePublishFailure}
use affiliate_platform_api.Queue.Keys.{queue_attempts_key, queue_key}

-- What is thrown: the `message` and the `status` that it has, if any.
pub record Thrown : Type 0 where
  pub message : Option String
  pub status : Option ℕ

pub data Answer : Type 0 where
  accepted : Answer
  refused : Thrown → Answer

abbrev pub get_api_error_message : Thrown → String → String
get_api_error_message error fallback = get_or (nonempty error.message) fallback

abbrev pub has_status : Option ℕ → ℕ → Bool
has_status none n = false
has_status (some status) n = status =? n

abbrev pub is_conflict_error : Thrown → Bool
is_conflict_error error = has_status error.status 409

pub record PublishBatchResult : Type 0 where
  pub published : ℕ
  pub failed : ℕ
  pub conflicts : ℕ
  pub conflict_message : Option String
  pub failure_message : Option String

-- `invalidated` are the keys of the queries that were made stale, in order.
pub record Publishing : Type 0 where
  pub publishing_ids : List String
  pub failures : Dict QueuePublishFailure
  pub invalidated : List QueryKey

abbrev pub no_results : PublishBatchResult
no_results = record {
  published = 0;
  failed = 0;
  conflicts = 0;
  conflict_message = none;
  failure_message = none;
}

-- `if (!first) first = message`
abbrev pub keep_first : Option String → String → Option String
keep_first first message = if truthy first then first else some message

abbrev pub delete_failure : String → Dict QueuePublishFailure → Dict QueuePublishFailure
delete_failure id previous = if has id previous then delete id previous else previous

abbrev pub attempts_key_of : Option String → String → List QueryKey
attempts_key_of none id = []
attempts_key_of (some workspace_id) id = queue_attempts_key workspace_id id ∷ []

abbrev pub queue_key_of : Option String → List QueryKey
queue_key_of none = []
queue_key_of (some workspace_id) = queue_key workspace_id ∷ []

abbrev pub cannot_publish : String
cannot_publish = "The post cannot be published."

-- The body of the loop for one post, its `catch` and its `finally` included.
abbrev pub publish_one :
    Option String
    → String
    → String
    → Answer
    → PublishBatchResult × Publishing
    → PublishBatchResult × Publishing
publish_one workspace_id now id accepted (r, p) = (
  record r { published = r.published + 1 },
  record {
    publishing_ids = without id p.publishing_ids;
    failures = delete_failure id p.failures;
    invalidated = p.invalidated ++ attempts_key_of workspace_id id;
  },
)
publish_one workspace_id now id (refused error) (r, p) =
    let message : String = get_api_error_message error cannot_publish in
    if is_conflict_error error
    then (
      record r {
        conflicts = r.conflicts + 1;
        conflict_message = keep_first r.conflict_message message;
      },
      record p { publishing_ids = without id p.publishing_ids },
    )
    else (
      record r { failed = r.failed + 1; failure_message = keep_first r.failure_message message },
      record p {
        publishing_ids = without id p.publishing_ids;
        failures = put id (record { message = message; occurred_at = now }) p.failures;
      },
    )

module _ (workspace_id : Option String) (publish_queue_item : String → Answer)
    (now : String → String) where
  unfoldable pub publish_each :
      List String → PublishBatchResult × Publishing → PublishBatchResult × Publishing
  publish_each [] s = s
  publish_each (id ∷ ids) s =
      publish_each ids (publish_one workspace_id (now id) id (publish_queue_item id) s)

  unfoldable pub publish_items : List String → Publishing → PublishBatchResult × Publishing
  unfolding publish_each
  publish_items ids p =
      let unique_ids = unique ids in
      let started : Publishing = record p {
        publishing_ids = unique (p.publishing_ids ++ unique_ids);
      } in
      let (r, p') = publish_each unique_ids (no_results, started) in
      (r, record p' { invalidated = p'.invalidated ++ queue_key_of workspace_id })

unfoldable pub clear_failure : String → Publishing → Publishing
clear_failure id p = record p { failures = delete_failure id p.failures }

abbrev pub drop_reported : List QueueItem → Dict QueuePublishFailure → Dict QueuePublishFailure
drop_reported [] next = next
drop_reported (item ∷ items) next = drop_reported items (
    if has item.id next
    then if is_some item.last_attempt || is_some item.failure_reason
      then delete item.id next
      else next
    else next)

unfoldable pub sync_failures_from_backend : List QueueItem → Publishing → Publishing
sync_failures_from_backend items p = record p { failures = drop_reported items p.failures }
