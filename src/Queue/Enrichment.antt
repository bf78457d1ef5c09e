-- ===== src/Queue/Enrichment.antt =====
-- `useQueueAttemptSummaryEnrichment` of frontend/src/features/queue/hooks/useQueue.ts: the summaries of
-- the attempts, which are loaded after each new list by a few workers. The workers of an older list go
-- on, so that their answers still arrive. `get_queue_item` answers with a summary, or throws: `none`.
pub mod Laws
pub mod Answers
mod Tests
use affiliate_platform_api.Prelude.{
  Bool, Dict, List, Option, String, [], false, get, get_elem?, if◌then◌else◌, map, none, not, put,
  select, set, some, suc, true, zero, ℕ, ◌+◌, ◌&&◌, ◌=?◌, ◌||◌, ◌∷◌,
}
use affiliate_platform_api.Queue.Types.{QueueItem, QueuePublishAttempt, published}
use affiliate_platform_api.Queue.Operations.{is_status}
use affiliate_platform_api.Queue.Concurrency.{Pool, answer, has_index, start}

abbrev pub enrichment_concurrency : ℕ
enrichment_concurrency = 5

-- `last_attempt`, `failure_reason` and `retry_count` of a post.
pub record Summary : Type 0 where
  pub last_attempt : Option QueuePublishAttempt
  pub failure_reason : Option String
  pub retry_count : ℕ

-- One run of the effect: its number, its own flag, and its workers.
pub record Run : Type 0 where
  pub generation : ℕ
  pub cancelled : Bool
  pub targets : List QueueItem
  pub pool : Pool (Unit {0})

-- `generationRef`, the state of the hook, the run of the latest list, if it has one, and the others.
pub record Enrichment : Type 0 where
  pub generation : ℕ
  pub summaries_by_id : Dict Summary
  pub enriching : Bool
  pub current : Option Run
  pub older : List Run

abbrev pub initial_enrichment : Enrichment
initial_enrichment = record {
  generation = 0;
  summaries_by_id = [];
  enriching = false;
  current = none;
  older = [];
}

abbrev pub no_result : QueueItem → Unit {0}
no_result item = tt

-- The cleanup of the effect.
abbrev pub cancel : Option Run → List Run → List Run
cancel none older = older
cancel (some run) older = record run { cancelled = true } ∷ older

abbrev pub start_run : ℕ → List QueueItem → Option Run
start_run generation [] = none
start_run generation (item ∷ items) = some (record {
  generation = generation;
  cancelled = false;
  targets = item ∷ items;
  pool = start (item ∷ items) no_result enrichment_concurrency;
})

abbrev pub any_target : List QueueItem → Bool
any_target [] = false
any_target (item ∷ items) = true

-- The effect for a new list; a list with the same ids and times does not run it.
unfoldable pub on_list : List QueueItem → Enrichment → Enrichment
unfolding start
on_list items s =
    let targets : List QueueItem = select (λ item. not (is_status item.status published)) items in
    record {
      generation = s.generation + 1;
      summaries_by_id = [];
      enriching = any_target targets;
      current = start_run (s.generation + 1) targets;
      older = cancel s.current s.older;
    }

abbrev pub none_waits : List ℕ → Bool
none_waits [] = true
none_waits (i ∷ is) = false

abbrev pub is_stale : Run → Enrichment → Bool
is_stale run s = run.cancelled || not (s.generation =? run.generation)

abbrev pub store : Option QueueItem → Option Summary → Dict Summary → Dict Summary
store none summary summaries = summaries
store (some item) none summaries = summaries
store (some item) (some summary) summaries = put item.id summary summaries

-- The worker of the run goes on after its answer.
abbrev pub go_on : ℕ → Run → Run
go_on i run = record run { pool = answer run.targets no_result i run.pool }

-- The answer for the target at an index of a run, which a worker waits for.
abbrev pub answered : ℕ → Option Summary → Run → Enrichment → Enrichment
answered i summary run s = if is_stale run s then s else record s {
  summaries_by_id = store (get_elem? run.targets i) summary s.summaries_by_id;
  enriching = if none_waits (go_on i run).pool.in_flight then false else s.enriching;
}

abbrev pub current_answer : ℕ → Option Summary → Option Run → Enrichment → Enrichment
current_answer i summary none s = s
current_answer i summary (some run) s =
    if has_index run.pool.in_flight i
    then record (answered i summary run s) { current = some (go_on i run) }
    else s

abbrev pub older_answer : ℕ → ℕ → Option Summary → Option Run → Enrichment → Enrichment
older_answer k i summary none s = s
older_answer k i summary (some run) s =
    if has_index run.pool.in_flight i
    then record (answered i summary run s) { older = set s.older k (go_on i run) }
    else s

-- What happens: a new list, an answer to the latest run, an answer to an older one.
pub data Event : Type 0 where
  list_changes : List QueueItem → Event
  answers : ℕ → Option Summary → Event
  answers_older : ℕ → ℕ → Option Summary → Event

unfoldable pub on_event : Event → Enrichment → Enrichment
unfolding on_list answer
on_event (list_changes items) s = on_list items s
on_event (answers i summary) s = current_answer i summary s.current s
on_event (answers_older k i summary) s = older_answer k i summary (get_elem? s.older k) s

-- `{ ...item, ...summary }`
abbrev pub with_summary : QueueItem → Option Summary → QueueItem
with_summary item none = item
with_summary item (some summary) = record item {
  last_attempt = summary.last_attempt;
  failure_reason = summary.failure_reason;
  retry_count = summary.retry_count;
}

unfoldable pub enriched_items : List QueueItem → Enrichment → List QueueItem
enriched_items items s = map (λ item. with_summary item (get item.id s.summaries_by_id)) items
