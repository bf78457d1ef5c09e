-- ===== src/Queue/Enrichment/Answers.antt =====
-- The enrichment of a list: the answers to the latest run and to older ones.
use affiliate_platform_api.Prelude.{
  All, Bool, Bool-cases, List, Option, [], arith, false, get_elem?, if◌then◌else◌, inl, inr, none,
  not, refl, set, some, suc, true, zero, ℕ, ◌≡◌, ◌∷◌, ◌∙◌, ◌+◌, select, ap, subst, sym,
}
use affiliate_platform_api.Queue.Types.{QueueItem, published}
use affiliate_platform_api.Queue.Operations.{is_status}
use affiliate_platform_api.Queue.Concurrency.{has_index}
use affiliate_platform_api.Queue.Enrichment.{
  Enrichment, Event, Run, Summary, answered, answers, answers_older, current_answer, go_on,
  is_stale, list_changes, none_waits, older_answer, on_event, on_list, store,
}
use affiliate_platform_api.Queue.Enrichment.Laws.{
  select-unpublished, start_run-targets, targets_of, unpublished, Agrees, IsSound, cancelled-All,
  has_index-waits, started, store-target,
}

flag : (over enriching : Bool) → enriching ≡ true → (if over then false else enriching) ≡ not over
flag true enriching h = refl
flag false enriching h = h

-- The latest run gets an answer that it waits for.
module _ (i : ℕ) (summary : Option Summary) (run : Run) (s : Enrichment) where
  not_stale : run.cancelled ≡ false → run.generation ≡ s.generation → is_stale run s ≡ false
  not_stale h k = ground (arith)

  stale : run.cancelled ≡ true → is_stale run s ≡ true
  stale h = ground (arith)

  abbrev stored : Enrichment
  stored = record s {
    summaries_by_id = store (get_elem? run.targets i) summary s.summaries_by_id;
    enriching = if none_waits (go_on i run).pool.in_flight then false else s.enriching;
  }

  answered-stored :
      run.cancelled ≡ false → run.generation ≡ s.generation → answered i summary run s ≡ stored
  answered-stored h k = rw (not_stale h k) refl

  answered-stale : run.cancelled ≡ true → answered i summary run s ≡ s
  answered-stale h = rw (stale h) refl

  stored-IsSound :
      (latest : List QueueItem)
      → IsSound latest s
      → Agrees (some run) s.generation s.enriching s.summaries_by_id
      → has_index run.pool.in_flight i ≡ true
      → run.targets ≡ unpublished latest
      → IsSound latest (record stored { current = some (go_on i run) })
  stored-IsSound latest h (going, generation, enriching, targets) waits named =
      let waiting : none_waits run.pool.in_flight ≡ false =
        has_index-waits run.pool.in_flight i waits in
      let on : s.enriching ≡ true = enriching ∙ (rw waiting refl) in
      record {
        latest_targets = named;
        agrees = (
          going,
          generation,
          flag (none_waits (go_on i run).pool.in_flight) s.enriching on,
          λ j k.
              store-target run.targets i (get_elem? run.targets i) summary s.summaries_by_id j refl
                (targets j) k,
        );
        older_cancelled = h.older_cancelled;
      }

current_answer-IsSound :
    (i : ℕ) (summary : Option Summary) (current : Option Run) (s : Enrichment)
    (latest : List QueueItem)
    → s.current ≡ current
    → IsSound latest s
    → IsSound latest (current_answer i summary current s)
current_answer-IsSound i summary none s latest e h = h
current_answer-IsSound i summary (some run) s latest e h =
    let agrees : Agrees (some run) s.generation s.enriching s.summaries_by_id =
      subst (λ c. Agrees c s.generation s.enriching s.summaries_by_id) e h.agrees in
    elim (Bool-cases (has_index run.pool.in_flight i)) [
      | inl waits ↦ rw waits (
          subst (λ t. IsSound latest (record t { current = some (go_on i run) }))
            (sym (answered-stored i summary run s agrees.0 agrees.1))
            (stored-IsSound i summary run s latest h agrees waits
              (ap targets_of (sym e) ∙ h.latest_targets)))
      | inr idle ↦ rw idle h
    ]

cancelled_at :
    (runs : List Run) (k : ℕ) (run : Run)
    → get_elem? runs k ≡ some run
    → All (λ r. r.cancelled ≡ true) runs
    → run.cancelled ≡ true
cancelled_at [] k run e h = cc
cancelled_at (r ∷ runs) zero run e (p, h) = ap of_found (sym e) ∙ p
  where
    of_found : Option Run → Bool
    of_found none = true
    of_found (some found) = found.cancelled
cancelled_at (r ∷ runs) (suc k) run e (p, h) = cancelled_at runs k run e h

set-All :
    (runs : List Run) (k : ℕ) (run : Run)
    → run.cancelled ≡ true
    → All (λ r. r.cancelled ≡ true) runs
    → All (λ r. r.cancelled ≡ true) (set runs k run)
set-All [] k run e h = h
set-All (r ∷ runs) zero run e (p, h) = (e, h)
set-All (r ∷ runs) (suc k) run e (p, h) = (p, set-All runs k run e h)

older_answer-IsSound :
    (k i : ℕ) (summary : Option Summary) (found : Option Run) (s : Enrichment)
    (latest : List QueueItem)
    → get_elem? s.older k ≡ found
    → IsSound latest s
    → IsSound latest (older_answer k i summary found s)
older_answer-IsSound k i summary none s latest e h = h
older_answer-IsSound k i summary (some run) s latest e h =
    let over : run.cancelled ≡ true = cancelled_at s.older k run e h.older_cancelled in
    elim (Bool-cases (has_index run.pool.in_flight i)) [
      | inl waits ↦ rw waits (
          subst (λ t. IsSound latest (record t { older = set s.older k (go_on i run) }))
            (sym (answered-stale i summary run s over))
            (record {
              latest_targets = h.latest_targets;
              agrees = h.agrees;
              older_cancelled = set-All s.older k (go_on i run) over h.older_cancelled;
            }))
      | inr idle ↦ rw idle h
    ]

-- The latest list after what happens.
abbrev pub latest_after : Event → List QueueItem → List QueueItem
latest_after (list_changes items) latest = items
latest_after (answers i summary) latest = latest
latest_after (answers_older k i summary) latest = latest

abbrev pub latest_list : List Event → List QueueItem → List QueueItem
latest_list [] latest = latest
latest_list (event ∷ events) latest = latest_list events (latest_after event latest)

on_event-IsSound :
    (event : Event) (latest : List QueueItem) (s : Enrichment)
    → IsSound latest s
    → IsSound (latest_after event latest) (on_event event s)
unfolding on_event on_list
on_event-IsSound (list_changes items) latest s h =
    let targets : List QueueItem = select (λ item. not (is_status item.status published)) items in
    record {
      latest_targets = start_run-targets (s.generation + 1) targets ∙ select-unpublished items;
      agrees = started (s.generation + 1) targets;
      older_cancelled = cancelled-All s.current s.older h.older_cancelled;
    }
on_event-IsSound (answers i summary) latest s h =
    current_answer-IsSound i summary s.current s latest refl h
on_event-IsSound (answers_older k i summary) latest s h =
    older_answer-IsSound k i summary (get_elem? s.older k) s latest refl h

abbrev pub run_events : List Event → Enrichment → Enrichment
run_events [] s = s
run_events (event ∷ events) s = run_events events (on_event event s)

-- After any new lists and any answers, to the latest list or to older ones, from a state that agrees
-- with its latest list, such as the first one with no post: the targets of the latest run are exactly
-- the posts of the list that is now the latest one that are not published, in its order; the hook
-- reports that it is enriching exactly while one of its requests is unanswered; every summary that it
-- holds belongs to one of these posts; and all runs for older lists are cancelled.
pub run_events-IsSound :
    (events : List Event) (latest : List QueueItem) (s : Enrichment)
    → IsSound latest s
    → IsSound (latest_list events latest) (run_events events s)
run_events-IsSound [] latest s h = h
run_events-IsSound (event ∷ events) latest s h =
    run_events-IsSound events (latest_after event latest) (on_event event s)
      (on_event-IsSound event latest s h)
