-- ===== src/Queue/Enrichment/Laws.antt =====
-- The enrichment of a list by useQueue.ts: the summaries, and the run of the latest list.
use affiliate_platform_api.Prelude.{
  if◌then◌else◌, select, false, All, Bool, Bool-cases, Dict, List, Option, String, [], arith,
  eq_iff, get, get-put, get_elem?, includes, inl, inr, is_some, length, ltb, map, min, none, not,
  refl, some, suc, true, zero, ℕ, ◌++◌, ◌-◌, ◌==◌, ◌≡◌, ◌∷◌, ◌∙◌, ap, subst, sym,
}
use affiliate_platform_api.Queue.Types.{
  QueueItem, QueueStatus, draft, queued, scheduled, published, failed,
}
use affiliate_platform_api.Queue.Operations.{is_status}
use affiliate_platform_api.Queue.Concurrency.{
  Pool, empty_pool, has_index, start, start_workers, take_next,
}
use affiliate_platform_api.Queue.Enrichment.{
  Enrichment, Run, Summary, any_target, cancel, enrichment_concurrency, no_result, none_waits,
  start_run, store,
}

not_none : (is js : List ℕ) → none_waits is ≡ false → none_waits (is ++ js) ≡ false
not_none [] js h = cc
not_none (i ∷ is) js h = refl

module _ (items : List QueueItem) where
  take_next-waits :
      (p : Pool (Unit {0}))
      → none_waits p.in_flight ≡ false
      → none_waits (take_next items no_result p).in_flight ≡ false
  unfolding take_next
  take_next-waits p h = elim (Bool-cases (ltb p.next_index (length items))) [
    | inl more ↦ rw more (not_none p.in_flight (p.next_index ∷ []) h)
    | inr over ↦ rw over h
  ]

  start_workers-waits :
      (n : ℕ) (p : Pool (Unit {0}))
      → none_waits p.in_flight ≡ false
      → none_waits (start_workers items no_result n p).in_flight ≡ false
  unfolding start_workers
  start_workers-waits zero p h = h
  start_workers-waits (suc n) p h =
      start_workers-waits n (take_next items no_result p) (take_next-waits p h)

-- A run that has targets starts with an answer to wait for.
start-waits :
    (item : QueueItem) (items : List QueueItem)
    → none_waits (start (item ∷ items) no_result enrichment_concurrency).in_flight ≡ false
unfolding start start_workers take_next
start-waits item items =
    let more : ltb 0 (suc (length items)) ≡ true = ground (arith) in
    let n : ℕ = min enrichment_concurrency (length (item ∷ items)) in
    let positive : n ≡ suc (n - 1) = ground (arith) in
    subst
      (λ m.
        none_waits
          (start_workers (item ∷ items) no_result m (empty_pool (item ∷ items) no_result)).in_flight
        ≡ false)
      (sym positive)
      (start_workers-waits (item ∷ items) (n - 1)
        (take_next (item ∷ items) no_result (empty_pool (item ∷ items) no_result)) (rw more refl))

abbrev pub target_ids : List QueueItem → List String
target_ids targets = map (λ item. item.id) targets

-- The state of the hook agrees with the run of the latest list.
abbrev pub Agrees : Option Run → ℕ → Bool → Dict Summary → Type 0
Agrees none generation enriching summaries =
    (enriching ≡ false) × ((j : String) → get j summaries ≡ none)
Agrees (some run) generation enriching summaries =
    (run.cancelled ≡ false)
    × (run.generation ≡ generation)
    × (enriching ≡ not (none_waits run.pool.in_flight))
    × ((j : String) → is_some (get j summaries) ≡ true → includes (target_ids run.targets) j ≡ true)

-- The posts of a list that are not published.
abbrev pub add_unless_published : QueueStatus → QueueItem → List QueueItem → List QueueItem
add_unless_published published item items = items
add_unless_published draft item items = item ∷ items
add_unless_published queued item items = item ∷ items
add_unless_published scheduled item items = item ∷ items
add_unless_published failed item items = item ∷ items

abbrev pub unpublished : List QueueItem → List QueueItem
unpublished [] = []
unpublished (item ∷ items) = add_unless_published item.status item (unpublished items)

kept_or_not :
    (status : QueueStatus) (item : QueueItem) (items : List QueueItem)
    → (if not (is_status status published) then item ∷ items else items)
      ≡ add_unless_published status item items
kept_or_not published item items = refl
kept_or_not draft item items = refl
kept_or_not queued item items = refl
kept_or_not scheduled item items = refl
kept_or_not failed item items = refl

pub select-unpublished :
    (items : List QueueItem)
    → select (λ item. not (is_status item.status published)) items ≡ unpublished items
select-unpublished [] = refl
select-unpublished (item ∷ items) =
    kept_or_not item.status item (select (λ x. not (is_status x.status published)) items)
    ∙ ap (λ l. add_unless_published item.status item l) (select-unpublished items)

abbrev pub targets_of : Option Run → List QueueItem
targets_of none = []
targets_of (some run) = run.targets

pub start_run-targets :
    (generation : ℕ) (targets : List QueueItem)
    → targets_of (start_run generation targets) ≡ targets
start_run-targets generation [] = refl
start_run-targets generation (item ∷ items) = refl

-- The state of the hook when a list is the latest one.
pub record IsSound (latest : List QueueItem) (s : Enrichment) : Type 0 where
  pub latest_targets : targets_of s.current ≡ unpublished latest
  pub agrees : Agrees s.current s.generation s.enriching s.summaries_by_id
  pub older_cancelled : All (λ run. run.cancelled ≡ true) s.older

pub started :
    (generation : ℕ) (targets : List QueueItem)
    → Agrees (start_run generation targets) generation (any_target targets) []
started generation [] = (refl, λ j. refl)
started generation (item ∷ items) =
    (refl, refl, ap (λ b. not b) (sym (start-waits item items)), λ j h. cc)

pub cancelled-All :
    (current : Option Run) (older : List Run)
    → All (λ run. run.cancelled ≡ true) older
    → All (λ run. run.cancelled ≡ true) (cancel current older)
cancelled-All none older h = h
cancelled-All (some run) older h = (refl, h)

pub has_index-waits : (is : List ℕ) (i : ℕ) → has_index is i ≡ true → none_waits is ≡ false
has_index-waits [] i h = cc
has_index-waits (j ∷ is) i h = refl

pub includes-target :
    (targets : List QueueItem) (i : ℕ) (item : QueueItem)
    → get_elem? targets i ≡ some item
    → includes (target_ids targets) item.id ≡ true
includes-target [] i item h = cc
includes-target (x ∷ targets) zero item h = ground (arith, (eq_iff x.id item.id).1 (ap id_of h))
  where
    id_of : Option QueueItem → String
    id_of none = x.id
    id_of (some y) = y.id
includes-target (x ∷ targets) (suc i) item h = ground (arith, includes-target targets i item h)

pub store-target :
    (targets : List QueueItem) (i : ℕ) (found : Option QueueItem) (summary : Option Summary)
    (summaries : Dict Summary) (j : String)
    → get_elem? targets i ≡ found
    → (is_some (get j summaries) ≡ true → includes (target_ids targets) j ≡ true)
    → is_some (get j (store found summary summaries)) ≡ true
    → includes (target_ids targets) j ≡ true
store-target targets i none summary summaries j h k l = k l
store-target targets i (some item) none summaries j h k l = k l
store-target targets i (some item) (some summary) summaries j h k l =
    elim (Bool-cases (item.id == j)) [
      | inl same ↦
          ap (λ id. includes (target_ids targets) id) (sym ((eq_iff item.id j).0 same))
          ∙ includes-target targets i item h
      | inr other ↦
          k (
            subst (λ o. is_some o ≡ true) (get-put item.id j summary summaries ∙ (rw other refl)) l)
    ]
