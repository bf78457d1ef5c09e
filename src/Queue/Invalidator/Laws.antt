-- ===== src/Queue/Invalidator/Laws.antt =====
-- The debounced invalidator over any sequence of actions: keys, timeouts and disposal.
use affiliate_platform_api.Prelude.{
  All, Bool, List, [], arith, false, if◌then◌else◌, inl, inr, none, refl, some, true, ℕ, ◌++◌, ◌=?◌,
  ◌≡◌, ◌∷◌, ◌⊎◌, ◌||◌, some?, ap, ◌∙◌, sym, =?_iff, false≢true,
}
use affiliate_platform_api.Workspace.{QueryKey}
use affiliate_platform_api.Queue.Keys.{
  NoRepeat, NoRepeat-add_keys, add_keys, has_key, has_key-add_keys,
}
use affiliate_platform_api.Queue.Events.{query_keys_for_queue_event}
use affiliate_platform_api.Queue.Invalidator.{
  Action, Invalidator, act, clear_timeout, clear_timer, create, dispose, event_arrives, fire, flush,
  flushed, handle, handle_keys, run, set_timer, timeout_runs,
}

-- The keys that the events of a run ask for.
abbrev pub asked : List Action → QueryKey → Bool
asked [] k = false
asked (event_arrives w e ∷ rest) k = has_key (query_keys_for_queue_event e w) k || asked rest k
asked (timeout_runs id ∷ rest) k = asked rest k
asked (flushed ∷ rest) k = asked rest k

abbrev pub invalidated : List (List QueryKey) → QueryKey → Bool
invalidated [] k = false
invalidated (ks ∷ rest) k = has_key ks k || invalidated rest k

flush_keeps :
    (s : Invalidator) (k : QueryKey)
    → s.disposed ≡ false
    → ((has_key (flush s).1 k || has_key (flush s).0.pending k) ≡ has_key s.pending k)
      × ((flush s).0.disposed ≡ false)
unfolding flush
flush_keeps s k live = ground arith

handle_keys_keeps :
    (debounced : Bool) (ks : List QueryKey) (s : Invalidator) (k : QueryKey)
    → s.disposed ≡ false
    → ((has_key (handle_keys debounced ks s).1 k
          || has_key (handle_keys debounced ks s).0.pending k)
        ≡ (has_key s.pending k || has_key ks k))
      × ((handle_keys debounced ks s).0.disposed ≡ false)
unfolding handle_keys
handle_keys_keeps debounced [] s k live = ground arith
handle_keys_keeps debounced (j ∷ ks) s k live =
    ground (arith, has_key-add_keys s.pending (j ∷ ks) k)

act_keeps :
    (debounced : Bool) (a : Action) (s : Invalidator) (k : QueryKey)
    → s.disposed ≡ false
    → ((has_key (act debounced a s).1 k || has_key (act debounced a s).0.pending k)
        ≡ (has_key s.pending k || asked (a ∷ []) k))
      × ((act debounced a s).0.disposed ≡ false)
unfolding act handle fire
act_keeps debounced (event_arrives w e) s k live =
    ground (arith, handle_keys_keeps debounced (query_keys_for_queue_event e w) s k live)
act_keeps debounced (timeout_runs id) s k live =
    ground (arith, flush_keeps (record s { timeouts = clear_timeout id s.timeouts }) k live)
act_keeps debounced flushed s k live = ground (arith, flush_keeps s k live)

asked-cons :
    (a : Action) (rest : List Action) (k : QueryKey)
    → asked (a ∷ rest) k ≡ (asked (a ∷ []) k || asked rest k)
asked-cons (event_arrives w e) rest k = ground arith
asked-cons (timeout_runs id) rest k = refl
asked-cons flushed rest k = refl

-- While the invalidator is not disposed, whatever events arrive, timeouts run and flushes are
-- called, with or without a debounce: a key has been invalidated or is pending at the end exactly
-- when it was pending at the start or one of the events asked for it.
pub run_keeps :
    (debounced : Bool) (actions : List Action) (s : Invalidator) (k : QueryKey)
    → s.disposed ≡ false
    → (invalidated (run debounced actions s).1 k || has_key (run debounced actions s).0.pending k)
      ≡ (has_key s.pending k || asked actions k)
unfolding run
run_keeps debounced [] s k live = ground arith
run_keeps debounced (a ∷ rest) s k live = ground (
  arith,
  act_keeps debounced a s k live,
  run_keeps debounced rest (act debounced a s).0 k (act_keeps debounced a s k live).1,
  asked-cons a rest k,
)

abbrev pub is_live : ℕ → List ℕ → Bool
is_live id ts = some? (λ t. t =? id) ts

-- Nothing waits unnoticed: pending keys have a live timeout, they do not repeat, and a disposed
-- invalidator has none.
pub record IsTimed (s : Invalidator) : Type 0 where
  pub distinct : NoRepeat s.pending
  pub timed : (s.pending ≡ []) ⊎ ((id : ℕ) × (s.timer ≡ some id) × (is_live id s.timeouts ≡ true))
  pub stopped : (s.disposed ≡ false) ⊎ (s.pending ≡ [])

is_live-concat : (ts : List ℕ) (id : ℕ) → is_live id (ts ++ id ∷ []) ≡ true
is_live-concat [] id = ground (arith, =?_iff id id)
is_live-concat (t ∷ ts) id = ground (arith, is_live-concat ts id)

-- What an action leaves and answers.
abbrev AllTimed : Invalidator × List QueryKey → Type 0
AllTimed r = NoRepeat r.1 × IsTimed r.0

flushed-IsTimed :
    (gone : Bool) (s : Invalidator)
    → s.disposed ≡ gone
    → NoRepeat s.pending
    → (s.disposed ≡ false) ⊎ (s.pending ≡ [])
    → AllTimed (if gone then (s, []) else (record s { timer = none; pending = [] }, s.pending))
flushed-IsTimed false s h distinct stopped =
    (distinct, record { distinct = tt; timed = inl refl; stopped = inr refl })
flushed-IsTimed true s h distinct (inl live) = absurd (false≢true (sym live ∙ h))
flushed-IsTimed true s h distinct (inr empty) =
    (tt, record { distinct = distinct; timed = inl empty; stopped = inr empty })

flush-IsTimed : (s : Invalidator) → IsTimed s → AllTimed (flush s)
unfolding flush
flush-IsTimed s i = flushed-IsTimed s.disposed s refl i.distinct i.stopped

handled-IsTimed :
    (gone : Bool) (ks : List QueryKey) (s : Invalidator)
    → s.disposed ≡ gone
    → IsTimed s
    → AllTimed
        (if gone then (s, []) else (set_timer (record s { pending = add_keys s.pending ks }), []))
handled-IsTimed true ks s h i = (tt, i)
handled-IsTimed false ks s h i = (
  tt,
  record {
    distinct = NoRepeat-add_keys s.pending ks i.distinct;
    timed =
        inr (s.next_timeout, refl, is_live-concat (clear_timer s.timer s.timeouts) s.next_timeout);
    stopped = inl h;
  },
)

handle_keys-IsTimed :
    (ks : List QueryKey) (s : Invalidator) → IsTimed s → AllTimed (handle_keys true ks s)
unfolding handle_keys
handle_keys-IsTimed [] s i = (tt, i)
handle_keys-IsTimed (k ∷ ks) s i = handled-IsTimed s.disposed (k ∷ ks) s refl i

act-IsTimed : (a : Action) (s : Invalidator) → IsTimed s → AllTimed (act true a s)
unfolding act handle fire flush
act-IsTimed (event_arrives w e) s i = handle_keys-IsTimed (query_keys_for_queue_event e w) s i
act-IsTimed (timeout_runs id) s i =
    flushed-IsTimed s.disposed (record s { timeouts = clear_timeout id s.timeouts }) refl i.distinct
      i.stopped
act-IsTimed flushed s i = flush-IsTimed s i

-- With a debounce, whatever events arrive, timeouts run and flushes are called: no action
-- invalidates a key twice, and at the end the pending keys do not repeat and, if there are any,
-- the timer of the invalidator is set and its timeout has neither run nor been cleared.
pub run-IsTimed :
    (actions : List Action) (s : Invalidator)
    → IsTimed s
    → All NoRepeat (run true actions s).1 × IsTimed (run true actions s).0
unfolding run
run-IsTimed [] s i = (tt, i)
run-IsTimed (a ∷ rest) s i =
    let (once, j) = act-IsTimed a s i in
    let (all, end) = run-IsTimed rest (act true a s).0 j in ((once, all), end)

pub create-IsTimed : IsTimed create
unfolding create
create-IsTimed = record { distinct = tt; timed = inl refl; stopped = inl refl }

handle_keys-disposed :
    (debounced : Bool) (ks : List QueryKey) (s : Invalidator)
    → s.disposed ≡ true
    → ((handle_keys debounced ks s).1 ≡ []) × ((handle_keys debounced ks s).0.disposed ≡ true)
unfolding handle_keys
handle_keys-disposed debounced [] s h = (refl, h)
handle_keys-disposed debounced (k ∷ ks) s h = ground arith

act-disposed :
    (debounced : Bool) (a : Action) (s : Invalidator)
    → s.disposed ≡ true
    → ((act debounced a s).1 ≡ []) × ((act debounced a s).0.disposed ≡ true)
unfolding act handle fire flush
act-disposed debounced (event_arrives w e) s h =
    handle_keys-disposed debounced (query_keys_for_queue_event e w) s h
act-disposed debounced (timeout_runs id) s h = ground arith
act-disposed debounced flushed s h = ground arith

run-disposed :
    (debounced : Bool) (actions : List Action) (s : Invalidator) (k : QueryKey)
    → s.disposed ≡ true
    → invalidated (run debounced actions s).1 k ≡ false
unfolding run
run-disposed debounced [] s k h = refl
run-disposed debounced (a ∷ rest) s k h =
    let (none_now, still) = act-disposed debounced a s h in
    ground (
      arith,
      ap (λ ks. has_key ks k) none_now,
      run-disposed debounced rest (act debounced a s).0 k still,
    )

-- Once the invalidator is disposed, no event, timeout or flush invalidates a key any more, and
-- nothing is pending in it.
pub dispose-run :
    (debounced : Bool) (actions : List Action) (s : Invalidator) (k : QueryKey)
    → (invalidated (run debounced actions (dispose s)).1 k ≡ false) × ((dispose s).pending ≡ [])
unfolding dispose
dispose-run debounced actions s k = (run-disposed debounced actions (dispose s) k refl, refl)
