-- ===== src/Queue/Invalidator.antt =====
-- `createDebouncedQueueEventInvalidator` of
-- frontend/src/features/queue/lib/queue-event-invalidation.ts. The timeouts of the runtime that have
-- neither run nor been cleared are `timeouts`, known by numbers; `timer` is the one that the
-- invalidator remembers. An action answers the keys that it invalidates, in order.
pub mod Laws
mod Tests
use affiliate_platform_api.Prelude.{
  Bool, List, Option, String, [], false, if◌then◌else◌, none, select, some, true, ℕ, ◌+◌, ◌++◌,
  ◌=?◌, ◌∷◌, not,
}
use affiliate_platform_api.Workspace.{QueryKey}
use affiliate_platform_api.Queue.Types.{QueueEventEnvelope}
use affiliate_platform_api.Queue.Keys.{add_keys}
use affiliate_platform_api.Queue.Events.{query_keys_for_queue_event}

abbrev pub queue_event_invalidation_debounce_ms : ℕ
queue_event_invalidation_debounce_ms = 300

pub record Invalidator : Type 0 where
  pub pending : List QueryKey
  pub timer : Option ℕ
  pub timeouts : List ℕ
  pub next_timeout : ℕ
  pub disposed : Bool

-- `clearTimeout(id)`
abbrev pub clear_timeout : ℕ → List ℕ → List ℕ
clear_timeout id ts = select (λ t. not (t =? id)) ts

-- `if (timer) clearTimeout(timer)`
abbrev pub clear_timer : Option ℕ → List ℕ → List ℕ
clear_timer none ts = ts
clear_timer (some id) ts = clear_timeout id ts

unfoldable pub create : Invalidator
create = record { pending = []; timer = none; timeouts = []; next_timeout = 1; disposed = false }

unfoldable pub flush : Invalidator → Invalidator × List QueryKey
flush s = if s.disposed then (s, []) else (record s { timer = none; pending = [] }, s.pending)

-- `timer = setTimeout(flush, debounceMs)`
abbrev pub set_timer : Invalidator → Invalidator
set_timer s = record s {
  timer = some s.next_timeout;
  timeouts = clear_timer s.timer s.timeouts ++ s.next_timeout ∷ [];
  next_timeout = s.next_timeout + 1;
}

-- `handle`, once the keys of the event are known; `debounced` is `debounceMs > 0`.
unfoldable pub handle_keys : Bool → List QueryKey → Invalidator → Invalidator × List QueryKey
unfolding flush
handle_keys debounced [] s = (s, [])
handle_keys debounced (k ∷ ks) s =
    if s.disposed
    then (s, [])
    else let t : Invalidator = record s { pending = add_keys s.pending (k ∷ ks) } in
      if debounced then (set_timer t, []) else flush t

-- The active workspace is read when the event arrives.
unfoldable pub handle :
    Bool → Option String → Option QueueEventEnvelope → Invalidator → Invalidator × List QueryKey
unfolding handle_keys
handle debounced workspace_id event s =
    handle_keys debounced (query_keys_for_queue_event event workspace_id) s

-- A timeout runs: the runtime forgets it and calls `flush`.
unfoldable pub fire : ℕ → Invalidator → Invalidator × List QueryKey
unfolding flush
fire id s = flush (record s { timeouts = clear_timeout id s.timeouts })

unfoldable pub dispose : Invalidator → Invalidator
dispose s = record s {
  disposed = true;
  timeouts = clear_timer s.timer s.timeouts;
  timer = none;
  pending = [];
}

pub data Action : Type 0 where
  event_arrives : Option String → Option QueueEventEnvelope → Action
  timeout_runs : ℕ → Action
  flushed : Action

unfoldable pub act : Bool → Action → Invalidator → Invalidator × List QueryKey
unfolding handle flush fire
act debounced (event_arrives workspace_id event) s = handle debounced workspace_id event s
act debounced (timeout_runs id) s = fire id s
act debounced flushed s = flush s

-- The invalidations of a run, one list for each action.
unfoldable pub run : Bool → List Action → Invalidator → Invalidator × List (List QueryKey)
run debounced [] s = (s, [])
run debounced (a ∷ rest_actions) s =
    let (s', keys) = act debounced a s in
    let (s'', rest) = run debounced rest_actions s' in (s'', keys ∷ rest)
