-- ===== src/Queue/Polling.antt =====
-- frontend/src/features/queue/lib/queue-polling.ts: how often the queue is fetched again while its
-- stream of events is down. `same` is `Object.is` on the data of the query; a count of updates is
-- never negative, so the initial -1 is `none`. The field `data` is here `answer`.
mod Tests
use affiliate_platform_api.Prelude.{
  Bool, List, Option, [], arith, false, if◌then◌else◌, min, none, not, refl, some, true, ℕ, zero,
  suc, ◌+◌, ◌*◌, ◌^◌, ◌≤◌, ◌=?◌, ◌≡◌, ◌∷◌, =?_iff, ap, ap₂, subst, sym, ◌∙◌, Bool-cases, inl, inr,
}

abbrev pub queue_poll_fallback_min_ms : ℕ
queue_poll_fallback_min_ms = 5000

abbrev pub queue_poll_fallback_max_ms : ℕ
queue_poll_fallback_max_ms = 30000

unfoldable pub compute_queue_poll_interval_ms : ℕ → ℕ
compute_queue_poll_interval_ms consecutive_unchanged =
    min (queue_poll_fallback_min_ms * 2 ^ consecutive_unchanged) queue_poll_fallback_max_ms

pub record QueryState (A : Type 0) : Type 0 where
  pub answer : A
  pub data_update_count : ℕ
  pub is_fetching : Bool

-- `lastData` and `lastDataUpdateCount`, and `unchangedStreak`.
pub record Selector (A : Type 0) : Type 0 where
  pub last : Option (A × ℕ)
  pub unchanged_streak : ℕ

abbrev pub create_queue_poll_interval_selector : {A : Type 0} → Selector A
create_queue_poll_interval_selector = record { last = none; unchanged_streak = 0 }

module _ {A : Type 0} (same : A → A → Bool) where
  -- A settled query, compared with what the selector saw last.
  abbrev pub observe : Option (A × ℕ) → A → ℕ → Selector A → Selector A
  observe none answer count s = record s { last = some (answer, count) }
  observe (some (last_data, last_count)) answer count s =
      if count =? last_count
      then s
      else if same answer last_data
      then record { last = some (answer, count); unchanged_streak = s.unchanged_streak + 1 }
      else record { last = some (answer, count); unchanged_streak = 0 }

  unfoldable pub poll_interval : QueryState A → Selector A → Selector A × ℕ
  unfolding compute_queue_poll_interval_ms
  poll_interval query s =
      if query.is_fetching
      then (s, compute_queue_poll_interval_ms s.unchanged_streak)
      else let s' = observe s.last query.answer query.data_update_count s in
        (s', compute_queue_poll_interval_ms s'.unchanged_streak)

  -- The selector after a list of calls.
  unfoldable pub poll_all : List (QueryState A) → Selector A → Selector A
  unfolding poll_interval
  poll_all [] s = s
  poll_all (q ∷ qs) s = poll_all qs (poll_interval q s).0

  -- `n` polls in a row that bring the same data, from the count `c` on.
  abbrev pub unchanged_polls : A → ℕ → ℕ → List (QueryState A)
  unchanged_polls d c zero = []
  unchanged_polls d c (suc n) =
      record { answer = d; data_update_count = c + 1; is_fetching = false }
      ∷ unchanged_polls d (c + 1) n

  next_count : (c : ℕ) → (c + 1 =? c) ≡ false
  next_count c = ground (arith, =?_iff (c + 1) c)

  observe-unchanged :
      (d : A) (c k : ℕ)
      → same d d ≡ true
      → observe (some (d, c)) d (c + 1) (record { last = some (d, c); unchanged_streak = k })
        ≡ record { last = some (d, c + 1); unchanged_streak = k + 1 }
  observe-unchanged d c k h = rw (next_count c) (rw h refl)

  poll_all-unchanged :
      (d : A) (n c k : ℕ)
      → same d d ≡ true
      → poll_all (unchanged_polls d c n) (record { last = some (d, c); unchanged_streak = k })
        ≡ record { last = some (d, c + n); unchanged_streak = k + n }
  unfolding poll_all poll_interval
  poll_all-unchanged d zero c k h =
      ap₂ (λ m j. record { last = some (d, m); unchanged_streak = j }) (omega arith) (omega arith)
  poll_all-unchanged d (suc n) c k h =
      ap (poll_all (unchanged_polls d (c + 1) n)) (observe-unchanged d c k h)
      ∙ poll_all-unchanged d n (c + 1) (k + 1) h
      ∙ ap₂ (λ m j. record { last = some (d, m); unchanged_streak = j }) (omega arith) (omega arith)

pow_pos : (k : ℕ) → 1 ≤ 2 ^ k
pow_pos zero = omega arith
pow_pos (suc k) = omega (arith, pow_pos k)

-- The cadence that the comment above the source names: 5 s, 10 s, 20 s, then 30 s.
abbrev pub interval_after : ℕ → ℕ
interval_after zero = 5000
interval_after (suc zero) = 10000
interval_after (suc (suc zero)) = 20000
interval_after (suc (suc (suc n))) = 30000

compute-interval_after : (n : ℕ) → compute_queue_poll_interval_ms n ≡ interval_after n
unfolding compute_queue_poll_interval_ms
compute-interval_after zero = refl
compute-interval_after (suc zero) = refl
compute-interval_after (suc (suc zero)) = refl
compute-interval_after (suc (suc (suc n))) = ground (arith, pow_pos n)

module _ {A : Type 0} (same : A → A → Bool) where
  -- The data change with an update, and n more updates leave them as they are (they are the same
  -- object as themselves): the next interval is 5, 10 or 20 seconds for n = 0, 1 or 2, and 30
  -- seconds for a larger n, whatever the interval was before, and also while a fetch is running.
  pub poll_interval-unchanged :
      (n c : ℕ) (d : A) (fetching : Bool) (s : Selector A) (old : A × ℕ)
      → s.last ≡ some old
      → (c =? old.1) ≡ false
      → same d old.0 ≡ false
      → same d d ≡ true
      → (poll_interval same
          (record { answer = d; data_update_count = c + n; is_fetching = fetching })
          (poll_all same
            (record { answer = d; data_update_count = c; is_fetching = false }
              ∷ unchanged_polls same d c n)
            s)).1
        ≡ interval_after n
  unfolding poll_interval poll_all
  poll_interval-unchanged n c d fetching s (old, count) seen fresh differs itself =
      ap
        (λ s'.
          (poll_interval same
            (record { answer = d; data_update_count = c + n; is_fetching = fetching })
            (poll_all same (unchanged_polls same d c n) s')).1)
        changed
      ∙ ap
          (λ s'.
            (poll_interval same
              (record { answer = d; data_update_count = c + n; is_fetching = fetching }) s').1)
          (poll_all-unchanged same d n c 0 itself)
      ∙ settled fetching (0 + n)
      ∙ ap compute_queue_poll_interval_ms (omega arith)
      ∙ compute-interval_after n
    where
      changed : observe same s.last d c s ≡ record { last = some (d, c); unchanged_streak = 0 }
      changed = rw seen (rw fresh (rw differs refl))

      settled :
          (b : Bool) (j : ℕ)
          → (poll_interval same
              (record { answer = d; data_update_count = c + n; is_fetching = b })
              (record { last = some (d, c + n); unchanged_streak = j })).1
            ≡ compute_queue_poll_interval_ms j
      settled true j = refl
      settled false j = rw ((=?_iff (c + n) (c + n)).1 refl) refl
