-- ===== src/Queue/Concurrency.antt =====
-- `mapWithConcurrency` of frontend/src/features/queue/hooks/useQueue.ts: a few workers that take the
-- items one after the other. What happens between two awaits is one step, so that the steps are the
-- starts of the workers and the answers, which arrive in any order. The mapper is seen through the
-- result that it has for each item; the only mapper of the source catches what is thrown.
pub mod Laws
pub mod Completion
mod Tests
use affiliate_platform_api.Prelude.{
  Bool, List, Option, [], false, get_elem?, if◌then◌else◌, length, ◌||◌, ltb, map, min, none, not,
  replicate, select, set, some, some?, true, zero, suc, ℕ, ◌+◌, ◌++◌, ◌-◌, ◌=?◌, ◌∷◌,
}

-- `nextIndex`, the indices that workers wait for, and `results`, where an index without a result
-- yet holds nothing.
pub record Pool (R : Type 0) : Type 0 where
  pub next_index : ℕ
  pub in_flight : List ℕ
  pub results : List (Option R)

abbrev pub has_index : List ℕ → ℕ → Bool
has_index [] i = false
has_index (j ∷ js) i = j =? i || has_index js i

abbrev pub without_index : ℕ → List ℕ → List ℕ
without_index i [] = []
without_index i (j ∷ js) = let rest = without_index i js in if j =? i then rest else j ∷ rest

module _ {A R : Type 0} (items : List A) (mapper : A → R) where
  -- The head of the `while` loop: a worker takes the next item, or ends.
  unfoldable pub take_next : Pool R → Pool R
  take_next p =
      if ltb p.next_index (length items)
      then record p { next_index = p.next_index + 1; in_flight = p.in_flight ++ p.next_index ∷ [] }
      else p

  -- `Array.from({ length }, () => worker())`: each worker runs up to its first `await`.
  unfoldable pub start_workers : ℕ → Pool R → Pool R
  unfolding take_next
  start_workers zero p = p
  start_workers (suc n) p = start_workers n (take_next p)

  abbrev pub empty_pool : Pool R
  empty_pool = record { next_index = 0; in_flight = []; results = replicate (length items) none }

  unfoldable pub start : ℕ → Pool R
  unfolding start_workers
  start concurrency = start_workers (min concurrency (length items)) empty_pool

  abbrev pub result_of : Option A → Option R
  result_of none = none
  result_of (some item) = some (mapper item)

  -- The answer for an index: its worker stores the result and goes on.
  unfoldable pub answer : ℕ → Pool R → Pool R
  unfolding take_next
  answer i p =
      if has_index p.in_flight i
      then take_next (record p {
        in_flight = without_index i p.in_flight;
        results = set p.results i (result_of (get_elem? items i));
      })
      else p

  unfoldable pub answer_all : List ℕ → Pool R → Pool R
  unfolding answer
  answer_all [] p = p
  answer_all (i ∷ is) p = answer_all is (answer i p)
