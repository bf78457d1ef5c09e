-- ===== src/Queue/Publishing/Laws.antt =====
-- A batch of posts: what it counts, which failures it leaves, which posts stay in flight.
use affiliate_platform_api.Prelude.{
  Bool, Bool-cases, Dict, List, NoRepeat, Option, String, [], arith, delete, eq_iff, false, get,
  get-delete, get-put, has, if◌then◌else◌, includes, includes-append, includes-unique,
  includes-without, inl, inr, is_some, length, none, not, refl, select, some, true, unique,
  unique-NoRepeat, ℕ, ◌+◌, ◌++◌, ◌==◌, ◌&&◌, ◌||◌, ◌≡◌, ◌∷◌, ap, length-select-cons, one_if,
}
use affiliate_platform_api.Queue.Types.{QueueItem, QueuePublishFailure}
use affiliate_platform_api.Queue.Publishing.{
  Answer, PublishBatchResult, Publishing, accepted, cannot_publish, delete_failure, drop_reported,
  get_api_error_message, is_conflict_error, no_results, publish_each, publish_items, publish_one,
  refused, sync_failures_from_backend,
}

abbrev pub is_accepted : Answer → Bool
is_accepted accepted = true
is_accepted (refused error) = false

abbrev pub is_conflict : Answer → Bool
is_conflict accepted = false
is_conflict (refused error) = is_conflict_error error

abbrev pub is_failure : Answer → Bool
is_failure accepted = false
is_failure (refused error) = not (is_conflict_error error)

-- The failure that is remembered of a post after the answer to its request.
abbrev pub failure_after : Answer → String → Option QueuePublishFailure → Option QueuePublishFailure
failure_after accepted now before = none
failure_after (refused error) now before =
    if is_conflict_error error
    then before
    else some (record { message = get_api_error_message error cannot_publish; occurred_at = now })

get-delete_failure :
    (id j : String) (m : Dict QueuePublishFailure)
    → get j (delete_failure id m) ≡ (if id == j then none else get j m)
get-delete_failure id j m = elim (Bool-cases (has id m)) [
  | inl there ↦ rw there (get-delete id j m)
  | inr missing ↦ elim (Bool-cases (id == j)) [
    | inl same ↦ ground (arith, ap (λ i. has i m) ((eq_iff id j).0 same))
    | inr other ↦ rw missing (rw other refl)
  ]
]

one-failures :
    (w : Option String) (now id j : String) (a : Answer) (r : PublishBatchResult) (p : Publishing)
    → get j (publish_one w now id a (r, p)).1.failures
      ≡ (if id == j then failure_after a now (get j p.failures) else get j p.failures)
one-failures w now id j accepted r p = get-delete_failure id j p.failures
one-failures w now id j (refused e) r p = ground (
  arith,
  get-put id j (record { message = get_api_error_message e cannot_publish; occurred_at = now })
      p.failures,
)

one-publishing_ids :
    (w : Option String) (now id j : String) (a : Answer) (r : PublishBatchResult) (p : Publishing)
    → includes (publish_one w now id a (r, p)).1.publishing_ids j
      ≡ (not (id == j) && includes p.publishing_ids j)
one-publishing_ids w now id j accepted r p = includes-without id j p.publishing_ids
one-publishing_ids w now id j (refused e) r p =
    ground (arith, includes-without id j p.publishing_ids)

-- The counts of a batch result.
abbrev pub Counts : PublishBatchResult → ℕ → ℕ → ℕ → Type 0
Counts r p f c = (r.published ≡ p) × (r.failed ≡ f) × (r.conflicts ≡ c)

one-Counts :
    (w : Option String) (now id : String) (a : Answer) (r : PublishBatchResult) (p : Publishing)
    → Counts
        (publish_one w now id a (r, p)).0
        (r.published + one_if (is_accepted a))
        (r.failed + one_if (is_failure a))
        (r.conflicts + one_if (is_conflict a))
one-Counts w now id accepted r p = (refl, omega arith, omega arith)
one-Counts w now id (refused e) r p = elim (Bool-cases (is_conflict_error e)) [
  | inl conflict ↦ rw conflict (omega arith, omega arith, refl)
  | inr other ↦ rw other (omega arith, refl, omega arith)
]

one_count :
    (a : Answer) → one_if (is_accepted a) + one_if (is_failure a) + one_if (is_conflict a) ≡ 1
one_count accepted = refl
one_count (refused e) = ground arith

module _ (w : Option String) (ans : String → Answer) (now : String → String) where
  each-Counts :
      (ids : List String) (r : PublishBatchResult) (p : Publishing)
      → Counts
          (publish_each w ans now ids (r, p)).0
          (r.published + length (select (λ i. is_accepted (ans i)) ids))
          (r.failed + length (select (λ i. is_failure (ans i)) ids))
          (r.conflicts + length (select (λ i. is_conflict (ans i)) ids))
  unfolding publish_each
  each-Counts [] r p = (omega arith, omega arith, omega arith)
  each-Counts (id ∷ ids) r p =
      let (r', p') = publish_one w (now id) id (ans id) (r, p) in
      let (a, b, c) = each-Counts ids r' p' in
      let (x, y, z) = one-Counts w (now id) id (ans id) r p in
      (
        omega (arith, a, x, length-select-cons (λ i. is_accepted (ans i)) id ids),
        omega (arith, b, y, length-select-cons (λ i. is_failure (ans i)) id ids),
        omega (arith, c, z, length-select-cons (λ i. is_conflict (ans i)) id ids),
      )

  counted :
      (ids : List String)
      → length (select (λ i. is_accepted (ans i)) ids)
          + length (select (λ i. is_failure (ans i)) ids)
          + length (select (λ i. is_conflict (ans i)) ids)
        ≡ length ids
  counted [] = refl
  counted (id ∷ ids) = omega (
    arith,
    counted ids,
    one_count (ans id),
    length-select-cons (λ i. is_accepted (ans i)) id ids,
    length-select-cons (λ i. is_failure (ans i)) id ids,
    length-select-cons (λ i. is_conflict (ans i)) id ids,
  )

  -- A batch counts each post of its list once, whatever the answers are and however often the list
  -- names a post: the posts that were accepted as published, those refused with the status 409 as
  -- conflicts, and the others as failed, and these counts sum up to the number of posts.
  pub publish_items-Counts :
      (ids : List String) (p : Publishing)
      → Counts
          (publish_items w ans now ids p).0
          (length (select (λ i. is_accepted (ans i)) (unique ids)))
          (length (select (λ i. is_failure (ans i)) (unique ids)))
          (length (select (λ i. is_conflict (ans i)) (unique ids)))
        × (let r : PublishBatchResult = (publish_items w ans now ids p).0 in
            r.published + r.failed + r.conflicts ≡ length (unique ids))
  unfolding publish_items
  publish_items-Counts ids p =
      let started : Publishing = record p {
        publishing_ids = unique (p.publishing_ids ++ unique ids);
      } in
      let (a, b, c) = each-Counts (unique ids) no_results started in
      let all = counted (unique ids) in
      ((omega (arith, a), omega (arith, b), omega (arith, c)), omega (arith, a, b, c, all))

  each-failures :
      (ids : List String) (r : PublishBatchResult) (p : Publishing) (j : String)
      → NoRepeat ids
      → get j (publish_each w ans now ids (r, p)).1.failures ≡ (
          if includes ids j
          then failure_after (ans j) (now j) (get j p.failures)
          else get j p.failures)
  unfolding publish_each
  each-failures [] r p j h = refl
  each-failures (id ∷ ids) r p j (fresh, h) =
      let (r', p') = publish_one w (now id) id (ans id) (r, p) in
      let rest = each-failures ids r' p' j h in
      let first = one-failures w (now id) id j (ans id) r p in
      elim (Bool-cases (id == j)) [
        | inl same ↦
            let e : id ≡ j = (eq_iff id j).0 same in
            ground (
              arith,
              rest,
              first,
              ap (includes ids) e,
              ap (λ i. failure_after (ans i) (now i) (get j p.failures)) e,
            )
        | inr other ↦ ground (arith, rest, first)
      ]

  each-publishing_ids :
      (ids : List String) (r : PublishBatchResult) (p : Publishing) (j : String)
      → includes (publish_each w ans now ids (r, p)).1.publishing_ids j
        ≡ (includes p.publishing_ids j && not (includes ids j))
  unfolding publish_each
  each-publishing_ids [] r p j = ground arith
  each-publishing_ids (id ∷ ids) r p j =
      let (r', p') = publish_one w (now id) id (ans id) (r, p) in
      ground
        (arith, each-publishing_ids ids r' p' j, one-publishing_ids w (now id) id j (ans id) r p)

  -- After a batch, for any post: if the batch names it, the client remembers no failure of it when
  -- it was accepted, the one it had before when it was refused as a conflict, and the new failure,
  -- with its time, when it was refused otherwise; if the batch does not name it, what was
  -- remembered is unchanged. And the posts in flight are those that were so before, less the batch.
  pub publish_items-failures :
      (ids : List String) (p : Publishing) (j : String)
      → (let p' : Publishing = (publish_items w ans now ids p).1 in
          (get j p'.failures ≡ (
            if includes ids j
            then failure_after (ans j) (now j) (get j p.failures)
            else get j p.failures))
          × (includes p'.publishing_ids j ≡ (includes p.publishing_ids j && not (includes ids j))))
  unfolding publish_items
  publish_items-failures ids p j =
      let started : Publishing = record p {
        publishing_ids = unique (p.publishing_ids ++ unique ids);
      } in
      let named = includes-unique ids j in
      (
        ground
            (arith, each-failures (unique ids) no_results started j (unique-NoRepeat ids), named),
        ground (
          arith,
          each-publishing_ids (unique ids) no_results started j,
          named,
          includes-unique (p.publishing_ids ++ unique ids) j,
          includes-append p.publishing_ids (unique ids) j,
        ),
      )

-- What the server reports of a post: an attempt or a reason of failure.
abbrev pub reported : List QueueItem → String → Bool
reported [] id = false
reported (item ∷ items) id =
    (item.id == id && (is_some item.last_attempt || is_some item.failure_reason))
    || reported items id

drop_one :
    (known told : Bool) (id j : String) (m : Dict QueuePublishFailure)
    → has id m ≡ known
    → get j (if known then if told then delete id m else m else m)
      ≡ (if id == j && told then none else get j m)
drop_one true true id j m h = ground (arith, get-delete id j m)
drop_one true false id j m h = ground arith
drop_one false told id j m h = elim (Bool-cases (id == j)) [
  | inl same ↦ ground (arith, ap (λ i. has i m) ((eq_iff id j).0 same))
  | inr other ↦ rw other refl
]

get-drop_reported :
    (items : List QueueItem) (m : Dict QueuePublishFailure) (j : String)
    → get j (drop_reported items m) ≡ (if reported items j then none else get j m)
get-drop_reported [] m j = refl
get-drop_reported (item ∷ items) m j =
    let told : Bool = is_some item.last_attempt || is_some item.failure_reason in
    let m' : Dict QueuePublishFailure =
      if has item.id m then if told then delete item.id m else m else m in
    ground (arith, get-drop_reported items m' j, drop_one (has item.id m) told item.id j m refl)

-- Once a list arrives from the server, the client forgets the failure that it remembers of a post
-- exactly when one of the entries of that post has an attempt or a reason of failure, and keeps
-- the others, so that the failure it shows is then that of the server.
pub sync_failures-reported :
    (items : List QueueItem) (p : Publishing) (j : String)
    → get j (sync_failures_from_backend items p).failures
      ≡ (if reported items j then none else get j p.failures)
unfolding sync_failures_from_backend
sync_failures-reported items p j = get-drop_reported items p.failures j
