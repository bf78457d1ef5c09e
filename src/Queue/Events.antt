-- ===== src/Queue/Events.antt =====
-- `getQueryKeysForQueueEvent` of frontend/src/features/queue/lib/queue-event-invalidation.ts: which
-- cached queries a realtime event makes stale.
use affiliate_platform_api.Prelude.{
  Bool, Bool-cases, List, Option, String, [], eq_iff, false, if◌then◌else◌, inl, inr, none,
  nonempty, not, refl, some, true, ◌==◌, ◌||◌, ◌≡◌, ◌∷◌, ◌⊎◌, ◌≢◌, subst, ap, sym, ◌∙◌, false≢true,
}
use affiliate_platform_api.Workspace.{QueryKey, normalize_workspace_id}
use affiliate_platform_api.Queue.Types.{
  QueueEventEnvelope, attempt_failed, attempt_started, attempt_succeeded, is_queue_event_name,
}
use affiliate_platform_api.Queue.Keys.{queue_attempts_key, queue_key}

-- The three events about an attempt, whose cases of the `switch` fall through to one body.
abbrev pub is_attempt_event : String → Bool
is_attempt_event name =
    name == attempt_started || name == attempt_succeeded || name == attempt_failed

-- `normalizeQueueId`, for an id that is a text, null or undefined.
abbrev pub normalize_queue_id : Option String → Option String
normalize_queue_id id = nonempty id

abbrev pub attempt_keys : String → Bool → Option String → List QueryKey
attempt_keys workspace_id true (some queue_id) = queue_attempts_key workspace_id queue_id ∷ []
attempt_keys workspace_id _ _ = []

-- `eventWorkspace && eventWorkspace !== workspaceId`
abbrev pub is_foreign : Option String → String → Bool
is_foreign none workspace_id = false
is_foreign (some w) workspace_id = not (w == workspace_id)

-- `getQueryKeysForQueueEvent`, once the envelope, its name and the workspace are there.
unfoldable pub keys_of_event : QueueEventEnvelope → String → String → List QueryKey
keys_of_event e name workspace_id =
    if not (is_queue_event_name name)
    then []
    else if is_foreign (normalize_workspace_id e.workspace_id) workspace_id
    then []
    else queue_key workspace_id
      ∷ attempt_keys workspace_id (is_attempt_event name) (normalize_queue_id e.queue_id)

unfoldable pub query_keys_for_queue_event :
    Option QueueEventEnvelope → Option String → List QueryKey
unfolding keys_of_event
query_keys_for_queue_event event workspace_id = elim event [
  | none ↦ []
  | some e ↦ elim e.event [
    | none ↦ []
    | some name ↦ elim (nonempty workspace_id) [ none ↦ [] | some w ↦ keys_of_event e name w ]
  ]
]

-- An event that concerns a workspace: its name is known, and it names this workspace or none.
abbrev pub Concerns : QueueEventEnvelope → String → String → Type 0
Concerns e name workspace_id =
    (e.event ≡ some name)
    × (is_queue_event_name name ≡ true)
    × ((normalize_workspace_id e.workspace_id ≡ none)
        ⊎ (normalize_workspace_id e.workspace_id ≡ some workspace_id))

-- The keys besides that of the queue: the attempts of the post that an event about an attempt names.
abbrev pub AttemptKeys : QueueEventEnvelope → String → String → List QueryKey → Type 0
AttemptKeys e name workspace_id rest =
    ((q : String) × (is_attempt_event name ≡ true)
      × (normalize_queue_id e.queue_id ≡ some q)
      × (rest ≡ queue_attempts_key workspace_id q ∷ []))
    ⊎ (((is_attempt_event name ≡ false) ⊎ (normalize_queue_id e.queue_id ≡ none)) × (rest ≡ []))

abbrev pub RightKeys : QueueEventEnvelope → String → List QueryKey → Type 0
RightKeys e workspace_id keys =
    (((name : String) → ¬ Concerns e name workspace_id) × (keys ≡ []))
    ⊎ ((name : String) × (rest : List QueryKey) × Concerns e name workspace_id
        × AttemptKeys e name workspace_id rest
        × (keys ≡ queue_key workspace_id ∷ rest))

some_inj : {a b : String} → some a ≡ some b → a ≡ b
some_inj h = cc

foreign-cases :
    (w : Option String) (workspace_id : String)
    → ((is_foreign w workspace_id ≡ true) × (w ≢ none) × (w ≢ some workspace_id))
      ⊎ ((is_foreign w workspace_id ≡ false) × ((w ≡ none) ⊎ (w ≡ some workspace_id)))
foreign-cases none workspace_id = inr (refl, inl refl)
foreign-cases (some w) workspace_id = elim (Bool-cases (w == workspace_id)) [
  | inl same ↦ inr (rw same, inr (ap some ((eq_iff w workspace_id).0 same)))
  | inr other ↦ inl (
    rw other,
    (λ e. cc),
    λ e. absurd (false≢true (sym other ∙ (eq_iff w workspace_id).1 (some_inj e))),
  )
]

attempt_keys-AttemptKeys :
    (e : QueueEventEnvelope) (name workspace_id : String) (attempt : Bool) (q : Option String)
    → is_attempt_event name ≡ attempt
    → normalize_queue_id e.queue_id ≡ q
    → AttemptKeys e name workspace_id (attempt_keys workspace_id attempt q)
attempt_keys-AttemptKeys e name w true (some q) about found = inl (q, about, found, refl)
attempt_keys-AttemptKeys e name w true none about missing = inr (inr missing, refl)
attempt_keys-AttemptKeys e name w false q other _ = inr (inl other, refl)

-- `keysOfEvent` behind its two guards.
guarded-RightKeys :
    (e : QueueEventEnvelope) (name workspace_id : String) (known foreign : Bool)
    → e.event ≡ some name
    → is_queue_event_name name ≡ known
    → is_foreign (normalize_workspace_id e.workspace_id) workspace_id ≡ foreign
    → RightKeys e workspace_id (
        if not known
        then []
        else if foreign
        then []
        else queue_key workspace_id
          ∷ attempt_keys workspace_id (is_attempt_event name) (normalize_queue_id e.queue_id))
guarded-RightKeys e name w false foreign h unknown f = inl (
  (λ n c.
      let e : name ≡ n = some_inj (sym h ∙ c.0) in
      absurd (false≢true (sym unknown ∙ ap is_queue_event_name e ∙ c.1))),
  refl,
)
guarded-RightKeys e name w true foreign h known f =
    elim (foreign-cases (normalize_workspace_id e.workspace_id) w) [
      | inl (is, named, elsewhere) ↦
          rw (sym f ∙ is)
            (inl ((λ n c. elim (c.2) [ inl a ↦ named a | inr b ↦ elsewhere b ]), refl))
      | inr (here, workspace) ↦ rw (sym f ∙ here) (
          inr (
            name,
            attempt_keys w (is_attempt_event name) (normalize_queue_id e.queue_id),
            (h, known, workspace),
            attempt_keys-AttemptKeys e name w (is_attempt_event name)
                (normalize_queue_id e.queue_id) refl refl,
            refl,
          ))
    ]

by_name-RightKeys :
    (e : QueueEventEnvelope) (workspace_id : String) (name w : Option String)
    → e.event ≡ name
    → w ≡ some workspace_id
    → RightKeys e workspace_id
        (elim name [ none ↦ [] | some n ↦ elim w [ none ↦ [] | some v ↦ keys_of_event e n v ] ])
unfolding keys_of_event
by_name-RightKeys e workspace_id none w h v = inl ((λ n c. cc (sym h ∙ c.0)), refl)
by_name-RightKeys e workspace_id (some n) w h v =
    subst (λ o. RightKeys e workspace_id (elim o [ none ↦ [] | some v ↦ keys_of_event e n v ]))
      (sym v)
      (guarded-RightKeys e n workspace_id (is_queue_event_name n)
        (is_foreign (normalize_workspace_id e.workspace_id) workspace_id) h refl refl)

-- An envelope, in a workspace with an id: the event asks for no refetch if its name is unknown or
-- it names another workspace. Otherwise it asks for the queue of this workspace, and besides for
-- the attempts of its post exactly when it is about an attempt and names the post.
pub query_keys-RightKeys :
    (e : QueueEventEnvelope) (workspace_id : String)
    → (workspace_id == "") ≡ false
    → RightKeys e workspace_id (query_keys_for_queue_event (some e) (some workspace_id))
unfolding query_keys_for_queue_event
query_keys-RightKeys e workspace_id named =
    by_name-RightKeys e workspace_id e.event (nonempty (some workspace_id)) refl (rw named)
