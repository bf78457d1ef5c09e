-- ===== src/Discovery/Actions/Laws.antt =====
-- The import of a batch, and the drafts that are made of several products when one request fails.
use affiliate_platform_api.Prelude.{
  List, Option, Outcome, String, [], arith, flat_map, includes, includes-append, includes-unique,
  inl, inr, is_some, none, refl, send_each, send_each-Outcome, send_each-thrown, some, some?, true,
  ◌++◌, ◌≡◌, ◌∷◌, ◌||◌, ◌⊎◌, ◌∙◌, ap,
}
use affiliate_platform_api.Queue.Publishing.{Thrown, get_api_error_message}
use affiliate_platform_api.Discovery.Types.{DiscoveryProduct}
use affiliate_platform_api.Discovery.Selecting.{product_ids}
use affiliate_platform_api.Discovery.Session.{track_imported}
use affiliate_platform_api.Discovery.View.{Page}
use affiliate_platform_api.Discovery.Actions.{
  Effect, ProductImportBatchResponse, Runtime, Server, content_of, creates, draft_effects, draft_of,
  draft_refusal, finished, handle_add_to_queue, handle_generate_ai, handle_import_selected,
  imported_batch, imports_batch, generate_effects, generate_refusal,
}

-- What the page holds after the answer to the import of `ids`.
abbrev pub ImportOutcome : List String → Thrown ⊎ ProductImportBatchResponse → Page → Page → Type 0
ImportOutcome ids (inl thrown) p p' =
    (p'.session ≡ p.session) × (p'.selected_ids ≡ p.selected_ids) × (is_some p'.action_error ≡ true)
ImportOutcome ids (inr result) p p' =
    ((j : String)
      → includes p'.session.imported_ids j ≡ (includes p.session.imported_ids j || includes ids j))
    × (p'.selected_ids ≡ [])
    × (p'.action_error ≡ none)

module _ (rt : Runtime) (server : Server) where
  batch_outcome :
      (ids : List String) (answer : Thrown ⊎ ProductImportBatchResponse) (p : Page)
      → ImportOutcome ids answer p (imported_batch rt server ids answer p)
  unfolding track_imported
  batch_outcome ids (inl thrown) p = (refl, refl, refl)
  batch_outcome ids (inr result) p = (
    (λ j.
        includes-unique (p.session.imported_ids ++ ids) j
        ∙ includes-append p.session.imported_ids ids j),
    refl,
    refl,
  )

  -- To import a selection as an administrator, one request goes out for all of it. When the request is
  -- refused, the session and the selection stay and an error is shown. When it is answered, the page
  -- notes every product of the selection as imported and empties the selection, without an error, and
  -- this whatever the answer counts, the products that it counts as failed included.
  pub handle_import_selected_lem :
      (first : DiscoveryProduct) (selected : List DiscoveryProduct) (p : Page)
      → (let ids : List String = product_ids (first ∷ selected) in
          ((handle_import_selected rt server true (first ∷ selected) p).1 ≡ imports_batch ids ∷ [])
          × ImportOutcome ids
              (server.import_products_batch ids)
              p
              (handle_import_selected rt server true (first ∷ selected) p).0)
  unfolding handle_import_selected
  handle_import_selected_lem first selected p =
      let ids : List String = product_ids (first ∷ selected) in
      (refl, batch_outcome ids (server.import_products_batch ids) p)

  abbrev pub Finished : Option Thrown → Page → Page → Type 0
  Finished none p p' = (p'.selected_ids ≡ []) × (p'.action_error ≡ none)
  Finished (some thrown) p p' =
      (p'.selected_ids ≡ p.selected_ids)
      × ((fallback : String) × (p'.action_error ≡ some (get_api_error_message thrown fallback)))

  -- A loop over products, with what it sends of each, to its end or to the first refusal.
  pub record LoopOutcome (refusal : DiscoveryProduct → Option Thrown)
      (effects_of : DiscoveryProduct → List Effect) (products : List DiscoveryProduct) (p : Page)
      (result : Page × List Effect) : Type 0 where
    pub sent : List DiscoveryProduct
    pub thrown : Option Thrown
    pub outcome : Outcome refusal products sent thrown
    pub effects_sent : result.1 ≡ flat_map effects_of sent
    pub page_after : Finished thrown p result.0
    pub session_kept : result.0.session ≡ p.session

  finishes :
      (message fallback : String) (thrown : Option Thrown) (p : Page)
      → Finished thrown p (finished rt server message thrown fallback p)
        × ((finished rt server message thrown fallback p).session ≡ p.session)
  finishes message fallback none p = ((refl, refl), refl)
  finishes message fallback (some thrown) p = ((refl, (fallback, refl)), refl)

  loop_outcome :
      (refusal : DiscoveryProduct → Option Thrown) (effects_of : DiscoveryProduct → List Effect)
      (products : List DiscoveryProduct) (message fallback : String) (p : Page)
      → LoopOutcome refusal effects_of products p (
        finished rt server message (send_each refusal products).1 fallback p,
        flat_map effects_of (send_each refusal products).0,
      )
  loop_outcome refusal effects_of products message fallback p =
      let (after, kept) = finishes message fallback (send_each refusal products).1 p in
      record {
        sent = (send_each refusal products).0;
        thrown = (send_each refusal products).1;
        outcome = send_each-Outcome refusal products;
        effects_sent = refl;
        page_after = after;
        session_kept = kept;
      }

  -- To generate posts of two or more products: for one after the other the content is generated, and
  -- then a draft is created of it, until one of the requests is refused. The products before that one
  -- have their drafts, those after it none; with a refusal the selection stays and the error is
  -- shown, without one the selection is emptied. The session stays.
  pub handle_generate_ai_lem :
      (first second : DiscoveryProduct) (rest : List DiscoveryProduct) (p : Page)
      → LoopOutcome
          (generate_refusal rt server)
          (generate_effects rt server)
          (first ∷ second ∷ rest)
          p
          (handle_generate_ai rt server (first ∷ second ∷ rest) p)
  unfolding handle_generate_ai
  handle_generate_ai_lem first second rest p =
      loop_outcome (generate_refusal rt server) (generate_effects rt server) (first ∷ second ∷ rest)
        (_) "The content is not generated." p

  handle_add_to_queue_lem :
      (first : DiscoveryProduct) (rest : List DiscoveryProduct) (p : Page)
      → LoopOutcome
          (draft_refusal rt server)
          (draft_effects rt server)
          (first ∷ rest)
          p
          (handle_add_to_queue rt server (first ∷ rest) p)
  unfolding handle_add_to_queue
  handle_add_to_queue_lem first rest p =
      loop_outcome (draft_refusal rt server) (draft_effects rt server) (first ∷ rest) (_)
        "The posts are not added." p

all_sent :
    (refusal : DiscoveryProduct → Option Thrown) (products : List DiscoveryProduct)
    → ((q : DiscoveryProduct) → refusal q ≡ none)
    → (send_each refusal products).0 ≡ products
unfolding send_each
all_sent refusal [] h = refl
all_sent refusal (q ∷ products) h = rw (h q) (ap (λ l. q ∷ l) (all_sent refusal products h))

first_sent :
    (refusal : DiscoveryProduct → Option Thrown) (first : DiscoveryProduct)
    (rest : List DiscoveryProduct)
    → refusal first ≡ none
    → (send_each refusal (first ∷ rest)).0 ≡ first ∷ (send_each refusal rest).0
unfolding send_each
first_sent refusal first rest h = rw h refl

failed_keeps :
    (rt : Runtime) (server : Server) (message fallback : String) (thrown : Option Thrown) (p : Page)
    → is_some thrown ≡ true
    → (finished rt server message thrown fallback p).selected_ids ≡ p.selected_ids
failed_keeps rt server message fallback none p h = cc
failed_keeps rt server message fallback (some thrown) p h = refl

-- Products are added to the queue, and a later one is refused after the draft of the first was
-- created. The selection stays, so that the user adds the same products again; the server now accepts
-- them, and the second time a draft is created of each, the first product included, so that it has
-- two.
pub add_again_duplicates :
    (rt : Runtime) (server later : Server) (first : DiscoveryProduct) (rest : List DiscoveryProduct)
    (p : Page)
    → draft_refusal rt server first ≡ none
    → some? (λ q. is_some (draft_refusal rt server q)) rest ≡ true
    → ((q : DiscoveryProduct) → draft_refusal rt later q ≡ none)
    → (let (p', before) = handle_add_to_queue rt server (first ∷ rest) p in
        let (p'', after) = handle_add_to_queue rt later (first ∷ rest) p' in
        let twice : Effect = creates (draft_of rt first (content_of rt first)) in
        (p'.selected_ids ≡ p.selected_ids)
        × ((others : List Effect) × (before ≡ twice ∷ others))
        × (after ≡ twice ∷ flat_map (draft_effects rt later) rest))
unfolding handle_add_to_queue
add_again_duplicates rt server later first rest p accepted_first refused_later accepting =
    let refusal = draft_refusal rt server in
    let thrown : is_some (send_each refusal (first ∷ rest)).1 ≡ true =
      send_each-thrown refusal (first ∷ rest) ∙ (ground (arith)) in
    (
      failed_keeps rt server (_) "The posts are not added." (send_each refusal (first ∷ rest)).1 p
          thrown,
      (
        flat_map (draft_effects rt server) (send_each refusal rest).0,
        ap (λ l. flat_map (draft_effects rt server) l)
            (first_sent refusal first rest accepted_first),
      ),
      ap (λ l. flat_map (draft_effects rt later) l)
          (all_sent (draft_refusal rt later) (first ∷ rest) accepting),
    )
