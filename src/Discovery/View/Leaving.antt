-- ===== src/Discovery/View/Leaving.antt =====
-- A search by image in `DiscoveryView`, and the reset that leaves it.
use affiliate_platform_api.Prelude.{
  Bool-cases, Option, String, [], arith, false, get_or, inl, inr, is_some, ltb, none, nonempty,
  refl, some, true, ℕ, ◌≡◌, ap, subst, sym,
}
use affiliate_platform_api.Discovery.Types.{
  DiscoveryMode, DiscoveryParams, DiscoveryResponse, category, general, hot, no_params,
}
use affiliate_platform_api.Discovery.Session.{mark_running, mark_success}
use affiliate_platform_api.Discovery.Api.{
  url, ProductImageSearchKey, File, ProductImageSearchRequest, discover_mode, discover_products,
  throws,
}
use affiliate_platform_api.Discovery.View.{
  same_key, keep_same, Page, Query, search_image, on_image_search, run_image_search, should_fetch,
}
use affiliate_platform_api.Discovery.View.Screen.{leave_image_search, screen, no_images, none_found}

-- The parameters that stand for a search by image.
abbrev image_stand_in : DiscoveryMode → ℕ → DiscoveryParams
image_stand_in mode page = record no_params {
  mode = some mode;
  page = some page;
  page_size = some 20;
}

-- The answer to a search by image has arrived.
abbrev pub brings : DiscoveryResponse → Query
brings response = record {
  is_fetching = false;
  is_success = true;
  is_error = false;
  found = some response;
  message = "";
}

same_key-page : (a b : ProductImageSearchKey) → same_key a b ≡ true → a.page ≡ b.page
same_key-page a b h = ground (arith, h)

kept_key :
    (old : Option ProductImageSearchKey) (next : ProductImageSearchKey)
    → (k : ProductImageSearchKey) × (keep_same old next ≡ some k) × (k.page ≡ next.page)
kept_key none next = (next, refl, refl)
kept_key (some prev) next = elim (Bool-cases (same_key prev next)) [
  | inl same ↦ (prev, rw same refl, same_key-page prev next same)
  | inr other ↦ (next, rw other refl, refl)
]

-- What is shown after the answer, and what the reset leaves.
abbrev AfterReset : String → Query → DiscoveryResponse → ℕ → Page → Page → Type 0
AfterReset now discovery response page p r =
    let shown : Page = on_image_search now (brings response) r in
    let p' : Page = leave_image_search shown in
    (screen discovery (brings response) [] shown ≡ no_images)
    × (p'.session.committed_params
        ≡ some (image_stand_in (get_or p.session.draft_params.mode hot) page))
    × (p'.image_search_input ≡ none)
    × (p'.run_token ≡ p.run_token)

-- The page with the key of an image search.
abbrev keyed : Option ProductImageSearchKey → ℕ → Page → Page
keyed input page p = record p {
  image_search_input = input;
  session = mark_running (image_stand_in (get_or p.session.draft_params.mode hot) page) p.session;
  selected_ids = [];
}

empty_found :
    (response : DiscoveryResponse) → response.items ≡ [] → none_found response.items ≡ true
empty_found response e = ap none_found e

keyed-AfterReset :
    (now : String) (k : ProductImageSearchKey) (page : ℕ) (p : Page) (discovery : Query)
    (response : DiscoveryResponse)
    → response.items ≡ []
    → k.page ≡ page
    → AfterReset now discovery response page p (keyed (some k) page p)
unfolding mark_running mark_success leave_image_search
keyed-AfterReset now k page p discovery response e same = (
  ground (arith, empty_found response e),
  ap (λ n. some (image_stand_in (get_or p.session.draft_params.mode hot) n)) same,
  refl,
  refl,
)

image_noted :
    (decimal : ℕ → String) (now : String) (address body : Option String) (file : Option File)
    (page : ℕ) (p : Page) (discovery : Query) (response : DiscoveryResponse)
    → is_some address ≡ true
    → response.items ≡ []
    → AfterReset now discovery response page p (search_image decimal address body file page p)
unfolding mark_running
image_noted decimal now none body file page p discovery response h e = cc
image_noted decimal now (some address) body file page p discovery response h e =
    let next : ProductImageSearchKey = record {
      source = url;
      image_url = some address;
      fingerprint = none;
      page = page;
    } in
    let (k, kept, same) = kept_key p.image_search_input next in
    subst (λ o. AfterReset now discovery response page p (keyed o page p)) (sym kept)
      (keyed-AfterReset now k page p discovery response e same)

-- After a search by the address of an image on a page that searches by category and has run a search
-- before, when the answer brings no product: the page notes the answer and shows the screen without
-- images. The reset of that screen, which goes back from the image search, then enables the query of
-- the ordinary search, although no search was asked for; its parameters are those that stand for the
-- image search, a category search without a category, so that the client throws.
pub leave_image_search_throws :
    (decimal : ℕ → String) (now : String) (payload : ProductImageSearchRequest) (file : Option File)
    (p : Page) (discovery : Query) (response : DiscoveryResponse)
    → ltb 0 p.run_token ≡ true
    → p.session.draft_params.mode ≡ some category
    → is_some (nonempty payload.image_url) ≡ true
    → response.items ≡ []
    → (let shown : Page =
          on_image_search now (brings response) (run_image_search decimal payload file p) in
        let p' : Page = leave_image_search shown in
        (screen discovery (brings response) [] shown ≡ no_images)
        × (should_fetch p' ≡ true)
        × ((params : DiscoveryParams) × (p'.session.committed_params ≡ some params)
            × (discover_products params ≡ throws "category_id is required for category discovery")))
unfolding run_image_search discover_products
leave_image_search_throws decimal now payload file p discovery response ran by_category addressed
      no_items =
    let cleared : Page = record p {
      action_error = none;
      action_message = none;
      inspector_id = none;
    } in
    let page : ℕ = get_or payload.page 1 in
    let (shows, committed, left, token) =
      image_noted decimal now (nonempty payload.image_url) (nonempty payload.image_base64) file page
        cleared discovery response addressed no_items in
    (
      shows,
      ground
          (arith, ap (λ o. is_some o) committed, ap (λ o. is_some o) left, ap (λ n. ltb 0 n) token),
      (
        image_stand_in (get_or p.session.draft_params.mode hot) page,
        committed,
        ap
            (λ m.
              discover_mode (get_or (some (get_or m hot)) general)
                (image_stand_in (get_or m hot) page))
            by_category,
      ),
    )
