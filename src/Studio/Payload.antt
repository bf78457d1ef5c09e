-- ===== src/Studio/Payload.antt =====
-- What the studio generates content from, and what a restored variant holds.
use affiliate_platform_api.Prelude.{
  Bool-cases, List, Option, String, [], arith, eq_iff, false, inl, inr, length, none, refl, some,
  trim, true, ◌+◌, ◌++◌, ◌==◌, ◌≡◌, ◌∷◌, ◌⊎◌, includes,
}
use affiliate_platform_api.Studio.{
  ContentSession, ContentVariant, Source, SourceType, active_variant, find_variant, from_product,
  from_url, perform, product, restore, restore_variant, source_of, url, url_source, variant_ids,
}

-- What a source of content is taken from.
abbrev pub IsTaken : SourceType → Option String → Option String → Option Source → Type 0
IsTaken kind product_id address (some (from_product id)) = (kind ≡ product) × (product_id ≡ some id)
IsTaken kind product_id address (some (from_url a)) =
    (u : String) × (address ≡ some u)
    × (trim u ≡ a)
    × ((a == "") ≡ false)
    × ((kind ≡ url) ⊎ (product_id ≡ none))
IsTaken kind product_id address none =
    ((kind ≡ url) ⊎ (product_id ≡ none))
    × ((address ≡ none) ⊎ ((u : String) × (address ≡ some u) × ((trim u == "") ≡ true)))

url-IsTaken :
    (kind : SourceType) (product_id address : Option String)
    → (kind ≡ url) ⊎ (product_id ≡ none)
    → IsTaken kind product_id address (url_source address)
url-IsTaken kind product_id none h = (h, inl refl)
url-IsTaken kind product_id (some u) h = elim (Bool-cases (trim u == "")) [
  | inl empty ↦ rw empty (h, inr (u, refl, empty))
  | inr full ↦ rw full (u, refl, refl, full, h)
]

-- The source of the next request: the chosen product where the studio is set to products and one is
-- chosen, otherwise the address without the spaces around it if anything is left of it, and no
-- request is built exactly when there is neither.
pub source_of-IsTaken :
    (kind : SourceType) (product_id address : Option String)
    → IsTaken kind product_id address (source_of kind product_id address)
source_of-IsTaken product (some id) address = (refl, refl)
source_of-IsTaken product none address = url-IsTaken product none address (inr refl)
source_of-IsTaken url (some id) address = url-IsTaken url (some id) address (inl refl)
source_of-IsTaken url none address = url-IsTaken url none address (inl refl)

find_variant-concat :
    (vs : List ContentVariant) (v : ContentVariant)
    → includes (variant_ids vs) v.id ≡ false
    → find_variant v.id (vs ++ v ∷ []) ≡ some v
find_variant-concat [] v h = rw ((eq_iff v.id v.id).1 refl) refl
find_variant-concat (w ∷ vs) v h = ground (arith, find_variant-concat vs v)

-- A variant is restored that the session has, with a fresh id: a new variant with the content, the
-- configuration and the source of that one becomes the active one, it stands after all others, and
-- these, the old one included, are as they were.
pub restore_variant_lem :
    (now from id : String) (source : ContentVariant) (s : ContentSession)
    → find_variant from s.variants ≡ some source
    → includes (variant_ids s.variants) id ≡ false
    → (let s' : ContentSession = perform now (restore_variant from id) s in
        let v : ContentVariant = record source {
          id = id;
          index = length s.variants + 1;
          created_at = now;
          origin = restore;
        } in
        (s'.variants ≡ s.variants ++ v ∷ []) × (active_variant s' ≡ some v))
unfolding perform
restore_variant_lem now from id source s found fresh =
    let v : ContentVariant = record source {
      id = id;
      index = length s.variants + 1;
      created_at = now;
      origin = restore;
    } in
    rw found (refl, find_variant-concat s.variants v fresh)
