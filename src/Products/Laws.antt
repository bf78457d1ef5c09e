-- ===== src/Products/Laws.antt =====
-- The state of a product in the queue, read off the posts.
use affiliate_platform_api.Prelude.{
  Bool, Bool-cases, Dict, List, Option, String, [], arith, eq_iff, false, get, get-put, get_or,
  if◌then◌else◌, inl, inr, none, not, refl, select, some, some?, true, ◌++◌, ◌&&◌, ◌==◌, ◌≡◌, ◌∷◌,
  ap, ◌∙◌,
}
use affiliate_platform_api.Queue.Types.{QueueItem, published}
use affiliate_platform_api.Queue.Operations.{is_status}
use affiliate_platform_api.Products.{
  Product, ProductPipelineState, add_to_index, get_product_pipeline_state, has_items, in_queue,
  index_from, index_queue_by_product,
}

-- The posts of a product.
abbrev pub same_product : Option String → String → Bool
same_product none id = false
same_product (some p) id = not (p == "") && p == id

abbrev pub posts_of : String → List QueueItem → List QueueItem
posts_of id items = select (λ item. same_product item.product_id id) items

added :
    (product_id : Option String) (item : QueueItem) (m : Dict (List QueueItem)) (id : String)
    → get_or (get id (add_to_index product_id item m)) [] ≡ (
        if same_product product_id id
        then get_or (get id m) [] ++ item ∷ []
        else get_or (get id m) [])
added none item m id = refl
added (some p) item m id = elim (Bool-cases (p == "")) [
  | inl empty ↦ rw empty refl
  | inr full ↦ rw full (elim (Bool-cases (p == id)) [
    | inl same ↦ ground (
      arith,
      get-put p id (get_or (get p m) [] ++ item ∷ []) m,
      ap (λ i. get_or (get i m) [] ++ item ∷ []) ((eq_iff p id).0 same),
    )
    | inr other ↦ ground (arith, get-put p id (get_or (get p m) [] ++ item ∷ []) m)
  ])
]

append_assoc :
    {A : Type 0} (xs : List A) (y : A) (ys : List A) → (xs ++ y ∷ []) ++ ys ≡ xs ++ y ∷ ys
append_assoc [] y ys = refl
append_assoc (x ∷ xs) y ys = ap (λ zs. x ∷ zs) (append_assoc xs y ys)

append-[] : {A : Type 0} (xs : List A) → xs ≡ xs ++ []
append-[] [] = refl
append-[] (x ∷ xs) = ap (λ zs. x ∷ zs) (append-[] xs)

indexed :
    (items : List QueueItem) (m : Dict (List QueueItem)) (id : String)
    → get_or (get id (index_from m items)) [] ≡ get_or (get id m) [] ++ posts_of id items
indexed [] m id = append-[] (get_or (get id m) [])
indexed (item ∷ items) m id =
    indexed items (add_to_index item.product_id item m) id
    ∙ ap (λ xs. xs ++ posts_of id items) (added item.product_id item m id)
    ∙ choose (same_product item.product_id id)
  where
    choose :
        (b : Bool)
        → (if b then get_or (get id m) [] ++ item ∷ [] else get_or (get id m) [])
            ++ posts_of id items
          ≡ get_or (get id m) [] ++ (if b then item ∷ posts_of id items else posts_of id items)
    choose true = append_assoc (get_or (get id m) []) item (posts_of id items)
    choose false = refl

some?-posts_of :
    (p : QueueItem → Bool) (id : String) (items : List QueueItem)
    → some? p (posts_of id items) ≡ some? (λ i. same_product i.product_id id && p i) items
some?-posts_of p id [] = refl
some?-posts_of p id (item ∷ items) = ground (arith, some?-posts_of p id items)

has_items-posts_of :
    (id : String) (items : List QueueItem)
    → has_items (posts_of id items) ≡ some? (λ i. same_product i.product_id id) items
has_items-posts_of id [] = refl
has_items-posts_of id (item ∷ items) = ground (arith, has_items-posts_of id items)

-- What the inventory shows of a product, through the index of the posts, is what the posts say: it
-- has content if one of them names it, it is queued if one that names it is queued, scheduled or
-- published, and published if one that names it is published.
pub pipeline_state_lem :
    (p : Product) (items : List QueueItem)
    → (let state : ProductPipelineState =
          get_product_pipeline_state p (index_queue_by_product items) in
        (state.has_content ≡ some? (λ i. same_product i.product_id p.id) items)
        × (state.queued ≡ some? (λ i. same_product i.product_id p.id && in_queue i) items)
        × (state.published
            ≡ some? (λ i. same_product i.product_id p.id && is_status i.status published) items))
unfolding get_product_pipeline_state index_queue_by_product
pipeline_state_lem p items =
    let found = indexed items [] p.id in
    (
      ap has_items found ∙ has_items-posts_of p.id items,
      ap (some? in_queue) found ∙ some?-posts_of in_queue p.id items,
      ap (some? (λ i. is_status i.status published)) found
          ∙ some?-posts_of (λ i. is_status i.status published) p.id items,
    )
