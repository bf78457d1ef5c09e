-- ===== src/Products/View/Loops.antt =====
-- The handlers of the inventory that send a request for each selected product.
use affiliate_platform_api.Prelude.{
  List, Option, Outcome, String, [], map, none, refl, send_each, send_each-Outcome, some, ◌≡◌, ◌∷◌,
  ℕ,
}
use affiliate_platform_api.Products.{Product}
use affiliate_platform_api.Products.View.{
  Details, Effect, ProductsPage, Server, Thrown, add_products_to_queue, change_selected_status,
  creates, draft_of, finished, message_of, updates,
}

-- The page after a loop that was stopped, or not.
abbrev pub Finished : String → Option Thrown → ProductsPage → ProductsPage → Type 0
Finished fallback none p p' = (p'.inventory.selected_product_ids ≡ []) × (p'.action_error ≡ none)
Finished fallback (some thrown) p p' =
    (p'.inventory ≡ p.inventory) × (p'.action_error ≡ some (message_of thrown fallback))

pub record LoopOutcome (refusal : Product → Option Thrown) (effect_of : Product → Effect)
    (fallback : String) (products : List Product) (p : ProductsPage)
    (result : ProductsPage × List Effect) : Type 0 where
  pub sent : List Product
  pub thrown : Option Thrown
  pub outcome : Outcome refusal products sent thrown
  pub effects_sent : result.1 ≡ map effect_of sent
  pub page_after : Finished fallback thrown p result.0
  pub stays : (result.0.delete_targets ≡ p.delete_targets) × (result.0.page ≡ p.page)

finishes :
    (message fallback : String) (thrown : Option Thrown) (p : ProductsPage)
    → Finished fallback thrown p (finished message fallback thrown p)
      × ((finished message fallback thrown p).delete_targets ≡ p.delete_targets)
      × ((finished message fallback thrown p).page ≡ p.page)
finishes message fallback none p = ((refl, refl), refl, refl)
finishes message fallback (some thrown) p = ((refl, refl), refl, refl)

loop_lem :
    (refusal : Product → Option Thrown) (effect_of : Product → Effect) (products : List Product)
    (message fallback : String) (p : ProductsPage)
    → LoopOutcome refusal effect_of fallback products p (
      finished message fallback (send_each refusal products).1 p,
      map effect_of (send_each refusal products).0,
    )
loop_lem refusal effect_of products message fallback p =
    let (after, targets, page) = finishes message fallback (send_each refusal products).1 p in
    record {
      sent = (send_each refusal products).0;
      thrown = (send_each refusal products).1;
      outcome = send_each-Outcome refusal products;
      effects_sent = refl;
      page_after = after;
      stays = (targets, page);
    }

-- To change the status of the selected products: one update goes out for each, in order, until one is
-- refused. When none is, the selection is emptied and no error is shown; otherwise those before it
-- have the new status, those after it the old one, the selection stays, and the error that is shown is
-- the page's own text, unless what was thrown is an instance of `Error`, whose message it then is.
pub change_selected_status_lem :
    (locale : ℕ → String) (details : Product → Details) (server : Server) (next_status : String)
    (selected : List Product) (p : ProductsPage)
    → LoopOutcome
        (λ q. server.update_product q.id next_status)
        (λ q. updates q.id next_status)
        "The status is not changed."
        selected
        p
        (change_selected_status locale details server next_status selected p)
unfolding change_selected_status
change_selected_status_lem locale details server next_status selected p =
    loop_lem (λ q. server.update_product q.id next_status) (λ q. updates q.id next_status) selected
      "The status is changed." "The status is not changed." p

pub add_products_to_queue_lem :
    (locale : ℕ → String) (details : Product → Details) (server : Server) (first : Product)
    (rest : List Product) (p : ProductsPage)
    → LoopOutcome
        (λ q. server.create_queue_item (draft_of locale details server q))
        (λ q. creates (draft_of locale details server q))
        "The products are not added."
        (first ∷ rest)
        p
        (add_products_to_queue locale details server (first ∷ rest) p)
unfolding add_products_to_queue
add_products_to_queue_lem locale details server first rest p =
    loop_lem (λ q. server.create_queue_item (draft_of locale details server q))
      (λ q. creates (draft_of locale details server q)) (first ∷ rest) (_)
      "The products are not added." p
