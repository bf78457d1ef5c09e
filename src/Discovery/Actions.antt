-- ===== src/Discovery/Actions.antt =====
-- What `DiscoveryView` in frontend/src/features/discovery/components/DiscoveryView.tsx does with the
-- products found: their import, the drafts of posts made of them, and the export. A handler runs from
-- its start to its end. Texts for the user stand here in English.
pub mod Laws
mod Tests
use affiliate_platform_api.Prelude.{
  Bool, List, Option, String, [], append, false, flat_map, get_or, if◌then◌else◌, is_some, join,
  length, map, none, nonempty, not, select, send_each, some, true, truthy, ℕ, ◌&&◌, ◌++◌, ◌==◌,
  ◌||◌, ◌∷◌, ◌⊎◌, inl, inr,
}
use affiliate_platform_api.Queue.Types.{QueueStatus, draft}
use affiliate_platform_api.Queue.Listing.{present}
use affiliate_platform_api.Queue.Publishing.{Thrown, get_api_error_message}
use affiliate_platform_api.Discovery.Types.{DiscoveryProduct}
use affiliate_platform_api.Discovery.Session.{track_imported}
use affiliate_platform_api.Discovery.Selecting.{product_ids}
use affiliate_platform_api.Discovery.View.{Page}

-- `QueueCreate`, the post that is asked for.
pub record QueueCreate : Type 0 where
  pub title : String
  pub content : String
  pub status : QueueStatus
  pub product_id : Option String
  pub image_url : String
  pub button_text : Option String
  pub button_url : Option String

pub record ProductImportBatchResponse : Type 0 where
  pub imported : ℕ
  pub updated : ℕ
  pub failed : ℕ

-- What the content is generated of: a product of the inventory, or the page of a product.
pub data GenerateInput : Type 0 where
  of_product : String → GenerateInput
  of_url : String → GenerateInput

-- The answers of the server to the requests of one handler.
pub record Server : Type 0 where
  pub import_product : String → Option Thrown
  pub import_products_batch : List String → Thrown ⊎ ProductImportBatchResponse
  pub create_queue_item : QueueCreate → Option Thrown
  pub generate_content : GenerateInput → Thrown ⊎ String

-- The first 500 units of a title, numbers as texts, and `encodeURIComponent`.
pub record Runtime : Type 0 where
  pub slice_500 : String → String
  pub locale : ℕ → String
  pub encode_uri_component : String → String

pub data Effect : Type 0 where
  imports_one : String → Effect
  imports_batch : List String → Effect
  generates : GenerateInput → Effect
  creates : QueueCreate → Effect
  push : String → Effect
  exports : List DiscoveryProduct → Effect

abbrev pub fail_with : Thrown → String → Page → Page
fail_with thrown fallback p = record p {
  action_error = some (get_api_error_message thrown fallback);
  batch_busy = false;
}

module _ (rt : Runtime) where
  -- `queueDraftFromProduct`: the post that it asks for.
  abbrev pub draft_of : DiscoveryProduct → String → QueueCreate
  draft_of product content = record {
    title = rt.slice_500 product.title;
    content = content;
    status = draft;
    product_id = nonempty product.id;
    image_url = product.image_url;
    button_text = if truthy product.affiliate_url then some "Buy now" else none;
    button_url = product.affiliate_url;
  }

  abbrev pub content_of : DiscoveryProduct → String
  content_of product =
      join "\n\n" (present (some product.title ∷ product.description ∷ product.affiliate_url ∷ []))

  abbrev pub generate_input : DiscoveryProduct → Option String → GenerateInput
  generate_input product none = of_url product.product_url
  generate_input product (some id) = of_product id

  abbrev pub ai_page : DiscoveryProduct → Option String → String
  ai_page product none = append "/ai?url=" (rt.encode_uri_component product.product_url)
  ai_page product (some id) = append "/ai?product=" (rt.encode_uri_component id)

  -- `handleExport`
  unfoldable pub handle_export :
      List DiscoveryProduct → List DiscoveryProduct → Page → Page × List Effect
  handle_export (first ∷ selected) filtered p = (
    record p {
      action_message = some (append "Exported: " (rt.locale (length (first ∷ selected))));
    },
    exports (first ∷ selected) ∷ [],
  )
  handle_export [] (first ∷ filtered) p = (
    record p {
      action_message = some (append "Exported: " (rt.locale (length (first ∷ filtered))));
    },
    exports (first ∷ filtered) ∷ [],
  )
  handle_export [] [] p = (p, [])

  module _ (server : Server) where
    abbrev pub imported_one : DiscoveryProduct → Option Thrown → Page → Page
    imported_one product none p = record p {
      session = track_imported (product.aliexpress_product_id ∷ []) p.session;
      action_message = some (append "Imported: " product.title);
      action_error = none;
    }
    imported_one product (some thrown) p = record p {
      action_error = some (get_api_error_message thrown "The import failed.");
    }

    -- `handleImportOne`; `can_import` holds for an administrator.
    unfoldable pub handle_import_one : Bool → DiscoveryProduct → Page → Page × List Effect
    unfolding track_imported
    handle_import_one false product p = (p, [])
    handle_import_one true product p = (
      imported_one product (server.import_product product.aliexpress_product_id) p,
      imports_one product.aliexpress_product_id ∷ [],
    )

    abbrev pub batch_message : ProductImportBatchResponse → String
    batch_message result = append (rt.locale result.imported) (
        append " new, " (
          append (rt.locale result.updated)
            (append " updated, " (append (rt.locale result.failed) " failed"))))

    abbrev pub imported_batch : List String → Thrown ⊎ ProductImportBatchResponse → Page → Page
    imported_batch ids (inl thrown) p = fail_with thrown "The import of the batch failed." p
    imported_batch ids (inr result) p = record p {
      session = track_imported ids p.session;
      action_message = some (batch_message result);
      action_error = none;
      batch_busy = false;
      selected_ids = [];
    }

    -- `handleImportSelected`
    unfoldable pub handle_import_selected : Bool → List DiscoveryProduct → Page → Page × List Effect
    unfolding track_imported
    handle_import_selected false selected p = (p, [])
    handle_import_selected true [] p = (p, [])
    handle_import_selected true (first ∷ selected) p =
        let ids : List String = product_ids (first ∷ selected) in
        (imported_batch ids (server.import_products_batch ids) p, imports_batch ids ∷ [])

    abbrev pub finished : String → Option Thrown → String → Page → Page
    finished message none fallback p = record p {
      action_message = some message;
      action_error = none;
      batch_busy = false;
      selected_ids = [];
    }
    finished message (some thrown) fallback p = fail_with thrown fallback p

    abbrev pub draft_refusal : DiscoveryProduct → Option Thrown
    draft_refusal product = server.create_queue_item (draft_of product (content_of product))

    abbrev pub draft_effects : DiscoveryProduct → List Effect
    draft_effects product = creates (draft_of product (content_of product)) ∷ []

    -- `handleAddToQueue`
    unfoldable pub handle_add_to_queue : List DiscoveryProduct → Page → Page × List Effect
    unfolding send_each
    handle_add_to_queue [] p = (p, [])
    handle_add_to_queue (first ∷ rest) p =
        let (sent, thrown) = send_each draft_refusal (first ∷ rest) in
        (
          finished (append "Added: " (rt.locale (length (first ∷ rest)))) thrown
              "The posts are not added." p,
          flat_map draft_effects sent,
        )

    abbrev pub generated_refusal : DiscoveryProduct → Thrown ⊎ String → Option Thrown
    generated_refusal product (inl thrown) = some thrown
    generated_refusal product (inr content) = server.create_queue_item (draft_of product content)

    abbrev pub generated_effects : DiscoveryProduct → Thrown ⊎ String → List Effect
    generated_effects product (inl thrown) = []
    generated_effects product (inr content) = creates (draft_of product content) ∷ []

    abbrev pub input_of : DiscoveryProduct → GenerateInput
    input_of product = generate_input product (nonempty product.id)

    abbrev pub generate_refusal : DiscoveryProduct → Option Thrown
    generate_refusal product =
        generated_refusal product (server.generate_content (input_of product))

    abbrev pub generate_effects : DiscoveryProduct → List Effect
    generate_effects product =
        generates (input_of product)
        ∷ generated_effects product (server.generate_content (input_of product))

    -- `handleGenerateAi`
    unfoldable pub handle_generate_ai : List DiscoveryProduct → Page → Page × List Effect
    unfolding send_each
    handle_generate_ai [] p = (p, [])
    handle_generate_ai (product ∷ []) p = (p, push (ai_page product (nonempty product.id)) ∷ [])
    handle_generate_ai (first ∷ second ∷ rest) p =
        let (sent, thrown) = send_each generate_refusal (first ∷ second ∷ rest) in
        (
          finished (append "Generated: " (rt.locale (length (first ∷ second ∷ rest)))) thrown
              "The content is not generated." p,
          flat_map generate_effects sent,
        )
