-- ===== src/Csv/RoundTrip.antt =====
-- The exports of the products and of the discovery, as a reader of CSV takes them.
use Prim.Native.Char.{Char, code}
use Prim.Native.String.{String, ◌++◌}
use text.Mathlib.TextLemmas.{append-nil, append_assoc, cons-append, nil-append}
use affiliate_platform_api.Prelude.{
  All, List, [], false, map, refl, ℕ, ◌=?◌, ◌≡◌, ◌∷◌, ◌∙◌, ap, sym,
}
use affiliate_platform_api.Selection.{is_empty}
use affiliate_platform_api.Csv.{
  Described, Listed, discovery_headers, export_discovery_products_csv, export_products_csv,
  fields_of, product_fields, product_headers, csv_text, escape_text, row_text,
}
use affiliate_platform_api.Discovery.Types.{DiscoveryProduct}
use affiliate_platform_api.Products.{Product}
use affiliate_platform_api.Csv.Reader.{
  Act, after_quote, all_rows, does, field, outside, plain, read, read_csv, row, start,
}
use affiliate_platform_api.Csv.Fields.{Ends, before, field_read, one}

-- A character that ends a field does so in each of these modes.
ends_with :
    (c : Char) (s t : String) (act : Act)
    → (code c =? b'"') ≡ false
    → outside (code c) ≡ (act, start)
    → s ≡ String.◌∷◌ c t
    → Ends s × (read s plain ≡ does act c (read t start))
ends_with c s t act unquoted ends e =
    let at_start : read s start ≡ does act c (read t start) =
      one c s t t start start act (rw unquoted ends) e in
    let at_plain : read s plain ≡ does act c (read t start) = one c s t t plain start act ends e in
    let at_quote : read s after_quote ≡ does act c (read t start) =
      one c s t t after_quote start act (rw unquoted ends) e in
    (record { at_start = at_start ∙ sym at_plain; at_quote = at_quote ∙ sym at_plain }, at_plain)

comma_ends :
    (t : String) → Ends ("," ++ t) × (read ("," ++ t) plain ≡ does field "," (read t start))
comma_ends t =
    ends_with "," ("," ++ t) t field refl refl
      (cons-append "," String.[] t ∙ ap (λ s. String.◌∷◌ "," s) (nil-append t))

line_ends :
    (t : String) → Ends ("\n" ++ t) × (read ("\n" ++ t) plain ≡ does row "\n" (read t start))
line_ends t =
    ends_with "\n" ("\n" ++ t) t row refl refl
      (cons-append "\n" String.[] t ∙ ap (λ s. String.◌∷◌ "\n" s) (nil-append t))

-- A row is read back, and what follows it are the rows `rows`.
row_read :
    (f : String) (fs : List String) (r : String) (rows : List (List String))
    → Ends r
    → read r plain ≡ (String.[], [], rows)
    → read (row_text (f ∷ fs) ++ r) start ≡ (f, fs, rows)
row_read f [] r rows e h =
    field_read f r e ∙ ap (λ x. before f x) h ∙ ap (λ s. (s, [], rows)) (append-nil f)
row_read f (g ∷ gs) r rows e h =
    let later : String = row_text (g ∷ gs) ++ r in
    let (ends, comma) = comma_ends later in
    ap (λ s. read s start)
      (append_assoc (escape_text f) ("," ++ row_text (g ∷ gs)) r
        ∙ ap (λ s. escape_text f ++ s) (append_assoc "," (row_text (g ∷ gs)) r))
    ∙ field_read f ("," ++ later) ends
    ∙ ap (λ x. before f x) (comma ∙ ap (λ x. does field "," x) (row_read g gs r rows e h))
    ∙ ap (λ s. (s, g ∷ gs, rows)) (append-nil f)

file_read :
    (f : String) (fs : List String) (rows : List (List String))
    → All (λ fields. is_empty fields ≡ false) rows
    → read (csv_text ((f ∷ fs) ∷ rows)) start ≡ (f, fs, rows)
unfolding csv_text read
file_read f fs [] h =
    ap (λ s. read s start) (sym (append-nil (row_text (f ∷ fs))))
    ∙ row_read f fs String.[] [] (record { at_start = refl; at_quote = refl }) refl
file_read f fs ([] ∷ rows) (h, k) = cc
file_read f fs ((g ∷ gs) ∷ rows) (h, k) =
    let later : String = csv_text ((g ∷ gs) ∷ rows) in
    let (ends, line) = line_ends later in
    row_read f fs ("\n" ++ later) ((g ∷ gs) ∷ rows) ends
      (line ∙ ap (λ x. does row "\n" x) (file_read g gs rows k))

discovery_rows :
    (text_of : ℕ → String) (described : DiscoveryProduct → Described)
    (products : List DiscoveryProduct)
    → All (λ fields. is_empty fields ≡ false) (map (fields_of text_of described) products)
discovery_rows text_of described [] = tt
discovery_rows text_of described (p ∷ products) = (refl, discovery_rows text_of described products)

product_rows :
    (text_of : ℕ → String) (listed : Product → Listed) (products : List Product)
    → All (λ fields. is_empty fields ≡ false) (map (product_fields text_of listed) products)
product_rows text_of listed [] = tt
product_rows text_of listed (p ∷ products) = (refl, product_rows text_of listed products)

discovery_text :
    (text_of : ℕ → String) (described : DiscoveryProduct → Described)
    (products : List DiscoveryProduct)
    → export_discovery_products_csv text_of described products
      ≡ csv_text (discovery_headers ∷ map (fields_of text_of described) products)
unfolding export_discovery_products_csv csv_text escape_text
discovery_text text_of described products = refl

product_text :
    (text_of : ℕ → String) (listed : Product → Listed) (products : List Product)
    → export_products_csv text_of listed products
      ≡ csv_text (product_headers ∷ map (product_fields text_of listed) products)
unfolding export_products_csv csv_text escape_text
product_text text_of listed products = refl

-- Both files, that of the products found and that of the inventory, whatever the texts of their fields
-- are, commas, quotes and line breaks included: a reader that follows RFC 4180, with a line feed at
-- the end of a row, gets the headers as the first row, then one row for each product, in order, with
-- exactly the texts of its fields.
pub read-export :
    (text_of : ℕ → String) (described : DiscoveryProduct → Described) (listed : Product → Listed)
    (found : List DiscoveryProduct) (products : List Product)
    → (read_csv (export_discovery_products_csv text_of described found)
        ≡ discovery_headers ∷ map (fields_of text_of described) found)
      × (read_csv (export_products_csv text_of listed products)
          ≡ product_headers ∷ map (product_fields text_of listed) products)
unfolding read_csv
read-export text_of described listed found products = (
  ap (λ s. all_rows (read s start)) (discovery_text text_of described found)
      ∙ ap all_rows (file_read (_) (_) (_) (discovery_rows text_of described found)),
  ap (λ s. all_rows (read s start)) (product_text text_of listed products)
      ∙ ap all_rows (file_read (_) (_) (_) (product_rows text_of listed products)),
)
