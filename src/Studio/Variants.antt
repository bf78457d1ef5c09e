-- ===== src/Studio/Variants.antt =====
-- The variants of a session: their ids and their numbers.
use affiliate_platform_api.Prelude.{
  List, String, [], arith, length, map, refl, suc, ℕ, ◌+◌, ◌++◌, ◌≡◌, ◌∷◌, ap, ap₂,
}
use affiliate_platform_api.Studio.{ContentVariant, edit_variant, variant_ids}

-- The variants are numbered from `n` on.
abbrev pub Numbered : ℕ → List ContentVariant → Type 0
Numbered n [] = Unit
Numbered n (v ∷ vs) = (v.index ≡ n) × Numbered (suc n) vs

pub variant_ids-concat :
    (vs : List ContentVariant) (v : ContentVariant)
    → variant_ids (vs ++ v ∷ []) ≡ variant_ids vs ++ v.id ∷ []
variant_ids-concat [] v = refl
variant_ids-concat (w ∷ vs) v = ap (λ ids. w.id ∷ ids) (variant_ids-concat vs v)

pub Numbered-concat :
    (n : ℕ) (vs : List ContentVariant) (v : ContentVariant)
    → Numbered n vs
    → v.index ≡ length vs + n
    → Numbered n (vs ++ v ∷ [])
Numbered-concat n [] v h k = (omega (arith, k), tt)
Numbered-concat n (w ∷ vs) v (e, h) k = (e, Numbered-concat (suc n) vs v h (omega (arith, k)))

pub variant_ids-edit :
    (active content : String) (vs : List ContentVariant)
    → variant_ids (map (edit_variant active content) vs) ≡ variant_ids vs
variant_ids-edit active content [] = refl
variant_ids-edit active content (v ∷ vs) =
    ap₂ (λ x xs. x ∷ xs) (ground arith) (variant_ids-edit active content vs)

pub Numbered-edit :
    (n : ℕ) (active content : String) (vs : List ContentVariant)
    → Numbered n vs
    → Numbered n (map (edit_variant active content) vs)
Numbered-edit n active content [] h = tt
Numbered-edit n active content (v ∷ vs) (e, h) =
    (ground (arith, e), Numbered-edit (suc n) active content vs h)
