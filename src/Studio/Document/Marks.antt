-- ===== src/Studio/Document/Marks.antt =====
-- The marks of blocks, and what the ends of a paragraph and of a list do to them.
use affiliate_platform_api.Prelude.{
  All, All-append, Bool, List, Option, String, [], false, flat_map, if◌then◌else◌, join, map, none,
  refl, some, trim, true, ◌++◌, ◌==◌, ◌≡◌, ◌∷◌, ◌∙◌, ap, sym,
}
use affiliate_platform_api.Studio.Document.{
  DocumentBlock, Line, ListType, blank, call, cta, flushed_list, flushed_paragraph, headed, heading,
  item, list_block, ordered, ordered_list, paragraph, plain, unordered, unordered_list,
}

-- The headings, the items and the calls to action, one by one.
abbrev pub marks_of_line : Line → List Line
marks_of_line blank = []
marks_of_line (headed level text) = headed level text ∷ []
marks_of_line (item type text) = item type text ∷ []
marks_of_line (call text url) = call text url ∷ []
marks_of_line (plain text) = []

abbrev pub marks_of_block : DocumentBlock → List Line
marks_of_block (heading level text) = headed level text ∷ []
marks_of_block (paragraph text) = []
marks_of_block (unordered_list items) = map (λ text. item unordered text) items
marks_of_block (ordered_list items) = map (λ text. item ordered text) items
marks_of_block (cta text url) = call text url ∷ []

abbrev pub marks : List DocumentBlock → List Line
marks blocks = flat_map marks_of_block blocks

abbrev pub HasContent : DocumentBlock → Type 0
HasContent (heading level text) = Unit
HasContent (paragraph text) = (text == "") ≡ false
HasContent (unordered_list []) = ⊥
HasContent (unordered_list (x ∷ items)) = Unit
HasContent (ordered_list []) = ⊥
HasContent (ordered_list (x ∷ items)) = Unit
HasContent (cta text url) = Unit

pub append_nil : (xs : List Line) → xs ++ [] ≡ xs
append_nil [] = refl
append_nil (x ∷ xs) = ap (λ ys. x ∷ ys) (append_nil xs)

pub append_assoc : (xs ys zs : List Line) → (xs ++ ys) ++ zs ≡ xs ++ (ys ++ zs)
append_assoc [] ys zs = refl
append_assoc (x ∷ xs) ys zs = ap (λ us. x ∷ us) (append_assoc xs ys zs)

pub marks-append : (xs ys : List DocumentBlock) → marks (xs ++ ys) ≡ marks xs ++ marks ys
marks-append [] ys = refl
marks-append (x ∷ xs) ys =
    ap (λ us. marks_of_block x ++ us) (marks-append xs ys)
    ∙ sym (append_assoc (marks_of_block x) (marks xs) (marks ys))

pub map_last :
    (type : ListType) (items : List String) (x : String)
    → map (λ text. item type text) (items ++ x ∷ [])
      ≡ map (λ text. item type text) items ++ item type x ∷ []
map_last type [] x = refl
map_last type (y ∷ items) x = ap (λ us. item type y ∷ us) (map_last type items x)

abbrev pub waiting_marks : Option ListType → List String → List Line
waiting_marks none items = []
waiting_marks (some type) items = map (λ text. item type text) items

-- Without a list there are no items.
abbrev pub HasList : Option ListType → List String → Type 0
HasList none items = items ≡ []
HasList (some type) items = Unit

pub marks_of_list :
    (type : ListType) (items : List String)
    → marks (list_block type items ∷ []) ≡ map (λ text. item type text) items
marks_of_list unordered items = append_nil _
marks_of_list ordered items = append_nil _

pub list_block-HasContent :
    (type : ListType) (x : String) (items : List String) → HasContent (list_block type (x ∷ items))
list_block-HasContent unordered x items = tt
list_block-HasContent ordered x items = tt

pub marks-flushed_list :
    (type : Option ListType) (items : List String) (blocks : List DocumentBlock)
    → marks (flushed_list type items blocks) ≡ marks blocks ++ waiting_marks type items
marks-flushed_list none items blocks = sym (append_nil (marks blocks))
marks-flushed_list (some type) [] blocks = sym (append_nil (marks blocks))
marks-flushed_list (some type) (x ∷ items) blocks =
    marks-append blocks (list_block type (x ∷ items) ∷ [])
    ∙ ap (λ us. marks blocks ++ us) (marks_of_list type (x ∷ items))

pub marks-flushed_paragraph :
    (lines : List String) (blocks : List DocumentBlock)
    → marks (flushed_paragraph lines blocks) ≡ marks blocks
marks-flushed_paragraph [] blocks = refl
marks-flushed_paragraph (line ∷ lines) blocks = go (trim (join " " (line ∷ lines)) == "")
  where
    go :
        (b : Bool)
        → marks (if b then blocks else blocks ++ paragraph (trim (join " " (line ∷ lines))) ∷ [])
          ≡ marks blocks
    go true = refl
    go false = marks-append blocks _ ∙ append_nil (marks blocks)

pub flushed_list-HasContent :
    (type : Option ListType) (items : List String) (blocks : List DocumentBlock)
    → All HasContent blocks
    → All HasContent (flushed_list type items blocks)
flushed_list-HasContent none items blocks h = h
flushed_list-HasContent (some type) [] blocks h = h
flushed_list-HasContent (some type) (x ∷ items) blocks h =
    All-append HasContent blocks _ h (list_block-HasContent type x items, tt)

pub flushed_paragraph-HasContent :
    (lines : List String) (blocks : List DocumentBlock)
    → All HasContent blocks
    → All HasContent (flushed_paragraph lines blocks)
flushed_paragraph-HasContent [] blocks h = h
flushed_paragraph-HasContent (line ∷ lines) blocks h =
    go (trim (join " " (line ∷ lines)) == "") refl
  where
    go :
        (b : Bool)
        → (trim (join " " (line ∷ lines)) == "") ≡ b
        → All HasContent
            (if b then blocks else blocks ++ paragraph (trim (join " " (line ∷ lines))) ∷ [])
    go true e = h
    go false e = All-append HasContent blocks _ h (e, tt)
