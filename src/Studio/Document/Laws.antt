-- ===== src/Studio/Document/Laws.antt =====
-- The loop of `parseMarketingDocument` in frontend/src/features/ai/lib/document.ts over any lines.
use affiliate_platform_api.Prelude.{
  All, All-append, List, Option, String, [], flat_map, inl, inr, map, none, refl, some, trim, ◌++◌,
  ◌≡◌, ◌⊎◌, ◌∷◌, ◌∙◌, ap, sym, subst,
}
use affiliate_platform_api.Studio.Document.{
  DocumentBlock, Line, ListType, Parsing, Patterns, add_line, blank, call, cta, empty_parsing,
  ended_items, flush_both, flushed_list, flushed_paragraph, headed, heading, item, kept_items,
  left_blocks, on_line, on_lines, or_whole, ordered, paragraph, parse_marketing_document, plain,
  push_block, read_line, unordered,
}
use affiliate_platform_api.Studio.Document.Marks.{
  marks_of_line, marks, HasContent, append_nil, append_assoc, marks-append, map_last, waiting_marks,
  HasList, marks-flushed_list, marks-flushed_paragraph, flushed_list-HasContent,
  flushed_paragraph-HasContent,
}

-- What is kept of a parsing when the marks of some lines have been read.
abbrev Read : List DocumentBlock → Option ListType → List String → List Line → Type 0
Read blocks type items done =
    (marks blocks ++ waiting_marks type items ≡ done) × All HasContent blocks × HasList type items

abbrev IsRead : Parsing → List Line → Type 0
IsRead s done = Read s.blocks s.list_type s.list_items done

after_paragraph :
    (lines : List String) (blocks : List DocumentBlock) (type : Option ListType)
    (items : List String) (done : List Line)
    → Read blocks type items done
    → Read (flushed_paragraph lines blocks) type items done
after_paragraph lines blocks type items done (kept, full, list) = (
  ap (λ us. us ++ waiting_marks type items) (marks-flushed_paragraph lines blocks) ∙ kept,
  flushed_paragraph-HasContent lines blocks full,
  list,
)

after_list :
    (blocks : List DocumentBlock) (type : Option ListType) (items : List String) (done : List Line)
    → Read blocks type items done
    → Read (flushed_list type items blocks) none [] done
after_list blocks type items done (kept, full, list) = (
  append_nil _ ∙ marks-flushed_list type items blocks ∙ kept,
  flushed_list-HasContent type items blocks full,
  refl,
)

flush_both-IsRead : (s : Parsing) (done : List Line) → IsRead s done → IsRead (flush_both s) done
flush_both-IsRead s done h =
    after_list (flushed_paragraph s.paragraph_lines s.blocks) s.list_type s.list_items done
      (after_paragraph s.paragraph_lines s.blocks s.list_type s.list_items done h)

push_block-IsRead :
    (block : DocumentBlock) (s : Parsing) (done : List Line)
    → HasContent block
    → IsRead s done
    → IsRead (push_block block (flush_both s)) (done ++ marks (block ∷ []))
push_block-IsRead block s done h k =
    let (kept, full, list) = flush_both-IsRead s done k in
    let blocks : List DocumentBlock = (flush_both s).blocks in
    (
      append_nil _
          ∙ marks-append blocks (block ∷ [])
          ∙ ap (λ us. us ++ marks (block ∷ [])) (sym (append_nil (marks blocks)) ∙ kept),
      All-append HasContent blocks (block ∷ []) full (h, tt),
      refl,
    )

more_items :
    (blocks : List DocumentBlock) (type : ListType) (items : List String) (x : String)
    (done : List Line)
    → Read blocks (some type) items done
    → Read blocks (some type) (items ++ x ∷ []) (done ++ item type x ∷ [])
more_items blocks type items x done (kept, full, list) = (
  ap (λ us. marks blocks ++ us) (map_last type items x)
      ∙ sym (append_assoc (marks blocks) (map (λ text. item type text) items) (item type x ∷ []))
      ∙ ap (λ us. us ++ item type x ∷ []) kept,
  full,
  tt,
)

first_item :
    (blocks : List DocumentBlock) (type : ListType) (x : String) (done : List Line)
    → Read blocks none [] done
    → Read blocks (some type) (x ∷ []) (done ++ item type x ∷ [])
first_item blocks type x done (kept, full, list) =
    (ap (λ us. us ++ item type x ∷ []) (sym (append_nil (marks blocks)) ∙ kept), full, tt)

after_item :
    (blocks : List DocumentBlock) (old : Option ListType) (type : ListType) (items : List String)
    (x : String) (done : List Line)
    → Read blocks old items done
    → Read
        (left_blocks old type items blocks)
        (some type)
        (kept_items old type items ++ x ∷ [])
        (done ++ item type x ∷ [])
after_item blocks none type [] x done h = first_item blocks type x done h
after_item blocks none type (y ∷ items) x done (kept, full, list) = cc
after_item blocks (some unordered) unordered items x done h =
    more_items blocks unordered items x done h
after_item blocks (some ordered) ordered items x done h = more_items blocks ordered items x done h
after_item blocks (some unordered) ordered items x done h =
    first_item _ ordered x done (after_list blocks (some unordered) items done h)
after_item blocks (some ordered) unordered items x done h =
    first_item _ unordered x done (after_list blocks (some ordered) items done h)

after_line :
    (blocks : List DocumentBlock) (type : Option ListType) (items : List String) (done : List Line)
    → Read blocks type items done
    → Read (flushed_list type items blocks) none (ended_items type items) done
after_line blocks none items done h = h
after_line blocks (some type) items done h = after_list blocks (some type) items done h

on_line-IsRead :
    (line : Line) (s : Parsing) (done : List Line)
    → IsRead s done
    → IsRead (on_line line s) (done ++ marks_of_line line)
on_line-IsRead blank s done h =
    subst (λ us. IsRead (flush_both s) us) (sym (append_nil done)) (flush_both-IsRead s done h)
on_line-IsRead (headed level text) s done h = push_block-IsRead (heading level text) s done tt h
on_line-IsRead (call text url) s done h = push_block-IsRead (cta text url) s done tt h
on_line-IsRead (item type text) s done h =
    after_item (flushed_paragraph s.paragraph_lines s.blocks) s.list_type type s.list_items text
      done (after_paragraph s.paragraph_lines s.blocks s.list_type s.list_items done h)
on_line-IsRead (plain text) s done h =
    subst (λ us. IsRead (add_line text s) us) (sym (append_nil done))
      (after_line s.blocks s.list_type s.list_items done h)

on_lines-IsRead :
    (lines : List Line) (s : Parsing) (done : List Line)
    → IsRead s done
    → IsRead (on_lines lines s) (done ++ flat_map marks_of_line lines)
on_lines-IsRead [] s done h = subst (λ us. IsRead s us) (sym (append_nil done)) h
on_lines-IsRead (line ∷ lines) s done h =
    subst (λ us. IsRead (on_lines lines (on_line line s)) us)
      (append_assoc done (marks_of_line line) (flat_map marks_of_line lines))
      (on_lines-IsRead lines (on_line line s) (done ++ marks_of_line line)
        (on_line-IsRead line s done h))

abbrev pub Parsed : String → List Line → List DocumentBlock → Type 0
Parsed content lines blocks =
    (marks blocks ≡ flat_map marks_of_line lines)
    × (All HasContent blocks ⊎ (blocks ≡ paragraph (trim content) ∷ []))

whole_Parsed :
    (content : String) (lines : List Line) (blocks : List DocumentBlock)
    → marks blocks ≡ flat_map marks_of_line lines
    → All HasContent blocks
    → Parsed content lines (or_whole content blocks)
whole_Parsed content lines [] kept full = (kept, inr refl)
whole_Parsed content lines (block ∷ blocks) kept full = (kept, inl full)

-- Every heading, every item of a list and every call to action of a text is in its blocks, once, with
-- its text, and in the order of the lines, and nothing else is; and no block is empty: each list has
-- an item, each paragraph a text, unless no line gives a block and the only one is the whole text.
pub parse_marketing_document-Parsed :
    (r : Patterns) (split_lines : String → List String) (content : String)
    → Parsed content
        (map (λ raw. read_line r raw) (split_lines content))
        (parse_marketing_document r split_lines content)
unfolding parse_marketing_document
parse_marketing_document-Parsed r split_lines content =
    let lines : List Line = map (λ raw. read_line r raw) (split_lines content) in
    let s : Parsing = on_lines lines empty_parsing in
    let (kept, full, list) =
      flush_both-IsRead s (flat_map marks_of_line lines)
        (on_lines-IsRead lines empty_parsing [] (refl, tt, refl)) in
    whole_Parsed content lines (flush_both s).blocks
      (sym (append_nil (marks (flush_both s).blocks)) ∙ kept) full
