-- ===== src/Studio/Document.antt =====
-- `parseMarketingDocument` and `serializeDocument` of frontend/src/features/ai/lib/document.ts: the
-- blocks of a generated text. What the regular expressions match is a parameter, and so are the split
-- into lines and the measure of a text.
pub mod Marks
pub mod Laws
mod Tests
use affiliate_platform_api.Prelude.{
  Bool, List, Option, String, [], append, false, get_or, if◌then◌else◌, join, ltb, map, none,
  nonempty, not, select, some, suc, trim, true, truthy, zero, ℕ, ◌&&◌, ◌++◌, ◌+◌, ◌==◌, ◌||◌, ◌∷◌,
}

pub data DocumentBlock : Type 0 where
  heading : ℕ → String → DocumentBlock
  paragraph : String → DocumentBlock
  unordered_list : List String → DocumentBlock
  ordered_list : List String → DocumentBlock
  cta : String → Option String → DocumentBlock

pub data ListType : Type 0 where
  unordered ordered : ListType

-- The text behind the mark of a heading or of an item, if the line has it; whether the line begins
-- like a call to action; the first address in it, and the line without any.
pub record Patterns : Type 0 where
  pub heading_2 : String → Option String
  pub heading_3 : String → Option String
  pub unordered_item : String → Option String
  pub ordered_item : String → Option String
  pub begins_like_cta : String → Bool
  pub includes_http : String → Bool
  pub length_of : String → ℕ
  pub url : String → Option String
  pub without_urls : String → String

-- What a line is.
pub data Line : Type 0 where
  blank : Line
  headed : ℕ → String → Line
  item : ListType → String → Line
  call : String → Option String → Line
  plain : String → Line

abbrev pub headed_line : ℕ → Option String → Line → Line
headed_line level none other = other
headed_line level (some text) other = headed level text

abbrev pub item_line : ListType → Option String → Line → Line
item_line type none other = other
item_line type (some text) other = item type text

abbrev pub is_cta : Patterns → String → Bool
is_cta r line = r.begins_like_cta line || (r.includes_http line && ltb (r.length_of line) 180)

abbrev pub call_line : Patterns → String → Line
call_line r line = call (get_or (nonempty (some (trim (r.without_urls line)))) line) (r.url line)

abbrev pub read_line : Patterns → String → Line
read_line r raw =
    let line : String = trim raw in
    let last : Line = if is_cta r line then call_line r line else plain line in
    let listed : Line =
      item_line unordered (r.unordered_item line) (item_line ordered (r.ordered_item line) last) in
    if line == ""
    then blank
    else headed_line 2 (r.heading_2 line) (headed_line 3 (r.heading_3 line) listed)

-- `blocks`, `paragraph`, `listItems`, `listType`.
pub record Parsing : Type 0 where
  pub blocks : List DocumentBlock
  pub paragraph_lines : List String
  pub list_items : List String
  pub list_type : Option ListType

abbrev pub list_block : ListType → List String → DocumentBlock
list_block unordered items = unordered_list items
list_block ordered items = ordered_list items

-- The blocks after `flushParagraph`, and after `flushList`.
abbrev pub flushed_paragraph : List String → List DocumentBlock → List DocumentBlock
flushed_paragraph [] blocks = blocks
flushed_paragraph (line ∷ lines) blocks =
    let text : String = trim (join " " (line ∷ lines)) in
    if text == "" then blocks else blocks ++ paragraph text ∷ []

abbrev pub flushed_list : Option ListType → List String → List DocumentBlock → List DocumentBlock
flushed_list none items blocks = blocks
flushed_list (some type) [] blocks = blocks
flushed_list (some type) (x ∷ items) blocks = blocks ++ list_block type (x ∷ items) ∷ []

abbrev pub flush_both : Parsing → Parsing
flush_both s = record {
  blocks = flushed_list s.list_type s.list_items (flushed_paragraph s.paragraph_lines s.blocks);
  paragraph_lines = [];
  list_items = [];
  list_type = none;
}

abbrev pub push_block : DocumentBlock → Parsing → Parsing
push_block block s = record s { blocks = s.blocks ++ block ∷ [] }

-- An item of a list of the other type ends the list.
abbrev pub left_blocks :
    Option ListType → ListType → List String → List DocumentBlock → List DocumentBlock
left_blocks none type items blocks = blocks
left_blocks (some unordered) unordered items blocks = blocks
left_blocks (some ordered) ordered items blocks = blocks
left_blocks (some unordered) ordered items blocks = flushed_list (some unordered) items blocks
left_blocks (some ordered) unordered items blocks = flushed_list (some ordered) items blocks

abbrev pub kept_items : Option ListType → ListType → List String → List String
kept_items none type items = items
kept_items (some unordered) unordered items = items
kept_items (some ordered) ordered items = items
kept_items (some unordered) ordered items = []
kept_items (some ordered) unordered items = []

abbrev pub add_item : ListType → String → Parsing → Parsing
add_item type text s = record {
  blocks = left_blocks s.list_type type s.list_items (flushed_paragraph s.paragraph_lines s.blocks);
  paragraph_lines = [];
  list_items = kept_items s.list_type type s.list_items ++ text ∷ [];
  list_type = some type;
}

abbrev pub ended_items : Option ListType → List String → List String
ended_items none items = items
ended_items (some type) items = []

-- A line of a paragraph ends a list, if there is one.
abbrev pub add_line : String → Parsing → Parsing
add_line text s = record {
  blocks = flushed_list s.list_type s.list_items s.blocks;
  paragraph_lines = s.paragraph_lines ++ text ∷ [];
  list_items = ended_items s.list_type s.list_items;
  list_type = none;
}

-- The body of the loop.
abbrev pub on_line : Line → Parsing → Parsing
on_line blank s = flush_both s
on_line (headed level text) s = push_block (heading level text) (flush_both s)
on_line (item type text) s = add_item type text s
on_line (call text url) s = push_block (cta text url) (flush_both s)
on_line (plain text) s = add_line text s

abbrev pub on_lines : List Line → Parsing → Parsing
on_lines [] s = s
on_lines (line ∷ lines) s = on_lines lines (on_line line s)

abbrev pub empty_parsing : Parsing
empty_parsing = record { blocks = []; paragraph_lines = []; list_items = []; list_type = none }

abbrev pub or_whole : String → List DocumentBlock → List DocumentBlock
or_whole content [] = paragraph (trim content) ∷ []
or_whole content (block ∷ blocks) = block ∷ blocks

unfoldable pub parse_marketing_document :
    Patterns → (String → List String) → String → List DocumentBlock
parse_marketing_document r split_lines content =
    or_whole content
      (flush_both
        (on_lines (map (λ raw. read_line r raw) (split_lines content)) empty_parsing)).blocks

-- `serializeDocument`; `locale` prints the number of an item.
abbrev pub hashes : ℕ → String
hashes zero = ""
hashes (suc n) = append "#" (hashes n)

abbrev pub numbered_items : (ℕ → String) → ℕ → List String → List String
numbered_items locale n [] = []
numbered_items locale n (x ∷ items) =
    append (locale (n + 1)) (append ". " x) ∷ numbered_items locale (n + 1) items

abbrev pub serialize_block : (ℕ → String) → DocumentBlock → String
serialize_block locale (heading level text) = append (hashes level) (append " " text)
serialize_block locale (paragraph text) = text
serialize_block locale (unordered_list items) = join "\n" (map (λ x. append "- " x) items)
serialize_block locale (ordered_list items) = join "\n" (numbered_items locale 0 items)
serialize_block locale (cta text url) =
    if truthy url then append text (append "\n" (get_or url "")) else text

unfoldable pub serialize_document : (ℕ → String) → List DocumentBlock → String
serialize_document locale blocks =
    join "\n\n"
      (select (λ text. not (text == "")) (map (λ block. serialize_block locale block) blocks))
