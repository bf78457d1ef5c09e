-- ===== src/Csv/Reader.antt =====
-- A reader of CSV as RFC 4180 describes it, with "\n" as the end of a row: what a program that opens
-- the file does.
use Prim.Native.Char.{Char, code}
use Prim.Native.String.{String}
use affiliate_platform_api.Prelude.{List, [], if◌then◌else◌, ℕ, ◌=?◌, ◌∷◌}

-- At the start of a field, inside one without quotes, inside quotes, after a quote inside quotes.
pub data Mode : Type 0 where
  start plain quoted after_quote : Mode

-- What a character does: nothing, it stands for itself, it ends the field, it ends the row.
pub data Act : Type 0 where
  skip keep field row : Act

abbrev pub outside : ℕ → Act × Mode
outside c = if c =? b',' then (field, start) else if c =? 10 then (row, start) else (keep, plain)

abbrev pub next : Mode → ℕ → Act × Mode
next start c = if c =? b'"' then (skip, quoted) else outside c
next plain c = outside c
next quoted c = if c =? b'"' then (skip, after_quote) else (keep, quoted)
next after_quote c = if c =? b'"' then (keep, quoted) else outside c

-- The field that is read, the later fields of its row, and the later rows.
abbrev pub Rows : Type 0
Rows = String × List String × List (List String)

abbrev pub all_rows : Rows → List (List String)
all_rows (first, fields, rows) = (first ∷ fields) ∷ rows

abbrev pub does : Act → Char → Rows → Rows
does skip c rows = rows
does keep c (first, fields, rows) = (String.◌∷◌ c first, fields, rows)
does field c (first, fields, rows) = (String.[], first ∷ fields, rows)
does row c rows = (String.[], [], all_rows rows)

unfoldable pub read : String → Mode → Rows
read String.[] mode = (String.[], [], [])
read (String.◌∷◌ c s) mode = let (act, mode') = next mode (code c) in does act c (read s mode')

unfoldable pub read_csv : String → List (List String)
unfolding read
read_csv text = all_rows (read text start)
