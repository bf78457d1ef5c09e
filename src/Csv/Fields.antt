-- ===== src/Csv/Fields.antt =====
-- One field of an export, as a reader of CSV takes it.
use Prim.Native.Char.{Char, code}
use Prim.Native.String.{String, ◌++◌}
use text.Mathlib.TextLemmas.{append_assoc, cons-append, nil-append}
use affiliate_platform_api.Prelude.{
  false≢true, Bool-cases, arith, false, if◌then◌else◌, inl, inr, refl, ℕ, ◌=?◌, ◌≡◌, ◌∙◌, ap, sym,
}
use affiliate_platform_api.Csv.{double_quotes, escape_text, has_special, is_special, quote}
use affiliate_platform_api.Csv.Reader.{
  Act, Mode, Rows, after_quote, does, keep, next, outside, plain, quoted, read, skip, start,
}

-- The text before the first field.
abbrev pub before : String → Rows → Rows
before t (first, fields, rows) = (t ++ first, fields, rows)

pub before-cons :
    (c : Char) (t : String) (r : Rows) → does keep c (before t r) ≡ before (String.◌∷◌ c t) r
before-cons c t (first, fields, rows) = ap (λ s. (s, fields, rows)) (sym (cons-append c t first))

read-cons :
    (c : Char) (s : String) (mode : Mode)
    → read (String.◌∷◌ c s) mode ≡ does (next mode (code c)).0 c (read s (next mode (code c)).1)
unfolding read
read-cons c s mode = refl

before-nil : (r : Rows) → before String.[] r ≡ r
before-nil (first, fields, rows) = ap (λ s. (s, fields, rows)) (nil-append first)

kept : (n : ℕ) → is_special n ≡ false → outside n ≡ (keep, plain)
kept n h = elim (Bool-cases (n =? b',')) [
  | inl comma ↦ absurd (false≢true (ground (arith)))
  | inr other ↦ elim (Bool-cases (n =? 10)) [
    | inl end ↦ absurd (false≢true (ground (arith)))
    | inr same ↦ rw other (rw same refl)
  ]
]

-- One character, where its part in the mode is known.
pub one :
    (c : Char) (s t r : String) (mode mode' : Mode) (act : Act)
    → next mode (code c) ≡ (act, mode')
    → s ≡ String.◌∷◌ c t
    → read s mode ≡ does act c (read t mode')
one c s t r mode mode' act h e =
    ap (λ s. read s mode) e ∙ read-cons c t mode ∙ ap (λ n. does n.0 c (read t n.1)) h

-- A text without special characters is read as it stands.
plain-read : (t r : String) → has_special t ≡ false → read (t ++ r) plain ≡ before t (read r plain)
plain-read String.[] r h = ap (λ s. read s plain) (nil-append r) ∙ sym (before-nil (read r plain))
plain-read (String.◌∷◌ c t) r h =
    one c (String.◌∷◌ c t ++ r) (t ++ r) r plain plain keep (kept (code c) (ground (arith)))
      (cons-append c t r)
    ∙ ap (λ x. does keep c x) (plain-read t r (ground (arith)))
    ∙ before-cons c t (read r plain)

-- A text whose quotes are doubled is read up to the quote that ends it.
quoted_read :
    (t r : String)
    → read (double_quotes t ++ String.◌∷◌ quote r) quoted ≡ before t (read r after_quote)
unfolding double_quotes
quoted_read String.[] r =
    one quote (String.[] ++ String.◌∷◌ quote r) r r quoted after_quote skip refl
      (nil-append (String.◌∷◌ quote r))
    ∙ sym (before-nil (read r after_quote))
quoted_read (String.◌∷◌ c t) r = elim (Bool-cases (code c =? b'"')) [
  | inl same ↦
      let s : String = double_quotes t ++ String.◌∷◌ quote r in
      let twice : (if code c =? b'"'
            then String.◌∷◌ c (String.◌∷◌ c (double_quotes t))
            else String.◌∷◌ c (double_quotes t))
          ≡ String.◌∷◌ c (String.◌∷◌ c (double_quotes t)) =
        rw same refl in
      ap (λ d. read (d ++ String.◌∷◌ quote r) quoted) twice
      ∙ one c (_) (String.◌∷◌ c (double_quotes t) ++ String.◌∷◌ quote r) r quoted after_quote skip
          (rw same refl) (cons-append c (_) (_))
      ∙ one c (_) s r after_quote quoted keep (rw same refl) (cons-append c (_) (_))
      ∙ ap (λ x. does keep c x) (quoted_read t r)
      ∙ before-cons c t (read r after_quote)
  | inr other ↦
      let s : String = double_quotes t ++ String.◌∷◌ quote r in
      let once : (if code c =? b'"'
            then String.◌∷◌ c (String.◌∷◌ c (double_quotes t))
            else String.◌∷◌ c (double_quotes t))
          ≡ String.◌∷◌ c (double_quotes t) =
        rw other refl in
      ap (λ d. read (d ++ String.◌∷◌ quote r) quoted) once
      ∙ one c (_) s r quoted quoted keep (rw other refl) (cons-append c (_) (_))
      ∙ ap (λ x. does keep c x) (quoted_read t r)
      ∙ before-cons c t (read r after_quote)
]

-- A rest of the file that ends a field: nothing, a comma or the end of a row.
pub record Ends (r : String) : Type 0 where
  pub at_start : read r start ≡ read r plain
  pub at_quote : read r after_quote ≡ read r plain

plain-start :
    (t r : String) → has_special t ≡ false → Ends r → read (t ++ r) start ≡ before t (read r plain)
plain-start String.[] r h e =
    ap (λ s. read s start) (nil-append r) ∙ e.at_start ∙ sym (before-nil (read r plain))
plain-start (String.◌∷◌ c t) r h e =
    let ordinary : is_special (code c) ≡ false = ground (arith) in
    let unquoted : (code c =? b'"') ≡ false = ground (arith) in
    one c (String.◌∷◌ c t ++ r) (t ++ r) r start plain keep (rw unquoted (kept (code c) ordinary))
      (cons-append c t r)
    ∙ ap (λ x. does keep c x) (plain-read t r (ground (arith)))
    ∙ before-cons c t (read r plain)

closing :
    (d r : String)
    → (String.◌∷◌ quote (d ++ String.◌∷◌ quote String.[])) ++ r
      ≡ String.◌∷◌ quote (d ++ String.◌∷◌ quote r)
closing d r =
    cons-append quote (d ++ String.◌∷◌ quote String.[]) r
    ∙ ap (λ s. String.◌∷◌ quote s)
        (append_assoc d (String.◌∷◌ quote String.[]) r
          ∙ ap (λ s. d ++ s)
              (cons-append quote String.[] r ∙ ap (λ s. String.◌∷◌ quote s) (nil-append r)))

-- Any text, escaped, is read back as one field.
pub field_read : (t r : String) → Ends r → read (escape_text t ++ r) start ≡ before t (read r plain)
unfolding escape_text
field_read t r e = elim (Bool-cases (has_special t)) [
  | inl special ↦
      let escaped : String = String.◌∷◌ quote (double_quotes t ++ String.◌∷◌ quote String.[]) in
      let this : escape_text t ≡ escaped = rw special refl in
      ap (λ s. read (s ++ r) start) this
      ∙ one quote (escaped ++ r) (double_quotes t ++ String.◌∷◌ quote r) r start quoted skip refl
          (closing (double_quotes t) r)
      ∙ quoted_read t r
      ∙ ap (λ x. before t x) e.at_quote
  | inr ordinary ↦
      let this : escape_text t ≡ t = rw ordinary refl in
      ap (λ s. read (s ++ r) start) this ∙ plain-start t r ordinary e
]
