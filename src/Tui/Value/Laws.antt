-- ===== src/Tui/Value/Laws.antt =====
-- Text as a cell shows it, next to text as the core displays it, and the shape of projected rows.
use onetui.Base.{
  ℕ, suc, ◌+◌, ◌-◌, ◌*◌, ◌/◌, All, Bool-cases, inl, inr, ◌≡◌, ◌≤◌, ◌<◌, refl, ap, sym, ◌∙◌, subst,
  Bool, true, false, List, [], ◌∷◌, ◌++◌, append_assoc, append-nil, Option, none, some, length, leb,
  le→leb, lt→leb, leb→le, if◌then◌else◌, Outcome, ok, err, ◌>>◌, ensure, >>=-eq-ok, ok-injective,
  Settles, Settles-bind, Settles-ensure, arith,
}
use onetui.Text.{Text, str, byte_len}
use onetui.Text.Payload.{hex_of}
use onetui.Text.Payload.Hex.{byte_len-hex_of}
use onetui.Core.{Row, Page, page_bytes}
use onetui.Core.Display.{display}
use onetui.Tui.Value.{
  unsafe_char, literal, ValueError, text_too_long, bytes_too_long, previews_too_long, shown,
  text_from, text, projection, text_bytes, cell_text, project_cells, project_rows, projections,
}

pub byte_len-append : (a b : Text) → byte_len (a ++ b) ≡ byte_len a + byte_len b
unfolding byte_len
byte_len-append [] b = omega arith
byte_len-append (c ∷ a) b = omega (arith, byte_len-append a b)

-- The two lists of unsafe characters agree.
same_unsafe_char : (c : ℕ) → unsafe_char c ≡ onetui.Core.Display.unsafe_char c
unfolding unsafe_char onetui.Core.Display.unsafe_char
same_unsafe_char c = ground arith

display-cons : (c : ℕ) (s : Text) → display (c ∷ s) ≡ shown literal false c ++ display s
unfolding display shown
display-cons c s = elim (Bool-cases (onetui.Core.Display.unsafe_char c)) [
  | inl unsafe ↦ rw (same_unsafe_char c, unsafe) refl
  | inr safe ↦ rw (same_unsafe_char c, safe) refl
]

abbrev Bounded : Text → Outcome ValueError Text
Bounded s = if leb (byte_len s) page_bytes then ok s else err text_too_long

bounded_step :
    (out rest : Text) (run : Outcome ValueError Text) (fits : Bool)
    → leb (byte_len out) page_bytes ≡ fits
    → (byte_len out ≤ page_bytes → run ≡ Bounded (out ++ rest))
    → (ensure fits text_too_long >> run) ≡ Bounded (out ++ rest)
bounded_step out rest run true e h = h (leb→le (byte_len out) page_bytes e)
bounded_step out rest run false e h =
    let long : page_bytes < byte_len (out ++ rest) = ground (arith, byte_len-append out rest) in
    rw (lt→leb (byte_len (out ++ rest)) page_bytes long)

display-nil : display [] ≡ []
unfolding display
display-nil = refl

text_from-display :
    (out s : Text)
    → byte_len out ≤ page_bytes
    → text_from literal false out s ≡ Bounded (out ++ display s)
unfolding text_from
text_from-display out [] h = rw (display-nil, append-nil out, le→leb (byte_len out) page_bytes h)
text_from-display out (c ∷ s) h =
    let first = shown literal false c in
    bounded_step (out ++ first) (display s) (text_from literal false (out ++ first) s)
      (leb (byte_len (out ++ first)) page_bytes) refl (text_from-display (out ++ first) s)
    ∙ ap Bounded (append_assoc out first (display s) ∙ ap (λ t. out ++ t) (sym (display-cons c s)))

text-display :
    (s : Text)
    → text s literal false
      ≡ (if leb (byte_len (display s)) page_bytes then ok (display s) else err text_too_long)
unfolding text byte_len
text-display s = text_from-display [] s (omega arith)

-- A cell in full: text and JSON as the core displays them, bytes as `\x` and their hex digits.
abbrev pub displayed : onetui.Core.Value → Text
displayed (onetui.Core.Value.text s) = display s
displayed (onetui.Core.Value.json s) = display s
displayed (onetui.Core.Value.bytes b) = str "\\x" ++ hex_of b

abbrev pub refusal : onetui.Core.Value → ValueError
refusal (onetui.Core.Value.text s) = text_too_long
refusal (onetui.Core.Value.json s) = text_too_long
refusal (onetui.Core.Value.bytes b) = bytes_too_long

-- The bytes of a value are bytes.
abbrev pub HasBytes : onetui.Core.Value → Type 0
HasBytes (onetui.Core.Value.text s) = Unit
HasBytes (onetui.Core.Value.json s) = Unit
HasBytes (onetui.Core.Value.bytes b) = All (λ n. n < 256) b

half_page : (n size : ℕ) → size ≡ 2 + 2 * n → leb n ((page_bytes - 2) / 2) ≡ leb size page_bytes
half_page n size h = ground arith

bytes_if :
    (fits : Bool) (s : Text)
    → (ensure fits bytes_too_long >> ok s) ≡ (if fits then ok s else err bytes_too_long)
bytes_if true s = refl
bytes_if false s = refl

backslash-hex_of :
    (b : List ℕ) → All (λ n. n < 256) b → byte_len (str "\\x" ++ hex_of b) ≡ 2 + 2 * length b
unfolding byte_len
backslash-hex_of b h = omega (arith, byte_len-hex_of b h)

-- A cell of a page is shown in full if that is at most a page's bytes, and refused otherwise: text
-- and JSON as the core displays them, bytes (each below 256) as `\x` and their hex digits.
pub projection-display :
    (value : onetui.Core.Value)
    → HasBytes value
    → projection value ≡ (
        if leb (byte_len (displayed value)) page_bytes
        then ok (displayed value)
        else err (refusal value))
unfolding projection
projection-display (onetui.Core.Value.text s) h = text-display s
projection-display (onetui.Core.Value.json s) h = text-display s
projection-display (onetui.Core.Value.bytes b) h =
    let size = byte_len (str "\\x" ++ hex_of b) in
    rw (half_page (length b) size (backslash-hex_of b h))
      (bytes_if (leb size page_bytes) (str "\\x" ++ hex_of b))

-- Projected cells stay within the bytes, and are as many as the cells.
project_cells-length :
    (bytes : ℕ) (cells : List (Option onetui.Core.Value)) {r : List (Option Text) × ℕ}
    → project_cells bytes cells ≡ ok r
    → length r.0 ≡ length cells
unfolding project_cells
project_cells-length bytes [] e =
    ap length (ap (λ (p : List (Option Text) × ℕ). p.0) (sym (ok-injective e)))
project_cells-length bytes (cell ∷ cells) e =
    let first = >>=-eq-ok (cell_text cell) _ e in
    let fits =
      >>=-eq-ok (ensure (leb (bytes + text_bytes first.0) page_bytes) previews_too_long) _
        first.2 in
    let later = >>=-eq-ok (project_cells (bytes + text_bytes first.0) cells) _ fits.2 in
    subst (λ (p : List (Option Text) × ℕ). length p.0 ≡ suc (length cells)) (ok-injective later.2)
      (ap suc (project_cells-length (bytes + text_bytes first.0) cells later.1))

-- Every row is projected, cell by cell.
abbrev pub SameShape : List Row → List (List (Option Text)) → Type 0
SameShape [] [] = Unit
SameShape [] (p ∷ ps) = ⊥
SameShape (row ∷ rows) [] = ⊥
SameShape (row ∷ rows) (p ∷ ps) = (length p ≡ length (Row.cells row)) × SameShape rows ps

project_rows-SameShape :
    (bytes : ℕ) (rows : List Row) {ps : List (List (Option Text))}
    → project_rows bytes rows ≡ ok ps
    → SameShape rows ps
unfolding project_rows
project_rows-SameShape bytes [] e = subst (SameShape []) (ok-injective e) tt
project_rows-SameShape bytes (row ∷ rows) e =
    let first = >>=-eq-ok (project_cells bytes (Row.cells row)) _ e in
    let later = >>=-eq-ok (project_rows first.0.1 rows) _ first.2 in
    subst (SameShape (row ∷ rows)) (ok-injective later.2) (
      project_cells-length bytes (Row.cells row) first.1,
      project_rows-SameShape first.0.1 rows later.1,
    )

pub projections-SameShape :
    (page : Page) {ps : List (List (Option Text))}
    → projections page ≡ ok ps
    → SameShape (Page.rows page) ps
unfolding projections
projections-SameShape page e = project_rows-SameShape 0 (Page.rows page) e

-- The text of a page: its cells never panic.
text_from-Settles : (out s : Text) → Settles (text_from literal false out s)
unfolding text_from
text_from-Settles out [] = tt
text_from-Settles out (c ∷ s) =
    Settles-bind (ensure (leb (byte_len (out ++ shown literal false c)) page_bytes) text_too_long) _
      (Settles-ensure _ _) (λ u e. text_from-Settles (out ++ shown literal false c) s)

projection-Settles : (value : onetui.Core.Value) → Settles (projection value)
unfolding projection text
projection-Settles (onetui.Core.Value.text s) = text_from-Settles [] s
projection-Settles (onetui.Core.Value.json s) = text_from-Settles [] s
projection-Settles (onetui.Core.Value.bytes b) =
    Settles-bind (ensure (leb (length b) ((page_bytes - 2) / 2)) bytes_too_long)
      (λ u. ok (str "\\x" ++ hex_of b)) (Settles-ensure _ _) (λ u e. tt)

cell_text-Settles : (cell : Option onetui.Core.Value) → Settles (cell_text cell)
unfolding cell_text
cell_text-Settles none = tt
cell_text-Settles (some value) =
    Settles-bind (projection value) _ (projection-Settles value) (λ s e. tt)

project_cells-Settles :
    (bytes : ℕ) (cells : List (Option onetui.Core.Value)) → Settles (project_cells bytes cells)
unfolding project_cells
project_cells-Settles bytes [] = tt
project_cells-Settles bytes (cell ∷ cells) =
    Settles-bind (cell_text cell) _ (cell_text-Settles cell) (λ s e.
      Settles-bind (ensure (leb (bytes + text_bytes s) page_bytes) previews_too_long) _
        (Settles-ensure _ _)
        (λ u e'.
          Settles-bind (project_cells (bytes + text_bytes s) cells) _
            (project_cells-Settles (bytes + text_bytes s) cells) (λ later e''. tt)))

project_rows-Settles : (bytes : ℕ) (rows : List Row) → Settles (project_rows bytes rows)
unfolding project_rows
project_rows-Settles bytes [] = tt
project_rows-Settles bytes (row ∷ rows) =
    Settles-bind (project_cells bytes (Row.cells row)) _
      (project_cells-Settles bytes (Row.cells row))
      (λ first e.
        Settles-bind (project_rows first.1 rows) _ (project_rows-Settles first.1 rows)
          (λ later e'. tt))

pub projections-Settles : (page : Page) → Settles (projections page)
unfolding projections
projections-Settles page = project_rows-Settles 0 (Page.rows page)
