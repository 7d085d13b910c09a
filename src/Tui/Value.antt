-- ===== src/Tui/Value.antt =====
-- `text` and `projection` of `crates/tui/src/value.rs`, and `projections` of app.rs: the cells of a
-- page as text, within a page's bytes.
pub mod Laws
use onetui.Base.{
  ℕ, ◌+◌, ◌-◌, ◌*◌, ◌/◌, ◌%◌, ◌≡◌, Bool, true, false, ◌&&◌, ◌||◌, not, List, [], ◌∷◌, ◌++◌, Option,
  none, some, length, leb, ltb, ◌==◌, if◌then◌else◌, Outcome, ok, err, ◌>>=◌, ◌>>◌, ensure,
}
use onetui.Text.{Text, str, byte_len, is_control}
use onetui.Text.Payload.{hex_of}
use onetui.Core.{Row, Page, page_bytes}
use onetui.Core.Display.{escape_default}

pub data UnicodeDisplay : Type 0 where
  literal escaped : UnicodeDisplay

pub data ValueError : Type 0 where
  text_too_long bytes_too_long previews_too_long : ValueError

abbrev pub is_escaped : UnicodeDisplay → Bool
is_escaped literal = false
is_escaped escaped = true

-- `unsafe_char` of this file, next to the one of the core.
unfoldable pub unsafe_char : ℕ → Bool
unsafe_char c =
    is_control c
    || (c == 0x61c
        || c == 0x200e
        || c == 0x200f
        || (leb 0x2028 c && leb c 0x202e)
        || (leb 0x2066 c && leb c 0x2069))

-- A character as it is pushed to the text.
unfoldable pub shown : UnicodeDisplay → Bool → ℕ → Text
unfolding unsafe_char
shown unicode lines c =
    if lines && c == 10
    then c ∷ []
    else if unsafe_char c || (is_escaped unicode && (not (ltb c 128) || c == b'\\'))
    then escape_default c
    else c ∷ []

-- The loop of `text`, which stops at the first character that is too much.
unfoldable pub text_from : UnicodeDisplay → Bool → Text → Text → Outcome ValueError Text
unfolding shown
text_from unicode lines out [] = ok out
text_from unicode lines out (c ∷ s) =
    let rest = text_from unicode lines (out ++ shown unicode lines c) s in
    ensure (leb (byte_len (out ++ shown unicode lines c)) page_bytes) text_too_long >> rest

unfoldable pub text : Text → UnicodeDisplay → Bool → Outcome ValueError Text
unfolding text_from
text value unicode lines = text_from unicode lines [] value

-- A cell as text; bytes are written in hex.
unfoldable pub projection : onetui.Core.Value → Outcome ValueError Text
unfolding text hex_of
projection (onetui.Core.Value.text s) = text s literal false
projection (onetui.Core.Value.json s) = text s literal false
projection (onetui.Core.Value.bytes b) =
    ensure (leb (length b) ((page_bytes - 2) / 2)) bytes_too_long >> ok (str "\\x" ++ hex_of b)

abbrev pub text_bytes : Option Text → ℕ
text_bytes none = 0
text_bytes (some s) = byte_len s

unfoldable pub cell_text : Option onetui.Core.Value → Outcome ValueError (Option Text)
unfolding projection
cell_text none = ok none
cell_text (some value) = projection value >>= λ s. ok (some s)

-- The cells of a row, behind the bytes of the cells before.
unfoldable pub project_cells :
    ℕ → List (Option onetui.Core.Value) → Outcome ValueError (List (Option Text) × ℕ)
unfolding cell_text
project_cells bytes [] = ok ([], bytes)
project_cells bytes (cell ∷ cells) = cell_text cell >>= λ s.
    ensure (leb (bytes + text_bytes s) page_bytes) previews_too_long
    >> (project_cells (bytes + text_bytes s) cells >>= λ later. ok (s ∷ later.0, later.1))

unfoldable pub project_rows : ℕ → List Row → Outcome ValueError (List (List (Option Text)))
unfolding project_cells
project_rows bytes [] = ok []
project_rows bytes (row ∷ rows) = project_cells bytes (Row.cells row) >>= λ first.
    project_rows first.1 rows >>= λ later. ok (first.0 ∷ later)

unfoldable pub projections : Page → Outcome ValueError (List (List (Option Text)))
unfolding project_rows
projections page = project_rows 0 (Page.rows page)
