-- ===== src/Tui/Editor.antt =====
-- `Editor` of `crates/tui/src/query.rs`: the text of a query and the place of its cursor in bytes.
-- Grapheme clusters are the crate unicode_segmentation's.
pub mod Cursor
pub mod Keys
use onetui.Base.{
  ℕ, zero, suc, ◌+◌, ◌-◌, ◌*◌, ◌≡◌, Bool, true, false, ◌&&◌, ◌||◌, not, List, [], ◌∷◌, ◌++◌, Option,
  none, some, length, take, any, leb, ltb, ◌==◌, if◌then◌else◌, Outcome, ok, err, panicked, ◌>>=◌,
  ◌>>◌, ensure, map,
}
use onetui.Text.{Text, byte_len, is_control}

pub record Editor : Type 0 where
  pub text : Text
  pub cursor : ℕ

pub data EditError : Type 0 where
  control_character query_too_long : EditError

pub data KeyCode : Type 0 where
  char : ℕ → KeyCode
  left right up down home end_key backspace delete enter tab other : KeyCode

pub record KeyEvent : Type 0 where
  pub code : KeyCode
  pub control : Bool
  pub alt : Bool

abbrev pub query_bytes : ℕ
query_bytes = 16 * 1024

abbrev pub Edit : Type 0 → Type 0
Edit A = Outcome EditError A

abbrev pub bytes_of : ℕ → ℕ
bytes_of c = byte_len (c ∷ [])

abbrev pub cons_first : ℕ → Option (Text × Text) → Option (Text × Text)
cons_first c none = none
cons_first c (some (a, b)) = some (c ∷ a, b)

-- The parts of a text before and behind a byte, which are there if a character starts or the text
-- ends at it.
unfoldable pub cut : ℕ → Text → Option (Text × Text)
unfolding byte_len
cut n [] = if n == 0 then some ([], []) else none
cut n (c ∷ s) =
    let rest = cut (n - bytes_of c) s in
    if n == 0 then some ([], c ∷ s) else if leb (bytes_of c) n then cons_first c rest else none

-- Indexing by a range panics where a part is not there.
abbrev pub sliced : Option (Text × Text) → Edit (Text × Text)
sliced none = panicked
sliced (some parts) = ok parts

abbrev newline_first : Text → Bool
newline_first [] = false
newline_first (c ∷ s) = c == 10

unfoldable pub replace_crlf : Text → Text
replace_crlf [] = []
replace_crlf (c ∷ s) =
    let later = replace_crlf s in if c == 13 && newline_first s then later else c ∷ later

unfoldable pub replace_tab : Text → Text
replace_tab [] = []
replace_tab (c ∷ s) =
    let later = replace_tab s in if c == 9 then 32 ∷ 32 ∷ 32 ∷ 32 ∷ later else c ∷ later

abbrev pub normalized : Text → Text
normalized input = replace_tab (map (λ c. if c == 13 then 10 else c) (replace_crlf input))

unfoldable pub insert_str : Text → Editor → Edit Editor
unfolding cut byte_len
insert_str input editor = sliced (cut editor.cursor editor.text) >>= λ parts.
    ok (record { text = parts.0 ++ input ++ parts.1; cursor = editor.cursor + byte_len input })

unfoldable pub insert : Text → Editor → Edit Editor
unfolding insert_str replace_crlf replace_tab byte_len
insert input editor =
    let input = normalized input in
    ensure (not (any (λ c. is_control c && not (c == 10)) input)) control_character
    >> (ensure (leb (byte_len editor.text + byte_len input) query_bytes) query_too_long
        >> insert_str input editor)

abbrev pub shifted : ℕ → Option ℕ → Option ℕ
shifted n none = none
shifted n (some i) = some (n + i)

abbrev pub or_place : Option ℕ → ℕ → Option ℕ
or_place none place = some place
or_place (some i) place = some i

-- `find('\n')` and `rfind('\n')`, in bytes.
unfoldable pub find_newline : Text → Option ℕ
unfolding byte_len
find_newline [] = none
find_newline (c ∷ s) =
    let later = shifted (bytes_of c) (find_newline s) in if c == 10 then some 0 else later

unfoldable pub rfind_newline : Text → Option ℕ
unfolding byte_len
rfind_newline [] = none
rfind_newline (c ∷ s) =
    let later = shifted (bytes_of c) (rfind_newline s) in
    if c == 10 then or_place later 0 else later

abbrev pub line_start : Option ℕ → ℕ
line_start none = 0
line_start (some i) = i + 1

abbrev pub line_end : Option ℕ → Text → ℕ
line_end none s = byte_len s
line_end (some i) s = i

-- Where the last grapheme starts, and how long the first ones are.
unfoldable pub before_last : List Text → ℕ
unfolding byte_len
before_last [] = 0
before_last (g ∷ []) = 0
before_last (g ∷ h ∷ gs) = byte_len g + before_last (h ∷ gs)

unfoldable pub take_len : ℕ → List Text → ℕ
unfolding byte_len
take_len zero gs = 0
take_len (suc n) [] = 0
take_len (suc n) (g ∷ gs) = byte_len g + take_len n gs

-- `drain` of a range of the text.
abbrev pub drain : ℕ → ℕ → Text → Edit Text
drain from to text =
    sliced (cut to text) >>= λ front. sliced (cut from front.0) >>= λ kept. ok (kept.0 ++ front.1)

-- A key with Control.
abbrev pub control_key : KeyCode → Editor → Editor
control_key (char c) editor = if c == b'u' then record { text = []; cursor = 0 } else editor
control_key home editor = record editor { cursor = 0 }
control_key end_key editor = record editor { cursor = byte_len editor.text }
control_key left editor = editor
control_key right editor = editor
control_key up editor = editor
control_key down editor = editor
control_key backspace editor = editor
control_key delete editor = editor
control_key enter editor = editor
control_key tab editor = editor
control_key other editor = editor

module _ (graphemes : Text → List Text) where
  -- The place in a line below or above, at most at its end.
  abbrev pub in_line : ℕ → Text → ℕ
  in_line column line = take_len column (graphemes line)

  abbrev pub up_to : ℕ → ℕ → Option ℕ → Text → Edit ℕ
  up_to cursor column none before = ok cursor
  up_to cursor column (some newline) before = sliced (cut newline before) >>= λ above.
      sliced (cut (line_start (rfind_newline above.0)) above.0) >>= λ line.
      ok (line_start (rfind_newline above.0) + in_line column line.1)

  abbrev pub down_to : ℕ → ℕ → Option ℕ → Text → Edit ℕ
  down_to cursor column none behind = ok cursor
  down_to cursor column (some newline) behind = sliced (cut (newline + 1) behind) >>= λ below.
      sliced (cut (line_end (find_newline below.1) below.1) below.1) >>= λ line.
      ok (cursor + (newline + 1) + in_line column line.0)

  -- The graphemes of the line that stand before the cursor.
  abbrev pub column_of : Text → Edit ℕ
  column_of before = sliced (cut (line_start (rfind_newline before)) before) >>= λ parts.
      ok (length (graphemes parts.1))

  -- A key without Control or Alt, with the text before and behind the cursor.
  unfoldable pub plain_key : KeyCode → Text → Text → Editor → Edit Editor
  unfolding cut find_newline rfind_newline before_last take_len insert
  plain_key left before behind editor =
      ok (record editor { cursor = before_last (graphemes before) })
  plain_key right before behind editor =
      ok (record editor { cursor = editor.cursor + take_len 1 (graphemes behind) })
  plain_key home before behind editor =
      ok (record editor { cursor = line_start (rfind_newline before) })
  plain_key end_key before behind editor =
      ok (record editor { cursor = editor.cursor + line_end (find_newline behind) behind })
  plain_key up before behind editor = column_of before >>= λ column.
      up_to editor.cursor column (rfind_newline before) before >>= λ cursor.
      ok (record editor { cursor = cursor })
  plain_key down before behind editor = column_of before >>= λ column.
      down_to editor.cursor column (find_newline behind) behind >>= λ cursor.
      ok (record editor { cursor = cursor })
  plain_key backspace before behind editor =
      drain (before_last (graphemes before)) editor.cursor editor.text >>= λ text.
      ok (record { text = text; cursor = before_last (graphemes before) })
  plain_key delete before behind editor =
      drain editor.cursor (editor.cursor + take_len 1 (graphemes behind)) editor.text >>= λ text.
      ok (record editor { text = text })
  plain_key enter before behind editor = insert (10 ∷ []) editor
  plain_key tab before behind editor = insert (32 ∷ 32 ∷ 32 ∷ 32 ∷ []) editor
  plain_key (char c) before behind editor =
      if is_control c then ok editor else insert (c ∷ []) editor
  plain_key other before behind editor = ok editor

  unfoldable pub key : KeyEvent → Editor → Edit Editor
  unfolding plain_key
  key event editor =
      if event.control
      then ok (control_key event.code editor)
      else if event.alt
      then ok editor
      else sliced (cut editor.cursor editor.text) >>= λ parts.
          plain_key event.code parts.0 parts.1 editor

-- `Editor::new`: the cursor stands at the end.
abbrev pub new : Text → Editor
new text = record { text = text; cursor = byte_len text }
