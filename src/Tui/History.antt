-- ===== src/Tui/History.antt =====
-- The history of queries: `browse_query_history` and `submit_query` of `crates/tui/src/app.rs`, and
-- the limit of `load` of `crates/tui/src/history.rs`.
pub mod Browse
pub mod Record
use onetui.Base.{
  ℕ, zero, suc, ◌+◌, ◌-◌, ◌≡◌, Bool, true, false, ◌&&◌, ◌||◌, not, List, [], ◌∷◌, ◌++◌, Option,
  none, some, length, get_elem?, take, drop, leb, ltb, ◌==◌, if◌then◌else◌, Outcome, ok, panicked,
  ◌>>=◌,
}
use onetui.Text.{Text, text_eq}
use onetui.Tui.Session.{Run, expect}

abbrev pub limit : ℕ
limit = 100

-- A connection and a query, the oldest first.
abbrev pub Entries : Type 0
Entries = List (Text × Text)

-- The history, what is browsed of it, and the text of the editor.
pub record Editing : Type 0 where
  pub query_history : Entries
  pub history_position : Option ℕ
  pub history_current : Option Text
  pub text : Text

abbrev pub or_else : Option ℕ → Option ℕ → Option ℕ
or_else none other = other
or_else (some i) other = some i

-- The index of the last entry of a connection, and of the first one; the entries stand from an
-- index on.
unfoldable pub last_from : Text → ℕ → Entries → Option ℕ
unfolding text_eq
last_from alias i [] = none
last_from alias i (entry ∷ entries) =
    or_else (last_from alias (i + 1) entries) (if text_eq entry.0 alias then some i else none)

unfoldable pub first_from : Text → ℕ → Entries → Option ℕ
unfolding text_eq
first_from alias i [] = none
first_from alias i (entry ∷ entries) =
    let later = first_from alias (i + 1) entries in if text_eq entry.0 alias then some i else later

abbrev pub end_of : Option ℕ → Entries → ℕ
end_of none entries = length entries
end_of (some position) entries = position

abbrev pub next_after : Text → Option ℕ → Entries → Option ℕ
next_after alias none entries = none
next_after alias (some current) entries =
    first_from alias (current + 1) (drop (current + 1) entries)

-- The entry that is shown next.
unfoldable pub moved : Text → Bool → Option ℕ → Entries → Option ℕ
unfolding last_from first_from
moved alias true position entries = last_from alias 0 (take (end_of position entries) entries)
moved alias false position entries = next_after alias position entries

abbrev draft_of : Option Text → Text → Text
draft_of none text = text
draft_of (some draft) text = draft

-- The text that was in the editor before the first entry was shown.
abbrev pub kept_draft : Option ℕ → Text → Option Text → Option Text
kept_draft none text current = some text
kept_draft (some position) text current = current

-- Back to the draft, or nothing where no entry was shown.
abbrev to_draft : Bool → Option ℕ → Editing → Editing
to_draft true position editing = editing
to_draft false none editing = editing
to_draft false (some position) editing = record editing {
  history_position = none;
  history_current = none;
  text = draft_of editing.history_current editing.text;
}

abbrev to_entry : ℕ → Editing → Run Editing
to_entry index editing = expect (get_elem? editing.query_history index) >>= λ entry.
    ok (record editing {
      history_position = some index;
      history_current = kept_draft editing.history_position editing.text editing.history_current;
      text = entry.1;
    })

abbrev pub show : Bool → Option ℕ → Editing → Run Editing
show previous none editing = ok (to_draft previous editing.history_position editing)
show previous (some index) editing = to_entry index editing

-- `browse_query_history`.
unfoldable pub browse : Text → Bool → Editing → Run Editing
unfolding moved
browse alias previous editing =
    show previous (moved alias previous editing.history_position editing.query_history) editing

abbrev pub last : Entries → Option (Text × Text)
last [] = none
last (entry ∷ []) = some entry
last (entry ∷ next ∷ entries) = last (next ∷ entries)

abbrev pub differs : Option (Text × Text) → Text × Text → Bool
differs none entry = true
differs (some (a, t)) (alias, text) = not (text_eq a alias) || not (text_eq t text)

-- The entry is recorded if it is not the last one, and the oldest one makes room.
unfoldable pub record_entry : Text × Text → Entries → Entries
unfolding text_eq
record_entry entry entries =
    if differs (last entries) entry
    then drop (if length entries == limit then 1 else 0) entries ++ entry ∷ []
    else entries

-- The history part of `submit_query`.
unfoldable pub submit : Text → Text → Editing → Editing
unfolding record_entry
submit alias text editing = record editing {
  query_history = record_entry (alias, text) editing.query_history;
  history_position = none;
  history_current = none;
}

-- The newest entries of a file.
unfoldable pub trim_entries : Entries → Entries
trim_entries entries = drop (length entries - limit) entries
