-- ===== src/Tui/Session/Filter.antt =====
-- `open_filter`, `key_filter` and `restore_filter` of `crates/tui/src/app.rs`: the filter of a view
-- as it is typed.
use onetui.Base.{
  ℕ, ◌+◌, ◌≡◌, refl, subst, Bool, ◌&&◌, not, [], ◌∷◌, ◌++◌, Option, none, some, leb, if◌then◌else◌,
  ok, ◌>>=◌, >>=-eq-ok, ok-injective,
}
use onetui.Text.{Text, byte_len, is_control}
use onetui.Tui.Table.{reindex}
use onetui.Tui.Table.Shows.{Shows, reindex-Shows}
use onetui.Tui.Session.{View, Run, selected_index}

-- A view, with the filter that is typed and what it goes back to.
pub record Filtering : Type 0 where
  pub view : View
  pub filter_input : Option Text
  pub filter_restore : Option (Text × Option ℕ)

-- A character is typed with or without Control or Alt.
pub data FilterKey : Type 0 where
  escape enter backspace other : FilterKey
  char : ℕ → Bool → FilterKey

-- `reindex`, with the selection to keep.
abbrev reindexed : Text → Option ℕ → View → Run View
reindexed filter keep view = reindex view.projections filter view.sort keep >>= λ shown.
    ok (record view { filter = filter; visible = shown.0; selected = shown.1 })

abbrev pub open_filter : Filtering → Filtering
open_filter state = record state {
  filter_input = some state.view.filter;
  filter_restore = some (state.view.filter, selected_index state.view);
}

abbrev restored_to : Option (Text × Option ℕ) → Filtering → Run Filtering
restored_to none state = ok (record state { filter_input = none })
restored_to (some (filter, selected)) state = reindexed filter selected state.view >>= λ view.
    ok (record { view = view; filter_input = none; filter_restore = none })

unfoldable pub restore_filter : Filtering → Run Filtering
unfolding reindex
restore_filter state = restored_to state.filter_restore state

abbrev kept_selection : Option (Text × Option ℕ) → Option ℕ
kept_selection none = none
kept_selection (some (filter, selected)) = selected

abbrev popped_text : Text → Text
popped_text [] = []
popped_text (c ∷ []) = []
popped_text (c ∷ d ∷ s) = c ∷ popped_text (d ∷ s)

abbrev pub typed : FilterKey → Text → Text
typed escape input = input
typed enter input = input
typed other input = input
typed backspace input = popped_text input
typed (char c modified) input =
    if not (is_control c) && leb (byte_len input + byte_len (c ∷ [])) 256 && not modified
    then input ++ c ∷ []
    else input

-- A key that types, or that changes nothing.
unfoldable pub type_key : FilterKey → Text → Filtering → Run Filtering
unfolding reindex byte_len
type_key key input state =
    reindexed (typed key input) (kept_selection state.filter_restore) state.view >>= λ view.
    ok (record state { view = view; filter_input = some (typed key input) })

abbrev key_in : FilterKey → Option Text → Filtering → Run Filtering
key_in key none state = ok state
key_in escape (some input) state = restore_filter state
key_in enter (some input) state = ok (record state { filter_input = none; filter_restore = none })
key_in backspace (some input) state = type_key backspace input state
key_in other (some input) state = type_key other input state
key_in (char c modified) (some input) state = type_key (char c modified) input state

unfoldable pub key_filter : FilterKey → Filtering → Run Filtering
unfolding restore_filter type_key
key_filter key state = key_in key state.filter_input state

-- What typing leaves: the rows, the sort, and what Escape goes back to.
abbrev Typing : Filtering → Filtering → Type 0
Typing first state =
    (state.view.projections ≡ first.view.projections)
    × (state.view.sort ≡ first.view.sort)
    × (state.filter_restore ≡ some (first.view.filter, selected_index first.view))
    × ((input : Text) × (state.filter_input ≡ some input))

abbrev pub Types : FilterKey → Type 0
Types escape = ⊥
Types enter = ⊥
Types backspace = Unit
Types other = Unit
Types (char c modified) = Unit

-- A filter that was opened, and keys that were typed.
pub data Typed (first : Filtering) : Filtering → Type 0 where
  opened : Typed first (open_filter first)
  more :
      {state state' : Filtering} (key : FilterKey)
      → Typed first state
      → Types key
      → key_filter key state ≡ ok state'
      → Typed first state'

type_key-Typing :
    (first : Filtering) (key : FilterKey) (input : Text) (state : Filtering) {state' : Filtering}
    → Typing first state
    → type_key key input state ≡ ok state'
    → Typing first state'
unfolding type_key
type_key-Typing first key input state h e =
    let view =
      >>=-eq-ok (reindexed (typed key input) (kept_selection state.filter_restore) state.view) _
        e in
    let shown =
      >>=-eq-ok
        (reindex state.view.projections (typed key input) state.view.sort
          (kept_selection state.filter_restore))
        _ view.1 in
    subst (Typing first) (ok-injective view.2) (
      subst
        (λ (v : View).
          (v.projections ≡ first.view.projections)
          × (v.sort ≡ first.view.sort)
          × (state.filter_restore ≡ some (first.view.filter, selected_index first.view))
          × ((input' : Text) × (some (typed key input) ≡ some input')))
        (ok-injective shown.2) (h.0, h.1, h.2, (typed key input, refl)))

key_in-Typing :
    (first : Filtering) (key : FilterKey) (input : Option Text) (state : Filtering)
    {state' : Filtering}
    → Typing first state
    → Types key
    → key_in key input state ≡ ok state'
    → Typing first state'
key_in-Typing first key none state h t e = subst (Typing first) (ok-injective e) h
key_in-Typing first escape (some input) state h t e = absurd t
key_in-Typing first enter (some input) state h t e = absurd t
key_in-Typing first backspace (some input) state h t e =
    type_key-Typing first backspace input state h e
key_in-Typing first other (some input) state h t e = type_key-Typing first other input state h e
key_in-Typing first (char c modified) (some input) state h t e =
    type_key-Typing first (char c modified) input state h e

Typed-Typing : (first state : Filtering) → Typed first state → Typing first state
unfolding key_filter
Typed-Typing first state opened = (refl, refl, refl, (first.view.filter, refl))
Typed-Typing first state (more {state = before} key h t e) =
    key_in-Typing first key before.filter_input before (Typed-Typing first before h) t e

-- What Escape shows: the rows of the filter from before, with the selection from before.
abbrev pub Unfiltered : Filtering → Filtering → Type 0
Unfiltered first state =
    (state.view.filter ≡ first.view.filter)
    × (state.filter_input ≡ none)
    × Shows first.view.projections first.view.filter first.view.sort (selected_index first.view)
        (state.view.visible, state.view.selected)

-- Escape, after a filter was opened and any keys were typed, goes back to the filter from before:
-- it shows the rows that match that filter, in the order of the sort, and selects the row that was
-- selected if it is shown.
pub escape-Unfiltered :
    (first state state' : Filtering)
    → Typed first state
    → key_filter escape state ≡ ok state'
    → Unfiltered first state'
unfolding key_filter restore_filter
escape-Unfiltered first state state' h e =
    let (cells, sort, kept, typed_text) = Typed-Typing first state h in
    let e' : restored_to (some (first.view.filter, selected_index first.view)) state ≡ ok state' =
      rw (typed_text.1, kept) at e in
    let keep = selected_index first.view in
    let view = >>=-eq-ok (reindexed first.view.filter keep state.view) _ e' in
    let shown =
      >>=-eq-ok (reindex state.view.projections first.view.filter state.view.sort keep) _ view.1 in
    let shows =
      reindex-Shows state.view.projections first.view.filter state.view.sort keep shown.1 in
    let shows' =
      subst (λ c. Shows c first.view.filter first.view.sort keep shown.0) cells
        (subst (λ o. Shows state.view.projections first.view.filter o keep shown.0) sort shows) in
    subst (Unfiltered first) (ok-injective view.2) (
      subst
        (λ (v : View).
          Unfiltered first (record { view = v; filter_input = none; filter_restore = none }))
        (ok-injective shown.2) (refl, refl, shows'))
