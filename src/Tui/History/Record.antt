-- ===== src/Tui/History/Record.antt =====
-- The history that a query is submitted to: its newest entry, and its length.
use onetui.Base.{
  ◌≡◌, ◌≤◌, ◌<◌, refl, ap, Bool, true, false, not, [], ◌∷◌, ◌++◌, Option, none, some, length, drop,
  ◌==◌, if◌then◌else◌, Bool-cases, inl, inr, length-append, length-drop, or_false, ==_iff, arith,
}
use onetui.Text.{Text, text_eq, text_eq→eq}
use onetui.Tui.History.{limit, Entries, Editing, last, differs, record_entry, submit}

-- The history that a query is submitted to.
last_lem :
    (entries : Entries) {entry : Text × Text}
    → last entries ≡ some entry
    → (front : Entries) × (entries ≡ front ++ entry ∷ [])
last_lem [] e = cc
last_lem (first ∷ []) e = ([], ap (λ x. x ∷ []) (some_entry e))
  where
    some_entry : {a b : Text × Text} → some a ≡ some b → a ≡ b
    some_entry e = cc
last_lem (first ∷ next ∷ entries) e =
    let rest = last_lem (next ∷ entries) e in (first ∷ rest.0, ap (λ xs. first ∷ xs) rest.1)

differs_lem :
    (o : Option (Text × Text)) (entry : Text × Text) → differs o entry ≡ false → o ≡ some entry
differs_lem none entry e = cc
differs_lem (some (a, t)) (alias, text) e =
    let parts = or_false (not (text_eq a alias)) (not (text_eq t text)) e in
    rw
      (
        text_eq→eq a alias (not_false (text_eq a alias) parts.0),
        text_eq→eq t text (not_false (text_eq t text) parts.1),
      )
      refl
  where
    not_false : (b : Bool) → not b ≡ false → b ≡ true
    not_false true e = refl
    not_false false e = cc

abbrev pub Recorded : Text × Text → Entries → Type 0
Recorded entry entries =
    (length entries ≤ limit) × ((front : Entries) × (entries ≡ front ++ entry ∷ []))

room :
    (entries : Entries) (full : Bool)
    → (length entries == limit) ≡ full
    → length entries ≤ limit
    → length (drop (if full then 1 else 0) entries) < limit
room entries true e h = omega (arith, length-drop 1 entries, (==_iff (length entries) limit).0 e)
room entries false e h = ground (arith, length-drop 0 entries)

-- A query that is submitted is the newest entry of the history, which still has at most 100
-- entries.
pub submit-Recorded :
    (alias text : Text) (editing : Editing)
    → length editing.query_history ≤ limit
    → Recorded (alias, text) (submit alias text editing).query_history
unfolding submit record_entry
submit-Recorded alias text editing h =
    elim (Bool-cases (differs (last editing.query_history) (alias, text))) [
      | inl new ↦
          let entries = editing.query_history in
          let front = drop (if length entries == limit then 1 else 0) entries in
          let fits = room entries (length entries == limit) refl h in
          rw new (omega (arith, length-append front ((alias, text) ∷ []), fits), (front, refl))
      | inr again ↦ rw again (
        h,
        last_lem editing.query_history
            (differs_lem (last editing.query_history) (alias, text) again),
      )
    ]
