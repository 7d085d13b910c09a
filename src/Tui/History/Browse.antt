-- ===== src/Tui/History/Browse.antt =====
-- Browsing the history there and back, and its length.
use onetui.Base.{
  ℕ, zero, suc, ◌+◌, ◌≡◌, refl, sym, ap, ◌∙◌, subst, true, false, List, [], ◌∷◌, Option, none, some,
  length, get_elem?, take, drop, if◌then◌else◌, Bool-cases, Option-cases, inl, inr, ok, ◌>>=◌,
  >>=-eq-ok, ok-injective, arith,
}
use onetui.Text.{Text, text_eq}
use onetui.Tui.Session.{Run}
use onetui.Tui.History.{
  Entries, Editing, or_else, last_from, first_from, end_of, moved, kept_draft, last, browse,
}

module _ (alias : Text) where
  or_else-none : (a b : Option ℕ) → or_else a b ≡ none → (a ≡ none) × (b ≡ none)
  or_else-none none b e = (refl, e)
  or_else-none (some i) b e = cc

  some-none : (i : ℕ) → some i ≡ none → ⊥
  some-none i e = cc

  some_eq : {a b : ℕ} → some a ≡ some b → a ≡ b
  some_eq e = cc

  -- Without an entry of the connection in the front, the search goes on behind it.
  skip_front :
      (i n : ℕ) (entries : Entries)
      → last_from alias i (take n entries) ≡ none
      → first_from alias i entries ≡ first_from alias (i + n) (drop n entries)
  unfolding last_from first_from
  skip_front i zero entries e = ap (λ (k : ℕ). first_from alias k entries) (omega arith)
  skip_front i (suc n) [] e = refl
  skip_front i (suc n) (entry ∷ entries) e = elim (Bool-cases (text_eq entry.0 alias)) [
    | inl h ↦
        let none_here = (or_else-none (last_from alias (i + 1) (take n entries)) _ e).1 in
        absurd (some-none i (rw h at none_here))
    | inr h ↦ rw h (
        skip_front (i + 1) n entries (or_else-none (last_from alias (i + 1) (take n entries)) _ e).0
        ∙ ap (λ (k : ℕ). first_from alias k (drop n entries)) (omega arith))
  ]

  -- An entry of the connection.
  abbrev pub Owned : Entries → ℕ → Text × Text → Type 0
  Owned entries place entry =
      (get_elem? entries place ≡ some entry) × (text_eq entry.0 alias ≡ true)

  -- The last entry of the connection in a front, behind which the search goes on behind the front.
  abbrev LastOf : ℕ → ℕ → Entries → ℕ → Type 0
  LastOf i n entries place =
      (k : ℕ) × (place ≡ i + k)
      × (first_from alias (place + 1) (drop (suc k) entries)
          ≡ first_from alias (i + n) (drop n entries))
      × ((entry : Text × Text) × Owned entries k entry)

  this_one :
      (i : ℕ) (entry : Text × Text) {place : ℕ}
      → (if text_eq entry.0 alias then some i else none) ≡ some place
      → (place ≡ i) × (text_eq entry.0 alias ≡ true)
  this_one i entry {place} e = elim (Bool-cases (text_eq entry.0 alias)) [
    | inl h ↦ (some_eq (sym (rw h at e)), h)
    | inr h ↦ absurd (some-none place (sym (rw h at e)))
  ]

  after_last :
      (i n : ℕ) (entries : Entries) {place : ℕ}
      → last_from alias i (take n entries) ≡ some place
      → LastOf i n entries place
  unfolding last_from first_from
  after_last i zero entries e = cc
  after_last i (suc n) [] e = cc
  after_last i (suc n) (entry ∷ entries) {place} e =
      elim (Option-cases (last_from alias (i + 1) (take n entries))) [
        | inl none_later ↦
            let here = this_one i entry (rw none_later at e) in
            (
              0,
              omega (arith, here.0),
              ap (λ (p : ℕ). first_from alias (p + 1) entries) here.0
                  ∙ skip_front (i + 1) n entries none_later
                  ∙ ap (λ (k : ℕ). first_from alias k (drop n entries)) (omega arith),
              (entry, (refl, here.1)),
            )
        | inr later ↦
            let place_later : some place ≡ some later.0 = sym (rw later.1 at e) in
            let rest = after_last (i + 1) n entries later.1 in
            (
              suc rest.0,
              omega (arith, some_eq place_later, rest.1),
              ap (λ (p : ℕ). first_from alias (p + 1) (drop (suc rest.0) entries))
                    (some_eq place_later)
                  ∙ rest.2
                  ∙ ap (λ (k : ℕ). first_from alias k (drop n entries)) (omega arith),
              rest.3,
            )
      ]

  drop_all : {A : Type 0} (xs : List A) → drop (length xs) xs ≡ []
  drop_all [] = refl
  drop_all (x ∷ xs) = drop_all xs

  drop_at :
      (p : ℕ) (entries : Entries) {entry : Text × Text}
      → get_elem? entries p ≡ some entry
      → (rest : Entries) × (drop p entries ≡ entry ∷ rest)
  drop_at p [] e = cc
  drop_at zero (first ∷ entries) e = (entries, ap (λ x. x ∷ entries) (entry_eq e))
    where
      entry_eq : {a b : Text × Text} → some a ≡ some b → a ≡ b
      entry_eq e = cc
  drop_at (suc p) (first ∷ entries) e = drop_at p entries e

  abbrev AtEntry : Option ℕ → Option Text → Entries → Text → Type 0
  AtEntry none current entries text = current ≡ none
  AtEntry (some place) current entries text =
      ((owner : Text) × Owned entries place (owner, text))
      × ((draft : Text) × (current ≡ some draft))

  -- An entry that is shown is one of the connection's, with the draft kept; else there is none
  -- kept.
  abbrev pub Browsing : Editing → Type 0
  Browsing editing =
      AtEntry editing.history_position editing.history_current editing.query_history editing.text

  -- The search back, and forth again from the entry that it gave.
  back_lem :
      (entries : Entries) (position : Option ℕ) {place : ℕ}
      → moved alias true position entries ≡ some place
      → (moved alias false (some place) entries
          ≡ first_from alias (0 + end_of position entries) (drop (end_of position entries) entries))
        × ((entry : Text × Text) × Owned entries place entry)
  unfolding moved
  back_lem entries position {place} e =
      let behind = after_last 0 (end_of position entries) entries e in
      let at : behind.0 ≡ place = omega (arith, behind.1) in
      let after : place + 1 ≡ suc behind.0 = omega (arith, behind.1) in
      (
        ap (λ (k : ℕ). first_from alias (place + 1) (drop k entries)) after ∙ behind.2,
        (behind.3.0, subst (λ (k : ℕ). Owned entries k behind.3.0) at behind.3.1),
      )

  forth_none :
      (entries : Entries)
      → first_from alias (0 + length entries) (drop (length entries) entries) ≡ none
  unfolding first_from
  forth_none entries = rw (drop_all entries) refl

  forth_some :
      (entries : Entries) (from : ℕ) (entry : Text × Text)
      → Owned entries from entry
      → first_from alias (0 + from) (drop from entries) ≡ some from
  unfolding first_from
  forth_some entries from entry h =
      let rest = drop_at from entries h.0 in
      let same : 0 + from ≡ from = omega arith in rw (rest.1, h.1) (ap some same)

  abbrev editing_at : Entries → Option ℕ → Option Text → Text → Editing
  editing_at entries position current text = record {
    query_history = entries;
    history_position = position;
    history_current = current;
    text = text;
  }

  back_at :
      (entries : Entries) (position : Option ℕ) (current : Option Text) (text : Text) (place : ℕ)
      → AtEntry position current entries text
      → moved alias true position entries ≡ some place
      → (entry : Text × Text) → Owned entries place entry
      → Browsing (editing_at entries (some place) (kept_draft position text current) entry.1)
        × (browse alias false
              (editing_at entries (some place) (kept_draft position text current) entry.1)
            ≡ ok (editing_at entries position current text))
  unfolding browse
  back_at entries none current text place h m entry own = (
    ((entry.0, own), (text, refl)),
    rw ((back_lem entries none m).0 ∙ forth_none entries, h) refl,
  )
  back_at entries (some from) current text place h m entry own = (
    ((entry.0, own), h.1),
    rw ((back_lem entries (some from) m).0 ∙ forth_some entries from (h.0.0, text) h.0.1, h.0.1.0)
        refl,
  )

  pub browse-back_forth :
      (editing editing' : Editing) {place : ℕ}
      → Browsing editing
      → moved alias true editing.history_position editing.query_history ≡ some place
      → browse alias true editing ≡ ok editing'
      → Browsing editing' × (browse alias false editing' ≡ ok editing)
  unfolding browse
  browse-back_forth editing editing' {place} h m e =
      let found = (back_lem editing.query_history editing.history_position m).1 in
      subst (λ (s : Editing). Browsing s × (browse alias false s ≡ ok editing))
        (ok-injective (rw (m, found.1.0) at e))
        (back_at editing.query_history editing.history_position editing.history_current editing.text
          place h m found.0 found.1)

  -- A number of steps back, each of which shows an earlier entry.
  pub data Back : Editing → ℕ → Editing → Type 0 where
    here : {editing : Editing} → Back editing 0 editing
    step :
        {editing editing' last : Editing} {n : ℕ} (place : ℕ)
        → moved alias true editing.history_position editing.query_history ≡ some place
        → browse alias true editing ≡ ok editing'
        → Back editing' n last
        → Back editing (suc n) last

  abbrev pub forth : ℕ → Editing → Run Editing
  forth zero editing = ok editing
  forth (suc n) editing = browse alias false editing >>= forth n

  forth-last :
      (n : ℕ) (editing : Editing) {a b : Editing}
      → forth n editing ≡ ok a
      → browse alias false a ≡ ok b
      → forth (suc n) editing ≡ ok b
  forth-last zero editing {a} {b} e f = rw (ok-injective e) (rw f refl)
  forth-last (suc n) editing e f =
      let first = >>=-eq-ok (browse alias false editing) _ e in
      rw first.1 (forth-last n first.0 first.2 f)

  -- As many steps forth as were taken back through the queries of a connection give the draft and
  -- the place in the history that the steps started from, where the text of an entry that is shown
  -- is not edited.
  pub forth-Back :
      (n : ℕ) (editing last : Editing)
      → Browsing editing
      → Back editing n last
      → forth n last ≡ ok editing
  forth-Back n editing last h here = refl
  forth-Back n editing last h (step {editing' = middle} {n = fewer} place m e later) =
      let one = browse-back_forth editing middle h m e in
      forth-last fewer last (forth-Back fewer middle last one.0 later) one.1
