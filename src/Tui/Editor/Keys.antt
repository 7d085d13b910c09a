-- ===== src/Tui/Editor/Keys.antt =====
-- The keys and the input of an editor, and where they leave the cursor.
use onetui.Base.{
  ℕ, ◌+◌, ◌≡◌, refl, sym, ap, ◌∙◌, subst, Bool, true, false, ◌&&◌, not, List, [], ◌∷◌, ◌++◌,
  append_assoc, Option, none, some, length, any, leb, ◌==◌, Bool-cases, inl, inr, ok, err, panicked,
  stuck, ◌>>=◌, ◌>>◌, ensure, arith,
}
use onetui.Text.{Text, byte_len, is_control}
use onetui.Tui.Value.Laws.{byte_len-append}
use onetui.Tui.Editor.{
  Editor, EditError, control_character, query_too_long, query_bytes, Edit, KeyCode, KeyEvent,
  normalized, insert_str, insert, find_newline, rfind_newline, line_start, line_end, before_last,
  take_len, up_to, down_to, column_of, drain, plain_key, control_key, key, char, left, right, up,
  down, home, end_key, backspace, delete, enter, tab, other,
}
use onetui.Tui.Editor.Cursor.{
  Between, Between-append, Between-behind, Between-end, Between-start, sliced-Between, sliced-at,
  find-Between, rfind-Between, concat, before_last-Between, take_len-Between, line_start-Between,
  line_end-Between,
}

-- The cursor stands between two characters, or the input is refused.
abbrev pub Stands : Edit Editor → Type 0
Stands (ok editor) = Between editor.text editor.cursor
Stands (err e) = Unit
Stands panicked = ⊥
Stands stuck = ⊥

-- A step that gives a place in the text.
abbrev Placed : Text → Edit ℕ → Type 0
Placed text (ok n) = Between text n
Placed text (err e) = Unit
Placed text panicked = ⊥
Placed text stuck = ⊥

ensure-Stands : (b : Bool) (e : EditError) (m : Edit Editor) → Stands m → Stands (ensure b e >> m)
ensure-Stands true e m h = h
ensure-Stands false e m h = tt

insert_str-Stands :
    (input : Text) (editor : Editor)
    → Between editor.text editor.cursor
    → Stands (insert_str input editor)
unfolding insert_str
insert_str-Stands input editor h =
    let parts = sliced-Between editor.text editor.cursor h in
    rw (parts.1)
      (parts.0.0 ++ input, parts.0.1, refl, omega (arith, parts.3, byte_len-append parts.0.0 input))

pub insert-Stands :
    (input : Text) (editor : Editor)
    → Between editor.text editor.cursor
    → Stands (insert input editor)
unfolding insert
insert-Stands input editor h =
    ensure-Stands (not (any (λ c. is_control c && not (c == 10)) (normalized input)))
      control_character _
      (ensure-Stands (leb (byte_len editor.text + byte_len (normalized input)) query_bytes)
        query_too_long _ (insert_str-Stands (normalized input) editor h))

-- A place in the front of a text, and one behind it.
in_front : (text a b : Text) {n : ℕ} → text ≡ a ++ b → Between a n → Between text n
in_front text a b {n} e h = subst (λ t. Between t n) (sym e) (Between-append a b h)

in_rest :
    (text a b : Text) (cursor : ℕ) {n : ℕ}
    → text ≡ a ++ b
    → cursor ≡ byte_len a
    → Between b n
    → Between text (cursor + n)
in_rest text a b cursor {n} e l h =
    subst (λ t. Between t (cursor + n)) (sym e)
      (subst (λ (k : ℕ). Between (a ++ b) (k + n)) (sym l) (Between-behind a b h))

module _ (graphemes : Text → List Text) (whole : (s : Text) → concat (graphemes s) ≡ s) where
  last_grapheme : (s : Text) → Between s (before_last (graphemes s))
  last_grapheme s =
      subst (λ t. Between t (before_last (graphemes s))) (whole s)
        (before_last-Between (graphemes s))

  first_graphemes : (n : ℕ) (s : Text) → Between s (take_len n (graphemes s))
  first_graphemes n s =
      subst (λ t. Between t (take_len n (graphemes s))) (whole s) (take_len-Between n (graphemes s))

  up_to-Placed :
      (cursor column : ℕ) (o : Option ℕ) (before : Text)
      → rfind_newline before ≡ o
      → (none_above : cursor ≡ byte_len before)
      → Placed before (up_to graphemes cursor column o before)
  up_to-Placed cursor column none before e c = subst (Between before) (sym c) (Between-end before)
  up_to-Placed cursor column (some i) before e c =
      let above = sliced-Between before i (rfind-Between before e).0 in
      let line =
        sliced-Between above.0.0 (line_start (rfind_newline above.0.0))
          (line_start-Between above.0.0) in
      rw (above.1) (
        rw (line.1) (
          in_front before above.0.0 above.0.1 above.2 (
            in_rest above.0.0 line.0.0 line.0.1 (line_start (rfind_newline above.0.0)) line.2 line.3
              (first_graphemes column line.0.1))))

  down_to-Placed :
      (cursor column : ℕ) (o : Option ℕ) (text before behind : Text)
      → find_newline behind ≡ o
      → text ≡ before ++ behind
      → cursor ≡ byte_len before
      → Placed text (down_to graphemes cursor column o behind)
  down_to-Placed cursor column none text before behind e t c =
      in_front text before behind t (subst (Between before) (sym c) (Between-end before))
  down_to-Placed cursor column (some i) text before behind e t c =
      let below = sliced-Between behind (i + 1) (find-Between behind e).1 in
      let line =
        sliced-Between below.0.1 (line_end (find_newline below.0.1) below.0.1)
          (line_end-Between below.0.1) in
      let place = take_len column (graphemes line.0.0) in
      let sum : cursor + ((i + 1) + place) ≡ cursor + (i + 1) + place = omega arith in
      rw (below.1) (
        rw (line.1) (
          subst (Between text) sum (
            in_rest text before behind cursor t c (
              in_rest behind below.0.0 below.0.1 (i + 1) below.2 below.3
                (in_front below.0.1 line.0.0 line.0.1 line.2 (first_graphemes column line.0.0))))))

  column_of-ok : (before : Text) → (column : ℕ) × (column_of graphemes before ≡ ok column)
  column_of-ok before =
      let line =
        sliced-Between before (line_start (rfind_newline before)) (line_start-Between before) in
      (length (graphemes line.0.1), rw (line.1) refl)

  Placed-Stands :
      (editor : Editor) (m : Edit ℕ)
      → Placed editor.text m
      → Stands (m >>= λ cursor. ok (record editor { cursor = cursor }))
  Placed-Stands editor (ok n) h = h
  Placed-Stands editor (err e) h = tt
  Placed-Stands editor panicked h = h
  Placed-Stands editor stuck h = h

  front-Placed :
      (text before behind : Text) (m : Edit ℕ)
      → text ≡ before ++ behind
      → Placed before m
      → Placed text m
  front-Placed text before behind (ok n) e h = in_front text before behind e h
  front-Placed text before behind (err x) e h = tt
  front-Placed text before behind panicked e h = h
  front-Placed text before behind stuck e h = h

  -- What a range of the text leaves.
  drain-ok :
      (text front back kept cut_out : Text) {from to : ℕ}
      → text ≡ front ++ back
      → to ≡ byte_len front
      → front ≡ kept ++ cut_out
      → from ≡ byte_len kept
      → drain from to text ≡ ok (kept ++ back)
  drain-ok text front back kept cut_out e l f k =
      rw (sliced-at text front back e l) (rw (sliced-at front kept cut_out f k) refl)

  backspace-Stands :
      (before behind : Text) (editor : Editor)
      → editor.text ≡ before ++ behind
      → editor.cursor ≡ byte_len before
      → Stands (plain_key graphemes backspace before behind editor)
  unfolding plain_key
  backspace-Stands before behind editor e l =
      let (kept, last, f, k) = last_grapheme before in
      rw (drain-ok editor.text before behind kept last e l f k) (kept, behind, refl, k)

  delete-Stands :
      (before behind : Text) (editor : Editor)
      → editor.text ≡ before ++ behind
      → editor.cursor ≡ byte_len before
      → Stands (plain_key graphemes delete before behind editor)
  unfolding plain_key
  delete-Stands before behind editor e l =
      let (first, rest, f, k) = first_graphemes 1 behind in
      let text_parts : editor.text ≡ (before ++ first) ++ rest =
        e ∙ ap (λ t. before ++ t) f ∙ sym (append_assoc before first rest) in
      let far : editor.cursor + take_len 1 (graphemes behind) ≡ byte_len (before ++ first) =
        omega (arith, l, k, byte_len-append before first) in
      rw (drain-ok editor.text (before ++ first) rest before first text_parts far refl l)
        (before, rest, refl, l)

  plain_key-Stands :
      (code : KeyCode) (before behind : Text) (editor : Editor)
      → editor.text ≡ before ++ behind
      → editor.cursor ≡ byte_len before
      → Stands (plain_key graphemes code before behind editor)
  unfolding plain_key
  plain_key-Stands left before behind editor e l =
      in_front editor.text before behind e (last_grapheme before)
  plain_key-Stands right before behind editor e l =
      in_rest editor.text before behind editor.cursor e l (first_graphemes 1 behind)
  plain_key-Stands home before behind editor e l =
      in_front editor.text before behind e (line_start-Between before)
  plain_key-Stands end_key before behind editor e l =
      in_rest editor.text before behind editor.cursor e l (line_end-Between behind)
  plain_key-Stands up before behind editor e l =
      let column = column_of-ok before in
      rw (column.1) (
        Placed-Stands editor (up_to graphemes editor.cursor column.0 (rfind_newline before) before)
          (front-Placed editor.text before behind _ e
            (up_to-Placed editor.cursor column.0 (rfind_newline before) before refl l)))
  plain_key-Stands down before behind editor e l =
      let column = column_of-ok before in
      rw (column.1) (
        Placed-Stands editor (down_to graphemes editor.cursor column.0 (find_newline behind) behind)
          (down_to-Placed editor.cursor column.0 (find_newline behind) editor.text before behind
            refl e l))
  plain_key-Stands backspace before behind editor e l = backspace-Stands before behind editor e l
  plain_key-Stands delete before behind editor e l = delete-Stands before behind editor e l
  plain_key-Stands enter before behind editor e l =
      insert-Stands (10 ∷ []) editor (before, behind, e, l)
  plain_key-Stands tab before behind editor e l =
      insert-Stands (32 ∷ 32 ∷ 32 ∷ 32 ∷ []) editor (before, behind, e, l)
  plain_key-Stands (char c) before behind editor e l = elim (Bool-cases (is_control c)) [
    | inl h ↦ rw h (before, behind, e, l)
    | inr h ↦ rw h (insert-Stands (c ∷ []) editor (before, behind, e, l))
  ]
  plain_key-Stands other before behind editor e l = (before, behind, e, l)

  control_key-Between :
      (code : KeyCode) (editor : Editor)
      → Between editor.text editor.cursor
      → Between (control_key code editor).text (control_key code editor).cursor
  control_key-Between (char c) editor h = elim (Bool-cases (c == b'u')) [
    | inl e ↦ rw e (Between-start [])
    | inr e ↦ rw e h
  ]
  control_key-Between home editor h = Between-start editor.text
  control_key-Between end_key editor h = Between-end editor.text
  control_key-Between left editor h = h
  control_key-Between right editor h = h
  control_key-Between up editor h = h
  control_key-Between down editor h = h
  control_key-Between backspace editor h = h
  control_key-Between delete editor h = h
  control_key-Between enter editor h = h
  control_key-Between tab editor h = h
  control_key-Between other editor h = h

  -- While the cursor stands between two characters, every key is handled without a panic and leaves
  -- it there, or is refused: where the graphemes of a text make up the text.
  pub key-Stands :
      (event : KeyEvent) (editor : Editor)
      → Between editor.text editor.cursor
      → Stands (key graphemes event editor)
  unfolding key
  key-Stands event editor h = elim (Bool-cases event.control) [
    | inl control ↦ rw control (control_key-Between event.code editor h)
    | inr plain ↦ elim (Bool-cases event.alt) [
      | inl alt ↦ rw (plain, alt) h
      | inr bare ↦
          let parts = sliced-Between editor.text editor.cursor h in
          rw (plain, bare, parts.1)
            (plain_key-Stands event.code parts.0.0 parts.0.1 editor parts.2 parts.3)
    ]
  ]
