-- ===== src/Tui/Editor/Cursor.antt =====
-- The cursor of an editor, which stands between two characters.
use onetui.Base.{
  ℕ, zero, suc, ◌+◌, ◌-◌, ◌≡◌, ◌≤◌, ◌⊎◌, ==_iff, refl, sym, ap, ◌∙◌, subst, true, false, List, [],
  ◌∷◌, ◌++◌, append_assoc, append-nil, Option, none, some, ◌==◌, le→leb, Bool-cases, inl, inr, ok,
  arith,
}
use onetui.Text.{Text, byte_len}
use onetui.Tui.Value.Laws.{byte_len-append}
use onetui.Tui.Editor.{
  bytes_of, cons_first, cut, sliced, rfind_newline, find_newline, before_last, take_len, line_start,
  line_end, shifted, or_place,
}

-- A place between two characters of a text, or at an end of it.
abbrev pub Between : Text → ℕ → Type 0
Between s n = (a : Text) × (b : Text) × (s ≡ a ++ b) × (n ≡ byte_len a)

bytes_positive : (c : ℕ) → 1 ≤ bytes_of c
unfolding byte_len
bytes_positive c = ground arith

byte_len-cons : (c : ℕ) (s : Text) → byte_len (c ∷ s) ≡ bytes_of c + byte_len s
unfolding byte_len
byte_len-cons c s = omega arith

not_zero : (n : ℕ) → 1 ≤ n → (n == 0) ≡ false
not_zero n h = ground arith

cut-zero : (s : Text) → cut 0 s ≡ some ([], s)
unfolding cut
cut-zero [] = refl
cut-zero (c ∷ s) = refl

cut-cons :
    (n c : ℕ) (s : Text) → bytes_of c ≤ n → cut n (c ∷ s) ≡ cons_first c (cut (n - bytes_of c) s)
unfolding cut
cut-cons n c s h =
    rw (not_zero n (omega (arith, bytes_positive c, h)), le→leb (bytes_of c) n h) refl

byte_len-nil : byte_len [] ≡ 0
unfolding byte_len
byte_len-nil = refl

pub cut-append : (a b : Text) → cut (byte_len a) (a ++ b) ≡ some (a, b)
cut-append [] b = ap (λ (n : ℕ). cut n b) byte_len-nil ∙ cut-zero b
cut-append (c ∷ a) b =
    let whole = byte_len-cons c a in
    let left : byte_len (c ∷ a) - bytes_of c ≡ byte_len a = omega (arith, whole) in
    cut-cons (byte_len (c ∷ a)) c (a ++ b) (omega (arith, whole))
    ∙ ap (λ (n : ℕ). cons_first c (cut n (a ++ b))) left
    ∙ ap (cons_first c) (cut-append a b)

pub sliced-at : (s a b : Text) {n : ℕ} → s ≡ a ++ b → n ≡ byte_len a → sliced (cut n s) ≡ ok (a, b)
sliced-at s a b e l = rw (e, l, cut-append a b) refl

-- A text that is cut between two characters.
pub sliced-Between :
    (s : Text) (n : ℕ)
    → Between s n
    → (parts : Text × Text) × (sliced (cut n s) ≡ ok parts)
      × (s ≡ parts.0 ++ parts.1)
      × (n ≡ byte_len parts.0)
sliced-Between s n (a, b, e, l) = ((a, b), rw (e, l, cut-append a b) refl, e, l)

pub Between-append : (a b : Text) {n : ℕ} → Between a n → Between (a ++ b) n
Between-append a b (p, q, e, l) = (p, q ++ b, ap (λ t. t ++ b) e ∙ append_assoc p q b, l)

pub Between-behind : (a b : Text) {n : ℕ} → Between b n → Between (a ++ b) (byte_len a + n)
Between-behind a b {n} (p, q, e, l) = (
  a ++ p,
  q,
  ap (λ t. a ++ t) e ∙ sym (append_assoc a p q),
  omega (arith, l, byte_len-append a p),
)

pub Between-end : (s : Text) → Between s (byte_len s)
Between-end s = (s, [], sym (append-nil s), refl)

pub Between-start : (s : Text) → Between s 0
unfolding byte_len
Between-start s = ([], s, refl, refl)

-- The places that the newlines and the graphemes of a text give.
some_eq : {a b : ℕ} → some a ≡ some b → a ≡ b
some_eq e = cc

abbrev pub NewlineAt : Text → ℕ → Type 0
NewlineAt s i = Between s i × Between s (i + 1)

newline_here : (c : ℕ) (s : Text) {i : ℕ} → (c == 10) ≡ true → i ≡ 0 → NewlineAt (c ∷ s) i
unfolding byte_len
newline_here c s {i} h e =
    let one : byte_len (c ∷ []) ≡ 1 = rw ((==_iff c 10).0 h) refl in
    (([], c ∷ s, refl, e), (c ∷ [], s, refl, omega (arith, e, one)))

newline_later :
    (c : ℕ) (s : Text) (j : ℕ) {i : ℕ} → i ≡ bytes_of c + j → NewlineAt s j → NewlineAt (c ∷ s) i
newline_later c s j {i} e (at, after) =
    let sum : bytes_of c + (j + 1) ≡ i + 1 = omega (arith, e) in
    (
      subst (Between (c ∷ s)) (sym e) (Between-behind (c ∷ []) s at),
      subst (Between (c ∷ s)) sum (Between-behind (c ∷ []) s after),
    )

shifted-some :
    (n : ℕ) (o : Option ℕ) {i : ℕ} → shifted n o ≡ some i → (j : ℕ) × (o ≡ some j) × (i ≡ n + j)
shifted-some n none e = cc
shifted-some n (some j) e = (j, refl, some_eq (sym e))

or_place-some :
    (o : Option ℕ) (place : ℕ) {i : ℕ} → or_place o place ≡ some i → (o ≡ some i) ⊎ (i ≡ place)
or_place-some none place e = inr (some_eq (sym e))
or_place-some (some j) place e = inl e

pub find-Between : (s : Text) {i : ℕ} → find_newline s ≡ some i → NewlineAt s i
unfolding find_newline
find-Between [] e = cc
find-Between (c ∷ s) {i} e = elim (Bool-cases (c == 10)) [
  | inl h ↦ newline_here c s h (some_eq (sym (rw h at e)))
  | inr h ↦
      let later = shifted-some (bytes_of c) (find_newline s) (rw h at e) in
      newline_later c s later.0 later.2 (find-Between s later.1)
]

pub rfind-Between : (s : Text) {i : ℕ} → rfind_newline s ≡ some i → NewlineAt s i
unfolding rfind_newline
rfind-Between [] e = cc
rfind-Between (c ∷ s) {i} e = elim (Bool-cases (c == 10)) [
  | inl h ↦ elim (or_place-some (shifted (bytes_of c) (rfind_newline s)) 0 (rw h at e)) [
    | inl found ↦
        let later = shifted-some (bytes_of c) (rfind_newline s) found in
        newline_later c s later.0 later.2 (rfind-Between s later.1)
    | inr first ↦ newline_here c s h first
  ]
  | inr h ↦
      let later = shifted-some (bytes_of c) (rfind_newline s) (rw h at e) in
      newline_later c s later.0 later.2 (rfind-Between s later.1)
]

abbrev pub concat : List Text → Text
concat [] = []
concat (g ∷ gs) = g ++ concat gs

pub before_last-Between : (gs : List Text) → Between (concat gs) (before_last gs)
unfolding before_last
before_last-Between [] = Between-start []
before_last-Between (g ∷ []) = Between-start (concat (g ∷ []))
before_last-Between (g ∷ h ∷ gs) = Between-behind g (concat (h ∷ gs)) (before_last-Between (h ∷ gs))

pub take_len-Between : (n : ℕ) (gs : List Text) → Between (concat gs) (take_len n gs)
unfolding take_len
take_len-Between zero gs = Between-start (concat gs)
take_len-Between (suc n) [] = Between-start []
take_len-Between (suc n) (g ∷ gs) = Between-behind g (concat gs) (take_len-Between n gs)

pub line_start-Between : (s : Text) → Between s (line_start (rfind_newline s))
line_start-Between s = by_place (rfind_newline s) refl
  where
    by_place : (o : Option ℕ) → rfind_newline s ≡ o → Between s (line_start o)
    by_place none e = Between-start s
    by_place (some i) e = (rfind-Between s e).1

pub line_end-Between : (s : Text) → Between s (line_end (find_newline s) s)
line_end-Between s = by_place (find_newline s) refl
  where
    by_place : (o : Option ℕ) → find_newline s ≡ o → Between s (line_end o s)
    by_place none e = Between-end s
    by_place (some i) e = (find-Between s e).0
