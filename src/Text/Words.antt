-- ===== src/Text/Words.antt =====
-- `str::split_whitespace`, and the words of a line.
use onetui.Base.{ℕ, ◌≡◌, refl, ap, append-nil, ◌∙◌, false, List, [], ◌∷◌, ◌++◌, All, if◌then◌else◌}
use onetui.Text.{Text, is_whitespace}

-- A word that grows: the first of the words is the one that is being read, and may be empty.
abbrev pub extend_word : ℕ → Text × List Text → Text × List Text
extend_word c (word, later) = (c ∷ word, later)

abbrev pub close_word : Text × List Text → Text × List Text
close_word ([], later) = ([], later)
close_word (c ∷ word, later) = ([], (c ∷ word) ∷ later)

unfoldable pub split_words : Text → Text × List Text
split_words [] = ([], [])
split_words (c ∷ s) =
    let words = split_words s in if is_whitespace c then close_word words else extend_word c words

abbrev pub all_words : Text × List Text → List Text
all_words words = (close_word words).1

unfoldable pub split_whitespace : Text → List Text
unfolding split_words
split_whitespace s = all_words (split_words s)

-- A word: not empty and without whitespace.
abbrev pub IsWord : Text → Type 0
IsWord [] = ⊥
IsWord (c ∷ s) = (is_whitespace c ≡ false) × All (λ d. is_whitespace d ≡ false) s

-- Words behind one another, each but the first after a space.
abbrev pub spaced : List Text → Text
spaced [] = []
spaced (w ∷ ws) = 32 ∷ (w ++ spaced ws)

split_words-append :
    (w rest : Text)
    → All (λ d. is_whitespace d ≡ false) w
    → split_words (w ++ rest) ≡ (w ++ (split_words rest).0, (split_words rest).1)
unfolding split_words
split_words-append [] rest h = refl
split_words-append (c ∷ w) rest h = rw (h.0, split_words-append w rest h.1)

close_word-word :
    (w : Text) (later : List Text) → IsWord w → close_word (w ++ [], later) ≡ ([], w ∷ later)
close_word-word [] later h = absurd h
close_word-word (c ∷ w) later h = rw (append-nil w)

IsWord→All : (w : Text) → IsWord w → All (λ d. is_whitespace d ≡ false) w
IsWord→All [] h = absurd h
IsWord→All (c ∷ w) h = h

-- The words of words behind one another.
split_words-spaced : (ws : List Text) → All IsWord ws → split_words (spaced ws) ≡ ([], ws)
unfolding split_words
split_words-spaced [] h = refl
split_words-spaced (w ∷ ws) h =
    ap close_word
      (split_words-append w (spaced ws) (IsWord→All w h.0) ∙ rw (split_words-spaced ws h.1))
    ∙ close_word-word w ws h.0

pub split_whitespace-spaced :
    (w : Text) (ws : List Text)
    → IsWord w
    → All IsWord ws
    → split_whitespace (w ++ spaced ws) ≡ w ∷ ws
unfolding split_whitespace
split_whitespace-spaced w ws hw h =
    let read : split_words (w ++ spaced ws) ≡ (w ++ [], ws) =
      split_words-append w (spaced ws) (IsWord→All w hw) ∙ rw (split_words-spaced ws h) in
    ap all_words read ∙ ap (λ (p : Text × List Text). p.1) (close_word-word w ws hw)
