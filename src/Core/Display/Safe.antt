-- ===== src/Core/Display/Safe.antt =====
-- Which characters displayed text may hold.
use onetui.Base.{
  ℕ, zero, suc, ◌/◌, ◌%◌, ◌≤◌, ◌<◌, ◌≡◌, refl, Bool, true, false, ◌&&◌, ◌||◌, [], ◌∷◌, ◌++◌, All,
  leb, ltb, ◌==◌, if◌then◌else◌, arith, ◌⊎◌, ◌↔◌, subst,
}
use onetui.Text.{Text}
use onetui.Text.Parts.{All-append}
use onetui.Text.Payload.{hex_digit_of}
use onetui.Core.Display.{unsafe_char, hex_digits, escape_default, display}

abbrev pub IsSafe : ℕ → Type 0
IsSafe c = unsafe_char c ≡ false

printable-IsSafe : (c : ℕ) → 32 ≤ c → c < 127 → IsSafe c
unfolding unsafe_char
printable-IsSafe c h h' = ground arith

hex_digit-IsSafe : (n : ℕ) → n < 16 → IsSafe (hex_digit_of n)
unfolding hex_digit_of
hex_digit-IsSafe n h = printable-IsSafe (hex_digit_of n) (ground arith) (ground arith)

digits_step :
    (n : ℕ) (b : Bool)
    → ltb n 16 ≡ b
    → (front : Text) → All IsSafe front
    → All IsSafe (if b then hex_digit_of n ∷ [] else front ++ hex_digit_of (n % 16) ∷ [])
digits_step n true e front h = (hex_digit-IsSafe n (ground arith), tt)
digits_step n false e front h =
    All-append IsSafe front (hex_digit_of (n % 16) ∷ []) h
      (hex_digit-IsSafe (n % 16) (omega arith), tt)

hex_digits-IsSafe : (fuel n : ℕ) → All IsSafe (hex_digits fuel n)
unfolding hex_digits
hex_digits-IsSafe zero n = tt
hex_digits-IsSafe (suc fuel) n =
    digits_step n (ltb n 16) refl (hex_digits fuel (n / 16)) (hex_digits-IsSafe fuel (n / 16))

-- Each kind of escape.
quoted_kind :
    (c : ℕ) (quote plain : Bool)
    → (c == b'\'' || c == b'"' || c == b'\\') ≡ quote
    → (leb 32 c && leb c 126) ≡ plain
    → All IsSafe (
        if quote
        then b'\\' ∷ c ∷ []
        else if plain
        then c ∷ []
        else b'\\' ∷ b'u' ∷ b'{' ∷ (hex_digits 6 c ++ b'}' ∷ []))
unfolding unsafe_char
quoted_kind c true plain e e' = (refl, (printable-IsSafe c (ground arith) (ground arith), tt))
quoted_kind c false true e e' = (printable-IsSafe c (ground arith) (ground arith), tt)
quoted_kind c false false e e' = (
  refl,
  (refl, (refl, All-append IsSafe (hex_digits 6 c) (b'}' ∷ []) (hex_digits-IsSafe 6 c) (refl, tt))),
)

tab_kind :
    (tab return feed : Bool) (later : Text)
    → All IsSafe later
    → All IsSafe (
        if tab
        then b'\\' ∷ b't' ∷ []
        else if return
        then b'\\' ∷ b'r' ∷ []
        else if feed
        then b'\\' ∷ b'n' ∷ []
        else later)
unfolding unsafe_char
tab_kind true return feed later h = (refl, (refl, tt))
tab_kind false true feed later h = (refl, (refl, tt))
tab_kind false false true later h = (refl, (refl, tt))
tab_kind false false false later h = h

escape_default-IsSafe : (c : ℕ) → All IsSafe (escape_default c)
unfolding escape_default
escape_default-IsSafe c =
    tab_kind (c == 9) (c == 13) (c == 10) _
      (quoted_kind c (c == b'\'' || c == b'"' || c == b'\\') (leb 32 c && leb c 126) refl refl)

display_step :
    (c : ℕ) (rest : Text) (b : Bool)
    → unsafe_char c ≡ b
    → All IsSafe rest
    → All IsSafe (if b then escape_default c ++ rest else c ∷ rest)
display_step c rest true e h = All-append IsSafe (escape_default c) rest (escape_default-IsSafe c) h
display_step c rest false e h = (e, h)

-- Displayed text has no control character, no line separator and no bidirectional control.
pub display-IsSafe : (s : Text) → All IsSafe (display s)
unfolding display
display-IsSafe [] = tt
display-IsSafe (c ∷ s) = display_step c (display s) (unsafe_char c) refl (display-IsSafe s)

-- A character that is neither a control character (0 to 31 and 127 to 159) nor one of U+061C, U+200E,
-- U+200F, U+2028 to U+202E and U+2066 to U+2069.
abbrev pub IsShown : ℕ → Type 0
IsShown c =
    ((32 ≤ c) × (c < 127))
    ⊎ ((160 ≤ c) × (c < 0x61c))
    ⊎ ((0x61c < c) × (c < 0x200e))
    ⊎ ((0x200f < c) × (c < 0x2028))
    ⊎ ((0x202e < c) × (c < 0x2066))
    ⊎ (0x2069 < c)

IsSafe-IsShown : (c : ℕ) → IsSafe c → IsShown c
unfolding unsafe_char
IsSafe-IsShown c h = ground arith

IsShown-IsSafe : (c : ℕ) → IsShown c → IsSafe c
unfolding unsafe_char
IsShown-IsSafe c h = ground arith

each_fine : (s : Text) → All IsSafe s → All IsShown s
each_fine [] h = tt
each_fine (c ∷ s) h = (IsSafe-IsShown c h.0, each_fine s h.1)

display-kept : (s : Text) → All IsShown s → display s ≡ s
unfolding display
display-kept [] h = refl
display-kept (c ∷ s) h = rw (IsShown-IsSafe c h.0, display-kept s h.1)

-- Text is displayed as it is exactly if each of its characters is shown: none is a control
-- character, U+061C, U+200E, U+200F, in U+2028 to U+202E or in U+2066 to U+2069.
pub display_keeps : (s : Text) → (display s ≡ s) ↔ All IsShown s
display_keeps s = (λ e. each_fine s (subst (All IsSafe) e (display-IsSafe s)), display-kept s)
