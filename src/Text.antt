-- ===== src/Text.antt =====
-- Text as its characters' code points, with the methods of `str` and `char` that the statement
-- parsers use.
pub mod Words
pub mod Payload
pub mod Headers
pub mod Parts
pub mod Tests
use Prim.Native.Char.{code}
use Prim.Native.String.{String}
use onetui.Base.{
  ℕ, zero, suc, ◌+◌, ◌-◌, ◌*◌, ◌/◌, ◌%◌, ◌^◌, ◌≡◌, ◌↔◌, refl, ap, Bool, true, false, ◌&&◌, ◌||◌,
  not, List, [], ◌∷◌, ◌++◌, Option, none, some, ltb, leb, ◌==◌, ==_iff, ==_self, if◌then◌else◌, any,
  all, arith, ℤ, pos, negsuc,
}

abbrev pub Text : Type 0
Text = List ℕ

-- The characters of a literal.
abbrev pub str : String → Text
str String.[] = []
str (String.◌∷◌ c s) = code c ∷ str s

-- `==` on text.
unfoldable pub text_eq : Text → Text → Bool
text_eq [] [] = true
text_eq [] (y ∷ ys) = false
text_eq (x ∷ xs) [] = false
text_eq (x ∷ xs) (y ∷ ys) = x == y && text_eq xs ys

pub text_eq_self : (s : Text) → text_eq s s ≡ true
unfolding text_eq
text_eq_self [] = refl
text_eq_self (x ∷ xs) = ground (arith, text_eq_self xs)

pub text_eq→eq : (s t : Text) → text_eq s t ≡ true → s ≡ t
unfolding text_eq
text_eq→eq [] [] h = refl
text_eq→eq [] (y ∷ ys) h = cc
text_eq→eq (x ∷ xs) [] h = cc
text_eq→eq (x ∷ xs) (y ∷ ys) h = ground (arith, text_eq→eq xs ys)

-- `char::is_whitespace`: the Unicode property White_Space.
abbrev pub is_whitespace : ℕ → Bool
is_whitespace c =
    (leb 9 c && leb c 13)
    || c == 32
    || c == 133
    || c == 160
    || c == 5760
    || (leb 8192 c && leb c 8202)
    || c == 8232
    || c == 8233
    || c == 8239
    || c == 8287
    || c == 12288

-- `char::is_control`: the general category Cc.
abbrev pub is_control : ℕ → Bool
is_control c = leb c 31 || (leb 127 c && leb c 159)

-- The bytes of a character in UTF-8.
abbrev pub utf8 : ℕ → List ℕ
utf8 c =
    if ltb c 128
    then c ∷ []
    else if ltb c 2048
    then (192 + c / 64) ∷ (128 + c % 64) ∷ []
    else if ltb c 65536
    then (224 + c / 4096) ∷ (128 + c / 64 % 64) ∷ (128 + c % 64) ∷ []
    else (240 + c / 262144) ∷ (128 + c / 4096 % 64) ∷ (128 + c / 64 % 64) ∷ (128 + c % 64) ∷ []

-- `str::as_bytes`.
unfoldable pub as_bytes : Text → List ℕ
as_bytes [] = []
as_bytes (c ∷ s) = utf8 c ++ as_bytes s

abbrev utf8_len : ℕ → ℕ
utf8_len c = if ltb c 128 then 1 else if ltb c 2048 then 2 else if ltb c 65536 then 3 else 4

-- `str::len`, in bytes.
unfoldable pub byte_len : Text → ℕ
byte_len [] = 0
byte_len (c ∷ s) = utf8_len c + byte_len s

abbrev pub is_empty : Text → Bool
is_empty [] = true
is_empty (c ∷ s) = false

abbrev pub before_first : ℕ → Option (Text × Text) → Option (Text × Text)
before_first c none = none
before_first c (some (front, back)) = some (c ∷ front, back)

-- `str::split_once` at a character.
unfoldable pub split_once : ℕ → Text → Option (Text × Text)
split_once sep [] = none
split_once sep (c ∷ s) =
    let later = before_first c (split_once sep s) in if c == sep then some ([], s) else later

-- `str::split_once("..")`.
unfoldable pub split_dots : Text → Option (Text × Text)
split_dots [] = none
split_dots (c ∷ []) = none
split_dots (c ∷ d ∷ s) =
    let later = before_first c (split_dots (d ∷ s)) in
    if c == b'.' && d == b'.' then some ([], s) else later

-- `text.split_once('\n').unwrap_or((text, ""))`: the first line and what follows it.
abbrev pub or_whole : Text → Option (Text × Text) → Text × Text
or_whole text none = (text, [])
or_whole text (some r) = r

abbrev pub first_line : Text → Text × Text
first_line text = or_whole text (split_once 10 text)

abbrev rsplit_later : ℕ → ℕ → Text → Option (Text × Text) → Option (Text × Text)
rsplit_later sep c s (some (front, back)) = some (c ∷ front, back)
rsplit_later sep c s none = if c == sep then some ([], s) else none

-- `str::rsplit_once` at a character.
unfoldable pub rsplit_once : ℕ → Text → Option (Text × Text)
rsplit_once sep [] = none
rsplit_once sep (c ∷ s) = rsplit_later sep c s (rsplit_once sep s)

-- `str::trim_start`, `str::trim` and `str::trim_end`.
unfoldable pub trim_start : Text → Text
trim_start [] = []
trim_start (c ∷ s) = let trimmed = trim_start s in if is_whitespace c then trimmed else c ∷ s

abbrev keep_unless_blank : ℕ → Text → Text
keep_unless_blank c [] = if is_whitespace c then [] else c ∷ []
keep_unless_blank c (d ∷ s) = c ∷ d ∷ s

unfoldable pub trim_end : Text → Text
trim_end [] = []
trim_end (c ∷ s) = keep_unless_blank c (trim_end s)

unfoldable pub trim : Text → Text
unfolding trim_start trim_end
trim s = trim_end (trim_start s)

-- `str::strip_prefix` of a character.
abbrev pub strip_char : ℕ → Text → Option Text
strip_char c [] = none
strip_char c (d ∷ s) = if d == c then some s else none

abbrev pub starts_with : Text → Text → Bool
starts_with [] s = true
starts_with (p ∷ ps) [] = false
starts_with (p ∷ ps) (c ∷ s) = p == c && starts_with ps s

-- `str::contains`.
unfoldable pub contains : Text → Text → Bool
contains p [] = starts_with p []
contains p (c ∷ s) = starts_with p (c ∷ s) || contains p s

abbrev ascii_lower : ℕ → ℕ
ascii_lower c = if leb b'A' c && leb c b'Z' then c + 32 else c

-- `str::to_ascii_lowercase`.
unfoldable pub to_ascii_lowercase : Text → Text
to_ascii_lowercase [] = []
to_ascii_lowercase (c ∷ s) = ascii_lower c ∷ to_ascii_lowercase s

-- Decimal digits after those read into `n`, where a number from `bound` on overflows.
unfoldable pub parse_digits : ℕ → ℕ → Text → Option ℕ
parse_digits bound n [] = some n
parse_digits bound n (c ∷ s) =
    let n' = n * 10 + (c - b'0') in
    let more = parse_digits bound n' s in
    if leb b'0' c && leb c b'9' && ltb n' bound then more else none

abbrev some_digits : ℕ → Text → Option ℕ
some_digits bound [] = none
some_digits bound (c ∷ s) = parse_digits bound 0 (c ∷ s)

-- `str::parse` into an unsigned number below `bound`: an optional plus sign and digits.
unfoldable pub parse_unsigned : ℕ → Text → Option ℕ
unfolding parse_digits
parse_unsigned bound [] = none
parse_unsigned bound (c ∷ s) = if c == b'+' then some_digits bound s else some_digits bound (c ∷ s)

abbrev negated : Option ℕ → Option ℤ
negated none = none
negated (some zero) = some (pos 0)
negated (some (suc n)) = some (negsuc n)

abbrev positive : Option ℕ → Option ℤ
positive none = none
positive (some n) = some (pos n)

-- `str::parse` into a signed number from `- bound` to `bound - 1`.
unfoldable pub parse_signed : ℕ → Text → Option ℤ
unfolding parse_unsigned
parse_signed bound [] = none
parse_signed bound (c ∷ s) =
    if c == b'-'
    then negated (some_digits (bound + 1) s)
    else positive (parse_unsigned bound (c ∷ s))

-- `str::lines`: split at line feeds, each without a carriage return before its line feed, and
-- without an empty last line.
abbrev extend_line : ℕ → List Text → List Text
extend_line c [] = (c ∷ []) ∷ []
extend_line c (line ∷ later) = (c ∷ line) ∷ later

abbrev starts_break : Text → Bool
starts_break [] = false
starts_break (c ∷ s) = c == 10

unfoldable pub lines : Text → List Text
lines [] = []
lines (c ∷ s) =
    let later = lines s in
    if c == 10 then [] ∷ later else if c == 13 && starts_break s then later else extend_line c later
