-- ===== src/Text/Parts.antt =====
-- What the characters of a text say of the pieces that `split_once` and `split_whitespace` give, of
-- its body, and of its payload.
use onetui.Base.{
  ℕ, zero, suc, ◌*◌, ◌%◌, ◌<◌, ◌≡◌, sym, subst, ◌/◌, Bool, true, false, List, [], ◌∷◌, ◌++◌, Option,
  none, some, All, length, ◌==◌, ==_iff, if◌then◌else◌, arith, ensure, ok_or, Settles, Settles-bind,
  Settles-ensure, Settles-ok_or, Ensures, ensure-eq-ok,
}
use onetui.Text.{
  Text, strip_char, to_ascii_lowercase, is_whitespace, as_bytes, byte_len, split_once, before_first,
  first_line, or_whole,
}
use onetui.Text.Words.{split_whitespace, split_words, close_word, extend_word}
use onetui.Text.Payload.{
  odd_hex, hex_digit, concat, compact, continues, hex_pair, hex_bytes, decode_hex, decode_payload,
  Encoding, plain, base64_text, hex_text, other, encoding_named, decode_as,
}
use onetui.Text.Payload.Hex.{as_bytes-ascii, byte_len-as_bytes, starts_inside-ascii}
use onetui.Text.Headers.{body}

abbrev pub IsAscii : Text → Type 0
IsAscii s = All (λ c. c < 128) s

-- Both parts of a pair.
abbrev pub Parts : (ℕ → Type 0) → Option (Text × Text) → Type 0
Parts P none = Unit
Parts P (some (a, b)) = All P a × All P b

module _ (P : ℕ → Type 0) where
  pub All-append : (a b : Text) → All P a → All P b → All P (a ++ b)
  All-append [] b ha hb = hb
  All-append (c ∷ a) b ha hb = (ha.0, All-append a b ha.1 hb)

  before_first-Parts :
      (c : ℕ) (r : Option (Text × Text)) → P c → Parts P r → Parts P (before_first c r)
  before_first-Parts c none h k = tt
  before_first-Parts c (some (a, b)) h k = ((h, k.0), k.1)

  Parts-if :
      (b : Bool) (r r' : Option (Text × Text))
      → Parts P r
      → Parts P r'
      → Parts P (if b then r else r')
  Parts-if true r r' h k = h
  Parts-if false r r' h k = k

  pub split_once-Parts : (sep : ℕ) (s : Text) → All P s → Parts P (split_once sep s)
  unfolding split_once
  split_once-Parts sep [] h = tt
  split_once-Parts sep (c ∷ s) h =
      Parts-if (c == sep) _ _ (tt, h.1)
        (before_first-Parts c (split_once sep s) h.0 (split_once-Parts sep s h.1))

  or_whole-Parts :
      (s : Text) (r : Option (Text × Text))
      → All P s
      → Parts P r
      → All P (or_whole s r).0 × All P (or_whole s r).1
  or_whole-Parts s none h k = (h, tt)
  or_whole-Parts s (some (a, b)) h k = k

  pub first_line-Parts : (s : Text) → All P s → All P (first_line s).0 × All P (first_line s).1
  first_line-Parts s h = or_whole-Parts s (split_once 10 s) h (split_once-Parts 10 s h)

  abbrev InWords : Text × List Text → Type 0
  InWords (word, later) = All P word × All (All P) later

  close_word-InWords : (w : Text × List Text) → InWords w → InWords (close_word w)
  close_word-InWords ([], later) h = h
  close_word-InWords (c ∷ word, later) h = (tt, h)

  word_step-InWords :
      (c : ℕ) (b : Bool) (w : Text × List Text)
      → P c
      → InWords w
      → InWords (if b then close_word w else extend_word c w)
  word_step-InWords c true w h k = close_word-InWords w k
  word_step-InWords c false w h k = ((h, k.0), k.1)

  split_words-InWords : (s : Text) → All P s → InWords (split_words s)
  unfolding split_words
  split_words-InWords [] h = (tt, tt)
  split_words-InWords (c ∷ s) h =
      word_step-InWords c (is_whitespace c) (split_words s) h.0 (split_words-InWords s h.1)

  pub split_whitespace-All : (s : Text) → All P s → All (All P) (split_whitespace s)
  unfolding split_whitespace
  split_whitespace-All s h = (close_word-InWords (split_words s) (split_words-InWords s h)).1

  concat-All : (ws : List Text) → All (All P) ws → All P (concat ws)
  concat-All [] h = tt
  concat-All (w ∷ ws) h = All-append w (concat ws) h.0 (concat-All ws h.1)

  pub compact-All : (s : Text) → All P s → All P (compact s)
  compact-All s h = concat-All (split_whitespace s) (split_whitespace-All s h)

-- Digits of an even number of bytes, all ASCII, give bytes or an error.
hex_bytes-Settles : (n : ℕ) (bs : List ℕ) → IsAscii bs → length bs ≡ 2 * n → Settles (hex_bytes bs)
unfolding hex_bytes
hex_bytes-Settles zero [] h e = tt
hex_bytes-Settles (suc n) [] h e = absurd (omega arith)
hex_bytes-Settles n (a ∷ []) h e = absurd (omega arith)
hex_bytes-Settles zero (a ∷ b ∷ rest) h e = absurd (omega arith)
hex_bytes-Settles (suc n) (a ∷ b ∷ rest) h e =
    let outside : continues a ≡ false = ground (arith, h.0) in
    rw (outside, starts_inside-ascii rest h.1.1)
      (Settles-bind (ok_or (hex_pair a b) hex_digit) _ (Settles-ok_or (hex_pair a b) _) (λ byte e'.
        Settles-bind (hex_bytes rest) _ (hex_bytes-Settles n rest h.1.1 (omega arith))
          (λ bytes e''. tt)))

decode_hex-Settles : (s : Text) → IsAscii s → Settles (decode_hex s)
unfolding decode_hex
decode_hex-Settles s h =
    Settles-bind (ensure (byte_len s % 2 == 0) odd_hex) _ (Settles-ensure _ _) (λ u e.
      hex_bytes-Settles (byte_len s / 2) (as_bytes s) (subst IsAscii (sym (as_bytes-ascii s h)) h) (
        let even = (==_iff (byte_len s % 2) 0).0 (ensure-eq-ok _ _ e) in
        omega (arith, byte_len-as_bytes s)))

decode_as-Settles :
    (base64_decode : Text → Option (List ℕ)) (s : Text) (encoding : Encoding)
    → IsAscii s
    → Settles (decode_as base64_decode s encoding)
decode_as-Settles base64_decode s plain h = tt
decode_as-Settles base64_decode s base64_text h = Settles-ok_or (base64_decode (compact s)) _
decode_as-Settles base64_decode s hex_text h =
    decode_hex-Settles (compact s) (compact-All (λ c. c < 128) s h)
decode_as-Settles base64_decode s other h = tt

-- A payload of ASCII text is decoded or refused, whatever its encoding.
pub decode_payload-Settles :
    (base64_decode : Text → Option (List ℕ)) (s : Text) (encoding : Option Text)
    → IsAscii s
    → Settles (decode_payload base64_decode s encoding)
unfolding decode_payload
decode_payload-Settles base64_decode s none h = tt
decode_payload-Settles base64_decode s (some encoding) h =
    decode_as-Settles base64_decode s (encoding_named (to_ascii_lowercase encoding)) h

body_char :
    {E : Type 0} (P : ℕ → Type 0) (e : E) (c : ℕ) (s : Text) (b : Bool)
    → All P (c ∷ s)
    → Ensures (All P) (ok_or (if b then some s else none) e)
body_char P e c s true h = h.1
body_char P e c s false h = tt

-- The body of a text is made of the text's characters.
pub body-Ensures :
    {E : Type 0} (P : ℕ → Type 0) (e : E) (s : Text)
    → All P s
    → Settles (body e s) × Ensures (All P) (body e s)
body-Ensures P e [] h = (tt, tt)
body-Ensures P e (c ∷ s) h =
    (Settles-ok_or (strip_char 10 (c ∷ s)) e, body_char P e c s (c == 10) h)
