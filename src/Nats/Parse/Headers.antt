-- ===== src/Nats/Parse/Headers.antt =====
-- What a NATS statement that the parser accepts sends.
use onetui.Base.{
  ◌≡◌, refl, subst, Bool, true, false, List, [], ◌∷◌, ◌++◌, Option, none, some, All, if◌then◌else◌,
  ok, ◌>>=◌, ◌>>◌, ensure, ok_or, Ensures, Ensures-ok, >>=-eq-ok, ok-injective,
}
use onetui.Text.{Text, str, text_eq, split_once, trim, is_empty, to_ascii_lowercase, first_line}
use onetui.Text.Words.{split_whitespace}
use onetui.Text.Headers.{header_lines, body}
use onetui.Text.Payload.{decode_payload}
use onetui.Text.Headers.Loop.{header_lines-keeps}
use onetui.Nats.Replay.{Replay, StatementError, no_blank_line}
use onetui.Nats.Replay.Valid.{IsSubject, HasRange, parse-IsValid}
use onetui.Nats.Parse.Characters.{IsHeader, checked-IsHeader}
use onetui.Nats.Parse.{
  Statement, consume, produce, Crates, Found, name_ok, value_ok, encoding_of, named_header, header,
  from_payload, parse_consume, parse_produce, parse_words, parse, Verb, consumes, produces, unknown,
  verb_of, parse_verb,
}

abbrev pub IsValid : Statement → Type 0
IsValid (consume stream replay) = IsSubject (Replay.subject replay) × HasRange replay
IsValid (produce stream subject headers payload) = All IsHeader headers

abbrev AreHeaders : Found → Type 0
AreHeaders found = All IsHeader found.1

All-snoc :
    (xs : List (Text × Text)) (x : Text × Text)
    → All IsHeader xs
    → IsHeader x
    → All IsHeader (xs ++ x ∷ [])
All-snoc [] x h k = (k, tt)
All-snoc (y ∷ xs) x h k = (h.0, All-snoc xs x h.1 k)

encoding_of-AreHeaders :
    (found : Found) (value : Text) → AreHeaders found → Ensures AreHeaders (encoding_of found value)
encoding_of-AreHeaders (none, sent) value h = h
encoding_of-AreHeaders (some other, sent) value h = tt

add_step :
    (found : Found) (name value : Text) (named valued encoding : Bool) (e e' : StatementError)
    → name_ok name ≡ named
    → value_ok value ≡ valued
    → text_eq (to_ascii_lowercase name) (str "onetui-encoding") ≡ encoding
    → AreHeaders found
    → Ensures AreHeaders (
        ensure named e
        >> (ensure valued e'
            >> (if encoding
                then encoding_of found value
                else ok (found.0, found.1 ++ (name, value) ∷ []))))
add_step found name value true true true e e' a b c h = encoding_of-AreHeaders found value h
add_step found name value true true false e e' a b c h =
    All-snoc found.1 (name, value) h (checked-IsHeader name value a b c)
add_step found name value true false encoding e e' a b c h = tt
add_step found name value false valued encoding e e' a b c h = tt

split-AreHeaders :
    (found : Found) (pair : Option (Text × Text)) (e : StatementError)
    → AreHeaders found
    → Ensures AreHeaders (ok_or pair e >>= named_header found)
split-AreHeaders found none e h = tt
split-AreHeaders found (some (name, value)) e h =
    add_step found (trim name) (trim value) (name_ok (trim name)) (value_ok (trim value)) _ _ _ refl
      refl refl h

header-AreHeaders :
    (found : Found) (line : Text) → AreHeaders found → Ensures AreHeaders (header found line)
unfolding header
header-AreHeaders found line h = split-AreHeaders found (split_once b':' line) _ h

module _ (crates : Crates) where
  parse_produce-IsValid :
      (stream : Text) (words : List Text) (rest : Text) {statement : Statement}
      → parse_produce crates stream words rest ≡ ok statement
      → IsValid statement
  unfolding parse_produce
  parse_produce-IsValid stream [] rest e = cc
  parse_produce-IsValid stream (subject ∷ []) rest e =
      let found = >>=-eq-ok (header_lines header (none, []) rest) _ e in
      let text = >>=-eq-ok (body no_blank_line found.0.1) _ found.2 in
      let payload =
        >>=-eq-ok (from_payload (decode_payload (Crates.base64_decode crates) text.0 found.0.0.0)) _
          text.2 in
      subst IsValid (ok-injective payload.2) (
        Ensures-ok (λ (r : Found × Text). AreHeaders r.0) (header_lines header (none, []) rest)
          (header_lines-keeps header AreHeaders header-AreHeaders (none, []) rest tt) found.1)
  parse_produce-IsValid stream (subject ∷ word ∷ words) rest e = cc

  parse_consume-IsValid :
      (stream : Text) (words : List Text) (rest : Text) {statement : Statement}
      → parse_consume crates stream words rest ≡ ok statement
      → IsValid statement
  unfolding parse_consume
  parse_consume-IsValid stream words rest e =
      let replay = >>=-eq-ok (onetui.Nats.Replay.parse (Crates.is_rfc3339 crates) words) _ e in
      let text = >>=-eq-ok (body no_blank_line rest) _ replay.2 in
      let last = >>=-eq-ok (ensure (is_empty (trim text.0)) _) _ text.2 in
      subst IsValid (ok-injective last.2) (parse-IsValid (Crates.is_rfc3339 crates) words replay.1)

  parse_verb-IsValid :
      (verb : Verb) (stream : Text) (words : List Text) (rest : Text) {statement : Statement}
      → parse_verb crates verb stream words rest ≡ ok statement
      → IsValid statement
  parse_verb-IsValid consumes stream words rest e = parse_consume-IsValid stream words rest e
  parse_verb-IsValid produces stream words rest e = parse_produce-IsValid stream words rest e
  parse_verb-IsValid unknown stream words rest e = cc

  parse_words-IsValid :
      (words : List Text) (rest : Text) {statement : Statement}
      → parse_words crates words rest ≡ ok statement
      → IsValid statement
  unfolding parse_words
  parse_words-IsValid [] rest e = cc
  parse_words-IsValid (verb ∷ []) rest e = cc
  parse_words-IsValid (verb ∷ stream ∷ words) rest e =
      parse_verb-IsValid (verb_of verb) stream words rest e

  -- A statement that is accepted is fit to send: CONSUME has a valid subject and range; every header
  -- of a PRODUCE has a name of graphic ASCII characters without a colon, one at least, that is not
  -- the name of the encoding's line, and a value without ASCII control characters.
  pub parse-IsFit :
      (s : Text) {statement : Statement} → parse crates s ≡ ok statement → IsValid statement
  unfolding parse
  parse-IsFit s e = parse_words-IsValid (split_whitespace (first_line s).0) (first_line s).1 e
