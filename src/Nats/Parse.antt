-- ===== src/Nats/Parse.antt =====
-- `parse` of `crates/nats/src/statement.rs`.
pub mod Characters
pub mod Headers
use onetui.Base.{
  ℕ, zero, suc, ◌+◌, ◌≡◌, Bool, true, false, ◌&&◌, ◌||◌, not, List, [], ◌∷◌, ◌++◌, Option, none,
  some, ◌==◌, leb, if◌then◌else◌, any, all, Outcome, ok, err, panicked, stuck, ◌>>=◌, ◌>>◌, ensure,
  ok_or,
}
use onetui.Text.{
  Text, str, text_eq, is_empty, as_bytes, first_line, split_once, trim, to_ascii_lowercase,
}
use onetui.Text.Words.{split_whitespace}
use onetui.Text.Headers.{header_lines, body}
use onetui.Text.Payload.{PayloadError, decode_payload}
use onetui.Nats.Replay.{
  Replay, StatementError, no_verb, unknown_verb, no_stream, no_subject, extra_words, no_blank_line,
  unwanted_body, header_line, header_name, header_value, repeated_encoding, payload_error, Parsed,
}

pub data Statement : Type 0 where
  consume : (stream : Text) (replay : Replay) → Statement
  produce : (stream subject : Text) (headers : List (Text × Text)) (payload : List ℕ) → Statement

-- The crates the parser calls: `base64`, and the RFC 3339 reader of `async_nats`.
pub record Crates : Type 0 where
  pub base64_decode : Text → Option (List ℕ)
  pub is_rfc3339 : Text → Bool

unfoldable pub name_ok : Text → Bool
name_ok name =
    not (is_empty name) && all (λ b. leb 33 b && leb b 126 && not (b == b':')) (as_bytes name)

unfoldable pub value_ok : Text → Bool
value_ok value = not (any (λ b. leb b 31 || b == 127) (as_bytes value))

-- The encoding and the headers found so far.
abbrev pub Found : Type 0
Found = Option Text × List (Text × Text)

abbrev pub encoding_of : Found → Text → Parsed Found
encoding_of (none, headers) value = ok (some value, headers)
encoding_of (some other, headers) value = err repeated_encoding

abbrev pub add_header : Found → Text → Text → Parsed Found
add_header found name value =
    ensure (name_ok name) header_name
    >> (ensure (value_ok value) header_value
        >> (if text_eq (to_ascii_lowercase name) (str "onetui-encoding")
            then encoding_of found value
            else ok (found.0, found.1 ++ (name, value) ∷ [])))

abbrev pub named_header : Found → Text × Text → Parsed Found
named_header found (name, value) = add_header found (trim name) (trim value)

-- One header line.
unfoldable pub header : Found → Text → Parsed Found
unfolding name_ok value_ok
header found line = ok_or (split_once b':' line) header_line >>= named_header found

abbrev pub from_payload : {A : Type 0} → Outcome PayloadError A → Parsed A
from_payload (ok a) = ok a
from_payload (err e) = err (payload_error e)
from_payload panicked = panicked
from_payload stuck = stuck

unfoldable pub parse_consume : Crates → Text → List Text → Text → Parsed Statement
parse_consume crates stream words rest =
    onetui.Nats.Replay.parse (Crates.is_rfc3339 crates) words >>= λ replay.
    body no_blank_line rest >>= λ text.
    ensure (is_empty (trim text)) unwanted_body >> ok (consume stream replay)

unfoldable pub parse_produce : Crates → Text → List Text → Text → Parsed Statement
unfolding header header_lines decode_payload
parse_produce crates stream [] rest = err no_subject
parse_produce crates stream (subject ∷ []) rest = header_lines header (none, []) rest >>= λ found.
    body no_blank_line found.1 >>= λ text.
    from_payload (decode_payload (Crates.base64_decode crates) text found.0.0) >>= λ payload.
    ok (produce stream subject found.0.1 payload)
parse_produce crates stream (subject ∷ word ∷ words) rest = err extra_words

pub data Verb : Type 0 where
  consumes produces unknown : Verb

abbrev pub verb_of : Text → Verb
verb_of word =
    if text_eq word (str "CONSUME")
    then consumes
    else if text_eq word (str "PRODUCE")
    then produces
    else unknown

abbrev pub parse_verb : Crates → Verb → Text → List Text → Text → Parsed Statement
parse_verb crates consumes stream words rest = parse_consume crates stream words rest
parse_verb crates produces stream words rest = parse_produce crates stream words rest
parse_verb crates unknown stream words rest = err unknown_verb

unfoldable pub parse_words : Crates → List Text → Text → Parsed Statement
unfolding parse_consume parse_produce
parse_words crates [] rest = err no_verb
parse_words crates (verb ∷ []) rest = err no_stream
parse_words crates (verb ∷ stream ∷ words) rest = parse_verb crates (verb_of verb) stream words rest

unfoldable pub parse : Crates → Text → Parsed Statement
unfolding parse_words split_whitespace
parse crates text = parse_words crates (split_whitespace (first_line text).0) (first_line text).1
