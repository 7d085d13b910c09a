-- ===== src/RabbitMq/Parse.antt =====
-- The parser of `crates/rabbitmq/src/statement.rs`, where `SplitWhitespace` is the list of the words
-- that are left.
pub mod Total
pub mod Written
use onetui.Base.{
  ℕ, zero, suc, ◌≡◌, Bool, true, false, ◌&&◌, ◌||◌, not, List, [], ◌∷◌, Option, none, some,
  if◌then◌else◌, ◌^◌, Outcome, ok, err, panicked, stuck, ◌>>=◌, ◌>>◌, ensure, ok_or,
}
use onetui.Text.{
  Text, str, text_eq, is_empty, split_once, first_line, trim, starts_with, contains,
  to_ascii_lowercase, parse_unsigned,
}
use onetui.Text.Words.{split_whitespace}
use onetui.Text.Headers.{header_lines, body}
use onetui.Text.Payload.{PayloadError, decode_payload}
use onetui.RabbitMq.Statement.{
  Statement, publish, get, declare, delete, purge, raw, StatementError, no_verb, unknown_verb,
  usage, not_a_count, unwanted_body, no_blank_line, header_line, unknown_header, repeated_encoding,
  invalid_method, raw_path, payload_error, scoped, get_count,
}

abbrev pub Parsed : Type 0 → Type 0
Parsed A = Outcome StatementError A

-- The crates the parser calls: `base64` on text without whitespace, and `Method::from_bytes`.
pub record Crates : Type 0 where
  pub base64_decode : Text → Option (List ℕ)
  pub method_from_bytes : Text → Option Text

-- The next word of the verb line.
abbrev pub target : List Text → Parsed (Text × List Text)
target [] = err usage
target (word ∷ words) = ok (word, words)

abbrev pub finished : List Text → Parsed (Unit {0})
finished [] = ok tt
finished (word ∷ words) = err usage

-- A vhost and a name, or a bare name for a kind without a vhost.
unfoldable pub object : Text → List Text → Parsed (Text × Text)
unfolding scoped
object word words = target words >>= λ first.
    if scoped word
    then (target first.1 >>= λ name. finished name.1 >> ok (first.0, name.0))
    else (finished first.1 >> ok ([], first.0))

abbrev pub first_encoding : Option Text → Text → Parsed (Option Text)
first_encoding none value = ok (some value)
first_encoding (some other) value = err repeated_encoding

abbrev pub encoding_header : Option Text → Text × Text → Parsed (Option Text)
encoding_header found (name, value) =
    ensure (text_eq (to_ascii_lowercase (trim name)) (str "onetui-encoding")) unknown_header
    >> first_encoding found (trim value)

-- One header line, after the encoding found so far.
unfoldable pub header : Option Text → Text → Parsed (Option Text)
header found line = ok_or (split_once b':' line) header_line >>= encoding_header found

unfoldable pub headers : Text → Parsed (Option Text × Text)
unfolding header header_lines
headers rest = header_lines header none rest

-- `Result<Vec<u8>>` of `decode` with this module's errors.
abbrev pub from_payload : {A : Type 0} → Outcome PayloadError A → Parsed A
from_payload (ok a) = ok a
from_payload (err e) = err (payload_error e)
from_payload panicked = panicked
from_payload stuck = stuck

abbrev pub no_body : Text → Parsed (Unit {0})
no_body rest = body no_blank_line rest >>= λ text. ensure (is_empty (trim text)) unwanted_body

abbrev pub unquoted : Text → Text
unquoted key = if text_eq key (str "\"\"") then [] else key

unfoldable pub parse_publish : Crates → List Text → Text → Parsed Statement
unfolding headers decode_payload
parse_publish crates words rest = target words >>= λ vhost. target vhost.1 >>= λ exchange.
    target exchange.1 >>= λ key.
    finished key.1
    >> (headers rest >>= λ found. body no_blank_line found.1 >>= λ text.
        from_payload (decode_payload (Crates.base64_decode crates) text found.0) >>= λ payload.
        ok (publish vhost.0 exchange.0 (unquoted key.0) payload))

-- The words after the queue: the last count and the last mode stand.
unfoldable pub get_options : ℕ → Bool → List Text → Parsed (ℕ × Bool)
get_options count requeue [] = ok (count, requeue)
get_options count requeue (part ∷ parts) =
    let requeued = get_options count true parts in
    let acknowledged = get_options count false parts in
    let counted = λ (n : ℕ). get_options n requeue parts in
    if text_eq part (str "requeue")
    then requeued
    else if text_eq part (str "ack")
    then acknowledged
    else ok_or (parse_unsigned (2 ^ 32) part) not_a_count >>= counted

unfoldable pub parse_get : List Text → Text → Parsed Statement
unfolding get_options
parse_get words rest = target words >>= λ vhost. target vhost.1 >>= λ queue.
    get_options get_count true queue.1 >>= λ options.
    no_body rest >> ok (get vhost.0 queue.0 options.0 options.1)

unfoldable pub parse_declare : List Text → Text → Parsed Statement
unfolding object
parse_declare words rest = target words >>= λ word. object word.0 word.1 >>= λ place.
    body no_blank_line rest >>= λ text. ok (declare word.0 place.0 place.1 text)

unfoldable pub parse_delete : List Text → Text → Parsed Statement
unfolding object
parse_delete words rest = target words >>= λ word.
    object word.0 word.1 >>= λ place. no_body rest >> ok (delete word.0 place.0 place.1)

unfoldable pub parse_purge : List Text → Text → Parsed Statement
parse_purge words rest = target words >>= λ vhost.
    target vhost.1 >>= λ queue. finished queue.1 >> (no_body rest >> ok (purge vhost.0 queue.0))

unfoldable pub parse_raw : Crates → List Text → Text → Parsed Statement
unfolding contains
parse_raw crates words rest = target words >>= λ name. target name.1 >>= λ path.
    finished path.1
    >> (ok_or (Crates.method_from_bytes crates name.0) invalid_method >>= λ method.
        ensure (starts_with (str "/") path.0 && not (contains (str "//") path.0)) raw_path
        >> (body no_blank_line rest >>= λ text. ok (raw method path.0 text)))

pub data Verb : Type 0 where
  publishes gets declares deletes purges raws unknown : Verb

abbrev pub verb_of : Text → Verb
verb_of word =
    if text_eq word (str "PUBLISH")
    then publishes
    else if text_eq word (str "GET")
    then gets
    else if text_eq word (str "DECLARE")
    then declares
    else if text_eq word (str "DELETE")
    then deletes
    else if text_eq word (str "PURGE")
    then purges
    else if text_eq word (str "RAW")
    then raws
    else unknown

abbrev pub parse_verb : Crates → Verb → List Text → Text → Parsed Statement
parse_verb crates publishes words rest = parse_publish crates words rest
parse_verb crates gets words rest = parse_get words rest
parse_verb crates declares words rest = parse_declare words rest
parse_verb crates deletes words rest = parse_delete words rest
parse_verb crates purges words rest = parse_purge words rest
parse_verb crates raws words rest = parse_raw crates words rest
parse_verb crates unknown words rest = err unknown_verb

-- The statement of a verb line's words and the text behind that line.
unfoldable pub parse_words : Crates → List Text → Text → Parsed Statement
unfolding parse_publish parse_get parse_declare parse_delete parse_purge parse_raw
parse_words crates [] rest = err no_verb
parse_words crates (verb ∷ words) rest = parse_verb crates (verb_of verb) words rest

unfoldable pub parse : Crates → Text → Parsed Statement
unfolding parse_words split_whitespace
parse crates text = parse_words crates (split_whitespace (first_line text).0) (first_line text).1
