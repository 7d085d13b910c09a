-- ===== src/RabbitMq/Parse/Total.antt =====
-- What the parser of RabbitMQ statements does with ASCII text.
use onetui.Base.{
  ℕ, ◌<◌, Bool, true, false, List, [], ◌∷◌, Option, none, some, Outcome, ok, err, panicked, stuck,
  ◌>>=◌, ◌>>◌, ensure, ok_or, if◌then◌else◌, ◌^◌, Settles, Settles-bind, Settles-ensure,
  Settles-ok_or, Ensures-ok,
}
use onetui.Text.{Text, str, text_eq, split_once, trim, is_empty, parse_unsigned, first_line}
use onetui.Text.Words.{split_whitespace}
use onetui.Text.Parts.{IsAscii, decode_payload-Settles, body-Ensures, first_line-Parts}
use onetui.Text.Headers.Loop.{header_lines-Settles}
use onetui.Text.Headers.{body, header_lines}
use onetui.Text.Payload.{PayloadError, decode_payload}
use onetui.RabbitMq.Statement.{StatementError, no_blank_line, scoped}
use onetui.RabbitMq.Parse.{
  Crates, target, finished, object, first_encoding, header, headers, from_payload, no_body,
  get_options, parse_publish, parse_get, parse_declare, parse_delete, parse_purge, parse_raw,
  parse_words, parse, Verb, publishes, gets, declares, deletes, purges, raws, unknown, verb_of,
  parse_verb,
}

target-Settles : (words : List Text) → Settles (target words)
target-Settles [] = tt
target-Settles (word ∷ words) = tt

finished-Settles : (words : List Text) → Settles (finished words)
finished-Settles [] = tt
finished-Settles (word ∷ words) = tt

-- A word taken and something done with it.
with_target :
    {A : Type 0} (words : List Text) (next : Text × List Text → Outcome StatementError A)
    → ((r : Text × List Text) → Settles (next r))
    → Settles (target words >>= next)
with_target words next h = Settles-bind (target words) next (target-Settles words) (λ r e. h r)

then-Settles :
    {A : Type 0} (m : Outcome StatementError (Unit {0})) (last : Outcome StatementError A)
    → Settles m
    → Settles last
    → Settles (m >> last)
then-Settles m last h k = Settles-bind m (λ done. last) h (λ u e. k)

object_scope-Settles :
    (b : Bool) (first : Text × List Text)
    → Settles {A = Text × Text} (
        if b
        then (target first.1 >>= λ name. finished name.1 >> ok (first.0, name.0))
        else (finished first.1 >> ok ([], first.0)))
object_scope-Settles true first =
    with_target first.1 _ (λ name. then-Settles (finished name.1) _ (finished-Settles name.1) tt)
object_scope-Settles false first = then-Settles (finished first.1) _ (finished-Settles first.1) tt

object-Settles : (word : Text) (words : List Text) → Settles (object word words)
unfolding object
object-Settles word words = with_target words _ (λ first. object_scope-Settles (scoped word) first)

first_encoding-Settles : (found : Option Text) (value : Text) → Settles (first_encoding found value)
first_encoding-Settles none value = tt
first_encoding-Settles (some other) value = tt

header-Settles : (found : Option Text) (line : Text) → Settles (header found line)
unfolding header
header-Settles found line =
    Settles-bind (ok_or (split_once b':' line) _) _ (Settles-ok_or (split_once b':' line) _)
      (λ pair e.
        then-Settles (ensure _ _) _ (Settles-ensure _ _)
          (first_encoding-Settles found (trim pair.1)))

no_body-Settles : (rest : Text) → IsAscii rest → Settles (no_body rest)
no_body-Settles rest h =
    Settles-bind (body no_blank_line rest) _ (body-Ensures (λ c. c < 128) no_blank_line rest h).0
      (λ text e. Settles-ensure (is_empty (trim text)) _)

from_payload-Settles : (m : Outcome PayloadError (List ℕ)) → Settles m → Settles (from_payload m)
from_payload-Settles (ok a) h = tt
from_payload-Settles (err e) h = tt
from_payload-Settles panicked h = h
from_payload-Settles stuck h = h

parse_publish-Settles :
    (crates : Crates) (words : List Text) (rest : Text)
    → IsAscii rest
    → Settles (parse_publish crates words rest)
unfolding parse_publish headers
parse_publish-Settles crates words rest h = with_target words _ (λ vhost.
    with_target vhost.1 _ (λ exchange. with_target exchange.1 _ (λ key.
      then-Settles (finished key.1) _ (finished-Settles key.1) (
        let run = header_lines-Settles header (λ c. c < 128) header-Settles none rest h in
        Settles-bind (header_lines header none rest) _ run.0 (λ found e.
          let left =
            Ensures-ok (λ (r : Option Text × Text). IsAscii r.1) (header_lines header none rest)
              run.1 e in
          let read = body-Ensures (λ c. c < 128) no_blank_line found.1 left in
          Settles-bind (body no_blank_line found.1) _ read.0 (λ text e'.
            Settles-bind (from_payload (decode_payload (Crates.base64_decode crates) text found.0))
              _
              (from_payload-Settles _ (
                decode_payload-Settles (Crates.base64_decode crates) text found.0
                  (Ensures-ok IsAscii (body no_blank_line found.1) read.1 e')))
              (λ payload e''. tt)))))))

option-Settles :
    (b b' : Bool) (x y z : Outcome StatementError (ℕ × Bool))
    → Settles x
    → Settles y
    → Settles z
    → Settles (if b then x else if b' then y else z)
option-Settles true b' x y z hx hy hz = hx
option-Settles false true x y z hx hy hz = hy
option-Settles false false x y z hx hy hz = hz

get_options-Settles :
    (count : ℕ) (requeue : Bool) (words : List Text) → Settles (get_options count requeue words)
unfolding get_options
get_options-Settles count requeue [] = tt
get_options-Settles count requeue (part ∷ parts) =
    option-Settles (text_eq part (str "requeue")) (text_eq part (str "ack"))
      (get_options count true parts) (get_options count false parts)
      (ok_or (parse_unsigned (2 ^ 32) part) _ >>= λ n. get_options n requeue parts)
      (get_options-Settles count true parts) (get_options-Settles count false parts)
      (Settles-bind (ok_or (parse_unsigned (2 ^ 32) part) _) _
        (Settles-ok_or (parse_unsigned (2 ^ 32) part) _)
        (λ n e. get_options-Settles n requeue parts))

parse_get-Settles :
    (words : List Text) (rest : Text) → IsAscii rest → Settles (parse_get words rest)
unfolding parse_get
parse_get-Settles words rest h = with_target words _ (λ vhost. with_target vhost.1 _ (λ queue.
    Settles-bind (get_options 1 true queue.1) _ (get_options-Settles 1 true queue.1)
      (λ options e. then-Settles (no_body rest) _ (no_body-Settles rest h) tt)))

parse_declare-Settles :
    (words : List Text) (rest : Text) → IsAscii rest → Settles (parse_declare words rest)
unfolding parse_declare
parse_declare-Settles words rest h = with_target words _ (λ word.
    Settles-bind (object word.0 word.1) _ (object-Settles word.0 word.1) (λ place e.
      Settles-bind (body no_blank_line rest) _ (body-Ensures (λ c. c < 128) no_blank_line rest h).0
        (λ text e'. tt)))

parse_delete-Settles :
    (words : List Text) (rest : Text) → IsAscii rest → Settles (parse_delete words rest)
unfolding parse_delete
parse_delete-Settles words rest h = with_target words _ (λ word.
    Settles-bind (object word.0 word.1) _ (object-Settles word.0 word.1)
      (λ place e. then-Settles (no_body rest) _ (no_body-Settles rest h) tt))

parse_purge-Settles :
    (words : List Text) (rest : Text) → IsAscii rest → Settles (parse_purge words rest)
unfolding parse_purge
parse_purge-Settles words rest h = with_target words _ (λ vhost. with_target vhost.1 _ (λ queue.
    then-Settles (finished queue.1) _ (finished-Settles queue.1)
      (then-Settles (no_body rest) _ (no_body-Settles rest h) tt)))

parse_raw-Settles :
    (crates : Crates) (words : List Text) (rest : Text)
    → IsAscii rest
    → Settles (parse_raw crates words rest)
unfolding parse_raw
parse_raw-Settles crates words rest h = with_target words _ (λ name. with_target name.1 _ (λ path.
    then-Settles (finished path.1) _ (finished-Settles path.1) (
      Settles-bind (ok_or (Crates.method_from_bytes crates name.0) _) _
        (Settles-ok_or (Crates.method_from_bytes crates name.0) _)
        (λ method e. then-Settles (ensure _ _) _ (Settles-ensure _ _) (
          Settles-bind (body no_blank_line rest) _
            (body-Ensures (λ c. c < 128) no_blank_line rest h).0 (λ text e'. tt))))))

parse_verb-Settles :
    (crates : Crates) (verb : Verb) (words : List Text) (rest : Text)
    → IsAscii rest
    → Settles (parse_verb crates verb words rest)
parse_verb-Settles crates publishes words rest h = parse_publish-Settles crates words rest h
parse_verb-Settles crates gets words rest h = parse_get-Settles words rest h
parse_verb-Settles crates declares words rest h = parse_declare-Settles words rest h
parse_verb-Settles crates deletes words rest h = parse_delete-Settles words rest h
parse_verb-Settles crates purges words rest h = parse_purge-Settles words rest h
parse_verb-Settles crates raws words rest h = parse_raw-Settles crates words rest h
parse_verb-Settles crates unknown words rest h = tt

parse_words-Settles :
    (crates : Crates) (words : List Text) (rest : Text)
    → IsAscii rest
    → Settles (parse_words crates words rest)
unfolding parse_words
parse_words-Settles crates [] rest h = tt
parse_words-Settles crates (verb ∷ words) rest h =
    parse_verb-Settles crates (verb_of verb) words rest h

-- The parser returns a statement or an error on every ASCII text: it neither panics nor runs on.
pub parse-Settles : (crates : Crates) (text : Text) → IsAscii text → Settles (parse crates text)
unfolding parse
parse-Settles crates text h =
    parse_words-Settles crates (split_whitespace (first_line text).0) (first_line text).1
      (first_line-Parts (λ c. c < 128) text h).1
