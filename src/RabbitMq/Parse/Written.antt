-- ===== src/RabbitMq/Parse/Written.antt =====
-- RabbitMQ statements as they are written, and as they are parsed.
use onetui.Base.{
  ℕ, ◌≡◌, refl, ap, ◌∙◌, Bool, true, false, ◌&&◌, not, List, [], ◌∷◌, ◌++◌, some, All, ok, arith,
  ◌^◌, ◌==◌,
}
use onetui.Text.{
  Text, str, text_eq, as_bytes, split_once, first_line, is_whitespace, starts_with, contains,
  parse_unsigned,
}
use onetui.Text.Words.{IsWord, spaced, split_whitespace, split_whitespace-spaced}
use onetui.Text.Headers.{header_lines, header_loop}
use onetui.Text.Payload.{decode_payload}
use onetui.Text.{or_whole, trim}
use onetui.Text.Parts.{All-append}
use onetui.RabbitMq.Statement.{Statement, publish, get, declare, delete, purge, raw, scoped}
use onetui.RabbitMq.Parse.{
  Crates, headers, get_options, object, parse_publish, parse_get, parse_declare, parse_delete,
  parse_purge, parse_raw, parse_words, parse,
}

-- What is typed into the editor: a key may be empty, a queue's count is a word of digits, and a
-- virtual host is declared and deleted by its name alone.
pub data Command : Type 0 where
  publish_text : (vhost exchange key payload : Text) → Command
  get_message : (vhost queue digits : Text) (count : ℕ) (requeue : Bool) → Command
  declare_object : (word vhost name body : Text) → Command
  declare_vhost : (name body : Text) → Command
  delete_object : (word vhost name : Text) → Command
  delete_vhost : (name : Text) → Command
  purge_queue : (vhost queue : Text) → Command
  raw_request : (name method path body : Text) → Command

abbrev key_word : Text → Text
key_word [] = str "\"\""
key_word (c ∷ s) = c ∷ s

abbrev mode : Bool → Text
mode true = str "requeue"
mode false = str "ack"

-- The verb, the other words, and the body.
abbrev pub words_of : Command → Text × List Text × Text
words_of (publish_text vhost exchange key payload) =
    (str "PUBLISH", vhost ∷ exchange ∷ key_word key ∷ [], payload)
words_of (get_message vhost queue digits count requeue) =
    (str "GET", vhost ∷ queue ∷ digits ∷ mode requeue ∷ [], [])
words_of (declare_object word vhost name body) = (str "DECLARE", word ∷ vhost ∷ name ∷ [], body)
words_of (declare_vhost name body) = (str "DECLARE", str "vhost" ∷ name ∷ [], body)
words_of (delete_object word vhost name) = (str "DELETE", word ∷ vhost ∷ name ∷ [], [])
words_of (delete_vhost name) = (str "DELETE", str "vhost" ∷ name ∷ [], [])
words_of (purge_queue vhost queue) = (str "PURGE", vhost ∷ queue ∷ [], [])
words_of (raw_request name method path body) = (str "RAW", name ∷ path ∷ [], body)

-- The verb line, a blank line, and the body.
abbrev layout : Text × List Text × Text → Text
layout (verb, words, body) = (verb ++ spaced words) ++ 10 ∷ 10 ∷ body

abbrev pub written : Command → Text
written command = layout (words_of command)

abbrev pub statement_of : Command → Statement
statement_of (publish_text vhost exchange key payload) =
    publish vhost exchange key (as_bytes payload)
statement_of (get_message vhost queue digits count requeue) = get vhost queue count requeue
statement_of (declare_object word vhost name body) = declare word vhost name body
statement_of (declare_vhost name body) = declare (str "vhost") [] name body
statement_of (delete_object word vhost name) = delete word vhost name
statement_of (delete_vhost name) = delete (str "vhost") [] name
statement_of (purge_queue vhost queue) = purge vhost queue
statement_of (raw_request name method path body) = raw method path body

abbrev IsKey : Text → Type 0
IsKey [] = Unit
IsKey (c ∷ s) = IsWord (c ∷ s) × (text_eq (c ∷ s) (str "\"\"") ≡ false)

-- The names are words, and the words that are not names mean what the command holds.
abbrev pub IsWritable : Crates → Command → Type 0
IsWritable crates (publish_text vhost exchange key payload) =
    IsWord vhost × IsWord exchange × IsKey key
IsWritable crates (get_message vhost queue digits count requeue) =
    IsWord vhost
    × IsWord queue
    × IsWord digits
    × (text_eq digits (str "requeue") ≡ false)
    × (text_eq digits (str "ack") ≡ false)
    × (parse_unsigned (2 ^ 32) digits ≡ some count)
IsWritable crates (declare_object word vhost name body) =
    IsWord word × IsWord vhost × IsWord name × (scoped word ≡ true)
IsWritable crates (declare_vhost name body) = IsWord name
IsWritable crates (delete_object word vhost name) =
    IsWord word × IsWord vhost × IsWord name × (scoped word ≡ true)
IsWritable crates (delete_vhost name) = IsWord name
IsWritable crates (purge_queue vhost queue) = IsWord vhost × IsWord queue
IsWritable crates (raw_request name method path body) =
    IsWord name
    × IsWord path
    × (Crates.method_from_bytes crates name ≡ some method)
    × ((starts_with (str "/") path && not (contains (str "//") path)) ≡ true)

abbrev NoBreak : Text → Type 0
NoBreak s = All (λ c. (c == 10) ≡ false) s

NoBreak-append : (a b : Text) → NoBreak a → NoBreak b → NoBreak (a ++ b)
NoBreak-append a b ha hb = All-append (λ c. (c == 10) ≡ false) a b ha hb

split_once-line :
    (line rest : Text) → NoBreak line → split_once 10 (line ++ 10 ∷ rest) ≡ some (line, rest)
unfolding split_once
split_once-line [] rest h = refl
split_once-line (c ∷ line) rest h = rw (h.0, split_once-line line rest h.1)

solid : (c : ℕ) → is_whitespace c ≡ false → (c == 10) ≡ false
solid c h = ground arith

solid_each : (s : Text) → All (λ d. is_whitespace d ≡ false) s → NoBreak s
solid_each [] h = tt
solid_each (c ∷ s) h = (solid c h.0, solid_each s h.1)

IsWord-NoBreak : (w : Text) → IsWord w → NoBreak w
IsWord-NoBreak [] h = absurd h
IsWord-NoBreak (c ∷ w) h = solid_each (c ∷ w) h

spaced-NoBreak : (ws : List Text) → All IsWord ws → NoBreak (spaced ws)
spaced-NoBreak [] h = tt
spaced-NoBreak (w ∷ ws) h =
    (refl, NoBreak-append w (spaced ws) (IsWord-NoBreak w h.0) (spaced-NoBreak ws h.1))

-- The words of a written statement, and what stands behind its first line.
parse-layout :
    (crates : Crates) (verb : Text) (words : List Text) (body : Text)
    → IsWord verb
    → All IsWord words
    → parse crates (layout (verb, words, body)) ≡ parse_words crates (verb ∷ words) (10 ∷ body)
unfolding parse
parse-layout crates verb words body hv hw =
    let line : first_line (layout (verb, words, body)) ≡ (verb ++ spaced words, 10 ∷ body) =
      ap (or_whole (layout (verb, words, body))) (
        split_once-line (verb ++ spaced words) (10 ∷ body) (
          NoBreak-append verb (spaced words) (IsWord-NoBreak verb hv) (spaced-NoBreak words hw))) in
    ap (λ (r : Text × Text). parse_words crates (split_whitespace r.0) r.1) line
    ∙ ap (λ ws. parse_words crates ws (10 ∷ body)) (split_whitespace-spaced verb words hv hw)

mode-IsWord : (requeue : Bool) → IsWord (mode requeue)
mode-IsWord true = (refl, (refl, (refl, (refl, (refl, (refl, (refl, tt)))))))
mode-IsWord false = (refl, (refl, (refl, tt)))

each_words_ok :
    (crates : Crates) (command : Command)
    → IsWritable crates command
    → IsWord (words_of command).0 × All IsWord (words_of command).1
each_words_ok crates (publish_text vhost exchange [] payload) h = (
  (refl, (refl, (refl, (refl, (refl, (refl, (refl, tt))))))),
  (h.0, (h.1, ((refl, (refl, tt)), tt))),
)
each_words_ok crates (publish_text vhost exchange (c ∷ key) payload) h =
    ((refl, (refl, (refl, (refl, (refl, (refl, (refl, tt))))))), (h.0, (h.1, (h.2.0, tt))))
each_words_ok crates (get_message vhost queue digits count requeue) h =
    ((refl, (refl, (refl, tt))), (h.0, (h.1, (h.2, (mode-IsWord requeue, tt)))))
each_words_ok crates (declare_object word vhost name body) h =
    ((refl, (refl, (refl, (refl, (refl, (refl, (refl, tt))))))), (h.0, (h.1, (h.2, tt))))
each_words_ok crates (declare_vhost name body) h = (
  (refl, (refl, (refl, (refl, (refl, (refl, (refl, tt))))))),
  ((refl, (refl, (refl, (refl, (refl, tt))))), (h, tt)),
)
each_words_ok crates (delete_object word vhost name) h =
    ((refl, (refl, (refl, (refl, (refl, (refl, tt)))))), (h.0, (h.1, (h.2, tt))))
each_words_ok crates (delete_vhost name) h = (
  (refl, (refl, (refl, (refl, (refl, (refl, tt)))))),
  ((refl, (refl, (refl, (refl, (refl, tt))))), (h, tt)),
)
each_words_ok crates (purge_queue vhost queue) h =
    ((refl, (refl, (refl, (refl, (refl, tt))))), (h.0, (h.1, tt)))
each_words_ok crates (raw_request name method path body) h =
    ((refl, (refl, (refl, tt))), (h.0, (h.1, tt)))

parse_command :
    (crates : Crates) (command : Command)
    → IsWritable crates command
    → parse_words crates ((words_of command).0 ∷ (words_of command).1) (10 ∷ (words_of command).2)
      ≡ ok (statement_of command)
unfolding parse_words parse_publish parse_get parse_declare parse_delete parse_purge parse_raw
    headers header_lines header_loop split_once decode_payload object get_options scoped text_eq
    trim
parse_command crates (publish_text vhost exchange [] payload) h = refl
parse_command crates (publish_text vhost exchange (c ∷ key) payload) h = rw h.2.1 refl
parse_command crates (get_message vhost queue digits count true) h = rw (h.3, h.4, h.5) refl
parse_command crates (get_message vhost queue digits count false) h = rw (h.3, h.4, h.5) refl
parse_command crates (declare_object word vhost name body) h = rw h.3 refl
parse_command crates (declare_vhost name body) h = refl
parse_command crates (delete_object word vhost name) h = rw h.3 refl
parse_command crates (delete_vhost name) h = refl
parse_command crates (purge_queue vhost queue) h = refl
parse_command crates (raw_request name method path body) h = rw (h.2, h.3) refl

-- A command that is written out, its names words without whitespace, parses to its statement.
pub parse-written :
    (crates : Crates) (command : Command)
    → IsWritable crates command
    → parse crates (written command) ≡ ok (statement_of command)
parse-written crates command h =
    let words = each_words_ok crates command h in
    parse-layout crates (words_of command).0 (words_of command).1 (words_of command).2 words.0
      words.1
    ∙ parse_command crates command h
