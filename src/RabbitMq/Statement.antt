-- ===== src/RabbitMq/Statement.antt =====
-- `Statement` of `crates/rabbitmq/src/statement.rs`, and how it is named in a summary.
use onetui.Base.{ℕ, Bool, true, false, ◌||◌, not, List, [], ◌∷◌, ◌++◌, if◌then◌else◌, ◌==◌}
use onetui.Text.{Text, str, text_eq}
use onetui.Text.Payload.{PayloadError, concat}

-- A `Method` of the `http` crate is held as its name.
pub data Statement : Type 0 where
  publish : (vhost exchange routing_key : Text) (payload : List ℕ) → Statement
  get : (vhost queue : Text) (count : ℕ) (requeue : Bool) → Statement
  declare : (collection vhost name body : Text) → Statement
  delete : (collection vhost name : Text) → Statement
  purge : (vhost queue : Text) → Statement
  raw : (method path body : Text) → Statement

pub data StatementError : Type 0 where
  no_verb unknown_verb usage not_a_count unwanted_body no_blank_line : StatementError
  header_line unknown_header repeated_encoding : StatementError
  invalid_method raw_path invalid_name invalid_url left_endpoint : StatementError
  http_error too_large bad_status bad_json : StatementError
  payload_error : PayloadError → StatementError

abbrev last_is : ℕ → Text → Bool
last_is c [] = false
last_is c (d ∷ []) = d == c
last_is c (d ∷ e ∷ s) = last_is c (e ∷ s)

abbrev without_last : Text → Text
without_last [] = []
without_last (c ∷ []) = []
without_last (c ∷ d ∷ s) = c ∷ without_last (d ∷ s)

unfoldable pub collection_of : Text → Text
collection_of word =
    if last_is b'y' word
    then without_last word ++ str "ies"
    else if last_is b's' word
    then word
    else word ++ str "s"

unfoldable pub scoped : Text → Bool
scoped word = not (text_eq word (str "vhost"))

abbrev pub get_count : ℕ
get_count = 1

-- A read gives a page, everything else a write outcome.
unfoldable pub reads : Statement → Bool
reads (get vhost queue count requeue) = true
reads (raw method path body) = text_eq method (str "GET") || text_eq method (str "HEAD")
reads (publish vhost exchange routing_key payload) = false
reads (declare collection vhost name body) = false
reads (delete collection vhost name) = false
reads (purge vhost queue) = false

-- `format!("{verb} {collection} {name} on {vhost}")`, without the vhost where there is none.
abbrev named : Text → Text → Text → Text → Text
named verb collection vhost name =
    if scoped collection
    then concat (verb ∷ str " " ∷ collection ∷ str " " ∷ name ∷ str " on " ∷ vhost ∷ [])
    else concat (verb ∷ str " " ∷ collection ∷ str " " ∷ name ∷ [])

-- What a request that succeeded did.
unfoldable pub describes : Statement → Text
unfolding scoped
describes (publish vhost exchange routing_key payload) = concat (
    str "Published to "
    ∷ exchange
    ∷ str " on "
    ∷ vhost
    ∷ str " with routing key "
    ∷ routing_key
    ∷ [])
describes (declare collection vhost name body) = named (str "Declared") collection vhost name
describes (delete collection vhost name) = named (str "Deleted") collection vhost name
describes (purge vhost queue) = concat (str "Purged " ∷ queue ∷ str " on " ∷ vhost ∷ [])
describes (get vhost queue count requeue) = concat (str "Read " ∷ queue ∷ str " on " ∷ vhost ∷ [])
describes (raw method path body) = concat (method ∷ str " " ∷ path ∷ [])

-- The statement as it was written, for an outcome that was rejected or is not known.
unfoldable pub request : Statement → Text
unfolding scoped
request (publish vhost exchange routing_key payload) = concat (
    str "PUBLISH to " ∷ exchange ∷ str " on " ∷ vhost ∷ str " with routing key " ∷ routing_key ∷ [])
request (declare collection vhost name body) = named (str "DECLARE") collection vhost name
request (delete collection vhost name) = named (str "DELETE") collection vhost name
request (purge vhost queue) = concat (str "PURGE " ∷ queue ∷ str " on " ∷ vhost ∷ [])
request (get vhost queue count requeue) = concat (str "GET " ∷ queue ∷ str " on " ∷ vhost ∷ [])
request (raw method path body) = concat (str "RAW " ∷ method ∷ str " " ∷ path ∷ [])
