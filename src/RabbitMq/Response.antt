-- ===== src/RabbitMq/Response.antt =====
-- `send`, `outcome` and `messages` of `crates/rabbitmq/src/statement.rs`: a response, read within
-- its bound, and the page or the outcome it amounts to.
pub mod Answers
use onetui.Base.{
  ℕ, ◌+◌, ◌-◌, ◌*◌, ◌≡◌, Bool, true, false, ◌&&◌, ◌||◌, not, List, [], ◌∷◌, ◌++◌, map, Option, none,
  some, if◌then◌else◌, leb, ltb, length, Outcome, ok, err, ◌>>=◌, ◌>>◌, ensure, ok_or,
}
use onetui.Text.{Text, str, text_eq, is_empty, trim}
use onetui.Text.Payload.{concat}
use onetui.Core.{Value, json, bytes, Page, Row, Column, page_size, page_bytes}
use onetui.RabbitMq.Statement.{
  Statement, publish, get, declare, delete, purge, raw, StatementError, http_error, too_large,
  bad_status, bad_json, reads, describes, request,
}

pub record Response : Type 0 where
  pub status : ℕ
  pub body : List ℕ

-- `PAGE_BYTES - 1024` leaves room for the framing of the row that the body is shown in.
abbrev pub body_limit : ℕ
body_limit = page_bytes - 1024

-- The loop over the chunks of a body; `none` is a chunk whose transport failed.
unfoldable pub chunks : List ℕ → List (Option (List ℕ)) → Outcome StatementError (List ℕ)
chunks body [] = ok body
chunks body (none ∷ later) = err http_error
chunks body (some chunk ∷ later) =
    let rest = chunks (body ++ chunk) later in
    ensure (leb (length chunk) (body_limit - length body)) too_large >> rest

abbrev pub announced_ok : Option ℕ → Bool
announced_ok none = true
announced_ok (some size) = leb size body_limit

-- A response by its status, its announced length, and its chunks.
unfoldable pub receive : ℕ → Option ℕ → List (Option (List ℕ)) → Outcome StatementError Response
unfolding chunks
receive status announced stream =
    ensure (announced_ok announced) too_large
    >> (chunks [] stream >>= λ body. ok record { status = status; body = body })

-- A JSON value as a cell reads it: null, a string, or the text of any other value.
pub data Json : Type 0 where
  null : Json
  string other : Text → Json

-- The crates and conversions: a status as it is displayed, bytes as lossy UTF-8, whether a body
-- says that nothing was routed, and the messages of a body by the names of their members.
pub record Crates : Type 0 where
  pub status_text : ℕ → Text
  pub lossy : List ℕ → Text
  pub unrouted : List ℕ → Bool
  pub from_slice : List ℕ → Option (List (Text → Json))
  pub base64_decode : Text → Option (List ℕ)

pub data WriteOutcome : Type 0 where
  applied rejected unknown : WriteOutcome

pub record WriteResult : Type 0 where
  pub outcome : WriteOutcome
  pub summary : Text

pub data QueryExecution : Type 0 where
  page : Page → QueryExecution
  write : WriteResult → QueryExecution

abbrev pub is_success : ℕ → Bool
is_success status = leb 200 status && ltb status 300

module _ (crates : Crates) where
  open crates use {status_text, lossy, unrouted, from_slice, base64_decode}

  abbrev payload_cell : Text → Option (List ℕ) → Value
  payload_cell s none = Value.text s
  payload_cell s (some decoded) = bytes decoded

  unfoldable pub cell : Text → Json → Option Value
  cell name null = none
  cell name (string s) =
      some (if text_eq name (str "payload") then payload_cell s (base64_decode s) else Value.text s)
  cell name (other s) = some (json s)

  abbrev columns : List Text
  columns =
      str "routing_key" ∷ str "exchange" ∷ str "redelivered" ∷ str "properties" ∷ str "payload" ∷ []

  abbrev message_row : (Text → Json) → Row
  message_row message = record {
    cells = map (λ name. cell name (message name)) columns;
    target = none;
  }

  abbrev pub get_page : List (Text → Json) → Page
  get_page values = record {
    rows = map message_row values;
    next = false;
    columns = map (λ name. record { name = name; datatype = str "JSON or text" }) columns;
    continuation = none;
    notice =
        str
          "Destructive read. Messages acknowledged with ack are gone; requeued messages return to the queue in a changed position.";
  }

  abbrev pub response_page : ℕ → List ℕ → Page
  response_page status body = record {
    rows =
        record {
          cells = some (Value.text (status_text status)) ∷ some (bytes body) ∷ [];
          target = none;
        }
        ∷ [];
    next = false;
    columns =
        record { name = str "status"; datatype = str "text" }
        ∷ record { name = str "body"; datatype = str "bytes" }
        ∷ [];
    continuation = none;
    notice = [];
  }

  abbrev pub is_get : Statement → Bool
  is_get (get vhost queue count requeue) = true
  is_get (publish vhost exchange routing_key payload) = false
  is_get (declare collection vhost name body) = false
  is_get (delete collection vhost name) = false
  is_get (purge vhost queue) = false
  is_get (raw method path body) = false

  abbrev pub is_raw : Statement → Bool
  is_raw (raw method path body) = true
  is_raw (get vhost queue count requeue) = false
  is_raw (publish vhost exchange routing_key payload) = false
  is_raw (declare collection vhost name body) = false
  is_raw (delete collection vhost name) = false
  is_raw (purge vhost queue) = false

  unfoldable pub messages : Bool → ℕ → List ℕ → Outcome StatementError Page
  unfolding cell page_size
  messages false status body = ok (response_page status body)
  messages true status body = ok_or (from_slice body) bad_json >>= λ values.
      ensure (leb (page_size (get_page values)) page_bytes) too_large >> ok (get_page values)

  abbrev is_publish : Statement → Bool
  is_publish (publish vhost exchange routing_key payload) = true
  is_publish (get vhost queue count requeue) = false
  is_publish (declare collection vhost name body) = false
  is_publish (delete collection vhost name) = false
  is_publish (purge vhost queue) = false
  is_publish (raw method path body) = false

  unfoldable pub summary : Statement → ℕ → List ℕ → Text
  unfolding describes request trim
  summary statement status body =
      if is_success status
      then (if is_publish statement && unrouted body
          then concat (describes statement ∷ str ", but no queue matched the routing key" ∷ [])
          else concat (describes statement ∷ str " (HTTP " ∷ status_text status ∷ str ")" ∷ []))
      else if is_empty (trim (lossy body))
      then concat
          (str "RabbitMQ rejected " ∷ request statement ∷ str ": HTTP " ∷ status_text status ∷ [])
      else concat (
          str "RabbitMQ rejected "
          ∷ request statement
          ∷ str ": HTTP "
          ∷ status_text status
          ∷ str ": "
          ∷ trim (lossy body)
          ∷ [])

  abbrev pub read_page : Statement → ℕ → List ℕ → Outcome StatementError QueryExecution
  read_page statement status body =
      ensure (is_success status || is_raw statement) bad_status
      >> (messages (is_get statement) status body >>= λ shown. ok (page shown))

  abbrev pub write_result : Statement → ℕ → List ℕ → WriteResult
  write_result statement status body = record {
    outcome = if is_success status then applied else rejected;
    summary = summary statement status body;
  }

  -- A read shows a page, anything else reports its outcome.
  unfoldable pub outcome : Statement → Response → Outcome StatementError QueryExecution
  unfolding messages summary reads
  outcome statement response =
      let shown = read_page statement (Response.status response) (Response.body response) in
      if reads statement
      then shown
      else ok (write (write_result statement (Response.status response) (Response.body response)))
