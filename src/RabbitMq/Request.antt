-- ===== src/RabbitMq/Request.antt =====
-- `endpoint` of `crates/rabbitmq/src/config.rs` and `outbound`, `segments` of
-- `crates/rabbitmq/src/statement.rs`: the request that a statement describes.
pub mod Paths
use onetui.Base.{
  ℕ, ◌≡◌, Bool, true, false, ◌&&◌, ◌||◌, not, List, [], ◌∷◌, ◌++◌, Option, none, some,
  if◌then◌else◌, any, ◌==◌, leb, Outcome, ok, err, ◌>>=◌, ◌>>◌, ensure, ok_or,
}
use onetui.Text.{Text, str, text_eq, is_empty, byte_len, is_control, trim}
use onetui.RabbitMq.Statement.{
  Statement, publish, get, declare, delete, purge, raw, StatementError, invalid_name, invalid_url,
  left_endpoint, collection_of, scoped,
}

-- `url::Host`: a name, the four numbers of an IPv4 address, or an IPv6 address as one number.
pub data Host : Type 0 where
  domain : Text → Host
  ipv4 : (a b c d : ℕ) → Host
  ipv6 : ℕ → Host

-- The crates `url` and `base64`. `clear` is `path_segments_mut` and `clear`; `push` adds a path
-- segment, which it encodes, and ignores the segments `.` and `..`.
pub record Crates : Type 1 where
  pub Url : Type 0
  pub parse : Text → Option Url
  pub join : Url → Text → Option Url
  pub clear : Url → Option Url
  pub push : Url → Text → Url
  pub host : Url → Option Host
  pub scheme : Url → Text
  pub username : Url → Text
  pub password : Url → Option Text
  pub path : Url → Text
  pub query : Url → Option Text
  pub fragment : Url → Option Text
  pub same_origin : Url → Url → Bool
  pub base64_encode : List ℕ → Text

-- The JSON that a request carries; `native` is a body as it was written.
pub data Body : Type 0 where
  publish_body : (routing_key payload : Text) → Body
  get_body : (count : ℕ) (ackmode : Text) → Body
  native : Text → Body

pub record Outbound (U : Type 0) : Type 0 where
  pub method : Text
  pub url : U
  pub body : Option Body

abbrev pub is_none : {A : Type 0} → Option A → Bool
is_none none = true
is_none (some a) = false

abbrev is_loopback : Option Host → Bool
is_loopback none = false
is_loopback (some (domain name)) = text_eq name (str "localhost")
is_loopback (some (ipv4 a b c d)) = a == 127
is_loopback (some (ipv6 n)) = n == 1

unfoldable pub segment_ok : Text → Bool
segment_ok part = not (is_empty part) && leb (byte_len part) 4096 && not (any is_control part)

module _ (crates : Crates) where
  open crates use {
    Url, parse, join, clear, push, host, scheme, username, password, path, query, fragment,
    same_origin, base64_encode,
  }

  abbrev is_origin : Url → Bool
  is_origin url =
      not (is_none (host url))
      && is_empty (username url)
      && is_none (password url)
      && (is_empty (path url) || text_eq (path url) (str "/"))
      && is_none (query url)
      && is_none (fragment url)

  abbrev is_private : Url → Bool
  is_private url =
      text_eq (scheme url) (str "https")
      || (text_eq (scheme url) (str "http") && is_loopback (host url))

  -- The configured origin: HTTPS, or HTTP to this machine.
  unfoldable pub endpoint : Text → Outcome StatementError Url
  endpoint value = ok_or (parse value) invalid_url >>= λ url.
      ensure (is_origin url) invalid_url >> (ensure (is_private url) invalid_url >> ok url)

  abbrev pub push_all : Url → List Text → Url
  push_all url [] = url
  push_all url (part ∷ parts) = push_all (push url part) parts

  -- The loop of `segments`, which pushes a part once it is checked.
  unfoldable pub push_checked : Url → List Text → Outcome StatementError Url
  unfolding segment_ok
  push_checked url [] = ok url
  push_checked url (part ∷ parts) =
      let pushed = push_checked (push url part) parts in
      ensure (segment_ok part) invalid_name >> pushed

  unfoldable pub segments : Url → List Text → Outcome StatementError Url
  unfolding push_checked
  segments url parts =
      ok_or (clear url) invalid_url >>= λ empty. push_checked (push empty (str "api")) parts

  -- The segments of an object, with the vhost for a kind that has one.
  unfoldable pub object_path : Text → Text → Text → List Text
  unfolding scoped collection_of
  object_path collection vhost name =
      if scoped collection
      then collection_of collection ∷ vhost ∷ name ∷ []
      else collection_of collection ∷ name ∷ []

  abbrev pub ackmode : Bool → Text
  ackmode true = str "ack_requeue_true"
  ackmode false = str "ack_requeue_false"

  abbrev pub sent : Text → Option Body → Url → Outcome StatementError (Outbound Url)
  sent method body url = ok record { method = method; url = url; body = body }

  abbrev pub stays : Url → Url → Bool
  stays url target =
      same_origin target url
      && is_none (fragment target)
      && is_empty (username target)
      && is_none (password target)

  -- The request of a statement to an endpoint.
  unfoldable pub outbound_to : Url → Statement → Outcome StatementError (Outbound Url)
  unfolding segments object_path
  outbound_to url (publish vhost exchange routing_key payload) =
      segments url (str "exchanges" ∷ vhost ∷ exchange ∷ str "publish" ∷ [])
      >>= sent (str "POST") (some (publish_body routing_key (base64_encode payload)))
  outbound_to url (get vhost queue count requeue) =
      segments url (str "queues" ∷ vhost ∷ queue ∷ str "get" ∷ [])
      >>= sent (str "POST") (some (get_body count (ackmode requeue)))
  outbound_to url (declare collection vhost name body) =
      segments url (object_path collection vhost name)
      >>= sent (str "PUT") (some (native (if is_empty (trim body) then str "{}" else body)))
  outbound_to url (delete collection vhost name) =
      segments url (object_path collection vhost name) >>= sent (str "DELETE") none
  outbound_to url (purge vhost queue) =
      segments url (str "queues" ∷ vhost ∷ queue ∷ str "contents" ∷ []) >>= sent (str "DELETE") none
  outbound_to url (raw method path body) = ok_or (join url path) invalid_url >>= λ target.
      ensure (stays url target) left_endpoint
      >> sent method (if is_empty body then none else some (native body)) target

  unfoldable pub outbound : Text → Statement → Outcome StatementError (Outbound Url)
  unfolding endpoint outbound_to
  outbound base statement = endpoint base >>= λ url. outbound_to url statement
