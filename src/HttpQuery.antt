-- ===== src/HttpQuery.antt =====
-- The HTTP query editor of the REST providers (`crates/http-query/src/lib.rs`): the request line, the
-- URL it may address, and the page of its response.
pub mod Bounds
pub mod Tests
use onetui.Base.{
  ℕ, ◌-◌, ◌≡◌, Bool, true, false, ◌&&◌, ◌||◌, not, List, [], ◌∷◌, ◌++◌, Option, none, some, length,
  leb, Outcome, ok, err, ◌>>=◌, ◌>>◌, ensure, ok_or,
}
use onetui.Text.{Text, str, is_empty, first_line, starts_with}
use onetui.Text.Words.{split_whitespace}
use onetui.Text.Headers.{body}
use onetui.Core.{Page, bytes, page_bytes}

pub data QueryError : Type 0 where
  request_line invalid_method invalid_path no_blank_line invalid_url left_endpoint : QueryError
  http_error too_large : QueryError

-- A `Method` of the `http` crate is held as its name.
pub record Request : Type 0 where
  pub method : Text
  pub path : Text
  pub content : Text

abbrev pub path_ok : Text → Bool
path_ok path = starts_with (str "/") path && not (starts_with (str "//") path)

abbrev pub request_of : (Text → Option Text) → Text → Text → Text → Outcome QueryError Request
request_of method_from_bytes name path rest =
    ok_or (method_from_bytes name) invalid_method >>= λ method.
    ensure (path_ok path) invalid_path
    >> (body no_blank_line rest >>= λ content.
        ok record { method = method; path = path; content = content })

unfoldable pub parse_line : (Text → Option Text) → List Text → Text → Outcome QueryError Request
parse_line method_from_bytes [] rest = err request_line
parse_line method_from_bytes (name ∷ []) rest = err request_line
parse_line method_from_bytes (name ∷ path ∷ []) rest = request_of method_from_bytes name path rest
parse_line method_from_bytes (name ∷ path ∷ word ∷ words) rest = err request_line

-- `method_from_bytes` is `Method::from_bytes`.
unfoldable pub parse : (Text → Option Text) → Text → Outcome QueryError Request
unfolding parse_line split_whitespace
parse method_from_bytes text =
    parse_line method_from_bytes (split_whitespace (first_line text).0) (first_line text).1

-- The `url` crate, as far as a target reads it.
pub record Urls : Type 1 where
  pub Url : Type 0
  pub join : Url → Text → Option Url
  pub same_origin : Url → Url → Bool
  pub fragment : Url → Option Text
  pub username : Url → Text
  pub password : Url → Option Text

abbrev pub is_none : Option Text → Bool
is_none none = true
is_none (some s) = false

module _ (urls : Urls) where
  open urls use {Url, join, same_origin, fragment, username, password}

  abbrev pub stays : Url → Url → Bool
  stays base target =
      same_origin target base
      && is_none (fragment target)
      && is_empty (username target)
      && is_none (password target)

  unfoldable pub target : Url → Request → Outcome QueryError Url
  target base request = ok_or (join base (Request.path request)) invalid_url >>= λ found.
      ensure (stays base found) left_endpoint >> ok found

abbrev pub body_limit : ℕ
body_limit = page_bytes - 1024

-- The loop over the chunks of a body; `none` is a chunk whose transport failed.
unfoldable pub chunks : List ℕ → List (Option (List ℕ)) → Outcome QueryError (List ℕ)
chunks received [] = ok received
chunks received (none ∷ later) = err http_error
chunks received (some chunk ∷ later) =
    let rest = chunks (received ++ chunk) later in
    ensure (leb (length chunk) (body_limit - length received)) too_large >> rest

abbrev pub announced_ok : Option ℕ → Bool
announced_ok none = true
announced_ok (some size) = leb size body_limit

abbrev pub response_page : Text → List ℕ → Page
response_page status received = record {
  rows =
      record {
        cells = some (onetui.Core.Value.text status) ∷ some (bytes received) ∷ [];
        target = none;
      }
      ∷ [];
  next = false;
  columns =
      record { name = str "status"; datatype = str "text" }
      ∷ record { name = str "body"; datatype = str "bytes" }
      ∷ [];
  continuation = none;
  notice = [];
}

-- The page of a response by its status as it is displayed, its announced length, and its chunks.
unfoldable pub receive : Text → Option ℕ → List (Option (List ℕ)) → Outcome QueryError Page
unfolding chunks
receive status announced stream =
    ensure (announced_ok announced) too_large
    >> (chunks [] stream >>= λ received. ok (response_page status received))
