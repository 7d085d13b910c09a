-- ===== src/HttpQuery/Bounds.antt =====
-- What an HTTP query may address, and how large its page is.
use onetui.Base.{
  ℕ, ◌+◌, ◌-◌, ◌≡◌, ◌≤◌, refl, true, false, ◌&&◌, not, List, [], ◌∷◌, ◌++◌, Option, none, some,
  length, length-append, leb, leb→le, and_true, not-true, ok, ensure, ok_or, Ensures, Ensures-of,
  Ensures-ok, >>=-eq-ok, ensure-eq-ok, ok-injective, arith, subst,
}
use onetui.Text.{Text, str, is_empty, byte_len, first_line, starts_with}
use onetui.Text.Words.{split_whitespace}
use onetui.Text.Headers.{body}
use onetui.Core.{Page, page_size, page_bytes, row_bytes, value_bytes}
use onetui.HttpQuery.{
  Request, path_ok, request_of, parse_line, parse, Urls, is_none, stays, target, body_limit, chunks,
  announced_ok, response_page, receive, invalid_method, invalid_path, no_blank_line, invalid_url,
  left_endpoint, too_large,
}

-- A path that names no host of its own.
abbrev pub IsLocal : Request → Type 0
IsLocal request =
    (starts_with (str "/") (Request.path request) ≡ true)
    × (starts_with (str "//") (Request.path request) ≡ false)

request_of-IsLocal :
    (method_from_bytes : Text → Option Text) (name path rest : Text) {request : Request}
    → request_of method_from_bytes name path rest ≡ ok request
    → IsLocal request
request_of-IsLocal method_from_bytes name path rest e =
    let method = >>=-eq-ok (ok_or (method_from_bytes name) invalid_method) _ e in
    let passed = >>=-eq-ok (ensure (path_ok path) invalid_path) _ method.2 in
    let content = >>=-eq-ok (body no_blank_line rest) _ passed.2 in
    let both =
      and_true (starts_with (str "/") path) (not (starts_with (str "//") path))
        (ensure-eq-ok (path_ok path) _ passed.1) in
    subst IsLocal (ok-injective content.2) (both.0, not-true (starts_with (str "//") path) both.1)

parse_line-IsLocal :
    (method_from_bytes : Text → Option Text) (words : List Text) (rest : Text) {request : Request}
    → parse_line method_from_bytes words rest ≡ ok request
    → IsLocal request
unfolding parse_line
parse_line-IsLocal method_from_bytes [] rest e = cc
parse_line-IsLocal method_from_bytes (name ∷ []) rest e = cc
parse_line-IsLocal method_from_bytes (name ∷ path ∷ []) rest e =
    request_of-IsLocal method_from_bytes name path rest e
parse_line-IsLocal method_from_bytes (name ∷ path ∷ word ∷ words) rest e = cc

module _ (urls : Urls) where
  open urls use {Url, same_origin, fragment, username, password}

  abbrev pub StaysAt : Url → Url → Type 0
  StaysAt base found =
      (same_origin found base ≡ true)
      × (is_none (fragment found) ≡ true)
      × (is_empty (username found) ≡ true)
      × (is_none (password found) ≡ true)

  stays-StaysAt : (base found : Url) → stays urls base found ≡ true → StaysAt base found
  stays-StaysAt base found h =
      let a =
        and_true (same_origin found base && is_none (fragment found) && is_empty (username found))
          (is_none (password found)) h in
      let b =
        and_true (same_origin found base && is_none (fragment found)) (is_empty (username found))
          a.0 in
      let c = and_true (same_origin found base) (is_none (fragment found)) b.0 in
      (c.0, c.1, b.1, a.1)

  -- An HTTP query that is accepted and has a target names a path below one slash, and the target is
  -- on the base URL's origin, without a fragment and without credentials.
  pub target-IsLocal :
      (method_from_bytes : Text → Option Text) (text : Text) (base : Url) {request : Request}
      {found : Url}
      → parse method_from_bytes text ≡ ok request
      → target urls base request ≡ ok found
      → IsLocal request × StaysAt base found
  unfolding parse target
  target-IsLocal method_from_bytes text base {request = request} e e' =
      let joined =
        >>=-eq-ok (ok_or (Urls.join urls base (Request.path request)) invalid_url) _ e' in
      let passed = >>=-eq-ok (ensure (stays urls base joined.0) left_endpoint) _ joined.2 in
      (
        parse_line-IsLocal method_from_bytes (split_whitespace (first_line text).0)
            (first_line text).1 e,
        subst (StaysAt base) (ok-injective passed.2)
            (stays-StaysAt base joined.0 (ensure-eq-ok (stays urls base joined.0) _ passed.1)),
      )

chunks-fit :
    (received : List ℕ) (stream : List (Option (List ℕ)))
    → length received ≤ body_limit
    → Ensures (λ all. length all ≤ body_limit) (chunks received stream)
unfolding chunks
chunks-fit received [] h = h
chunks-fit received (none ∷ later) h = tt
chunks-fit received (some chunk ∷ later) h =
    Ensures-of (λ all. length all ≤ body_limit) _
      (λ all e.
        let fits = >>=-eq-ok (ensure (leb (length chunk) (body_limit - length received)) _) _ e in
        let small =
          leb→le (length chunk) (body_limit - length received) (ensure-eq-ok _ _ fits.1) in
        Ensures-ok (λ all. length all ≤ body_limit) (chunks (received ++ chunk) later)
          (chunks-fit (received ++ chunk) later (omega (arith, length-append received chunk)))
          fits.2)

text_size : (s : Text) → value_bytes (onetui.Core.Value.text s) ≡ byte_len s
unfolding value_bytes
text_size s = refl

bytes_size : (b : List ℕ) → value_bytes (onetui.Core.Value.bytes b) ≡ length b
unfolding value_bytes
bytes_size b = refl

response_page-size :
    (status : Text) (received : List ℕ)
    → page_size (response_page status received) ≡ byte_len status + length received + 19
unfolding page_size row_bytes byte_len
response_page-size status received = omega (arith, text_size status, bytes_size received)

-- The page of a response fits a page's bytes where its status is displayed in at most 1005 bytes,
-- however the response announces its length and whatever its chunks are.
pub receive_fits :
    (status : Text) (announced : Option ℕ) (stream : List (Option (List ℕ))) {shown : Page}
    → byte_len status ≤ 1005
    → receive status announced stream ≡ ok shown
    → page_size shown ≤ page_bytes
unfolding receive
receive_fits status announced stream short e =
    let passed = >>=-eq-ok (ensure (announced_ok announced) too_large) _ e in
    let read = >>=-eq-ok (chunks [] stream) _ passed.2 in
    let few =
      Ensures-ok (λ all. length all ≤ body_limit) (chunks [] stream)
        (chunks-fit [] stream (omega arith)) read.1 in
    subst (λ (p : Page). page_size p ≤ page_bytes) (ok-injective read.2)
      (omega (arith, response_page-size status read.0))
