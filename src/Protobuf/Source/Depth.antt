-- ===== src/Protobuf/Source/Depth.antt =====
-- How the source check treats strings and comments, and its bounds on the text outside them.
use onetui.Base.{
  ℕ, zero, suc, ◌+◌, ◌≤◌, ◌≡◌, refl, Bool, true, false, ◌||◌, List, [], ◌∷◌, ◌++◌, All, leb, ◌==◌,
  if◌then◌else◌, length, length-append, ok, ensure, arith, >>=-eq-ok, ensure-eq-ok, leb→le, ◌∙◌,
  sym, ◌-◌, Outcome,
}
use onetui.Protobuf.{Error, max_depth, max_nodes, nesting_exceeded, declarations_exceeded}
use onetui.Protobuf.Source.{
  skip_quoted, skip_comment, is_quote, is_open, is_close, depth_after, nodes_after, plain_byte,
  preflight_step, preflight_loop,
}
use onetui.Protobuf.Source.Preflight.{same_fuel}

-- Neither the quote nor a backslash.
abbrev pub InString : ℕ → ℕ → Type 0
InString quote c = ((c == quote) ≡ false) × ((c == b'\\') ≡ false)

-- Neither a star nor a slash.
abbrev pub InComment : ℕ → Type 0
InComment c = ((c == b'*') ≡ false) × ((c == b'/') ≡ false)

-- The bytes between two quotes: a backslash takes the byte behind it with it, whatever that is.
pub data Quoted (quote : ℕ) : List ℕ → Type 0 where
  done : Quoted quote []
  plain : (c : ℕ) {body : List ℕ} → InString quote c → Quoted quote body → Quoted quote (c ∷ body)
  escaped : (c : ℕ) {body : List ℕ} → Quoted quote body → Quoted quote (b'\\' ∷ c ∷ body)

skip_plain :
    (quote c d : ℕ) (rest : List ℕ)
    → InString quote c
    → skip_quoted quote (c ∷ d ∷ rest) ≡ skip_quoted quote (d ∷ rest)
unfolding skip_quoted
skip_plain quote c d rest h = rw (h.0, h.1) refl

skip_quoted-Quoted :
    (quote : ℕ) (rest : List ℕ) {body : List ℕ}
    → is_quote quote ≡ true
    → Quoted quote body
    → skip_quoted quote (body ++ quote ∷ rest) ≡ rest
unfolding skip_quoted
skip_quoted-Quoted quote [] hq done = refl
skip_quoted-Quoted quote (d ∷ rest) hq done = ground arith
skip_quoted-Quoted quote rest hq (plain c {body = []} h q) =
    skip_plain quote c quote rest h ∙ skip_quoted-Quoted quote rest hq q
skip_quoted-Quoted quote rest hq (plain c {body = d ∷ body} h q) =
    skip_plain quote c d (body ++ quote ∷ rest) h ∙ skip_quoted-Quoted quote rest hq q
skip_quoted-Quoted quote rest hq (escaped c q) = skip_quoted-Quoted quote rest hq q

skip_comment-body :
    (body rest : List ℕ)
    → All InComment body
    → skip_comment 1 (body ++ b'*' ∷ b'/' ∷ rest) ≡ (0, rest)
unfolding skip_comment
skip_comment-body [] rest h = refl
skip_comment-body (c ∷ []) rest h = rw (h.0.0, h.0.1) (skip_comment-body [] rest tt)
skip_comment-body (c ∷ d ∷ body) rest h = rw (h.0.0, h.0.1) (skip_comment-body (d ∷ body) rest h.1)

-- A quoted string is skipped whole, with its escapes: what stands between its quotes, an escaped
-- quote too, changes neither depth nor count.
pub string_is_opaque :
    (fuel quote : ℕ) (body rest : List ℕ) (depth nodes : ℕ)
    → is_quote quote ≡ true
    → Quoted quote body
    → length (quote ∷ (body ++ quote ∷ rest)) ≤ fuel
    → preflight_loop fuel (quote ∷ (body ++ quote ∷ rest)) depth nodes
      ≡ preflight_loop fuel rest depth nodes
unfolding preflight_loop
string_is_opaque zero quote body rest depth nodes hq h hf = absurd (omega arith)
string_is_opaque (suc fuel) quote body rest depth nodes hq h hf =
    let shorter = length-append body (quote ∷ rest) in
    rw (preflight_step, hq, skip_quoted-Quoted quote rest hq h)
      (same_fuel fuel (suc fuel) rest depth nodes (omega arith) (omega arith))

-- So is a block comment.
pub comment_is_opaque :
    (fuel : ℕ) (body rest : List ℕ) (depth nodes : ℕ)
    → All InComment body
    → length (b'/' ∷ b'*' ∷ (body ++ b'*' ∷ b'/' ∷ rest)) ≤ fuel
    → preflight_loop fuel (b'/' ∷ b'*' ∷ (body ++ b'*' ∷ b'/' ∷ rest)) depth nodes
      ≡ preflight_loop fuel rest depth nodes
unfolding preflight_loop
comment_is_opaque zero body rest depth nodes h hf = absurd (omega arith)
comment_is_opaque (suc fuel) body rest depth nodes h hf =
    let shorter = length-append body (b'*' ∷ b'/' ∷ rest) in
    rw (skip_comment-body body rest h)
      (same_fuel fuel (suc fuel) rest depth nodes (omega arith) (omega arith))

abbrev pub count : (ℕ → Bool) → List ℕ → ℕ
count p [] = 0
count p (c ∷ xs) = if p c then suc (count p xs) else count p xs

-- A byte that starts no string and no comment.
abbrev pub IsPlain : ℕ → Type 0
IsPlain c = (is_quote c || c == b'/') ≡ false

abbrev pub declares : ℕ → Bool
declares c = is_open c || c == b';'

plain_step :
    (next : List ℕ → ℕ → ℕ → Outcome Error (Unit {0})) (c : ℕ) (rest : List ℕ) (depth nodes : ℕ)
    → IsPlain c
    → preflight_step next c rest depth nodes ≡ plain_byte next c rest depth nodes
unfolding preflight_step
plain_step next c rest depth nodes h =
    let unquoted : is_quote c ≡ false = ground arith in
    let no_slash : (c == b'/') ≡ false = ground arith in rw (unquoted, no_slash)

depth_bound :
    (opens closes : Bool) (d o c m : ℕ)
    → (if opens then d + 1 else if closes then d - 1 else d) + o ≤ c + m
    → d + (if opens then suc o else o) ≤ (if closes then suc c else c) + m
depth_bound opens closes d o c m h = ground arith

count_bound :
    (declared : Bool) (n k m : ℕ)
    → (if declared then n + 1 else n) + k ≤ m
    → n + (if declared then suc k else k) ≤ m
count_bound declared n k m h = ground arith

-- Where a source is accepted, every front of it without strings and comments has at most 32 more
-- opening brackets than closing ones, and at most 4096 opening brackets and semicolons.
pub accepted_bounds :
    (fuel : ℕ) (front back : List ℕ) (depth nodes : ℕ)
    → depth ≤ max_depth
    → nodes ≤ max_nodes
    → All IsPlain front
    → preflight_loop fuel (front ++ back) depth nodes ≡ ok tt
    → (depth + count is_open front ≤ count is_close front + max_depth)
      × (nodes + count declares front ≤ max_nodes)
unfolding preflight_loop
accepted_bounds fuel [] back depth nodes hd hn h e = omega arith
accepted_bounds zero (c ∷ front) back depth nodes hd hn h e = cc
accepted_bounds (suc fuel) (c ∷ front) back depth nodes hd hn h e =
    let next = λ (i : List ℕ) (d n : ℕ). preflight_loop fuel i d n in
    let (_, ed, e1) =
      >>=-eq-ok (ensure (leb (depth_after c depth) max_depth) nesting_exceeded) _
        (unfold plain_byte in sym (plain_step next c (front ++ back) depth nodes h.0) ∙ e) in
    let (_, en, e2) =
      >>=-eq-ok (ensure (leb (nodes_after c nodes) max_nodes) declarations_exceeded) _ e1 in
    let (deep, many) =
      accepted_bounds fuel front back (depth_after c depth) (nodes_after c nodes)
        (leb→le _ _ (ensure-eq-ok _ _ ed)) (leb→le _ _ (ensure-eq-ok _ _ en)) h.1 e2 in
    (
      depth_bound (is_open c) (is_close c) depth (count is_open front) (count is_close front)
          max_depth deep,
      count_bound (declares c) nodes (count declares front) max_nodes many,
    )
