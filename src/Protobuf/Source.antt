-- ===== src/Protobuf/Source.antt =====
-- `preflight` of crates/protobuf/src/source.rs: a walk over Protobuf source text that bounds the
-- nesting of brackets and the count of declarations, outside strings and comments. What the code
-- holds as an index into the bytes is here the list of the bytes from that index on.
pub mod Preflight
pub mod Depth
use onetui.Base.{
  ℕ, zero, suc, ◌+◌, ◌-◌, Bool, true, false, ◌||◌, ◌&&◌, List, [], ◌∷◌, leb, ltb, ◌==◌,
  if◌then◌else◌, length, Outcome, ok, stuck, ensure, ◌>>=◌, ◌>>◌,
}
use onetui.Protobuf.{
  Error, bundle_exceeded, unterminated_comment, nesting_exceeded, declarations_exceeded,
  max_schema_bytes, max_depth, max_nodes,
}

-- The rest behind the closing quote; a backslash takes the next byte with it.
unfoldable pub skip_quoted : ℕ → List ℕ → List ℕ
skip_quoted quote [] = []
skip_quoted quote (c ∷ []) = []
skip_quoted quote (c ∷ d ∷ rest) =
    let escaped = skip_quoted quote rest in
    let more = skip_quoted quote (d ∷ rest) in
    if c == b'\\' then escaped else if c == quote then d ∷ rest else more

-- The rest from the end of the line on.
unfoldable pub skip_line : List ℕ → List ℕ
skip_line [] = []
skip_line (c ∷ rest) = let more = skip_line rest in if c == 10 then c ∷ rest else more

abbrev is_pair : ℕ → ℕ → ℕ → ℕ → Bool
is_pair x y c d = c == x && d == y

-- Nested block comments: how many are still open where the loop ends, and the rest.
unfoldable pub skip_comment : ℕ → List ℕ → ℕ × List ℕ
skip_comment zero input = (0, input)
skip_comment (suc open_count) [] = (suc open_count, [])
skip_comment (suc open_count) (c ∷ []) = (suc open_count, c ∷ [])
skip_comment (suc open_count) (c ∷ d ∷ rest) =
    let opened = skip_comment (suc (suc open_count)) rest in
    let closed = skip_comment open_count rest in
    let more = skip_comment (suc open_count) (d ∷ rest) in
    if is_pair b'/' b'*' c d then opened else if is_pair b'*' b'/' c d then closed else more

abbrev pub is_quote : ℕ → Bool
is_quote c = c == b'"' || c == b'\''

abbrev pub is_open : ℕ → Bool
is_open c = c == b'{' || c == b'[' || c == b'('

abbrev pub is_close : ℕ → Bool
is_close c = c == b'}' || c == b']' || c == b')'

-- `input.get(i + 1) == Some(&x)`.
abbrev next_is : ℕ → List ℕ → Bool
next_is x [] = false
next_is x (c ∷ rest) = c == x

abbrev depth_after : ℕ → ℕ → ℕ
depth_after c depth = if is_open c then depth + 1 else if is_close c then depth - 1 else depth

abbrev nodes_after : ℕ → ℕ → ℕ
nodes_after c nodes = if is_open c || c == b';' then nodes + 1 else nodes

abbrev drop_one : List ℕ → List ℕ
drop_one [] = []
drop_one (c ∷ rest) = rest

-- One round of the loop at the byte `c`, where `next` is the rest of the loop.
module _ (next : List ℕ → ℕ → ℕ → Outcome Error (Unit {0})) (c : ℕ) (rest : List ℕ) where
  -- A byte outside strings and comments, with the checks at the end of the round.
  unfoldable pub plain_byte : ℕ → ℕ → Outcome Error (Unit {0})
  plain_byte depth nodes = do
    ensure (leb (depth_after c depth) max_depth) nesting_exceeded
    ensure (leb (nodes_after c nodes) max_nodes) declarations_exceeded
    next rest (depth_after c depth) (nodes_after c nodes)

  unfoldable pub block_comment : ℕ → ℕ → Outcome Error (Unit {0})
  unfolding skip_comment
  block_comment depth nodes = do
    let comment = skip_comment 1 (drop_one rest)
    ensure (comment.0 == 0) unterminated_comment
    next comment.1 depth nodes

  unfoldable pub preflight_step : ℕ → ℕ → Outcome Error (Unit {0})
  unfolding plain_byte block_comment skip_quoted skip_line
  preflight_step depth nodes =
      if is_quote c
      then next (skip_quoted c rest) depth nodes
      else if c == b'/' && next_is b'/' rest
      then next (skip_line (c ∷ rest)) depth nodes
      else if c == b'/' && next_is b'*' rest
      then block_comment depth nodes
      else plain_byte depth nodes

-- Each round takes a byte at least, so the length of the input is enough fuel.
unfoldable pub preflight_loop : ℕ → List ℕ → ℕ → ℕ → Outcome Error (Unit {0})
unfolding preflight_step
preflight_loop fuel [] depth nodes = ok tt
preflight_loop zero (c ∷ rest) depth nodes = stuck
preflight_loop (suc fuel) (c ∷ rest) depth nodes =
    preflight_step (λ input d n. preflight_loop fuel input d n) c rest depth nodes

unfoldable pub preflight : List ℕ → Outcome Error (Unit {0})
unfolding preflight_loop
preflight source = do
  ensure (leb (length source) max_schema_bytes) bundle_exceeded
  preflight_loop (length source) source 0 0
