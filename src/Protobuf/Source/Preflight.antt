-- ===== src/Protobuf/Source/Preflight.antt =====
-- The steps of the source check: what they skip, and how far they move.
use onetui.Base.{
  ℕ, zero, suc, ◌≤◌, ◌≡◌, refl, Bool, true, false, ◌&&◌, List, [], ◌∷◌, leb, ◌==◌, length, Outcome,
  err, ensure, ◌>>◌, arith, Bool-cases, inl, inr, Settles, Settles-bind, Settles-ensure,
}
use onetui.Protobuf.{
  Error, bundle_exceeded, unterminated_comment, nesting_exceeded, declarations_exceeded,
  max_schema_bytes,
}
use onetui.Protobuf.Source.{
  skip_quoted, skip_line, skip_comment, is_quote, next_is, depth_after, nodes_after, plain_byte,
  drop_one, preflight_step, block_comment, preflight_loop, preflight,
}

length-skip_quoted : (quote : ℕ) (input : List ℕ) → length (skip_quoted quote input) ≤ length input
unfolding skip_quoted
length-skip_quoted quote [] = omega arith
length-skip_quoted quote (c ∷ []) = omega arith
length-skip_quoted quote (c ∷ d ∷ rest) =
    ground (arith, length-skip_quoted quote rest, length-skip_quoted quote (d ∷ rest))

length-skip_line : (input : List ℕ) → length (skip_line input) ≤ length input
unfolding skip_line
length-skip_line [] = omega arith
length-skip_line (c ∷ rest) = ground (arith, length-skip_line rest)

length-skip_comment : (k : ℕ) (input : List ℕ) → length (skip_comment k input).1 ≤ length input
unfolding skip_comment
length-skip_comment zero input = omega arith
length-skip_comment (suc k) [] = omega arith
length-skip_comment (suc k) (c ∷ []) = omega arith
length-skip_comment (suc k) (c ∷ d ∷ rest) = ground (
  arith,
  length-skip_comment (suc (suc k)) rest,
  length-skip_comment k rest,
  length-skip_comment (suc k) (d ∷ rest),
)

-- A line comment starts with a slash, so its end is behind it.
line_shorter :
    (c : ℕ) (rest : List ℕ) → (c == b'/') ≡ true → length (skip_line (c ∷ rest)) ≤ length rest
unfolding skip_line
line_shorter c rest h = ground (arith, length-skip_line rest)

length-drop_one : (xs : List ℕ) → length (drop_one xs) ≤ length xs
length-drop_one [] = omega arith
length-drop_one (x ∷ xs) = omega arith

-- A relation between two runs, or a property of one, holds of a round if it holds of the rest of the
-- loop on no longer an input.
module _ (P : Outcome Error (Unit {0}) → Outcome Error (Unit {0}) → Type 0)
    (fails : (e : Error) → P (err e) (err e))
    (next next' : List ℕ → ℕ → ℕ → Outcome Error (Unit {0})) (c : ℕ) (rest : List ℕ)
    (keep : (input : List ℕ) (d n : ℕ)
      → length input ≤ length rest
      → P (next input d n) (next' input d n))
    (depth nodes : ℕ) where
  ensure_both :
      (b : Bool) (e : Error) {x y : Outcome Error (Unit {0})}
      → P x y
      → P (ensure b e >> x) (ensure b e >> y)
  ensure_both true e h = h
  ensure_both false e h = fails e

  step_both : P (preflight_step next c rest depth nodes) (preflight_step next' c rest depth nodes)
  unfolding preflight_step plain_byte block_comment
  step_both = elim (Bool-cases (is_quote c)) [
    | inl quote ↦ rw quote (keep (skip_quoted c rest) depth nodes (length-skip_quoted c rest))
    | inr unquoted ↦ elim (Bool-cases (c == b'/' && next_is b'/' rest)) [
      | inl line ↦
          rw (unquoted, line)
            (keep (skip_line (c ∷ rest)) depth nodes (line_shorter c rest (ground arith)))
      | inr no_line ↦ elim (Bool-cases (c == b'/' && next_is b'*' rest)) [
        | inl block ↦
            rw (unquoted, no_line, block)
              (ensure_both _ unterminated_comment (
                keep (skip_comment 1 (drop_one rest)).1 depth nodes
                  (omega (arith, length-skip_comment 1 (drop_one rest), length-drop_one rest))))
        | inr plain ↦
            rw (unquoted, no_line, plain)
              (ensure_both _ nesting_exceeded (
                ensure_both _ declarations_exceeded
                  (keep rest (depth_after c depth) (nodes_after c nodes) (omega arith))))
      ]
    ]
  ]

-- Two amounts of enough fuel give the same answer.
pub same_fuel :
    (f g : ℕ) (input : List ℕ) (depth nodes : ℕ)
    → length input ≤ f
    → length input ≤ g
    → preflight_loop f input depth nodes ≡ preflight_loop g input depth nodes
unfolding preflight_loop
same_fuel zero zero input depth nodes hf hg = refl
same_fuel zero (suc g) [] depth nodes hf hg = refl
same_fuel zero (suc g) (c ∷ rest) depth nodes hf hg = absurd (omega arith)
same_fuel (suc f) zero [] depth nodes hf hg = refl
same_fuel (suc f) zero (c ∷ rest) depth nodes hf hg = absurd (omega arith)
same_fuel (suc f) (suc g) [] depth nodes hf hg = refl
same_fuel (suc f) (suc g) (c ∷ rest) depth nodes hf hg =
    step_both (λ x y. x ≡ y) (λ e. refl) (λ i d n. preflight_loop f i d n)
      (λ i d n. preflight_loop g i d n) c rest
      (λ i d n h. same_fuel f g i d n (omega arith) (omega arith)) depth nodes

loop-Settles :
    (f : ℕ) (input : List ℕ) (depth nodes : ℕ)
    → length input ≤ f
    → Settles (preflight_loop f input depth nodes)
unfolding preflight_loop
loop-Settles zero [] depth nodes h = tt
loop-Settles zero (c ∷ rest) depth nodes h = elim h [ ]
loop-Settles (suc f) [] depth nodes h = tt
loop-Settles (suc f) (c ∷ rest) depth nodes h =
    step_both (λ x y. Settles x) (λ e. tt) (λ i d n. preflight_loop f i d n)
      (λ i d n. preflight_loop f i d n) c rest (λ i d n h'. loop-Settles f i d n (omega arith))
      depth nodes

-- The check of a source returns or reports an error, whatever the text.
pub preflight-Settles : (source : List ℕ) → Settles (preflight source)
unfolding preflight
preflight-Settles source =
    Settles-bind _ _ (Settles-ensure (leb (length source) max_schema_bytes) bundle_exceeded)
      (λ u e. loop-Settles (length source) source 0 0 (omega arith))
