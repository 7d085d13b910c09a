-- ===== src/Text/Headers/Loop.antt =====
-- The loop over header lines: its fuel, and what it keeps.
use onetui.Base.{
  ℕ, zero, suc, ◌<◌, Bool, true, false, [], ◌∷◌, Option, none, some, All, length, ◌==◌,
  if◌then◌else◌, Outcome, arith, Settles, Settles-bind, Ensures, Ensures-bind, Ensures-of,
}
use onetui.Text.{Text, split_once, before_first}
use onetui.Text.Headers.{header_round, header_loop, header_lines}
use onetui.Text.Parts.{Parts, split_once-Parts}

-- The header loop ends: each round takes a line break from the text.
-- Its remainder is made of the text's characters.
abbrev Shorter : Text → Option (Text × Text) → Type 0
Shorter s none = Unit
Shorter s (some (line, later)) = length later < length s

Shorter-step :
    (c : ℕ) (s : Text) (b : Bool) (r : Option (Text × Text))
    → Shorter s r
    → Shorter (c ∷ s) (if b then some ([], s) else before_first c r)
Shorter-step c s true r h = omega arith
Shorter-step c s false none h = tt
Shorter-step c s false (some (line, later)) h = omega arith

Shorter-split_once : (s : Text) → Shorter s (split_once 10 s)
unfolding split_once
Shorter-split_once [] = tt
Shorter-split_once (c ∷ s) = Shorter-step c s (c == 10) (split_once 10 s) (Shorter-split_once s)

module _ {ℓ} {E : Type 0} {S : Type ℓ} (step : S → Text → Outcome E S) (P : ℕ → Type 0) where
  abbrev RestOf : S × Text → Type 0
  RestOf found = All P found.1

  header_round-Settles :
      (settles : (state : S) (line : Text) → Settles (step state line))
      (next : S → Text → Outcome E (S × Text)) (state : S) (rest : Text) (r : Option (Text × Text))
      → All P rest
      → Parts P r
      → Shorter rest r
      → ((state' : S) (later : Text)
          → All P later
          → length later < length rest
          → Settles (next state' later) × Ensures RestOf (next state' later))
      → Settles (header_round step next state rest r)
        × Ensures RestOf (header_round step next state rest r)
  header_round-Settles settles next state rest none h parts shorter ih = (tt, h)
  header_round-Settles settles next state rest (some ([], later)) h parts shorter ih = (tt, h)
  header_round-Settles settles next state rest (some (c ∷ line, later)) h parts shorter ih = (
    Settles-bind (step state (c ∷ line)) _ (settles state (c ∷ line))
        (λ state' e. (ih state' later parts.1 shorter).0),
    Ensures-bind (λ (state' : S). Unit {0}) RestOf (step state (c ∷ line)) _
        (Ensures-of (λ (state' : S). Unit {0}) (step state (c ∷ line)) (λ state' e. tt))
        (λ state' u. (ih state' later parts.1 shorter).1),
  )

  header_loop-Settles :
      (settles : (state : S) (line : Text) → Settles (step state line)) (fuel : ℕ) (state : S)
      (rest : Text)
      → All P rest
      → length rest < fuel
      → Settles (header_loop step fuel state rest)
        × Ensures RestOf (header_loop step fuel state rest)
  unfolding header_loop
  header_loop-Settles settles zero state rest h enough = absurd (omega arith)
  header_loop-Settles settles (suc fuel) state rest h enough =
      header_round-Settles settles (header_loop step fuel) state rest (split_once 10 rest) h
        (split_once-Parts P 10 rest h) (Shorter-split_once rest)
        (λ state' later h' less. header_loop-Settles settles fuel state' later h' (omega arith))

  -- The header loop ends where the reader of a line settles, and leaves a part of the text.
  pub header_lines-Settles :
      (settles : (state : S) (line : Text) → Settles (step state line)) (state : S) (rest : Text)
      → All P rest
      → Settles (header_lines step state rest)
        × Ensures (λ (found : S × Text). All P found.1) (header_lines step state rest)
  unfolding header_lines
  header_lines-Settles settles state rest h =
      header_loop-Settles settles (suc (length rest)) state rest h (omega arith)

-- What every line keeps holds at the end of the header loop.
module _ {ℓ κ} {E : Type 0} {S : Type ℓ} (step : S → Text → Outcome E S) (Q : S → Type κ) where
  header_round-keeps :
      (keeps : (state : S) (line : Text) → Q state → Ensures Q (step state line))
      (next : S → Text → Outcome E (S × Text)) (state : S) (rest : Text) (r : Option (Text × Text))
      → Q state
      → ((state' : S) (later : Text)
          → Q state'
          → Ensures (λ (found : S × Text). Q found.0) (next state' later))
      → Ensures (λ (found : S × Text). Q found.0) (header_round step next state rest r)
  header_round-keeps keeps next state rest none h ih = h
  header_round-keeps keeps next state rest (some ([], later)) h ih = h
  header_round-keeps keeps next state rest (some (c ∷ line, later)) h ih =
      Ensures-bind Q (λ (found : S × Text). Q found.0) (step state (c ∷ line)) _
        (keeps state (c ∷ line) h) (λ state' k. ih state' later k)

  header_loop-keeps :
      (keeps : (state : S) (line : Text) → Q state → Ensures Q (step state line)) (fuel : ℕ)
      (state : S) (rest : Text)
      → Q state
      → Ensures (λ (found : S × Text). Q found.0) (header_loop step fuel state rest)
  unfolding header_loop
  header_loop-keeps keeps zero state rest h = tt
  header_loop-keeps keeps (suc fuel) state rest h =
      header_round-keeps keeps (header_loop step fuel) state rest (split_once 10 rest) h
        (λ state' later k. header_loop-keeps keeps fuel state' later k)

  pub header_lines-keeps :
      (keeps : (state : S) (line : Text) → Q state → Ensures Q (step state line)) (state : S)
      (rest : Text)
      → Q state
      → Ensures (λ (found : S × Text). Q found.0) (header_lines step state rest)
  unfolding header_lines
  header_lines-keeps keeps state rest h = header_loop-keeps keeps (suc (length rest)) state rest h
