-- ===== src/Text/Headers.antt =====
-- The loop over header lines that the RabbitMQ and NATS editors share, and the body after it.
pub mod Loop
use onetui.Base.{
  ℕ, zero, suc, Option, none, some, length, Outcome, ok, stuck, ◌>>=◌, ok_or, [], ◌∷◌,
}
use onetui.Text.{Text, split_once, strip_char}

-- One round of `while let Some((line, rest)) = remainder.split_once('\n') && !line.is_empty()`.
module _ {ℓ} {E : Type 0} {S : Type ℓ} where
  abbrev pub header_round :
      (S → Text → Outcome E S)
      → (S → Text → Outcome E (S × Text))
      → S
      → Text
      → Option (Text × Text)
      → Outcome E (S × Text)
  header_round step next state rest none = ok (state, rest)
  header_round step next state rest (some ([], later)) = ok (state, rest)
  header_round step next state rest (some (c ∷ line, later)) =
      step state (c ∷ line) >>= λ state'. next state' later

  unfoldable pub header_loop : (S → Text → Outcome E S) → ℕ → S → Text → Outcome E (S × Text)
  header_loop step zero state rest = stuck
  header_loop step (suc fuel) state rest =
      header_round step (header_loop step fuel) state rest (split_once 10 rest)

  -- The header lines of a text: a round takes at least a line break from it.
  unfoldable pub header_lines : (S → Text → Outcome E S) → S → Text → Outcome E (S × Text)
  unfolding header_loop
  header_lines step state rest = header_loop step (suc (length rest)) state rest

-- `fn body`: what follows the blank line, taken literally.
abbrev pub body : {E : Type 0} → E → Text → Outcome E Text
body missing [] = ok []
body missing (c ∷ rest) = ok_or (strip_char 10 (c ∷ rest)) missing
