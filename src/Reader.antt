-- ===== src/Reader.antt =====
-- Reading bytes under a budget: the shape of the structural scans in crates/avro/src/avro.rs and
-- crates/protobuf/src/protobuf.rs, which share a `&mut &[u8]` and a `&mut Budget`.
-- A step takes both and returns what is left of them with its value.
pub mod Safe
pub mod Laws
pub mod Loop
use onetui.Base.{
  ℕ, zero, suc, Bool, true, false, Option, none, some, List, [], ◌∷◌, leb, length, ◌-◌, Outcome, ok,
  err, stuck, if◌then◌else◌,
}
use onetui.Base

pub record State (B : Type 0) : Type 0 where
  pub input : List ℕ
  pub budget : B

abbrev pub Reads : Type 0 → Type 0 → Type 0 → Type 0
Reads B E A = State B → Outcome E (A × State B)

module _ {B E : Type 0} where
  abbrev pub pure : {A : Type 0} → A → Reads B E A
  pure a s = ok (a, s)

  infixl 5 ◌>>=◌ ◌>>◌
  abbrev pub ◌>>=◌ : {A C : Type 0} → Reads B E A → (A → Reads B E C) → Reads B E C
  ◌>>=◌ m f s = Base.◌>>=◌ (m s) (λ r. f r.0 r.1)

  abbrev pub ◌>>◌ : {C : Type 0} → Reads B E (Unit {0}) → Reads B E C → Reads B E C
  m >> k = m >>= λ _. k

  -- A fallible computation that touches neither the input nor the budget.
  abbrev pub lift : {A : Type 0} → Outcome E A → Reads B E A
  lift m s = Base.◌>>=◌ m (λ a. ok (a, s))

  -- A method of the budget.
  abbrev pub charge : (B → Outcome E B) → Reads B E (Unit {0})
  charge f s = Base.◌>>=◌ (f s.budget) (λ b. ok (tt, record { input = s.input; budget = b }))

  -- A step with the number of bytes that it took: `input.len()` before it, less that after it.
  abbrev pub counting : {A : Type 0} → Reads B E A → Reads B E (A × ℕ)
  counting m s = Base.◌>>=◌ (m s) (λ r. ok ((r.0, length s.input - length r.1.input), r.1))

  -- The scan of a part that was split off: the outer input stays where it is.
  abbrev pub within : {A : Type 0} → List ℕ → Reads B E A → Reads B E A
  within body m s =
      Base.◌>>=◌ (m (record { input = body; budget = s.budget }))
        (λ r. ok (r.0, record { input = s.input; budget = r.1.budget }))

  -- `take(input, len)`: the next `len` bytes, or the error of a truncated input.
  unfoldable pub take : E → ℕ → Reads B E (List ℕ)
  take truncated len s =
      if leb len (length s.input)
      then ok (Base.take len s.input, record { input = Base.drop len s.input; budget = s.budget })
      else err truncated

  -- A round's answer: `none` goes round again, `some` leaves the loop with its value.
  abbrev pub after : {A : Type 0} → Reads B E A → Option A × State B → Outcome E (A × State B)
  after next (none, s) = next s
  after next (some a, s) = ok (a, s)

  -- Each round that goes on takes a byte at least, so `until_done` hands out enough fuel.
  unfoldable pub repeat : {A : Type 0} → ℕ → Reads B E (Option A) → Reads B E A
  repeat zero body s = stuck
  repeat (suc f) body s = Base.◌>>=◌ (body s) (after (λ s'. repeat f body s'))

  unfoldable pub until_done : {A : Type 0} → Reads B E (Option A) → Reads B E A
  unfolding repeat
  until_done body s = repeat (suc (length s.input)) body s

  -- A branch on `input.is_empty()`.
  abbrev pub when_empty : {A : Type 0} → Reads B E A → Reads B E A → Reads B E A
  when_empty x y s = elim s.input [ [] ↦ x s | b ∷ bs ↦ y s ]

  -- A decoder of another library, which takes a front of the input or fails.
  abbrev pub resume : {A : Type 0} → E → B → Option (A × List ℕ) → Outcome E (A × State B)
  resume failed b none = err failed
  resume failed b (some r) = ok (r.0, record { input = r.1; budget = b })

  abbrev pub foreign : {A : Type 0} → (List ℕ → Option (A × List ℕ)) → E → Reads B E A
  foreign decode failed s = resume failed s.budget (decode s.input)
