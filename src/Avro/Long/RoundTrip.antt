-- ===== src/Avro/Long/RoundTrip.antt =====
-- Avro's encoding of a long in plain arithmetic, next to `long`.
use native.Mathlib.Nat.{div-add-mod}
use native.Mathlib.Numerals.{towards_suc}
use onetui.Base.{
  ℤ, pos, negsuc, ℕ, zero, suc, ◌+◌, ◌*◌, ◌/◌, ◌%◌, ◌^◌, ◌≤◌, ◌<◌, ◌≡◌, ap, List, [], ◌∷◌, ◌++◌,
  ltb, if◌then◌else◌, ok, arith, Bool-cases, inl, inr, ◌∙◌,
}
use onetui.Reader.{State, Reads, take}
use onetui.Avro.{Error, truncated}
use onetui.Avro.Budget.{Budget}
use onetui.Avro.Long.{unzigzag, long_byte, long_loop, long}

-- The zigzag order: 0, -1, 1, -2 and so on.
unfoldable pub zigzag : ℤ → ℕ
zigzag (pos n) = 2 * n
zigzag (negsuc n) = 2 * n + 1

abbrev pub IsI64 : ℤ → Type 0
IsI64 (pos n) = n < 2 ^ 63
IsI64 (negsuc n) = n < 2 ^ 63

-- At most `k + 1` groups of seven bits, the lowest first, each but the last marked by the top bit.
unfoldable pub groups : ℕ → ℕ → List ℕ
groups zero v = v ∷ []
groups (suc k) v =
    let rest = groups k (v / 128) in if ltb v 128 then v ∷ [] else (v % 128 + 128) ∷ rest

abbrev pub encode : ℤ → List ℕ
encode z = groups 9 (zigzag z)

abbrev at : List ℕ → Budget → State Budget
at input budget = record { input = input; budget = budget }

take_one :
    (x : ℕ) (xs : List ℕ) (b : Budget) → take truncated 1 (at (x ∷ xs) b) ≡ ok (x ∷ [], at xs b)
unfolding take
take_one x xs b = ground arith

unzigzag-zigzag : (z : ℤ) → IsI64 z → unzigzag (zigzag z) ≡ ok z
unfolding unzigzag zigzag
unzigzag-zigzag (pos n) h = ground arith
unzigzag-zigzag (negsuc n) h = ground arith

zigzag-lt : (z : ℤ) → IsI64 z → zigzag z < 2 ^ 64
unfolding zigzag
zigzag-lt (pos n) h = omega arith
zigzag-lt (negsuc n) h = omega arith

-- At the last shift only one bit is left.
top_group : (shift n v : ℕ) → shift ≡ 63 → n + v * 2 ^ shift < 2 ^ 64 → v ≤ 1
top_group shift n v e h = let h' : n + v * 2 ^ 63 < 2 ^ 64 = rw e at h in omega arith

byte_last :
    (next : ℕ → ℕ → Reads Budget Error ℤ) (shift n v : ℕ) (s : State Budget) (z : ℤ)
    → v < 128
    → (shift ≡ 63 → v ≤ 1)
    → unzigzag (n + v * 2 ^ shift) ≡ ok z
    → long_byte next shift n v s ≡ ok (z, s)
unfolding long_byte
byte_last next shift n v s z hv top e =
    let low : v % 128 ≡ v = omega arith in
    let unmarked : v / 128 % 2 ≡ 0 = omega arith in rw (low, unmarked, e) (ground arith)

byte_more :
    (next : ℕ → ℕ → Reads Budget Error ℤ) (shift n g : ℕ) (s : State Budget)
    → g < 128
    → shift < 63
    → long_byte next shift n (g + 128) s ≡ next (shift + 7) (n + g * 2 ^ shift) s
unfolding long_byte
byte_more next shift n g s hg hs =
    let low : (g + 128) % 128 ≡ g = omega arith in
    let marked : (g + 128) / 128 % 2 ≡ 1 = omega arith in rw (low, marked) (ground arith)

split_group : (v s : ℕ) → v * 2 ^ s ≡ v % 128 * 2 ^ s + v / 128 * 2 ^ (s + 7)
split_group v s =
    let seven : 2 ^ (s + 7) ≡ 128 * 2 ^ s = simp towards_suc (omega arith) in
    omega (arith, ap (λ (t : ℕ). t * 2 ^ s) (div-add-mod v 128), ap (λ (t : ℕ). v / 128 * t) seven)

-- After `j` rounds, `v` is what is still to be read.
long_loop-groups :
    (k rounds j shift n v : ℕ) (rest : List ℕ) (b : Budget) (z : ℤ)
    → k < rounds
    → rounds + j ≡ 10
    → shift ≡ 7 * j
    → v < 128 ^ suc k
    → n + v * 2 ^ shift < 2 ^ 64
    → unzigzag (n + v * 2 ^ shift) ≡ ok z
    → long_loop rounds shift n (at (groups k v ++ rest) b) ≡ ok (z, at rest b)
unfolding long_loop groups
long_loop-groups k zero j shift n v rest b z hk hr hs hv fits e = absurd (omega arith)
long_loop-groups zero (suc rounds) j shift n v rest b z hk hr hs hv fits e =
    rw (take_one v rest b) (
      byte_last (λ s' n'. long_loop rounds s' n') shift n v (at rest b) z (omega arith)
        (λ e. top_group shift n v e fits) e)
long_loop-groups (suc k) (suc rounds) j shift n v rest b z hk hr hs hv fits e =
    elim (Bool-cases (ltb v 128)) [
      | inl small ↦ rw small (
          rw (take_one v rest b) (
            byte_last (λ s' n'. long_loop rounds s' n') shift n v (at rest b) z (ground arith)
              (λ e. top_group shift n v e fits) e))
      | inr large ↦
          let whole = split_group v shift in
          let e' : n + v * 2 ^ shift ≡ n + v % 128 * 2 ^ shift + v / 128 * 2 ^ (shift + 7) =
            omega arith in
          rw large (
            rw (take_one (v % 128 + 128) (groups k (v / 128) ++ rest) b) (
              byte_more (λ s' n'. long_loop rounds s' n') shift n (v % 128)
                (at (groups k (v / 128) ++ rest) b) (omega arith) (omega arith)
              ∙ long_loop-groups k rounds (suc j) (shift + 7) (n + v % 128 * 2 ^ shift) (v / 128)
                  rest b z (omega arith) (omega arith) (omega arith) (omega arith) (omega arith)
                  (rw (← e') e)))
    ]

-- `long` reads back every 64-bit integer that Avro encodes, and leaves what follows it.
pub long-encode :
    (z : ℤ) (rest : List ℕ) (b : Budget)
    → IsI64 z
    → long (record { input = encode z ++ rest; budget = b })
      ≡ ok (z, record { input = rest; budget = b })
unfolding long
long-encode z rest b h =
    let fits = zigzag-lt z h in
    let whole : 0 + zigzag z * 2 ^ 0 ≡ zigzag z = omega arith in
    long_loop-groups 9 10 0 0 0 (zigzag z) rest b z (omega arith) (omega arith) (omega arith)
      (omega arith) (omega arith) (rw whole (unzigzag-zigzag z h))
