-- ===== src/Avro/Long/Bounds.antt =====
-- What `long` and `bytes` do on any input, well formed or not.
use onetui.Base.{
  ℤ, pos, negsuc, ℕ, zero, suc, ◌+◌, ◌*◌, ◌/◌, ◌%◌, ◌^◌, ◌≤◌, ◌<◌, ◌≡◌, refl, ap, leb, ◌==◌, not,
  ◌||◌, length, ok, err, arith, Bool-cases, inl, inr, Settles, >>=-eq-ok, ok-injective, subst, ◌∙◌,
}
use onetui.Reader.{State, Reads, take, lift}
use onetui.Reader.Laws.{IsSound, IsSound-bind, IsSound-lift, IsSound-take, IsSound-pure}
use onetui.Reader.Safe.{take-eq-ok}
use onetui.Avro.{Error, truncated, long_overflow}
use onetui.Avro.Budget.{Budget, spending}
use onetui.Avro.Long.{first, unzigzag, long_byte, long_loop, long, usize, bytes}
use onetui.Avro.Long.RoundTrip.{IsI64}

unzigzag-Settles : (n : ℕ) → Settles (unzigzag n)
unfolding unzigzag
unzigzag-Settles n = ground arith

long_byte-IsSound :
    (next : ℕ → ℕ → Reads Budget Error ℤ) (shift n byte : ℕ)
    → ((shift' n' : ℕ) → IsSound spending (next shift' n'))
    → IsSound spending (long_byte next shift n byte)
unfolding long_byte
long_byte-IsSound next shift n byte h = elim (Bool-cases (not (shift == 63) || leb byte 1)) [
  | inl fits ↦ rw fits (elim (Bool-cases (byte / 128 % 2 == 0)) [
    | inl last ↦ rw last (IsSound-lift spending _ (unzigzag-Settles (n + byte % 128 * 2 ^ shift)))
    | inr more ↦ rw more (h (shift + 7) (n + byte % 128 * 2 ^ shift))
  ])
  | inr wide ↦ rw wide (IsSound-lift spending (err long_overflow) tt)
]

long_loop-IsSound : (rounds shift n : ℕ) → IsSound spending (long_loop rounds shift n)
unfolding long_loop
long_loop-IsSound zero shift n = IsSound-lift spending (err long_overflow) tt
long_loop-IsSound (suc rounds) shift n =
    IsSound-bind spending (take truncated 1) _ (IsSound-take spending truncated 1) λ part.
      long_byte-IsSound (λ s' n'. long_loop rounds s' n') shift n (first part)
        (λ s' n'. long_loop-IsSound rounds s' n')

pub long-IsSound : IsSound spending long
unfolding long
long-IsSound = long_loop-IsSound 10 0 0

pub usize-Settles : (z : ℤ) → Settles (usize z)
unfolding usize
usize-Settles (pos n) = tt
usize-Settles (negsuc n) = tt

pub bytes-IsSound : IsSound spending bytes
unfolding bytes
bytes-IsSound = IsSound-bind spending long _ long-IsSound λ len.
    IsSound-bind spending (lift (usize len)) _ (IsSound-lift spending _ (usize-Settles len)) λ size.
      IsSound-bind spending (take truncated size) _ (IsSound-take spending truncated size)
        λ part. IsSound-pure spending tt

unzigzag-IsI64 : (n : ℕ) (z : ℤ) → unzigzag n ≡ ok z → IsI64 z
unfolding unzigzag
unzigzag-IsI64 n (pos m) e = ground arith
unzigzag-IsI64 n (negsuc m) e = ground arith

abbrev Took : ℕ → State Budget → ℤ × State Budget → Type 0
Took k s r =
    IsI64 r.0
    × (length r.1.input < suc (length s.input))
    × (length s.input ≤ length r.1.input + k)
    × (r.1.budget ≡ s.budget)

long_byte_takes :
    (k : ℕ) (next : ℕ → ℕ → Reads Budget Error ℤ) (shift n byte : ℕ) (s : State Budget)
    (r : ℤ × State Budget)
    → ((shift' n' : ℕ) → next shift' n' s ≡ ok r → Took k s r)
    → long_byte next shift n byte s ≡ ok r
    → Took k s r
unfolding long_byte
long_byte_takes k next shift n byte s r h e = elim (Bool-cases (not (shift == 63) || leb byte 1)) [
  | inl fits ↦ elim (Bool-cases (byte / 128 % 2 == 0)) [
    | inl last ↦
        let (z, ez, er) =
          >>=-eq-ok (unzigzag (n + byte % 128 * 2 ^ shift)) _ (rw (fits, last) at e) in
        subst (λ (q : ℤ × State Budget). Took k s q) (ok-injective er)
          (unzigzag-IsI64 (n + byte % 128 * 2 ^ shift) z ez, omega arith, omega arith, refl)
    | inr more ↦ h (shift + 7) (n + byte % 128 * 2 ^ shift) (rw (fits, more) at e)
  ]
  | inr wide ↦ let no_value = rw wide at e in cc
]

long_loop_takes :
    (rounds shift n : ℕ) (s : State Budget) (r : ℤ × State Budget)
    → long_loop rounds shift n s ≡ ok r
    → IsI64 r.0
      × (length r.1.input < length s.input)
      × (length s.input ≤ length r.1.input + rounds)
      × (r.1.budget ≡ s.budget)
unfolding long_loop
long_loop_takes zero shift n s r e = cc
long_loop_takes (suc rounds) shift n s r e =
    let (q, eq, er) = >>=-eq-ok (take truncated 1 s) _ e in
    let (one, _, after) = take-eq-ok truncated 1 s eq in
    let same : q.1.budget ≡ s.budget = ap (λ (t : State Budget). t.budget) after in
    let (fits, less, most, kept) =
      long_byte_takes rounds (λ s' n'. long_loop rounds s' n') shift n (first q.0) q.1 r
        (λ s' n' e'.
          let (fits, less, most, kept) = long_loop_takes rounds s' n' q.1 r e' in
          (fits, omega arith, omega arith, kept))
        er in
    (fits, omega arith, omega arith, kept ∙ same)

-- A successful `long` gives a 64-bit integer, takes 1 to 10 bytes, and spends nothing.
pub long_takes :
    (s : State Budget) (r : ℤ × State Budget)
    → long s ≡ ok r
    → IsI64 r.0
      × (length r.1.input < length s.input)
      × (length s.input ≤ length r.1.input + 10)
      × (r.1.budget ≡ s.budget)
unfolding long
long_takes s r e = long_loop_takes 10 0 0 s r e
