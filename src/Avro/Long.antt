-- ===== src/Avro/Long.antt =====
-- `long` and `bytes` of crates/avro/src/avro.rs: Avro's zigzag integers in groups of seven bits.
pub mod RoundTrip
pub mod Bounds
use onetui.Base.{
  ℕ, zero, suc, ◌+◌, ◌*◌, ◌/◌, ◌%◌, ◌^◌, Bool, true, false, ◌||◌, not, List, [], ◌∷◌, ltb, leb,
  ◌==◌, if◌then◌else◌, Outcome, ok, err, ℤ, pos, negsuc,
}
use onetui.Reader.{Reads, ◌>>=◌, ◌>>◌, lift, pure, take}
use onetui.Avro.{Error, truncated, long_overflow, out_of_range}
use onetui.Avro.Budget.{Budget}

-- `[0]` of a part of one byte.
abbrev pub first : List ℕ → ℕ
first [] = 0
first (b ∷ bs) = b

-- `i64::try_from(n >> 1)? ^ -i64::from(n & 1 == 1)`: the exclusive or with -1 is the complement.
unfoldable pub unzigzag : ℕ → Outcome Error ℤ
unzigzag n =
    if ltb (n / 2) (2 ^ 63)
    then ok (if n % 2 == 1 then negsuc (n / 2) else pos (n / 2))
    else err out_of_range

-- One round of the loop. The group's bits lie above those of `n`, so `|=` adds them.
unfoldable pub long_byte : (ℕ → ℕ → Reads Budget Error ℤ) → ℕ → ℕ → ℕ → Reads Budget Error ℤ
long_byte next shift n byte =
    let n' = n + byte % 128 * 2 ^ shift in
    if not (shift == 63) || leb byte 1
    then (if byte / 128 % 2 == 0 then lift (unzigzag n') else next (shift + 7) n')
    else lift (err long_overflow)

-- The rounds that are left, the shift of the next, and the bits read so far.
unfoldable pub long_loop : ℕ → ℕ → ℕ → Reads Budget Error ℤ
unfolding long_byte unzigzag take
long_loop zero shift n = lift (err long_overflow)
long_loop (suc rounds) shift n = take truncated 1 >>= λ part.
    long_byte (λ shift' n'. long_loop rounds shift' n') shift n (first part)

-- The shifts are 0, 7, up to 63.
unfoldable pub long : Reads Budget Error ℤ
unfolding long_loop
long = long_loop 10 0 0

-- `usize::try_from` of an `i64`.
unfoldable pub usize : ℤ → Outcome Error ℕ
usize (pos n) = ok n
usize (negsuc n) = err out_of_range

unfoldable pub bytes : Reads Budget Error (Unit {0})
unfolding long usize
bytes = do len ← long; size ← lift (usize len); part ← take truncated size; pure tt
