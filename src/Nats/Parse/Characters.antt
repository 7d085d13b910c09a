-- ===== src/Nats/Parse/Characters.antt =====
-- The characters of a NATS header that the parser of `crates/nats/src/statement.rs` accepts.
use onetui.Base.{
  ◌≡◌, refl, Bool, true, false, List, [], ◌∷◌, ◌++◌, All, ℕ, ◌≤◌, ◌==◌, ◌&&◌, ◌||◌, not, leb, all,
  any, length, and_true, or_false, not-true, arith,
}
use onetui.Text.{utf8, as_bytes, Text, str, text_eq, is_empty, to_ascii_lowercase}
use onetui.Nats.Parse.{name_ok, value_ok}

-- A character of a header's name: graphic ASCII other than a colon.
abbrev pub IsNameChar : ℕ → Type 0
IsNameChar c = (33 ≤ c) × (c ≤ 126) × (c ≡ b':' → ⊥)

-- A character of a header's value: no ASCII control character.
abbrev pub IsValueChar : ℕ → Type 0
IsValueChar c = (32 ≤ c) × (c ≡ 127 → ⊥)

-- A header that is sent, which is not the line that names the encoding.
abbrev pub IsHeader : Text × Text → Type 0
IsHeader (name, value) =
    (1 ≤ length name)
    × All IsNameChar name
    × All IsValueChar value
    × (to_ascii_lowercase name ≡ str "onetui-encoding" → ⊥)

name_char :
    (c : ℕ) → all (λ b. leb 33 b && leb b 126 && not (b == b':')) (utf8 c) ≡ true → IsNameChar c
name_char c h = ground arith

value_char : (c : ℕ) → any (λ b. leb b 31 || b == 127) (utf8 c) ≡ false → IsValueChar c
value_char c h = ground arith

all-append :
    (p : ℕ → Bool) (a b : List ℕ) → all p (a ++ b) ≡ true → (all p a ≡ true) × (all p b ≡ true)
all-append p [] b h = (refl, h)
all-append p (x ∷ a) b h =
    let (here, later) = and_true (p x) (all p (a ++ b)) h in
    let (front, back) = all-append p a b later in (rw (here, front) refl, back)

any-append :
    (p : ℕ → Bool) (a b : List ℕ) → any p (a ++ b) ≡ false → (any p a ≡ false) × (any p b ≡ false)
any-append p [] b h = (refl, h)
any-append p (x ∷ a) b h =
    let (here, later) = or_false (p x) (any p (a ++ b)) h in
    let (front, back) = any-append p a b later in (rw (here, front) refl, back)

name_chars :
    (name : Text)
    → all (λ b. leb 33 b && leb b 126 && not (b == b':')) (as_bytes name) ≡ true
    → All IsNameChar name
unfolding as_bytes
name_chars [] h = tt
name_chars (c ∷ name) h =
    let (here, later) = all-append _ (utf8 c) (as_bytes name) h in
    (name_char c here, name_chars name later)

value_chars :
    (value : Text)
    → any (λ b. leb b 31 || b == 127) (as_bytes value) ≡ false
    → All IsValueChar value
unfolding as_bytes
value_chars [] h = tt
value_chars (c ∷ value) h =
    let (here, later) = any-append _ (utf8 c) (as_bytes value) h in
    (value_char c here, value_chars value later)

some_char : (name : Text) → is_empty name ≡ false → 1 ≤ length name
some_char [] h = cc
some_char (c ∷ name) h = omega arith

not_encoding :
    (name : Text)
    → text_eq (to_ascii_lowercase name) (str "onetui-encoding") ≡ false
    → to_ascii_lowercase name ≡ str "onetui-encoding"
    → ⊥
unfolding text_eq
not_encoding name h e = let same = rw e at h in cc

pub checked-IsHeader :
    (name value : Text)
    → name_ok name ≡ true
    → value_ok value ≡ true
    → text_eq (to_ascii_lowercase name) (str "onetui-encoding") ≡ false
    → IsHeader (name, value)
unfolding name_ok value_ok
checked-IsHeader name value a b c =
    let (filled, graphic) = and_true (not (is_empty name)) _ a in
    (
      some_char name (not-true (is_empty name) filled),
      name_chars name graphic,
      value_chars value (not-true _ b),
      not_encoding name c,
    )
