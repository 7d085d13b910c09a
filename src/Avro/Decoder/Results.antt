-- ===== src/Avro/Decoder/Results.antt =====
-- What a decoded payload was read from, and the bound on the text of an error.
use onetui.Base
use onetui.Base.{
  ℕ, zero, suc, ◌+◌, ◌-◌, ◌≤◌, ◌<◌, ◌≡◌, refl, ◌⊎◌, inl, inr, Bool, true, false, List, [], ◌∷◌,
  ◌++◌, Option, none, some, length, get_elem?, leb, ltb, leb→le, Outcome, ok, err, ensure, arith,
  Bool-cases, >>=-eq-ok, ok-injective, ap, ◌∙◌, length-append, length-take_le, sym, ensure-eq-ok,
}
use onetui.Avro.{trailing_bytes, max_error_bytes}
use onetui.Avro.Budget.{Budget, fresh}
use onetui.Avro.Schema.{Schema, Names, Text}
use onetui.Avro.Scan.{scan}
use onetui.Avro.Decoder.{
  Library, is_empty, continues, floor_char_boundary, bound_error, dots, decode,
}
use onetui.Avro.Scan.Accounts.{scan-append}

is_empty→nil {ℓ} : {A : Type ℓ} (xs : List A) → is_empty xs ≡ true → xs ≡ []
is_empty→nil [] h = refl
is_empty→nil (x ∷ xs) h = cc

floor_char_boundary-le : (text : Text) (i : ℕ) → floor_char_boundary text i ≤ i
unfolding floor_char_boundary
floor_char_boundary-le text zero = omega arith
floor_char_boundary-le text (suc i) = ground (arith, floor_char_boundary-le text i)

get_elem?-none : (text : Text) (i : ℕ) → length text ≤ i → get_elem? text i ≡ none
get_elem?-none [] i h = refl
get_elem?-none (x ∷ xs) zero h = elim h [ ]
get_elem?-none (x ∷ xs) (suc i) h = get_elem?-none xs i (omega arith)

-- The cut never falls inside a character.
floor_char_boundary-starts :
    (text : Text) (i : ℕ)
    → (floor_char_boundary text i ≡ 0)
      ⊎ (continues (get_elem? text (floor_char_boundary text i)) ≡ false)
unfolding floor_char_boundary
floor_char_boundary-starts text zero = inl refl
floor_char_boundary-starts text (suc i) = elim (Bool-cases (leb (length text) (suc i))) [
  | inl past ↦ rw past (inr (rw (get_elem?-none text (length text) (omega arith))))
  | inr inside ↦ elim (Bool-cases (continues (get_elem? text (suc i)))) [
    | inl middle ↦ rw (inside, middle) (floor_char_boundary-starts text i)
    | inr start ↦ rw (inside, start) (inr start)
  ]
]

-- A resolution error that fits 512 bytes is kept. A longer one becomes a prefix, cut between
-- characters, and three dots, and fits.
pub bound_error_fits :
    (text : Text)
    → (length (bound_error text) ≤ max_error_bytes)
      × ((length text ≤ max_error_bytes → bound_error text ≡ text))
      × (max_error_bytes < length text
          → (n : ℕ) × (bound_error text ≡ Base.take n text ++ dots)
            × ((n ≡ 0) ⊎ (continues (get_elem? text n) ≡ false)))
unfolding bound_error
bound_error_fits text = elim (Bool-cases (ltb max_error_bytes (length text))) [
  | inl long ↦ rw long (
    omega (
      arith,
      length-append (Base.take (floor_char_boundary text 509) text) dots,
      length-take_le (floor_char_boundary text 509) text,
      floor_char_boundary-le text 509,
    ),
    (λ h. absurd (ground arith)),
    (λ h. (floor_char_boundary text 509, refl, floor_char_boundary-starts text 509)),
  )
  | inr short ↦ rw short (ground arith, (λ h. refl), (λ h. absurd (ground arith)))
]

module _ (lib : Library) where
  open lib use {Value, names_of, read_value}

  -- A decoded value is what the native reader gives for the whole payload, after the scan took the
  -- whole payload too.
  decode-eq-ok :
      (schema : Schema) (references : List Schema) (bytes : List ℕ) (value : Value)
      → decode lib schema references bytes ≡ ok value
      → (names : Names) × (b : Budget) × (names_of references schema ≡ ok names)
        × (scan names 34 schema none 0 (record { input = bytes; budget = fresh })
            ≡ ok (tt, record { input = []; budget = b }))
        × (read_value references schema bytes ≡ ok (value, []))
  unfolding decode
  decode-eq-ok schema references bytes value e =
      let (names, en, e1) = >>=-eq-ok (names_of references schema) _ e in
      let (scanned, es, e2) =
        >>=-eq-ok (scan names 34 schema none 0 (record { input = bytes; budget = fresh })) _ e1 in
      let (_, ee, e3) = >>=-eq-ok (ensure (is_empty (scanned.1).input) trailing_bytes) _ e2 in
      let (read, er, e4) = >>=-eq-ok (read_value references schema bytes) _ e3 in
      let (_, ef, e5) = >>=-eq-ok (ensure (is_empty read.1) trailing_bytes) _ e4 in
      let whole = is_empty→nil (scanned.1).input (ensure-eq-ok _ _ ee) in
      let read_all = is_empty→nil read.1 (ensure-eq-ok _ _ ef) in
      (
        names,
        (scanned.1).budget,
        en,
        es ∙ ap (λ (i : List ℕ). ok (tt, record { input = i; budget = (scanned.1).budget })) whole,
        er
            ∙ ap (λ (i : List ℕ). ok (read.0, i)) read_all
            ∙ ap (λ (v : Value). ok (v, [])) (ok-injective e5),
      )

  -- A payload that decodes does not decode with anything behind it: that is refused as trailing
  -- bytes.
  pub decode-extended :
      (schema : Schema) (references : List Schema) (bytes : List ℕ) (value : Value) (x : ℕ)
      (extra : List ℕ)
      → decode lib schema references bytes ≡ ok value
      → decode lib schema references (bytes ++ x ∷ extra) ≡ err trailing_bytes
  unfolding decode
  decode-extended schema references bytes value x extra e =
      let (names, b, en, es, er) = decode-eq-ok schema references bytes value e in
      let longer =
        scan-append names schema none (record { input = bytes; budget = fresh })
          (tt, record { input = []; budget = b }) (x ∷ extra) es in
      rw (en, longer) refl
