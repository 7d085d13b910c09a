-- ===== src/Kafka/Parse/Valid.antt =====
-- What a Kafka statement that the parser accepts satisfies.
use onetui.Base.{
  ℕ, ◌≡◌, ◌≤◌, ◌<◌, refl, ap, subst, Bool, true, false, ◌||◌, ◌&&◌, Ensures-of, not, List, [], ◌∷◌,
  Option, none, some, ℤ, leb, leb→le, ◌==◌, All, length, arith, if◌then◌else◌, Outcome, ok, err,
  panicked, stuck, ◌>>=◌, ensure, ok_or, Ensures, Ensures-ok, >>=-eq-ok, ensure-eq-ok, not-true,
  ok-injective,
}
use onetui.Text.{Text, is_empty, trim, first_line, lines}
use onetui.Text.Headers.{body}
use onetui.Text.Words.{split_whitespace}
use onetui.Text.Payload.{PayloadError}
use onetui.Kafka.Statement.{
  Record, Payload, absent, null, text, Target, Statement, replay, produce, key_bytes, value_bytes,
}
use onetui.Kafka.Range.{StatementError, range, target_of}
use onetui.Kafka.Range.Valid.{
  IsNatural, IsRange, IsTarget, nonnegative-IsNatural, range-IsRange, target_of-IsTarget,
}
use onetui.Kafka.Parse.{
  Crates, from_payload, given, is_absent, is_null, partition_ok, has_content, is_keyed,
  check_record, records_of, nothing_left, parse_produce, parse_consume, parse_verb, parse_words,
  parse, Verb, consumes, produces, unknown, verb_of,
}

-- A record that can be sent: without a key it has a text value, its key and value decode, and its
-- partition is not negative.
abbrev pub IsSendable : Crates → Record → Type 0
IsSendable crates r =
    (Record.key r ≡ none → (s : Text) × (Record.value r ≡ text s))
    × ((key : Option (List ℕ)) × (key_bytes (Crates.base64_decode crates) r ≡ ok key))
    × ((value : Option (List ℕ)) × (value_bytes (Crates.base64_decode crates) r ≡ ok value))
    × IsNatural (Record.partition r)

abbrev pub IsValid : Crates → Statement → Type 0
IsValid crates (replay target read) =
    IsTarget target × IsRange read × (given (Target.partition target) ≡ true)
IsValid crates (produce target records) =
    IsTarget target
    × (0 < length records)
    × (length records ≤ 100)
    × All (IsSendable crates) records

value_of_keyless :
    (key : Option Text) (value : Payload)
    → (given key || not (is_absent value)) ≡ true
    → not (not (given key) && is_null value) ≡ true
    → key ≡ none
    → (s : Text) × (value ≡ text s)
value_of_keyless (some k) value h h' e = cc
value_of_keyless none absent h h' e = cc
value_of_keyless none null h h' e = cc
value_of_keyless none (text s) h h' e = (s, refl)

partition_ok-IsNatural : (p : Option ℤ) → partition_ok p ≡ true → IsNatural p
partition_ok-IsNatural none h = tt
partition_ok-IsNatural (some z) h = nonnegative-IsNatural z h

from_payload-ok :
    {A : Type 0} (m : Outcome PayloadError A) {a : A} → from_payload m ≡ ok a → m ≡ ok a
from_payload-ok (ok b) e = ap ok (ok-injective e)
from_payload-ok (err x) e = cc
from_payload-ok panicked e = cc
from_payload-ok stuck e = cc

module _ (crates : Crates) where
  check_record-IsSendable :
      (r : Record) {r' : Record} → check_record crates r ≡ ok r' → IsSendable crates r'
  unfolding check_record
  check_record-IsSendable r e =
      let a = >>=-eq-ok (ensure (has_content r) _) _ e in
      let b = >>=-eq-ok (ensure (is_keyed r) _) _ a.2 in
      let key = >>=-eq-ok (from_payload (key_bytes (Crates.base64_decode crates) r)) _ b.2 in
      let value = >>=-eq-ok (from_payload (value_bytes (Crates.base64_decode crates) r)) _ key.2 in
      let last = >>=-eq-ok (ensure (partition_ok (Record.partition r)) _) _ value.2 in
      subst (IsSendable crates) (ok-injective last.2) (
        value_of_keyless (Record.key r) (Record.value r) (ensure-eq-ok _ _ a.1)
            (ensure-eq-ok _ _ b.1),
        (key.0, from_payload-ok _ key.1),
        (value.0, from_payload-ok _ value.1),
        partition_ok-IsNatural (Record.partition r) (ensure-eq-ok _ _ last.1),
      )

  read_record :
      (line : Text) (later : Outcome StatementError (List Record)) {rs : List Record}
      (e' : StatementError)
      → Ensures (All (IsSendable crates)) later
      → (ok_or (Crates.from_str crates line) e' >>= λ r.
          check_record crates r >>= λ checked. later >>= λ records. ok (checked ∷ records))
        ≡ ok rs
      → All (IsSendable crates) rs
  read_record line later e' h e =
      let r = >>=-eq-ok (ok_or (Crates.from_str crates line) e') _ e in
      let checked = >>=-eq-ok (check_record crates r.0) _ r.2 in
      let others = >>=-eq-ok later _ checked.2 in
      subst (All (IsSendable crates)) (ok-injective others.2) (
        check_record-IsSendable r.0 checked.1,
        Ensures-ok (All (IsSendable crates)) later h others.1,
      )

  line_step :
      (blank : Bool) (x y : Outcome StatementError (List Record))
      → Ensures (All (IsSendable crates)) x
      → Ensures (All (IsSendable crates)) y
      → Ensures (All (IsSendable crates)) (if blank then x else y)
  line_step true x y hx hy = hx
  line_step false x y hx hy = hy

  records_of-IsSendable :
      (ls : List Text) → Ensures (All (IsSendable crates)) (records_of crates ls)
  unfolding records_of
  records_of-IsSendable [] = tt
  records_of-IsSendable (line ∷ rest) =
      let later = records_of-IsSendable rest in
      line_step (is_empty (trim line)) (records_of crates rest) _ later (
        Ensures-of (All (IsSendable crates)) _
          (λ rs e. read_record line (records_of crates rest) _ later e))

  parse_produce-IsValid :
      (target : Target) (words : List Text) (s : Text) {statement : Statement}
      → IsTarget target
      → parse_produce crates target words s ≡ ok statement
      → IsValid crates statement
  unfolding parse_produce
  parse_produce-IsValid target words s h e =
      let a = >>=-eq-ok (ensure (nothing_left words) _) _ e in
      let rs = >>=-eq-ok (records_of crates (lines s)) _ a.2 in
      let b = >>=-eq-ok (ensure (not (length rs.0 == 0)) _) _ rs.2 in
      let c = >>=-eq-ok (ensure (leb (length rs.0) 100) _) _ b.2 in
      let filled : (length rs.0 == 0) ≡ false =
        not-true (length rs.0 == 0) (ensure-eq-ok _ _ b.1) in
      subst (IsValid crates) (ok-injective c.2) (
        h,
        ground arith,
        leb→le (length rs.0) 100 (ensure-eq-ok _ _ c.1),
        Ensures-ok (All (IsSendable crates)) (records_of crates (lines s))
            (records_of-IsSendable (lines s)) rs.1,
      )

  parse_consume-IsValid :
      (target : Target) (words : List Text) (s : Text) {statement : Statement}
      → IsTarget target
      → parse_consume target words s ≡ ok statement
      → IsValid crates statement
  unfolding parse_consume
  parse_consume-IsValid target words s h e =
      let read = >>=-eq-ok (range words) _ e in
      let a = >>=-eq-ok (ensure (is_empty (trim s)) _) _ read.2 in
      let b = >>=-eq-ok (ensure (given (Target.partition target)) _) _ a.2 in
      subst (IsValid crates) (ok-injective b.2)
        (h, range-IsRange words read.1, ensure-eq-ok _ _ b.1)

  parse_verb-IsValid :
      (verb : Verb) (target : Target) (words : List Text) (s : Text) {statement : Statement}
      → IsTarget target
      → parse_verb crates verb target words s ≡ ok statement
      → IsValid crates statement
  parse_verb-IsValid consumes target words s h e = parse_consume-IsValid target words s h e
  parse_verb-IsValid produces target words s h e = parse_produce-IsValid target words s h e
  parse_verb-IsValid unknown target words s h e = cc

  parse_words-IsValid :
      (words : List Text) (rest : Text) {statement : Statement}
      → parse_words crates words rest ≡ ok statement
      → IsValid crates statement
  unfolding parse_words
  parse_words-IsValid [] rest e = cc
  parse_words-IsValid (verb ∷ []) rest e = cc
  parse_words-IsValid (verb ∷ topic ∷ words) rest e =
      let target = >>=-eq-ok (target_of topic) _ e in
      let read = >>=-eq-ok (body _ rest) _ target.2 in
      parse_verb-IsValid (verb_of verb) target.0 words read.0 (target_of-IsTarget topic target.1)
        read.2

-- A statement that is accepted has a valid topic. CONSUME names a partition, and its range is
-- ordered and not negative. PRODUCE has 1 to 100 records; each of them has decodable contents, a
-- text value where it has no key, and no negative partition.
pub parse-IsStatement :
    (crates : Crates) (s : Text) {statement : Statement}
    → parse crates s ≡ ok statement
    → IsValid crates statement
unfolding parse
parse-IsStatement crates s e =
    parse_words-IsValid crates (split_whitespace (first_line s).0) (first_line s).1 e
