-- ===== src/Kafka/Range/Valid.antt =====
-- What a range and a target that the Kafka parser accepts satisfy.
use onetui.Base.{
  ◌≡◌, ◌≤◌, refl, subst, Bool, true, false, List, [], ◌∷◌, Option, none, some, ℤ, pos, negsuc,
  leb→le, if◌then◌else◌, ◌^◌, Outcome, ok, err, panicked, stuck, ◌>>=◌, ◌>>◌, ensure, ok_or,
  Ensures, Ensures-ok, >>=-eq-ok, ensure-eq-ok, ok-injective, ◌⊎◌, inl, inr,
}
use onetui.Text.{Text, str, text_eq, split_dots, rsplit_once, parse_signed}
use onetui.Kafka.Statement.{Target, Replay, valid_topic}
use onetui.Kafka.Range.{
  StatementError, nonnegative, bound, ordered, replay_of, span_of, range, topic_and_partition,
  target_of,
}

-- A number from 0 on, if there is one.
abbrev pub IsNatural : Option ℤ → Type 0
IsNatural none = Unit
IsNatural (some (pos n)) = Unit
IsNatural (some (negsuc n)) = ⊥

abbrev pub IsOrdered : Option ℤ → Option ℤ → Type 0
IsOrdered (some (pos m)) (some (pos n)) = m ≤ n
IsOrdered start end = Unit

-- The start is an offset or a time, never both; no bound is negative, and the end is not before
-- the start.
abbrev pub IsRange : Replay → Type 0
IsRange r =
    IsNatural (Replay.offset r)
    × IsNatural (Replay.timestamp_ms r)
    × IsNatural (Replay.end_offset r)
    × IsOrdered (Replay.offset r) (Replay.end_offset r)
    × ((Replay.offset r ≡ none) ⊎ (Replay.timestamp_ms r ≡ none))

abbrev pub IsTarget : Target → Type 0
IsTarget t = (valid_topic (Target.topic t) ≡ true) × IsNatural (Target.partition t)

pub nonnegative-IsNatural : (z : ℤ) → nonnegative z ≡ true → IsNatural (some z)
nonnegative-IsNatural (pos n) h = tt
nonnegative-IsNatural (negsuc n) h = cc

kept-IsNatural :
    (run : Outcome StatementError ℤ) (e : StatementError)
    → Ensures IsNatural (run >>= λ value. ensure (nonnegative value) e >> ok (some value))
kept-IsNatural (ok (pos n)) e = tt
kept-IsNatural (ok (negsuc n)) e = tt
kept-IsNatural (err x) e = tt
kept-IsNatural panicked e = tt
kept-IsNatural stuck e = tt

bound-IsNatural : (s : Text) → Ensures IsNatural (bound s)
unfolding bound
bound-IsNatural [] = tt
bound-IsNatural (c ∷ s) = kept-IsNatural (ok_or (parse_signed (2 ^ 63) (c ∷ s)) _) _

ordered-IsOrdered : (start end : Option ℤ) → ordered start end ≡ true → IsOrdered start end
ordered-IsOrdered (some (pos m)) (some (pos n)) h = leb→le m n h
ordered-IsOrdered (some (pos m)) (some (negsuc n)) h = tt
ordered-IsOrdered (some (negsuc m)) end h = tt
ordered-IsOrdered none end h = tt
ordered-IsOrdered (some (pos m)) none h = tt

-- All that holds before the order is checked.
abbrev HasBounds : Replay → Type 0
HasBounds r =
    IsNatural (Replay.offset r)
    × IsNatural (Replay.timestamp_ms r)
    × IsNatural (Replay.end_offset r)
    × ((Replay.offset r ≡ none) ⊎ (Replay.timestamp_ms r ≡ none))

offsets-HasBounds :
    (end : Option ℤ)
    → IsNatural end
    → (run : Outcome StatementError (Option ℤ)) → Ensures IsNatural run
    → Ensures HasBounds
        (run >>= λ offset. ok record { offset = offset; timestamp_ms = none; end_offset = end })
offsets-HasBounds end h (ok offset) k = (k, tt, h, inr refl)
offsets-HasBounds end h (err e) k = tt
offsets-HasBounds end h panicked k = tt
offsets-HasBounds end h stuck k = tt

time-HasBounds :
    (end : Option ℤ)
    → IsNatural end
    → (run : Outcome StatementError (Option ℤ)) → Ensures IsNatural run
    → Ensures HasBounds
        (run >>= λ time. ok record { offset = none; timestamp_ms = time; end_offset = end })
time-HasBounds end h (ok time) k = (tt, k, h, inl refl)
time-HasBounds end h (err e) k = tt
time-HasBounds end h panicked k = tt
time-HasBounds end h stuck k = tt

kind-HasBounds :
    (is_offsets is_time : Bool) (x y : Outcome StatementError Replay) (e : StatementError)
    → Ensures HasBounds x
    → Ensures HasBounds y
    → Ensures HasBounds (if is_offsets then x else if is_time then y else err e)
kind-HasBounds true is_time x y e hx hy = hx
kind-HasBounds false true x y e hx hy = hy
kind-HasBounds false false x y e hx hy = tt

replay_of-HasBounds :
    (kind start : Text) (end : Option ℤ)
    → IsNatural end
    → Ensures HasBounds (replay_of kind start end)
replay_of-HasBounds kind start end h =
    kind-HasBounds (text_eq kind (str "offsets")) (text_eq kind (str "time")) _ _ _
      (offsets-HasBounds end h (bound start) (bound-IsNatural start))
      (time-HasBounds end h (bound start) (bound-IsNatural start))

span_of-IsRange :
    (kind : Text) (span : Text × Text) {r : Replay} → span_of kind span ≡ ok r → IsRange r
span_of-IsRange kind (start, end) e =
    let ended = >>=-eq-ok (bound end) _ e in
    let h = Ensures-ok IsNatural (bound end) (bound-IsNatural end) ended.1 in
    let read = >>=-eq-ok (replay_of kind start ended.0) _ ended.2 in
    let bounds =
      Ensures-ok HasBounds (replay_of kind start ended.0) (replay_of-HasBounds kind start ended.0 h)
        read.1 in
    let last =
      >>=-eq-ok (ensure (ordered (Replay.offset read.0) (Replay.end_offset read.0)) _) _ read.2 in
    subst IsRange (ok-injective last.2) (
      bounds.0,
      bounds.1,
      bounds.2,
      ordered-IsOrdered (Replay.offset read.0) (Replay.end_offset read.0) (ensure-eq-ok _ _ last.1),
      bounds.3,
    )

-- A range that is accepted starts at an offset or at a time and not at both, has no negative
-- bound, and does not end before the offset it starts at.
pub range-IsRange : (words : List Text) {r : Replay} → range words ≡ ok r → IsRange r
unfolding range
range-IsRange [] e = subst IsRange (ok-injective e) (tt, tt, tt, tt, inl refl)
range-IsRange (kind ∷ []) e = cc
range-IsRange (kind ∷ span ∷ []) e =
    let found = >>=-eq-ok (ok_or (split_dots span) _) (span_of kind) e in
    span_of-IsRange kind found.0 found.2
range-IsRange (kind ∷ span ∷ word ∷ words) e = cc

abbrev NamedNatural : Text × Option ℤ → Type 0
NamedNatural named = IsNatural named.1

partition_natural :
    (topic : Text) (run : Outcome StatementError ℤ) (e : StatementError)
    → Ensures NamedNatural
        (run >>= λ partition. ensure (nonnegative partition) e >> ok (topic, some partition))
partition_natural topic (ok (pos n)) e = tt
partition_natural topic (ok (negsuc n)) e = tt
partition_natural topic (err x) e = tt
partition_natural topic panicked e = tt
partition_natural topic stuck e = tt

topic_and_partition-Natural :
    (s : Text) (found : Option (Text × Text)) → Ensures NamedNatural (topic_and_partition s found)
topic_and_partition-Natural s none = tt
topic_and_partition-Natural s (some (topic, digits)) =
    partition_natural topic (ok_or (parse_signed (2 ^ 31) digits) _) _

-- A target that is accepted has a valid topic, and a partition that is not negative if it has one.
pub target_of-IsTarget : (s : Text) {t : Target} → target_of s ≡ ok t → IsTarget t
unfolding target_of
target_of-IsTarget s e =
    let named = >>=-eq-ok (topic_and_partition s (rsplit_once b'/' s)) _ e in
    let h =
      Ensures-ok NamedNatural (topic_and_partition s (rsplit_once b'/' s))
        (topic_and_partition-Natural s (rsplit_once b'/' s)) named.1 in
    let last = >>=-eq-ok (ensure (valid_topic named.0.0) _) _ named.2 in
    subst IsTarget (ok-injective last.2) (ensure-eq-ok (valid_topic named.0.0) _ last.1, h)
