-- ===== src/Nats/Replay/Valid.antt =====
-- What a NATS replay that the parser accepts satisfies.
use onetui.Base.{
  ℕ, ◌≡◌, ◌≤◌, ◌<◌, refl, ap, Bool, true, false, ◌&&◌, ◌||◌, not, List, [], ◌∷◌, Option, none, some,
  All, any, any-none, and_true, or_false, not-true, ltb→lt, leb, leb→le, Outcome, ok, err, ◌>>=◌,
  ◌>>◌, ensure, ok_or, >>=-eq-ok, ensure-eq-ok, ok-injective, ◌∙◌, panicked, stuck, Ensures,
  Ensures-ok, sym, subst, if◌then◌else◌, ◌⊎◌, inl, inr,
}
use onetui.Text.{
  Text, str, text_eq, text_eq→eq, is_empty, byte_len, is_whitespace, is_control, split_dots,
}
use onetui.Nats.Replay.{
  Replay, StatementError, tokens, token_ok, tokens_ok, subject_ok, is_last, is_wild,
  validate_subject, positive, exceeds, or_zero, checked, range_of, replay_of, span_of, sequence,
  parse_subject, parse,
}

-- A token: the wildcard `*`, the wildcard `>` at the end, or a name without wildcards.
abbrev pub IsToken : Text → List Text → Type 0
IsToken token later =
    (token ≡ str "*")
    ⊎ ((token ≡ str ">") × (later ≡ []))
    ⊎ ((is_empty token ≡ false) × All (λ c. is_wild c ≡ false) token)

abbrev pub AreTokens : List Text → Type 0
AreTokens [] = Unit
AreTokens (token ∷ later) = IsToken token later × AreTokens later

abbrev pub IsSubject : Text → Type 0
IsSubject subject =
    (byte_len subject ≤ 1024)
    × All (λ c. (is_whitespace c ≡ false) × (is_control c ≡ false)) subject
    × AreTokens (tokens subject)

last-empty : (later : List Text) → is_last later ≡ true → later ≡ []
last-empty [] h = refl
last-empty (token ∷ later) h = cc

IsToken-kind :
    (token : Text) (later : List Text) (star close last wild : Bool)
    → text_eq token (str "*") ≡ star
    → text_eq token (str ">") ≡ close
    → is_last later ≡ last
    → any is_wild token ≡ wild
    → is_empty token ≡ false
    → (star || close && last || not wild) ≡ true
    → IsToken token later
IsToken-kind token later true close last wild a b c d e h = inl (text_eq→eq token (str "*") a)
IsToken-kind token later false true true wild a b c d e h =
    inr (inl (text_eq→eq token (str ">") b, last-empty later c))
IsToken-kind token later false close last false a b c d e h =
    inr (inr (e, any-none is_wild token d))
IsToken-kind token later false true false true a b c d e h = cc
IsToken-kind token later false false last true a b c d e h = cc

token_ok-IsToken :
    (token : Text) (later : List Text) → token_ok token later ≡ true → IsToken token later
unfolding token_ok
token_ok-IsToken token later h =
    let both =
      and_true (not (is_empty token))
        (text_eq token (str "*")
          || text_eq token (str ">") && is_last later
          || not (any is_wild token))
        h in
    IsToken-kind token later (text_eq token (str "*")) (text_eq token (str ">")) (is_last later)
      (any is_wild token) refl refl refl refl (not-true (is_empty token) both.0) both.1

tokens_ok-AreTokens : (later : List Text) → tokens_ok later ≡ true → AreTokens later
tokens_ok-AreTokens [] h = tt
tokens_ok-AreTokens (token ∷ later) h =
    let both = and_true (token_ok token later) (tokens_ok later) h in
    (token_ok-IsToken token later both.0, tokens_ok-AreTokens later both.1)

All-or :
    (p q : ℕ → Bool) (s : Text)
    → All (λ c. (p c || q c) ≡ false) s
    → All (λ c. (p c ≡ false) × (q c ≡ false)) s
All-or p q [] h = tt
All-or p q (c ∷ s) h = (or_false (p c) (q c) h.0, All-or p q s h.1)

-- A subject that is accepted has at most 1024 bytes, no whitespace and no controls, and its tokens
-- between dots are names without wildcards or whole wildcards, `>` only as the last.
pub validate_subject-IsSubject :
    (subject : Text) {u : Unit {0}} → validate_subject subject ≡ ok u → IsSubject subject
unfolding validate_subject
validate_subject-IsSubject subject e =
    let step = >>=-eq-ok (ensure (subject_ok subject) _) _ e in
    let chars = any (λ c. is_whitespace c || is_control c) subject in
    let outer =
      and_true (not (is_empty subject) && leb (byte_len subject) 1024) (not chars)
        (ensure-eq-ok (subject_ok subject) _ step.1) in
    let inner = and_true (not (is_empty subject)) (leb (byte_len subject) 1024) outer.0 in
    (
      leb→le (byte_len subject) 1024 inner.1,
      All-or is_whitespace is_control subject
          (any-none (λ c. is_whitespace c || is_control c) subject (not-true chars outer.1)),
      tokens_ok-AreTokens (tokens subject) (ensure-eq-ok _ _ step.2),
    )

abbrev pub StartsAbove : Option ℕ → Type 0
StartsAbove none = Unit
StartsAbove (some start) = 0 < start

abbrev pub EndsAfter : Option ℕ → Option ℕ → Type 0
EndsAfter none start = Unit
EndsAfter (some end) start = or_zero start < end

positive-StartsAbove : (start : Option ℕ) → positive start ≡ true → StartsAbove start
positive-StartsAbove none h = tt
positive-StartsAbove (some n) h = ltb→lt 0 n h

exceeds-EndsAfter : (end start : Option ℕ) → exceeds end start ≡ true → EndsAfter end start
exceeds-EndsAfter none start h = tt
exceeds-EndsAfter (some n) start h = ltb→lt (or_zero start) n h

abbrev pub HasRange : Replay → Type 0
HasRange replay =
    StartsAbove (Replay.start_sequence replay)
    × EndsAfter (Replay.end_sequence replay) (Replay.start_sequence replay)

checked-HasRange :
    (r : Replay) {replay : Replay} → checked r ≡ ok replay → HasRange replay × (replay ≡ r)
checked-HasRange r e =
    let start = >>=-eq-ok (ensure (positive (Replay.start_sequence r)) _) _ e in
    let end =
      >>=-eq-ok (ensure (exceeds (Replay.end_sequence r) (Replay.start_sequence r)) _) _ start.2 in
    let same : r ≡ _ = ok-injective end.2 in
    (
      subst HasRange same (
        positive-StartsAbove (Replay.start_sequence r) (ensure-eq-ok _ _ start.1),
        exceeds-EndsAfter (Replay.end_sequence r) (Replay.start_sequence r)
            (ensure-eq-ok _ _ end.1),
      ),
      sym same,
    )

-- Reading the range does not touch the subject.
abbrev Keeps : Text → Replay → Type 0
Keeps subject r = Replay.subject r ≡ subject

time-Keeps :
    (subject start : Text) (end : Option ℕ) (given dated : Bool) (e e' : StatementError)
    → Ensures (Keeps subject) (
        ensure given e
        >> (ensure dated e'
            >> ok record {
              subject = subject;
              start_sequence = none;
              end_sequence = end;
              start_time = some start;
            }))
time-Keeps subject start end true true e e' = refl
time-Keeps subject start end true false e e' = tt
time-Keeps subject start end false dated e e' = tt

seq-Keeps :
    (subject start : Text) (end : Option ℕ) (run : Outcome StatementError (Option ℕ))
    → Ensures (Keeps subject) (
        run >>= λ first.
        ok record {
          subject = subject;
          start_sequence = first;
          end_sequence = end;
          start_time = none;
        })
seq-Keeps subject start end (ok first) = refl
seq-Keeps subject start end (err e) = tt
seq-Keeps subject start end panicked = tt
seq-Keeps subject start end stuck = tt

kind-Keeps :
    (subject : Text) (is_seq is_time : Bool) (x y : Outcome StatementError Replay)
    (e : StatementError)
    → Ensures (Keeps subject) x
    → Ensures (Keeps subject) y
    → Ensures (Keeps subject) (if is_seq then x else if is_time then y else err e)
kind-Keeps subject true is_time x y e hx hy = hx
kind-Keeps subject false true x y e hx hy = hy
kind-Keeps subject false false x y e hx hy = tt

module _ (is_rfc3339 : Text → Bool) (subject : Text) where
  span-Keeps :
      (kind : Text) (span : Text × Text) (run : Outcome StatementError (Option ℕ))
      → Ensures (Keeps subject) (run >>= λ end. replay_of is_rfc3339 subject kind span.0 end)
  span-Keeps kind span (ok end) =
      kind-Keeps subject (text_eq kind (str "seq")) (text_eq kind (str "time")) _ _ _
        (seq-Keeps subject span.0 end (sequence span.0))
        (time-Keeps subject span.0 end (not (is_empty span.0)) (is_rfc3339 span.0) _ _)
  span-Keeps kind span (err e) = tt
  span-Keeps kind span panicked = tt
  span-Keeps kind span stuck = tt

  found-Keeps :
      (kind : Text) (found : Option (Text × Text)) (e : StatementError)
      → Ensures (Keeps subject) (ok_or found e >>= span_of is_rfc3339 subject kind)
  found-Keeps kind none e = tt
  found-Keeps kind (some span) e = span-Keeps kind span (sequence span.1)

  range_of-Keeps : (words : List Text) → Ensures (Keeps subject) (range_of is_rfc3339 subject words)
  unfolding range_of
  range_of-Keeps [] = refl
  range_of-Keeps (kind ∷ []) = tt
  range_of-Keeps (kind ∷ span ∷ []) = found-Keeps kind (split_dots span) _
  range_of-Keeps (kind ∷ span ∷ word ∷ words) = tt

  parse_subject-IsValid :
      (words : List Text) {replay : Replay}
      → parse_subject is_rfc3339 (subject, words) ≡ ok replay
      → IsSubject (Replay.subject replay) × HasRange replay
  parse_subject-IsValid words e =
      let named = >>=-eq-ok (validate_subject subject) _ e in
      let read = >>=-eq-ok (range_of is_rfc3339 subject words) checked named.2 in
      let fits = checked-HasRange read.0 read.2 in
      let kept =
        Ensures-ok (Keeps subject) (range_of is_rfc3339 subject words) (range_of-Keeps words)
          read.1 in
      (
        subst IsSubject (sym (ap Replay.subject fits.1 ∙ kept))
            (validate_subject-IsSubject subject named.1),
        fits.0,
      )

-- A replay that is accepted has a valid subject, a start sequence from 1 on, and an end sequence
-- above its start, or above 0 without one.
pub parse-IsValid :
    (is_rfc3339 : Text → Bool) (words : List Text) {replay : Replay}
    → parse is_rfc3339 words ≡ ok replay
    → IsSubject (Replay.subject replay) × HasRange replay
unfolding parse
parse-IsValid is_rfc3339 [] e = parse_subject-IsValid is_rfc3339 (str ">") [] e
parse-IsValid is_rfc3339 (subject ∷ words) e = parse_subject-IsValid is_rfc3339 subject words e
