-- ===== src/RabbitMq/Response/Answers.antt =====
-- What the response to a RabbitMQ statement amounts to.
use onetui.Base.{
  ℕ, ◌-◌, ◌≡◌, ◌≤◌, refl, subst, Bool, true, false, ◌||◌, List, [], ◌∷◌, ◌++◌, Option, none, some,
  leb, leb→le, length, length-append, ok, ensure, ok_or, Ensures, Ensures-of, Ensures-ok, >>=-eq-ok,
  ensure-eq-ok, ok-injective, arith, ap, sym, ◌⊎◌, inl, inr, Bool-cases, or_false, ◌<◌, ◌+◌,
}
use onetui.Core.{Page, page_size, page_bytes, row_bytes, value_bytes}
use onetui.Text.{Text, str, byte_len, text_eq, text_eq→eq, text_eq_self}
use onetui.RabbitMq.Statement.{
  Statement, publish, get, declare, delete, purge, raw, too_large, reads,
}
use onetui.RabbitMq.Response.{
  Response, Crates, body_limit, chunks, receive, QueryExecution, page, write, WriteResult, applied,
  rejected, is_success, is_get, is_raw, announced_ok, get_page, response_page, messages,
  write_result, outcome,
}

chunks-bounded :
    (body : List ℕ) (stream : List (Option (List ℕ)))
    → length body ≤ body_limit
    → Ensures (λ all. length all ≤ body_limit) (chunks body stream)
unfolding chunks
chunks-bounded body [] h = h
chunks-bounded body (none ∷ later) h = tt
chunks-bounded body (some chunk ∷ later) h =
    Ensures-of (λ all. length all ≤ body_limit) _
      (λ all e.
        let fits = >>=-eq-ok (ensure (leb (length chunk) (body_limit - length body)) _) _ e in
        let small = leb→le (length chunk) (body_limit - length body) (ensure-eq-ok _ _ fits.1) in
        Ensures-ok (λ all. length all ≤ body_limit) (chunks (body ++ chunk) later)
          (chunks-bounded (body ++ chunk) later (omega (arith, length-append body chunk))) fits.2)

-- A body that is received stays within the bound, however the response announces its length and
-- whatever its chunks are.
pub receive-bounded :
    (status : ℕ) (announced : Option ℕ) (stream : List (Option (List ℕ))) {response : Response}
    → receive status announced stream ≡ ok response
    → length (Response.body response) ≤ body_limit
unfolding receive
receive-bounded status announced stream e =
    let passed = >>=-eq-ok (ensure (announced_ok announced) too_large) _ e in
    let read = >>=-eq-ok (chunks [] stream) _ passed.2 in
    subst (λ (r : Response). length (Response.body r) ≤ body_limit) (ok-injective read.2)
      (Ensures-ok (λ all. length all ≤ body_limit) (chunks [] stream)
        (chunks-bounded [] stream (omega arith)) read.1)

receive-status :
    (status : ℕ) (announced : Option ℕ) (stream : List (Option (List ℕ))) {response : Response}
    → receive status announced stream ≡ ok response
    → Response.status response ≡ status
unfolding receive
receive-status status announced stream e =
    let passed = >>=-eq-ok (ensure (announced_ok announced) too_large) _ e in
    let read = >>=-eq-ok (chunks [] stream) _ passed.2 in
    sym (ap Response.status (ok-injective read.2))

-- What the program means by a read: GET of messages, and a RAW request of method GET or HEAD.
abbrev pub IsRead : Statement → Type 0
IsRead (get vhost queue count requeue) = Unit
IsRead (raw method path body) = (method ≡ str "GET") ⊎ (method ≡ str "HEAD")
IsRead (publish vhost exchange routing_key payload) = ⊥
IsRead (declare collection vhost name body) = ⊥
IsRead (delete collection vhost name) = ⊥
IsRead (purge vhost queue) = ⊥

abbrev pub IsRaw : Statement → Type 0
IsRaw (raw method path body) = Unit
IsRaw (get vhost queue count requeue) = ⊥
IsRaw (publish vhost exchange routing_key payload) = ⊥
IsRaw (declare collection vhost name body) = ⊥
IsRaw (delete collection vhost name) = ⊥
IsRaw (purge vhost queue) = ⊥

one_of :
    (method first second : Text)
    → (text_eq method first || text_eq method second) ≡ true
    → (method ≡ first) ⊎ (method ≡ second)
one_of method first second h = elim (Bool-cases (text_eq method first)) [
  | inl e ↦ inl (text_eq→eq method first e)
  | inr e ↦ inr (text_eq→eq method second (rw e at h))
]

none_of :
    (method first second : Text)
    → (text_eq method first || text_eq method second) ≡ false
    → (method ≡ first) ⊎ (method ≡ second)
    → ⊥
none_of method first second h (inl e) =
    let no = (or_false (text_eq method first) (text_eq method second) h).0 in
    let same : text_eq method first ≡ true = rw e (text_eq_self first) in cc
none_of method first second h (inr e) =
    let no = (or_false (text_eq method first) (text_eq method second) h).1 in
    let same : text_eq method second ≡ true = rw e (text_eq_self second) in cc

reads-IsRead : (statement : Statement) → reads statement ≡ true → IsRead statement
unfolding reads
reads-IsRead (get vhost queue count requeue) h = tt
reads-IsRead (raw method path body) h = one_of method (str "GET") (str "HEAD") h
reads-IsRead (publish vhost exchange routing_key payload) h = cc
reads-IsRead (declare collection vhost name body) h = cc
reads-IsRead (delete collection vhost name) h = cc
reads-IsRead (purge vhost queue) h = cc

writes-IsRead : (statement : Statement) → reads statement ≡ false → IsRead statement → ⊥
unfolding reads
writes-IsRead (get vhost queue count requeue) h k = cc
writes-IsRead (raw method path body) h k = none_of method (str "GET") (str "HEAD") h k
writes-IsRead (publish vhost exchange routing_key payload) h k = k
writes-IsRead (declare collection vhost name body) h k = k
writes-IsRead (delete collection vhost name) h k = k
writes-IsRead (purge vhost queue) h k = k

text_size : (s : Text) → value_bytes (onetui.Core.Value.text s) ≡ byte_len s
unfolding value_bytes
text_size s = refl

bytes_size : (b : List ℕ) → value_bytes (onetui.Core.Value.bytes b) ≡ length b
unfolding value_bytes
bytes_size b = refl

module _ (crates : Crates) where
  is_raw-IsRaw : (statement : Statement) → is_raw crates statement ≡ true → IsRaw statement
  is_raw-IsRaw (raw method path body) h = tt
  is_raw-IsRaw (get vhost queue count requeue) h = cc
  is_raw-IsRaw (publish vhost exchange routing_key payload) h = cc
  is_raw-IsRaw (declare collection vhost name body) h = cc
  is_raw-IsRaw (delete collection vhost name) h = cc
  is_raw-IsRaw (purge vhost queue) h = cc

  abbrev IsSuccess : ℕ → Type 0
  IsSuccess status = (200 ≤ status) × (status < 300)

  abbrev IsFailure : ℕ → Type 0
  IsFailure status = (status < 200) ⊎ (300 ≤ status)

  -- A page answers a read that succeeded or is RAW, and fits; an outcome answers a write.
  abbrev pub Answers : Statement → ℕ → QueryExecution → Type 0
  Answers statement status (page shown) =
      IsRead statement × (IsSuccess status ⊎ IsRaw statement) × (page_size shown ≤ page_bytes)
  Answers statement status (write result) =
      (IsRead statement → ⊥)
      × ((IsSuccess status × (WriteResult.outcome result ≡ applied))
          ⊎ (IsFailure status × (WriteResult.outcome result ≡ rejected)))

  response_page-size :
      (status : ℕ) (body : List ℕ)
      → page_size (response_page crates status body)
        ≡ byte_len (Crates.status_text crates status) + length body + 19
  unfolding page_size row_bytes byte_len
  response_page-size status body =
      omega (arith, text_size (Crates.status_text crates status), bytes_size body)

  messages_fit :
      (gets : Bool) (status : ℕ) (body : List ℕ) {shown : Page}
      → byte_len (Crates.status_text crates status) ≤ 1005
      → length body ≤ body_limit
      → messages crates gets status body ≡ ok shown
      → page_size shown ≤ page_bytes
  unfolding messages
  messages_fit false status body short small e =
      subst (λ p. page_size p ≤ page_bytes) (ok-injective e)
        (omega (arith, response_page-size status body))
  messages_fit true status body short small e =
      let values = >>=-eq-ok (ok_or (Crates.from_slice crates body) _) _ e in
      let fits =
        >>=-eq-ok (ensure (leb (page_size (get_page crates values.0)) page_bytes) too_large) _
          values.2 in
      subst (λ p. page_size p ≤ page_bytes) (ok-injective fits.2)
        (leb→le _ page_bytes (ensure-eq-ok _ _ fits.1))

  shown_status :
      (statement : Statement) (status : ℕ)
      → (is_success status || is_raw crates statement) ≡ true
      → IsSuccess status ⊎ IsRaw statement
  shown_status statement status h = elim (Bool-cases (is_success status)) [
    | inl e ↦ inl (ground arith)
    | inr e ↦ inr (is_raw-IsRaw statement (rw e at h))
  ]

  write_result-outcome :
      (statement : Statement) (status : ℕ) (body : List ℕ)
      → (IsSuccess status
          × (WriteResult.outcome (write_result crates statement status body) ≡ applied))
        ⊎ (IsFailure status
            × (WriteResult.outcome (write_result crates statement status body) ≡ rejected))
  write_result-outcome statement status body = elim (Bool-cases (is_success status)) [
    | inl e ↦ inl (ground arith, rw e refl)
    | inr e ↦ inr (ground arith, rw e refl)
  ]

  outcome-Answers :
      (statement : Statement) (response : Response) {x : QueryExecution}
      → byte_len (Crates.status_text crates (Response.status response)) ≤ 1005
      → length (Response.body response) ≤ body_limit
      → outcome crates statement response ≡ ok x
      → Answers statement (Response.status response) x
  unfolding outcome
  outcome-Answers statement response short small e =
      let status = Response.status response in
      let body = Response.body response in
      elim (Bool-cases (reads statement)) [
        | inl kind ↦
            let passed =
              >>=-eq-ok (ensure (is_success status || is_raw crates statement) _) _
                (rw kind at e) in
            let shown =
              >>=-eq-ok (messages crates (is_get crates statement) status body) _ passed.2 in
            subst (Answers statement status) (ok-injective shown.2) (
              reads-IsRead statement kind,
              shown_status statement status (ensure-eq-ok _ _ passed.1),
              messages_fit (is_get crates statement) status body short small shown.1,
            )
        | inr kind ↦
            subst (Answers statement status) (ok-injective (rw kind at e))
              (writes-IsRead statement kind, write_result-outcome statement status body)
      ]

  -- What a received response amounts to, where its status is displayed in at most 1005 bytes: a page
  -- answers GET or a RAW request of method GET or HEAD, comes with a status of 200 to 299 unless it
  -- is RAW, and fits a page's bytes; an outcome answers any other statement, and is applied for a
  -- status of 200 to 299 and rejected otherwise.
  pub received-Answers :
      (statement : Statement) (status : ℕ) (announced : Option ℕ) (stream : List (Option (List ℕ)))
      {response : Response} {x : QueryExecution}
      → byte_len (Crates.status_text crates status) ≤ 1005
      → receive status announced stream ≡ ok response
      → outcome crates statement response ≡ ok x
      → Answers statement status x
  received-Answers statement status announced stream {response} {x} short e e' =
      let same = receive-status status announced stream e in
      subst (λ n. Answers statement n x) same
        (outcome-Answers statement response
          (subst (λ n. byte_len (Crates.status_text crates n) ≤ 1005) (sym same) short)
          (receive-bounded status announced stream e) e')
