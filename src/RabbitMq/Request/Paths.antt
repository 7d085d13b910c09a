-- ===== src/RabbitMq/Request/Paths.antt =====
-- Where the requests of RabbitMQ statements go.
use onetui.Base.{
  ◌≡◌, ◌≤◌, ap, true, false, ◌&&◌, not, List, [], ◌∷◌, Option, none, some, All, any, any-none,
  and_true, not-true, leb, leb→le, ok, ◌>>=◌, ensure, ok_or, >>=-eq-ok, ensure-eq-ok, ok-injective,
  if◌then◌else◌, subst, sym, ◌∙◌, ◌++◌, append-nil, append_assoc, ◌||◌, Bool, Bool-cases, inl, inr,
  refl,
}
use onetui.Text.{text_eq, text_eq→eq, Text, trim, str, is_empty, byte_len, is_control}
use onetui.RabbitMq.Statement.{
  Statement, StatementError, publish, get, declare, delete, purge, raw, collection_of, scoped,
}
use onetui.RabbitMq.Request.{
  Crates, Outbound, segment_ok, push_checked, segments, object_path, stays, outbound_to, is_none,
  ackmode, publish_body, get_body, native, Body, sent,
}

-- A name in a path: 1 to 4096 bytes and no control character.
abbrev pub IsSegment : Text → Type 0
IsSegment part =
    (is_empty part ≡ false) × (byte_len part ≤ 4096) × All (λ c. is_control c ≡ false) part

segment_ok-IsSegment : (part : Text) → segment_ok part ≡ true → IsSegment part
unfolding segment_ok
segment_ok-IsSegment part h =
    let outer =
      and_true (not (is_empty part) && leb (byte_len part) 4096) (not (any is_control part)) h in
    let inner = and_true (not (is_empty part)) (leb (byte_len part) 4096) outer.0 in
    (
      not-true (is_empty part) inner.0,
      leb→le (byte_len part) 4096 inner.1,
      any-none is_control part (not-true (any is_control part) outer.1),
    )

-- The segments that `url` ignores.
abbrev pub is_dot : Text → Bool
is_dot name = text_eq name (str ".") || text_eq name (str "..")

abbrev pub kept : List Text → List Text
kept [] = []
kept (name ∷ names) = let later = kept names in if is_dot name then later else name ∷ later

abbrev pub pushed_to : List Text → Text → List Text
pushed_to path name = if is_dot name then path else path ++ name ∷ []

-- The names of an object: a vhost is named alone, anything else within its vhost.
abbrev pub object_names : Text → Text → Text → List Text
object_names collection vhost name =
    if text_eq collection (str "vhost")
    then str "vhosts" ∷ name ∷ []
    else collection_of collection ∷ vhost ∷ name ∷ []

vhosts : collection_of (str "vhost") ≡ str "vhosts"
unfolding collection_of
vhosts = refl

-- The segments of a URL's path, decoded: `clear` leaves none, and `push` adds one unless it is `.`
-- or `..`.
module _ (crates : Crates) (segments_of : Crates.Url crates → List Text)
    (segments_of-clear : (u empty : Crates.Url crates)
      → Crates.clear crates u ≡ some empty
      → segments_of empty ≡ [])
    (segments_of-push : (u : Crates.Url crates) (name : Text)
      → segments_of (Crates.push crates u name) ≡ pushed_to (segments_of u) name) where
  open crates use {Url, clear, push, same_origin, fragment, username, password}

  object_path-names :
      (collection vhost name : Text)
      → object_path crates collection vhost name ≡ object_names collection vhost name
  unfolding object_path scoped
  object_path-names collection vhost name = elim (Bool-cases (text_eq collection (str "vhost"))) [
    | inl e ↦
        let same = text_eq→eq collection (str "vhost") e in
        let plural : collection_of collection ≡ str "vhosts" = rw same vhosts in rw (e, plural) refl
    | inr e ↦ rw e refl
  ]

  push_checked-IsSegment :
      (url : Url) (parts : List Text) {u : Url}
      → push_checked crates url parts ≡ ok u
      → All IsSegment parts × (segments_of u ≡ segments_of url ++ kept parts)
  unfolding push_checked
  push_checked-IsSegment url [] e =
      (tt, ap segments_of (sym (ok-injective e)) ∙ sym (append-nil (segments_of url)))
  push_checked-IsSegment url (part ∷ parts) {u} e =
      let step = >>=-eq-ok (ensure (segment_ok part) _) _ e in
      let later = push_checked-IsSegment (push url part) parts step.2 in
      let start = segments_of-push url part in
      let path : segments_of u ≡ segments_of url ++ kept (part ∷ parts) =
        elim (Bool-cases (is_dot part)) [
          | inl dot ↦ later.1 ∙ rw (start, dot) refl
          | inr name ↦
              later.1 ∙ rw (start, name) (append_assoc (segments_of url) (part ∷ []) (kept parts))
        ] in
      ((segment_ok-IsSegment part (ensure-eq-ok _ _ step.1), later.0), path)

  -- The path of a URL is `api`, then the names that `url` does not ignore.
  abbrev pub LeadsTo : List Text → Url → Type 0
  LeadsTo parts u = All IsSegment parts × (segments_of u ≡ str "api" ∷ kept parts)

  object_LeadsTo :
      (collection vhost name : Text) {u : Url}
      → LeadsTo (object_path crates collection vhost name) u
      → LeadsTo (object_names collection vhost name) u
  object_LeadsTo collection vhost name {u} h =
      subst (λ (names : List Text). LeadsTo names u) (object_path-names collection vhost name) h

  ok_or-some :
      {A : Type 0} (o : Option A) (e : StatementError) {a : A} → ok_or o e ≡ ok a → o ≡ some a
  ok_or-some none e h = cc
  ok_or-some (some a) e h = ap some (ok-injective h)

  segments-LeadsTo :
      (url : Url) (parts : List Text) {u : Url} → segments crates url parts ≡ ok u → LeadsTo parts u
  unfolding segments text_eq
  segments-LeadsTo url parts e =
      let step = >>=-eq-ok (ok_or (clear url) _) _ e in
      let pushed = push_checked-IsSegment (push step.0 (str "api")) parts step.2 in
      let bare = segments_of-clear url step.0 (ok_or-some (clear url) _ step.1) in
      let start : segments_of (push step.0 (str "api")) ≡ str "api" ∷ [] =
        segments_of-push step.0 (str "api") ∙ rw bare refl in
      (pushed.0, pushed.1 ∙ rw start refl)

  -- The names of a statement's path.
  abbrev pub names_of : Statement → List Text
  names_of (publish vhost exchange key payload) =
      str "exchanges" ∷ vhost ∷ exchange ∷ str "publish" ∷ []
  names_of (get vhost queue count requeue) = str "queues" ∷ vhost ∷ queue ∷ str "get" ∷ []
  names_of (declare collection vhost name body) = object_names collection vhost name
  names_of (delete collection vhost name) = object_names collection vhost name
  names_of (purge vhost queue) = str "queues" ∷ vhost ∷ queue ∷ str "contents" ∷ []
  names_of (raw method path body) = []

  abbrev StaysAt : Url → Url → Type 0
  StaysAt url target =
      (same_origin target url ≡ true)
      × (is_none (fragment target) ≡ true)
      × (is_empty (username target) ≡ true)
      × (is_none (password target) ≡ true)

  abbrev pub IsLawful : Url → Statement → Url → Type 0
  IsLawful url (raw method path body) target = StaysAt url target
  IsLawful url (publish vhost exchange key payload) target =
      LeadsTo (names_of (publish vhost exchange key payload)) target
  IsLawful url (get vhost queue count requeue) target =
      LeadsTo (names_of (get vhost queue count requeue)) target
  IsLawful url (declare collection vhost name body) target =
      LeadsTo (names_of (declare collection vhost name body)) target
  IsLawful url (delete collection vhost name) target =
      LeadsTo (names_of (delete collection vhost name)) target
  IsLawful url (purge vhost queue) target = LeadsTo (names_of (purge vhost queue)) target

  -- The last step keeps the URL.
  sent-LeadsTo :
      (url : Url) (parts : List Text) (method : Text) (body : Option Body) {o : Outbound Url}
      → (segments crates url parts >>= sent crates method body) ≡ ok o
      → LeadsTo parts (Outbound.url o)
  sent-LeadsTo url parts method body e =
      let step = >>=-eq-ok (segments crates url parts) _ e in
      subst (LeadsTo parts) (ap Outbound.url (ok-injective step.2))
        (segments-LeadsTo url parts step.1)

  stays-StaysAt : (url target : Url) → stays crates url target ≡ true → StaysAt url target
  stays-StaysAt url target h =
      let a =
        and_true (same_origin target url && is_none (fragment target) && is_empty (username target))
          (is_none (password target)) h in
      let b =
        and_true (same_origin target url && is_none (fragment target)) (is_empty (username target))
          a.0 in
      let c = and_true (same_origin target url) (is_none (fragment target)) b.0 in
      (c.0, c.1, b.1, a.1)

  -- If clearing a URL's path leaves no segments, and pushing a segment adds it unless it is `.` or
  -- `..`, then a request that is built has the path `api` and the statement's names, without those
  -- that are `.` or `..`; each name is of 1 to 4096 bytes without control characters. A RAW request
  -- stays on the endpoint's origin, without a fragment and without credentials.
  pub outbound_to-IsLawful :
      (url : Url) (statement : Statement) {o : Outbound Url}
      → outbound_to crates url statement ≡ ok o
      → IsLawful url statement (Outbound.url o)
  unfolding outbound_to
  outbound_to-IsLawful url (publish vhost exchange key payload) e =
      sent-LeadsTo url (names_of (publish vhost exchange key payload)) (str "POST")
        (some (publish_body key (Crates.base64_encode crates payload))) e
  outbound_to-IsLawful url (get vhost queue count requeue) e =
      sent-LeadsTo url (names_of (get vhost queue count requeue)) (str "POST")
        (some (get_body count (ackmode crates requeue))) e
  outbound_to-IsLawful url (declare collection vhost name body) e =
      object_LeadsTo collection vhost name (
        sent-LeadsTo url (object_path crates collection vhost name) (str "PUT")
          (some (native (if is_empty (trim body) then str "{}" else body))) e)
  outbound_to-IsLawful url (delete collection vhost name) e =
      object_LeadsTo collection vhost name
        (sent-LeadsTo url (object_path crates collection vhost name) (str "DELETE") none e)
  outbound_to-IsLawful url (purge vhost queue) e =
      sent-LeadsTo url (names_of (purge vhost queue)) (str "DELETE") none e
  outbound_to-IsLawful url (raw method path body) e =
      let joined = >>=-eq-ok (ok_or (Crates.join crates url path) _) _ e in
      let passed = >>=-eq-ok (ensure (stays crates url joined.0) _) _ joined.2 in
      subst (StaysAt url) (ap Outbound.url (ok-injective passed.2))
        (stays-StaysAt url joined.0 (ensure-eq-ok _ _ passed.1))
