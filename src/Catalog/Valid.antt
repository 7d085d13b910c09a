-- ===== src/Catalog/Valid.antt =====
-- What a catalog that is accepted satisfies.
use onetui.Base.{
  ◌≡◌, ◌≢◌, ◌≤◌, refl, ap, sym, ◌∙◌, true, false, ◌&&◌, not, List, [], ◌∷◌, ◌++◌, All, any,
  any-none, length, leb, leb→le, and_true, not-true, ok, ensure, >>=-eq-ok, ensure-eq-ok, arith,
}
use onetui.Text.{Text, str, text_eq, text_eq_self, byte_len, is_control, starts_with}
use onetui.Catalog.{
  Format, avro, protobuf, Config, valid_id, valid_directory, is_new, check_references,
  takes_references, validate, bad_directory, bad_schema, too_many, unwanted_references,
  bad_reference,
}

true_is_not_false : true ≡ false → ⊥
true_is_not_false e = cc

differs : (a b : Text) → text_eq a b ≡ false → a ≢ b
differs a b h e = true_is_not_false (sym (text_eq_self a) ∙ ap (text_eq a) e ∙ h)

every_differs :
    (a : Text) (seen : List Text) → All (λ b. text_eq a b ≡ false) seen → All (λ b. a ≢ b) seen
every_differs a [] h = tt
every_differs a (b ∷ seen) h = (differs a b h.0, every_differs a seen h.1)

-- Names behind those seen: valid, other than the schema's, and other than all before them.
abbrev pub AreNew : Text → List Text → List Text → Type 0
AreNew schema seen [] = Unit
AreNew schema seen (name ∷ later) =
    (valid_id name ≡ true)
    × (name ≢ schema)
    × All (λ b. name ≢ b) seen
    × AreNew schema (seen ++ name ∷ []) later

check_references-AreNew :
    (schema : Text) (seen names : List Text) {u : Unit {0}}
    → check_references schema seen names ≡ ok u
    → AreNew schema seen names
unfolding check_references
check_references-AreNew schema seen [] e = tt
check_references-AreNew schema seen (name ∷ later) e =
    let step = >>=-eq-ok (ensure (is_new schema seen name) bad_reference) _ e in
    let outer =
      and_true (valid_id name && not (text_eq name schema)) (not (any (text_eq name) seen))
        (ensure-eq-ok (is_new schema seen name) _ step.1) in
    let inner = and_true (valid_id name) (not (text_eq name schema)) outer.0 in
    (
      inner.0,
      differs name schema (not-true (text_eq name schema) inner.1),
      every_differs name seen
          (any-none (text_eq name) seen (not-true (any (text_eq name) seen) outer.1)),
      check_references-AreNew schema (seen ++ name ∷ []) later step.2,
    )

abbrev pub HasReferences : Format → List Text → Type 0
HasReferences avro references = length references ≤ 32
HasReferences protobuf references = references ≡ []

takes-HasReferences :
    (format : Format) (references : List Text)
    → length references ≤ 32
    → takes_references format references ≡ true
    → HasReferences format references
takes-HasReferences avro references few h = few
takes-HasReferences protobuf [] few h = refl
takes-HasReferences protobuf (name ∷ later) few h = absurd (ground arith)

-- A catalog that is accepted has an absolute directory of at most 4096 bytes without controls and a
-- valid schema id. Its references are at most 32 for Avro and none for Protobuf; they are valid ids
-- other than the schema's, and no two of them are the same.
pub validate-IsValid :
    (format : Format) (config : Config) {u : Unit {0}}
    → validate format config ≡ ok u
    → (byte_len (Config.directory config) ≤ 4096)
      × All (λ c. is_control c ≡ false) (Config.directory config)
      × (starts_with (str "/") (Config.directory config) ≡ true)
      × (valid_id (Config.schema config) ≡ true)
      × HasReferences format (Config.references config)
      × AreNew (Config.schema config) [] (Config.references config)
unfolding validate
validate-IsValid format config e =
    let directory = Config.directory config in
    let references = Config.references config in
    let a = >>=-eq-ok (ensure (valid_directory directory) bad_directory) _ e in
    let b = >>=-eq-ok (ensure (valid_id (Config.schema config)) bad_schema) _ a.2 in
    let c = >>=-eq-ok (ensure (leb (length references) 32) too_many) _ b.2 in
    let d = >>=-eq-ok (ensure (takes_references format references) unwanted_references) _ c.2 in
    let outer =
      and_true (leb (byte_len directory) 4096 && not (any is_control directory))
        (starts_with (str "/") directory) (ensure-eq-ok (valid_directory directory) _ a.1) in
    let inner = and_true (leb (byte_len directory) 4096) (not (any is_control directory)) outer.0 in
    (
      leb→le (byte_len directory) 4096 inner.0,
      any-none is_control directory (not-true (any is_control directory) inner.1),
      outer.1,
      ensure-eq-ok (valid_id (Config.schema config)) _ b.1,
      takes-HasReferences format references (leb→le (length references) 32 (ensure-eq-ok _ _ c.1))
          (ensure-eq-ok _ _ d.1),
      check_references-AreNew (Config.schema config) [] references d.2,
    )
