-- ===== src/Catalog/Tests.antt =====
-- Catalogs on concrete inputs.
use onetui.Base.{◌≡◌, ◌≤◌, true, false, refl, [], ◌∷◌, All, ok, err}
use onetui.Text.{Text, str, byte_len, is_control, starts_with}
use onetui.Catalog.{Config, avro, validate, valid_id, bad_reference}
use onetui.Catalog.Valid.{HasReferences, AreNew, validate-IsValid}

abbrev orders : Config
orders = record {
  directory = str "/etc/schemas";
  schema = str "order";
  references = str "item" ∷ str "price" ∷ [];
}

orders_accepted : validate avro orders ≡ ok tt
unfolding validate byte_len onetui.Text.text_eq onetui.Text.as_bytes
orders_accepted = refl

abbrev repeated : Config
repeated = record {
  directory = str "/etc";
  schema = str "order";
  references = str "item" ∷ str "item" ∷ [];
}

repeated_refused : validate avro repeated ≡ err bad_reference
unfolding validate byte_len onetui.Text.text_eq onetui.Text.as_bytes
repeated_refused = refl

validate-IsValid_example :
    (byte_len (str "/etc/schemas") ≤ 4096)
    × All (λ c. is_control c ≡ false) (str "/etc/schemas")
    × (starts_with (str "/") (str "/etc/schemas") ≡ true)
    × (valid_id (str "order") ≡ true)
    × HasReferences avro (str "item" ∷ str "price" ∷ [])
    × AreNew (str "order") [] (str "item" ∷ str "price" ∷ [])
validate-IsValid_example = validate-IsValid avro orders orders_accepted
