-- ===== src/Chroma/Fields.antt =====
-- langchain-chromadb/src/index.ts: the caller's mapper, and `fieldResolver`.
use query_plan_adapters.Base.{
  Bool, true, false, not, ◌&&◌, Option, none, some, List, [], ◌∷◌, any, Text, text, text_eq,
  if◌then◌else◌,
}
use query_plan_adapters.Chroma.Outcome.{
  Attempt, done, plain, ◌>>=◌, demand, no_field_name, unknown_value_type, two_declared_types,
}

pub record FieldNameMapperConfig : Type 0 where
  pub field : Text
  pub required : Option Bool
  pub numeric_type : Option Text
  pub value_type : Option Text

-- `FieldNameMapperValue`
pub data FieldNameMapperValue : Type 0 where
  name : Text → FieldNameMapperValue
  config : FieldNameMapperConfig → FieldNameMapperValue

-- An object, by its own properties, or a function that may answer `undefined`.
pub data FieldMapper : Type 0 where
  table : List (Text × FieldNameMapperValue) → FieldMapper
  function : (Text → Option FieldNameMapperValue) → FieldMapper

pub record ResolvedField : Type 0 where
  pub name : Text
  pub numeric_type : Option Text
  pub value_type : Option Text
  pub required : Bool

unfoldable pub find : Text → List (Text × FieldNameMapperValue) → Option FieldNameMapperValue
find reference [] = none
find reference ((key, mapped) ∷ rest) =
    if text_eq key reference then some mapped else find reference rest

-- What an object literal inherits from `Object.prototype`: none of it has a property `field`.
abbrev pub inherited : List Text
inherited =
    text "constructor"
    ∷ text "hasOwnProperty"
    ∷ text "isPrototypeOf"
    ∷ text "propertyIsEnumerable"
    ∷ text "toLocaleString"
    ∷ text "toString"
    ∷ text "valueOf"
    ∷ text "__proto__"
    ∷ text "__defineGetter__"
    ∷ text "__defineSetter__"
    ∷ text "__lookupGetter__"
    ∷ text "__lookupSetter__"
    ∷ []

-- What the field of an inherited property is read as: a configuration with no field name.
abbrev unnamed : FieldNameMapperValue
unnamed = config (record { field = []; required = none; numeric_type = none; value_type = none })

abbrev or_inherited : Text → Option FieldNameMapperValue → Option FieldNameMapperValue
or_inherited reference (some mapped) = some mapped
or_inherited reference none = if any (text_eq reference) inherited then some unnamed else none

-- `typeof fieldNameMapper === "function" ? fieldNameMapper(key) : fieldNameMapper[key]`
unfoldable pub mapped_value : FieldMapper → Text → Option FieldNameMapperValue
unfolding find
mapped_value (table entries) reference = or_inherited reference (find reference entries)
mapped_value (function f) reference = f reference

abbrev or_false : Option Bool → Bool
or_false none = false
or_false (some b) = b

abbrev bare_field : Text → ResolvedField
bare_field reference = record {
  name = reference;
  numeric_type = none;
  value_type = none;
  required = false;
}

-- The field that the mapper's answer describes.
unfoldable pub described : Text → Option FieldNameMapperValue → ResolvedField
described reference none = bare_field reference
described reference (some (name n)) = bare_field n
described reference (some (config c)) = record {
  name = c.field;
  numeric_type = c.numeric_type;
  value_type = c.value_type;
  required = or_false c.required;
}

abbrev pub is_empty : Text → Bool
is_empty [] = true
is_empty (c ∷ s) = false

abbrev pub is_given : Option Text → Bool
is_given none = false
is_given (some t) = true

abbrev pub is_text : Option Text → Text → Bool
is_text none t = false
is_text (some s) t = text_eq s t

-- The checks on a field.
unfoldable pub checked : ResolvedField → Attempt ResolvedField
checked field = demand (not (is_empty field.name)) (plain no_field_name) >>= λ named.
    demand (not (is_given field.value_type && not (is_text field.value_type (text "boolean"))))
      (plain unknown_value_type)
    >>= λ known.
        demand (not (is_given field.value_type && is_given field.numeric_type))
          (plain two_declared_types)
        >>= λ single. done field

-- `fieldResolver`
unfoldable pub resolve_field : FieldMapper → Text → Attempt ResolvedField
unfolding mapped_value described checked
resolve_field mapper reference = checked (described reference (mapped_value mapper reference))

abbrev truthy : Option FieldNameMapperValue → Bool
truthy none = false
truthy (some (name n)) = not (is_empty n)
truthy (some (config c)) = true

abbrev has_entry : Option FieldNameMapperValue → Bool
has_entry none = false
has_entry (some mapped) = true

-- `postFilterFields(…).isMapped`
unfoldable pub is_mapped : FieldMapper → Text → Bool
unfolding find
is_mapped (table entries) reference = has_entry (find reference entries)
is_mapped (function f) reference = truthy (f reference)

-- `postFilterFields(…).metadataKey` and `.isBoolean`
unfoldable pub metadata_key : FieldMapper → Text → Attempt Text
unfolding resolve_field
metadata_key mapper reference = resolve_field mapper reference >>= λ field. done field.name

unfoldable pub is_boolean : FieldMapper → Text → Attempt Bool
unfolding resolve_field
is_boolean mapper reference =
    resolve_field mapper reference >>= λ field. done (is_text field.value_type (text "boolean"))
