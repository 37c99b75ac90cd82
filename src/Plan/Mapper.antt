-- ===== src/Plan/Mapper.antt =====
-- The caller's mapper (convex/src/operands.ts and the types of convex/src/index.ts).
use query_plan_adapters.Base.{
  ◌≡◌, refl, ◌↔◌, ◌⊎◌, Bool, true, false, Option, none, some, List, [], ◌∷◌, Text, text_eq,
  if◌then◌else◌, arith,
}

pub record MapperConfig : Type 0 where
  pub field : Option Text
  pub nullable : Option Bool

-- A record of configurations, or a function that may answer `undefined`.
pub data Mapper : Type 0 where
  table : List (Text × MapperConfig) → Mapper
  function : (Text → Option MapperConfig) → Mapper

find : Text → List (Text × MapperConfig) → Option MapperConfig
find reference [] = none
find reference ((k, config) ∷ rest) =
    if text_eq k reference then some config else find reference rest

unfoldable pub mapper_config : Text → Mapper → Option MapperConfig
unfolding find
mapper_config reference (table entries) = find reference entries
mapper_config reference (function f) = f reference

abbrev is_some : Option MapperConfig → Bool
is_some none = false
is_some (some config) = true

unfoldable pub is_mapped_reference : Text → Mapper → Bool
unfolding mapper_config
is_mapped_reference reference mapper = is_some (mapper_config reference mapper)

-- `??` on an optional field.
abbrev or_else {ℓ} : {A : Type ℓ} → Option A → A → A
or_else none d = d
or_else (some a) d = a

abbrev field_or : Text → Option MapperConfig → Text
field_or reference none = reference
field_or reference (some config) = or_else config.field reference

unfoldable pub resolve_field : Text → Mapper → Text
unfolding mapper_config
resolve_field reference mapper = field_or reference (mapper_config reference mapper)

abbrev nullable_or_false : Option MapperConfig → Bool
nullable_or_false none = false
nullable_or_false (some config) = or_else config.nullable false

unfoldable pub is_nullable_field : Text → Mapper → Bool
unfolding mapper_config
is_nullable_field reference mapper = nullable_or_false (mapper_config reference mapper)

abbrev nullable_by_default : MapperConfig → MapperConfig
nullable_by_default config = record config { nullable = some (or_else config.nullable true) }

default_entries : List (Text × MapperConfig) → List (Text × MapperConfig)
default_entries [] = []
default_entries ((k, config) ∷ rest) = (k, nullable_by_default config) ∷ default_entries rest

abbrev default_config : Option MapperConfig → Option MapperConfig
default_config none = none
default_config (some config) = some (nullable_by_default config)

unfoldable pub with_omitted_null_default : Mapper → Mapper
unfolding default_entries
with_omitted_null_default (table entries) = table (default_entries entries)
with_omitted_null_default (function f) = function (λ reference. default_config (f reference))

find-default_entries :
    (reference : Text) (entries : List (Text × MapperConfig))
    → find reference (default_entries entries) ≡ default_config (find reference entries)
unfolding find default_entries
find-default_entries reference [] = refl
find-default_entries reference ((k, config) ∷ rest) =
    ground (arith, find-default_entries reference rest)

pub mapper_config-with_omitted_null_default :
    (reference : Text) (mapper : Mapper)
    → mapper_config reference (with_omitted_null_default mapper)
      ≡ default_config (mapper_config reference mapper)
unfolding mapper_config with_omitted_null_default
mapper_config-with_omitted_null_default reference (table entries) =
    find-default_entries reference entries
mapper_config-with_omitted_null_default reference (function f) = refl

-- What the caller wrote under `nullable` for a reference that has an entry.
abbrev pub declared_nullable : Text → Mapper → Option (Option Bool)
declared_nullable reference mapper = elim (mapper_config reference mapper) [
  | none ↦ none
  | some config ↦ some config.nullable
]

-- The "omitted" convention changes no field path and no set of mapped references; a reference is
-- then not nullable exactly when it has no entry or its entry declares `nullable: false`.
pub with_omitted_null_default_lem :
    (reference : Text) (mapper : Mapper)
    → (resolve_field reference (with_omitted_null_default mapper) ≡ resolve_field reference mapper)
      × (is_mapped_reference reference (with_omitted_null_default mapper)
          ≡ is_mapped_reference reference mapper)
      × ((is_nullable_field reference (with_omitted_null_default mapper) ≡ false) ↔ (
          (declared_nullable reference mapper ≡ none)
          ⊎ (declared_nullable reference mapper ≡ some (some false))))
unfolding resolve_field is_mapped_reference is_nullable_field
with_omitted_null_default_lem reference mapper =
    ground (arith, mapper_config-with_omitted_null_default reference mapper)
