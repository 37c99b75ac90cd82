-- ===== src/Chroma/PostFilter/Elements.antt =====
-- langchain-chromadb/src/postFilter.ts: what `compileValue` and `elementType` say of a literal, against
-- the CEL types that it may have been written with.
use query_plan_adapters.Base.{◌≡◌, Bool, true, false, List, any, ◌⊎◌}
use query_plan_adapters.Number.{is_integer}
use query_plan_adapters.Value.{Value, num}
use query_plan_adapters.Chroma.PostFilter.Types.{
  StaticType, int, double, ambiguous, attribute, other, unknown,
}

-- The types that an expression of the policy may have, as far as arithmetic and `string()` tell them
-- apart.
pub data Reading : Type 0 where
  as_int as_double as_other : Reading

-- How a value on the wire may have been written: an integral number as an int or as a double, another
-- number as a double alone.
abbrev pub reads_as : Value → Reading → Bool
reads_as (num x) as_int = is_integer x
reads_as (num x) as_double = true
reads_as (num x) as_other = false
reads_as v as_int = false
reads_as v as_double = false
reads_as v as_other = true

-- The types that a static type leaves open.
abbrev pub covers : StaticType → Reading → Bool
covers int as_int = true
covers double as_double = true
covers ambiguous as_int = true
covers ambiguous as_double = true
covers attribute as_double = true
covers attribute as_other = true
covers other as_other = true
covers unknown r = true
covers _ r = false

-- Whether some value of a list may have been written so.
abbrev pub some_reads_as : List Value → Reading → Bool
some_reads_as vs r = any (λ v. reads_as v r) vs

-- What the verdict on a list that is not empty says, from what its values may have been written as.
abbrev pub IsExact : StaticType → List Value → Type 0
IsExact t vs =
    ((t ≡ unknown) × (some_reads_as vs as_other ≡ true) × (some_reads_as vs as_double ≡ true))
    ⊎ ((r : Reading) → covers t r ≡ some_reads_as vs r)
