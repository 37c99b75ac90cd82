-- ===== src/Value.antt =====
-- The values that the Convex adapter's evaluator carries as `unknown` (convex/src/cel.ts): JSON
-- values, bigints, durations, hierarchies, `undefined` and the symbol `EVALUATION_ERROR`. An object
-- is its own properties in `Object.keys` order; neither the identity of an object nor its
-- prototype is modelled.
use query_plan_adapters.Base.{
  Bool, true, false, Option, none, some, List, [], ◌∷◌, ℤ, Text, text_eq, if◌then◌else◌,
}
use query_plan_adapters.Number.{Number}

mutual
  pub data Value : Type 0 where
    undefined evaluation_error null : Value
    bool : Bool → Value
    num : Number → Value
    bigint : ℤ → Value
    str : Text → Value
    arr : Items → Value
    record_of : Entries → Value
    duration : ℤ → Value
    hierarchy : List Text → Value

  pub data Items : Type 0 where
    nil : Items
    cons : Value → Items → Items

  pub data Entries : Type 0 where
    end : Entries
    entry : Text → Value → Entries → Entries

abbrev pub elems : Items → List Value
elems nil = []
elems (cons v vs) = v ∷ elems vs

abbrev pub items : List Value → Items
items [] = nil
items (v ∷ vs) = cons v (items vs)

abbrev pub keys : Entries → List Text
keys end = []
keys (entry k v es) = k ∷ keys es

-- `hasOwnProperty` and the read that follows it.
unfoldable pub lookup : Text → Entries → Option Value
lookup k end = none
lookup k (entry j v es) = if text_eq j k then some v else lookup k es

abbrev pub is_error : Value → Bool
is_error evaluation_error = true
is_error _ = false

abbrev pub is_null : Value → Bool
is_null null = true
is_null _ = false

abbrev pub is_string : Value → Bool
is_string (str s) = true
is_string _ = false
