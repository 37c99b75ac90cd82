-- ===== src/Cel/Hierarchy.antt =====
-- convex/src/cel.ts, hierarchies.
pub mod Relations
pub mod Segments
pub mod Splitting
use query_plan_adapters.Base.{
  ℕ, zero, suc, ◌-◌, Bool, true, false, ◌&&◌, List, [], ◌∷◌, ◌++◌, map, ltb, leb, if◌then◌else◌,
  length, Text, units, starts_with,
}
use query_plan_adapters.Cel.Equality.{is_segment_prefix}
use query_plan_adapters.Cel.Order.{code_points}

-- JavaScript's `s.split(d)` for a delimiter that is not empty: `skip` counts the units of an occurrence that are
-- still to be passed over.
unfoldable pub split_on_from : Text → ℕ → Text → Text → List Text
unfolding starts_with
split_on_from d skip piece [] = piece ∷ []
split_on_from d (suc skip) piece (a ∷ s) = split_on_from d skip piece s
split_on_from d zero piece (a ∷ s) = elim (starts_with (a ∷ s) d) [
  | true ↦ piece ∷ split_on_from d (length d - 1) [] s
  | false ↦ split_on_from d zero (piece ++ a ∷ []) s
]

unfoldable pub split_on : Text → Text → List Text
unfolding split_on_from
split_on d s = split_on_from d 0 [] s

-- `splitHierarchy`, as the segments: Go's `strings.Split`, where an empty delimiter splits into code
-- points.
unfoldable pub split_hierarchy : Text → Text → List Text
unfolding split_on code_points
split_hierarchy value [] = map units (code_points value)
split_hierarchy value (c ∷ d) = split_on (c ∷ d) value

-- `isStrictAncestor`
unfoldable pub is_strict_ancestor : List Text → List Text → Bool
unfolding is_segment_prefix
is_strict_ancestor ancestor descendent =
    ltb (length ancestor) (length descendent) && is_segment_prefix ancestor descendent

-- `hierarchiesOverlap`
unfoldable pub hierarchies_overlap : List Text → List Text → Bool
unfolding is_segment_prefix
hierarchies_overlap left right =
    if leb (length left) (length right)
    then is_segment_prefix left right
    else is_segment_prefix right left
