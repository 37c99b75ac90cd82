-- ===== src/Cel/Hierarchy/Splitting.antt =====
-- convex/src/cel.ts, `splitHierarchy`, and the joining that undoes it.
use query_plan_adapters.Base.{◌≡◌, refl, List, [], ◌∷◌, ◌++◌, length, All, Text, drop}
use query_plan_adapters.Cel.Hierarchy.Segments.{IsSegment}

-- The pieces with the delimiter between them.
abbrev pub join : Text → List Text → Text
join d [] = []
join d (s ∷ []) = s
join d (s ∷ t ∷ ts) = s ++ d ++ join d (t ∷ ts)

abbrev pub IsNonempty : List Text → Type 0
IsNonempty [] = ⊥
IsNonempty (s ∷ ss) = Unit

drop_all : (s : Text) → drop (length s) s ≡ []
drop_all [] = refl
drop_all (a ∷ s) = drop_all s

-- What a split is made of: segments, of which there is one where the delimiter is not empty.
abbrev pub AreSegments : Text → List Text → Type 0
AreSegments [] ss = All (IsSegment []) ss
AreSegments (c ∷ d) ss = All (IsSegment (c ∷ d)) ss × IsNonempty ss
