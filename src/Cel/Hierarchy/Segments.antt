-- ===== src/Cel/Hierarchy/Segments.antt =====
-- convex/src/cel.ts, `splitHierarchy`: no segment holds the delimiter.
use mathlib.Core.List.{append_assoc}
use query_plan_adapters.Base.{
  ℕ, zero, suc, ◌-◌, ◌≡◌, refl, sym, subst, Bool, true, false, List, [], ◌∷◌, ◌++◌, All, arith,
  Text, starts_with, includes, units, length, map,
}
use query_plan_adapters.Cel.Hierarchy.{split_on_from}

-- At no position of a piece does the delimiter start, in the piece and what follows it.
abbrev NoneIn : Text → Text → Text → Type 0
NoneIn d [] s = Unit
NoneIn d (a ∷ piece) s = (starts_with (a ∷ piece ++ s) d ≡ false) × NoneIn d piece s

NoneIn-grow :
    (d piece : Text) (a : ℕ) (s : Text)
    → NoneIn d piece (a ∷ s)
    → starts_with (a ∷ s) d ≡ false
    → NoneIn d (piece ++ a ∷ []) s
NoneIn-grow d [] a s h k = (k, tt)
NoneIn-grow d (b ∷ piece) a s (h, hs) k = (
  subst (λ t. starts_with (b ∷ t) d ≡ false) (sym (append_assoc piece (a ∷ []) s)) h,
  NoneIn-grow d piece a s hs k,
)

starts_with_longer : (s t d : Text) → starts_with (s ++ t) d ≡ false → starts_with s d ≡ false
unfolding starts_with
starts_with_longer s t [] h = h
starts_with_longer [] t (c ∷ d) h = refl
starts_with_longer (a ∷ s) t (c ∷ d) h = ground (arith, starts_with_longer s t d)

NoneIn-includes :
    (c : ℕ) (d piece s : Text) → NoneIn (c ∷ d) piece s → includes piece (c ∷ d) ≡ false
unfolding includes starts_with
NoneIn-includes c d [] s h = refl
NoneIn-includes c d (a ∷ piece) s (h, hs) =
    ground (arith, starts_with_longer (a ∷ piece) s (c ∷ d) h, NoneIn-includes c d piece s hs)

-- A segment of a split at a delimiter: no occurrence of it, or one code point where it is empty.
abbrev pub IsSegment : Text → Text → Type 0
IsSegment [] segment = (c : ℕ) × (segment ≡ units c)
IsSegment (c ∷ d) segment = includes segment (c ∷ d) ≡ false

-- While the units of an occurrence are passed over, the next segment is empty.
abbrev Ready : Text → ℕ → Text → Text → Type 0
Ready d zero piece s = NoneIn d piece s
Ready d (suc skip) piece s = piece ≡ []

Ready-empty : (d : Text) (skip : ℕ) (s : Text) → Ready d skip [] s
Ready-empty d zero s = tt
Ready-empty d (suc skip) s = refl

next_unit :
    (P : Text → Type 0) (b : Bool) (piece : Text) (found passed : List Text)
    → P piece
    → All P found
    → (b ≡ false → All P passed)
    → All P (elim b as (λ x. List Text) [ true ↦ piece ∷ found | false ↦ passed ])
next_unit P true piece found passed h k g = (h, k)
next_unit P false piece found passed h k g = g refl

pub split_on_from-IsSegment :
    (c : ℕ) (d : Text) (skip : ℕ) (piece s : Text)
    → Ready (c ∷ d) skip piece s
    → All (IsSegment (c ∷ d)) (split_on_from (c ∷ d) skip piece s)
unfolding split_on_from
split_on_from-IsSegment c d zero piece [] h = (NoneIn-includes c d piece [] h, tt)
split_on_from-IsSegment c d (suc skip) piece [] h =
    (subst (λ t. includes t (c ∷ d) ≡ false) (sym h) (NoneIn-includes c d [] [] tt), tt)
split_on_from-IsSegment c d (suc skip) piece (a ∷ s) h =
    subst (λ t. All (IsSegment (c ∷ d)) (split_on_from (c ∷ d) skip t s)) (sym h)
      (split_on_from-IsSegment c d skip [] s (Ready-empty (c ∷ d) skip s))
split_on_from-IsSegment c d zero piece (a ∷ s) h =
    next_unit (IsSegment (c ∷ d)) (starts_with (a ∷ s) (c ∷ d)) piece _ _
      (NoneIn-includes c d piece (a ∷ s) h)
      (split_on_from-IsSegment c d (length (c ∷ d) - 1) [] s
        (Ready-empty (c ∷ d) (length (c ∷ d) - 1) s))
      (λ e.
        split_on_from-IsSegment c d zero (piece ++ a ∷ []) s (NoneIn-grow (c ∷ d) piece a s h e))

pub code_points-IsSegment : (cs : List ℕ) → All (IsSegment []) (map units cs)
code_points-IsSegment [] = tt
code_points-IsSegment (c ∷ cs) = ((c, refl), code_points-IsSegment cs)
