-- ===== src/Cel/Hierarchy/Relations.antt =====
-- convex/src/cel.ts, `isStrictAncestor` and `hierarchiesOverlap`, in terms of the segments.
use mathlib.Core.Bool.{and-eq-true_iff}
use mathlib.Core.List.{append-nil}
use query_plan_adapters.Base.{
  ◌<◌, ltb→lt, lt→ltb, Bool-cases, ◌≡◌, refl, sym, ap₂, ◌∙◌, ◌↔◌, ◌⊎◌, inl, inr, true, List, [],
  ◌∷◌, ◌++◌, ltb, leb, length, length-append, arith, Text, text_eq_sound, text_eq_self,
}
use query_plan_adapters.Cel.Equality.{is_segment_prefix}
use query_plan_adapters.Cel.Hierarchy.{is_strict_ancestor, hierarchies_overlap}

prefix_split :
    (prefix of : List Text)
    → is_segment_prefix prefix of ≡ true
    → (rest : List Text) × (prefix ++ rest ≡ of)
unfolding is_segment_prefix
prefix_split [] of h = (of, refl)
prefix_split (s ∷ prefix) [] h = cc
prefix_split (s ∷ prefix) (t ∷ of) h =
    let (rest, p) = prefix_split prefix of (ground arith) in
    (rest, ap₂ ◌∷◌ (sym (text_eq_sound t s (ground arith))) p)

prefix_of_append : (prefix rest : List Text) → is_segment_prefix prefix (prefix ++ rest) ≡ true
unfolding is_segment_prefix
prefix_of_append [] rest = refl
prefix_of_append (s ∷ prefix) rest = ground (arith, text_eq_self s, prefix_of_append prefix rest)

strict_split :
    (ancestor rest : List Text)
    → length ancestor < length (ancestor ++ rest)
    → (s : Text) × (more : List Text) × (ancestor ++ rest ≡ ancestor ++ s ∷ more)
strict_split ancestor [] h =
    absurd (let none_left : List Text = [] in omega (arith, length-append ancestor none_left, h))
strict_split ancestor (s ∷ more) h = (s, more, refl)

of_length : (ancestor rest : List Text) (s : Text) → length ancestor < length (ancestor ++ s ∷ rest)
of_length ancestor rest s = omega (arith, length-append ancestor (s ∷ rest))

-- A hierarchy is a strict ancestor of another exactly when the other is the first with at least one
-- more segment behind it.
pub is_strict_ancestor_iff :
    (ancestor descendent : List Text)
    → (is_strict_ancestor ancestor descendent ≡ true)
      ↔ ((s : Text) × (rest : List Text) × (descendent ≡ ancestor ++ s ∷ rest))
unfolding is_strict_ancestor
is_strict_ancestor_iff ancestor descendent = (
  λ h.
      let (longer, prefix) = (and-eq-true_iff (ltb (length ancestor) (length descendent)) _).0 h in
      let (rest, p) = prefix_split ancestor descendent prefix in
      let (s, more, q) = strict_split ancestor rest (rw p (ltb→lt _ _ longer)) in
      (s, more, sym p ∙ q),
  λ (s, rest, p). rw p (
      (and-eq-true_iff _ _).1
        (lt→ltb _ _ (of_length ancestor rest s), prefix_of_append ancestor (s ∷ rest))),
)

same_or_longer :
    (left right rest : List Text)
    → left ++ rest ≡ right
    → (left ≡ right) ⊎ (is_strict_ancestor left right ≡ true)
same_or_longer left right [] p = inl (sym (append-nil left) ∙ p)
same_or_longer left right (s ∷ rest) p =
    inr ((is_strict_ancestor_iff left right).1 (s, rest, sym p))

strict-prefix : (a d : List Text) → is_strict_ancestor a d ≡ true → is_segment_prefix a d ≡ true
unfolding is_strict_ancestor
strict-prefix a d h = ((and-eq-true_iff _ _).0 h).1

prefix_self : (a : List Text) → is_segment_prefix a a ≡ true
unfolding is_segment_prefix
prefix_self [] = refl
prefix_self (s ∷ a) = ground (arith, text_eq_self s, prefix_self a)

strict-longer : (a d : List Text) → is_strict_ancestor a d ≡ true → length a < length d
unfolding is_strict_ancestor
strict-longer a d h = ltb→lt _ _ ((and-eq-true_iff _ _).0 h).0

overlap_to :
    (left right : List Text)
    → hierarchies_overlap left right ≡ true
    → (left ≡ right)
      ⊎ ((is_strict_ancestor left right ≡ true) ⊎ (is_strict_ancestor right left ≡ true))
unfolding hierarchies_overlap
overlap_to left right h = elim (Bool-cases (leb (length left) (length right))) [
  | inl short ↦
      let (rest, p) = prefix_split left right (ground arith) in
      elim (same_or_longer left right rest p) [ inl q ↦ inl q | inr k ↦ inr (inl k) ]
  | inr long ↦
      let (rest, p) = prefix_split right left (ground arith) in
      elim (same_or_longer right left rest p) [ inl q ↦ inl (sym q) | inr k ↦ inr (inr k) ]
]

overlap_from :
    (left right : List Text)
    → (left ≡ right)
      ⊎ ((is_strict_ancestor left right ≡ true) ⊎ (is_strict_ancestor right left ≡ true))
    → hierarchies_overlap left right ≡ true
unfolding hierarchies_overlap
overlap_from left right (inl p) = rw p (ground (arith, prefix_self right))
overlap_from left right (inr (inl h)) =
    ground (arith, strict-prefix left right h, strict-longer left right h)
overlap_from left right (inr (inr h)) =
    ground (arith, strict-prefix right left h, strict-longer right left h)

-- Two hierarchies overlap exactly when they are the same or one is a strict ancestor of the other.
pub hierarchies_overlap_iff :
    (left right : List Text)
    → (hierarchies_overlap left right ≡ true) ↔ (
        (left ≡ right)
        ⊎ ((is_strict_ancestor left right ≡ true) ⊎ (is_strict_ancestor right left ≡ true)))
hierarchies_overlap_iff left right = (overlap_to left right, overlap_from left right)
