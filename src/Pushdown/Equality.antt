-- ===== src/Pushdown/Equality.antt =====
-- convex/src/pushdown.ts, `equalityRule` and "in": what they emit for a field that holds a plain
-- value.
use query_plan_adapters.Base.{
  ◌≡◌, refl, ap₂, ◌∙◌, Bool, true, false, not, ◌||◌, map, any, Text, arith, if◌then◌else◌,
}
use query_plan_adapters.Value.{Value, Items, nil, cons, arr, elems}
use query_plan_adapters.Plain.{IsPlain, IsMapFree, AreMapFree, IsPlain-not_error, IsMapFree-IsPlain}
use query_plan_adapters.Plan.Mapper.{Mapper, resolve_field}
use query_plan_adapters.Cel.Equality.{values_equal}
use query_plan_adapters.Cel.Order.{Comparison, compare_values}
use query_plan_adapters.Evaluate.Macros.{is_bool}
use query_plan_adapters.Evaluate.Lists.{list_contains, membership}
use query_plan_adapters.Pushdown.{
  built, constant, polarised, convex_comparison, equals_field, built_membership,
}
use query_plan_adapters.Pushdown.Engine.{stored, Engine}
use query_plan_adapters.Pushdown.Leaves.{
  holds-convex_comparison, holds-polarised, same-values_equal, same-values_equal_left,
}
use query_plan_adapters.Pushdown.Ordering.{holds-never}

abbrev pub IsEquality : Comparison → Type 0
IsEquality Comparison.eq = Unit
IsEquality Comparison.ne = Unit
IsEquality _ = ⊥

abbrev is_eq : Comparison → Bool
is_eq Comparison.eq = true
is_eq _ = false

module _ (E : Engine) (negated : Bool) where
  open E use {holds, value_of, same}

  module _ (op : Comparison) (o : IsEquality op) (f : E.Expr) (doc v l : Value)
      (e : value_of (built f) doc ≡ stored v) (h : IsPlain v) (g : IsMapFree l) where
    says_equality :
        (equal : Bool)
        → same (stored v) (stored l) ≡ equal
        → holds (polarised E.q negated (convex_comparison E.q op (built f) (constant l))) doc ≡ (
            if negated
            then not (if is_eq op then equal else not equal)
            else if is_eq op
            then equal
            else not equal)
    says_equality equal p =
        holds-polarised E negated (convex_comparison E.q op (built f) (constant l)) doc
        ∙ rw (holds-convex_comparison E op (built f) (constant l) doc, e, E.value_of-constant l doc)
            (ground arith)

    pub holds-equality :
        holds (polarised E.q negated (convex_comparison E.q op (built f) (constant l))) doc
        ≡ is_bool (not negated) (compare_values op v l)
    unfolding compare_values
    holds-equality =
        says_equality _ (same-values_equal E v l h g)
        ∙ ground (arith, IsPlain-not_error v h, IsPlain-not_error l (IsMapFree-IsPlain l g))

    pub holds-equality_swapped :
        holds (polarised E.q negated (convex_comparison E.q op (built f) (constant l))) doc
        ≡ is_bool (not negated) (compare_values op l v)
    unfolding compare_values
    holds-equality_swapped =
        says_equality _ (same-values_equal_left E v l h g)
        ∙ ground (arith, IsPlain-not_error v h, IsPlain-not_error l (IsMapFree-IsPlain l g))

  module _ (mapper : Mapper) (name : Text) (doc v : Value)
      (e : value_of (built (E.q.field (resolve_field name mapper))) doc ≡ stored v)
      (h : IsPlain v) where
    holds-equals_field :
        (l : Value) → IsMapFree l → holds (equals_field E.q mapper name l) doc ≡ values_equal l v
    holds-equals_field l g =
        E.holds-eq _ _ doc
        ∙ (ap₂ same e (E.value_of-constant l doc) ∙ same-values_equal_left E v l h g)

    any-equals_field :
        (vs : Items)
        → AreMapFree vs
        → any (λ x. holds x doc) (map (equals_field E.q mapper name) (elems vs))
          ≡ list_contains (elems vs) v
    unfolding list_contains
    any-equals_field nil g = refl
    any-equals_field (cons l vs) (g, gs) =
        ap₂ ◌||◌ (holds-equals_field l g) (any-equals_field vs gs)

    holds-built_membership :
        (vs : Items)
        → AreMapFree vs
        → holds (built_membership E.q mapper name (elems vs)) doc ≡ list_contains (elems vs) v
    unfolding list_contains
    holds-built_membership nil g = holds-never E doc
    holds-built_membership (cons l nil) g = holds-equals_field l g.0 ∙ ground arith
    holds-built_membership (cons l (cons m vs)) g =
        E.holds-any_of _ doc ∙ any-equals_field (cons l (cons m vs)) g

    pub holds-membership :
        (vs : Items)
        → AreMapFree vs
        → holds (polarised E.q negated (built_membership E.q mapper name (elems vs))) doc
          ≡ is_bool (not negated) (membership v (arr vs))
    unfolding membership
    holds-membership vs g =
        holds-polarised E negated _ doc
        ∙ rw (holds-built_membership vs g) (ground (arith, IsPlain-not_error v h))
