-- ===== src/Pushdown/Ordering.antt =====
-- convex/src/pushdown.ts, `sameTypeAs` and `orderingRule`: what a guarded ordering holds for.
use query_plan_adapters.Base.{
  ◌≡◌, refl, ap₂, ◌∙◌, Bool, true, false, not, ◌&&◌, [], ◌∷◌, Text, arith, if◌then◌else◌,
}
use query_plan_adapters.Number.{Number}
use query_plan_adapters.Value.{Value, evaluation_error, null, bool, num, str, arr, is_string}
use query_plan_adapters.Plain.{IsPlain, IsMapFree, IsOrdinary-not_nan, IsMapFree-IsPlain}
use query_plan_adapters.Plan.Mapper.{Mapper}
use query_plan_adapters.Cel.Equality.{values_equal}
use query_plan_adapters.Cel.Order.{
  Comparison, compare_code_points, by_sign, by_number, by_bool, order_values, compare_values,
}
use query_plan_adapters.Cel.Mirror.{IsOrdering}
use query_plan_adapters.Evaluate.Macros.{is_bool}
use query_plan_adapters.Pushdown.{
  built, constant, empty_bytes, polarised, convex_comparison, same_type_as, int64_max, guarded,
  never,
}
use query_plan_adapters.Pushdown.Leaves.{
  says, says_num, says_bool, says_str, holds-polarised, holds-convex_comparison, same-values_equal,
}
use query_plan_adapters.Pushdown.Engine.{stored, bytes, Engine}

abbrev is_num : Value → Bool
is_num (num x) = true
is_num _ = false

abbrev is_boolean : Value → Bool
is_boolean (bool b) = true
is_boolean _ = false

-- `compareValues` of plain values: the order of their type, or an error.
compare_values-num :
    (op : Comparison) (x y : Number)
    → IsOrdering op
    → IsPlain (num x)
    → IsPlain (num y)
    → compare_values op (num x) (num y) ≡ bool (by_number op x y)
unfolding compare_values order_values
compare_values-num op x y o h g = ground (arith, IsOrdinary-not_nan x h, IsOrdinary-not_nan y g)

compare_values-bool :
    (op : Comparison) (a b : Bool)
    → IsOrdering op
    → compare_values op (bool a) (bool b) ≡ bool (by_bool op a b)
unfolding compare_values order_values
compare_values-bool op a b o = ground arith

compare_values-str :
    (op : Comparison) (s t : Text)
    → IsOrdering op
    → compare_values op (str s) (str t) ≡ bool (by_sign op (compare_code_points s t))
unfolding compare_values order_values
compare_values-str op s t o = ground arith

-- Values of two types, one of them a literal.
abbrev kind_of : Value → Value → Bool
kind_of (num y) v = is_num v
kind_of (bool b) v = is_boolean v
kind_of (str t) v = is_string v
kind_of _ v = false

compare_values-apart :
    (op : Comparison) (v l : Value)
    → IsOrdering op
    → IsPlain v
    → IsPlain l
    → kind_of l v ≡ false
    → compare_values op v l ≡ evaluation_error
unfolding compare_values order_values
compare_values-apart op (num x) l o h g k = grind (arith, IsOrdinary-not_nan)
compare_values-apart op v (num y) o h g k = grind (arith, IsOrdinary-not_nan)
compare_values-apart op v l o h g k = ground arith

-- No text is before the empty one.
not_before-nil : (s : Text) → by_sign Comparison.lt (compare_code_points s []) ≡ false
unfolding compare_code_points by_sign
not_before-nil [] = refl
not_before-nil (a ∷ s) = refl

true_is_not_false : values_equal (bool true) (bool false) ≡ false
unfolding values_equal
true_is_not_false = refl

module _ (E : Engine) where
  open E use {holds, value_of, same, before}

  between_numbers :
      (v : Value)
      → IsPlain v
      → (before (stored int64_max) (stored v) && (before (stored v) (stored (bool false)) && true))
        ≡ is_num v
  unfolding by_bool
  between_numbers (bool b) h =
      ground (arith, E.before_across (stored int64_max) (stored (bool b)), E.before-bool b false)
  between_numbers v h = ground (
    arith,
    E.before_across (stored int64_max) (stored v),
    E.not_before_across (stored int64_max) (stored v),
    E.before_across (stored v) (stored (bool false)),
    E.not_before_across (stored v) (stored (bool false)),
  )

  between_booleans :
      (v : Value)
      → IsPlain v
      → (not (before (stored v) (stored (bool false)))
          && (not (before (stored (bool true)) (stored v)) && true))
        ≡ is_boolean v
  unfolding by_bool
  between_booleans (bool b) h = ground (arith, E.before-bool b false, E.before-bool true b)
  between_booleans v h = ground (
    arith,
    E.before_across (stored v) (stored (bool false)),
    E.not_before_across (stored v) (stored (bool false)),
    E.before_across (stored (bool true)) (stored v),
    E.not_before_across (stored (bool true)) (stored v),
  )

  between_strings :
      (v : Value)
      → IsPlain v
      → (not (before (stored v) (stored (str []))) && (before (stored v) bytes && true))
        ≡ is_string v
  between_strings (str s) h =
      rw (E.before-str s [], not_before-nil s)
        (ground (arith, E.before_across (stored (str s)) bytes))
  between_strings v h = ground (
    arith,
    E.before_across (stored v) (stored (str [])),
    E.not_before_across (stored v) (stored (str [])),
    E.before_across (stored v) bytes,
    E.not_before_across (stored v) bytes,
  )

  module _ (f : E.Expr) (d v : Value) (e : value_of (built f) d ≡ stored v) where
    guard_num :
        IsPlain v
        → holds
            (E.q.all_of (
              E.q.gt (built f) (constant int64_max)
              ∷ E.q.lt (built f) (constant (bool false))
              ∷ []))
            d
          ≡ is_num v
    guard_num h = rw (E.holds-all_of) (
        rw
          (
            E.holds-gt (built f) (constant int64_max) d,
            E.holds-lt (built f) (constant (bool false)) d,
            e,
          )
          (rw (E.value_of-constant int64_max d, E.value_of-constant (bool false) d)
            (between_numbers v h)))

    guard_bool :
        IsPlain v
        → holds
            (E.q.all_of (
              E.q.gte (built f) (constant (bool false))
              ∷ E.q.lte (built f) (constant (bool true))
              ∷ []))
            d
          ≡ is_boolean v
    guard_bool h = rw (E.holds-all_of) (
        rw
          (
            E.holds-gte (built f) (constant (bool false)) d,
            E.holds-lte (built f) (constant (bool true)) d,
            e,
          )
          (rw (E.value_of-constant (bool true) d, E.value_of-constant (bool false) d)
            (between_booleans v h)))

    guard_str :
        IsPlain v
        → holds
            (E.q.all_of (E.q.gte (built f) (constant (str [])) ∷ E.q.lt (built f) empty_bytes ∷ []))
            d
          ≡ is_string v
    guard_str h = rw (E.holds-all_of) (
        rw (E.holds-gte (built f) (constant (str [])) d, E.holds-lt (built f) empty_bytes d, e)
          (rw (E.value_of-constant (str []) d, E.value_of-empty_bytes d) (between_strings v h)))

    says_literal :
        (op : Comparison) (l : Value)
        → holds (convex_comparison E.q op (built f) (constant l)) d
          ≡ says E op (stored v) (stored l)
    says_literal op l =
        holds-convex_comparison E op (built f) (constant l) d
        ∙ ap₂ (says E op) e (E.value_of-constant l d)

    guarded_parts :
        (op : Comparison) (negated : Bool) (l : Value) (g : E.Expr) (kind : Bool)
        → holds g d ≡ kind
        → holds
            (E.q.all_of
              (g ∷ polarised E.q negated (convex_comparison E.q op (built f) (constant l)) ∷ []))
            d
          ≡ (kind
              && ((if negated
                    then not (says E op (stored v) (stored l))
                    else says E op (stored v) (stored l))
                  && true))
    guarded_parts op negated l g kind h = rw (E.holds-all_of) (
        rw
          (
            h,
            holds-polarised E negated (convex_comparison E.q op (built f) (constant l)) d,
            says_literal op l,
          )
          refl)

  module _ (op : Comparison) (negated : Bool) (o : IsOrdering op) where
    -- A guarded ordering, over a value of the literal's type and over any other.
    abbrev under_guard : Value → Value → Bool
    under_guard v l =
        kind_of l v
        && ((if negated
              then not (says E op (stored v) (stored l))
              else says E op (stored v) (stored l))
            && true)

    under_guard-apart :
        (v l : Value)
        → IsPlain v
        → IsPlain l
        → kind_of l v ≡ false
        → under_guard v l ≡ is_bool (not negated) (compare_values op v l)
    under_guard-apart v l h g k = ground (arith, compare_values-apart op v l o h g k)

    under_guard_lem :
        (v l : Value)
        → IsPlain v
        → IsPlain l
        → under_guard v l ≡ is_bool (not negated) (compare_values op v l)
    under_guard_lem (num x) (num y) h g =
        rw (says_num E op x y o h g, compare_values-num op x y o h g) (ground arith)
    under_guard_lem (bool a) (bool b) h g =
        rw (says_bool E op a b o, compare_values-bool op a b o) (ground arith)
    under_guard_lem (str s) (str t) h g =
        rw (says_str E op s t o, compare_values-str op s t o) (ground arith)
    under_guard_lem v l h g = under_guard-apart v l h g (ground arith)

  pub holds-never : (d : Value) → holds (never E.q) d ≡ false
  holds-never d =
      E.holds-eq (constant (bool true)) (constant (bool false)) d
      ∙ (ap₂ same (E.value_of-constant (bool true) d) (E.value_of-constant (bool false) d)
          ∙ same-values_equal E (bool true) (bool false) tt tt
          ∙ true_is_not_false)

  module _ (mapper : Mapper) (op : Comparison) (negated : Bool) (o : IsOrdering op) where
    -- What `orderingRule` emits for a field that holds `v` and a literal, the field first.
    pub holds-guarded :
        (f : E.Expr) (d v l : Value)
        → value_of (built f) d ≡ stored v
        → IsPlain v
        → IsMapFree l
        → holds
            (guarded E.q mapper negated
              (convex_comparison E.q op (built f) (constant l))
              (same_type_as E.q l f))
            d
          ≡ is_bool (not negated) (compare_values op v l)
    unfolding same_type_as
    holds-guarded f d v (num y) e h g =
        guarded_parts f d v e op negated (num y) _ (is_num v) (guard_num f d v e h)
        ∙ under_guard_lem op negated o v (num y) h g
    holds-guarded f d v (bool b) e h g =
        guarded_parts f d v e op negated (bool b) _ (is_boolean v) (guard_bool f d v e h)
        ∙ under_guard_lem op negated o v (bool b) h g
    holds-guarded f d v (str s) e h g =
        guarded_parts f d v e op negated (str s) _ (is_string v) (guard_str f d v e h)
        ∙ under_guard_lem op negated o v (str s) h g
    holds-guarded f d v null e h g = holds-never d ∙ under_guard_lem op negated o v null h g
    holds-guarded f d v (arr vs) e h g =
        holds-never d ∙ under_guard_lem op negated o v (arr vs) h (IsMapFree-IsPlain (arr vs) g)
    holds-guarded f d v _ e h g = absurd g
