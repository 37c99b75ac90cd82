-- ===== src/Pushdown/Leaves.antt =====
-- convex/src/pushdown.ts, the leaves: what an emitted comparison, a guard and a membership test hold
-- for, on a document whose field holds a plain value.
use query_plan_adapters.Base.{
  ◌≡◌, refl, sym, Bool, true, false, not, [], Text, arith, if◌then◌else◌, eq_of_iff, ℤ,
}
use query_plan_adapters.Number.{Number}
use query_plan_adapters.Value.{Value, bool, num, str}
use query_plan_adapters.Plain.{
  IsPlain, IsMapFree, values_equal_iff, values_equal_iff_left, IsPlain-not_error,
  IsOrdinary-not_nan,
}
use query_plan_adapters.Plan.Mapper.{Mapper, resolve_field}
use query_plan_adapters.Cel.Equality.{values_equal}
use query_plan_adapters.Cel.Path.{get_nested_value}
use query_plan_adapters.Cel.Order.{Comparison, compare_code_points, by_sign, by_number, by_bool}
use query_plan_adapters.Cel.CodePoints.{flip-compare_code_points}
use query_plan_adapters.Cel.Mirror.{IsOrdering}
use query_plan_adapters.Evaluate.Frame.{Scope, look_up, read_path}
use query_plan_adapters.Pushdown.{Argument, built, polarised, convex_comparison}
use query_plan_adapters.Pushdown.Engine.{Stored, stored, Engine}

-- The scope of `postFilterFor`: no lambda variable.
abbrev pub document_scope : Value → Mapper → Bool → ℤ → Scope
document_scope doc mapper null_is_missing now = record {
  doc = doc;
  mapper = mapper;
  bindings = [];
  null_is_missing = null_is_missing;
  now = now;
}

look_up_document :
    (name : Text) (doc : Value) (mapper : Mapper) (missing : Bool) (now : ℤ)
    → look_up name (document_scope doc mapper missing now)
      ≡ read_path (get_nested_value doc (resolve_field name mapper)) missing
unfolding look_up
look_up_document name doc mapper missing now = ground arith

read_path_plain :
    (v : Value) (missing : Bool) → IsPlain (read_path v missing) → v ≡ read_path v missing
unfolding read_path
read_path_plain v missing h = ground arith

module _ (E : Engine) where
  open E use {holds, value_of, same, before}

  -- A field that reads as a plain value is stored as that value.
  pub value_of-look_up :
      (name : Text) (doc : Value) (mapper : Mapper) (missing : Bool) (now : ℤ)
      → IsPlain (look_up name (document_scope doc mapper missing now))
      → value_of (built (E.q.field (resolve_field name mapper))) doc
        ≡ stored (look_up name (document_scope doc mapper missing now))
  value_of-look_up name doc mapper missing now h =
      let e = look_up_document name doc mapper missing now in
      let p = read_path_plain _ missing (rw e at h) in
      rw e (rw (← p) (E.value_of-field _ doc (IsPlain-not_error _ (rw (← p) at (rw e at h)))))

  -- What each builder comparison says of two stored values.
  abbrev pub says : Comparison → Stored → Stored → Bool
  says Comparison.eq a b = same a b
  says Comparison.ne a b = not (same a b)
  says Comparison.lt a b = before a b
  says Comparison.le a b = not (before b a)
  says Comparison.gt a b = before b a
  says Comparison.ge a b = not (before a b)

  pub holds-convex_comparison :
      (op : Comparison) (a b : Argument E.Expr) (d : Value)
      → holds (convex_comparison E.q op a b) d ≡ says op (value_of a d) (value_of b d)
  holds-convex_comparison Comparison.eq a b d = E.holds-eq a b d
  holds-convex_comparison Comparison.ne a b d = E.holds-neq a b d
  holds-convex_comparison Comparison.lt a b d = E.holds-lt a b d
  holds-convex_comparison Comparison.le a b d = E.holds-lte a b d
  holds-convex_comparison Comparison.gt a b d = E.holds-gt a b d
  holds-convex_comparison Comparison.ge a b d = E.holds-gte a b d

  pub same-values_equal :
      (v w : Value) → IsPlain v → IsMapFree w → same (stored v) (stored w) ≡ values_equal v w
  same-values_equal v w h g =
      let (s, s') = E.same_iff v w h g in
      let (t, t') = values_equal_iff v w h g in eq_of_iff _ _ (λ e. t' (s e), λ e. s' (t e))

  pub same-values_equal_left :
      (v w : Value) → IsPlain v → IsMapFree w → same (stored v) (stored w) ≡ values_equal w v
  same-values_equal_left v w h g =
      let (s, s') = E.same_iff v w h g in
      let (t, t') = values_equal_iff_left w v g h in
      eq_of_iff _ _ (λ e. t' (sym (s e)), λ e. s' (sym (t e)))

  -- The polarity that an enclosing negation gives.
  pub holds-polarised :
      (negated : Bool) (e : E.Expr) (d : Value)
      → holds (polarised E.q negated e) d ≡ (if negated then not (holds e d) else holds e d)
  holds-polarised true e d = E.holds-negate e d
  holds-polarised false e d = refl

  pub says_num :
      (op : Comparison) (x y : Number)
      → IsOrdering op
      → IsPlain (num x)
      → IsPlain (num y)
      → says op (stored (num x)) (stored (num y)) ≡ by_number op x y
  unfolding by_number
  says_num op x y o h g = ground (
    arith,
    E.before-num x y h g,
    E.before-num y x g h,
    IsOrdinary-not_nan x h,
    IsOrdinary-not_nan y g,
  )

  pub says_bool :
      (op : Comparison) (a b : Bool)
      → IsOrdering op
      → says op (stored (bool a)) (stored (bool b)) ≡ by_bool op a b
  unfolding by_bool
  says_bool op a b o = ground (arith, E.before-bool a b, E.before-bool b a)

  pub says_str :
      (op : Comparison) (s t : Text)
      → IsOrdering op
      → says op (stored (str s)) (stored (str t)) ≡ by_sign op (compare_code_points s t)
  unfolding by_sign
  says_str op s t o =
      ground (arith, E.before-str s t, E.before-str t s, flip-compare_code_points t s)
