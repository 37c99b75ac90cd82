-- ===== src/Adapter.antt =====
-- convex/src/index.ts: `queryPlanToConvex`, from a plan to the filter and the post-filter.
pub mod Split
pub mod Correct
pub mod Outcomes
mod Tests
use query_plan_adapters.Base.{
  Bool, true, false, not, ◌&&◌, ◌||◌, Option, none, some, List, [], ◌∷◌, ℤ, if◌then◌else◌, filter,
}
use query_plan_adapters.Errors.{
  Refusal, Failure, unsupported, needs_post_filter, Result, ok, throw, ◌>>=◌, ◌>>◌,
}
use query_plan_adapters.Value.{Value}
use query_plan_adapters.Plan.{
  Op, Operand, Operands, empty, operand, expression, operand_list, operands_of,
}
use query_plan_adapters.Plan.Mapper.{Mapper, with_omitted_null_default}
use query_plan_adapters.Evaluate.{evaluate}
use query_plan_adapters.Evaluate.Frame.{Scope}
use query_plan_adapters.Evaluate.Macros.{is_bool}
use query_plan_adapters.Pushdown.{FilterQ, can_push_to_db, translate_expression}
use query_plan_adapters.Validate.{
  validate_structure, assert_no_list_valued_condition, assert_no_null_comparison_operands,
  assert_every_reference_mapped,
}

-- `PlanResourcesResponse`, by its kind.
pub data QueryPlan : Type 0 where
  always_allowed always_denied unknown_kind : QueryPlan
  conditional : Operand → QueryPlan

-- `NullAttributeRepresentation`
pub data NullAttributeRepresentation : Type 0 where
  explicit omitted : NullAttributeRepresentation

abbrev pub is_omitted : NullAttributeRepresentation → Bool
is_omitted explicit = false
is_omitted omitted = true

-- `PostFilter`, a function of the document and of the clock when it is called.
abbrev pub PostFilter : Type 0
PostFilter = Value → ℤ → Result Bool

-- `QueryPlanToConvexResult`: a filter is a function of the builder.
pub data ConvexResult (R : Type 0) : Type 0 where
  allowed denied : ConvexResult R
  db : (FilterQ R → Result R) → ConvexResult R
  post : PostFilter → ConvexResult R
  split : (FilterQ R → Result R) → PostFilter → ConvexResult R

-- `conjunction`
unfoldable pub conjunction : List Operand → Operand
conjunction (e ∷ []) = e
conjunction es = expression Op.and (operands_of es)

-- `postFilterFor`
unfoldable pub post_filter_for : Operand → Mapper → Bool → PostFilter
unfolding evaluate
post_filter_for e mapper null_is_missing doc now =
    evaluate e (record {
      doc = doc;
      mapper = mapper;
      bindings = [];
      null_is_missing = null_is_missing;
      now = now;
    })
    >>= λ v. ok (is_bool true v)

abbrev has_two : Operands → Bool
has_two (operand e (operand f es)) = true
has_two _ = false

-- The mapper as the convention reads it.
abbrev pub effective_mapper : NullAttributeRepresentation → Mapper → Mapper
effective_mapper explicit mapper = mapper
effective_mapper omitted mapper = with_omitted_null_default mapper

abbrev assert_nulls : NullAttributeRepresentation → Operand → Result (Unit {0})
assert_nulls explicit condition = ok tt
assert_nulls omitted condition = assert_no_null_comparison_operands condition

module _ {R : Type 0} where
  -- `convexFilter`
  unfoldable pub convex_filter : Operand → Mapper → FilterQ R → Result R
  unfolding translate_expression
  convex_filter e mapper q = translate_expression q mapper e

  -- The two halves of a root `and` that mixes both kinds; with one kind alone all is left to the
  -- post-filter.
  abbrev pub split_halves : List Operand → List Operand → Operand → Mapper → Bool → ConvexResult R
  split_halves (p ∷ pushable) (n ∷ non_pushable) e mapper null_is_missing =
      split (convex_filter (conjunction (p ∷ pushable)) mapper)
        (post_filter_for (conjunction (n ∷ non_pushable)) mapper null_is_missing)
  split_halves _ _ e mapper null_is_missing = post (post_filter_for e mapper null_is_missing)

  abbrev split_or_post : Operand → Mapper → Bool → ConvexResult R
  split_or_post (expression Op.and es) mapper null_is_missing =
      if has_two es
      then split_halves (filter (λ e. can_push_to_db e mapper) (operand_list es))
          (filter (λ e. not (can_push_to_db e mapper)) (operand_list es)) (expression Op.and es)
          mapper null_is_missing
      else post (post_filter_for (expression Op.and es) mapper null_is_missing)
  split_or_post e mapper null_is_missing = post (post_filter_for e mapper null_is_missing)

  -- `buildFilters`
  unfoldable pub build_filters : Operand → Mapper → Bool → ConvexResult R
  unfolding can_push_to_db conjunction
  build_filters e mapper null_is_missing =
      if can_push_to_db e mapper
      then db (convex_filter e mapper)
      else split_or_post e mapper null_is_missing

  -- `result.postFilter && !allowPostFilter`
  abbrev allow : Bool → ConvexResult R → Result (ConvexResult R)
  allow true result = ok result
  allow false (post p) = throw needs_post_filter
  allow false (split f p) = throw needs_post_filter
  allow false result = ok result

  -- `queryPlanToConvex`
  unfoldable pub query_plan_to_convex :
      QueryPlan → Mapper → Bool → NullAttributeRepresentation → Result (ConvexResult R)
  unfolding build_filters with_omitted_null_default assert_no_list_valued_condition
      assert_no_null_comparison_operands validate_structure assert_every_reference_mapped
  query_plan_to_convex always_allowed mapper allow_post_filter nulls = ok allowed
  query_plan_to_convex always_denied mapper allow_post_filter nulls = ok denied
  query_plan_to_convex unknown_kind mapper allow_post_filter nulls =
      throw (unsupported Refusal.invalid_plan)
  query_plan_to_convex (conditional condition) mapper allow_post_filter nulls =
      assert_no_list_valued_condition condition
      >> (assert_nulls nulls condition
          >> (validate_structure condition none
              >> (assert_every_reference_mapped condition mapper []
                  >> allow allow_post_filter (
                      build_filters condition (effective_mapper nulls mapper) (is_omitted nulls)))))
