-- ===== src/Adapter/Outcomes.antt =====
-- convex/src/index.ts: the outcomes of `queryPlanToConvex` with and without `allowPostFilter`.
use query_plan_adapters.Base.{
  ◌≡◌, refl, ◌⊎◌, none, Bool, true, false, not, List, [], ◌∷◌, Bool-cases, inl, inr, filter,
}
use query_plan_adapters.Errors.{Result, ok, throw, needs_post_filter, ◌>>=◌, ◌>>◌}
use query_plan_adapters.Plan.{Op, Operand, empty, operand, expression, operand_list}
use query_plan_adapters.Plan.Mapper.{Mapper}
use query_plan_adapters.Pushdown.{can_push_to_db}
use query_plan_adapters.Adapter.{
  conditional, NullAttributeRepresentation, is_omitted, effective_mapper, ConvexResult,
  split_halves, split_or_post, build_filters, allow, assert_nulls, query_plan_to_convex,
}
use query_plan_adapters.Validate.{
  validate_structure, assert_no_list_valued_condition, assert_every_reference_mapped,
}

module _ {R : Type 0} where
  abbrev NeedsPostFilter : ConvexResult R → Type 0
  NeedsPostFilter result =
      (allow true result ≡ ok result) × (allow false result ≡ throw needs_post_filter)

  halves-NeedsPostFilter :
      (ps ns : List Operand) (e : Operand) (mapper : Mapper) (missing : Bool)
      → NeedsPostFilter (split_halves ps ns e mapper missing)
  halves-NeedsPostFilter [] ns e mapper missing = (refl, refl)
  halves-NeedsPostFilter (p ∷ ps) [] e mapper missing = (refl, refl)
  halves-NeedsPostFilter (p ∷ ps) (n ∷ ns) e mapper missing = (refl, refl)

  split-NeedsPostFilter :
      (e : Operand) (mapper : Mapper) (missing : Bool)
      → NeedsPostFilter (split_or_post e mapper missing)
  split-NeedsPostFilter (expression Op.and (operand x (operand y es))) mapper missing =
      let xs = x ∷ y ∷ operand_list es in
      halves-NeedsPostFilter (filter (λ e. can_push_to_db e mapper) xs)
        (filter (λ e. not (can_push_to_db e mapper)) xs)
        (expression Op.and (operand x (operand y es))) mapper missing
  split-NeedsPostFilter (expression Op.and (operand x empty)) mapper missing = (refl, refl)
  split-NeedsPostFilter (expression Op.and empty) mapper missing = (refl, refl)
  split-NeedsPostFilter e mapper missing = (refl, refl)

  -- The two settings, after the same checks.
  abbrev Permitted : Result (ConvexResult R) → Result (ConvexResult R) → Bool → Type 0
  Permitted lax strict pushable =
      ((pushable ≡ true) × (strict ≡ lax))
      ⊎ ((pushable ≡ false) × (strict ≡ (lax >>= λ result. throw needs_post_filter)))

  build_filters-Permitted :
      (e : Operand) (mapper : Mapper) (missing : Bool)
      → Permitted
          (allow true (build_filters {R = R} e mapper missing))
          (allow false (build_filters {R = R} e mapper missing))
          (can_push_to_db e mapper)
  unfolding build_filters
  build_filters-Permitted e mapper missing = elim (Bool-cases (can_push_to_db e mapper)) [
    | inl h ↦ inl (h, rw h refl)
    | inr h ↦ inr (h, rw h (split-NeedsPostFilter e mapper missing).1)
  ]

  after-Permitted :
      (check : Result (Unit {0})) (lax strict : Result (ConvexResult R)) (pushable : Bool)
      → Permitted lax strict pushable
      → Permitted (check >> lax) (check >> strict) pushable
  after-Permitted (ok u) lax strict pushable h = h
  after-Permitted (throw e) lax strict true h = inl (refl, refl)
  after-Permitted (throw e) lax strict false h = inr (refl, refl)

  -- Without `allowPostFilter` a conditional plan that is pushed down whole has the outcome it has
  -- with `allowPostFilter`, and any other plan is refused: with the refusal it has anyway, or else
  -- with the error that asks for the post-filter.
  pub query_plan_to_convex-allow :
      (condition : Operand) (mapper : Mapper) (nulls : NullAttributeRepresentation)
      → ((can_push_to_db condition (effective_mapper nulls mapper) ≡ true)
          × (query_plan_to_convex {R = R} (conditional condition) mapper false nulls
              ≡ query_plan_to_convex (conditional condition) mapper true nulls))
        ⊎ ((can_push_to_db condition (effective_mapper nulls mapper) ≡ false)
            × (query_plan_to_convex {R = R} (conditional condition) mapper false nulls ≡ (
                query_plan_to_convex {R = R} (conditional condition) mapper true nulls >>= λ result.
                throw needs_post_filter)))
  unfolding query_plan_to_convex
  query_plan_to_convex-allow condition mapper nulls =
      after-Permitted (assert_no_list_valued_condition condition) _ _ _ (
        after-Permitted (assert_nulls nulls condition) _ _ _ (
          after-Permitted (validate_structure condition none) _ _ _ (
            after-Permitted (assert_every_reference_mapped condition mapper []) _ _ _ (
              build_filters-Permitted condition (effective_mapper nulls mapper)
                (is_omitted nulls)))))
