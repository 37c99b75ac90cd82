-- ===== src/Chroma/Split.antt =====
-- langchain-chromadb/src/index.ts: `queryPlanToChromaDB`, and the split of a condition between Chroma
-- and the post-filter. `compilePostFilter` is a parameter here: what it makes is a type `F`.
use query_plan_adapters.Base.{Bool, true, false, Option, none, some, List, [], ◌∷◌}
use query_plan_adapters.Plan.{Op, Operand, Operands, empty, operand, expression, operands_of}
use query_plan_adapters.Chroma.Outcome.{
  Attempt, done, raise, unsupported, plain, invalid_plan, ◌>>=◌,
}
use query_plan_adapters.Chroma.Fields.{FieldMapper}
use query_plan_adapters.Chroma.Where.{Where, all_of, wheres}
use query_plan_adapters.Chroma.Translate.{map_operand, has_two}

-- What a response of the PDP says; `unknown` is any other kind.
pub data QueryPlan : Type 0 where
  always_allowed always_denied unknown : QueryPlan
  conditional : Operand → QueryPlan

-- `QueryPlanToChromaDBResult`
pub data ChromaResult (F : Type 0) : Type 0 where
  allowed denied : ChromaResult F
  filtered : Option Where → Option F → ChromaResult F

-- `catch`: only an `UnsupportedOperatorError` is answered with `undefined`.
abbrev pub caught : Attempt Where → Attempt (Option Where)
caught (done w) = done (some w)
caught (raise (unsupported op reason)) = done none
caught (raise (plain message)) = raise (plain message)

-- `tryPushdown`
unfoldable pub try_pushdown : Operand → FieldMapper → Attempt (Option Where)
unfolding map_operand
try_pushdown e mapper = caught (map_operand e mapper false)

abbrev pub sort_conjunct :
    Operand → Option Where → List Where × List Operand → List Where × List Operand
sort_conjunct e none (pushed, rest) = (pushed, e ∷ rest)
sort_conjunct e (some w) (pushed, rest) = (w ∷ pushed, rest)

-- The loop over the conjuncts.
unfoldable pub split_conjuncts : Operands → FieldMapper → Attempt (List Where × List Operand)
unfolding try_pushdown
split_conjuncts empty mapper = done ([], [])
split_conjuncts (operand e es) mapper = try_pushdown e mapper >>= λ tried.
    split_conjuncts es mapper >>= λ others. done (sort_conjunct e tried others)

-- `rest.length === 1 ? rest[0] : new PlanExpression("and", rest)`
abbrev pub conjunction_of : List Operand → Operand
conjunction_of (e ∷ []) = e
conjunction_of es = expression Op.and (operands_of es)

abbrev pub pushed_filter : List Where → Option Where
pushed_filter [] = none
pushed_filter (w ∷ []) = some w
pushed_filter ws = some (all_of (wheres ws))

module _ {F : Type 0} (compile : FieldMapper → Operand → Attempt F) (mapper : FieldMapper) where
  abbrev post_filtered : Operand → Attempt (ChromaResult F)
  post_filtered e = compile mapper e >>= λ f. done (filtered none (some f))

  abbrev pub combined : List Where × List Operand → Attempt (ChromaResult F)
  combined (pushed, rest) =
      compile mapper (conjunction_of rest) >>= λ f. done (filtered (pushed_filter pushed) (some f))

  abbrev pub split_and : Operands → Bool → Attempt (ChromaResult F)
  split_and es two = elim two [
    | true ↦ split_conjuncts es mapper >>= combined
    | false ↦ post_filtered (expression Op.and es)
  ]

  -- A condition that Chroma does not take whole.
  unfoldable pub split_inexpressible : Operand → Attempt (ChromaResult F)
  unfolding split_conjuncts
  split_inexpressible (expression Op.and es) = split_and es (has_two es)
  split_inexpressible e = post_filtered e

  abbrev pub or_split : Operand → Option Where → Attempt (ChromaResult F)
  or_split e (some w) = done (filtered (some w) none)
  or_split e none = split_inexpressible e

  -- `splitCondition`
  unfoldable pub split_condition : Operand → Attempt (ChromaResult F)
  unfolding try_pushdown split_inexpressible
  split_condition e = try_pushdown e mapper >>= or_split e

  abbrev pushed_down : Operand → Attempt (ChromaResult F)
  pushed_down e = map_operand e mapper false >>= λ w. done (filtered (some w) none)

  -- `queryPlanToChromaDB`, with `allowPostFilter`
  unfoldable pub query_plan_to_chroma_db : QueryPlan → Bool → Attempt (ChromaResult F)
  unfolding map_operand split_condition
  query_plan_to_chroma_db always_allowed opted = done allowed
  query_plan_to_chroma_db always_denied opted = done denied
  query_plan_to_chroma_db unknown opted = raise (plain invalid_plan)
  query_plan_to_chroma_db (conditional e) opted = elim opted [
    | true ↦ split_condition e
    | false ↦ pushed_down e
  ]
