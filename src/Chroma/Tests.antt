-- ===== src/Chroma/Tests.antt =====
-- langchain-chromadb/src/index.ts: runs of the translation, and the theorems at concrete plans.
use query_plan_adapters.Base.{
  ◌*◌, ◌^◌, subst, ◌≡◌, refl, pos, Bool, true, false, Option, none, some, [], ◌∷◌, Text, text,
  text_eq,
}
use query_plan_adapters.Number.{unit, Number, fin}
use query_plan_adapters.Value.{Value, Entries, bool, num, str, arr, nil, cons}
use query_plan_adapters.Plan.{Op, Operand, Operands, value, variable, expression, empty, operand}
use query_plan_adapters.Evaluate.Macros.{is_bool}
use query_plan_adapters.Chroma.Outcome.{
  Attempt, raise_ne, done-injective, done, raise, unsupported, optional_field,
}
use query_plan_adapters.Chroma.Comparisons.{ChromaOp}
use query_plan_adapters.Chroma.Fields.{
  FieldMapper, FieldNameMapperConfig, config, table, function, resolve_field, is_mapped,
  metadata_key, is_boolean,
}
use query_plan_adapters.Chroma.Where.{Where, clause, members, all_of, any_of, also}
use query_plan_adapters.Chroma.Where
use query_plan_adapters.Chroma.Translate.{map_operand}
use query_plan_adapters.Chroma.Meaning.{meaning}
use query_plan_adapters.Chroma.Leaves.{attributes, Conforms}
use query_plan_adapters.Chroma.Sound.{map_operand-admits}
use query_plan_adapters.Chroma.Rules.{IsAllowed}
use query_plan_adapters.Chroma.Allowed.{map_operand-IsAllowed}
use query_plan_adapters.Chroma.Split.{ChromaResult, denied, query_plan_to_chroma_db, conditional}
use query_plan_adapters.Chroma.PostFilter.Compiler.{PostFilterFields}
use query_plan_adapters.Chroma.PostFilter.Operators.{compile_post_filter}
use query_plan_adapters.Chroma.Exact.{
  query_plan_to_chroma_db-IsPlanSplit, IsPlanSplit, opting_in-Unchanged, Unchanged,
}
use query_plan_adapters.Chroma.Inequality.{conforms}
use query_plan_adapters.Chroma.Server.{Server, says}
use query_plan_adapters.Chroma.Comparisons.{is_plan_comparison, key_of}
use query_plan_adapters.Chroma.Literals.{split_by_type}
use query_plan_adapters.Chroma.Partition.{split_by_type_lem}
use query_plan_adapters.Chroma.Refusals.{is_plain, map_operand-refuses}
use query_plan_adapters.Chroma.Sample.{Metadata, server, by_meaning}

abbrev two : Operand → Operand → Operands
two e f = operand e (operand f empty)

abbrev number : Number → Operand
number x = value (num x)

abbrev five : Number
five = fin false (5 * 2 ^ 1074)

abbrev five_halves : Number
five_halves = fin false (5 * 2 ^ 1073)

abbrev required_field : Text → FieldNameMapperConfig
required_field key = record {
  field = key;
  required = some true;
  numeric_type = none;
  value_type = none;
}

abbrev float_field : Text → FieldNameMapperConfig
float_field key = record {
  field = key;
  required = none;
  numeric_type = some (text "float");
  value_type = none;
}

-- One mapper for every reference: `s` is a float, `t` is required, and any other is a plain key.
abbrev mapper : FieldMapper
mapper = table (
    (text "s", config (float_field (text "score")))
    ∷ (text "t", config (required_field (text "tag")))
    ∷ [])

-- `!(s >= 2.5) && !(t in ["a", 5, "b"])`
abbrev condition : Operand
condition = expression Op.and (
    two
      (expression Op.not
        (operand (expression Op.ge (two (variable (text "s")) (number five_halves))) empty))
      (expression Op.not (
        operand
          (expression Op.member (
            two (variable (text "t"))
              (value (arr (cons (str (text "a")) (cons (num five) (cons (str (text "b")) nil)))))))
          empty)))

abbrev condition_filter : Where
condition_filter = all_of (
    also (clause (text "score") ChromaOp.lt (num five_halves)) (
      also
        (all_of (
          also (members (text "tag") ChromaOp.not_member (str (text "a") ∷ str (text "b") ∷ []))
            (also (members (text "tag") ChromaOp.not_member (num five ∷ [])) Where.none)))
        Where.none))

condition_translated : map_operand condition mapper false ≡ done condition_filter
unfolding map_operand text_eq unit
condition_translated = refl

-- `t != "a"` over an optional key.
optional_refused :
    map_operand (expression Op.ne (two (value (str (text "a"))) (variable (text "u")))) mapper false
    ≡ raise (unsupported (some Op.ne) optional_field)
unfolding map_operand text_eq unit
optional_refused = refl

-- Every key is optional and holds floats.
abbrev float_mapper : FieldMapper
float_mapper = function (λ reference. some (config (float_field reference)))

abbrev float_server : Server
float_server = server (λ key. true)

any_conforms :
    (key : Text) (o : Option Value)
    → conforms
        (record {
          name = key;
          numeric_type = some (text "float");
          value_type = none;
          required = false;
        })
        o
        true
      ≡ true
unfolding text_eq
any_conforms key none = refl
any_conforms key (some v) = refl

float_conforms : (d : Metadata) → Conforms float_server float_mapper d
unfolding resolve_field
float_conforms d [] field e = absurd (raise_ne e)
float_conforms d (c ∷ s) field e =
    subst (λ f. conforms f (float_server.metadata d f.name) true ≡ true) (done-injective e)
      (any_conforms (c ∷ s) (float_server.metadata d (c ∷ s)))

-- `!(s >= 2.5) && t in ["a", 5, "b"]`
abbrev float_condition : Operand
float_condition = expression Op.and (
    two
      (expression Op.not
        (operand (expression Op.ge (two (variable (text "s")) (number five_halves))) empty))
      (expression Op.member (
        two (variable (text "t"))
          (value (arr (cons (str (text "a")) (cons (num five) (cons (str (text "b")) nil))))))))

abbrev stored : Metadata
stored = (text "s", num (fin false (2 ^ 1074))) ∷ (text "t", str (text "b")) ∷ []

map_operand-admits_example :
    float_server.admits
      (all_of (
        also (clause (text "s") ChromaOp.lt (num five_halves)) (
          also
            (any_of (
              also
                (members (text "t") ChromaOp.member (str (text "a") ∷ str (text "b") ∷ []))
                (also (members (text "t") ChromaOp.member (num five ∷ [])) Where.none)))
            Where.none)))
      stored
    ≡ is_bool true (meaning float_condition (attributes float_server float_mapper stored))
unfolding map_operand text_eq unit
map_operand-admits_example =
    map_operand-admits float_server float_mapper stored (float_conforms stored) float_condition
      false _ ((tt, tt), (tt, tt)) refl

map_operand-IsAllowed_example : IsAllowed mapper condition_filter
map_operand-IsAllowed_example =
    map_operand-IsAllowed condition mapper false condition_filter condition_translated

-- The first conjunct is pushed down; the second compares two keys, which Chroma cannot.
abbrev split_plan : Operand
split_plan = expression Op.and (
    two (expression Op.lt (two (variable (text "s")) (number five_halves)))
      (expression Op.eq (two (variable (text "t")) (variable (text "u")))))

-- A bare key under `not`, over a required key without a declared type: a record that stores a text is
-- admitted, where CEL's `!` errs.
abbrev untyped_condition : Operand
untyped_condition = expression Op.not (operand (variable (text "t")) empty)

abbrev untyped_filter : Where
untyped_filter = clause (text "tag") ChromaOp.ne (bool true)

abbrev tagged : Metadata
tagged = (text "tag", str (text "x")) ∷ []

untyped_admitted :
    (map_operand untyped_condition mapper false ≡ done untyped_filter)
    × (float_server.admits untyped_filter tagged ≡ true)
    × (is_bool true (meaning untyped_condition (attributes float_server mapper tagged)) ≡ false)
unfolding map_operand meaning text_eq says
untyped_admitted = (refl, refl, refl)

abbrev post_filter_fields : FieldMapper → PostFilterFields
post_filter_fields mapper = record {
  is_mapped = is_mapped mapper;
  metadata_key = metadata_key mapper;
  is_boolean = is_boolean mapper;
}

-- `compilePostFilter`, as the adapter calls it, at one clock reading.
abbrev post_filters : FieldMapper → Operand → Attempt (Entries → Option Bool)
post_filters mapper e = compile_post_filter e (post_filter_fields mapper) (pos 0)

abbrev result_of : {F : Type 0} → Attempt (ChromaResult F) → ChromaResult F
result_of (done result) = result
result_of (raise failure) = denied

unfoldable split_result : ChromaResult (Entries → Option Bool)
unfolding query_plan_to_chroma_db
split_result =
    result_of (query_plan_to_chroma_db post_filters float_mapper (conditional split_plan) true)

query_plan_to_chroma_db-IsPlanSplit_example :
    IsPlanSplit float_server float_mapper stored
      (by_meaning float_mapper (attributes float_server float_mapper stored))
      post_filters
      (conditional split_plan)
      split_result
unfolding split_result query_plan_to_chroma_db text_eq unit compile_post_filter is_mapped
    metadata_key is_boolean
query_plan_to_chroma_db-IsPlanSplit_example =
    query_plan_to_chroma_db-IsPlanSplit float_server float_mapper stored
      (by_meaning float_mapper (attributes float_server float_mapper stored)) post_filters
      (float_conforms stored) (conditional split_plan) true split_result (tt, (tt, tt)) refl

opting_in-Unchanged_example :
    Unchanged
      (query_plan_to_chroma_db post_filters mapper (conditional condition) false)
      (query_plan_to_chroma_db post_filters mapper (conditional condition) true)
opting_in-Unchanged_example = opting_in-Unchanged post_filters mapper (conditional condition)

map_operand-refuses_example : is_plain (map_operand condition mapper false) ≡ false
unfolding is_plan_comparison key_of resolve_field text_eq
map_operand-refuses_example =
    map_operand-refuses mapper condition false (refl, (tt, (tt, tt)))
      (((refl, (tt, tt)), tt), (((refl, (tt, tt)), tt), tt))

split_by_type_lem_example :
    split_by_type (str (text "a") ∷ num five ∷ str (text "b") ∷ [])
    ≡ (str (text "a") ∷ str (text "b") ∷ []) ∷ (num five ∷ []) ∷ []
split_by_type_lem_example = split_by_type_lem (str (text "a") ∷ num five ∷ str (text "b") ∷ [])
