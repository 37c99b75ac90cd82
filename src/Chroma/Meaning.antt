-- ===== src/Chroma/Meaning.antt =====
-- The meaning that CEL gives a condition over flat attributes, in three-valued logic, as the
-- reference for langchain-chromadb/src/index.ts: a missing attribute is an error, and so is a
-- condition that is no Boolean or an ordering across types.
use query_plan_adapters.Base.{true, false, not, Option, none, some, List, [], ◌∷◌, Text}
use query_plan_adapters.Value.{Value, evaluation_error, bool}
use query_plan_adapters.Plan.{
  Op, Operand, Operands, value, variable, expression, malformed, empty, operand,
}
use query_plan_adapters.Cel.Order.{Comparison, compare_values}
use query_plan_adapters.Evaluate.Lists.{membership}
use query_plan_adapters.Pushdown.Answers.{three_valued}
use query_plan_adapters.Chroma.Comparisons.{Key, key_of}

-- The value of an attribute.
abbrev pub attribute : Option Value → Value
attribute none = evaluation_error
attribute (some v) = v

unfoldable pub negated_value : Value → Value
negated_value (bool b) = bool (not b)
negated_value _ = evaluation_error

-- A comparison of two values.
unfoldable pub relation : Key → Value → Value → Value
unfolding compare_values membership negated_value
relation Key.eq a b = compare_values Comparison.eq a b
relation Key.ne a b = compare_values Comparison.ne a b
relation Key.lt a b = compare_values Comparison.lt a b
relation Key.le a b = compare_values Comparison.le a b
relation Key.gt a b = compare_values Comparison.gt a b
relation Key.ge a b = compare_values Comparison.ge a b
relation Key.member a b = membership a b
relation Key.nin a b = negated_value (membership a b)

unfoldable pub related : Option Key → List Value → Value
unfolding relation
related (some key) (a ∷ b ∷ []) = relation key a b
related _ vs = evaluation_error

unfoldable pub applied : Op → List Value → Value
unfolding three_valued negated_value related key_of
applied Op.and vs = three_valued false vs false
applied Op.or vs = three_valued true vs false
applied Op.not (v ∷ []) = negated_value v
applied Op.not vs = evaluation_error
applied op vs = related (key_of op) vs

unfoldable mutual
  unfolding applied

  pub meaning : Operand → (Text → Value) → Value
  meaning (value v) attributes = v
  meaning (variable name) attributes = attributes name
  meaning malformed attributes = evaluation_error
  meaning (expression op es) attributes = applied op (meanings es attributes)

  pub meanings : Operands → (Text → Value) → List Value
  meanings empty attributes = []
  meanings (operand e es) attributes = meaning e attributes ∷ meanings es attributes
