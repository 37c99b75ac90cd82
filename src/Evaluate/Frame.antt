-- ===== src/Evaluate/Frame.antt =====
-- convex/src/evaluate.ts: the scope of an evaluation, the call of an operator, and its arguments. A
-- call carries the evaluators of its operands (`runs`) and those of their operands (`parts`), so that
-- an operator can evaluate what the source reaches through `evaluate`.
use query_plan_adapters.Base.{
  ℕ, Bool, ◌&&◌, Option, none, some, List, [], ◌∷◌, ◌==◌, if◌then◌else◌, Text, text_eq, get_elem?,
  ℤ,
}
use query_plan_adapters.Errors.{Refusal, unsupported, Result, ok, throw, ◌>>=◌}
use query_plan_adapters.Value.{Value, evaluation_error, is_null}
use query_plan_adapters.Plan.{Op, Operand, Operands, nth}
use query_plan_adapters.Plan.Mapper.{Mapper, resolve_field}
use query_plan_adapters.Cel.Path.{get_nested_value, dot}

-- Lambda variables in scope, the innermost first.
abbrev pub Bindings : Type 0
Bindings = List (Text × Value)

-- `now` is the clock, `Date.now()`, in milliseconds.
pub record Scope : Type 0 where
  pub doc : Value
  pub mapper : Mapper
  pub bindings : Bindings
  pub null_is_missing : Bool
  pub now : ℤ

-- `name in bindings`, and the read.
unfoldable pub bound_value : Text → Bindings → Option Value
unfolding text_eq
bound_value name [] = none
bound_value name ((k, v) ∷ rest) = if text_eq k name then some v else bound_value name rest

-- What stands before the first dot of a name, and what stands behind it.
abbrev push_root : ℕ → Option (Text × Text) → Option (Text × Text)
push_root c none = none
push_root c (some (root, rest)) = some (c ∷ root, rest)

unfoldable pub split_first : Text → Option (Text × Text)
split_first [] = none
split_first (c ∷ s) = if c == dot then some ([], s) else push_root c (split_first s)

-- `name.split(".")[0]`
unfoldable pub root_of : Text → Text
root_of [] = []
root_of (c ∷ s) = if c == dot then [] else c ∷ root_of s

unfoldable pub read_path : Value → Bool → Value
read_path value null_is_missing =
    if null_is_missing && is_null value then evaluation_error else value

-- The document field, or the bare lambda variable.
abbrev bare_or_field : Text → Scope → Option Value → Value
bare_or_field name scope (some v) = v
bare_or_field name scope none =
    read_path (get_nested_value scope.doc (resolve_field name scope.mapper)) scope.null_is_missing

abbrev through_root : Text → Scope → Text → Option Value → Value
through_root name scope rest (some v) = read_path (get_nested_value v rest) scope.null_is_missing
through_root name scope rest none = bare_or_field name scope (bound_value name scope.bindings)

abbrev by_root : Text → Scope → Option (Text × Text) → Value
by_root name scope none = bare_or_field name scope (bound_value name scope.bindings)
by_root name scope (some (root, rest)) =
    through_root name scope rest (bound_value root scope.bindings)

-- `lookUp`
unfoldable pub look_up : Text → Scope → Value
unfolding bound_value split_first read_path get_nested_value resolve_field
look_up name scope = by_root name scope (split_first name)

abbrev pub Run : Type 0
Run = Scope → Result Value

pub record Call : Type 0 where
  pub operator : Op
  pub operands : Operands
  pub scope : Scope
  pub runs : List Run
  pub parts : List (List Run)

abbrev or_missing {ℓ} : {A : Type ℓ} → Option A → Result A
or_missing none = throw (unsupported Refusal.missing_operand)
or_missing (some a) = ok a

-- `operandAt` (convex/src/operands.ts)
unfoldable pub operand_at : Operands → ℕ → Result Operand
operand_at operands index = or_missing (nth operands index)

-- `arg`
unfoldable pub arg : Call → ℕ → Result Value
arg call index = or_missing (get_elem? call.runs index) >>= λ run. run call.scope

-- Two arguments, the first evaluated first.
unfoldable pub arg_pair : Call → (Value → Value → Result Value) → Result Value
unfolding arg
arg_pair call f = do left ← arg call 0; right ← arg call 1; f left right
