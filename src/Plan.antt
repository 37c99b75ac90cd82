-- ===== src/Plan.antt =====
-- The plan's expression tree (the operand types of @cerbos/core) and convex/src/operands.ts: reading
-- plan nodes and the caller's mapper. An operand is read by the first of `operator`, `value` and
-- `name` it has; `malformed` has none of them.
pub mod Mapper
use query_plan_adapters.Base.{
  ℕ, zero, suc, Bool, true, false, Option, none, some, List, [], ◌∷◌, Text,
}
use query_plan_adapters.Value.{Value}
use query_plan_adapters.Errors.{Refusal, Result, ok, throw, Failure}

-- The keys of `OPERATORS`, and any other name: `member` is "in", `modulo` is "mod" and `if_else` is "if".
pub data Op : Type 0 where
  and or not eq ne lt le gt ge member : Op
  contains starts_with ends_with matches except intersect is_subset list struct set_field : Op
  has_intersection exists exists_one all filter map lambda : Op
  add sub mult div modulo index get_field size string double int upper_ascii : Op
  duration time_since timestamp if_else hierarchy ancestor_of descendent_of overlaps : Op
  other : Text → Op

mutual
  pub data Operand : Type 0 where
    value : Value → Operand
    variable : Text → Operand
    expression : Op → Operands → Operand
    malformed : Operand

  pub data Operands : Type 0 where
    empty : Operands
    operand : Operand → Operands → Operands

abbrev pub operand_list : Operands → List Operand
operand_list empty = []
operand_list (operand e es) = e ∷ operand_list es

abbrev pub operands_of : List Operand → Operands
operands_of [] = empty
operands_of (e ∷ es) = operand e (operands_of es)

-- `operands[index]`
abbrev pub nth : Operands → ℕ → Option Operand
nth empty i = none
nth (operand e es) zero = some e
nth (operand e es) (suc i) = nth es i

abbrev pub is_variable : Operand → Bool
is_variable (variable n) = true
is_variable _ = false

abbrev pub is_value : Operand → Bool
is_value (value v) = true
is_value _ = false

abbrev pub is_expression : Operand → Bool
is_expression (expression op es) = true
is_expression _ = false
