-- ===== src/Chroma/PostFilter/Types.antt =====
-- langchain-chromadb/src/postFilter.ts: the static types of operands, and what they decide.
use query_plan_adapters.Base.{
  Bool, true, false, not, ◌&&◌, ◌||◌, Option, none, some, List, [], ◌∷◌, every, filter, length,
  ◌==◌, if◌then◌else◌,
}
use query_plan_adapters.Number.{is_integer}
use query_plan_adapters.Value.{Value, num, arr, elems}
use query_plan_adapters.Plan.{Op, Operand, value}
use query_plan_adapters.Cel.Arithmetic.{ArithmeticOperator}
use query_plan_adapters.Chroma.Outcome.{
  Attempt, done, raise, unsupported, unknown_overload, mixed_numbers, stored_number, two_literals,
  temporal_pair,
}

pub data StaticType : Type 0 where
  int double ambiguous attribute timestamp duration other unknown : StaticType

pub data Mode : Type 0 where
  int_mode dynamic_mode error_mode : Mode

abbrev pub op_of : ArithmeticOperator → Op
op_of ArithmeticOperator.add = Op.add
op_of ArithmeticOperator.sub = Op.sub
op_of ArithmeticOperator.mult = Op.mult
op_of ArithmeticOperator.div = Op.div
op_of ArithmeticOperator.remainder = Op.modulo

abbrev pub is_int : StaticType → Bool
is_int int = true
is_int _ = false

abbrev pub is_double : StaticType → Bool
is_double double = true
is_double _ = false

abbrev pub is_ambiguous : StaticType → Bool
is_ambiguous ambiguous = true
is_ambiguous _ = false

abbrev pub is_attribute : StaticType → Bool
is_attribute attribute = true
is_attribute _ = false

-- `intLike`
abbrev pub int_like : StaticType → Bool
int_like int = true
int_like ambiguous = true
int_like _ = false

abbrev has_no_overload : StaticType → Bool
has_no_overload unknown = true
has_no_overload timestamp = true
has_no_overload _ = false

-- What follows the test of an unknown type, in the order of the source.
abbrev known_mode : ArithmeticOperator → StaticType → StaticType → Attempt Mode
known_mode ArithmeticOperator.remainder left right =
    done (if int_like left && int_like right then int_mode else error_mode)
known_mode op left right =
    if is_int left || is_int right
    then if int_like left && int_like right
      then done int_mode
      else if is_double left || is_double right
      then raise (unsupported (some (op_of op)) mixed_numbers)
      else done error_mode
    else if is_double left || is_double right
    then done dynamic_mode
    else if (is_ambiguous left || is_ambiguous right) && (is_attribute left || is_attribute right)
    then raise (unsupported (some (op_of op)) stored_number)
    else if is_ambiguous left && is_ambiguous right
    then raise (unsupported (some (op_of op)) two_literals)
    else done dynamic_mode

-- `arithmeticMode`
unfoldable pub arithmetic_mode : ArithmeticOperator → StaticType → StaticType → Attempt Mode
arithmetic_mode op left right =
    if has_no_overload left || has_no_overload right
    then raise (unsupported (some (op_of op)) unknown_overload)
    else known_mode op left right

abbrev is_temporal : StaticType → Bool
is_temporal timestamp = true
is_temporal duration = true
is_temporal _ = false

abbrev refused_pair : ArithmeticOperator → Attempt (Option StaticType)
refused_pair op = raise (unsupported (some (op_of op)) temporal_pair)

abbrev temporal_pair_type :
    ArithmeticOperator → StaticType → StaticType → Attempt (Option StaticType)
temporal_pair_type ArithmeticOperator.add timestamp duration = done (some timestamp)
temporal_pair_type ArithmeticOperator.add duration timestamp = done (some timestamp)
temporal_pair_type ArithmeticOperator.add duration duration = done (some duration)
temporal_pair_type ArithmeticOperator.sub timestamp duration = done (some timestamp)
temporal_pair_type ArithmeticOperator.sub timestamp timestamp = done (some duration)
temporal_pair_type ArithmeticOperator.sub duration duration = done (some duration)
temporal_pair_type op left right = refused_pair op

-- `temporalType`; `none` where neither operand is a timestamp or a duration.
unfoldable pub temporal_type :
    ArithmeticOperator → StaticType → StaticType → Attempt (Option StaticType)
temporal_type op left right =
    if is_temporal left || is_temporal right then temporal_pair_type op left right else done none

-- The type of an arithmetic result.
unfoldable pub arithmetic_type : Mode → StaticType → StaticType → StaticType
arithmetic_type int_mode left right = int
arithmetic_type error_mode left right = other
arithmetic_type dynamic_mode left right =
    if is_double left || is_double right
    then double
    else if is_attribute left || is_attribute right
    then attribute
    else other

abbrev pub is_number : Value → Bool
is_number (num x) = true
is_number _ = false

abbrev pub is_fraction : Value → Bool
is_fraction (num x) = not (is_integer x)
is_fraction _ = true

abbrev pub element_of : List Value → StaticType
element_of vs =
    let numbers = filter is_number vs in
    if length numbers == 0
    then other
    else if not (length numbers == length vs)
    then unknown
    else if every is_fraction numbers
    then double
    else ambiguous

-- `elementType`
unfoldable pub element_type : Operand → StaticType
unfolding is_integer
element_type (value (arr vs)) = element_of (elems vs)
element_type _ = unknown

-- The first test of `joinTypes`, `a === b`.
abbrev same_type : StaticType → StaticType → Bool
same_type int int = true
same_type double double = true
same_type ambiguous ambiguous = true
same_type attribute attribute = true
same_type timestamp timestamp = true
same_type duration duration = true
same_type other other = true
same_type unknown unknown = true
same_type _ _ = false

abbrev pub is_stored : StaticType → Bool
is_stored attribute = true
is_stored double = true
is_stored other = true
is_stored _ = false

-- `joinTypes`
unfoldable pub join_types : StaticType → StaticType → StaticType
join_types a b =
    if same_type a b
    then a
    else if is_ambiguous a || is_ambiguous b
    then if is_int a || is_int b
      then int
      else if is_double a || is_double b
      then double
      else unknown
    else if is_stored a && is_stored b
    then attribute
    else unknown

abbrev pub refused_by : List StaticType → StaticType → Bool
refused_by [] t = false
refused_by (s ∷ ss) t = same_type s t || refused_by ss t
