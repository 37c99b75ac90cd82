-- ===== src/Pushdown/Engine.antt =====
-- What convex/src/pushdown.ts relies on of Convex's filter engine, which is not in the repository:
-- the meaning of each builder call on a document, and Convex's order of values, which goes across
-- types, undefined < null < int64 < float64 < boolean < string < bytes < array < object.
use query_plan_adapters.Base.{ℕ, ◌<◌, ◌≡◌, ◌↔◌, Bool, true, false, not, List, every, any, Text}
use query_plan_adapters.Number.{Number, number_lt}
use query_plan_adapters.Value.{Value, undefined, null, bool, num, bigint, str, arr, is_error}
use query_plan_adapters.Plain.{IsOrdinary, IsPlain, IsMapFree}
use query_plan_adapters.Cel.Path.{get_nested_value}
use query_plan_adapters.Cel.Order.{Comparison, by_sign, by_bool, compare_code_points}
use query_plan_adapters.Pushdown.{Argument, built, constant, empty_bytes, FilterQ}

-- A value as Convex stores it: one of JavaScript's, or an empty byte string.
pub data Stored : Type 0 where
  stored : Value → Stored
  bytes : Stored

abbrev value_rank : Value → ℕ
value_rank undefined = 0
value_rank null = 1
value_rank (bigint n) = 2
value_rank (num x) = 3
value_rank (bool b) = 4
value_rank (str s) = 5
value_rank (arr vs) = 7
value_rank _ = 8

-- The place of a value's type in the order.
abbrev pub rank : Stored → ℕ
rank (stored v) = value_rank v
rank bytes = 6

pub record Engine : Type 1 where
  pub Expr : Type 0
  pub q : FilterQ Expr
  -- whether a document passes a filter, and the value of an argument on a document
  pub holds : Expr → Value → Bool
  pub value_of : Argument Expr → Value → Stored
  -- equality and the strict order of values
  pub same : Stored → Stored → Bool
  pub before : Stored → Stored → Bool
  pub holds-eq :
      (a b : Argument Expr) (d : Value) → holds (q.eq a b) d ≡ same (value_of a d) (value_of b d)
  pub holds-neq :
      (a b : Argument Expr) (d : Value)
      → holds (q.neq a b) d ≡ not (same (value_of a d) (value_of b d))
  pub holds-lt :
      (a b : Argument Expr) (d : Value) → holds (q.lt a b) d ≡ before (value_of a d) (value_of b d)
  pub holds-lte :
      (a b : Argument Expr) (d : Value)
      → holds (q.lte a b) d ≡ not (before (value_of b d) (value_of a d))
  pub holds-gt :
      (a b : Argument Expr) (d : Value) → holds (q.gt a b) d ≡ before (value_of b d) (value_of a d)
  pub holds-gte :
      (a b : Argument Expr) (d : Value)
      → holds (q.gte a b) d ≡ not (before (value_of a d) (value_of b d))
  pub holds-all_of :
      (es : List Expr) (d : Value) → holds (q.all_of es) d ≡ every (λ e. holds e d) es
  pub holds-any_of : (es : List Expr) (d : Value) → holds (q.any_of es) d ≡ any (λ e. holds e d) es
  pub holds-negate : (e : Expr) (d : Value) → holds (q.negate e) d ≡ not (holds e d)
  -- a field path reads the nested property that it names
  pub value_of-field :
      (path : Text) (d : Value)
      → is_error (get_nested_value d path) ≡ false
      → value_of (built (q.field path)) d ≡ stored (get_nested_value d path)
  pub value_of-constant : (v d : Value) → value_of (constant v) d ≡ stored v
  pub value_of-empty_bytes : (d : Value) → value_of empty_bytes d ≡ bytes
  -- equality of a plain value with one that holds no map
  pub same_iff :
      (v w : Value) → IsPlain v → IsMapFree w → (same (stored v) (stored w) ≡ true) ↔ (v ≡ w)
  -- the order across types, and within numbers, booleans and strings
  pub before_across : (a b : Stored) → rank a < rank b → before a b ≡ true
  pub not_before_across : (a b : Stored) → rank b < rank a → before a b ≡ false
  pub before-num :
      (x y : Number)
      → IsOrdinary x
      → IsOrdinary y
      → before (stored (num x)) (stored (num y)) ≡ number_lt x y
  pub before-bool :
      (a b : Bool) → before (stored (bool a)) (stored (bool b)) ≡ by_bool Comparison.lt a b
  pub before-str :
      (s t : Text)
      → before (stored (str s)) (stored (str t)) ≡ by_sign Comparison.lt (compare_code_points s t)
