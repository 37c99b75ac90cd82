-- ===== src/Pushdown/Sample.antt =====
-- A concrete engine that meets the laws of `Engine`: an expression is a field path or a predicate,
-- and the order of values is the one that Convex documents.
use query_plan_adapters.Base.{
  ℕ, ◌<◌, ◌≡◌, refl, Bool, true, false, not, every, any, Text, ltb, lt→ltb, if◌then◌else◌, arith,
}
use query_plan_adapters.Number.{number_lt}
use query_plan_adapters.Value.{Value, bool, num, str}
use query_plan_adapters.Plain.{values_equal_iff}
use query_plan_adapters.Cel.Equality.{values_equal}
use query_plan_adapters.Cel.Path.{get_nested_value}
use query_plan_adapters.Cel.Order.{Comparison, by_sign, by_bool, compare_code_points}
use query_plan_adapters.Pushdown.{Argument, built, constant, empty_bytes, FilterQ}
use query_plan_adapters.Pushdown.Engine.{Stored, stored, bytes, rank, Engine}

pub data Predicate : Type 0 where
  path : Text → Predicate
  test : (Value → Bool) → Predicate

abbrev pub run : Predicate → Value → Bool
run (path p) d = false
run (test f) d = f d

abbrev built_value : Predicate → Value → Stored
built_value (path p) d = stored (get_nested_value d p)
built_value (test f) d = stored (bool (f d))

abbrev pub argument_value : Argument Predicate → Value → Stored
argument_value (built e) d = built_value e d
argument_value (constant v) d = stored v
argument_value empty_bytes d = bytes

abbrev pub same : Stored → Stored → Bool
same (stored v) (stored w) = values_equal v w
same bytes bytes = true
same _ _ = false

abbrev within : Stored → Stored → Bool
within (stored (num x)) (stored (num y)) = number_lt x y
within (stored (bool a)) (stored (bool b)) = by_bool Comparison.lt a b
within (stored (str s)) (stored (str t)) = by_sign Comparison.lt (compare_code_points s t)
within _ _ = false

abbrev pub before : Stored → Stored → Bool
before a b =
    if ltb (rank a) (rank b) then true else if ltb (rank b) (rank a) then false else within a b

abbrev pub builder : FilterQ Predicate
builder = record {
  eq = λ a b. test (λ d. same (argument_value a d) (argument_value b d));
  neq = λ a b. test (λ d. not (same (argument_value a d) (argument_value b d)));
  lt = λ a b. test (λ d. before (argument_value a d) (argument_value b d));
  lte = λ a b. test (λ d. not (before (argument_value b d) (argument_value a d)));
  gt = λ a b. test (λ d. before (argument_value b d) (argument_value a d));
  gte = λ a b. test (λ d. not (before (argument_value a d) (argument_value b d)));
  all_of = λ es. test (λ d. every (λ e. run e d) es);
  any_of = λ es. test (λ d. any (λ e. run e d) es);
  negate = λ e. test (λ d. not (run e d));
  field = λ p. path p;
}

ltb-false : (a b : ℕ) → b < a → ltb a b ≡ false
ltb-false a b h = ground arith

pub across : (a b : Stored) → rank a < rank b → before a b ≡ true
across a b h = rw (lt→ltb _ _ h)

pub not_across : (a b : Stored) → rank b < rank a → before a b ≡ false
not_across a b h = rw (ltb-false (rank a) (rank b) h, lt→ltb _ _ h)

abbrev pub sample : Engine
sample = record {
  Expr = Predicate;
  q = builder;
  holds = run;
  value_of = argument_value;
  same = same;
  before = before;
  holds-eq = λ a b d. refl;
  holds-neq = λ a b d. refl;
  holds-lt = λ a b d. refl;
  holds-lte = λ a b d. refl;
  holds-gt = λ a b d. refl;
  holds-gte = λ a b d. refl;
  holds-all_of = λ es d. refl;
  holds-any_of = λ es d. refl;
  holds-negate = λ e d. refl;
  value_of-field = λ p d h. refl;
  value_of-constant = λ v d. refl;
  value_of-empty_bytes = λ d. refl;
  same_iff = values_equal_iff;
  before_across = across;
  not_before_across = not_across;
  before-num = λ x y h g. refl;
  before-bool = λ a b. refl;
  before-str = λ s t. refl;
}
