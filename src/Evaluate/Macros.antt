-- ===== src/Evaluate/Macros.antt =====
-- convex/src/evaluate.ts: `and`, `or` and the macros over a collection.
use query_plan_adapters.Base.{
  ℕ, suc, ◌+◌, Bool, true, false, not, ◌||◌, Option, none, some, List, [], ◌∷◌, ◌++◌, map, ◌==◌,
  if◌then◌else◌, pos,
}
use query_plan_adapters.Errors.{Result, ok, ◌>>=◌}
use query_plan_adapters.Number.{of_int}
use query_plan_adapters.Value.{
  Value, Items, nil, cons, Entries, end, entry, evaluation_error, bool, num, str, arr, record_of,
  items,
}
use query_plan_adapters.Cel.Path.{as_boolean}
use query_plan_adapters.Evaluate.Frame.{Scope, Run, Call, arg}
use query_plan_adapters.Evaluate.Lambda.{lambda_of}
use query_plan_adapters.Evaluate.Lists.{macro_items}

-- `value === decisive`
abbrev pub is_bool : Bool → Value → Bool
is_bool true (bool true) = true
is_bool false (bool false) = true
is_bool _ _ = false

abbrev pub is_failure : Value → Bool
is_failure evaluation_error = true
is_failure _ = false

-- `junction`: the loop, with whether an error was seen.
unfoldable pub junction : Bool → List Run → Scope → Bool → Result Value
unfolding as_boolean
junction decisive [] scope saw_error =
    ok (if saw_error then evaluation_error else bool (not decisive))
junction decisive (run ∷ runs) scope saw_error = do
  v ← run scope
  if is_bool decisive (as_boolean v)
      then ok (bool decisive)
      else junction decisive runs scope (saw_error || is_failure (as_boolean v))

pub data Quantifier : Type 0 where
  exists exists_one all : Quantifier

abbrev index_pairs : ℕ → Items → List (Value × Value)
index_pairs i nil = []
index_pairs i (cons v vs) = (num (of_int (pos i)), v) ∷ index_pairs (suc i) vs

abbrev entry_pairs : Entries → List (Value × Value)
entry_pairs end = []
entry_pairs (entry k v es) = (str k, v) ∷ entry_pairs es

-- `comprehensionPairs`
unfoldable pub comprehension_pairs : Value → Option (List (Value × Value))
unfolding of_int
comprehension_pairs (arr vs) = some (index_pairs 0 vs)
comprehension_pairs (record_of es) = some (entry_pairs es)
comprehension_pairs _ = none

-- One variable's items: the second is never read.
abbrev single : Option (List Value) → Option (List (Value × Value))
single none = none
single (some vs) = some (map (λ v. (v, Value.undefined)) vs)

-- What follows the loop.
abbrev quantified : Quantifier → ℕ → Bool → Value
quantified q count true = evaluation_error
quantified exists count false = bool false
quantified exists_one count false = bool (count == 1)
quantified all count false = bool true

-- One round: the answer that ends the loop, or the count and the flag that go on.
pub data Round : Type 0 where
  answer : Bool → Round
  continue : ℕ → Bool → Round

abbrev pub round : Quantifier → Value → ℕ → Bool → Round
round exists (bool true) count saw_error = answer true
round q (bool true) count saw_error = continue (count + 1) saw_error
round all (bool false) count saw_error = answer false
round q evaluation_error count saw_error = continue count true
round q v count saw_error = continue count saw_error

abbrev pub after_round : (ℕ → Bool → Result Value) → Round → Result Value
after_round loop (answer b) = ok (bool b)
after_round loop (continue n e) = loop n e

-- The loop of `quantifier`.
unfoldable pub quantify :
    Quantifier → (Value → Value → Result Value) → List (Value × Value) → ℕ → Bool → Result Value
unfolding as_boolean
quantify q body [] count saw_error = ok (quantified q count saw_error)
quantify q body ((first, second) ∷ rest) count saw_error = do
  v ← body first second
  after_round (quantify q body rest) (round q (as_boolean v) count saw_error)

abbrev quantify_items :
    Quantifier → (Value → Value → Result Value) → Option (List (Value × Value)) → Result Value
quantify_items q body none = ok evaluation_error
quantify_items q body (some pairs) = quantify q body pairs 0 false

-- `quantifier`
unfoldable pub quantifier : Quantifier → Call → Result Value
unfolding quantify lambda_of arg macro_items comprehension_pairs
quantifier q call = do
  lambda ← lambda_of call
  target ← arg call 0
  quantify_items q lambda.body
      (if lambda.arity == 2 then comprehension_pairs target else single (macro_items target))

abbrev kept : Value → List Value → Value → List Value
kept (bool true) out item = out ++ item ∷ []
kept _ out item = out

unfoldable pub filter_items :
    (Value → Value → Result Value) → List Value → List Value → Result Value
unfolding as_boolean
filter_items body [] out = ok (arr (items out))
filter_items body (item ∷ rest) out = do
  v ← body item Value.undefined
  if is_failure (as_boolean v)
      then ok evaluation_error
      else filter_items body rest (kept (as_boolean v) out item)

unfoldable pub map_items : (Value → Value → Result Value) → List Value → List Value → Result Value
map_items body [] out = ok (arr (items out))
map_items body (item ∷ rest) out = do
  v ← body item Value.undefined
  if is_failure v then ok evaluation_error else map_items body rest (out ++ v ∷ [])

abbrev with_collection :
    Option (List Value)
    → ((Value → Value → Result Value) → List Value → List Value → Result Value)
    → Call
    → Result Value
with_collection none loop call = ok evaluation_error
with_collection (some collection) loop call = do
  lambda ← lambda_of call
  loop lambda.body collection []

-- "filter" and "map": the collection is evaluated first.
unfoldable pub filter_macro : Call → Result Value
unfolding filter_items lambda_of macro_items arg
filter_macro call = do target ← arg call 0; with_collection (macro_items target) filter_items call

unfoldable pub map_macro : Call → Result Value
unfolding map_items lambda_of macro_items arg
map_macro call = do target ← arg call 0; with_collection (macro_items target) map_items call
