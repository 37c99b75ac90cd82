-- ===== src/Pushdown/Mirror.antt =====
-- convex/src/pushdown.ts, `MIRRORED_COMPARISON`.
use query_plan_adapters.Base.{◌≡◌, refl, ap, ◌∙◌}
use query_plan_adapters.Value.{Value}
use query_plan_adapters.Cel.Order.{Comparison, compare_values}
use query_plan_adapters.Cel.Mirror.{IsMirrorable, swapped, compare_values_mirrorable}
use query_plan_adapters.Pushdown.{mirrored}

mirrored-swapped : (op : Comparison) → mirrored op ≡ swapped op
unfolding mirrored
mirrored-swapped Comparison.eq = refl
mirrored-swapped Comparison.ne = refl
mirrored-swapped Comparison.lt = refl
mirrored-swapped Comparison.le = refl
mirrored-swapped Comparison.gt = refl
mirrored-swapped Comparison.ge = refl

-- A comparison of two values is the mirrored comparison of the values swapped: an ordering of any two
-- values (strings, numbers, bigints, Booleans, durations, NaN or values of two types), and "eq" and "ne"
-- of values of which one holds no map.
pub compare_values-mirrored :
    (op : Comparison) (v w : Value)
    → IsMirrorable op v
    → compare_values (mirrored op) v w ≡ compare_values op w v
compare_values-mirrored op v w h =
    ap (λ o. compare_values o v w) (mirrored-swapped op) ∙ compare_values_mirrorable op v w h
