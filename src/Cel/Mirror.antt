-- ===== src/Cel/Mirror.antt =====
-- `compareValues` of convex/src/cel.ts: how its orderings relate to one another.
use query_plan_adapters.Base.{
  ◌≡◌, refl, sym, ap, ap₂, ◌∙◌, Bool, ◌&&◌, ◌==◌, arith, Text, text_eq, ℤ, eqb_ℤ, List, [], ◌∷◌,
  length,
}
use query_plan_adapters.Number.{Number, exact}
use query_plan_adapters.Value.{
  Value, Items, nil, cons, bool, num, bigint, str, arr, record_of, duration, hierarchy,
}
use query_plan_adapters.Cel.Equality.{values_equal, items_equal, numeric_equal, is_segment_prefix}
use query_plan_adapters.Cel.Order.{
  Comparison, Sign, by_sign, by_number, by_bool, by_int, order_values, compare_values,
}
use query_plan_adapters.Cel.CodePoints.{flip, flip-compare_code_points}

-- The four orderings, which are neither "eq" nor "ne".
abbrev pub IsOrdering : Comparison → Type 0
IsOrdering Comparison.eq = ⊥
IsOrdering Comparison.ne = ⊥
IsOrdering _ = Unit

-- The comparison that holds once the operands are swapped.
abbrev pub swapped : Comparison → Comparison
swapped Comparison.eq = Comparison.eq
swapped Comparison.ne = Comparison.ne
swapped Comparison.lt = Comparison.gt
swapped Comparison.le = Comparison.ge
swapped Comparison.gt = Comparison.lt
swapped Comparison.ge = Comparison.le

by_sign_swapped : (op : Comparison) (g : Sign) → by_sign (swapped op) g ≡ by_sign op (flip g)
unfolding by_sign
by_sign_swapped op g = ground arith

by_number_swapped : (op : Comparison) (x y : Number) → by_number (swapped op) x y ≡ by_number op y x
unfolding by_number
by_number_swapped Comparison.eq x y = refl
by_number_swapped _ x y = refl

by_int_swapped : (op : Comparison) → (a b : _) → by_int (swapped op) a b ≡ by_int op b a
unfolding by_int
by_int_swapped Comparison.eq a b = refl
by_int_swapped _ a b = refl

by_bool_swapped : (op : Comparison) (a b : Bool) → by_bool (swapped op) a b ≡ by_bool op b a
unfolding by_bool
by_bool_swapped Comparison.eq a b = refl
by_bool_swapped _ a b = refl

pub order_values_swapped :
    (op : Comparison) (v w : Value) → order_values (swapped op) v w ≡ order_values op w v
unfolding order_values
order_values_swapped op (str s) (str t) =
    ap bool (by_sign_swapped op _ ∙ ap (by_sign op) (sym (flip-compare_code_points t s)))
order_values_swapped op (bool a) (bool b) = ap bool (by_bool_swapped op a b)
order_values_swapped op (num x) (num y) = ap bool (by_number_swapped op x y)
order_values_swapped op (num x) (bigint n) = ap bool (by_number_swapped op x (exact n))
order_values_swapped op (bigint m) (num y) = ap bool (by_number_swapped op (exact m) y)
order_values_swapped op (bigint m) (bigint n) = ap bool (by_int_swapped op m n)
order_values_swapped op (duration a) (duration b) = ap bool (by_int_swapped op a b)
order_values_swapped op _ w = ground arith

pub compare_values_swapped :
    (op : Comparison) (v w : Value)
    → IsOrdering op
    → compare_values (swapped op) v w ≡ compare_values op w v
unfolding compare_values
compare_values_swapped Comparison.eq v w h = absurd h
compare_values_swapped Comparison.ne v w h = absurd h
compare_values_swapped Comparison.lt v w h = ground (arith, order_values_swapped Comparison.lt v w)
compare_values_swapped Comparison.le v w h = ground (arith, order_values_swapped Comparison.le v w)
compare_values_swapped Comparison.gt v w h = ground (arith, order_values_swapped Comparison.gt v w)
compare_values_swapped Comparison.ge v w h = ground (arith, order_values_swapped Comparison.ge v w)

numeric_equal_comm : (x y : Number) → numeric_equal x y ≡ numeric_equal y x
unfolding numeric_equal
numeric_equal_comm x y = ground arith

pub text_eq_comm : (s t : Text) → text_eq s t ≡ text_eq t s
unfolding text_eq
text_eq_comm [] [] = refl
text_eq_comm [] (b ∷ t) = refl
text_eq_comm (a ∷ s) [] = refl
text_eq_comm (a ∷ s) (b ∷ t) = ground (arith, text_eq_comm s t)

eqb_ℤ_comm : (a b : ℤ) → eqb_ℤ a b ≡ eqb_ℤ b a
eqb_ℤ_comm a b = ground arith

segments_equal_comm :
    (ss ts : List Text)
    → ((length ss == length ts) && is_segment_prefix ss ts)
      ≡ ((length ts == length ss) && is_segment_prefix ts ss)
unfolding is_segment_prefix
segments_equal_comm [] [] = refl
segments_equal_comm [] (t ∷ ts) = ground arith
segments_equal_comm (s ∷ ss) [] = ground arith
segments_equal_comm (s ∷ ss) (t ∷ ts) = ground (arith, text_eq_comm s t, segments_equal_comm ss ts)

-- No map, at any depth.
abbrev mutual
  pub HasNoMap : Value → Type 0
  HasNoMap (record_of es) = ⊥
  HasNoMap (arr vs) = HaveNoMap vs
  HasNoMap _ = Unit

  pub HaveNoMap : Items → Type 0
  HaveNoMap nil = Unit
  HaveNoMap (cons v vs) = HasNoMap v × HaveNoMap vs

mutual
  unfolding values_equal

  values_equal_comm : (v w : Value) → HasNoMap v → values_equal v w ≡ values_equal w v
  values_equal_comm (record_of es) w h = absurd h
  values_equal_comm (hierarchy ss) (hierarchy ts) h = segments_equal_comm ss ts
  values_equal_comm (duration a) (duration b) h = eqb_ℤ_comm a b
  values_equal_comm (num x) (num y) h = numeric_equal_comm x y
  values_equal_comm (num x) (bigint n) h = numeric_equal_comm x (exact n)
  values_equal_comm (bigint m) (num y) h = numeric_equal_comm (exact m) y
  values_equal_comm (bigint m) (bigint n) h = numeric_equal_comm (exact m) (exact n)
  values_equal_comm (bool a) (bool b) h = ground arith
  values_equal_comm (str s) (str t) h = text_eq_comm s t
  values_equal_comm (arr vs) (arr ws) h = items_equal_comm vs ws h
  values_equal_comm _ _ h = ground arith

  items_equal_comm : (vs ws : Items) → HaveNoMap vs → items_equal vs ws ≡ items_equal ws vs
  items_equal_comm nil nil h = refl
  items_equal_comm nil (cons w ws) h = refl
  items_equal_comm (cons v vs) nil h = refl
  items_equal_comm (cons v vs) (cons w ws) h =
      ap₂ ◌&&◌ (values_equal_comm v w h.0) (items_equal_comm vs ws h.1)

-- The operands that a comparison may be mirrored for: any, for an ordering, and one without a map for
-- "eq" and "ne".
abbrev pub IsMirrorable : Comparison → Value → Type 0
IsMirrorable Comparison.eq v = HasNoMap v
IsMirrorable Comparison.ne v = HasNoMap v
IsMirrorable _ v = Unit

pub compare_values_mirrorable :
    (op : Comparison) (v w : Value)
    → IsMirrorable op v
    → compare_values (swapped op) v w ≡ compare_values op w v
unfolding compare_values
compare_values_mirrorable Comparison.eq v w h = ground (arith, values_equal_comm v w h)
compare_values_mirrorable Comparison.ne v w h = ground (arith, values_equal_comm v w h)
compare_values_mirrorable Comparison.lt v w h = compare_values_swapped Comparison.lt v w tt
compare_values_mirrorable Comparison.le v w h = compare_values_swapped Comparison.le v w tt
compare_values_mirrorable Comparison.gt v w h = compare_values_swapped Comparison.gt v w tt
compare_values_mirrorable Comparison.ge v w h = compare_values_swapped Comparison.ge v w tt
