-- ===== src/Chroma/Orderings.antt =====
-- langchain-chromadb/src/index.ts, `COMPARISONS`: a row's negation and mirror image, and the orderings and
-- equalities that they stand for.
use query_plan_adapters.Base.{
  ◌≡◌, refl, sym, Bool, true, false, Option, none, some, ◌∷◌, every, text_eq, arith,
}
use query_plan_adapters.Number.{Number, fin, nan, inf, is_finite, is_nan}
use query_plan_adapters.Value.{Value, evaluation_error, bool, num, str, arr, elems, cons}
use query_plan_adapters.Plan.{Op}
use query_plan_adapters.Cel.Equality.{values_equal, numeric_equal}
use query_plan_adapters.Cel.Order.{Comparison, compare_values, order_values, by_number}
use query_plan_adapters.Cel.Mirror.{IsOrdering}
use query_plan_adapters.Pushdown.{mirrored}
use query_plan_adapters.Evaluate.Macros.{is_bool}
use query_plan_adapters.Cel.Mirror.{text_eq_comm}
use query_plan_adapters.Chroma.Outcome.{done, done-injective}
use query_plan_adapters.Chroma.Comparisons.{
  scalar, number, scalars, Key, comparisons, op_of, key_of, negation_of, mirror_of,
}
use query_plan_adapters.Chroma.Literals.{is_chroma_literal, is_finite_number}
use query_plan_adapters.Chroma.Meaning.{relation}

-- The row of a row's negation, and of its mirror image.
abbrev pub negation_key : Key → Option Key
negation_key Key.eq = some Key.ne
negation_key Key.ne = some Key.eq
negation_key Key.lt = some Key.ge
negation_key Key.le = some Key.gt
negation_key Key.gt = some Key.le
negation_key Key.ge = some Key.lt
negation_key Key.member = some Key.nin
negation_key Key.nin = none

abbrev pub mirror_key : Key → Option Key
mirror_key Key.eq = some Key.eq
mirror_key Key.ne = some Key.ne
mirror_key Key.lt = some Key.gt
mirror_key Key.le = some Key.ge
mirror_key Key.gt = some Key.lt
mirror_key Key.ge = some Key.le
mirror_key Key.member = none
mirror_key Key.nin = none

pub negation_of-op_of :
    (key : Key) (op : Op)
    → negation_of (op_of key) ≡ done op
    → (k : Key) × (negation_key key ≡ some k) × (op ≡ op_of k)
unfolding negation_of key_of text_eq
negation_of-op_of Key.eq op h = (Key.ne, refl, sym (done-injective h))
negation_of-op_of Key.ne op h = (Key.eq, refl, sym (done-injective h))
negation_of-op_of Key.lt op h = (Key.ge, refl, sym (done-injective h))
negation_of-op_of Key.le op h = (Key.gt, refl, sym (done-injective h))
negation_of-op_of Key.gt op h = (Key.le, refl, sym (done-injective h))
negation_of-op_of Key.ge op h = (Key.lt, refl, sym (done-injective h))
negation_of-op_of Key.member op h = (Key.nin, refl, sym (done-injective h))
negation_of-op_of Key.nin op h = cc

pub mirror_of-op_of :
    (key : Key) (op : Op)
    → mirror_of (op_of key) ≡ done op
    → (k : Key) × (mirror_key key ≡ some k) × (op ≡ op_of k)
unfolding mirror_of key_of text_eq
mirror_of-op_of Key.eq op h = (Key.eq, refl, sym (done-injective h))
mirror_of-op_of Key.ne op h = (Key.ne, refl, sym (done-injective h))
mirror_of-op_of Key.lt op h = (Key.gt, refl, sym (done-injective h))
mirror_of-op_of Key.le op h = (Key.ge, refl, sym (done-injective h))
mirror_of-op_of Key.gt op h = (Key.lt, refl, sym (done-injective h))
mirror_of-op_of Key.ge op h = (Key.le, refl, sym (done-injective h))
mirror_of-op_of Key.member op h = cc
mirror_of-op_of Key.nin op h = cc

abbrev is_literal_list : Value → Bool
is_literal_list (arr (cons v vs)) = every is_chroma_literal (v ∷ elems vs)
is_literal_list _ = false

-- Whether a row's check accepts a literal.
abbrev pub valid_for : Key → Value → Bool
valid_for key l = elim ((comparisons key).literal) [
  | scalar ↦ is_chroma_literal l
  | number ↦ is_finite_number l
  | scalars ↦ is_literal_list l
]

-- A missing attribute, or a value that metadata can hold.
abbrev pub is_attribute : Value → Bool
is_attribute evaluation_error = true
is_attribute v = is_chroma_literal v

pub is_finite-not_nan : (x : Number) → is_finite x ≡ true → is_nan x ≡ false
unfolding is_finite
is_finite-not_nan nan h = cc
is_finite-not_nan (inf s) h = refl
is_finite-not_nan (fin s k) h = refl

pub values_equal_comm :
    (v w : Value)
    → is_chroma_literal v ≡ true
    → is_chroma_literal w ≡ true
    → values_equal v w ≡ values_equal w v
unfolding values_equal is_chroma_literal numeric_equal
values_equal_comm (str s) (str t) h g = text_eq_comm s t
values_equal_comm (num x) (num y) h g = ground arith
values_equal_comm (bool a) (bool b) h g = ground arith
values_equal_comm _ _ h g = ground arith

-- What negating a row by another one says, of one attribute and one literal.
abbrev pub Negates : Value → Value → Key → Key → Type 0
Negates a l key k =
    (is_bool false (relation key a l) ≡ is_bool true (relation k a l))
    × (valid_for k l ≡ valid_for key l)

pub Negates-eq :
    (a l : Value) → is_attribute a ≡ true → is_chroma_literal l ≡ true → Negates a l Key.eq Key.ne
unfolding relation compare_values is_chroma_literal
Negates-eq evaluation_error l h v = (refl, refl)
Negates-eq (str s) l h v = ground arith
Negates-eq (num x) l h v = ground arith
Negates-eq (bool b) l h v = ground arith
Negates-eq _ l h v = cc

pub Negates-ne :
    (a l : Value) → is_attribute a ≡ true → is_chroma_literal l ≡ true → Negates a l Key.ne Key.eq
unfolding relation compare_values is_chroma_literal
Negates-ne evaluation_error l h v = (refl, refl)
Negates-ne (str s) l h v = ground arith
Negates-ne (num x) l h v = ground arith
Negates-ne (bool b) l h v = ground arith
Negates-ne _ l h v = cc

-- An ordering of an attribute against a number.
abbrev pub by_order : Comparison → Value → Number → Value
by_order op (num x) y = bool (by_number op x y)
by_order op _ y = evaluation_error

pub compare_order :
    (op : Comparison) (a : Value) (y : Number)
    → IsOrdering op
    → is_attribute a ≡ true
    → is_finite y ≡ true
    → compare_values op a (num y) ≡ by_order op a y
unfolding compare_values order_values is_chroma_literal by_number
compare_order op evaluation_error y o h v = refl
compare_order op (str s) y o h v = ground (arith, is_finite-not_nan y v)
compare_order op (num x) y o h v = ground (arith, is_finite-not_nan x h, is_finite-not_nan y v)
compare_order op (bool b) y o h v = ground (arith, is_finite-not_nan y v)
compare_order op _ y o h v = cc

pub mirrored_order :
    (op : Comparison) (a : Value) (y : Number)
    → IsOrdering op
    → is_attribute a ≡ true
    → is_finite y ≡ true
    → compare_values op (num y) a ≡ by_order (mirrored op) a y
unfolding compare_values order_values is_chroma_literal by_number mirrored
mirrored_order op evaluation_error y o h v = refl
mirrored_order op (str s) y o h v = ground (arith, is_finite-not_nan y v)
mirrored_order op (num x) y o h v = ground (arith, is_finite-not_nan x h, is_finite-not_nan y v)
mirrored_order op (bool b) y o h v = ground (arith, is_finite-not_nan y v)
mirrored_order op _ y o h v = cc

abbrev pub opposite : Comparison → Comparison
opposite Comparison.eq = Comparison.ne
opposite Comparison.ne = Comparison.eq
opposite Comparison.lt = Comparison.ge
opposite Comparison.le = Comparison.gt
opposite Comparison.gt = Comparison.le
opposite Comparison.ge = Comparison.lt

pub opposite_order :
    (op : Comparison) (a : Value) (y : Number)
    → IsOrdering op
    → is_attribute a ≡ true
    → is_finite y ≡ true
    → is_bool false (by_order op a y) ≡ is_bool true (by_order (opposite op) a y)
unfolding by_number is_chroma_literal
opposite_order op (num x) y o h v = ground (arith, is_finite-not_nan x h, is_finite-not_nan y v)
opposite_order op evaluation_error y o h v = refl
opposite_order op (str s) y o h v = refl
opposite_order op (bool b) y o h v = refl
opposite_order op _ y o h v = cc
