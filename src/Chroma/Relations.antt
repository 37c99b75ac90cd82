-- ===== src/Chroma/Relations.antt =====
-- langchain-chromadb/src/index.ts, `COMPARISONS`: negating or mirroring a row negates or mirrors the
-- comparison that it stands for.
use query_plan_adapters.Base.{
  some-injective, subst, ◌≡◌, refl, sym, ap, ◌∙◌, Bool, true, false, not, ◌⊎◌, inl, inr, some,
  arith,
}
use query_plan_adapters.Value.{Value, evaluation_error, bool, num, str}
use query_plan_adapters.Cel.Order.{Comparison, compare_values}
use query_plan_adapters.Cel.Mirror.{IsOrdering}
use query_plan_adapters.Pushdown.{mirrored}
use query_plan_adapters.Evaluate.Lists.{membership}
use query_plan_adapters.Evaluate.Macros.{is_bool}
use query_plan_adapters.Chroma.Comparisons.{Key}
use query_plan_adapters.Chroma.Literals.{is_chroma_literal, is_finite_number}
use query_plan_adapters.Chroma.Meaning.{relation, negated_value}
use query_plan_adapters.Chroma.Orderings.{
  negation_key, mirror_key, valid_for, is_attribute, values_equal_comm, Negates, Negates-eq,
  Negates-ne, compare_order, mirrored_order, opposite, opposite_order,
}

-- The orderings negate each other.
negates_order :
    (op : Comparison) (a l : Value)
    → IsOrdering op
    → is_attribute a ≡ true
    → is_finite_number l ≡ true
    → is_bool false (compare_values op a l) ≡ is_bool true (compare_values (opposite op) a l)
negates_order op a (num y) o h v =
    ap (is_bool false) (compare_order op a y o h v)
    ∙ opposite_order op a y o h v
    ∙ ap (is_bool true) (sym (compare_order (opposite op) a y (ground arith) h v))
negates_order op a _ o h v = cc

pub is_bool-negated_value : (b : Bool) (v : Value) → is_bool b (negated_value v) ≡ is_bool (not b) v
unfolding negated_value
is_bool-negated_value true (bool b) = ground arith
is_bool-negated_value false (bool b) = ground arith
is_bool-negated_value true _ = refl
is_bool-negated_value false _ = refl

Negates-member : (a l : Value) → Negates a l Key.member Key.nin
unfolding relation
Negates-member a l = (sym (is_bool-negated_value true (membership a l)), refl)

-- A row's negation and its mirror image take the literals that the row takes.
pub valid_for-negation_key :
    (key k : Key) (l : Value) → negation_key key ≡ some k → valid_for k l ≡ valid_for key l
valid_for-negation_key Key.eq k l e = ap (λ j. valid_for j l) (sym (some-injective e))
valid_for-negation_key Key.ne k l e = ap (λ j. valid_for j l) (sym (some-injective e))
valid_for-negation_key Key.lt k l e = ap (λ j. valid_for j l) (sym (some-injective e))
valid_for-negation_key Key.le k l e = ap (λ j. valid_for j l) (sym (some-injective e))
valid_for-negation_key Key.gt k l e = ap (λ j. valid_for j l) (sym (some-injective e))
valid_for-negation_key Key.ge k l e = ap (λ j. valid_for j l) (sym (some-injective e))
valid_for-negation_key Key.member k l e = ap (λ j. valid_for j l) (sym (some-injective e))
valid_for-negation_key Key.nin k l e = cc

pub valid_for-mirror_key :
    (key k : Key) (l : Value) → mirror_key key ≡ some k → valid_for k l ≡ valid_for key l
valid_for-mirror_key Key.eq k l e = ap (λ j. valid_for j l) (sym (some-injective e))
valid_for-mirror_key Key.ne k l e = ap (λ j. valid_for j l) (sym (some-injective e))
valid_for-mirror_key Key.lt k l e = ap (λ j. valid_for j l) (sym (some-injective e))
valid_for-mirror_key Key.le k l e = ap (λ j. valid_for j l) (sym (some-injective e))
valid_for-mirror_key Key.gt k l e = ap (λ j. valid_for j l) (sym (some-injective e))
valid_for-mirror_key Key.ge k l e = ap (λ j. valid_for j l) (sym (some-injective e))
valid_for-mirror_key Key.member k l e = cc
valid_for-mirror_key Key.nin k l e = cc

-- Where a row has a negation, that one is true exactly where the row's comparison is false (an error
-- is neither), and it takes the same literals.
pub negation_key-Negates :
    (key k : Key) (a l : Value)
    → negation_key key ≡ some k
    → is_attribute a ≡ true
    → valid_for key l ≡ true
    → Negates a l key k
unfolding relation
negation_key-Negates Key.eq k a l e h v =
    subst (Negates a l Key.eq) (some-injective e) (Negates-eq a l h v)
negation_key-Negates Key.ne k a l e h v =
    subst (Negates a l Key.ne) (some-injective e) (Negates-ne a l h v)
negation_key-Negates Key.lt k a l e h v =
    subst (Negates a l Key.lt) (some-injective e) (negates_order Comparison.lt a l tt h v, refl)
negation_key-Negates Key.le k a l e h v =
    subst (Negates a l Key.le) (some-injective e) (negates_order Comparison.le a l tt h v, refl)
negation_key-Negates Key.gt k a l e h v =
    subst (Negates a l Key.gt) (some-injective e) (negates_order Comparison.gt a l tt h v, refl)
negation_key-Negates Key.ge k a l e h v =
    subst (Negates a l Key.ge) (some-injective e) (negates_order Comparison.ge a l tt h v, refl)
negation_key-Negates Key.member k a l e h v =
    subst (Negates a l Key.member) (some-injective e) (Negates-member a l)
negation_key-Negates Key.nin k a l e h v = cc

-- What moving the key to the left of a row's comparison says, of one literal and one attribute.
abbrev pub Mirrors : Value → Value → Key → Key → Type 0
Mirrors a l key k = (relation key l a ≡ relation k a l) × (valid_for k l ≡ valid_for key l)

-- Of two literals, and of a literal and a missing attribute.
equality_comm :
    (op : Comparison) (a l : Value)
    → is_attribute a ≡ true
    → is_chroma_literal l ≡ true
    → (op ≡ Comparison.eq) ⊎ (op ≡ Comparison.ne)
    → compare_values op l a ≡ compare_values op a l
unfolding compare_values is_chroma_literal
equality_comm op evaluation_error l h v o = ground arith
equality_comm op (str s) l h v o = ground (arith, values_equal_comm l (str s) v refl)
equality_comm op (num x) l h v o = ground (arith, values_equal_comm l (num x) v h)
equality_comm op (bool b) l h v o = ground (arith, values_equal_comm l (bool b) v refl)
equality_comm op _ l h v o = cc

mirrors_order :
    (op : Comparison) (a l : Value)
    → IsOrdering op
    → is_attribute a ≡ true
    → is_finite_number l ≡ true
    → compare_values op l a ≡ compare_values (mirrored op) a l
unfolding mirrored
mirrors_order op a (num y) o h v =
    mirrored_order op a y o h v ∙ sym (compare_order (mirrored op) a y (ground arith) h v)
mirrors_order op a _ o h v = cc

-- Where a row has a mirror image, that one relates the attribute to the literal as the row relates
-- the literal to the attribute, and it takes the same literals.
pub mirror_key-Mirrors :
    (key k : Key) (a l : Value)
    → mirror_key key ≡ some k
    → is_attribute a ≡ true
    → valid_for key l ≡ true
    → Mirrors a l key k
unfolding relation mirrored
mirror_key-Mirrors Key.eq k a l e h v =
    subst (Mirrors a l Key.eq) (some-injective e)
      (equality_comm Comparison.eq a l h v (inl refl), refl)
mirror_key-Mirrors Key.ne k a l e h v =
    subst (Mirrors a l Key.ne) (some-injective e)
      (equality_comm Comparison.ne a l h v (inr refl), refl)
mirror_key-Mirrors Key.lt k a l e h v =
    subst (Mirrors a l Key.lt) (some-injective e) (mirrors_order Comparison.lt a l tt h v, refl)
mirror_key-Mirrors Key.le k a l e h v =
    subst (Mirrors a l Key.le) (some-injective e) (mirrors_order Comparison.le a l tt h v, refl)
mirror_key-Mirrors Key.gt k a l e h v =
    subst (Mirrors a l Key.gt) (some-injective e) (mirrors_order Comparison.gt a l tt h v, refl)
mirror_key-Mirrors Key.ge k a l e h v =
    subst (Mirrors a l Key.ge) (some-injective e) (mirrors_order Comparison.ge a l tt h v, refl)
mirror_key-Mirrors Key.member k a l e h v = cc
mirror_key-Mirrors Key.nin k a l e h v = cc
