-- ===== src/Chroma/Clauses.antt =====
-- langchain-chromadb/src/index.ts, `compare` and `emit`: what the emitted clause admits.
use query_plan_adapters.Base.{
  ◌≡◌, refl, sym, ap, ◌∙◌, Bool, true, false, inl, inr, none, some, Text, arith, Option-cases,
}
use query_plan_adapters.Number.{Number}
use query_plan_adapters.Value.{Value, evaluation_error, bool, num, str}
use query_plan_adapters.Cel.Order.{Comparison, compare_values}
use query_plan_adapters.Evaluate.Lists.{membership}
use query_plan_adapters.Evaluate.Macros.{is_bool}
use query_plan_adapters.Chroma.Comparisons.{ChromaOp, Key, comparisons}
use query_plan_adapters.Chroma.Where.{clause}
use query_plan_adapters.Chroma.Literals.{is_chroma_literal, is_finite_number}
use query_plan_adapters.Chroma.Server.{Server, says, matches_missing, is_exact, by_numbers}
use query_plan_adapters.Chroma.Meaning.{relation, attribute, negated_value}
use query_plan_adapters.Chroma.Orderings.{valid_for, is_attribute, compare_order, by_order}
use query_plan_adapters.Cel.Mirror.{IsOrdering}

is_bool-bool : (b : Bool) → is_bool true (bool b) ≡ b
is_bool-bool true = refl
is_bool-bool false = refl

-- A clause says of a stored value what CEL says of it.
says_equality :
    (v l : Value)
    → is_chroma_literal v ≡ true
    → is_chroma_literal l ≡ true
    → (says ChromaOp.eq v l ≡ is_bool true (compare_values Comparison.eq v l))
      × (says ChromaOp.ne v l ≡ is_bool true (compare_values Comparison.ne v l))
unfolding says compare_values is_chroma_literal
says_equality (str s) l h g = ground arith
says_equality (num x) l h g = ground arith
says_equality (bool b) l h g = ground arith
says_equality _ l h g = cc

by_numbers-by_order :
    (op : Comparison) (v : Value) (y : Number)
    → by_numbers op v (num y) ≡ is_bool true (by_order op v y)
by_numbers-by_order op (num x) y = sym (is_bool-bool _)
by_numbers-by_order op _ y = refl

pub literal-attribute : (v : Value) → is_chroma_literal v ≡ true → is_attribute v ≡ true
unfolding is_chroma_literal
literal-attribute (str s) h = refl
literal-attribute (num x) h = h
literal-attribute (bool b) h = refl
literal-attribute _ h = cc

says_order :
    (op : Comparison) (v l : Value)
    → IsOrdering op
    → is_chroma_literal v ≡ true
    → is_finite_number l ≡ true
    → by_numbers op v l ≡ is_bool true (compare_values op v l)
unfolding is_chroma_literal
says_order op v (num y) o h g =
    by_numbers-by_order op v y
    ∙ ap (is_bool true) (sym (compare_order op v y o (literal-attribute v h) g))
says_order op v _ o h g = cc

abbrev pub is_list_key : Key → Bool
is_list_key Key.member = true
is_list_key Key.nin = true
is_list_key _ = false

says-relation :
    (key : Key) (v l : Value)
    → is_list_key key ≡ false
    → is_chroma_literal v ≡ true
    → valid_for key l ≡ true
    → says (comparisons key).chroma v l ≡ is_bool true (relation key v l)
unfolding relation says
says-relation Key.eq v l o h g = (says_equality v l h g).0
says-relation Key.ne v l o h g = (says_equality v l h g).1
says-relation Key.lt v l o h g = says_order Comparison.lt v l tt h g
says-relation Key.le v l o h g = says_order Comparison.le v l tt h g
says-relation Key.gt v l o h g = says_order Comparison.gt v l tt h g
says-relation Key.ge v l o h g = says_order Comparison.ge v l tt h g
says-relation Key.member v l o h g = cc
says-relation Key.nin v l o h g = cc

-- No comparison of a missing attribute is true.
missing_relation : (key : Key) (l : Value) → is_bool true (relation key evaluation_error l) ≡ false
unfolding relation compare_values membership negated_value
missing_relation Key.eq l = refl
missing_relation Key.ne l = refl
missing_relation Key.lt l = refl
missing_relation Key.le l = refl
missing_relation Key.gt l = refl
missing_relation Key.ge l = refl
missing_relation Key.member l = refl
missing_relation Key.nin l = refl

matches_missing-comparisons :
    (key : Key) → matches_missing (comparisons key).chroma ≡ (comparisons key).matches_missing_key
matches_missing-comparisons Key.eq = refl
matches_missing-comparisons Key.ne = refl
matches_missing-comparisons Key.lt = refl
matches_missing-comparisons Key.le = refl
matches_missing-comparisons Key.gt = refl
matches_missing-comparisons Key.ge = refl
matches_missing-comparisons Key.member = refl
matches_missing-comparisons Key.nin = refl

finite-literal : (l : Value) → is_finite_number l ≡ true → is_chroma_literal l ≡ true
unfolding is_chroma_literal
finite-literal (num x) h = h
finite-literal _ h = cc

valid-literal :
    (key : Key) (l : Value)
    → is_list_key key ≡ false
    → valid_for key l ≡ true
    → is_chroma_literal l ≡ true
valid-literal Key.eq l o h = h
valid-literal Key.ne l o h = h
valid-literal Key.lt l o h = finite-literal l h
valid-literal Key.le l o h = finite-literal l h
valid-literal Key.gt l o h = finite-literal l h
valid-literal Key.ge l o h = finite-literal l h
valid-literal Key.member l o h = cc
valid-literal Key.nin l o h = cc

module _ (S : Server) (name : Text) (d : S.Doc) where
  open S use {metadata, is_float, admits}

  -- The key is there, or the row's clause does not admit a record without it.
  abbrev pub IsGuarded : Key → Type 0
  IsGuarded key = metadata d name ≡ none → (comparisons key).matches_missing_key ≡ false

  abbrev pub value_of : Value
  value_of = attribute (metadata d name)

  -- The clause of a row with one literal.
  pub admits-row :
      (key : Key) (l : Value)
      → is_list_key key ≡ false
      → valid_for key l ≡ true
      → IsGuarded key
      → ((v : Value)
          → metadata d name ≡ some v
          → is_exact (comparisons key).chroma l (is_float d name) ≡ true)
      → admits (clause name (comparisons key).chroma l) d ≡ is_bool true (relation key value_of l)
  admits-row key l o g guarded exact = elim (Option-cases (metadata d name)) [
    | inl e ↦
        S.admits-clause_missing name (comparisons key).chroma l d e
        ∙ matches_missing-comparisons key
        ∙ guarded e
        ∙ rw e (sym (missing_relation key l))
    | inr (v, e) ↦
        S.admits-clause name (comparisons key).chroma l v d e (valid-literal key l o g) (exact v e)
        ∙ says-relation key v l o (S.metadata_literal d name v e) g
        ∙ rw e refl
  ]
