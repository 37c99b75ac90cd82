-- ===== src/Chroma/Inequality.antt =====
-- langchain-chromadb/src/index.ts, `inequalityWithoutNe`: the spellings of `!=` that need no `$ne`.
use query_plan_adapters.Base.{
  ◌≡◌, refl, sym, ap, ◌∙◌, subst, Bool, true, false, not, ◌&&◌, ◌||◌, inl, inr, Option, none, some,
  text, arith, Bool-cases, some-injective,
}
use query_plan_adapters.Number.{Number, fin, is_integer, is_finite, number_le, unit}
use query_plan_adapters.Value.{Value, evaluation_error, bool, num, str}
use query_plan_adapters.Cel.Equality.{values_equal, numeric_equal}
use query_plan_adapters.Cel.Order.{compare_values, order_values, by_number}
use query_plan_adapters.Evaluate.Macros.{is_bool}
use query_plan_adapters.Chroma.Comparisons.{ChromaOp, Key, comparisons}
use query_plan_adapters.Chroma.Fields.{ResolvedField, is_text}
use query_plan_adapters.Chroma.Where.{Where, clause}
use query_plan_adapters.Chroma.Literals.{is_chroma_literal, is_finite_number}
use query_plan_adapters.Chroma.Translate.{
  zero_literal, either_side, inequality_without_ne, inequality_by_number, inequality_integer,
}
use query_plan_adapters.Chroma.Server.{Server, is_integral, is_exact}
use query_plan_adapters.Chroma.Meaning.{relation, attribute}
use query_plan_adapters.Chroma.Orderings.{valid_for, is_finite-not_nan}
use query_plan_adapters.Chroma.Clauses.{admits-row, value_of, is_list_key}

abbrev pub is_boolean_value : Value → Bool
is_boolean_value (bool b) = true
is_boolean_value _ = false

-- Whether what is stored under a field's key is as the field declares.
abbrev pub conforms : ResolvedField → Option Value → Bool → Bool
conforms field none float = not field.required
conforms field (some v) float =
    (not (is_text field.value_type (text "boolean")) || is_boolean_value v)
    && (not (is_text field.numeric_type (text "integer")) || is_integral v)
    && (not (is_text field.numeric_type (text "float")) || float)

-- A missing attribute, or a value of the kind.
abbrev absent_or : (Value → Bool) → Value → Bool
absent_or kind evaluation_error = true
absent_or kind v = kind v

other_boolean :
    (a : Value) (b : Bool)
    → absent_or is_boolean_value a ≡ true
    → is_bool true (relation Key.eq a (bool (not b))) ≡ is_bool true (relation Key.ne a (bool b))
unfolding relation compare_values values_equal
other_boolean evaluation_error b h = refl
other_boolean (bool true) b h = ground arith
other_boolean (bool false) b h = ground arith
other_boolean _ b h = cc

is_integer-is_finite : (x : Number) → is_integer x ≡ true → is_finite x ≡ true
unfolding is_integer is_finite
is_integer-is_finite (fin s k) h = refl
is_integer-is_finite _ h = cc

-- Below or above a number: another number.
other_number :
    (a : Value) (y : Number)
    → absent_or is_integral a ≡ true
    → is_finite y ≡ true
    → (is_bool true (relation Key.lt a (num y)) || is_bool true (relation Key.gt a (num y)))
      ≡ is_bool true (relation Key.ne a (num y))
unfolding relation compare_values values_equal order_values by_number numeric_equal
other_number evaluation_error y h g = refl
other_number (num x) y h g =
    ground (arith, is_finite-not_nan x (is_integer-is_finite x h), is_finite-not_nan y g)
other_number _ y h g = cc

-- Below zero or not: any number, which no text and no Boolean equals.
any_number :
    (a l : Value)
    → absent_or is_integral a ≡ true
    → is_chroma_literal l ≡ true
    → is_finite_number l ≡ false
    → (is_bool true (relation Key.lt a zero_literal)
        || is_bool true (relation Key.ge a zero_literal))
      ≡ is_bool true (relation Key.ne a l)
unfolding relation compare_values values_equal order_values by_number number_le is_chroma_literal
any_number evaluation_error l h g n = refl
any_number (num x) (str t) h g n = ground (arith, is_finite-not_nan x (is_integer-is_finite x h))
any_number (num x) (bool b) h g n = ground (arith, is_finite-not_nan x (is_integer-is_finite x h))
any_number (num x) (num y) h g n = cc
any_number _ l h g n = cc

ordered_row :
    (key : Key) (x : Value)
    → (comparisons key).ordered ≡ true
    → (is_list_key key ≡ false)
      × (valid_for key x ≡ is_finite_number x)
      × ((comparisons key).matches_missing_key ≡ false)
ordered_row Key.lt x o = (refl, refl, refl)
ordered_row Key.le x o = (refl, refl, refl)
ordered_row Key.gt x o = (refl, refl, refl)
ordered_row Key.ge x o = (refl, refl, refl)
ordered_row _ x o = cc

integral_exact :
    (op : ChromaOp) (x : Value) (float : Bool) → is_integral x ≡ true → is_exact op x float ≡ true
unfolding is_exact
integral_exact ChromaOp.eq x float h = refl
integral_exact ChromaOp.ne x float h = refl
integral_exact _ x float h = rw h refl

attribute-absent_or :
    (kind : Value → Bool) (o : Option Value)
    → ((v : Value) → o ≡ some v → kind v ≡ true)
    → ((v : Value) → o ≡ some v → is_chroma_literal v ≡ true)
    → absent_or kind (attribute o) ≡ true
unfolding is_chroma_literal
attribute-absent_or kind none h g = refl
attribute-absent_or kind (some evaluation_error) h g = refl
attribute-absent_or kind (some (str s)) h g = h (str s) refl
attribute-absent_or kind (some (num x)) h g = h (num x) refl
attribute-absent_or kind (some (bool b)) h g = h (bool b) refl
attribute-absent_or kind (some v) h g = h v refl

module _ (S : Server) (field : ResolvedField) (d : S.Doc)
    (typed : conforms field (S.metadata d field.name) (S.is_float d field.name) ≡ true) where
  open S use {metadata, is_float, admits}

  abbrev stored_value : Value
  stored_value = value_of S field.name d

  typed_as :
      (v : Value)
      → metadata d field.name ≡ some v
      → conforms field (some v) (is_float d field.name) ≡ true
  typed_as v e = subst (λ o. conforms field o (is_float d field.name) ≡ true) e typed

  stored_boolean :
      is_text field.value_type (text "boolean") ≡ true
      → absent_or is_boolean_value stored_value ≡ true
  stored_boolean h =
      attribute-absent_or is_boolean_value (metadata d field.name)
        (λ v e. let t = typed_as v e in ground (arith, h, t)) (S.metadata_literal d field.name)

  stored_integral :
      is_text field.numeric_type (text "integer") ≡ true → absent_or is_integral stored_value ≡ true
  stored_integral h =
      attribute-absent_or is_integral (metadata d field.name)
        (λ v e. let t = typed_as v e in ground (arith, h, t)) (S.metadata_literal d field.name)

  admits-ordered :
      (key : Key) (x : Value)
      → (comparisons key).ordered ≡ true
      → is_finite_number x ≡ true
      → is_integral x ≡ true
      → admits (clause field.name (comparisons key).chroma x) d
        ≡ is_bool true (relation key stored_value x)
  admits-ordered key x o f i =
      let (scalar, valid, missing) = ordered_row key x o in
      admits-row S field.name d key x scalar (valid ∙ f) (λ e. missing)
        (λ v e. integral_exact (comparisons key).chroma x _ i)

  -- Two clauses, either of which suffices.
  admits-either_side :
      (key k : Key) (x : Value)
      → (comparisons key).ordered ≡ true
      → (comparisons k).ordered ≡ true
      → is_finite_number x ≡ true
      → is_integral x ≡ true
      → admits (either_side field.name (comparisons key).chroma x (comparisons k).chroma x) d
        ≡ (is_bool true (relation key stored_value x) || is_bool true (relation k stored_value x))
  admits-either_side key k x o p f i =
      S.admits-any_of _ d tt
      ∙ rw (admits-ordered key x o f i, admits-ordered k x p f i) (ground arith)

  any_inequality :
      (l : Value) (w : Where)
      → is_chroma_literal l ≡ true
      → is_finite_number l ≡ false
      → absent_or is_integral stored_value ≡ true
      → some (either_side field.name ChromaOp.lt zero_literal ChromaOp.gte zero_literal) ≡ some w
      → admits w d ≡ is_bool true (relation Key.ne stored_value l)
  unfolding is_finite is_integer unit
  any_inequality l w g n h e =
      ap (λ u. admits u d) (some-injective (sym e))
      ∙ admits-either_side Key.lt Key.ge zero_literal refl refl refl refl
      ∙ any_number stored_value l h g n

  integer_inequality :
      (l : Value) (w : Where)
      → is_chroma_literal l ≡ true
      → absent_or is_integral stored_value ≡ true
      → inequality_integer field.name l ≡ some w
      → admits w d ≡ is_bool true (relation Key.ne stored_value l)
  unfolding is_chroma_literal
  integer_inequality (num x) w g h e = elim (Bool-cases (is_integer x)) [
    | inl i ↦
        ap (λ u. admits u d) (some-injective (sym (rw i at e)))
        ∙ admits-either_side Key.lt Key.gt (num x) refl refl g i
        ∙ other_number stored_value x h g
    | inr i ↦ cc
  ]
  integer_inequality (str s) w g h e = any_inequality (str s) w g refl h e
  integer_inequality (bool b) w g h e = any_inequality (bool b) w g refl h e
  integer_inequality l w g h e = cc

  number_inequality :
      (l : Value) (w : Where)
      → is_chroma_literal l ≡ true
      → inequality_by_number field l ≡ some w
      → admits w d ≡ is_bool true (relation Key.ne stored_value l)
  number_inequality l w g e = elim (Bool-cases (is_text field.numeric_type (text "integer"))) [
    | inl i ↦ integer_inequality l w g (stored_integral i) (rw i at e)
    | inr i ↦ cc
  ]

  -- A spelling without `$ne` admits the records whose attribute CEL finds unequal.
  pub admits-inequality_without_ne :
      (l : Value) (w : Where)
      → is_chroma_literal l ≡ true
      → inequality_without_ne field l ≡ some w
      → admits w d ≡ is_bool true (relation Key.ne stored_value l)
  unfolding inequality_without_ne is_chroma_literal is_exact
  admits-inequality_without_ne (bool b) w g e =
      elim (Bool-cases (is_text field.value_type (text "boolean"))) [
        | inl i ↦
            ap (λ u. admits u d) (some-injective (sym (rw i at e)))
            ∙ admits-row S field.name d Key.eq (bool (not b)) refl refl (λ e. refl) (λ v e. refl)
            ∙ other_boolean stored_value b (stored_boolean i)
        | inr i ↦ number_inequality (bool b) w g (rw i at e)
      ]
  admits-inequality_without_ne l w g e = number_inequality l w g e
