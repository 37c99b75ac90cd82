-- ===== src/Chroma/Pairs.antt =====
-- langchain-chromadb/src/index.ts, `binaryOperands`: the pair that a comparison is read as, and the
-- operators that no row is for.
use query_plan_adapters.Base.{
  ◌≡◌, refl, sym, ap, subst, Bool, true, false, not, ◌⊎◌, inl, inr, none, Text, arith,
  if◌then◌else◌,
}
use query_plan_adapters.Value.{Value, evaluation_error, bool}
use query_plan_adapters.Plan.{
  Op, Operand, Operands, value, variable, expression, malformed, empty, operand,
}
use query_plan_adapters.Cel.Order.{compare_values}
use query_plan_adapters.Cel.Equality.{values_equal}
use query_plan_adapters.Evaluate.Macros.{is_bool}
use query_plan_adapters.Chroma.Outcome.{raise_ne, done, >>=-eq-done, done-injective}
use query_plan_adapters.Chroma.Comparisons.{Key, key_of, negation_of, mirror_of}
use query_plan_adapters.Chroma.Fields.{ResolvedField}
use query_plan_adapters.Chroma.Where.{Where}
use query_plan_adapters.Chroma.Translate.{
  KeyOrLiteral, the_key, the_literal, Binary, binary_operands, classify, paired, oriented_operator,
  polarised_operator, compare,
}
use query_plan_adapters.Chroma.Meaning.{relation}

abbrev pair_of : Operand → Operand → Operands
pair_of e f = operand e (operand f empty)

abbrev binary : Text → Bool → Value → Binary
binary name first v = record { variable = name; literal_first = first; value = v }

-- A comparison that is read has one key and one literal.
abbrev pub IsPair : Operands → Binary → Type 0
IsPair es b =
    ((es ≡ pair_of (variable b.variable) (value b.value)) × (b.literal_first ≡ false))
    ⊎ ((es ≡ pair_of (value b.value) (variable b.variable)) × (b.literal_first ≡ true))

abbrev source_of : KeyOrLiteral → Operand
source_of (the_key n) = variable n
source_of (the_literal v) = value v

classify_source :
    (op : Op) (e : Operand) (k : KeyOrLiteral) → classify op e ≡ done k → e ≡ source_of k
unfolding classify
classify_source op (variable n) k h = ap source_of (done-injective h)
classify_source op (value v) k h = ap source_of (done-injective h)
classify_source op malformed k h = cc
classify_source op (expression inner es) k h = cc

paired-IsPair :
    (op : Op) (left right : KeyOrLiteral) (b : Binary)
    → paired op left right ≡ done b
    → IsPair (pair_of (source_of left) (source_of right)) b
unfolding paired
paired-IsPair op (the_key n) (the_literal v) b h =
    subst (IsPair (pair_of (variable n) (value v))) (done-injective h) (inl (refl, refl))
paired-IsPair op (the_literal v) (the_key n) b h =
    subst (IsPair (pair_of (value v) (variable n))) (done-injective h) (inr (refl, refl))
paired-IsPair op (the_key n) (the_key m) b h = absurd (raise_ne h)
paired-IsPair op (the_literal v) (the_literal w) b h = absurd (raise_ne h)

pub binary_operands-IsPair :
    (op : Op) (es : Operands) (b : Binary) → binary_operands op es ≡ done b → IsPair es b
unfolding binary_operands
binary_operands-IsPair op (operand e (operand f empty)) b h =
    let (left, p, h') = >>=-eq-done (classify op e) _ h in
    let (right, q, h'') = >>=-eq-done (classify op f) _ h' in
    subst (λ x. IsPair (pair_of x f) b) (sym (classify_source op e left p))
      (subst (λ x. IsPair (pair_of (source_of left) x) b) (sym (classify_source op f right q))
        (paired-IsPair op left right b h''))
binary_operands-IsPair op empty b h = absurd (raise_ne h)
binary_operands-IsPair op (operand e empty) b h = absurd (raise_ne h)
binary_operands-IsPair op (operand e (operand f (operand g es))) b h = absurd (raise_ne h)

-- An operator with no row translates no comparison.
mirror_unknown : (op o : Op) → key_of op ≡ none → mirror_of op ≡ done o → ⊥
unfolding mirror_of key_of
mirror_unknown (Op.other name) o n h = raise_ne (rw n at h)
mirror_unknown Op.member o n h = cc
mirror_unknown _ o n h = cc

pub oriented_unknown :
    (op o : Op) (first : Bool) → key_of op ≡ none → oriented_operator op first ≡ done o → o ≡ op
unfolding oriented_operator
oriented_unknown op o true n h = absurd (mirror_unknown op o n h)
oriented_unknown op o false n h = sym (done-injective h)

pub polarised_unknown :
    (op o : Op) (negate : Bool) → key_of op ≡ none → polarised_operator op negate ≡ done o → o ≡ op
unfolding polarised_operator negation_of
polarised_unknown op o true n h = absurd (raise_ne (rw n at h))
polarised_unknown op o false n h = sym (done-injective h)

-- A missing attribute or a Boolean.
abbrev pub is_condition : Value → Bool
is_condition evaluation_error = true
is_condition (bool b) = true
is_condition _ = false

pub condition_relation :
    (a : Value) (negate : Bool)
    → is_condition a ≡ true
    → is_bool true (relation (if negate then Key.ne else Key.eq) a (bool true))
      ≡ is_bool (not negate) a
unfolding relation compare_values values_equal
condition_relation evaluation_error true h = refl
condition_relation evaluation_error false h = refl
condition_relation (bool b) true h = ground arith
condition_relation (bool b) false h = ground arith
condition_relation _ negate h = cc

pub compare_unknown :
    (field : ResolvedField) (op : Op) (l : Value) (w : Where)
    → key_of op ≡ none
    → compare field op l ≡ done w
    → ⊥
unfolding compare
compare_unknown field op l w n e = raise_ne (rw n at e)
