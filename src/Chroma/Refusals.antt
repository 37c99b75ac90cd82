-- ===== src/Chroma/Refusals.antt =====
-- langchain-chromadb/src/index.ts: a well-formed condition meets no plain `Error`.
use query_plan_adapters.Base.{
  ◌≡◌, refl, subst, Bool, true, false, not, inl, inr, Option, none, some, Text, if◌then◌else◌,
  Bool-cases, Option-cases, arith,
}
use query_plan_adapters.Value.{Value, bool, arr}
use query_plan_adapters.Plan.{
  Op, Operand, Operands, value, variable, expression, malformed, empty, operand,
}
use query_plan_adapters.Chroma.Outcome.{
  Attempt, done, raise, unsupported, plain, ◌>>=◌, cannot_negate, unsupported_operator, Reason,
}
use query_plan_adapters.Chroma.Comparisons.{
  Key, key_of, is_plan_comparison, negation_of, mirror_of, negated_of, mirrored_of, or_refuse,
}
use query_plan_adapters.Chroma.Fields.{FieldMapper, ResolvedField, resolve_field}
use query_plan_adapters.Chroma.Literals.{
  emit, require_literal, require_number, require_literal_list,
}
use query_plan_adapters.Chroma.Pairs.{IsPair, binary_operands-IsPair}
use query_plan_adapters.Chroma.Translate.{
  Binary, compare, compare_key, lowered, checked_emit, require_presence_for, require_float_for,
  KeyOrLiteral, the_key, the_literal, classify, paired, wrong_arity, binary_operands, negatable,
  oriented_operator, polarised_operator, map_comparison, map_boolean_variable, junction, has_two,
  map_operand, map_operands,
}

-- Whether a call throws a plain `Error`.
abbrev pub is_plain : {A : Type 0} → Attempt A → Bool
is_plain (done x) = false
is_plain (raise (unsupported op reason)) = false
is_plain (raise (plain message)) = true

-- Every junction has two operands or more, every negation one, every comparison two, and every
-- condition is an expression or a key.
abbrev mutual
  pub IsWellFormed : Operand → Type 0
  IsWellFormed (variable name) = Unit
  IsWellFormed (value v) = ⊥
  IsWellFormed malformed = ⊥
  IsWellFormed (expression Op.and es) = (has_two es ≡ true) × AreWellFormed es
  IsWellFormed (expression Op.or es) = (has_two es ≡ true) × AreWellFormed es
  IsWellFormed (expression Op.not (operand e empty)) = IsWellFormed e
  IsWellFormed (expression Op.not es) = ⊥
  IsWellFormed (expression op es) = HasArity (is_plan_comparison op) es

  pub AreWellFormed : Operands → Type 0
  AreWellFormed empty = Unit
  AreWellFormed (operand e es) = IsWellFormed e × AreWellFormed es

  pub HasArity : Bool → Operands → Type 0
  HasArity true (operand e (operand f empty)) = Unit
  HasArity true es = ⊥
  HasArity false es = Unit

-- The references of a condition resolve: the mapper throws no plain `Error` for them.
abbrev mutual
  pub Resolves : FieldMapper → Operand → Type 0
  Resolves mapper (variable name) = is_plain (resolve_field mapper name) ≡ false
  Resolves mapper (expression op es) = AllResolve mapper es
  Resolves mapper _ = Unit

  pub AllResolve : FieldMapper → Operands → Type 0
  AllResolve mapper empty = Unit
  AllResolve mapper (operand e es) = Resolves mapper e × AllResolve mapper es

true_ne_false : true ≡ false → ⊥
true_ne_false e = cc

-- A call and what follows it.
bound :
    {X Y : Type 0} (call : Attempt X) (next : X → Attempt Y)
    → is_plain call ≡ false
    → ((x : X) → is_plain (next x) ≡ false)
    → is_plain (call >>= next) ≡ false
bound (done x) next h k = k x
bound (raise (unsupported op reason)) next h k = refl
bound (raise (plain message)) next h k = absurd (true_ne_false h)

bound_at :
    {X Y : Type 0} (call : Attempt X) (next : X → Attempt Y)
    → is_plain call ≡ false
    → ((x : X) → call ≡ done x → is_plain (next x) ≡ false)
    → is_plain (call >>= next) ≡ false
bound_at (done x) next h k = k x refl
bound_at (raise (unsupported op reason)) next h k = refl
bound_at (raise (plain message)) next h k = absurd (true_ne_false h)

list_refusal : (v : Value) (op : Op) → is_plain (require_literal_list v op) ≡ false
unfolding require_literal_list
list_refusal (arr vs) op = ground arith
list_refusal _ op = refl

emit_refusal :
    (key : Key) (name : Text) (op : Op) (v : Value) → is_plain (emit key name op v) ≡ false
unfolding emit require_literal require_number
emit_refusal Key.member name op v =
    bound (require_literal_list v op) _ (list_refusal v op) (λ x. refl)
emit_refusal Key.nin name op v = bound (require_literal_list v op) _ (list_refusal v op) (λ x. refl)
emit_refusal _ name op v = ground arith

checked_refusal :
    (key : Key) (field : ResolvedField) (op : Op) (v : Value)
    → is_plain (checked_emit key field op v) ≡ false
unfolding require_presence_for require_float_for
checked_refusal key field op v = ground (arith, emit_refusal key field.name op v)

compare_refusal :
    (field : ResolvedField) (op : Op) (v : Value) → is_plain (compare field op v) ≡ false
unfolding compare compare_key
compare_refusal field op v = elim (Option-cases (key_of op)) [
  | inl n ↦ rw n refl
  | inr (key, k) ↦ rw k (elim (Option-cases (lowered key field v)) [
    | inl n ↦ rw n (checked_refusal key field op v)
    | inr (w, l) ↦ rw l refl
  ])
]

refused_op :
    (o : Option Op) (op : Op) (reason : Reason)
    → is_plain (or_refuse o (raise (unsupported (some op) reason))) ≡ false
refused_op none op reason = refl
refused_op (some o) op reason = refl

negation_refusal : (op : Op) → is_plain (negation_of op) ≡ false
unfolding negation_of
negation_refusal op = refused_op (negated_of (key_of op)) op cannot_negate

mirror_refusal : (op : Op) → is_plain (mirror_of op) ≡ false
unfolding mirror_of
mirror_refusal Op.member = refl
mirror_refusal op = refused_op (mirrored_of (key_of op)) op unsupported_operator

classify_refusal : (op : Op) (e : Operand) → is_plain (classify op e) ≡ false
unfolding classify
classify_refusal op (variable name) = refl
classify_refusal op (value v) = refl
classify_refusal op malformed = refl
classify_refusal op (expression inner es) = refl

paired_refusal : (op : Op) (a b : KeyOrLiteral) → is_plain (paired op a b) ≡ false
unfolding paired
paired_refusal op (the_key n) (the_key m) = refl
paired_refusal op (the_key n) (the_literal v) = refl
paired_refusal op (the_literal v) (the_key n) = refl
paired_refusal op (the_literal v) (the_literal w) = refl

wrong_refusal :
    (op : Op) (es : Operands)
    → (HasArity true es → ⊥)
    → HasArity (is_plan_comparison op) es
    → is_plain (wrong_arity op) ≡ false
wrong_refusal op es never h = elim (Bool-cases (is_plan_comparison op)) [
  | inl i ↦ absurd (never (subst (λ b. HasArity b es) i h))
  | inr i ↦ rw i refl
]

binary_refusal :
    (op : Op) (es : Operands)
    → HasArity (is_plan_comparison op) es
    → is_plain (binary_operands op es) ≡ false
unfolding binary_operands
binary_refusal op (operand e (operand f empty)) h =
    bound (classify op e) _ (classify_refusal op e)
      (λ a. bound (classify op f) _ (classify_refusal op f) (λ b. paired_refusal op a b))
binary_refusal op empty h = wrong_refusal op empty (λ x. x) h
binary_refusal op (operand e empty) h = wrong_refusal op (operand e empty) (λ x. x) h
binary_refusal op (operand e (operand f (operand g es))) h =
    wrong_refusal op (operand e (operand f (operand g es))) (λ x. x) h

negatable_refusal : (op : Op) (negate : Bool) → is_plain (negatable op negate) ≡ false
unfolding negatable
negatable_refusal op true = bound (negation_of op) _ (negation_refusal op) (λ x. refl)
negatable_refusal op false = refl

oriented_refusal : (op : Op) (first : Bool) → is_plain (oriented_operator op first) ≡ false
unfolding oriented_operator
oriented_refusal op true = mirror_refusal op
oriented_refusal op false = refl

polarised_refusal : (op : Op) (negate : Bool) → is_plain (polarised_operator op negate) ≡ false
unfolding polarised_operator
polarised_refusal op true = negation_refusal op
polarised_refusal op false = refl

module _ (mapper : FieldMapper) where
  key_resolves :
      (es : Operands) (b : Binary)
      → IsPair es b
      → AllResolve mapper es
      → is_plain (resolve_field mapper b.variable) ≡ false
  key_resolves es b (inl (same, first)) r = (subst (AllResolve mapper) same r).0
  key_resolves es b (inr (same, first)) r = (subst (AllResolve mapper) same r).1.0

  comparison_refusal :
      (op : Op) (es : Operands) (negate : Bool)
      → HasArity (is_plan_comparison op) es
      → AllResolve mapper es
      → is_plain (map_comparison op es mapper negate) ≡ false
  unfolding map_comparison
  comparison_refusal op es negate h r =
      bound (negatable op negate) _ (negatable_refusal op negate) (λ c.
        bound_at (binary_operands op es) _ (binary_refusal op es h) (λ pair found.
          bound (oriented_operator op pair.literal_first) _ (oriented_refusal op pair.literal_first)
            (λ o. bound (polarised_operator o negate) _ (polarised_refusal o negate) (λ operator.
              bound (resolve_field mapper pair.variable) _
                (key_resolves es pair (binary_operands-IsPair op es pair found) r)
                (λ field. compare_refusal field operator pair.value)))))

  junction_refusal :
      (conjoined negate : Bool) (es : Operands)
      → has_two es ≡ true
      → is_plain (map_operands es mapper negate) ≡ false
      → is_plain (junction conjoined es (map_operands es mapper negate)) ≡ false
  unfolding junction
  junction_refusal conjoined negate es two h =
      rw two (bound (map_operands es mapper negate) _ h (λ ws. refl))

  mutual
    unfolding map_operand map_boolean_variable

    operand_refuses :
        (e : Operand) (negate : Bool)
        → IsWellFormed e
        → Resolves mapper e
        → is_plain (map_operand e mapper negate) ≡ false
    operand_refuses (variable name) negate h r =
        bound (resolve_field mapper name) _ r
          (λ field. compare_refusal field (if negate then Op.ne else Op.eq) (bool true))
    operand_refuses (value v) negate h r = absurd h
    operand_refuses malformed negate h r = absurd h
    operand_refuses (expression Op.and es) negate (two, h) r =
        junction_refusal (not negate) negate es two (operands_refuse es negate h r)
    operand_refuses (expression Op.or es) negate (two, h) r =
        junction_refusal negate negate es two (operands_refuse es negate h r)
    operand_refuses (expression Op.not (operand e empty)) negate h r =
        operand_refuses e (not negate) h r.0
    operand_refuses (expression Op.not empty) negate h r = absurd h
    operand_refuses (expression Op.not (operand e (operand f es))) negate h r = absurd h
    operand_refuses (expression op es) negate h r = comparison_refusal op es negate h r

    operands_refuse :
        (es : Operands) (negate : Bool)
        → AreWellFormed es
        → AllResolve mapper es
        → is_plain (map_operands es mapper negate) ≡ false
    operands_refuse empty negate h r = refl
    operands_refuse (operand e es) negate (h, hs) (r, rs) =
        bound (map_operand e mapper negate) _ (operand_refuses e negate h r) (λ w.
          bound (map_operands es mapper negate) _ (operands_refuse es negate hs rs) (λ ws. refl))

  -- Where its references resolve, a well-formed condition, or its negation, is translated or refused
  -- with an `UnsupportedOperatorError`: it meets no plain `Error`.
  pub map_operand-refuses :
      (e : Operand) (negate : Bool)
      → IsWellFormed e
      → Resolves mapper e
      → is_plain (map_operand e mapper negate) ≡ false
  map_operand-refuses e negate h r = operand_refuses e negate h r
