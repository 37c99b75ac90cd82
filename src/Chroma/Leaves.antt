-- ===== src/Chroma/Leaves.antt =====
-- langchain-chromadb/src/index.ts, `mapComparison` and `mapBooleanVariable`: the leaves of the walk,
-- over a record that is as the mapper declares.
use query_plan_adapters.Base.{
  ◌≡◌, refl, sym, ap, ◌∙◌, subst, Bool, true, false, not, inl, inr, Option, none, some, Text,
  if◌then◌else◌,
}
use query_plan_adapters.Value.{Value, evaluation_error, bool}
use query_plan_adapters.Plan.{Op, Operands}
use query_plan_adapters.Evaluate.Macros.{is_bool}
use query_plan_adapters.Chroma.Outcome.{Attempt, done, raise, ◌>>=◌, >>=-eq-done, done-injective}
use query_plan_adapters.Chroma.Comparisons.{Key, op_of, key_of, key_of-cases, key_of-op_of}
use query_plan_adapters.Chroma.Fields.{FieldMapper, ResolvedField, resolve_field}
use query_plan_adapters.Chroma.Where.{Where}
use query_plan_adapters.Chroma.Literals.{is_chroma_literal}
use query_plan_adapters.Chroma.Translate.{
  Binary, binary_operands, negatable, oriented_operator, polarised_operator, map_comparison,
  map_boolean_variable, compare,
}
use query_plan_adapters.Chroma.Server.{Server}
use query_plan_adapters.Chroma.Meaning.{attribute, relation, related, meaning, meanings}
use query_plan_adapters.Chroma.Relations.{
  negation_key-Negates, mirror_key-Mirrors, valid_for-negation_key, valid_for-mirror_key,
}
use query_plan_adapters.Chroma.Orderings.{
  negation_of-op_of, mirror_of-op_of, is_attribute, valid_for,
}
use query_plan_adapters.Chroma.Clauses.{literal-attribute, value_of}
use query_plan_adapters.Chroma.Inequality.{conforms}
use query_plan_adapters.Chroma.Compare.{compare-Translates}
use query_plan_adapters.Chroma.Pairs.{
  IsPair, binary_operands-IsPair, oriented_unknown, polarised_unknown, is_condition,
  condition_relation, compare_unknown,
}

module _ (S : Server) (mapper : FieldMapper) (d : S.Doc) where
  open S use {metadata, is_float, admits}

  -- The attributes that the mapper finds in a record.
  abbrev attribute_of : Attempt ResolvedField → Value
  attribute_of (raise failure) = evaluation_error
  attribute_of (done field) = value_of S field.name d

  abbrev pub attributes : Text → Value
  attributes name = attribute_of (resolve_field mapper name)

  -- What the record stores is as each field declares.
  abbrev pub Conforms : Type 0
  Conforms =
      (name : Text) (field : ResolvedField)
      → resolve_field mapper name ≡ done field
      → conforms field (metadata d field.name) (is_float d field.name) ≡ true

  optional-attribute :
      (o : Option Value)
      → ((v : Value) → o ≡ some v → is_chroma_literal v ≡ true)
      → is_attribute (attribute o) ≡ true
  optional-attribute none h = refl
  optional-attribute (some v) h = literal-attribute v (h v refl)

  module _ (key : Key) (a l : Value) (scalar : is_attribute a ≡ true) where
    -- The operator under the polarity.
    polarised_relation :
        (negate : Bool) (op : Op)
        → polarised_operator (op_of key) negate ≡ done op
        → (k : Key) × (op ≡ op_of k)
          × (valid_for k l ≡ valid_for key l)
          × (valid_for key l ≡ true
              → is_bool true (relation k a l) ≡ is_bool (not negate) (relation key a l))
    unfolding polarised_operator
    polarised_relation true op e =
        let (k, n, same) = negation_of-op_of key op e in
        let valid = valid_for-negation_key key k l n in
        (k, same, valid, λ v. sym (negation_key-Negates key k a l n scalar v).0)
    polarised_relation false op e = (key, sym (done-injective e), refl, λ v. refl)

    oriented_relation :
        (first : Bool) (op : Op)
        → oriented_operator (op_of key) first ≡ done op
        → (k : Key) × (op ≡ op_of k)
          × (valid_for k l ≡ valid_for key l)
          × (valid_for key l ≡ true
              → relation k a l ≡ (if first then relation key l a else relation key a l))
    unfolding oriented_operator
    oriented_relation true op e =
        let (k, m, same) = mirror_of-op_of key op e in
        let valid = valid_for-mirror_key key k l m in
        (k, same, valid, λ v. sym (mirror_key-Mirrors key k a l m scalar v).0)
    oriented_relation false op e = (key, sym (done-injective e), refl, λ v. refl)

  -- A bare key as a condition, whose stored value is a Boolean.
  pub variable_admits :
      (name : Text) (negate : Bool) (w : Where)
      → Conforms
      → is_condition (attributes name) ≡ true
      → map_boolean_variable name mapper negate ≡ done w
      → admits w d ≡ is_bool (not negate) (attributes name)
  unfolding map_boolean_variable
  variable_admits name true w typed b e =
      let (field, r, e') = >>=-eq-done (resolve_field mapper name) _ e in
      let p = ap attribute_of r in
      (compare-Translates S field d (typed name field r) Key.ne (bool true) w e').1
      ∙ rw (← p) (condition_relation (attributes name) true b)
  variable_admits name false w typed b e =
      let (field, r, e') = >>=-eq-done (resolve_field mapper name) _ e in
      let p = ap attribute_of r in
      (compare-Translates S field d (typed name field r) Key.eq (bool true) w e').1
      ∙ rw (← p) (condition_relation (attributes name) false b)

  attributes_scalar : (r : Attempt ResolvedField) → is_attribute (attribute_of r) ≡ true
  attributes_scalar (raise failure) = refl
  attributes_scalar (done field) =
      optional-attribute (metadata d field.name) (S.metadata_literal d field.name)

  -- The value of a comparison in the order in which its operands stand.
  abbrev in_order : Key → Bool → Value → Value → Value
  in_order key first a l = if first then relation key l a else relation key a l

  pair_meaning :
      (key : Key) (es : Operands) (b : Binary)
      → IsPair es b
      → related (some key) (meanings es attributes)
        ≡ in_order key b.literal_first (attributes b.variable) b.value
  unfolding related meaning
  pair_meaning key es b (inl (p, first)) = rw (p, first) refl
  pair_meaning key es b (inr (p, first)) = rw (p, first) refl

  -- The call that follows `binaryOperands`.
  abbrev read_comparison : Op → Bool → Bool → Text → Value → Attempt Where
  read_comparison op first negate name l = oriented_operator op first >>= λ oriented.
      polarised_operator oriented negate >>= λ operator.
      resolve_field mapper name >>= λ field. compare field operator l

  unknown_fails :
      (op : Op) (first negate : Bool) (name : Text) (l : Value) (w : Where)
      → key_of op ≡ none
      → read_comparison op first negate name l ≡ done w
      → ⊥
  unfolding compare
  unknown_fails op first negate name l w n e =
      let (oriented, p, e1) = >>=-eq-done (oriented_operator op first) _ e in
      let same = oriented_unknown op oriented first n p in
      let (operator, q, e2) = >>=-eq-done (polarised_operator oriented negate) _ e1 in
      let m = ap key_of same ∙ n in
      let also_same = polarised_unknown oriented operator negate m q in
      let (field, r, e3) = >>=-eq-done (resolve_field mapper name) _ e2 in
      compare_unknown field operator l w (ap key_of also_same ∙ m) e3

  -- A comparison whose operator has a row, once its operands are read.
  key_admits :
      (key : Key) (first negate : Bool) (name : Text) (l : Value) (w : Where)
      → Conforms
      → read_comparison (op_of key) first negate name l ≡ done w
      → admits w d ≡ is_bool (not negate) (in_order key first (attributes name) l)
  key_admits key first negate name l w typed e =
      let scalar = attributes_scalar (resolve_field mapper name) in
      let (oriented, p, e1) = >>=-eq-done (oriented_operator (op_of key) first) _ e in
      let (k1, s1, v1, r1) = oriented_relation key (attributes name) l scalar first oriented p in
      let (operator, q, e2) = >>=-eq-done (polarised_operator oriented negate) _ e1 in
      let q' = subst (λ o. polarised_operator o negate ≡ done operator) s1 q in
      let (k2, s2, v2, r2) = polarised_relation k1 (attributes name) l scalar negate operator q' in
      let (field, r, e3) = >>=-eq-done (resolve_field mapper name) _ e2 in
      let e4 = subst (λ o. compare field o l ≡ done w) s2 e3 in
      let (valid, admitted) = compare-Translates S field d (typed name field r) k2 l w e4 in
      admitted
      ∙ ap (λ a. is_bool true (relation k2 a l)) (sym (ap attribute_of r))
      ∙ r2 (sym v2 ∙ valid)
      ∙ ap (is_bool (not negate)) (r1 (sym v1 ∙ (sym v2 ∙ valid)))

  pub comparison_admits :
      (op : Op) (es : Operands) (negate : Bool) (w : Where)
      → Conforms
      → map_comparison op es mapper negate ≡ done w
      → admits w d ≡ is_bool (not negate) (related (key_of op) (meanings es attributes))
  unfolding map_comparison related meaning
  comparison_admits op es negate w typed e =
      let (checked, c, e1) = >>=-eq-done (negatable op negate) _ e in
      let (pair, b, e2) = >>=-eq-done (binary_operands op es) _ e1 in
      elim (key_of-cases op) [
        | inl unknown ↦
            absurd
              (unknown_fails op pair.literal_first negate pair.variable pair.value w unknown e2)
        | inr (key, known) ↦
            key_admits key pair.literal_first negate pair.variable pair.value w typed (
              subst
                (λ o. read_comparison o pair.literal_first negate pair.variable pair.value ≡ done w)
                known e2)
            ∙ ap (is_bool (not negate)) (
                sym (pair_meaning key es pair (binary_operands-IsPair op es pair b))
                ∙ ap (λ o. related o (meanings es attributes))
                    (sym (ap key_of known ∙ key_of-op_of key)))
      ]
