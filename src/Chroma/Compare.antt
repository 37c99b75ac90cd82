-- ===== src/Chroma/Compare.antt =====
-- langchain-chromadb/src/index.ts, `compare`: the filter of one comparison admits the records for
-- which CEL finds it true.
use query_plan_adapters.Base.{
  ◌≡◌, refl, sym, ap, ◌∙◌, subst, Bool, true, false, not, ◌&&◌, ◌||◌, inl, inr, every, some, Text,
  text, arith, Bool-cases, Option-cases, ◌∷◌,
}
use query_plan_adapters.Value.{Value, num, arr, nil, cons, elems}
use query_plan_adapters.Plan.{Op}
use query_plan_adapters.Evaluate.Macros.{is_bool}
use query_plan_adapters.Chroma.Outcome.{
  unsupported, optional_field, fractional_threshold, ◌>>=◌, done, done-injective, demand-true,
}
use query_plan_adapters.Chroma.Comparisons.{ChromaOp, Key, comparisons, op_of, key_of-op_of, nin_op}
use query_plan_adapters.Chroma.Fields.{ResolvedField, is_text}
use query_plan_adapters.Chroma.Where.{Where, clause}
use query_plan_adapters.Chroma.Literals.{
  is_chroma_literal, is_finite_number, emit, require_literal, require_number, require_literal_list,
  emit_groups, split_by_type,
}
use query_plan_adapters.Chroma.Translate.{
  compare, compare_key, lowered, checked_emit, inequality_without_ne, require_presence_for,
  require_float_for, is_fractional,
}
use query_plan_adapters.Chroma.Server.{Server, is_exact}
use query_plan_adapters.Chroma.Meaning.{relation}
use query_plan_adapters.Chroma.Orderings.{valid_for}
use query_plan_adapters.Chroma.Clauses.{admits-row, value_of, is_list_key, IsGuarded}
use query_plan_adapters.Chroma.Memberships.{admits-in, admits-nin}
use query_plan_adapters.Chroma.Inequality.{conforms, admits-inequality_without_ne}

pub lowered-some :
    (key : Key) (field : ResolvedField) (l : Value) (w : Where)
    → lowered key field l ≡ some w
    → (key ≡ Key.ne) × (is_chroma_literal l ≡ true) × (inequality_without_ne field l ≡ some w)
lowered-some Key.ne field l w e = elim (Bool-cases (is_chroma_literal l)) [
  | inl i ↦ (refl, i, rw i at e)
  | inr i ↦ cc
]
lowered-some _ field l w e = cc

literal_emitted :
    (chroma : ChromaOp) (name : Text) (op : Op) (l : Value) (w : Where)
    → (require_literal l op >>= λ x. done (clause name chroma x)) ≡ done w
    → (is_chroma_literal l ≡ true) × (w ≡ clause name chroma l)
unfolding require_literal
literal_emitted chroma name op l w e = elim (Bool-cases (is_chroma_literal l)) [
  | inl i ↦ (i, sym (done-injective (rw i at e)))
  | inr i ↦ cc
]

number_emitted :
    (chroma : ChromaOp) (name : Text) (op : Op) (l : Value) (w : Where)
    → (require_number l op >>= λ x. done (clause name chroma x)) ≡ done w
    → (is_finite_number l ≡ true) × (w ≡ clause name chroma l)
unfolding require_number
number_emitted chroma name op l w e = elim (Bool-cases (is_finite_number l)) [
  | inl i ↦ (i, sym (done-injective (rw i at e)))
  | inr i ↦ cc
]

-- What `emit` returns is the clause of a literal that the row accepts.
pub emitted_clause :
    (key : Key) (name : Text) (op : Op) (l : Value) (w : Where)
    → is_list_key key ≡ false
    → emit key name op l ≡ done w
    → (valid_for key l ≡ true) × (w ≡ clause name (comparisons key).chroma l)
unfolding emit
emitted_clause Key.eq name op l w o e = literal_emitted ChromaOp.eq name op l w e
emitted_clause Key.ne name op l w o e = literal_emitted ChromaOp.ne name op l w e
emitted_clause Key.lt name op l w o e = number_emitted ChromaOp.lt name op l w e
emitted_clause Key.le name op l w o e = number_emitted ChromaOp.lte name op l w e
emitted_clause Key.gt name op l w o e = number_emitted ChromaOp.gt name op l w e
emitted_clause Key.ge name op l w o e = number_emitted ChromaOp.gte name op l w e
emitted_clause Key.member name op l w o e = cc
emitted_clause Key.nin name op l w o e = cc

-- What `emit` returns for a list is made of its members' groups.
abbrev pub IsEmittedList : ChromaOp → Text → Op → Value → Where → Type 0
IsEmittedList chroma name op (arr (cons v vs)) w =
    (every is_chroma_literal (v ∷ elems vs) ≡ true)
    × (w ≡ emit_groups name chroma op (v ∷ elems vs) (split_by_type (v ∷ elems vs)))
IsEmittedList chroma name op _ w = ⊥

pub emitted_list :
    (chroma : ChromaOp) (name : Text) (op : Op) (l : Value) (w : Where)
    → (require_literal_list l op >>= λ xs. done (emit_groups name chroma op xs (split_by_type xs)))
      ≡ done w
    → IsEmittedList chroma name op l w
unfolding require_literal_list
emitted_list chroma name op (arr (cons v vs)) w e =
    elim (Bool-cases (every is_chroma_literal (v ∷ elems vs))) [
      | inl i ↦ (i, sym (done-injective (rw i at e)))
      | inr i ↦ cc
    ]
emitted_list chroma name op (arr nil) w e = cc
emitted_list chroma name op _ w e = cc

float_ordered :
    (key : Key) (l : Value) (declared float : Bool)
    → is_list_key key ≡ false
    → valid_for key l ≡ true
    → not ((comparisons key).ordered && is_fractional l && not declared) ≡ true
    → (not declared || float) ≡ true
    → is_exact (comparisons key).chroma l float ≡ true
unfolding is_exact
float_ordered Key.eq l declared float o g h t = refl
float_ordered Key.ne l declared float o g h t = refl
float_ordered Key.lt (num x) declared float o g h t = ground arith
float_ordered Key.le (num x) declared float o g h t = ground arith
float_ordered Key.gt (num x) declared float o g h t = ground arith
float_ordered Key.ge (num x) declared float o g h t = ground arith
float_ordered _ l declared float o g h t = cc

-- The checks before `emit`.
pub checked_emit_lem :
    (key : Key) (field : ResolvedField) (op : Op) (l : Value) (w : Where)
    → checked_emit key field op l ≡ done w
    → ((field.required || not (comparisons key).matches_missing_key) ≡ true)
      × (not (
            (comparisons key).ordered
            && is_fractional l
            && not (is_text field.numeric_type (text "float")))
          ≡ true)
      × (emit key field.name op l ≡ done w)
unfolding require_presence_for require_float_for
checked_emit_lem key field op l w e =
    let (present, e') =
      demand-true (field.required || not (comparisons key).matches_missing_key)
        (unsupported (some op) optional_field)
        (λ p. require_float_for field key op l >>= λ x. emit key field.name op l) e in
    let (exact, e'') =
      demand-true
        (not (
          (comparisons key).ordered
          && is_fractional l
          && not (is_text field.numeric_type (text "float"))))
        (unsupported (some op) fractional_threshold) (λ x. emit key field.name op l) e' in
    (present, exact, e'')

module _ (S : Server) (field : ResolvedField) (d : S.Doc)
    (typed : conforms field (S.metadata d field.name) (S.is_float d field.name) ≡ true) where
  open S use {metadata, is_float, admits}

  abbrev stored_under : Value
  stored_under = value_of S field.name d

  -- What a translation into `w` says of a comparison with `l`.
  abbrev pub Translates : Key → Value → Where → Type 0
  Translates key l w =
      (valid_for key l ≡ true) × (admits w d ≡ is_bool true (relation key stored_under l))

  presence_guards :
      (key : Key)
      → (field.required || not (comparisons key).matches_missing_key) ≡ true
      → IsGuarded S field.name d key
  presence_guards key h e =
      let t = subst (λ o. conforms field o (is_float d field.name) ≡ true) e typed in ground arith

  float_declared :
      (v : Value)
      → conforms field (some v) (is_float d field.name) ≡ true
      → (not (is_text field.numeric_type (text "float")) || is_float d field.name) ≡ true
  float_declared v t = ground arith

  float_exact :
      (key : Key) (l v : Value)
      → is_list_key key ≡ false
      → valid_for key l ≡ true
      → not (
          (comparisons key).ordered
          && is_fractional l
          && not (is_text field.numeric_type (text "float")))
        ≡ true
      → metadata d field.name ≡ some v
      → is_exact (comparisons key).chroma l (is_float d field.name) ≡ true
  unfolding is_exact
  float_exact key l v o g h e =
      let t = subst (λ o. conforms field o (is_float d field.name) ≡ true) e typed in
      float_ordered key l _ _ o g h (float_declared v t)

  list-Translates :
      (l : Value) (w : Where)
      → IsEmittedList ChromaOp.member field.name Op.member l w
      → Translates Key.member l w
  list-Translates (arr (cons v vs)) w (literals, e) =
      (literals, ap (λ u. admits u d) e ∙ admits-in S field.name d v vs literals)
  list-Translates (arr nil) w e = absurd e
  list-Translates _ w e = absurd e

  other_list-Translates :
      (l : Value) (w : Where)
      → IsGuarded S field.name d Key.nin
      → IsEmittedList ChromaOp.not_member field.name nin_op l w
      → Translates Key.nin l w
  other_list-Translates (arr (cons v vs)) w guarded (literals, e) =
      (literals, ap (λ u. admits u d) e ∙ admits-nin S field.name d v vs literals guarded)
  other_list-Translates (arr nil) w guarded e = absurd e
  other_list-Translates _ w guarded e = absurd e

  clause-Translates :
      (key : Key) (l : Value) (w : Where)
      → is_list_key key ≡ false
      → checked_emit key field (op_of key) l ≡ done w
      → Translates key l w
  clause-Translates key l w o e =
      let (present, exact, e') = checked_emit_lem key field (op_of key) l w e in
      let (valid, shape) = emitted_clause key field.name (op_of key) l w o e' in
      (
        valid,
        ap (λ u. admits u d) shape
            ∙ admits-row S field.name d key l o valid (presence_guards key present)
                (λ v p. float_exact key l v o valid exact p),
      )

  checked-Translates :
      (key : Key) (l : Value) (w : Where)
      → checked_emit key field (op_of key) l ≡ done w
      → Translates key l w
  unfolding emit
  checked-Translates Key.member l w e =
      let (present, exact, e') = checked_emit_lem Key.member field Op.member l w e in
      list-Translates l w (emitted_list ChromaOp.member field.name Op.member l w e')
  checked-Translates Key.nin l w e =
      let (present, exact, e') = checked_emit_lem Key.nin field nin_op l w e in
      other_list-Translates l w (presence_guards Key.nin present)
        (emitted_list ChromaOp.not_member field.name nin_op l w e')
  checked-Translates Key.eq l w e = clause-Translates Key.eq l w refl e
  checked-Translates Key.ne l w e = clause-Translates Key.ne l w refl e
  checked-Translates Key.lt l w e = clause-Translates Key.lt l w refl e
  checked-Translates Key.le l w e = clause-Translates Key.le l w refl e
  checked-Translates Key.gt l w e = clause-Translates Key.gt l w refl e
  checked-Translates Key.ge l w e = clause-Translates Key.ge l w refl e

  key-Translates :
      (key : Key) (l : Value) (w : Where)
      → compare_key key field (op_of key) l ≡ done w
      → Translates key l w
  unfolding compare_key
  key-Translates key l w e = elim (Option-cases (lowered key field l)) [
    | inl i ↦ checked-Translates key l w (rw i at e)
    | inr (u, i) ↦
        let (k, literal, spelled) = lowered-some key field l u i in
        let same = done-injective (rw i at e) in
        subst (λ v. Translates key l v) same
          (subst (λ j. Translates j l u) (sym k)
            (literal, admits-inequality_without_ne S field d typed l u literal spelled))
  ]

  -- The filter of `key <op> literal`, over a record whose stored value is as the field declares, admits
  -- it exactly when CEL finds the comparison true.
  pub compare-Translates :
      (key : Key) (l : Value) (w : Where)
      → compare field (op_of key) l ≡ done w
      → Translates key l w
  unfolding compare
  compare-Translates key l w e = key-Translates key l w (rw (key_of-op_of key) at e)
