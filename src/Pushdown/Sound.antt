-- ===== src/Pushdown/Sound.antt =====
-- convex/src/pushdown.ts against convex/src/evaluate.ts: a filter that is pushed down holds for
-- exactly the documents on which the evaluator answers true.
use query_plan_adapters.Base.{
  ◌≡◌, refl, sym, ap, ap₂, ◌∙◌, ◌↔◌, Bool, true, false, not, ◌&&◌, ◌||◌, List, [], ◌∷◌, every, any,
  Text, arith, if◌then◌else◌, ℤ, subst,
}
use query_plan_adapters.Errors.{Result, ok, ◌>>=◌, >>=-eq-ok}
use query_plan_adapters.Value.{Value, bool, arr}
use query_plan_adapters.Plain.{IsPlain, IsMapFree, AreMapFree}
use query_plan_adapters.Plan.{
  Op, Operand, Operands, empty, operand, expression, value, variable, malformed,
}
use query_plan_adapters.Plan.Mapper.{Mapper, resolve_field}
use query_plan_adapters.Cel.Equality.{values_equal}
use query_plan_adapters.Cel.Path.{as_boolean}
use query_plan_adapters.Cel.Order.{Comparison, compare_values}
use query_plan_adapters.Cel.Mirror.{IsOrdering, swapped, compare_values_swapped}
use query_plan_adapters.Evaluate.{evaluate, runs, parts_all, apply}
use query_plan_adapters.Evaluate.Access
use query_plan_adapters.Evaluate.Access.{comparison}
use query_plan_adapters.Pushdown.Equality.{
  IsEquality, holds-equality, holds-equality_swapped, holds-membership,
}
use query_plan_adapters.Evaluate.Frame.{Scope, Call, look_up, arg_pair}
use query_plan_adapters.Evaluate.Macros.{is_bool, junction}
use query_plan_adapters.Evaluate.Lists.{membership}
use query_plan_adapters.Pushdown.{
  built, constant, mirrored, emit_expression, emit_operands, emit_equality, emit_ordering,
  emit_membership, combine, field_and_literal, field_in_list,
}
use query_plan_adapters.Pushdown.Engine.{stored, Engine}
use query_plan_adapters.Pushdown.Answers.{
  Evaluated, three_valued, junction_lem, is_bool-three_valued_decisive, is_bool-three_valued_other,
}
use query_plan_adapters.Pushdown.Leaves.{
  document_scope, value_of-look_up, holds-polarised, same-values_equal,
}
use query_plan_adapters.Pushdown.Ordering.{holds-guarded}

-- What the plan reads of the document: a bare variable is a Boolean, a compared field is a plain
-- value, and a literal beside it holds no map.
module _ (scope : Scope) where
  abbrev pub ReadsPair : Operands → Type 0
  ReadsPair (operand (variable name) (operand (value l) es)) =
      IsPlain (look_up name scope) × IsMapFree l
  ReadsPair (operand (value l) (operand (variable name) es)) =
      IsPlain (look_up name scope) × IsMapFree l
  ReadsPair _ = Unit

  abbrev pub ReadsList : Operands → Type 0
  ReadsList (operand (variable name) (operand (value (arr vs)) es)) =
      IsPlain (look_up name scope) × AreMapFree vs
  ReadsList _ = Unit

  abbrev pub ReadsRule : Op → Operands → Type 0 → Type 0
  ReadsRule Op.and es all = all
  ReadsRule Op.or es all = all
  ReadsRule Op.not es all = all
  ReadsRule Op.eq es all = ReadsPair es
  ReadsRule Op.ne es all = ReadsPair es
  ReadsRule Op.lt es all = ReadsPair es
  ReadsRule Op.le es all = ReadsPair es
  ReadsRule Op.gt es all = ReadsPair es
  ReadsRule Op.ge es all = ReadsPair es
  ReadsRule Op.member es all = ReadsList es
  ReadsRule _ es all = Unit

  abbrev mutual
    pub Reads : Operand → Type 0
    Reads (value v) = Unit
    Reads (variable name) = (b : Bool) × (look_up name scope ≡ bool b)
    Reads malformed = Unit
    Reads (expression op es) = ReadsRule op es (ReadsAll es)

    pub ReadsAll : Operands → Type 0
    ReadsAll empty = Unit
    ReadsAll (operand e es) = Reads e × ReadsAll es

true_equals : (b : Bool) → values_equal (bool true) (bool b) ≡ b
unfolding values_equal
true_equals b = refl

equals_true : (b : Bool) → values_equal (bool b) (bool true) ≡ b
unfolding values_equal
equals_true b = ground arith

mirrored-swapped : (op : Comparison) → mirrored op ≡ swapped op
unfolding mirrored
mirrored-swapped op = ground arith

mirrored-IsOrdering : (op : Comparison) → IsOrdering op → IsOrdering (mirrored op)
unfolding mirrored
mirrored-IsOrdering Comparison.eq o = o
mirrored-IsOrdering Comparison.ne o = o
mirrored-IsOrdering _ o = tt

mirrored_equality : (op : Comparison) → IsEquality op → mirrored op ≡ op
unfolding mirrored
mirrored_equality op o = ground arith

is_bool-negated :
    (negated : Bool) (v : Value)
    → is_bool (not (not negated)) v ≡ is_bool (not negated) (Access.negated (as_boolean v))
unfolding as_boolean
is_bool-negated true (bool true) = refl
is_bool-negated true (bool false) = refl
is_bool-negated false (bool true) = refl
is_bool-negated false (bool false) = refl
is_bool-negated true v = refl
is_bool-negated false v = refl

pub ok-injective {ℓ} : {A : Type ℓ} {a b : A} → ok a ≡ ok b → a ≡ b
ok-injective e = cc

module _ (E : Engine) (doc : Value) (mapper : Mapper) (missing : Bool) (now : ℤ) where
  open E use {holds, value_of, same}

  abbrev scope : Scope
  scope = document_scope doc mapper missing now

  abbrev field : Text → E.Expr
  field name = E.q.field (resolve_field name mapper)

  -- The evaluation returns, and the filter holds exactly where the value is the polarity's.
  abbrev pub Agrees : Bool → E.Expr → Result Value → Type 0
  Agrees negated r result = (v : Value) × (result ≡ ok v) × (holds r doc ≡ is_bool (not negated) v)

  abbrev pub AllAgree : Bool → List E.Expr → Operands → Type 0
  AllAgree negated rs es =
      (vs : List Value) × Evaluated (runs es) scope vs
      × (every (λ r. holds r doc) rs ≡ every (is_bool (not negated)) vs)
      × (any (λ r. holds r doc) rs ≡ any (is_bool (not negated)) vs)

  holds-constant : (b : Bool) → holds (E.q.eq (constant (bool true)) (constant (bool b))) doc ≡ b
  holds-constant b =
      E.holds-eq _ _ doc
      ∙ (ap₂ same (E.value_of-constant (bool true) doc) (E.value_of-constant (bool b) doc)
          ∙ same-values_equal E (bool true) (bool b) tt tt
          ∙ true_equals b)

  holds-combine :
      (conjoined : Bool) (rs : List E.Expr)
      → holds (combine E.q mapper conjoined rs) doc
        ≡ (if conjoined then every (λ r. holds r doc) rs else any (λ r. holds r doc) rs)
  unfolding combine
  holds-combine conjoined [] = holds-constant conjoined ∙ ground arith
  holds-combine conjoined (r ∷ []) = ground arith
  holds-combine true (r ∷ s ∷ rs) = E.holds-all_of (r ∷ s ∷ rs) doc
  holds-combine false (r ∷ s ∷ rs) = E.holds-any_of (r ∷ s ∷ rs) doc

  -- `Agrees` for an emission that is known.
  agrees :
      (s : E.Expr) (negated : Bool) (v : Value) {r : E.Expr} {result : Result Value}
      → ok s ≡ ok r
      → result ≡ ok v
      → holds s doc ≡ is_bool (not negated) v
      → Agrees negated r result
  agrees s negated v e p h = (v, p, subst (λ x. holds x doc ≡ is_bool (not negated) v) (cc) h)

  value_sound :
      (v : Value) (negated : Bool) {r : E.Expr}
      → emit_expression E.q mapper (value v) negated ≡ ok r
      → Agrees negated r (evaluate (value v) scope)
  unfolding emit_expression evaluate
  value_sound (bool b) negated e =
      agrees _ negated (bool b) e refl
        (holds-polarised E negated _ doc ∙ rw (holds-constant b) (ground arith))
  value_sound _ negated e = cc

  variable_sound :
      (name : Text) (negated : Bool) (b : Bool) {r : E.Expr}
      → look_up name scope ≡ bool b
      → emit_expression E.q mapper (variable name) negated ≡ ok r
      → Agrees negated r (evaluate (variable name) scope)
  unfolding emit_expression evaluate
  variable_sound name negated b h e =
      let s = value_of-look_up E name doc mapper missing now (rw h tt) in
      let p =
        E.holds-eq (built (field name)) (constant (bool true)) doc
        ∙ (ap₂ same (s ∙ ap stored h) (E.value_of-constant (bool true) doc)
            ∙ same-values_equal E (bool b) (bool true) tt tt
            ∙ equals_true b) in
      agrees _ negated (bool b) e (ap ok h) (holds-polarised E negated _ doc ∙ rw p (ground arith))

  junction_sound :
      (d : Bool) (negated : Bool) (es : Operands) (emitted : Result (List E.Expr)) {r : E.Expr}
      → ((rs : List E.Expr) → emitted ≡ ok rs → AllAgree negated rs es)
      → (emitted >>= λ rs. ok (combine E.q mapper (if d then negated else not negated) rs)) ≡ ok r
      → Agrees negated r (junction d (runs es) scope false)
  junction_sound d negated es emitted ih e =
      let (rs, p, q) = >>=-eq-ok emitted _ e in
      let (vs, evaluated, all, one) = ih rs p in
      agrees _ negated (three_valued d vs false) q
        (junction_lem d (runs es) scope vs false evaluated)
        (holds-combine (if d then negated else not negated) rs
          ∙ ground (
            arith,
            all,
            one,
            is_bool-three_valued_decisive d vs,
            is_bool-three_valued_other d vs,
          ))

  negation_sound :
      (negated : Bool) {r : E.Expr} {result : Result Value}
      → Agrees (not negated) r result
      → Agrees negated r (result >>= λ v. ok (Access.negated (as_boolean v)))
  unfolding as_boolean
  negation_sound negated (v, p, h) =
      (Access.negated (as_boolean v), rw p, h ∙ is_bool-negated negated v)

  abbrev call_of : Op → Operands → Call
  call_of op es = record {
    operator = op;
    operands = es;
    scope = scope;
    runs = runs es;
    parts = parts_all es;
  }

  module _ (op : Comparison) (negated : Bool) where
    equality_sound :
        (o : IsEquality op) (name : Op) (es : Operands) {r : E.Expr}
        → ReadsPair scope es
        → emit_equality E.q mapper op negated (field_and_literal es) ≡ ok r
        → Agrees negated r (comparison op (call_of name es))
    unfolding emit_equality field_and_literal comparison evaluate
    equality_sound o name (operand (variable x) (operand (value l) es)) (h, g) e =
        agrees _ negated (compare_values op (look_up x scope) l) e refl (
          holds-equality E negated op o (field x) doc (look_up x scope) l
            (value_of-look_up E x doc mapper missing now h) h g)
    equality_sound o name (operand (value l) (operand (variable x) es)) (h, g) e =
        agrees _ negated (compare_values op l (look_up x scope)) e refl (
          rw (mirrored_equality op o) (
            holds-equality_swapped E negated op o (field x) doc (look_up x scope) l
              (value_of-look_up E x doc mapper missing now h) h g))
    equality_sound o name _ h e = cc

    ordering_sound :
        (o : IsOrdering op) (name : Op) (es : Operands) {r : E.Expr}
        → ReadsPair scope es
        → emit_ordering E.q mapper op negated (field_and_literal es) ≡ ok r
        → Agrees negated r (comparison op (call_of name es))
    unfolding emit_ordering field_and_literal comparison evaluate
    ordering_sound o name (operand (variable x) (operand (value l) es)) (h, g) e =
        agrees _ negated (compare_values op (look_up x scope) l) e refl (
          holds-guarded E mapper op negated o (field x) doc (look_up x scope) l
            (value_of-look_up E x doc mapper missing now h) h g)
    ordering_sound o name (operand (value l) (operand (variable x) es)) (h, g) e =
        agrees _ negated (compare_values op l (look_up x scope)) e refl (
          holds-guarded E mapper (mirrored op) negated (mirrored-IsOrdering op o) (field x) doc
            (look_up x scope) l (value_of-look_up E x doc mapper missing now h) h g
          ∙ ap (is_bool (not negated)) (
              ap (λ c. compare_values c (look_up x scope) l) (mirrored-swapped op)
              ∙ compare_values_swapped op (look_up x scope) l o))
    ordering_sound o name _ h e = cc

  membership_sound :
      (negated : Bool) (es : Operands) {r : E.Expr}
      → ReadsList scope es
      → emit_membership E.q mapper negated (field_in_list es) ≡ ok r
      → Agrees negated r (evaluate (expression Op.member es) scope)
  unfolding emit_membership field_in_list evaluate apply arg_pair
  membership_sound negated (operand (variable x) (operand (value (arr vs)) es)) (h, g) e =
      agrees _ negated (membership (look_up x scope) (arr vs)) e refl (
        holds-membership E negated mapper x doc (look_up x scope)
          (value_of-look_up E x doc mapper missing now h) h vs g)
  membership_sound negated _ h e = cc

  mutual
    unfolding emit_expression evaluate apply

    pub emit_sound :
        (e : Operand) (negated : Bool) {r : E.Expr}
        → Reads scope e
        → emit_expression E.q mapper e negated ≡ ok r
        → Agrees negated r (evaluate e scope)
    emit_sound (value v) negated h e = value_sound v negated e
    emit_sound (variable name) negated h e = variable_sound name negated h.0 h.1 e
    emit_sound malformed negated h e = cc
    emit_sound (expression Op.and es) negated h e =
        junction_sound false negated es _ (λ rs p. operands_sound es negated h p) e
    emit_sound (expression Op.or es) negated h e =
        junction_sound true negated es _ (λ rs p. operands_sound es negated h p) e
    emit_sound (expression Op.not empty) negated h e = cc
    emit_sound (expression Op.not (operand f es)) negated h e =
        negation_sound negated (emit_sound f (not negated) h.0 e)
    emit_sound (expression Op.eq es) negated h e =
        equality_sound Comparison.eq negated tt Op.eq es h e
    emit_sound (expression Op.ne es) negated h e =
        equality_sound Comparison.ne negated tt Op.ne es h e
    emit_sound (expression Op.lt es) negated h e =
        ordering_sound Comparison.lt negated tt Op.lt es h e
    emit_sound (expression Op.le es) negated h e =
        ordering_sound Comparison.le negated tt Op.le es h e
    emit_sound (expression Op.gt es) negated h e =
        ordering_sound Comparison.gt negated tt Op.gt es h e
    emit_sound (expression Op.ge es) negated h e =
        ordering_sound Comparison.ge negated tt Op.ge es h e
    emit_sound (expression Op.member es) negated h e = membership_sound negated es h e
    emit_sound (expression _ es) negated h e = cc

    operands_sound :
        (es : Operands) (negated : Bool) {rs : List E.Expr}
        → ReadsAll scope es
        → emit_operands E.q mapper es negated ≡ ok rs
        → AllAgree negated rs es
    operands_sound empty negated h e = (
      [],
      tt,
      ap (every (λ r. holds r doc)) (sym (ok-injective e)),
      ap (any (λ r. holds r doc)) (sym (ok-injective e)),
    )
    operands_sound (operand f es) negated (h, hs) e =
        let (s, p, e') = >>=-eq-ok (emit_expression E.q mapper f negated) _ e in
        let (ss, q, e'') = >>=-eq-ok (emit_operands E.q mapper es negated) _ e' in
        let (v, evaluated, one) = emit_sound f negated h p in
        let (vs, rest, every_eq, any_eq) = operands_sound es negated hs q in
        (
          v ∷ vs,
          (evaluated, rest),
          ap (every (λ r. holds r doc)) (sym (ok-injective e'')) ∙ ap₂ ◌&&◌ one every_eq,
          ap (any (λ r. holds r doc)) (sym (ok-injective e'')) ∙ ap₂ ◌||◌ one any_eq,
        )

is_true : (v : Value) → (is_bool true v ≡ true) ↔ (v ≡ bool true)
is_true (bool true) = (λ h. refl, λ h. refl)
is_true (bool false) = (λ h. cc, λ h. cc)
is_true v = (λ h. cc, λ h. cc)

-- An emitted filter holds for a document exactly when the evaluator answers true on it, and under
-- an odd number of negations exactly when it answers false.
pub Agrees-iff :
    (E : Engine) (doc : Value) (mapper : Mapper) (missing : Bool) (now : ℤ) {r : E.Expr}
    {result : Result Value}
    → Agrees E doc mapper missing now false r result
    → (E.holds r doc ≡ true) ↔ (result ≡ ok (bool true))
Agrees-iff E doc mapper missing now (v, p, h) =
    (λ g. p ∙ ap ok ((is_true v).0 (sym h ∙ g)), λ g. h ∙ (is_true v).1 (ok-injective (sym p ∙ g)))
