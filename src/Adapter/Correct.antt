-- ===== src/Adapter/Correct.antt =====
-- convex/src/index.ts: whichever half of the output answers a condition, and however it is split, the
-- documents that pass are those on which the evaluator answers true.
use mathlib.Core.Bool.{and-eq-true_iff}
use query_plan_adapters.Base.{
  ◌≡◌, refl, sym, ◌∙◌, ◌↔◌, Bool, true, false, not, none, List, [], ◌∷◌, All, filter, ℤ, Bool-cases,
  inl, inr, subst,
}
use query_plan_adapters.Errors.{Result, ok, throw, ◌>>=◌, >>-eq-ok}
use query_plan_adapters.Value.{Value, bool}
use query_plan_adapters.Plan.{Op, Operand, empty, operand, expression, operand_list, operands_of}
use query_plan_adapters.Plan.Mapper.{Mapper}
use query_plan_adapters.Evaluate.{evaluate}
use query_plan_adapters.Evaluate.Frame.{Scope}
use query_plan_adapters.Evaluate.Macros.{is_bool}
use query_plan_adapters.Pushdown.{FilterQ, can_push_to_db, all_pushable}
use query_plan_adapters.Pushdown.Engine.{Engine}
use query_plan_adapters.Pushdown.Leaves.{document_scope}
use query_plan_adapters.Pushdown.Sound.{Reads, ReadsAll, ok-injective}
use query_plan_adapters.Pushdown.Total.{IsCondition, AreConditions, translate_expression-evaluate}
use query_plan_adapters.Adapter.{
  conditional, NullAttributeRepresentation, is_omitted, effective_mapper, ConvexResult, allowed,
  denied, db, post, split, conjunction, post_filter_for, convex_filter, split_halves, split_or_post,
  build_filters, allow, assert_nulls, query_plan_to_convex,
}
use query_plan_adapters.Validate.{
  validate_structure, assert_no_list_valued_condition, assert_every_reference_mapped,
}
use query_plan_adapters.Adapter.Split.{IsTrue, evaluate-and_iff, conjunction_iff, All-filter_iff}

-- A filter that the engine is given: it is built, and holds.
abbrev pub Passes : (E : Engine) → (FilterQ E.Expr → Result E.Expr) → Value → Type 0
Passes E f doc = (r : E.Expr) × (f E.q ≡ ok r) × (E.holds r doc ≡ true)

-- The documents that the caller is left with.
abbrev pub Selects : (E : Engine) → ConvexResult E.Expr → Value → ℤ → Type 0
Selects E allowed doc now = Unit
Selects E denied doc now = ⊥
Selects E (db f) doc now = Passes E f doc
Selects E (post p) doc now = p doc now ≡ ok true
Selects E (split f p) doc now = Passes E f doc × (p doc now ≡ ok true)

-- If the expression is pushed down, it is a condition and the document is read as `Reads` says.
abbrev pub Answerable : Scope → Mapper → Operand → Type 0
Answerable scope mapper e = can_push_to_db e mapper ≡ true → IsCondition e × Reads scope e

-- The operands of a root `and`, which may be pushed down on their own.
abbrev pub root_operands : Operand → List Operand
root_operands (expression Op.and es) = operand_list es
root_operands _ = []

is_true_of_ok : (v : Value) → (ok (is_bool true v) ≡ ok true) ↔ (ok v ≡ ok (bool true))
is_true_of_ok (bool true) = (λ h. refl, λ h. refl)
is_true_of_ok (bool false) = (λ h. cc, λ h. cc)
is_true_of_ok v = (λ h. cc, λ h. cc)

returned_true :
    (r : Result Value) → ((r >>= λ v. ok (is_bool true v)) ≡ ok true) ↔ (r ≡ ok (bool true))
returned_true (ok v) = is_true_of_ok v
returned_true (throw e) = (λ h. cc, λ h. cc)

kept :
    (test : Operand → Bool) (x : Operand) (xs : List Operand) (b : Bool)
    → test x ≡ b
    → All (λ y. test y ≡ true) xs
    → All (λ y. test y ≡ true) (elim b [ true ↦ x ∷ xs | false ↦ xs ])
kept test x xs true h a = (h, a)
kept test x xs false h a = a

All-filter : (test : Operand → Bool) (xs : List Operand) → All (λ x. test x ≡ true) (filter test xs)
All-filter test [] = tt
All-filter test (x ∷ xs) = kept test x (filter test xs) (test x) refl (All-filter test xs)

module _ (E : Engine) (mapper : Mapper) (missing : Bool) (doc : Value) (now : ℤ) where
  abbrev scope : Scope
  scope = document_scope doc mapper missing now

  post_filter_iff :
      (e : Operand) → (post_filter_for e mapper missing doc now ≡ ok true) ↔ IsTrue scope e
  unfolding post_filter_for
  post_filter_iff e = returned_true (evaluate e scope)

  Passes-iff :
      (e : Operand)
      → can_push_to_db e mapper ≡ true
      → IsCondition e
      → Reads scope e
      → Passes E (convex_filter e mapper) doc ↔ IsTrue scope e
  unfolding convex_filter
  Passes-iff e h c g =
      let (r, p, (to, from)) = translate_expression-evaluate E e doc mapper missing now h c g in
      (
        λ (s, q, k). to (subst (λ x. E.holds x doc ≡ true) (ok-injective (sym q ∙ p)) k),
        λ t. (r, p, from t),
      )

  -- The conjunction of operands that are pushed down is pushed down itself.
  abbrev IsPushed : Operand → Type 0
  IsPushed e = (can_push_to_db e mapper ≡ true) × IsCondition e × Reads scope e

  operands-IsPushed :
      (xs : List Operand)
      → All (λ x. can_push_to_db x mapper ≡ true) xs
      → All (Answerable scope mapper) xs
      → (all_pushable (operands_of xs) mapper ≡ true)
        × AreConditions (operands_of xs)
        × ReadsAll scope (operands_of xs)
  unfolding can_push_to_db
  operands-IsPushed [] h a = (refl, tt, tt)
  operands-IsPushed (x ∷ xs) (h, hs) (a, b) =
      let (c, g) = a h in
      let (all, cs, gs) = operands-IsPushed xs hs b in
      ((and-eq-true_iff _ _).1 (h, all), (c, cs), (g, gs))

  conjunction-IsPushed :
      (x : Operand) (xs : List Operand)
      → All (λ y. can_push_to_db y mapper ≡ true) (x ∷ xs)
      → All (Answerable scope mapper) (x ∷ xs)
      → IsPushed (conjunction (x ∷ xs))
  unfolding conjunction can_push_to_db
  conjunction-IsPushed x [] (h, hs) (a, b) = (h, (a h).0, (a h).1)
  conjunction-IsPushed x (y ∷ xs) h a = operands-IsPushed (x ∷ y ∷ xs) h a

  halves_sound :
      (ps ns : List Operand) (e : Operand)
      → All (λ x. can_push_to_db x mapper ≡ true) ps
      → All (Answerable scope mapper) ps
      → (All (IsTrue scope) ps × All (IsTrue scope) ns) ↔ IsTrue scope e
      → Selects E (split_halves ps ns e mapper missing) doc now ↔ IsTrue scope e
  halves_sound [] ns e h a (to, from) = post_filter_iff e
  halves_sound (p ∷ ps) [] e h a (to, from) = post_filter_iff e
  halves_sound (p ∷ ps) (n ∷ ns) e h a (to, from) =
      let (pushed, c, g) = conjunction-IsPushed p ps h a in
      let (first, first') = Passes-iff (conjunction (p ∷ ps)) pushed c g in
      let (second, second') = post_filter_iff (conjunction (n ∷ ns)) in
      let (left, left') = conjunction_iff p ps scope in
      let (right, right') = conjunction_iff n ns scope in
      (
        λ (f, k). to (left (first f), right (second k)),
        λ t. (first' (left' (from t).0), second' (right' (from t).1)),
      )

  split_sound :
      (e : Operand)
      → All (Answerable scope mapper) (root_operands e)
      → Selects E (split_or_post e mapper missing) doc now ↔ IsTrue scope e
  split_sound (expression Op.and (operand x (operand y es))) a =
      let test = λ (z : Operand). can_push_to_db z mapper in
      let xs = operand_list (operand x (operand y es)) in
      let (both, both') = All-filter_iff (IsTrue scope) test xs in
      let (each, each') = evaluate-and_iff (operand x (operand y es)) scope in
      halves_sound (filter test xs) (filter (λ z. not (test z)) xs)
        (expression Op.and (operand x (operand y es))) (All-filter test xs)
        ((All-filter_iff (Answerable scope mapper) test xs).1 a).0
        (λ h. each' (both h), λ h. both' (each h))
  split_sound (expression Op.and (operand x empty)) a =
      post_filter_iff (expression Op.and (operand x empty))
  split_sound (expression Op.and empty) a = post_filter_iff (expression Op.and empty)
  split_sound e a = post_filter_iff e

  pub build_filters_sound :
      (e : Operand)
      → All (Answerable scope mapper) (e ∷ root_operands e)
      → Selects E (build_filters e mapper missing) doc now ↔ IsTrue scope e
  unfolding build_filters
  build_filters_sound e (a, b) = elim (Bool-cases (can_push_to_db e mapper)) [
    | inl h ↦ rw h (Passes-iff e h (a h).0 (a h).1)
    | inr h ↦ rw h (split_sound e b)
  ]

allow-eq-ok :
    {R : Type 0} (permitted : Bool) (result : ConvexResult R) {r : ConvexResult R}
    → allow permitted result ≡ ok r
    → result ≡ r
allow-eq-ok true result h = ok-injective h
allow-eq-ok false allowed h = ok-injective h
allow-eq-ok false denied h = ok-injective h
allow-eq-ok false (db f) h = ok-injective h
allow-eq-ok false (post p) h = cc
allow-eq-ok false (split f p) h = cc

-- Where a conditional plan yields a result, a document passes it (the engine's filter, the
-- post-filter, or both) exactly when the evaluator answers true on the whole condition. For this each
-- part that `canPushToDb` accepts, which is the whole or an operand of a root `and`, has Booleans as its
-- literals in Boolean position and an operand in every `not`, and the document is read there as `Reads`
-- says: bare variables store Booleans, compared fields store plain values, and the literals hold no map.
pub query_plan_to_convex-Selects :
    (E : Engine) (condition : Operand) (mapper : Mapper) (allow_post_filter : Bool)
    (nulls : NullAttributeRepresentation) (doc : Value) (now : ℤ) (result : ConvexResult E.Expr)
    → query_plan_to_convex (conditional condition) mapper allow_post_filter nulls ≡ ok result
    → All
        (Answerable
          (document_scope doc (effective_mapper nulls mapper) (is_omitted nulls) now)
          (effective_mapper nulls mapper))
        (condition ∷ root_operands condition)
    → Selects E result doc now ↔ (
        evaluate condition
          (document_scope doc (effective_mapper nulls mapper) (is_omitted nulls) now)
        ≡ ok (bool true))
unfolding query_plan_to_convex
query_plan_to_convex-Selects E condition mapper allow_post_filter nulls doc now result h a =
    let h₁ = >>-eq-ok (assert_no_list_valued_condition condition) _ h in
    let h₂ = >>-eq-ok (assert_nulls nulls condition) _ h₁ in
    let h₃ = >>-eq-ok (validate_structure condition none) _ h₂ in
    let h₄ = >>-eq-ok (assert_every_reference_mapped condition mapper []) _ h₃ in
    subst
      (λ r.
        Selects E r doc now
        ↔ IsTrue (document_scope doc (effective_mapper nulls mapper) (is_omitted nulls) now)
            condition)
      (allow-eq-ok allow_post_filter _ h₄)
      (build_filters_sound E (effective_mapper nulls mapper) (is_omitted nulls) doc now condition a)
