-- ===== src/Validate/References.antt =====
-- convex/src/validate.ts, `assertEveryReferenceMapped`: every reference to a document field has an
-- entry in the mapper.
use query_plan_adapters.Base.{
  some-injective, ℕ, zero, suc, ◌≡◌, refl, sym, ◌∙◌, Bool, true, false, some, List, [], ◌∷◌, ◌++◌,
  any, Text, text_eq, get_elem?, if◌then◌else◌, subst,
}
use query_plan_adapters.Errors.{Result, ok, throw, unmapped, >>-eq-ok, check_ok}
use query_plan_adapters.Plan.{Op, Operand, Operands, empty, operand, expression, variable, nth}
use query_plan_adapters.Plan.Mapper.{Mapper, is_mapped_reference}
use query_plan_adapters.Evaluate.Frame.{root_of}
use query_plan_adapters.Evaluate.Lambda.{Lambda, lambda_components}
use query_plan_adapters.Validate.{Check, assert_every_reference_mapped, reference_checks, run_all}

-- The operators whose operands are all read under the variables of the node itself.
abbrev pub IsPlainNode : Op → Type 0
IsPlainNode Op.lambda = ⊥
IsPlainNode Op.get_field = ⊥
IsPlainNode _ = Unit

-- `Refers name bound e`: under the lambda variables `bound`, the expression reads `name` from the
-- document. A lambda binds its variables in its body; `get-field` reads its first operand only.
mutual
  pub data Refers (name : Text) : List Text → Operand → Type 0 where
    here :
        {bound : List Text}
        → any (text_eq (root_of name)) bound ≡ false
        → Refers name bound (variable name)
    in_body :
        {bound : List Text} {es : Operands} (lambda : Lambda) {body : Operand}
        → lambda_components (expression Op.lambda es) ≡ ok lambda
        → nth es lambda.body_at ≡ some body
        → Refers name (bound ++ lambda.variables) body
        → Refers name bound (expression Op.lambda es)
    in_target :
        {bound : List Text} {e : Operand} {es : Operands}
        → Refers name bound e
        → Refers name bound (expression Op.get_field (operand e es))
    in_operand :
        {bound : List Text} {op : Op} {es : Operands} {e : Operand} (i : ℕ)
        → IsPlainNode op
        → nth es i ≡ some e
        → Refers name bound e
        → Refers name bound (expression op es)

get_elem?-reference_checks :
    (es : Operands) (i : ℕ) (mapper : Mapper) {e : Operand}
    → nth es i ≡ some e
    → get_elem? (reference_checks es mapper) i ≡ some (assert_every_reference_mapped e mapper)
unfolding assert_every_reference_mapped
get_elem?-reference_checks empty i mapper h = cc
get_elem?-reference_checks (operand f es) zero mapper h = rw (some-injective h) refl
get_elem?-reference_checks (operand f es) (suc i) mapper h =
    get_elem?-reference_checks es i mapper h

run_all-get_elem? :
    (checks : List Check) (bound : List Text) (i : ℕ) {check : Check}
    → run_all checks bound ≡ ok tt
    → get_elem? checks i ≡ some check
    → check bound ≡ ok tt
run_all-get_elem? [] bound i h g = cc
run_all-get_elem? (c ∷ checks) bound zero h g =
    subst (λ x. x bound ≡ ok tt) (some-injective g) (check_ok (c bound) _ h)
run_all-get_elem? (c ∷ checks) bound (suc i) h g =
    run_all-get_elem? checks bound i (>>-eq-ok (c bound) _ h) g

pub plain_node :
    (op : Op) (es : Operands) (mapper : Mapper) (bound : List Text)
    → IsPlainNode op
    → assert_every_reference_mapped (expression op es) mapper bound
      ≡ run_all (reference_checks es mapper) bound
unfolding assert_every_reference_mapped
plain_node Op.lambda es mapper bound h = absurd h
plain_node Op.get_field es mapper bound h = absurd h
plain_node op es mapper bound h = refl

of_test :
    (name : Text) (b : Bool)
    → ◌≡◌ {A = Result (Unit {0})} (if b then ok tt else throw (unmapped name)) (ok tt)
    → b ≡ true
of_test name true h = refl
of_test name false h = cc

of_reference :
    (mapper : Mapper) (name : Text) (bound : List Text)
    → any (text_eq (root_of name)) bound ≡ false
    → assert_every_reference_mapped (variable name) mapper bound ≡ ok tt
    → is_mapped_reference name mapper ≡ true
unfolding assert_every_reference_mapped
of_reference mapper name bound free h =
    of_test name (is_mapped_reference name mapper) (rw free at h)

of_target :
    (mapper : Mapper) (bound : List Text) (e : Operand) (es : Operands)
    → assert_every_reference_mapped (expression Op.get_field (operand e es)) mapper bound ≡ ok tt
    → assert_every_reference_mapped e mapper bound ≡ ok tt
unfolding assert_every_reference_mapped
of_target mapper bound e es h = h

of_body :
    (mapper : Mapper) (bound : List Text) (es : Operands) (lambda : Lambda) {body : Operand}
    → lambda_components (expression Op.lambda es) ≡ ok lambda
    → nth es lambda.body_at ≡ some body
    → assert_every_reference_mapped (expression Op.lambda es) mapper bound ≡ ok tt
    → assert_every_reference_mapped body mapper (bound ++ lambda.variables) ≡ ok tt
unfolding assert_every_reference_mapped
of_body mapper bound es lambda components found h =
    rw (get_elem?-reference_checks es lambda.body_at mapper found) at (rw components at h)

-- Where the check of an expression succeeds, every reference that the expression reads from the
-- document has an entry in the mapper.
pub assert_every_reference_mapped-Refers :
    (mapper : Mapper) (name : Text) (bound : List Text) (e : Operand)
    → assert_every_reference_mapped e mapper bound ≡ ok tt
    → Refers name bound e
    → is_mapped_reference name mapper ≡ true
assert_every_reference_mapped-Refers mapper name bound _ h (here free) =
    of_reference mapper name bound free h
assert_every_reference_mapped-Refers mapper name bound (expression _ es) h
      (in_body lambda components found r) =
    assert_every_reference_mapped-Refers mapper name (bound ++ lambda.variables) _
      (of_body mapper bound es lambda components found h) r
assert_every_reference_mapped-Refers mapper name bound (expression _ (operand e es)) h
      (in_target r) =
    assert_every_reference_mapped-Refers mapper name bound e (of_target mapper bound e es h) r
assert_every_reference_mapped-Refers mapper name bound (expression op es) h
      (in_operand i plain found r) =
    assert_every_reference_mapped-Refers mapper name bound _
      (run_all-get_elem? (reference_checks es mapper) bound i
        (sym (plain_node op es mapper bound plain) ∙ h)
        (get_elem?-reference_checks es i mapper found))
      r
