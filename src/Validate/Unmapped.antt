-- ===== src/Validate/Unmapped.antt =====
-- convex/src/validate.ts, `assertEveryReferenceMapped`: the reference that a refusal names.
use query_plan_adapters.Base.{
  ℕ, zero, suc, ◌≡◌, refl, sym, ap, ◌∙◌, Bool, true, false, ◌||◌, Option, none, some, List, [],
  ◌++◌, any, Text, text_eq, get_elem?, if◌then◌else◌, subst, ◌⊎◌, inl, inr,
}
use query_plan_adapters.Errors.{Result, ok, throw, Failure, unmapped, ◌>>=◌, ◌>>◌}
use query_plan_adapters.Plan.{
  Op, Operand, Operands, empty, operand, expression, value, variable, malformed, nth,
}
use query_plan_adapters.Plan.Mapper.{Mapper, is_mapped_reference}
use query_plan_adapters.Evaluate.Frame.{root_of}
use query_plan_adapters.Evaluate.Lambda.{Lambda, lambda_components, one_variable, two_variables}
use query_plan_adapters.Validate.{
  Check, assert_every_reference_mapped, reference_checks, run_all, or_crash,
}
use query_plan_adapters.Validate.References.{Refers, here, in_body, in_target, in_operand}

thrown_by :
    (m k : Result (Unit {0})) {f : Failure} → (m >> k) ≡ throw f → (m ≡ throw f) ⊎ (k ≡ throw f)
thrown_by (ok u) k h = inr h
thrown_by (throw e) k h = inl h

thrown : {f g : Failure} → ◌≡◌ {A = Result (Unit {0})} (throw f) (throw g) → f ≡ g
thrown {f} e = ap (λ r. elim r [ ok u ↦ f | throw h ↦ h ]) e

of_test :
    (x name : Text) (bound mapped : Bool)
    → ◌≡◌ {A = Result (Unit {0})}
        (if bound || mapped then ok tt else throw (unmapped x))
        (throw (unmapped name))
    → (bound ≡ false) × (mapped ≡ false) × (x ≡ name)
of_test x name true mapped h = cc
of_test x name false true h = cc
of_test x name false false h = (refl, refl, ap blamed h)
  where
    blamed : Result (Unit {0}) → Text
    blamed (throw (unmapped y)) = y
    blamed _ = []

abbrev IsUnmapped {ℓ} : {A : Type ℓ} → Result A → Type 0
IsUnmapped (throw (unmapped name)) = Unit
IsUnmapped _ = ⊥

one_not_unmapped :
    (first second : Operand) (a b : Option Text) → IsUnmapped (one_variable first second a b) → ⊥
one_not_unmapped first second a (some name) h = h
one_not_unmapped first second (some name) none h = h
one_not_unmapped first second none none h = h

two_not_unmapped : (body : Operand) (a b : Option Text) → IsUnmapped (two_variables body a b) → ⊥
two_not_unmapped body (some x) (some y) h = h
two_not_unmapped body none b h = h
two_not_unmapped body (some x) none h = h

lambda_not_unmapped : (e : Operand) → IsUnmapped (lambda_components e) → ⊥
unfolding lambda_components
lambda_not_unmapped (expression Op.lambda (operand first (operand second empty))) h =
    one_not_unmapped first second _ _ h
lambda_not_unmapped (expression Op.lambda (operand body (operand first (operand second empty)))) h =
    two_not_unmapped body _ _ h
lambda_not_unmapped _ h = h

module _ (mapper : Mapper) (name : Text) where
  -- A check that throws `unmapped name` of an expression that reads `name`.
  abbrev Blames : Operand → Type 0
  Blames e =
      (bound : List Text)
      → assert_every_reference_mapped e mapper bound ≡ throw (unmapped name)
      → Refers name bound e × (is_mapped_reference name mapper ≡ false)

  abbrev BlamesAll : Operands → Type 0
  BlamesAll empty = Unit
  BlamesAll (operand e es) = Blames e × BlamesAll es

  blamed_operand :
      (es : Operands) (bound : List Text)
      → BlamesAll es
      → run_all (reference_checks es mapper) bound ≡ throw (unmapped name)
      → (i : ℕ) × (e : Operand) × (nth es i ≡ some e)
        × Refers name bound e
        × (is_mapped_reference name mapper ≡ false)
  unfolding assert_every_reference_mapped
  blamed_operand empty bound h e = cc
  blamed_operand (operand x es) bound (h, hs) e = elim (thrown_by _ _ e) [
    | inl p ↦ let (r, m) = h bound p in (zero, x, refl, r, m)
    | inr p ↦ let (i, y, found, r, m) = blamed_operand es bound hs p in (suc i, y, found, r, m)
  ]

  Blames-at :
      (es : Operands) (i : ℕ) (check : Check)
      → BlamesAll es
      → get_elem? (reference_checks es mapper) i ≡ some check
      → (e : Operand) × (nth es i ≡ some e)
        × Blames e
        × (check ≡ assert_every_reference_mapped e mapper)
  unfolding assert_every_reference_mapped
  Blames-at empty i check h g = cc
  Blames-at (operand x es) zero check (h, hs) g =
      (x, refl, h, ap (λ o. elim o [ none ↦ check | some c ↦ c ]) (sym g))
  Blames-at (operand x es) (suc i) check (h, hs) g = Blames-at es i check hs g

  Blames-lambda :
      (es : Operands) (bound : List Text) (lambda : Lambda) (found : Option Check)
      → BlamesAll es
      → lambda_components (expression Op.lambda es) ≡ ok lambda
      → get_elem? (reference_checks es mapper) lambda.body_at ≡ found
      → (or_crash found >>= λ check. check (bound ++ lambda.variables)) ≡ throw (unmapped name)
      → Refers name bound (expression Op.lambda es) × (is_mapped_reference name mapper ≡ false)
  Blames-lambda es bound lambda none h components found e = cc
  Blames-lambda es bound lambda (some check) h components found e =
      let (body, at, blame, p) = Blames-at es lambda.body_at check h found in
      let (r, unmapped_name) =
        blame (bound ++ lambda.variables) (ap (λ c. c (bound ++ lambda.variables)) (sym p) ∙ e) in
      (in_body lambda components at r, unmapped_name)

  Blames-components :
      (es : Operands) (bound : List Text) (components : Result Lambda)
      → BlamesAll es
      → lambda_components (expression Op.lambda es) ≡ components
      → (components >>= λ lambda.
          or_crash (get_elem? (reference_checks es mapper) lambda.body_at) >>= λ check.
          check (bound ++ lambda.variables))
        ≡ throw (unmapped name)
      → Refers name bound (expression Op.lambda es) × (is_mapped_reference name mapper ≡ false)
  Blames-components es bound (ok lambda) h components e =
      Blames-lambda es bound lambda _ h components refl e
  Blames-components es bound (throw f) h components e = absurd (
      lambda_not_unmapped (expression Op.lambda es) (
        subst (IsUnmapped {A = Lambda}) (sym components)
          (subst (λ g. IsUnmapped {A = Lambda} (throw g)) (sym (thrown e)) tt)))

  Blames-expression : (op : Op) (es : Operands) → BlamesAll es → Blames (expression op es)
  unfolding assert_every_reference_mapped
  Blames-expression Op.lambda es h bound e =
      Blames-components es bound (lambda_components (expression Op.lambda es)) h refl e
  Blames-expression Op.get_field empty h bound e = cc
  Blames-expression Op.get_field (operand x es) h bound e =
      let (r, unmapped_name) = h.0 bound e in (in_target r, unmapped_name)
  Blames-expression op es h bound e =
      let (i, y, found, r, m) = blamed_operand es bound h e in (in_operand i tt found r, m)

  Blames-variable : (x : Text) → Blames (variable x)
  unfolding assert_every_reference_mapped
  Blames-variable x bound h =
      let (free, not_mapped, same) =
        of_test x name (any (text_eq (root_of x)) bound) (is_mapped_reference x mapper) h in
      (
        subst (λ y. Refers name bound (variable y)) (sym same) (here (rw (← same) free)),
        rw (← same) not_mapped,
      )

  mutual
    unfolding assert_every_reference_mapped

    Blames_lem : (e : Operand) → Blames e
    Blames_lem (value v) bound h = cc
    Blames_lem malformed bound h = cc
    Blames_lem (variable x) bound h = Blames-variable x bound h
    Blames_lem (expression op es) bound h = Blames-expression op es (BlamesAll_lem es) bound h

    BlamesAll_lem : (es : Operands) → BlamesAll es
    BlamesAll_lem empty = tt
    BlamesAll_lem (operand e es) = (Blames_lem e, BlamesAll_lem es)

-- Where the check refuses a reference, the expression reads that reference from the document and the
-- mapper has no entry for it.
pub assert_every_reference_mapped-unmapped :
    (mapper : Mapper) (name : Text) (bound : List Text) (e : Operand)
    → assert_every_reference_mapped e mapper bound ≡ throw (unmapped name)
    → Refers name bound e × (is_mapped_reference name mapper ≡ false)
assert_every_reference_mapped-unmapped mapper name bound e h = Blames_lem mapper name e bound h
