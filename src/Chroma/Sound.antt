-- ===== src/Chroma/Sound.antt =====
-- langchain-chromadb/src/index.ts, `mapOperand`: the filter admits the records for which CEL finds the
-- condition true.
use query_plan_adapters.Base.{
  ◌≡◌, refl, sym, ap, ap₂, ◌∙◌, subst, Bool, true, false, not, ◌&&◌, ◌||◌, every, any, List, Text,
  if◌then◌else◌,
}
use query_plan_adapters.Value.{Value}
use query_plan_adapters.Plan.{
  Op, Operand, Operands, value, variable, expression, malformed, empty, operand,
}
use query_plan_adapters.Evaluate.Macros.{is_bool}
use query_plan_adapters.Pushdown.Answers.{
  three_valued, is_bool-three_valued_decisive, is_bool-three_valued_other,
}
use query_plan_adapters.Chroma.Outcome.{
  plain, fewer_than_two, done, ◌>>=◌, >>=-eq-done, done-injective, demand-true,
}
use query_plan_adapters.Chroma.Fields.{FieldMapper}
use query_plan_adapters.Chroma.Where.{Where, Wheres, also, all_of, any_of, where_list}
use query_plan_adapters.Chroma.Translate.{map_operand, map_operands, junction, has_two}
use query_plan_adapters.Chroma.Server.{Server, HasTwo}
use query_plan_adapters.Chroma.Meaning.{meaning, meanings}
use query_plan_adapters.Chroma.Relations.{is_bool-negated_value}
use query_plan_adapters.Chroma.Leaves.{attributes, Conforms, variable_admits, comparison_admits}
use query_plan_adapters.Chroma.Pairs.{is_condition}

-- The bare keys that stand as conditions store Booleans, where they store anything.
abbrev mutual
  pub HasBooleanKeys : (Text → Value) → Operand → Type 0
  HasBooleanKeys attributes (variable name) = is_condition (attributes name) ≡ true
  HasBooleanKeys attributes (expression Op.and es) = HaveBooleanKeys attributes es
  HasBooleanKeys attributes (expression Op.or es) = HaveBooleanKeys attributes es
  HasBooleanKeys attributes (expression Op.not es) = HaveBooleanKeys attributes es
  HasBooleanKeys attributes _ = Unit

  pub HaveBooleanKeys : (Text → Value) → Operands → Type 0
  HaveBooleanKeys attributes empty = Unit
  HaveBooleanKeys attributes (operand e es) =
      HasBooleanKeys attributes e × HaveBooleanKeys attributes es

-- Under a polarity, a junction asks all of its operands or one of them.
polarity :
    (b negate : Bool) (vs : List Value)
    → (if (if b then negate else not negate)
        then every (is_bool (not negate)) vs
        else any (is_bool (not negate)) vs)
      ≡ is_bool (not negate) (three_valued b vs false)
polarity true true vs = sym (is_bool-three_valued_other true vs)
polarity true false vs = sym (is_bool-three_valued_decisive true vs)
polarity false true vs = sym (is_bool-three_valued_decisive false vs)
polarity false false vs = sym (is_bool-three_valued_other false vs)

not_not : (b : Bool) → not (not b) ≡ b
not_not true = refl
not_not false = refl

pub children_two :
    (es : Operands) (mapper : FieldMapper) (negate : Bool) (ws : Wheres)
    → has_two es ≡ true
    → map_operands es mapper negate ≡ done ws
    → HasTwo ws
unfolding map_operand
children_two (operand e (operand f es)) mapper negate ws h m =
    let (u, p, m') = >>=-eq-done (map_operand e mapper negate) _ m in
    let (us, q, m'') = >>=-eq-done (map_operands (operand f es) mapper negate) _ m' in
    let (v, r, q') = >>=-eq-done (map_operand f mapper negate) _ q in
    let (vs, s, q'') = >>=-eq-done (map_operands es mapper negate) _ q' in
    subst HasTwo (done-injective m'') (subst (λ x. HasTwo (also u x)) (done-injective q'') tt)
children_two empty mapper negate ws h m = cc
children_two (operand e empty) mapper negate ws h m = cc

module _ (S : Server) (mapper : FieldMapper) (d : S.Doc) (typed : Conforms S mapper d) where
  open S use {admits}

  abbrev attrs : Text → Value
  attrs = attributes S mapper d

  junction_holds :
      (conjoined : Bool) (ws : Wheres)
      → HasTwo ws
      → admits (if conjoined then all_of ws else any_of ws) d ≡ (
          if conjoined
          then every (λ w. admits w d) (where_list ws)
          else any (λ w. admits w d) (where_list ws))
  junction_holds true ws two = S.admits-all_of ws d two
  junction_holds false ws two = S.admits-any_of ws d two

  junction_admits :
      (b negate : Bool) (es : Operands) (w : Where)
      → ((ws : Wheres)
          → map_operands es mapper negate ≡ done ws
          → (every (λ w. admits w d) (where_list ws)
              ≡ every (is_bool (not negate)) (meanings es attrs))
            × (any (λ w. admits w d) (where_list ws)
                ≡ any (is_bool (not negate)) (meanings es attrs)))
      → junction (if b then negate else not negate) es (map_operands es mapper negate) ≡ done w
      → admits w d ≡ is_bool (not negate) (three_valued b (meanings es attrs) false)
  unfolding junction
  junction_admits b negate es w ih h =
      let conjoined = if b then negate else not negate in
      let (two, h') =
        demand-true (has_two es) (plain fewer_than_two)
          (λ enough. map_operands es mapper negate >>= λ ws.
            done (if conjoined then all_of ws else any_of ws))
          h in
      let (ws, m, h'') = >>=-eq-done (map_operands es mapper negate) _ h' in
      let (all, some_one) = ih ws m in
      ap (λ u. admits u d) (sym (done-injective h''))
      ∙ junction_holds conjoined ws (children_two es mapper negate ws two m)
      ∙ ap₂ (λ (x y : Bool). if conjoined then x else y) all some_one
      ∙ polarity b negate (meanings es attrs)

  mutual
    unfolding map_operand meaning

    operand_admits :
        (e : Operand) (negate : Bool) (w : Where)
        → HasBooleanKeys attrs e
        → map_operand e mapper negate ≡ done w
        → admits w d ≡ is_bool (not negate) (meaning e attrs)
    operand_admits (variable name) negate w b h = variable_admits S mapper d name negate w typed b h
    operand_admits (value v) negate w b h = cc
    operand_admits malformed negate w b h = cc
    operand_admits (expression Op.and es) negate w b h =
        junction_admits false negate es w (λ ws. operands_admit es negate ws b) h
    operand_admits (expression Op.or es) negate w b h =
        junction_admits true negate es w (λ ws. operands_admit es negate ws b) h
    operand_admits (expression Op.not (operand e empty)) negate w (b, bs) h =
        operand_admits e (not negate) w b h
        ∙ sym (is_bool-negated_value (not negate) (meaning e attrs))
    operand_admits (expression Op.not empty) negate w b h = cc
    operand_admits (expression Op.not (operand e (operand f es))) negate w b h = cc
    operand_admits (expression op es) negate w b h =
        comparison_admits S mapper d op es negate w typed h

    operands_admit :
        (es : Operands) (negate : Bool) (ws : Wheres)
        → HaveBooleanKeys attrs es
        → map_operands es mapper negate ≡ done ws
        → (every (λ w. admits w d) (where_list ws)
            ≡ every (is_bool (not negate)) (meanings es attrs))
          × (any (λ w. admits w d) (where_list ws) ≡ any (is_bool (not negate)) (meanings es attrs))
    operands_admit empty negate ws b h = (
      ap (λ us. every (λ w. admits w d) (where_list us)) (sym (done-injective h)),
      ap (λ us. any (λ w. admits w d) (where_list us)) (sym (done-injective h)),
    )
    operands_admit (operand e es) negate ws (b, bs) h =
        let (u, p, h') = >>=-eq-done (map_operand e mapper negate) _ h in
        let (us, q, h'') = >>=-eq-done (map_operands es mapper negate) _ h' in
        let (all, some_one) = operands_admit es negate us bs q in
        let first = operand_admits e negate u b p in
        (
          ap (λ xs. every (λ w. admits w d) (where_list xs)) (sym (done-injective h''))
              ∙ ap₂ ◌&&◌ first all,
          ap (λ xs. any (λ w. admits w d) (where_list xs)) (sym (done-injective h''))
              ∙ ap₂ ◌||◌ first some_one,
        )

  -- Where what the record stores is as the mapper declares, and the bare keys that stand as conditions
  -- store Booleans where they store anything, the `Where` of a condition, or of its negation, admits
  -- the record exactly when CEL finds the condition true, or false, over its attributes.
  pub map_operand-admits :
      (e : Operand) (negate : Bool) (w : Where)
      → HasBooleanKeys attrs e
      → map_operand e mapper negate ≡ done w
      → S.admits w d ≡ is_bool (not negate) (meaning e attrs)
  map_operand-admits e negate w b h = operand_admits e negate w b h
