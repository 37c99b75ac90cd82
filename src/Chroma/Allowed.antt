-- ===== src/Chroma/Allowed.antt =====
-- langchain-chromadb/src/index.ts: every filter that the walk emits obeys the rules.
use query_plan_adapters.Base.{◌≡◌, subst, Bool, true, false, not, Text, if◌then◌else◌}
use query_plan_adapters.Value.{bool}
use query_plan_adapters.Plan.{
  Op, Operand, Operands, value, variable, expression, malformed, empty, operand,
}
use query_plan_adapters.Chroma.Outcome.{
  raise_ne, done, ◌>>=◌, >>=-eq-done, done-injective, demand-true, plain, fewer_than_two,
}
use query_plan_adapters.Chroma.Fields.{FieldMapper, resolve_field}
use query_plan_adapters.Chroma.Where.{Where, Wheres, all_of, any_of}
use query_plan_adapters.Chroma.Translate.{
  map_operand, map_operands, map_comparison, map_boolean_variable, junction, has_two,
  binary_operands, negatable, oriented_operator, polarised_operator,
}
use query_plan_adapters.Chroma.Sound.{children_two}
use query_plan_adapters.Chroma.Rules.{IsAllowed, AreAllowed, compare-IsAllowed}

comparison-IsAllowed :
    (mapper : FieldMapper) (op : Op) (es : Operands) (negate : Bool) (w : Where)
    → map_comparison op es mapper negate ≡ done w
    → IsAllowed mapper w
unfolding map_comparison
comparison-IsAllowed mapper op es negate w e =
    let (checked, c, e1) = >>=-eq-done (negatable op negate) _ e in
    let (pair, b, e2) = >>=-eq-done (binary_operands op es) _ e1 in
    let (oriented, p, e3) = >>=-eq-done (oriented_operator op pair.literal_first) _ e2 in
    let (operator, q, e4) = >>=-eq-done (polarised_operator oriented negate) _ e3 in
    let (field, r, e5) = >>=-eq-done (resolve_field mapper pair.variable) _ e4 in
    compare-IsAllowed mapper pair.variable field r operator pair.value w e5

variable-IsAllowed :
    (mapper : FieldMapper) (name : Text) (negate : Bool) (w : Where)
    → map_boolean_variable name mapper negate ≡ done w
    → IsAllowed mapper w
unfolding map_boolean_variable
variable-IsAllowed mapper name negate w e =
    let (field, r, e') = >>=-eq-done (resolve_field mapper name) _ e in
    compare-IsAllowed mapper name field r (if negate then Op.ne else Op.eq) (bool true) w e'

junction_of_IsAllowed :
    (mapper : FieldMapper) (conjoined negate : Bool) (es : Operands) (w : Where)
    → ((ws : Wheres) → map_operands es mapper negate ≡ done ws → AreAllowed mapper ws)
    → junction conjoined es (map_operands es mapper negate) ≡ done w
    → IsAllowed mapper w
unfolding junction
junction_of_IsAllowed mapper conjoined negate es w ih h =
    let (two, h') =
      demand-true (has_two es) (plain fewer_than_two)
        (λ enough.
          map_operands es mapper negate >>= λ ws. done (if conjoined then all_of ws else any_of ws))
        h in
    let (ws, m, h'') = >>=-eq-done (map_operands es mapper negate) _ h' in
    let two_children = children_two es mapper negate ws two m in
    subst (IsAllowed mapper) (done-injective h'')
      (elim conjoined as (λ c. IsAllowed mapper (if c then all_of ws else any_of ws)) [
        | true ↦ (two_children, ih ws m)
        | false ↦ (two_children, ih ws m)
      ])

mutual
  unfolding map_operand

  operand-IsAllowed :
      (e : Operand) (mapper : FieldMapper) (negate : Bool) (w : Where)
      → map_operand e mapper negate ≡ done w
      → IsAllowed mapper w
  operand-IsAllowed (variable name) mapper negate w h = variable-IsAllowed mapper name negate w h
  operand-IsAllowed (value v) mapper negate w h = absurd (raise_ne h)
  operand-IsAllowed malformed mapper negate w h = absurd (raise_ne h)
  operand-IsAllowed (expression Op.and es) mapper negate w h =
      junction_of_IsAllowed mapper (not negate) negate es w (operands_allowed es mapper negate) h
  operand-IsAllowed (expression Op.or es) mapper negate w h =
      junction_of_IsAllowed mapper negate negate es w (operands_allowed es mapper negate) h
  operand-IsAllowed (expression Op.not (operand e empty)) mapper negate w h =
      operand-IsAllowed e mapper (not negate) w h
  operand-IsAllowed (expression Op.not empty) mapper negate w h = absurd (raise_ne h)
  operand-IsAllowed (expression Op.not (operand e (operand f es))) mapper negate w h =
      absurd (raise_ne h)
  operand-IsAllowed (expression op es) mapper negate w h =
      comparison-IsAllowed mapper op es negate w h

  operands_allowed :
      (es : Operands) (mapper : FieldMapper) (negate : Bool) (ws : Wheres)
      → map_operands es mapper negate ≡ done ws
      → AreAllowed mapper ws
  operands_allowed empty mapper negate ws h = subst (AreAllowed mapper) (done-injective h) tt
  operands_allowed (operand e es) mapper negate ws h =
      let (u, p, h') = >>=-eq-done (map_operand e mapper negate) _ h in
      let (us, q, h'') = >>=-eq-done (map_operands es mapper negate) _ h' in
      subst (AreAllowed mapper) (done-injective h'')
        (operand-IsAllowed e mapper negate u p, operands_allowed es mapper negate us q)

-- Every filter that the walk returns obeys Chroma's rules and the mapper's declarations: a junction
-- has two children or more, a key is that of a resolved field, a literal is a text, a Boolean or a
-- finite number, a list is not empty and of one type, `$ne` and `$nin` stand only on a required
-- key, and the threshold of an ordering is integral unless the key is declared to hold floats.
pub map_operand-IsAllowed :
    (e : Operand) (mapper : FieldMapper) (negate : Bool) (w : Where)
    → map_operand e mapper negate ≡ done w
    → IsAllowed mapper w
map_operand-IsAllowed e mapper negate w h = operand-IsAllowed e mapper negate w h
