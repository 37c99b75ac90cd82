-- ===== src/Chroma/Rules.antt =====
-- langchain-chromadb/src/index.ts: the rules that every emitted filter obeys.
use query_plan_adapters.Base.{
  ◌≡◌, refl, sym, ap, subst, Bool, true, false, not, ◌&&◌, ◌||◌, inl, inr, none, some, List, [],
  ◌∷◌, map, Text, text, arith, if◌then◌else◌, Bool-cases, Option-cases, some-injective,
}
use query_plan_adapters.Number.{is_integer, is_finite, unit}
use query_plan_adapters.Value.{Value, bool, num, str, arr, nil, cons, elems}
use query_plan_adapters.Plan.{Op}
use query_plan_adapters.Chroma.Outcome.{done, done-injective}
use query_plan_adapters.Chroma.Comparisons.{ChromaOp, Key, comparisons, key_of}
use query_plan_adapters.Chroma.Fields.{FieldMapper, ResolvedField, resolve_field, is_text}
use query_plan_adapters.Chroma.Where.{Where, Wheres, clause, members, all_of, any_of, also, wheres}
use query_plan_adapters.Chroma.Where
use query_plan_adapters.Chroma.Literals.{
  is_membership, is_chroma_literal, is_finite_number, emit, emit_groups, split_by_type,
}
use query_plan_adapters.Chroma.Translate.{
  compare, compare_key, lowered, checked_emit, inequality_without_ne, inequality_by_number,
  inequality_integer, is_fractional,
}
use query_plan_adapters.Chroma.Server.{HasTwo, is_valid_list}
use query_plan_adapters.Chroma.Groups.{AllValid, split_by_type-AllValid, split_by_type_one}
use query_plan_adapters.Chroma.Orderings.{valid_for}
use query_plan_adapters.Chroma.Clauses.{is_list_key}
use query_plan_adapters.Chroma.Memberships.{split_by_type_some}
use query_plan_adapters.Chroma.Compare.{
  lowered-some, emitted_clause, emitted_list, IsEmittedList, checked_emit_lem,
}
use query_plan_adapters.Chroma.Pairs.{compare_unknown}

-- An ordering's threshold is finite, and integral unless the key is declared to hold floats.
abbrev threshold_ok : ResolvedField → Value → Bool
threshold_ok field l =
    is_finite_number l && (not (is_fractional l) || is_text field.numeric_type (text "float"))

-- What a field allows of a clause with one literal: `$ne` only where the key is required.
abbrev pub clause_ok : ResolvedField → ChromaOp → Value → Bool
clause_ok field ChromaOp.eq l = is_chroma_literal l
clause_ok field ChromaOp.ne l = is_chroma_literal l && field.required
clause_ok field ChromaOp.lt l = threshold_ok field l
clause_ok field ChromaOp.lte l = threshold_ok field l
clause_ok field ChromaOp.gt l = threshold_ok field l
clause_ok field ChromaOp.gte l = threshold_ok field l
clause_ok field _ l = false

-- What it allows of a list: one type of literals, and `$nin` only where the key is required.
abbrev pub members_ok : ResolvedField → ChromaOp → List Value → Bool
members_ok field ChromaOp.member ls = is_valid_list ls
members_ok field ChromaOp.not_member ls = is_valid_list ls && field.required
members_ok field _ ls = false

-- A field that the mapper resolves some reference to, under its key.
abbrev Resolved : FieldMapper → Text → (ResolvedField → Bool) → Type 0
Resolved mapper key ok =
    (name : Text) × (field : ResolvedField) × (resolve_field mapper name ≡ done field)
    × (field.name ≡ key)
    × (ok field ≡ true)

abbrev mutual
  pub IsAllowed : FieldMapper → Where → Type 0
  IsAllowed mapper (clause key op l) = Resolved mapper key (λ field. clause_ok field op l)
  IsAllowed mapper (members key op ls) = Resolved mapper key (λ field. members_ok field op ls)
  IsAllowed mapper (all_of ws) = HasTwo ws × AreAllowed mapper ws
  IsAllowed mapper (any_of ws) = HasTwo ws × AreAllowed mapper ws

  pub AreAllowed : FieldMapper → Wheres → Type 0
  AreAllowed mapper Where.none = Unit
  AreAllowed mapper (also w ws) = IsAllowed mapper w × AreAllowed mapper ws

none_ne : {A : Type 0} {a : A} → none ≡ some a → ⊥
none_ne e = cc

false_ne : false ≡ true → ⊥
false_ne e = cc

ordered_ok :
    (field : ResolvedField) (l : Value)
    → is_finite_number l ≡ true
    → not (true && is_fractional l && not (is_text field.numeric_type (text "float"))) ≡ true
    → threshold_ok field l ≡ true
ordered_ok field l g h = ground arith

checked_ok :
    (field : ResolvedField) (key : Key) (l : Value)
    → is_list_key key ≡ false
    → valid_for key l ≡ true
    → (field.required || not (comparisons key).matches_missing_key) ≡ true
    → not (
        (comparisons key).ordered
        && is_fractional l
        && not (is_text field.numeric_type (text "float")))
      ≡ true
    → clause_ok field (comparisons key).chroma l ≡ true
checked_ok field Key.eq l o g p h = g
checked_ok field Key.ne l o g p h = ground arith
checked_ok field Key.lt l o g p h = ordered_ok field l g h
checked_ok field Key.le l o g p h = ordered_ok field l g h
checked_ok field Key.gt l o g p h = ordered_ok field l g h
checked_ok field Key.ge l o g p h = ordered_ok field l g h
checked_ok field Key.member l o g p h = cc
checked_ok field Key.nin l o g p h = cc

junction-IsAllowed :
    (mapper : FieldMapper) (disjoined : Bool) (ws : Wheres)
    → HasTwo ws
    → AreAllowed mapper ws
    → IsAllowed mapper (if disjoined then any_of ws else all_of ws)
junction-IsAllowed mapper true ws two h = (two, h)
junction-IsAllowed mapper false ws two h = (two, h)

module _ (mapper : FieldMapper) (name : Text) (field : ResolvedField)
    (r : resolve_field mapper name ≡ done field) where
  members_allowed :
      (op : ChromaOp) (gs : List (List Value))
      → ((g : List Value) → is_valid_list g ≡ true → members_ok field op g ≡ true)
      → AllValid gs
      → AreAllowed mapper (wheres (map (members field.name op) gs))
  members_allowed op [] ok h = tt
  members_allowed op (g ∷ gs) ok (p, ps) =
      ((name, field, r, refl, ok g p), members_allowed op gs ok ps)

  groups-IsAllowed :
      (chroma : ChromaOp) (op : Op) (xs : List Value) (gs : List (List Value))
      → ((g : List Value) → is_valid_list g ≡ true → members_ok field chroma g ≡ true)
      → AllValid gs
      → (gs ≡ [] → ⊥)
      → ((g : List Value) → gs ≡ g ∷ [] → is_valid_list xs ≡ true)
      → IsAllowed mapper (emit_groups field.name chroma op xs gs)
  groups-IsAllowed chroma op xs [] ok h some_group single = absurd (some_group refl)
  groups-IsAllowed chroma op xs (g ∷ []) ok h some_group single =
      (name, field, r, refl, ok xs (single g refl))
  groups-IsAllowed chroma op xs (g ∷ k ∷ gs) ok h some_group single =
      junction-IsAllowed mapper (is_membership op)
        (wheres (map (members field.name chroma) (g ∷ k ∷ gs))) tt
        (members_allowed chroma (g ∷ k ∷ gs) ok h)

  list-IsAllowed :
      (chroma : ChromaOp) (op : Op) (l : Value) (w : Where)
      → ((g : List Value) → is_valid_list g ≡ true → members_ok field chroma g ≡ true)
      → IsEmittedList chroma field.name op l w
      → IsAllowed mapper w
  list-IsAllowed chroma op (arr (cons v vs)) w ok (literals, e) = subst (IsAllowed mapper) (sym e) (
      groups-IsAllowed chroma op (v ∷ elems vs) (split_by_type (v ∷ elems vs)) ok
        (split_by_type-AllValid (v ∷ elems vs) literals) (split_by_type_some v (elems vs))
        (λ g p. split_by_type_one v (elems vs) g p literals))
  list-IsAllowed chroma op (arr nil) w ok e = absurd e
  list-IsAllowed chroma op _ w ok e = absurd e

  clause-IsAllowed :
      (key : Key) (op : Op) (l : Value) (w : Where)
      → is_list_key key ≡ false
      → checked_emit key field op l ≡ done w
      → IsAllowed mapper w
  clause-IsAllowed key op l w o e =
      let (present, exact, e') = checked_emit_lem key field op l w e in
      let (valid, shape) = emitted_clause key field.name op l w o e' in
      subst (IsAllowed mapper) (sym shape)
        (name, field, r, refl, checked_ok field key l o valid present exact)

  checked-IsAllowed :
      (key : Key) (op : Op) (l : Value) (w : Where)
      → checked_emit key field op l ≡ done w
      → IsAllowed mapper w
  unfolding emit
  checked-IsAllowed Key.member op l w e =
      let (present, exact, e') = checked_emit_lem Key.member field op l w e in
      list-IsAllowed ChromaOp.member op l w (λ g h. h)
        (emitted_list ChromaOp.member field.name op l w e')
  checked-IsAllowed Key.nin op l w e =
      let (present, exact, e') = checked_emit_lem Key.nin field op l w e in
      list-IsAllowed ChromaOp.not_member op l w (λ g h. ground arith)
        (emitted_list ChromaOp.not_member field.name op l w e')
  checked-IsAllowed Key.eq op l w e = clause-IsAllowed Key.eq op l w refl e
  checked-IsAllowed Key.ne op l w e = clause-IsAllowed Key.ne op l w refl e
  checked-IsAllowed Key.lt op l w e = clause-IsAllowed Key.lt op l w refl e
  checked-IsAllowed Key.le op l w e = clause-IsAllowed Key.le op l w refl e
  checked-IsAllowed Key.gt op l w e = clause-IsAllowed Key.gt op l w refl e
  checked-IsAllowed Key.ge op l w e = clause-IsAllowed Key.ge op l w refl e

  integral_ok :
      (l : Value)
      → is_finite_number l ≡ true
      → is_fractional l ≡ false
      → threshold_ok field l ≡ true
  integral_ok l h g = ground arith

  integer-IsAllowed :
      (l : Value) (w : Where)
      → is_chroma_literal l ≡ true
      → inequality_integer field.name l ≡ some w
      → IsAllowed mapper w
  unfolding is_chroma_literal is_finite is_integer unit
  integer-IsAllowed (num x) w g e = elim (Bool-cases (is_integer x)) [
    | inl i ↦
        let ok = integral_ok (num x) g (ap not i) in
        subst (IsAllowed mapper) (some-injective (rw i at e))
          (tt, ((name, field, r, refl, ok), ((name, field, r, refl, ok), tt)))
    | inr i ↦ absurd (none_ne (rw i at e))
  ]
  integer-IsAllowed (str s) w g e =
      subst (IsAllowed mapper) (some-injective e)
        (tt, ((name, field, r, refl, refl), ((name, field, r, refl, refl), tt)))
  integer-IsAllowed (bool b) w g e =
      subst (IsAllowed mapper) (some-injective e)
        (tt, ((name, field, r, refl, refl), ((name, field, r, refl, refl), tt)))
  integer-IsAllowed _ w g e = absurd (false_ne g)

  number-IsAllowed :
      (l : Value) (w : Where)
      → is_chroma_literal l ≡ true
      → inequality_by_number field l ≡ some w
      → IsAllowed mapper w
  number-IsAllowed l w g e = elim (Bool-cases (is_text field.numeric_type (text "integer"))) [
    | inl i ↦ integer-IsAllowed l w g (rw i at e)
    | inr i ↦ absurd (none_ne (rw i at e))
  ]

  lowered-IsAllowed :
      (l : Value) (w : Where)
      → is_chroma_literal l ≡ true
      → inequality_without_ne field l ≡ some w
      → IsAllowed mapper w
  unfolding inequality_without_ne is_chroma_literal
  lowered-IsAllowed (bool b) w g e = elim (Bool-cases (is_text field.value_type (text "boolean"))) [
    | inl i ↦ subst (IsAllowed mapper) (some-injective (rw i at e)) (name, field, r, refl, refl)
    | inr i ↦ number-IsAllowed (bool b) w g (rw i at e)
  ]
  lowered-IsAllowed l w g e = number-IsAllowed l w g e

  key-IsAllowed :
      (key : Key) (op : Op) (l : Value) (w : Where)
      → compare_key key field op l ≡ done w
      → IsAllowed mapper w
  unfolding compare_key
  key-IsAllowed key op l w e = elim (Option-cases (lowered key field l)) [
    | inl i ↦ checked-IsAllowed key op l w (rw i at e)
    | inr (u, i) ↦
        let (k, literal, spelled) = lowered-some key field l u i in
        subst (IsAllowed mapper) (done-injective (rw i at e))
          (lowered-IsAllowed l u literal spelled)
  ]

  pub compare-IsAllowed :
      (op : Op) (l : Value) (w : Where) → compare field op l ≡ done w → IsAllowed mapper w
  unfolding compare
  compare-IsAllowed op l w e = elim (Option-cases (key_of op)) [
    | inl n ↦ absurd (compare_unknown field op l w n e)
    | inr (key, k) ↦ key-IsAllowed key op l w (rw k at e)
  ]
