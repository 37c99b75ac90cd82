-- ===== src/Chroma/Groups.antt =====
-- langchain-chromadb/src/index.ts, `splitByType`: every list it makes has one type, and together they
-- hold what the list held.
use query_plan_adapters.Base.{
  ◌≡◌, refl, sym, ◌∙◌, subst, Bool, true, false, ◌&&◌, ◌||◌, List, [], ◌∷◌, ◌++◌, any, every, All,
  arith, Bool-cases, inl, inr,
}
use query_plan_adapters.Value.{Value}
use mathlib.Core.Bool.{and-eq-true_iff}
use query_plan_adapters.Chroma.Literals.{
  JsType, string_type, number_type, boolean_type, other_type, same_type, js_type, Groups,
  add_to_groups, grouped, group_values, split_by_type, is_chroma_literal,
}
use query_plan_adapters.Chroma.Server.{is_valid_list}

pub same_type_eq : (s t : JsType) → same_type s t ≡ true → s ≡ t
same_type_eq string_type string_type h = refl
same_type_eq number_type number_type h = refl
same_type_eq boolean_type boolean_type h = refl
same_type_eq other_type other_type h = refl
same_type_eq _ _ h = cc

pub same_type_self : (t : JsType) → same_type t t ≡ true
same_type_self string_type = refl
same_type_self number_type = refl
same_type_self boolean_type = refl
same_type_self other_type = refl

module _ (p : Value → Bool) where
  every-append : (v : Value) (g : List Value) → every p (g ++ v ∷ []) ≡ (p v && every p g)
  every-append v [] = refl
  every-append v (x ∷ g) = ground (arith, every-append v g)

  any-append : (v : Value) (g : List Value) → any p (g ++ v ∷ []) ≡ (p v || any p g)
  any-append v [] = refl
  any-append v (x ∷ g) = ground (arith, any-append v g)

  every-add_to_groups :
      (v : Value) (gs : Groups)
      → every (every p) (group_values (add_to_groups v gs))
        ≡ (p v && every (every p) (group_values gs))
  unfolding add_to_groups
  every-add_to_groups v [] = ground arith
  every-add_to_groups v ((t, g) ∷ gs) = ground (arith, every-append v g, every-add_to_groups v gs)

  any-add_to_groups :
      (v : Value) (gs : Groups)
      → any (any p) (group_values (add_to_groups v gs)) ≡ (p v || any (any p) (group_values gs))
  unfolding add_to_groups
  any-add_to_groups v [] = ground arith
  any-add_to_groups v ((t, g) ∷ gs) = ground (arith, any-append v g, any-add_to_groups v gs)

  every-grouped :
      (vs : List Value) (gs : Groups)
      → every (every p) (group_values (grouped vs gs))
        ≡ (every p vs && every (every p) (group_values gs))
  unfolding grouped
  every-grouped [] gs = refl
  every-grouped (v ∷ vs) gs =
      ground (arith, every-grouped vs (add_to_groups v gs), every-add_to_groups v gs)

  any-grouped :
      (vs : List Value) (gs : Groups)
      → any (any p) (group_values (grouped vs gs)) ≡ (any p vs || any (any p) (group_values gs))
  unfolding grouped
  any-grouped [] gs = refl
  any-grouped (v ∷ vs) gs =
      ground (arith, any-grouped vs (add_to_groups v gs), any-add_to_groups v gs)

  -- A test holds for each member of each group exactly when it does for each member of the list.
  pub every-split_by_type : (vs : List Value) → every (every p) (split_by_type vs) ≡ every p vs
  unfolding split_by_type
  every-split_by_type vs = ground (arith, every-grouped vs [])

  pub any-split_by_type : (vs : List Value) → any (any p) (split_by_type vs) ≡ any p vs
  unfolding split_by_type
  any-split_by_type vs = ground (arith, any-grouped vs [])

abbrev has_member : List Value → Bool
has_member [] = false
has_member (v ∷ vs) = true

-- A group under its type.
abbrev pub IsGroup : JsType × List Value → Type 0
IsGroup (t, g) = (every (λ m. same_type t (js_type m)) g ≡ true) × (has_member g ≡ true)

has_member-append : (v : Value) (g : List Value) → has_member (g ++ v ∷ []) ≡ true
has_member-append v [] = refl
has_member-append v (x ∷ g) = refl

add_to_groups-IsGroup :
    (v : Value) (gs : Groups) → All IsGroup gs → All IsGroup (add_to_groups v gs)
unfolding add_to_groups
add_to_groups-IsGroup v [] h = ((ground (arith, same_type_self (js_type v)), refl), tt)
add_to_groups-IsGroup v ((t, g) ∷ gs) ((p, q), hs) = elim (Bool-cases (same_type t (js_type v))) [
  | inl e ↦ rw e (
    (every-append (λ m. same_type t (js_type m)) v g ∙ rw (e, p) refl, has_member-append v g),
    hs,
  )
  | inr e ↦ rw e ((p, q), add_to_groups-IsGroup v gs hs)
]

grouped-IsGroup : (vs : List Value) (gs : Groups) → All IsGroup gs → All IsGroup (grouped vs gs)
unfolding grouped
grouped-IsGroup [] gs h = h
grouped-IsGroup (v ∷ vs) gs h =
    grouped-IsGroup vs (add_to_groups v gs) (add_to_groups-IsGroup v gs h)

-- A list of literals of one type is a list that Chroma takes.
one_type_valid :
    (t : JsType) (g : List Value)
    → IsGroup (t, g)
    → every is_chroma_literal g ≡ true
    → is_valid_list g ≡ true
unfolding is_valid_list
one_type_valid t [] (p, q) h = cc
one_type_valid t (l ∷ ls) (p, q) h =
    let (first, rest) = (and-eq-true_iff _ _).0 p in
    rw h (
      subst (λ s. every (λ m. same_type s (js_type m)) ls ≡ true) (same_type_eq t (js_type l) first)
        rest)

abbrev pub AllValid : List (List Value) → Type 0
AllValid = All (λ g. is_valid_list g ≡ true)

groups_valid :
    (gs : Groups)
    → All IsGroup gs
    → every (every is_chroma_literal) (group_values gs) ≡ true
    → AllValid (group_values gs)
groups_valid [] h e = tt
groups_valid ((t, g) ∷ gs) (p, ps) e =
    let (first, rest) = (and-eq-true_iff _ _).0 e in
    (one_type_valid t g p first, groups_valid gs ps rest)

-- Of a list of literals, each group is a list that Chroma takes.
pub split_by_type-AllValid :
    (vs : List Value) → every is_chroma_literal vs ≡ true → AllValid (split_by_type vs)
unfolding split_by_type
split_by_type-AllValid vs h =
    groups_valid (grouped vs []) (grouped-IsGroup vs [] tt)
      (every-split_by_type is_chroma_literal vs ∙ h)

one_group :
    (vs : List Value) (gs : Groups)
    → All IsGroup gs
    → (g : List Value) → group_values gs ≡ g ∷ []
    → ((p : Value → Bool) → every (every p) (group_values gs) ≡ every p vs)
    → every is_chroma_literal vs ≡ true
    → has_member vs ≡ true
    → is_valid_list vs ≡ true
one_group vs [] h g e same lits has = cc
one_group vs ((t, g) ∷ []) ((p, q), hs) g' e same lits has =
    one_type_valid t vs (sym (same (λ m. same_type t (js_type m))) ∙ ground arith, has) lits
one_group vs ((t, g) ∷ k ∷ gs) h g' e same lits has = cc

-- A list that is one group is itself a list that Chroma takes.
pub split_by_type_one :
    (v : Value) (vs : List Value) (g : List Value)
    → split_by_type (v ∷ vs) ≡ g ∷ []
    → every is_chroma_literal (v ∷ vs) ≡ true
    → is_valid_list (v ∷ vs) ≡ true
unfolding split_by_type
split_by_type_one v vs g e lits =
    one_group (v ∷ vs) (grouped (v ∷ vs) []) (grouped-IsGroup (v ∷ vs) [] tt) g e
      (λ p. every-split_by_type p (v ∷ vs)) lits refl
