-- ===== src/Chroma/Partition.antt =====
-- langchain-chromadb/src/index.ts, `splitByType`, against its description: for each type, in the order
-- of first appearance, the members of that type, in the order of the list.
use query_plan_adapters.Base.{
  ◌≡◌, refl, sym, ap, ap₂, ◌∙◌, Bool, true, false, not, ◌||◌, List, [], ◌∷◌, ◌++◌, map, filter,
  arith, if◌then◌else◌, Bool-cases, inl, inr,
}
use mathlib.Core.List.{append_assoc, append-nil}
use query_plan_adapters.Value.{Value}
use query_plan_adapters.Chroma.Literals.{
  JsType, same_type, js_type, Groups, add_to_groups, grouped, group_values, split_by_type,
}
use query_plan_adapters.Chroma.Groups.{same_type_eq, same_type_self}

-- The types of a list's members, each where it first appears.
abbrev pub types_of : List Value → List JsType
types_of [] = []
types_of (v ∷ vs) = js_type v ∷ filter (λ t. not (same_type t (js_type v))) (types_of vs)

abbrev pub of_type : List Value → JsType → List Value
of_type vs t = filter (λ v. same_type t (js_type v)) vs

-- What is left of a list for a new group, and what it adds to a group that there is.
abbrev extended : List Value → Groups → Groups
extended vs [] = []
extended vs ((t, g) ∷ gs) = (t, g ++ of_type vs t) ∷ extended vs gs

abbrev has_type : JsType → Groups → Bool
has_type t [] = false
has_type t ((u, g) ∷ gs) = same_type u t || has_type t gs

abbrev new_groups : List Value → List JsType → Groups
new_groups vs [] = []
new_groups vs (t ∷ ts) = (t, of_type vs t) ∷ new_groups vs ts

abbrev fresh : Groups → List JsType → List JsType
fresh gs ts = filter (λ t. not (has_type t gs)) ts

-- No type twice.
abbrev AreDistinct : Groups → Type 0
AreDistinct [] = Unit
AreDistinct ((t, g) ∷ gs) = (has_type t gs ≡ false) × AreDistinct gs

same_type_comm : (s t : JsType) → same_type s t ≡ same_type t s
same_type_comm s t = elim (Bool-cases (same_type s t)) [
  | inl i ↦ ap₂ same_type (same_type_eq s t i) (sym (same_type_eq s t i))
  | inr i ↦ elim (Bool-cases (same_type t s)) [
    | inl j ↦ sym (ap₂ same_type (same_type_eq t s j) (sym (same_type_eq t s j)))
    | inr j ↦ i ∙ sym j
  ]
]

filter_step :
    {A : Type 0} (p : A → Bool) (x : A) (xs : List A) (b : Bool)
    → p x ≡ b
    → filter p (x ∷ xs) ≡ (if b then x ∷ filter p xs else filter p xs)
filter_step p x xs true h = ground arith
filter_step p x xs false h = ground arith

has_type-add_to_groups :
    (u : JsType) (v : Value) (gs : Groups)
    → has_type u (add_to_groups v gs) ≡ (same_type (js_type v) u || has_type u gs)
unfolding add_to_groups
has_type-add_to_groups u v [] = refl
has_type-add_to_groups u v ((t, g) ∷ gs) = elim (Bool-cases (same_type t (js_type v))) [
  | inl i ↦ rw (i, ← same_type_eq t (js_type v) i) (ground arith)
  | inr i ↦ rw i (ground (arith, has_type-add_to_groups u v gs))
]

AreDistinct-add_to_groups :
    (v : Value) (gs : Groups) → AreDistinct gs → AreDistinct (add_to_groups v gs)
unfolding add_to_groups
AreDistinct-add_to_groups v [] h = (refl, tt)
AreDistinct-add_to_groups v ((t, g) ∷ gs) (h, hs) = elim (Bool-cases (same_type t (js_type v))) [
  | inl i ↦ rw i (h, hs)
  | inr i ↦ rw i (
    has_type-add_to_groups t v gs ∙ ap₂ ◌||◌ (same_type_comm (js_type v) t ∙ i) h,
    AreDistinct-add_to_groups v gs hs,
  )
]

-- A member of no group's type leaves the groups as they are.
extended_other :
    (v : Value) (vs : List Value) (gs : Groups)
    → has_type (js_type v) gs ≡ false
    → extended (v ∷ vs) gs ≡ extended vs gs
extended_other v vs [] h = refl
extended_other v vs ((t, g) ∷ gs) h =
    ap₂ {A = List Value} (λ a r. (t, g ++ a) ∷ r)
      (filter_step (λ u. same_type t (js_type u)) v vs false (ground arith))
      (extended_other v vs gs (ground arith))

add_step :
    (v : Value) (t : JsType) (g : List Value) (gs : Groups) (b : Bool)
    → same_type t (js_type v) ≡ b
    → add_to_groups v ((t, g) ∷ gs)
      ≡ (if b then (t, g ++ v ∷ []) ∷ gs else (t, g) ∷ add_to_groups v gs)
unfolding add_to_groups
add_step v t g gs b h = rw h refl

extended_known :
    (v : Value) (vs : List Value) (gs : Groups)
    → AreDistinct gs
    → has_type (js_type v) gs ≡ true
    → extended vs (add_to_groups v gs) ≡ extended (v ∷ vs) gs
extended_known v vs [] d h = cc
extended_known v vs ((t, g) ∷ gs) (d, ds) h = elim (Bool-cases (same_type t (js_type v))) [
  | inl i ↦
      ap (extended vs) (add_step v t g gs true i)
      ∙ ap₂ {A = List Value} (λ a r. (t, a) ∷ r)
          (append_assoc g (v ∷ []) (of_type vs t)
            ∙ ap (λ a. g ++ a) (sym (filter_step (λ u. same_type t (js_type u)) v vs true i)))
          (sym (
            extended_other v vs gs
              (ap (λ u. has_type u gs) (sym (same_type_eq t (js_type v) i)) ∙ d)))
  | inr i ↦
      ap (extended vs) (add_step v t g gs false i)
      ∙ ap₂ {A = List Value} (λ a r. (t, g ++ a) ∷ r)
          (sym (filter_step (λ u. same_type t (js_type u)) v vs false i))
          (extended_known v vs gs ds (ground arith))
]

extended_new :
    (v : Value) (vs : List Value) (gs : Groups)
    → has_type (js_type v) gs ≡ false
    → extended vs (add_to_groups v gs)
      ≡ extended vs gs ++ (js_type v, v ∷ of_type vs (js_type v)) ∷ []
unfolding add_to_groups
extended_new v vs [] h = refl
extended_new v vs ((t, g) ∷ gs) h = elim (Bool-cases (same_type t (js_type v))) [
  | inl i ↦ cc
  | inr i ↦ rw i (ap (λ r. (t, g ++ of_type vs t) ∷ r) (extended_new v vs gs (ground arith)))
]

-- The types left for new groups once a member has its group.
fresh-add_to_groups :
    (v : Value) (gs : Groups) (ts : List JsType)
    → fresh gs (filter (λ t. not (same_type t (js_type v))) ts) ≡ fresh (add_to_groups v gs) ts
fresh-add_to_groups v gs [] = refl
fresh-add_to_groups v gs (t ∷ ts) =
    let rest = fresh-add_to_groups v gs ts in
    let step = filter_step (λ u. not (has_type u (add_to_groups v gs))) t ts in
    let same_step = filter_step (λ u. not (same_type u (js_type v))) t ts in
    let has = ap not (
      has_type-add_to_groups t v gs
      ∙ ap (λ x. x || has_type t gs) (same_type_comm (js_type v) t)) in
    elim (Bool-cases (same_type t (js_type v))) [
      | inl i ↦
          ap (fresh gs) (same_step false (ap not i))
          ∙ (rest ∙ sym (step false (has ∙ ap (λ x. not (x || has_type t gs)) i)))
      | inr i ↦ ap (fresh gs) (same_step true (ap not i)) ∙ elim (Bool-cases (has_type t gs)) [
        | inl k ↦
            filter_step (λ u. not (has_type u gs)) t _ false (ap not k)
            ∙ (rest ∙ sym (step false (has ∙ ap₂ (λ x y. not (x || y)) i k)))
        | inr k ↦
            filter_step (λ u. not (has_type u gs)) t _ true (ap not k)
            ∙ (ap (λ r. t ∷ r) rest ∙ sym (step true (has ∙ ap₂ (λ x y. not (x || y)) i k)))
      ]
    ]

new_groups_other :
    (v : Value) (vs : List Value) (gs : Groups) (ts : List JsType)
    → new_groups (v ∷ vs) (fresh (add_to_groups v gs) ts)
      ≡ new_groups vs (fresh (add_to_groups v gs) ts)
new_groups_other v vs gs [] = refl
new_groups_other v vs gs (t ∷ ts) =
    let rest = new_groups_other v vs gs ts in
    let step = filter_step (λ u. not (has_type u (add_to_groups v gs))) t ts in
    let has =
      has_type-add_to_groups t v gs ∙ ap (λ x. x || has_type t gs) (same_type_comm (js_type v) t) in
    elim (Bool-cases (has_type t (add_to_groups v gs))) [
      | inl k ↦
          ap (new_groups (v ∷ vs)) (step false (ap not k))
          ∙ (rest ∙ sym (ap (new_groups vs) (step false (ap not k))))
      | inr k ↦
          ap (new_groups (v ∷ vs)) (step true (ap not k))
          ∙ (ap₂ {A = List Value} (λ a r. (t, a) ∷ r)
                (filter_step (λ u. same_type t (js_type u)) v vs false (ground arith)) rest
              ∙ sym (ap (new_groups vs) (step true (ap not k))))
    ]

extended_nil : (gs : Groups) → extended [] gs ≡ gs
extended_nil [] = refl
extended_nil ((t, g) ∷ gs) =
    ap₂ {A = List Value} (λ a r. (t, a) ∷ r) (append-nil g) (extended_nil gs)

-- The loop leaves each group with the members of its type, and adds a group for each new type.
grouped_lem :
    (vs : List Value) (gs : Groups)
    → AreDistinct gs
    → grouped vs gs ≡ extended vs gs ++ new_groups vs (fresh gs (types_of vs))
unfolding grouped
grouped_lem [] gs h = sym (append-nil (extended [] gs) ∙ extended_nil gs)
grouped_lem (v ∷ vs) gs h =
    let ih = grouped_lem vs (add_to_groups v gs) (AreDistinct-add_to_groups v gs h) in
    let left = fresh-add_to_groups v gs (types_of vs) in
    let others = ap (new_groups (v ∷ vs)) left ∙ new_groups_other v vs gs (types_of vs) in
    let step =
      filter_step (λ t. not (has_type t gs)) (js_type v)
        (filter (λ t. not (same_type t (js_type v))) (types_of vs)) in
    ih ∙ elim (Bool-cases (has_type (js_type v) gs)) [
      | inl k ↦
          ap₂ ◌++◌ (extended_known v vs gs h k)
            (sym (ap (new_groups (v ∷ vs)) (step false (ap not k)) ∙ others))
      | inr k ↦
          ap (λ r. r ++ new_groups vs (fresh (add_to_groups v gs) (types_of vs)))
            (extended_new v vs gs k)
          ∙ (append_assoc (extended vs gs) ((js_type v, v ∷ of_type vs (js_type v)) ∷ [])
                (new_groups vs (fresh (add_to_groups v gs) (types_of vs)))
              ∙ ap₂ ◌++◌ (sym (extended_other v vs gs k)) (
                  ap₂ {A = List Value} (λ a r. (js_type v, a) ∷ r)
                    (sym (
                      filter_step (λ u. same_type (js_type v) (js_type u)) v vs true
                        (same_type_self (js_type v))))
                    (sym others)
                  ∙ sym (ap (new_groups (v ∷ vs)) (step true (ap not k)))))
    ]

fresh_nil : (ts : List JsType) → fresh [] ts ≡ ts
fresh_nil [] = refl
fresh_nil (t ∷ ts) = ap (λ r. t ∷ r) (fresh_nil ts)

group_values-new_groups :
    (vs : List Value) (ts : List JsType) → group_values (new_groups vs ts) ≡ map (of_type vs) ts
group_values-new_groups vs [] = refl
group_values-new_groups vs (t ∷ ts) = ap (λ r. of_type vs t ∷ r) (group_values-new_groups vs ts)

-- `splitByType` makes one list for each type among the members, in the order in which the types first
-- appear, and it holds the members of that type in the order in which they stand.
pub split_by_type_lem : (vs : List Value) → split_by_type vs ≡ map (of_type vs) (types_of vs)
unfolding split_by_type
split_by_type_lem vs =
    ap group_values (grouped_lem vs [] tt ∙ ap (new_groups vs) (fresh_nil (types_of vs)))
    ∙ group_values-new_groups vs (types_of vs)
