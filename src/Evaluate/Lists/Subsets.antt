-- ===== src/Evaluate/Lists/Subsets.antt =====
-- convex/src/evaluate.ts: `isSubset`, `except` and `intersect` as operations on sets of values.
use query_plan_adapters.Base.{
  ◌≡◌, refl, ap, ◌∙◌, subst, ◌↔◌, Bool, true, false, not, ◌&&◌, List, [], ◌∷◌, filter, every,
  length, ltb, arith, All, Bool-cases, inl, inr, if◌then◌else◌,
}
use mathlib.Core.Bool.{and-eq-true_iff}
use query_plan_adapters.Value.{Value, items, elems, bool, arr}
use query_plan_adapters.Cel.Equality.{values_equal}
use query_plan_adapters.Plain.{IsMapFree, IsMapFree-IsPlain, values_equal_iff}
use query_plan_adapters.Evaluate.Lists.{list_contains, except, intersect, is_subset}

-- The members of a list value.
abbrev pub members : Value → List Value
members (arr vs) = elems vs
members _ = []

elems-items : (xs : List Value) → elems (items xs) ≡ xs
elems-items [] = refl
elems-items (x ∷ xs) = ap (λ r. x ∷ r) (elems-items xs)

-- A member that equals a value is that value, so a test answers alike for both.
same_test :
    (test : Value → Bool) (x v : Value)
    → IsMapFree x
    → IsMapFree v
    → (values_equal x v && test x) ≡ (values_equal x v && test v)
same_test test x v h g = elim (Bool-cases (values_equal x v)) [
  | inl e ↦
      ap (λ y. values_equal x v && test y) ((values_equal_iff x v (IsMapFree-IsPlain x h) g).0 e)
  | inr e ↦ rw e refl
]

list_contains-filter :
    (test : Value → Bool) (xs : List Value) (v : Value)
    → All IsMapFree xs
    → IsMapFree v
    → list_contains (filter test xs) v ≡ (list_contains xs v && test v)
unfolding list_contains
list_contains-filter test [] v h g = refl
list_contains-filter test (x ∷ xs) v (h, hs) g =
    ground (arith, same_test test x v h g, list_contains-filter test xs v hs g)

members-filter :
    (test : Value → Bool) (xs : List Value) (v : Value)
    → All IsMapFree xs
    → IsMapFree v
    → list_contains (members (arr (items (filter test xs)))) v ≡ (list_contains xs v && test v)
members-filter test xs v h g =
    ap (λ ys. list_contains ys v) (elems-items (filter test xs))
    ∙ list_contains-filter test xs v h g

and_comm : (a b : Bool) → (a && b) ≡ (b && a)
and_comm a b = ground arith

-- Over lists of plain values without maps, a value is in `intersect` exactly when it is in both lists,
-- whichever is the longer one, and in `except` exactly when it is in the first and not in the second.
pub intersect-except-members :
    (left right : List Value) (v : Value)
    → All IsMapFree left
    → All IsMapFree right
    → IsMapFree v
    → (list_contains (members (intersect left right)) v
        ≡ (list_contains left v && list_contains right v))
      × (list_contains (members (except left right)) v
          ≡ (list_contains left v && not (list_contains right v)))
unfolding intersect except
intersect-except-members left right v l r h = (
  elim (ltb (length right) (length left))
      as (λ b.
        list_contains
          (members (
            if b
            then arr (items (filter (list_contains left) right))
            else arr (items (filter (list_contains right) left))))
          v
        ≡ (list_contains left v && list_contains right v)) [
          | true ↦
              members-filter (list_contains left) right v r h
              ∙ and_comm (list_contains right v) (list_contains left v)
          | false ↦ members-filter (list_contains right) left v l h
        ],
  members-filter (λ w. not (list_contains right w)) left v l h,
)

abbrev is_true : Value → Bool
is_true (bool b) = b
is_true _ = false

contains_self : (x : Value) (xs : List Value) → IsMapFree x → list_contains (x ∷ xs) x ≡ true
unfolding list_contains
contains_self x xs h = rw ((values_equal_iff x x (IsMapFree-IsPlain x h) h).1 refl) refl

every_contained :
    (test : Value → Bool) (xs : List Value) (v : Value)
    → All IsMapFree xs
    → IsMapFree v
    → every test xs ≡ true
    → list_contains xs v ≡ true
    → test v ≡ true
unfolding list_contains
every_contained test [] v h g e k = cc
every_contained test (x ∷ xs) v (h, hs) g e k =
    let (first, rest) = (and-eq-true_iff (test x) (every test xs)).0 e in
    elim (Bool-cases (values_equal x v)) [
      | inl same ↦
          subst (λ y. test y ≡ true) ((values_equal_iff x v (IsMapFree-IsPlain x h) g).0 same) first
      | inr other ↦ every_contained test xs v hs g rest (ground arith)
    ]

contained_every :
    (test : Value → Bool) (xs : List Value)
    → All IsMapFree xs
    → ((v : Value) → IsMapFree v → list_contains xs v ≡ true → test v ≡ true)
    → every test xs ≡ true
unfolding list_contains
contained_every test [] h k = refl
contained_every test (x ∷ xs) (h, hs) k =
    (and-eq-true_iff (test x) (every test xs)).1
      (k x h (contains_self x xs h), contained_every test xs hs (λ v g e. k v g (ground arith)))

-- `isSubset` answers true exactly when each value that is in the first list is in the second, over
-- lists of plain values without maps.
pub is_subset_iff :
    (left right : List Value)
    → All IsMapFree left
    → All IsMapFree right
    → (is_subset left right ≡ bool true)
      ↔ ((v : Value) → IsMapFree v → list_contains left v ≡ true → list_contains right v ≡ true)
unfolding is_subset
is_subset_iff left right l r = (
  λ e v h k. every_contained (list_contains right) left v l h (ap is_true e) k,
  λ k. ap bool (contained_every (list_contains right) left l k),
)
