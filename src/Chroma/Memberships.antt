-- ===== src/Chroma/Memberships.antt =====
-- langchain-chromadb/src/index.ts, `emit` of a list: what the lists of one type admit together.
use query_plan_adapters.Base.{
  ◌≡◌, refl, sym, ap, ap₂, ◌∙◌, Bool, true, false, not, ◌&&◌, ◌||◌, inl, inr, List, [], ◌∷◌, map,
  every, any, Text, arith, Option-cases,
}
use query_plan_adapters.Value.{Value, arr, elems, Items, cons, str, num, bool}
use query_plan_adapters.Plan.{Op}
use query_plan_adapters.Cel.Equality.{values_equal}
use query_plan_adapters.Evaluate.Lists.{membership, list_contains}
use query_plan_adapters.Evaluate.Macros.{is_bool}
use query_plan_adapters.Chroma.Comparisons.{ChromaOp, Key, nin_op}
use query_plan_adapters.Chroma.Where.{members, wheres, where_list}
use query_plan_adapters.Chroma.Literals.{is_chroma_literal, split_by_type, emit_groups}
use query_plan_adapters.Chroma.Server.{Server, says_members, is_valid_list}
use query_plan_adapters.Chroma.Meaning.{relation, negated_value}
use query_plan_adapters.Chroma.Groups.{
  AllValid, split_by_type-AllValid, any-split_by_type, split_by_type_one,
}
use query_plan_adapters.Chroma.Clauses.{IsGuarded, value_of}

true_ne_false : true ≡ false → ⊥
true_ne_false e = cc

pub split_by_type_some : (v : Value) (vs : List Value) → split_by_type (v ∷ vs) ≡ [] → ⊥
split_by_type_some v vs e =
    true_ne_false (sym (any-split_by_type (λ m. true) (v ∷ vs)) ∙ ap (any (any (λ m. true))) e)

module _ (S : Server) (name : Text) (d : S.Doc) (chroma : ChromaOp) (q : List Value → Bool)
    (one : (g : List Value)
      → is_valid_list g ≡ true
      → S.admits (members name chroma g) d ≡ q g) where
  open S use {admits}

  any-members :
      (gs : List (List Value))
      → AllValid gs
      → any (λ w. admits w d) (where_list (wheres (map (members name chroma) gs))) ≡ any q gs
  any-members [] h = refl
  any-members (g ∷ gs) (p, ps) = ap₂ ◌||◌ (one g p) (any-members gs ps)

  every-members :
      (gs : List (List Value))
      → AllValid gs
      → every (λ w. admits w d) (where_list (wheres (map (members name chroma) gs))) ≡ every q gs
  every-members [] h = refl
  every-members (g ∷ gs) (p, ps) = ap₂ ◌&&◌ (one g p) (every-members gs ps)

  module _ (xs : List Value) where
    admits-any :
        (gs : List (List Value))
        → AllValid gs
        → (gs ≡ [] → ⊥)
        → ((g : List Value) → gs ≡ g ∷ [] → is_valid_list xs ≡ true)
        → any q gs ≡ q xs
        → admits (emit_groups name chroma Op.member xs gs) d ≡ q xs
    admits-any [] h some_group single e = absurd (some_group refl)
    admits-any (g ∷ []) h some_group single e = one xs (single g refl)
    admits-any (g ∷ k ∷ gs) h some_group single e =
        S.admits-any_of _ d tt ∙ any-members (g ∷ k ∷ gs) h ∙ e

    admits-every :
        (gs : List (List Value))
        → AllValid gs
        → (gs ≡ [] → ⊥)
        → ((g : List Value) → gs ≡ g ∷ [] → is_valid_list xs ≡ true)
        → every q gs ≡ q xs
        → admits (emit_groups name chroma nin_op xs gs) d ≡ q xs
    admits-every [] h some_group single e = absurd (some_group refl)
    admits-every (g ∷ []) h some_group single e = one xs (single g refl)
    admits-every (g ∷ k ∷ gs) h some_group single e =
        S.admits-all_of _ d tt ∙ every-members (g ∷ k ∷ gs) h ∙ e

every-not_contained :
    (v : Value) (gs : List (List Value))
    → every (λ g. not (list_contains g v)) gs ≡ not (any (λ g. list_contains g v) gs)
every-not_contained v [] = refl
every-not_contained v (g ∷ gs) = ground (arith, every-not_contained v gs)

any-false : (gs : List (List Value)) → any (λ g. false) gs ≡ false
any-false [] = refl
any-false (g ∷ gs) = any-false gs

any-list_contains :
    (a : Value) (xs : List Value)
    → any (λ g. list_contains g a) (split_by_type xs) ≡ list_contains xs a
unfolding list_contains
any-list_contains a xs = any-split_by_type (λ m. values_equal m a) xs

member_relation :
    (a v : Value) (vs : Items)
    → is_chroma_literal a ≡ true
    → (is_bool true (relation Key.member a (arr (cons v vs))) ≡ list_contains (v ∷ elems vs) a)
      × (is_bool true (relation Key.nin a (arr (cons v vs))) ≡ not (list_contains (v ∷ elems vs) a))
unfolding relation membership is_chroma_literal negated_value
member_relation (str s) v vs h = ground arith
member_relation (num x) v vs h = ground arith
member_relation (bool b) v vs h = ground arith
member_relation _ v vs h = cc

module _ (S : Server) (name : Text) (d : S.Doc) (v : Value) (vs : Items)
    (literals : every is_chroma_literal (v ∷ elems vs) ≡ true) where
  open S use {metadata, admits}

  abbrev listed : List Value
  listed = v ∷ elems vs

  pub admits-in :
      admits (emit_groups name ChromaOp.member Op.member listed (split_by_type listed)) d
      ≡ is_bool true (relation Key.member (value_of S name d) (arr (cons v vs)))
  admits-in = elim (Option-cases (metadata d name)) [
    | inl e ↦
        admits-any S name d ChromaOp.member (λ g. false)
          (λ g valid. S.admits-members_missing name ChromaOp.member g d e valid) listed
          (split_by_type listed) (split_by_type-AllValid listed literals)
          (split_by_type_some v (elems vs)) (λ g p. split_by_type_one v (elems vs) g p literals)
          (any-false (split_by_type listed))
        ∙ rw e (unfold relation membership in refl)
    | inr (a, e) ↦
        admits-any S name d ChromaOp.member (λ g. list_contains g a)
          (λ g valid.
            S.admits-members name ChromaOp.member g a d e valid ∙ (unfold says_members in refl))
          listed (split_by_type listed) (split_by_type-AllValid listed literals)
          (split_by_type_some v (elems vs)) (λ g p. split_by_type_one v (elems vs) g p literals)
          (any-list_contains a listed)
        ∙ rw e (sym (member_relation a v vs (S.metadata_literal d name a e)).0)
  ]

  pub admits-nin :
      IsGuarded S name d Key.nin
      → admits (emit_groups name ChromaOp.not_member nin_op listed (split_by_type listed)) d
        ≡ is_bool true (relation Key.nin (value_of S name d) (arr (cons v vs)))
  admits-nin guarded = elim (Option-cases (metadata d name)) [
    | inl e ↦ absurd (true_ne_false (guarded e))
    | inr (a, e) ↦
        admits-every S name d ChromaOp.not_member (λ g. not (list_contains g a))
          (λ g valid.
            S.admits-members name ChromaOp.not_member g a d e valid ∙ (unfold says_members in refl))
          listed (split_by_type listed) (split_by_type-AllValid listed literals)
          (split_by_type_some v (elems vs)) (λ g p. split_by_type_one v (elems vs) g p literals)
          (every-not_contained a (split_by_type listed) ∙ ap not (any-list_contains a listed))
        ∙ rw e (sym (member_relation a v vs (S.metadata_literal d name a e)).1)
  ]
