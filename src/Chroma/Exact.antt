-- ===== src/Chroma/Exact.antt =====
-- langchain-chromadb/src/index.ts: what a split admits, and what opting in to it changes.
use query_plan_adapters.Base.{
  Text, some-injective, Option-cases, ◌≡◌, refl, sym, ap, ap₂, ◌∙◌, subst, Bool, true, false, ◌&&◌,
  every, Option, none, some, List, [], ◌∷◌, inl, inr, arith,
}
use query_plan_adapters.Value.{Value}
use query_plan_adapters.Plan.{
  Op, Operand, Operands, empty, operand, expression, operands_of, operand_list,
}
use query_plan_adapters.Evaluate.Macros.{is_bool}
use query_plan_adapters.Chroma.Outcome.{
  Attempt, done, raise, unsupported, plain, ◌>>=◌, >>=-eq-done, done-injective, raise_ne,
}
use query_plan_adapters.Chroma.Fields.{FieldMapper}
use query_plan_adapters.Chroma.Where.{Where, wheres, where_list}
use query_plan_adapters.Chroma.Translate.{map_operand, has_two}
use query_plan_adapters.Chroma.Server.{Server}
use query_plan_adapters.Chroma.Meaning.{meaning}
use query_plan_adapters.Chroma.Leaves.{attributes, Conforms}
use query_plan_adapters.Chroma.Sound.{HasBooleanKeys, HaveBooleanKeys, map_operand-admits}
use query_plan_adapters.Chroma.Split.{
  ChromaResult, filtered, allowed, denied, caught, try_pushdown, split_conjuncts, conjunction_of,
  pushed_filter, combined, sort_conjunct, split_and, or_split, split_inexpressible, split_condition,
  query_plan_to_chroma_db, QueryPlan, always_allowed, always_denied, unknown, conditional,
}

-- Which conditions are true of one record, of whatever operators: `&&` is true exactly where all of its
-- operands are, and a condition that Chroma can express is true exactly where its meaning is.
pub record Truth (mapper : FieldMapper) (attrs : Text → Value) : Type 0 where
  pub holds : Operand → Bool
  pub holds-and : (es : Operands) → holds (expression Op.and es) ≡ every holds (operand_list es)
  pub holds-expressible :
      (e : Operand) (w : Where)
      → map_operand e mapper false ≡ done w
      → holds e ≡ is_bool true (meaning e attrs)

none_ne : {A : Type 0} {a : A} → none ≡ some a → ⊥
none_ne e = cc

where_list-wheres : (ws : List Where) → where_list (wheres ws) ≡ ws
where_list-wheres [] = refl
where_list-wheres (w ∷ ws) = ap (λ us. w ∷ us) (where_list-wheres ws)

caught-some : (a : Attempt Where) (w : Where) → caught a ≡ done (some w) → a ≡ done w
caught-some (done u) w h = ap done (some-injective (done-injective h))
caught-some (raise (unsupported op reason)) w h = absurd (none_ne (done-injective h))
caught-some (raise (plain message)) w h = absurd (raise_ne h)

pushed_whole :
    (e : Operand) (mapper : FieldMapper) (w : Where)
    → try_pushdown e mapper ≡ done (some w)
    → map_operand e mapper false ≡ done w
unfolding try_pushdown
pushed_whole e mapper w h = caught-some (map_operand e mapper false) w h

operand_list-operands_of : (es : List Operand) → operand_list (operands_of es) ≡ es
operand_list-operands_of [] = refl
operand_list-operands_of (e ∷ es) = ap (λ fs. e ∷ fs) (operand_list-operands_of es)

module _ (S : Server) (mapper : FieldMapper) (d : S.Doc) (T : Truth mapper (attributes S mapper d))
    {F : Type 0} (compile : FieldMapper → Operand → Attempt F) where
  abbrev attrs : Text → Value
  attrs = attributes S mapper d

  -- Whether the search's filter admits the record.
  abbrev pub keeps_where : Option Where → Bool
  keeps_where none = true
  keeps_where (some w) = S.admits w d

  -- What an answer leaves to the post-filter, which is compiled from it, and the filter's part, are true
  -- together exactly where the condition is.
  abbrev pub IsSplit : Operand → ChromaResult F → Type 0
  IsSplit e allowed = ⊥
  IsSplit e denied = ⊥
  IsSplit e (filtered w none) = keeps_where w ≡ T.holds e
  IsSplit e (filtered w (some f)) =
      (rest : Operand) × (compile mapper rest ≡ done f)
      × ((keeps_where w && T.holds rest) ≡ T.holds e)

  abbrev pub IsPlanSplit : QueryPlan → ChromaResult F → Type 0
  IsPlanSplit always_allowed result = result ≡ allowed
  IsPlanSplit always_denied result = result ≡ denied
  IsPlanSplit unknown result = ⊥
  IsPlanSplit (conditional e) result = IsSplit e result

  abbrev pub HasPlanBooleanKeys : QueryPlan → Type 0
  HasPlanBooleanKeys (conditional e) = HasBooleanKeys attrs e
  HasPlanBooleanKeys _ = Unit

  module _ (typed : Conforms S mapper d) where
    pushed_admits :
        (e : Operand) (w : Where)
        → HasBooleanKeys attrs e
        → map_operand e mapper false ≡ done w
        → S.admits w d ≡ T.holds e
    pushed_admits e w b h =
        map_operand-admits S mapper d typed e false w b h ∙ sym (T.holds-expressible e w h)

    abbrev sorted_kept : List Where × List Operand → Bool
    sorted_kept (pushed, rest) = every (λ w. S.admits w d) pushed && every T.holds rest

    sort_conjunct_kept :
        (e : Operand) (tried : Option Where) (others : List Where × List Operand)
        → ((w : Where) → tried ≡ some w → S.admits w d ≡ T.holds e)
        → sorted_kept (sort_conjunct e tried others) ≡ (T.holds e && sorted_kept others)
    sort_conjunct_kept e none (pushed, rest) h = ground arith
    sort_conjunct_kept e (some w) (pushed, rest) h = rw (h w refl) (ground arith)

    split_conjuncts_kept :
        (es : Operands) (sorted : List Where × List Operand)
        → HaveBooleanKeys attrs es
        → split_conjuncts es mapper ≡ done sorted
        → sorted_kept sorted ≡ every T.holds (operand_list es)
    unfolding split_conjuncts
    split_conjuncts_kept empty sorted b h = ap sorted_kept (sym (done-injective h))
    split_conjuncts_kept (operand e es) sorted (b, bs) h =
        let (tried, p, h') = >>=-eq-done (try_pushdown e mapper) _ h in
        let (others, q, h'') = >>=-eq-done (split_conjuncts es mapper) _ h' in
        ap sorted_kept (sym (done-injective h''))
        ∙ sort_conjunct_kept e tried others
            (λ w t. pushed_admits e w b (pushed_whole e mapper w (p ∙ ap done t)))
        ∙ ap (λ x. T.holds e && x) (split_conjuncts_kept es others bs q)

    pushed_filter_kept :
        (ws : List Where) → keeps_where (pushed_filter ws) ≡ every (λ w. S.admits w d) ws
    pushed_filter_kept [] = refl
    pushed_filter_kept (w ∷ []) = ground arith
    pushed_filter_kept (w ∷ v ∷ ws) =
        S.admits-all_of (wheres (w ∷ v ∷ ws)) d tt
        ∙ ap (every (λ u. S.admits u d)) (where_list-wheres (w ∷ v ∷ ws))

    conjunction_of_holds : (es : List Operand) → T.holds (conjunction_of es) ≡ every T.holds es
    conjunction_of_holds [] = T.holds-and empty
    conjunction_of_holds (e ∷ []) = ground arith
    conjunction_of_holds (e ∷ f ∷ es) =
        T.holds-and (operands_of (e ∷ f ∷ es))
        ∙ ap (every T.holds) (operand_list-operands_of (e ∷ f ∷ es))

    post_filtered-IsSplit :
        (e : Operand) (result : ChromaResult F)
        → (compile mapper e >>= λ f. done (filtered none (some f))) ≡ done result
        → IsSplit e result
    post_filtered-IsSplit e result h =
        let (f, p, h') = >>=-eq-done (compile mapper e) _ h in
        subst (IsSplit e) (done-injective h') (e, p, refl)

    combined-IsSplit :
        (e : Operand) (sorted : List Where × List Operand) (result : ChromaResult F)
        → sorted_kept sorted ≡ T.holds e
        → combined compile mapper sorted ≡ done result
        → IsSplit e result
    combined-IsSplit e (pushed, rest) result kept h =
        let (f, p, h') = >>=-eq-done (compile mapper (conjunction_of rest)) _ h in
        subst (IsSplit e) (done-injective h') (
          conjunction_of rest,
          p,
          ap₂ ◌&&◌ (pushed_filter_kept pushed) (conjunction_of_holds rest) ∙ kept,
        )

    and_IsSplit :
        (es : Operands) (two : Bool) (result : ChromaResult F)
        → HaveBooleanKeys attrs es
        → split_and compile mapper es two ≡ done result
        → IsSplit (expression Op.and es) result
    and_IsSplit es true result b h =
        let (sorted, p, h') = >>=-eq-done (split_conjuncts es mapper) _ h in
        combined-IsSplit (expression Op.and es) sorted result
          (split_conjuncts_kept es sorted b p ∙ sym (T.holds-and es)) h'
    and_IsSplit es false result b h = post_filtered-IsSplit (expression Op.and es) result h

    inexpressible-IsSplit :
        (e : Operand) (result : ChromaResult F)
        → HasBooleanKeys attrs e
        → split_inexpressible compile mapper e ≡ done result
        → IsSplit e result
    unfolding split_inexpressible
    inexpressible-IsSplit (expression Op.and es) result b h = and_IsSplit es (has_two es) result b h
    inexpressible-IsSplit e result b h = post_filtered-IsSplit e result h

    condition-IsSplit :
        (e : Operand) (result : ChromaResult F)
        → HasBooleanKeys attrs e
        → split_condition compile mapper e ≡ done result
        → IsSplit e result
    unfolding split_condition
    condition-IsSplit e result b h =
        let (tried, p, h') = >>=-eq-done (try_pushdown e mapper) _ h in
        elim (Option-cases tried) [
          | inl none_tried ↦
              inexpressible-IsSplit e result b
                (subst (λ t. or_split compile mapper e t ≡ done result) none_tried h')
          | inr (w, t) ↦
              subst (IsSplit e)
                (done-injective (subst (λ t. or_split compile mapper e t ≡ done result) t h'))
                (pushed_admits e w b (pushed_whole e mapper w (p ∙ ap done t)))
        ]

    -- Opted in or not, where the adapter answers a conditional plan, what the record stores is as the
    -- mapper declares, and its bare keys store Booleans where they store anything, the search's filter
    -- and what is left to the post-filter say together what the condition says of the record: without a
    -- post-filter the filter admits the record exactly where the condition is true, and with one, which
    -- is compiled from some operand, exactly where the filter admits it and that operand is true. A
    -- settled plan has its settled answer.
    pub query_plan_to_chroma_db-IsPlanSplit :
        (plan : QueryPlan) (opted : Bool) (result : ChromaResult F)
        → HasPlanBooleanKeys plan
        → query_plan_to_chroma_db compile mapper plan opted ≡ done result
        → IsPlanSplit plan result
    unfolding query_plan_to_chroma_db
    query_plan_to_chroma_db-IsPlanSplit always_allowed opted result b h = sym (done-injective h)
    query_plan_to_chroma_db-IsPlanSplit always_denied opted result b h = sym (done-injective h)
    query_plan_to_chroma_db-IsPlanSplit unknown opted result b h = absurd (raise_ne h)
    query_plan_to_chroma_db-IsPlanSplit (conditional e) true result b h =
        condition-IsSplit e result b h
    query_plan_to_chroma_db-IsPlanSplit (conditional e) false result b h =
        let (w, p, h') = >>=-eq-done (map_operand e mapper false) _ h in
        subst (IsSplit e) (done-injective h') (pushed_admits e w b p)

-- How opting in changes an answer: one that is returned, and a plain `Error`, stay; only an
-- `UnsupportedOperatorError` can become something else.
abbrev pub Unchanged : {F : Type 0} → Attempt (ChromaResult F) → Attempt (ChromaResult F) → Type 0
Unchanged (done result) after = after ≡ done result
Unchanged (raise (plain message)) after = after ≡ raise (plain message)
Unchanged (raise (unsupported op reason)) after = Unit

opting_in_pushdown :
    {F : Type 0} (compile : FieldMapper → Operand → Attempt F) (mapper : FieldMapper) (e : Operand)
    (a : Attempt Where)
    → Unchanged {F = F}
        (a >>= λ w. done (filtered (some w) none))
        (caught a >>= or_split compile mapper e)
opting_in_pushdown compile mapper e (done w) = refl
opting_in_pushdown compile mapper e (raise (plain message)) = refl
opting_in_pushdown compile mapper e (raise (unsupported op reason)) = tt

-- Opting in to a post-filter changes the answer only where the adapter refused the plan as
-- unsupported: a filter that it returned, and a plain `Error` that it threw, stay the same.
pub opting_in-Unchanged :
    {F : Type 0} (compile : FieldMapper → Operand → Attempt F) (mapper : FieldMapper)
    (plan : QueryPlan)
    → Unchanged
        (query_plan_to_chroma_db compile mapper plan false)
        (query_plan_to_chroma_db compile mapper plan true)
unfolding query_plan_to_chroma_db split_condition try_pushdown
opting_in-Unchanged compile mapper always_allowed = refl
opting_in-Unchanged compile mapper always_denied = refl
opting_in-Unchanged compile mapper unknown = refl
opting_in-Unchanged compile mapper (conditional e) =
    opting_in_pushdown compile mapper e (map_operand e mapper false)
