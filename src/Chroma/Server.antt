-- ===== src/Chroma/Server.antt =====
-- What langchain-chromadb/src/index.ts relies on of a Chroma server, which is not in the repository:
-- what a valid `Where` admits, as its comments document it. A clause but `$ne` and `$nin` admits
-- only a record that carries the key, a comparison is exact by type, and an ordering is exact for
-- an integral threshold or floating-point metadata.
use query_plan_adapters.Base.{
  ◌≡◌, Bool, true, false, not, ◌&&◌, ◌||◌, Option, none, some, List, [], ◌∷◌, every, any, Text,
}
use query_plan_adapters.Number.{is_integer}
use query_plan_adapters.Value.{Value, num}
use query_plan_adapters.Cel.Equality.{values_equal}
use query_plan_adapters.Cel.Order.{Comparison, by_number}
use query_plan_adapters.Evaluate.Lists.{list_contains}
use query_plan_adapters.Chroma.Comparisons.{ChromaOp}
use query_plan_adapters.Chroma.Literals.{is_chroma_literal, js_type, same_type}
use query_plan_adapters.Chroma.Where.{
  Where, Wheres, clause, members, all_of, any_of, where_list, also,
}

-- Whether a clause admits a record without the key.
abbrev pub matches_missing : ChromaOp → Bool
matches_missing ChromaOp.ne = true
matches_missing ChromaOp.not_member = true
matches_missing _ = false

abbrev pub by_numbers : Comparison → Value → Value → Bool
by_numbers op (num x) (num y) = by_number op x y
by_numbers op _ _ = false

-- What a clause says of the value stored under the key.
unfoldable pub says : ChromaOp → Value → Value → Bool
unfolding by_number values_equal
says ChromaOp.eq v l = values_equal v l
says ChromaOp.ne v l = not (values_equal v l)
says ChromaOp.lt v l = by_numbers Comparison.lt v l
says ChromaOp.lte v l = by_numbers Comparison.le v l
says ChromaOp.gt v l = by_numbers Comparison.gt v l
says ChromaOp.gte v l = by_numbers Comparison.ge v l
says _ v l = false

unfoldable pub says_members : ChromaOp → Value → List Value → Bool
unfolding list_contains
says_members ChromaOp.member v ls = list_contains ls v
says_members ChromaOp.not_member v ls = not (list_contains ls v)
says_members _ v ls = false

abbrev pub is_integral : Value → Bool
is_integral (num x) = is_integer x
is_integral _ = false

-- Whether the server compares exactly: an ordering, with an integral threshold or a float key.
unfoldable pub is_exact : ChromaOp → Value → Bool → Bool
unfolding is_integer
is_exact ChromaOp.eq l float = true
is_exact ChromaOp.ne l float = true
is_exact _ l float = is_integral l || float

-- A list that a `$in` or `$nin` may have: not empty, and of one type of literals.
unfoldable pub is_valid_list : List Value → Bool
unfolding is_chroma_literal
is_valid_list [] = false
is_valid_list (l ∷ ls) =
    every is_chroma_literal (l ∷ ls) && every (λ m. same_type (js_type l) (js_type m)) ls

abbrev pub HasTwo : Wheres → Type 0
HasTwo (also v (also w ws)) = Unit
HasTwo _ = ⊥

pub record Server : Type 1 where
  pub Doc : Type 0
  -- the value stored under a key, and whether the key holds floating-point metadata
  pub metadata : Doc → Text → Option Value
  pub is_float : Doc → Text → Bool
  pub admits : Where → Doc → Bool
  -- metadata are strings, finite numbers and booleans
  pub metadata_literal :
      (d : Doc) (key : Text) (v : Value) → metadata d key ≡ some v → is_chroma_literal v ≡ true
  pub admits-clause_missing :
      (key : Text) (op : ChromaOp) (l : Value) (d : Doc)
      → metadata d key ≡ none
      → admits (clause key op l) d ≡ matches_missing op
  pub admits-clause :
      (key : Text) (op : ChromaOp) (l v : Value) (d : Doc)
      → metadata d key ≡ some v
      → is_chroma_literal l ≡ true
      → is_exact op l (is_float d key) ≡ true
      → admits (clause key op l) d ≡ says op v l
  pub admits-members_missing :
      (key : Text) (op : ChromaOp) (ls : List Value) (d : Doc)
      → metadata d key ≡ none
      → is_valid_list ls ≡ true
      → admits (members key op ls) d ≡ matches_missing op
  pub admits-members :
      (key : Text) (op : ChromaOp) (ls : List Value) (v : Value) (d : Doc)
      → metadata d key ≡ some v
      → is_valid_list ls ≡ true
      → admits (members key op ls) d ≡ says_members op v ls
  pub admits-all_of :
      (ws : Wheres) (d : Doc)
      → HasTwo ws
      → admits (all_of ws) d ≡ every (λ w. admits w d) (where_list ws)
  pub admits-any_of :
      (ws : Wheres) (d : Doc)
      → HasTwo ws
      → admits (any_of ws) d ≡ any (λ w. admits w d) (where_list ws)
