-- ===== src/Chroma/Where.antt =====
-- chromadb's `Where`, as langchain-chromadb/src/index.ts builds it.
use query_plan_adapters.Base.{Text, List, [], ◌∷◌}
use query_plan_adapters.Value.{Value}
use query_plan_adapters.Chroma.Comparisons.{ChromaOp}

mutual
  pub data Where : Type 0 where
    -- `{ key: { $op: literal } }`, and with a list of literals
    clause : Text → ChromaOp → Value → Where
    members : Text → ChromaOp → List Value → Where
    -- `{ $and: children }` and `{ $or: children }`
    all_of : Wheres → Where
    any_of : Wheres → Where

  pub data Wheres : Type 0 where
    none : Wheres
    also : Where → Wheres → Wheres

abbrev pub wheres : List Where → Wheres
wheres [] = none
wheres (w ∷ ws) = also w (wheres ws)

abbrev pub where_list : Wheres → List Where
where_list none = []
where_list (also w ws) = w ∷ where_list ws
