-- ===== src/Chroma/Sample.antt =====
-- A concrete Chroma server that meets the laws of `Server`, and the conditions that are true of its
-- records by their meaning.
use query_plan_adapters.Base.{
  ◌≡◌, refl, ap, ◌∙◌, Bool, true, false, ◌&&◌, ◌||◌, every, any, Option, none, some, List, [], ◌∷◌,
  Text, text_eq, if◌then◌else◌, Bool-cases, inl, inr, some-injective, subst,
}
use query_plan_adapters.Value.{Value}
use query_plan_adapters.Plan.{Op, Operands, expression, empty, operand, operand_list}
use query_plan_adapters.Pushdown.Answers.{is_bool-three_valued_other}
use query_plan_adapters.Evaluate.Macros.{is_bool}
use query_plan_adapters.Chroma.Comparisons.{ChromaOp}
use query_plan_adapters.Chroma.Fields.{FieldMapper}
use query_plan_adapters.Chroma.Where.{
  Where, Wheres, clause, members, all_of, any_of, also, where_list,
}
use query_plan_adapters.Chroma.Where
use query_plan_adapters.Chroma.Literals.{is_chroma_literal}
use query_plan_adapters.Chroma.Server.{Server, matches_missing, says, says_members}
use query_plan_adapters.Chroma.Meaning.{meaning, meanings}
use query_plan_adapters.Chroma.Exact.{Truth}

abbrev pub Metadata : Type 0
Metadata = List (Text × Value)

abbrev pub read_metadata : Metadata → Text → Option Value
read_metadata [] key = none
read_metadata ((k, v) ∷ rest) key =
    if text_eq k key && is_chroma_literal v then some v else read_metadata rest key

none_ne : {A : Type 0} {a : A} → none ≡ some a → ⊥
none_ne e = cc

pub read_metadata_literal :
    (d : Metadata) (key : Text) (v : Value)
    → read_metadata d key ≡ some v
    → is_chroma_literal v ≡ true
read_metadata_literal [] key v e = absurd (none_ne e)
read_metadata_literal ((k, u) ∷ rest) key v e = elim (Bool-cases (text_eq k key)) [
  | inl i ↦ elim (Bool-cases (is_chroma_literal u)) [
    | inl j ↦ subst (λ x. is_chroma_literal x ≡ true) (some-injective (rw (i, j) at e)) j
    | inr j ↦ read_metadata_literal rest key v (rw (i, j) at e)
  ]
  | inr i ↦ read_metadata_literal rest key v (rw i at e)
]

abbrev pub clause_admits : ChromaOp → Value → Option Value → Bool
clause_admits op l none = matches_missing op
clause_admits op l (some v) = says op v l

abbrev pub members_admit : ChromaOp → List Value → Option Value → Bool
members_admit op ls none = matches_missing op
members_admit op ls (some v) = says_members op v ls

abbrev mutual
  pub where_admits : Where → Metadata → Bool
  where_admits (clause key op l) d = clause_admits op l (read_metadata d key)
  where_admits (members key op ls) d = members_admit op ls (read_metadata d key)
  where_admits (all_of ws) d = all_admit ws d
  where_admits (any_of ws) d = one_admits ws d

  pub all_admit : Wheres → Metadata → Bool
  all_admit Where.none d = true
  all_admit (also w ws) d = where_admits w d && all_admit ws d

  pub one_admits : Wheres → Metadata → Bool
  one_admits Where.none d = false
  one_admits (also w ws) d = where_admits w d || one_admits ws d

pub all_admit-every :
    (ws : Wheres) (d : Metadata) → all_admit ws d ≡ every (λ w. where_admits w d) (where_list ws)
all_admit-every Where.none d = refl
all_admit-every (also w ws) d = ap (λ x. where_admits w d && x) (all_admit-every ws d)

pub one_admits-any :
    (ws : Wheres) (d : Metadata) → one_admits ws d ≡ any (λ w. where_admits w d) (where_list ws)
one_admits-any Where.none d = refl
one_admits-any (also w ws) d = ap (λ x. where_admits w d || x) (one_admits-any ws d)

-- The server; the metadata of `float_keys` are floating-point numbers.
abbrev pub server : (Text → Bool) → Server
server float_keys = record {
  Doc = Metadata;
  metadata = read_metadata;
  is_float = λ d key. float_keys key;
  admits = where_admits;
  metadata_literal = read_metadata_literal;
  admits-clause_missing = λ key op l d e. ap (clause_admits op l) e;
  admits-clause = λ key op l v d e literal exact. ap (clause_admits op l) e;
  admits-members_missing = λ key op ls d e valid. ap (members_admit op ls) e;
  admits-members = λ key op ls v d e valid. ap (members_admit op ls) e;
  admits-all_of = λ ws d two. all_admit-every ws d;
  admits-any_of = λ ws d two. one_admits-any ws d;
}

every-is_bool :
    (es : Operands) (attrs : Text → Value)
    → every (is_bool true) (meanings es attrs)
      ≡ every (λ e. is_bool true (meaning e attrs)) (operand_list es)
unfolding meaning
every-is_bool empty attrs = refl
every-is_bool (operand e es) attrs =
    ap (λ x. is_bool true (meaning e attrs) && x) (every-is_bool es attrs)

pub and-is_bool :
    (es : Operands) (attrs : Text → Value)
    → is_bool true (meaning (expression Op.and es) attrs)
      ≡ every (λ e. is_bool true (meaning e attrs)) (operand_list es)
unfolding meaning
and-is_bool es attrs = is_bool-three_valued_other false (meanings es attrs) ∙ every-is_bool es attrs

-- The conditions that are true by their meaning.
abbrev pub by_meaning : (mapper : FieldMapper) (attrs : Text → Value) → Truth mapper attrs
by_meaning mapper attrs = record {
  holds = λ e. is_bool true (meaning e attrs);
  holds-and = λ es. and-is_bool es attrs;
  holds-expressible = λ e w translated. refl;
}
