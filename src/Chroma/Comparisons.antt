-- ===== src/Chroma/Comparisons.antt =====
-- langchain-chromadb/src/index.ts, `COMPARISONS` and what is read from it. The operator `nin`, which
-- no planner emits, is `other "nin"`.
use query_plan_adapters.Base.{
  ◌≡◌, refl, ap, ◌⊎◌, inl, inr, Bool, true, false, not, Option, none, some, Text, text, text_eq,
  text_eq_sound, if◌then◌else◌, Bool-cases,
}
use query_plan_adapters.Plan.{Op}
use query_plan_adapters.Chroma.Outcome.{
  Attempt, done, raise, unsupported, unsupported_operator, cannot_negate, literal_in_field,
}

-- The operators of a `Where` clause.
pub data ChromaOp : Type 0 where
  eq ne lt lte gt gte member not_member : ChromaOp

-- `requireLiteral`, `requireNumber` and `requireLiteralList`
pub data LiteralKind : Type 0 where
  scalar number scalars : LiteralKind

-- The rows of the table.
pub data Key : Type 0 where
  eq ne lt le gt ge member nin : Key

pub record Row : Type 0 where
  pub chroma : ChromaOp
  pub literal : LiteralKind
  pub negated : Option Op
  pub mirrored : Option Op
  pub matches_missing_key : Bool
  pub ordered : Bool
  pub negation_only : Bool

abbrev pub nin_name : Text
nin_name = text "nin"

abbrev pub nin_op : Op
nin_op = Op.other nin_name

-- `COMPARISONS.get(operator)`: the row of an operator, if it has one.
unfoldable pub key_of : Op → Option Key
key_of Op.eq = some Key.eq
key_of Op.ne = some Key.ne
key_of Op.lt = some Key.lt
key_of Op.le = some Key.le
key_of Op.gt = some Key.gt
key_of Op.ge = some Key.ge
key_of Op.member = some Key.member
key_of (Op.other name) = if text_eq name nin_name then some Key.nin else none
key_of _ = none

abbrev pub op_of : Key → Op
op_of Key.eq = Op.eq
op_of Key.ne = Op.ne
op_of Key.lt = Op.lt
op_of Key.le = Op.le
op_of Key.gt = Op.gt
op_of Key.ge = Op.ge
op_of Key.member = Op.member
op_of Key.nin = nin_op

abbrev ordered_row : ChromaOp → Op → Op → Row
ordered_row chroma negated mirrored = record {
  chroma = chroma;
  literal = number;
  negated = some negated;
  mirrored = some mirrored;
  matches_missing_key = false;
  ordered = true;
  negation_only = false;
}

abbrev equality_row : ChromaOp → Op → Op → Bool → Row
equality_row chroma negated mirrored missing = record {
  chroma = chroma;
  literal = scalar;
  negated = some negated;
  mirrored = some mirrored;
  matches_missing_key = missing;
  ordered = false;
  negation_only = false;
}

abbrev list_row : ChromaOp → Option Op → Bool → Row
list_row chroma negated missing = record {
  chroma = chroma;
  literal = scalars;
  negated = negated;
  mirrored = none;
  matches_missing_key = missing;
  ordered = false;
  negation_only = missing;
}

-- `COMPARISONS`
abbrev pub comparisons : Key → Row
comparisons Key.eq = equality_row ChromaOp.eq Op.ne Op.eq false
comparisons Key.ne = equality_row ChromaOp.ne Op.eq Op.ne true
comparisons Key.lt = ordered_row ChromaOp.lt Op.ge Op.gt
comparisons Key.le = ordered_row ChromaOp.lte Op.gt Op.ge
comparisons Key.gt = ordered_row ChromaOp.gt Op.le Op.lt
comparisons Key.ge = ordered_row ChromaOp.gte Op.lt Op.le
comparisons Key.member = list_row ChromaOp.member (some nin_op) false
comparisons Key.nin = list_row ChromaOp.not_member none true

abbrev planned : Option Key → Bool
planned none = false
planned (some key) = not (comparisons key).negation_only

-- `isPlanComparison`
unfoldable pub is_plan_comparison : Op → Bool
unfolding key_of
is_plan_comparison op = planned (key_of op)

abbrev pub negated_of : Option Key → Option Op
negated_of none = none
negated_of (some key) = (comparisons key).negated

abbrev pub mirrored_of : Option Key → Option Op
mirrored_of none = none
mirrored_of (some key) = (comparisons key).mirrored

abbrev pub or_refuse : Option Op → Attempt Op → Attempt Op
or_refuse none refusal = refusal
or_refuse (some op) refusal = done op

-- `negationOf`
unfoldable pub negation_of : Op → Attempt Op
unfolding key_of
negation_of op = or_refuse (negated_of (key_of op)) (raise (unsupported (some op) cannot_negate))

-- `mirrorOf`
unfoldable pub mirror_of : Op → Attempt Op
unfolding key_of
mirror_of Op.member = raise (unsupported (some Op.member) literal_in_field)
mirror_of op =
    or_refuse (mirrored_of (key_of op)) (raise (unsupported (some op) unsupported_operator))

other_keyed :
    (name : Text) → (key_of (Op.other name) ≡ none) ⊎ ((key : Key) × (Op.other name ≡ op_of key))
unfolding key_of
other_keyed name = elim (Bool-cases (text_eq name nin_name)) [
  | inl e ↦ inr (Key.nin, ap (λ (t : Text). Op.other t) (text_eq_sound name nin_name e))
  | inr e ↦ inl (rw e refl)
]

-- An operator has no row, or it is the operator of one.
pub key_of-cases : (op : Op) → (key_of op ≡ none) ⊎ ((key : Key) × (op ≡ op_of key))
unfolding key_of
key_of-cases Op.eq = inr (Key.eq, refl)
key_of-cases Op.ne = inr (Key.ne, refl)
key_of-cases Op.lt = inr (Key.lt, refl)
key_of-cases Op.le = inr (Key.le, refl)
key_of-cases Op.gt = inr (Key.gt, refl)
key_of-cases Op.ge = inr (Key.ge, refl)
key_of-cases Op.member = inr (Key.member, refl)
key_of-cases (Op.other name) = other_keyed name
key_of-cases _ = inl refl

pub key_of-op_of : (key : Key) → key_of (op_of key) ≡ some key
unfolding key_of text_eq
key_of-op_of Key.nin = refl
key_of-op_of Key.member = refl
key_of-op_of _ = refl
