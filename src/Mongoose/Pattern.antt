-- ===== src/Mongoose/Pattern.antt =====
-- mongoose/src/regex.ts: texts as patterns, and the patterns of `matches` as MongoDB reads them.
pub mod Literals
mod Tests
use query_plan_adapters.Base.{
  ℕ, Bool, true, false, ◌&&◌, ◌||◌, [], ◌∷◌, ◌++◌, any, ◌==◌, ltb, if◌then◌else◌, Text, text,
}

-- The messages of `UnsupportedQueryPlanError`.
pub data Refusal : Type 0 where
  not_a_literal_escape inner_caret inner_dollar invalid_quantifier outside_the_subset : Refusal

pub data Outcome : Type 0 where
  done : Text → Outcome
  refused : Refusal → Outcome

abbrev pub backslash : ℕ
backslash = 92

-- The class of characters of `escapeRegexValue`.
abbrev pub metacharacters : Text
metacharacters = text ".*+?^${}()|[]\\"

abbrev pub is_metacharacter : ℕ → Bool
is_metacharacter c = any (λ d. d == c) metacharacters

-- `escapeRegexValue`
unfoldable pub escape_regex_value : Text → Text
escape_regex_value [] = []
escape_regex_value (c ∷ s) =
    let rest = escape_regex_value s in if is_metacharacter c then backslash ∷ c ∷ rest else c ∷ rest

-- `escapedLiterals`
abbrev pub escaped_literals : Text
escaped_literals = text "\\.^$*+?()[]{}|"

-- `unsupportedSyntax`
abbrev pub unsupported_syntax : Text
unsupported_syntax = text "()[]{}|"

pub data Kind : Type 0 where
  escape caret dollar quantifier outside literal : Kind

-- Which branch of the loop takes a character.
abbrev pub kind_of : ℕ → Kind
kind_of c =
    if c == backslash
    then escape
    else if c == b'^'
    then caret
    else if c == b'$'
    then dollar
    else if (c == b'*') || (c == b'+') || (c == b'?')
    then quantifier
    else if any (λ d. d == c) unsupported_syntax || ltb c 32
    then outside
    else literal

abbrev pub onto : Text → Outcome → Outcome
onto s (done t) = done (s ++ t)
onto s (refused r) = refused r

abbrev is_last : Text → Bool
is_last [] = true
is_last (c ∷ s) = false

-- The loop of `normalizeRe2PatternForMongo`: `first` at index 0, `quantified` is `canQuantify`, and
-- `escaping` says that the character before is a backslash whose escape this one completes.
unfoldable pub normalize_from : Bool → Bool → Bool → Text → Outcome
normalize_from first can_quantify true [] = refused not_a_literal_escape
normalize_from first can_quantify true (c ∷ s) = elim (any (λ d. d == c) escaped_literals) [
  | true ↦ onto (backslash ∷ c ∷ []) (normalize_from false true false s)
  | false ↦ refused not_a_literal_escape
]
normalize_from first can_quantify false [] = done []
normalize_from first can_quantify false (c ∷ s) = elim (kind_of c) [
  | escape ↦ normalize_from false can_quantify true s
  | caret ↦ elim first [
    | true ↦ onto (c ∷ []) (normalize_from false false false s)
    | false ↦ refused inner_caret
  ]
  | dollar ↦ elim (is_last s) [
    | true ↦ onto (text "\\z") (normalize_from false false false s)
    | false ↦ refused inner_dollar
  ]
  | quantifier ↦ elim can_quantify [
    | true ↦ onto (c ∷ []) (normalize_from false false false s)
    | false ↦ refused invalid_quantifier
  ]
  | outside ↦ refused outside_the_subset
  | literal ↦ onto (c ∷ []) (normalize_from false true false s)
]

-- `normalizeRe2PatternForMongo`
unfoldable pub normalize_re2_pattern_for_mongo : Text → Outcome
unfolding normalize_from
normalize_re2_pattern_for_mongo pattern = normalize_from true false false pattern
